-- ===== src/Lib.antt =====
-- fancy-flow-rs: the workflow engine and its durable driver
--
-- The program. A workflow is a graph of nodes and edges (src/schema/mod.rs). The engine
-- (src/engine/walk.rs) sorts the graph, and walks it in that order as a state machine: `next_step`
-- returns the next node to execute with the executor that is bound to it (src/executors.rs, over
-- the spellings of a kind of src/registry/), the caller calls the executor, and `resume` publishes
-- the result on the output ports that it names (src/runtime/ports.rs), or ends the run. A node runs
-- if one of its inbound edges reads a published port. The executors of the built-in kinds
-- (src/nodes/) read their node's configuration as templates over its inputs
-- (src/nodes/support/expr.rs); `for_each` runs a part of its own graph once for each item. A graph
-- comes from a document and goes back to one (src/workflow.rs), and src/security.rs decides whether
-- it may run. The durable driver (src/durable/) runs a graph one node at a time over a store of
-- rows: the frontier says which nodes can run, the dispatch cap how many, a worker claims a node,
-- replays the graph with every other node fenced off, and checkpoints. A node that waits for a
-- person pauses the run until an answer is recorded (src/durable/human.rs).
--
-- The files.
--   Prelude     names and lemmas that the other files share; BTreeMap is an association list whose
--               keys are distinct where it is built by its operations; Scan has the operations of Rust
--               on text that the crate uses
--   Platform    what the crate takes from outside, as a record: the values of `fancy_json` with the
--               laws of its accessors, `f64`, the executors that a host binds as opaque handles, and
--               the state of the host. A signal and a clock read that state
--   Schema      src/schema/mod.rs: the types, Json (`string_at`), Port and Metadata (their JSON form)
--   Runtime     src/runtime/: Events, Port, Pause, Identity, Options, Feed (events as JSON)
--   Registry    src/registry/: KindId, Kind, Catalogue (`NodeKindRegistry`), PortResolution,
--               Validation (`validate_config`), Builtin (the kind `transform` of the built-in table),
--               Document (kinds as JSON)
--   Executors   src/executors.rs and the data of src/runtime/context.rs; Context has what an executor
--               asks of its context
--   Nodes       src/nodes/: Expr (templates), Routing (`branch`, `switch_case`), Lane (the part of a
--               graph that a loop repeats), ForEach, Shaping (`merge`, `wait`, `transform`), Structural
--               (`subgraph`, `subflow`), Passing (triggers and what calls nothing outside), Calls (what
--               calls a client of the host, the client being an argument), Stores (`memory_store` and
--               `data_store` over the trait `KeyValueStore`, and the in-memory store),
--               Offline (the clients that echo)
--   Workflow    src/workflow.rs: Export, Import
--   Engine      src/engine/: Topo (`topo_sort`), Activation (`activated_ports`), Undelivered, Walk
--               (the state, `start`, `publish`, `collect_inputs`), Stepping (`next_step`, `resume`,
--               `finish` and the loop of src/engine/mod.rs)
--   Durable     src/durable/: State (the rows and the in-memory store), Store (the trait
--               `NodeClaimStore` as an interface with its laws), Retry, Dispatch, Frontier, Replay,
--               Coordinator, RunNode (`run_node`), Completion (`run_to_completion`), Human (the two
--               gates, with the borrow of the cell that they share as an argument)
--   Analysis    src/analysis/graph_connectivity.rs, and src/security.rs: GraphPolicy (which kinds are
--               permitted), Inspection (`inspect`)
--   Marketplace src/marketplace.rs: versions; Ranges (the ranges of versions as intervals), Manifest
--   Capabilities  src/capabilities.rs
--   Tests       a concrete platform, runs of small graphs, the theorems at concrete inputs
--
-- The state. `Walk` holds the fields of the struct that change and `Setup` the references that do
-- not. Functions that change `self` return the new state. The state of the host is passed through
-- every call of an executor. `Session` is what a coordinator changes: its store, the host's state,
-- the counter of minted tokens and the events delivered to a sink. The assertion of `next_step`
-- that no outcome is awaited is a missing result where it fails.
--
-- Fuel. `topo_sort`, `next_step`, the loop of the driver, the fixpoint of the frontier and the
-- passes of `run_to_completion` are bounded. The passes are the source's own limit; the retries of
-- a node are bounded by the attempts that its policy gives it. The frontier's loop has one pass for
-- each node and one more, `next_step` one turn for each place left and one more, the driver one
-- round for each place and one more, and the sort one round for each node and one more. A sort of a
-- graph with duplicate ids can need more, since the source's loop does not end on some of them:
-- `start` and all that calls it are then `none`. The filling of a template and the splitting of a
-- range of versions have a round for each of their characters, the search for the nodes of a lane
-- one for each start and each edge, and the inspection of a configuration one for each value down
-- to the first level that is too deep: each of these is proved to end within its rounds.
--
-- Not modelled. The table of built-in kinds is a parameter where the code reads it, but for the
-- kind `transform`. The parser and the printer of JSON and the text form of a float are parameters.
-- The error types of src/error.rs and the builders that write one field are left out.
pub mod Prelude
pub mod Platform
pub mod Schema
pub mod Runtime
pub mod Registry
pub mod Executors
pub mod Engine
pub mod Durable
pub mod Nodes
pub mod Analysis
pub mod Workflow
pub mod Marketplace
pub mod Capabilities
pub mod Tests
