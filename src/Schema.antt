-- ===== src/Schema.antt =====
-- schema/mod.rs: the graph's nodes, edges and ports.
pub mod Json
pub mod Port
pub mod Metadata
use fancy_flow_rs.Prelude.{List, [], ◌∷◌, String, Option, some, none, if◌then◌else◌, ◌==◌}
use fancy_flow_rs.Platform.{Platform}

pub record PortDescriptor : Type 0 where
  pub id : String
  pub label : Option String
  pub kind : Option String

pub record FlowEdge : Type 0 where
  pub id : String
  pub source : String
  pub target : String
  pub source_handle : Option String
  pub target_handle : Option String
  pub label : Option String

abbrev pub or_text : Option String → String → String
or_text (some s) d = s
or_text none d = d

unfoldable pub source_port : FlowEdge → String
source_port edge = or_text edge.source_handle "out"

unfoldable pub target_port : FlowEdge → String
target_port edge = or_text edge.target_handle "in"

module _ ⦃P : Platform⦄ where
  open P use {Map, Float}

  pub record FlowNode : Type 0 where
    pub id : String
    pub kind : Option String
    pub x : Float
    pub y : Float
    pub label : Option String
    pub description : Option String
    pub config : Map
    pub inputs : Option (List PortDescriptor)
    pub outputs : Option (List PortDescriptor)

  pub record FlowGraph : Type 0 where
    pub nodes : List FlowNode
    pub edges : List FlowEdge

  -- `self.nodes.iter().find(…)`
  unfoldable pub find_node : List FlowNode → String → Option FlowNode
  find_node [] id = none
  find_node (node ∷ nodes) id = if node.id == id then some node else find_node nodes id

  unfoldable pub node : FlowGraph → String → Option FlowNode
  unfolding find_node
  node graph id = find_node graph.nodes id
