-- ===== src/Workflow/Import.antt =====
-- workflow.rs: a graph read from a document.
use fancy_flow_rs.Prelude.{
  ℤ, List, [], ◌∷◌, ◌++◌, String, Bool, false, not, Option, some, none, if◌then◌else◌, ◌&&◌, ◌<>◌,
  any, display, nat_beq, pos_part, neg_part,
}
use fancy_flow_rs.Prelude.Scan.{is_blank}
use fancy_flow_rs.Platform.{Platform}
use fancy_flow_rs.Schema.{PortDescriptor, FlowNode, FlowEdge, FlowGraph, or_text}
use fancy_flow_rs.Schema.Json.{string_at, str_of, list_of}
use fancy_flow_rs.Schema.Port.{port, from_value}
use fancy_flow_rs.Registry.KindId.{contains}
use fancy_flow_rs.Registry.Kind.{NodeKind, resolved_default_config}
use fancy_flow_rs.Registry.Catalogue.{NodeKindRegistry, get}
use fancy_flow_rs.Registry.Validation.{ConfigIssue, validate_config}
use fancy_flow_rs.Analysis.GraphConnectivity.{
  ImportIssue, issue, warning_issue, is_error, at_node, at_edge, check_graph_connectivity,
}

-- An error, or where the reading is lenient a warning.
abbrev graded : Bool → String → ImportIssue
graded lenient message = if lenient then warning_issue message else issue message

abbrev pub or_else_text : Option String → Option String → Option String
or_else_text (some s) t = some s
or_else_text none t = t

abbrev pub unless_blank : Option String → Option String
unless_blank (some s) = if is_blank s then none else some s
unless_blank none = none

module _ ⦃P : Platform⦄ where
  open P use {
    Value, Map, Float, zero_float, as_str, as_array, as_object, as_i64, as_f64, empty, get_in,
  }

  pub record ImportResult : Type 0 where
    pub ok : Bool
    pub graph : FlowGraph
    pub issues : List ImportIssue

  abbrev pub no_graph : FlowGraph
  no_graph = record { nodes = []; edges = [] }

  abbrev pub map_of : Option Value → Option Map
  map_of (some v) = as_object v
  map_of none = none

  abbrev pub int_in : Option Value → Option ℤ
  int_in (some v) = as_i64 v
  int_in none = none

  abbrev pub or_map : Option Map → Map → Map
  or_map (some m) d = m
  or_map none d = d

  abbrev pub or_list : Option (List Value) → List Value
  or_list (some l) = l
  or_list none = []

  -- A text is the id of a port; an object needs an id that is a text.
  unfoldable pub ports_in : List Value → List PortDescriptor
  unfolding from_value
  ports_in [] = []
  ports_in (v ∷ l) =
      let rest = ports_in l in
      elim (as_str v) [
        | some id ↦ port id ∷ rest
        | none ↦ elim (str_of (get_in v "id")) [ some _ ↦ from_value v ∷ rest | none ↦ rest ]
      ]

  abbrev ports_of : Option (List Value) → Option (List PortDescriptor)
  ports_of (some l) = some (ports_in l)
  ports_of none = none

  unfoldable pub ports_from : Option Value → Option (List PortDescriptor)
  unfolding ports_in
  ports_from raw = ports_of (list_of raw)

  unfoldable pub optional : Value → String → Option String
  optional raw key = unless_blank (str_of (get_in raw key))

  abbrev pub field_in : Option Value → String → Option Value
  field_in (some v) key = get_in v key
  field_in none key = none

  abbrev pub float_in : Option Value → Option Float
  float_in (some v) = as_f64 v
  float_in none = none

  abbrev pub or_zero : Option Float → Float
  or_zero (some x) = x
  or_zero none = zero_float

  unfoldable pub default_config_of : Option NodeKind → Map
  unfolding resolved_default_config
  default_config_of (some kind) = resolved_default_config kind
  default_config_of none = empty

  abbrev pub kind_label : Option NodeKind → Option String
  kind_label (some kind) = some kind.label
  kind_label none = none

  unfoldable pub read_node : NodeKindRegistry → String → Value → FlowNode
  unfolding get string_at default_config_of ports_from
  read_node registry id raw =
      let kind_name = or_text (string_at raw "kind") "" in
      let kind = get registry kind_name in
      record {
        id = id;
        kind = some kind_name;
        x = or_zero (float_in (field_in (get_in raw "position") "x"));
        y = or_zero (float_in (field_in (get_in raw "position") "y"));
        label =
            or_else_text (string_at raw "label") (or_else_text (kind_label kind) (some kind_name));
        description = string_at raw "description";
        config = or_map (map_of (get_in raw "config")) (default_config_of kind);
        inputs = ports_from (get_in raw "inputs");
        outputs = ports_from (get_in raw "outputs");
      }

  config_issues : String → List ConfigIssue → List ImportIssue
  config_issues id [] = []
  config_issues id (i ∷ l) =
      at_node (warning_issue (i.key <> ": " <> i.message)) id ∷ config_issues id l

  unfoldable pub node_issues : Bool → NodeKindRegistry → FlowNode → List ImportIssue
  unfolding get config_issues validate_config
  node_issues lenient registry node =
      let kind_name = or_text node.kind "" in
      elim (get registry kind_name) [
        | some kind ↦ config_issues node.id (validate_config registry kind_name node.config)
        | none ↦
            at_node
              (graded lenient
                ("Unknown kind \"" <> kind_name <> "\" - register it before importing."))
              node.id
            ∷ []
      ]

  -- What the loop over the nodes has pushed: the nodes, and the issues.
  unfoldable pub read_nodes :
      Bool → NodeKindRegistry → List Value → List FlowNode × List ImportIssue
  unfolding string_at read_node node_issues
  read_nodes lenient registry [] = ([], [])
  read_nodes lenient registry (raw ∷ raws) =
      let (nodes, issues) = read_nodes lenient registry raws in
      elim (string_at raw "id") [
        | none ↦ (nodes, issue "A node has no id." ∷ issues)
        | some id ↦
            let node = read_node registry id raw in
            (node ∷ nodes, node_issues lenient registry node ++ issues)
      ]

  unfoldable pub read_edge : Value → FlowEdge
  unfolding string_at optional
  read_edge raw = record {
    id = or_text (string_at raw "id") "";
    source = or_text (string_at raw "source") "";
    target = or_text (string_at raw "target") "";
    source_handle = optional raw "sourceHandle";
    target_handle = optional raw "targetHandle";
    label = string_at raw "label";
  }

  unfoldable pub read_edges : List String → List Value → List FlowEdge × List ImportIssue
  unfolding contains read_edge
  read_edges node_ids [] = ([], [])
  read_edges node_ids (raw ∷ raws) =
      let (edges, issues) = read_edges node_ids raws in
      let edge = read_edge raw in
      if not (contains node_ids edge.source)
      then (
        edges,
        at_edge (warning_issue ("Edge source \"" <> edge.source <> "\" not found.")) edge.id
            ∷ issues,
      )
      else if not (contains node_ids edge.target)
      then (
        edges,
        at_edge (warning_issue ("Edge target \"" <> edge.target <> "\" not found.")) edge.id
            ∷ issues,
      )
      else (edge ∷ edges, issues)

  abbrev pub ids_of : List FlowNode → List String
  ids_of [] = []
  ids_of (node ∷ nodes) = node.id ∷ ids_of nodes

  unfoldable pub read_graph : Bool → NodeKindRegistry → List ImportIssue → Option Map → ImportResult
  unfolding read_nodes read_edges check_graph_connectivity
  read_graph lenient registry found graph_raw =
      let raw = or_map graph_raw empty in
      let (nodes, node_found) =
        read_nodes lenient registry (or_list (list_of (P.get raw "nodes"))) in
      let (edges, edge_found) = read_edges (ids_of nodes) (or_list (list_of (P.get raw "edges"))) in
      let issues =
        found ++ (node_found ++ (edge_found ++ check_graph_connectivity nodes edges registry)) in
      record {
        ok = not (any is_error issues);
        graph = record { nodes = nodes; edges = edges };
        issues = issues;
      }

  abbrev pub is_current : Option ℤ → Bool
  is_current (some z) = nat_beq (pos_part z) 1 && nat_beq (neg_part z) 0
  is_current none = false

  abbrev debug : Option ℤ → String
  debug (some z) = "Some(" <> display z <> ")"
  debug none = "None"

  unfoldable pub version_message : Option ℤ → String
  unfolding display
  version_message version =
      "Unsupported workflow schema version: " <> debug version <> " (expected 1)"

  unfoldable pub import_workflow : Value → Bool → NodeKindRegistry → ImportResult
  unfolding read_graph version_message
  import_workflow document lenient registry = elim (as_object document) [
    | none ↦ record { ok = false; graph = no_graph; issues = issue "Schema is not an object." ∷ [] }
    | some root ↦
        let version = int_in (P.get root "version") in
        let complaint = graded lenient (version_message version) in
        let graph_raw = map_of (P.get root "graph") in
        if is_current version
        then read_graph lenient registry [] graph_raw
        else if lenient
        then read_graph lenient registry (complaint ∷ []) graph_raw
        else record { ok = false; graph = no_graph; issues = complaint ∷ [] }
  ]

  pub data ImportOutcome : Type 0 where
    imported : ImportResult → ImportOutcome
    not_json : ImportOutcome

  unfoldable pub import_json : String → Bool → NodeKindRegistry → ImportOutcome
  unfolding import_workflow
  import_json text lenient registry = elim (P.parse text) [
    | some document ↦ imported (import_workflow document lenient registry)
    | none ↦ not_json
  ]

  unfoldable pub errors : List ImportIssue → List ImportIssue
  errors [] = []
  errors (found ∷ issues) =
      let rest = errors issues in if is_error found then found ∷ rest else rest

  -- An issue is an error or a warning.
  unfoldable pub has_warnings : ImportResult → Bool
  has_warnings result = any (λ found. not (is_error found)) result.issues
