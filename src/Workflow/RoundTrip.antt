-- ===== src/Workflow/RoundTrip.antt =====
-- A graph that is written and read again.
use fancy_flow_rs.Prelude.{
  List, [], ◌∷◌, map, String, Bool, true, false, Option, some, none, ◌≡◌, ◌⊎◌, inl, inr, refl, sym,
  subst, ◌∙◌, ap, ap₂, arith, Bool-cases,
}
use fancy_flow_rs.Prelude.Scan.{is_blank}
use fancy_flow_rs.Platform.{Platform}
use fancy_flow_rs.Schema.{PortDescriptor, FlowNode, FlowEdge, FlowGraph}
use fancy_flow_rs.Schema.Json.{string_at, str_of, first, get-put, str_of-text_value}
use fancy_flow_rs.Schema.Port.{to_value, to_map, from_value-to_value}
use fancy_flow_rs.Schema.Metadata.{WorkflowMetadata}
use fancy_flow_rs.Registry.KindId.{contains}
use fancy_flow_rs.Registry.Catalogue.{NodeKindRegistry, get}
use fancy_flow_rs.Workflow.Export.{
  config_value, ports_value, position_of, node_map, node_value, edge_map, edge_value, graph_map,
  document_map, export_workflow, schema_version,
}
use fancy_flow_rs.Workflow.Import.{
  map_of, int_in, or_map, ports_in, ports_from, unless_blank, optional, default_config_of,
  read_node, read_nodes, read_edge, read_edges, ids_of, read_graph, import_workflow,
}

abbrev pub All {ℓ κ} : {A : Type ℓ} → (A → Type κ) → List A → Type κ
All Q [] = Unit
All Q (x ∷ l) = Q x × All Q l

-- No handle, or one that is not blank.
abbrev pub IsNamed : Option String → Type 0
IsNamed (some s) = is_blank s ≡ false
IsNamed none = Unit

unless_blank-named : (o : Option String) → IsNamed o → unless_blank o ≡ o
unless_blank-named none h = refl
unless_blank-named (some s) h = rw h

module _ ⦃P : Platform⦄ where
  open P use {
    Value, Map, is_finite, is_empty, empty, object, array, as_str-string, as_str-object,
    as_array-array, as_object-object, get_in-object, get-insert, get-empty, as_i64-from_i64,
    as_f64-from_f64, eq-empty,
  }

  -- A node that names its kind and has a label, a finite position, and a configuration that is not
  -- empty unless the kind brings none.
  pub record IsKept (registry : NodeKindRegistry) (node : FlowNode) : Type 0 where
    pub kind : String
    pub label : String
    pub of_kind : node.kind ≡ some kind
    pub labelled : node.label ≡ some label
    pub finite_x : is_finite node.x ≡ true
    pub finite_y : is_finite node.y ≡ true
    pub configured :
        (is_empty node.config ≡ false) ⊎ (default_config_of (get registry kind) ≡ empty)

  -- An edge between nodes of the graph, with no handle that is blank.
  pub record IsJoined (ids : List String) (edge : FlowEdge) : Type 0 where
    pub from : contains ids edge.source ≡ true
    pub to : contains ids edge.target ≡ true
    pub out_of : IsNamed edge.source_handle
    pub into : IsNamed edge.target_handle

  port_id : (p : PortDescriptor) → str_of (P.get_in (to_value p) "id") ≡ some p.id
  unfolding to_value to_map
  port_id p = simp (get_in-object, get-put, get-insert, as_str-string)

  port_object : (p : PortDescriptor) → P.as_str (to_value p) ≡ none
  unfolding to_value
  port_object p = as_str-object (to_map p)

  ports_in-map : (ports : List PortDescriptor) → ports_in (map to_value ports) ≡ ports
  unfolding ports_in
  ports_in-map [] = refl
  ports_in-map (p ∷ ports) =
      rw (port_object p, ports_in)
        (rw (port_id p, ports_in) (ap₂ (λ q l. q ∷ l) (from_value-to_value p) (ports_in-map ports)))

  ports_from-ports_value :
      (o : Option (List PortDescriptor)) → ports_from (first (ports_value o) none) ≡ o
  unfolding ports_from
  ports_from-ports_value none = refl
  ports_from-ports_value (some ports) =
      rw (as_array-array (map to_value ports)) (ap some (ports_in-map ports))

  config_back :
      (config default : Map)
      → (is_empty config ≡ false) ⊎ (default ≡ empty)
      → or_map (map_of (first (config_value config) none)) default ≡ config
  config_back config default h = elim (Bool-cases (is_empty config)) [
    | inr some_left ↦ rw (some_left, as_object-object config) refl
    | inl none_left ↦ elim h [
      | inl other ↦ absurd (cc)
      | inr same ↦ rw (none_left, same) (sym (eq-empty config none_left))
    ]
  ]

  read_node-named :
      (registry : NodeKindRegistry) (node : FlowNode) (kind label : String)
      → is_finite node.x ≡ true
      → is_finite node.y ≡ true
      → (is_empty node.config ≡ false) ⊎ (default_config_of (get registry kind) ≡ empty)
      → read_node registry node.id
          (node_value (record node { kind = some kind; label = some label }))
        ≡ record node { kind = some kind; label = some label }
  unfolding read_node node_map position_of string_at
  read_node-named registry node kind label x y configured = simp (
    get_in-object,
    get-put,
    get-insert,
    get-empty,
    as_str-string,
    str_of-text_value,
    as_f64-from_f64 node.x x,
    as_f64-from_f64 node.y y,
    ports_from-ports_value,
    config_back node.config (default_config_of (get registry kind)) configured,
  )

  read_node-node_map :
      (registry : NodeKindRegistry) (node : FlowNode)
      → IsKept registry node
      → read_node registry node.id (node_value node) ≡ node
  read_node-node_map registry node kept =
      let named : record node { kind = some kept.kind; label = some kept.label } ≡ node =
        λ i. record node { kind = sym kept.of_kind i; label = sym kept.labelled i } in
      subst (λ n. read_node registry n.id (node_value n) ≡ n) named
        (read_node-named registry node kept.kind kept.label kept.finite_x kept.finite_y
          kept.configured)

  read_edge-edge_map :
      (ids : List String) (edge : FlowEdge) → IsJoined ids edge → read_edge (edge_value edge) ≡ edge
  unfolding read_edge edge_map string_at optional
  read_edge-edge_map ids edge joined = simp (
    get_in-object,
    get-put,
    get-insert,
    get-empty,
    as_str-string,
    str_of-text_value,
    unless_blank-named edge.source_handle joined.out_of,
    unless_blank-named edge.target_handle joined.into,
  )

  node_id : (node : FlowNode) → string_at (node_value node) "id" ≡ some node.id
  unfolding string_at node_map
  node_id node = simp (get_in-object, get-put, get-insert, as_str-string)

  read_nodes-map :
      (lenient : Bool) (registry : NodeKindRegistry) (nodes : List FlowNode)
      → All (IsKept registry) nodes
      → (read_nodes lenient registry (map node_value nodes)).0 ≡ nodes
  unfolding read_nodes
  read_nodes-map lenient registry [] kept = refl
  read_nodes-map lenient registry (node ∷ nodes) (this, others) =
      rw (node_id node, read_nodes)
        (ap₂ (λ n l. n ∷ l) (read_node-node_map registry node this)
          (read_nodes-map lenient registry nodes others))

  read_edges-joined :
      (ids : List String) (raw : Value) (raws : List Value)
      → contains ids (read_edge raw).source ≡ true
      → contains ids (read_edge raw).target ≡ true
      → (read_edges ids (raw ∷ raws)).0 ≡ read_edge raw ∷ (read_edges ids raws).0
  unfolding read_edges
  read_edges-joined ids raw raws from to = ground arith

  read_edges-map :
      (ids : List String) (edges : List FlowEdge)
      → All (IsJoined ids) edges
      → (read_edges ids (map edge_value edges)).0 ≡ edges
  unfolding read_edges
  read_edges-map ids [] joined = refl
  read_edges-map ids (edge ∷ edges) (this, others) =
      let back = read_edge-edge_map ids edge this in
      read_edges-joined ids (edge_value edge) (map edge_value edges)
        (subst (λ e. contains ids e.source ≡ true) (sym back) this.from)
        (subst (λ e. contains ids e.target ≡ true) (sym back) this.to)
      ∙ ap₂ (λ e l. e ∷ l) back (read_edges-map ids edges others)

  read_graph-graph_map :
      (graph : FlowGraph) (lenient : Bool) (registry : NodeKindRegistry)
      → All (IsKept registry) graph.nodes
      → All (IsJoined (ids_of graph.nodes)) graph.edges
      → (read_graph lenient registry [] (some (graph_map graph))).graph ≡ graph
  unfolding read_graph graph_map
  read_graph-graph_map graph lenient registry kept joined = simp (
    get-insert,
    as_array-array,
    read_nodes-map lenient registry graph.nodes kept,
    read_edges-map (ids_of graph.nodes) graph.edges joined,
  )

  written_version :
      (graph : FlowGraph) (metadata : Option WorkflowMetadata)
      → int_in (P.get (document_map graph metadata) "version") ≡ some schema_version
  unfolding document_map
  written_version graph metadata = simp (get-put, get-insert, as_i64-from_i64)

  written_graph :
      (graph : FlowGraph) (metadata : Option WorkflowMetadata)
      → map_of (P.get (document_map graph metadata) "graph") ≡ some (graph_map graph)
  unfolding document_map
  written_graph graph metadata = simp (get-insert, as_object-object)

  -- A graph that is exported, with metadata or without, is read back node by node and edge by edge as
  -- it was, leniently or not, where each node names its kind, has a label, a finite position and a
  -- configuration that is not empty unless the kind brings none, and each edge joins nodes of the
  -- graph by handles that are not blank.
  pub import_workflow-export_workflow :
      (graph : FlowGraph) (metadata : Option WorkflowMetadata) (lenient : Bool)
      (registry : NodeKindRegistry)
      → All (IsKept registry) graph.nodes
      → All (IsJoined (ids_of graph.nodes)) graph.edges
      → (import_workflow (export_workflow graph metadata) lenient registry).graph ≡ graph
  unfolding import_workflow export_workflow
  import_workflow-export_workflow graph metadata lenient registry kept joined =
      rw (as_object-object (document_map graph metadata), import_workflow)
        (rw (written_version graph metadata, written_graph graph metadata)
          (read_graph-graph_map graph lenient registry kept joined))
