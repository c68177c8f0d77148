-- ===== src/Workflow/Export.antt =====
-- workflow.rs: a graph written as a document.
use fancy_flow_rs.Prelude.{ℤ, pos, List, map, String, Option, some, none, if◌then◌else◌}
use fancy_flow_rs.Platform.{Platform}
use fancy_flow_rs.Schema.{PortDescriptor, FlowNode, FlowEdge, FlowGraph, or_text}
use fancy_flow_rs.Schema.Json.{put, text_value}
use fancy_flow_rs.Schema.Port.{to_value}
use fancy_flow_rs.Schema.Metadata
use fancy_flow_rs.Schema.Metadata.{WorkflowMetadata}

abbrev pub schema_version : ℤ
schema_version = pos 1

abbrev pub schema_url : String
schema_url = "https://particle.academy/schemas/workflow/v1.json"

module _ ⦃P : Platform⦄ where
  open P use {
    Value, Map, string, array, object, from_i64, from_f64, empty, insert, is_empty, to_string,
  }

  -- An empty configuration is not written.
  abbrev pub config_value : Map → Option Value
  config_value config = if is_empty config then none else some (object config)

  -- An empty list of ports is written, and only an undeclared one is not.
  abbrev pub ports_value : Option (List PortDescriptor) → Option Value
  ports_value (some ports) = some (array (map to_value ports))
  ports_value none = none

  unfoldable pub position_of : FlowNode → Map
  position_of node = insert (insert empty "x" (from_f64 node.x)) "y" (from_f64 node.y)

  unfoldable pub node_map : FlowNode → Map
  unfolding position_of to_value
  node_map node =
      let named =
        insert (insert empty "id" (string node.id)) "kind" (string (or_text node.kind "custom")) in
      let placed = insert named "position" (object (position_of node)) in
      let told =
        put (put placed "label" (text_value node.label)) "description"
          (text_value node.description) in
      put (put (put told "config" (config_value node.config)) "inputs" (ports_value node.inputs))
        "outputs" (ports_value node.outputs)

  unfoldable pub edge_map : FlowEdge → Map
  edge_map edge =
      let ends =
        insert (insert (insert empty "id" (string edge.id)) "source" (string edge.source)) "target"
          (string edge.target) in
      put
        (put (put ends "sourceHandle" (text_value edge.source_handle)) "targetHandle"
          (text_value edge.target_handle))
        "label" (text_value edge.label)

  abbrev pub node_value : FlowNode → Value
  node_value node = object (node_map node)

  abbrev pub edge_value : FlowEdge → Value
  edge_value edge = object (edge_map edge)

  abbrev metadata_value : Option WorkflowMetadata → Option Value
  metadata_value (some m) = some (Metadata.to_value m)
  metadata_value none = none

  unfoldable pub graph_map : FlowGraph → Map
  unfolding node_map edge_map
  graph_map graph =
      insert (insert empty "nodes" (array (map node_value graph.nodes))) "edges"
        (array (map edge_value graph.edges))

  unfoldable pub document_map : FlowGraph → Option WorkflowMetadata → Map
  unfolding graph_map
  document_map graph metadata =
      let head =
        insert (insert empty "$schema" (string schema_url)) "version" (from_i64 schema_version) in
      insert (put head "metadata" (metadata_value metadata)) "graph" (object (graph_map graph))

  unfoldable pub export_workflow : FlowGraph → Option WorkflowMetadata → Value
  unfolding document_map
  export_workflow graph metadata = object (document_map graph metadata)

  unfoldable pub to_json : FlowGraph → Option WorkflowMetadata → String
  unfolding export_workflow
  to_json graph metadata = to_string (export_workflow graph metadata)
