-- ===== src/Engine/Undelivered.antt =====
-- engine/undelivered_edges.rs: a warning for each inbound edge that can never deliver.
use fancy_flow_rs.Prelude.{
  List, [], ◌∷◌, ◌++◌, String, Bool, false, not, Option, some, none, if◌then◌else◌, ◌==◌, ◌||◌, any,
  ◌<>◌, join,
}
use fancy_flow_rs.Prelude.BTreeMap
use fancy_flow_rs.Prelude.BTreeMap.{BTreeMap}
use fancy_flow_rs.Platform.{Platform}
use fancy_flow_rs.Schema.{FlowNode, FlowEdge, source_port}
use fancy_flow_rs.Registry.Catalogue.{NodeKindRegistry}
use fancy_flow_rs.Registry.Catalogue
use fancy_flow_rs.Registry.Kind.{NodeKind, OutputField, output_fields}
use fancy_flow_rs.Registry.PortResolution.{possible_ports}
use fancy_flow_rs.Registry.KindId.{contains}
use fancy_flow_rs.Runtime.Events.{RunEvent, warn, log_with_detail}

-- What a driver has recorded about a run: the trait's three questions.
pub record PublishedPorts : Type 0 where
  pub completed : String → Bool
  pub published : String → String → Bool
  pub in_publication_order : String → List String

module _ ⦃P : Platform⦄ where
  -- `builtin` is the catalogue that registry/builtin.rs fills.
  pub record KindLookup : Type 0 where
    pub runner : Option NodeKindRegistry
    pub executors : Option NodeKindRegistry
    pub builtin : NodeKindRegistry

  abbrev look_up : Option NodeKindRegistry → String → Option NodeKind
  look_up (some kinds) name = Catalogue.get kinds name
  look_up none name = none

  unfoldable pub kind_named : KindLookup → String → Option NodeKind
  unfolding Catalogue.get
  kind_named kinds name = elim (look_up kinds.runner name) [
    | some kind ↦ some kind
    | none ↦ elim (look_up kinds.executors name) [
      | some kind ↦ some kind
      | none ↦ Catalogue.get kinds.builtin name
    ]
  ]

  abbrev pub names_field : Option (List OutputField) → String → Bool
  names_field (some fields) handle = any (λ f. f.path == handle) fields
  names_field none handle = false

  open P use {Value, Map, string, object, empty, insert}

  unfoldable pub kind_of : KindLookup → FlowNode → Option NodeKind
  unfolding kind_named
  kind_of kinds node = elim node.kind [ some name ↦ kind_named kinds name | none ↦ none ]

  -- The clause that lists what the source did publish.
  available_text : List String → String
  unfolding join
  available_text [] = ""
  available_text (port ∷ ports) = " Available: " <> join ", " (port ∷ ports) <> "."

  unfoldable pub undelivered_edge_message :
      FlowEdge → FlowNode → Option NodeKind → FlowNode → PublishedPorts → String
  unfolding source_port available_text output_fields
  undelivered_edge_message edge source kind target run =
      let handle = source_port edge in
      let is_field = names_field (elim kind [ some k ↦ output_fields k | none ↦ none ]) handle in
      "Edge "
      <> edge.id
      <> " reads port \""
      <> handle
      <> "\" from node "
      <> source.id
      <> ", which never publishes it — nothing would reach "
      <> target.id
      <> " at run time."
      <> available_text (run.in_publication_order source.id)
      <> (if is_field
          then " Note: \"" <> handle
            <> "\" is a FIELD this node emits, not a port — read it downstream as {{ in." <> handle
            <> " }} rather than naming it as a source handle."
          else "")
      <> elim edge.source_handle [
        | some _ ↦ " Leave sourceHandle off to read the node's output."
        | none ↦ ""
      ]

  unfoldable pub edge_warning :
      FlowNode → PublishedPorts → KindLookup → FlowEdge → FlowNode → RunEvent
  unfolding undelivered_edge_message source_port kind_of
  edge_warning target run kinds edge source =
      log_with_detail warn (undelivered_edge_message edge source (kind_of kinds source) target run)
        (some target.id)
        (object (
          insert (insert (insert empty "edge" (string edge.id)) "source" (string edge.source))
            "sourceHandle" (string (source_port edge))))

  -- The body of the loop: the warning that one edge raises, if any.
  unfoldable pub edge_warnings :
      FlowNode → PublishedPorts → BTreeMap FlowNode → KindLookup → FlowEdge → List RunEvent
  unfolding source_port BTreeMap.get edge_warning possible_ports kind_of contains
  edge_warnings target run nodes_by_id kinds edge =
      let handle = source_port edge in
      if run.published edge.source handle || not (run.completed edge.source)
      then []
      else elim (BTreeMap.get nodes_by_id edge.source) [
        | none ↦ []
        | some source ↦
            if contains (possible_ports source (kind_of kinds source)) handle
            then []
            else edge_warning target run kinds edge source ∷ []
      ]

  unfoldable pub undelivered_edge_warnings :
      FlowNode → List FlowEdge → PublishedPorts → BTreeMap FlowNode → KindLookup → List RunEvent
  unfolding edge_warnings
  undelivered_edge_warnings target [] run nodes_by_id kinds = []
  undelivered_edge_warnings target (edge ∷ incoming) run nodes_by_id kinds =
      edge_warnings target run nodes_by_id kinds edge
      ++ undelivered_edge_warnings target incoming run nodes_by_id kinds

  unfoldable pub index_nodes : BTreeMap FlowNode → List FlowNode → BTreeMap FlowNode
  unfolding BTreeMap.insert
  index_nodes index [] = index
  index_nodes index (node ∷ nodes) = index_nodes (BTreeMap.insert index node.id node) nodes
