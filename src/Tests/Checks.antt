-- ===== src/Tests/Checks.antt =====
-- The theorems about the checks of a graph, at concrete inputs.
use fancy_flow_rs.Prelude.{[], ◌∷◌, true, not, some, ◌&&◌, ◌≡◌, ◌⊎◌, refl, arith}
use mathlib.Core.List.{Memᴰ}
use fancy_flow_rs.Schema.{FlowEdge}
use fancy_flow_rs.Registry.Kind.{new_kind, NodeKind}
use fancy_flow_rs.Registry.KindId.{contains}
use fancy_flow_rs.Registry.Catalogue.{NodeKindRegistry, register, empty_registry}
use fancy_flow_rs.Registry.Catalogue
use fancy_flow_rs.Registry.Catalogue.Lookup.{IsIndexed, get-register}
use fancy_flow_rs.Registry.Kind
use fancy_flow_rs.Prelude.BTreeMap
use fancy_flow_rs.Analysis.GraphConnectivity.{check_graph_connectivity, may_float}
use fancy_flow_rs.Analysis.GraphConnectivity.Accepted.{check_graph_connectivity-wired}
use fancy_flow_rs.Analysis.GraphPolicy.{
  trusted, untrusted, allow_kinds, deny_kinds, permits, permits-allow_kinds, spelled,
}
use fancy_flow_rs.Tests.Sample.{sample, node, edge}

abbrev task : NodeKind
task = new_kind "task" "logic" "Task"

abbrev catalogue : NodeKindRegistry
catalogue = record { kinds = task ∷ []; index = ("task", 0) ∷ [] }

check_graph_connectivity-wired_example :
    (e : FlowEdge) × Memᴰ e (edge "a" "b" ∷ []) × ((e.target ≡ "b") ⊎ (e.source ≡ "b"))
unfolding check_graph_connectivity may_float
check_graph_connectivity-wired_example =
    check_graph_connectivity-wired (node "a" ∷ node "b" ∷ []) (edge "a" "b" ∷ []) catalogue
      (node "b") refl (λ e. omega (arith, e)) (Memᴰ.tail (Memᴰ.head refl)) refl

permits-allow_kinds_example :
    (permits
        (deny_kinds (allow_kinds untrusted ("transform" ∷ "notify" ∷ [])) ("@fancy/notify" ∷ []))
        "notify"
      ≡ (not (spelled ("@fancy/notify" ∷ []) "notify")
          && spelled ("transform" ∷ "notify" ∷ []) "notify"))
    × (permits
          (allow_kinds (deny_kinds untrusted ("@fancy/notify" ∷ [])) ("transform" ∷ "notify" ∷ []))
          "notify"
        ≡ permits
            (deny_kinds
              (allow_kinds untrusted ("transform" ∷ "notify" ∷ []))
              ("@fancy/notify" ∷ []))
            "notify")
permits-allow_kinds_example =
    permits-allow_kinds untrusted ("transform" ∷ "notify" ∷ []) ("@fancy/notify" ∷ []) "notify"

abbrev llm_router : NodeKind
llm_router = record task { name = "llm_router"; aliases = "llm_branch" ∷ [] }

empty_registry-IsIndexed : IsIndexed empty_registry
unfolding BTreeMap.get
empty_registry-IsIndexed s at h = cc

get-register_example :
    Catalogue.get (register empty_registry llm_router) "llm_branch" ≡ some llm_router
unfolding contains Kind.ids
get-register_example =
    get-register empty_registry llm_router "llm_branch" empty_registry-IsIndexed refl

-- A kind that lists another name, and a policy that denies the kind by its own name.
renamed_found : Catalogue.get (register empty_registry llm_router) "llm_branch" ≡ some llm_router
unfolding Catalogue.get register
renamed_found = refl

renamed_permitted : permits (deny_kinds trusted ("llm_router" ∷ [])) "llm_branch" ≡ true
unfolding permits deny_kinds
renamed_permitted = refl
