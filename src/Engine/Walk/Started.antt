-- ===== src/Engine/Walk/Started.antt =====
-- A graph with distinct ids can be started.
use fancy_flow_rs.Prelude.{[], false, some, ◌≡◌, inl, inr, refl, sym, subst, length}
use fancy_flow_rs.Platform.{Platform}
use fancy_flow_rs.Registry.KindId.{dedup_extend}
use fancy_flow_rs.Engine.Topo.{node_ids, TopoResult}
use fancy_flow_rs.Engine.Topo.Result.{topo_sort_total}
use fancy_flow_rs.Engine.Walk.{Setup, Walk, is_awaiting, start, start_from, fresh_walk}

module _ ⦃P : Platform⦄ where
  open P use {World}

  pub start_total :
      (s : Setup) (w : World)
      → length (dedup_extend [] (node_ids s.graph)) ≡ length (node_ids s.graph)
      → (walk : Walk) × (start s w ≡ some walk) × (is_awaiting walk.state ≡ false)
  unfolding start start_from
  start_total s w unique = elim (topo_sort_total s.graph unique) [
    | inl e ↦ subst Starts (sym e) (_, refl, refl)
    | inr (order, e) ↦ subst Starts (sym e) (_, refl, refl)
  ]
    where
      Starts : TopoResult → Type 0
      Starts t =
          (walk : Walk) × (start_from (fresh_walk s w) t ≡ some walk)
          × (is_awaiting walk.state ≡ false)
