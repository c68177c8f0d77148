-- ===== src/Nodes/ForEach/Iteration.antt =====
-- The loop over the items returns, and its results stand beside the items.
use fancy_flow_rs.Prelude.{
  ℕ, ◌+◌, List, [], ◌∷◌, ◌++◌, String, Option, some, ◌≡◌, ◌⊎◌, inl, inr, refl, sym, subst, ◌∙◌, ap,
  ap₂, length, append_assoc, append-nil,
}
use fancy_flow_rs.Platform.{Platform}
use fancy_flow_rs.Schema.{FlowEdge, FlowGraph}
use fancy_flow_rs.Registry.KindId.{dedup_extend}
use fancy_flow_rs.Registry.Catalogue.{NodeKindRegistry}
use fancy_flow_rs.Executors.{ExecutionContext}
use fancy_flow_rs.Engine.Topo.{node_ids}
use fancy_flow_rs.Engine.Stepping.{Execute}
use fancy_flow_rs.Nodes.ForEach.{
  ItemEnd, succeeded, failed, stopped, LoopEnd, finished, loop_stopped, failure, run_item,
  run_items,
}
use fancy_flow_rs.Nodes.ForEach.Item.{
  Succeeds, Fails, IsStopped, ItemEnds, IsFailure, failure-IsFailure, run_item-ItemEnds,
}

module _ ⦃P : Platform⦄ (call : Execute) (builtin : NodeKindRegistry) (ctx : ExecutionContext)
    (lane_graph : FlowGraph) (entries : List FlowEdge) where
  open P use {Value, Map, World, null, object}

  abbrev SucceedsAt : ℕ → Value → World → Map → World → Type 0
  SucceedsAt index item w outputs next =
      Succeeds call builtin ctx lane_graph entries index item w outputs next

  abbrev FailsAt : ℕ → Value → World → String → World → Type 0
  FailsAt index item w reason next =
      Fails call builtin ctx lane_graph entries index item w reason next

  -- Every item has run, in order, each on the state that the one before it left: the result of each
  -- is the outputs of its lane, or null and an entry of the failures with its index and its error.
  abbrev pub Iterated : ℕ → List Value → World → List Value → List Value → World → Type 0
  Iterated index [] w results failures w' = (results ≡ []) × (failures ≡ []) × (w ≡ w')
  Iterated index (item ∷ items) w results failures w' =
      (next : World) × (rest : List Value) × (more : List Value) × Iterated (index + 1) items next
        rest more w'
      × (((outputs : Map) × SucceedsAt index item w outputs next
            × (results ≡ object outputs ∷ rest)
            × (failures ≡ more))
          ⊎ ((reason : String) × FailsAt index item w reason next
              × (results ≡ null ∷ rest)
              × ((entry : Value) × IsFailure call builtin ctx lane_graph entries index item w reason
                    entry
                  × (failures ≡ entry ∷ more))))

  -- Some item stopped, after those before it had ended.
  abbrev pub Stops : ℕ → List Value → World → String → World → Type 0
  Stops index [] w reason w' = ⊥
  Stops index (item ∷ items) w reason w' =
      IsStopped call builtin ctx lane_graph entries index item w reason w'
      ⊎ ((next : World) × (((outputs : Map) × SucceedsAt index item w outputs next)
            ⊎ ((error : String) × FailsAt index item w error next))
          × Stops (index + 1) items next reason w')

  abbrev pub Ends :
      ℕ → List Value → World → List Value → List Value → Option (LoopEnd × World) → Type 0
  Ends index items w before earlier end =
      ((results : List Value) × (failures : List Value) × (w' : World) × Iterated index items w
          results failures w'
        × (end ≡ some (finished (before ++ results) (earlier ++ failures), w')))
      ⊎ ((reason : String) × (w' : World) × Stops index items w reason w'
          × (end ≡ some (loop_stopped reason, w')))

  module _
      (unique : length (dedup_extend [] (node_ids lane_graph)) ≡ length (node_ids lane_graph)) where
    after_success :
        (index : ℕ) (item : Value) (items : List Value) (w next : World)
        (before earlier : List Value) (outputs : Map) (end : Option (LoopEnd × World))
        → SucceedsAt index item w outputs next
        → Ends (index + 1) items next (before ++ object outputs ∷ []) earlier end
        → Ends index (item ∷ items) w before earlier end
    after_success index item items w next before earlier outputs end r (inl (rs, fs, w', it, e)) =
        inl (
          object outputs ∷ rs,
          fs,
          w',
          (next, rs, fs, it, inl (outputs, r, refl, refl)),
          e
              ∙ ap (λ l. some (finished l (earlier ++ fs), w'))
                  (append_assoc before (object outputs ∷ []) rs),
        )
    after_success index item items w next before earlier outputs end r
          (inr (reason, w', stops, e)) =
        inr (reason, w', inr (next, inl (outputs, r), stops), e)

    after_failure :
        (index : ℕ) (item : Value) (items : List Value) (w next : World)
        (before earlier : List Value) (error : String) (end : Option (LoopEnd × World))
        → FailsAt index item w error next
        → Ends
            (index + 1)
            items
            next
            (before ++ null ∷ [])
            (earlier ++ failure index item error ∷ [])
            end
        → Ends index (item ∷ items) w before earlier end
    after_failure index item items w next before earlier error end r (inl (rs, fs, w', it, e)) =
        let shown = failure-IsFailure call builtin ctx lane_graph entries index item w error in
        inl (
          null ∷ rs,
          failure index item error ∷ fs,
          w',
          (next, rs, fs, it, inr (error, r, refl, (failure index item error, shown, refl))),
          e
              ∙ ap₂ (λ l m. some (finished l m, w')) (append_assoc before (null ∷ []) rs)
                  (append_assoc earlier (failure index item error ∷ []) fs),
        )
    after_failure index item items w next before earlier error end r (inr (reason, w', stops, e)) =
        inr (reason, w', inr (next, inr (error, r), stops), e)

    -- The rest of the loop, by how the first item ended.
    abbrev continue :
        ℕ
        → Value
        → List Value
        → List Value
        → List Value
        → ItemEnd
        → World
        → Option (LoopEnd × World)
    continue index item items before earlier (succeeded outputs) next =
        run_items call builtin ctx lane_graph entries (index + 1) items
          (before ++ object outputs ∷ []) earlier next
    continue index item items before earlier (failed error) next =
        run_items call builtin ctx lane_graph entries (index + 1) items (before ++ null ∷ [])
          (earlier ++ failure index item error ∷ []) next
    continue index item items before earlier (stopped reason) next =
        some (loop_stopped reason, next)

    step :
        (index : ℕ) (item : Value) (items : List Value) (w : World) (before earlier : List Value)
        (end : ItemEnd) (next : World)
        → run_item call builtin ctx lane_graph entries index item w ≡ some (end, next)
        → run_items call builtin ctx lane_graph entries index (item ∷ items) before earlier w
          ≡ continue index item items before earlier end next
    unfolding run_items
    step index item items w before earlier (succeeded outputs) next r = rw (r, run_items) refl
    step index item items w before earlier (failed error) next r = rw (r, run_items) refl
    step index item items w before earlier (stopped reason) next r = rw (r, run_items) refl

    after_item :
        (index : ℕ) (item : Value) (items : List Value) (w : World) (before earlier : List Value)
        (end : ItemEnd) (next : World)
        → run_item call builtin ctx lane_graph entries index item w ≡ some (end, next)
        → ItemEnds call builtin ctx lane_graph entries index item w end next
        → ((next : World) (before earlier : List Value)
            → Ends (index + 1) items next before earlier (
                run_items call builtin ctx lane_graph entries
                  (index + 1)
                  items
                  before
                  earlier
                  next))
        → Ends index
            (item ∷ items)
            w
            before
            earlier
            (run_items call builtin ctx lane_graph entries index (item ∷ items) before earlier w)
    after_item index item items w before earlier (succeeded outputs) next r ends rest =
        subst (Ends index (item ∷ items) w before earlier)
          (sym (step index item items w before earlier (succeeded outputs) next r))
          (after_success index item items w next before earlier outputs _ ends
            (rest next (before ++ object outputs ∷ []) earlier))
    after_item index item items w before earlier (failed error) next r ends rest =
        subst (Ends index (item ∷ items) w before earlier)
          (sym (step index item items w before earlier (failed error) next r))
          (after_failure index item items w next before earlier error _ ends
            (rest next (before ++ null ∷ []) (earlier ++ failure index item error ∷ [])))
    after_item index item items w before earlier (stopped reason) next r ends rest =
        inr (reason, next, inl ends, step index item items w before earlier (stopped reason) next r)

    -- Where no two nodes of the lane have one id, the loop over the items returns. Either each item has
    -- run, in order, on the state that the one before it left, and its place in the results holds the
    -- outputs of its run where that succeeded, or null where it failed with an error that is no pause,
    -- with an entry of the failures for the index, the item and the error; or the first item whose run
    -- is cancelled or fails with a pause stops the loop with its reason.
    pub run_items-Ends :
        (items : List Value) (index : ℕ) (w : World) (before earlier : List Value)
        → Ends index items w before earlier
            (run_items call builtin ctx lane_graph entries index items before earlier w)
    unfolding run_items
    run_items-Ends [] index w before earlier = inl (
      [],
      [],
      w,
      (refl, refl, refl),
      ap₂ (λ r f. some (finished r f, w)) (sym (append-nil before)) (sym (append-nil earlier)),
    )
    run_items-Ends (item ∷ items) index w before earlier =
        let (end, next, r, ends) =
          run_item-ItemEnds call builtin ctx lane_graph entries index item w unique in
        after_item index item items w before earlier end next r ends
          (λ n b e. run_items-Ends items (index + 1) n b e)
