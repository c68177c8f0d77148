-- ===== src/Nodes/Structural/Depth.antt =====
-- Nested graphs run one level deeper than their node, and never deeper than the limit.
use fancy_flow_rs.Prelude.{
  ◌+◌, ◌≤◌, Option, some, none, ◌≡◌, inl, inr, refl, ap, Bool-cases, String, true, false, arith,
  leb,
}
use fancy_flow_rs.Prelude.Scan.{is_blank, trim}
use fancy_flow_rs.Platform.{Platform}
use fancy_flow_rs.Schema.{FlowGraph}
use fancy_flow_rs.Registry.Catalogue.{NodeKindRegistry}
use fancy_flow_rs.Executors.{ExecutorRegistry, ExecutionContext, SharedExecutor, host, fence}
use fancy_flow_rs.Executors.Context.{option, option_str}
use fancy_flow_rs.Engine.Stepping.{Execute, execute, context_for}
use fancy_flow_rs.Engine.Stepping.Congruence.{run-alike}
use fancy_flow_rs.Nodes.Structural.{
  default_max_depth, descend_child, child_reply, child_setup, run_child, is_document, run_document,
  subgraph, run_resolved, run_reference, subflow,
}
use fancy_flow_rs.Workflow.Import.{import_workflow}

module _ ⦃P : Platform⦄ (kinds : NodeKindRegistry) (executors : ExecutorRegistry)
    (ctx : ExecutionContext) where
  open P use {Value, World, Handle}

  -- A context of the run below the node: one level deeper, no deeper than the limit, and under the
  -- identity that descends through the node.
  pub record IsBelow (below : ExecutionContext) : Type 0 where
    pub deeper : below.depth ≡ ctx.depth + 1
    pub bounded : below.depth ≤ default_max_depth
    pub descends : below.run ≡ descend_child ctx.run ctx.node.id

  -- Two hosts that answer alike in the contexts below the node.
  module _ (call call' : Execute)
      (agree : (h : Handle) (below : ExecutionContext) (w : World)
        → IsBelow below
        → call h below w ≡ call' h below w) where
    execute-agree :
        (executor : SharedExecutor) (below : ExecutionContext) (w : World)
        → IsBelow below
        → execute call executor below w ≡ execute call' executor below w
    unfolding execute
    execute-agree (host h) below w is_below = agree h below w is_below
    execute-agree fence below w is_below = refl

    run_child-agree :
        (graph : FlowGraph) (w : World)
        → leb default_max_depth ctx.depth ≡ false
        → run_child call kinds executors ctx graph w ≡ run_child call' kinds executors ctx graph w
    unfolding run_child child_setup context_for
    run_child-agree graph w within = ap child_reply (
        run-alike (child_setup kinds executors ctx graph) call call'
          (λ walk step w' entered.
            execute-agree step.executor
              (context_for (child_setup kinds executors ctx graph) walk step) w'
              (record { deeper = refl; bounded = ground arith; descends = refl }))
          w)

    run_document-agree :
        (document : Option Value) (w : World)
        → run_document call kinds executors ctx document w
          ≡ run_document call' kinds executors ctx document w
    unfolding run_document
    run_document-agree none w = refl
    run_document-agree (some document) w = elim (Bool-cases (leb default_max_depth ctx.depth)) [
      | inl deep ↦ rw deep refl
      | inr within ↦
          rw within (run_child-agree (import_workflow document true kinds).graph w within)
    ]

    run_reference-agree :
        (resolver : Option (String → World → Option FlowGraph × World)) (reference : String)
        (w : World)
        → leb default_max_depth ctx.depth ≡ false
        → run_reference call kinds executors ctx resolver reference w
          ≡ run_reference call' kinds executors ctx resolver reference w
    unfolding run_reference run_resolved
    run_reference-agree none reference w within = refl
    run_reference-agree (some resolve) reference w within = by_graph (resolve reference w)
      where
        by_graph :
            (found : Option FlowGraph × World)
            → run_resolved call kinds executors ctx reference found
              ≡ run_resolved call' kinds executors ctx reference found
        by_graph (some graph, w') = run_child-agree graph w' within
        by_graph (none, w') = refl

    -- What a node with a graph of its own does depends on the executors only by their answers in
    -- contexts that are one level deeper than its own, at most eight levels deep, and under the
    -- identity that descends through it: neither an inline graph nor a resolved workflow runs
    -- anything else, whatever it holds.
    pub subgraph-subflow-agree :
        (resolver : Option (String → World → Option FlowGraph × World)) (w : World)
        → (subgraph call kinds executors ctx w ≡ subgraph call' kinds executors ctx w)
          × (subflow call kinds executors ctx resolver w
              ≡ subflow call' kinds executors ctx resolver w)
    unfolding subgraph subflow
    subgraph-subflow-agree resolver w = (
      run_document-agree (is_document (option ctx "graph")) w,
      elim (Bool-cases (is_blank (trim (option_str ctx "workflow" "")))) [
        | inl blank ↦ rw blank refl
        | inr named ↦ elim (Bool-cases (leb default_max_depth ctx.depth)) [
          | inl deep ↦ rw named (rw deep refl)
          | inr within ↦
              rw named
                (rw within (run_reference-agree resolver (option_str ctx "workflow" "") w within))
        ]
      ],
    )
