-- ===== src/StageGraph/Innermost.antt =====
-- lib/Dialect/KTDF/Analysis/GlobalStageDAG.cpp: which stages `getRootStages` and `getLeafStages` answer, and
-- the two directions of the global graph.
use dataflow_scheduler.Prelude.{
  ℕ, suc, ◌+◌, ◌≡◌, refl, ap, ◌∙◌, inl, inr, none, some, List, [], ◌∷◌, ◌++◌, reverse, arith, ◌==◌,
  ==_iff, Bool-cases, Option-cases, if◌then◌else◌, subst, count, count-append,
}
use dataflow_scheduler.Prelude.Maps.{Map, lookup, insert, list_at, list_at-insert}
use dataflow_scheduler.StageGraph.{
  StageOp, StageDependencyDag, analyze_stage_dependencies, add_edge,
}
use dataflow_scheduler.StageGraph.Nested.{
  Op, Ops, pipeline, other, stage, no_ops, op_then, first_pipeline, first_in, NestedStage,
  get_stages, stage_ops, is_empty, append_ends, get_end_stages, collect_pipelines, find_stage,
  get_root_stages, get_leaf_stages, add_roots, add_leaves, add_consumers, add_producers,
  add_pipelines, build_global_stage_dag,
}

-- The stages of a list that have no neighbours.
unfoldable pub unconnected : Map (List ℕ) → List StageOp → List ℕ
unconnected neighbours [] = []
unconnected neighbours (s ∷ ss) =
    let rest = unconnected neighbours ss in
    if is_empty (list_at s.op neighbours) then s.op ∷ rest else rest

-- The stage itself, or those of the innermost pipeline that the walk meets first in it that have no
-- neighbours there.
abbrev pub innermost_ends : (StageDependencyDag → Map (List ℕ)) → NestedStage → List ℕ
innermost_ends side s = elim (first_pipeline s.body) [
  | none ↦ s.stage_op.op ∷ []
  | some inner ↦ elim (analyze_stage_dependencies (stage_ops (get_stages inner))) [
    | none ↦ s.stage_op.op ∷ []
    | some dag ↦ unconnected (side dag) (stage_ops (get_stages inner))
  ]
]

-- A pipeline that is found holds no pipeline.
mutual
  unfolding first_pipeline first_in

  first_pipeline-innermost :
      (os : Ops) (p : Ops) → first_pipeline os ≡ some p → first_pipeline p ≡ none
  first_pipeline-innermost no_ops p e = cc
  first_pipeline-innermost (op_then o os) p e = elim (Option-cases (first_in o)) [
    | inl q ↦ first_pipeline-innermost os p (rw (q, first_pipeline) at e)
    | inr (p', q) ↦
        let same : p' ≡ p = cc (rw (q, first_pipeline) at e) in
        first_in-innermost o p (q ∙ ap some same)
  ]

  first_in-innermost : (o : Op) (p : Ops) → first_in o ≡ some p → first_pipeline p ≡ none
  first_in-innermost (pipeline body) p e = elim (Option-cases (first_pipeline body)) [
    | inl q ↦
        let same : body ≡ p = cc (rw (q, first_in) at e) in
        subst (λ b. first_pipeline b ≡ none) same q
    | inr (p', q) ↦
        let same : p' ≡ p = cc (rw (q, first_in) at e) in
        first_pipeline-innermost body p (q ∙ ap some same)
  ]
  first_in-innermost (other body) p e = first_pipeline-innermost body p e
  first_in-innermost (stage s body) p e = first_pipeline-innermost body p e

-- In ops without a pipeline, no stage has one in it.
without_pipeline :
    (side : StageDependencyDag → Map (List ℕ)) (fuel : ℕ) (neighbours : Map (List ℕ)) (os : Ops)
    → first_pipeline os ≡ none
    → append_ends (get_end_stages side (suc fuel)) neighbours (get_stages os)
      ≡ unconnected neighbours (stage_ops (get_stages os))
unfolding get_stages append_ends get_end_stages unconnected first_pipeline first_in
without_pipeline side fuel neighbours no_ops e = refl
without_pipeline side fuel neighbours (op_then (pipeline body) os) e =
    elim (Option-cases (first_pipeline body)) [
      | inl q ↦ cc (rw (q, first_pipeline) at e)
      | inr (p, q) ↦ cc (rw (q, first_pipeline) at e)
    ]
without_pipeline side fuel neighbours (op_then (other body) os) e =
    elim (Option-cases (first_pipeline body)) [
      | inl q ↦ without_pipeline side fuel neighbours os (rw (q, first_pipeline) at e)
      | inr (p, q) ↦ cc (rw (q, first_pipeline) at e)
    ]
without_pipeline side fuel neighbours (op_then (stage s body) os) e =
    elim (Option-cases (first_pipeline body)) [
      | inl q ↦
          let rest = without_pipeline side fuel neighbours os (rw (q, first_pipeline) at e) in
          elim (Bool-cases (is_empty (list_at s.op neighbours))) [
            | inl b ↦ rw (b, q, rest, get_end_stages) refl
            | inr b ↦ rw (b, rest) refl
          ]
      | inr (p, q) ↦ cc (rw (q, first_pipeline) at e)
    ]

-- Two calls are enough fuel for the end stages of a stage, and they answer the stage itself where no pipeline
-- is in it or its analysis fails, and otherwise the stages of the innermost pipeline that the walk meets
-- first that have no neighbours there; no other pipeline in the stage counts.
pub get_end_stages-innermost :
    (side : StageDependencyDag → Map (List ℕ)) (fuel : ℕ) (s : NestedStage)
    → get_end_stages side (suc (suc fuel)) s ≡ innermost_ends side s
unfolding get_end_stages
get_end_stages-innermost side fuel s = elim (Option-cases (first_pipeline s.body)) [
  | inl q ↦ rw (q, get_end_stages, innermost_ends) refl
  | inr (inner, q) ↦
      elim (Option-cases (analyze_stage_dependencies (stage_ops (get_stages inner)))) [
        | inl r ↦ rw (q, r, get_end_stages, innermost_ends) refl
        | inr (dag, r) ↦
            rw (q, r, get_end_stages, innermost_ends)
              (without_pipeline side fuel (side dag) inner
                (first_pipeline-innermost s.body inner q))
      ]
]

-- Each edge is noted at both its ends, as often at the one as at the other.
abbrev pub IsSymmetric : StageDependencyDag → Type 0
IsSymmetric dag =
    (u v : ℕ) → count v (list_at u dag.successors) ≡ count u (list_at v dag.predecessors)

-- One more element at one key, as a count.
count-at_insert :
    (key wanted a x : ℕ) (m : Map (List ℕ))
    → count a (list_at wanted (insert key (list_at key m ++ x ∷ []) m))
      ≡ count a (list_at wanted m) + (if key == wanted then count a (x ∷ []) else 0)
count-at_insert key wanted a x m =
    rw (list_at-insert key wanted (list_at key m ++ x ∷ []) m) (elim (Bool-cases (key == wanted)) [
      | inl e ↦ rw (e, (==_iff key wanted).0 e) (count-append a (list_at wanted m) (x ∷ []))
      | inr e ↦ rw e (omega arith)
    ])

both_tests :
    (p u c v : ℕ)
    → (if p == u then count v (c ∷ []) else 0) ≡ (if c == v then count u (p ∷ []) else 0)
unfolding count
both_tests p u c v = ground arith

add_edge-IsSymmetric :
    (dag : StageDependencyDag) (p c : ℕ) → IsSymmetric dag → IsSymmetric (add_edge dag p c)
unfolding add_edge
add_edge-IsSymmetric dag p c h u v = omega (
  arith,
  count-at_insert p u v c dag.successors,
  count-at_insert c v u p dag.predecessors,
  h u v,
  both_tests p u c v,
)

add_roots-IsSymmetric :
    (leaf : ℕ) (roots : List ℕ) (dag : StageDependencyDag)
    → IsSymmetric dag
    → IsSymmetric (add_roots leaf roots dag)
unfolding add_roots
add_roots-IsSymmetric leaf [] dag h = h
add_roots-IsSymmetric leaf (root ∷ roots) dag h =
    add_roots-IsSymmetric leaf roots (add_edge dag leaf root) (add_edge-IsSymmetric dag leaf root h)

add_leaves-IsSymmetric :
    (leaves roots : List ℕ) (dag : StageDependencyDag)
    → IsSymmetric dag
    → IsSymmetric (add_leaves leaves roots dag)
unfolding add_leaves
add_leaves-IsSymmetric [] roots dag h = h
add_leaves-IsSymmetric (leaf ∷ leaves) roots dag h =
    add_leaves-IsSymmetric leaves roots (add_roots leaf roots dag)
      (add_roots-IsSymmetric leaf roots dag h)

add_consumers-IsSymmetric :
    (stages : List NestedStage) (leaves consumers : List ℕ) (dag : StageDependencyDag)
    → IsSymmetric dag
    → IsSymmetric (add_consumers stages leaves consumers dag)
unfolding add_consumers
add_consumers-IsSymmetric stages leaves [] dag h = h
add_consumers-IsSymmetric stages leaves (consumer ∷ consumers) dag h =
    elim (Option-cases (find_stage consumer stages)) [
      | inl e ↦ rw (e, add_consumers) (add_consumers-IsSymmetric stages leaves consumers dag h)
      | inr (s, e) ↦
          rw (e, add_consumers)
            (add_consumers-IsSymmetric stages leaves consumers _
              (add_leaves-IsSymmetric leaves (get_root_stages s) dag h))
    ]

add_producers-IsSymmetric :
    (stages : List NestedStage) (entries : Map (List ℕ)) (dag : StageDependencyDag)
    → IsSymmetric dag
    → IsSymmetric (add_producers stages entries dag)
unfolding add_producers
add_producers-IsSymmetric stages [] dag h = h
add_producers-IsSymmetric stages ((producer, consumers) ∷ entries) dag h =
    elim (Option-cases (find_stage producer stages)) [
      | inl e ↦ rw (e, add_producers) (add_producers-IsSymmetric stages entries dag h)
      | inr (s, e) ↦
          rw (e, add_producers)
            (add_producers-IsSymmetric stages entries _
              (add_consumers-IsSymmetric stages (get_leaf_stages s) consumers dag h))
    ]

module _ (iterate : Map (List ℕ) → Map (List ℕ)) where
  add_pipelines-IsSymmetric :
      (ps : List Ops) (dag result : StageDependencyDag)
      → IsSymmetric dag
      → add_pipelines iterate ps dag ≡ some result
      → IsSymmetric result
  unfolding add_pipelines
  add_pipelines-IsSymmetric [] dag result h e =
      let same : dag ≡ result = cc in subst IsSymmetric same h
  add_pipelines-IsSymmetric (p ∷ ps) dag result h e =
      elim (Option-cases (analyze_stage_dependencies (stage_ops (get_stages p)))) [
        | inl q ↦ cc (rw (q, add_pipelines) at e)
        | inr (local_dag, q) ↦
            add_pipelines-IsSymmetric ps _ result
              (add_producers-IsSymmetric (get_stages p) (iterate local_dag.successors) dag h)
              (rw (q, add_pipelines) at e)
      ]

  -- In the global graph every edge is noted at both its ends, as often as a successor as it is noted as a
  -- predecessor, in whatever order the maps are gone through.
  pub build_global_stage_dag-IsSymmetric :
      (root : Ops) (dag : StageDependencyDag)
      → build_global_stage_dag iterate root ≡ some dag
      → IsSymmetric dag
  unfolding build_global_stage_dag list_at lookup count
  build_global_stage_dag-IsSymmetric root dag e =
      add_pipelines-IsSymmetric (reverse (collect_pipelines root))
        (record { predecessors = []; successors = [] }) dag (λ u v. refl) e
