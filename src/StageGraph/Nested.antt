-- ===== src/StageGraph/Nested.antt =====
-- lib/Dialect/KTDF/Analysis/GlobalStageDAG.cpp, `getRootStages`, `getLeafStages` and `buildGlobalStageDAG`:
-- the graph across the pipelines that are nested in stages. `stage.walk` and `root->walk` visit an op after
-- the ops in it.
use dataflow_scheduler.Prelude.{
  ℕ, zero, suc, Bool, true, false, Option, none, some, List, [], ◌∷◌, ◌++◌, map, ◌==◌,
  if◌then◌else◌, reverse,
}
use dataflow_scheduler.Prelude.Maps.{Map, list_at}
use dataflow_scheduler.StageGraph.{
  StageOp, StageDependencyDag, analyze_stage_dependencies, add_edge,
}

-- An op with the ops in its regions.
mutual
  pub data Op : Type 0 where
    pipeline other : Ops → Op
    stage : StageOp → Ops → Op

  pub data Ops : Type 0 where
    no_ops : Ops
    op_then : Op → Ops → Ops

-- The first pipeline that the walk visits, by the ops in it.
unfoldable mutual
  pub first_pipeline : Ops → Option Ops
  first_pipeline no_ops = none
  first_pipeline (op_then o os) = elim (first_in o) [ some p ↦ some p | none ↦ first_pipeline os ]

  pub first_in : Op → Option Ops
  first_in (pipeline body) = elim (first_pipeline body) [ some p ↦ some p | none ↦ some body ]
  first_in (other body) = first_pipeline body
  first_in (stage s body) = first_pipeline body

-- A stage with what is in it.
pub record NestedStage : Type 0 where
  pub stage_op : StageOp
  pub body : Ops

-- The stages that stand directly in a pipeline.
unfoldable pub get_stages : Ops → List NestedStage
get_stages no_ops = []
get_stages (op_then (pipeline body) os) = get_stages os
get_stages (op_then (other body) os) = get_stages os
get_stages (op_then (stage s body) os) = record { stage_op = s; body = body } ∷ get_stages os

abbrev pub stage_ops : List NestedStage → List StageOp
stage_ops = map (λ s. s.stage_op)

abbrev pub is_empty : List ℕ → Bool
is_empty [] = true
is_empty (x ∷ xs) = false

-- The stages of a list without neighbours on one side, each with its own ends, as a function.
unfoldable pub append_ends : (NestedStage → List ℕ) → Map (List ℕ) → List NestedStage → List ℕ
append_ends ends neighbours [] = []
append_ends ends neighbours (s ∷ ss) =
    let rest = append_ends ends neighbours ss in
    if is_empty (list_at s.stage_op.op neighbours) then ends s ++ rest else rest

-- `getRootStages` with the predecessors, and `getLeafStages` with the successors.
unfoldable pub get_end_stages : (StageDependencyDag → Map (List ℕ)) → ℕ → NestedStage → List ℕ
get_end_stages side zero s = s.stage_op.op ∷ []
get_end_stages side (suc fuel) s = elim (first_pipeline s.body) [
  | none ↦ s.stage_op.op ∷ []
  | some inner ↦ elim (analyze_stage_dependencies (stage_ops (get_stages inner))) [
    | none ↦ s.stage_op.op ∷ []
    | some dag ↦ append_ends (get_end_stages side fuel) (side dag) (get_stages inner)
  ]
]

-- The pipeline that the walk visits first holds no other, so two calls are enough.
abbrev pub get_root_stages : NestedStage → List ℕ
get_root_stages = get_end_stages (λ dag. dag.predecessors) 2

abbrev pub get_leaf_stages : NestedStage → List ℕ
get_leaf_stages = get_end_stages (λ dag. dag.successors) 2

unfoldable mutual
  pub collect_pipelines : Ops → List Ops
  collect_pipelines no_ops = []
  collect_pipelines (op_then o os) = pipelines_in o ++ collect_pipelines os

  pub pipelines_in : Op → List Ops
  pipelines_in (pipeline body) = collect_pipelines body ++ body ∷ []
  pipelines_in (other body) = collect_pipelines body
  pipelines_in (stage s body) = collect_pipelines body

unfoldable pub find_stage : ℕ → List NestedStage → Option NestedStage
find_stage op [] = none
find_stage op (s ∷ ss) = let rest = find_stage op ss in if s.stage_op.op == op then some s else rest

unfoldable pub add_roots : ℕ → List ℕ → StageDependencyDag → StageDependencyDag
add_roots leaf [] dag = dag
add_roots leaf (root ∷ roots) dag = add_roots leaf roots (add_edge dag leaf root)

unfoldable pub add_leaves : List ℕ → List ℕ → StageDependencyDag → StageDependencyDag
add_leaves [] roots dag = dag
add_leaves (leaf ∷ leaves) roots dag = add_leaves leaves roots (add_roots leaf roots dag)

unfoldable pub add_consumers :
    List NestedStage → List ℕ → List ℕ → StageDependencyDag → StageDependencyDag
add_consumers stages leaves [] dag = dag
add_consumers stages leaves (consumer ∷ consumers) dag =
    add_consumers stages leaves consumers (elim (find_stage consumer stages) [
      | none ↦ dag
      | some s ↦ add_leaves leaves (get_root_stages s) dag
    ])

-- The entries of a map, in the order in which it is gone through.
unfoldable pub add_producers :
    List NestedStage → Map (List ℕ) → StageDependencyDag → StageDependencyDag
add_producers stages [] dag = dag
add_producers stages ((producer, consumers) ∷ entries) dag =
    add_producers stages entries (elim (find_stage producer stages) [
      | none ↦ dag
      | some s ↦ add_consumers stages (get_leaf_stages s) consumers dag
    ])

-- `iterate` is the order of a `DenseMap`.
module _ (iterate : Map (List ℕ) → Map (List ℕ)) where
  unfoldable pub add_pipelines : List Ops → StageDependencyDag → Option StageDependencyDag
  add_pipelines [] dag = some dag
  add_pipelines (p ∷ ps) dag =
      let stages = get_stages p in
      elim (analyze_stage_dependencies (stage_ops stages)) [
        | none ↦ none
        | some local_dag ↦
            add_pipelines ps (add_producers stages (iterate local_dag.successors) dag)
      ]

  unfoldable pub build_global_stage_dag : Ops → Option StageDependencyDag
  build_global_stage_dag root =
      add_pipelines (reverse (collect_pipelines root))
        (record { predecessors = []; successors = [] })
