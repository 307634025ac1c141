-- ===== src/StageGraph/NestedExamples.antt =====
-- Runs of the model of `buildGlobalStageDAG` (lib/Dialect/KTDF/Analysis/GlobalStageDAG.cpp) on nested
-- pipelines.
use dataflow_scheduler.Prelude.{ℕ, ◌≡◌, refl, some, List, [], ◌∷◌}
use dataflow_scheduler.Prelude.Maps.{Map, lookup, insert, list_at}
use dataflow_scheduler.Device.{Value}
use dataflow_scheduler.StageGraph.{
  StageOp, StageDependencyDag, analyze_stage_dependencies, build_dag, init_dag, add_tokens,
  token_producers, add_edge, add_inputs, add_stages, visit_successors, has_cycle, visit_stages,
}
use dataflow_scheduler.StageGraph.Nested.{
  Ops, pipeline, stage, no_ops, op_then, NestedStage, first_pipeline, first_in, get_stages,
  append_ends, get_end_stages, get_root_stages, collect_pipelines, pipelines_in, find_stage,
  add_roots, add_leaves, add_consumers, add_producers, add_pipelines, build_global_stage_dag,
}
use dataflow_scheduler.StageGraph.Innermost.{
  innermost_ends, get_end_stages-innermost, IsSymmetric, build_global_stage_dag-IsSymmetric,
}

abbrev node : ℕ → List Value → List Value → StageOp
node op needs gives = record { op = op; depends_in = needs; depends_out = gives }

-- Stage 2 holds a pipeline of the stages 21, 22 and 23, where 22 waits for 21; stage 3 waits for 2.
abbrev program : Ops
program =
    op_then
      (pipeline (
        op_then
          (stage (node 2 [] (10 ∷ [])) (
            op_then
              (pipeline (
                op_then (stage (node 21 [] (20 ∷ [])) no_ops) (
                  op_then (stage (node 22 (20 ∷ []) []) no_ops)
                    (op_then (stage (node 23 [] []) no_ops) no_ops))))
              no_ops))
          (op_then (stage (node 3 (10 ∷ []) []) no_ops) no_ops)))
      no_ops

abbrev in_order : Map (List ℕ) → Map (List ℕ)
in_order m = m

abbrev global : StageDependencyDag
global = record {
  predecessors = (3, 22 ∷ 23 ∷ []) ∷ (22, 21 ∷ []) ∷ [];
  successors = (22, 3 ∷ []) ∷ (23, 3 ∷ []) ∷ (21, 22 ∷ []) ∷ [];
}

built : build_global_stage_dag in_order program ≡ some global
unfolding build_global_stage_dag add_pipelines add_producers add_consumers add_leaves add_roots
    find_stage collect_pipelines pipelines_in get_end_stages append_ends get_stages first_pipeline
    first_in analyze_stage_dependencies visit_stages has_cycle visit_successors add_stages
    add_inputs token_producers add_tokens insert lookup list_at add_edge init_dag build_dag
built = refl

build_global_stage_dag-IsSymmetric_example : IsSymmetric global
build_global_stage_dag-IsSymmetric_example =
    build_global_stage_dag-IsSymmetric in_order program global built

-- A pipeline two levels down in a stage, beside a stage that waits for nothing.
abbrev deep : NestedStage
deep = record {
  stage_op = node 1 [] [];
  body =
      op_then
        (pipeline (
          op_then
            (stage (node 11 [] [])
              (op_then (pipeline (op_then (stage (node 111 [] []) no_ops) no_ops)) no_ops))
            (op_then (stage (node 12 [] []) no_ops) no_ops)))
        no_ops;
}

-- The stage 12 is missed.
deep_roots : get_root_stages deep ≡ 111 ∷ []
unfolding get_end_stages append_ends get_stages first_pipeline first_in analyze_stage_dependencies
    visit_stages has_cycle visit_successors add_stages add_inputs token_producers add_tokens insert
    lookup list_at add_edge init_dag build_dag
deep_roots = refl

get_end_stages-innermost_example :
    get_end_stages (λ dag. dag.predecessors) 2 deep ≡ innermost_ends (λ dag. dag.predecessors) deep
get_end_stages-innermost_example = get_end_stages-innermost (λ dag. dag.predecessors) 0 deep
