-- ===== src/StageGraph/Examples.antt =====
-- Runs of the model of lib/Dialect/KTDF/Analysis/GlobalStageDAG.cpp on two small pipelines.
use dataflow_scheduler.Prelude.{
  ◌≡◌, refl, ◌↔◌, ℕ, inl, inr, arith, none, some, List, [], ◌∷◌, Nodup,
}
use dataflow_scheduler.Prelude.Maps.{lookup, insert, list_at}
use dataflow_scheduler.StageGraph.{
  StageOp, ops_of, build_dag, analyze_stage_dependencies, topological_sort_stages, init_dag,
  add_tokens, token_producers, add_edge, add_inputs, add_stages, visit_successors, has_cycle,
  visit_stages, start_sort, release_successors, sort_loop,
}
use dataflow_scheduler.StageGraph.Edges.{IsDag, build_dag-IsDag}
use dataflow_scheduler.StageGraph.Tokens.{Feeds, Chain}
use dataflow_scheduler.StageGraph.Kahn.{
  topological_sort_stages-Sorts, analyze_stage_dependencies-none,
  topological_sort_stages-analyze_stage_dependencies,
}
use dataflow_scheduler.StageGraph.Finish.{IsTopological, Sorts}

-- Three stages, listed against the order of their tokens 10 and 11.
abbrev pipeline : List StageOp
pipeline =
    record { op = 3; depends_in = 10 ∷ 11 ∷ []; depends_out = [] }
    ∷ record { op = 2; depends_in = 10 ∷ []; depends_out = 11 ∷ [] }
    ∷ record { op = 1; depends_in = []; depends_out = 10 ∷ [] }
    ∷ []

pipeline-Nodup : Nodup (ops_of pipeline)
pipeline-Nodup = (
  (λ m. elim m [
    | inl e ↦ absurd (omega arith)
    | inr n ↦ elim n [ inl e ↦ absurd (omega arith) | inr z ↦ z ]
  ]),
  ((λ m. elim m [ inl e ↦ absurd (omega arith) | inr z ↦ z ]), ((λ z. z), tt)),
)

sorted : topological_sort_stages pipeline (build_dag pipeline) ≡ some (1 ∷ 2 ∷ 3 ∷ [])
unfolding topological_sort_stages sort_loop start_sort release_successors add_stages add_inputs
    token_producers add_tokens insert lookup list_at add_edge init_dag build_dag
sorted = refl

-- Two stages that wait for each other.
abbrev ring : List StageOp
ring =
    record { op = 1; depends_in = 11 ∷ []; depends_out = 10 ∷ [] }
    ∷ record { op = 2; depends_in = 10 ∷ []; depends_out = 11 ∷ [] }
    ∷ []

ring_fails : analyze_stage_dependencies ring ≡ none
unfolding analyze_stage_dependencies visit_stages has_cycle visit_successors add_stages add_inputs
    token_producers add_tokens insert lookup list_at add_edge init_dag build_dag
ring_fails = refl

ring-Nodup : Nodup (ops_of ring)
ring-Nodup = ((λ m. elim m [ inl e ↦ absurd (omega arith) | inr z ↦ z ]), ((λ z. z), tt))

analyzed : analyze_stage_dependencies pipeline ≡ some (build_dag pipeline)
unfolding analyze_stage_dependencies visit_stages has_cycle visit_successors add_stages add_inputs
    token_producers add_tokens insert lookup list_at add_edge init_dag build_dag
analyzed = refl

topological_sort_stages-Sorts_example :
    Sorts
      (build_dag pipeline)
      (ops_of pipeline)
      (topological_sort_stages pipeline (build_dag pipeline))
topological_sort_stages-Sorts_example =
    topological_sort_stages-Sorts pipeline (build_dag pipeline) pipeline-Nodup
      (build_dag-IsDag pipeline pipeline-Nodup)

analyze_stage_dependencies-none_example :
    (analyze_stage_dependencies ring ≡ none) ↔ ((v : ℕ) × Chain (Feeds ring) v v)
analyze_stage_dependencies-none_example = analyze_stage_dependencies-none ring ring-Nodup

topological_sort_stages-analyze_stage_dependencies_example :
    (order : List ℕ) × (topological_sort_stages pipeline (build_dag pipeline) ≡ some order)
    × IsTopological (build_dag pipeline) (ops_of pipeline) order
topological_sort_stages-analyze_stage_dependencies_example =
    topological_sort_stages-analyze_stage_dependencies pipeline pipeline-Nodup (build_dag pipeline)
      analyzed

build_dag-IsDag_example : IsDag (ops_of pipeline) (build_dag pipeline)
build_dag-IsDag_example = build_dag-IsDag pipeline pipeline-Nodup
