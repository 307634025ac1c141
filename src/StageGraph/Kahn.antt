-- ===== src/StageGraph/Kahn.antt =====
-- lib/Dialect/KTDF/Analysis/GlobalStageDAG.cpp: `topologicalSortStages` and `analyzeStageDependencies` as
-- wholes, and the two of them together.
use dataflow_scheduler.Prelude.{
  ℕ, suc, ◌≡◌, ◌↔◌, refl, sym, ap, inl, Option, none, some, List, [], ◌∷◌, arith, length, In, subst,
  Nodup, unseen-nil,
}
use dataflow_scheduler.Prelude.Maps.{lookup}
use dataflow_scheduler.StageGraph.{
  StageOp, StageDependencyDag, ops_of, successors_of, build_dag, Visit, cycle_found, out_of_fuel,
  no_cycle, visit_stages, analyze_stage_dependencies, start_sort, topological_sort_stages,
}
use dataflow_scheduler.StageGraph.Cycles.{Reach, IsOrdered-acyclic, Invariant}
use dataflow_scheduler.StageGraph.Search.{AllOutcome, visit_stages-AllOutcome}
use dataflow_scheduler.StageGraph.Edges.{IsDag, build_dag-IsDag}
use dataflow_scheduler.StageGraph.Rounds.{sort_loop-Ends}
use dataflow_scheduler.StageGraph.Tokens.{Feeds, Chain, Reach-Chain, Chain-Reach}
use dataflow_scheduler.StageGraph.Finish.{
  IsTopological, IsCover, empty_sort, start_sort-Progress, Sorts, finish-Sorts,
}

length-ops_of : (stages : List StageOp) → length (ops_of stages) ≡ length stages
length-ops_of [] = refl
length-ops_of (s ∷ ss) = ap suc (length-ops_of ss)

-- For a graph between different stages, the sort gives an order of all of them, each once, in which each
-- stage's successors come after it, or it fails and there is no such order.
pub topological_sort_stages-Sorts :
    (stages : List StageOp) (dag : StageDependencyDag)
    → Nodup (ops_of stages)
    → IsDag (ops_of stages) dag
    → Sorts dag (ops_of stages) (topological_sort_stages stages dag)
unfolding topological_sort_stages
topological_sort_stages-Sorts [] dag different d = (tt, λ v. ((λ m. m), λ m. m))
topological_sort_stages-Sorts (s ∷ ss) dag different d =
    let all = ops_of (s ∷ ss) in
    finish-Sorts dag all d (length (s ∷ ss)) _ (sym (length-ops_of (s ∷ ss))) (
      sort_loop-Ends dag all d (suc (length (s ∷ ss))) all (start_sort dag all (empty_sort dag))
        (start_sort-Progress dag all different d) (omega (arith, length-ops_of (s ∷ ss))))

nothing_colored : (succ : ℕ → List ℕ) → Invariant succ [] [] []
unfolding lookup
nothing_colored succ = record { colored = λ v. inl (refl, (λ m. m), λ m. m); ordered = tt }

module _ (stages : List StageOp) (different : Nodup (ops_of stages)) where
  abbrev succ : ℕ → List ℕ
  succ = successors_of (build_dag stages)

  d : IsDag (ops_of stages) (build_dag stages)
  d = build_dag-IsDag stages different

  abbrev Visited : Visit → Type 0
  Visited r = AllOutcome succ (ops_of stages) (λ v u m. (d.inside v u m).0) [] (ops_of stages) r

  stages-Visited : Visited (visit_stages succ (suc (length stages)) (ops_of stages) [])
  stages-Visited =
      visit_stages-AllOutcome succ (ops_of stages) (λ v u m. (d.inside v u m).0)
        (suc (length stages)) (omega (arith, unseen-nil (ops_of stages), length-ops_of stages))
        (ops_of stages) [] [] (nothing_colored succ) (λ v m. m)

  Reach-stage : (u v : ℕ) → Reach succ u v → In u (ops_of stages)
  Reach-stage u v (Reach.one e) = (d.inside u v e).1
  Reach-stage u v (Reach.more {w = w} e r) = (d.inside u w e).1

  abbrev answer : Visit → Option StageDependencyDag
  answer r = elim r [
    | no_cycle color ↦ some (build_dag stages)
    | cycle_found ↦ none
    | out_of_fuel ↦ none
  ]

  Visited-none : (r : Visit) → Visited r → (answer r ≡ none) ↔ ((v : ℕ) × Reach succ v v)
  Visited-none cycle_found h = ((λ e. h), λ c. refl)
  Visited-none out_of_fuel h = absurd h
  Visited-none (no_cycle color) (order, o, kept, all) =
      ((λ e. cc), λ (v, c). absurd (IsOrdered-acyclic succ order o v (all v (Reach-stage v v c)) c))

  Visited-some :
      (dag : StageDependencyDag) (r : Visit)
      → Visited r
      → answer r ≡ some dag
      → (build_dag stages ≡ dag)
        × ((order : List ℕ) × IsCover (build_dag stages) (ops_of stages) order)
  Visited-some dag cycle_found h e = cc
  Visited-some dag out_of_fuel h e = absurd h
  Visited-some dag (no_cycle color) (order, o, kept, all) e = (cc, (order, (o, all)))

  -- The analysis of different stages fails if and only if a stage depends on itself: a chain of
  -- stages leads from it back to it, in which each takes a token as an input that the one before,
  -- and no stage listed after that one, has as an output.
  pub analyze_stage_dependencies-none :
      (analyze_stage_dependencies stages ≡ none) ↔ ((v : ℕ) × Chain (Feeds stages) v v)
  unfolding analyze_stage_dependencies
  analyze_stage_dependencies-none =
      let fails = Visited-none _ stages-Visited in
      (
        (λ e. let (v, r) = fails.0 e in (v, Reach-Chain stages r)),
        λ (v, c). fails.1 (v, Chain-Reach stages c),
      )

  sorted_some :
      (r : Option (List ℕ))
      → Sorts (build_dag stages) (ops_of stages) r
      → ((order : List ℕ) × IsCover (build_dag stages) (ops_of stages) order)
      → (order : List ℕ) × (r ≡ some order) × IsTopological (build_dag stages) (ops_of stages) order
  sorted_some none h c = absurd (h c)
  sorted_some (some order) h c = (order, refl, h)

  -- When the analysis of different stages succeeds, the sort of its graph succeeds, with an order of all of
  -- the stages, each once, in which each stage's successors come after it.
  pub topological_sort_stages-analyze_stage_dependencies :
      (dag : StageDependencyDag)
      → analyze_stage_dependencies stages ≡ some dag
      → (order : List ℕ) × (topological_sort_stages stages dag ≡ some order)
        × IsTopological dag (ops_of stages) order
  unfolding analyze_stage_dependencies
  topological_sort_stages-analyze_stage_dependencies dag e =
      let (same, cover) = Visited-some dag _ stages-Visited e in
      subst
        (λ g.
          (order : List ℕ) × (topological_sort_stages stages g ≡ some order)
          × IsTopological g (ops_of stages) order)
        same
        (sorted_some _ (topological_sort_stages-Sorts stages (build_dag stages) different d) cover)
