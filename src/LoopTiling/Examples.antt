-- ===== src/LoopTiling/Examples.antt =====
-- A sequential loop in a parallel one, and the theorems of the loop tiling analysis at them.
use dataflow_scheduler.Prelude.{
  ℕ, ◌≡◌, ◌≢◌, refl, inl, inr, true, false, some, List, [], ◌∷◌, concat, arith, All, In, ◌==◌,
  if◌then◌else◌,
}
use dataflow_scheduler.Prelude.Maps.{has, lookup}
use dataflow_scheduler.LoopTiling.{
  ForOp, parallel_loop, sequential_loop, tiling, LoopTilingMetadata, get_metadata_for_loop,
  get_nest_containing_loop, split_nest, visit_loop, compute_loop_nests,
}
use dataflow_scheduler.LoopTiling.Nests.{
  split_nest-concat, IsParallelButLast, split_nest-IsParallelButLast,
  visit_loop-tiling_non_parallel,
}
use dataflow_scheduler.LoopTiling.Coverage.{blank, ops, compute_loop_nests-covers}

abbrev outer : ForOp
outer = record { op = 1; loop_type = some parallel_loop; has_parent_loop = false }

abbrev inner : ForOp
inner = record { op = 2; loop_type = some sequential_loop; has_parent_loop = true }

abbrev nested : ForOp → List ForOp
nested l = l ∷ (if l.op == 1 then inner ∷ [] else [])

split_nest-concat_example : concat (split_nest (outer ∷ inner ∷ [])) ≡ outer ∷ inner ∷ []
split_nest-concat_example = split_nest-concat (outer ∷ inner ∷ [])

split_nest-IsParallelButLast_example : All IsParallelButLast (split_nest (inner ∷ outer ∷ []))
split_nest-IsParallelButLast_example = split_nest-IsParallelButLast (inner ∷ outer ∷ [])

different : ◌≢◌ {A = ℕ} 1 2
different = λ e. omega (arith, e)

visit_loop-tiling_non_parallel_example :
    (m : LoopTilingMetadata) × (get_metadata_for_loop (visit_loop nested blank outer) inner
      ≡ some m)
    × (m.strategy ≡ tiling)
unfolding has lookup
visit_loop-tiling_non_parallel_example =
    visit_loop-tiling_non_parallel nested blank outer inner refl refl refl refl different

compute_loop_nests-covers_example :
    let i = compute_loop_nests nested blank (outer ∷ inner ∷ []) in
    (nest : List ForOp) × (get_nest_containing_loop i inner ≡ some nest)
    × In 2 (ops nest)
    × (m : LoopTilingMetadata) × (get_metadata_for_loop i inner ≡ some m)
compute_loop_nests-covers_example =
    compute_loop_nests-covers nested (λ l. ((if l.op == 1 then inner ∷ [] else []), refl))
      (outer ∷ inner ∷ []) inner (inr (inl refl))
