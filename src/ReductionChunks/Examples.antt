-- ===== src/ReductionChunks/Examples.antt =====
-- A reduction over 12 and 10 with a dynamic dimension between, and the theorems of the chunk analysis.
use dataflow_scheduler.Prelude.{ℕ, ◌*◌, ◌≡◌, refl, none, some, Option, List, [], ◌∷◌, arith}
use dataflow_scheduler.Prelude.Divides.{gcd, gcd_loop}
use dataflow_scheduler.ReductionChunks.{divide_dims, compute_chunk_dims, infer_loop}
use dataflow_scheduler.ReductionChunks.Products.{
  static_product, Divided, compute_chunk_dims-static_product, Inferred, infer_loop-Inferred,
}

abbrev dims : List (Option ℕ)
dims = some 12 ∷ none ∷ some 10 ∷ []

abbrev chunk_dims : List (Option ℕ)
chunk_dims = some 3 ∷ none ∷ some 5 ∷ []

compute_chunk_dims-static_product_example :
    (static_product chunk_dims * 8 ≡ static_product dims) × Divided dims chunk_dims
unfolding compute_chunk_dims divide_dims gcd gcd_loop
compute_chunk_dims-static_product_example =
    compute_chunk_dims-static_product dims chunk_dims 8 (omega arith) refl

infer_loop-Inferred_example : Inferred 100 30 1 10 (infer_loop 100 30 10 1)
infer_loop-Inferred_example = infer_loop-Inferred 100 30 10 1 (omega arith) (omega arith)

infer_loop_run : infer_loop 100 30 10 1 ≡ 4
unfolding infer_loop
infer_loop_run = refl
