-- ===== src/ReductionChunks.antt =====
-- lib/Dialect/KTDF/Analysis/ReductionChunkAnalysis.cpp: into how many chunks a reduction is cut, and
-- the dimensions of a chunk. The sizes are `int64_t` in the code; here they do not overflow.
pub mod Examples
pub mod Products
use dataflow_scheduler.Prelude.{
  ℕ, zero, suc, ◌+◌, ◌*◌, ◌/◌, ◌%◌, Bool, true, false, Option, none, some, List, [], ◌∷◌, ltb, leb,
  ◌==◌, if◌then◌else◌, get_elem?,
}
use dataflow_scheduler.Prelude.Divides.{gcd}
use dataflow_scheduler.AddressAssignment.{product, unsigned_mod}

-- The parts of a `linalg.generic` that the analysis reads: the reduction dimensions, the element width
-- of the first input (`none` where it is no ranked tensor of integers or floats), its shape (`none` if
-- dynamic) and the static loop ranges (`none` for a dynamic one).
pub record GenericOp : Type 0 where
  pub reduction_dims : List ℕ
  pub element_bit_width : Option ℕ
  pub static_shape : Option (List ℕ)
  pub loop_ranges : List (Option ℕ)

pub record ReductionChunkResult : Type 0 where
  pub num_chunks : ℕ
  pub reduction_dims : List ℕ
  pub red_dim_sizes : List ℕ

-- `none` for a dynamic reduction dimension. MLIR's dimensions are positions of `loop_ranges`.
unfoldable pub collect_dim_sizes : List (Option ℕ) → List ℕ → Option (List ℕ)
collect_dim_sizes ranges [] = some []
collect_dim_sizes ranges (d ∷ ds) = elim (get_elem? ranges d) [
  | none ↦ none
  | some range ↦ elim range [
    | none ↦ none
    | some size ↦ elim (collect_dim_sizes ranges ds) [
      | none ↦ none
      | some sizes ↦ some (size ∷ sizes)
    ]
  ]
]

-- `rounds` values of n, from `n` up; 0 if none brings the bytes of a chunk within the threshold.
unfoldable pub infer_loop : ℕ → ℕ → ℕ → ℕ → ℕ
infer_loop total_bytes threshold zero n = 0
infer_loop total_bytes threshold (suc rounds) n =
    let rest = infer_loop total_bytes threshold rounds (n + 1) in
    if leb (total_bytes / n) threshold then n % unsigned_mod else rest

unfoldable pub analyze_reduction_chunks : GenericOp → ℕ → Option ReductionChunkResult
analyze_reduction_chunks g threshold = elim g.reduction_dims [
  | [] ↦ none
  | _ ∷ _ ↦ elim g.element_bit_width [
    | none ↦ none
    | some width ↦ elim g.static_shape [
      | none ↦ none
      | some shape ↦ elim (collect_dim_sizes g.loop_ranges g.reduction_dims) [
        | none ↦ none
        | some sizes ↦
            let inferred_n = infer_loop (width / 8 * product shape) threshold (product sizes) 1 in
            if inferred_n == 0
            then none
            else some (record {
              num_chunks = inferred_n;
              reduction_dims = g.reduction_dims;
              red_dim_sizes = sizes;
            })
      ]
    ]
  ]
]

-- The new sizes and what remains of the chunk size, from the dimension at hand on. A dynamic dimension
-- (`none`) is skipped.
unfoldable pub divide_dims : List (Option ℕ) → ℕ → List (Option ℕ) × ℕ
divide_dims [] remaining = ([], remaining)
divide_dims (none ∷ ds) remaining =
    let (new_sizes, left) = divide_dims ds remaining in
    if ltb 1 remaining then (none ∷ new_sizes, left) else (none ∷ ds, remaining)
divide_dims (some dim_size ∷ ds) remaining =
    let g = gcd dim_size remaining in
    let (new_sizes, left) = divide_dims ds (remaining / g) in
    if ltb 1 remaining
    then (some (dim_size / g) ∷ new_sizes, left)
    else (some dim_size ∷ ds, remaining)

unfoldable pub compute_chunk_dims : List (Option ℕ) → ℕ → Option (List (Option ℕ))
compute_chunk_dims red_dim_sizes chunk_size =
    let (new_sizes, remaining) = divide_dims red_dim_sizes chunk_size in
    if ltb 1 remaining then none else some new_sizes
