-- ===== src/TileSize.antt =====
-- lib/Dialect/KTDF/Transforms/TileSizeSelection.cpp: the tile size chosen for each
-- `ktdf.tiling.reserve_size`, from the loops whose bound is a total size divided by it.
-- The sizes are `int64_t` in the code and not negative here.
pub mod Examples
pub mod Largest
use dataflow_scheduler.Prelude.{
  ℕ, zero, suc, ◌+◌, ◌-◌, ◌%◌, Bool, true, false, not, ◌&&◌, Option, none, some, List, [], ◌∷◌,
  ◌++◌, ◌==◌, ltb, leb, if◌then◌else◌, length,
}
use Prim.Native.Nat.{max}
use dataflow_scheduler.Device.{Value}

abbrev pub max_candidate_tile_size : ℕ
max_candidate_tile_size = 2

-- A user of the result of a `ceildivui`: a loop, with its upper bound, or another operation.
pub data BoundUser : Type 0 where
  for_op : (loop : ℕ) → (upper_bound : Value) → BoundUser
  other_bound_user : BoundUser

-- A user of the reserved size: `arith.ceildivui lhs, rhs` with the constant that `lhs` is, if it is
-- one, its result and the users of that; or another operation.
pub data User : Type 0 where
  ceil_div :
      (rhs : Value) → (total_size : Option ℕ) → (result : Value) → (users : List BoundUser) → User
  other_user : User

pub record AssociatedLoop : Type 0 where
  pub loop : ℕ
  pub total_size : ℕ

pub record ReserveSize : Type 0 where
  pub result : Value
  pub users : List User
  pub min_value : ℕ
  pub divisibility : ℕ

unfoldable pub bounded_loops : Value → ℕ → List BoundUser → List AssociatedLoop
bounded_loops bound total [] = []
bounded_loops bound total (for_op loop upper_bound ∷ us) =
    let rest = bounded_loops bound total us in
    if upper_bound == bound then record { loop = loop; total_size = total } ∷ rest else rest
bounded_loops bound total (other_bound_user ∷ us) = bounded_loops bound total us

-- The associated loops, and how often the operation was noted as unresolved. The set of visited values
-- is new for each operation and the function does not call itself, so it plays no part.
unfoldable pub collect_associated_loops : Value → List User → List AssociatedLoop × ℕ
collect_associated_loops value [] = ([], 0)
collect_associated_loops value (other_user ∷ us) = collect_associated_loops value us
collect_associated_loops value (ceil_div rhs total result bound_users ∷ us) =
    let (loops, unresolved) = collect_associated_loops value us in
    if not (rhs == value) then (loops, unresolved + 1) else elim total [
      | none ↦ (loops, unresolved + 1)
      | some size ↦ (bounded_loops result size bound_users ++ loops, unresolved)
    ]

-- The candidate divides every total size.
unfoldable pub evaluate_candidate_tile_size : List AssociatedLoop → ℕ → Bool
evaluate_candidate_tile_size [] candidate = true
evaluate_candidate_tile_size (l ∷ ls) candidate =
    let rest = evaluate_candidate_tile_size ls candidate in
    if not (l.total_size % candidate == 0) then false else rest

-- `unreachable` is `llvm_unreachable("unresolved tile size")`, and `divides_by_zero` the remainder by a
-- candidate of 0, which only a minimum of 0 can lead to.
pub data Choice : Type 0 where
  chosen : ℕ → Choice
  no_loops unreachable divides_by_zero : Choice

abbrev pub skips : ℕ → ℕ → Bool
skips divisibility candidate = ltb 1 divisibility && not (candidate % divisibility == 0)

-- `rounds` candidates, from `candidate` down.
unfoldable pub candidate_loop : List AssociatedLoop → ℕ → ℕ → ℕ → Choice
candidate_loop loops divisibility zero candidate = unreachable
candidate_loop loops divisibility (suc rounds) candidate =
    let rest = candidate_loop loops divisibility rounds (candidate - 1) in
    if skips divisibility candidate
    then rest
    else if candidate == 0
    then divides_by_zero
    else if evaluate_candidate_tile_size loops candidate
    then chosen candidate
    else rest

unfoldable pub choose_tile_size : List AssociatedLoop → ℕ → ℕ → Choice
choose_tile_size [] min_value divisibility = no_loops
choose_tile_size (l ∷ ls) min_value divisibility =
    let start = max max_candidate_tile_size min_value in
    candidate_loop (l ∷ ls) divisibility (suc (start - min_value)) start

unfoldable pub choose_for : ReserveSize → Choice
choose_for r =
    choose_tile_size (collect_associated_loops r.result r.users).0 r.min_value r.divisibility

-- Sizes given on the command line are taken in order, without a check.
unfoldable pub choose_all : List ℕ → List ReserveSize → List Choice
choose_all sizes [] = []
choose_all [] (r ∷ rs) = choose_for r ∷ choose_all [] rs
choose_all (s ∷ []) (r ∷ rs) = chosen s ∷ []
choose_all (s ∷ t ∷ sizes) (r ∷ rs) = chosen s ∷ choose_all (t ∷ sizes) rs

-- `none` is the error that the number of sizes given does not match.
unfoldable pub run_on_operation : List ℕ → List ReserveSize → Option (List Choice)
run_on_operation sizes [] = some []
run_on_operation [] (r ∷ rs) = some (choose_all [] (r ∷ rs))
run_on_operation (s ∷ sizes) (r ∷ rs) =
    if not (length (s ∷ sizes) == length (r ∷ rs))
    then none
    else some (choose_all (s ∷ sizes) (r ∷ rs))
