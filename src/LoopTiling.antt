-- ===== src/LoopTiling.antt =====
-- lib/Dialect/KTDF/Analysis/LoopTiling.cpp: the perfectly nested groups of loops of a region, and the
-- optimisation strategy of each loop. A loop is known by its operation; `get_perfectly_nested_loops`
-- is MLIR's and a parameter.
pub mod Examples
pub mod Nests
pub mod Coverage
use dataflow_scheduler.Prelude.{
  ℕ, zero, suc, ◌+◌, Bool, true, false, not, ◌&&◌, ◌||◌, Option, none, some, List, [], ◌∷◌, ◌++◌,
  ◌==◌, ltb, if◌then◌else◌, length, get_elem?, take,
}
use dataflow_scheduler.Prelude.Maps.{Map, lookup, insert, has}

pub data LoopType : Type 0 where
  parallel_loop sequential_loop : LoopType

-- An `scf.for`: its operation, its `loop_type` attribute, and whether another one is around it.
pub record ForOp : Type 0 where
  pub op : ℕ
  pub loop_type : Option LoopType
  pub has_parent_loop : Bool

abbrev pub is_parallel_type : Option LoopType → Bool
is_parallel_type none = false
is_parallel_type (some parallel_loop) = true
is_parallel_type (some sequential_loop) = false

abbrev pub is_parallel_loop : ForOp → Bool
is_parallel_loop l = is_parallel_type l.loop_type

pub data Strategy : Type 0 where
  tiling strip_mining no_strategy : Strategy

pub record LoopTilingMetadata : Type 0 where
  pub divisibility : ℕ
  pub min_value : ℕ
  pub strategy : Strategy
  pub is_invalidated : Bool

pub record LoopTilingInfo : Type 0 where
  pub loop_nests : List (List ForOp)
  pub loop_to_nest_index : Map ℕ
  pub loop_to_metadata : Map LoopTilingMetadata

abbrev pub max_loop_nest_depth : ℕ
max_loop_nest_depth = 4

unfoldable pub get_metadata_for_loop : LoopTilingInfo → ForOp → Option LoopTilingMetadata
get_metadata_for_loop i l = lookup l.op i.loop_to_metadata

unfoldable pub get_nest_containing_loop : LoopTilingInfo → ForOp → Option (List ForOp)
get_nest_containing_loop i l = elim (lookup l.op i.loop_to_nest_index) [
  | none ↦ none
  | some n ↦ get_elem? i.loop_nests n
]

unfoldable pub invalidate_loop : LoopTilingInfo → ForOp → LoopTilingInfo
invalidate_loop i l = elim (lookup l.op i.loop_to_metadata) [
  | none ↦ i
  | some m ↦ record i {
    loop_to_metadata = insert l.op (record m { is_invalidated = true }) i.loop_to_metadata;
  }
]

unfoldable pub update_metadata : LoopTilingInfo → ForOp → LoopTilingMetadata → LoopTilingInfo
update_metadata i l m = elim (lookup l.op i.loop_to_metadata) [
  | none ↦ i
  | some _ ↦ record i { loop_to_metadata = insert l.op m i.loop_to_metadata }
]

-- `nested_loops.back()` of a list that is not empty.
abbrev pub back_of : ForOp → List ForOp → ForOp
back_of l [] = l
back_of l (m ∷ ms) = back_of m ms

-- The loop that splits a nest: `current` is the sub-nest being gathered, `back` the last loop of all.
unfoldable pub split_loop : ℕ → List ForOp → List ForOp → List (List ForOp)
split_loop back current [] = []
split_loop back current (l ∷ ls) =
    let gathered = current ++ l ∷ [] in
    let finalized = gathered ∷ split_loop back [] ls in
    let continued = split_loop back gathered ls in
    if not (is_parallel_loop l) || (l.op == back) then finalized else continued

unfoldable pub split_nest : List ForOp → List (List ForOp)
split_nest [] = []
split_nest (l ∷ ls) = split_loop (back_of l ls).op [] (l ∷ ls)

unfoldable pub choose_strategy : ℕ → ℕ → ForOp → Strategy
choose_strategy nest_depth i l =
    if ltb 1 nest_depth
    then tiling
    else if (nest_depth == 1) && (i == 0)
    then if not l.has_parent_loop then strip_mining else no_strategy
    else no_strategy

-- The loops of a nest of depth `nest_depth`, from position `i` on.
unfoldable pub assign_loop : ℕ → ℕ → List ForOp → Map LoopTilingMetadata → Map LoopTilingMetadata
assign_loop nest_depth i [] m = m
assign_loop nest_depth i (l ∷ ls) m = assign_loop nest_depth (i + 1) ls (
    insert l.op
      (record {
        divisibility = 1;
        min_value = 1;
        strategy = choose_strategy nest_depth i l;
        is_invalidated = false;
      })
      m)

unfoldable pub assign_metadata : List ForOp → Map LoopTilingMetadata → Map LoopTilingMetadata
assign_metadata nest = assign_loop (length nest) 0 nest

unfoldable pub index_loops : ℕ → List ForOp → Map ℕ → Map ℕ
index_loops nest_index [] m = m
index_loops nest_index (l ∷ ls) m = index_loops nest_index ls (insert l.op nest_index m)

-- One sub-nest: its metadata, its place in the list, and the index of each of its loops. The loops
-- marked as visited are those with an index.
unfoldable pub record_nest : LoopTilingInfo → List ForOp → LoopTilingInfo
record_nest i nest = record {
  loop_nests = i.loop_nests ++ nest ∷ [];
  loop_to_nest_index = index_loops (length i.loop_nests) nest i.loop_to_nest_index;
  loop_to_metadata = assign_metadata nest i.loop_to_metadata;
}

unfoldable pub record_nests : LoopTilingInfo → List (List ForOp) → LoopTilingInfo
record_nests i [] = i
record_nests i (n ∷ ns) = record_nests (record_nest i n) ns

module _ (get_perfectly_nested_loops : ForOp → List ForOp) where
  -- One loop of the walk; the nest is limited to the maximum depth.
  unfoldable pub visit_loop : LoopTilingInfo → ForOp → LoopTilingInfo
  visit_loop i l =
      if has i.loop_to_nest_index l.op
      then i
      else record_nests i (split_nest (take max_loop_nest_depth (get_perfectly_nested_loops l)))

  unfoldable pub compute_loop_nests : LoopTilingInfo → List ForOp → LoopTilingInfo
  compute_loop_nests i [] = i
  compute_loop_nests i (l ∷ ls) = compute_loop_nests (visit_loop i l) ls
