-- ===== src/LoopTiling/Nests.antt =====
-- lib/Dialect/KTDF/Analysis/LoopTiling.cpp, `computeLoopNests`: how a perfect nest is split, and the
-- strategy that a loop which is not parallel is given.
use dataflow_scheduler.Prelude.{
  ℕ, ◌≡◌, ◌≢◌, refl, ◌∙◌, Bool, true, false, not, ◌||◌, some, List, [], ◌∷◌, ◌++◌, ◌==◌, ==-refl,
  ==_ne, Bool-cases, inl, inr, concat, All, All-append,
}
use mathlib.Core.List.{append_assoc, append-nil}
use dataflow_scheduler.Prelude.Maps.{insert, has, lookup-insert}
use dataflow_scheduler.LoopTiling.{
  ForOp, is_parallel_loop, tiling, LoopTilingMetadata, LoopTilingInfo, get_metadata_for_loop,
  back_of, split_loop, split_nest, choose_strategy, assign_loop, assign_metadata, record_nest,
  record_nests, visit_loop,
}

or_eq : (b : Bool) (a : ℕ) → (b || (a == a)) ≡ true
or_eq true a = refl
or_eq false a = ==-refl a

parallel_of : (b c : Bool) → (not b || c) ≡ false → b ≡ true
parallel_of true c h = refl
parallel_of false c h = cc

split_loop-concat :
    (ls current : List ForOp) (l : ForOp)
    → concat (split_loop (back_of l ls).op current (l ∷ ls)) ≡ current ++ l ∷ ls
unfolding split_loop
split_loop-concat [] current l =
    let last : (not (is_parallel_loop l) || (l.op == l.op)) ≡ true =
      or_eq (not (is_parallel_loop l)) l.op in
    rw last (append-nil (current ++ l ∷ []))
split_loop-concat (m ∷ ls) current l =
    elim (Bool-cases (not (is_parallel_loop l) || (l.op == (back_of m ls).op))) [
      | inl e ↦ rw (e, split_loop-concat ls [] m) (append_assoc current (l ∷ []) (m ∷ ls))
      | inr e ↦
          rw (e, split_loop-concat ls (current ++ l ∷ []) m)
            (append_assoc current (l ∷ []) (m ∷ ls))
    ]

-- The sub-nests of a nest, one after the other, are the nest.
pub split_nest-concat : (ls : List ForOp) → concat (split_nest ls) ≡ ls
unfolding split_nest
split_nest-concat [] = refl
split_nest-concat (l ∷ ls) = split_loop-concat ls [] l

-- Every loop but the last is parallel.
abbrev pub IsParallelButLast : List ForOp → Type 0
IsParallelButLast [] = Unit {0}
IsParallelButLast (l ∷ []) = Unit {0}
IsParallelButLast (l ∷ m ∷ ls) = (is_parallel_loop l ≡ true) × IsParallelButLast (m ∷ ls)

IsParallel-snoc :
    (ls : List ForOp) (l : ForOp)
    → All (λ x. is_parallel_loop x ≡ true) ls
    → IsParallelButLast (ls ++ l ∷ [])
IsParallel-snoc [] l h = tt
IsParallel-snoc (m ∷ []) l h = (h.0, tt)
IsParallel-snoc (m ∷ n ∷ ls) l h = (h.0, IsParallel-snoc (n ∷ ls) l h.1)

split_loop-IsParallelButLast :
    (back : ℕ) (current ls : List ForOp)
    → All (λ x. is_parallel_loop x ≡ true) current
    → All IsParallelButLast (split_loop back current ls)
unfolding split_loop
split_loop-IsParallelButLast back current [] h = tt
split_loop-IsParallelButLast back current (l ∷ ls) h =
    elim (Bool-cases (not (is_parallel_loop l) || (l.op == back))) [
      | inl e ↦ rw e (IsParallel-snoc current l h, split_loop-IsParallelButLast back [] ls tt)
      | inr e ↦ rw e (
          split_loop-IsParallelButLast back (current ++ l ∷ []) ls (
            All-append _ current (l ∷ []) h
              (parallel_of (is_parallel_loop l) (l.op == back) e, tt)))
    ]

-- In each sub-nest every loop but the last is parallel.
pub split_nest-IsParallelButLast : (ls : List ForOp) → All IsParallelButLast (split_nest ls)
unfolding split_nest
split_nest-IsParallelButLast [] = tt
split_nest-IsParallelButLast (l ∷ ls) =
    split_loop-IsParallelButLast (back_of l ls).op [] (l ∷ ls) tt

split_pair :
    (p q : ForOp)
    → is_parallel_loop p ≡ true
    → is_parallel_loop q ≡ false
    → p.op ≢ q.op
    → split_nest (p ∷ q ∷ []) ≡ (p ∷ q ∷ []) ∷ []
unfolding split_nest split_loop
split_pair p q hp hq ne = rw (hp, ==_ne p.op q.op ne, hq)

-- Where the perfect nest of a parallel loop that was not seen before is that loop and another one
-- that is not parallel, the other one becomes a candidate for tiling.
pub visit_loop-tiling_non_parallel :
    (nested : ForOp → List ForOp) (i : LoopTilingInfo) (p q : ForOp)
    → nested p ≡ p ∷ q ∷ []
    → has i.loop_to_nest_index p.op ≡ false
    → is_parallel_loop p ≡ true
    → is_parallel_loop q ≡ false
    → p.op ≢ q.op
    → (m : LoopTilingMetadata) × (get_metadata_for_loop (visit_loop nested i p) q ≡ some m)
      × (m.strategy ≡ tiling)
unfolding visit_loop record_nests record_nest assign_metadata assign_loop get_metadata_for_loop
    choose_strategy
visit_loop-tiling_non_parallel nested i p q e fresh hp hq ne =
    let m : LoopTilingMetadata = record {
      divisibility = 1;
      min_value = 1;
      strategy = tiling;
      is_invalidated = false;
    } in
    (
      m,
      rw (fresh, e, split_pair p q hp hq ne)
          (lookup-insert q.op q.op m (insert p.op m i.loop_to_metadata) ∙ rw (==-refl q.op)),
      refl,
    )
