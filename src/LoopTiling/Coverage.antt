-- ===== src/LoopTiling/Coverage.antt =====
-- lib/Dialect/KTDF/Analysis/LoopTiling.cpp, `computeLoopNests`: every loop of the walk ends up in a nest
-- that the analysis returns for it, with metadata.
use dataflow_scheduler.Prelude.{
  ℕ, zero, suc, ◌+◌, ◌≡◌, refl, sym, ◌∙◌, ◌⊎◌, inl, inr, true, false, some, List, [], ◌∷◌, ◌++◌,
  arith, ◌==◌, ==_iff, Bool-cases, Option-cases, length, get_elem?, In, map, concat,
  In-append_cases,
}
use mathlib.Core.Logic.{⊎_elim}
use mathlib.Core.List.{map-append}
use dataflow_scheduler.Prelude.Maps.{Map, lookup, insert, has, lookup-insert, has-insert}
use dataflow_scheduler.LoopTiling.{
  ForOp, LoopTilingMetadata, LoopTilingInfo, get_metadata_for_loop, get_nest_containing_loop,
  assign_loop, assign_metadata, index_loops, record_nest, record_nests, visit_loop,
  compute_loop_nests,
}
use dataflow_scheduler.LoopTiling.Nests.{split_nest-concat}

abbrev pub ops : List ForOp → List ℕ
ops = map (λ l. l.op)

-- The analysis knows a nest that holds the loop, and its metadata.
record Covered (i : LoopTilingInfo) (op : ℕ) : Type 0 where
  nest_index : ℕ
  nest : List ForOp
  indexed : lookup op i.loop_to_nest_index ≡ some nest_index
  found : get_elem? i.loop_nests nest_index ≡ some nest
  holds : In op (ops nest)
  metadata : has i.loop_to_metadata op ≡ true

-- All indexed loops are covered.
abbrev IsSound : LoopTilingInfo → Type 0
IsSound i = (op : ℕ) → has i.loop_to_nest_index op ≡ true → Covered i op

get_elem?-append_left :
    (xs ys : List (List ForOp)) (n : ℕ) (x : List ForOp)
    → get_elem? xs n ≡ some x
    → get_elem? (xs ++ ys) n ≡ some x
get_elem?-append_left [] ys n x h = cc
get_elem?-append_left (z ∷ xs) ys zero x h = h
get_elem?-append_left (z ∷ xs) ys (suc n) x h = get_elem?-append_left xs ys n x h

get_elem?-length :
    (xs : List (List ForOp)) (x : List ForOp) → get_elem? (xs ++ x ∷ []) (length xs) ≡ some x
get_elem?-length [] x = refl
get_elem?-length (z ∷ xs) x = get_elem?-length xs x

-- An index map after `index_loops`: the loops of the nest have the new index, others the old one.
index_loops-lookup :
    (n : ℕ) (ls : List ForOp) (m : Map ℕ) (op : ℕ)
    → (In op (ops ls) × (lookup op (index_loops n ls m) ≡ some n))
      ⊎ (¬ In op (ops ls) × (lookup op (index_loops n ls m) ≡ lookup op m))
unfolding index_loops
index_loops-lookup n [] m op = inr (λ h. h, refl)
index_loops-lookup n (l ∷ ls) m op = go (index_loops-lookup n ls (insert l.op n m) op)
  where
    go :
        (In op (ops ls) × (lookup op (index_loops n ls (insert l.op n m)) ≡ some n))
          ⊎ (¬ In op (ops ls)
              × (lookup op (index_loops n ls (insert l.op n m)) ≡ lookup op (insert l.op n m)))
        → (In op (ops (l ∷ ls)) × (lookup op (index_loops n (l ∷ ls) m) ≡ some n))
          ⊎ (¬ In op (ops (l ∷ ls)) × (lookup op (index_loops n (l ∷ ls) m) ≡ lookup op m))
    go (inl (h, e)) = inl (inr h, e)
    go (inr (h, e)) = elim (Bool-cases (l.op == op)) [
      | inl same ↦ inl (inl ((==_iff l.op op).0 same), e ∙ lookup-insert l.op op n m ∙ rw same)
      | inr other ↦ inr (absent h other, e ∙ lookup-insert l.op op n m ∙ rw other)
    ]
      where
        absent : ¬ In op (ops ls) → (l.op == op) ≡ false → ¬ In op (ops (l ∷ ls))
        absent h other (inl same) = ground arith
        absent h other (inr m) = h m

assign_loop-has :
    (d k : ℕ) (ls : List ForOp) (m : Map LoopTilingMetadata) (op : ℕ)
    → (In op (ops ls) ⊎ (has m op ≡ true))
    → has (assign_loop d k ls m) op ≡ true
unfolding assign_loop
assign_loop-has d k [] m op (inl h) = absurd h
assign_loop-has d k [] m op (inr h) = h
assign_loop-has d k (l ∷ ls) m op (inl (inl e)) =
    assign_loop-has d (k + 1) ls _ op (inr (has-insert l.op op _ m ∙ ground arith))
assign_loop-has d k (l ∷ ls) m op (inl (inr h)) = assign_loop-has d (k + 1) ls _ op (inl h)
assign_loop-has d k (l ∷ ls) m op (inr h) =
    assign_loop-has d (k + 1) ls _ op (inr (has-insert l.op op _ m ∙ ground arith))

has_of : (m : Map ℕ) (op n : ℕ) → lookup op m ≡ some n → has m op ≡ true
unfolding has
has_of m op n e = rw (e, has)

value_of : (m : Map ℕ) (op : ℕ) → has m op ≡ true → (n : ℕ) × (lookup op m ≡ some n)
unfolding has
value_of m op h = elim (Option-cases (lookup op m)) [ inl e ↦ cc (rw (e, has) at h) | inr p ↦ p ]

module _ (i : LoopTilingInfo) (n : List ForOp) where
  record_nest-has :
      (op : ℕ)
      → In op (ops n) ⊎ (has i.loop_to_nest_index op ≡ true)
      → has (record_nest i n).loop_to_nest_index op ≡ true
  unfolding record_nest
  record_nest-has op h = go (index_loops-lookup (length i.loop_nests) n i.loop_to_nest_index op) h
    where
      go :
          (In op (ops n)
              × (lookup op (index_loops (length i.loop_nests) n i.loop_to_nest_index)
                  ≡ some (length i.loop_nests)))
            ⊎ (¬ In op (ops n)
                × (lookup op (index_loops (length i.loop_nests) n i.loop_to_nest_index)
                    ≡ lookup op i.loop_to_nest_index))
          → In op (ops n) ⊎ (has i.loop_to_nest_index op ≡ true)
          → has (index_loops (length i.loop_nests) n i.loop_to_nest_index) op ≡ true
      go (inl (m, e)) h = has_of _ op _ e
      go (inr (m, e)) (inl in_nest) = absurd (m in_nest)
      go (inr (m, e)) (inr old) =
          let (k, q) = value_of i.loop_to_nest_index op old in has_of _ op k (e ∙ q)

  record_nest-IsSound : IsSound i → IsSound (record_nest i n)
  unfolding record_nest assign_metadata
  record_nest-IsSound sound op h =
      go (index_loops-lookup (length i.loop_nests) n i.loop_to_nest_index op)
    where
      go :
          (In op (ops n)
              × (lookup op (index_loops (length i.loop_nests) n i.loop_to_nest_index)
                  ≡ some (length i.loop_nests)))
            ⊎ (¬ In op (ops n)
                × (lookup op (index_loops (length i.loop_nests) n i.loop_to_nest_index)
                    ≡ lookup op i.loop_to_nest_index))
          → Covered (record_nest i n) op
      go (inl (m, e)) = record {
        nest_index = length i.loop_nests;
        nest = n;
        indexed = e;
        found = get_elem?-length i.loop_nests n;
        holds = m;
        metadata = assign_loop-has (length n) 0 n i.loop_to_metadata op (inl m);
      }
      go (inr (m, e)) =
          let (k, q) = value_of _ op h in
          let old = sound op (has_of _ op k (sym e ∙ q)) in
          record {
            nest_index = old.nest_index;
            nest = old.nest;
            indexed = e ∙ old.indexed;
            found = get_elem?-append_left i.loop_nests (n ∷ []) old.nest_index old.nest old.found;
            holds = old.holds;
            metadata = assign_loop-has (length n) 0 n i.loop_to_metadata op (inr old.metadata);
          }

record_nests-IsSound :
    (ns : List (List ForOp)) (i : LoopTilingInfo) → IsSound i → IsSound (record_nests i ns)
unfolding record_nests
record_nests-IsSound [] i s = s
record_nests-IsSound (n ∷ ns) i s =
    record_nests-IsSound ns (record_nest i n) (record_nest-IsSound i n s)

record_nests-has :
    (ns : List (List ForOp)) (i : LoopTilingInfo) (op : ℕ)
    → In op (ops (concat ns)) ⊎ (has i.loop_to_nest_index op ≡ true)
    → has (record_nests i ns).loop_to_nest_index op ≡ true
unfolding record_nests
record_nests-has [] i op (inl h) = absurd h
record_nests-has [] i op (inr h) = h
record_nests-has (n ∷ ns) i op (inl h) = record_nests-has ns (record_nest i n) op (
    ⊎_elim (λ m. inr (record_nest-has i n op (inl m))) inl
      (In-append_cases op (ops n) (ops (concat ns)) (rw map-append at h)))
record_nests-has (n ∷ ns) i op (inr h) =
    record_nests-has ns (record_nest i n) op (inr (record_nest-has i n op (inr h)))

abbrev pub blank : LoopTilingInfo
blank = record { loop_nests = []; loop_to_nest_index = []; loop_to_metadata = [] }

blank-IsSound : IsSound blank
unfolding has lookup
blank-IsSound op h = cc

metadata_of :
    (m : Map LoopTilingMetadata) (op : ℕ)
    → has m op ≡ true
    → (x : LoopTilingMetadata) × (lookup op m ≡ some x)
unfolding has
metadata_of m op h = elim (Option-cases (lookup op m)) [ inl e ↦ cc (rw (e, has) at h) | inr p ↦ p ]

module _ (nested : ForOp → List ForOp)
    (outermost_first : (l : ForOp) → (rest : List ForOp) × (nested l ≡ l ∷ rest)) where
  visit_loop-IsSound :
      (i : LoopTilingInfo) (l : ForOp) → IsSound i → IsSound (visit_loop nested i l)
  unfolding visit_loop
  visit_loop-IsSound i l s = elim (Bool-cases (has i.loop_to_nest_index l.op)) [
    | inl e ↦ rw e s
    | inr e ↦ rw e (record_nests-IsSound _ i s)
  ]

  visit_loop-has :
      (i : LoopTilingInfo) (l : ForOp) (op : ℕ)
      → (l.op ≡ op) ⊎ (has i.loop_to_nest_index op ≡ true)
      → has (visit_loop nested i l).loop_to_nest_index op ≡ true
  unfolding visit_loop
  visit_loop-has i l op h = elim (Bool-cases (has i.loop_to_nest_index l.op)) [
    | inl e ↦ rw e (⊎_elim (λ same. rw (← same) e) (λ old. old) h)
    | inr e ↦
        let (rest, q) = outermost_first l in
        rw (e, q)
          (record_nests-has _ i op (⊎_elim (λ same. inl (rw (split_nest-concat) (inl same))) inr h))
  ]

  compute-has :
      (ls : List ForOp) (i : LoopTilingInfo) (op : ℕ)
      → In op (ops ls) ⊎ (has i.loop_to_nest_index op ≡ true)
      → has (compute_loop_nests nested i ls).loop_to_nest_index op ≡ true
  unfolding compute_loop_nests
  compute-has [] i op (inl h) = absurd h
  compute-has [] i op (inr h) = h
  compute-has (l ∷ ls) i op (inl (inl e)) =
      compute-has ls (visit_loop nested i l) op (inr (visit_loop-has i l op (inl e)))
  compute-has (l ∷ ls) i op (inl (inr h)) = compute-has ls (visit_loop nested i l) op (inl h)
  compute-has (l ∷ ls) i op (inr h) =
      compute-has ls (visit_loop nested i l) op (inr (visit_loop-has i l op (inr h)))

  compute-IsSound :
      (ls : List ForOp) (i : LoopTilingInfo) → IsSound i → IsSound (compute_loop_nests nested i ls)
  unfolding compute_loop_nests
  compute-IsSound [] i s = s
  compute-IsSound (l ∷ ls) i s =
      compute-IsSound ls (visit_loop nested i l) (visit_loop-IsSound i l s)

  -- If the perfect nest of a loop starts with that loop, every loop of the walk, one beyond the
  -- depth that a nest is cut to included, is looked up to a nest that holds it, and has metadata.
  pub compute_loop_nests-covers :
      (ls : List ForOp) (l : ForOp)
      → In l.op (ops ls)
      → let i = compute_loop_nests nested blank ls in
        (nest : List ForOp) × (get_nest_containing_loop i l ≡ some nest)
        × In l.op (ops nest)
        × (m : LoopTilingMetadata) × (get_metadata_for_loop i l ≡ some m)
  unfolding get_nest_containing_loop get_metadata_for_loop
  compute_loop_nests-covers ls l h =
      let i = compute_loop_nests nested blank ls in
      let covered =
        compute-IsSound ls blank blank-IsSound l.op (compute-has ls blank l.op (inl h)) in
      let (m, e) = metadata_of i.loop_to_metadata l.op covered.metadata in
      (
        covered.nest,
        rw (covered.indexed, get_nest_containing_loop) covered.found,
        covered.holds,
        m,
        e,
      )
