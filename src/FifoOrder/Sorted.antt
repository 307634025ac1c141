-- ===== src/FifoOrder/Sorted.antt =====
-- lib/Transforms/OrderFifoSlotsByUse.cpp, `orderFifo`: the accesses of a FIFO, sorted by their keys.
use dataflow_scheduler.Prelude.{
  ℕ, ◌+◌, ◌≡◌, refl, sym, ap, ◌∙◌, inl, inr, Bool, true, false, some, List, [], ◌∷◌, map, arith,
  ◌==◌, Bool-cases, if◌then◌else◌, In, Nodup, count, count_pos, count_pos-In, Nodup-count_le,
  count_le-Nodup, Option-cases,
}
use dataflow_scheduler.Prelude.Maps.{Map}
use dataflow_scheduler.FifoOrder.{SlotAccess, Reader, key_less, get_consumption_key}
use dataflow_scheduler.FifoOrder.Pass.{Keyed, key_accesses, insert_keyed, sort_onto, stable_sort}

-- No key of the list is less than the one.
abbrev NotBelow : ℕ × ℕ → List Keyed → Type 0
NotBelow k [] = Unit {0}
NotBelow k (x ∷ xs) = (key_less x.0 k ≡ false) × NotBelow k xs

abbrev pub IsSorted : List Keyed → Type 0
IsSorted [] = Unit {0}
IsSorted (x ∷ xs) = NotBelow x.0 xs × IsSorted xs

key_less-asymmetric : (a b : ℕ × ℕ) → key_less a b ≡ true → key_less b a ≡ false
key_less-asymmetric (a, b) (c, d) h = ground arith

key_less-transitive :
    (a b c : ℕ × ℕ) → key_less b a ≡ false → key_less c b ≡ false → key_less c a ≡ false
key_less-transitive (a, b) (c, d) (e, f) h k = ground arith

NotBelow-weaken :
    (a b : ℕ × ℕ) (xs : List Keyed) → key_less b a ≡ false → NotBelow b xs → NotBelow a xs
NotBelow-weaken a b [] h n = tt
NotBelow-weaken a b (x ∷ xs) h n = (key_less-transitive a b x.0 h n.0, NotBelow-weaken a b xs h n.1)

insert_keyed-NotBelow :
    (a : ℕ × ℕ) (k : Keyed) (xs : List Keyed)
    → key_less k.0 a ≡ false
    → NotBelow a xs
    → NotBelow a (insert_keyed k xs)
unfolding insert_keyed
insert_keyed-NotBelow a k [] h n = (h, tt)
insert_keyed-NotBelow a k (x ∷ xs) h n = elim (Bool-cases (key_less k.0 x.0)) [
  | inl e ↦ rw e (h, n)
  | inr e ↦ rw e (n.0, insert_keyed-NotBelow a k xs h n.1)
]

insert_keyed-IsSorted : (k : Keyed) (xs : List Keyed) → IsSorted xs → IsSorted (insert_keyed k xs)
unfolding insert_keyed
insert_keyed-IsSorted k [] s = (tt, tt)
insert_keyed-IsSorted k (x ∷ xs) s = elim (Bool-cases (key_less k.0 x.0)) [
  | inl e ↦ let h = key_less-asymmetric k.0 x.0 e in rw e ((h, NotBelow-weaken k.0 x.0 xs h s.0), s)
  | inr e ↦ rw e (insert_keyed-NotBelow x.0 k xs e s.0, insert_keyed-IsSorted k xs s.1)
]

sort_onto-IsSorted : (sorted ks : List Keyed) → IsSorted sorted → IsSorted (sort_onto sorted ks)
unfolding sort_onto
sort_onto-IsSorted sorted [] s = s
sort_onto-IsSorted sorted (k ∷ ks) s =
    sort_onto-IsSorted (insert_keyed k sorted) ks (insert_keyed-IsSorted k sorted s)

-- Insertion keeps what is counted.
module _ (p : Keyed → Bool) where
  abbrev pub number : List Keyed → ℕ
  number [] = 0
  number (x ∷ xs) = (if p x then 1 else 0) + number xs

  insert_keyed-number : (k : Keyed) (xs : List Keyed) → number (insert_keyed k xs) ≡ number (k ∷ xs)
  unfolding insert_keyed
  insert_keyed-number k [] = refl
  insert_keyed-number k (x ∷ xs) = elim (Bool-cases (key_less k.0 x.0)) [
    | inl e ↦ rw e refl
    | inr e ↦ rw e (omega (arith, insert_keyed-number k xs))
  ]

  sort_onto-number :
      (sorted ks : List Keyed) → number (sort_onto sorted ks) ≡ number sorted + number ks
  unfolding sort_onto
  sort_onto-number sorted [] = omega arith
  sort_onto-number sorted (k ∷ ks) =
      omega (arith, sort_onto-number (insert_keyed k sorted) ks, insert_keyed-number k sorted)

-- The stable sort gives a sorted list with each entry as often as before.
pub stable_sort-IsSorted :
    (ks : List Keyed)
    → IsSorted (stable_sort ks) × ((p : Keyed → Bool) → number p (stable_sort ks) ≡ number p ks)
stable_sort-IsSorted ks =
    (sort_onto-IsSorted [] ks tt, λ p. omega (arith, sort_onto-number p [] ks))

-- Two lists with the same numbers.
abbrev pub Same : List ℕ → List ℕ → Type 0
Same xs ys = (v : ℕ) → count v xs ≡ count v ys

pub Same-Nodup : (xs ys : List ℕ) → Same xs ys → Nodup ys → Nodup xs
Same-Nodup xs ys same h = count_le-Nodup xs (λ v. omega (arith, same v, Nodup-count_le ys h v))

pub Same-In : (xs ys : List ℕ) → Same xs ys → (v : ℕ) → In v xs → In v ys
Same-In xs ys same v m = count_pos-In v ys (omega (arith, same v, count_pos v xs m))

-- One of the two ops of the entries: all of them, and after the sort.
module _ (op_of : SlotAccess → ℕ) where
  abbrev pub ops : List Keyed → List ℕ
  ops = map (λ k. op_of k.1)

  count-number : (v : ℕ) (ks : List Keyed) → count v (ops ks) ≡ number (λ k. op_of k.1 == v) ks
  unfolding count
  count-number v [] = refl
  count-number v (k ∷ ks) = ground (arith, count-number v ks)

  pub sorted-Same : (ks : List Keyed) → Same (ops (stable_sort ks)) (ops ks)
  sorted-Same ks v =
      count-number v (stable_sort ks)
      ∙ (stable_sort-IsSorted ks).1 (λ k. op_of k.1 == v)
      ∙ sym (count-number v ks)

  pub key_accesses-ops :
      (reader_of : ℕ → Reader) (positions : Map ℕ) (accesses : List SlotAccess) (ks : List Keyed)
      → key_accesses reader_of positions accesses ≡ some ks
      → ops ks ≡ map op_of accesses
  unfolding key_accesses
  key_accesses-ops reader_of positions [] ks e = let q : [] ≡ ks = cc in ap ops (sym q)
  key_accesses-ops reader_of positions (a ∷ accesses) ks e =
      elim (Option-cases (get_consumption_key reader_of a.reader positions)) [
        | inl q ↦ cc (rw (q, key_accesses) at e)
        | inr (key, q) ↦ elim (Option-cases (key_accesses reader_of positions accesses)) [
          | inl r ↦ cc (rw (q, r, key_accesses) at e)
          | inr (keyed, r) ↦
              let same : ((key, a) ∷ keyed) ≡ ks = cc (rw (q, r, key_accesses) at e) in
              ap ops (sym same)
              ∙ ap (λ l. op_of a ∷ l) (key_accesses-ops reader_of positions accesses keyed r)
        ]
      ]
