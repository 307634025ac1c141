-- ===== src/FifoOrder/Memory.antt =====
-- lib/Transforms/OrderFifoSlotsByUse.cpp, `moveIntoOrder`: what a move does to the ops that touch memory.
use dataflow_scheduler.Prelude.{
  not-contains, ℕ, ◌+◌, ◌≤◌, ◌<◌, ◌≡◌, ◌↔◌, refl, sym, ap, ◌∙◌, ◌⊎◌, inl, inr, Bool, true, false,
  not, ◌&&◌, none, some, List, [], ◌∷◌, ◌++◌, arith, length, ◌==◌, ==_iff, ==_ne, ==-refl, ltb→lt,
  Bool-cases, if◌then◌else◌, contains, contains→In, In→contains, In, In-append_cases, subst, Nodup,
}
use dataflow_scheduler.Device.{Value}
use dataflow_scheduler.FifoOrder.{
  position, is_before_in_block, min_element, max_element, move_into_order, from_op, passes_memory,
}
use dataflow_scheduler.FifoOrder.Move.{
  without, NoneIn, StartsIn, position-split, position-left, min_element-In, min_element-split,
  move_into_order-IsGathered,
}
use dataflow_scheduler.FifoOrder.Gathered.{position-right}

choice-greatest :
    (block : List ℕ) (best op : ℕ)
    → let c = if is_before_in_block block best op then op else best in
      (position block best ≤ position block c) × (position block op ≤ position block c)
choice-greatest block best op = elim (Bool-cases (is_before_in_block block best op)) [
  | inl e ↦
      rw e
        ((let lt = ltb→lt (position block best) (position block op) e in omega arith), omega arith)
  | inr e ↦ rw e (omega arith, ground arith)
]

-- No op stands after the last.
max_element-greatest :
    (block : List ℕ) (best : ℕ) (ops : List ℕ) (op : ℕ)
    → In op (best ∷ ops)
    → position block op ≤ position block (max_element block best ops)
unfolding max_element
max_element-greatest block best [] op (inl e) = rw e (omega arith)
max_element-greatest block best [] op (inr z) = absurd z
max_element-greatest block best (o ∷ ops) op m =
    let next = if is_before_in_block block best o then o else best in
    let rest = λ (v : ℕ) (k : In v (next ∷ ops)). max_element-greatest block next ops v k in
    let to_next = rest next (inl refl) in
    let (to_best, to_o) = choice-greatest block best o in
    elim m [
      | inl e ↦ rw (sym e) (omega arith)
      | inr n ↦ elim n [ inl e ↦ rw (sym e) (omega arith) | inr k ↦ rest op (inr k) ]
    ]

max_element-In :
    (block : List ℕ) (best : ℕ) (ops : List ℕ) → In (max_element block best ops) (best ∷ ops)
unfolding max_element
max_element-In block best [] = inl refl
max_element-In block best (o ∷ ops) =
    go (is_before_in_block block best o)
      (max_element-In block (if is_before_in_block block best o then o else best) ops)
  where
    go :
        (c : Bool)
        → In (max_element block (if c then o else best) ops) ((if c then o else best) ∷ ops)
        → In (max_element block (if c then o else best) ops) (best ∷ o ∷ ops)
    go true m = inr m
    go false (inl q) = inl q
    go false (inr m) = inr (inr m)

from_op-split : (op : ℕ) (xs ys : List ℕ) → ¬ In op xs → from_op op (xs ++ op ∷ ys) ≡ op ∷ ys
unfolding from_op
from_op-split op [] ys out = rw (==-refl op) refl
from_op-split op (x ∷ xs) ys out =
    rw (==_ne x op (λ e. out (inl e))) (from_op-split op xs ys (λ m. out (inr m)))

position-at_least : (v : ℕ) (xs ys : List ℕ) → ¬ In v xs → length xs ≤ position (xs ++ ys) v
position-at_least v xs ys out = omega (arith, position-right v xs ys out)

-- An op on one side of all the moved ones stays there.
same_side :
    (ops xs ys : List ℕ) (b v : ℕ)
    → NoneIn ops xs
    → StartsIn ops ys
    → ¬ In b ops
    → In v ops
    → In b (xs ++ ys)
    → ((v : ℕ) → In v ops → position (xs ++ ys) b < position (xs ++ ys) v)
      ⊎ ((v : ℕ) → In v ops → position (xs ++ ys) v < position (xs ++ ys) b)
    → (position (xs ++ (ops ++ without ops ys)) b < position (xs ++ (ops ++ without ops ys)) v)
      ↔ (position (xs ++ ys) b < position (xs ++ ys) v)
same_side ops xs ys b v apart starts out n m (inl early) =
    let h = early v n in
    let left = position-left b xs (ops ++ without ops ys) (before ys starts early m) in
    let right = position-at_least v xs (ops ++ without ops ys) (apart v n) in
    ((λ x. h), λ x. omega arith)
  where
    before :
        (ys : List ℕ)
        → StartsIn ops ys
        → ((v : ℕ) → In v ops → position (xs ++ ys) b < position (xs ++ ys) v)
        → In b (xs ++ ys)
        → In b xs
    before [] starts early m = absurd starts
    before (y ∷ ys) starts early m = elim (Bool-cases (contains xs b)) [
      | inl hit ↦ contains→In xs b hit
      | inr miss ↦
          let h = early y starts in
          let at_y = position-split y xs ys (apart y starts) in
          let at_b = position-at_least b xs (y ∷ ys) (λ k. cc (miss, In→contains xs b k)) in
          absurd (omega arith)
    ]
same_side ops xs ys b v apart starts out n m (inr late) =
    let h = late v n in
    let outside : ¬ In b xs = λ k.
      let l = position-left b xs ys k in
      let r = position-at_least v xs ys (apart v n) in omega arith in
    let at_v = position-right v xs (ops ++ without ops ys) (apart v n) in
    let at_b = position-right b xs (ops ++ without ops ys) outside in
    let left = position-left v ops (without ops ys) n in
    let right = position-at_least b ops (without ops ys) out in
    ((λ x. absurd (omega arith)), λ x. absurd (omega arith))

right_part : (v : ℕ) (xs ys : List ℕ) → ¬ In v xs → In v (xs ++ ys) → In v ys
right_part v xs ys out m = elim (In-append_cases v xs ys m) [ inl l ↦ absurd (out l) | inr r ↦ r ]

module _ (operands : ℕ → List Value) (is_memory_effect_free : ℕ → Bool)
    (properly_dominates : Value → ℕ → Bool) where
  -- An op that touches memory and is not moved stands after the last, if the loop passed none.
  passes_memory-after :
      (ops : List ℕ) (last : ℕ) (zs : List ℕ) (b : ℕ)
      → passes_memory operands is_memory_effect_free properly_dominates ops last zs ≡ false
      → In b zs
      → ¬ In b ops
      → In last ops
      → is_memory_effect_free b ≡ false
      → position zs last < position zs b
  unfolding passes_memory position
  passes_memory-after ops last [] b e m out l touches = absurd m
  passes_memory-after ops last (z ∷ zs) b e m out l touches = elim (Bool-cases (z == last)) [
    | inl q ↦
        let miss = ==_ne z b (λ r. out (subst (λ y. In y ops) (sym ((==_iff z last).0 q) ∙ r) l)) in
        rw (q, miss) (omega arith)
    | inr q ↦
        let (no_stop, rest) =
          go_on (not (contains ops z) && not (is_memory_effect_free z))
            (passes_memory operands is_memory_effect_free properly_dominates ops last zs)
            (rw (q, passes_memory) at e) in
        let miss : (z == b) ≡ false = ==_ne z b (λ r. cc (no_stop, stop z r)) in
        rw (q, miss)
          (let ih =
              passes_memory-after ops last zs b rest (tail (λ r. cc (miss, (==_iff z b).1 r)) m) out
                l touches in
            omega arith)
  ]
    where
      go_on : (c r : Bool) → (if c then true else r) ≡ false → (c ≡ false) × (r ≡ false)
      go_on true r h = cc
      go_on false r h = (refl, h)

      tail : ¬ (z ≡ b) → In b (z ∷ zs) → In b zs
      tail ne (inl r) = absurd (ne r)
      tail ne (inr n) = n

      stop : (z : ℕ) → z ≡ b → (not (contains ops z) && not (is_memory_effect_free z)) ≡ true
      stop z r = rw (r, not-contains ops b out, touches) refl

  no_stop_of :
      (a b : Bool) (x y : List ℕ)
      → (if a then none else if not b then none else some x) ≡ some y
      → a ≡ false
  no_stop_of true b x y e = cc
  no_stop_of false b x y e = refl

  -- An op that touches memory and is not moved stands before all that are moved, or after all of them.
  beside_all :
      (op : ℕ) (ops : List ℕ) (block moved : List ℕ)
      → ((v : ℕ) → In v (op ∷ ops) → In v block)
      → move_into_order operands is_memory_effect_free properly_dominates (op ∷ ops) true block
        ≡ some moved
      → (b : ℕ) → In b block
      → ¬ In b (op ∷ ops)
      → is_memory_effect_free b ≡ false
      → ((v : ℕ) → In v (op ∷ ops) → position block b < position block v)
        ⊎ ((v : ℕ) → In v (op ∷ ops) → position block v < position block b)
  unfolding move_into_order
  beside_all op ops block moved all e b m out touches =
      let first = min_element block op ops in
      let last = max_element block op ops in
      let (xs, ys, q, apart) = min_element-split block op ops all in
      let stop = no_stop_of _ _ _ moved e in
      let no_pass =
        subst
          (λ l.
            passes_memory operands is_memory_effect_free properly_dominates (op ∷ ops) last l
            ≡ false)
          (ap (from_op first) q
            ∙ from_op-split first xs ys (apart first (min_element-In block op ops)))
          stop in
      elim (Bool-cases (contains xs b)) [
        | inl hit ↦ inl (λ v n.
            let left = position-left b xs (first ∷ ys) (contains→In xs b hit) in
            let right = position-at_least v xs (first ∷ ys) (apart v n) in
            subst (λ l. position l b < position l v) (sym q) (omega arith))
        | inr miss ↦
            let outside : ¬ In b xs = λ k. cc (miss, In→contains xs b k) in
            let after =
              passes_memory-after (op ∷ ops) last (first ∷ ys) b no_pass
                (right_part b xs (first ∷ ys) outside (subst (λ l. In b l) q m)) out
                (max_element-In block op ops) touches in
            let at_b =
              subst (λ l. position l b ≡ length xs + position (first ∷ ys) b) (sym q)
                (position-right b xs (first ∷ ys) outside) in
            let at_last =
              subst (λ l. position l last ≡ length xs + position (first ∷ ys) last) (sym q)
                (position-right last xs (first ∷ ys) (apart last (max_element-In block op ops))) in
            inr (λ v n. let h = max_element-greatest block op ops v n in omega arith)
      ]

  -- A move that keeps the order of memory, of different ops of a block, leaves every op that touches memory
  -- and is not moved on the side of each moved op that it was on.
  pub move_into_order-keeps_memory :
      (op : ℕ) (ops : List ℕ) (block moved : List ℕ)
      → Nodup (op ∷ ops)
      → Nodup block
      → ((v : ℕ) → In v (op ∷ ops) → In v block)
      → move_into_order operands is_memory_effect_free properly_dominates (op ∷ ops) true block
        ≡ some moved
      → (b v : ℕ) → In b block
      → ¬ In b (op ∷ ops)
      → is_memory_effect_free b ≡ false
      → In v (op ∷ ops)
      → (position moved b < position moved v) ↔ (position block b < position block v)
  move_into_order-keeps_memory op ops block moved h different all e b v m out touches n =
      let (xs, ys, q, apart, r, starts) =
        move_into_order-IsGathered operands is_memory_effect_free properly_dominates op ops true
          block moved h different all e in
      rw (q, r)
        (same_side (op ∷ ops) xs ys b v apart starts out n (subst (λ l. In b l) q m) (
          subst
            (λ l.
              ((v : ℕ) → In v (op ∷ ops) → position l b < position l v)
              ⊎ ((v : ℕ) → In v (op ∷ ops) → position l v < position l b))
            q (beside_all op ops block moved all e b m out touches)))
