-- ===== src/FifoOrder/Move.antt =====
-- lib/Transforms/OrderFifoSlotsByUse.cpp, `moveIntoOrder`: the block after a move, in closed form.
use dataflow_scheduler.Prelude.{
  ℕ, suc, ◌≤◌, ◌<◌, ◌≡◌, ◌≢◌, refl, sym, ap, ◌∙◌, ◌⊎◌, inl, inr, Bool, true, false, not, Option,
  none, some, List, [], ◌∷◌, ◌++◌, arith, length, append_assoc, ◌==◌, ==_iff, ==_ne, ==-refl,
  ltb→lt, Bool-cases, if◌then◌else◌, In, In-append_cases, subst, Nodup, remove, remove_absent,
}
use dataflow_scheduler.Device.{Value}
use dataflow_scheduler.FifoOrder.{
  position, is_before_in_block, min_element, insert_before, insert_after, move_before, move_after,
  move_rest, move_into_order,
}

-- A list without some numbers.
unfoldable pub without : List ℕ → List ℕ → List ℕ
without [] xs = xs
without (a ∷ as') xs = without as' (remove a xs)

abbrev pub NoneIn : List ℕ → List ℕ → Type 0
NoneIn ops xs = (op : ℕ) → In op ops → ¬ In op xs

pub remove-append : (a : ℕ) (xs ys : List ℕ) → remove a (xs ++ ys) ≡ remove a xs ++ remove a ys
unfolding remove
remove-append a [] ys = refl
remove-append a (x ∷ xs) ys = elim (Bool-cases (x == a)) [
  | inl e ↦ rw e (remove-append a xs ys)
  | inr e ↦ rw e (ap (λ l. x ∷ l) (remove-append a xs ys))
]

-- `op` is taken from behind `target` and put right after it.
move_after-split :
    (op target : ℕ) (xs ys : List ℕ)
    → op ≢ target
    → ¬ In op xs
    → ¬ In target xs
    → move_after op target (xs ++ target ∷ ys) ≡ xs ++ target ∷ op ∷ remove op ys
unfolding remove insert_after
move_after-split op target [] ys ne out miss =
    rw (==_ne target op (λ e. ne (sym e)), ==-refl target) refl
move_after-split op target (x ∷ xs) ys ne out miss = rw (==_ne x op (λ e. out (inl e))) (
    rw (==_ne x target (λ e. miss (inl e))) (
      ap (λ l. x ∷ l) (move_after-split op target xs ys ne (λ m. out (inr m)) (λ m. miss (inr m)))))

insert_before-split :
    (op target : ℕ) (xs ys : List ℕ)
    → ¬ In target xs
    → insert_before target op (xs ++ target ∷ ys) ≡ xs ++ op ∷ target ∷ ys
unfolding insert_before
insert_before-split op target [] ys miss = rw (==-refl target) refl
insert_before-split op target (x ∷ xs) ys miss =
    rw (==_ne x target (λ e. miss (inl e)))
      (ap (λ l. x ∷ l) (insert_before-split op target xs ys (λ m. miss (inr m))))

-- The ops after the first are gathered behind it.
move_rest-split :
    (previous : ℕ) (ops xs ys : List ℕ)
    → Nodup (previous ∷ ops)
    → NoneIn (previous ∷ ops) xs
    → move_rest previous ops (xs ++ previous ∷ ys) ≡ xs ++ ((previous ∷ ops) ++ without ops ys)
unfolding move_rest without
move_rest-split previous [] xs ys h out = refl
move_rest-split previous (op ∷ ops) xs ys h out =
    rw
      (move_after-split op previous xs ys (λ e. h.0 (inl e)) (out op (inr (inl refl)))
        (out previous (inl refl)))
      (subst (λ l. move_rest op ops l ≡ xs ++ ((previous ∷ op ∷ ops) ++ without ops (remove op ys)))
        (append_assoc xs (previous ∷ []) (op ∷ remove op ys))
        (move_rest-split op ops (xs ++ previous ∷ []) (remove op ys) h.1 apart
          ∙ append_assoc xs (previous ∷ []) ((op ∷ ops) ++ without ops (remove op ys))))
  where
    apart : NoneIn (op ∷ ops) (xs ++ previous ∷ [])
    apart a m n = elim (In-append_cases a xs (previous ∷ []) n) [
      | inl old ↦ out a (inr m) old
      | inr new ↦ elim new [ inl e ↦ h.0 (subst (λ y. In y (op ∷ ops)) (sym e) m) | inr z ↦ z ]
    ]

-- A block is split at an op in it.
pub split_at :
    (op : ℕ) (block : List ℕ)
    → In op block
    → (xs ys : List ℕ) × (block ≡ xs ++ op ∷ ys) × (¬ In op xs)
split_at op [] m = absurd m
split_at op (b ∷ block) m = elim (Bool-cases (b == op)) [
  | inl e ↦ ([], block, ap (λ x. x ∷ block) ((==_iff b op).0 e), λ z. z)
  | inr e ↦
      let ne : ¬ (b ≡ op) = λ q. cc (e, (==_iff b op).1 q) in
      let (xs, ys, q, out) = split_at op block (tail ne m) in
      (b ∷ xs, ys, ap (λ l. b ∷ l) q, λ n. elim n [ inl r ↦ ne r | inr k ↦ out k ])
]
  where
    tail : ¬ (b ≡ op) → In op (b ∷ block) → In op block
    tail ne (inl q) = absurd (ne q)
    tail ne (inr n) = n

pub position-split :
    (op : ℕ) (xs ys : List ℕ) → ¬ In op xs → position (xs ++ op ∷ ys) op ≡ length xs
unfolding position
position-split op [] ys out = rw (==-refl op) refl
position-split op (x ∷ xs) ys out =
    rw (==_ne x op (λ e. out (inl e))) (ap suc (position-split op xs ys (λ m. out (inr m))))

pub position-left : (op : ℕ) (xs ys : List ℕ) → In op xs → position (xs ++ ys) op < length xs
unfolding position
position-left op [] ys m = absurd m
position-left op (x ∷ xs) ys (inl e) = let hit = (==_iff x op).1 e in rw hit (omega arith)
position-left op (x ∷ xs) ys (inr m) = ground (arith, position-left op xs ys m)

-- The choice between two ops takes one of them, and neither stands before it.
pub choice-least :
    (block : List ℕ) (best op : ℕ)
    → let c = if is_before_in_block block op best then op else best in
      ((c ≡ best) ⊎ (c ≡ op))
      × (position block c ≤ position block best)
      × (position block c ≤ position block op)
choice-least block best op = elim (Bool-cases (is_before_in_block block op best)) [
  | inl e ↦ rw e (
    inr refl,
    (let lt = ltb→lt (position block op) (position block best) e in omega arith),
    omega arith,
  )
  | inr e ↦ rw e (inl refl, omega arith, ground arith)
]

-- The least op is one of them, and none stands before it.
min_element-least :
    (block : List ℕ) (best : ℕ) (ops : List ℕ)
    → In (min_element block best ops) (best ∷ ops)
      × ((op : ℕ)
          → In op (best ∷ ops)
          → position block (min_element block best ops) ≤ position block op)
unfolding min_element
min_element-least block best [] = (
  inl refl,
  λ op (m : In op (best ∷ [])). elim m [ inl e ↦ rw e (omega arith) | inr z ↦ absurd z ],
)
min_element-least block best (op ∷ ops) =
    let (inside, least) =
      min_element-least block (if is_before_in_block block op best then op else best) ops in
    let (one_of, to_best, to_op) = choice-least block best op in
    let here = least _ (inl refl) in
    (
      place _ _ one_of inside,
      λ v (m : In v (best ∷ op ∷ ops)). elim m [
        | inl q ↦ rw (sym q) (omega arith)
        | inr n ↦ elim n [ inl q ↦ rw (sym q) (omega arith) | inr k ↦ least v (inr k) ]
      ],
    )
  where
    place : (c x : ℕ) → (c ≡ best) ⊎ (c ≡ op) → In x (c ∷ ops) → In x (best ∷ op ∷ ops)
    place c x (inl q) (inl r) = inl (sym q ∙ r)
    place c x (inr q) (inl r) = inr (inl (sym q ∙ r))
    place c x o (inr m) = inr (inr m)

pub min_element-In :
    (block : List ℕ) (best : ℕ) (ops : List ℕ) → In (min_element block best ops) (best ∷ ops)
min_element-In block best ops = (min_element-least block best ops).0

-- The earliest of some ops splits the block, with none of them before it.
pub min_element-split :
    (block : List ℕ) (best : ℕ) (ops : List ℕ)
    → ((op : ℕ) → In op (best ∷ ops) → In op block)
    → (xs ys : List ℕ) × (block ≡ xs ++ min_element block best ops ∷ ys) × NoneIn (best ∷ ops) xs
min_element-split block best ops all =
    let (inside, least) = min_element-least block best ops in
    let (xs, ys, e, out) = split_at (min_element block best ops) block (all _ inside) in
    (
      xs,
      ys,
      e,
      λ op m n.
          let first =
            subst (λ b. position b (min_element block best ops) ≡ length xs) (sym e)
              (position-split (min_element block best ops) xs ys out) in
          let early =
            subst (λ b. position b op < length xs) (sym e)
              (position-left op xs (min_element block best ops ∷ ys) n) in
          let h = least op m in omega arith,
    )

abbrev pub StartsIn : List ℕ → List ℕ → Type 0
StartsIn ops [] = ⊥
StartsIn ops (y ∷ ys) = In y ops

-- What a move of different ops of a block does: the ops stand together in the order given, at the place of
-- the earliest, with all that was before it before them and the rest after them.
abbrev pub IsGathered : List ℕ → List ℕ → List ℕ → Type 0
IsGathered ops block moved =
    (xs ys : List ℕ) × (block ≡ xs ++ ys)
    × NoneIn ops xs
    × (moved ≡ xs ++ (ops ++ without ops ys))
    × StartsIn ops ys

Nodup-tail : (first : ℕ) (xs ys : List ℕ) → Nodup (xs ++ first ∷ ys) → ¬ In first ys
Nodup-tail first [] ys h = h.0
Nodup-tail first (x ∷ xs) ys h = Nodup-tail first xs ys h.1

first-gathered :
    (op first : ℕ) (xs ys : List ℕ)
    → ¬ In op xs
    → ¬ In first xs
    → Nodup (xs ++ first ∷ ys)
    → (if op == first then xs ++ first ∷ ys else move_before op first (xs ++ first ∷ ys))
      ≡ xs ++ op ∷ remove op (first ∷ ys)
unfolding remove
first-gathered op first xs ys out apart different = elim (Bool-cases (op == first)) [
  | inl e ↦
      let q = (==_iff op first).0 e in
      rw
        (
          e,
          ==_sym op first e,
          remove_absent op ys (λ m. Nodup-tail first xs ys different (subst (λ y. In y ys) q m)),
        )
        (ap (λ y. xs ++ y ∷ ys) (sym q))
  | inr e ↦
      rw
        (
          e,
          ==_ne first op (λ q. cc (e, (==_iff op first).1 (sym q))),
          remove-append op xs (first ∷ ys),
        )
        (rw (remove_absent op xs out, ==_ne first op (λ q. cc (e, (==_iff op first).1 (sym q))))
          (insert_before-split op first xs (remove op ys) apart))
]
  where
    ==_sym : (a b : ℕ) → (a == b) ≡ true → (b == a) ≡ true
    ==_sym a b e = (==_iff b a).1 (sym ((==_iff a b).0 e))

module _ (operands : ℕ → List Value) (is_memory_effect_free : ℕ → Bool)
    (properly_dominates : Value → ℕ → Bool) where
  abbrev tried : List ℕ → Bool → List ℕ → Option (List ℕ)
  tried ops keep block =
      move_into_order operands is_memory_effect_free properly_dominates ops keep block

  pub some_of :
      (a b : Bool) (x y : List ℕ)
      → (if a then none else if not b then none else some x) ≡ some y
      → x ≡ y
  some_of true b x y e = cc
  some_of false true x y e = cc
  some_of false false x y e = cc

  -- A move that succeeds gathers the ops, which are different ops of the block.
  pub move_into_order-IsGathered :
      (op : ℕ) (ops : List ℕ) (keep_memory_order : Bool) (block moved : List ℕ)
      → Nodup (op ∷ ops)
      → Nodup block
      → ((v : ℕ) → In v (op ∷ ops) → In v block)
      → move_into_order operands is_memory_effect_free properly_dominates
          (op ∷ ops)
          keep_memory_order
          block
        ≡ some moved
      → IsGathered (op ∷ ops) block moved
  unfolding move_into_order without
  move_into_order-IsGathered op ops keep block moved h different all e =
      let (xs, ys, q, out) = min_element-split block op ops all in
      let first = min_element block op ops in
      let start =
        first-gathered op first xs ys (out op (inl refl)) (out first (min_element-In block op ops))
          (subst Nodup q different) in
      (
        xs,
        first ∷ ys,
        q,
        out,
        sym (some_of _ _ _ moved e)
            ∙ ap (move_rest op ops) (
                subst
                  (λ b.
                    (if op == first then b else move_before op first b)
                    ≡ xs ++ op ∷ remove op (first ∷ ys))
                  (sym q) start)
            ∙ move_rest-split op ops xs (remove op (first ∷ ys)) h out,
        (min_element-In block op ops),
      )
