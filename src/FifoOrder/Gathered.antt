-- ===== src/FifoOrder/Gathered.antt =====
-- lib/Transforms/OrderFifoSlotsByUse.cpp, `moveIntoOrder`: what a block is after a move.
use dataflow_scheduler.Prelude.{
  ℕ, ◌+◌, ◌≡◌, ◌↔◌, refl, sym, ap, ◌∙◌, inl, inr, true, false, List, [], ◌∷◌, ◌++◌, arith, length,
  length-append, append_assoc, ==_ne, Bool-cases, contains, contains→In, In→contains, In,
  In-append_left, In-append_right, In-append_cases, subst, Nodup, remove, remove_absent, remove-In,
  In-remove, Nodup-remove,
}
use dataflow_scheduler.FifoOrder.{position, is_before_in_block}
use dataflow_scheduler.FifoOrder.Pass.{in_order}
use dataflow_scheduler.FifoOrder.Move.{without, NoneIn, IsGathered, remove-append, position-split}

pub without-append :
    (ops xs ys : List ℕ) → without ops (xs ++ ys) ≡ without ops xs ++ without ops ys
unfolding without
without-append [] xs ys = refl
without-append (a ∷ ops) xs ys =
    ap (without ops) (remove-append a xs ys) ∙ without-append ops (remove a xs) (remove a ys)

pub without-In : (ops xs : List ℕ) (v : ℕ) → In v (without ops xs) → In v xs × (¬ In v ops)
unfolding without
without-In [] xs v m = (m, λ z. z)
without-In (a ∷ ops) xs v m =
    let (n, out) = without-In ops (remove a xs) v m in
    let (old, ne) = remove-In a v xs n in
    (old, λ (k : In v (a ∷ ops)). elim k [ inl e ↦ ne e | inr l ↦ out l ])

pub In-without : (ops xs : List ℕ) (v : ℕ) → In v xs → ¬ In v ops → In v (without ops xs)
unfolding without
In-without [] xs v m out = m
In-without (a ∷ ops) xs v m out =
    In-without ops (remove a xs) v (In-remove a v xs m (λ e. out (inl e))) (λ k. out (inr k))

without_absent : (ops xs : List ℕ) → NoneIn ops xs → without ops xs ≡ xs
unfolding without
without_absent [] xs out = refl
without_absent (a ∷ ops) xs out =
    ap (without ops) (remove_absent a xs (out a (inl refl)))
    ∙ without_absent ops xs (λ v m. out v (inr m))

no_members : (xs : List ℕ) → ((v : ℕ) → ¬ In v xs) → xs ≡ []
no_members [] h = refl
no_members (x ∷ xs) h = absurd (h x (inl refl))

Nodup-without : (ops xs : List ℕ) → Nodup xs → Nodup (without ops xs)
unfolding without
Nodup-without [] xs h = h
Nodup-without (a ∷ ops) xs h = Nodup-without ops (remove a xs) (Nodup-remove a xs h)

Nodup-append :
    (xs ys : List ℕ) → Nodup xs → Nodup ys → ((v : ℕ) → In v xs → ¬ In v ys) → Nodup (xs ++ ys)
Nodup-append [] ys h k apart = k
Nodup-append (x ∷ xs) ys h k apart = (
  λ m. elim (In-append_cases x xs ys m) [ inl l ↦ h.0 l | inr r ↦ apart x (inl refl) r ],
  Nodup-append xs ys h.1 k (λ v m. apart v (inr m)),
)

Nodup-right : (xs ys : List ℕ) → Nodup (xs ++ ys) → Nodup ys
Nodup-right [] ys h = h
Nodup-right (x ∷ xs) ys h = Nodup-right xs ys h.1

Nodup-left : (xs ys : List ℕ) → Nodup (xs ++ ys) → Nodup xs × ((v : ℕ) → In v xs → ¬ In v ys)
Nodup-left [] ys h = (tt, λ v m n. m)
Nodup-left (x ∷ xs) ys h =
    let (rest, apart) = Nodup-left xs ys h.1 in
    (
      ((λ m. h.0 (In-append_left x xs ys m)), rest),
      λ v (m : In v (x ∷ xs)) n. elim m [
        | inl e ↦ h.0 (In-append_right x xs ys (subst (λ y. In y ys) (sym e) n))
        | inr k ↦ apart v k n
      ],
    )

pub position-right :
    (v : ℕ) (xs ys : List ℕ) → ¬ In v xs → position (xs ++ ys) v ≡ length xs + position ys v
unfolding position
position-right v [] ys out = omega arith
position-right v (x ∷ xs) ys out =
    let ih = position-right v xs ys (λ m. out (inr m)) in
    rw (==_ne x v (λ e. out (inl e))) (omega arith)

-- Ops that stand together in a block are in order there.
in_order-together :
    (xs ops zs : List ℕ) → Nodup ops → NoneIn ops xs → in_order (xs ++ (ops ++ zs)) ops ≡ true
unfolding in_order
in_order-together xs [] zs h out = refl
in_order-together xs (a ∷ []) zs h out = refl
in_order-together xs (a ∷ b ∷ ops) zs h out =
    let block = xs ++ ((a ∷ b ∷ ops) ++ zs) in
    let at_a = position-split a xs (b ∷ (ops ++ zs)) (out a (inl refl)) in
    let again = append_assoc xs (a ∷ []) ((b ∷ ops) ++ zs) in
    let at_b =
      subst (λ l. position l b ≡ length (xs ++ a ∷ [])) again
        (position-split b (xs ++ a ∷ []) (ops ++ zs) (next b (inl refl))) in
    let after : is_before_in_block block b a ≡ false =
      grind (arith, length-append xs (a ∷ []), at_a, at_b) in
    rw after (
      subst (λ l. in_order l (b ∷ ops) ≡ true) again
        (in_order-together (xs ++ a ∷ []) (b ∷ ops) zs h.1 next))
  where
    next : NoneIn (b ∷ ops) (xs ++ a ∷ [])
    next v m n = elim (In-append_cases v xs (a ∷ []) n) [
      | inl old ↦ out v (inr m) old
      | inr new ↦ elim new [ inl e ↦ h.0 (subst (λ y. In y (b ∷ ops)) (sym e) m) | inr z ↦ z ]
    ]

-- A block into which some of its ops were moved: they are in the order given, the others are in the order
-- that they had, and the ops are the same.
pub record IsMoved (ops block moved : List ℕ) : Type 0 where
  pub in_given_order : in_order moved ops ≡ true
  pub others_kept : without ops moved ≡ without ops block
  pub same_ops : (v : ℕ) → In v moved ↔ In v block
  pub different : Nodup moved

pub IsGathered-IsMoved :
    (ops block moved : List ℕ)
    → Nodup ops
    → Nodup block
    → ((v : ℕ) → In v ops → In v block)
    → IsGathered ops block moved
    → IsMoved ops block moved
IsGathered-IsMoved ops block moved h different all (xs, ys, e, out, q, starts) = record {
  in_given_order = rw q (in_order-together xs ops (without ops ys) h out);
  others_kept =
      rw (q, e)
        (without-append ops xs (ops ++ without ops ys)
          ∙ ap (λ l. without ops xs ++ l) rest
          ∙ sym (without-append ops xs ys));
  same_ops = λ v. rw (q, e) (down v, up v);
  different = rw q (
      Nodup-append xs (ops ++ without ops ys) split.0
        (Nodup-append ops (without ops ys) h
          (Nodup-without ops ys (Nodup-right xs ys (subst Nodup e different)))
          (λ v m n. (without-In ops ys v n).1 m))
        (λ v m n. elim (In-append_cases v ops (without ops ys) n) [
          | inl o ↦ out v o m
          | inr r ↦ split.1 v m (without-In ops ys v r).0
        ]));
}
  where
    split : Nodup xs × ((v : ℕ) → In v xs → ¬ In v ys)
    split = Nodup-left xs ys (subst Nodup e different)

    rest : without ops (ops ++ without ops ys) ≡ without ops ys
    rest =
        without-append ops ops (without ops ys)
        ∙ rw
            (
              no_members (without ops ops) (λ v m. let (i, o) = without-In ops ops v m in o i),
              without_absent ops (without ops ys) (λ v m n. (without-In ops ys v n).1 m),
            )
            refl

    down : (v : ℕ) → In v (xs ++ (ops ++ without ops ys)) → In v (xs ++ ys)
    down v m = elim (In-append_cases v xs (ops ++ without ops ys) m) [
      | inl l ↦ In-append_left v xs ys l
      | inr r ↦ elim (In-append_cases v ops (without ops ys) r) [
        | inl o ↦ subst (λ b. In v b) e (all v o)
        | inr w ↦ In-append_right v xs ys (without-In ops ys v w).0
      ]
    ]

    up : (v : ℕ) → In v (xs ++ ys) → In v (xs ++ (ops ++ without ops ys))
    up v m = elim (In-append_cases v xs ys m) [
      | inl l ↦ In-append_left v xs (ops ++ without ops ys) l
      | inr r ↦ In-append_right v xs (ops ++ without ops ys) (elim (Bool-cases (contains ops v)) [
        | inl hit ↦ In-append_left v ops (without ops ys) (contains→In ops v hit)
        | inr miss ↦
            In-append_right v ops (without ops ys)
              (In-without ops ys v r (λ o. cc (miss, In→contains ops v o)))
      ])
    ]
