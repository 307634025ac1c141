-- ===== src/ScratchpadConflicts/Pairs.antt =====
-- lib/Conversion/backend/ScheduleIRToDFIR/KTDFToKTDFLow/ScratchpadConflicts.cpp: results, sets of kinds and
-- the pairs of stages in a map.
use dataflow_scheduler.Prelude.{
  ℕ, ◌≡◌, ◌↔◌, refl, sym, ap, ◌⊎◌, inl, inr, Bool, true, false, ◌||◌, Option, none, some, List, [],
  ◌∷◌, arith, Bool-cases, contains, contains→In, In→contains, In, subst,
}
use dataflow_scheduler.Device.{ResourceType}
use dataflow_scheduler.ScratchpadConflicts.{
  Result, failure, assertion_failed, ok, ◌>>=◌, or_fail, asserted, Conflicts, same_pair, put,
  shares,
}

pub bind-ok {ℓ κ} :
    {A : Type ℓ} {B : Type κ} (r : Result A) (f : A → Result B) (b : B)
    → (r >>= f) ≡ ok b
    → (a : A) × (r ≡ ok a) × (f a ≡ ok b)
bind-ok failure f b e = cc
bind-ok assertion_failed f b e = cc
bind-ok (ok a) f b e = (a, refl, e)

pub asserted-ok {ℓ} : {A : Type ℓ} (o : Option A) (a : A) → asserted o ≡ ok a → o ≡ some a
asserted-ok none a e = cc
asserted-ok (some b) a e = let same : b ≡ a = cc in ap some same

pub or_fail-ok {ℓ} : {A : Type ℓ} (o : Option A) (a : A) → or_fail o ≡ ok a → o ≡ some a
or_fail-ok none a e = cc
or_fail-ok (some b) a e = let same : b ≡ a = cc in ap some same

pub some_same {ℓ} : {A : Type ℓ} (o : Option A) (a b : A) → o ≡ some a → o ≡ some b → a ≡ b
some_same o a b h k = cc

pub shares_iff :
    (writes reads : List ResourceType)
    → (shares writes reads ≡ true) ↔ ((w : ResourceType) × In w writes × In w reads)
unfolding shares
shares_iff [] reads = ((λ e. cc), λ (w, m, n). absurd m)
shares_iff (w ∷ writes) reads = elim (Bool-cases (contains reads w)) [
  | inl e ↦ rw e ((λ x. (w, inl refl, contains→In reads w e)), λ x. refl)
  | inr e ↦ rw e (
    (λ x. let (v, m, n) = (shares_iff writes reads).0 x in (v, inr m, n)),
    λ (v, m, n). (shares_iff writes reads).1 (v, tail v m n e, n),
  )
]
  where
    tail :
        (v : ResourceType) → In v (w ∷ writes) → In v reads → contains reads w ≡ false → In v writes
    tail v (inl q) n e = cc (e, In→contains reads w (subst (λ y. In y reads) (sym q) n))
    tail v (inr m) n e = m

unfoldable pub has_pair : ℕ × ℕ → Conflicts → Bool
has_pair key [] = false
has_pair key ((k, units) ∷ conflicts) = same_pair k key || has_pair key conflicts

pub has_pair-put :
    (key wanted : ℕ × ℕ) (units : List ResourceType) (conflicts : Conflicts)
    → has_pair wanted (put key units conflicts) ≡ same_pair key wanted || has_pair wanted conflicts
unfolding has_pair put
has_pair-put key wanted units [] = refl
has_pair-put key wanted units ((k, u) ∷ conflicts) =
    let ih = has_pair-put key wanted units conflicts in
    elim (Bool-cases (same_pair k key)) [
      | inl e ↦ rw e (
          absorb (same_pair k wanted) (same_pair key wanted) (has_pair wanted conflicts)
            (same_test k key wanted e))
      | inr e ↦
          rw (e, ih) (swap (same_pair k wanted) (same_pair key wanted) (has_pair wanted conflicts))
    ]
  where
    same_test : (a b c : ℕ × ℕ) → same_pair a b ≡ true → same_pair a c ≡ same_pair b c
    same_test (a, x) (b, y) (c, z) e = ground arith

    absorb : (a b c : Bool) → a ≡ b → (a || c) ≡ (b || (a || c))
    absorb true b c e = rw (sym e) refl
    absorb false b c e = rw (sym e) refl

    swap : (a b c : Bool) → (a || (b || c)) ≡ (b || (a || c))
    swap true true c = refl
    swap true false c = refl
    swap false true c = refl
    swap false false c = refl

pub or_iff : (a b : Bool) → ((a || b) ≡ true) ↔ ((a ≡ true) ⊎ (b ≡ true))
or_iff true b = ((λ x. inl refl), λ x. refl)
or_iff false b =
    ((λ x. inr x), λ (x : (false ≡ true) ⊎ (b ≡ true)). elim x [ inl e ↦ cc | inr e ↦ e ])

pub same_pair_iff : (a b c d : ℕ) → (same_pair (a, b) (c, d) ≡ true) ↔ ((a ≡ c) × (b ≡ d))
same_pair_iff a b c d = ground arith
