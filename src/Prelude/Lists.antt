-- ===== src/Prelude/Lists.antt =====
-- Lists measured and indexed by native numbers, under the library's names, and predicates on them.
use Prim.Native.Nat.{ℕ, zero, suc, ◌+◌, ◌≤◌, ◌<◌}
use mathlib.Core.Path.{◌≡◌, refl, ap, sym, subst, ◌∙◌}
use mathlib.Core.Logic.{◌⊎◌, ◌≢◌, inl, inr}
use mathlib.Core.Bool.{Bool, true, false, ◌||◌}
use mathlib.Core.Option.{Option, none, some}
use mathlib.Core.List.{List, [], ◌∷◌, ◌++◌}
use native.Mathlib.Omega.{arith}
use dataflow_scheduler.Prelude.Tests.{◌==◌, ==_ne, ==_iff, ==-refl, Bool-cases, if◌then◌else◌}

module _ {ℓ} {A : Type ℓ} where
  abbrev pub length : List A → ℕ
  length [] = 0
  length (x ∷ xs) = suc (length xs)

  abbrev pub get_elem? : List A → ℕ → Option A
  get_elem? [] i = none
  get_elem? (x ∷ xs) zero = some x
  get_elem? (x ∷ xs) (suc i) = get_elem? xs i

  pub length-append : (xs ys : List A) → length (xs ++ ys) ≡ length xs + length ys
  length-append [] ys = omega arith
  length-append (x ∷ xs) ys = omega (arith, length-append xs ys)

  pub append_assoc : (xs ys zs : List A) → (xs ++ ys) ++ zs ≡ xs ++ (ys ++ zs)
  append_assoc [] ys zs = refl
  append_assoc (x ∷ xs) ys zs = ap (λ l. x ∷ l) (append_assoc xs ys zs)

  pub append_nil : (xs : List A) → xs ++ [] ≡ xs
  append_nil [] = refl
  append_nil (x ∷ xs) = ap (λ l. x ∷ l) (append_nil xs)

  pub List-cases : (xs : List A) → (xs ≡ []) ⊎ ((x : A) × (r : List A) × (xs ≡ x ∷ r))
  List-cases [] = inl refl
  List-cases (x ∷ xs) = inr (x, xs, refl)

  -- The code's `while (...) out.push_back(...)` gathers in front; `append` at the end.
  abbrev pub concat : List (List A) → List A
  concat [] = []
  concat (xs ∷ xss) = xs ++ concat xss

module _ {ℓ κ} {A : Type ℓ} where
  -- A predicate that holds at every element.
  abbrev pub All : (A → Type κ) → List A → Type κ
  All P [] = Unit
  All P (x ∷ xs) = P x × All P xs

module _ {ℓ κ} {A : Type ℓ} (P : A → Type κ) where
  pub All-append : (xs ys : List A) → All P xs → All P ys → All P (xs ++ ys)
  All-append [] ys h k = k
  All-append (x ∷ xs) ys h k = (h.0, All-append xs ys h.1 k)

  pub All-left : (xs ys : List A) → All P (xs ++ ys) → All P xs
  All-left [] ys h = tt
  All-left (x ∷ xs) ys h = (h.0, All-left xs ys h.1)

  pub All-right : (xs ys : List A) → All P (xs ++ ys) → All P ys
  All-right [] ys h = h
  All-right (x ∷ xs) ys h = All-right xs ys h.1

-- Some element has a property.
abbrev pub Any {ℓ} : {A : Type ℓ} → (A → Type 0) → List A → Type 0
Any P [] = ⊥
Any P (x ∷ xs) = P x ⊎ Any P xs

-- Membership of a number, as a test and as a statement that computes to sums.
unfoldable pub contains : List ℕ → ℕ → Bool
contains [] a = false
contains (x ∷ xs) a = (x == a) || contains xs a

abbrev pub In : ℕ → List ℕ → Type 0
In a [] = ⊥
In a (x ∷ xs) = (x ≡ a) ⊎ In a xs

pub contains→In : (xs : List ℕ) (a : ℕ) → contains xs a ≡ true → In a xs
unfolding contains
contains→In [] a h = cc
contains→In (x ∷ xs) a h = ground (arith, contains→In xs a)

pub In→contains : (xs : List ℕ) (a : ℕ) → In a xs → contains xs a ≡ true
unfolding contains
In→contains [] a h = absurd h
In→contains (x ∷ xs) a h = ground (arith, In→contains xs a)

pub not-contains : (xs : List ℕ) (a : ℕ) → ¬ In a xs → contains xs a ≡ false
not-contains xs a out = elim (Bool-cases (contains xs a)) [
  | inl hit ↦ absurd (out (contains→In xs a hit))
  | inr miss ↦ miss
]

pub In-append_left : (a : ℕ) (xs ys : List ℕ) → In a xs → In a (xs ++ ys)
In-append_left a [] ys h = absurd h
In-append_left a (x ∷ xs) ys (inl e) = inl e
In-append_left a (x ∷ xs) ys (inr m) = inr (In-append_left a xs ys m)

pub In-append_right : (a : ℕ) (xs ys : List ℕ) → In a ys → In a (xs ++ ys)
In-append_right a [] ys h = h
In-append_right a (x ∷ xs) ys h = inr (In-append_right a xs ys h)

pub In-append_cases : (a : ℕ) (xs ys : List ℕ) → In a (xs ++ ys) → In a xs ⊎ In a ys
In-append_cases a [] ys h = inr h
In-append_cases a (x ∷ xs) ys (inl e) = inl (inl e)
In-append_cases a (x ∷ xs) ys (inr m) = elim (In-append_cases a xs ys m) [
  | inl l ↦ inl (inr l)
  | inr r ↦ inr r
]

module _ {ℓ} {A : Type ℓ} where
  abbrev pub take : ℕ → List A → List A
  take zero xs = []
  take (suc n) [] = []
  take (suc n) (x ∷ xs) = x ∷ take n xs

-- How many numbers of the second list are not in the first.
unfoldable pub unseen : List ℕ → List ℕ → ℕ
unseen vs [] = 0
unseen vs (k ∷ ks) = let rest = unseen vs ks in if contains vs k then rest else suc rest

pub unseen-nil : (ks : List ℕ) → unseen [] ks ≡ length ks
unfolding unseen contains
unseen-nil [] = refl
unseen-nil (k ∷ ks) = ap suc (unseen-nil ks)

pub unseen-cons_le : (n : ℕ) (vs ks : List ℕ) → unseen (n ∷ vs) ks ≤ unseen vs ks
unfolding unseen contains
unseen-cons_le n vs [] = omega arith
unseen-cons_le n vs (k ∷ ks) = ground (arith, unseen-cons_le n vs ks)

pub unseen-cons_lt :
    (n : ℕ) (vs ks : List ℕ)
    → In n ks
    → contains vs n ≡ false
    → suc (unseen (n ∷ vs) ks) ≤ unseen vs ks
unfolding unseen contains
unseen-cons_lt n vs [] m h = absurd m
unseen-cons_lt n vs (k ∷ ks) (inl e) h =
    let hk : contains vs k ≡ false = rw e h in
    let hit : (n == k) ≡ true = ground arith in rw (hk, hit) (omega (arith, unseen-cons_le n vs ks))
unseen-cons_lt n vs (k ∷ ks) (inr m) h = ground (arith, unseen-cons_lt n vs ks m h)

-- No number stands twice.
abbrev pub Nodup : List ℕ → Type 0
Nodup [] = Unit
Nodup (x ∷ xs) = (¬ In x xs) × Nodup xs

pub Nodup-snoc : (xs : List ℕ) (a : ℕ) → Nodup xs → ¬ In a xs → Nodup (xs ++ a ∷ [])
Nodup-snoc [] a h out = ((λ m. m), tt)
Nodup-snoc (x ∷ xs) a h out = (
  λ m. elim (In-append_cases x xs (a ∷ []) m) [
    | inl old ↦ h.0 old
    | inr new ↦ elim new [ inl e ↦ out (inl (sym e)) | inr z ↦ z ]
  ],
  Nodup-snoc xs a h.1 (λ m. out (inr m)),
)

unfoldable pub count : ℕ → List ℕ → ℕ
count a [] = 0
count a (x ∷ xs) = let rest = count a xs in if x == a then suc rest else rest

pub count-append : (a : ℕ) (xs ys : List ℕ) → count a (xs ++ ys) ≡ count a xs + count a ys
unfolding count
count-append a [] ys = omega arith
count-append a (x ∷ xs) ys = ground (arith, count-append a xs ys)

pub count_zero : (a : ℕ) (xs : List ℕ) → ¬ In a xs → count a xs ≡ 0
unfolding count
count_zero a [] out = refl
count_zero a (x ∷ xs) out =
    let miss : (x == a) ≡ false = ==_ne x a (λ e. out (inl e)) in
    rw miss (count_zero a xs (λ m. out (inr m)))

pub count_pos : (a : ℕ) (xs : List ℕ) → In a xs → 0 < count a xs
unfolding count
count_pos a [] m = absurd m
count_pos a (x ∷ xs) (inl e) = ground arith
count_pos a (x ∷ xs) (inr m) = ground (arith, count_pos a xs m)

-- The list without one number.
unfoldable pub remove : ℕ → List ℕ → List ℕ
remove a [] = []
remove a (x ∷ xs) = let rest = remove a xs in if x == a then rest else x ∷ rest

pub In-remove : (a b : ℕ) (xs : List ℕ) → In b xs → a ≢ b → In b (remove a xs)
unfolding remove
In-remove a b [] m ne = absurd m
In-remove a b (x ∷ xs) (inl e) ne =
    let miss : (x == a) ≡ false = ==_ne x a (λ q. ne (sym q ∙ e)) in rw miss (inl e)
In-remove a b (x ∷ xs) (inr m) ne = elim (Bool-cases (x == a)) [
  | inl e ↦ rw e (In-remove a b xs m ne)
  | inr e ↦ rw e (inr (In-remove a b xs m ne))
]

pub remove-In : (a b : ℕ) (xs : List ℕ) → In b (remove a xs) → In b xs × (a ≢ b)
unfolding remove
remove-In a b [] m = absurd m
remove-In a b (x ∷ xs) m = elim (Bool-cases (x == a)) [
  | inl e ↦ let (old, ne) = remove-In a b xs (rw (e, remove) at m) in (inr old, ne)
  | inr e ↦ elim (rw (e, remove) at m) [
    | inl q ↦ (inl q, λ r. cc (e, (==_iff x a).1 (q ∙ sym r)))
    | inr n ↦ let (old, ne) = remove-In a b xs n in (inr old, ne)
  ]
]

pub Nodup-remove : (a : ℕ) (xs : List ℕ) → Nodup xs → Nodup (remove a xs)
unfolding remove
Nodup-remove a [] h = tt
Nodup-remove a (x ∷ xs) h = elim (Bool-cases (x == a)) [
  | inl e ↦ rw e (Nodup-remove a xs h.1)
  | inr e ↦ rw e ((λ m. h.0 (remove-In a x xs m).0), Nodup-remove a xs h.1)
]

pub remove_absent : (a : ℕ) (xs : List ℕ) → ¬ In a xs → remove a xs ≡ xs
unfolding remove
remove_absent a [] out = refl
remove_absent a (x ∷ xs) out =
    let miss : (x == a) ≡ false = ==_ne x a (λ e. out (inl e)) in
    rw (miss, remove_absent a xs (λ m. out (inr m))) refl

pub length-remove :
    (a : ℕ) (xs : List ℕ) → Nodup xs → In a xs → suc (length (remove a xs)) ≡ length xs
unfolding remove
length-remove a [] h m = absurd m
length-remove a (x ∷ xs) h (inl e) =
    let hit : (x == a) ≡ true = (==_iff x a).1 e in
    rw (hit, remove_absent a xs (λ m. h.0 (subst (λ y. In y xs) (sym e) m))) refl
length-remove a (x ∷ xs) h (inr m) =
    let miss : (x == a) ≡ false = ==_ne x a (λ e. h.0 (subst (λ y. In y xs) (sym e) m)) in
    rw miss (omega (arith, length-remove a xs h.1 m))

pub Nodup-count_le : (xs : List ℕ) → Nodup xs → (v : ℕ) → count v xs ≤ 1
unfolding count
Nodup-count_le [] h v = omega arith
Nodup-count_le (x ∷ xs) h v = elim (Bool-cases (x == v)) [
  | inl e ↦
      rw e (
        omega (arith, count_zero v xs (λ m. h.0 (subst (λ y. In y xs) (sym ((==_iff x v).0 e)) m))))
  | inr e ↦ rw e (Nodup-count_le xs h.1 v)
]

pub count_le-Nodup : (xs : List ℕ) → ((v : ℕ) → count v xs ≤ 1) → Nodup xs
unfolding count
count_le-Nodup [] h = tt
count_le-Nodup (x ∷ xs) h = (
  λ m.
      let more : suc (count x xs) ≤ 1 = rw (==-refl x, count) at (h x) in
      omega (arith, count_pos x xs m),
  count_le-Nodup xs (λ v. ground (arith, h v)),
)

pub count_pos-In : (v : ℕ) (xs : List ℕ) → 0 < count v xs → In v xs
count_pos-In v xs h = elim (Bool-cases (contains xs v)) [
  | inl hit ↦ contains→In xs v hit
  | inr miss ↦ let z = count_zero v xs (λ m. cc (miss, In→contains xs v m)) in absurd (omega arith)
]
