-- ===== src/Prelude/Maps.antt =====
-- A map with number keys, as `llvm::DenseMap` is used: an association list whose keys are distinct
-- when it is built by `insert` from the empty one.
use Prim.Native.Nat.{ℕ}
use mathlib.Core.Path.{◌≡◌, refl}
use mathlib.Core.Logic.{inl, inr}
use mathlib.Core.Bool.{Bool, true, false, ◌||◌}
use mathlib.Core.Option.{Option, none, some}
use mathlib.Core.List.{List, [], ◌∷◌, map}
use native.Mathlib.Omega.{arith}
use dataflow_scheduler.Prelude.Tests.{◌==◌, ==_iff, Bool-cases, if◌then◌else◌}

abbrev pub Map {ℓ} : Type ℓ → Type ℓ
Map V = List (ℕ × V)

==-swap : (j k : ℕ) → (j == k) ≡ false → (k == j) ≡ false
==-swap j k h = ground arith

module _ {ℓ} {V : Type ℓ} where
  unfoldable pub lookup : ℕ → Map V → Option V
  lookup wanted [] = none
  lookup wanted ((key, value) ∷ rest) = if key == wanted then some value else lookup wanted rest

  -- `m[key] = value`: replaces the value of a present key, and adds an absent one at the end.
  unfoldable pub insert : ℕ → V → Map V → Map V
  insert key value [] = (key, value) ∷ []
  insert key value ((present, old) ∷ rest) =
      if present == key then (key, value) ∷ rest else (present, old) ∷ insert key value rest

  abbrev pub keys : Map V → List ℕ
  keys = map (λ e. e.0)

  pub lookup-insert :
      (key wanted : ℕ) (value : V) (m : Map V)
      → lookup wanted (insert key value m) ≡ (if key == wanted then some value else lookup wanted m)
  unfolding lookup insert
  lookup-insert key wanted value [] = refl
  lookup-insert key wanted value ((present, old) ∷ rest) =
      ground (arith, lookup-insert key wanted value rest)

  unfoldable pub has : Map V → ℕ → Bool
  has m k = elim (lookup k m) [ none ↦ false | some _ ↦ true ]

  -- No key stands twice.
  abbrev pub Distinct : Map V → Type ℓ
  Distinct [] = Unit
  Distinct ((k, v) ∷ m) = (lookup k m ≡ none) × Distinct m

  pub insert-Distinct : (k : ℕ) (v : V) (m : Map V) → Distinct m → Distinct (insert k v m)
  unfolding lookup insert
  insert-Distinct k v [] h = (refl, tt)
  insert-Distinct k v ((j, w) ∷ m) h = elim (Bool-cases (j == k)) [
    | inl e ↦ rw (e, insert, ← (==_iff j k).0 e) h
    | inr e ↦
        rw (e, insert) (rw (lookup-insert k j v m, ==-swap j k e) h.0, insert-Distinct k v m h.1)
  ]

  pub has-insert : (k j : ℕ) (v : V) (m : Map V) → has (insert k v m) j ≡ (k == j) || has m j
  unfolding has
  has-insert k j v m = ground (arith, lookup-insert k j v m)

-- `map[key]` of a map to lists: the empty list for an absent key.
unfoldable pub list_at {ℓ} : {A : Type ℓ} → ℕ → Map (List A) → List A
list_at k m = elim (lookup k m) [ none ↦ [] | some xs ↦ xs ]

pub list_at-insert {ℓ} :
    {A : Type ℓ} (key wanted : ℕ) (xs : List A) (m : Map (List A))
    → list_at wanted (insert key xs m) ≡ (if key == wanted then xs else list_at wanted m)
unfolding list_at
list_at-insert key wanted xs m = ground (arith, lookup-insert key wanted xs m)
