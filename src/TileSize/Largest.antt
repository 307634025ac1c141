-- ===== src/TileSize/Largest.antt =====
-- lib/Dialect/KTDF/Transforms/TileSizeSelection.cpp, `chooseTileSize`: the size chosen is the largest
-- suitable one between the minimum and the limit, and where none is suitable the code is undefined.
use dataflow_scheduler.Prelude.{
  ℕ, zero, suc, ◌+◌, ◌-◌, ◌%◌, ◌≤◌, ◌<◌, ◌≡◌, refl, sym, ◌⊎◌, inl, inr, ◌↔◌, true, false, List, [],
  ◌∷◌, arith, ◌==◌, ==_iff, Bool-cases, All, subst,
}
use Prim.Native.Nat.{max}
use native.Mathlib.Nat
use dataflow_scheduler.TileSize.{
  AssociatedLoop, evaluate_candidate_tile_size, Choice, chosen, no_loops, unreachable,
  divides_by_zero, skips, candidate_loop, choose_tile_size,
}

-- The size divides every total, and is a multiple of the divisibility, if that is more than 1.
pub record IsSuitable (loops : List AssociatedLoop) (divisibility c : ℕ) : Type 0 where
  pub divides : All (λ l. l.total_size % c ≡ 0) loops
  pub multiple : 1 < divisibility → c % divisibility ≡ 0

evaluate_iff :
    (ls : List AssociatedLoop) (c : ℕ)
    → (evaluate_candidate_tile_size ls c ≡ true) ↔ All (λ l. l.total_size % c ≡ 0) ls
unfolding evaluate_candidate_tile_size
evaluate_iff [] c = (λ h. tt, λ h. refl)
evaluate_iff (l ∷ ls) c = ground (arith, evaluate_iff ls c)

evaluate_cases :
    (ls : List AssociatedLoop) (d c : ℕ)
    → ((skips d c ≡ false) × (evaluate_candidate_tile_size ls c ≡ true) × IsSuitable ls d c)
      ⊎ (((skips d c ≡ true) ⊎ ((skips d c ≡ false) × (evaluate_candidate_tile_size ls c ≡ false)))
          × ¬ IsSuitable ls d c)
evaluate_cases ls d c = elim (Bool-cases (skips d c)) [
  | inl s ↦ inr (inl s, λ u. clash s u)
  | inr s ↦ elim (Bool-cases (evaluate_candidate_tile_size ls c)) [
    | inl e ↦ inl (s, e, record { divides = (evaluate_iff ls c).0 e; multiple = λ h. ground arith })
    | inr e ↦ inr (inr (s, e), λ u. cc (e, (evaluate_iff ls c).1 u.divides))
  ]
]
  where
    clash : skips d c ≡ true → IsSuitable ls d c → ⊥
    clash s u = ground (arith, u.multiple)

-- What the loop returns: the largest suitable candidate, or `unreachable` if there is none.
abbrev pub Outcome : List AssociatedLoop → ℕ → ℕ → ℕ → Choice → Type 0
Outcome ls d low high (chosen c) =
    (low ≤ c) × (c ≤ high) × IsSuitable ls d c × ((x : ℕ) → c < x → x ≤ high → ¬ IsSuitable ls d x)
Outcome ls d low high unreachable = (x : ℕ) → low ≤ x → x ≤ high → ¬ IsSuitable ls d x
Outcome ls d low high no_loops = ⊥
Outcome ls d low high divides_by_zero = ⊥

module _ (ls : List AssociatedLoop) (d low : ℕ) (positive : 0 < low) where
  Outcome-extend :
      (high : ℕ) (c : Choice)
      → ¬ IsSuitable ls d (suc high)
      → Outcome ls d low high c
      → Outcome ls d low (suc high) c
  Outcome-extend high (chosen c) no_top (a, b, s, above) = (
    a,
    omega arith,
    s,
    λ x lt le u. elim (Bool-cases (x == suc high)) [
      | inl e ↦ no_top (subst (IsSuitable ls d) ((==_iff x (suc high)).0 e) u)
      | inr e ↦ above x lt (ground arith) u
    ],
  )
  Outcome-extend high unreachable no_top none_below = λ x lo le u.
      elim (Bool-cases (x == suc high)) [
        | inl e ↦ no_top (subst (IsSuitable ls d) ((==_iff x (suc high)).0 e) u)
        | inr e ↦ none_below x lo (ground arith) u
      ]
  Outcome-extend high no_loops no_top o = o
  Outcome-extend high divides_by_zero no_top o = o

  -- The loop takes the candidate at hand if it is suitable, and goes on below it otherwise.
  candidate_cases :
      (rounds high : ℕ)
      → 0 < high
      → (IsSuitable ls d high × (candidate_loop ls d (suc rounds) high ≡ chosen high))
        ⊎ (¬ IsSuitable ls d high
            × (candidate_loop ls d (suc rounds) high ≡ candidate_loop ls d rounds (high - 1)))
  unfolding candidate_loop
  candidate_cases rounds high h = go (evaluate_cases ls d high)
    where
      not_zero : (high == 0) ≡ false
      not_zero = ground arith

      go :
          ((skips d high ≡ false)
              × (evaluate_candidate_tile_size ls high ≡ true)
              × IsSuitable ls d high)
            ⊎ (((skips d high ≡ true)
                  ⊎ ((skips d high ≡ false) × (evaluate_candidate_tile_size ls high ≡ false)))
                × ¬ IsSuitable ls d high)
          → (IsSuitable ls d high × (candidate_loop ls d (suc rounds) high ≡ chosen high))
            ⊎ (¬ IsSuitable ls d high
                × (candidate_loop ls d (suc rounds) high ≡ candidate_loop ls d rounds (high - 1)))
      go (inl (s, e, u)) = inl (u, rw (s, not_zero, e))
      go (inr (inl s, n)) = inr (n, rw s)
      go (inr (inr (s, e), n)) = inr (n, rw (s, not_zero, e))

  candidate_none : (h : ℕ) → candidate_loop ls d 0 h ≡ unreachable
  unfolding candidate_loop
  candidate_none h = refl

  candidate_loop-Outcome :
      (rounds high : ℕ)
      → high ≡ low + rounds
      → Outcome ls d low high (candidate_loop ls d (suc rounds) high)
  candidate_loop-Outcome zero high e = go (candidate_cases zero high (omega arith))
    where
      go :
          (IsSuitable ls d high × (candidate_loop ls d 1 high ≡ chosen high))
            ⊎ (¬ IsSuitable ls d high
                × (candidate_loop ls d 1 high ≡ candidate_loop ls d 0 (high - 1)))
          → Outcome ls d low high (candidate_loop ls d 1 high)
      go (inl (u, q)) = rw q (omega arith, omega arith, u, λ x lt le. absurd (omega arith))
      go (inr (n, q)) =
          rw (q, candidate_none (high - 1))
            (λ x lo le u. n (subst (IsSuitable ls d) (let same : x ≡ high = omega arith in same) u))
  candidate_loop-Outcome (suc k) high e =
      go (candidate_cases (suc k) high (omega arith))
        (candidate_loop-Outcome k (high - 1) (omega arith))
    where
      top : suc (high - 1) ≡ high
      top = omega arith

      go :
          (IsSuitable ls d high × (candidate_loop ls d (suc (suc k)) high ≡ chosen high))
            ⊎ (¬ IsSuitable ls d high
                × (candidate_loop ls d (suc (suc k)) high ≡ candidate_loop ls d (suc k) (high - 1)))
          → Outcome ls d low (high - 1) (candidate_loop ls d (suc k) (high - 1))
          → Outcome ls d low high (candidate_loop ls d (suc (suc k)) high)
      go (inl (u, q)) o = rw q (omega arith, omega arith, u, λ x lt le. absurd (omega arith))
      go (inr (n, q)) o =
          subst (λ h. Outcome ls d low h (candidate_loop ls d (suc (suc k)) high)) top
            (rw q (Outcome-extend (high - 1) _ (subst (λ h. ¬ IsSuitable ls d h) (sym top) n) o))

-- With a minimum of at least 1 and some loop, the choice is the largest suitable size from the
-- minimum up to 2 or the minimum, and the unreachable statement is reached exactly when there is
-- none.
pub choose_tile_size-Outcome :
    (l : AssociatedLoop) (ls : List AssociatedLoop) (low d : ℕ)
    → 0 < low
    → Outcome (l ∷ ls) d low (max 2 low) (choose_tile_size (l ∷ ls) low d)
unfolding choose_tile_size
choose_tile_size-Outcome l ls low d positive =
    candidate_loop-Outcome (l ∷ ls) d low positive (max 2 low - low) (max 2 low) (omega arith)

-- Where some loop is associated, the minimum is 1 and the divisibility is 1, a size is always
-- chosen.
pub choose_tile_size_total :
    (l : AssociatedLoop) (ls : List AssociatedLoop)
    → (c : ℕ) × (choose_tile_size (l ∷ ls) 1 1 ≡ chosen c)
choose_tile_size_total l ls =
    go (choose_tile_size (l ∷ ls) 1 1) refl (choose_tile_size-Outcome l ls 1 1 (omega arith))
  where
    ones : (ms : List AssociatedLoop) → All (λ m. m.total_size % 1 ≡ 0) ms
    ones [] = tt
    ones (m ∷ ms) = (Nat.mod-one m.total_size, ones ms)

    go :
        (c : Choice)
        → choose_tile_size (l ∷ ls) 1 1 ≡ c
        → Outcome (l ∷ ls) 1 1 (max 2 1) c
        → (c : ℕ) × (choose_tile_size (l ∷ ls) 1 1 ≡ chosen c)
    go (chosen c) e o = (c, e)
    go unreachable e o = absurd (
        o 1 (omega arith) (omega arith)
          (record { divides = ones (l ∷ ls); multiple = λ h. absurd (omega arith) }))
    go no_loops e o = absurd o
    go divides_by_zero e o = absurd o

-- A divisibility above both 2 and a positive minimum rules every candidate out, and the code runs
-- into its unreachable statement.
pub choose_tile_size-unreachable :
    (l : AssociatedLoop) (ls : List AssociatedLoop) (low d : ℕ)
    → 0 < low
    → max 2 low < d
    → choose_tile_size (l ∷ ls) low d ≡ unreachable
choose_tile_size-unreachable l ls low d positive big =
    go (choose_tile_size (l ∷ ls) low d) refl (choose_tile_size-Outcome l ls low d positive)
  where
    go :
        (c : Choice)
        → choose_tile_size (l ∷ ls) low d ≡ c
        → Outcome (l ∷ ls) d low (max 2 low) c
        → choose_tile_size (l ∷ ls) low d ≡ unreachable
    go (chosen c) e (a, b, s, above) =
        let small : c % d ≡ c = Nat.mod-eq_of_lt (omega arith) in
        absurd (omega (arith, s.multiple (omega arith)))
    go unreachable e o = e
    go no_loops e o = absurd o
    go divides_by_zero e o = absurd o
