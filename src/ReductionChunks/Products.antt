-- ===== src/ReductionChunks/Products.antt =====
-- lib/Dialect/KTDF/Analysis/ReductionChunkAnalysis.cpp: what the new dimensions multiply to, and that
-- the number of chunks is the least that meets the threshold.
use dataflow_scheduler.Prelude.{
  ℕ, zero, suc, ◌+◌, ◌*◌, ◌/◌, ◌%◌, ◌≤◌, ◌<◌, ◌≡◌, refl, sym, ap, ◌∙◌, inl, inr, Option, none, some,
  List, [], ◌∷◌, arith, ltb, leb, leb→le, ◌==◌, ==_iff, Bool-cases, subst,
}
use Prim.Native.Nat.{◌∣◌}
use native.Mathlib.Nat
use dataflow_scheduler.Prelude.Divides.{gcd, gcd-dvd}
use dataflow_scheduler.AddressAssignment.{unsigned_mod}
use dataflow_scheduler.ReductionChunks.{divide_dims, compute_chunk_dims, infer_loop}

-- The product of the dimensions whose size is known.
abbrev pub static_product : List (Option ℕ) → ℕ
static_product [] = 1
static_product (none ∷ ds) = static_product ds
static_product (some d ∷ ds) = d * static_product ds

-- Each known size is divided by something, and each dynamic one stays.
abbrev pub Divided : List (Option ℕ) → List (Option ℕ) → Type 0
Divided [] [] = Unit {0}
Divided (none ∷ ds) (none ∷ es) = Divided ds es
Divided (some d ∷ ds) (some e ∷ es) = (e ∣ d) × Divided ds es
Divided _ _ = ⊥

Divided-refl : (ds : List (Option ℕ)) → Divided ds ds
Divided-refl [] = tt
Divided-refl (none ∷ ds) = Divided-refl ds
Divided-refl (some d ∷ ds) = (Nat.dvd_refl d, Divided-refl ds)

-- The new dimensions times the chunk size are the old dimensions times what remains.
record DividesOut (ds : List (Option ℕ)) (r : ℕ) (out : List (Option ℕ) × ℕ) : Type 0 where
  balance : static_product out.0 * r ≡ static_product ds * out.1
  positive : 0 < out.1
  divided : Divided ds out.0

regroup :
    (a b g d r p q left : ℕ) → a * g ≡ d → b * g ≡ r → p * b ≡ q * left → a * p * r ≡ d * q * left
regroup a b g d r p q left hd hr h = rw (← hd, ← hr) (omega (arith, ap (λ (t : ℕ). a * g * t) h))

pos_of_mul : (a g r : ℕ) → a * g ≡ r → 0 < r → 0 < a
pos_of_mul zero g r e h = absurd (omega arith)
pos_of_mul (suc a) g r e h = omega arith

divide_dims-DividesOut : (ds : List (Option ℕ)) (r : ℕ) → 0 < r → DividesOut ds r (divide_dims ds r)
unfolding divide_dims
divide_dims-DividesOut [] r h = record { balance = refl; positive = h; divided = tt }
divide_dims-DividesOut (none ∷ ds) r h = elim (Bool-cases (ltb 1 r)) [
  | inl e ↦
      let i = divide_dims-DividesOut ds r h in
      rw e (record { balance = i.balance; positive = i.positive; divided = i.divided })
  | inr e ↦ rw e (record { balance = refl; positive = h; divided = Divided-refl ds })
]
divide_dims-DividesOut (some d ∷ ds) r h = elim (Bool-cases (ltb 1 r)) [
  | inl e ↦
      let g = gcd d r in
      let i =
        divide_dims-DividesOut ds (r / g)
          (pos_of_mul (r / g) g r (Nat.div-mul_cancel g (gcd-dvd d r).1) h) in
      rw e (record {
        balance =
            regroup (d / g) (r / g) g d r _ _ _ (Nat.div-mul_cancel g (gcd-dvd d r).0)
              (Nat.div-mul_cancel g (gcd-dvd d r).1) i.balance;
        positive = i.positive;
        divided = (
          subst (λ x. d / g ∣ x) (Nat.div-mul_cancel g (gcd-dvd d r).0)
              (Nat.dvd-mul_right (d / g) g),
          i.divided,
        );
      })
  | inr e ↦ rw e (record { balance = refl; positive = h; divided = Divided-refl (some d ∷ ds) })
]

-- Where computeChunkDims succeeds with a positive chunk size, the known dimensions of a chunk
-- times the chunk size are the known dimensions of the reduction; each divides its own, and the
-- dynamic ones stay.
pub compute_chunk_dims-static_product :
    (ds es : List (Option ℕ)) (chunk_size : ℕ)
    → 0 < chunk_size
    → compute_chunk_dims ds chunk_size ≡ some es
    → (static_product es * chunk_size ≡ static_product ds) × Divided ds es
unfolding compute_chunk_dims
compute_chunk_dims-static_product ds es chunk_size h e = elim (Bool-cases (ltb 1 out.1)) [
  | inl over ↦ cc (rw (over, compute_chunk_dims) at e)
  | inr rest ↦
      let same : out.0 ≡ es = some_eq out.0 es (rw (rest, compute_chunk_dims) at e) in
      let one : out.1 ≡ 1 = ground (arith, i.positive) in
      (
        subst (λ x. static_product x * chunk_size ≡ static_product ds) same
            (i.balance ∙ ap (λ x. static_product ds * x) one ∙ Nat.mul-one (static_product ds)),
        subst (Divided ds) same i.divided,
      )
]
  where
    out : List (Option ℕ) × ℕ
    out = divide_dims ds chunk_size

    i : DividesOut ds chunk_size out
    i = divide_dims-DividesOut ds chunk_size h

    some_eq : (x y : List (Option ℕ)) → some x ≡ some y → x ≡ y
    some_eq x y q = cc

-- What the loop over n returns, from `n` on with `rounds` values.
abbrev pub Inferred : ℕ → ℕ → ℕ → ℕ → ℕ → Type 0
Inferred total threshold n rounds zero = (x : ℕ) → n ≤ x → x < n + rounds → threshold < total / x
Inferred total threshold n rounds (suc k) =
    (n ≤ suc k)
    × (suc k < n + rounds)
    × (total / suc k ≤ threshold)
    × ((x : ℕ) → n ≤ x → x < suc k → threshold < total / x)

Inferred-step :
    (total threshold n rounds k : ℕ)
    → threshold < total / n
    → Inferred total threshold (suc n) rounds k
    → Inferred total threshold n (suc rounds) k
Inferred-step total threshold n rounds zero h i = λ x lo hi. elim (Bool-cases (x == n)) [
  | inl e ↦ subst (λ y. threshold < total / y) (sym ((==_iff x n).0 e)) h
  | inr e ↦ i x (ground arith) (omega arith)
]
Inferred-step total threshold n rounds (suc k) h (a, b, c, d) = (
  omega arith,
  omega arith,
  c,
  λ x lo hi. elim (Bool-cases (x == n)) [
    | inl e ↦ subst (λ y. threshold < total / y) (sym ((==_iff x n).0 e)) h
    | inr e ↦ d x (ground arith) hi
  ],
)

-- From a positive start and with all candidates below 2^32, the number inferred is the least n in
-- range whose share of the total, rounded down, is within the threshold, and 0 where there is
-- none.
pub infer_loop-Inferred :
    (total threshold rounds n : ℕ)
    → 0 < n
    → n + rounds ≤ unsigned_mod
    → Inferred total threshold n rounds (infer_loop total threshold rounds n)
unfolding infer_loop
infer_loop-Inferred total threshold zero n h fits = λ x lo hi. absurd (omega arith)
infer_loop-Inferred total threshold (suc rounds) n h fits =
    elim (Bool-cases (leb (total / n) threshold)) [
      | inl e ↦
          let word : n % unsigned_mod ≡ n = Nat.mod-eq_of_lt (omega arith) in
          rw (e, word) (found n h (omega arith) (leb→le _ _ e))
      | inr e ↦
          let next : n + 1 ≡ suc n = omega arith in
          rw (e, next)
            (Inferred-step total threshold n rounds (infer_loop total threshold rounds (suc n))
              (ground arith)
              (infer_loop-Inferred total threshold rounds (suc n) (omega arith) (omega arith)))
    ]
  where
    found :
        (k : ℕ) → 0 < k → k ≡ n → total / k ≤ threshold → Inferred total threshold n (suc rounds) k
    found zero pos same le = absurd (omega arith)
    found (suc k) pos same le = (omega arith, omega arith, le, λ x lo hi. absurd (omega arith))
