-- ===== src/Prelude/Divides.antt =====
-- `std::gcd` and `std::lcm` on numbers, with the laws that the alignments and chunk sizes need.
use Prim.Native.Nat.{ℕ, zero, suc, ◌*◌, ◌/◌, ◌%◌, ◌<◌, ◌∣◌}
use mathlib.Core.Path.{◌≡◌, sym, ap, ◌∙◌}
use mathlib.Core.Logic.{inl, inr}
use native.Mathlib.Nat
use native.Mathlib.Omega.{arith}
use dataflow_scheduler.Prelude.Tests.{◌==◌, ==_iff, if◌then◌else◌, Bool-cases}

-- Euclid's loop; the second number falls, so one more than it is enough fuel.
unfoldable pub gcd_loop : ℕ → ℕ → ℕ → ℕ
gcd_loop zero a b = a
gcd_loop (suc fuel) a b = let rest = gcd_loop fuel b (a % b) in if b == 0 then a else rest

unfoldable pub gcd : ℕ → ℕ → ℕ
unfolding gcd_loop
gcd a b = gcd_loop (suc b) a b

unfoldable pub lcm : ℕ → ℕ → ℕ
lcm a b = a / gcd a b * b

gcd_loop-dvd : (fuel a b : ℕ) → b < fuel → (gcd_loop fuel a b ∣ a) × (gcd_loop fuel a b ∣ b)
unfolding gcd_loop
gcd_loop-dvd zero a b h = absurd (omega arith)
gcd_loop-dvd (suc fuel) a b h = elim (Bool-cases (b == 0)) [
  | inl e ↦ rw (e, gcd_loop, (==_iff b 0).0 e) (Nat.dvd_refl a, Nat.dvd-zero a)
  | inr e ↦
      let (left, right) = gcd_loop-dvd fuel b (a % b) (ground arith) in
      rw (e, gcd_loop) ((Nat.dvd-mod_iff _ left).0 right, left)
]

pub gcd-dvd : (a b : ℕ) → (gcd a b ∣ a) × (gcd a b ∣ b)
unfolding gcd
gcd-dvd a b = gcd_loop-dvd (suc b) a b (omega arith)

pub gcd_pos : (a b : ℕ) → 0 < a → 0 < gcd a b
gcd_pos a b h = Nat.pos_of_dvd_of_pos (gcd-dvd a b).0 h

pub dvd-lcm_right : (a b : ℕ) → b ∣ lcm a b
unfolding lcm
dvd-lcm_right a b = Nat.dvd-mul_left b (a / gcd a b)

pub lcm-eq : (a b : ℕ) → lcm a b ≡ a * (b / gcd a b)
unfolding lcm
lcm-eq a b =
    let g = gcd a b in
    ap (λ x. a / g * x) (sym (Nat.mul-div_cancel' g (gcd-dvd a b).1))
    ∙ sym (Nat.mul_assoc (a / g) g (b / g))
    ∙ ap (λ x. x * (b / g)) (Nat.div-mul_cancel g (gcd-dvd a b).0)

pub dvd-lcm_left : (a b : ℕ) → a ∣ lcm a b
dvd-lcm_left a b = rw (lcm-eq a b) (Nat.dvd-mul_right a (b / gcd a b))
