-- ===== src/Signals/Examples.antt =====
-- A nest of two loops, of two and of three rounds, and the theorem of the signal guards at it.
use dataflow_scheduler.Prelude.{
  ℕ, ◌≡◌, refl, inl, inr, ◌⊎◌, Bool, true, false, List, [], ◌∷◌, ◌++◌, arith, All, map,
}
use dataflow_scheduler.Prelude.Maps.{lookup}
use dataflow_scheduler.Signals.{
  ForOp, Cond, induction_var, lower_bound_of, last_iv, cmp_ne, or_i, recv_guard, send_guard,
}
use dataflow_scheduler.Signals.Guards.{IsNest, IsTrue, eval, iterations, loop_values, spread}
use dataflow_scheduler.Signals.Balance.{guards-pair_up}

abbrev outer : ForOp
outer = record { op = 1; lower_bound = 0; upper_bound = 2; step = 1 }

abbrev inner : ForOp
inner = record { op = 2; lower_bound = 1; upper_bound = 10; step = 3 }

abbrev nest : List ForOp
nest = outer ∷ inner ∷ []

abbrev recv : Cond
recv =
    or_i (cmp_ne (induction_var outer) (lower_bound_of outer))
      (cmp_ne (induction_var inner) (lower_bound_of inner))

abbrev send : Cond
send =
    or_i (cmp_ne (induction_var outer) (last_iv outer))
      (cmp_ne (induction_var inner) (last_iv inner))

nest-IsNest : IsNest nest
nest-IsNest =
    ((1, omega arith, omega arith), not_inner, ((2, omega arith, omega arith), (λ h. h), tt))
  where
    not_inner : ¬ (◌≡◌ {A = ℕ} 2 1 ⊎ ⊥)
    not_inner (inl e) = omega (arith, e)
    not_inner (inr h) = h

guards-pair_up_example :
    (ts : List Bool) × (map (eval recv) (iterations nest) ≡ false ∷ ts)
    × (map (eval send) (iterations nest) ≡ ts ++ false ∷ [])
    × All IsTrue ts
unfolding recv_guard send_guard
guards-pair_up_example = guards-pair_up nest recv send nest-IsNest refl refl

recv_run : map (eval recv) (iterations nest) ≡ false ∷ true ∷ true ∷ true ∷ true ∷ true ∷ []
unfolding eval iterations loop_values spread lookup
recv_run = refl
