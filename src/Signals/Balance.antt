-- ===== src/Signals/Balance.antt =====
-- lib/Conversion/backend/ScheduleIRToDFIR/KTDFToKTDFLow/SignalInsertion.cpp, the guards of a back
-- edge over all iterations of the loops that they test.
use dataflow_scheduler.Prelude.{
  ℕ, zero, suc, ◌+◌, ◌*◌, ◌<◌, ◌≡◌, ◌≢◌, refl, sym, ap, ◌∙◌, Bool, true, false, none, some, List,
  [], ◌∷◌, ◌++◌, map, arith, ltb, length, All, All-append, In,
}
use mathlib.Core.List.{append_assoc, append-nil}
use dataflow_scheduler.Prelude.Maps.{Map}
use dataflow_scheduler.Signals.{ForOp, Cond, recv_guard, send_guard}
use dataflow_scheduler.Signals.Guards.{
  eval, loop_values, spread, iterations, IsNest, ops, IsTrue, differs, first_of, last_of,
  recv_guard-differs, send_guard-differs, map_eq, map-append_lem, row_same, row_other,
}

-- `suc n` values from `v` on.
unfoldable progression : ℕ → ℕ → ℕ → List ℕ
progression step v zero = v ∷ []
progression step v (suc n) = v ∷ progression step (v + step) n

loop_values_none : (upper step fuel : ℕ) → loop_values upper step fuel upper ≡ []
unfolding loop_values
loop_values_none upper step zero = refl
loop_values_none upper step (suc fuel) =
    let no : ltb upper upper ≡ false = ground arith in rw no refl

loop_values-progression :
    (upper step n fuel v : ℕ)
    → 0 < step
    → upper ≡ v + suc n * step
    → n < fuel
    → loop_values upper step fuel v ≡ progression step v n
unfolding loop_values progression
loop_values-progression upper step n zero v pos e lt = absurd (omega arith)
loop_values-progression upper step zero (suc fuel) v pos e lt =
    let below : ltb v upper ≡ true = ground arith in
    let next : v + step ≡ upper = ground arith in
    rw (below, next, loop_values_none upper step fuel) refl
loop_values-progression upper step (suc n) (suc fuel) v pos e lt =
    let more : v < upper = grind arith in
    let below : ltb v upper ≡ true = ground (arith, more) in
    rw (below, loop_values-progression upper step n fuel (v + step) pos (grind arith) (omega arith))
      refl

-- False at the first place only, and at the last only.
OnlyFirst : List Bool → Type 0
OnlyFirst bs = (ts : List Bool) × (bs ≡ false ∷ ts) × All IsTrue ts

OnlyLast : List Bool → Type 0
OnlyLast bs = (ts : List Bool) × (bs ≡ ts ++ false ∷ []) × All IsTrue ts

OnlyFirst-append : (xs ys : List Bool) → OnlyFirst xs → All IsTrue ys → OnlyFirst (xs ++ ys)
unfolding OnlyFirst
OnlyFirst-append xs ys (ts, e, h) t = (ts ++ ys, ap (λ z. z ++ ys) e, All-append IsTrue ts ys h t)

OnlyLast-append : (xs ys : List Bool) → All IsTrue xs → OnlyLast ys → OnlyLast (xs ++ ys)
unfolding OnlyLast
OnlyLast-append xs ys t (ts, e, h) = (
  xs ++ ts,
  ap (λ z. xs ++ z) e ∙ sym (append_assoc xs ts (false ∷ [])),
  All-append IsTrue xs ts t h,
)

module _ (l : ForOp) (ls : List ForOp) (its : List (Map ℕ)) (out : ¬ In l.op (ops ls)) where
  first_rest :
      (n v : ℕ)
      → l.lower_bound < v
      → All IsTrue (map (differs first_of (l ∷ ls)) (spread l.op (progression l.step v n) its))
  unfolding progression spread
  first_rest zero v above =
      rw (append-nil (map (λ e. (l.op, v) ∷ e) its)) (row_other first_of l ls v its (omega arith))
  first_rest (suc n) v above =
      rw
        (map-append_lem (differs first_of (l ∷ ls)) (map (λ e. (l.op, v) ∷ e) its)
          (spread l.op (progression l.step (v + l.step) n) its))
        (All-append IsTrue _ _ (row_other first_of l ls v its (omega arith))
          (first_rest n (v + l.step) (omega arith)))

  first_rows :
      (n : ℕ)
      → 0 < l.step
      → OnlyFirst (map (differs first_of ls) its)
      → OnlyFirst
          (map (differs first_of (l ∷ ls)) (spread l.op (progression l.step l.lower_bound n) its))
  unfolding progression spread
  first_rows zero pos h =
      rw
        (
          append-nil (map (λ e. (l.op, l.lower_bound) ∷ e) its),
          row_same first_of l ls l.lower_bound its out refl,
        )
        h
  first_rows (suc n) pos h =
      rw
        (
          map-append_lem (differs first_of (l ∷ ls)) (map (λ e. (l.op, l.lower_bound) ∷ e) its)
              (spread l.op (progression l.step (l.lower_bound + l.step) n) its),
          row_same first_of l ls l.lower_bound its out refl,
        )
        (OnlyFirst-append _ _ h (first_rest n (l.lower_bound + l.step) (omega arith)))

  last_rows :
      (n v : ℕ)
      → 0 < l.step
      → last_of l ≡ v + n * l.step
      → OnlyLast (map (differs last_of ls) its)
      → OnlyLast (map (differs last_of (l ∷ ls)) (spread l.op (progression l.step v n) its))
  unfolding progression spread
  last_rows zero v pos e h =
      let at : v ≡ last_of l = ground arith in
      rw (append-nil (map (λ e. (l.op, v) ∷ e) its), row_same last_of l ls v its out at) h
  last_rows (suc n) v pos e h =
      let below : v ≢ last_of l = grind arith in
      rw
        (map-append_lem (differs last_of (l ∷ ls)) (map (λ e. (l.op, v) ∷ e) its)
          (spread l.op (progression l.step (v + l.step) n) its))
        (OnlyLast-append _ _ (row_other last_of l ls v its below)
          (last_rows n (v + l.step) pos (grind arith) h))

iterations-rows :
    (l : ForOp) (ls : List ForOp) (n : ℕ)
    → l.upper_bound ≡ l.lower_bound + suc n * l.step
    → 0 < l.step
    → iterations (l ∷ ls) ≡ spread l.op (progression l.step l.lower_bound n) (iterations ls)
unfolding iterations
iterations-rows l ls n e pos =
    rw
      (loop_values-progression l.upper_bound l.step n l.upper_bound l.lower_bound pos e
        (grind arith))
      refl

iterations-OnlyFirst :
    (ls : List ForOp) → IsNest ls → OnlyFirst (map (differs first_of ls) (iterations ls))
unfolding iterations differs OnlyFirst
iterations-OnlyFirst [] h = ([], refl, tt)
iterations-OnlyFirst (l ∷ ls) ((n, e, pos), out, h) =
    rw (iterations-rows l ls n e pos)
      (first_rows l ls (iterations ls) out n pos (iterations-OnlyFirst ls h))

iterations-OnlyLast :
    (ls : List ForOp) → IsNest ls → OnlyLast (map (differs last_of ls) (iterations ls))
unfolding iterations differs OnlyLast
iterations-OnlyLast [] h = ([], refl, tt)
iterations-OnlyLast (l ∷ ls) ((n, e, pos), out, h) =
    let at : last_of l ≡ l.lower_bound + n * l.step = grind arith in
    rw (iterations-rows l ls n e pos)
      (last_rows l ls (iterations ls) out n l.lower_bound pos at (iterations-OnlyLast ls h))

length-map_lem : (f : Map ℕ → Bool) (its : List (Map ℕ)) → length (map f its) ≡ length its
length-map_lem f [] = refl
length-map_lem f (e ∷ its) = ap suc (length-map_lem f its)

length-snoc : (xs : List Bool) (b : Bool) → length (xs ++ b ∷ []) ≡ suc (length xs)
length-snoc [] b = refl
length-snoc (x ∷ xs) b = ap suc (length-snoc xs b)

trues_unique : (xs ys : List Bool) → All IsTrue xs → All IsTrue ys → length xs ≡ length ys → xs ≡ ys
trues_unique [] [] h k e = refl
trues_unique [] (y ∷ ys) h k e = absurd (omega (arith, e))
trues_unique (x ∷ xs) [] h k e = absurd (omega (arith, e))
trues_unique (x ∷ xs) (y ∷ ys) (hx, h) (ky, k) e =
    rw (hx, ky, trues_unique xs ys h k (omega (arith, e))) refl

-- The two guards of a back edge, whose dependent loops are a nest listed from the outermost in: over
-- the iterations in the order they run, the guard at the receiving stage fails at the first only and
-- the one at the sending stage at the last only. So what is sent at the end of an iteration is
-- received at the start of the next.
pub guards-pair_up :
    (ls : List ForOp) (recv send : Cond)
    → IsNest ls
    → recv_guard none ls ≡ some recv
    → send_guard none ls ≡ some send
    → (ts : List Bool) × (map (eval recv) (iterations ls) ≡ false ∷ ts)
      × (map (eval send) (iterations ls) ≡ ts ++ false ∷ [])
      × All IsTrue ts
unfolding OnlyFirst OnlyLast
guards-pair_up ls recv send nest hr hs =
    let (ts, e, h) = iterations-OnlyFirst ls nest in
    let (us, e', h') = iterations-OnlyLast ls nest in
    let size : length us ≡ length ts = omega (
      arith,
      length-snoc us false,
      ap length e,
      ap length e',
      length-map_lem (differs first_of ls) (iterations ls),
      length-map_lem (differs last_of ls) (iterations ls),
    ) in
    let same = trues_unique us ts h' h size in
    (
      ts,
      map_eq (eval recv) (differs first_of ls) (recv_guard-differs ls recv hr) (iterations ls) ∙ e,
      map_eq (eval send) (differs last_of ls) (send_guard-differs ls send hs) (iterations ls)
          ∙ e'
          ∙ ap (λ z. z ++ false ∷ []) same,
      h,
    )
