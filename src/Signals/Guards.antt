-- ===== src/Signals/Guards.antt =====
-- lib/Conversion/backend/ScheduleIRToDFIR/KTDFToKTDFLow/SignalInsertion.cpp, the guards of a back
-- edge: what they test at an iteration of the loops.
use dataflow_scheduler.Prelude.{
  ℕ, zero, suc, ◌+◌, ◌-◌, ◌*◌, ◌<◌, ◌≡◌, ◌≢◌, refl, sym, ap, ◌∙◌, Bool, true, false, not, ◌||◌,
  none, some, List, [], ◌∷◌, ◌++◌, map, ◌==◌, ==-refl, ==_iff, ==_ne, All, subst, inl, inr, ltb,
  if◌then◌else◌, In,
}
use dataflow_scheduler.Prelude.Maps.{Map, lookup}
use dataflow_scheduler.MemoryTree.Queries.{value_or}
use dataflow_scheduler.Signals.{
  ForOp, Operand, induction_var, lower_bound_of, last_iv, Cond, cmp_ne, or_i, recv_guard,
  send_guard,
}

-- The induction variables of an iteration, by the operation of their loop.
abbrev pub value_of : Operand → Map ℕ → ℕ
value_of (induction_var l) env = value_or (lookup l.op env) 0
value_of (lower_bound_of l) env = l.lower_bound
value_of (last_iv l) env = l.upper_bound - l.step

unfoldable pub eval : Cond → Map ℕ → Bool
eval (cmp_ne a b) env = not (value_of a env == value_of b env)
eval (or_i c d) env = eval c env || eval d env

-- `scf.for`: the values from `v` while they are below the upper bound.
unfoldable pub loop_values : ℕ → ℕ → ℕ → ℕ → List ℕ
loop_values upper step zero v = []
loop_values upper step (suc fuel) v =
    let rest = loop_values upper step fuel (v + step) in if ltb v upper then v ∷ rest else []

unfoldable pub spread : ℕ → List ℕ → List (Map ℕ) → List (Map ℕ)
spread op [] its = []
spread op (v ∷ vs) its = map (λ e. (op, v) ∷ e) its ++ spread op vs its

-- The iterations of a nest of loops, outermost first, in the order they run. The upper bound is
-- enough fuel where the step is positive.
unfoldable pub iterations : List ForOp → List (Map ℕ)
iterations [] = [] ∷ []
iterations (l ∷ ls) =
    spread l.op (loop_values l.upper_bound l.step l.upper_bound l.lower_bound) (iterations ls)

-- The loop runs at least once, and its step divides the distance between its bounds.
abbrev pub IsExact : ForOp → Type 0
IsExact l = (n : ℕ) × (l.upper_bound ≡ l.lower_bound + suc n * l.step) × (0 < l.step)

abbrev pub ops : List ForOp → List ℕ
ops = map (λ l. l.op)

-- Different loops of a nest, each exact.
abbrev pub IsNest : List ForOp → Type 0
IsNest [] = Unit {0}
IsNest (l ∷ ls) = IsExact l × (¬ In l.op (ops ls)) × IsNest ls

or_false : (b : Bool) → (b || false) ≡ b
or_false true = refl
or_false false = refl

or_assoc : (a b c : Bool) → ((a || b) || c) ≡ (a || (b || c))
or_assoc true b c = refl
or_assoc false b c = refl

abbrev pub IsTrue : Bool → Type 0
IsTrue b = b ≡ true

-- Some loop of the list is not at the value given for it.
unfoldable pub differs : (ForOp → ℕ) → List ForOp → Map ℕ → Bool
differs b [] env = false
differs b (l ∷ ls) env = not (value_or (lookup l.op env) 0 == b l) || differs b ls env

abbrev pub first_of : ForOp → ℕ
first_of l = l.lower_bound

abbrev pub last_of : ForOp → ℕ
last_of l = l.upper_bound - l.step

recv_eval :
    (ls : List ForOp) (c : Cond)
    → (d : Cond) × (recv_guard (some c) ls ≡ some d)
      × ((env : Map ℕ) → eval d env ≡ (eval c env || differs first_of ls env))
unfolding recv_guard differs eval
recv_eval [] c = (c, refl, λ env. sym (or_false (eval c env)))
recv_eval (l ∷ ls) c =
    let (d, e, h) = recv_eval ls (or_i c (cmp_ne (induction_var l) (lower_bound_of l))) in
    (
      d,
      e,
      λ env.
          h env
          ∙ or_assoc (eval c env) (not (value_or (lookup l.op env) 0 == l.lower_bound))
              (differs first_of ls env),
    )

send_eval :
    (ls : List ForOp) (c : Cond)
    → (d : Cond) × (send_guard (some c) ls ≡ some d)
      × ((env : Map ℕ) → eval d env ≡ (eval c env || differs last_of ls env))
unfolding send_guard differs eval
send_eval [] c = (c, refl, λ env. sym (or_false (eval c env)))
send_eval (l ∷ ls) c =
    let (d, e, h) = send_eval ls (or_i c (cmp_ne (induction_var l) (last_iv l))) in
    (
      d,
      e,
      λ env.
          h env
          ∙ or_assoc (eval c env) (not (value_or (lookup l.op env) 0 == (l.upper_bound - l.step)))
              (differs last_of ls env),
    )

pub recv_guard-differs :
    (ls : List ForOp) (c : Cond)
    → recv_guard none ls ≡ some c
    → (env : Map ℕ) → eval c env ≡ differs first_of ls env
unfolding recv_guard eval differs
recv_guard-differs [] c h env = cc
recv_guard-differs (l ∷ ls) c h env =
    let (d, e, q) = recv_eval ls (cmp_ne (induction_var l) (lower_bound_of l)) in
    let same : d ≡ c = cc in subst (λ x. eval x env ≡ differs first_of (l ∷ ls) env) same (q env)

pub send_guard-differs :
    (ls : List ForOp) (c : Cond)
    → send_guard none ls ≡ some c
    → (env : Map ℕ) → eval c env ≡ differs last_of ls env
unfolding send_guard eval differs
send_guard-differs [] c h env = cc
send_guard-differs (l ∷ ls) c h env =
    let (d, e, q) = send_eval ls (cmp_ne (induction_var l) (last_iv l)) in
    let same : d ≡ c = cc in subst (λ x. eval x env ≡ differs last_of (l ∷ ls) env) same (q env)

pub map_eq :
    (f g : Map ℕ → Bool) → ((e : Map ℕ) → f e ≡ g e) → (its : List (Map ℕ)) → map f its ≡ map g its
map_eq f g h [] = refl
map_eq f g h (e ∷ its) = rw (h e, map_eq f g h its) refl

pub map-append_lem :
    (f : Map ℕ → Bool) (xs ys : List (Map ℕ)) → map f (xs ++ ys) ≡ map f xs ++ map f ys
map-append_lem f [] ys = refl
map-append_lem f (x ∷ xs) ys = ap (λ z. f x ∷ z) (map-append_lem f xs ys)

-- An entry for a loop that is not in the list plays no part.
differs-frame :
    (b : ForOp → ℕ) (ls : List ForOp) (op v : ℕ) (e : Map ℕ)
    → ¬ In op (ops ls)
    → differs b ls ((op, v) ∷ e) ≡ differs b ls e
unfolding differs lookup
differs-frame b [] op v e out = refl
differs-frame b (l ∷ ls) op v e out =
    let ne : op ≢ l.op = λ q. out (inl (sym q)) in
    rw (==_ne op l.op ne, differs-frame b ls op v e (λ m. out (inr m))) refl

-- The iterations at one value of the outermost loop.
pub row_same :
    (b : ForOp → ℕ) (l : ForOp) (ls : List ForOp) (v : ℕ) (its : List (Map ℕ))
    → ¬ In l.op (ops ls)
    → v ≡ b l
    → map (differs b (l ∷ ls)) (map (λ e. (l.op, v) ∷ e) its) ≡ map (differs b ls) its
unfolding differs lookup
row_same b l ls v [] out h = refl
row_same b l ls v (e ∷ its) out h =
    let eq : (v == b l) ≡ true = (==_iff v (b l)).1 h in
    rw (==-refl l.op, eq, differs-frame b ls l.op v e out, row_same b l ls v its out h) refl

pub row_other :
    (b : ForOp → ℕ) (l : ForOp) (ls : List ForOp) (v : ℕ) (its : List (Map ℕ))
    → v ≢ b l
    → All IsTrue (map (differs b (l ∷ ls)) (map (λ e. (l.op, v) ∷ e) its))
unfolding differs lookup
row_other b l ls v [] h = tt
row_other b l ls v (e ∷ its) h = (rw (==-refl l.op, ==_ne v (b l) h) refl, row_other b l ls v its h)
