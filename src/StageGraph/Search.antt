-- ===== src/StageGraph/Search.antt =====
-- lib/Dialect/KTDF/Analysis/GlobalStageDAG.cpp, `hasCycle`: a visit finds a cycle, or finishes with all
-- that it reaches in order.
use dataflow_scheduler.Prelude.{
  not-contains, ℕ, zero, suc, ◌<◌, ◌≡◌, refl, ◌⊎◌, inl, inr, List, [], ◌∷◌, arith, In, subst,
  unseen, unseen-cons_lt,
}
use dataflow_scheduler.Prelude.Maps.{Map, lookup, insert}
use dataflow_scheduler.StageGraph.{
  Color, white, gray, or_white, Visit, cycle_found, out_of_fuel, no_cycle, visit_successors,
  has_cycle, visit_stages,
}
use dataflow_scheduler.StageGraph.Cycles.{
  Reach, one, Reach-snoc, IsOrdered, ColorAt, Invariant, Outcome, enter-Invariant, leave-Invariant,
}

module _ (succ : ℕ → List ℕ) (nodes : List ℕ)
    (inside : (v u : ℕ) → In u (succ v) → In u nodes) where
  -- What the recursive call promises at the nodes below `op`.
  abbrev Visits : ℕ → List ℕ → Type 0
  Visits fuel path =
      (s : ℕ) (color : Map Color) (finished : List ℕ)
      → Invariant succ color path finished
      → or_white (lookup s color) ≡ white
      → In s nodes
      → ((v : ℕ) → In v path → Reach succ v s)
      → Outcome succ path finished s (has_cycle succ fuel s color)

  -- The outcome of the loop after a visit of `s`.
  after_visit :
      (fuel : ℕ) (path finished₀ finished : List ℕ) (op s : ℕ) (ss : List ℕ) (r : Visit)
      → Outcome succ (op ∷ path) finished s r
      → ((c : Map Color) (finished' : List ℕ)
          → Invariant succ c (op ∷ path) finished'
          → ((v : ℕ) → In v finished → In v finished')
          → In s finished'
          → Outcome succ path finished₀ op (visit_successors succ (has_cycle succ fuel) op ss c))
      → Outcome succ path finished₀ op (elim r [
        | cycle_found ↦ cycle_found
        | out_of_fuel ↦ out_of_fuel
        | no_cycle c ↦ visit_successors succ (has_cycle succ fuel) op ss c
      ])
  after_visit fuel path finished₀ finished op s ss cycle_found h k = h
  after_visit fuel path finished₀ finished op s ss out_of_fuel h k = h
  after_visit fuel path finished₀ finished op s ss (no_cycle c) (finished', i, kept, m) k =
      k c finished' i kept m

  visit_successors-Outcome :
      (fuel op : ℕ) (path : List ℕ)
      → Visits fuel (op ∷ path)
      → ¬ In op path
      → ((v : ℕ) → In v path → Reach succ v op)
      → (ss : List ℕ) (color : Map Color) (finished₀ finished : List ℕ)
      → Invariant succ color (op ∷ path) finished
      → ((s : ℕ) → In s ss → In s (succ op))
      → ((u : ℕ) → In u (succ op) → In u finished ⊎ In u ss)
      → ((v : ℕ) → In v finished₀ → In v finished)
      → Outcome succ path finished₀ op (visit_successors succ (has_cycle succ fuel) op ss color)
  unfolding visit_successors
  visit_successors-Outcome fuel op path visits fresh reach [] color finished₀ finished i edges rest
        kept =
      (
        op ∷ finished,
        leave-Invariant succ color path finished op i fresh (λ u e. go u (rest u e)),
        (λ v m. inr (kept v m)),
        inl refl,
      )
    where
      go : (u : ℕ) → In u finished ⊎ In u [] → In u finished
      go u (inl m) = m
      go u (inr m) = absurd m
  visit_successors-Outcome fuel op path visits fresh reach (s ∷ ss) color finished₀ finished i edges
        rest kept =
      go (i.colored s) (λ c finished' j more_kept m.
        visit_successors-Outcome fuel op path visits fresh reach ss c finished₀ finished' j
          (λ t h. edges t (inr h)) (λ u e. step finished' more_kept m u (rest u e))
          (λ v h. more_kept v (kept v h)))
    where
      edge : In s (succ op)
      edge = edges s (inl refl)

      to_s : (v : ℕ) → In v (op ∷ path) → Reach succ v s
      to_s v (inl q) = subst (λ x. Reach succ x s) q (one edge)
      to_s v (inr m) = Reach-snoc (reach v m) edge

      step :
          (finished' : List ℕ)
          → ((v : ℕ) → In v finished → In v finished')
          → In s finished'
          → (u : ℕ) → In u finished ⊎ In u (s ∷ ss)
          → In u finished' ⊎ In u ss
      step finished' more_kept m u (inl h) = inl (more_kept u h)
      step finished' more_kept m u (inr (inl q)) = inl (subst (λ x. In x finished') q m)
      step finished' more_kept m u (inr (inr h)) = inr h

      go :
          ColorAt succ color (op ∷ path) finished s
          → ((c : Map Color) (finished' : List ℕ)
              → Invariant succ c (op ∷ path) finished'
              → ((v : ℕ) → In v finished → In v finished')
              → In s finished'
              → Outcome succ path finished₀ op
                  (visit_successors succ (has_cycle succ fuel) op ss c))
          → Outcome succ path finished₀ op
              (visit_successors succ (has_cycle succ fuel) op (s ∷ ss) color)
      go (inl (e, p, f)) k =
          rw (e, visit_successors)
            (after_visit fuel path finished₀ finished op s ss (has_cycle succ fuel s color)
              (visits s color finished i e (inside op s edge) to_s) k)
      go (inr (inl (e, p, f))) k = rw (e, visit_successors) (s, to_s s p)
      go (inr (inr (e, p, f))) k = rw (e, visit_successors) (k color finished i (λ v m. m) f)

  white_facts :
      (color : Map Color) (path finished : List ℕ) (s : ℕ)
      → ColorAt succ color path finished s
      → or_white (lookup s color) ≡ white
      → (¬ In s path) × (¬ In s finished)
  white_facts color path finished s (inl (e, p, f)) h = (p, f)
  white_facts color path finished s (inr (inl (e, p, f))) h = cc
  white_facts color path finished s (inr (inr (e, p, f))) h = cc

  pub has_cycle-Outcome : (fuel : ℕ) (path : List ℕ) → unseen path nodes < fuel → Visits fuel path
  unfolding has_cycle
  has_cycle-Outcome zero path lt op color finished i e node reach = absurd (omega arith)
  has_cycle-Outcome (suc fuel) path lt op color finished i e node reach =
      let (no_path, no_fin) = white_facts color path finished op (i.colored op) e in
      visit_successors-Outcome fuel op path
        (has_cycle-Outcome fuel (op ∷ path)
          (omega (arith, unseen-cons_lt op path nodes node (not-contains path op no_path))))
        no_path reach (succ op) (insert op gray color) finished finished
        (enter-Invariant succ color path finished op i no_path no_fin) (λ s m. m) (λ u m. inr m)
        (λ v m. m)

  -- The loop over the stages, which are all nodes.
  abbrev pub AllOutcome : List ℕ → List ℕ → Visit → Type 0
  AllOutcome finished vs cycle_found = (v : ℕ) × Reach succ v v
  AllOutcome finished vs out_of_fuel = ⊥
  AllOutcome finished vs (no_cycle color) =
      (finished' : List ℕ) × IsOrdered succ finished'
      × ((v : ℕ) → In v finished → In v finished')
      × ((v : ℕ) → In v vs → In v finished')

  pub visit_stages-AllOutcome :
      (fuel : ℕ)
      → unseen [] nodes < fuel
      → (vs : List ℕ) (color : Map Color) (finished : List ℕ) → Invariant succ color [] finished
      → ((v : ℕ) → In v vs → In v nodes)
      → AllOutcome finished vs (visit_stages succ fuel vs color)
  unfolding visit_stages
  visit_stages-AllOutcome fuel lt [] color finished i all =
      (finished, i.ordered, (λ v m. m), λ v m. absurd m)
  visit_stages-AllOutcome fuel lt (v ∷ vs) color finished i all =
      go (i.colored v)
        (λ c finished' j. visit_stages-AllOutcome fuel lt vs c finished' j (λ u m. all u (inr m)))
    where
      widen :
          (finished' : List ℕ)
          → ((u : ℕ) → In u finished → In u finished')
          → In v finished'
          → (r : Visit) → AllOutcome finished' vs r
          → AllOutcome finished (v ∷ vs) r
      widen finished' kept m cycle_found h = h
      widen finished' kept m out_of_fuel h = h
      widen finished' kept m (no_cycle c) (fin, o, more_kept, got) = (
        fin,
        o,
        (λ u h. more_kept u (kept u h)),
        λ u (h : In u (v ∷ vs)). elim h [
          | inl q ↦ subst (λ x. In x fin) q (more_kept v m)
          | inr t ↦ got u t
        ],
      )

      next :
          (r : Visit)
          → Outcome succ [] finished v r
          → ((c : Map Color) (finished' : List ℕ)
              → Invariant succ c [] finished'
              → AllOutcome finished' vs (visit_stages succ fuel vs c))
          → AllOutcome finished (v ∷ vs) (elim r [
            | cycle_found ↦ cycle_found
            | out_of_fuel ↦ out_of_fuel
            | no_cycle c ↦ visit_stages succ fuel vs c
          ])
      next cycle_found h k = h
      next out_of_fuel h k = h
      next (no_cycle c) (finished', j, kept, m) k = widen finished' kept m _ (k c finished' j)

      go :
          ColorAt succ color [] finished v
          → ((c : Map Color) (finished' : List ℕ)
              → Invariant succ c [] finished'
              → AllOutcome finished' vs (visit_stages succ fuel vs c))
          → AllOutcome finished (v ∷ vs) (visit_stages succ fuel (v ∷ vs) color)
      go (inl (e, p, f)) k =
          rw (e, visit_stages)
            (next (has_cycle succ fuel v color)
              (has_cycle-Outcome fuel [] lt v color finished i e (all v (inl refl))
                (λ u m. absurd m))
              k)
      go (inr (inl (e, p, f))) k = absurd p
      go (inr (inr (e, p, f))) k =
          rw (e, visit_stages) (widen finished (λ u m. m) f _ (k color finished i))
