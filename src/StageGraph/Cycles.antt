-- ===== src/StageGraph/Cycles.antt =====
-- lib/Dialect/KTDF/Analysis/GlobalStageDAG.cpp, `analyzeStageDependencies`: the depth-first search and
-- the cycles of the graph.
use dataflow_scheduler.Prelude.{
  ℕ, ◌≡◌, ◌≢◌, refl, sym, ap, ◌∙◌, ◌⊎◌, inl, inr, some, List, [], ◌∷◌, ◌==◌, ==_iff, ==-refl, ==_ne,
  Bool-cases, In, subst,
}
use dataflow_scheduler.Prelude.Maps.{Map, lookup, insert, lookup-insert}
use dataflow_scheduler.StageGraph.{
  Color, white, gray, black, or_white, Visit, cycle_found, out_of_fuel, no_cycle,
}

-- A path of one edge or more.
pub data Reach (succ : ℕ → List ℕ) : ℕ → ℕ → Type 0 where
  one : {u v : ℕ} → In v (succ u) → Reach succ u v
  more : {u w v : ℕ} → In w (succ u) → Reach succ w v → Reach succ u v

pub Reach-snoc : {succ : ℕ → List ℕ} {u w v : ℕ} → Reach succ u w → In v (succ w) → Reach succ u v
Reach-snoc (one e) f = more e (one f)
Reach-snoc (more e r) f = more e (Reach-snoc r f)

module _ (succ : ℕ → List ℕ) where
  -- A list in which each node's successors come after it, and each node stands once.
  abbrev pub IsOrdered : List ℕ → Type 0
  IsOrdered [] = Unit {0}
  IsOrdered (v ∷ vs) = ((u : ℕ) → In u (succ v) → In u vs) × (¬ In v vs) × IsOrdered vs

  IsOrdered-step : (vs : List ℕ) → IsOrdered vs → (u v : ℕ) → In u vs → In v (succ u) → In v vs
  IsOrdered-step [] h u v m e = absurd m
  IsOrdered-step (x ∷ vs) h u v (inl q) e = inr (h.0 v (subst (λ y. In v (succ y)) (sym q) e))
  IsOrdered-step (x ∷ vs) h u v (inr m) e = inr (IsOrdered-step vs h.2 u v m e)

  pub IsOrdered-closed :
      (vs : List ℕ) → IsOrdered vs → (u v : ℕ) → In u vs → Reach succ u v → In v vs
  IsOrdered-closed vs h u v m (one e) = IsOrdered-step vs h u v m e
  IsOrdered-closed vs h u v m (more {w = w} e r) =
      IsOrdered-closed vs h w v (IsOrdered-step vs h u w m e) r

  -- What is reached from the head lies in the tail.
  head-Reach : (x : ℕ) (vs : List ℕ) → IsOrdered (x ∷ vs) → (v : ℕ) → Reach succ x v → In v vs
  head-Reach x vs h v (one e) = h.0 v e
  head-Reach x vs h v (more {w = w} e r) = IsOrdered-closed vs h.2 w v (h.0 w e) r

  -- No cycle goes through such a list.
  pub IsOrdered-acyclic : (vs : List ℕ) → IsOrdered vs → (v : ℕ) → In v vs → ¬ Reach succ v v
  IsOrdered-acyclic [] h v m r = m
  IsOrdered-acyclic (x ∷ vs) h v (inl q) r =
      h.1 (head-Reach x vs h x (subst (λ y. Reach succ y y) (sym q) r))
  IsOrdered-acyclic (x ∷ vs) h v (inr m) r = IsOrdered-acyclic vs h.2 v m r

  -- The colour of a node: gray on the way to the visit at hand, black when finished.
  abbrev pub ColorAt : Map Color → List ℕ → List ℕ → ℕ → Type 0
  ColorAt color path finished v =
      ((or_white (lookup v color) ≡ white) × (¬ In v path) × (¬ In v finished))
      ⊎ ((or_white (lookup v color) ≡ gray) × In v path × (¬ In v finished))
      ⊎ ((or_white (lookup v color) ≡ black) × (¬ In v path) × In v finished)

  pub record Invariant (color : Map Color) (path finished : List ℕ) : Type 0 where
    pub colored : (v : ℕ) → ColorAt color path finished v
    pub ordered : IsOrdered finished

  abbrev pub Outcome : List ℕ → List ℕ → ℕ → Visit → Type 0
  Outcome path finished op cycle_found = (v : ℕ) × Reach succ v v
  Outcome path finished op out_of_fuel = ⊥
  Outcome path finished op (no_cycle color) =
      (finished' : List ℕ) × Invariant color path finished'
      × ((v : ℕ) → In v finished → In v finished')
      × In op finished'

  lookup-other :
      (color : Map Color) (op v : ℕ) (c : Color)
      → op ≢ v
      → lookup v (insert op c color) ≡ lookup v color
  lookup-other color op v c ne = lookup-insert op v c color ∙ rw (==_ne op v ne) refl

  lookup-same : (color : Map Color) (op : ℕ) (c : Color) → lookup op (insert op c color) ≡ some c
  lookup-same color op c = lookup-insert op op c color ∙ rw (==-refl op) refl

  pub enter-Invariant :
      (color : Map Color) (path finished : List ℕ) (op : ℕ)
      → Invariant color path finished
      → ¬ In op path
      → ¬ In op finished
      → Invariant (insert op gray color) (op ∷ path) finished
  enter-Invariant color path finished op i no_path no_fin = record {
    colored = colored;
    ordered = i.ordered;
  }
    where
      moved :
          (v : ℕ)
          → op ≢ v
          → ColorAt color path finished v
          → ColorAt (insert op gray color) (op ∷ path) finished v
      moved v ne (inl (e, p, f)) = inl (
        rw (lookup-other color op v gray ne) e,
        (λ (m : In v (op ∷ path)). elim m [ inl q ↦ ne q | inr m' ↦ p m' ]),
        f,
      )
      moved v ne (inr (inl (e, p, f))) =
          inr (inl (rw (lookup-other color op v gray ne) e, inr p, f))
      moved v ne (inr (inr (e, p, f))) = inr (
          inr (
            rw (lookup-other color op v gray ne) e,
            (λ (m : In v (op ∷ path)). elim m [ inl q ↦ ne q | inr m' ↦ p m' ]),
            f,
          ))

      colored : (v : ℕ) → ColorAt (insert op gray color) (op ∷ path) finished v
      colored v = elim (Bool-cases (op == v)) [
        | inl e ↦
            let q = (==_iff op v).0 e in
            subst (ColorAt (insert op gray color) (op ∷ path) finished) q
              (inr (inl (ap or_white (lookup-same color op gray), inl refl, no_fin)))
        | inr e ↦ moved v (λ q. cc (e, (==_iff op v).1 q)) (i.colored v)
      ]

  pub leave-Invariant :
      (color : Map Color) (path finished : List ℕ) (op : ℕ)
      → Invariant color (op ∷ path) finished
      → ¬ In op path
      → ((u : ℕ) → In u (succ op) → In u finished)
      → Invariant (insert op black color) path (op ∷ finished)
  leave-Invariant color path finished op i no_path all_finished = record {
    colored = colored;
    ordered = (all_finished, unfinished (i.colored op), i.ordered);
  }
    where
      unfinished : ColorAt color (op ∷ path) finished op → ¬ In op finished
      unfinished (inl (e, p, f)) = absurd (p (inl refl))
      unfinished (inr (inl (e, p, f))) = f
      unfinished (inr (inr (e, p, f))) = absurd (p (inl refl))

      moved :
          (v : ℕ)
          → op ≢ v
          → ColorAt color (op ∷ path) finished v
          → ColorAt (insert op black color) path (op ∷ finished) v
      moved v ne (inl (e, p, f)) = inl (
        rw (lookup-other color op v black ne) e,
        (λ m. p (inr m)),
        (λ (m : In v (op ∷ finished)). elim m [ inl q ↦ ne q | inr m' ↦ f m' ]),
      )
      moved v ne (inr (inl (e, inl q, f))) = absurd (ne q)
      moved v ne (inr (inl (e, inr p, f))) = inr (
          inl (
            rw (lookup-other color op v black ne) e,
            p,
            (λ (m : In v (op ∷ finished)). elim m [ inl q ↦ ne q | inr m' ↦ f m' ]),
          ))
      moved v ne (inr (inr (e, p, f))) =
          inr (inr (rw (lookup-other color op v black ne) e, (λ m. p (inr m)), inr f))

      colored : (v : ℕ) → ColorAt (insert op black color) path (op ∷ finished) v
      colored v = elim (Bool-cases (op == v)) [
        | inl e ↦
            let q = (==_iff op v).0 e in
            subst (ColorAt (insert op black color) path (op ∷ finished)) q
              (inr (inr (ap or_white (lookup-same color op black), no_path, inl refl)))
        | inr e ↦ moved v (λ q. cc (e, (==_iff op v).1 q)) (i.colored v)
      ]
