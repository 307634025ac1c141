-- ===== src/RoutingGraph/ShortestPath/Frontier.antt =====
-- lib/Analysis/ArchViews/RoutingGraph.cpp, `findShortestPath`: what the breadth-first search keeps true
-- of its queue, its flags and its predecessors, for a distance that it does not store.
use dataflow_scheduler.Prelude.{
  unseen, ℕ, suc, ◌+◌, ◌≤◌, ◌≡◌, refl, sym, ◌∙◌, ◌⊎◌, inl, inr, some, List, [], ◌∷◌, ◌++◌, arith,
  length, In, subst,
}
use dataflow_scheduler.Prelude.Maps.{lookup}
use dataflow_scheduler.Device.{NodeId}
use dataflow_scheduler.RoutingGraph.{RoutingGraph, get_neighbors}
use dataflow_scheduler.RoutingGraph.ShortestPath.{Search}

abbrev pub AllAt : (NodeId → ℕ) → ℕ → List NodeId → Type 0
AllAt d k [] = Unit {0}
AllAt d k (w ∷ ws) = (d w ≡ k) × AllAt d k ws

-- The queue: nodes at distance `k`, then nodes one further.
abbrev pub IsQueue : (NodeId → ℕ) → ℕ → List NodeId → Type 0
IsQueue d k [] = Unit {0}
IsQueue d k (w ∷ ws) = ((d w ≡ k) × IsQueue d k ws) ⊎ AllAt d (suc k) (w ∷ ws)

AllAt-IsQueue : (d : NodeId → ℕ) (k : ℕ) (ws : List NodeId) → AllAt d k ws → IsQueue d k ws
AllAt-IsQueue d k [] h = tt
AllAt-IsQueue d k (w ∷ ws) (e, h) = inl (e, AllAt-IsQueue d k ws h)

AllAt-snoc :
    (d : NodeId → ℕ) (k n : ℕ) (ws : List NodeId)
    → AllAt d k ws
    → d n ≡ k
    → AllAt d k (ws ++ n ∷ [])
AllAt-snoc d k n [] h e = (e, tt)
AllAt-snoc d k n (w ∷ ws) (q, h) e = (q, AllAt-snoc d k n ws h e)

pub IsQueue-snoc :
    (d : NodeId → ℕ) (k n : ℕ) (ws : List NodeId)
    → IsQueue d k ws
    → d n ≡ suc k
    → IsQueue d k (ws ++ n ∷ [])
IsQueue-snoc d k n [] h e = inr (e, tt)
IsQueue-snoc d k n (w ∷ ws) (inl (q, h)) e = inl (q, IsQueue-snoc d k n ws h e)
IsQueue-snoc d k n (w ∷ ws) (inr h) e = inr (AllAt-snoc d (suc k) n (w ∷ ws) h e)

AllAt-agree :
    (d f : NodeId → ℕ) (k : ℕ) (ws : List NodeId)
    → ((w : NodeId) → In w ws → f w ≡ d w)
    → AllAt d k ws
    → AllAt f k ws
AllAt-agree d f k [] a h = tt
AllAt-agree d f k (w ∷ ws) a (e, h) =
    (a w (inl refl) ∙ e, AllAt-agree d f k ws (λ v m. a v (inr m)) h)

pub IsQueue-agree :
    (d f : NodeId → ℕ) (k : ℕ) (ws : List NodeId)
    → ((w : NodeId) → In w ws → f w ≡ d w)
    → IsQueue d k ws
    → IsQueue f k ws
IsQueue-agree d f k [] a h = tt
IsQueue-agree d f k (w ∷ ws) a (inl (e, h)) =
    inl (a w (inl refl) ∙ e, IsQueue-agree d f k ws (λ v m. a v (inr m)) h)
IsQueue-agree d f k (w ∷ ws) a (inr h) = inr (AllAt-agree d f (suc k) (w ∷ ws) a h)

pub IsQueue-pop :
    (d : NodeId → ℕ) (k c : ℕ) (ws : List NodeId)
    → IsQueue d k (c ∷ ws)
    → (k ≤ d c) × IsQueue d (d c) ws
IsQueue-pop d k c ws (inl (e, h)) = (omega arith, subst (λ x. IsQueue d x ws) (sym e) h)
IsQueue-pop d k c ws (inr (e, h)) =
    (omega arith, subst (λ x. IsQueue d x ws) (sym e) (AllAt-IsQueue d (suc k) ws h))

AllAt-ge : (d : NodeId → ℕ) (k w : ℕ) (ws : List NodeId) → AllAt d k ws → In w ws → k ≤ d w
AllAt-ge d k w [] h m = absurd m
AllAt-ge d k w (v ∷ ws) (e, h) (inl q) = subst (λ x. k ≤ d x) q (omega arith)
AllAt-ge d k w (v ∷ ws) (e, h) (inr m) = AllAt-ge d k w ws h m

pub IsQueue-ge : (d : NodeId → ℕ) (k w : ℕ) (ws : List NodeId) → IsQueue d k ws → In w ws → k ≤ d w
IsQueue-ge d k w [] h m = absurd m
IsQueue-ge d k w (v ∷ ws) (inl (e, h)) (inl q) = subst (λ x. k ≤ d x) q (omega arith)
IsQueue-ge d k w (v ∷ ws) (inl (e, h)) (inr m) = IsQueue-ge d k w ws h m
IsQueue-ge d k w (v ∷ ws) (inr h) m = omega (arith, AllAt-ge d (suc k) w (v ∷ ws) h m)

module _ (g : RoutingGraph) (src : NodeId) (all_nodes : List NodeId) where
  -- How a visited node was reached.
  abbrev pub Reached : (NodeId → ℕ) → Search → NodeId → Type 0
  Reached d s v =
      (v ≡ src)
      ⊎ ((p : NodeId) × (lookup v s.predecessor ≡ some p)
          × In p s.visited
          × In v (get_neighbors g p)
          × (d v ≡ suc (d p)))

  -- All neighbours are visited, and at most one further.
  abbrev pub Closed : (NodeId → ℕ) → Search → NodeId → Type 0
  Closed d s v = (u : NodeId) → In u (get_neighbors g v) → In u s.visited × (d u ≤ suc (d v))

  -- For a distance `d`, with the queue at `k` or one further. The nodes of `open_nodes` are taken from the
  -- queue and not yet closed.
  pub record Invariant (d : NodeId → ℕ) (k : ℕ) (open_nodes : List NodeId) (s : Search)
      : Type 0 where
    pub source_visited : In src s.visited
    pub source_zero : d src ≡ 0
    pub reached : (v : NodeId) → In v s.visited → Reached d s v
    pub queued : (w : NodeId) → In w s.worklist → In w s.visited
    pub closed : (v : NodeId) → In v s.visited → In v s.worklist ⊎ In v open_nodes ⊎ Closed d s v
    pub queue : IsQueue d k s.worklist
    pub low : (v : NodeId) → In v s.visited → d v ≤ suc k
    pub room :
        (v : NodeId) → In v s.visited → suc (d v + unseen s.visited all_nodes) ≤ length all_nodes

  -- What visiting one or more neighbours of `current` leads to.
  pub record Visited (d : NodeId → ℕ) (k : ℕ) (open_nodes : List NodeId) (s s' : Search)
      (ns : List NodeId) : Type 0 where
    pub distance : NodeId → ℕ
    pub invariant : Invariant distance k open_nodes s'
    pub agree : (v : NodeId) → In v s.visited → distance v ≡ d v
    pub kept : (v : NodeId) → In v s.visited → In v s'.visited
    pub reaches : (u : NodeId) → In u ns → In u s'.visited × (distance u ≤ suc k)
    pub work :
        length s'.worklist + unseen s'.visited all_nodes
        ≤ length s.worklist + unseen s.visited all_nodes
