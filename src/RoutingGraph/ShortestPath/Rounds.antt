-- ===== src/RoutingGraph/ShortestPath/Rounds.antt =====
-- lib/Analysis/ArchViews/RoutingGraph.cpp, `findShortestPath`: the rounds of the search, and where
-- they stop.
use dataflow_scheduler.Prelude.{
  unseen, ℕ, zero, suc, ◌+◌, ◌≤◌, ◌<◌, ◌≡◌, refl, ap, ◌∙◌, ◌⊎◌, inl, inr, true, some, List, [], ◌∷◌,
  arith, ◌==◌, ==_iff, Bool-cases, List-cases, length, In, subst,
}
use dataflow_scheduler.Device.{NodeId}
use dataflow_scheduler.RoutingGraph.{RoutingGraph, get_neighbors}
use dataflow_scheduler.RoutingGraph.ShortestPath.{Search, visit_neighbors, search_loop}
use dataflow_scheduler.RoutingGraph.ShortestPath.Frontier.{IsQueue, IsQueue-pop, Closed, Invariant}
use dataflow_scheduler.RoutingGraph.ShortestPath.Visit.{visit_neighbors-Visited}

module _ (g : RoutingGraph) (src : NodeId) (all_nodes : List NodeId)
    (inside : (v u : NodeId) → In u (get_neighbors g v) → In u all_nodes) where
  pop-Invariant :
      (d : NodeId → ℕ) (k : ℕ) (s : Search) (c : NodeId) (rest : List NodeId)
      → s.worklist ≡ c ∷ rest
      → Invariant g src all_nodes d k [] s
      → Invariant g src all_nodes d (d c) (c ∷ []) (record s { worklist = rest })
  pop-Invariant d k s c rest e i =
      let popped = IsQueue-pop d k c rest (subst (λ ws. IsQueue_of ws) e i.queue) in
      record {
        source_visited = i.source_visited;
        source_zero = i.source_zero;
        reached = i.reached;
        queued = λ w m. i.queued w (rw e (inr m));
        closed = λ v m. closed v (i.closed v m);
        queue = popped.1;
        low = λ v m. omega (arith, i.low v m, popped.0);
        room = i.room;
      }
    where
      IsQueue_of : List NodeId → Type 0
      IsQueue_of ws = IsQueue d k ws

      closed :
          (v : NodeId)
          → In v s.worklist ⊎ In v [] ⊎ Closed g src all_nodes d s v
          → In v rest ⊎ In v (c ∷ []) ⊎ Closed g src all_nodes d (record s { worklist = rest }) v
      closed v (inl m) = go (subst (λ ws. In v ws) e m)
        where
          go :
              In v (c ∷ rest)
              → In v rest
                ⊎ In v (c ∷ [])
                ⊎ Closed g src all_nodes d (record s { worklist = rest }) v
          go (inl q) = inr (inl (inl q))
          go (inr q) = inl q
      closed v (inr (inl m)) = absurd m
      closed v (inr (inr h)) = inr (inr h)

  close-Invariant :
      (d : NodeId → ℕ) (k : ℕ) (s : Search) (c : NodeId)
      → Closed g src all_nodes d s c
      → Invariant g src all_nodes d k (c ∷ []) s
      → Invariant g src all_nodes d k [] s
  close-Invariant d k s c h i = record {
    source_visited = i.source_visited;
    source_zero = i.source_zero;
    reached = i.reached;
    queued = i.queued;
    closed = λ v m. closed v (i.closed v m);
    queue = i.queue;
    low = i.low;
    room = i.room;
  }
    where
      closed :
          (v : NodeId)
          → In v s.worklist ⊎ In v (c ∷ []) ⊎ Closed g src all_nodes d s v
          → In v s.worklist ⊎ In v [] ⊎ Closed g src all_nodes d s v
      closed v (inl m) = inl m
      closed v (inr (inl (inl e))) = inr (inr (subst (Closed g src all_nodes d s) e h))
      closed v (inr (inl (inr m))) = absurd m
      closed v (inr (inr q)) = inr (inr q)

  -- One round of the search, which closes the node it takes from the queue.
  record Round (d : NodeId → ℕ) (c : NodeId) (s s' : Search) : Type 0 where
    distance : NodeId → ℕ
    invariant : Invariant g src all_nodes distance (d c) [] s'
    work :
        suc (length s'.worklist + unseen s'.visited all_nodes)
        ≤ length s.worklist + unseen s.visited all_nodes

  visit_neighbors-Round :
      (d : NodeId → ℕ) (k : ℕ) (s : Search) (c : NodeId) (rest : List NodeId)
      → s.worklist ≡ c ∷ rest
      → Invariant g src all_nodes d k [] s
      → Round d c s (visit_neighbors c (record s { worklist = rest }) (get_neighbors g c))
  visit_neighbors-Round d k s c rest e i =
      let here : In c s.visited = i.queued c (rw e (inl refl)) in
      let v =
        visit_neighbors-Visited g src all_nodes d (d c) (c ∷ []) (record s { worklist = rest }) c
          (get_neighbors g c) (pop-Invariant d k s c rest e i) here refl
          (λ n m. (m, inside c n m)) in
      record {
        distance = v.distance;
        invariant =
            close-Invariant v.distance (d c) _ c
              (λ u nb. ((v.reaches u nb).0, omega (arith, (v.reaches u nb).1, v.agree c here)))
              v.invariant;
        work = omega (arith, v.work, ap length e);
      }

  -- Where the search stops: with an empty queue, or with the target at its head.
  pub record Stopped (target : NodeId) (s : Search) : Type 0 where
    pub distance : NodeId → ℕ
    pub level : ℕ
    pub invariant : Invariant g src all_nodes distance level [] s
    pub stopped : (s.worklist ≡ []) ⊎ ((rest : List NodeId) × (s.worklist ≡ target ∷ rest))

  loop_empty :
      (fuel : ℕ) (target : NodeId) (s : Search)
      → s.worklist ≡ []
      → search_loop g (suc fuel) target s ≡ some s
  unfolding search_loop
  loop_empty fuel target s e = go s.worklist e
    where
      go :
          (ws : List NodeId)
          → ws ≡ []
          → search_loop g (suc fuel) target (record s { worklist = ws })
            ≡ some (record s { worklist = ws })
      go [] q = refl
      go (c ∷ rest) q = cc

  loop_hit :
      (fuel : ℕ) (target : NodeId) (s : Search) (rest : List NodeId)
      → s.worklist ≡ target ∷ rest
      → search_loop g (suc fuel) target s ≡ some s
  unfolding search_loop
  loop_hit fuel target s rest e = go s.worklist e
    where
      go :
          (ws : List NodeId)
          → ws ≡ target ∷ rest
          → search_loop g (suc fuel) target (record s { worklist = ws })
            ≡ some (record s { worklist = ws })
      go [] q = cc
      go (c ∷ others) q = let same : (c == target) ≡ true = (==_iff c target).1 cc in rw same refl

  pub search_loop-Stopped :
      (fuel : ℕ) (target : NodeId) (d : NodeId → ℕ) (k : ℕ) (s : Search)
      → Invariant g src all_nodes d k [] s
      → length s.worklist + unseen s.visited all_nodes < fuel
      → (s' : Search) × (search_loop g fuel target s ≡ some s') × Stopped target s'
  unfolding search_loop
  search_loop-Stopped zero target d k s i lt = absurd (omega arith)
  search_loop-Stopped (suc fuel) target d k s i lt = elim (List-cases s.worklist) [
    | inl e ↦ (
      s,
      loop_empty fuel target s e,
      record { distance = d; level = k; invariant = i; stopped = inl e },
    )
    | inr (c, rest, e) ↦ elim (Bool-cases (c == target)) [
      | inl same ↦
          let at : c ≡ target = (==_iff c target).0 same in
          (
            s,
            loop_hit fuel target s rest (e ∙ ap (λ x. x ∷ rest) at),
            record {
              distance = d;
              level = k;
              invariant = i;
              stopped = inr (rest, e ∙ ap (λ x. x ∷ rest) at);
            },
          )
      | inr other ↦
          let r = visit_neighbors-Round d k s c rest e i in
          let (s', q, h) =
            search_loop-Stopped fuel target r.distance (d c) _ r.invariant
              (omega (arith, r.work)) in
          (s', rw (e, search_loop, other) q, h)
    ]
  ]
