-- ===== src/RoutingGraph/ShortestPath/Shortest.antt =====
-- lib/Analysis/ArchViews/RoutingGraph.cpp, `findShortestPath`: the search ends, and its path is a
-- shortest one.
use dataflow_scheduler.Prelude.{
  unseen-nil, unseen-cons_lt, ℕ, zero, suc, ◌≤◌, ◌<◌, ◌≡◌, refl, sym, ap, ◌∙◌, ◌⊎◌, inl, inr, true,
  false, none, some, List, [], ◌∷◌, ◌++◌, reverse, arith, ◌==◌, ==_iff, Bool-cases, length,
  contains, contains→In, In→contains, In, subst,
}
use mathlib.Core.List.{reverse-cons}
use dataflow_scheduler.Prelude.Maps.{Map, lookup, has, keys}
use dataflow_scheduler.Device.{NodeId}
use dataflow_scheduler.RoutingGraph.{RoutingGraph, get_neighbors, has_node}
use dataflow_scheduler.RoutingGraph.ShortestPath.{Search, start, trace_loop, find_shortest_path}
use dataflow_scheduler.RoutingGraph.ShortestPath.Frontier.{
  IsQueue, IsQueue-pop, IsQueue-ge, Reached, Closed, Invariant,
}
use dataflow_scheduler.RoutingGraph.ShortestPath.Rounds.{Stopped, search_loop-Stopped}

-- A path along edges from the source, with the number of its edges.
pub data Route (g : RoutingGraph) (source : NodeId) : NodeId → List NodeId → ℕ → Type 0 where
  begin : Route g source source (source ∷ []) zero
  extend :
      {p v : NodeId} {path : List NodeId} {n : ℕ}
      → Route g source p path n
      → In v (get_neighbors g p)
      → Route g source v (path ++ v ∷ []) (suc n)

module _ (g : RoutingGraph) (src : NodeId) (all_nodes : List NodeId)
    (inside : (v u : NodeId) → In u (get_neighbors g v) → In u all_nodes) where
  -- Along any route the queue or the flags are there no later than it.
  covered :
      (d : NodeId → ℕ) (k : ℕ) (s : Search)
      → Invariant g src all_nodes d k [] s
      → {v : NodeId} {path : List NodeId} {n : ℕ} → Route g src v path n
      → (In v s.visited × (d v ≤ n)) ⊎ ((w : NodeId) × In w s.worklist × (d w ≤ n))
  covered d k s i begin = inl (i.source_visited, omega (arith, i.source_zero))
  covered d k s i (extend {p = p} {v = v} {n = n} r nb) = step (covered d k s i r)
    where
      closed :
          d p ≤ n
          → In p s.worklist ⊎ In p [] ⊎ Closed g src all_nodes d s p
          → (In v s.visited × (d v ≤ suc n)) ⊎ ((w : NodeId) × In w s.worklist × (d w ≤ suc n))
      closed le (inl m) = inr (p, m, omega arith)
      closed le (inr (inl m)) = absurd m
      closed le (inr (inr h)) = inl ((h v nb).0, omega (arith, (h v nb).1))

      step :
          (In p s.visited × (d p ≤ n)) ⊎ ((w : NodeId) × In w s.worklist × (d w ≤ n))
          → (In v s.visited × (d v ≤ suc n)) ⊎ ((w : NodeId) × In w s.worklist × (d w ≤ suc n))
      step (inl (m, le)) = closed le (i.closed p m)
      step (inr (w, m, le)) = inr (w, m, omega arith)

  -- Where the search has stopped, a route to the target shows that it was visited, no later.
  pub Stopped-shortest :
      (target : NodeId) (s : Search) (h : Stopped g src all_nodes inside target s)
      → {path : List NodeId} {n : ℕ} → Route g src target path n
      → In target s.visited × (h.distance target ≤ n)
  Stopped-shortest target s h r = go h.stopped (covered h.distance h.level s h.invariant r)
    where
      i : Invariant g src all_nodes h.distance h.level [] s
      i = h.invariant

      go :
          {n : ℕ}
          → (s.worklist ≡ []) ⊎ ((rest : List NodeId) × (s.worklist ≡ target ∷ rest))
          → (In target s.visited × (h.distance target ≤ n))
            ⊎ ((w : NodeId) × In w s.worklist × (h.distance w ≤ n))
          → In target s.visited × (h.distance target ≤ n)
      go stopped (inl m) = m
      go (inl e) (inr (w, m, le)) = absurd (subst (λ ws. In w ws) e m)
      go {n = n} (inr (rest, e)) (inr (w, m, le)) =
          let queue = subst (λ ws. IsQueue h.distance h.level ws) e i.queue in
          let popped = IsQueue-pop h.distance h.level target rest queue in
          (
            i.queued target (subst (λ ws. In target ws) (sym e) (inl refl)),
            elim (subst (λ ws. In w ws) e m) [
              | inl same ↦ subst (λ x. h.distance x ≤ n) (sym same) le
              | inr m' ↦ omega (arith, IsQueue-ge h.distance (h.distance target) w rest popped.1 m')
            ],
          )

  -- From a visited node the predecessors lead back to the source along a route.
  pub trace_loop-Route :
      (d : NodeId → ℕ) (k : ℕ) (s : Search)
      → Invariant g src all_nodes d k [] s
      → (fuel : ℕ) (v : NodeId) → In v s.visited
      → d v < fuel
      → (reversed_path : List NodeId) × (trace_loop g fuel s.predecessor src v ≡ some reversed_path)
        × Route g src v (reverse reversed_path) (d v)
  unfolding trace_loop
  trace_loop-Route d k s i zero v m lt = absurd (omega arith)
  trace_loop-Route d k s i (suc fuel) v m lt = elim (Bool-cases (v == src)) [
    | inl same ↦ (v ∷ [], rw same refl, at_source ((==_iff v src).0 same))
    | inr other ↦
        step other (λ p hp small. trace_loop-Route d k s i fuel p hp small) (i.reached v m)
  ]
    where
      at_source : v ≡ src → Route g src v (v ∷ []) (d v)
      at_source e =
          let zero_at : zero ≡ d v = sym (ap d e ∙ i.source_zero) in
          subst (Route g src v (v ∷ [])) zero_at
            (subst (λ x. Route g src x (x ∷ []) zero) (sym e) begin)

      step :
          (v == src) ≡ false
          → ((p : NodeId)
              → In p s.visited
              → d p < fuel
              → (reversed_path : List NodeId) × (trace_loop g fuel s.predecessor src p
                  ≡ some reversed_path)
                × Route g src p (reverse reversed_path) (d p))
          → Reached g src all_nodes d s v
          → (reversed_path : List NodeId) × (trace_loop g (suc fuel) s.predecessor src v
              ≡ some reversed_path)
            × Route g src v (reverse reversed_path) (d v)
      step other trace (inl e) = cc (other, (==_iff v src).1 e)
      step other trace (inr (p, e, hp, nb, q)) =
          let (before, found, r) = trace p hp (omega arith) in
          (
            v ∷ before,
            rw (other, e, found, trace_loop) refl,
            rw (reverse-cons v before)
                (subst (Route g src v (reverse before ++ v ∷ [])) (sym q) (extend r nb)),
          )

has-In : {V : Type 0} (m : Map V) (v : NodeId) → has m v ≡ true → In v (keys m)
unfolding has lookup
has-In [] v h = cc
has-In ((k, w) ∷ m) v h = elim (Bool-cases (k == v)) [
  | inl e ↦ inl ((==_iff k v).0 e)
  | inr e ↦ inr (has-In m v (rw (e, has) at h))
]

length-keys : {V : Type 0} (m : Map V) → length (keys m) ≡ length m
length-keys [] = refl
length-keys (e ∷ m) = ap suc (length-keys m)

start-Invariant :
    (g : RoutingGraph) (src : NodeId) (all_nodes : List NodeId)
    → In src all_nodes
    → Invariant g src all_nodes (λ v. 0) 0 [] (start src)
unfolding contains
start-Invariant g src all_nodes m = record {
  source_visited = inl refl;
  source_zero = refl;
  reached = reached;
  queued = λ w h. h;
  closed = λ v h. inl h;
  queue = inl (refl, tt);
  low = λ v h. omega arith;
  room = λ v h. omega (arith, unseen-cons_lt src [] all_nodes m nothing, unseen-nil all_nodes);
}
  where
    nothing : contains [] src ≡ false
    nothing = refl

    reached : (v : NodeId) → In v (src ∷ []) → Reached g src all_nodes (λ w. 0) (start src) v
    reached v (inl e) = inl (sym e)
    reached v (inr h) = absurd h

-- In a graph whose edges lead to its nodes, between two of its nodes: the code returns a path along
-- edges that no path between them is shorter than, or it returns none and there is no path.
pub find_shortest_path-IsShortest :
    (g : RoutingGraph) (source target : NodeId)
    → ((v u : NodeId) → In u (get_neighbors g v) → has_node g u ≡ true)
    → has_node g source ≡ true
    → has_node g target ≡ true
    → ((path : List NodeId) × (n : ℕ) × (find_shortest_path g source target ≡ some path)
        × Route g source target path n
        × ((other : List NodeId) (m : ℕ) → Route g source target other m → n ≤ m))
      ⊎ ((find_shortest_path g source target ≡ none)
          × ((other : List NodeId) (m : ℕ) → ¬ Route g source target other m))
unfolding find_shortest_path has_node
find_shortest_path-IsShortest g source target inside hs ht =
    let nodes = keys g.nodes in
    let m = has-In g.nodes source hs in
    let inner : (v u : NodeId) → In u (get_neighbors g v) → In u nodes =
      λ v u h. has-In g.nodes u (inside v u h) in
    let begun = start-Invariant g source nodes m in
    let (s, e, h) =
      search_loop-Stopped g source nodes inner (suc (length g.nodes)) target (λ v. 0) 0
        (start source) begun (omega (arith, begun.room source (inl refl), length-keys g.nodes)) in
    let shortest : (other : List NodeId) (n : ℕ)
        → Route g source target other n
        → In target s.visited × (h.distance target ≤ n) =
      λ other n route. Stopped-shortest g source nodes inner target s h route in
    elim (Bool-cases (contains s.visited target)) [
      | inl hit ↦
          let seen = contains→In s.visited target hit in
          let (back, found, r) =
            trace_loop-Route g source nodes inner h.distance h.level s h.invariant
              (suc (length g.nodes)) target seen
              (omega (arith, h.invariant.room target seen, length-keys g.nodes)) in
          inl (
            reverse back,
            h.distance target,
            rw (hs, ht, e, hit, found) refl,
            r,
            λ other n route. (shortest other n route).1,
          )
      | inr missed ↦ inr (
        rw (hs, ht, e, missed) refl,
        λ other n route. cc (missed, In→contains s.visited target (shortest other n route).0),
      )
    ]
