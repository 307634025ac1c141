-- ===== src/RoutingGraph/ShortestPath/Visit.antt =====
-- lib/Analysis/ArchViews/RoutingGraph.cpp, `findShortestPath`: visiting the neighbours of a node keeps
-- the invariant of the search.
use dataflow_scheduler.Prelude.{
  unseen, unseen-cons_lt, ℕ, suc, ◌+◌, ◌≤◌, ◌≡◌, ◌≢◌, refl, sym, ap, ◌∙◌, ◌⊎◌, inl, inr, true,
  false, List, [], ◌∷◌, ◌++◌, arith, ◌==◌, ==-refl, ==_ne, Bool-cases, if◌then◌else◌, length,
  length-append, contains, contains→In, In→contains, In, In-append_left, In-append_right,
  In-append_cases, subst,
}
use dataflow_scheduler.Prelude.Maps.{insert, lookup-insert}
use dataflow_scheduler.Device.{NodeId}
use dataflow_scheduler.RoutingGraph.{RoutingGraph, get_neighbors}
use dataflow_scheduler.RoutingGraph.ShortestPath.{Search, visit_neighbor, visit_neighbors}
use dataflow_scheduler.RoutingGraph.ShortestPath.Frontier.{
  IsQueue-snoc, IsQueue-agree, Reached, Closed, Invariant, Visited,
}

-- The distance with a new node at `k`.
abbrev with_node : (NodeId → ℕ) → NodeId → ℕ → NodeId → ℕ
with_node d n k v = if n == v then k else d v

with_node-new : (d : NodeId → ℕ) (n k : ℕ) → with_node d n k n ≡ k
with_node-new d n k = rw (==-refl n) refl

with_node-old : (d : NodeId → ℕ) (n k v : ℕ) → n ≢ v → with_node d n k v ≡ d v
with_node-old d n k v ne = rw (==_ne n v ne) refl

module _ (g : RoutingGraph) (src : NodeId) (all_nodes : List NodeId) where
  module _ (d : NodeId → ℕ) (k : ℕ) (open_nodes : List NodeId) (s : Search) (cur n : NodeId)
      (i : Invariant g src all_nodes d k open_nodes s) (here : In cur s.visited) (at : d cur ≡ k)
      (edge : In n (get_neighbors g cur)) (node : In n all_nodes)
      (fresh : contains s.visited n ≡ false) where
    abbrev f : NodeId → ℕ
    f = with_node d n (suc k)

    abbrev next : Search
    next = record {
      worklist = s.worklist ++ n ∷ [];
      predecessor = insert n cur s.predecessor;
      visited = n ∷ s.visited;
    }

    differ : (v : NodeId) → In v s.visited → n ≢ v
    differ v m e =
        let hit : contains s.visited n ≡ true =
          In→contains s.visited n (subst (λ x. In x s.visited) (sym e) m) in
        cc (hit, fresh)

    old : (v : NodeId) → In v s.visited → f v ≡ d v
    old v m = with_node-old d n (suc k) v (differ v m)

    drop : suc (unseen (n ∷ s.visited) all_nodes) ≤ unseen s.visited all_nodes
    drop = unseen-cons_lt n s.visited all_nodes node fresh

    next-Reached : (v : NodeId) → In v (n ∷ s.visited) → Reached g src all_nodes f next v
    next-Reached v (inl e) = subst (Reached g src all_nodes f next) e (
        inr (
          cur,
          lookup-insert n n cur s.predecessor ∙ rw (==-refl n) refl,
          inr here,
          edge,
          with_node-new d n (suc k) ∙ ap suc (sym at) ∙ ap suc (sym (old cur here)),
        ))
    next-Reached v (inr m) = go (i.reached v m)
      where
        go : Reached g src all_nodes d s v → Reached g src all_nodes f next v
        go (inl e) = inl e
        go (inr (p, e, hp, nb, q)) = inr (
          p,
          lookup-insert n v cur s.predecessor ∙ rw (==_ne n v (differ v m)) e,
          inr hp,
          nb,
          old v m ∙ q ∙ ap suc (sym (old p hp)),
        )

    next-Closed :
        (v : NodeId)
        → In v (n ∷ s.visited)
        → In v (s.worklist ++ n ∷ []) ⊎ In v open_nodes ⊎ Closed g src all_nodes f next v
    next-Closed v (inl e) = inl (In-append_right v s.worklist (n ∷ []) (inl e))
    next-Closed v (inr m) = go (i.closed v m)
      where
        go :
            In v s.worklist ⊎ In v open_nodes ⊎ Closed g src all_nodes d s v
            → In v (s.worklist ++ n ∷ []) ⊎ In v open_nodes ⊎ Closed g src all_nodes f next v
        go (inl w) = inl (In-append_left v s.worklist (n ∷ []) w)
        go (inr (inl o)) = inr (inl o)
        go (inr (inr c)) =
            inr
              (inr (λ u nb. (inr (c u nb).0, omega (arith, (c u nb).1, old u (c u nb).0, old v m))))

    next-Invariant : Invariant g src all_nodes f k open_nodes next
    next-Invariant = record {
      source_visited = inr i.source_visited;
      source_zero = old src i.source_visited ∙ i.source_zero;
      reached = next-Reached;
      queued = λ w m. queued w (In-append_cases w s.worklist (n ∷ []) m);
      closed = next-Closed;
      queue =
          IsQueue-snoc f k n s.worklist
            (IsQueue-agree d f k s.worklist (λ w m. old w (i.queued w m)) i.queue)
            (with_node-new d n (suc k));
      low = low;
      room = room;
    }
      where
        queued : (w : NodeId) → In w s.worklist ⊎ In w (n ∷ []) → In w (n ∷ s.visited)
        queued w (inl m) = inr (i.queued w m)
        queued w (inr (inl e)) = inl e
        queued w (inr (inr m)) = absurd m

        low : (v : NodeId) → In v (n ∷ s.visited) → f v ≤ suc k
        low v (inl e) = subst (λ x. f x ≤ suc k) e (omega (arith, with_node-new d n (suc k)))
        low v (inr m) = omega (arith, old v m, i.low v m)

        room :
            (v : NodeId)
            → In v (n ∷ s.visited)
            → suc (f v + unseen (n ∷ s.visited) all_nodes) ≤ length all_nodes
        room v (inl e) =
            subst (λ x. suc (f x + unseen (n ∷ s.visited) all_nodes) ≤ length all_nodes) e
              (omega (arith, with_node-new d n (suc k), i.room cur here, at, drop))
        room v (inr m) = omega (arith, old v m, i.room v m, drop)

    next-Visited : Visited g src all_nodes d k open_nodes s next (n ∷ [])
    next-Visited = record {
      distance = f;
      invariant = next-Invariant;
      agree = old;
      kept = λ v m. inr m;
      reaches = reaches;
      work = omega (arith, length-append s.worklist (n ∷ []), drop);
    }
      where
        reaches : (u : NodeId) → In u (n ∷ []) → In u (n ∷ s.visited) × (f u ≤ suc k)
        reaches u (inl e) =
            (inl e, subst (λ x. f x ≤ suc k) e (omega (arith, with_node-new d n (suc k))))
        reaches u (inr m) = absurd m

  visit_neighbor-Visited :
      (d : NodeId → ℕ) (k : ℕ) (open_nodes : List NodeId) (s : Search) (cur n : NodeId)
      → Invariant g src all_nodes d k open_nodes s
      → In cur s.visited
      → d cur ≡ k
      → In n (get_neighbors g cur)
      → In n all_nodes
      → Visited g src all_nodes d k open_nodes s (visit_neighbor cur s n) (n ∷ [])
  unfolding visit_neighbor
  visit_neighbor-Visited d k open_nodes s cur n i here at edge node =
      elim (Bool-cases (contains s.visited n)) [
        | inl e ↦ rw e (record {
          distance = d;
          invariant = i;
          agree = λ v m. refl;
          kept = λ v m. m;
          reaches = λ u m. same (contains→In s.visited n e) u m;
          work = omega arith;
        })
        | inr e ↦ rw e (next-Visited d k open_nodes s cur n i here at edge node e)
      ]
    where
      same : In n s.visited → (u : NodeId) → In u (n ∷ []) → In u s.visited × (d u ≤ suc k)
      same m u (inl e) = subst (λ x. In x s.visited × (d x ≤ suc k)) e (m, i.low n m)
      same m u (inr a) = absurd a

  -- All neighbours of a list are visited, and the invariant kept.
  pub visit_neighbors-Visited :
      (d : NodeId → ℕ) (k : ℕ) (open_nodes : List NodeId) (s : Search) (cur : NodeId)
      (ns : List NodeId)
      → Invariant g src all_nodes d k open_nodes s
      → In cur s.visited
      → d cur ≡ k
      → ((n : NodeId) → In n ns → In n (get_neighbors g cur) × In n all_nodes)
      → Visited g src all_nodes d k open_nodes s (visit_neighbors cur s ns) ns
  unfolding visit_neighbors
  visit_neighbors-Visited d k open_nodes s cur [] i here at edges = record {
    distance = d;
    invariant = i;
    agree = λ v m. refl;
    kept = λ v m. m;
    reaches = λ u m. absurd m;
    work = omega arith;
  }
  visit_neighbors-Visited d k open_nodes s cur (n ∷ ns) i here at edges =
      let one =
        visit_neighbor-Visited d k open_nodes s cur n i here at (edges n (inl refl)).0
          (edges n (inl refl)).1 in
      let rest =
        visit_neighbors-Visited one.distance k open_nodes (visit_neighbor cur s n) cur ns
          one.invariant (one.kept cur here) (one.agree cur here ∙ at) (λ u m. edges u (inr m)) in
      record {
        distance = rest.distance;
        invariant = rest.invariant;
        agree = λ v m. rest.agree v (one.kept v m) ∙ one.agree v m;
        kept = λ v m. rest.kept v (one.kept v m);
        reaches = λ u m. reaches one rest u m;
        work = omega (arith, one.work, rest.work);
      }
    where
      reaches :
          (one : Visited g src all_nodes d k open_nodes s (visit_neighbor cur s n) (n ∷ []))
          (rest : Visited g src all_nodes one.distance k open_nodes
            (visit_neighbor cur s n)
            (visit_neighbors cur (visit_neighbor cur s n) ns)
            ns)
          (u : NodeId)
          → In u (n ∷ ns)
          → In u (visit_neighbors cur (visit_neighbor cur s n) ns).visited
            × (rest.distance u ≤ suc k)
      reaches one rest u (inl e) =
          let (m, le) = one.reaches u (inl e) in (rest.kept u m, omega (arith, rest.agree u m, le))
      reaches one rest u (inr m) = rest.reaches u m
