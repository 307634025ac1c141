-- ===== src/StageGraph/Rounds.antt =====
-- lib/Dialect/KTDF/Analysis/GlobalStageDAG.cpp, `topologicalSortStages`: the start, one round and the
-- rounds of the loop keep what holds of its state.
use dataflow_scheduler.Prelude.{
  ℕ, zero, suc, ◌<◌, ◌≡◌, ◌≢◌, refl, sym, ap, ◌∙◌, ◌⊎◌, inl, inr, true, Option, none, some, List,
  [], ◌∷◌, ◌++◌, arith, ◌==◌, ==_iff, ==-refl, ==_ne, Bool-cases, List-cases, if◌then◌else◌, length,
  In, subst, count, length-remove, remove,
}
use dataflow_scheduler.Prelude.Maps.{lookup, insert, lookup-insert}
use dataflow_scheduler.AddressAssignment.{ℤ, pos}
use dataflow_scheduler.StageGraph.{
  StageDependencyDag, successors_of, or_zero, decrement, is_zero, SortState, release_successors,
  sort_loop,
}
use dataflow_scheduler.StageGraph.Edges.{IsDag}
use dataflow_scheduler.StageGraph.Sort.{
  In-queue_if, queue_if-old, queue_if-new, queue_if-Nodup, is_zero_iff, pending, Progress,
  pop-Progress,
}

module _ (succ : ℕ → List ℕ) (stages : List ℕ) where
  -- The degree that a successor gets.
  released_degree :
      (left ss : List ℕ) (u : ℕ) (s : SortState)
      → or_zero (lookup u s.in_degree) ≡ pos (pending succ (u ∷ ss) left u)
      → decrement (or_zero (lookup u s.in_degree)) ≡ pos (pending succ ss left u)
  unfolding count
  released_degree left ss u s e =
      let more : pending succ (u ∷ ss) left u ≡ suc (pending succ ss left u) =
        ground (arith, ==-refl u) in
      rw (e, more) refl

  pending-other :
      (left ss : List ℕ) (u v : ℕ) → u ≢ v → pending succ (u ∷ ss) left v ≡ pending succ ss left v
  unfolding count
  pending-other left ss u v ne = rw (==_ne u v ne) refl

  pending-same : (left ss : List ℕ) (u : ℕ) → pending succ (u ∷ ss) left u ≢ 0
  unfolding count
  pending-same left ss u e =
      let more : pending succ (u ∷ ss) left u ≡ suc (pending succ ss left u) =
        ground (arith, ==-refl u) in
      absurd (omega arith)

  release_successors-Progress :
      (left ss : List ℕ) (s : SortState)
      → ((u : ℕ) → In u ss → In u stages)
      → Progress succ stages ss left s
      → Progress succ stages [] left (release_successors ss s)
  unfolding release_successors
  release_successors-Progress left [] s all p = p
  release_successors-Progress left (u ∷ ss) s all p =
      release_successors-Progress left ss _ (λ v m. all v (inr m))
        (record {
          degrees = λ v m. degree v m;
          different = p.different;
          queue_different =
              queue_if-Nodup (is_zero new) s.queue u p.queue_different
                (λ m. pending-same left ss u (p.queued u m).1);
          queued = λ v m. enter v (In-queue_if (is_zero new) s.queue u v m);
          ready = λ v m z. leave v m z;
          known = p.known;
          placed = p.placed;
          finished = λ v m. finish v m;
          counted = p.counted;
          order = p.order;
        })
    where
      new : ℤ
      new = decrement (or_zero (lookup u s.in_degree))

      here : In u stages
      here = all u (inl refl)

      new_degree : new ≡ pos (pending succ ss left u)
      new_degree = released_degree left ss u s (p.degrees u here)

      degree :
          (v : ℕ)
          → In v stages
          → or_zero (lookup v (insert u new s.in_degree)) ≡ pos (pending succ ss left v)
      degree v m = rw (lookup-insert u v new s.in_degree) (elim (Bool-cases (u == v)) [
        | inl e ↦
            rw e (subst (λ y. new ≡ pos (pending succ ss left y)) ((==_iff u v).0 e) new_degree)
        | inr e ↦
            rw e
              (p.degrees v m ∙ ap pos (pending-other left ss u v (λ q. cc (e, (==_iff u v).1 q))))
      ])

      -- A successor whose edge is pending is not sorted.
      unsorted : In u left ⊎ In u s.sorted_stages → In u left
      unsorted (inl l) = l
      unsorted (inr done) = absurd (pending-same left ss u (p.finished u done).1)

      old_pending : (v : ℕ) → pending succ (u ∷ ss) left v ≡ 0 → pending succ ss left v ≡ 0
      old_pending v z = elim (Bool-cases (u == v)) [
        | inl e ↦ absurd (
            pending-same left ss u
              (subst (λ y. pending succ (u ∷ ss) left y ≡ 0) (sym ((==_iff u v).0 e)) z))
        | inr e ↦ sym (pending-other left ss u v (λ q. cc (e, (==_iff u v).1 q))) ∙ z
      ]

      enter :
          (v : ℕ)
          → In v s.queue ⊎ ((is_zero new ≡ true) × (u ≡ v))
          → In v left × (pending succ ss left v ≡ 0)
      enter v (inl m) = let (l, z) = p.queued v m in (l, old_pending v z)
      enter v (inr (e, q)) =
          subst (λ y. In y left × (pending succ ss left y ≡ 0)) q
            (
              unsorted (p.placed u here),
              (is_zero_iff (pending succ ss left u)).0 (ap is_zero (sym new_degree) ∙ e),
            )

      leave :
          (v : ℕ)
          → In v left
          → pending succ ss left v ≡ 0
          → In v (if is_zero new then s.queue ++ u ∷ [] else s.queue)
      leave v m z = elim (Bool-cases (u == v)) [
        | inl e ↦
            let q = (==_iff u v).0 e in
            subst (λ y. In y (if is_zero new then s.queue ++ u ∷ [] else s.queue)) q
              (queue_if-new (is_zero new) s.queue u (
                ap is_zero new_degree
                ∙ (is_zero_iff (pending succ ss left u)).1
                    (subst (λ y. pending succ ss left y ≡ 0) (sym q) z)))
        | inr e ↦
            queue_if-old (is_zero new) s.queue u v
              (p.ready v m (pending-other left ss u v (λ q. cc (e, (==_iff u v).1 q)) ∙ z))
      ]

      finish :
          (v : ℕ)
          → In v s.sorted_stages
          → (¬ In v left) × (pending succ ss left v ≡ 0) × In v stages
      finish v m = let (out, z, k) = p.finished v m in (out, old_pending v z, k)

module _ (dag : StageDependencyDag) (stages : List ℕ) (d : IsDag stages dag) where
  abbrev succ : ℕ → List ℕ
  succ = successors_of dag

  -- What the loop ends with, some stages left with an empty queue.
  abbrev pub Ends : Option SortState → Type 0
  Ends none = ⊥
  Ends (some s) = (left : List ℕ) × Progress (successors_of dag) stages [] left s × (s.queue ≡ [])

  pub sort_loop-Ends :
      (fuel : ℕ) (left : List ℕ) (s : SortState)
      → Progress (successors_of dag) stages [] left s
      → length left < fuel
      → Ends (sort_loop dag fuel s)
  unfolding sort_loop
  sort_loop-Ends zero left s p lt = absurd (omega arith)
  sort_loop-Ends (suc fuel) left s p lt = elim (List-cases s.queue) [
    | inl e ↦ rw (e, sort_loop) (left, p, e)
    | inr (c, rest, e) ↦
        let here = (p.queued c (subst (λ q. In c q) (sym e) (inl refl))).0 in
        let popped = pop-Progress succ stages (λ v u m. (d.inside v u m).0) left s c rest p e in
        rw (e, sort_loop)
          (sort_loop-Ends fuel (remove c left) _
            (release_successors-Progress succ stages (remove c left) (succ c) _
              (λ u m. (d.inside c u m).0) popped)
            (omega (arith, length-remove c left p.different here)))
  ]
