-- ===== src/StageGraph/Finish.antt =====
-- lib/Dialect/KTDF/Analysis/GlobalStageDAG.cpp, `topologicalSortStages`: how the sort starts, and what it
-- has sorted when the queue is empty.
use dataflow_scheduler.Prelude.{
  ℕ, ◌+◌, ◌≡◌, ◌↔◌, refl, sym, ap, ◌∙◌, ◌⊎◌, inl, inr, false, not, Option, none, some, List, [],
  ◌∷◌, ◌++◌, arith, ◌==◌, ==_iff, Bool-cases, List-cases, if◌then◌else◌, length, contains,
  contains→In, In→contains, In, subst, Nodup, count, append_nil,
}
use dataflow_scheduler.Prelude.Maps.{lookup, insert, lookup-insert, list_at}
use dataflow_scheduler.AddressAssignment.{pos}
use dataflow_scheduler.StageGraph.{
  StageDependencyDag, successors_of, or_zero, SortState, start_sort,
}
use dataflow_scheduler.StageGraph.Cycles.{Reach, IsOrdered, IsOrdered-closed}
use dataflow_scheduler.StageGraph.Edges.{edges_into, edges_into_none, IsDag}
use dataflow_scheduler.StageGraph.Sort.{
  In-queue_if, queue_if-old, queue_if-new, queue_if-Nodup, Progress,
}
use dataflow_scheduler.StageGraph.Rounds.{Ends}

-- An order of all the stages, each once, in which each one's successors come after it.
abbrev pub IsTopological : StageDependencyDag → List ℕ → List ℕ → Type 0
IsTopological dag stages order =
    IsOrdered (successors_of dag) order × ((v : ℕ) → In v order ↔ In v stages)

-- A list that holds all the stages, in which each one's successors come after it.
abbrev pub IsCover : StageDependencyDag → List ℕ → List ℕ → Type 0
IsCover dag stages order =
    IsOrdered (successors_of dag) order × ((v : ℕ) → In v stages → In v order)

module _ (dag : StageDependencyDag) where
  abbrev degree : ℕ → ℕ
  degree v = length (list_at v dag.predecessors)

  start_sort-degrees :
      (vs : List ℕ) (s : SortState) (v : ℕ)
      → In v vs ⊎ (or_zero (lookup v s.in_degree) ≡ pos (degree v))
      → or_zero (lookup v (start_sort dag vs s).in_degree) ≡ pos (degree v)
  unfolding start_sort
  start_sort-degrees [] s v (inl m) = absurd m
  start_sort-degrees [] s v (inr e) = e
  start_sort-degrees (u ∷ vs) s v h = start_sort-degrees vs _ v (elim (Bool-cases (u == v)) [
    | inl e ↦ inr (
        ap or_zero (lookup-insert u v (pos (degree u)) s.in_degree)
        ∙ rw e (ap (λ x. pos (degree x)) ((==_iff u v).0 e)))
    | inr e ↦ keep h e
  ])
    where
      keep :
          In v (u ∷ vs) ⊎ (or_zero (lookup v s.in_degree) ≡ pos (degree v))
          → (u == v) ≡ false
          → In v vs ⊎ (or_zero (lookup v (insert u (pos (degree u)) s.in_degree)) ≡ pos (degree v))
      keep (inl (inl q)) e = absurd (cc (e, (==_iff u v).1 q))
      keep (inl (inr m)) e = inl m
      keep (inr d) e = inr (ap or_zero (lookup-insert u v (pos (degree u)) s.in_degree) ∙ rw e d)

  start_sort-sorted :
      (vs : List ℕ) (s : SortState) → (start_sort dag vs s).sorted_stages ≡ s.sorted_stages
  unfolding start_sort
  start_sort-sorted [] s = refl
  start_sort-sorted (u ∷ vs) s = start_sort-sorted vs _

  start_sort-queued :
      (vs : List ℕ) (s : SortState) (v : ℕ)
      → In v (start_sort dag vs s).queue
      → In v s.queue ⊎ (In v vs × (degree v ≡ 0))
  unfolding start_sort
  start_sort-queued [] s v m = inl m
  start_sort-queued (u ∷ vs) s v m = elim (start_sort-queued vs _ v m) [
    | inr (n, z) ↦ inr (inr n, z)
    | inl q ↦ elim (In-queue_if (degree u == 0) s.queue u v q) [
      | inl old ↦ inl old
      | inr (e, same) ↦ inr (inl same, subst (λ x. degree x ≡ 0) same ((==_iff (degree u) 0).0 e))
    ]
  ]

  start_sort-ready :
      (vs : List ℕ) (s : SortState) (v : ℕ)
      → In v s.queue ⊎ (In v vs × (degree v ≡ 0))
      → In v (start_sort dag vs s).queue
  unfolding start_sort
  start_sort-ready [] s v (inl q) = q
  start_sort-ready [] s v (inr (m, z)) = absurd m
  start_sort-ready (u ∷ vs) s v (inl q) =
      start_sort-ready vs _ v (inl (queue_if-old (degree u == 0) s.queue u v q))
  start_sort-ready (u ∷ vs) s v (inr (inl e, z)) = start_sort-ready vs _ v (
      inl (
        subst (λ x. In x (if degree u == 0 then s.queue ++ u ∷ [] else s.queue)) e
          (queue_if-new (degree u == 0) s.queue u
            ((==_iff (degree u) 0).1 (subst (λ x. degree x ≡ 0) (sym e) z)))))
  start_sort-ready (u ∷ vs) s v (inr (inr m, z)) = start_sort-ready vs _ v (inr (m, z))

  start_sort-Nodup :
      (vs : List ℕ) (s : SortState)
      → Nodup vs
      → Nodup s.queue
      → ((v : ℕ) → In v s.queue → ¬ In v vs)
      → Nodup (start_sort dag vs s).queue
  unfolding start_sort
  start_sort-Nodup [] s h q out = q
  start_sort-Nodup (u ∷ vs) s h q out =
      start_sort-Nodup vs _ h.1
        (queue_if-Nodup (degree u == 0) s.queue u q (λ m. out u m (inl refl)))
        (λ v m n. elim (In-queue_if (degree u == 0) s.queue u v m) [
          | inl old ↦ out v old (inr n)
          | inr (e, same) ↦ h.0 (subst (λ x. In x vs) (sym same) n)
        ])

  abbrev pub empty_sort : SortState
  empty_sort = record { in_degree = []; queue = []; sorted_stages = [] }

  pub start_sort-Progress :
      (stages : List ℕ)
      → Nodup stages
      → IsDag stages dag
      → Progress (successors_of dag) stages [] stages (start_sort dag stages empty_sort)
  unfolding count
  start_sort-Progress stages different d = record {
    degrees = λ v m. start_sort-degrees stages empty_sort v (inl m) ∙ ap pos (same v);
    different = different;
    queue_different = start_sort-Nodup stages empty_sort different tt (λ v m. absurd m);
    queued = λ v m. enter v (start_sort-queued stages empty_sort v m);
    ready = λ v m z. start_sort-ready stages empty_sort v (inr (m, same v ∙ z));
    known = λ v m. m;
    placed = λ v m. inl m;
    finished = λ v m. absurd (subst (λ xs. In v xs) (start_sort-sorted stages empty_sort) m);
    counted = rw (start_sort-sorted stages empty_sort) (omega arith);
    order = λ rest o into from. rw (start_sort-sorted stages empty_sort) o;
  }
    where
      same : (v : ℕ) → degree v ≡ 0 + edges_into (successors_of dag) v stages
      same v = omega (arith, d.balanced v)

      enter :
          (v : ℕ)
          → In v [] ⊎ (In v stages × (degree v ≡ 0))
          → In v stages × (0 + edges_into (successors_of dag) v stages ≡ 0)
      enter v (inl m) = absurd m
      enter v (inr (m, z)) = (m, sym (same v) ∙ z)

  -- Among the stages left there is one that no other leads to, if an order covers them.
  find_source :
      (order left : List ℕ) (x : ℕ)
      → IsOrdered (successors_of dag) order
      → ((v : ℕ) → In v left → In v order)
      → In x left
      → (w : ℕ) × In w left × ((u : ℕ) → In u left → ¬ In w (successors_of dag u))
  find_source [] left x o cover m = absurd (cover x m)
  find_source (w ∷ order) left x o cover m = elim (Bool-cases (contains left w)) [
    | inl e ↦ (w, contains→In left w e, λ u l s. first u (cover u l) s)
    | inr e ↦ find_source order left x o.2 (λ v l. tail v e l (cover v l)) m
  ]
    where
      first : (u : ℕ) → In u (w ∷ order) → ¬ In w (successors_of dag u)
      first u (inl q) s = o.1 (o.0 w (subst (λ y. In w (successors_of dag y)) (sym q) s))
      first u (inr n) s = o.1 (IsOrdered-closed (successors_of dag) order o.2 u w n (Reach.one s))

      tail : (v : ℕ) → contains left w ≡ false → In v left → In v (w ∷ order) → In v order
      tail v e l (inl q) = absurd (cc (e, In→contains left w (subst (λ y. In y left) (sym q) l)))
      tail v e l (inr n) = n

  -- With nothing in the queue, the stages left are none or no order covers them all.
  queue_empty-left :
      (stages order left : List ℕ) (s : SortState)
      → Progress (successors_of dag) stages [] left s
      → s.queue ≡ []
      → IsCover dag stages order
      → left ≡ []
  unfolding count
  queue_empty-left stages order left s p e (o, same) = elim (List-cases left) [
    | inl q ↦ q
    | inr (x, rest, q) ↦
        let (w, m, free) =
          find_source order left x o (λ v l. same v (p.known v l))
            (subst (λ l. In x l) (sym q) (inl refl)) in
        let none_into = edges_into_none (successors_of dag) w left free in
        absurd (subst (λ l. In w l) e (p.ready w m (omega (arith, none_into))))
  ]

  length-zero : (xs : List ℕ) → length xs ≡ 0 → xs ≡ []
  length-zero [] e = refl
  length-zero (x ∷ xs) e = absurd (omega arith)

  all_sorted :
      (stages left : List ℕ) (s : SortState)
      → Progress (successors_of dag) stages [] left s
      → left ≡ []
      → IsTopological dag stages s.sorted_stages
  all_sorted stages left s p e = (
    subst (IsOrdered (successors_of dag)) (append_nil s.sorted_stages)
        (p.order [] tt (λ v l. subst (λ xs. In v xs) e l) (λ v m. absurd m)),
    λ v. (
      (λ m. (p.finished v m).2),
      λ m. elim (p.placed v m) [ inl l ↦ absurd (subst (λ xs. In v xs) e l) | inr q ↦ q ],
    ),
  )

  -- What `topologicalSortStages` answers.
  abbrev pub Sorts : List ℕ → Option (List ℕ) → Type 0
  Sorts stages none = ¬ ((order : List ℕ) × IsCover dag stages order)
  Sorts stages (some order) = IsTopological dag stages order

  pub finish-Sorts :
      (stages : List ℕ) (d : IsDag stages dag) (n : ℕ) (r : Option SortState)
      → n ≡ length stages
      → Ends dag stages d r
      → Sorts stages (elim r [
        | none ↦ none
        | some done ↦ if not (length done.sorted_stages == n) then none else some done.sorted_stages
      ])
  finish-Sorts stages d n none same h = absurd h
  finish-Sorts stages d n (some s) same (left, p, e) =
      elim (Bool-cases (length s.sorted_stages == n)) [
        | inl q ↦
            let all = (==_iff (length s.sorted_stages) n).0 q in
            rw q (all_sorted stages left s p (length-zero left (omega (arith, p.counted))))
        | inr q ↦ rw q (λ (order, o).
            let nothing : length left ≡ 0 =
              ap length (queue_empty-left stages order left s p e o) in
            cc (q, (==_iff (length s.sorted_stages) n).1 (omega (arith, p.counted))))
      ]
