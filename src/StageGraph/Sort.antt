-- ===== src/StageGraph/Sort.antt =====
-- lib/Dialect/KTDF/Analysis/GlobalStageDAG.cpp, `topologicalSortStages`: what holds of the loop while the
-- stages `left` are not sorted yet and the edges to `released` are still to be counted down.
use dataflow_scheduler.Prelude.{
  ℕ, zero, suc, ◌+◌, ◌≡◌, ◌≢◌, ◌↔◌, refl, sym, ap, ◌∙◌, ◌⊎◌, inl, inr, Bool, true, false, List, [],
  ◌∷◌, ◌++◌, arith, ◌==◌, ==_iff, ==_ne, Bool-cases, if◌then◌else◌, length, length-append,
  append_assoc, In, In-append_left, In-append_right, In-append_cases, subst, Nodup, Nodup-snoc,
  count, count_pos, remove, In-remove, remove-In, Nodup-remove, remove_absent, length-remove,
}
use dataflow_scheduler.Prelude.Maps.{lookup}
use dataflow_scheduler.AddressAssignment.{pos}
use dataflow_scheduler.StageGraph.{or_zero, is_zero, SortState}
use dataflow_scheduler.StageGraph.Cycles.{IsOrdered}
use dataflow_scheduler.StageGraph.Edges.{edges_into}

-- A stage that enters the queue under a test.
pub In-queue_if :
    (b : Bool) (q : List ℕ) (u v : ℕ)
    → In v (if b then q ++ u ∷ [] else q)
    → In v q ⊎ ((b ≡ true) × (u ≡ v))
In-queue_if true q u v m = elim (In-append_cases v q (u ∷ []) m) [
  | inl old ↦ inl old
  | inr new ↦ elim new [ inl e ↦ inr (refl, e) | inr z ↦ absurd z ]
]
In-queue_if false q u v m = inl m

pub queue_if-old : (b : Bool) (q : List ℕ) (u v : ℕ) → In v q → In v (if b then q ++ u ∷ [] else q)
queue_if-old true q u v m = In-append_left v q (u ∷ []) m
queue_if-old false q u v m = m

pub queue_if-new : (b : Bool) (q : List ℕ) (u : ℕ) → b ≡ true → In u (if b then q ++ u ∷ [] else q)
queue_if-new true q u h = In-append_right u q (u ∷ []) (inl refl)
queue_if-new false q u h = cc

pub queue_if-Nodup :
    (b : Bool) (q : List ℕ) (u : ℕ) → Nodup q → ¬ In u q → Nodup (if b then q ++ u ∷ [] else q)
queue_if-Nodup true q u h out = Nodup-snoc q u h out
queue_if-Nodup false q u h out = h

pub is_zero_iff : (n : ℕ) → (is_zero (pos n) ≡ true) ↔ (n ≡ 0)
is_zero_iff zero = ((λ e. refl), λ e. refl)
is_zero_iff (suc n) = ((λ e. cc), λ e. absurd (omega arith))

module _ (succ : ℕ → List ℕ) where
  edges_into-remove :
      (c v : ℕ) (us : List ℕ)
      → Nodup us
      → In c us
      → count v (succ c) + edges_into succ v (remove c us) ≡ edges_into succ v us
  unfolding edges_into remove
  edges_into-remove c v [] h m = absurd m
  edges_into-remove c v (u ∷ us) h (inl e) =
      let hit : (u == c) ≡ true = (==_iff u c).1 e in
      let out : ¬ In c us = λ m. h.0 (subst (λ y. In y us) (sym e) m) in
      rw (hit, remove_absent c us out, e) refl
  edges_into-remove c v (u ∷ us) h (inr m) =
      let miss : (u == c) ≡ false = ==_ne u c (λ e. h.0 (subst (λ y. In y us) (sym e) m)) in
      rw (miss, edges_into) (omega (arith, edges_into-remove c v us h.1 m))

  pub edges_into-zero :
      (u v : ℕ) (us : List ℕ) → In u us → edges_into succ v us ≡ 0 → ¬ In v (succ u)
  unfolding edges_into
  edges_into-zero u v [] m e h = m
  edges_into-zero u v (x ∷ us) (inl q) e h =
      let positive = count_pos v (succ x) (subst (λ y. In v (succ y)) (sym q) h) in
      absurd (omega arith)
  edges_into-zero u v (x ∷ us) (inr m) e h = edges_into-zero u v us m (omega arith) h

  -- The edges into a stage that are not counted down yet.
  abbrev pub pending : List ℕ → List ℕ → ℕ → ℕ
  pending released left v = count v released + edges_into succ v left

  pub record Progress (stages : List ℕ) (released left : List ℕ) (s : SortState) : Type 0 where
    pub degrees :
        (v : ℕ) → In v stages → or_zero (lookup v s.in_degree) ≡ pos (pending released left v)
    pub different : Nodup left
    pub queue_different : Nodup s.queue
    pub queued : (v : ℕ) → In v s.queue → In v left × (pending released left v ≡ 0)
    pub ready : (v : ℕ) → In v left → pending released left v ≡ 0 → In v s.queue
    pub known : (v : ℕ) → In v left → In v stages
    pub placed : (v : ℕ) → In v stages → In v left ⊎ In v s.sorted_stages
    pub finished :
        (v : ℕ) → In v s.sorted_stages → (¬ In v left) × (pending released left v ≡ 0) × In v stages
    pub counted : length s.sorted_stages + length left ≡ length stages
    pub order :
        (rest : List ℕ)
        → IsOrdered succ rest
        → ((v : ℕ) → In v left → In v rest)
        → ((v : ℕ) → In v rest → In v left)
        → IsOrdered succ (s.sorted_stages ++ rest)

  module _ (stages : List ℕ) (inside : (v u : ℕ) → In u (succ v) → In u stages) where
    -- The first stage of the queue leaves, with all its edges still to be counted down.
    pub pop-Progress :
        (left : List ℕ) (s : SortState) (c : ℕ) (rest : List ℕ)
        → Progress stages [] left s
        → s.queue ≡ c ∷ rest
        → Progress stages
            (succ c)
            (remove c left)
            (record s { queue = rest; sorted_stages = s.sorted_stages ++ c ∷ [] })
    unfolding count
    pop-Progress left s c rest p e = record {
      degrees = λ v m. p.degrees v m ∙ ap pos (sym (same v));
      different = Nodup-remove c left p.different;
      queue_different = queue.1;
      queued = λ v m.
          let (l, z) = p.queued v (in_queue v (inr m)) in
          (In-remove c v left l (λ q. queue.0 (subst (λ y. In y rest) (sym q) m)), same v ∙ z);
      ready = λ v m z.
          let (l, ne) = remove-In c v left m in
          tail v ne (subst (λ q. In v q) e (p.ready v l (sym (same v) ∙ z)));
      known = λ v m. p.known v (remove-In c v left m).0;
      placed = λ v m. place v (p.placed v m);
      finished = λ v m. finish v (In-append_cases v s.sorted_stages (c ∷ []) m);
      counted = omega (
        arith,
        p.counted,
        length-append s.sorted_stages (c ∷ []),
        length-remove c left p.different here,
      );
      order = λ ts o into from.
          subst (IsOrdered succ) (sym (append_assoc s.sorted_stages (c ∷ []) ts)) (
            p.order (c ∷ ts)
              ((λ u m. into u (next u m)), (λ m. (remove-In c c left (from c m)).1 refl), o)
              (λ v m. cover ts v into m) (λ v m. back ts v from m));
    }
      where
        queue : Nodup (c ∷ rest)
        queue = subst Nodup e p.queue_different

        in_queue : (v : ℕ) → In v (c ∷ rest) → In v s.queue
        in_queue v m = subst (λ q. In v q) (sym e) m

        here : In c left
        here = (p.queued c (in_queue c (inl refl))).0

        same : (v : ℕ) → pending (succ c) (remove c left) v ≡ pending [] left v
        same v = omega (arith, edges_into-remove c v left p.different here)

        source : edges_into succ c left ≡ 0
        source = omega (arith, (p.queued c (in_queue c (inl refl))).1)

        tail : (v : ℕ) → c ≢ v → In v (c ∷ rest) → In v rest
        tail v ne (inl q) = absurd (ne q)
        tail v ne (inr m) = m

        place :
            (v : ℕ)
            → In v left ⊎ In v s.sorted_stages
            → In v (remove c left) ⊎ In v (s.sorted_stages ++ c ∷ [])
        place v (inl m) = elim (Bool-cases (c == v)) [
          | inl q ↦ inr (In-append_right v s.sorted_stages (c ∷ []) (inl ((==_iff c v).0 q)))
          | inr q ↦ inl (In-remove c v left m (λ r. cc (q, (==_iff c v).1 r)))
        ]
        place v (inr m) = inr (In-append_left v s.sorted_stages (c ∷ []) m)

        finish :
            (v : ℕ)
            → In v s.sorted_stages ⊎ In v (c ∷ [])
            → (¬ In v (remove c left)) × (pending (succ c) (remove c left) v ≡ 0) × In v stages
        finish v (inl m) =
            let (out, z, k) = p.finished v m in ((λ n. out (remove-In c v left n).0), same v ∙ z, k)
        finish v (inr (inl q)) = (
          λ n. (remove-In c v left n).1 q,
          subst (λ y. pending (succ c) (remove c left) y ≡ 0) q
              (same c ∙ (p.queued c (in_queue c (inl refl))).1),
          subst (λ y. In y stages) q (p.known c here),
        )
        finish v (inr (inr z)) = absurd z

        -- A successor of the stage is not sorted yet.
        next : (u : ℕ) → In u (succ c) → In u (remove c left)
        next u m = elim (p.placed u (inside c u m)) [
          | inl l ↦
              In-remove c u left l
                (λ q. edges_into-zero c c left here source (subst (λ y. In y (succ c)) (sym q) m))
          | inr done ↦
              absurd (edges_into-zero c u left here (omega (arith, (p.finished u done).1)) m)
        ]

        cover :
            (ts : List ℕ) (v : ℕ)
            → ((v : ℕ) → In v (remove c left) → In v ts)
            → In v left
            → In v (c ∷ ts)
        cover ts v into m = elim (Bool-cases (c == v)) [
          | inl q ↦ inl ((==_iff c v).0 q)
          | inr q ↦ inr (into v (In-remove c v left m (λ r. cc (q, (==_iff c v).1 r))))
        ]

        back :
            (ts : List ℕ) (v : ℕ)
            → ((v : ℕ) → In v ts → In v (remove c left))
            → In v (c ∷ ts)
            → In v left
        back ts v from (inl q) = subst (λ y. In y left) q here
        back ts v from (inr m) = (remove-In c v left (from v m)).0
