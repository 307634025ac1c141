-- ===== src/ScratchpadConflicts/Shared.antt =====
-- lib/Conversion/backend/ScheduleIRToDFIR/KTDFToKTDFLow/ScratchpadConflicts.cpp: which pairs of stages
-- conflict.
use dataflow_scheduler.Prelude.{
  Any, ℕ, ◌≡◌, ◌↔◌, refl, sym, ap, ◌∙◌, ◌⊎◌, inl, inr, true, false, Option, none, some, List, [],
  ◌∷◌, ◌++◌, Bool-cases, Option-cases, if◌then◌else◌, In, subst,
}
use dataflow_scheduler.Prelude.Maps.{Map, lookup}
use dataflow_scheduler.Device.{Value, ResourceType}
use dataflow_scheduler.ScratchpadConflicts.{
  UnitValue, get_unit_resource_type, Link, ArchNode, ok, Conflicts, put, shares, is_none,
  read_kinds, write_kinds, consumer_conflicts, producer_conflicts, add_successors,
  compute_scratchpad_conflicts,
}
use dataflow_scheduler.ScratchpadConflicts.Kinds
use dataflow_scheduler.ScratchpadConflicts.Kinds.{
  HasSource, HasTarget, HasKind_iff, read_kinds_iff, write_kinds_iff,
}
use dataflow_scheduler.ScratchpadConflicts.Pairs.{
  bind-ok, asserted-ok, or_fail-ok, some_same, shares_iff, has_pair, has_pair-put, or_iff,
  same_pair_iff,
}

module _ (get_node : Value → Option ArchNode)
    (get_instance : ResourceType → Option (List Link)) where
  abbrev Reads : UnitValue → ResourceType → Type 0
  Reads = Kinds.Reads get_node get_instance

  abbrev Writes : UnitValue → ResourceType → Type 0
  Writes = Kinds.Writes get_node get_instance

  -- A memory of a list is read by some unit.
  abbrev ReadBy : List ResourceType → List UnitValue → Type 0
  ReadBy writes us = Any (λ u. (w : ResourceType) × In w writes × Reads u w) us

  consumer_conflicts_lem :
      (writes : List ResourceType) (producer_comp : ResourceType) (us : List UnitValue)
      (found : List ResourceType)
      → consumer_conflicts get_node get_instance writes producer_comp us ≡ ok found
      → (is_none found ≡ false) ↔ ReadBy writes us
  unfolding consumer_conflicts
  consumer_conflicts_lem writes producer_comp [] found e =
      let same : [] ≡ found = cc in
      subst (λ l. (is_none l ≡ false) ↔ ReadBy writes []) same ((λ x. cc), λ z. absurd z)
  consumer_conflicts_lem writes producer_comp (u ∷ us) found e =
      let (comp, e₁, f₁) = bind-ok _ _ found e in
      let (links, e₂, f₂) = bind-ok _ _ found f₁ in
      let (rest, e₃, f₃) = bind-ok _ _ found f₂ in
      let reads = read_kinds get_node get_instance links [] in
      let here = asserted-ok _ comp e₁ in
      let at = or_fail-ok _ links e₂ in
      let ih = consumer_conflicts_lem writes producer_comp us rest e₃ in
      elim (Bool-cases (shares writes reads)) [
        | inl b ↦
            let (w, m, n) = (shares_iff writes reads).0 b in
            let same : (producer_comp ∷ comp ∷ rest) ≡ found = cc (rw b at f₃) in
            subst (λ l. (is_none l ≡ false) ↔ ReadBy writes (u ∷ us)) same
              (
                (λ x. inl (
                  w,
                  m,
                  (
                    comp,
                    links,
                    (HasKind_iff u comp).0 here,
                    at,
                    (read_kinds_iff get_node get_instance links w).0 n,
                  ),
                )),
                λ x. refl,
              )
        | inr b ↦
            let same : rest ≡ found = cc (rw b at f₃) in
            subst (λ l. (is_none l ≡ false) ↔ ReadBy writes (u ∷ us)) same
              ((λ x. inr (ih.0 x)), λ x. ih.1 (tail comp links here at b x))
      ]
    where
      tail :
          (comp : ResourceType) (links : List Link)
          → get_unit_resource_type u ≡ some comp
          → get_instance comp ≡ some links
          → shares writes (read_kinds get_node get_instance links []) ≡ false
          → ReadBy writes (u ∷ us)
          → ReadBy writes us
      tail comp links here at b (inr x) = x
      tail comp links here at b (inl (w, m, (comp', links', here', at', n))) =
          let kind = (HasKind_iff u comp').1 here' in
          let q : comp' ≡ comp = cc in
          let r : links' ≡ links = cc in
          let read = (read_kinds_iff get_node get_instance links w).1 in
          cc (
            b,
            (shares_iff writes (read_kinds get_node get_instance links [])).1
                (w, m, read (subst (λ l. HasSource get_node get_instance l w) r n)),
          )

  -- A unit of the producer writes a memory that a unit of the consumer reads.
  abbrev pub Conflict : List UnitValue → List UnitValue → Type 0
  Conflict consumer_units producer_units =
      Any (λ p. Any (λ c. (w : ResourceType) × Writes p w × Reads c w) consumer_units)
        producer_units

  is_none-append :
      (xs ys : List ResourceType)
      → (is_none (xs ++ ys) ≡ false) ↔ ((is_none xs ≡ false) ⊎ (is_none ys ≡ false))
  is_none-append [] ys = (
    (λ x. inr x),
    λ (x : (is_none [] ≡ false) ⊎ (is_none ys ≡ false)). elim x [ inl a ↦ cc | inr b ↦ b ],
  )
  is_none-append (x ∷ xs) ys = ((λ h. inl refl), λ h. refl)

  -- What a unit with a kind writes.
  written :
      (u : UnitValue) (comp : ResourceType) (links : List Link) (us : List UnitValue)
      → get_unit_resource_type u ≡ some comp
      → get_instance comp ≡ some links
      → ReadBy (write_kinds get_node get_instance links []) us
        ↔ Any (λ c. (w : ResourceType) × Writes u w × Reads c w) us
  written u comp links [] here at = ((λ z. z), λ z. z)
  written u comp links (c ∷ us) here at = (
    λ (x : ReadBy (write_kinds get_node get_instance links []) (c ∷ us)). elim x [
      | inl h ↦ inl (
        h.0,
        (
          comp,
          links,
          (HasKind_iff u comp).0 here,
          at,
          (write_kinds_iff get_node get_instance links h.0).0 h.1,
        ),
        h.2,
      )
      | inr h ↦ inr ((written u comp links us here at).0 h)
    ],
    λ (x : Any (λ c. (w : ResourceType) × Writes u w × Reads c w) (c ∷ us)). elim x [
      | inl h ↦ inl (h.0, own h.0 h.1, h.2)
      | inr h ↦ inr ((written u comp links us here at).1 h)
    ],
  )
    where
      own : (w : ResourceType) → Writes u w → In w (write_kinds get_node get_instance links [])
      own w (comp', links', here', at', n) =
          let kind = (HasKind_iff u comp').1 here' in
          let q : comp' ≡ comp = cc in
          let r : links' ≡ links = cc in
          (write_kinds_iff get_node get_instance links w).1
            (subst (λ l. HasTarget get_node get_instance l w) r n)

  producer_conflicts_lem :
      (consumer_units us : List UnitValue) (found : List ResourceType)
      → producer_conflicts get_node get_instance consumer_units us ≡ ok found
      → (is_none found ≡ false) ↔ Conflict consumer_units us
  unfolding producer_conflicts
  producer_conflicts_lem cs [] found e =
      let same : [] ≡ found = cc in
      subst (λ l. (is_none l ≡ false) ↔ Conflict cs []) same ((λ x. cc), λ z. absurd z)
  producer_conflicts_lem cs (u ∷ us) found e = elim (Option-cases (get_unit_resource_type u)) [
    | inl q ↦
        let ih = producer_conflicts_lem cs us found (rw (q, producer_conflicts) at e) in
        (
          (λ x. inr (ih.0 x)),
          λ (x : Conflict cs (u ∷ us)). elim x [ inl h ↦ absurd (silent cs q h) | inr h ↦ ih.1 h ],
        )
    | inr (comp, q) ↦
        let (links, e₁, f₁) = bind-ok _ _ found (rw (q, producer_conflicts) at e) in
        let (here, e₂, f₂) = bind-ok _ _ found f₁ in
        let (rest, e₃, f₃) = bind-ok _ _ found f₂ in
        let at = or_fail-ok _ links e₁ in
        let first =
          consumer_conflicts_lem (write_kinds get_node get_instance links []) comp cs here e₂ in
        let ih = producer_conflicts_lem cs us rest e₃ in
        let mine = written u comp links cs q at in
        let both = is_none-append here rest in
        let same : here ++ rest ≡ found = cc in
        subst (λ l. (is_none l ≡ false) ↔ Conflict cs (u ∷ us)) same
          (
            (λ x. elim (both.0 x) [ inl h ↦ inl (mine.0 (first.0 h)) | inr h ↦ inr (ih.0 h) ]),
            λ (x : Conflict cs (u ∷ us)). elim x [
              | inl h ↦ both.1 (inl (first.1 (mine.1 h)))
              | inr h ↦ both.1 (inr (ih.1 h))
            ],
          )
  ]
    where
      silent :
          (cs : List UnitValue)
          → get_unit_resource_type u ≡ none
          → ¬ Any (λ c. (w : ResourceType) × Writes u w × Reads c w) cs
      silent [] q h = h
      silent (c ∷ cs) q (inl (w, (comp, links, here, at, n), r)) =
          cc (q, (HasKind_iff u comp).1 here)
      silent (c ∷ cs) q (inr h) = silent cs q h

  module _ (mapping : Map (List UnitValue)) where
    abbrev ConflictWith : List UnitValue → ℕ → Type 0
    ConflictWith producer_units b =
        (consumer_units : List UnitValue) × (lookup b mapping ≡ some consumer_units)
        × Conflict consumer_units producer_units

    -- What one pair adds.
    one_pair :
        (p c a b : ℕ) (producer_units consumer_units : List UnitValue) (units : List ResourceType)
        (conflicts : Conflicts)
        → lookup c mapping ≡ some consumer_units
        → (is_none units ≡ false) ↔ Conflict consumer_units producer_units
        → (has_pair (a, b) (if is_none units then conflicts else put (p, c) units conflicts) ≡ true)
          ↔ ((has_pair (a, b) conflicts ≡ true)
              ⊎ ((p ≡ a) × (c ≡ b) × ConflictWith producer_units b))
    one_pair p c a b pu cu units conflicts q found = elim (Bool-cases (is_none units)) [
      | inl e ↦ rw e (
        (λ x. inl x),
        λ (x : (has_pair (a, b) conflicts ≡ true) ⊎ ((p ≡ a) × (c ≡ b) × ConflictWith pu b)).
            elim x [
              | inl h ↦ h
              | inr (r, t, (cu', q', k)) ↦
                  let same : cu' ≡ cu = cc in cc (e, found.1 (subst (λ l. Conflict l pu) same k))
            ],
      )
      | inr e ↦
          rw (e, has_pair-put (p, c) (a, b) units conflicts)
            (
              (λ x. elim ((or_iff _ _).0 x) [
                | inl h ↦
                    let (r, t) = (same_pair_iff p c a b).0 h in
                    inr (r, t, (cu, ap (λ i. lookup i mapping) (sym t) ∙ q, found.0 e))
                | inr h ↦ inl h
              ]),
              λ (x : (has_pair (a, b) conflicts ≡ true) ⊎ ((p ≡ a) × (c ≡ b) × ConflictWith pu b)).
                  elim x [
                    | inl h ↦ (or_iff _ _).1 (inr h)
                    | inr (r, t, k) ↦ (or_iff _ _).1 (inl ((same_pair_iff p c a b).1 (r, t)))
                  ],
            )
    ]

    add_successors_lem :
        (p a b : ℕ) (producer_units : List UnitValue) (ops : List ℕ) (conflicts result : Conflicts)
        → add_successors get_node get_instance mapping p producer_units ops conflicts ≡ ok result
        → (has_pair (a, b) result ≡ true) ↔ (
            (has_pair (a, b) conflicts ≡ true)
            ⊎ ((p ≡ a) × In b ops × ConflictWith producer_units b))
    unfolding add_successors
    add_successors_lem p a b pu [] conflicts result e =
        let same : conflicts ≡ result = cc in
        subst
          (λ l.
            (has_pair (a, b) l ≡ true)
            ↔ ((has_pair (a, b) conflicts ≡ true) ⊎ ((p ≡ a) × In b [] × ConflictWith pu b)))
          same
          (
            (λ x. inl x),
            λ (x : (has_pair (a, b) conflicts ≡ true) ⊎ ((p ≡ a) × In b [] × ConflictWith pu b)).
                elim x [ inl h ↦ h | inr h ↦ absurd h.1 ],
          )
    add_successors_lem p a b pu (c ∷ ops) conflicts result e =
        let (cu, e₁, f₁) = bind-ok _ _ result e in
        let (units, e₂, f₂) = bind-ok _ _ result f₁ in
        let ih = add_successors_lem p a b pu ops _ result f₂ in
        let one =
          one_pair p c a b pu cu units conflicts (asserted-ok _ cu e₁)
            (producer_conflicts_lem cu pu units e₂) in
        (
          λ x. elim (ih.0 x) [
            | inl h ↦ elim (one.0 h) [ inl k ↦ inl k | inr k ↦ inr (k.0, inl k.1, k.2) ]
            | inr k ↦ inr (k.0, inr k.1, k.2)
          ],
          λ (x : (has_pair (a, b) conflicts ≡ true)
                ⊎ ((p ≡ a) × In b (c ∷ ops) × ConflictWith pu b)).
              elim x [
                | inl h ↦ ih.1 (inl (one.1 (inl h)))
                | inr k ↦ elim k.1 [
                  | inl q ↦ ih.1 (inl (one.1 (inr (k.0, q, k.2))))
                  | inr m ↦ ih.1 (inr (k.0, m, k.2))
                ]
              ],
        )

    -- A pair of stages is an edge of the graph between units of which one writes a memory that another reads.
    abbrev pub ConflictingEdge : Map (List ℕ) → ℕ → ℕ → Type 0
    ConflictingEdge entries a b =
        Any
          (λ e.
            (e.0 ≡ a)
            × In b e.1
            × ((units : List UnitValue) × (lookup (e.0) mapping ≡ some units)
                × ConflictWith units b))
          entries

    -- Where the computation succeeds, a pair of stages has conflicts if and only if it had some
    -- before or is an edge of the graph on which a unit of the producer writes a memory that a unit
    -- of the consumer reads: the kind of a unit has an instance with an outgoing link to a memory
    -- that it writes, or an incoming link from a memory that it reads.
    pub compute_scratchpad_conflicts_lem :
        (entries : Map (List ℕ)) (conflicts result : Conflicts) (a b : ℕ)
        → compute_scratchpad_conflicts get_node get_instance mapping entries conflicts ≡ ok result
        → (has_pair (a, b) result ≡ true)
          ↔ ((has_pair (a, b) conflicts ≡ true) ⊎ ConflictingEdge entries a b)
    unfolding compute_scratchpad_conflicts
    compute_scratchpad_conflicts_lem [] conflicts result a b e =
        let same : conflicts ≡ result = cc in
        subst (λ l. (has_pair (a, b) l ≡ true) ↔ ((has_pair (a, b) conflicts ≡ true) ⊎ ⊥)) same
          (
            (λ x. inl x),
            λ (x : (has_pair (a, b) conflicts ≡ true) ⊎ ⊥). elim x [ inl h ↦ h | inr h ↦ absurd h ],
          )
    compute_scratchpad_conflicts_lem ((p, successors) ∷ entries) conflicts result a b e =
        let (pu, e₁, f₁) = bind-ok _ _ result e in
        let (added, e₂, f₂) = bind-ok _ _ result f₁ in
        let q = asserted-ok _ pu e₁ in
        let ih = compute_scratchpad_conflicts_lem entries added result a b f₂ in
        let one = add_successors_lem p a b pu successors conflicts added e₂ in
        (
          λ x. elim (ih.0 x) [
            | inl h ↦ elim (one.0 h) [ inl k ↦ inl k | inr k ↦ inr (inl (k.0, k.1, (pu, q, k.2))) ]
            | inr k ↦ inr (inr k)
          ],
          λ (x : (has_pair (a, b) conflicts ≡ true)
                ⊎ ConflictingEdge ((p, successors) ∷ entries) a b).
              elim x [
                | inl h ↦ ih.1 (inl (one.1 (inl h)))
                | inr k ↦ elim k [
                  | inl (r, m, (units, q', w)) ↦
                      let same : units ≡ pu = some_same (lookup p mapping) units pu q' q in
                      ih.1 (inl (one.1 (inr (r, m, subst (λ u. ConflictWith u b) same w))))
                  | inr t ↦ ih.1 (inr t)
                ]
              ],
        )
