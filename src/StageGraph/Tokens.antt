-- ===== src/StageGraph/Tokens.antt =====
-- lib/Dialect/KTDF/Analysis/GlobalStageDAG.cpp, `analyzeStageDependencies`: the edges of the graph are those
-- that the tokens of the stages make.
use dataflow_scheduler.Prelude.{
  ℕ, ◌≡◌, ◌↔◌, refl, sym, ap, ◌∙◌, ◌⊎◌, inl, inr, false, none, some, List, [], ◌∷◌, ◌++◌, arith,
  ◌==◌, ==_iff, Bool-cases, Option-cases, if◌then◌else◌, contains, contains→In, In→contains, In,
  In-append_left, In-append_right, In-append_cases, subst, Any,
}
use dataflow_scheduler.Prelude.Maps.{Map, lookup, insert, lookup-insert, list_at}
use dataflow_scheduler.Device.{Value}
use dataflow_scheduler.StageGraph.{
  StageOp, StageDependencyDag, init_dag, add_tokens, token_producers, add_edge, add_inputs,
  add_stages, build_dag, successors_of,
}
use dataflow_scheduler.StageGraph.Cycles.{Reach}
use dataflow_scheduler.StageGraph.Edges.{add_edge-successors, init_dag-empty}

-- Some stage of a list has a token among its outputs.
abbrev pub IsGiven : Value → List StageOp → Type 0
IsGiven token = Any (λ s. In token s.depends_out)

-- The last stage of a list that has a token among its outputs. (An SSA value has one at most.)
abbrev pub Gives : List StageOp → Value → ℕ → Type 0
Gives [] token p = ⊥
Gives (s ∷ ss) token p =
    Gives ss token p ⊎ ((s.op ≡ p) × In token s.depends_out × (¬ IsGiven token ss))

-- A stage of a list that has a token among its inputs.
abbrev pub Takes : List StageOp → Value → ℕ → Type 0
Takes ss token c = Any (λ s. (s.op ≡ c) × In token s.depends_in) ss

-- One stage waits for a token of another.
abbrev pub Feeds : List StageOp → ℕ → ℕ → Type 0
Feeds ss p c = (token : Value) × Gives ss token p × Takes ss token c

-- One step of a relation or more.
pub data Chain (R : ℕ → ℕ → Type 0) : ℕ → ℕ → Type 0 where
  step : {u v : ℕ} → R u v → Chain R u v
  steps : {u w v : ℕ} → R u w → Chain R w v → Chain R u v

lookup-add_tokens :
    (token op : ℕ) (vs : List Value) (m : Map ℕ)
    → lookup token (add_tokens op vs m) ≡ (if contains vs token then some op else lookup token m)
unfolding add_tokens contains
lookup-add_tokens token op [] m = refl
lookup-add_tokens token op (v ∷ vs) m =
    lookup-add_tokens token op vs (insert v op m) ∙ ground (arith, lookup-insert v token op m)

-- Where a token's producer is found: among the stages, or in the map before.
abbrev Found : List StageOp → Map ℕ → Value → ℕ → Type 0
Found ss m token p = Gives ss token p ⊎ ((¬ IsGiven token ss) × (lookup token m ≡ some p))

token_producers_iff :
    (ss : List StageOp) (m : Map ℕ) (token p : ℕ)
    → (lookup token (token_producers ss m) ≡ some p) ↔ Found ss m token p
unfolding token_producers
token_producers_iff [] m token p = (
  (λ e. inr ((λ z. z), e)),
  λ (x : Found [] m token p). elim x [ inl z ↦ absurd z | inr y ↦ y.1 ],
)
token_producers_iff (s ∷ ss) m token p =
    let ih = token_producers_iff ss next token p in ((λ e. down (ih.0 e)), λ x. ih.1 (up x))
  where
    next : Map ℕ
    next = add_tokens s.op s.depends_out m

    at : lookup token next ≡ (if contains s.depends_out token then some s.op else lookup token m)
    at = lookup-add_tokens token s.op s.depends_out m

    down : Found ss next token p → Found (s ∷ ss) m token p
    down (inl g) = inl (inl g)
    down (inr (unlisted, e)) = elim (Bool-cases (contains s.depends_out token)) [
      | inl hit ↦
          let same : s.op ≡ p = cc (at, e, hit) in
          inl (inr (same, contains→In s.depends_out token hit, unlisted))
      | inr miss ↦
          let old : lookup token m ≡ some p = cc (at, e, miss) in
          inr (
            (λ (g : IsGiven token (s ∷ ss)). elim g [
              | inl n ↦ cc (miss, In→contains s.depends_out token n)
              | inr n ↦ unlisted n
            ]),
            old,
          )
    ]

    up : Found (s ∷ ss) m token p → Found ss next token p
    up (inl (inl g)) = inl g
    up (inl (inr (same, n, unlisted))) =
        let hit = In→contains s.depends_out token n in inr (unlisted, at ∙ rw hit (ap some same))
    up (inr (unlisted, e)) =
        let miss : contains s.depends_out token ≡ false =
          elim (Bool-cases (contains s.depends_out token)) [
            | inl hit ↦ absurd (unlisted (inl (contains→In s.depends_out token hit)))
            | inr miss ↦ miss
          ] in
        inr ((λ g. unlisted (inr g)), at ∙ rw miss e)

-- The edges of the graph after one more.
add_edge_iff :
    (dag : StageDependencyDag) (p q u c : ℕ)
    → In c (successors_of (add_edge dag p q) u) ↔ (In c (successors_of dag u) ⊎ ((p ≡ u) × (q ≡ c)))
add_edge_iff dag p q u c = elim (Bool-cases (p == u)) [
  | inl e ↦
      let same = (==_iff p u).0 e in
      let at : successors_of (add_edge dag p q) u ≡ successors_of dag u ++ q ∷ [] =
        add_edge-successors dag p q u ∙ rw e (ap (λ x. successors_of dag x ++ q ∷ []) same) in
      subst (λ l. In c l ↔ (In c (successors_of dag u) ⊎ ((p ≡ u) × (q ≡ c)))) (sym at)
        (
          (λ m. elim (In-append_cases c (successors_of dag u) (q ∷ []) m) [
            | inl old ↦ inl old
            | inr new ↦ elim new [ inl r ↦ inr (same, r) | inr z ↦ absurd z ]
          ]),
          λ (x : In c (successors_of dag u) ⊎ ((p ≡ u) × (q ≡ c))). elim x [
            | inl old ↦ In-append_left c (successors_of dag u) (q ∷ []) old
            | inr r ↦ In-append_right c (successors_of dag u) (q ∷ []) (inl r.1)
          ],
        )
  | inr e ↦
      let at : successors_of (add_edge dag p q) u ≡ successors_of dag u =
        add_edge-successors dag p q u ∙ rw e refl in
      subst (λ l. In c l ↔ (In c (successors_of dag u) ⊎ ((p ≡ u) × (q ≡ c)))) (sym at)
        (
          (λ m. inl m),
          λ (x : In c (successors_of dag u) ⊎ ((p ≡ u) × (q ≡ c))). elim x [
            | inl old ↦ old
            | inr r ↦ absurd (cc (e, (==_iff p u).1 r.0))
          ],
        )
]

module _ (producers : Map ℕ) where
  add_inputs_iff :
      (op : ℕ) (vs : List Value) (dag : StageDependencyDag) (u c : ℕ)
      → In c (successors_of (add_inputs producers op vs dag) u) ↔ (
          In c (successors_of dag u)
          ⊎ ((op ≡ c) × ((token : Value) × In token vs × (lookup token producers ≡ some u))))
  unfolding add_inputs
  add_inputs_iff op [] dag u c = (
    (λ m. inl m),
    λ (x : In c (successors_of dag u)
          ⊎ ((op ≡ c) × ((token : Value) × In token [] × (lookup token producers ≡ some u)))).
        elim x [ inl m ↦ m | inr h ↦ absurd h.1.1 ],
  )
  add_inputs_iff op (v ∷ vs) dag u c = elim (Option-cases (lookup v producers)) [
    | inl e ↦
        let ih = add_inputs_iff op vs dag u c in
        rw (e, add_inputs) ((λ m. wider (ih.0 m)), λ x. ih.1 (skip e x))
    | inr (p, e) ↦
        let ih = add_inputs_iff op vs (add_edge dag p op) u c in
        let one = add_edge_iff dag p op u c in
        rw (e, add_inputs)
          (
            (λ m. elim (ih.0 m) [
              | inl n ↦ elim (one.0 n) [
                | inl old ↦ inl old
                | inr (r, q) ↦ inr (q, (v, inl refl, e ∙ ap some r))
              ]
              | inr h ↦ wider (inr h)
            ]),
            λ x. elim (split x) [
              | inl old ↦ ih.1 (inl (one.1 (inl old)))
              | inr h ↦ elim h [
                | inl (q, f) ↦ let r : p ≡ u = cc (e, f) in ih.1 (inl (one.1 (inr (r, q))))
                | inr k ↦ ih.1 (inr k)
              ]
            ],
          )
  ]
    where
      Fed : List Value → Type 0
      Fed ts = (op ≡ c) × ((token : Value) × In token ts × (lookup token producers ≡ some u))

      wider : In c (successors_of dag u) ⊎ Fed vs → In c (successors_of dag u) ⊎ Fed (v ∷ vs)
      wider (inl m) = inl m
      wider (inr (q, (t, m, f))) = inr (q, (t, inr m, f))

      split :
          In c (successors_of dag u) ⊎ Fed (v ∷ vs)
          → In c (successors_of dag u) ⊎ (((op ≡ c) × (lookup v producers ≡ some u)) ⊎ Fed vs)
      split (inl m) = inl m
      split (inr (q, (t, inl r, f))) = inr (inl (q, ap (λ i. lookup i producers) r ∙ f))
      split (inr (q, (t, inr m, f))) = inr (inr (q, (t, m, f)))

      skip :
          lookup v producers ≡ none
          → In c (successors_of dag u) ⊎ Fed (v ∷ vs)
          → In c (successors_of dag u) ⊎ Fed vs
      skip e x = elim (split x) [
        | inl m ↦ inl m
        | inr h ↦ elim h [ inl (q, f) ↦ absurd (cc (e, f)) | inr k ↦ inr k ]
      ]

  add_stages_iff :
      (ss : List StageOp) (dag : StageDependencyDag) (u c : ℕ)
      → In c (successors_of (add_stages producers ss dag) u) ↔ (
          In c (successors_of dag u)
          ⊎ ((token : Value) × (lookup token producers ≡ some u) × Takes ss token c))
  unfolding add_stages
  add_stages_iff [] dag u c = (
    (λ m. inl m),
    λ (x : In c (successors_of dag u)
          ⊎ ((token : Value) × (lookup token producers ≡ some u) × Takes [] token c)).
        elim x [ inl m ↦ m | inr h ↦ absurd h.2 ],
  )
  add_stages_iff (s ∷ ss) dag u c =
      let ih = add_stages_iff ss (add_inputs producers s.op s.depends_in dag) u c in
      let one = add_inputs_iff s.op s.depends_in dag u c in
      (
        (λ m. elim (ih.0 m) [
          | inl n ↦ elim (one.0 n) [
            | inl old ↦ inl old
            | inr (q, (t, k, f)) ↦ inr (t, f, inl (q, k))
          ]
          | inr (t, f, k) ↦ inr (t, f, inr k)
        ]),
        λ (x : In c (successors_of dag u)
              ⊎ ((token : Value) × (lookup token producers ≡ some u) × Takes (s ∷ ss) token c)).
            elim x [
              | inl old ↦ ih.1 (inl (one.1 (inl old)))
              | inr (t, f, k) ↦ elim k [
                | inl (q, n) ↦ ih.1 (inl (one.1 (inr (q, (t, n, f)))))
                | inr n ↦ ih.1 (inr (t, f, n))
              ]
            ],
      )

-- The graph has an edge exactly where one stage feeds another.
pub build_dag-Feeds :
    (stages : List StageOp) (u c : ℕ) → In c (successors_of (build_dag stages) u) ↔ Feeds stages u c
unfolding build_dag list_at lookup
build_dag-Feeds stages u c =
    let edges = add_stages_iff (token_producers stages []) stages (init_dag start stages) u c in
    let none_yet = (init_dag-empty stages start (λ v. refl) (λ v. refl)).1 u in
    (
      (λ m. elim (edges.0 m) [
        | inl old ↦ absurd (subst (λ l. In c l) none_yet old)
        | inr (t, f, k) ↦ (t, found t ((token_producers_iff stages [] t u).0 f), k)
      ]),
      λ (t, g, k). edges.1 (inr (t, (token_producers_iff stages [] t u).1 (inl g), k)),
    )
  where
    start : StageDependencyDag
    start = record { predecessors = []; successors = [] }

    found : (t : Value) → Found stages [] t u → Gives stages t u
    found t (inl g) = g
    found t (inr (unlisted, e)) = cc

-- Paths along edges are chains of stages that feed each other.
module _ (stages : List StageOp) where
  pub Reach-Chain :
      {u v : ℕ} → Reach (successors_of (build_dag stages)) u v → Chain (Feeds stages) u v
  Reach-Chain {u = u} {v = v} (Reach.one e) = step ((build_dag-Feeds stages u v).0 e)
  Reach-Chain {u = u} (Reach.more {w = w} e r) =
      steps ((build_dag-Feeds stages u w).0 e) (Reach-Chain r)

  pub Chain-Reach :
      {u v : ℕ} → Chain (Feeds stages) u v → Reach (successors_of (build_dag stages)) u v
  Chain-Reach {u = u} {v = v} (step f) = Reach.one ((build_dag-Feeds stages u v).1 f)
  Chain-Reach {u = u} (steps {w = w} f r) =
      Reach.more ((build_dag-Feeds stages u w).1 f) (Chain-Reach r)
