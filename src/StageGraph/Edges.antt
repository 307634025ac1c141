-- ===== src/StageGraph/Edges.antt =====
-- lib/Dialect/KTDF/Analysis/GlobalStageDAG.cpp, `analyzeStageDependencies`: the predecessors and the
-- successors are two views of the same edges, all between the stages given.
use dataflow_scheduler.Prelude.{
  ℕ, ◌+◌, ◌≡◌, ◌≢◌, refl, sym, ◌∙◌, inl, inr, false, some, List, [], ◌∷◌, ◌++◌, arith, ◌==◌, ==_iff,
  ==-refl, ==_ne, Bool-cases, Option-cases, if◌then◌else◌, length, length-append, In,
  In-append_cases, subst, Nodup, count, count-append, count_zero,
}
use dataflow_scheduler.Prelude.Maps.{Map, lookup, insert, lookup-insert, list_at, list_at-insert}
use dataflow_scheduler.Device.{Value}
use dataflow_scheduler.StageGraph.{
  StageOp, StageDependencyDag, ops_of, init_dag, add_tokens, token_producers, add_edge, add_inputs,
  add_stages, build_dag, successors_of,
}

-- How many edges lead from the nodes of a list to `v`.
unfoldable pub edges_into : (ℕ → List ℕ) → ℕ → List ℕ → ℕ
edges_into succ v [] = 0
edges_into succ v (u ∷ us) = count v (succ u) + edges_into succ v us

pub record IsDag (stages : List ℕ) (dag : StageDependencyDag) : Type 0 where
  pub balanced :
      (v : ℕ) → length (list_at v dag.predecessors) ≡ edges_into (successors_of dag) v stages
  pub inside : (v u : ℕ) → In u (successors_of dag v) → In u stages × In v stages

edges_into-same :
    (f g : ℕ → List ℕ) (v : ℕ) (us : List ℕ)
    → ((u : ℕ) → In u us → f u ≡ g u)
    → edges_into f v us ≡ edges_into g v us
unfolding edges_into
edges_into-same f g v [] h = refl
edges_into-same f g v (u ∷ us) h =
    rw (h u (inl refl), edges_into-same f g v us (λ w m. h w (inr m))) refl

module _ (dag : StageDependencyDag) (p c : ℕ) where
  pub add_edge-successors :
      (u : ℕ)
      → successors_of (add_edge dag p c) u
        ≡ (if p == u then successors_of dag p ++ c ∷ [] else successors_of dag u)
  unfolding add_edge
  add_edge-successors u = list_at-insert p u (list_at p dag.successors ++ c ∷ []) dag.successors

  add_edge-other : (u : ℕ) → p ≢ u → successors_of (add_edge dag p c) u ≡ successors_of dag u
  add_edge-other u ne = add_edge-successors u ∙ rw (==_ne p u ne) refl

  -- One more edge into `c`.
  add_edge-edges_into :
      (v : ℕ) (us : List ℕ)
      → Nodup us
      → In p us
      → edges_into (successors_of (add_edge dag p c)) v us
        ≡ edges_into (successors_of dag) v us + count v (c ∷ [])
  unfolding edges_into
  add_edge-edges_into v [] h m = absurd m
  add_edge-edges_into v (u ∷ us) h (inl e) =
      let here : successors_of (add_edge dag p c) u ≡ successors_of dag u ++ c ∷ [] =
        add_edge-successors u ∙ rw (e, ==-refl p) refl in
      let rest =
        edges_into-same (successors_of (add_edge dag p c)) (successors_of dag) v us
          (λ w m. add_edge-other w (λ q. h.0 (subst (λ y. In y us) (sym (e ∙ q)) m))) in
      rw here (omega (arith, count-append v (successors_of dag u) (c ∷ []), rest))
  add_edge-edges_into v (u ∷ us) h (inr m) =
      let here = add_edge-other u (λ q. h.0 (subst (λ y. In y us) q m)) in
      rw here (omega (arith, add_edge-edges_into v us h.1 m))

  add_edge-IsDag :
      (stages : List ℕ)
      → Nodup stages
      → In p stages
      → In c stages
      → IsDag stages dag
      → IsDag stages (add_edge dag p c)
  unfolding add_edge count
  add_edge-IsDag stages h hp hc d = record { balanced = balanced; inside = inside }
    where
      other : {v : ℕ} → (c == v) ≡ false → ¬ In v (c ∷ [])
      other e (inl q) = cc (e, (==_iff c _).1 q)
      other e (inr z) = z

      balanced :
          (v : ℕ)
          → length (list_at v (add_edge dag p c).predecessors)
            ≡ edges_into (successors_of (add_edge dag p c)) v stages
      balanced v =
          let into = add_edge-edges_into v stages h hp in
          let at = list_at-insert c v (list_at c dag.predecessors ++ p ∷ []) dag.predecessors in
          elim (Bool-cases (c == v)) [
            | inl e ↦
                let q = (==_iff c v).0 e in
                rw (at, e, into)
                  (rw q (
                    grind
                      (arith, length-append (list_at v dag.predecessors) (p ∷ []), d.balanced v)))
            | inr e ↦ rw (at, into) (grind (arith, count_zero v (c ∷ []) (other e), d.balanced v))
          ]

      inside : (v u : ℕ) → In u (successors_of (add_edge dag p c) v) → In u stages × In v stages
      inside v u m = elim (Bool-cases (p == v)) [
        | inl e ↦
            let q = (==_iff p v).0 e in
            let old = subst (λ xs. In u xs) (add_edge-successors v ∙ rw e refl) m in
            elim (In-append_cases u (successors_of dag p) (c ∷ []) old) [
              | inl before ↦ ((d.inside p u before).0, subst (λ x. In x stages) q hp)
              | inr new ↦ elim new [
                | inl same ↦ (subst (λ x. In x stages) same hc, subst (λ x. In x stages) q hp)
                | inr z ↦ absurd z
              ]
            ]
        | inr e ↦ d.inside v u (subst (λ xs. In u xs) (add_edge-successors v ∙ rw e refl) m)
      ]

pub init_dag-empty :
    (ss : List StageOp) (dag : StageDependencyDag)
    → ((v : ℕ) → list_at v dag.predecessors ≡ [])
    → ((v : ℕ) → list_at v dag.successors ≡ [])
    → ((v : ℕ) → list_at v (init_dag dag ss).predecessors ≡ [])
      × ((v : ℕ) → list_at v (init_dag dag ss).successors ≡ [])
unfolding init_dag
init_dag-empty [] dag hp hs = (hp, hs)
init_dag-empty (s ∷ ss) dag hp hs =
    init_dag-empty ss _ (λ v. list_at-insert s.op v [] dag.predecessors ∙ ground (arith, hp v))
      (λ v. list_at-insert s.op v [] dag.successors ∙ ground (arith, hs v))

-- The producers that the map names are stages.
abbrev Produces : List ℕ → Map ℕ → Type 0
Produces stages m = (token p : ℕ) → lookup token m ≡ some p → In p stages

add_tokens-Produces :
    (stages : List ℕ) (op : ℕ) (vs : List Value) (m : Map ℕ)
    → In op stages
    → Produces stages m
    → Produces stages (add_tokens op vs m)
unfolding add_tokens
add_tokens-Produces stages op [] m h k = k
add_tokens-Produces stages op (v ∷ vs) m h k =
    add_tokens-Produces stages op vs (insert v op m) h
      (λ token p e. step token p (sym (lookup-insert v token op m) ∙ e))
  where
    step : (token p : ℕ) → (if v == token then some op else lookup token m) ≡ some p → In p stages
    step token p e = elim (Bool-cases (v == token)) [
      | inl q ↦ let same : op ≡ p = cc (rw q at e) in subst (λ x. In x stages) same h
      | inr q ↦ k token p (rw q at e)
    ]

token_producers-Produces :
    (stages : List ℕ) (ss : List StageOp) (m : Map ℕ)
    → ((v : ℕ) → In v (ops_of ss) → In v stages)
    → Produces stages m
    → Produces stages (token_producers ss m)
unfolding token_producers
token_producers-Produces stages [] m h k = k
token_producers-Produces stages (s ∷ ss) m h k =
    token_producers-Produces stages ss (add_tokens s.op s.depends_out m) (λ v n. h v (inr n))
      (add_tokens-Produces stages s.op s.depends_out m (h s.op (inl refl)) k)

module _ (stages : List ℕ) (different : Nodup stages) (producers : Map ℕ)
    (k : Produces stages producers) where
  add_inputs-IsDag :
      (op : ℕ) (vs : List Value) (dag : StageDependencyDag)
      → In op stages
      → IsDag stages dag
      → IsDag stages (add_inputs producers op vs dag)
  unfolding add_inputs
  add_inputs-IsDag op [] dag h d = d
  add_inputs-IsDag op (v ∷ vs) dag h d = elim (Option-cases (lookup v producers)) [
    | inl e ↦ rw (e, add_inputs) (add_inputs-IsDag op vs dag h d)
    | inr (p, e) ↦
        rw (e, add_inputs)
          (add_inputs-IsDag op vs (add_edge dag p op) h
            (add_edge-IsDag dag p op stages different (k v p e) h d))
  ]

  add_stages-IsDag :
      (ss : List StageOp) (dag : StageDependencyDag)
      → ((v : ℕ) → In v (ops_of ss) → In v stages)
      → IsDag stages dag
      → IsDag stages (add_stages producers ss dag)
  unfolding add_stages
  add_stages-IsDag [] dag h d = d
  add_stages-IsDag (s ∷ ss) dag h d =
      add_stages-IsDag ss (add_inputs producers s.op s.depends_in dag) (λ v n. h v (inr n))
        (add_inputs-IsDag s.op s.depends_in dag (h s.op (inl refl)) d)

pub edges_into_none :
    (succ : ℕ → List ℕ) (v : ℕ) (us : List ℕ)
    → ((u : ℕ) → In u us → ¬ In v (succ u))
    → edges_into succ v us ≡ 0
unfolding edges_into
edges_into_none succ v [] h = refl
edges_into_none succ v (u ∷ us) h =
    omega (
      arith,
      count_zero v (succ u) (h u (inl refl)),
      edges_into_none succ v us (λ w m. h w (inr m)),
    )

-- In the graph of different stages, each one's number of predecessors is the number of edges into it by
-- the successors, and all edges are between the stages.
pub build_dag-IsDag :
    (stages : List StageOp) → Nodup (ops_of stages) → IsDag (ops_of stages) (build_dag stages)
unfolding build_dag list_at lookup
build_dag-IsDag stages different =
    add_stages-IsDag (ops_of stages) different (token_producers stages [])
      (token_producers-Produces (ops_of stages) stages [] (λ v m. m) (λ token p e. cc)) stages _
      (λ v m. m)
      (record {
        balanced = λ v. rw (init.0 v) (
            sym
              (edges_into_none _ v (ops_of stages) (λ u m h. subst (λ xs. In v xs) (init.1 u) h)));
        inside = λ v u m. absurd (subst (λ xs. In u xs) (init.1 v) m);
      })
  where
    start : StageDependencyDag
    start = record { predecessors = []; successors = [] }

    init :
        ((v : ℕ) → list_at v (init_dag start stages).predecessors ≡ [])
        × ((v : ℕ) → list_at v (init_dag start stages).successors ≡ [])
    init = init_dag-empty stages start (λ v. refl) (λ v. refl)
