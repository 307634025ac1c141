-- ===== src/RoutingGraph/Sound.antt =====
-- lib/Analysis/ArchViews/RoutingGraph.cpp, `initialize`: each step keeps edges between nodes.
use dataflow_scheduler.Prelude.{
  ℕ, ◌≡◌, refl, sym, ◌∙◌, ◌⊎◌, inl, inr, Bool, true, false, ◌||◌, Option, none, some, List, [], ◌∷◌,
  ◌++◌, map, ◌==◌, ==_iff, Bool-cases, Option-cases, if◌then◌else◌, In, subst,
}
use dataflow_scheduler.Prelude.Maps.{
  Map, lookup, insert, lookup-insert, has-insert, list_at, list_at-insert,
}
use dataflow_scheduler.Device.{Value, ResourceType, NodeId}
use dataflow_scheduler.MemoryTree.Queries.{value_or}
use dataflow_scheduler.RoutingGraph.{
  ResourceKind, memory_kind, compute, EdgeInfo, RoutingGraph, add_node, add_edge, has_node,
  get_neighbors,
}
use dataflow_scheduler.RoutingGraph.Build.{
  DeviceInitContext, ◌>>=◌, process_memory_op, process_execution_unit_op, add_results, map_values,
  process_datapath_op,
}

-- Both ends of every edge are nodes.
abbrev pub JoinsNodes : RoutingGraph → Type 0
JoinsNodes g =
    (v u : NodeId) → In u (get_neighbors g v) → (has_node g v ≡ true) × (has_node g u ≡ true)

-- And the values are mapped to nodes.
pub record Sound (g : RoutingGraph) (values : Map NodeId) : Type 0 where
  pub joins : JoinsNodes g
  pub mapped : (v : Value) (id : NodeId) → lookup v values ≡ some id → has_node g id ≡ true

pub or-true : (b : Bool) → (b || true) ≡ true
or-true true = refl
or-true false = refl

module _ (g : RoutingGraph) (resource : ResourceType) (kind : ResourceKind) where
  abbrev grown : RoutingGraph
  grown = (add_node g resource kind).0

  has_node-old : (v : NodeId) → has_node g v ≡ true → has_node grown v ≡ true
  unfolding add_node has_node
  has_node-old v h = has-insert g.next_node_id v _ g.nodes ∙ rw h (or-true (g.next_node_id == v))

  has_node-new : has_node grown g.next_node_id ≡ true
  unfolding add_node has_node
  has_node-new =
      has-insert g.next_node_id g.next_node_id _ g.nodes
      ∙ rw ((==_iff g.next_node_id g.next_node_id).1 refl) refl

  same_neighbors : (v : NodeId) → get_neighbors grown v ≡ get_neighbors g v
  unfolding add_node get_neighbors
  same_neighbors v = refl

  mapped-insert :
      (values : Map NodeId) (v w : Value) (id : NodeId)
      → Sound g values
      → (if v == w then some g.next_node_id else lookup w values) ≡ some id
      → has_node grown id ≡ true
  mapped-insert values v w id s e = elim (Bool-cases (v == w)) [
    | inl q ↦
        let same : g.next_node_id ≡ id = cc (rw q at e) in
        subst (λ i. has_node grown i ≡ true) same has_node-new
    | inr q ↦ has_node-old id (s.mapped w id (rw q at e))
  ]

  add_node-Sound :
      (values : Map NodeId) (v : Value)
      → Sound g values
      → Sound grown (insert v g.next_node_id values)
  add_node-Sound values v s = record {
    joins = λ a b m.
        let (ha, hb) = s.joins a b (subst (λ ns. In b ns) (same_neighbors a) m) in
        (has_node-old a ha, has_node-old b hb);
    mapped =
        λ w id e. mapped-insert values v w id s (sym (lookup-insert v w g.next_node_id values) ∙ e);
  }

In-map_append :
    (x : NodeId) (es : List EdgeInfo) (e : EdgeInfo)
    → In x (map (λ i. i.target) (es ++ e ∷ []))
    → In x (map (λ i. i.target) es) ⊎ (e.target ≡ x)
In-map_append x [] e (inl q) = inr q
In-map_append x [] e (inr z) = absurd z
In-map_append x (i ∷ es) e (inl q) = inl (inl q)
In-map_append x (i ∷ es) e (inr m) = elim (In-map_append x es e m) [
  | inl l ↦ inl (inr l)
  | inr r ↦ inr r
]

add_edge-JoinsNodes :
    (g : RoutingGraph) (source target : NodeId) (cost : ℕ)
    → has_node g source ≡ true
    → has_node g target ≡ true
    → JoinsNodes g
    → JoinsNodes (add_edge g source target cost)
unfolding add_edge has_node get_neighbors
add_edge-JoinsNodes g source target cost hs ht j v u m = go (
    subst (λ es. In u (map (λ i. i.target) es))
      (list_at-insert source v
        (list_at source g.adjacency
          ++ record { source = source; target = target; cost = cost } ∷ [])
        g.adjacency)
      m)
  where
    go :
        In u (
          map
            (λ i. i.target)
            (if source == v
              then list_at source g.adjacency
                ++ record { source = source; target = target; cost = cost } ∷ []
              else list_at v g.adjacency))
        → (has_node g v ≡ true) × (has_node g u ≡ true)
    go n = elim (Bool-cases (source == v)) [
      | inl e ↦
          let q = (==_iff source v).0 e in
          elim (In-map_append u (list_at source g.adjacency)
            (record { source = source; target = target; cost = cost }) (rw e at n)) [
              | inl old ↦
                  let (ha, hb) = j source u old in (subst (λ x. has_node g x ≡ true) q ha, hb)
              | inr new ↦
                  (subst (λ x. has_node g x ≡ true) q hs, subst (λ x. has_node g x ≡ true) new ht)
            ]
      | inr e ↦ j v u (rw e at n)
    ]

-- A value that gets the node of another.
insert-Sound :
    (g : RoutingGraph) (values : Map NodeId) (v : Value) (id : NodeId)
    → has_node g id ≡ true
    → Sound g values
    → Sound g (insert v id values)
insert-Sound g values v id h s = record {
  joins = s.joins;
  mapped = λ w i e. step w i (sym (lookup-insert v w id values) ∙ e);
}
  where
    step :
        (w : Value) (i : NodeId)
        → (if v == w then some id else lookup w values) ≡ some i
        → has_node g i ≡ true
    step w i e = elim (Bool-cases (v == w)) [
      | inl q ↦ let same : id ≡ i = cc (rw q at e) in subst (λ x. has_node g x ≡ true) same h
      | inr q ↦ s.mapped w i (rw q at e)
    ]

abbrev pub SoundContext : DeviceInitContext → Type 0
SoundContext c = Sound c.graph c.value_to_node_id

pub process_memory_op-Sound :
    (c : DeviceInitContext) (result : Value) (kind : ResourceType) (size : Option ℕ) (first : ℕ)
    → SoundContext c
    → SoundContext (process_memory_op c result kind size first)
unfolding process_memory_op add_node
process_memory_op-Sound c result kind size first s =
    add_node-Sound c.graph kind memory_kind c.value_to_node_id result s

pub process_execution_unit_op-Sound :
    (default_kind : ResourceType) (c : DeviceInitContext) (result : Value)
    (kind : Option ResourceType) (is_ls : Bool)
    → SoundContext c
    → SoundContext (process_execution_unit_op default_kind c result kind is_ls)
unfolding process_execution_unit_op add_node
process_execution_unit_op-Sound default_kind c result kind is_ls s =
    add_node-Sound c.graph (value_or kind default_kind) _ c.value_to_node_id result s

pub add_results-Sound :
    (group_kind : ResourceType) (vs : List Value) (c : DeviceInitContext)
    → SoundContext c
    → SoundContext (add_results group_kind vs c)
unfolding add_results add_node
add_results-Sound group_kind [] c s = s
add_results-Sound group_kind (v ∷ vs) c s =
    add_results-Sound group_kind vs _
      (add_node-Sound c.graph group_kind compute c.value_to_node_id v s)

-- What an operation that may fail keeps.
abbrev pub Keeps : Option DeviceInitContext → Type 0
Keeps none = Unit {0}
Keeps (some c) = SoundContext c

pub map_values-Sound :
    (vs froms : List Value) (c : DeviceInitContext) → SoundContext c → Keeps (map_values vs froms c)
unfolding map_values
map_values-Sound [] froms c s = s
map_values-Sound (v ∷ vs) [] c s = s
map_values-Sound (v ∷ vs) (from ∷ froms) c s =
    elim (Option-cases (lookup from c.value_to_node_id)) [
      | inl e ↦ rw (e, map_values) tt
      | inr (id, e) ↦
          rw (e, map_values)
            (map_values-Sound vs froms _
              (insert-Sound c.graph c.value_to_node_id v id (s.mapped from id e) s))
    ]

pub process_datapath_op-Sound :
    (c : DeviceInitContext) (source target : Value)
    → SoundContext c
    → Keeps (process_datapath_op c source target)
unfolding process_datapath_op add_edge has_node
process_datapath_op-Sound c source target s =
    elim (Option-cases (lookup source c.value_to_node_id)) [
      | inl e ↦ rw (e, process_datapath_op) tt
      | inr (a, e) ↦ elim (Option-cases (lookup target c.value_to_node_id)) [
        | inl q ↦ rw (e, q, process_datapath_op) tt
        | inr (b, q) ↦ elim (Bool-cases (a == b)) [
          | inl r ↦ rw (e, q, r, process_datapath_op) tt
          | inr r ↦
              rw (e, q, r, process_datapath_op)
                (joined a b (s.mapped source a e) (s.mapped target b q))
        ]
      ]
    ]
  where
    joined :
        (a b : NodeId)
        → has_node c.graph a ≡ true
        → has_node c.graph b ≡ true
        → Sound (add_edge c.graph a b 1) c.value_to_node_id
    joined a b ha hb = record {
      joins = add_edge-JoinsNodes c.graph a b 1 ha hb s.joins;
      mapped = λ v id k. s.mapped v id k;
    }

pub bind-Keeps :
    (r : Option DeviceInitContext) (f : DeviceInitContext → Option DeviceInitContext)
    → Keeps r
    → ((c : DeviceInitContext) → SoundContext c → Keeps (f c))
    → Keeps (r >>= f)
bind-Keeps none f h k = tt
bind-Keeps (some c) f h k = k c h
