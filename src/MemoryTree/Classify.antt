-- ===== src/MemoryTree/Classify.antt =====
-- lib/Analysis/ArchViews/MemoryTree.cpp: what the listings of nodes and the classification of a
-- memory (global, per-core scratchpad, below the scratchpad) mean in terms of depth.
use dataflow_scheduler.Prelude.{
  ℕ, zero, suc, ◌≤◌, ◌<◌, ◌≡◌, refl, ap, subst, ◌∙◌, ◌↔◌, ◌⊎◌, inl, inr, Bool, true, false, none,
  some, List, [], ◌∷◌, arith, In, Bool-cases, ◌==◌, ==_iff, ==-refl, if◌then◌else◌,
}
use mathlib.Core.Logic.{⊎_elim}
use dataflow_scheduler.Prelude.Maps.{Map, Distinct, lookup, has}
use dataflow_scheduler.Device.{NodeId, ResourceType}
use dataflow_scheduler.MemoryTree.{
  MemoryTree, MemoryNode, get_node, ids_where, is_some_of, get_root_nodes, get_nodes_at_depth,
  get_node_depth, get_node_id_for_memory,
}
use dataflow_scheduler.MemoryTree.Ancestry.{
  IsForest, Below, child, deeper, HasDepth, root, under, has-lookup, is_descendant_of-Below,
  Below-has, get_node_depth-HasDepth, get_node_depth_total,
}
use dataflow_scheduler.MemoryTree.Queries.{
  exists_in, names_memory, is_global_memory, is_below_scratch_pad,
}

-- A key of the rest is another key than that of the head.
tail-lookup :
    (k v : NodeId) (n x : MemoryNode) (m : Map MemoryNode)
    → lookup k m ≡ none
    → lookup v m ≡ some x
    → lookup v ((k, n) ∷ m) ≡ some x
unfolding lookup
tail-lookup k v n x m fresh e = elim (Bool-cases (k == v)) [
  | inl same ↦ cc (rw ((==_iff k v).0 same) at fresh, e)
  | inr differ ↦ rw differ e
]

head-lookup :
    (k v : NodeId) (n : MemoryNode) (m : Map MemoryNode) → k ≡ v → lookup v ((k, n) ∷ m) ≡ some n
unfolding lookup
head-lookup k v n m e = rw ((==_iff k v).1 e)

-- The listing holds the ids of the nodes that pass the test, and no others.
pub ids_where-lookup :
    (p : NodeId → MemoryNode → Bool) (v : NodeId) (m : Map MemoryNode)
    → Distinct m
    → In v (ids_where p m)
    → (n : MemoryNode) × (lookup v m ≡ some n) × (p v n ≡ true)
unfolding ids_where
ids_where-lookup p v [] d h = absurd h
ids_where-lookup p v ((k, n) ∷ m) d h = elim (Bool-cases (p k n)) [
  | inl e ↦ here e (⊎_elim inl (λ g. inr (ids_where-lookup p v m d.1 g)) (rw (e, ids_where) at h))
  | inr e ↦ later (ids_where-lookup p v m d.1 (rw (e, ids_where) at h))
]
  where
    Found : Map MemoryNode → Type 0
    Found l = (x : MemoryNode) × (lookup v l ≡ some x) × (p v x ≡ true)

    later : Found m → Found ((k, n) ∷ m)
    later (x, q, t) = (x, tail-lookup k v n x m d.0 q, t)

    here : p k n ≡ true → (k ≡ v) ⊎ Found m → Found ((k, n) ∷ m)
    here e (inl same) = (n, head-lookup k v n m same, rw (← same) e)
    here e (inr g) = later g

pub lookup-ids_where :
    (p : NodeId → MemoryNode → Bool) (v : NodeId) (n : MemoryNode) (m : Map MemoryNode)
    → lookup v m ≡ some n
    → p v n ≡ true
    → In v (ids_where p m)
unfolding ids_where lookup
lookup-ids_where p v n [] e h = cc
lookup-ids_where p v n ((k, x) ∷ m) e h = elim (Bool-cases (k == v)) [
  | inl same ↦ here ((==_iff k v).0 same) (rw (same, lookup) at e)
  | inr differ ↦ keep (p k x) (lookup-ids_where p v n m (rw (differ, lookup) at e) h)
]
  where
    keep : (b : Bool) → In v (ids_where p m) → In v (if b then k ∷ ids_where p m else ids_where p m)
    keep true g = inr g
    keep false g = g

    here : k ≡ v → some x ≡ some n → In v (ids_where p ((k, x) ∷ m))
    here same q = let t : p k x ≡ true = cc in rw (t, ids_where) (inl same)

pub exists_in-In :
    (test : NodeId → Bool) (vs : List NodeId)
    → exists_in test vs ≡ true
    → (v : NodeId) × In v vs × (test v ≡ true)
unfolding exists_in
exists_in-In test [] h = cc
exists_in-In test (x ∷ xs) h = elim (Bool-cases (test x)) [
  | inl e ↦ (x, inl refl, e)
  | inr e ↦ let (v, m, q) = exists_in-In test xs (rw (e, exists_in) at h) in (v, inr m, q)
]

pub In-exists_in :
    (test : NodeId → Bool) (vs : List NodeId) (v : NodeId)
    → In v vs
    → test v ≡ true
    → exists_in test vs ≡ true
unfolding exists_in
In-exists_in test [] v m e = absurd m
In-exists_in test (x ∷ xs) v (inl q) e = rw (ap test q ∙ e)
In-exists_in test (x ∷ xs) v (inr m) e = ground (arith, In-exists_in test xs v m e)

HasDepth-unique : (t : MemoryTree) {v : NodeId} {d e : ℕ} → HasDepth t v d → HasDepth t v e → d ≡ e
HasDepth-unique t (root h) (root k) = refl
HasDepth-unique t (root h) (under k r) = cc
HasDepth-unique t (under k r) (root h) = cc
HasDepth-unique t {v} (under {p = p} k r) (under {p = q} {d = e} l s) =
    let same : q ≡ p = cc in ap suc (HasDepth-unique t r (subst (λ x. HasDepth t x e) same s))

Below-depth :
    (t : MemoryTree) {v a : NodeId} {k : ℕ}
    → Below t v a
    → HasDepth t a k
    → (d : ℕ) × (k < d) × HasDepth t v d
Below-depth t {k = k} (child e) r = (suc k, omega arith, under e r)
Below-depth t (deeper e b) r = let (d, lt, s) = Below-depth t b r in (suc d, omega arith, under e s)

-- A node at depth two or more lies below a node at depth one.
scratch_pad_of :
    (t : MemoryTree) {v : NodeId} {d : ℕ}
    → HasDepth t v (suc (suc d))
    → (a : NodeId) × Below t v a × HasDepth t a 1
scratch_pad_of t {d = zero} (under {p = p} e r) = (p, child e, r)
scratch_pad_of t {d = suc d} (under e r) = let (a, b, s) = scratch_pad_of t r in (a, deeper e b, s)

-- `r` is the canonical resource of the node or its alias.
abbrev pub Names : ResourceType → MemoryNode → Type 0
Names r n = (n.memory_resource ≡ r) ⊎ (n.alias ≡ some r)

lookup-has :
    (t : MemoryTree) (v : NodeId) (n : MemoryNode)
    → lookup v t.nodes ≡ some n
    → has t.nodes v ≡ true
unfolding has
lookup-has t v n e = rw (e, has)

module _ (t : MemoryTree) (f : IsForest t) where
  depth_is :
      (v k d : ℕ) → get_node_depth t v ≡ some k → is_some_of (get_node_depth t v) d ≡ true → k ≡ d
  depth_is v k d g q = (==_iff k d).0 (rw g at q)

  -- In a forest, the nodes listed at a depth are the nodes of that depth.
  pub get_nodes_at_depth-HasDepth :
      (v : NodeId) (d : ℕ)
      → In v (get_nodes_at_depth t d) ↔ ((has t.nodes v ≡ true) × HasDepth t v d)
  unfolding get_nodes_at_depth
  get_nodes_at_depth-HasDepth v d = (listed, found)
    where
      listed : In v (get_nodes_at_depth t d) → (has t.nodes v ≡ true) × HasDepth t v d
      listed h =
          let (n, e, q) = ids_where-lookup _ v t.nodes f.distinct h in
          let present = lookup-has t v n e in
          let (k, g, r) = get_node_depth_total t f v present in
          let same = depth_is v k d g q in (present, subst (HasDepth t v) same r)

      found : (has t.nodes v ≡ true) × HasDepth t v d → In v (get_nodes_at_depth t d)
      found (present, r) =
          let (n, e) = has-lookup t v present in
          let (k, g, s) = get_node_depth_total t f v present in
          lookup-ids_where _ v n t.nodes e (rw (g, HasDepth-unique t s r) (==-refl d))

  -- In a forest, a memory that has a node is below the scratchpad exactly when that node's depth is two
  -- or more.
  pub is_below_scratch_pad-get_node_depth :
      (r : ResourceType) (v : NodeId)
      → get_node_id_for_memory t r ≡ some v
      → (is_below_scratch_pad t r ≡ true) ↔ ((d : ℕ) × (get_node_depth t v ≡ some d) × (2 ≤ d))
  unfolding is_below_scratch_pad
  is_below_scratch_pad-get_node_depth r v named = (below, above)
    where
      below : is_below_scratch_pad t r ≡ true → (d : ℕ) × (get_node_depth t v ≡ some d) × (2 ≤ d)
      below h =
          let (a, m, q) =
            exists_in-In _ (get_nodes_at_depth t 1) (rw (named, is_below_scratch_pad) at h) in
          let b = (is_descendant_of-Below t f v a).0 q in
          let (d, lt, s) = Below-depth t b ((get_nodes_at_depth-HasDepth a 1).0 m).1 in
          let (k, g, s') = get_node_depth_total t f v (Below-has t f b).0 in
          (k, g, rw (HasDepth-unique t s' s) lt)

      deep : (d : ℕ) → 2 ≤ d → HasDepth t v d → is_below_scratch_pad t r ≡ true
      deep zero h s = absurd (omega arith)
      deep (suc zero) h s = absurd (omega arith)
      deep (suc (suc d)) h s =
          let (a, b, one) = scratch_pad_of t s in
          rw (named, is_below_scratch_pad)
            (In-exists_in _ (get_nodes_at_depth t 1) a
              ((get_nodes_at_depth-HasDepth a 1).1 ((Below-has t f b).1, one))
              ((is_descendant_of-Below t f v a).1 b))

      above : (d : ℕ) × (get_node_depth t v ≡ some d) × (2 ≤ d) → is_below_scratch_pad t r ≡ true
      above (d, g, h) = deep d h (get_node_depth-HasDepth t f v d g)

  names_memory-Names :
      (r : ResourceType) (v : NodeId) (n : MemoryNode)
      → lookup v t.nodes ≡ some n
      → (names_memory t r v ≡ true) ↔ Names r n
  unfolding names_memory get_node
  names_memory-Names r v n e = ground (arith, e)

  -- In a forest, a resource is global memory exactly when it is the resource of a root or the one
  -- alias that is noted at it.
  pub is_global_memory-Names :
      (r : ResourceType)
      → (is_global_memory t r ≡ true) ↔ (
          (v : NodeId) × (n : MemoryNode) × (lookup v t.nodes ≡ some n)
          × (n.parent ≡ none)
          × Names r n)
  unfolding is_global_memory get_root_nodes
  is_global_memory-Names r = (
    λ h.
        let (v, m, q) = exists_in-In _ (get_root_nodes t) h in
        let (n, e, top) = ids_where-lookup _ v t.nodes f.distinct m in
        (v, n, e, ground (arith, top), (names_memory-Names r v n e).0 q),
    λ (v, n, e, top, q).
        In-exists_in _ (get_root_nodes t) v (lookup-ids_where _ v n t.nodes e (rw top))
          ((names_memory-Names r v n e).1 q),
  )
