-- ===== src/MemoryTree/Ancestry.antt =====
-- lib/Analysis/ArchViews/MemoryTree.cpp: the queries that follow `parent`, against relations on the
-- tree. In a tree that the code builds a parent is made before its children, so its id is smaller.
use dataflow_scheduler.Prelude.{
  ℕ, zero, suc, ◌+◌, ◌<◌, ◌≡◌, refl, ap, subst, ◌∙◌, ◌↔◌, ◌⊎◌, inl, inr, true, none, some, arith,
  Bool-cases, Option-cases, ◌==◌, ==_iff, ==-refl,
}
use native.Mathlib.Nat.{zero-add}
use dataflow_scheduler.Prelude.Maps.{Distinct, lookup, has}
use dataflow_scheduler.Device.{NodeId}
use dataflow_scheduler.MemoryTree.{
  MemoryTree, MemoryNode, parent_of, get_node, depth_loop, get_node_depth, descendant_loop,
  is_descendant_of, root_loop, get_root_of,
}

-- Ids stand under their own node and below the next id; a parent is an earlier node of the tree.
pub record IsForest (t : MemoryTree) : Type 0 where
  pub named :
      (v : NodeId) (n : MemoryNode) → lookup v t.nodes ≡ some n → (n.id ≡ v) × (v < t.next_node_id)
  pub earlier : (v p : NodeId) → parent_of t v ≡ some p → p < v
  pub distinct : Distinct t.nodes
  pub present : (v p : NodeId) → parent_of t v ≡ some p → has t.nodes p ≡ true

-- `d` lies below `a`.
pub data Below (t : MemoryTree) : NodeId → NodeId → Type 0 where
  child : {d a : NodeId} → parent_of t d ≡ some a → Below t d a
  deeper : {d p a : NodeId} → parent_of t d ≡ some p → Below t p a → Below t d a

-- `v` is `d` steps below a root.
pub data HasDepth (t : MemoryTree) : NodeId → ℕ → Type 0 where
  root : {v : NodeId} → parent_of t v ≡ none → HasDepth t v zero
  under : {v p : NodeId} {d : ℕ} → parent_of t v ≡ some p → HasDepth t p d → HasDepth t v (suc d)

pub has-lookup :
    (t : MemoryTree) (v : NodeId)
    → has t.nodes v ≡ true
    → (n : MemoryNode) × (lookup v t.nodes ≡ some n)
unfolding has
has-lookup t v h = elim (Option-cases (lookup v t.nodes)) [
  | inl e ↦ cc (rw (e, has) at h)
  | inr p ↦ p
]

pub parent_of-has : (t : MemoryTree) (v p : NodeId) → parent_of t v ≡ some p → has t.nodes v ≡ true
unfolding has parent_of
parent_of-has t v p h = ground arith

module _ (t : MemoryTree) where
  loop-Below : (fuel : ℕ) (d a : NodeId) → descendant_loop fuel t d a ≡ true → Below t d a
  unfolding descendant_loop
  loop-Below zero d a h = cc
  loop-Below (suc fuel) d a h = elim (Option-cases (parent_of t d)) [
    | inl e ↦ cc (rw (e, descendant_loop) at h)
    | inr (p, e) ↦ elim (Bool-cases (p == a)) [
      | inl same ↦ child (rw (← (==_iff p a).0 same) e)
      | inr differ ↦ deeper e (loop-Below fuel p a (rw (e, descendant_loop, differ) at h))
    ]
  ]

  Below-loop :
      IsForest t
      → (fuel : ℕ) (d a : NodeId) → d < fuel
      → Below t d a
      → descendant_loop fuel t d a ≡ true
  unfolding descendant_loop
  Below-loop f zero d a h b = absurd (omega arith)
  Below-loop f (suc fuel) d a h (child e) = rw (e, descendant_loop, ==-refl a)
  Below-loop f (suc fuel) d a h (deeper {p = p} e b) =
      rw (e, descendant_loop) (ground (arith, Below-loop f fuel p a, f.earlier d p e, b))

  pub Below-has :
      IsForest t → {d a : NodeId} → Below t d a → (has t.nodes d ≡ true) × (has t.nodes a ≡ true)
  Below-has f (child {d = d} {a = a} e) = (parent_of-has t d a e, f.present d a e)
  Below-has f (deeper {d = d} {p = p} e b) = (parent_of-has t d p e, (Below-has f b).1)

  pub has-lt : IsForest t → (v : NodeId) → has t.nodes v ≡ true → v < t.next_node_id
  has-lt f v h = let (n, e) = has-lookup t v h in (f.named v n e).1

  -- In a forest, `isDescendantOf` answers whether the first node lies below the second.
  pub is_descendant_of-Below :
      IsForest t → (d a : NodeId) → (is_descendant_of t d a ≡ true) ↔ Below t d a
  unfolding is_descendant_of
  is_descendant_of-Below f d a = (
    λ h. loop-Below t.next_node_id d a (ground arith),
    λ b.
        let (hd, ha) = Below-has f b in
        rw (hd, ha) (Below-loop f t.next_node_id d a (has-lt f d hd) b),
  )

  depth-HasDepth :
      (fuel : ℕ) (v : NodeId) {d : ℕ} (k : ℕ)
      → IsForest t
      → v < fuel
      → HasDepth t v d
      → depth_loop fuel t v k ≡ k + d
  unfolding depth_loop
  depth-HasDepth zero v k f h r = absurd (omega arith)
  depth-HasDepth (suc fuel) v k f h (root e) = rw (e, depth_loop) (omega arith)
  depth-HasDepth (suc fuel) v k f h (under {p = p} {d = d} e r) =
      rw (e, depth_loop)
        (omega (
          arith,
          f.earlier v p e,
          depth-HasDepth fuel p (k + 1) f (omega (arith, f.earlier v p e)) r,
        ))

  HasDepth-total : IsForest t → (fuel : ℕ) (v : NodeId) → v < fuel → (d : ℕ) × HasDepth t v d
  HasDepth-total f zero v h = absurd (omega arith)
  HasDepth-total f (suc fuel) v h = elim (Option-cases (parent_of t v)) [
    | inl e ↦ (0, root e)
    | inr (p, e) ↦
        let (d, r) = HasDepth-total f fuel p (omega (arith, f.earlier v p e)) in (suc d, under e r)
  ]

  -- In a forest, every node has a depth, the number of steps to its root, and `getNodeDepth` returns it.
  pub get_node_depth_total :
      IsForest t
      → (v : NodeId) → has t.nodes v ≡ true
      → (d : ℕ) × (get_node_depth t v ≡ some d) × HasDepth t v d
  unfolding get_node_depth
  get_node_depth_total f v h =
      let (n, e) = has-lookup t v h in
      let (d, r) = HasDepth-total f t.next_node_id v (has-lt f v h) in
      (
        d,
        rw (e, get_node_depth)
            (ap some (depth-HasDepth t.next_node_id v 0 f (has-lt f v h) r ∙ zero-add d)),
        r,
      )

  pub get_node_depth-HasDepth :
      IsForest t → (v : NodeId) (d : ℕ) → get_node_depth t v ≡ some d → HasDepth t v d
  unfolding get_node_depth has
  get_node_depth-HasDepth f v d h = elim (Option-cases (lookup v t.nodes)) [
    | inl e ↦ cc (rw (e, get_node_depth) at h)
    | inr (n, e) ↦
        let (k, q, r) = get_node_depth_total f v (rw (e, has)) in
        let same : k ≡ d = cc (q, h) in subst (HasDepth t v) same r
  ]

  root_loop_lem :
      IsForest t
      → (fuel : ℕ) (v : NodeId) (n : MemoryNode) → lookup v t.nodes ≡ some n
      → v < fuel
      → (r : NodeId) × (lookup r t.nodes ≡ some (root_loop fuel t n))
        × ((root_loop fuel t n).parent ≡ none)
        × ((v ≡ r) ⊎ Below t v r)
  unfolding root_loop parent_of get_node
  root_loop_lem f zero v n e h = absurd (omega arith)
  root_loop_lem f (suc fuel) v n e h = elim (Option-cases n.parent) [
    | inl q ↦ rw (q, root_loop) (v, e, q, inl refl)
    | inr (p, q) ↦
        let up : parent_of t v ≡ some p = rw (e, parent_of) q in
        let (m, e') = has-lookup t p (f.present v p up) in
        let (r, at, top, below) = root_loop_lem f fuel p m e' (omega (arith, f.earlier v p up)) in
        rw (q, root_loop, e')
          (r, at, top, inr (elim below [ inl same ↦ child (rw (← same) up) | inr b ↦ deeper up b ]))
  ]

  -- In a forest, `getRootOf` of a node returns a node of the tree that has no parent, and that is the
  -- node itself or lies above it.
  pub get_root_of_lem :
      IsForest t
      → (v : NodeId) (n : MemoryNode) → get_node t v ≡ some n
      → (r : NodeId) × (get_node t r ≡ some (get_root_of t n))
        × ((get_root_of t n).parent ≡ none)
        × ((v ≡ r) ⊎ Below t v r)
  unfolding get_root_of get_node
  get_root_of_lem f v n e = root_loop_lem f t.next_node_id v n e (f.named v n e).1
