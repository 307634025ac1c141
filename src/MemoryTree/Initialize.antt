-- ===== src/MemoryTree/Initialize.antt =====
-- lib/Analysis/ArchViews/MemoryTree.cpp, `initialize`: the tree made from any device body in SSA form
-- is a forest.
use dataflow_scheduler.Prelude.{
  ℕ, suc, ◌<◌, ◌≤◌, ◌≡◌, ◌∙◌, ◌==◌, true, Option, none, some, List, [], ◌∷◌, arith, Option-cases,
  Bool-cases, inl, inr, All,
}
use dataflow_scheduler.Prelude.Maps.{Map, lookup, insert, has, lookup-insert, has-insert}
use dataflow_scheduler.Device.{
  ArchOp, Region, memory, exec_unit, group, datapath, other, done, op_then, Value, ResourceType,
  NodeId, after_op, after_region, after_all, IsOrderedOp, IsOrderedRegion, after_all-le,
}
use dataflow_scheduler.MemoryTree.{MemoryTree, empty, add_node, new_node, set_parent}
use dataflow_scheduler.MemoryTree.Build.{
  Walk, process_memory, group_parent, process_op, process_region, link, link_all, initialize,
}
use dataflow_scheduler.MemoryTree.Ancestry.{IsForest, has-lookup}
use dataflow_scheduler.MemoryTree.Forest.{
  empty-IsForest, add_node-IsForest, set_parent-IsForest, populate_aliases-IsForest, has-set_parent,
}

-- The values seen so far lie below `lo` and were given ids in their own order; the recorded parents
-- were defined before their children.
record WalkInv (lo : ℕ) (s : Walk) : Type 0 where
  forest : IsForest s.tree
  known :
      (v : Value) (k : NodeId)
      → lookup v s.value_to_node ≡ some k
      → (v < lo) × (has s.tree.nodes k ≡ true)
  order :
      (v w : Value) (k l : NodeId)
      → lookup v s.value_to_node ≡ some k
      → lookup w s.value_to_node ≡ some l
      → v < w
      → k < l
  upward : All (λ e. e.1 < e.0) s.child_to_parent

IsBelow : ℕ → Option Value → Type 0
IsBelow lo none = Unit {0}
IsBelow lo (some p) = p < lo

insert-upward :
    (c p : Value) (m : Map Value)
    → p < c
    → All (λ e. e.1 < e.0) m
    → All (λ e. e.1 < e.0) (insert c p m)
unfolding insert
insert-upward c p [] h a = (h, tt)
insert-upward c p ((j, w) ∷ m) h a = elim (Bool-cases (j == c)) [
  | inl e ↦ rw (e, insert) (h, a.1)
  | inr e ↦ rw (e, insert) (a.0, insert-upward c p m h a.1)
]

WalkInv-mono : (lo hi : ℕ) (s : Walk) → lo ≤ hi → WalkInv lo s → WalkInv hi s
WalkInv-mono lo hi s h i = record {
  forest = i.forest;
  known = λ v k e. ground (arith, i.known v k e);
  order = i.order;
  upward = i.upward;
}

module _ (lo : ℕ) (s : Walk) (i : WalkInv lo s) where
  open i use {forest, known, order, upward}

  id-lt : (v : Value) (k : NodeId) → lookup v s.value_to_node ≡ some k → k < s.tree.next_node_id
  id-lt v k e = let (n, q) = has-lookup s.tree k (known v k e).1 in (forest.named k n q).1

  process_memory-WalkInv :
      (parent_mem : Option Value) (v : Value) (r : ResourceType) (c : Option ℕ) (a : ℕ)
      → IsBelow lo parent_mem
      → lo ≤ v
      → WalkInv (suc v) (process_memory s parent_mem v r c a)
  unfolding process_memory add_node IsBelow
  process_memory-WalkInv parent_mem v r c a b h =
      let id = s.tree.next_node_id in
      let grown = λ (w : Value). lookup-insert v w id s.value_to_node in
      record {
        forest = add_node-IsForest s.tree forest r c (some a);
        known = λ w k e.
            ground
              (arith, grown w, known w k, has-insert id k (new_node id r c (some a)) s.tree.nodes);
        order = λ w x k l e e' lt.
            ground (arith, grown w, grown x, known w k, known x l, id-lt w k, order w x k l);
        upward = above parent_mem b;
      }
    where
      above :
          (o : Option Value)
          → IsBelow lo o
          → All (λ e. e.1 < e.0) (process_memory s o v r c a).child_to_parent
      above none q = upward
      above (some p) q = insert-upward v p s.child_to_parent (omega arith) upward

IsBelow-mono : (lo hi : ℕ) (o : Option Value) → lo ≤ hi → IsBelow lo o → IsBelow hi o
unfolding IsBelow
IsBelow-mono lo hi none h b = tt
IsBelow-mono lo hi (some p) h b = omega arith

group_parent-IsBelow :
    (lo : ℕ) (o : Option Value) (shared : List Value)
    → IsBelow lo o
    → All (λ v. v < lo) shared
    → IsBelow lo (group_parent o shared)
unfolding IsBelow
group_parent-IsBelow lo o [] b h = b
group_parent-IsBelow lo o (v ∷ vs) b h = h.0

mutual
  unfolding after_op after_region IsOrderedOp IsOrderedRegion

  after_op-le : (o : ArchOp) (lo : ℕ) → IsOrderedOp lo o → lo ≤ after_op lo o
  after_op-le (memory v kind size first) lo h = omega arith
  after_op-le (exec_unit v kind is_ls) lo h = omega arith
  after_op-le (group kind results shared arguments body yielded) lo h = omega (
    arith,
    after_all-le lo arguments h.1,
    after_region-le body (after_all lo arguments) h.2,
    after_all-le (after_region (after_all lo arguments) body) results h.3,
  )
  after_op-le (datapath source target) lo h = omega arith
  after_op-le other lo h = omega arith

  after_region-le : (r : Region) (lo : ℕ) → IsOrderedRegion lo r → lo ≤ after_region lo r
  after_region-le done lo h = omega arith
  after_region-le (op_then o r) lo h =
      omega (arith, after_op-le o lo h.0, after_region-le r (after_op lo o) h.1)

mutual
  unfolding after_op after_region IsOrderedOp IsOrderedRegion process_op process_region

  process_op-WalkInv :
      (o : ArchOp) (lo : ℕ) (s : Walk) (parent_mem : Option Value)
      → IsBelow lo parent_mem
      → IsOrderedOp lo o
      → WalkInv lo s
      → WalkInv (after_op lo o) (process_op s parent_mem o)
  process_op-WalkInv (memory v kind size first) lo s parent_mem b h i =
      process_memory-WalkInv lo s i parent_mem v kind size first b h
  process_op-WalkInv (exec_unit v kind is_ls) lo s parent_mem b h i =
      WalkInv-mono lo (suc v) s (omega arith) i
  process_op-WalkInv (group kind results shared arguments body yielded) lo s parent_mem b h i =
      let inner = after_all lo arguments in
      let le = after_all-le lo arguments h.1 in
      WalkInv-mono (after_region inner body) (after_all (after_region inner body) results) _
        (after_all-le (after_region inner body) results h.3)
        (process_region-WalkInv body inner s (group_parent parent_mem shared)
          (IsBelow-mono lo inner _ le (group_parent-IsBelow lo parent_mem shared b h.0)) h.2
          (WalkInv-mono lo inner s le i))
  process_op-WalkInv (datapath source target) lo s parent_mem b h i = i
  process_op-WalkInv other lo s parent_mem b h i = i

  process_region-WalkInv :
      (r : Region) (lo : ℕ) (s : Walk) (parent_mem : Option Value)
      → IsBelow lo parent_mem
      → IsOrderedRegion lo r
      → WalkInv lo s
      → WalkInv (after_region lo r) (process_region s parent_mem r)
  process_region-WalkInv done lo s parent_mem b h i = i
  process_region-WalkInv (op_then o r) lo s parent_mem b h i =
      process_region-WalkInv r (after_op lo o) (process_op s parent_mem o) parent_mem
        (IsBelow-mono lo (after_op lo o) parent_mem (after_op-le o lo h.0) b) h.1
        (process_op-WalkInv o lo s parent_mem b h.0 i)

-- Linking keeps the nodes and the forest.
record LinkInv (m : Map NodeId) (t : MemoryTree) : Type 0 where
  forest : IsForest t
  present : (v : Value) (k : NodeId) → lookup v m ≡ some k → has t.nodes k ≡ true

module _ (m : Map NodeId)
    (order : (v w : Value) (k l : NodeId)
      → lookup v m ≡ some k
      → lookup w m ≡ some l
      → v < w
      → k < l) where
  link-LinkInv : (t : MemoryTree) (c p : Value) → p < c → LinkInv m t → LinkInv m (link m t (c, p))
  unfolding link
  link-LinkInv t c p h i = elim (Option-cases (lookup c m)) [
    | inl e ↦ rw (e, link) i
    | inr (k, e) ↦ elim (Option-cases (lookup p m)) [
      | inl q ↦ rw (e, q, link) i
      | inr (l, q) ↦ rw (e, link) (rw q (linked k l e q))
    ]
  ]
    where
      linked :
          (k l : NodeId) → lookup c m ≡ some k → lookup p m ≡ some l → LinkInv m (set_parent t k l)
      linked k l e q = record {
        forest =
            set_parent-IsForest t i.forest k l (i.present c k e) (i.present p l q)
              (order p c l k q e h);
        present = λ v j g. has-set_parent t k l j ∙ i.present v j g;
      }

  link_all-LinkInv :
      (t : MemoryTree) (es : Map Value)
      → All (λ e. e.1 < e.0) es
      → LinkInv m t
      → LinkInv m (link_all m t es)
  unfolding link_all
  link_all-LinkInv t [] a i = i
  link_all-LinkInv t ((c, p) ∷ es) a i =
      link_all-LinkInv (link m t (c, p)) es a.1 (link-LinkInv t c p a.0 i)

abbrev start : Walk
start = record { tree = empty; value_to_node = []; child_to_parent = [] }

start-WalkInv : WalkInv 0 start
unfolding lookup
start-WalkInv = record {
  forest = empty-IsForest;
  known = λ v k e. cc;
  order = λ v w k l e q h. cc;
  upward = tt;
}

-- The tree built for a device whose body defines its values in ascending order is a forest: ids
-- stand under their node and below the next id, and every parent is an earlier node of the tree.
pub initialize-IsForest :
    (body : Region) (mapping : Option (List (ResourceType × ResourceType)))
    → IsOrderedRegion 0 body
    → IsForest (initialize body mapping)
unfolding initialize IsBelow
initialize-IsForest body mapping h = aliased mapping
  where
    walked : WalkInv (after_region 0 body) (process_region start none body)
    walked = process_region-WalkInv body 0 start none tt h start-WalkInv

    s : Walk
    s = process_region start none body

    linked : LinkInv s.value_to_node (link_all s.value_to_node s.tree s.child_to_parent)
    linked =
        link_all-LinkInv s.value_to_node walked.order s.tree s.child_to_parent walked.upward
          (record { forest = walked.forest; present = λ v k e. (walked.known v k e).1 })

    aliased : (o : Option (List (ResourceType × ResourceType))) → IsForest (initialize body o)
    aliased none = linked.forest
    aliased (some es) = populate_aliases-IsForest _ es linked.forest
