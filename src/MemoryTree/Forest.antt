-- ===== src/MemoryTree/Forest.antt =====
-- lib/Analysis/ArchViews/MemoryTree.cpp: every tree that the code builds is a forest whose parents
-- are made before their children, so that the loops over `parent` end.
use dataflow_scheduler.Prelude.{
  ℕ, ◌<◌, ◌≡◌, refl, ◌∙◌, inl, inr, Bool, true, false, Option, none, some, arith, Bool-cases,
  Option-cases, ◌==◌, ==_iff, ==-refl, if◌then◌else◌, List, [], ◌∷◌, ◌++◌,
}
use mathlib.Core.Option
use dataflow_scheduler.Prelude.Maps.{
  Map, Distinct, lookup, has, lookup-insert, has-insert, insert-Distinct,
}
use dataflow_scheduler.Device.{NodeId, ResourceType}
use dataflow_scheduler.MemoryTree.{
  MemoryTree, MemoryNode, parent_of, empty, add_node, new_node, set_parent, update_node,
}
use dataflow_scheduler.MemoryTree.Ancestry.{IsForest}
use dataflow_scheduler.MemoryTree.Queries.{populate_alias, populate_aliases}

pub lookup-update_node :
    (k j : NodeId) (f : MemoryNode → MemoryNode) (m : Map MemoryNode)
    → lookup j (update_node k f m) ≡ (if k == j then Option.map f (lookup j m) else lookup j m)
unfolding update_node
lookup-update_node k j f m = elim (Bool-cases (k == j)) [
  | inl e ↦ rw ((==_iff k j).0 e, ==-refl j) (self (lookup j m) refl)
  | inr e ↦ rw e (elim (Option-cases (lookup k m)) [
    | inl q ↦ rw (q, update_node)
    | inr (n, q) ↦ rw (q, update_node) (lookup-insert k j (f n) m ∙ rw e)
  ])
]
  where
    self :
        (o : Option MemoryNode)
        → lookup j m ≡ o
        → lookup j (update_node j f m) ≡ Option.map f (lookup j m)
    self none q = rw (q, update_node) q
    self (some n) q = rw (q, update_node) (lookup-insert j j (f n) m ∙ rw (==-refl j))

pub update_node-Distinct :
    (k : NodeId) (f : MemoryNode → MemoryNode) (m : Map MemoryNode)
    → Distinct m
    → Distinct (update_node k f m)
unfolding update_node
update_node-Distinct k f m h = elim (Option-cases (lookup k m)) [
  | inl q ↦ rw (q, update_node) h
  | inr (n, q) ↦ rw (q, update_node) (insert-Distinct k (f n) m h)
]

pub empty-IsForest : IsForest empty
unfolding parent_of lookup
empty-IsForest = record {
  named = λ v n e. cc;
  earlier = λ v p e. cc;
  distinct = tt;
  present = λ v p e. cc;
}

pub has-update_node :
    (k j : NodeId) (f : MemoryNode → MemoryNode) (m : Map MemoryNode)
    → has (update_node k f m) j ≡ has m j
unfolding has
has-update_node k j f m = ground (arith, lookup-update_node k j f m)

-- A change that keeps the ids of nodes finds each node under the id it had.
pub update_node-id :
    (k j : NodeId) (f : MemoryNode → MemoryNode) (m : Map MemoryNode) (n : MemoryNode)
    → ((x : MemoryNode) → (f x).id ≡ x.id)
    → lookup j (update_node k f m) ≡ some n
    → (x : MemoryNode) × (lookup j m ≡ some x) × (n.id ≡ x.id)
update_node-id k j f m n keep h = elim (Option-cases (lookup j m)) [
  | inl q ↦ absurd (empty_case (k == j) (rw (lookup-update_node k j f m, q) at h))
  | inr (x, q) ↦ (x, q, go x (k == j) (rw (lookup-update_node k j f m, q) at h))
]
  where
    empty_case : (b : Bool) → (if b then none else none) ≡ some n → ⊥
    empty_case true e = cc
    empty_case false e = cc

    go : (x : MemoryNode) (b : Bool) → (if b then some (f x) else some x) ≡ some n → n.id ≡ x.id
    go x b e = ground (arith, keep x)

pub parent_of-add_node :
    (t : MemoryTree) (r : ResourceType) (c a : Option ℕ) (v : NodeId)
    → parent_of (add_node t r c a).0 v ≡ (if t.next_node_id == v then none else parent_of t v)
unfolding parent_of add_node
parent_of-add_node t r c a v =
    ground (arith, lookup-insert t.next_node_id v (new_node t.next_node_id r c a) t.nodes)

pub parent_of-set_parent :
    (t : MemoryTree) (c p v : NodeId)
    → has t.nodes c ≡ true
    → parent_of (set_parent t c p) v ≡ (if c == v then some p else parent_of t v)
unfolding parent_of set_parent has
parent_of-set_parent t c p v h = ground (
  arith,
  lookup-update_node p v (λ n. record n { children = n.children ++ c ∷ [] })
      (update_node c (λ n. record n { parent = some p }) t.nodes),
  lookup-update_node c v (λ n. record n { parent = some p }) t.nodes,
)

pub has-set_parent :
    (t : MemoryTree) (c p v : NodeId) → has (set_parent t c p).nodes v ≡ has t.nodes v
unfolding set_parent
has-set_parent t c p v =
    has-update_node p v (λ n. record n { children = n.children ++ c ∷ [] })
      (update_node c (λ n. record n { parent = some p }) t.nodes)
    ∙ has-update_node c v (λ n. record n { parent = some p }) t.nodes

module _ (t : MemoryTree) (f : IsForest t) where
  pub add_node-IsForest : (r : ResourceType) (c a : Option ℕ) → IsForest (add_node t r c a).0
  unfolding add_node
  add_node-IsForest r c a = record {
    named = λ v n e. ground (
      arith,
      lookup-insert t.next_node_id v (new_node t.next_node_id r c a) t.nodes,
      f.named v n,
      e,
    );
    earlier = λ v p e. ground (arith, parent_of-add_node t r c a v, f.earlier v p);
    distinct = insert-Distinct t.next_node_id _ t.nodes f.distinct;
    present = λ v p e. ground (
      arith,
      parent_of-add_node t r c a v,
      f.present v p,
      has-insert t.next_node_id p (new_node t.next_node_id r c a) t.nodes,
    );
  }

  pub set_parent-IsForest :
      (c p : NodeId)
      → has t.nodes c ≡ true
      → has t.nodes p ≡ true
      → p < c
      → IsForest (set_parent t c p)
  unfolding set_parent
  set_parent-IsForest c p hc hp lt =
      let m = update_node c (λ n. record n { parent = some p }) t.nodes in
      record {
        named = λ v n e.
            let (x, q, i) = update_node-id p v _ m n (λ _. refl) e in
            let (y, q', i') = update_node-id c v _ t.nodes x (λ _. refl) q in
            ground (arith, f.named v y q');
        earlier = λ v q e. ground (arith, parent_of-set_parent t c p v, f.earlier v q);
        distinct = update_node-Distinct p _ m (update_node-Distinct c _ t.nodes f.distinct);
        present = λ v q e. ground (
          arith,
          parent_of-set_parent t c p v,
          f.present v q,
          has-update_node p q (λ n. record n { children = n.children ++ c ∷ [] }) m,
          has-update_node c q (λ n. record n { parent = some p }) t.nodes,
        );
      }

  named_alias-IsForest :
      (u : NodeId) (key : ResourceType) (m : Map NodeId)
      → IsForest (record t {
        nodes = update_node u (λ n. record n { alias = some key }) t.nodes;
        alias_to_node = m;
      })
  unfolding parent_of
  named_alias-IsForest u key m =
      let g : MemoryNode → MemoryNode = λ n. record n { alias = some key } in
      record {
        named = λ v n q.
            let (x, q', i) = update_node-id u v g t.nodes n (λ _. refl) q in
            ground (arith, f.named v x q');
        earlier = λ v p q. ground (arith, lookup-update_node u v g t.nodes, f.earlier v p);
        distinct = update_node-Distinct u g t.nodes f.distinct;
        present = λ v p q.
            ground (
              arith,
              lookup-update_node u v g t.nodes,
              f.present v p,
              has-update_node u p g t.nodes,
            );
      }

  pub populate_alias-IsForest :
      (key value : ResourceType) → IsForest (populate_alias t (key, value))
  unfolding populate_alias
  populate_alias-IsForest key value = elim (Option-cases (lookup value t.resource_to_node)) [
    | inl e ↦ rw (e, populate_alias) f
    | inr (u, e) ↦ rw (e, populate_alias) (named_alias-IsForest u key _)
  ]

pub populate_aliases-IsForest :
    (t : MemoryTree) (es : List (ResourceType × ResourceType))
    → IsForest t
    → IsForest (populate_aliases t es)
unfolding populate_aliases
populate_aliases-IsForest t [] f = f
populate_aliases-IsForest t ((key, value) ∷ es) f =
    populate_aliases-IsForest (populate_alias t (key, value)) es
      (populate_alias-IsForest t f key value)
