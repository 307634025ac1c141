-- ===== src/MemoryTree/RouteCorrect.antt =====
-- lib/Analysis/ArchViews/MemoryTree.cpp, `getPath`: the path between two memories of one tree follows
-- links from the first to the second; to a memory at or above the source it passes through the target
-- and comes back.
use dataflow_scheduler.Prelude.{
  ℕ, ◌≡◌, refl, ap, ◌∙◌, inl, inr, ◌≢◌, ◌<◌, ◌≤◌, zero, suc, true, false, some, List, [], ◌∷◌, ◌++◌,
  reverse, arith, In, contains, contains→In, In→contains, ==-refl, ==_ne, Bool-cases,
}
use dataflow_scheduler.Prelude.Maps.{has}
use dataflow_scheduler.Device.{NodeId}
use dataflow_scheduler.MemoryTree.{MemoryTree, parent_of}
use dataflow_scheduler.MemoryTree.Ancestry.{
  IsForest, Below, child, deeper, has-lt, parent_of-has, Below-has,
}
use dataflow_scheduler.MemoryTree.Route.{
  source_ancestors, target_loop, source_loop, without, get_path,
}
use dataflow_scheduler.MemoryTree.RouteLinks.{
  Linked, AtOrAbove, Chain, single, climb, Linked-down, target_loop-Chain, target_loop-found,
  source_ancestors-In, In-source_ancestors, source_loop-Linked,
}

-- Some node is at or above both.
abbrev pub Related : MemoryTree → NodeId → NodeId → Type 0
Related t s d = (a : NodeId) × AtOrAbove t s a × AtOrAbove t d a

Chain-AtOrAbove :
    {t : MemoryTree} {v a : NodeId} {vs : List NodeId} → Chain t v a vs → AtOrAbove t v a
Chain-AtOrAbove single = inl refl
Chain-AtOrAbove {t} (climb {v = v} {p = p} {a = a} e c) = go (Chain-AtOrAbove c)
  where
    go : AtOrAbove t p a → AtOrAbove t v a
    go (inl same) = inr (child (e ∙ ap some same))
    go (inr b) = inr (deeper e b)

AtOrAbove-parent :
    (t : MemoryTree) (v x p : NodeId) → AtOrAbove t v x → parent_of t x ≡ some p → AtOrAbove t v p
AtOrAbove-parent t v x p (inl same) e = inr (child (rw same e))
AtOrAbove-parent t v x p (inr b) e = inr (extend b e)
  where
    extend : {y z : NodeId} → Below t y z → parent_of t z ≡ some p → Below t y p
    extend (child q) g = deeper q (child g)
    extend (deeper q c) g = deeper q (extend c g)

module _ (t : MemoryTree) (f : IsForest t) (s d : NodeId) (hs : has t.nodes s ≡ true)
    (hd : has t.nodes d ≡ true) where
  abbrev anc : List NodeId
  anc = source_ancestors t.next_node_id t s

  abbrev met : NodeId
  met = (target_loop t.next_node_id t anc d).1

  closed : (x p : NodeId) → In x anc → parent_of t x ≡ some p → In p anc
  closed x p m e =
      source_ancestors-In t f t.next_node_id s p (has-lt t f s hs)
        (AtOrAbove-parent t s x p (In-source_ancestors t f t.next_node_id s x m) e)

  get_path-met : In met anc → Linked t s d (get_path t s d)
  unfolding get_path
  get_path-met m =
      rw (hs, hd, In→contains anc met m)
        (Linked-down t f d met (target_loop t.next_node_id t anc d).0 _
          (target_loop-Chain t f t.next_node_id anc d)
          (source_loop-Linked t f t.next_node_id s met (has-lt t f s hs)
            (In-source_ancestors t f t.next_node_id s met m)))

  -- In a forest, the path between two nodes that are in it and that share a node at or above both
  -- walks along links from the first to the second.
  pub get_path-Linked : Related t s d → Linked t s d (get_path t s d)
  get_path-Linked (a, hsa, hda) = get_path-met (
      target_loop-found t f t.next_node_id anc d a (has-lt t f d hd) closed hda
        (source_ancestors-In t f t.next_node_id s a (has-lt t f s hs) hsa))

  -- In a forest, the path between two nodes that are in it and share no node at or above both is
  -- empty.
  pub get_path_none : ¬ Related t s d → get_path t s d ≡ []
  unfolding get_path
  get_path_none no_shared = rw (hs, hd, missed)
    where
      missed : contains anc met ≡ false
      missed = elim (Bool-cases (contains anc met)) [
        | inl hit ↦ absurd (
            no_shared (
              met,
              In-source_ancestors t f t.next_node_id s met (contains→In anc met hit),
              Chain-AtOrAbove (target_loop-Chain t f t.next_node_id anc d),
            ))
        | inr miss ↦ miss
      ]

target_loop-hit :
    (fuel : ℕ) (t : MemoryTree) (anc : List NodeId) (d p : NodeId)
    → 0 < fuel
    → parent_of t d ≡ some p
    → contains anc p ≡ true
    → target_loop fuel t anc d ≡ (d ∷ p ∷ [], p)
unfolding target_loop
target_loop-hit zero t anc d p h e hit = absurd (omega arith)
target_loop-hit (suc fuel) t anc d p h e hit = rw (e, target_loop, hit)

without-top : (d p : NodeId) → d ≢ p → without p (reverse (d ∷ p ∷ [])) ≡ d ∷ []
unfolding without
without-top d p h = rw (==-refl p, ==_ne d p h)

module _ (t : MemoryTree) (f : IsForest t) where
  AtOrAbove-le : {v a : NodeId} → AtOrAbove t v a → a ≤ v
  AtOrAbove-le (inl same) = omega arith
  AtOrAbove-le (inr (child {d = v} {a = a} e)) = omega (arith, f.earlier v a e)
  AtOrAbove-le (inr (deeper {d = v} {p = p} e b)) =
      omega (arith, f.earlier v p e, AtOrAbove-le (inr b))

  -- On the way up to the parent of `d` the source loop passes `d`.
  source_loop-passes :
      (fuel : ℕ) (v d p : NodeId)
      → v < fuel
      → AtOrAbove t v d
      → parent_of t d ≡ some p
      → In d (source_loop fuel t p v)
  unfolding source_loop
  source_loop-passes zero v d p h k e = absurd (omega arith)
  source_loop-passes (suc fuel) v d p h (inl same) e =
      let far : v ≢ p = omega (arith, f.earlier d p e) in rw (==_ne v p far) (inl same)
  source_loop-passes (suc fuel) v d p h (inr (child q)) e =
      let far : v ≢ p = omega (arith, f.earlier d p e, f.earlier v d q) in
      rw (==_ne v p far, q, source_loop)
        (inr (source_loop-passes fuel d d p (omega (arith, f.earlier v d q)) (inl refl) e))
  source_loop-passes (suc fuel) v d p h (inr (deeper {p = u} q b)) e =
      let far : v ≢ p = omega (arith, f.earlier d p e, f.earlier v u q, AtOrAbove-le (inr b)) in
      rw (==_ne v p far, q, source_loop)
        (inr (source_loop-passes fuel u d p (omega (arith, f.earlier v u q)) (inr b) e))

  -- In a forest, the path to a node that is the source or lies above it, and is no root, goes through
  -- that node before its end: it climbs to the parent of the target and comes back down.
  pub get_path-detour :
      (s d p : NodeId)
      → AtOrAbove t s d
      → parent_of t d ≡ some p
      → (xs : List NodeId) × (get_path t s d ≡ xs ++ d ∷ []) × In d xs
  unfolding get_path
  get_path-detour s d p k e =
      let hd = parent_of-has t d p e in
      let hs = AtOrAbove-has k hd in
      let lt = has-lt t f s hs in
      let inside = source_ancestors-In t f t.next_node_id s p lt (AtOrAbove-parent t s d p k e) in
      let hit = In→contains (source_ancestors t.next_node_id t s) p inside in
      let far : d ≢ p = omega (arith, f.earlier d p e) in
      (
        source_loop t.next_node_id t p s,
        rw (
          hs,
          hd,
          target_loop-hit t.next_node_id t (source_ancestors t.next_node_id t s) d p (omega arith) e
              hit,
          hit,
          without-top d p far,
        ),
        source_loop-passes t.next_node_id s d p lt k e,
      )
    where
      AtOrAbove-has : {v a : NodeId} → AtOrAbove t v a → has t.nodes a ≡ true → has t.nodes v ≡ true
      AtOrAbove-has (inl same) h = rw same h
      AtOrAbove-has (inr b) h = (Below-has t f b).0
