-- ===== src/MemoryTree/RouteLinks.antt =====
-- lib/Analysis/ArchViews/MemoryTree.cpp, `getPath`: where its result leads, when there is one, and
-- what it is when the target lies above the source.
use dataflow_scheduler.Prelude.{
  ℕ, zero, suc, ◌<◌, ◌≤◌, ◌≡◌, ◌≢◌, subst, ◌⊎◌, inl, inr, false, none, some, List, [], ◌∷◌, ◌++◌,
  reverse, arith, In, contains, contains→In, In→contains, Bool-cases, Option-cases, ◌==◌, ==_iff,
  ==-refl, ==_ne,
}
use mathlib.Core.Logic.{⊎_elim}
use mathlib.Core.List.{reverse-cons, append_assoc, append-nil}
use dataflow_scheduler.Device.{NodeId}
use dataflow_scheduler.MemoryTree.{MemoryTree, parent_of}
use dataflow_scheduler.MemoryTree.Ancestry.{IsForest, Below, child, deeper}
use dataflow_scheduler.MemoryTree.Route.{source_ancestors, target_loop, source_loop, without}

-- A walk along parent and child links, with the nodes it visits.
pub data Linked (t : MemoryTree) : NodeId → NodeId → List NodeId → Type 0 where
  stop : {v : NodeId} → Linked t v v (v ∷ [])
  up :
      {v p w : NodeId} {vs : List NodeId}
      → parent_of t v ≡ some p
      → Linked t p w vs
      → Linked t v w (v ∷ vs)
  down :
      {v c w : NodeId} {vs : List NodeId}
      → parent_of t c ≡ some v
      → Linked t c w vs
      → Linked t v w (v ∷ vs)

-- `a` is `v` or lies above it.
abbrev pub AtOrAbove : MemoryTree → NodeId → NodeId → Type 0
AtOrAbove t v a = (v ≡ a) ⊎ Below t v a

-- The way up from a node to one above it.
pub data Chain (t : MemoryTree) : NodeId → NodeId → List NodeId → Type 0 where
  single : {v : NodeId} → Chain t v v (v ∷ [])
  climb :
      {v p a : NodeId} {vs : List NodeId}
      → parent_of t v ≡ some p
      → Chain t p a vs
      → Chain t v a (v ∷ vs)

Linked-snoc :
    {t : MemoryTree} {v p c : NodeId} {vs : List NodeId}
    → Linked t v p vs
    → parent_of t c ≡ some p
    → Linked t v c (vs ++ c ∷ [])
Linked-snoc stop e = down e stop
Linked-snoc (up q l) e = up q (Linked-snoc l e)
Linked-snoc (down q l) e = down q (Linked-snoc l e)

without-snoc :
    (a v : NodeId) (vs : List NodeId) → v ≢ a → without a (vs ++ v ∷ []) ≡ without a vs ++ v ∷ []
unfolding without
without-snoc a v [] h = rw (==_ne v a h)
without-snoc a v (x ∷ vs) h = ground (arith, without-snoc a v vs h)

module _ (t : MemoryTree) (f : IsForest t) where
  Chain-le : {v a : NodeId} {vs : List NodeId} → Chain t v a vs → a ≤ v
  Chain-le single = omega arith
  Chain-le (climb {v = v} {p = p} e c) = omega (arith, f.earlier v p e, Chain-le c)

  -- The way down is the way up read backwards, without its top.
  pub Linked-down :
      {s : NodeId} (v a : NodeId) (vs ws : List NodeId)
      → Chain t v a vs
      → Linked t s a ws
      → Linked t s v (ws ++ without a (reverse vs))
  unfolding without
  Linked-down v a vs ws single l = rw (==-refl a, without, append-nil) l
  Linked-down v a vs ws (climb {p = p} {vs = rest} e c) l =
      let far : v ≢ a = omega (arith, f.earlier v p e, Chain-le c) in
      rw
        (
          reverse-cons v rest,
          without-snoc a v (reverse rest) far,
          ← append_assoc ws (without a (reverse rest)) (v ∷ []),
        )
        (Linked-snoc (Linked-down p a rest ws c l) e)

  pub target_loop-Chain :
      (fuel : ℕ) (anc : List NodeId) (v : NodeId)
      → Chain t v (target_loop fuel t anc v).1 (target_loop fuel t anc v).0
  unfolding target_loop
  target_loop-Chain zero anc v = single
  target_loop-Chain (suc fuel) anc v = elim (Option-cases (parent_of t v)) [
    | inl e ↦ rw (e, target_loop) single
    | inr (p, e) ↦ elim (Bool-cases (contains anc p)) [
      | inl hit ↦ rw (e, target_loop, hit) (climb e single)
      | inr miss ↦ rw (e, target_loop, miss) (climb e (target_loop-Chain fuel anc p))
    ]
  ]

  pub source_ancestors-In :
      (fuel : ℕ) (v a : NodeId) → v < fuel → AtOrAbove t v a → In a (source_ancestors fuel t v)
  unfolding source_ancestors
  source_ancestors-In zero v a h k = absurd (omega arith)
  source_ancestors-In (suc fuel) v a h k = elim (Option-cases (parent_of t v)) [
    | inl e ↦ rw (e, source_ancestors) (inl (top e k))
    | inr (p, e) ↦
        rw (e, source_ancestors)
          (go p e k (λ k'. source_ancestors-In fuel p a (omega (arith, f.earlier v p e)) k'))
  ]
    where
      top : parent_of t v ≡ none → AtOrAbove t v a → v ≡ a
      top e (inl same) = same
      top e (inr (child q)) = cc
      top e (inr (deeper q b)) = cc

      go :
          (p : NodeId)
          → parent_of t v ≡ some p
          → AtOrAbove t v a
          → (AtOrAbove t p a → In a (source_ancestors fuel t p))
          → (v ≡ a) ⊎ In a (source_ancestors fuel t p)
      go p e (inl same) rec = inl same
      go p e (inr (child q)) rec = inr (rec (inl (cc)))
      go p e (inr (deeper {p = q} g b)) rec =
          let same : q ≡ p = cc in inr (rec (inr (subst (λ x. Below t x a) same b)))

  pub In-source_ancestors :
      (fuel : ℕ) (v a : NodeId) → In a (source_ancestors fuel t v) → AtOrAbove t v a
  unfolding source_ancestors
  In-source_ancestors zero v a (inl e) = inl e
  In-source_ancestors zero v a (inr m) = absurd m
  In-source_ancestors (suc fuel) v a k = elim (Option-cases (parent_of t v)) [
    | inl e ↦ last (rw (e, source_ancestors) at k)
    | inr (p, e) ↦
        ⊎_elim inl (λ m. inr (extend p e (In-source_ancestors fuel p a m)))
          (rw (e, source_ancestors) at k)
  ]
    where
      last : (v ≡ a) ⊎ ⊥ → AtOrAbove t v a
      last (inl e) = inl e
      last (inr m) = absurd m

      extend : (p : NodeId) → parent_of t v ≡ some p → AtOrAbove t p a → Below t v a
      extend p e (inl same) = child (rw (← same) e)
      extend p e (inr b) = deeper e b

  pub source_loop-Linked :
      (fuel : ℕ) (v a : NodeId) → v < fuel → AtOrAbove t v a → Linked t v a (source_loop fuel t a v)
  unfolding source_loop
  source_loop-Linked zero v a h k = absurd (omega arith)
  source_loop-Linked (suc fuel) v a h k = elim (Bool-cases (v == a)) [
    | inl same ↦
        rw (same, source_loop) (subst (λ x. Linked t v x (v ∷ [])) ((==_iff v a).0 same) stop)
    | inr differ ↦ elim (Option-cases (parent_of t v)) [
      | inl e ↦ absurd (stuck e k differ)
      | inr (p, e) ↦
          rw (differ, source_loop, e)
            (up e
              (source_loop-Linked fuel p a (omega (arith, f.earlier v p e)) (next p e k differ)))
    ]
  ]
    where
      stuck : parent_of t v ≡ none → AtOrAbove t v a → (v == a) ≡ false → ⊥
      stuck e (inl same) d = ground arith
      stuck e (inr (child q)) d = cc
      stuck e (inr (deeper q b)) d = cc

      next :
          (p : NodeId)
          → parent_of t v ≡ some p
          → AtOrAbove t v a
          → (v == a) ≡ false
          → AtOrAbove t p a
      next p e (inl same) d = absurd (ground arith)
      next p e (inr (child q)) d = inl (cc)
      next p e (inr (deeper {p = q} g b)) d =
          let same : q ≡ p = cc in inr (subst (λ x. Below t x a) same b)

  -- Walking up from the target stops at a node among the ancestors of the source, if there is any.
  pub target_loop-found :
      (fuel : ℕ) (anc : List NodeId) (v a : NodeId)
      → v < fuel
      → ((x p : NodeId) → In x anc → parent_of t x ≡ some p → In p anc)
      → AtOrAbove t v a
      → In a anc
      → In (target_loop fuel t anc v).1 anc
  unfolding target_loop
  target_loop-found zero anc v a h closed k m = absurd (omega arith)
  target_loop-found (suc fuel) anc v a h closed k m = elim (Option-cases (parent_of t v)) [
    | inl e ↦ rw (e, target_loop) (top e k)
    | inr (p, e) ↦ elim (Bool-cases (contains anc p)) [
      | inl hit ↦ rw (e, target_loop, hit) (contains→In anc p hit)
      | inr miss ↦
          rw (e, target_loop, miss)
            (target_loop-found fuel anc p a (omega (arith, f.earlier v p e)) closed
              (next p e miss k) m)
    ]
  ]
    where
      top : parent_of t v ≡ none → AtOrAbove t v a → In v anc
      top e (inl same) = rw same m
      top e (inr (child q)) = cc
      top e (inr (deeper q b)) = cc

      next :
          (p : NodeId)
          → parent_of t v ≡ some p
          → contains anc p ≡ false
          → AtOrAbove t v a
          → AtOrAbove t p a
      next p e miss (inl same) = cc (In→contains anc p (closed v p (rw same m) e))
      next p e miss (inr (child q)) = inl (cc)
      next p e miss (inr (deeper {p = q} g b)) =
          let same : q ≡ p = cc in inr (subst (λ x. Below t x a) same b)
