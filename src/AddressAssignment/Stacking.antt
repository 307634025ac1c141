-- ===== src/AddressAssignment/Stacking.antt =====
-- lib/Transforms/AddressAssignment.cpp, the pass: the allocations that a memory receives lie one after
-- the other inside its capacity, and are addressed in whole elements.
use dataflow_scheduler.Prelude.{
  ℕ, ◌+◌, ◌*◌, ◌/◌, ◌≤◌, ◌<◌, ◌≡◌, ◌≢◌, refl, sym, ap, ◌∙◌, inl, inr, Bool, true, false, ◌||◌,
  Option, none, some, List, [], ◌∷◌, All, In, arith, ◌==◌, ==_iff, ==_ne, Bool-cases, Option-cases,
  subst, contains, if◌then◌else◌,
}
use Prim.Native.Nat.{◌∣◌}
use native.Mathlib.Nat
use dataflow_scheduler.Prelude.Divides.{dvd-lcm_left, dvd-lcm_right}
use dataflow_scheduler.Prelude.Maps.{lookup, lookup-insert}
use dataflow_scheduler.Prelude.Words.{size_mod}
use dataflow_scheduler.Device.{ResourceType, Value}
use dataflow_scheduler.MemoryTree.{MemoryTree}
use dataflow_scheduler.MemoryTree.Queries.{is_global_memory, value_or}
use dataflow_scheduler.MemoryTracker.{
  MemoryTracker, Allocation, allocated, no_capacity_information, exceeds_capacity, not_tracked,
  allocate, reset, reset_one,
}
use dataflow_scheduler.MemoryTracker.Bounds.{allocate-IsPlaced}
use dataflow_scheduler.AddressAssignment.{AllocOp, get_size, try_get_size_in_bytes}
use dataflow_scheduler.AddressAssignment.Program.{
  IrOps, Named, Placement, Progress, alignment_of, settle, process_allocation, count_result,
  process_all, reusable, process_scopes, collect_allocations,
}
use dataflow_scheduler.AddressAssignment.Placements.{
  Stacked, settled, elsewhere, placed, Stacked-append, IsFailure, Keeps, allocate-Keeps, At,
  settled_byte,
}

module _ (bound_of : Value → Option ℕ) (tree : MemoryTree) (r : ResourceType) (c top : ℕ)
    (cap : c ≤ top) where
  -- The sizes and alignments of the allocation leave room in a word above `top`.
  abbrev pub IsModest : Named → Type 0
  IsModest (space, a) =
      (size bytes : ℕ)
      → get_size bound_of a ≡ some size
      → try_get_size_in_bytes a.element_type ≡ some bytes
      → (0 < alignment_of a bytes) × (top + alignment_of a bytes + size ≤ size_mod)

  abbrev Result : ℕ → MemoryTracker × Option Placement → Type 0
  Result lo (k', none) = At r c lo k'
  Result lo (k', some p) = (hi : ℕ) × At r c hi k' × (hi ≤ top) × Stacked r c lo (p ∷ []) hi

  At-Keeps :
      {k : MemoryTracker} {lo : ℕ} {q : ResourceType} {k' : MemoryTracker} {e : Allocation}
      → At r c lo k
      → r ≢ q
      → Keeps k q (k', e)
      → At r c lo k'
  At-Keeps at ne kept = record {
    next = kept.others r ne ∙ at.next;
    capacity = ap (lookup r) kept.capacities ∙ at.capacity;
  }

  At-failure :
      {k : MemoryTracker} {lo : ℕ} {q : ResourceType} {k' : MemoryTracker} {e : Allocation}
      → At r c lo k
      → IsFailure e
      → Keeps k q (k', e)
      → At r c lo k'
  At-failure {lo = lo} at h kept = subst (At r c lo) (sym (kept.failure h)) at

  settle-At :
      (k : MemoryTracker) (lo : ℕ) (space : ResourceType) (size bytes alignment : ℕ)
      (out : MemoryTracker × Allocation)
      → At r c lo k
      → lo ≤ top
      → 0 < alignment
      → top + alignment + size ≤ size_mod
      → allocate k space size alignment ≡ out
      → Keeps k space out
      → Result lo (settle space size bytes out)
  unfolding settle IsFailure
  settle-At k lo space size bytes alignment (k', allocated byte) at le positive fits e kept =
      elim (Bool-cases (r == space)) [
        | inl same ↦ mine ((==_iff r space).0 same)
        | inr other ↦
            let ne : r ≢ space = ground arith in (lo, At-Keeps at ne kept, le, elsewhere ne settled)
      ]
    where
      mine : r ≡ space → Result lo (settle space size bytes (k', allocated byte))
      mine same =
          let p =
            allocate-IsPlaced k space size alignment lo c
              (subst (λ x. lookup x k.next_address ≡ some lo) same at.next)
              (subst (λ x. lookup x k.capacities ≡ some c) same at.capacity) positive (omega arith)
              k' byte e in
          let next : lookup r k'.next_address ≡ some (byte + size) =
            subst (λ x. lookup x k'.next_address ≡ some (byte + size)) (sym same) p.advanced in
          (
            byte + size,
            record { next = next; capacity = ap (lookup r) p.same_capacities ∙ at.capacity },
            omega (arith, p.inside),
            placed same p.after refl p.inside settled,
          )
  settle-At k lo space size bytes alignment (k', no_capacity_information) at le positive fits e
        kept =
      At-failure at tt kept
  settle-At k lo space size bytes alignment (k', exceeds_capacity) at le positive fits e kept =
      At-failure at tt kept
  settle-At k lo space size bytes alignment (k', not_tracked) at le positive fits e kept =
      At-failure at tt kept

  process_allocation-At :
      (k : MemoryTracker) (lo : ℕ) (n : Named)
      → At r c lo k
      → lo ≤ top
      → IsModest n
      → Result lo (process_allocation bound_of tree k n)
  unfolding process_allocation
  process_allocation-At k lo (space, a) at le modest = elim (Option-cases (get_size bound_of a)) [
    | inl e ↦ rw (e, process_allocation) at
    | inr (size, e) ↦ elim (Option-cases (try_get_size_in_bytes a.element_type)) [
      | inl e' ↦ rw (e, process_allocation, e') at
      | inr (bytes, e') ↦
          let (positive, fits) = modest size bytes e e' in
          rw (e, process_allocation, e')
            (settle-At k lo space size bytes (alignment_of a bytes) _ at le positive fits refl
              (allocate-Keeps k space size (alignment_of a bytes)))
    ]
  ]

  -- After a list of allocations.
  abbrev pub Run : ℕ → Progress → Type 0
  Run lo p = (hi : ℕ) × At r c hi p.tracker × (hi ≤ top) × Stacked r c lo p.placements hi

  -- The allocations of one scope that a tracked memory receives lie one after the other inside its
  -- capacity, from where the tracker stood, for a tracker that stands at or below a limit no less
  -- than the capacity, where each alignment is positive and fits with its size into a word above
  -- the limit.
  pub process_all-Run :
      (k : MemoryTracker) (lo : ℕ) (allocs : List Named)
      → At r c lo k
      → lo ≤ top
      → All IsModest allocs
      → Run lo (process_all bound_of tree k allocs)
  unfolding process_all count_result
  process_all-Run k lo [] at le modest = (lo, at, le, settled)
  process_all-Run k lo (a ∷ as') at le modest =
      go (process_allocation bound_of tree k a) (process_allocation-At k lo a at le modest.0)
        (λ k' lo' at' le'. process_all-Run k' lo' as' at' le' modest.1)
    where
      go :
          (out : MemoryTracker × Option Placement)
          → Result lo out
          → ((k' : MemoryTracker) (lo' : ℕ)
              → At r c lo' k'
              → lo' ≤ top
              → Run lo' (process_all bound_of tree k' as'))
          → Run lo (count_result out.1 (process_all bound_of tree out.0 as'))
      go (k', none) at' rec = rec k' lo at' le
      go (k', some p) (mid, at', le', s) rec =
          let (hi, at'', le'', s') = rec k' mid at' le' in (hi, at'', le'', Stacked-append s s')

  -- A reset that does not name `r` leaves it where it is.
  reset-At :
      (k : MemoryTracker) (lo : ℕ) (rs : List ResourceType)
      → ¬ In r rs
      → At r c lo k
      → At r c lo (reset k rs)
  unfolding reset
  reset-At k lo [] out at = at
  reset-At k lo (q ∷ rs) out at =
      reset-At (reset_one k q) lo rs (λ m. out (inr m)) (kept (λ e. out (inl e)))
    where
      kept : q ≢ r → At r c lo (reset_one k q)
      kept ne = elim (Option-cases (lookup q k.next_address)) [
        | inl e ↦ rw (e, reset_one) at
        | inr (n, e) ↦
            rw (e, reset_one)
              (record {
                next = lookup-insert q r _ k.next_address ∙ rw (==_ne q r ne) at.next;
                capacity = at.capacity;
              })
      ]

  -- Global memory is never among the memories that start over.
  reusable-global :
      (allocs : List Named) → is_global_memory tree r ≡ true → ¬ In r (reusable tree allocs)
  unfolding reusable
  reusable-global [] g m = m
  reusable-global ((space, a) ∷ allocs) g m =
      go (is_global_memory tree space || contains (reusable tree allocs) space) refl m
        (reusable-global allocs g)
    where
      go :
          (b : Bool)
          → (is_global_memory tree space || contains (reusable tree allocs) space) ≡ b
          → In r (if b then reusable tree allocs else space ∷ reusable tree allocs)
          → ¬ In r (reusable tree allocs)
          → ⊥
      go true e n rec = rec n
      go false e (inl same) rec = cc (rw (same, g) at e)
      go false e (inr n) rec = rec n

  abbrev pub IsModestScope : IrOps → Type 0
  IsModestScope scope = All IsModest (collect_allocations scope)

  -- Over the scopes of a module, the allocations that a global memory receives lie one after the
  -- other inside its capacity, from where the tracker stood, for a tracker that stands at or below
  -- a limit no less than the capacity, where each alignment is positive and fits with its size
  -- into a word above the limit.
  pub process_scopes-Run :
      (k : MemoryTracker) (lo : ℕ) (scopes : List IrOps)
      → is_global_memory tree r ≡ true
      → At r c lo k
      → lo ≤ top
      → All IsModestScope scopes
      → Run lo (process_scopes bound_of tree k scopes)
  unfolding process_scopes
  process_scopes-Run k lo [] g at le modest = (lo, at, le, settled)
  process_scopes-Run k lo (scope ∷ scopes) g at le modest =
      let allocs = collect_allocations scope in
      let here = process_all bound_of tree (reset k (reusable tree allocs)) allocs in
      let (mid, at', le', s) =
        process_all-Run (reset k (reusable tree allocs)) lo allocs
          (reset-At k lo (reusable tree allocs) (reusable-global allocs g) at) le modest.0 in
      let (hi, at'', le'', s') = process_scopes-Run here.tracker mid scopes g at' le' modest.1 in
      (hi, at'', le'', Stacked-append s s')

  -- The address written for an allocation that is granted counts whole elements up to its byte
  -- address, and the byte address has the alignment that the allocation asks for, for a tracker
  -- that stands at or below a limit no less than the capacity, where each alignment is positive
  -- and fits with its size into a word above the limit.
  pub process_allocation-address :
      (k k' : MemoryTracker) (lo bytes : ℕ) (a : AllocOp) (p : Placement)
      → At r c lo k
      → lo ≤ top
      → IsModest (r, a)
      → try_get_size_in_bytes a.element_type ≡ some bytes
      → process_allocation bound_of tree k (r, a) ≡ (k', some p)
      → (p.address * bytes ≡ p.byte_address) × (value_or a.alignment 1 ∣ p.byte_address)
  unfolding process_allocation alignment_of settle
  process_allocation-address k k' lo bytes a p at le modest e' h =
      elim (Option-cases (get_size bound_of a)) [
        | inl e ↦ cc (rw (e, process_allocation) at h)
        | inr (size, e) ↦
            let (positive, fits) = modest size bytes e e' in
            go size positive fits _ (rw (e, process_allocation, e') at h) refl
      ]
    where
      go :
          (size : ℕ)
          → 0 < alignment_of a bytes
          → top + alignment_of a bytes + size ≤ size_mod
          → (out : MemoryTracker × Allocation) → settle r size bytes out ≡ (k', some p)
          → allocate k r size (alignment_of a bytes) ≡ out
          → (p.address * bytes ≡ p.byte_address) × (value_or a.alignment 1 ∣ p.byte_address)
      go size positive fits (k₁, allocated byte) q g =
          let placed =
            allocate-IsPlaced k r size (alignment_of a bytes) lo c at.next at.capacity positive
              (omega arith) k₁ byte g in
          let whole = Nat.dvd_of_mod-eq-zero (alignment_of a bytes) placed.aligned in
          let same : byte ≡ p.byte_address = (settled_byte k₁ k' r size bytes byte p q).0 in
          let unit : byte / bytes ≡ p.address = (settled_byte k₁ k' r size bytes byte p q).1 in
          (
            rw (← unit, ← same)
                (Nat.div-mul_cancel bytes
                  (Nat.dvd_trans bytes (dvd-lcm_right (value_or a.alignment 1) bytes) whole)),
            rw (← same) (
                Nat.dvd_trans (value_or a.alignment 1) (dvd-lcm_left (value_or a.alignment 1) bytes)
                  whole),
          )
      go size positive fits (k₁, no_capacity_information) q g = cc
      go size positive fits (k₁, exceeds_capacity) q g = cc
      go size positive fits (k₁, not_tracked) q g = cc
