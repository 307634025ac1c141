-- ===== src/AddressAssignment/Placements.antt =====
-- lib/Transforms/AddressAssignment.cpp and lib/Analysis/MemoryTracker.cpp: placements that lie one after
-- the other in a memory, and what a call of the tracker leaves alone.
use dataflow_scheduler.Prelude.{
  ℕ, ◌+◌, ◌/◌, ◌≤◌, ◌≡◌, ◌≢◌, refl, sym, ◌∙◌, inl, inr, Bool, true, false, some, List, [], ◌∷◌,
  ◌++◌, arith, ==_ne, Option-cases, ltb, if◌then◌else◌,
}
use dataflow_scheduler.Prelude.Maps.{lookup, insert, lookup-insert}
use dataflow_scheduler.Prelude.Words.{add64}
use dataflow_scheduler.Device.{ResourceType}
use dataflow_scheduler.MemoryTracker.{
  MemoryTracker, Allocation, allocated, no_capacity_information, exceeds_capacity, not_tracked,
  allocate, align_address,
}
use dataflow_scheduler.AddressAssignment.Program.{Placement, settle}

-- The placements in memory `r` of a list, from address `lo` on: each starts where the one before it
-- ends or later, and all lie inside the capacity `c`; the last ends at `hi`, or `hi` is `lo`.
pub data Stacked (r : ResourceType) (c : ℕ) : ℕ → List Placement → ℕ → Type 0 where
  settled : {lo : ℕ} → Stacked r c lo [] lo
  elsewhere :
      {lo hi : ℕ} {p : Placement} {ps : List Placement}
      → r ≢ p.space
      → Stacked r c lo ps hi
      → Stacked r c lo (p ∷ ps) hi
  placed :
      {lo hi end : ℕ} {p : Placement} {ps : List Placement}
      → r ≡ p.space
      → lo ≤ p.byte_address
      → end ≡ p.byte_address + p.size
      → end ≤ c
      → Stacked r c end ps hi
      → Stacked r c lo (p ∷ ps) hi

pub Stacked-append :
    {r : ResourceType} {c lo mid hi : ℕ} {ps qs : List Placement}
    → Stacked r c lo ps mid
    → Stacked r c mid qs hi
    → Stacked r c lo (ps ++ qs) hi
Stacked-append settled t = t
Stacked-append (elsewhere ne s) t = elsewhere ne (Stacked-append s t)
Stacked-append (placed e le q fit s) t = placed e le q fit (Stacked-append s t)

unfoldable pub IsFailure : Allocation → Type 0
IsFailure (allocated a) = ⊥
IsFailure no_capacity_information = Unit {0}
IsFailure exceeds_capacity = Unit {0}
IsFailure not_tracked = Unit {0}

-- What a call leaves alone: all other memories, all capacities, and everything if it fails.
pub record Keeps (k : MemoryTracker) (q : ResourceType) (out : MemoryTracker × Allocation)
    : Type 0 where
  pub others : (r : ResourceType) → r ≢ q → lookup r out.0.next_address ≡ lookup r k.next_address
  pub capacities : out.0.capacities ≡ k.capacities
  pub reserved : out.0.reserved ≡ k.reserved
  pub failure : IsFailure out.1 → out.0 ≡ k

unchanged : (k : MemoryTracker) (q : ResourceType) (e : Allocation) → Keeps k q (k, e)
unchanged k q e = record {
  others = λ r ne. refl;
  capacities = refl;
  reserved = refl;
  failure = λ h. refl;
}

pub allocate-Keeps :
    (k : MemoryTracker) (q : ResourceType) (size alignment : ℕ)
    → Keeps k q (allocate k q size alignment)
unfolding allocate IsFailure
allocate-Keeps k q size alignment = elim (Option-cases (lookup q k.next_address)) [
  | inl e ↦ rw (e, allocate) (unchanged k q not_tracked)
  | inr (n, e) ↦ elim (Option-cases (lookup q k.capacities)) [
    | inl e' ↦ rw (e, allocate, e') (unchanged k q no_capacity_information)
    | inr (c, e') ↦
        rw (e, allocate, e')
          (decided (add64 (align_address n alignment) size) (align_address n alignment)
            (ltb c (add64 (align_address n alignment) size)))
  ]
]
  where
    granted :
        (new a : ℕ)
        → Keeps k q (record k { next_address = insert q new k.next_address }, allocated a)
    granted new a = record {
      others = λ r ne. lookup-insert q r new k.next_address ∙ rw (==_ne q r (λ e. ne (sym e)));
      capacities = refl;
      reserved = refl;
      failure = λ h. absurd h;
    }

    decided :
        (new a : ℕ) (refuse : Bool)
        → Keeps k q (
            if refuse
            then (k, exceeds_capacity)
            else (record k { next_address = insert q new k.next_address }, allocated a))
    decided new a true = unchanged k q exceeds_capacity
    decided new a false = granted new a

-- For memory `r` of capacity `c`: where the tracker has got to.
pub record At (r : ResourceType) (c lo : ℕ) (k : MemoryTracker) : Type 0 where
  pub next : lookup r k.next_address ≡ some lo
  pub capacity : lookup r k.capacities ≡ some c

pub settled_byte :
    (k₁ k' : MemoryTracker) (r : ResourceType) (size bytes byte : ℕ) (p : Placement)
    → settle r size bytes (k₁, allocated byte) ≡ (k', some p)
    → (byte ≡ p.byte_address) × (byte / bytes ≡ p.address)
unfolding settle
settled_byte k₁ k' r size bytes byte p e = ground (arith, e)
