-- ===== src/MemoryTracker.antt =====
-- lib/Analysis/MemoryTracker.cpp: a bump allocator for each memory with a capacity. Addresses and
-- sizes are `size_t`, so the sums wrap at 2^64. `DenseMap` is an association list.
pub mod Bounds
pub mod Examples
use dataflow_scheduler.Prelude.{
  ℕ, ◌-◌, ◌%◌, Bool, true, false, Option, none, some, List, [], ◌∷◌, ◌==◌, leb, ltb, if◌then◌else◌,
}
use dataflow_scheduler.Prelude.Maps.{Map, lookup, insert}
use dataflow_scheduler.Prelude.Words.{add64, sub64}
use dataflow_scheduler.Device.{ResourceType, NodeId}
use dataflow_scheduler.MemoryTree.{MemoryTree, MemoryNode, get_all_node_ids, get_node}
use dataflow_scheduler.MemoryTree.Queries.{value_or}

pub record MemoryTracker : Type 0 where
  pub capacities : Map ℕ
  pub reserved : Map ℕ
  pub next_address : Map ℕ

abbrev pub blank : MemoryTracker
blank = record { capacities = []; reserved = []; next_address = [] }

-- A node without a capacity is not tracked.
unfoldable pub track_node : MemoryTracker → MemoryNode → MemoryTracker
track_node k n = elim n.capacity_in_bytes [
  | none ↦ k
  | some c ↦ record {
    capacities = insert n.memory_resource c k.capacities;
    reserved = insert n.memory_resource (value_or n.reserved_in_bytes 0) k.reserved;
    next_address = insert n.memory_resource (value_or n.reserved_in_bytes 0) k.next_address;
  }
]

unfoldable pub track_ids : MemoryTree → MemoryTracker → List NodeId → MemoryTracker
unfolding track_node
track_ids t k [] = k
track_ids t k (v ∷ vs) = track_ids t (elim (get_node t v) [ none ↦ k | some n ↦ track_node k n ]) vs

unfoldable pub make_tracker : MemoryTree → MemoryTracker
unfolding track_ids
make_tracker t = track_ids t blank (get_all_node_ids t)

-- Round up to the next multiple of the alignment.
unfoldable pub align_address : ℕ → ℕ → ℕ
align_address address alignment =
    if leb alignment 1
    then address
    else let remainder = address % alignment in
      if remainder == 0 then address else add64 address (alignment - remainder)

-- `llvm::Expected<size_t>`; `not_tracked` is the failed assertion on an unknown memory.
pub data Allocation : Type 0 where
  allocated : ℕ → Allocation
  no_capacity_information exceeds_capacity not_tracked : Allocation

-- The tracker after the call, and the result.
unfoldable pub allocate : MemoryTracker → ResourceType → ℕ → ℕ → MemoryTracker × Allocation
allocate k resource size_in_bytes alignment = elim (lookup resource k.next_address) [
  | none ↦ (k, not_tracked)
  | some current_address ↦
      let aligned_address = align_address current_address alignment in
      let new_next_address = add64 aligned_address size_in_bytes in
      elim (lookup resource k.capacities) [
        | none ↦ (k, no_capacity_information)
        | some capacity ↦ if ltb capacity new_next_address then (k, exceeds_capacity) else (
          record k { next_address = insert resource new_next_address k.next_address },
          allocated aligned_address,
        )
      ]
]

unfoldable pub get_next_available_address : MemoryTracker → ResourceType → Option ℕ
get_next_available_address k resource = lookup resource k.next_address

-- `none` is the failed assertion on an unknown memory.
unfoldable pub get_total_allocated : MemoryTracker → ResourceType → Option ℕ
get_total_allocated k resource = elim (lookup resource k.reserved) [
  | none ↦ none
  | some r ↦ elim (lookup resource k.next_address) [ none ↦ none | some n ↦ some (sub64 n r) ]
]

unfoldable pub reset_one : MemoryTracker → ResourceType → MemoryTracker
reset_one k resource = elim (lookup resource k.next_address) [
  | none ↦ k
  | some _ ↦ record k {
    next_address = insert resource (value_or (lookup resource k.reserved) 0) k.next_address;
  }
]

unfoldable pub reset : MemoryTracker → List ResourceType → MemoryTracker
unfolding reset_one
reset k [] = k
reset k (r ∷ rs) = reset (reset_one k r) rs
