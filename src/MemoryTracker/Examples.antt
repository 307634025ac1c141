-- ===== src/MemoryTracker/Examples.antt =====
-- The tracker of the example device, and the theorems of the memory tracker at it.
use dataflow_scheduler.Prelude.{ℕ, ◌+◌, ◌%◌, ◌≤◌, ◌<◌, ◌≡◌, refl, ◌↔◌, some, [], ◌∷◌, arith}
use dataflow_scheduler.Prelude.Maps.{lookup, insert}
use dataflow_scheduler.Prelude.Words.{size_mod}
use dataflow_scheduler.MemoryTree.{get_node, get_all_node_ids, ids_where}
use dataflow_scheduler.MemoryTree.Examples.{device_tree}
use dataflow_scheduler.MemoryTracker.{
  MemoryTracker, allocated, exceeds_capacity, track_node, track_ids, make_tracker, align_address,
  allocate, get_total_allocated, reset, reset_one,
}
use dataflow_scheduler.MemoryTracker.Bounds.{
  align_address_lem, IsPlaced, allocate-IsPlaced, allocate-granted, allocate-wraps,
}

abbrev tracker : MemoryTracker
tracker = record {
  capacities = (11, 64) ∷ (12, 16) ∷ [];
  reserved = (11, 8) ∷ (12, 0) ∷ [];
  next_address = (11, 8) ∷ (12, 0) ∷ [];
}

abbrev advanced : MemoryTracker
advanced = record tracker { next_address = (11, 28) ∷ (12, 0) ∷ [] }

make_tracker-device_tree : make_tracker device_tree ≡ tracker
unfolding make_tracker track_ids track_node get_all_node_ids ids_where get_node lookup insert
make_tracker-device_tree = refl

reset-advanced : reset advanced (11 ∷ []) ≡ tracker
unfolding reset reset_one lookup insert
reset-advanced = refl

total-advanced : get_total_allocated advanced 11 ≡ some 20
unfolding get_total_allocated lookup
total-advanced = refl

align_address_example :
    (align_address 13 8 % 8 ≡ 0)
    × (13 ≤ align_address 13 8)
    × ((x : ℕ) → x % 8 ≡ 0 → 13 ≤ x → align_address 13 8 ≤ x)
align_address_example = align_address_lem 13 8 (omega arith) (omega arith)

allocate-IsPlaced_example : IsPlaced tracker advanced 11 20 4 8 64 8
unfolding allocate align_address lookup insert
allocate-IsPlaced_example =
    allocate-IsPlaced tracker 11 20 4 8 64 refl refl (omega arith) (omega arith) advanced 8 refl

allocate-granted_example :
    (((k' : MemoryTracker) × (allocate tracker 11 20 4 ≡ (k', allocated (align_address 8 4))))
      ↔ (align_address 8 4 + 20 ≤ 64))
    × ((allocate tracker 11 20 4 ≡ (tracker, exceeds_capacity)) ↔ (64 < align_address 8 4 + 20))
unfolding lookup
allocate-granted_example =
    allocate-granted tracker 11 20 4 8 64 refl refl (omega arith) (omega arith)

-- A size 8 bytes short of 2^64, from address 8 on.
allocate-wraps_example :
    (k' : MemoryTracker) × (allocate tracker 11 18446744073709551608 1 ≡ (k', allocated 8))
    × (64 < 8 + 18446744073709551608)
    × (lookup 11 k'.next_address ≡ some ((8 + 18446744073709551608) % size_mod))
unfolding lookup
allocate-wraps_example =
    allocate-wraps tracker 11 18446744073709551608 8 64 refl refl (omega arith) (omega arith)
      (omega arith)
