-- ===== src/AddressAssignment/Examples.antt =====
-- A pool of 256 bytes of global memory, two programs that allocate from it, and the theorems of the
-- address assignment at them.
use dataflow_scheduler.Prelude.{
  ℕ, ◌+◌, ◌*◌, ◌≤◌, ◌≡◌, refl, true, Option, none, some, List, [], ◌∷◌, arith, All,
}
use Prim.Native.Nat.{◌∣◌}
use dataflow_scheduler.Prelude.Maps.{lookup, insert}
use dataflow_scheduler.Prelude.Divides.{gcd, gcd_loop, lcm}
use dataflow_scheduler.Prelude.Words.{mul_overflow, add_overflow}
use dataflow_scheduler.Device.{Value}
use dataflow_scheduler.MemoryTree.{MemoryTree, get_root_nodes, ids_where, get_node}
use dataflow_scheduler.MemoryTree.Queries.{is_global_memory, exists_in, names_memory}
use dataflow_scheduler.MemoryTracker.{MemoryTracker, allocate, align_address}
use dataflow_scheduler.AddressAssignment.{
  pos, integer, AllocOp, last_offset, add_offsets, get_upper_bound, get_upper_shape_bound,
  offset_bound_of, get_upper_offset_bound, get_size, try_get_size_in_bytes, try_get_size_in_bits,
}
use dataflow_scheduler.AddressAssignment.Program.{
  IrOps, alloc, nested, nil, cons, collect_op, collect_allocations, Named, alignment_of, settle,
  count_result, process_allocation, process_all, process_scopes,
}
use dataflow_scheduler.AddressAssignment.Sizes.{get_size-covers, offset_at}
use dataflow_scheduler.AddressAssignment.Placements.{At}
use dataflow_scheduler.AddressAssignment.Stacking.{
  IsModest, Run, process_all-Run, process_scopes-Run, process_allocation-address,
}

abbrev bound_of : Value → Option ℕ
bound_of v = none

abbrev tree : MemoryTree
tree = record {
  next_node_id = 1;
  nodes =
      (
        0,
        record {
          id = 0;
          memory_resource = 10;
          alias = none;
          parent = none;
          children = [];
          capacity_in_bytes = some 256;
          reserved_in_bytes = some 0;
        },
      )
      ∷ [];
  resource_to_node = (10, 0) ∷ [];
  alias_to_node = [];
}

abbrev tracker : MemoryTracker
tracker = record {
  capacities = (10, 256) ∷ [];
  reserved = (10, 0) ∷ [];
  next_address = (10, 6) ∷ [];
}

-- Four elements of 16 bits in a row, aligned to 4 bytes.
abbrev row : AllocOp
row = record {
  memory_space = some 10;
  element_type = integer 16;
  shape = some 4 ∷ [];
  layout = λ shape. some (pos 1 ∷ [], pos 0);
  dynamic_sizes = [];
  alignment = some 4;
}

abbrev allocs : List Named
allocs = (10, row) ∷ (10, row) ∷ []

abbrev scope : IrOps
scope = cons (nested (cons (alloc row) nil)) (cons (alloc row) nil)

size-row : get_size bound_of row ≡ some 8
unfolding get_size get_upper_offset_bound get_upper_shape_bound get_upper_bound offset_bound_of
    add_offsets last_offset mul_overflow add_overflow try_get_size_in_bytes try_get_size_in_bits
size-row = refl

bytes-row : try_get_size_in_bytes row.element_type ≡ some 2
unfolding try_get_size_in_bytes try_get_size_in_bits
bytes-row = refl

alignment-row : alignment_of row 2 ≡ 4
unfolding alignment_of lcm gcd gcd_loop
alignment-row = refl

le-refl : 256 ≤ 256
le-refl = omega arith

row-IsModest : IsModest bound_of tree 10 256 256 le-refl (10, row)
row-IsModest size bytes e e' =
    let same_size : 8 ≡ size = cc (size-row, e) in
    let same_bytes : 2 ≡ bytes = cc (bytes-row, e') in
    rw (← same_size, ← same_bytes, alignment-row) (omega arith, omega arith)

tracker-At : At 10 256 6 tracker
unfolding lookup
tracker-At = record { next = refl; capacity = refl }

get_size-covers_example : (0 + offset_at (3 ∷ []) (pos 1 ∷ [])) * 2 + 2 ≤ 8
unfolding get_upper_offset_bound get_upper_shape_bound get_upper_bound offset_bound_of add_offsets
    last_offset mul_overflow add_overflow
get_size-covers_example =
    get_size-covers bound_of row (4 ∷ []) (pos 1 ∷ []) 0 3 2 8 (3 ∷ []) refl refl refl (omega arith)
      bytes-row size-row (omega arith, tt)

process_all-Run_example :
    Run bound_of tree 10 256 256 le-refl 6 (process_all bound_of tree tracker allocs)
process_all-Run_example =
    process_all-Run bound_of tree 10 256 256 le-refl tracker 6 allocs tracker-At (omega arith)
      (row-IsModest, (row-IsModest, tt))

-- The two rows lie at 8 and 16.
process_all_run :
    (process_all bound_of tree tracker allocs).placements
    ≡ record { space = 10; byte_address = 8; size = 8; address = 4 }
      ∷ record { space = 10; byte_address = 16; size = 8; address = 8 }
      ∷ []
unfolding process_all process_allocation settle count_result allocate align_address lookup insert
    get_size get_upper_offset_bound get_upper_shape_bound get_upper_bound offset_bound_of
    add_offsets last_offset mul_overflow add_overflow try_get_size_in_bytes try_get_size_in_bits
    alignment_of lcm gcd gcd_loop
process_all_run = refl

tree-global : is_global_memory tree 10 ≡ true
unfolding is_global_memory exists_in names_memory get_root_nodes ids_where get_node lookup
tree-global = refl

scope-IsModest : All (IsModest bound_of tree 10 256 256 le-refl) (collect_allocations scope)
unfolding collect_allocations collect_op
scope-IsModest = (row-IsModest, (row-IsModest, tt))

process_scopes-Run_example :
    Run bound_of tree 10 256 256 le-refl 6
      (process_scopes bound_of tree tracker (scope ∷ scope ∷ []))
process_scopes-Run_example =
    process_scopes-Run bound_of tree 10 256 256 le-refl tracker 6 (scope ∷ scope ∷ []) tree-global
      tracker-At (omega arith) (scope-IsModest, (scope-IsModest, tt))

abbrev after_row : MemoryTracker
after_row = record tracker { next_address = (10, 16) ∷ [] }

process_allocation-address_example : (4 * 2 ≡ 8) × (4 ∣ 8)
unfolding process_allocation settle allocate align_address lookup insert get_size
    get_upper_offset_bound get_upper_shape_bound get_upper_bound offset_bound_of add_offsets
    last_offset mul_overflow add_overflow try_get_size_in_bytes try_get_size_in_bits alignment_of
    lcm gcd gcd_loop
process_allocation-address_example =
    process_allocation-address bound_of tree 10 256 256 le-refl tracker after_row 6 2 row
      (record { space = 10; byte_address = 8; size = 8; address = 4 }) tracker-At (omega arith)
      row-IsModest bytes-row refl
