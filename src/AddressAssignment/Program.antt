-- ===== src/AddressAssignment/Program.antt =====
-- lib/Transforms/AddressAssignment.cpp, the pass: the scopes of a module, the allocations of each, and
-- their addresses, handed out by the memory tracker. What the pass writes into the IR is the list of
-- placements: a constant address for each allocation, in elements.
use dataflow_scheduler.Prelude.{
  ℕ, suc, ◌+◌, ◌/◌, Bool, true, false, not, ◌||◌, Option, none, some, List, [], ◌∷◌, ◌++◌, contains,
  if◌then◌else◌,
}
use dataflow_scheduler.Prelude.Divides.{lcm}
use dataflow_scheduler.Device.{ResourceType, Value}
use dataflow_scheduler.MemoryTree.{MemoryTree}
use dataflow_scheduler.MemoryTree.Queries.{is_global_memory, value_or}
use dataflow_scheduler.MemoryTracker.{
  MemoryTracker, Allocation, allocated, no_capacity_information, exceeds_capacity, not_tracked,
  allocate, reset,
}
use dataflow_scheduler.AddressAssignment.{AllocOp, get_size, try_get_size_in_bytes}

mutual
  -- `nested` is any other operation with regions.
  pub data IrOp : Type 0 where
    alloc : AllocOp → IrOp
    module_op : IrOps → IrOp
    nested : IrOps → IrOp

  pub data IrOps : Type 0 where
    nil : IrOps
    cons : IrOp → IrOps → IrOps

-- An allocation with the memory space that its type names.
abbrev pub Named : Type 0
Named = ResourceType × AllocOp

abbrev pub named_of : AllocOp → Option ResourceType → List Named
named_of a none = []
named_of a (some space) = (space, a) ∷ []

-- The pre-order walk over a scope, which skips nested modules.
unfoldable mutual
  pub collect_op : IrOp → List Named
  collect_op (alloc a) = named_of a a.memory_space
  collect_op (module_op body) = []
  collect_op (nested body) = collect_allocations body

  pub collect_allocations : IrOps → List Named
  collect_allocations nil = []
  collect_allocations (cons o os) = collect_op o ++ collect_allocations os

abbrev pub is_some {ℓ} : {A : Type ℓ} → Option A → Bool
is_some none = false
is_some (some _) = true

unfoldable mutual
  pub op_has_allocation : IrOp → Bool
  op_has_allocation (alloc a) = is_some a.memory_space
  op_has_allocation (module_op body) = has_allocations_with_memory_space body
  op_has_allocation (nested body) = has_allocations_with_memory_space body

  pub has_allocations_with_memory_space : IrOps → Bool
  has_allocations_with_memory_space nil = false
  has_allocations_with_memory_space (cons o os) =
      op_has_allocation o || has_allocations_with_memory_space os

-- The modules directly in a module.
unfoldable pub direct_modules : IrOps → List IrOps
direct_modules nil = []
direct_modules (cons (module_op body) os) = body ∷ direct_modules os
direct_modules (cons (alloc a) os) = direct_modules os
direct_modules (cons (nested body) os) = direct_modules os

-- One assigned allocation: the bytes it takes, and its address in elements.
pub record Placement : Type 0 where
  pub space : ResourceType
  pub byte_address : ℕ
  pub size : ℕ
  pub address : ℕ

pub record Progress : Type 0 where
  pub tracker : MemoryTracker
  pub placements : List Placement
  pub num_failed : ℕ
  pub num_processed : ℕ

-- The alignment asked for, joined with that of an element.
unfoldable pub alignment_of : AllocOp → ℕ → ℕ
alignment_of a element_bytes = lcm (value_or a.alignment 1) element_bytes

-- The placement that a successful call of the tracker stands for; `none` for its errors.
unfoldable pub settle :
    ResourceType → ℕ → ℕ → MemoryTracker × Allocation → MemoryTracker × Option Placement
settle space size element_bytes (k', allocated byte) = (
  k',
  some (record { space = space; byte_address = byte; size = size; address = byte / element_bytes }),
)
settle space size element_bytes (k', no_capacity_information) = (k', none)
settle space size element_bytes (k', exceeds_capacity) = (k', none)
settle space size element_bytes (k', not_tracked) = (k', none)

-- The counters with one more allocation, and its placement in front of those of the rest.
unfoldable pub count_result : Option Placement → Progress → Progress
count_result none rest = record rest {
  num_failed = suc rest.num_failed;
  num_processed = suc rest.num_processed;
}
count_result (some p) rest = record rest {
  placements = p ∷ rest.placements;
  num_processed = suc rest.num_processed;
}

-- The memories of a scope that start over: those that are not global.
unfoldable pub reusable : MemoryTree → List Named → List ResourceType
reusable tree [] = []
reusable tree ((space, a) ∷ as') =
    let rest = reusable tree as' in
    if is_global_memory tree space || contains rest space then rest else space ∷ rest

module _ (compute_constant_bound : Value → Option ℕ) (tree : MemoryTree) where
  -- `none` is the failure.
  unfoldable pub process_allocation : MemoryTracker → Named → MemoryTracker × Option Placement
  process_allocation k (space, a) = elim (get_size compute_constant_bound a) [
    | none ↦ (k, none)
    | some size ↦ elim (try_get_size_in_bytes a.element_type) [
      | none ↦ (k, none)
      | some element_bytes ↦
          settle space size element_bytes (allocate k space size (alignment_of a element_bytes))
    ]
  ]

  unfoldable pub process_all : MemoryTracker → List Named → Progress
  unfolding count_result
  process_all k [] = record { tracker = k; placements = []; num_failed = 0; num_processed = 0 }
  process_all k (a ∷ as') =
      let (k', result) = process_allocation k a in count_result result (process_all k' as')

  unfoldable pub process_scopes : MemoryTracker → List IrOps → Progress
  process_scopes k [] = record { tracker = k; placements = []; num_failed = 0; num_processed = 0 }
  process_scopes k (scope ∷ scopes) =
      let allocs = collect_allocations scope in
      let here = process_all (reset k (reusable tree allocs)) allocs in
      let rest = process_scopes here.tracker scopes in
      record {
        tracker = rest.tracker;
        placements = here.placements ++ rest.placements;
        num_failed = here.num_failed + rest.num_failed;
        num_processed = here.num_processed + rest.num_processed;
      }

  -- `none`: there is nothing to assign, and the tracker is not asked for.
  unfoldable pub run_on_operation : MemoryTracker → IrOps → Option Progress
  run_on_operation k body =
      if not (has_allocations_with_memory_space body)
      then none
      else some (process_scopes k (body ∷ direct_modules body))
