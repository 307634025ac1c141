-- ===== src/MemoryTree/Build.antt =====
-- lib/Analysis/ArchViews/MemoryTree.cpp, `initialize`: the tree of a device, from a walk over its
-- body that makes a node for each memory and notes its parent, and the links set afterwards.
use dataflow_scheduler.Prelude.{ℕ, Option, none, some, List, [], ◌∷◌}
use dataflow_scheduler.Prelude.Maps.{Map, lookup, insert}
use dataflow_scheduler.Device.{
  ArchOp, Region, memory, exec_unit, group, datapath, other, done, op_then, Value, ResourceType,
  NodeId,
}
use dataflow_scheduler.MemoryTree.{MemoryTree, empty, add_node, set_parent}
use dataflow_scheduler.MemoryTree.Queries.{populate_aliases}

-- The tree under construction with the two maps of `initialize`.
pub record Walk : Type 0 where
  pub tree : MemoryTree
  pub value_to_node : Map NodeId
  pub child_to_parent : Map Value

unfoldable pub process_memory : Walk → Option Value → Value → ResourceType → Option ℕ → ℕ → Walk
process_memory s parent_mem result kind capacity first_available =
    let (tree, node_id) = add_node s.tree kind capacity (some first_available) in
    record {
      tree = tree;
      value_to_node = insert result node_id s.value_to_node;
      child_to_parent = elim parent_mem [
        | none ↦ s.child_to_parent
        | some p ↦ insert result p s.child_to_parent
      ];
    }

-- The first shared memory is the parent for the group's scope.
abbrev pub group_parent : Option Value → List Value → Option Value
group_parent parent_mem [] = parent_mem
group_parent parent_mem (v ∷ vs) = some v

unfoldable mutual
  pub process_op : Walk → Option Value → ArchOp → Walk
  process_op s parent_mem (memory result kind capacity first_available) =
      process_memory s parent_mem result kind capacity first_available
  process_op s parent_mem (exec_unit result kind is_ls) = s
  process_op s parent_mem (group kind results shared arguments body yielded) =
      process_region s (group_parent parent_mem shared) body
  process_op s parent_mem (datapath source target) = s
  process_op s parent_mem other = s

  pub process_region : Walk → Option Value → Region → Walk
  process_region s parent_mem done = s
  process_region s parent_mem (op_then o r) =
      process_region (process_op s parent_mem o) parent_mem r

unfoldable pub link : Map NodeId → MemoryTree → Value × Value → MemoryTree
link value_to_node t (child_val, parent_val) = elim (lookup child_val value_to_node) [
  | none ↦ t
  | some c ↦ elim (lookup parent_val value_to_node) [ none ↦ t | some p ↦ set_parent t c p ]
]

unfoldable pub link_all : Map NodeId → MemoryTree → Map Value → MemoryTree
link_all value_to_node t [] = t
link_all value_to_node t (e ∷ es) = link_all value_to_node (link value_to_node t e) es

-- The mapping is the `mem_space_mapping` attribute of the device, when it is there.
unfoldable pub initialize : Region → Option (List (ResourceType × ResourceType)) → MemoryTree
initialize body mem_space_mapping =
    let s =
      process_region (record { tree = empty; value_to_node = []; child_to_parent = [] }) none
        body in
    let t = link_all s.value_to_node s.tree s.child_to_parent in
    elim mem_space_mapping [ none ↦ t | some entries ↦ populate_aliases t entries ]
