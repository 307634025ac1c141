-- ===== src/MemoryTree/Examples.antt =====
-- A device with global memory, a scratchpad in a group that shares it, and a register file below, and
-- the theorems of the memory tree at that device.
use dataflow_scheduler.Prelude.{
  ℕ, ◌≡◌, ◌≤◌, refl, ◌↔◌, inl, inr, none, true, Option, none, subst, contains, some, List, [], ◌∷◌,
  ◌++◌, arith, In,
}
use dataflow_scheduler.Prelude.Maps.{lookup, insert, has}
use dataflow_scheduler.Device.{
  Region, memory, group, done, op_then, ResourceType, NodeId, IsOrderedRegion, after_op,
}
use dataflow_scheduler.MemoryTree.{
  MemoryTree, MemoryNode, add_node, set_parent, parent_of, get_node_depth, get_node_id_for_memory,
  is_descendant_of, get_root_of, get_node, get_nodes_at_depth,
}
use dataflow_scheduler.MemoryTree.Queries.{
  is_below_scratch_pad, is_global_memory, populate_aliases, populate_alias,
}
use dataflow_scheduler.MemoryTree.Build.{
  process_memory, process_op, process_region, link, link_all, initialize,
}
use dataflow_scheduler.MemoryTree.Ancestry.{
  IsForest, Below, child, deeper, HasDepth, is_descendant_of-Below, get_node_depth_total,
  get_root_of_lem,
}
use dataflow_scheduler.MemoryTree.Initialize.{initialize-IsForest}
use dataflow_scheduler.MemoryTree.Classify.{
  is_below_scratch_pad-get_node_depth, is_global_memory-Names, get_nodes_at_depth-HasDepth, Names,
}
use dataflow_scheduler.MemoryTree.Route.{
  get_path, source_ancestors, target_loop, source_loop, without,
}
use dataflow_scheduler.MemoryTree.RouteLinks.{Linked, AtOrAbove}
use dataflow_scheduler.MemoryTree.RouteCorrect.{
  Related, get_path-Linked, get_path_none, get_path-detour,
}

-- Resource 10 is global, 11 the scratchpad, 12 the registers; 20 is the alias of 10.
abbrev body : Region
body = op_then (memory 0 10 none 0) (
    op_then
      (group none [] (0 ∷ []) (1 ∷ [])
        (op_then (memory 2 11 (some 64) 8) (
          op_then (group none [] (2 ∷ []) (3 ∷ []) (op_then (memory 4 12 (some 16) 0) done) [])
            done))
        [])
      done)

abbrev mapping : Option (List (ResourceType × ResourceType))
mapping = some ((20, 10) ∷ [])

abbrev global_node : MemoryNode
global_node = record {
  id = 0;
  memory_resource = 10;
  alias = some 20;
  parent = none;
  children = 1 ∷ [];
  capacity_in_bytes = none;
  reserved_in_bytes = some 0;
}

abbrev scratch_pad_node : MemoryNode
scratch_pad_node = record {
  id = 1;
  memory_resource = 11;
  alias = none;
  parent = some 0;
  children = 2 ∷ [];
  capacity_in_bytes = some 64;
  reserved_in_bytes = some 8;
}

abbrev register_node : MemoryNode
register_node = record {
  id = 2;
  memory_resource = 12;
  alias = none;
  parent = some 1;
  children = [];
  capacity_in_bytes = some 16;
  reserved_in_bytes = some 0;
}

abbrev pub device_tree : MemoryTree
device_tree = record {
  next_node_id = 3;
  nodes = (0, global_node) ∷ (1, scratch_pad_node) ∷ (2, register_node) ∷ [];
  resource_to_node = (10, 0) ∷ (11, 1) ∷ (12, 2) ∷ [];
  alias_to_node = (20, 0) ∷ [];
}

initialize-body : initialize body mapping ≡ device_tree
unfolding initialize populate_aliases populate_alias link_all process_region process_op
    process_memory insert link set_parent add_node lookup
initialize-body = refl

body-IsOrderedRegion : IsOrderedRegion 0 body
unfolding IsOrderedRegion after_op
body-IsOrderedRegion = omega arith

initialize-IsForest_example : IsForest (initialize body mapping)
initialize-IsForest_example = initialize-IsForest body mapping body-IsOrderedRegion

pub device_tree-IsForest : IsForest device_tree
device_tree-IsForest = subst IsForest initialize-body initialize-IsForest_example

is_descendant_of-Below_example : (is_descendant_of device_tree 2 0 ≡ true) ↔ Below device_tree 2 0
is_descendant_of-Below_example = is_descendant_of-Below device_tree device_tree-IsForest 2 0

get_node_depth_total_example :
    (d : ℕ) × (get_node_depth device_tree 2 ≡ some d) × HasDepth device_tree 2 d
unfolding has lookup
get_node_depth_total_example = get_node_depth_total device_tree device_tree-IsForest 2 refl

get_root_of_example :
    (r : NodeId) × (get_node device_tree r ≡ some (get_root_of device_tree register_node))
    × ((get_root_of device_tree register_node).parent ≡ none)
    × AtOrAbove device_tree 2 r
unfolding get_node lookup
get_root_of_example = get_root_of_lem device_tree device_tree-IsForest 2 register_node refl

is_below_scratch_pad_example :
    (is_below_scratch_pad device_tree 12 ≡ true)
    ↔ ((d : ℕ) × (get_node_depth device_tree 2 ≡ some d) × (2 ≤ d))
unfolding get_node_id_for_memory lookup
is_below_scratch_pad_example =
    is_below_scratch_pad-get_node_depth device_tree device_tree-IsForest 12 2 refl

is_global_memory_example : (is_global_memory device_tree 20 ≡ true) ↔ (
    (v : NodeId) × (n : MemoryNode) × (lookup v device_tree.nodes ≡ some n)
    × (n.parent ≡ none)
    × Names 20 n)
is_global_memory_example = is_global_memory-Names device_tree device_tree-IsForest 20

no_parent : {t : MemoryTree} {d a : NodeId} → Below t d a → parent_of t d ≡ none → ⊥
no_parent (child e) h = cc
no_parent (deeper e b) h = cc

get_path-Linked_example : Linked device_tree 2 0 (get_path device_tree 2 0)
unfolding has lookup parent_of
get_path-Linked_example =
    get_path-Linked device_tree device_tree-IsForest 2 0 refl refl
      (0, inr (deeper refl (child refl)), inl refl)

get_nodes_at_depth-HasDepth_example :
    In 2 (get_nodes_at_depth device_tree 2)
    ↔ ((has device_tree.nodes 2 ≡ true) × HasDepth device_tree 2 2)
get_nodes_at_depth-HasDepth_example =
    get_nodes_at_depth-HasDepth device_tree device_tree-IsForest 2 2

-- Two memories of which neither is above the other.
abbrev two_roots : Region
two_roots = op_then (memory 0 10 none 0) (op_then (memory 1 11 none 0) done)

two_roots-IsOrderedRegion : IsOrderedRegion 0 two_roots
unfolding IsOrderedRegion after_op
two_roots-IsOrderedRegion = omega arith

two_roots-apart : ¬ Related (initialize two_roots none) 1 0
unfolding initialize link_all process_region process_op process_memory insert add_node lookup
    parent_of
two_roots-apart (a, inl e, inl e') = omega (arith, e, e')
two_roots-apart (a, inl e, inr b) = no_parent b refl
two_roots-apart (a, inr b, k) = no_parent b refl

get_path_none_example : get_path (initialize two_roots none) 1 0 ≡ []
unfolding initialize link_all process_region process_op process_memory insert add_node lookup has
get_path_none_example =
    get_path_none (initialize two_roots none)
      (initialize-IsForest two_roots none two_roots-IsOrderedRegion) 1 0 refl refl two_roots-apart

path_up : get_path device_tree 2 0 ≡ 2 ∷ 1 ∷ 0 ∷ []
unfolding get_path has lookup source_ancestors target_loop source_loop without parent_of contains
path_up = refl

get_path-detour_example : (xs : List NodeId) × (get_path device_tree 2 1 ≡ xs ++ 1 ∷ []) × In 1 xs
unfolding parent_of lookup
get_path-detour_example =
    get_path-detour device_tree device_tree-IsForest 2 1 0 (inr (child refl)) refl

path_detour : get_path device_tree 2 1 ≡ 2 ∷ 1 ∷ 0 ∷ 1 ∷ []
unfolding get_path has lookup source_ancestors target_loop source_loop without parent_of contains
path_detour = refl
