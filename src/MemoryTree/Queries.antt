-- ===== src/MemoryTree/Queries.antt =====
-- lib/Analysis/ArchViews/MemoryTree.cpp: aliases, capacities, and the classification of a memory as
-- global, per-core scratchpad or below the scratchpad.
use dataflow_scheduler.Prelude.{
  ℕ, Bool, true, false, ◌||◌, Option, none, some, List, [], ◌∷◌, ◌==◌, if◌then◌else◌,
}
use dataflow_scheduler.Prelude.Maps.{Map, lookup, insert}
use dataflow_scheduler.Prelude.Words.{sub64}
use dataflow_scheduler.Device.{ResourceType, NodeId}
use dataflow_scheduler.MemoryTree.{
  MemoryNode, MemoryTree, update_node, get_node, get_node_of, get_node_id_for_memory,
  get_root_nodes, get_nodes_at_depth, is_descendant_of, is_some_of,
}

abbrev pub value_or : Option ℕ → ℕ → ℕ
value_or none d = d
value_or (some v) d = v

unfoldable pub get_capacity : MemoryTree → ResourceType → Option ℕ
get_capacity t resource = elim (get_node_of t resource) [
  | none ↦ none
  | some n ↦ n.capacity_in_bytes
]

unfoldable pub get_reserved : MemoryTree → ResourceType → Option ℕ
get_reserved t resource = elim (get_node_of t resource) [
  | none ↦ none
  | some n ↦ n.reserved_in_bytes
]

unfoldable pub get_available : MemoryTree → ResourceType → Option ℕ
get_available t resource = elim (get_node_of t resource) [
  | none ↦ none
  | some n ↦ elim n.capacity_in_bytes [
    | none ↦ none
    | some c ↦ some (sub64 c (value_or n.reserved_in_bytes 0))
  ]
]

-- The resources of the nodes with a capacity, in the order of `nodes_`.
unfoldable pub resources_with_capacity : Map MemoryNode → List ResourceType
resources_with_capacity [] = []
resources_with_capacity ((v, n) ∷ m) = elim n.capacity_in_bytes [
  | none ↦ resources_with_capacity m
  | some _ ↦ n.memory_resource ∷ resources_with_capacity m
]

unfoldable pub get_memory_resources_with_capacity : MemoryTree → List ResourceType
unfolding resources_with_capacity
get_memory_resources_with_capacity t = resources_with_capacity t.nodes

-- One entry of the `mem_space_mapping`: `key` becomes the alias of the node of `value`, if any.
unfoldable pub populate_alias : MemoryTree → ResourceType × ResourceType → MemoryTree
unfolding update_node
populate_alias t (key, value) = elim (lookup value t.resource_to_node) [
  | none ↦ t
  | some v ↦ record t {
    nodes = update_node v (λ n. record n { alias = some key }) t.nodes;
    alias_to_node = insert key v t.alias_to_node;
  }
]

unfoldable pub populate_aliases : MemoryTree → List (ResourceType × ResourceType) → MemoryTree
populate_aliases t [] = t
populate_aliases t (e ∷ es) = populate_aliases (populate_alias t e) es

unfoldable pub are_aliases : MemoryTree → ResourceType → ResourceType → Bool
are_aliases t resource1 resource2 =
    if resource1 == resource2 then true else elim (get_node_id_for_memory t resource1) [
      | none ↦ false
      | some v ↦ is_some_of (get_node_id_for_memory t resource2) v
    ]

abbrev option_list : Option ResourceType → List ResourceType
option_list none = []
option_list (some a) = a ∷ []

unfoldable pub get_aliases : MemoryTree → ResourceType → List ResourceType
get_aliases t resource = elim (get_node_id_for_memory t resource) [
  | none ↦ resource ∷ []
  | some v ↦ elim (get_node t v) [
    | none ↦ resource ∷ []
    | some n ↦ n.memory_resource ∷ option_list n.alias
  ]
]

-- `node->memory_resource == resource || (node->alias && *node->alias == resource)`.
unfoldable pub names_memory : MemoryTree → ResourceType → NodeId → Bool
names_memory t resource v = elim (get_node t v) [
  | none ↦ false
  | some n ↦ (n.memory_resource == resource) || is_some_of n.alias resource
]

-- `for (id : ids) if (test(id)) return true; return false`.
unfoldable pub exists_in : (NodeId → Bool) → List NodeId → Bool
exists_in test [] = false
exists_in test (v ∷ vs) = if test v then true else exists_in test vs

unfoldable pub is_global_memory : MemoryTree → ResourceType → Bool
is_global_memory t resource = exists_in (names_memory t resource) (get_root_nodes t)

unfoldable pub is_per_core_scratch_pad_memory : MemoryTree → ResourceType → Bool
is_per_core_scratch_pad_memory t resource = elim (get_root_nodes t) [
  | [] ↦ false
  | _ ∷ _ ↦ exists_in (names_memory t resource) (get_nodes_at_depth t 1)
]

unfoldable pub is_below_scratch_pad : MemoryTree → ResourceType → Bool
is_below_scratch_pad t resource = elim (get_node_id_for_memory t resource) [
  | none ↦ false
  | some v ↦ exists_in (is_descendant_of t v) (get_nodes_at_depth t 1)
]
