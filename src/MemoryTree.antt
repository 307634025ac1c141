-- ===== src/MemoryTree.antt =====
-- lib/Analysis/ArchViews/MemoryTree.cpp: the tree of memories of a device, its construction steps
-- and its queries. `DenseMap` is an association list; where the code iterates over one, the order is
-- unspecified there and is the list's order here, and no theorem depends on it.
-- A loop that follows `parent` takes the number of ids given out so far as fuel.
pub mod Queries
pub mod Route
pub mod Ancestry
pub mod Build
pub mod Forest
pub mod Initialize
pub mod Classify
pub mod RouteLinks
pub mod RouteCorrect
pub mod Examples
use dataflow_scheduler.Prelude.{
  ℕ, zero, suc, ◌+◌, Bool, true, false, not, ◌||◌, Option, none, some, List, [], ◌∷◌, ◌++◌, ◌==◌,
  if◌then◌else◌,
}
use dataflow_scheduler.Prelude.Maps.{Map, lookup, insert, has}
use dataflow_scheduler.Device.{ResourceType, NodeId}

pub record MemoryNode : Type 0 where
  pub id : NodeId
  pub memory_resource : ResourceType
  pub alias : Option ResourceType
  pub parent : Option NodeId
  pub children : List NodeId
  pub capacity_in_bytes : Option ℕ
  pub reserved_in_bytes : Option ℕ

pub record MemoryTree : Type 0 where
  pub next_node_id : NodeId
  pub nodes : Map MemoryNode
  pub resource_to_node : Map NodeId
  pub alias_to_node : Map NodeId

abbrev pub empty : MemoryTree
empty = record { next_node_id = 0; nodes = []; resource_to_node = []; alias_to_node = [] }

abbrev pub new_node : NodeId → ResourceType → Option ℕ → Option ℕ → MemoryNode
new_node node_id resource capacity reserved = record {
  id = node_id;
  memory_resource = resource;
  alias = none;
  parent = none;
  children = [];
  capacity_in_bytes = capacity;
  reserved_in_bytes = reserved;
}

-- The new tree and the id of the node.
unfoldable pub add_node : MemoryTree → ResourceType → Option ℕ → Option ℕ → MemoryTree × NodeId
add_node t resource capacity reserved =
    let node_id = t.next_node_id in
    (
      record t {
        next_node_id = suc node_id;
        nodes = insert node_id (new_node node_id resource capacity reserved) t.nodes;
        resource_to_node = insert resource node_id t.resource_to_node;
      },
      node_id,
    )

-- `nodes_[id]` changed in place; both ids exist where the code calls this.
unfoldable pub update_node : NodeId → (MemoryNode → MemoryNode) → Map MemoryNode → Map MemoryNode
update_node v f m = elim (lookup v m) [ none ↦ m | some n ↦ insert v (f n) m ]

unfoldable pub set_parent : MemoryTree → NodeId → NodeId → MemoryTree
unfolding update_node
set_parent t child_id parent_id = record t {
  nodes =
      update_node parent_id (λ n. record n { children = n.children ++ child_id ∷ [] })
        (update_node child_id (λ n. record n { parent = some parent_id }) t.nodes);
}

unfoldable pub get_node : MemoryTree → NodeId → Option MemoryNode
get_node t node_id = lookup node_id t.nodes

unfoldable pub get_node_of : MemoryTree → ResourceType → Option MemoryNode
unfolding get_node
get_node_of t resource = elim (lookup resource t.resource_to_node) [
  | none ↦ none
  | some v ↦ get_node t v
]

-- `nodes_.at(id).parent`.
unfoldable pub parent_of : MemoryTree → NodeId → Option NodeId
parent_of t v = elim (lookup v t.nodes) [ none ↦ none | some n ↦ n.parent ]

-- `while (current.parent.has_value()) current = *getNode(*current.parent)`; a parent id with no node
-- is an assertion failure in the code, where this stops.
unfoldable pub root_loop : ℕ → MemoryTree → MemoryNode → MemoryNode
unfolding get_node
root_loop zero t current = current
root_loop (suc fuel) t current = elim current.parent [
  | none ↦ current
  | some p ↦ elim (get_node t p) [ none ↦ current | some n ↦ root_loop fuel t n ]
]

unfoldable pub get_root_of : MemoryTree → MemoryNode → MemoryNode
get_root_of t node = root_loop t.next_node_id t node

unfoldable pub get_node_id_for_memory : MemoryTree → ResourceType → Option NodeId
get_node_id_for_memory t resource = elim (lookup resource t.resource_to_node) [
  | some v ↦ some v
  | none ↦ lookup resource t.alias_to_node
]

-- The ids of the nodes that pass a test, in the order of `nodes_`.
unfoldable pub ids_where : (NodeId → MemoryNode → Bool) → Map MemoryNode → List NodeId
ids_where p [] = []
ids_where p ((v, n) ∷ m) = if p v n then v ∷ ids_where p m else ids_where p m

abbrev pub is_none {ℓ} : {A : Type ℓ} → Option A → Bool
is_none none = true
is_none (some _) = false

abbrev pub is_empty {ℓ} : {A : Type ℓ} → List A → Bool
is_empty [] = true
is_empty (_ ∷ _) = false

unfoldable pub get_root_nodes : MemoryTree → List NodeId
get_root_nodes t = ids_where (λ v n. is_none n.parent) t.nodes

unfoldable pub get_leaf_nodes : MemoryTree → List NodeId
get_leaf_nodes t = ids_where (λ v n. is_empty n.children) t.nodes

unfoldable pub get_all_node_ids : MemoryTree → List NodeId
get_all_node_ids t = ids_where (λ v n. true) t.nodes

unfoldable pub depth_loop : ℕ → MemoryTree → NodeId → ℕ → ℕ
depth_loop zero t current depth = depth
depth_loop (suc fuel) t current depth = elim (parent_of t current) [
  | none ↦ depth
  | some p ↦ depth_loop fuel t p (depth + 1)
]

unfoldable pub get_node_depth : MemoryTree → NodeId → Option ℕ
get_node_depth t v = elim (lookup v t.nodes) [
  | none ↦ none
  | some _ ↦ some (depth_loop t.next_node_id t v 0)
]

abbrev pub is_some_of : Option ℕ → ℕ → Bool
is_some_of none d = false
is_some_of (some k) d = k == d

unfoldable pub get_nodes_at_depth : MemoryTree → ℕ → List NodeId
get_nodes_at_depth t depth = ids_where (λ v n. is_some_of (get_node_depth t v) depth) t.nodes

-- `while (current_node && current_node->parent.has_value())`.
unfoldable pub descendant_loop : ℕ → MemoryTree → NodeId → NodeId → Bool
descendant_loop zero t current ancestor = false
descendant_loop (suc fuel) t current ancestor = elim (parent_of t current) [
  | none ↦ false
  | some p ↦ let rest = descendant_loop fuel t p ancestor in if p == ancestor then true else rest
]

unfoldable pub is_descendant_of : MemoryTree → NodeId → NodeId → Bool
is_descendant_of t descendant ancestor =
    if not (has t.nodes descendant) || not (has t.nodes ancestor)
    then false
    else descendant_loop t.next_node_id t descendant ancestor

unfoldable pub is_descendant_of_memory : MemoryTree → ResourceType → ResourceType → Bool
is_descendant_of_memory t descendant ancestor = elim (get_node_id_for_memory t descendant) [
  | none ↦ false
  | some d ↦ elim (get_node_id_for_memory t ancestor) [
    | none ↦ false
    | some a ↦ is_descendant_of t d a
  ]
]
