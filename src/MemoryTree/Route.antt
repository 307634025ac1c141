-- ===== src/MemoryTree/Route.antt =====
-- lib/Analysis/ArchViews/MemoryTree.cpp, `getPath`: from a memory up to a common ancestor and down to
-- another memory. Each of its loops follows `parent` and has the number of ids as fuel.
use dataflow_scheduler.Prelude.{
  ℕ, zero, suc, not, ◌||◌, none, some, List, [], ◌∷◌, ◌++◌, reverse, ◌==◌, if◌then◌else◌, contains,
}
use dataflow_scheduler.Prelude.Maps.{has}
use dataflow_scheduler.Device.{ResourceType, NodeId}
use dataflow_scheduler.MemoryTree.{MemoryTree, parent_of, get_node_id_for_memory}

-- The keys of `source_ancestors`: `current` and all above it.
unfoldable pub source_ancestors : ℕ → MemoryTree → NodeId → List NodeId
source_ancestors zero t current = current ∷ []
source_ancestors (suc fuel) t current = elim (parent_of t current) [
  | none ↦ current ∷ []
  | some p ↦ current ∷ source_ancestors fuel t p
]

-- `target_to_ancestor`, in the order it is filled, with the last `current`: up from `current` until a
-- node among `ancestors` is reached. `current` itself is not looked up.
unfoldable pub target_loop : ℕ → MemoryTree → List NodeId → NodeId → List NodeId × NodeId
target_loop zero t ancestors current = (current ∷ [], current)
target_loop (suc fuel) t ancestors current = elim (parent_of t current) [
  | none ↦ (current ∷ [], current)
  | some p ↦
      let rest = target_loop fuel t ancestors p in
      if contains ancestors p then (current ∷ p ∷ [], p) else (current ∷ rest.0, rest.1)
]

-- The first part of the path: `while (current != common_ancestor)`.
unfoldable pub source_loop : ℕ → MemoryTree → NodeId → NodeId → List NodeId
source_loop zero t common current = current ∷ []
source_loop (suc fuel) t common current =
    let rest : List NodeId = elim (parent_of t current) [
      | none ↦ []
      | some p ↦ source_loop fuel t common p
    ] in
    if current == common then current ∷ [] else current ∷ rest

-- The second part leaves the common ancestor out.
unfoldable pub without : NodeId → List NodeId → List NodeId
without c [] = []
without c (v ∷ vs) = if v == c then without c vs else v ∷ without c vs

unfoldable pub get_path : MemoryTree → NodeId → NodeId → List NodeId
get_path t source target =
    let ancestors = source_ancestors t.next_node_id t source in
    let (target_to_ancestor, common) = target_loop t.next_node_id t ancestors target in
    if not (has t.nodes source) || not (has t.nodes target)
    then []
    else if contains ancestors common
    then source_loop t.next_node_id t common source ++ without common (reverse target_to_ancestor)
    else []

unfoldable pub get_path_of_memories : MemoryTree → ResourceType → ResourceType → List NodeId
get_path_of_memories t source target = elim (get_node_id_for_memory t source) [
  | none ↦ []
  | some s ↦ elim (get_node_id_for_memory t target) [ none ↦ [] | some d ↦ get_path t s d ]
]
