-- ===== src/RoutingGraph/ShortestPath.antt =====
-- lib/Analysis/ArchViews/RoutingGraph.cpp, `findShortestPath`: breadth-first search from the source,
-- and the path read back from the target. `visited` holds the nodes whose flag is set.
pub mod Frontier
pub mod Rounds
pub mod Shortest
pub mod Visit
use dataflow_scheduler.Prelude.{
  ℕ, zero, suc, not, ◌||◌, Option, none, some, List, [], ◌∷◌, ◌++◌, reverse, ◌==◌, if◌then◌else◌,
  length, contains,
}
use dataflow_scheduler.Prelude.Maps.{Map, lookup, insert}
use dataflow_scheduler.Device.{NodeId}
use dataflow_scheduler.RoutingGraph.{RoutingGraph, has_node, get_neighbors}

pub record Search : Type 0 where
  pub worklist : List NodeId
  pub predecessor : Map NodeId
  pub visited : List NodeId

-- The body of the loop over the neighbours of `current`.
unfoldable pub visit_neighbor : NodeId → Search → NodeId → Search
visit_neighbor current s neighbor = if contains s.visited neighbor then s else record {
  worklist = s.worklist ++ neighbor ∷ [];
  predecessor = insert neighbor current s.predecessor;
  visited = neighbor ∷ s.visited;
}

unfoldable pub visit_neighbors : NodeId → Search → List NodeId → Search
visit_neighbors current s [] = s
visit_neighbors current s (n ∷ ns) = visit_neighbors current (visit_neighbor current s n) ns

abbrev pub start : NodeId → Search
start source = record { worklist = source ∷ []; predecessor = []; visited = source ∷ [] }

module _ (g : RoutingGraph) where
  -- `while (!worklist.empty())`; the loop is left when the target is taken from the queue. `none`: out
  -- of fuel.
  unfoldable pub search_loop : ℕ → NodeId → Search → Option Search
  search_loop zero target s = none
  search_loop (suc fuel) target s = elim s.worklist [
    | [] ↦ some s
    | current ∷ rest ↦
        let next =
          search_loop fuel target
            (visit_neighbors current (record s { worklist = rest }) (get_neighbors g current)) in
        if current == target then some s else next
  ]

  -- `while (current != source)`, from the target back; `none` where a node has no predecessor.
  unfoldable pub trace_loop : ℕ → Map NodeId → NodeId → NodeId → Option (List NodeId)
  trace_loop zero predecessor source current = none
  trace_loop (suc fuel) predecessor source current =
      let rest : Option (List NodeId) = elim (lookup current predecessor) [
        | none ↦ none
        | some p ↦ trace_loop fuel predecessor source p
      ] in
      if current == source
      then some (current ∷ [])
      else elim rest [ none ↦ none | some path ↦ some (current ∷ path) ]

  -- Each node is queued once, so the number of nodes bounds both loops; one round more ends them.
  unfoldable pub find_shortest_path : NodeId → NodeId → Option (List NodeId)
  find_shortest_path source target =
      let fuel = suc (length g.nodes) in
      if not (has_node g source) || not (has_node g target)
      then none
      else elim (search_loop fuel target (start source)) [
        | none ↦ none
        | some s ↦
            if not (contains s.visited target)
            then none
            else elim (trace_loop fuel s.predecessor source target) [
              | none ↦ none
              | some reversed_path ↦ some (reverse reversed_path)
            ]
      ]
