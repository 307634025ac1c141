-- ===== src/RoutingGraph/Examples.antt =====
-- A memory, a load/store unit and a compute unit in a row, and the theorem of the shortest path there.
use dataflow_scheduler.Prelude.{
  ℕ, ◌≤◌, ◌≡◌, refl, ◌⊎◌, inl, inr, Bool, true, false, none, some, List, [], ◌∷◌, ◌==◌, map, In,
  subst, if◌then◌else◌, contains,
}
use dataflow_scheduler.Prelude.Maps.{lookup, has, insert, list_at}
use dataflow_scheduler.Device.{Region, done, op_then, memory, exec_unit, datapath, NodeId}
use dataflow_scheduler.RoutingGraph.{
  RoutingGraph, EdgeInfo, memory_kind, load_store_unit, compute, get_neighbors, has_node, add_node,
  add_edge,
}
use dataflow_scheduler.RoutingGraph.Build.{
  initialize, process_op, process_region, process_memory_op, process_execution_unit_op,
  process_datapath_op, apply_sizes,
}
use dataflow_scheduler.RoutingGraph.Initialize.{find_shortest_path-initialize}
use dataflow_scheduler.RoutingGraph.ShortestPath.{
  find_shortest_path, search_loop, visit_neighbors, visit_neighbor, trace_loop,
}
use dataflow_scheduler.RoutingGraph.ShortestPath.Shortest.{Route, find_shortest_path-IsShortest}

abbrev body : Region
body = op_then (memory 0 10 (some 64) 8) (
    op_then (exec_unit 1 (some 20) true)
      (op_then (exec_unit 2 none false) (op_then (datapath 0 1) (op_then (datapath 1 2) done))))

abbrev first_edge : EdgeInfo
first_edge = record { source = 0; target = 1; cost = 1 }

abbrev second_edge : EdgeInfo
second_edge = record { source = 1; target = 2; cost = 1 }

abbrev graph : RoutingGraph
graph = record {
  next_node_id = 3;
  nodes =
      (
        0,
        record {
          id = 0;
          resource = 10;
          kind = memory_kind;
          total_capacity_in_bytes = some 64;
          total_reserved_in_bytes = some 8;
        },
      )
      ∷ (
        1,
        record {
          id = 1;
          resource = 20;
          kind = load_store_unit;
          total_capacity_in_bytes = none;
          total_reserved_in_bytes = none;
        },
      )
      ∷ (
        2,
        record {
          id = 2;
          resource = 30;
          kind = compute;
          total_capacity_in_bytes = none;
          total_reserved_in_bytes = none;
        },
      )
      ∷ [];
  adjacency = (0, first_edge ∷ []) ∷ (1, second_edge ∷ []) ∷ [];
  resource_index = (10, 0 ∷ []) ∷ (20, 1 ∷ []) ∷ (30, 2 ∷ []) ∷ [];
}

initialize-body : initialize 30 body ≡ some graph
unfolding initialize process_region process_op process_memory_op process_execution_unit_op
    process_datapath_op apply_sizes add_node add_edge list_at lookup insert
initialize-body = refl

graph-inside : (v u : NodeId) → In u (get_neighbors graph v) → has_node graph u ≡ true
unfolding get_neighbors list_at lookup has_node has
graph-inside v u m = go (0 == v) (1 == v) m
  where
    go :
        (a b : Bool)
        → In u (
            map
              (λ e. e.target)
              (elim (if a
                then some (first_edge ∷ [])
                else if b
                then some (second_edge ∷ [])
                else none) [ none ↦ [] | some xs ↦ xs ]))
        → has_node graph u ≡ true
    go true b (inl e) = subst (λ x. has_node graph x ≡ true) e refl
    go true b (inr h) = absurd h
    go false true (inl e) = subst (λ x. has_node graph x ≡ true) e refl
    go false true (inr h) = absurd h
    go false false h = absurd h

find_shortest_path-IsShortest_example :
    ((path : List NodeId) × (n : ℕ) × (find_shortest_path graph 0 2 ≡ some path)
      × Route graph 0 2 path n
      × ((other : List NodeId) (m : ℕ) → Route graph 0 2 other m → n ≤ m))
    ⊎ ((find_shortest_path graph 0 2 ≡ none)
        × ((other : List NodeId) (m : ℕ) → ¬ Route graph 0 2 other m))
unfolding has_node has lookup
find_shortest_path-IsShortest_example =
    find_shortest_path-IsShortest graph 0 2 graph-inside refl refl

find_shortest_path-initialize_example :
    ((path : List NodeId) × (n : ℕ) × (find_shortest_path graph 0 2 ≡ some path)
      × Route graph 0 2 path n
      × ((other : List NodeId) (m : ℕ) → Route graph 0 2 other m → n ≤ m))
    ⊎ ((find_shortest_path graph 0 2 ≡ none)
        × ((other : List NodeId) (m : ℕ) → ¬ Route graph 0 2 other m))
unfolding has_node has lookup
find_shortest_path-initialize_example =
    find_shortest_path-initialize 30 body graph 0 2 initialize-body refl refl

find_shortest_path_run : find_shortest_path graph 0 2 ≡ some (0 ∷ 1 ∷ 2 ∷ [])
unfolding find_shortest_path search_loop visit_neighbors visit_neighbor trace_loop get_neighbors
    list_at has_node has lookup insert contains
find_shortest_path_run = refl
