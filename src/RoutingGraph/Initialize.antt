-- ===== src/RoutingGraph/Initialize.antt =====
-- lib/Analysis/ArchViews/RoutingGraph.cpp: in the graph that `initialize` builds, edges join nodes, and so
-- its shortest paths are shortest.
use dataflow_scheduler.Prelude.{
  ℕ, ◌≤◌, ◌≡◌, ◌∙◌, ◌⊎◌, inl, inr, true, Option, none, some, List, [], ◌∷◌, ◌==◌, Bool-cases, subst,
}
use dataflow_scheduler.Prelude.Maps.{Map, lookup, insert, has, has-insert, list_at}
use dataflow_scheduler.Device.{
  ArchOp, Region, memory, exec_unit, group, datapath, other, done, op_then, ResourceType, NodeId,
}
use dataflow_scheduler.MemoryTree.Queries.{value_or}
use dataflow_scheduler.RoutingGraph.{
  ResourceNode, RoutingGraph, empty_graph, has_node, get_neighbors,
}
use dataflow_scheduler.RoutingGraph.Build.{
  DeviceInitContext, ◌>>=◌, map_values, is_processed, with_kind, process_op, process_region,
  apply_sizes, initialize,
}
use dataflow_scheduler.RoutingGraph.ShortestPath.{find_shortest_path}
use dataflow_scheduler.RoutingGraph.ShortestPath.Shortest.{Route, find_shortest_path-IsShortest}
use dataflow_scheduler.RoutingGraph.Sound.{
  Sound, JoinsNodes, or-true, SoundContext, process_memory_op-Sound,
  process_execution_unit_op-Sound, add_results-Sound, Keeps, map_values-Sound,
  process_datapath_op-Sound, bind-Keeps,
}

module _ (default_kind : ResourceType) where
  mutual
    unfolding process_op process_region

    process_op-Sound :
        (o : ArchOp) (c : DeviceInitContext) → SoundContext c → Keeps (process_op default_kind o c)
    process_op-Sound (memory result kind size first) c s =
        process_memory_op-Sound c result kind size first s
    process_op-Sound (exec_unit result kind is_ls) c s =
        process_execution_unit_op-Sound default_kind c result kind is_ls s
    process_op-Sound (group kind results shared arguments body yielded) c s =
        let c₀ = record c { processed_group_kinds = with_kind kind c.processed_group_kinds } in
        let bound =
          bind-Keeps (map_values arguments shared c₀) (λ c₁. process_region default_kind body c₁)
            (map_values-Sound arguments shared c₀ s) (λ c₁ s₁. process_region-Sound body c₁ s₁) in
        let first_instance =
          bind-Keeps
            (map_values arguments shared c₀ >>= (λ c₁. process_region default_kind body c₁))
            (λ c₂. map_values results yielded c₂) bound
            (λ c₂ s₂. map_values-Sound results yielded c₂ s₂) in
        elim (Bool-cases (is_processed kind c.processed_group_kinds)) [
          | inl e ↦ rw (e, process_op) (add_results-Sound (value_or kind default_kind) results c s)
          | inr e ↦ rw (e, process_op) first_instance
        ]
    process_op-Sound (datapath source target) c s = process_datapath_op-Sound c source target s
    process_op-Sound other c s = s

    process_region-Sound :
        (r : Region) (c : DeviceInitContext)
        → SoundContext c
        → Keeps (process_region default_kind r c)
    process_region-Sound done c s = s
    process_region-Sound (op_then o r) c s =
        bind-Keeps (process_op default_kind o c) (λ c'. process_region default_kind r c')
          (process_op-Sound o c s) (λ c' s'. process_region-Sound r c' s')

  apply_sizes-has :
      (sizes reserved : Map ℕ) (nodes : Map ResourceNode) (v : NodeId)
      → has nodes v ≡ true
      → has (apply_sizes default_kind sizes reserved nodes) v ≡ true
  unfolding apply_sizes
  apply_sizes-has [] reserved nodes v h = h
  apply_sizes-has ((w, size) ∷ sizes) reserved nodes v h =
      apply_sizes-has sizes reserved _ v (go (lookup w nodes))
    where
      go :
          (found : Option ResourceNode)
          → has
              (elim found [
                | none ↦ nodes
                | some n ↦
                    insert w
                      (record n {
                        total_capacity_in_bytes = some size;
                        total_reserved_in_bytes = some (value_or (lookup w reserved) 0);
                      })
                      nodes
              ])
              v
            ≡ true
      go none = h
      go (some n) = has-insert w v _ nodes ∙ rw h (or-true (w == v))

  empty-Sound : Sound empty_graph []
  unfolding get_neighbors list_at lookup
  empty-Sound = record { joins = λ v u m. absurd m; mapped = λ v id e. cc }

  -- Both ends of every edge of the graph that is built for a device are nodes of it.
  pub initialize-JoinsNodes :
      (body : Region) (g : RoutingGraph) → initialize default_kind body ≡ some g → JoinsNodes g
  unfolding initialize has_node get_neighbors
  initialize-JoinsNodes body g e =
      go (process_region default_kind body start) (process_region-Sound body start empty-Sound) e
    where
      start : DeviceInitContext
      start = record {
        graph = empty_graph;
        value_to_node_id = [];
        processed_group_kinds = [];
        node_sizes = [];
        node_reserved = [];
      }

      go :
          (r : Option DeviceInitContext)
          → Keeps r
          → (r >>= (λ c. some (record c.graph {
            nodes = apply_sizes default_kind c.node_sizes c.node_reserved c.graph.nodes;
          })))
            ≡ some g
          → JoinsNodes g
      go none s e = cc
      go (some c) s e =
          let same : record c.graph {
            nodes = apply_sizes default_kind c.node_sizes c.node_reserved c.graph.nodes;
          }
              ≡ g =
            cc in
          subst JoinsNodes same (λ v u m.
            let (ha, hb) = s.joins v u m in
            (
              apply_sizes-has c.node_sizes c.node_reserved c.graph.nodes v ha,
              apply_sizes-has c.node_sizes c.node_reserved c.graph.nodes u hb,
            ))

  -- In the graph that is built for a device, between two of its nodes: the code returns a path along edges
  -- that no path between them is shorter than, or it returns none and there is no path.
  pub find_shortest_path-initialize :
      (body : Region) (g : RoutingGraph) (source target : NodeId)
      → initialize default_kind body ≡ some g
      → has_node g source ≡ true
      → has_node g target ≡ true
      → ((path : List NodeId) × (n : ℕ) × (find_shortest_path g source target ≡ some path)
          × Route g source target path n
          × ((other : List NodeId) (m : ℕ) → Route g source target other m → n ≤ m))
        ⊎ ((find_shortest_path g source target ≡ none)
            × ((other : List NodeId) (m : ℕ) → ¬ Route g source target other m))
  find_shortest_path-initialize body g source target e hs ht =
      find_shortest_path-IsShortest g source target
        (λ v u m. (initialize-JoinsNodes body g e v u m).1) hs ht
