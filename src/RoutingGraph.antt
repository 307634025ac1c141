-- ===== src/RoutingGraph.antt =====
-- lib/Analysis/ArchViews/RoutingGraph.cpp: the graph of memories, load/store units and compute units of
-- a device, with its queries. `nodes_` is a `MapVector`, in insertion order as the list is here.
pub mod Build
pub mod Examples
pub mod Initialize
pub mod Sound
pub mod ShortestPath
use dataflow_scheduler.Prelude.{
  ℕ, suc, ◌+◌, Bool, true, false, Option, none, some, List, [], ◌∷◌, ◌++◌, map, ◌==◌, if◌then◌else◌,
}
use dataflow_scheduler.Prelude.Maps.{Map, lookup, insert, has, list_at}
use dataflow_scheduler.Prelude.Words.{sub64}
use dataflow_scheduler.Device.{ResourceType, NodeId}

pub data ResourceKind : Type 0 where
  memory_kind compute load_store_unit : ResourceKind

pub record ResourceNode : Type 0 where
  pub id : NodeId
  pub resource : ResourceType
  pub kind : ResourceKind
  pub total_capacity_in_bytes : Option ℕ
  pub total_reserved_in_bytes : Option ℕ

pub record EdgeInfo : Type 0 where
  pub source : NodeId
  pub target : NodeId
  pub cost : ℕ

pub record RoutingGraph : Type 0 where
  pub next_node_id : NodeId
  pub nodes : Map ResourceNode
  pub adjacency : Map (List EdgeInfo)
  pub resource_index : Map (List NodeId)

abbrev pub empty_graph : RoutingGraph
empty_graph = record { next_node_id = 0; nodes = []; adjacency = []; resource_index = [] }

unfoldable pub add_node : RoutingGraph → ResourceType → ResourceKind → RoutingGraph × NodeId
unfolding list_at
add_node g resource kind =
    let node_id = g.next_node_id in
    (
      record g {
        next_node_id = suc node_id;
        nodes =
            insert node_id
              (record {
                id = node_id;
                resource = resource;
                kind = kind;
                total_capacity_in_bytes = none;
                total_reserved_in_bytes = none;
              })
              g.nodes;
        resource_index =
            insert resource (list_at resource g.resource_index ++ node_id ∷ []) g.resource_index;
      },
      node_id,
    )

unfoldable pub has_node : RoutingGraph → NodeId → Bool
has_node g node_id = has g.nodes node_id

-- The code asserts that both nodes exist.
unfoldable pub add_edge : RoutingGraph → NodeId → NodeId → ℕ → RoutingGraph
unfolding list_at
add_edge g source target cost = record g {
  adjacency =
      insert source
        (list_at source g.adjacency
          ++ record { source = source; target = target; cost = cost } ∷ [])
        g.adjacency;
}

unfoldable pub get_node : RoutingGraph → NodeId → Option ResourceNode
get_node g node_id = lookup node_id g.nodes

unfoldable pub get_neighbors : RoutingGraph → NodeId → List NodeId
unfolding list_at
get_neighbors g node_id = map (λ e. e.target) (list_at node_id g.adjacency)

unfoldable pub first_edge_to : NodeId → List EdgeInfo → Option EdgeInfo
first_edge_to target [] = none
first_edge_to target (e ∷ es) = if e.target == target then some e else first_edge_to target es

unfoldable pub get_edge_info : RoutingGraph → NodeId → NodeId → Option EdgeInfo
unfolding list_at first_edge_to
get_edge_info g source target = first_edge_to target (list_at source g.adjacency)

unfoldable pub get_node_ids_for_resource : RoutingGraph → ResourceType → List NodeId
unfolding list_at
get_node_ids_for_resource g resource = list_at resource g.resource_index

-- `none` is a failed assertion: the resource has no node, or more than one.
unfoldable pub get_node_id_for_resource : RoutingGraph → ResourceType → Option NodeId
get_node_id_for_resource g resource = elim (lookup resource g.resource_index) [
  | none ↦ none
  | some ids ↦ elim ids [ [] ↦ none | v ∷ rest ↦ elim rest [ [] ↦ some v | _ ∷ _ ↦ none ] ]
]

unfoldable pub get_edge_info_for_resources :
    RoutingGraph → ResourceType → ResourceType → Option EdgeInfo
get_edge_info_for_resources g source dest = elim (get_node_id_for_resource g source) [
  | none ↦ none
  | some s ↦ elim (get_node_id_for_resource g dest) [ none ↦ none | some d ↦ get_edge_info g s d ]
]

unfoldable pub get_all_node_ids : RoutingGraph → List NodeId
get_all_node_ids g = map (λ e. e.0) g.nodes

unfoldable pub get_node_of : RoutingGraph → ResourceType → Option ResourceNode
get_node_of g resource = elim (get_node_id_for_resource g resource) [
  | none ↦ none
  | some v ↦ get_node g v
]

unfoldable pub get_resource_capacity : RoutingGraph → ResourceType → Option ℕ
get_resource_capacity g resource = elim (get_node_of g resource) [
  | none ↦ none
  | some n ↦ n.total_capacity_in_bytes
]

unfoldable pub get_resource_reserved : RoutingGraph → ResourceType → Option ℕ
get_resource_reserved g resource = elim (get_node_of g resource) [
  | none ↦ none
  | some n ↦ n.total_reserved_in_bytes
]

unfoldable pub get_resource_available : RoutingGraph → ResourceType → Option ℕ
get_resource_available g resource = elim (get_resource_capacity g resource) [
  | none ↦ none
  | some capacity ↦ elim (get_resource_reserved g resource) [
    | none ↦ none
    | some reserved ↦ some (sub64 capacity reserved)
  ]
]
