-- ===== src/RoutingGraph/Build.antt =====
-- lib/Analysis/ArchViews/RoutingGraph.cpp, `initialize`: the graph of a device, from a walk over its
-- body. `none` is a failed assertion.
use dataflow_scheduler.Prelude.{
  ℕ, Bool, false, Option, none, some, List, [], ◌∷◌, ◌==◌, if◌then◌else◌, contains,
}
use dataflow_scheduler.Prelude.Maps.{Map, lookup, insert}
use dataflow_scheduler.Device.{
  ArchOp, Region, memory, exec_unit, group, datapath, other, done, op_then, Value, ResourceType,
  NodeId,
}
use dataflow_scheduler.MemoryTree.Queries.{value_or}
use dataflow_scheduler.RoutingGraph.{
  memory_kind, compute, load_store_unit, ResourceNode, RoutingGraph, empty_graph, add_node,
  add_edge,
}

pub record DeviceInitContext : Type 0 where
  pub graph : RoutingGraph
  pub value_to_node_id : Map NodeId
  pub processed_group_kinds : List ResourceType
  pub node_sizes : Map ℕ
  pub node_reserved : Map ℕ

infixl 5 ◌>>=◌
abbrev pub ◌>>=◌ {ℓ κ} : {A : Type ℓ} {B : Type κ} → Option A → (A → Option B) → Option B
none >>= f = none
some a >>= f = f a

abbrev insert_size : NodeId → Option ℕ → Map ℕ → Map ℕ
insert_size v none m = m
insert_size v (some size) m = insert v size m

unfoldable pub process_memory_op :
    DeviceInitContext → Value → ResourceType → Option ℕ → ℕ → DeviceInitContext
process_memory_op c result kind size first_available =
    let (graph, node_id) = add_node c.graph kind memory_kind in
    record c {
      graph = graph;
      value_to_node_id = insert result node_id c.value_to_node_id;
      node_sizes = insert_size node_id size c.node_sizes;
      node_reserved = insert node_id first_available c.node_reserved;
    }

-- `default_kind` is the string attribute "exec_unit".
unfoldable pub process_execution_unit_op :
    ResourceType → DeviceInitContext → Value → Option ResourceType → Bool → DeviceInitContext
process_execution_unit_op default_kind c result kind is_ls =
    let node_kind = if is_ls then load_store_unit else compute in
    let (graph, node_id) = add_node c.graph (value_or kind default_kind) node_kind in
    record c { graph = graph; value_to_node_id = insert result node_id c.value_to_node_id }

-- A compute node for each result of a group that was seen before.
unfoldable pub add_results : ResourceType → List Value → DeviceInitContext → DeviceInitContext
add_results group_kind [] c = c
add_results group_kind (v ∷ vs) c =
    let (graph, node_id) = add_node c.graph group_kind compute in
    add_results group_kind vs
      (record c { graph = graph; value_to_node_id = insert v node_id c.value_to_node_id })

-- For block arguments and shared memory, and for results and yielded values: each value of the first
-- list gets the node of its partner.
unfoldable pub map_values : List Value → List Value → DeviceInitContext → Option DeviceInitContext
map_values [] froms c = some c
map_values (v ∷ vs) [] c = some c
map_values (v ∷ vs) (from ∷ froms) c = elim (lookup from c.value_to_node_id) [
  | none ↦ none
  | some node_id ↦
      map_values vs froms (record c { value_to_node_id = insert v node_id c.value_to_node_id })
]

unfoldable pub process_datapath_op : DeviceInitContext → Value → Value → Option DeviceInitContext
process_datapath_op c source_val target_val = do
  source_id ← lookup source_val c.value_to_node_id
  target_id ← lookup target_val c.value_to_node_id
  if source_id == target_id
      then none
      else some (record c { graph = add_edge c.graph source_id target_id 1 })

abbrev pub is_processed : Option ResourceType → List ResourceType → Bool
is_processed none kinds = false
is_processed (some kind) kinds = contains kinds kind

abbrev pub with_kind : Option ResourceType → List ResourceType → List ResourceType
with_kind none kinds = kinds
with_kind (some kind) kinds = kind ∷ kinds

module _ (default_kind : ResourceType) where
  unfoldable mutual
    pub process_op : ArchOp → DeviceInitContext → Option DeviceInitContext
    process_op (memory result kind size first) c = some (process_memory_op c result kind size first)
    process_op (exec_unit result kind is_ls) c =
        some (process_execution_unit_op default_kind c result kind is_ls)
    process_op (group kind results shared arguments body yielded) c =
        let c₀ = record c { processed_group_kinds = with_kind kind c.processed_group_kinds } in
        let first_instance =
          map_values arguments shared c₀
          >>= (λ c₁. process_region body c₁)
          >>= (λ c₂. map_values results yielded c₂) in
        if is_processed kind c.processed_group_kinds
        then some (add_results (value_or kind default_kind) results c)
        else first_instance
    process_op (datapath source target) c = process_datapath_op c source target
    process_op other c = some c

    pub process_region : Region → DeviceInitContext → Option DeviceInitContext
    process_region done c = some c
    process_region (op_then o r) c = do c' ← process_op o c; process_region r c'

  unfoldable pub apply_sizes : Map ℕ → Map ℕ → Map ResourceNode → Map ResourceNode
  apply_sizes [] reserved nodes = nodes
  apply_sizes ((v, size) ∷ sizes) reserved nodes =
      apply_sizes sizes reserved (elim (lookup v nodes) [
        | none ↦ nodes
        | some n ↦
            insert v
              (record n {
                total_capacity_in_bytes = some size;
                total_reserved_in_bytes = some (value_or (lookup v reserved) 0);
              })
              nodes
      ])

  unfoldable pub initialize : Region → Option RoutingGraph
  initialize body = do
    c ← process_region body (record {
      graph = empty_graph;
      value_to_node_id = [];
      processed_group_kinds = [];
      node_sizes = [];
      node_reserved = [];
    })
    some (record c.graph { nodes = apply_sizes c.node_sizes c.node_reserved c.graph.nodes })
