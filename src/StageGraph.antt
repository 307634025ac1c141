-- ===== src/StageGraph.antt =====
-- lib/Dialect/KTDF/Analysis/GlobalStageDAG.cpp: the dependencies between the stages of a pipeline, by
-- their tokens, with the search for a cycle, and the order of the stages. A stage is known by its
-- operation; a `DenseMap` is an association list.
pub mod Cycles
pub mod Edges
pub mod Examples
pub mod Innermost
pub mod Kahn
pub mod Finish
pub mod Nested
pub mod NestedExamples
pub mod Rounds
pub mod Search
pub mod Sort
pub mod Tokens
use dataflow_scheduler.Prelude.{
  ℕ, zero, suc, Bool, true, false, Option, none, some, List, [], ◌∷◌, ◌++◌, map, ◌==◌, not,
  if◌then◌else◌, length,
}
use dataflow_scheduler.Prelude.Maps.{Map, lookup, insert, list_at}
use dataflow_scheduler.Device.{Value}
use dataflow_scheduler.AddressAssignment.{ℤ, pos, negsuc}

pub record StageOp : Type 0 where
  pub op : ℕ
  pub depends_in : List Value
  pub depends_out : List Value

pub record StageDependencyDag : Type 0 where
  pub predecessors : Map (List ℕ)
  pub successors : Map (List ℕ)

abbrev pub ops_of : List StageOp → List ℕ
ops_of = map (λ s. s.op)

-- Every stage gets its entries, which are empty.
unfoldable pub init_dag : StageDependencyDag → List StageOp → StageDependencyDag
init_dag dag [] = dag
init_dag dag (s ∷ ss) =
    init_dag
      (record {
        predecessors = insert s.op [] dag.predecessors;
        successors = insert s.op [] dag.successors;
      })
      ss

unfoldable pub add_tokens : ℕ → List Value → Map ℕ → Map ℕ
add_tokens op [] m = m
add_tokens op (v ∷ vs) m = add_tokens op vs (insert v op m)

unfoldable pub token_producers : List StageOp → Map ℕ → Map ℕ
token_producers [] m = m
token_producers (s ∷ ss) m = token_producers ss (add_tokens s.op s.depends_out m)

unfoldable pub add_edge : StageDependencyDag → ℕ → ℕ → StageDependencyDag
add_edge dag producer consumer = record {
  predecessors =
      insert consumer (list_at consumer dag.predecessors ++ producer ∷ []) dag.predecessors;
  successors = insert producer (list_at producer dag.successors ++ consumer ∷ []) dag.successors;
}

unfoldable pub add_inputs : Map ℕ → ℕ → List Value → StageDependencyDag → StageDependencyDag
add_inputs producers op [] dag = dag
add_inputs producers op (v ∷ vs) dag =
    add_inputs producers op vs
      (elim (lookup v producers) [ none ↦ dag | some producer ↦ add_edge dag producer op ])

unfoldable pub add_stages : Map ℕ → List StageOp → StageDependencyDag → StageDependencyDag
add_stages producers [] dag = dag
add_stages producers (s ∷ ss) dag =
    add_stages producers ss (add_inputs producers s.op s.depends_in dag)

unfoldable pub build_dag : List StageOp → StageDependencyDag
build_dag stages =
    add_stages (token_producers stages []) stages
      (init_dag (record { predecessors = []; successors = [] }) stages)

pub data Color : Type 0 where
  white gray black : Color

abbrev pub or_white : Option Color → Color
or_white none = white
or_white (some c) = c

-- What a visit of `hasCycle` ends in; the colours after a cycle are not read.
pub data Visit : Type 0 where
  cycle_found out_of_fuel : Visit
  no_cycle : Map Color → Visit

module _ (successors : ℕ → List ℕ) where
  -- The loop over the successors of `op`, with the recursive call as a function.
  unfoldable pub visit_successors : (ℕ → Map Color → Visit) → ℕ → List ℕ → Map Color → Visit
  visit_successors has_cycle op [] color = no_cycle (insert op black color)
  visit_successors has_cycle op (s ∷ ss) color = elim (or_white (lookup s color)) [
    | gray ↦ cycle_found
    | black ↦ visit_successors has_cycle op ss color
    | white ↦ elim (has_cycle s color) [
      | cycle_found ↦ cycle_found
      | out_of_fuel ↦ out_of_fuel
      | no_cycle c ↦ visit_successors has_cycle op ss c
    ]
  ]

  unfoldable pub has_cycle : ℕ → ℕ → Map Color → Visit
  has_cycle zero op color = out_of_fuel
  has_cycle (suc fuel) op color =
      visit_successors (has_cycle fuel) op (successors op) (insert op gray color)

  unfoldable pub visit_stages : ℕ → List ℕ → Map Color → Visit
  visit_stages fuel [] color = no_cycle color
  visit_stages fuel (v ∷ vs) color = elim (or_white (lookup v color)) [
    | gray ↦ visit_stages fuel vs color
    | black ↦ visit_stages fuel vs color
    | white ↦ elim (has_cycle fuel v color) [
      | cycle_found ↦ cycle_found
      | out_of_fuel ↦ out_of_fuel
      | no_cycle c ↦ visit_stages fuel vs c
    ]
  ]

abbrev pub successors_of : StageDependencyDag → ℕ → List ℕ
successors_of dag v = list_at v dag.successors

-- `none` is the error that the tokens go round in a circle. The stages on the way to a visit are all
-- different, so their number and one bounds the depth of the recursion.
unfoldable pub analyze_stage_dependencies : List StageOp → Option StageDependencyDag
analyze_stage_dependencies stages =
    let dag = build_dag stages in
    elim (visit_stages (successors_of dag) (suc (length stages)) (ops_of stages) []) [
      | no_cycle color ↦ some dag
      | cycle_found ↦ none
      | out_of_fuel ↦ none
    ]

abbrev pub or_zero : Option ℤ → ℤ
or_zero none = pos 0
or_zero (some d) = d

-- `--in_degree[op]`, an `int`.
abbrev pub decrement : ℤ → ℤ
decrement (pos zero) = negsuc 0
decrement (pos (suc n)) = pos n
decrement (negsuc n) = negsuc (suc n)

abbrev pub is_zero : ℤ → Bool
is_zero (pos zero) = true
is_zero (pos (suc n)) = false
is_zero (negsuc n) = false

pub record SortState : Type 0 where
  pub in_degree : Map ℤ
  pub queue : List ℕ
  pub sorted_stages : List ℕ

-- A stage enters the queue at once if it has no predecessor.
unfoldable pub start_sort : StageDependencyDag → List ℕ → SortState → SortState
start_sort dag [] s = s
start_sort dag (v ∷ vs) s =
    let degree = length (list_at v dag.predecessors) in
    start_sort dag vs (record s {
      in_degree = insert v (pos degree) s.in_degree;
      queue = if degree == 0 then s.queue ++ v ∷ [] else s.queue;
    })

unfoldable pub release_successors : List ℕ → SortState → SortState
release_successors [] s = s
release_successors (v ∷ vs) s =
    let degree = decrement (or_zero (lookup v s.in_degree)) in
    release_successors vs (record s {
      in_degree = insert v degree s.in_degree;
      queue = if is_zero degree then s.queue ++ v ∷ [] else s.queue;
    })

-- `while (!queue.empty())`; `none`: out of fuel.
unfoldable pub sort_loop : StageDependencyDag → ℕ → SortState → Option SortState
sort_loop dag zero s = none
sort_loop dag (suc fuel) s = elim s.queue [
  | [] ↦ some s
  | current ∷ rest ↦ sort_loop dag fuel (
      release_successors (successors_of dag current)
        (record s { queue = rest; sorted_stages = s.sorted_stages ++ current ∷ [] }))
]

-- `none` is the failure. A stage is queued once, so one round more than there are stages is enough.
unfoldable pub topological_sort_stages : List StageOp → StageDependencyDag → Option (List ℕ)
topological_sort_stages [] dag = some []
topological_sort_stages (s ∷ ss) dag =
    elim (sort_loop dag (suc (length (s ∷ ss))) (
      start_sort dag (ops_of (s ∷ ss))
        (record { in_degree = []; queue = []; sorted_stages = [] }))) [
          | none ↦ none
          | some done ↦
              if not (length done.sorted_stages == length (s ∷ ss))
              then none
              else some done.sorted_stages
        ]
