-- ===== src/ScratchpadConflicts/Examples.antt =====
-- Runs of the model of `computeScratchpadConflicts`
-- (lib/Conversion/backend/ScheduleIRToDFIR/KTDFToKTDFLow/ScratchpadConflicts.cpp) on three stages.
use dataflow_scheduler.Prelude.{
  ℕ, ◌≡◌, ◌↔◌, ◌⊎◌, refl, true, false, Option, none, some, List, [], ◌∷◌, ◌==◌, if◌then◌else◌,
  contains,
}
use dataflow_scheduler.Prelude.Maps.{Map, lookup}
use dataflow_scheduler.Device.{Value, ResourceType}
use dataflow_scheduler.ScratchpadConflicts.{
  UnitValue, get_unit, query_map, Link, ArchNode, ok, put, shares, visit_values, read_kinds,
  write_kinds, consumer_conflicts, producer_conflicts, add_successors, compute_scratchpad_conflicts,
}
use dataflow_scheduler.ScratchpadConflicts.Shared.{
  ConflictingEdge, compute_scratchpad_conflicts_lem,
}
use dataflow_scheduler.ScratchpadConflicts.Pairs.{has_pair}

-- The value 50 is the memory of kind 7. The unit of kind 20 writes it, that of kind 30 reads it.
abbrev get_node : Value → Option ArchNode
get_node v = if v == 50 then some (record { kind = some 7; is_memory = true }) else none

abbrev get_instance : ResourceType → Option (List Link)
get_instance kind =
    if kind == 20
    then some (
        record { is_incoming = false; is_outgoing = true; sources = 20 ∷ []; targets = 50 ∷ [] }
        ∷ [])
    else some (
        record { is_incoming = true; is_outgoing = false; sources = 50 ∷ []; targets = 30 ∷ [] }
        ∷ [])

abbrev mapping : Map (List UnitValue)
mapping = (1, get_unit 20 ∷ []) ∷ (2, query_map (some 30 ∷ []) ∷ []) ∷ (3, get_unit 20 ∷ []) ∷ []

-- Stage 1 comes before stage 2 and stage 3.
abbrev edges : Map (List ℕ)
edges = (1, 2 ∷ 3 ∷ []) ∷ []

computed :
    compute_scratchpad_conflicts get_node get_instance mapping edges []
    ≡ ok (((1, 2), 20 ∷ 30 ∷ []) ∷ [])
unfolding compute_scratchpad_conflicts add_successors producer_conflicts consumer_conflicts
    write_kinds read_kinds visit_values shares put lookup contains
computed = refl

compute_scratchpad_conflicts_lem_example :
    (has_pair (1, 2) (((1, 2), 20 ∷ 30 ∷ []) ∷ []) ≡ true)
    ↔ ((has_pair (1, 2) [] ≡ true) ⊎ ConflictingEdge get_node get_instance mapping edges 1 2)
compute_scratchpad_conflicts_lem_example =
    compute_scratchpad_conflicts_lem get_node get_instance mapping edges []
      (((1, 2), 20 ∷ 30 ∷ []) ∷ []) 1 2 computed
