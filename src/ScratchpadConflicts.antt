-- ===== src/ScratchpadConflicts.antt =====
-- lib/Conversion/backend/ScheduleIRToDFIR/KTDFToKTDFLow/ScratchpadConflicts.cpp, and `getUnitResourceType` of
-- lib/Conversion/Utils/Utils.cpp: the memories through which ordered stages conflict.
pub mod Examples
pub mod Kinds
pub mod Shared
pub mod Pairs
use dataflow_scheduler.Prelude.{
  ℕ, Bool, true, false, ◌&&◌, Option, none, some, List, [], ◌∷◌, ◌++◌, ◌==◌, if◌then◌else◌,
  contains,
}
use dataflow_scheduler.Prelude.Maps.{Map, lookup}
use dataflow_scheduler.Device.{Value, ResourceType}

-- What defines the value of a unit. Types are in upper case; the values of a mapping are known by the type
-- of the unit that each gets, if it gets one.
pub data UnitValue : Type 0 where
  get_unit : ResourceType → UnitValue
  query_map : List (Option ResourceType) → UnitValue
  other_value : UnitValue

abbrev pub get_unit_resource_type : UnitValue → Option ResourceType
get_unit_resource_type (get_unit type) = some type
get_unit_resource_type (query_map []) = none
get_unit_resource_type (query_map (v ∷ values)) = v
get_unit_resource_type other_value = none

pub record Link : Type 0 where
  pub is_incoming : Bool
  pub is_outgoing : Bool
  pub sources : List Value
  pub targets : List Value

pub record ArchNode : Type 0 where
  pub kind : Option ResourceType
  pub is_memory : Bool

-- How the code leaves its loops early.
pub data Result {ℓ} (A : Type ℓ) : Type ℓ where
  failure assertion_failed : Result A
  ok : A → Result A

infixl 5 ◌>>=◌
abbrev pub ◌>>=◌ {ℓ κ} : {A : Type ℓ} {B : Type κ} → Result A → (A → Result B) → Result B
failure >>= f = failure
assertion_failed >>= f = assertion_failed
ok a >>= f = f a

abbrev pub or_fail {ℓ} : {A : Type ℓ} → Option A → Result A
or_fail none = failure
or_fail (some a) = ok a

abbrev pub asserted {ℓ} : {A : Type ℓ} → Option A → Result A
asserted none = assertion_failed
asserted (some a) = ok a

abbrev pub insert_kind : Option ResourceType → List ResourceType → List ResourceType
insert_kind none kinds = kinds
insert_kind (some k) kinds = if contains kinds k then kinds else k ∷ kinds

-- The conflicts of a pair of stages, by the kinds of the units.
abbrev pub Conflicts : Type 0
Conflicts = List ((ℕ × ℕ) × List ResourceType)

abbrev pub same_pair : ℕ × ℕ → ℕ × ℕ → Bool
same_pair a b = a.0 == b.0 && a.1 == b.1

unfoldable pub put : ℕ × ℕ → List ResourceType → Conflicts → Conflicts
put key units [] = (key, units) ∷ []
put key units ((k, u) ∷ conflicts) =
    let rest = put key units conflicts in
    if same_pair k key then (k, units) ∷ conflicts else (k, u) ∷ rest

unfoldable pub shares : List ResourceType → List ResourceType → Bool
shares [] reads = false
shares (w ∷ writes) reads = if contains reads w then true else shares writes reads

abbrev pub is_none : List ResourceType → Bool
is_none [] = true
is_none (x ∷ xs) = false

-- `getNode` of a value, and the links of the instance of a kind, as `visitLinks` goes through them.
module _ (get_node : Value → Option ArchNode)
    (get_instance : ResourceType → Option (List Link)) where
  abbrev pub memory_kind : Value → Option ResourceType
  memory_kind value = elim (get_node value) [
    | none ↦ none
    | some node ↦ if node.is_memory then node.kind else none
  ]

  unfoldable pub visit_values : List Value → List ResourceType → List ResourceType
  visit_values [] kinds = kinds
  visit_values (v ∷ vs) kinds = visit_values vs (insert_kind (memory_kind v) kinds)

  unfoldable pub read_kinds : List Link → List ResourceType → List ResourceType
  read_kinds [] kinds = kinds
  read_kinds (l ∷ links) kinds =
      read_kinds links (if l.is_incoming then visit_values l.sources kinds else kinds)

  unfoldable pub write_kinds : List Link → List ResourceType → List ResourceType
  write_kinds [] kinds = kinds
  write_kinds (l ∷ links) kinds =
      write_kinds links (if l.is_outgoing then visit_values l.targets kinds else kinds)

  -- The loop over the consumer's units.
  unfoldable pub consumer_conflicts :
      List ResourceType → ResourceType → List UnitValue → Result (List ResourceType)
  consumer_conflicts writes producer_comp [] = ok []
  consumer_conflicts writes producer_comp (u ∷ us) =
      let next = consumer_conflicts writes producer_comp us in
      asserted (get_unit_resource_type u) >>= (λ consumer_comp.
        or_fail (get_instance consumer_comp) >>= (λ consumer. next >>= (λ rest. ok (
          if shares writes (read_kinds consumer [])
          then producer_comp ∷ consumer_comp ∷ rest
          else rest))))

  -- The loop over the producer's units, of which one without a kind is passed over.
  unfoldable pub producer_conflicts : List UnitValue → List UnitValue → Result (List ResourceType)
  producer_conflicts consumer_units [] = ok []
  producer_conflicts consumer_units (u ∷ us) =
      let next = producer_conflicts consumer_units us in
      elim (get_unit_resource_type u) [
        | none ↦ next
        | some producer_comp ↦ or_fail (get_instance producer_comp) >>= (λ producer.
            consumer_conflicts (write_kinds producer []) producer_comp consumer_units
            >>= (λ here. next >>= (λ rest. ok (here ++ rest))))
      ]

  unfoldable pub add_successors :
      Map (List UnitValue) → ℕ → List UnitValue → List ℕ → Conflicts → Result Conflicts
  add_successors mapping producer_op producer_units [] conflicts = ok conflicts
  add_successors mapping producer_op producer_units (consumer_op ∷ ops) conflicts =
      asserted (lookup consumer_op mapping) >>= (λ consumer_units.
        producer_conflicts consumer_units producer_units >>= (λ units.
          add_successors mapping producer_op producer_units ops
            (if is_none units then conflicts else put (producer_op, consumer_op) units conflicts)))

  unfoldable pub compute_scratchpad_conflicts :
      Map (List UnitValue) → Map (List ℕ) → Conflicts → Result Conflicts
  compute_scratchpad_conflicts mapping [] conflicts = ok conflicts
  compute_scratchpad_conflicts mapping ((producer_op, successors) ∷ entries) conflicts =
      asserted (lookup producer_op mapping) >>= (λ producer_units.
        add_successors mapping producer_op producer_units successors conflicts
        >>= (λ added. compute_scratchpad_conflicts mapping entries added))
