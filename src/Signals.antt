-- ===== src/Signals.antt =====
-- lib/Conversion/backend/ScheduleIRToDFIR/KTDFToKTDFLow/SignalInsertion.cpp: the signal operations
-- between conflicting stages, with the guards of those across iterations. What the pass builds is a
-- list of insertions; an operation's ancestors, which are MLIR's, are a parameter.
pub mod Balance
pub mod Examples
pub mod Guards
use dataflow_scheduler.Prelude.{
  ℕ, ◌-◌, Bool, true, false, not, ◌&&◌, ◌||◌, Option, none, some, List, [], ◌∷◌, ◌++◌, ◌==◌,
  contains, if◌then◌else◌,
}
use dataflow_scheduler.Prelude.Maps.{Map, list_at}
use dataflow_scheduler.Device.{Value}

pub data OpKind : Type 0 where
  stage_op pipeline_op other_op : OpKind

pub record Operation : Type 0 where
  pub op : ℕ
  pub kind : OpKind

abbrev is_pipeline : OpKind → Bool
is_pipeline pipeline_op = true
is_pipeline stage_op = false
is_pipeline other_op = false

abbrev is_stage : OpKind → Bool
is_stage stage_op = true
is_stage pipeline_op = false
is_stage other_op = false

-- An `scf.for`, with the values that its bounds and its step have when it runs.
pub record ForOp : Type 0 where
  pub op : ℕ
  pub lower_bound : ℕ
  pub upper_bound : ℕ
  pub step : ℕ

-- The operands of the comparisons: `last_iv` is the upper bound minus the step.
pub data Operand : Type 0 where
  induction_var lower_bound_of last_iv : ForOp → Operand

pub data Cond : Type 0 where
  cmp_ne : Operand → Operand → Cond
  or_i : Cond → Cond → Cond

pub record BackEdgeInfo : Type 0 where
  pub store_stage : ℕ
  pub load_stage : ℕ
  pub dependent_loops : List ForOp

-- A signal after an operation, or a guarded one at the start or the end of a stage.
pub data Insertion : Type 0 where
  signal_after : ℕ → List Value → Insertion
  guarded_at_start guarded_at_end : ℕ → Cond → List Value → Insertion

unfoldable pub collect_pipelines : List Operation → List ℕ
collect_pipelines [] = []
collect_pipelines (p ∷ ps) =
    let rest = collect_pipelines ps in if is_pipeline p.kind then p.op ∷ rest else rest

-- The walk over the producer's ancestors.
unfoldable pub shared_loop : List ℕ → ℕ → ℕ → List Operation → ℕ
shared_loop pipelines producer last_stage [] = producer
shared_loop pipelines producer last_stage (p ∷ ps) =
    let last = if is_stage p.kind then p.op else last_stage in
    let rest = shared_loop pipelines producer last ps in
    if is_pipeline p.kind && contains pipelines p.op then last else rest

unfoldable pub collect_signal_units : Map (List Value) → ℕ → ℕ → List Value
unfolding list_at
collect_signal_units stage_to_units stage_a stage_b =
    list_at stage_a stage_to_units ++ list_at stage_b stage_to_units

abbrev pub has_pair : List (ℕ × ℕ) → ℕ → ℕ → Bool
has_pair [] a b = false
has_pair ((x, y) ∷ ps) a b = (x == a) && (y == b) || has_pair ps a b

-- `cond ? OrIOp(cond, test) : test`.
abbrev pub or_with : Option Cond → Cond → Cond
or_with none test = test
or_with (some cond) test = or_i cond test

-- The loop over the dependent loops; without one there is no condition (a null value).
unfoldable pub recv_guard : Option Cond → List ForOp → Option Cond
recv_guard cond [] = cond
recv_guard cond (l ∷ ls) =
    recv_guard (some (or_with cond (cmp_ne (induction_var l) (lower_bound_of l)))) ls

unfoldable pub send_guard : Option Cond → List ForOp → Option Cond
send_guard cond [] = cond
send_guard cond (l ∷ ls) =
    send_guard (some (or_with cond (cmp_ne (induction_var l) (last_iv l)))) ls

abbrev pub back_edge_set : List BackEdgeInfo → List (ℕ × ℕ)
back_edge_set [] = []
back_edge_set (e ∷ es) = (e.store_stage, e.load_stage) ∷ back_edge_set es

module _ (ancestors : ℕ → List Operation) (stage_to_units : Map (List Value))
    (conflicts : List (ℕ × ℕ)) where
  unfoldable pub shared_level_ancestor : ℕ → ℕ → ℕ
  shared_level_ancestor producer consumer =
      shared_loop (collect_pipelines (ancestors consumer)) producer producer (ancestors producer)

  -- The edges of the stage graph, one producer and consumer after the other.
  unfoldable pub insert_normal : List (ℕ × ℕ) → List (ℕ × ℕ) → List Insertion
  insert_normal back_edges [] = []
  insert_normal back_edges ((producer, consumer) ∷ edges) =
      let rest = insert_normal back_edges edges in
      if not (has_pair conflicts producer consumer) || has_pair back_edges producer consumer
      then rest
      else elim (collect_signal_units stage_to_units producer consumer) [
        | [] ↦ rest
        | u ∷ us ↦ signal_after (shared_level_ancestor producer consumer) (u ∷ us) ∷ rest
      ]

  -- `none`: an `scf.if` on a null condition.
  unfoldable pub insert_back_edges : List BackEdgeInfo → Option (List Insertion)
  insert_back_edges [] = some []
  insert_back_edges (e ∷ es) =
      let rest = insert_back_edges es in
      if not (has_pair conflicts e.store_stage e.load_stage)
      then rest
      else elim (collect_signal_units stage_to_units e.store_stage e.load_stage) [
        | [] ↦ rest
        | u ∷ us ↦ elim (recv_guard none e.dependent_loops) [
          | none ↦ none
          | some recv ↦ elim (send_guard none e.dependent_loops) [
            | none ↦ none
            | some send ↦ elim rest [
              | none ↦ none
              | some others ↦ some (
                  guarded_at_start e.load_stage recv (u ∷ us)
                  ∷ guarded_at_end e.store_stage send (u ∷ us)
                  ∷ others)
            ]
          ]
        ]
      ]

  unfoldable pub insert_signals : List (ℕ × ℕ) → List BackEdgeInfo → Option (List Insertion)
  insert_signals edges back_edges = elim (insert_back_edges back_edges) [
    | none ↦ none
    | some guarded ↦ some (insert_normal (back_edge_set back_edges) edges ++ guarded)
  ]
