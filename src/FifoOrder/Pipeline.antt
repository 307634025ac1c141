-- ===== src/FifoOrder/Pipeline.antt =====
-- lib/Transforms/OrderFifoSlotsByUse.cpp, `collectChannelAccesses` and `orderPipeline`: the slots of each FIFO
-- of a pipeline, and the FIFOs in turn.
use dataflow_scheduler.Prelude.{
  ℕ, suc, Bool, not, ◌&&◌, Option, none, some, List, [], ◌∷◌, ◌++◌, ◌==◌, if◌then◌else◌, contains,
}
use dataflow_scheduler.Prelude.Maps.{Map, insert, list_at}
use dataflow_scheduler.Device.{Value, ResourceType}
use dataflow_scheduler.FifoOrder.{SlotUse, SlotAccess, Reader, get_slot_access}
use dataflow_scheduler.FifoOrder.Pass.{
  Ordering, consumed_outside, already_in_order, unable_to_reorder, reads_not_moved, reordered,
  order_fifo, has_known_protocol,
}

-- The source and the destination of a slot's type.
abbrev pub Ends : Type 0
Ends = ResourceType × ResourceType

abbrev same_ends : Ends → Ends → Bool
same_ends a b = a.0 == b.0 && a.1 == b.1

abbrev pub ChannelAccesses : Type 0
ChannelAccesses = List (Ends × List ℕ)

-- An op as the walk sees it: whether it yields out of a private, and the type of each operand that is a
-- slot.
pub record WalkedOp : Type 0 where
  pub op : ℕ
  pub is_private_yield : Bool
  pub slot_types : List Ends

unfoldable pub add_channel : Ends → ℕ → ChannelAccesses → ChannelAccesses
add_channel ends op [] = (ends, op ∷ []) ∷ []
add_channel ends op ((e, ops) ∷ channels) =
    let rest = add_channel ends op channels in
    if same_ends e ends
    then (e, if contains ops op then ops else op ∷ ops) ∷ channels
    else (e, ops) ∷ rest

unfoldable pub add_channels : ℕ → List Ends → ChannelAccesses → ChannelAccesses
add_channels op [] channels = channels
add_channels op (ends ∷ types) channels = add_channels op types (add_channel ends op channels)

unfoldable pub collect_channel_accesses : List WalkedOp → ChannelAccesses → ChannelAccesses
collect_channel_accesses [] channels = channels
collect_channel_accesses (o ∷ ops) channels =
    collect_channel_accesses ops
      (if o.is_private_yield then channels else add_channels o.op o.slot_types channels)

unfoldable pub channel_of : Ends → ChannelAccesses → List ℕ
channel_of ends [] = []
channel_of ends ((e, ops) ∷ channels) =
    let rest = channel_of ends channels in if same_ends e ends then ops else rest

-- A result of the private of a pipeline; `none` where it is no slot.
pub record PrivateResult : Type 0 where
  pub value : Value
  pub slot_type : Option Ends
  pub uses : List SlotUse

abbrev pub Fifos : Type 0
Fifos = List (Ends × List SlotAccess)

unfoldable pub add_access : Ends → SlotAccess → Fifos → Fifos
add_access ends access [] = (ends, access ∷ []) ∷ []
add_access ends access ((e, accesses) ∷ fifos) =
    let rest = add_access ends access fifos in
    if same_ends e ends then (e, accesses ++ access ∷ []) ∷ fifos else (e, accesses) ∷ rest

unfoldable pub collect_fifos : List PrivateResult → Fifos → Fifos
collect_fifos [] fifos = fifos
collect_fifos (r ∷ results) fifos = collect_fifos results (elim r.slot_type [
  | none ↦ fifos
  | some ends ↦ elim (get_slot_access r.value r.uses) [
    | none ↦ fifos
    | some access ↦ add_access ends access fifos
  ]
])

-- What a pass over a function has: the ops of each block, and how many FIFOs were skipped and reordered.
pub record PassState : Type 0 where
  pub contents : Map (List ℕ)
  pub num_skipped : ℕ
  pub num_reordered : ℕ

-- Dominance follows the contents of the blocks, as they are when a FIFO is taken up.
module _ (operands : ℕ → List Value) (is_memory_effect_free : ℕ → Bool)
    (properly_dominates : Map (List ℕ) → Value → ℕ → Bool) (reader_of : ℕ → Reader)
    (block_of stage_of : ℕ → ℕ) where
  unfoldable pub apply_order : ℕ → ℕ → Ordering → PassState → PassState
  apply_order writer_block reader_block (reordered b) s = record {
    contents = insert reader_block b.reader_block (insert writer_block b.writer_block s.contents);
    num_skipped = s.num_skipped;
    num_reordered = suc s.num_reordered;
  }
  apply_order writer_block reader_block consumed_outside s = s
  apply_order writer_block reader_block already_in_order s = s
  apply_order writer_block reader_block unable_to_reorder s = s
  apply_order writer_block reader_block reads_not_moved s = s

  -- One FIFO; the first access names the blocks.
  unfoldable pub order_one : ChannelAccesses → Ends → List SlotAccess → PassState → PassState
  order_one channels ends [] s = s
  order_one channels ends (a ∷ []) s = s
  order_one channels ends (a ∷ b ∷ accesses) s =
      if not (has_known_protocol block_of stage_of (a ∷ b ∷ accesses) (channel_of ends channels))
      then record s { num_skipped = suc s.num_skipped }
      else apply_order (block_of a.writer) (block_of a.reader)
          (order_fifo operands is_memory_effect_free (properly_dominates s.contents) reader_of
            (a ∷ b ∷ accesses)
            (record {
              writer_block = list_at (block_of a.writer) s.contents;
              reader_block = list_at (block_of a.reader) s.contents;
            }))
          s

  unfoldable pub order_fifos : ChannelAccesses → Fifos → PassState → PassState
  order_fifos channels [] s = s
  order_fifos channels ((ends, accesses) ∷ fifos) s =
      order_fifos channels fifos (order_one channels ends accesses s)

  -- A pipeline without a private has no results of one.
  unfoldable pub order_pipeline : ChannelAccesses → List PrivateResult → PassState → PassState
  order_pipeline channels results s = order_fifos channels (collect_fifos results []) s
