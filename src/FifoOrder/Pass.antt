-- ===== src/FifoOrder/Pass.antt =====
-- lib/Transforms/OrderFifoSlotsByUse.cpp, `orderPipeline`, `hasKnownProtocol` and `orderFifo`: which FIFOs
-- of a pipeline are ordered, and how.
use dataflow_scheduler.Prelude.{
  ℕ, suc, Bool, true, false, not, ◌&&◌, ◌||◌, Option, none, some, List, [], ◌∷◌, map, length, ◌==◌,
  if◌then◌else◌, contains,
}
use dataflow_scheduler.Prelude.Maps.{Map, insert}
use dataflow_scheduler.Device.{Value}
use dataflow_scheduler.FifoOrder.{
  SlotAccess, Reader, key_less, get_consumption_key, is_before_in_block, move_into_order,
}

abbrev pub Keyed : Type 0
Keyed = (ℕ × ℕ) × SlotAccess

unfoldable pub enumerate_positions : ℕ → List ℕ → Map ℕ → Map ℕ
enumerate_positions index [] positions = positions
enumerate_positions index (op ∷ ops) positions =
    enumerate_positions (suc index) ops (insert op index positions)

unfoldable pub key_accesses : (ℕ → Reader) → Map ℕ → List SlotAccess → Option (List Keyed)
key_accesses reader_of positions [] = some []
key_accesses reader_of positions (a ∷ accesses) =
    elim (get_consumption_key reader_of a.reader positions) [
      | none ↦ none
      | some key ↦ elim (key_accesses reader_of positions accesses) [
        | none ↦ none
        | some keyed ↦ some ((key, a) ∷ keyed)
      ]
    ]

-- `llvm::stable_sort`: each entry goes behind all that are not greater.
unfoldable pub insert_keyed : Keyed → List Keyed → List Keyed
insert_keyed k [] = k ∷ []
insert_keyed k (x ∷ xs) =
    let rest = insert_keyed k xs in if key_less k.0 x.0 then k ∷ x ∷ xs else x ∷ rest

unfoldable pub sort_onto : List Keyed → List Keyed → List Keyed
sort_onto sorted [] = sorted
sort_onto sorted (k ∷ ks) = sort_onto (insert_keyed k sorted) ks

abbrev pub stable_sort : List Keyed → List Keyed
stable_sort = sort_onto []

-- No op stands in the block before the one that precedes it in the list.
unfoldable pub in_order : List ℕ → List ℕ → Bool
in_order block [] = true
in_order block (a ∷ []) = true
in_order block (a ∷ b ∷ ops) = not (is_before_in_block block b a) && in_order block (b ∷ ops)

-- The blocks of the writes and of the reads.
pub record Blocks : Type 0 where
  pub writer_block : List ℕ
  pub reader_block : List ℕ

-- How `orderFifo` ends. The reads that do not move are a failed assertion.
pub data Ordering : Type 0 where
  consumed_outside already_in_order unable_to_reorder reads_not_moved : Ordering
  reordered : Blocks → Ordering

abbrev pub writers_of : List Keyed → List ℕ
writers_of = map (λ k. k.1.writer)

abbrev pub readers_of : List Keyed → List ℕ
readers_of = map (λ k. k.1.reader)

module _ (operands : ℕ → List Value) (is_memory_effect_free : ℕ → Bool)
    (properly_dominates : Value → ℕ → Bool) where
  abbrev pub ordered_ops : List ℕ → Bool → List ℕ → Option (List ℕ)
  ordered_ops ops keep_memory_order block =
      if in_order block ops
      then some block
      else move_into_order operands is_memory_effect_free properly_dominates ops keep_memory_order
          block

  unfoldable pub order_keyed : List Keyed → Blocks → Ordering
  order_keyed keyed blocks =
      let writers = writers_of keyed in
      let readers = readers_of keyed in
      if in_order blocks.writer_block writers && in_order blocks.reader_block readers
      then already_in_order
      else elim (ordered_ops writers true blocks.writer_block) [
        | none ↦ unable_to_reorder
        | some writer_block ↦ elim (ordered_ops readers false blocks.reader_block) [
          | none ↦ reads_not_moved
          | some reader_block ↦
              reordered (record { writer_block = writer_block; reader_block = reader_block })
        ]
      ]

  unfoldable pub order_fifo : (ℕ → Reader) → List SlotAccess → Blocks → Ordering
  order_fifo reader_of accesses blocks =
      elim (key_accesses reader_of (enumerate_positions 0 blocks.reader_block []) accesses) [
        | none ↦ consumed_outside
        | some keyed ↦ order_keyed (stable_sort keyed) blocks
      ]

-- The blocks and the stages that the ops stand in.
module _ (block_of stage_of : ℕ → ℕ) where
  abbrev add_op : ℕ → List ℕ → List ℕ
  add_op op own = if contains own op then own else op ∷ own

  -- `own`, or `none` where a slot is written or read in another block.
  unfoldable pub own_ops : ℕ → ℕ → List SlotAccess → List ℕ → Option (List ℕ)
  own_ops writer_block reader_block [] own = some own
  own_ops writer_block reader_block (a ∷ accesses) own =
      let rest =
        own_ops writer_block reader_block accesses (add_op a.reader (add_op a.writer own)) in
      if not (block_of a.writer == writer_block) || not (block_of a.reader == reader_block)
      then none
      else rest

  -- `channel` has no op twice. The code asserts that stages are not on a cycle.
  unfoldable pub has_known_protocol : List SlotAccess → List ℕ → Bool
  has_known_protocol [] channel = false
  has_known_protocol (a ∷ accesses) channel =
      elim (own_ops (block_of a.writer) (block_of a.reader) (a ∷ accesses) []) [
        | none ↦ false
        | some own ↦ length own == length channel && not (stage_of a.writer == stage_of a.reader)
      ]
