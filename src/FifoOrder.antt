-- ===== src/FifoOrder.antt =====
-- lib/Transforms/OrderFifoSlotsByUse.cpp: the writes and the reads of a FIFO's slots, moved into the order
-- in which the slots are consumed. An operation is known by a number and a block is the list of its
-- operations.
pub mod Examples
pub mod Follow
pub mod Sorted
pub mod Gathered
pub mod Memory
pub mod Move
pub mod Pass
pub mod Pipeline
use dataflow_scheduler.Prelude.{
  ℕ, zero, suc, Bool, true, false, not, ◌&&◌, ◌||◌, Option, none, some, List, [], ◌∷◌, ◌++◌, map,
  length, ◌==◌, ltb, if◌then◌else◌, contains, remove,
}
use dataflow_scheduler.Prelude.Maps.{Map, lookup, insert}
use dataflow_scheduler.Device.{Value}

-- The op that owns a use of a slot, by what the code asks of it.
pub data UserKind : Type 0 where
  write_to_fifo read_from_fifo other_user : UserKind
  data_transfer : Value → Value → UserKind

pub record SlotUse : Type 0 where
  pub owner : ℕ
  pub kind : UserKind

pub record SlotAccess : Type 0 where
  pub slot : Value
  pub writer : ℕ
  pub reader : ℕ

abbrev pub is_write : Value → UserKind → Bool
is_write slot write_to_fifo = true
is_write slot read_from_fifo = false
is_write slot other_user = false
is_write slot (data_transfer source destination) = destination == slot

abbrev pub is_read : Value → UserKind → Bool
is_read slot write_to_fifo = false
is_read slot read_from_fifo = true
is_read slot other_user = false
is_read slot (data_transfer source destination) = source == slot

-- The loop over the uses, with the writer and the reader found so far.
unfoldable pub slot_uses : Value → List SlotUse → Option ℕ → Option ℕ → Option SlotAccess
slot_uses slot [] none reader = none
slot_uses slot [] (some w) none = none
slot_uses slot [] (some w) (some r) = some (record { slot = slot; writer = w; reader = r })
slot_uses slot (u ∷ us) writer reader = elim (is_write slot u.kind) [
  | true ↦ elim (is_read slot u.kind) [
    | true ↦ none
    | false ↦ elim writer [ some _ ↦ none | none ↦ slot_uses slot us (some u.owner) reader ]
  ]
  | false ↦ elim (is_read slot u.kind) [
    | false ↦ none
    | true ↦ elim reader [ some _ ↦ none | none ↦ slot_uses slot us writer (some u.owner) ]
  ]
]

unfoldable pub get_slot_access : Value → List SlotUse → Option SlotAccess
get_slot_access slot uses = slot_uses slot uses none none

-- Where a value that was read is used: the ancestor of the user in the reader's block, and, when that is a
-- `linalg.generic` that is the user itself, the size of its body and, for each user of the operand's block
-- argument, the position in the body.
pub record ValueUse : Type 0 where
  pub in_block : Option ℕ
  pub generic : Option (ℕ × List (Option ℕ))

-- What `getConsumptionKey` asks of a reader: whether it is a transfer, and the uses of its result.
pub data Reader : Type 0 where
  transfer : Reader
  reads : List ValueUse → Reader

unfoldable pub min_position : ℕ → List (Option ℕ) → ℕ
min_position in_body [] = in_body
min_position in_body (none ∷ ps) = min_position in_body ps
min_position in_body (some p ∷ ps) = min_position (if ltb p in_body then p else in_body) ps

abbrev pub body_position : Option (ℕ × List (Option ℕ)) → ℕ
body_position none = 0
body_position (some (size, positions)) = min_position size positions

-- `<` on `std::pair`.
abbrev pub key_less : ℕ × ℕ → ℕ × ℕ → Bool
key_less (a, b) (c, d) = ltb a c || (not (ltb c a) && ltb b d)

-- `DenseMap::lookup` is 0 for an absent key.
abbrev pub position_or_zero : Map ℕ → ℕ → ℕ
position_or_zero positions op = elim (lookup op positions) [ none ↦ 0 | some p ↦ p ]

abbrev pub better_key : Option (ℕ × ℕ) → ℕ × ℕ → ℕ × ℕ
better_key none candidate = candidate
better_key (some key) candidate = if key_less candidate key then candidate else key

unfoldable pub use_keys : Map ℕ → List ValueUse → Option (ℕ × ℕ) → Option (ℕ × ℕ)
use_keys positions [] key = key
use_keys positions (u ∷ us) key = elim u.in_block [
  | none ↦ none
  | some op ↦
      use_keys positions us
        (some (better_key key (position_or_zero positions op, body_position u.generic)))
]

unfoldable pub get_consumption_key : (ℕ → Reader) → ℕ → Map ℕ → Option (ℕ × ℕ)
get_consumption_key reader_of reader positions = elim (reader_of reader) [
  | transfer ↦ some (position_or_zero positions reader, 0)
  | reads uses ↦ use_keys positions uses none
]

-- The place of an op in its block.
unfoldable pub position : List ℕ → ℕ → ℕ
position [] op = 0
position (b ∷ bs) op = let rest = position bs op in if b == op then 0 else suc rest

abbrev pub is_before_in_block : List ℕ → ℕ → ℕ → Bool
is_before_in_block block a b = ltb (position block a) (position block b)

-- `llvm::min_element` and `llvm::max_element` with the order in the block.
unfoldable pub min_element : List ℕ → ℕ → List ℕ → ℕ
min_element block best [] = best
min_element block best (op ∷ ops) =
    min_element block (if is_before_in_block block op best then op else best) ops

unfoldable pub max_element : List ℕ → ℕ → List ℕ → ℕ
max_element block best [] = best
max_element block best (op ∷ ops) =
    max_element block (if is_before_in_block block best op then op else best) ops

unfoldable pub insert_before : ℕ → ℕ → List ℕ → List ℕ
insert_before target op [] = []
insert_before target op (b ∷ bs) =
    let rest = insert_before target op bs in if b == target then op ∷ b ∷ bs else b ∷ rest

unfoldable pub insert_after : ℕ → ℕ → List ℕ → List ℕ
insert_after target op [] = []
insert_after target op (b ∷ bs) =
    let rest = insert_after target op bs in if b == target then b ∷ op ∷ bs else b ∷ rest

abbrev pub move_before : ℕ → ℕ → List ℕ → List ℕ
move_before op target block = insert_before target op (remove op block)

abbrev pub move_after : ℕ → ℕ → List ℕ → List ℕ
move_after op target block = insert_after target op (remove op block)

-- Each op follows the one before it.
unfoldable pub move_rest : ℕ → List ℕ → List ℕ → List ℕ
move_rest previous [] block = block
move_rest previous (op ∷ ops) block = move_rest op ops (move_after op previous block)

-- The block from an op on, `op->getIterator()`.
unfoldable pub from_op : ℕ → List ℕ → List ℕ
from_op op [] = []
from_op op (b ∷ bs) = let rest = from_op op bs in if b == op then b ∷ bs else rest

-- The operands of an op, whether MLIR finds an op free of memory effects, and whether a value dominates
-- an op properly.
module _ (operands : ℕ → List Value) (is_memory_effect_free : ℕ → Bool)
    (properly_dominates : Value → ℕ → Bool) where
  -- The loop from the first op to the last, which starts at the first.
  unfoldable pub passes_memory : List ℕ → ℕ → List ℕ → Bool
  passes_memory moved last [] = false
  passes_memory moved last (b ∷ bs) =
      let rest = passes_memory moved last bs in
      if b == last
      then false
      else if not (contains moved b) && not (is_memory_effect_free b)
      then true
      else rest

  unfoldable pub all_dominate : List Value → ℕ → Bool
  all_dominate [] first = true
  all_dominate (v ∷ vs) first = properly_dominates v first && all_dominate vs first

  unfoldable pub operands_dominate : List ℕ → ℕ → Bool
  operands_dominate [] first = true
  operands_dominate (op ∷ ops) first =
      all_dominate (operands op) first && operands_dominate ops first

  -- `none` is the answer `false`, which leaves the block as it is. The ops are never none at all.
  unfoldable pub move_into_order : List ℕ → Bool → List ℕ → Option (List ℕ)
  move_into_order [] keep_memory_order block = some block
  move_into_order (op ∷ ops) keep_memory_order block =
      let first = min_element block op ops in
      let last = max_element block op ops in
      if keep_memory_order && passes_memory (op ∷ ops) last (from_op first block)
      then none
      else if not (operands_dominate (op ∷ ops) first)
      then none
      else some (move_rest op ops (if op == first then block else move_before op first block))
