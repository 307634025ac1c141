-- ===== src/FifoOrder/Examples.antt =====
-- Runs of the model of lib/Transforms/OrderFifoSlotsByUse.cpp on a FIFO with two slots.
use dataflow_scheduler.Prelude.{
  ℕ, ◌≡◌, ◌≢◌, ◌↔◌, ◌<◌, refl, inl, inr, arith, Bool, true, false, none, some, List, [], ◌∷◌, ◌==◌,
  if◌then◌else◌, In, Nodup, remove, contains,
}
use dataflow_scheduler.Prelude.Maps.{lookup, insert}
use dataflow_scheduler.Device.{Value}
use dataflow_scheduler.FifoOrder.{
  SlotAccess, write_to_fifo, read_from_fifo, slot_uses, get_slot_access, Reader, reads,
  min_position, use_keys, get_consumption_key, position, min_element, max_element, insert_before,
  insert_after, move_rest, passes_memory, from_op, all_dominate, operands_dominate, move_into_order,
}
use dataflow_scheduler.FifoOrder.Pass.{
  Keyed, enumerate_positions, key_accesses, insert_keyed, sort_onto, in_order, Blocks,
  reads_not_moved, reordered, order_keyed, order_fifo,
}
use dataflow_scheduler.FifoOrder.Memory.{move_into_order-keeps_memory}
use dataflow_scheduler.FifoOrder.Follow.{
  IsInStep, AreOps, order_fifo-IsInStep, order_fifo-reads_move,
}
use dataflow_scheduler.FifoOrder.Sorted.{IsSorted, number}

-- The slots 1 and 2 are the operands of their writes 100 and 101 and their reads 200 and 201; the op 102
-- touches memory, and 300 is a `linalg.generic` that uses what was read from slot 2 first.
abbrev operands : ℕ → List Value
operands op = if op == 100 then 1 ∷ [] else if op == 200 then 1 ∷ [] else 2 ∷ []

abbrev is_memory_effect_free : ℕ → Bool
is_memory_effect_free op = if op == 102 then false else true

abbrev properly_dominates : Value → ℕ → Bool
properly_dominates v op = true

abbrev reader_of : ℕ → Reader
reader_of op =
    if op == 200
    then reads (record { in_block = some 300; generic = some (2, some 1 ∷ []) } ∷ [])
    else reads (record { in_block = some 300; generic = some (2, some 0 ∷ none ∷ []) } ∷ [])

abbrev accesses : List SlotAccess
accesses =
    record { slot = 1; writer = 100; reader = 200 }
    ∷ record { slot = 2; writer = 101; reader = 201 }
    ∷ []

abbrev blocks : Blocks
blocks = record { writer_block = 100 ∷ 101 ∷ 102 ∷ []; reader_block = 200 ∷ 201 ∷ 300 ∷ [] }

abbrev keys : List Keyed
keys =
    ((2, 1), record { slot = 1; writer = 100; reader = 200 })
    ∷ ((2, 0), record { slot = 2; writer = 101; reader = 201 })
    ∷ []

slot_found :
    get_slot_access 1 (
      record { owner = 200; kind = read_from_fifo }
      ∷ record { owner = 100; kind = write_to_fifo }
      ∷ [])
    ≡ some (record { slot = 1; writer = 100; reader = 200 })
unfolding get_slot_access slot_uses
slot_found = refl

keyed :
    key_accesses reader_of (enumerate_positions 0 (200 ∷ 201 ∷ 300 ∷ []) []) accesses ≡ some keys
unfolding key_accesses enumerate_positions get_consumption_key use_keys min_position lookup insert
keyed = refl

swapped :
    order_fifo operands is_memory_effect_free properly_dominates reader_of accesses blocks
    ≡ reordered
        (record { writer_block = 101 ∷ 100 ∷ 102 ∷ []; reader_block = 201 ∷ 200 ∷ 300 ∷ [] })
unfolding order_fifo key_accesses enumerate_positions get_consumption_key use_keys min_position
    lookup insert insert_keyed sort_onto in_order order_keyed position min_element max_element
    insert_before insert_after move_rest passes_memory from_op all_dominate operands_dominate
    move_into_order remove contains
swapped = refl

two-Nodup : (a b : ℕ) → a ≢ b → Nodup (b ∷ a ∷ [])
two-Nodup a b ne = ((λ m. elim m [ inl e ↦ ne e | inr z ↦ z ]), ((λ z. z), tt))

three-Nodup : (a b c : ℕ) → b ≢ a → c ≢ a → c ≢ b → Nodup (a ∷ b ∷ c ∷ [])
three-Nodup a b c p q r = (
  (λ m. elim m [ inl e ↦ p e | inr n ↦ elim n [ inl e ↦ q e | inr z ↦ z ] ]),
  ((λ m. elim m [ inl e ↦ r e | inr z ↦ z ]), ((λ z. z), tt)),
)

two-In : (a b c v : ℕ) → In v (a ∷ b ∷ []) → In v (a ∷ b ∷ c ∷ [])
two-In a b c v (inl e) = inl e
two-In a b c v (inr (inl e)) = inr (inl e)
two-In a b c v (inr (inr z)) = absurd z

swap-In : (a b c v : ℕ) → In v (b ∷ a ∷ []) → In v (a ∷ b ∷ c ∷ [])
swap-In a b c v (inl e) = inr (inl e)
swap-In a b c v (inr (inl e)) = inl e
swap-In a b c v (inr (inr z)) = absurd z

writers-AreOps :
    AreOps operands is_memory_effect_free properly_dominates (100 ∷ 101 ∷ []) (100 ∷ 101 ∷ 102 ∷ [])
writers-AreOps = (
  two-Nodup 101 100 (λ e. absurd (omega arith)),
  three-Nodup 100 101 102 (λ e. absurd (omega arith)) (λ e. absurd (omega arith))
      (λ e. absurd (omega arith)),
  λ v m. two-In 100 101 102 v m,
)

readers-AreOps :
    AreOps operands is_memory_effect_free properly_dominates (200 ∷ 201 ∷ []) (200 ∷ 201 ∷ 300 ∷ [])
readers-AreOps = (
  two-Nodup 201 200 (λ e. absurd (omega arith)),
  three-Nodup 200 201 300 (λ e. absurd (omega arith)) (λ e. absurd (omega arith))
      (λ e. absurd (omega arith)),
  λ v m. two-In 200 201 300 v m,
)

order_fifo-IsInStep_example :
    (keyed : List Keyed) × IsSorted keyed
    × ((p : Keyed → Bool) → number p keyed ≡ number p keys)
    × IsInStep operands is_memory_effect_free properly_dominates keyed blocks
        (order_fifo operands is_memory_effect_free properly_dominates reader_of accesses blocks)
order_fifo-IsInStep_example =
    order_fifo-IsInStep operands is_memory_effect_free properly_dominates reader_of accesses blocks
      keys writers-AreOps readers-AreOps keyed

order_fifo-reads_move_example :
    order_fifo operands is_memory_effect_free properly_dominates reader_of accesses blocks
    ≢ reads_not_moved
order_fifo-reads_move_example =
    order_fifo-reads_move operands is_memory_effect_free properly_dominates reader_of accesses
      blocks (λ first op v f m n. refl)

writes_moved :
    move_into_order operands is_memory_effect_free properly_dominates
      (101 ∷ 100 ∷ [])
      true
      (100 ∷ 101 ∷ 102 ∷ [])
    ≡ some (101 ∷ 100 ∷ 102 ∷ [])
unfolding move_into_order position min_element max_element insert_before insert_after move_rest
    passes_memory from_op all_dominate operands_dominate remove contains
writes_moved = refl

move_into_order-keeps_memory_example :
    (position (101 ∷ 100 ∷ 102 ∷ []) 102 < position (101 ∷ 100 ∷ 102 ∷ []) 100)
    ↔ (position (100 ∷ 101 ∷ 102 ∷ []) 102 < position (100 ∷ 101 ∷ 102 ∷ []) 100)
move_into_order-keeps_memory_example =
    move_into_order-keeps_memory operands is_memory_effect_free properly_dominates 101 (100 ∷ [])
      (100 ∷ 101 ∷ 102 ∷ []) (101 ∷ 100 ∷ 102 ∷ []) (two-Nodup 100 101 (λ e. absurd (omega arith)))
      (three-Nodup 100 101 102 (λ e. absurd (omega arith)) (λ e. absurd (omega arith))
        (λ e. absurd (omega arith)))
      (λ v m. swap-In 100 101 102 v m) writes_moved 102 100 (inr (inr (inl refl)))
      (λ m. elim m [
        | inl e ↦ absurd (omega arith)
        | inr n ↦ elim n [ inl e ↦ absurd (omega arith) | inr z ↦ z ]
      ])
      refl (inr (inl refl))
