-- ===== src/TileSize/Examples.antt =====
-- Loops of 5 and of 6, and the theorems of the tile size selection at them.
use dataflow_scheduler.Prelude.{ℕ, ◌≡◌, [], ◌∷◌, arith}
use Prim.Native.Nat.{max}
use dataflow_scheduler.TileSize.{AssociatedLoop, chosen, unreachable, choose_tile_size}
use dataflow_scheduler.TileSize.Largest.{
  Outcome, choose_tile_size-Outcome, choose_tile_size_total, choose_tile_size-unreachable,
}

abbrev five : AssociatedLoop
five = record { loop = 1; total_size = 5 }

abbrev six : AssociatedLoop
six = record { loop = 2; total_size = 6 }

choose_tile_size-Outcome_example :
    Outcome (five ∷ six ∷ []) 1 1 (max 2 1) (choose_tile_size (five ∷ six ∷ []) 1 1)
choose_tile_size-Outcome_example = choose_tile_size-Outcome five (six ∷ []) 1 1 (omega arith)

choose_tile_size_total_example : (c : ℕ) × (choose_tile_size (five ∷ six ∷ []) 1 1 ≡ chosen c)
choose_tile_size_total_example = choose_tile_size_total five (six ∷ [])

choose_tile_size-unreachable_example : choose_tile_size (six ∷ []) 1 3 ≡ unreachable
choose_tile_size-unreachable_example =
    choose_tile_size-unreachable six [] 1 3 (omega arith) (omega arith)
