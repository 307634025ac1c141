-- ===== src/Device.antt =====
-- The device description that the architecture views read: the operations of a `ktdf_arch` device
-- body, as lib/Analysis/ArchViews/MemoryTree.cpp and RoutingGraph.cpp see them through MLIR.
-- Attributes (resources, kinds) and SSA values are uniqued by MLIR and compared by identity, so both
-- are numbers here.
use dataflow_scheduler.Prelude.{ℕ, suc, ◌≤◌, ◌<◌, Option, List, [], ◌∷◌, Bool, All, arith}

abbrev pub ResourceType : Type 0
ResourceType = ℕ

abbrev pub Value : Type 0
Value = ℕ

abbrev pub NodeId : Type 0
NodeId = ℕ

mutual
  -- `memory result kind size first_available_address`,
  -- `exec_unit result kind has_load_or_store`,
  -- `group kind results shared_memory block_arguments body yielded`, `datapath source target`.
  pub data ArchOp : Type 0 where
    memory : Value → ResourceType → Option ℕ → ℕ → ArchOp
    exec_unit : Value → Option ResourceType → Bool → ArchOp
    group :
        Option ResourceType → List Value → List Value → List Value → Region → List Value → ArchOp
    datapath : Value → Value → ArchOp
    other : ArchOp

  pub data Region : Type 0 where
    done : Region
    op_then : ArchOp → Region → Region

-- The values of a body are numbered in the order they are defined, as SSA form allows: each is new
-- when it is defined, and what a group shares was defined before it.
abbrev pub Ascending : ℕ → List Value → Type 0
Ascending lo [] = Unit
Ascending lo (v ∷ vs) = (lo ≤ v) × Ascending (suc v) vs

abbrev pub after_all : ℕ → List Value → ℕ
after_all lo [] = lo
after_all lo (v ∷ vs) = after_all (suc v) vs

unfoldable mutual
  -- The first number above all values that the operation defines.
  pub after_op : ℕ → ArchOp → ℕ
  after_op lo (memory v kind size first) = suc v
  after_op lo (exec_unit v kind is_ls) = suc v
  after_op lo (group kind results shared arguments body yielded) =
      after_all (after_region (after_all lo arguments) body) results
  after_op lo (datapath source target) = lo
  after_op lo other = lo

  pub after_region : ℕ → Region → ℕ
  after_region lo done = lo
  after_region lo (op_then o r) = after_region (after_op lo o) r

unfoldable mutual
  pub IsOrderedOp : ℕ → ArchOp → Type 0
  IsOrderedOp lo (memory v kind size first) = lo ≤ v
  IsOrderedOp lo (exec_unit v kind is_ls) = lo ≤ v
  IsOrderedOp lo (group kind results shared arguments body yielded) =
      All (λ v. v < lo) shared
      × Ascending lo arguments
      × IsOrderedRegion (after_all lo arguments) body
      × Ascending (after_region (after_all lo arguments) body) results
  IsOrderedOp lo (datapath source target) = Unit {0}
  IsOrderedOp lo other = Unit {0}

  pub IsOrderedRegion : ℕ → Region → Type 0
  IsOrderedRegion lo done = Unit {0}
  IsOrderedRegion lo (op_then o r) = IsOrderedOp lo o × IsOrderedRegion (after_op lo o) r

pub after_all-le : (lo : ℕ) (vs : List Value) → Ascending lo vs → lo ≤ after_all lo vs
after_all-le lo [] h = omega arith
after_all-le lo (v ∷ vs) h = omega (arith, after_all-le (suc v) vs h.1)
