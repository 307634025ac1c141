-- ===== src/AddressAssignment.antt =====
-- lib/Transforms/AddressAssignment.cpp: the size in bytes of an allocation, with its overflow checks,
-- and lib/Analysis/Utils.cpp, the size of an element.
pub mod Examples
pub mod Placements
pub mod Program
pub mod Sizes
pub mod Stacking
use dataflow_scheduler.Prelude.{
  ℕ, zero, suc, ◌+◌, ◌*◌, ◌/◌, ◌%◌, ◌^◌, Bool, true, false, ◌||◌, Option, none, some, List, [], ◌∷◌,
  ◌==◌, if◌then◌else◌, get_elem?,
}
use dataflow_scheduler.Prelude.Words.{mul_overflow, add_overflow, add64}
use dataflow_scheduler.Device.{ResourceType, Value}

-- Strides and offsets of a layout are signed; `negsuc n` is -(n + 1).
pub data ℤ : Type 0 where
  pos : ℕ → ℤ
  negsuc : ℕ → ℤ

-- `vector` has its shape, if that is static, and the width of its elements.
pub data ElementType : Type 0 where
  integer float : ℕ → ElementType
  vector : Option (List ℕ) → ℕ → ElementType
  other_type : ElementType

-- `unsigned`.
abbrev pub unsigned_mod : ℕ
unsigned_mod = 2 ^ 32

abbrev pub product : List ℕ → ℕ
product [] = 1
product (d ∷ ds) = d * product ds

unfoldable pub try_get_size_in_bits : ElementType → Option ℕ
try_get_size_in_bits (integer w) = some w
try_get_size_in_bits (float w) = some w
try_get_size_in_bits (vector none w) = none
try_get_size_in_bits (vector (some shape) w) = some (product shape * w % unsigned_mod)
try_get_size_in_bits other_type = none

unfoldable pub try_get_size_in_bytes : ElementType → Option ℕ
unfolding try_get_size_in_bits
try_get_size_in_bytes type = elim (try_get_size_in_bits type) [
  | none ↦ none
  | some bits ↦ some ((bits + 7) % unsigned_mod / 8)
]

-- A `memref.alloc` or `memref.alloca`: its type's memory space, element type, shape (`none` for a
-- dynamic dimension) and layout (`getStridesAndOffset` at a static shape), its operands for the
-- dynamic sizes, and its alignment attribute. MLIR gives dimensions that are not negative.
pub record AllocOp : Type 0 where
  pub memory_space : Option ResourceType
  pub element_type : ElementType
  pub shape : List (Option ℕ)
  pub layout : List ℕ → Option (List ℤ × ℤ)
  pub dynamic_sizes : List Value
  pub alignment : Option ℕ

abbrev pub has_negative : List ℤ → Bool
has_negative [] = false
has_negative (pos n ∷ zs) = has_negative zs
has_negative (negsuc n ∷ zs) = true

-- `__builtin_mul_overflow(sz - 1, stride, &temp)`: at size 0 the product is -stride, which is a
-- `size_t` only if it is 0.
unfoldable pub last_offset : ℕ → ℕ → Option ℕ
last_offset zero stride = if stride == 0 then some 0 else none
last_offset (suc n) stride = mul_overflow n stride

-- The loop over the dimensions. The sizes and strides are equally many, which `zip_equal` asserts.
unfoldable pub add_offsets : ℕ → List ℕ → List ℤ → Option ℕ
add_offsets result [] [] = some result
add_offsets result [] (z ∷ zs) = none
add_offsets result (d ∷ ds) [] = none
add_offsets result (d ∷ ds) (negsuc n ∷ zs) = none
add_offsets result (d ∷ ds) (pos stride ∷ zs) = elim (last_offset d stride) [
  | none ↦ none
  | some temp ↦ elim (add_overflow result temp) [
    | none ↦ none
    | some total ↦ add_offsets total ds zs
  ]
]

-- `computeConstantBound`, MLIR's bound of a value, is a parameter.
module _ (compute_constant_bound : Value → Option ℕ) where
  unfoldable pub get_upper_bound : List (Option ℕ) → List Value → ℕ → Option (List ℕ)
  get_upper_bound [] dynamic_sizes dynamic_index = some []
  get_upper_bound (some dim ∷ shape) dynamic_sizes dynamic_index =
      elim (get_upper_bound shape dynamic_sizes dynamic_index) [
        | none ↦ none
        | some result ↦ some (dim ∷ result)
      ]
  get_upper_bound (none ∷ shape) dynamic_sizes dynamic_index =
      let rest = get_upper_bound shape dynamic_sizes (suc dynamic_index) in
      elim (get_elem? dynamic_sizes dynamic_index) [
        | none ↦ none
        | some size ↦ elim (compute_constant_bound size) [
          | none ↦ none
          | some bound ↦ elim rest [ none ↦ none | some result ↦ some (bound ∷ result) ]
        ]
      ]

  unfoldable pub get_upper_shape_bound : AllocOp → Option (List ℕ)
  unfolding get_upper_bound
  get_upper_shape_bound alloc = get_upper_bound alloc.shape alloc.dynamic_sizes 0

  unfoldable pub offset_bound_of : List ℕ → List ℤ × ℤ → Option ℕ
  unfolding add_offsets
  offset_bound_of shape (strides, negsuc n) = none
  offset_bound_of shape (strides, pos offset) =
      if has_negative strides then none else add_offsets offset shape strides

  unfoldable pub get_upper_offset_bound : AllocOp → Option ℕ
  unfolding get_upper_shape_bound offset_bound_of
  get_upper_offset_bound alloc = elim (get_upper_shape_bound alloc) [
    | none ↦ none
    | some shape ↦ elim (alloc.layout shape) [
      | none ↦ none
      | some layout ↦ offset_bound_of shape layout
    ]
  ]

  unfoldable pub get_size : AllocOp → Option ℕ
  unfolding get_upper_offset_bound
  get_size alloc = elim (get_upper_offset_bound alloc) [
    | none ↦ none
    | some offset ↦ elim (try_get_size_in_bytes alloc.element_type) [
      | none ↦ none
      | some size ↦ mul_overflow (add64 offset 1) size
    ]
  ]
