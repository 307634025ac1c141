-- ===== src/AddressAssignment/Sizes.antt =====
-- lib/Transforms/AddressAssignment.cpp, `getSize`: the bytes reserved for an allocation cover every
-- element that an index inside its shape can reach through its layout.
use dataflow_scheduler.Prelude.{
  ℕ, zero, suc, ◌+◌, ◌*◌, ◌≤◌, ◌<◌, ◌≡◌, inl, inr, Bool, true, false, Option, none, some, List, [],
  ◌∷◌, arith, Option-cases, if◌then◌else◌,
}
use native.Mathlib.Nat
use dataflow_scheduler.Prelude.Words.{size_mod, mul_overflow, add_overflow, add64}
use dataflow_scheduler.Device.{Value}
use dataflow_scheduler.AddressAssignment.{
  ℤ, pos, negsuc, AllocOp, has_negative, last_offset, add_offsets, get_upper_shape_bound,
  get_upper_offset_bound, get_size, try_get_size_in_bytes,
}

-- An index into a shape.
abbrev pub Within : List ℕ → List ℕ → Type 0
Within [] [] = Unit {0}
Within [] (d ∷ ds) = ⊥
Within (i ∷ is) [] = ⊥
Within (i ∷ is) (d ∷ ds) = (i < d) × Within is ds

-- The offset of an index from the first element, at strides that are not negative.
abbrev pub offset_at : List ℕ → List ℤ → ℕ
offset_at [] zs = 0
offset_at (i ∷ is) [] = 0
offset_at (i ∷ is) (pos s ∷ zs) = i * s + offset_at is zs
offset_at (i ∷ is) (negsuc s ∷ zs) = offset_at is zs

mul_overflow-some : (a b t : ℕ) → mul_overflow a b ≡ some t → t ≡ a * b
unfolding mul_overflow
mul_overflow-some a b t h = ground (arith, h)

add_overflow-some : (a b t : ℕ) → add_overflow a b ≡ some t → t ≡ a + b
unfolding add_overflow
add_overflow-some a b t h = ground (arith, h)

last_offset-le : (d s t i : ℕ) → last_offset d s ≡ some t → i < d → i * s ≤ t
unfolding last_offset
last_offset-le zero s t i h lt = absurd (omega arith)
last_offset-le (suc n) s t i h lt =
    omega (arith, mul_overflow-some n s t h, Nat.mul-le-mul_right {m = i} {n = n} s (omega arith))

add_offsets-le :
    (result total : ℕ) (shape is : List ℕ) (strides : List ℤ)
    → add_offsets result shape strides ≡ some total
    → Within is shape
    → result + offset_at is strides ≤ total
unfolding add_offsets
add_offsets-le result total [] [] [] h w = let e : result ≡ total = cc in omega arith
add_offsets-le result total [] (i ∷ is) [] h w = absurd w
add_offsets-le result total [] is (z ∷ zs) h w = cc
add_offsets-le result total (d ∷ ds) is [] h w = cc
add_offsets-le result total (d ∷ ds) is (negsuc n ∷ zs) h w = cc
add_offsets-le result total (d ∷ ds) [] (pos s ∷ zs) h w = absurd w
add_offsets-le result total (d ∷ ds) (i ∷ is) (pos s ∷ zs) h w =
    elim (Option-cases (last_offset d s)) [
      | inl e ↦ cc (rw (e, add_offsets) at h)
      | inr (t, e) ↦ elim (Option-cases (add_overflow result t)) [
        | inl e' ↦ cc (rw (e, add_offsets, e') at h)
        | inr (next, e') ↦ omega (
          arith,
          add_offsets-le next total ds is zs (rw (e, add_offsets, e') at h) w.1,
          add_overflow-some result t next e',
          last_offset-le d s t i e w.0,
        )
      ]
    ]

module _ (bound_of : Value → Option ℕ) (a : AllocOp) where
  -- Where an allocation has a size, at strides and an offset that are not negative, it covers
  -- every element inside the shape, from the first byte to the last, unless the offset of the last
  -- element is the largest word.
  pub get_size-covers :
      (shape : List ℕ) (strides : List ℤ) (offset last bytes total : ℕ) (is : List ℕ)
      → get_upper_shape_bound bound_of a ≡ some shape
      → a.layout shape ≡ some (strides, pos offset)
      → get_upper_offset_bound bound_of a ≡ some last
      → suc last < size_mod
      → try_get_size_in_bytes a.element_type ≡ some bytes
      → get_size bound_of a ≡ some total
      → Within is shape
      → (offset + offset_at is strides) * bytes + bytes ≤ total
  unfolding get_size
  get_size-covers shape strides offset last bytes total is hs hl ho fits hb ht w =
      let reach = add_offsets-le offset last shape is strides sum w in
      let count : total ≡ (last + 1) * bytes = size in
      omega (arith, count, Nat.mul-le-mul_right bytes reach, Nat.add-mul last 1 bytes)
    where
      sum : add_offsets offset shape strides ≡ some last
      sum = guarded (has_negative strides) (rw (hs, get_upper_offset_bound, hl) at ho)
        where
          guarded :
              (b : Bool)
              → (if b then none else add_offsets offset shape strides) ≡ some last
              → add_offsets offset shape strides ≡ some last
          guarded true e = cc
          guarded false e = e

      size : total ≡ (last + 1) * bytes
      size =
          let word : add64 last 1 ≡ last + 1 = Nat.mod-eq_of_lt (omega arith) in
          mul_overflow-some (last + 1) bytes total (rw (ho, get_size, hb, word) at ht)
