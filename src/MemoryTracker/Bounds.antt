-- ===== src/MemoryTracker/Bounds.antt =====
-- lib/Analysis/MemoryTracker.cpp, `alignAddress` and `allocate`: where an allocation lies, and what
-- the wrap-around of `size_t` does to the check against the capacity.
use dataflow_scheduler.Prelude.{
  ℕ, suc, ◌+◌, ◌-◌, ◌*◌, ◌/◌, ◌%◌, ◌≤◌, ◌<◌, ◌≡◌, ◌≢◌, refl, sym, ◌∙◌, ◌⊎◌, inl, inr, ◌↔◌, true,
  false, some, arith, ◌==◌, ==_ne, ==-refl, leb, ltb, ltb→lt, leb→le, Bool-cases, if◌then◌else◌,
}
use native.Mathlib.Nat
use mathlib.Core.Path.{subst₂}
use dataflow_scheduler.Prelude.Maps.{lookup, insert, lookup-insert}
use dataflow_scheduler.Prelude.Words.{size_mod, add64}
use dataflow_scheduler.Device.{ResourceType}
use dataflow_scheduler.MemoryTracker.{
  MemoryTracker, Allocation, allocated, exceeds_capacity, align_address, allocate,
}

round_up : (a m : ℕ) → 0 < m → a % m ≢ 0 → (a + (m - a % m)) % m ≡ 0
round_up a m h r =
    let lt = Nat.mod-lt a h in
    let e : a + (m - a % m) ≡ m * suc (a / m) =
      omega (arith, Nat.div-add-mod a m, Nat.mul-suc m (a / m)) in
    rw e (Nat.mul-mod_right m (suc (a / m)))

no_wrap : (a b : ℕ) → a + b < size_mod → add64 a b ≡ a + b
no_wrap a b h = Nat.mod-eq_of_lt h

-- The cases of `alignAddress` when the sum does not wrap.
align_address_cases :
    (a m : ℕ)
    → 0 < m
    → a + m ≤ size_mod
    → ((align_address a m ≡ a) × (a % m ≡ 0))
      ⊎ ((align_address a m ≡ a + (m - a % m)) × (a % m ≢ 0))
unfolding align_address
align_address_cases a m h fits = elim (Bool-cases (leb m 1)) [
  | inl small ↦ let one : m ≡ 1 = ground arith in inl (rw small, rw one (Nat.mod-one a))
  | inr large ↦ elim (Bool-cases (a % m == 0)) [
    | inl e ↦ inl (rw (large, e), ground arith)
    | inr e ↦
        let r : a % m ≢ 0 = ground arith in
        inr (rw (large, e) (no_wrap a (m - a % m) (omega arith)), r)
  ]
]

-- Of two multiples, the smaller is smaller by a whole step.
multiple_step : (r x m : ℕ) → r % m ≡ 0 → x % m ≡ 0 → x < r → x + m ≤ r
multiple_step r x m hr hx lt =
    let er : m * (r / m) ≡ r = omega (arith, Nat.div-add-mod r m) in
    let ex : m * (x / m) ≡ x = omega (arith, Nat.div-add-mod x m) in
    let below : x / m < r / m = grind (arith) in
    omega (arith, Nat.mul-le-mul_left m below, Nat.mul-suc m (x / m))

-- The aligned address is the least multiple of a positive alignment that is not below the address,
-- if the two together fit in a word.
pub align_address_lem :
    (address alignment : ℕ)
    → 0 < alignment
    → address + alignment ≤ size_mod
    → (align_address address alignment % alignment ≡ 0)
      × (address ≤ align_address address alignment)
      × ((x : ℕ) → x % alignment ≡ 0 → address ≤ x → align_address address alignment ≤ x)
align_address_lem a m h fits = elim (align_address_cases a m h fits) [
  | inl (e, z) ↦ rw e (z, omega arith, λ x hx le. le)
  | inr (e, r) ↦ rw e (round_up a m h r, omega arith, above r)
]
  where
    above : a % m ≢ 0 → (x : ℕ) → x % m ≡ 0 → a ≤ x → a + (m - a % m) ≤ x
    above r x hx le = elim (Bool-cases (ltb x (a + (m - a % m)))) [
      | inl lt ↦ omega (
        arith,
        multiple_step (a + (m - a % m)) x m (round_up a m h r) hx (ltb→lt _ _ lt),
        Nat.mod-lt a h,
        r,
      )
      | inr ge ↦ ground arith
    ]

align_address_lt : (a m : ℕ) → 0 < m → a + m ≤ size_mod → align_address a m < a + m
align_address_lt a m h fits = ground (arith, align_address_cases a m h fits, Nat.mod-lt a h)

-- What a successful allocation promises, from a memory whose next address was `n` and whose capacity
-- is `c`: an aligned address at or after `n`, the bytes inside the capacity, the memory's next address
-- at their end, and nothing else changed.
pub record IsPlaced (k k' : MemoryTracker) (r : ResourceType) (size alignment n c a : ℕ)
    : Type 0 where
  pub after : n ≤ a
  pub aligned : a % alignment ≡ 0
  pub inside : a + size ≤ c
  pub advanced : lookup r k'.next_address ≡ some (a + size)
  pub others : (q : ResourceType) → r ≢ q → lookup q k'.next_address ≡ lookup q k.next_address
  pub same_capacities : k'.capacities ≡ k.capacities
  pub same_reserved : k'.reserved ≡ k.reserved

module _ (k : MemoryTracker) (r : ResourceType) (size alignment n c : ℕ)
    (next : lookup r k.next_address ≡ some n) (capacity : lookup r k.capacities ≡ some c)
    (positive : 0 < alignment) (fits : n + alignment + size ≤ size_mod) where
  allocate-eq : allocate k r size alignment ≡ (
      if ltb c (align_address n alignment + size) then (k, exceeds_capacity) else (
        record k { next_address = insert r (align_address n alignment + size) k.next_address },
        allocated (align_address n alignment),
      ))
  unfolding allocate
  allocate-eq =
      let below = align_address_lt n alignment positive (omega arith) in
      rw (next, allocate, capacity, no_wrap (align_address n alignment) size (omega arith))

  -- Where the sums do not wrap, an allocation that fits is placed, and one that does not is refused
  -- and changes nothing.
  pub allocate_lem :
      (align_address n alignment + size ≤ c
        → (k' : MemoryTracker) × (allocate k r size alignment
            ≡ (k', allocated (align_address n alignment)))
          × IsPlaced k k' r size alignment n c (align_address n alignment))
      × (c < align_address n alignment + size → allocate k r size alignment ≡ (k, exceeds_capacity))
  allocate_lem = (placed, refused)
    where
      a : ℕ
      a = align_address n alignment

      k' : MemoryTracker
      k' = record k { next_address = insert r (align_address n alignment + size) k.next_address }

      at :
          (align_address n alignment % alignment ≡ 0)
          × (n ≤ align_address n alignment)
          × ((x : ℕ) → x % alignment ≡ 0 → n ≤ x → align_address n alignment ≤ x)
      at = align_address_lem n alignment positive (omega arith)

      placed :
          align_address n alignment + size ≤ c
          → (k' : MemoryTracker) × (allocate k r size alignment
              ≡ (k', allocated (align_address n alignment)))
            × IsPlaced k k' r size alignment n c (align_address n alignment)
      placed h =
          let no_refusal : ltb c (align_address n alignment + size) ≡ false = ground arith in
          (
            k',
            allocate-eq ∙ rw no_refusal,
            record {
              after = at.1;
              aligned = at.0;
              inside = h;
              advanced =
                  lookup-insert r r (align_address n alignment + size) k.next_address
                  ∙ rw (==-refl r);
              others = λ q ne.
                  lookup-insert r q (align_address n alignment + size) k.next_address
                  ∙ rw (==_ne r q ne);
              same_capacities = refl;
              same_reserved = refl;
            },
          )

      refused :
          c < align_address n alignment + size → allocate k r size alignment ≡ (k, exceeds_capacity)
      refused h =
          let refusal : ltb c (align_address n alignment + size) ≡ true = ground arith in
          allocate-eq ∙ rw refusal

  -- Where the alignment is positive and the next address, the alignment and the size together fit
  -- in a word, a successful call returns an aligned address at or after the next one with its
  -- bytes inside the capacity, and changes nothing but the next address of that memory.
  pub allocate-IsPlaced :
      (k' : MemoryTracker) (a : ℕ)
      → allocate k r size alignment ≡ (k', allocated a)
      → IsPlaced k k' r size alignment n c a
  allocate-IsPlaced k' a h = elim (Bool-cases (leb (align_address n alignment + size) c)) [
    | inl fit ↦
        let (k₁, e, p) = allocate_lem.0 (leb→le _ _ fit) in
        let both : (k₁ ≡ k') × (align_address n alignment ≡ a) = cc_pair k₁ k' _ a (sym e ∙ h) in
        subst₂ (λ x y. IsPlaced k x r size alignment n c y) both.0 both.1 p
    | inr over ↦ absurd (no_pair k k' a (sym (allocate_lem.1 (ground arith)) ∙ h))
  ]
    where
      no_pair :
          (x y : MemoryTracker) (b : ℕ)
          → ◌≡◌ {A = MemoryTracker × Allocation} (x, exceeds_capacity) (y, allocated b)
          → ⊥
      no_pair x y b e = cc

      cc_pair :
          (x y : MemoryTracker) (b d : ℕ)
          → ◌≡◌ {A = MemoryTracker × Allocation} (x, allocated b) (y, allocated d)
          → (x ≡ y) × (b ≡ d)
      cc_pair x y b d e = (cc, cc)

  -- Where the sums do not wrap, a call is granted exactly when the bytes from the aligned next
  -- address on lie inside the capacity, and otherwise refused with the tracker as before.
  pub allocate-granted :
      (((k' : MemoryTracker) × (allocate k r size alignment
            ≡ (k', allocated (align_address n alignment))))
        ↔ (align_address n alignment + size ≤ c))
      × ((allocate k r size alignment ≡ (k, exceeds_capacity))
          ↔ (c < align_address n alignment + size))
  allocate-granted = (
    (
      λ (k', e). (allocate-IsPlaced k' _ e).inside,
      λ h. let (k', e, p) = allocate_lem.0 h in (k', e),
    ),
    (only_over, λ h. allocate_lem.1 h),
  )
    where
      clash :
          (x y : MemoryTracker) (b : ℕ)
          → ◌≡◌ {A = MemoryTracker × Allocation} (x, exceeds_capacity) (y, allocated b)
          → ⊥
      clash x y b e = cc

      only_over :
          allocate k r size alignment ≡ (k, exceeds_capacity) → c < align_address n alignment + size
      only_over e = elim (Bool-cases (leb (align_address n alignment + size) c)) [
        | inl fit ↦
            let (k', g, p) = allocate_lem.0 (leb→le _ _ fit) in absurd (clash k k' _ (sym e ∙ g))
        | inr over ↦ ground arith
      ]

-- With alignment 1 and a capacity below 2^64, a size that makes the sum of address and size wrap
-- once to within the capacity is granted although its bytes do not fit, and the next address
-- becomes the wrapped sum.
pub allocate-wraps :
    (k : MemoryTracker) (r : ResourceType) (size n c : ℕ)
    → lookup r k.next_address ≡ some n
    → lookup r k.capacities ≡ some c
    → c < size_mod
    → size_mod ≤ n + size
    → (n + size) % size_mod ≤ c
    → (k' : MemoryTracker) × (allocate k r size 1 ≡ (k', allocated n))
      × (c < n + size)
      × (lookup r k'.next_address ≡ some ((n + size) % size_mod))
unfolding allocate align_address
allocate-wraps k r size n c next capacity word over small =
    let granted : ltb c ((n + size) % size_mod) ≡ false = ground arith in
    (
      record k { next_address = insert r ((n + size) % size_mod) k.next_address },
      rw (next, allocate, capacity, granted),
      omega arith,
      lookup-insert r r ((n + size) % size_mod) k.next_address ∙ rw (==-refl r),
    )
