-- ===== src/FifoOrder/Follow.antt =====
-- lib/Transforms/OrderFifoSlotsByUse.cpp, `orderFifo`: the writes and the reads of a FIFO follow one order.
use dataflow_scheduler.Prelude.{
  ℕ, ◌≡◌, ◌≢◌, refl, inl, inr, Bool, true, false, ◌&&◌, Option, none, some, List, [], ◌∷◌, map,
  Bool-cases, if◌then◌else◌, In, subst, Nodup, Option-cases,
}
use dataflow_scheduler.Device.{Value}
use dataflow_scheduler.FifoOrder.{
  SlotAccess, Reader, min_element, move_into_order, all_dominate, operands_dominate,
}
use dataflow_scheduler.FifoOrder.Pass.{
  Keyed, enumerate_positions, key_accesses, stable_sort, in_order, Blocks, Ordering,
  consumed_outside, already_in_order, unable_to_reorder, reads_not_moved, reordered, writers_of,
  readers_of, ordered_ops, order_keyed, order_fifo,
}
use dataflow_scheduler.FifoOrder.Move.{min_element-In, move_into_order-IsGathered}
use dataflow_scheduler.FifoOrder.Gathered.{IsMoved, IsGathered-IsMoved}
use dataflow_scheduler.FifoOrder.Sorted.{
  IsSorted, number, stable_sort-IsSorted, Same, Same-Nodup, Same-In, ops, sorted-Same,
  key_accesses-ops,
}

module _ (operands : ℕ → List Value) (is_memory_effect_free : ℕ → Bool)
    (properly_dominates : Value → ℕ → Bool) where
  abbrev ordered : List ℕ → Bool → List ℕ → Option (List ℕ)
  ordered ops keep block =
      ordered_ops operands is_memory_effect_free properly_dominates ops keep block

  ordered-IsMoved :
      (ops : List ℕ) (keep_memory_order : Bool) (block moved : List ℕ)
      → Nodup ops
      → Nodup block
      → ((v : ℕ) → In v ops → In v block)
      → ordered ops keep_memory_order block ≡ some moved
      → IsMoved ops block moved
  unfolding move_into_order in_order
  ordered-IsMoved ops keep block moved h different all e = elim (Bool-cases (in_order block ops)) [
    | inl q ↦
        let same : block ≡ moved = cc (rw q at e) in
        subst (IsMoved ops block) same (record {
          in_given_order = q;
          others_kept = refl;
          same_ops = λ v. ((λ m. m), λ m. m);
          different = different;
        })
    | inr q ↦ go ops h all q (rw q at e)
  ]
    where
      go :
          (ops : List ℕ)
          → Nodup ops
          → ((v : ℕ) → In v ops → In v block)
          → in_order block ops ≡ false
          → move_into_order operands is_memory_effect_free properly_dominates ops keep block
            ≡ some moved
          → IsMoved ops block moved
      go [] h all q e = cc
      go (op ∷ ops) h all q e = IsGathered-IsMoved (op ∷ ops) block moved h different all (
          move_into_order-IsGathered operands is_memory_effect_free properly_dominates op ops keep
            block moved h different all e)

  -- What `orderFifo` does where it orders the slots: the writes and the reads are moved into one order, in
  -- which the slots are consumed, and stand in it where nothing is to be done.
  abbrev pub IsInStep : List Keyed → Blocks → Ordering → Type 0
  IsInStep keyed blocks consumed_outside = Unit {0}
  IsInStep keyed blocks unable_to_reorder = Unit {0}
  IsInStep keyed blocks reads_not_moved = Unit {0}
  IsInStep keyed blocks already_in_order =
      (in_order blocks.writer_block (writers_of keyed) ≡ true)
      × (in_order blocks.reader_block (readers_of keyed) ≡ true)
  IsInStep keyed blocks (reordered b) =
      IsMoved (writers_of keyed) blocks.writer_block b.writer_block
      × IsMoved (readers_of keyed) blocks.reader_block b.reader_block

  -- Ops of a block, each once.
  abbrev pub AreOps : List ℕ → List ℕ → Type 0
  AreOps ops block = Nodup ops × Nodup block × ((v : ℕ) → In v ops → In v block)

  and_both : (a b : Bool) → (a && b) ≡ true → (a ≡ true) × (b ≡ true)
  and_both true b h = (refl, h)
  and_both false b h = cc

  order_keyed-IsInStep :
      (keyed : List Keyed) (blocks : Blocks)
      → AreOps (writers_of keyed) blocks.writer_block
      → AreOps (readers_of keyed) blocks.reader_block
      → IsInStep keyed blocks
          (order_keyed operands is_memory_effect_free properly_dominates keyed blocks)
  unfolding order_keyed
  order_keyed-IsInStep keyed blocks w r =
      elim (Bool-cases (
        in_order blocks.writer_block (writers_of keyed)
        && in_order blocks.reader_block (readers_of keyed))) [
          | inl e ↦ rw e (and_both _ _ e)
          | inr e ↦ rw e (
              go (ordered (writers_of keyed) true blocks.writer_block)
                (ordered (readers_of keyed) false blocks.reader_block)
                (λ moved q.
                  ordered-IsMoved (writers_of keyed) true blocks.writer_block moved w.0 w.1 w.2 q)
                (λ moved q.
                  ordered-IsMoved (readers_of keyed) false blocks.reader_block moved r.0 r.1 r.2 q))
        ]
    where
      go :
          (a b : Option (List ℕ))
          → ((moved : List ℕ)
              → a ≡ some moved
              → IsMoved (writers_of keyed) blocks.writer_block moved)
          → ((moved : List ℕ)
              → b ≡ some moved
              → IsMoved (readers_of keyed) blocks.reader_block moved)
          → IsInStep keyed blocks (elim a [
            | none ↦ unable_to_reorder
            | some writer_block ↦ elim b [
              | none ↦ reads_not_moved
              | some reader_block ↦
                  reordered (record { writer_block = writer_block; reader_block = reader_block })
            ]
          ])
      go none b f g = tt
      go (some x) none f g = tt
      go (some x) (some y) f g = (f x refl, g y refl)

  -- For different writers and readers of two blocks, where each slot has a key for where it is
  -- consumed: `orderFifo` takes the accesses in a list sorted by these keys, with each as often as
  -- before; it is done already only where the writes and the reads of that list stand in its order,
  -- and where it reorders them both blocks hold the same ops as before, with those of the list in
  -- its order and the others as they were.
  pub order_fifo-IsInStep :
      (reader_of : ℕ → Reader) (accesses : List SlotAccess) (blocks : Blocks) (ks : List Keyed)
      → AreOps (map (λ a. a.writer) accesses) blocks.writer_block
      → AreOps (map (λ a. a.reader) accesses) blocks.reader_block
      → key_accesses reader_of (enumerate_positions 0 blocks.reader_block []) accesses ≡ some ks
      → (keyed : List Keyed) × IsSorted keyed
        × ((p : Keyed → Bool) → number p keyed ≡ number p ks)
        × IsInStep keyed blocks
            (order_fifo operands is_memory_effect_free properly_dominates reader_of accesses blocks)
  unfolding order_fifo
  order_fifo-IsInStep reader_of accesses blocks ks w r e =
      let (sorted, same) = stable_sort-IsSorted ks in
      (
        stable_sort ks,
        sorted,
        same,
        rw (e, order_fifo)
            (order_keyed-IsInStep (stable_sort ks) blocks
              (carry (λ a. a.writer) blocks.writer_block w)
              (carry (λ a. a.reader) blocks.reader_block r)),
      )
    where
      carry :
          (op_of : SlotAccess → ℕ) (block : List ℕ)
          → AreOps (map op_of accesses) block
          → AreOps (map (λ k. op_of k.1) (stable_sort ks)) block
      carry op_of block h =
          let same : Same (map (λ k. op_of k.1) (stable_sort ks)) (map op_of accesses) =
            subst (Same (map (λ k. op_of k.1) (stable_sort ks)))
              (key_accesses-ops op_of reader_of (enumerate_positions 0 blocks.reader_block [])
                accesses ks e)
              (sorted-Same op_of ks) in
          (Same-Nodup _ _ same h.0, h.1, λ v m. h.2 v (Same-In _ _ same v m))

  all_dominate-true :
      (vs : List Value) (first : ℕ)
      → ((v : Value) → In v vs → properly_dominates v first ≡ true)
      → all_dominate operands is_memory_effect_free properly_dominates vs first ≡ true
  unfolding all_dominate
  all_dominate-true [] first h = refl
  all_dominate-true (v ∷ vs) first h =
      rw (h v (inl refl)) (all_dominate-true vs first (λ u m. h u (inr m)))

  operands_dominate-true :
      (ops : List ℕ) (first : ℕ)
      → ((op : ℕ) (v : Value) → In op ops → In v (operands op) → properly_dominates v first ≡ true)
      → operands_dominate operands is_memory_effect_free properly_dominates ops first ≡ true
  unfolding operands_dominate
  operands_dominate-true [] first h = refl
  operands_dominate-true (op ∷ ops) first h =
      rw (all_dominate-true (operands op) first (λ v m. h op v (inl refl) m))
        (operands_dominate-true ops first (λ o v m n. h o v (inr m) n))

  ordered-reads :
      (ops block : List ℕ)
      → ((first op : ℕ) (v : Value)
          → In first ops
          → In op ops
          → In v (operands op)
          → properly_dominates v first ≡ true)
      → ordered ops false block ≢ none
  unfolding move_into_order
  ordered-reads ops block h e = elim (Bool-cases (in_order block ops)) [
    | inl q ↦ cc (rw q at e)
    | inr q ↦ go ops h (rw q at e)
  ]
    where
      go :
          (ops : List ℕ)
          → ((first op : ℕ) (v : Value)
              → In first ops
              → In op ops
              → In v (operands op)
              → properly_dominates v first ≡ true)
          → move_into_order operands is_memory_effect_free properly_dominates ops false block ≢ none
      go [] h e = cc
      go (op ∷ ops) h e =
          let first = min_element block op ops in
          let ok =
            operands_dominate-true (op ∷ ops) first
              (λ o v m n. h first o v (min_element-In block op ops) m n) in
          cc (rw (ok, move_into_order) at e)

  -- Where the operands of the reads dominate every one of the reads, the assertion of `orderFifo` that the
  -- reads move does not fail.
  pub order_fifo-reads_move :
      (reader_of : ℕ → Reader) (accesses : List SlotAccess) (blocks : Blocks)
      → ((first op : ℕ) (v : Value)
          → In first (map (λ a. a.reader) accesses)
          → In op (map (λ a. a.reader) accesses)
          → In v (operands op)
          → properly_dominates v first ≡ true)
      → order_fifo operands is_memory_effect_free properly_dominates reader_of accesses blocks
        ≢ reads_not_moved
  unfolding order_fifo order_keyed
  order_fifo-reads_move reader_of accesses blocks h e =
      elim (Option-cases
        (key_accesses reader_of (enumerate_positions 0 blocks.reader_block []) accesses)) [
          | inl q ↦ cc (rw (q, order_fifo) at e)
          | inr (ks, q) ↦ step ks q (rw (q, order_fifo) at e)
        ]
    where
      step :
          (ks : List Keyed)
          → key_accesses reader_of (enumerate_positions 0 blocks.reader_block []) accesses ≡ some ks
          → order_keyed operands is_memory_effect_free properly_dominates (stable_sort ks) blocks
            ≢ reads_not_moved
      step ks q e =
          let keyed = stable_sort ks in
          let same : Same (readers_of keyed) (map (λ a. a.reader) accesses) =
            subst (Same (readers_of keyed))
              (key_accesses-ops (λ a. a.reader) reader_of
                (enumerate_positions 0 blocks.reader_block []) accesses ks q)
              (sorted-Same (λ a. a.reader) ks) in
          let moves = ordered-reads (readers_of keyed) blocks.reader_block (λ first op v f m n.
            h first op v (Same-In _ _ same first f) (Same-In _ _ same op m) n) in
          ends
            (in_order blocks.writer_block (writers_of keyed)
              && in_order blocks.reader_block (readers_of keyed))
            (ordered (writers_of keyed) true blocks.writer_block)
            (ordered (readers_of keyed) false blocks.reader_block) moves e
        where
          ends :
              (c : Bool) (a b : Option (List ℕ))
              → b ≢ none
              → (if c then already_in_order else elim a [
                | none ↦ unable_to_reorder
                | some writer_block ↦ elim b [
                  | none ↦ reads_not_moved
                  | some reader_block ↦
                      reordered
                        (record { writer_block = writer_block; reader_block = reader_block })
                ]
              ])
                ≢ reads_not_moved
          ends true a b ne e = cc
          ends false none b ne e = cc
          ends false (some x) none ne e = ne refl
          ends false (some x) (some y) ne e = cc
