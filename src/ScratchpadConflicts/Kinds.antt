-- ===== src/ScratchpadConflicts/Kinds.antt =====
-- lib/Conversion/backend/ScheduleIRToDFIR/KTDFToKTDFLow/ScratchpadConflicts.cpp, `getNodeAccesses`, and
-- `getUnitResourceType` of lib/Conversion/Utils/Utils.cpp: the kinds gathered are those of the memories at
-- the ends of links.
use dataflow_scheduler.Prelude.{
  ◌≡◌, ◌↔◌, refl, ap, ◌⊎◌, inl, inr, Bool, true, false, Option, none, some, List, [], ◌∷◌,
  Bool-cases, Option-cases, if◌then◌else◌, contains, contains→In, In, subst, Any,
}
use dataflow_scheduler.Device.{Value, ResourceType}
use dataflow_scheduler.ScratchpadConflicts.{
  UnitValue, get_unit, query_map, other_value, get_unit_resource_type, Link, ArchNode, insert_kind,
  memory_kind, visit_values, read_kinds, write_kinds,
}

-- The value of a unit has a kind: it gets a unit of the kind, or looks one up in a mapping whose first value
-- gets one.
pub data HasKind : UnitValue → ResourceType → Type 0 where
  direct : (kind : ResourceType) → HasKind (get_unit kind) kind
  mapped :
      (kind : ResourceType) (values : List (Option ResourceType))
      → HasKind (query_map (some kind ∷ values)) kind

pub HasKind_iff :
    (u : UnitValue) (kind : ResourceType) → (get_unit_resource_type u ≡ some kind) ↔ HasKind u kind
HasKind_iff u kind = (down u, up)
  where
    down : (u : UnitValue) → get_unit_resource_type u ≡ some kind → HasKind u kind
    down (get_unit k) e = let same : k ≡ kind = cc in subst (HasKind (get_unit k)) same (direct k)
    down (query_map []) e = cc
    down (query_map (none ∷ values)) e = cc
    down (query_map (some k ∷ values)) e =
        let same : k ≡ kind = cc in
        subst (HasKind (query_map (some k ∷ values))) same (mapped k values)
    down other_value e = cc

    up : {u : UnitValue} {k : ResourceType} → HasKind u k → get_unit_resource_type u ≡ some k
    up (direct k) = refl
    up (mapped k values) = refl

insert_kind_iff :
    (o : Option ResourceType) (kinds : List ResourceType) (k : ResourceType)
    → In k (insert_kind o kinds) ↔ (In k kinds ⊎ (o ≡ some k))
insert_kind_iff none kinds k =
    ((λ m. inl m), λ (x : In k kinds ⊎ (none ≡ some k)). elim x [ inl m ↦ m | inr e ↦ cc ])
insert_kind_iff (some j) kinds k = elim (Bool-cases (contains kinds j)) [
  | inl e ↦ rw e (
    (λ m. inl m),
    λ (x : In k kinds ⊎ (some j ≡ some k)). elim x [
      | inl m ↦ m
      | inr q ↦ let same : j ≡ k = cc in subst (λ i. In i kinds) same (contains→In kinds j e)
    ],
  )
  | inr e ↦ rw e (
    (λ (m : In k (j ∷ kinds)). elim m [ inl q ↦ inr (ap some q) | inr n ↦ inl n ]),
    λ (x : In k kinds ⊎ (some j ≡ some k)). elim x [
      | inl m ↦ inr m
      | inr q ↦ let same : j ≡ k = cc in inl same
    ],
  )
]

-- What is gathered first, and what is gathered after it.
gathered_iff :
    {all first before here rest : Type 0}
    → all ↔ (first ⊎ rest)
    → first ↔ (before ⊎ here)
    → all ↔ (before ⊎ (here ⊎ rest))
gathered_iff {before = before} {here = here} {rest = rest} outer inner = (
  (λ m. elim (outer.0 m) [
    | inl n ↦ elim (inner.0 n) [ inl old ↦ inl old | inr h ↦ inr (inl h) ]
    | inr n ↦ inr (inr n)
  ]),
  λ (x : before ⊎ (here ⊎ rest)). elim x [
    | inl old ↦ outer.1 (inl (inner.1 (inl old)))
    | inr h ↦ elim h [ inl a ↦ outer.1 (inl (inner.1 (inr a))) | inr n ↦ outer.1 (inr n) ]
  ],
)

-- One side of a sum, replaced.
right_iff : {whole a b c : Type 0} → whole ↔ (a ⊎ b) → b ↔ c → whole ↔ (a ⊎ c)
right_iff {a = a} {c = c} f g = (
  (λ w. elim (f.0 w) [ inl x ↦ inl x | inr y ↦ inr (g.0 y) ]),
  λ (z : a ⊎ c). elim z [ inl x ↦ f.1 (inl x) | inr y ↦ f.1 (inr (g.1 y)) ],
)

module _ (get_node : Value → Option ArchNode)
    (get_instance : ResourceType → Option (List Link)) where
  -- A value is a memory of a kind.
  abbrev pub IsMemory : Value → ResourceType → Type 0
  IsMemory v kind =
      (node : ArchNode) × (get_node v ≡ some node)
      × (node.is_memory ≡ true)
      × (node.kind ≡ some kind)

  -- Among links, an incoming one has such a memory as a source; an outgoing one has it as a target.
  abbrev pub HasSource : List Link → ResourceType → Type 0
  HasSource links kind =
      Any (λ l. (l.is_incoming ≡ true) × Any (λ v. IsMemory v kind) l.sources) links

  abbrev pub HasTarget : List Link → ResourceType → Type 0
  HasTarget links kind =
      Any (λ l. (l.is_outgoing ≡ true) × Any (λ v. IsMemory v kind) l.targets) links

  -- Whether a unit reads a memory, or writes it: its kind has an instance with such a link.
  abbrev pub Reads : UnitValue → ResourceType → Type 0
  Reads u memory =
      (comp : ResourceType) × (links : List Link) × HasKind u comp
      × (get_instance comp ≡ some links)
      × HasSource links memory

  abbrev pub Writes : UnitValue → ResourceType → Type 0
  Writes u memory =
      (comp : ResourceType) × (links : List Link) × HasKind u comp
      × (get_instance comp ≡ some links)
      × HasTarget links memory

  memory_kind_iff :
      (v : Value) (k : ResourceType) → (memory_kind get_node get_instance v ≡ some k) ↔ IsMemory v k
  memory_kind_iff v k = elim (Option-cases (get_node v)) [
    | inl e ↦ ((λ h. cc (rw (e, memory_kind) at h)), λ (n, q, m, r). cc)
    | inr (node, e) ↦ (
      (λ h. elim (Bool-cases node.is_memory) [
        | inl b ↦ (node, e, b, (rw (e, b, memory_kind) at h))
        | inr b ↦ cc (rw (e, b, memory_kind) at h)
      ]),
      λ (n, q, m, r). rw (q, m, memory_kind) r,
    )
  ]

  visit_values_iff :
      (vs : List Value) (kinds : List ResourceType) (k : ResourceType)
      → In k (visit_values get_node get_instance vs kinds)
        ↔ (In k kinds ⊎ Any (λ v. IsMemory v k) vs)
  unfolding visit_values
  visit_values_iff [] kinds k = (
    (λ m. inl m),
    λ (x : In k kinds ⊎ Any (λ v. IsMemory v k) []). elim x [ inl m ↦ m | inr z ↦ absurd z ],
  )
  visit_values_iff (v ∷ vs) kinds k =
      gathered_iff (visit_values_iff vs (insert_kind (memory_kind get_node get_instance v) kinds) k)
        (right_iff (insert_kind_iff (memory_kind get_node get_instance v) kinds k)
          (memory_kind_iff v k))

  -- The values of one link, if it counts.
  visit_if :
      (b : Bool) (vs : List Value) (kinds : List ResourceType) (k : ResourceType)
      → In k (if b then visit_values get_node get_instance vs kinds else kinds)
        ↔ (In k kinds ⊎ ((b ≡ true) × Any (λ v. IsMemory v k) vs))
  visit_if true vs kinds k =
      let all = visit_values_iff vs kinds k in
      (
        (λ m. elim (all.0 m) [ inl old ↦ inl old | inr n ↦ inr (refl, n) ]),
        λ (x : In k kinds ⊎ ((true ≡ true) × Any (λ v. IsMemory v k) vs)). elim x [
          | inl old ↦ all.1 (inl old)
          | inr h ↦ all.1 (inr h.1)
        ],
      )
  visit_if false vs kinds k = (
    (λ m. inl m),
    λ (x : In k kinds ⊎ ((false ≡ true) × Any (λ v. IsMemory v k) vs)). elim x [
      | inl old ↦ old
      | inr h ↦ absurd (cc (h.0))
    ],
  )

  read_onto :
      (links : List Link) (kinds : List ResourceType) (k : ResourceType)
      → In k (read_kinds get_node get_instance links kinds) ↔ (In k kinds ⊎ HasSource links k)
  unfolding read_kinds
  read_onto [] kinds k =
      ((λ m. inl m), λ (x : In k kinds ⊎ HasSource [] k). elim x [ inl m ↦ m | inr z ↦ absurd z ])
  read_onto (l ∷ links) kinds k =
      gathered_iff (read_onto links _ k) (visit_if l.is_incoming l.sources kinds k)

  write_onto :
      (links : List Link) (kinds : List ResourceType) (k : ResourceType)
      → In k (write_kinds get_node get_instance links kinds) ↔ (In k kinds ⊎ HasTarget links k)
  unfolding write_kinds
  write_onto [] kinds k =
      ((λ m. inl m), λ (x : In k kinds ⊎ HasTarget [] k). elim x [ inl m ↦ m | inr z ↦ absurd z ])
  write_onto (l ∷ links) kinds k =
      gathered_iff (write_onto links _ k) (visit_if l.is_outgoing l.targets kinds k)

  from_none : {B : Type 0} → (⊥ ⊎ B) → B
  from_none (inl z) = absurd z
  from_none (inr b) = b

  pub read_kinds_iff :
      (links : List Link) (k : ResourceType)
      → In k (read_kinds get_node get_instance links []) ↔ HasSource links k
  read_kinds_iff links k =
      let all = read_onto links [] k in ((λ m. from_none (all.0 m)), λ h. all.1 (inr h))

  pub write_kinds_iff :
      (links : List Link) (k : ResourceType)
      → In k (write_kinds get_node get_instance links []) ↔ HasTarget links k
  write_kinds_iff links k =
      let all = write_onto links [] k in ((λ m. from_none (all.0 m)), λ h. all.1 (inr h))
