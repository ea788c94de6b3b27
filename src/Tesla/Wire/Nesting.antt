-- ===== src/Tesla/Wire/Nesting.antt =====
-- The entries of an accepted message: their groups nest, and their number and fields are bounded.
use helianthus_modbusreg.Base.{
  ℕ, zero, suc, ◌+◌, ◌/◌, ◌%◌, ◌^◌, ◌≤◌, ◌<◌, ◌≡◌, ◌≢◌, refl, sym, ap, subst, drop, ◌∙◌, List, [],
  ◌∷◌, ◌++◌, ok, ◌==◌, append_assoc, length, All, Result-cases, Bool-cases, inl, inr, arith,
}
use helianthus_modbusreg.Tesla.Varint.{decode_tedapi_varint}
use helianthus_modbusreg.Tesla.Wire.{
  TeslaFc100WireEntry, close_group, wire_value, wire_loop, decode_wire_entries,
}

abbrev pub entry : ℕ → ℕ → TeslaFc100WireEntry
entry field wire_type = record { field_number = field; wire_type = wire_type }

-- Values, and groups of entries between a start and an end of the same field.
pub data WellNested : List TeslaFc100WireEntry → Type 0 where
  done : WellNested []
  value :
      (f t : ℕ) (es : List TeslaFc100WireEntry)
      → t ≢ 3
      → t ≢ 4
      → WellNested es
      → WellNested (entry f t ∷ es)
  group :
      (f : ℕ) (inner es : List TeslaFc100WireEntry)
      → WellNested inner
      → WellNested es
      → WellNested (entry f 3 ∷ (inner ++ (entry f 4 ∷ es)))

-- Entries that first close the open groups, the innermost first.
Closing : List ℕ → List TeslaFc100WireEntry → Type 0
Closing [] es = WellNested es
Closing (g ∷ gs) es =
    (inner : List TeslaFc100WireEntry) × (rest : List TeslaFc100WireEntry) × (es
      ≡ inner ++ (entry g 4 ∷ rest))
    × WellNested inner
    × Closing gs rest

Closing-value :
    (gs : List ℕ) (f t : ℕ) (es : List TeslaFc100WireEntry)
    → t ≢ 3
    → t ≢ 4
    → Closing gs es
    → Closing gs (entry f t ∷ es)
unfolding Closing
Closing-value [] f t es h j c = value f t es h j c
Closing-value (g ∷ gs) f t es h j (inner, rest, split, nested, c) =
    (entry f t ∷ inner, rest, ap (λ l. entry f t ∷ l) split, value f t inner h j nested, c)

Closing-end :
    (gs : List ℕ) (f : ℕ) (es : List TeslaFc100WireEntry)
    → Closing gs es
    → Closing (f ∷ gs) (entry f 4 ∷ es)
unfolding Closing
Closing-end gs f es c = ([], es, refl, done, c)

Closing-start :
    (gs : List ℕ) (f : ℕ) (es : List TeslaFc100WireEntry)
    → Closing (f ∷ gs) es
    → Closing gs (entry f 3 ∷ es)
unfolding Closing
Closing-start [] f es (inner, rest, split, nested, c) =
    subst (λ l. WellNested (entry f 3 ∷ l)) (sym split) (group f inner rest nested c)
Closing-start (g ∷ gs) f es (inner, rest, split, nested, (inner', rest', split', nested', c)) = (
  entry f 3 ∷ (inner ++ (entry f 4 ∷ inner')),
  rest',
  ap (λ l. entry f 3 ∷ l)
      (split
        ∙ ap (λ l. inner ++ (entry f 4 ∷ l)) split'
        ∙ sym (append_assoc inner (entry f 4 ∷ inner') (entry g 4 ∷ rest'))),
  group f inner inner' nested nested',
  c,
)

-- What a value does to the open groups.
data Regroups (f t : ℕ) (gs gs' : List ℕ) : Type 0 where
  keeps : t ≢ 3 → t ≢ 4 → gs ≡ gs' → Regroups f t gs gs'
  opens : t ≡ 3 → f ∷ gs ≡ gs' → Regroups f t gs gs'
  closes : t ≡ 4 → gs ≡ f ∷ gs' → Regroups f t gs gs'

closed_by : (f : ℕ) (gs outer : List ℕ) → close_group f gs ≡ ok outer → gs ≡ f ∷ outer
closed_by f [] outer h = cc
closed_by f (g ∷ gs) outer h = ground arith

wire_value-Regroups :
    (f t : ℕ) (rest rest' gs gs' : List ℕ)
    → t ≤ 5
    → wire_value f t rest gs ≡ ok (rest', gs')
    → Regroups f t gs gs'
unfolding wire_value
wire_value-Regroups f t rest rest' gs gs' small h = elim (Bool-cases (t == 3)) [
  | inl three ↦ opens (ground arith) (ground arith)
  | inr other ↦ elim (Bool-cases (t == 4)) [
    | inl four ↦ closes (ground arith) (ground (arith, closed_by f gs))
    | inr others ↦ keeps (ground arith) (ground arith) (ground arith)
  ]
]

Regroups-Closing :
    (f t : ℕ) (gs gs' : List ℕ) (es : List TeslaFc100WireEntry)
    → Regroups f t gs gs'
    → Closing gs' es
    → Closing gs (entry f t ∷ es)
Regroups-Closing f t gs gs' es (keeps h j same) c =
    Closing-value gs f t es h j (subst (λ g. Closing g es) (sym same) c)
Regroups-Closing f t gs gs' es (opens three same) c =
    subst (λ a. Closing gs (entry f a ∷ es)) (sym three)
      (Closing-start gs f es (subst (λ g. Closing g es) (sym same) c))
Regroups-Closing f t gs gs' es (closes four same) c =
    subst (λ g. Closing g (entry f t ∷ es)) (sym same)
      (subst (λ a. Closing (f ∷ gs') (entry f a ∷ es)) (sym four) (Closing-end gs' f es c))

-- The parts of an accepted round.
pub record Round (rounds : ℕ) (message : List ℕ) (count : ℕ) (groups : List ℕ)
    (es : List TeslaFc100WireEntry) : Type 0 where
  pub key : ℕ
  pub width : ℕ
  pub after : List ℕ
  pub groups' : List ℕ
  pub more : List TeslaFc100WireEntry
  pub key_read : decode_tedapi_varint message ≡ ok (key, width)
  pub field_small : (1 ≤ key / 8) × (key / 8 < 2 ^ 29)
  pub type_small : key % 8 ≤ 5
  pub room : count ≢ 64
  pub value_read : wire_value (key / 8) (key % 8) (drop width message) groups ≡ ok (after, groups')
  pub rest_read : wire_loop rounds after (count + 1) groups' ≡ ok more
  pub all : es ≡ entry (key / 8) (key % 8) ∷ more

wire_loop-Round :
    (rounds o : ℕ) (os : List ℕ) (count : ℕ) (groups : List ℕ) (es : List TeslaFc100WireEntry)
    → wire_loop (suc rounds) (o ∷ os) count groups ≡ ok es
    → Round rounds (o ∷ os) count groups es
unfolding wire_loop
wire_loop-Round rounds o os count groups es h =
    elim (Result-cases (decode_tedapi_varint (o ∷ os))) [
      | inl ((k, w), q) ↦
          elim (Result-cases (wire_value (k / 8) (k % 8) (drop w (o ∷ os)) groups)) [
            | inl ((after, groups'), v) ↦
                elim (Result-cases (wire_loop rounds after (count + 1) groups')) [
                  | inl (more, l) ↦ record {
                    key = k;
                    width = w;
                    after = after;
                    groups' = groups';
                    more = more;
                    key_read = q;
                    field_small = ground (arith, q, h);
                    type_small = ground (arith, q, h);
                    room = ground (arith, q, h);
                    value_read = v;
                    rest_read = l;
                    all = ground (arith, q, v, l, h);
                  }
                  | inr (e, l) ↦ absurd (ground (arith, q, v, l, h))
                ]
            | inr (e, v) ↦ absurd (ground (arith, q, v, h))
          ]
      | inr (e, q) ↦ absurd (ground (arith, q, h))
    ]

-- A protobuf field number of 29 bits, and one of the six wire types.
pub record IsEntry (e : TeslaFc100WireEntry) : Type 0 where
  pub field_from : 1 ≤ e.field_number
  pub field_to : e.field_number < 2 ^ 29
  pub type_to : e.wire_type ≤ 5

wire_loop-Closing :
    (rounds : ℕ) (message : List ℕ) (count : ℕ) (groups : List ℕ) (es : List TeslaFc100WireEntry)
    → count ≤ 64
    → wire_loop rounds message count groups ≡ ok es
    → Closing groups es × All IsEntry es × (count + length es ≤ 64)
unfolding wire_loop Closing
wire_loop-Closing rounds [] count [] es few h =
    let none_left : [] ≡ es = ground arith in
    subst (λ l. WellNested l × All IsEntry l × (count + length l ≤ 64)) none_left
      (done, tt, omega arith)
wire_loop-Closing rounds [] count (g ∷ gs) es few h = absurd (ground arith)
wire_loop-Closing zero (o ∷ os) count groups es few h = absurd (ground arith)
wire_loop-Closing (suc rounds) (o ∷ os) count groups es few h =
    let r = wire_loop-Round rounds o os count groups es h in
    let (closing, entries, bound) =
      wire_loop-Closing rounds r.after (count + 1) r.groups' r.more (grind (arith, r.room, few))
        r.rest_read in
    let regroups =
      wire_value-Regroups (r.key / 8) (r.key % 8) (drop r.width (o ∷ os)) r.after groups r.groups'
        r.type_small r.value_read in
    let first : IsEntry (entry (r.key / 8) (r.key % 8)) = record {
      field_from = r.field_small.0;
      field_to = r.field_small.1;
      type_to = r.type_small;
    } in
    subst (λ l. Closing groups l × All IsEntry l × (count + length l ≤ 64)) (sym r.all)
      (
        Regroups-Closing (r.key / 8) (r.key % 8) groups r.groups' r.more regroups closing,
        (first, entries),
        omega (arith, bound),
      )

-- The entries of an accepted message are at most 64, have field numbers of 29 bits but not 0 and
-- wire types up to 5, and nest: every group that starts ends with its own field number.
pub decode_wire_entries-WellNested :
    (message : List ℕ) (es : List TeslaFc100WireEntry)
    → decode_wire_entries message ≡ ok es
    → WellNested es × All IsEntry es × (length es ≤ 64)
unfolding decode_wire_entries Closing
decode_wire_entries-WellNested message es h =
    let (nested, entries, bound) =
      wire_loop-Closing (length message) message 0 [] es (omega arith) h in
    (nested, entries, omega (arith, bound))
