-- ===== src/Tesla/Wire/RoundTrip.antt =====
-- Every nested message of at most 64 keys is accepted, and its keys are the entries.
use helianthus_modbusreg.Base.{
  ℕ, ◌+◌, ◌≤◌, ◌<◌, ◌≡◌, refl, sym, ap, subst, ◌∙◌, List, [], ◌∷◌, ◌++◌, ok, append_assoc,
  append-nil, length, length-append, arith,
}
use helianthus_modbusreg.Tesla.Varint.{append_varint}
use helianthus_modbusreg.Tesla.Wire.{
  TeslaFc100WireEntry, wire_value, wire_loop, decode_wire_entries,
}
use helianthus_modbusreg.Tesla.Wire.Nesting.{entry}
use helianthus_modbusreg.Tesla.Wire.Message.{
  WireField, WireFields, varint_field, fixed64_field, fixed32_field, bytes_field, group_field,
  no_fields, and_field, key_bytes, IsNumber, print_field, print_fields, field_keys, fields_keys,
  IsField, AreFields,
}
use helianthus_modbusreg.Tesla.Wire.Rounds.{
  round_ok, skipped, varint_skipped, bytes_skipped, group_switch,
}

-- What the loop makes of bytes with any number of rounds that is enough.
Reads : List ℕ → ℕ → List ℕ → List TeslaFc100WireEntry → Type 0
Reads message count groups es =
    (rounds : ℕ) → length message ≤ rounds → wire_loop rounds message count groups ≡ ok es

Reads-value :
    (f t count : ℕ) (value rest groups groups' : List ℕ) (es : List TeslaFc100WireEntry)
    → IsNumber f
    → t ≤ 5
    → count < 64
    → wire_value f t (value ++ rest) groups ≡ ok (rest, groups')
    → Reads rest (count + 1) groups' es
    → Reads ((key_bytes f t ++ value) ++ rest) count groups (entry f t ∷ es)
unfolding Reads
Reads-value f t count value rest groups groups' es number kind room v go =
    subst (λ m. Reads m count groups (entry f t ∷ es))
      (sym (append_assoc (key_bytes f t) value rest))
      (λ rounds few.
        round_ok rounds count f t (value ++ rest) rest groups groups' es number kind room few v
          (omega (arith, length-append value rest)) go)

Reads-key :
    (f t count : ℕ) (rest groups groups' : List ℕ) (es : List TeslaFc100WireEntry)
    → IsNumber f
    → t ≤ 5
    → count < 64
    → wire_value f t rest groups ≡ ok (rest, groups')
    → Reads rest (count + 1) groups' es
    → Reads (key_bytes f t ++ rest) count groups (entry f t ∷ es)
unfolding Reads
Reads-key f t count rest groups groups' es number kind room v go = λ rounds few.
    round_ok rounds count f t rest rest groups groups' es number kind room few v (omega arith) go

-- The end key of a group, and what follows it.
Reads-end :
    (f count : ℕ) (rest groups : List ℕ) (es : List TeslaFc100WireEntry)
    → IsNumber f
    → count < 64
    → Reads rest (count + 1) groups es
    → Reads (key_bytes f 4 ++ rest) count (f ∷ groups) (entry f 4 ∷ es)
Reads-end f count rest groups es number room go =
    Reads-key f 4 count rest (f ∷ groups) groups es number (omega arith) room
      (group_switch f rest groups).1 go

Reads-cong :
    (message : List ℕ) (c d : ℕ) (groups : List ℕ) (es : List TeslaFc100WireEntry)
    → c ≡ d
    → Reads message c groups es
    → Reads message d groups es
Reads-cong message c d groups es same go = subst (λ n. Reads message n groups es) same go

group_keys_count :
    (f : ℕ) (fs : WireFields) → length (field_keys (group_field f fs)) ≡ length (fields_keys fs) + 2
group_keys_count f fs = omega (arith, length-append (fields_keys fs) (entry f 4 ∷ []))

mutual
  field-Reads :
      (x : WireField) (rest : List ℕ) (count : ℕ) (groups : List ℕ) (es : List TeslaFc100WireEntry)
      → IsField x
      → count + length (field_keys x) ≤ 64
      → Reads rest (count + length (field_keys x)) groups es
      → Reads (print_field x ++ rest) count groups (field_keys x ++ es)
  field-Reads (varint_field f v) rest count groups es good few go =
      Reads-value f 0 count (append_varint [] v) rest groups groups es good.0 (omega arith)
        (omega (arith, few)) (varint_skipped f v rest groups good.1) go
  field-Reads (fixed64_field f bytes) rest count groups es good few go =
      Reads-value f 1 count bytes rest groups groups es good.0 (omega arith) (omega (arith, few))
        ((skipped f rest groups bytes).0 good.1) go
  field-Reads (bytes_field f bytes) rest count groups es good few go =
      Reads-value f 2 count (append_varint [] (length bytes) ++ bytes) rest groups groups es good.0
        (omega arith) (omega (arith, few))
        (ap (λ l. wire_value f 2 l groups)
            (append_assoc (append_varint [] (length bytes)) bytes rest)
          ∙ bytes_skipped f bytes rest groups good.1)
        go
  field-Reads (fixed32_field f bytes) rest count groups es good few go =
      Reads-value f 5 count bytes rest groups groups es good.0 (omega arith) (omega (arith, few))
        ((skipped f rest groups bytes).1 good.1) go
  field-Reads (group_field f fs) rest count groups es good few go =
      let many = group_keys_count f fs in
      let closed =
        Reads-end f (count + 1 + length (fields_keys fs)) rest groups es good.0
          (omega (arith, many, few))
          (Reads-cong rest (count + length (field_keys (group_field f fs)))
            (count + 1 + length (fields_keys fs) + 1) groups es (omega (arith, many)) go) in
      let inner =
        fields-Reads fs (key_bytes f 4 ++ rest) (count + 1) (f ∷ groups) (entry f 4 ∷ es) good.1
          (omega (arith, many, few)) closed in
      let bytes : print_field (group_field f fs) ++ rest
          ≡ key_bytes f 3 ++ (print_fields fs ++ (key_bytes f 4 ++ rest)) =
        append_assoc (key_bytes f 3) (print_fields fs ++ key_bytes f 4) rest
        ∙ ap (λ l. key_bytes f 3 ++ l) (append_assoc (print_fields fs) (key_bytes f 4) rest) in
      let keys : entry f 3 ∷ (fields_keys fs ++ (entry f 4 ∷ es))
          ≡ field_keys (group_field f fs) ++ es =
        ap (λ l. entry f 3 ∷ l) (sym (append_assoc (fields_keys fs) (entry f 4 ∷ []) es)) in
      subst (λ m. Reads m count groups (field_keys (group_field f fs) ++ es)) (sym bytes)
        (subst
          (λ l.
            Reads (key_bytes f 3 ++ (print_fields fs ++ (key_bytes f 4 ++ rest))) count groups l)
          keys
          (Reads-key f 3 count (print_fields fs ++ (key_bytes f 4 ++ rest)) groups (f ∷ groups)
            (fields_keys fs ++ (entry f 4 ∷ es)) good.0 (omega arith) (omega (arith, many, few))
            (group_switch f (print_fields fs ++ (key_bytes f 4 ++ rest)) groups).0 inner))

  fields-Reads :
      (xs : WireFields) (rest : List ℕ) (count : ℕ) (groups : List ℕ)
      (es : List TeslaFc100WireEntry)
      → AreFields xs
      → count + length (fields_keys xs) ≤ 64
      → Reads rest (count + length (fields_keys xs)) groups es
      → Reads (print_fields xs ++ rest) count groups (fields_keys xs ++ es)
  fields-Reads no_fields rest count groups es good few go =
      Reads-cong rest (count + 0) count groups es (omega arith) go
  fields-Reads (and_field x xs) rest count groups es good few go =
      let many = length-append (field_keys x) (fields_keys xs) in
      let tail =
        fields-Reads xs rest (count + length (field_keys x)) groups es good.1
          (omega (arith, many, few))
          (Reads-cong rest (count + length (fields_keys (and_field x xs)))
            (count + length (field_keys x) + length (fields_keys xs)) groups es
            (omega (arith, many)) go) in
      let head =
        field-Reads x (print_fields xs ++ rest) count groups (fields_keys xs ++ es) good.0
          (omega (arith, many, few)) tail in
      subst (λ m. Reads m count groups (fields_keys (and_field x xs) ++ es))
        (sym (append_assoc (print_field x) (print_fields xs) rest))
        (subst (λ l. Reads (print_field x ++ (print_fields xs ++ rest)) count groups l)
          (sym (append_assoc (field_keys x) (fields_keys xs) es)) head)

nothing_left : (count : ℕ) → Reads [] count [] []
unfolding Reads wire_loop
nothing_left count = λ rounds few. refl

-- A message that is printed from nested fields, with at most 64 keys, is accepted, and its entries
-- are the keys of the fields in order.
pub decode_wire_entries-print_fields :
    (xs : WireFields)
    → AreFields xs
    → length (fields_keys xs) ≤ 64
    → decode_wire_entries (print_fields xs) ≡ ok (fields_keys xs)
unfolding decode_wire_entries Reads
decode_wire_entries-print_fields xs good few =
    let read : Reads (print_fields xs ++ []) 0 [] (fields_keys xs ++ []) =
      fields-Reads xs [] 0 [] [] good (omega (arith, few))
        (nothing_left (0 + length (fields_keys xs))) in
    let plain : Reads (print_fields xs) 0 [] (fields_keys xs) =
      subst (λ m. Reads m 0 [] (fields_keys xs)) (append-nil (print_fields xs))
        (subst (λ l. Reads (print_fields xs ++ []) 0 [] l) (append-nil (fields_keys xs)) read) in
    plain (length (print_fields xs)) (omega arith)
