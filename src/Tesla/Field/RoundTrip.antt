-- ===== src/Tesla/Field/RoundTrip.antt =====
-- A field that is appended is read back, and under no other number.
use Prim.Native.Nat.{bit_or}
use helianthus_modbusreg.Base.{
  ℕ, ◌+◌, ◌-◌, ◌*◌, ◌%◌, ◌^◌, ◌<◌, ◌≡◌, ◌≢◌, sym, ap, ◌∙◌, List, [], ◌++◌, ok, err, false, ◌==◌,
  append_assoc, length, length-append, drop, drop-length, arith,
}
use helianthus_modbusreg.Base.Bits.{bit_or_below}
use helianthus_modbusreg.Tesla.Varint.{decode_fc100_varint, append_varint}
use helianthus_modbusreg.Tesla.Varint.RoundTrip.{
  append_varint-written, decode_fc100_varint-append_varint,
}
use helianthus_modbusreg.Tesla.Field.{
  expected_field, delimited_key, decode_exact_field, append_field,
}

-- A field number of a protobuf key: 29 bits.
abbrev pub IsTag : ℕ → Type 0
IsTag tag = tag < 2 ^ 29

delimited_key-sum : (tag : ℕ) → IsTag tag → delimited_key tag ≡ tag * 8 + 2
delimited_key-sum tag h =
    let whole : tag * 8 % 2 ^ 64 ≡ tag * 2 ^ 3 = omega arith in
    ap (λ n. bit_or n 2) whole ∙ bit_or_below 3 tag 2 (omega arith)

-- A field as its key, its length and its bytes.
append_field-parts :
    (tag : ℕ) (body : List ℕ)
    → IsTag tag
    → length body < 2 ^ 64
    → append_field tag body
      ≡ append_varint [] (delimited_key tag) ++ (append_varint [] (length body) ++ body)
unfolding append_field
append_field-parts tag body h few =
    let key = append_varint [] (delimited_key tag) in
    let small : length body % 2 ^ 64 ≡ length body = omega arith in
    ap (λ n. append_varint key n ++ body) small
    ∙ ap (λ l. l ++ body)
        (append_varint-written key (length body) few
          ∙ ap (λ l. key ++ l) (sym (append_varint-written [] (length body) few)))
    ∙ append_assoc key (append_varint [] (length body)) body

key-read :
    (tag : ℕ) (rest : List ℕ)
    → IsTag tag
    → decode_fc100_varint (append_varint [] (delimited_key tag) ++ rest)
      ≡ ok (delimited_key tag, length (append_varint [] (delimited_key tag)))
key-read tag rest h =
    decode_fc100_varint-append_varint (delimited_key tag) rest
      (omega (arith, delimited_key-sum tag h))

-- A field that is appended is read back whole.
pub decode_exact_field-append_field :
    (tag : ℕ) (body : List ℕ)
    → IsTag tag
    → length body < 2 ^ 64
    → decode_exact_field (append_field tag body) tag ≡ ok body
unfolding decode_exact_field
decode_exact_field-append_field tag body h few =
    let key = append_varint [] (delimited_key tag) in
    let len = append_varint [] (length body) in
    let tail = drop-length key (len ++ body) in
    let read = key-read tag (len ++ body) h in
    let size = decode_fc100_varint-append_varint (length body) body few in
    let whole : drop (length key + length len) (key ++ (len ++ body)) ≡ body =
      ap (λ n. drop n (key ++ (len ++ body))) (sym (length-append key len))
      ∙ ap (drop (length (key ++ len))) (sym (append_assoc key len body))
      ∙ drop-length (key ++ len) body in
    let rest : length (key ++ (len ++ body)) - length key - length len ≡ length body =
      omega (arith, length-append key (len ++ body), length-append len body) in
    ap (λ l. decode_exact_field l tag) (append_field-parts tag body h few)
    ∙ grind (arith, tail, read, size, whole, rest)

-- Under another number it is refused.
pub decode_exact_field-other :
    (tag other : ℕ) (body : List ℕ)
    → IsTag tag
    → IsTag other
    → tag ≢ other
    → length body < 2 ^ 64
    → decode_exact_field (append_field tag body) other ≡ err expected_field
unfolding decode_exact_field
decode_exact_field-other tag other body h j differ few =
    let key = append_varint [] (delimited_key tag) in
    let len = append_varint [] (length body) in
    let read = key-read tag (len ++ body) h in
    let keys : (delimited_key tag == delimited_key other) ≡ false =
      ground (arith, delimited_key-sum tag h, delimited_key-sum other j, differ) in
    ap (λ l. decode_exact_field l other) (append_field-parts tag body h few)
    ∙ grind (arith, read, keys)
