-- ===== src/Tesla/Wire/Rounds.antt =====
-- The rounds of the loop on a key and on each kind of value.
use helianthus_modbusreg.Base.{
  ℕ, zero, suc, ◌+◌, ◌-◌, ◌*◌, ◌/◌, ◌%◌, ◌^◌, ◌≤◌, ◌<◌, ◌≡◌, refl, sym, ap, ◌∙◌, List, [], ◌∷◌,
  ◌++◌, ok, Bool, false, ◌||◌, ◌==◌, ltb, length, length-append, drop, drop-length, arith,
}
use helianthus_modbusreg.Tesla.Varint.{decode_fc100_varint, decode_tedapi_varint, append_varint}
use helianthus_modbusreg.Tesla.Varint.RoundTrip.{decode_fc100_varint-append_varint}
use helianthus_modbusreg.Tesla.Varint.Prefix.{decode_tedapi_varint-width}
use helianthus_modbusreg.Tesla.Wire.{TeslaFc100WireEntry, wire_value, wire_loop}
use helianthus_modbusreg.Tesla.Wire.Nesting.{entry}
use helianthus_modbusreg.Tesla.Wire.Message.{key_bytes, IsNumber}

read_varint :
    (v : ℕ) (rest : List ℕ)
    → v < 2 ^ 64
    → decode_tedapi_varint (append_varint [] v ++ rest) ≡ ok (v, length (append_varint [] v))
unfolding decode_tedapi_varint decode_fc100_varint
read_varint v rest h = decode_fc100_varint-append_varint v rest h

bad_key : ℕ → Bool
bad_key key = key / 8 == 0 || ltb (2 ^ 29 - 1) (key / 8) || ltb 5 (key % 8)

round_step :
    (r o : ℕ) (os : List ℕ) (count k w : ℕ) (after groups groups' : List ℕ)
    (es : List TeslaFc100WireEntry)
    → decode_tedapi_varint (o ∷ os) ≡ ok (k, w)
    → bad_key k ≡ false
    → (count == 64) ≡ false
    → wire_value (k / 8) (k % 8) (drop w (o ∷ os)) groups ≡ ok (after, groups')
    → wire_loop r after (count + 1) groups' ≡ ok es
    → wire_loop (suc r) (o ∷ os) count groups ≡ ok (entry (k / 8) (k % 8) ∷ es)
unfolding wire_loop bad_key
round_step r o os count k w after groups groups' es q good room v l =
    simp (q, good, room, v, l) refl

bad_key-number : (f t : ℕ) → IsNumber f → t ≤ 5 → bad_key (f * 8 + t) ≡ false
unfolding bad_key
bad_key-number f t number kind =
    let field : (f * 8 + t) / 8 ≡ f = omega (arith, kind) in
    let type' : (f * 8 + t) % 8 ≡ t = omega (arith, kind) in ground arith

-- One round on a message that starts with a key.
pub round_ok :
    (rounds count f t : ℕ) (rest after groups groups' : List ℕ) (es : List TeslaFc100WireEntry)
    → IsNumber f
    → t ≤ 5
    → count < 64
    → length (key_bytes f t ++ rest) ≤ rounds
    → wire_value f t rest groups ≡ ok (after, groups')
    → length after ≤ length rest
    → ((r : ℕ) → length after ≤ r → wire_loop r after (count + 1) groups' ≡ ok es)
    → wire_loop rounds (key_bytes f t ++ rest) count groups ≡ ok (entry f t ∷ es)
unfolding wire_loop
round_ok rounds count f t rest after groups groups' es number kind room few v less go =
    let read = read_varint (f * 8 + t) rest (omega (arith, number)) in
    let (some_byte, most, ten) =
      decode_tedapi_varint-width (key_bytes f t ++ rest) (f * 8 + t) (length (key_bytes f t))
        read in
    start (key_bytes f t ++ rest) rounds read (drop-length (key_bytes f t) rest)
      (omega (arith, some_byte, most)) few
      (omega (arith, length-append (key_bytes f t) rest, some_byte))
  where
    start :
        (message : List ℕ) (r : ℕ)
        → decode_tedapi_varint message ≡ ok (f * 8 + t, length (key_bytes f t))
        → drop (length (key_bytes f t)) message ≡ rest
        → 1 ≤ length message
        → length message ≤ r
        → length rest < length message
        → wire_loop r message count groups ≡ ok (entry f t ∷ es)
    start [] r q d h j k = absurd (omega arith)
    start (o ∷ os) zero q d h j k = absurd (omega arith)
    start (o ∷ os) (suc r) q d h j k =
        let field : (f * 8 + t) / 8 ≡ f = omega (arith, kind) in
        let type' : (f * 8 + t) % 8 ≡ t = omega (arith, kind) in
        let value : wire_value ((f * 8 + t) / 8) ((f * 8 + t) % 8)
              (drop (length (key_bytes f t)) (o ∷ os)) groups
            ≡ ok (after, groups') =
          ap (λ a. wire_value a ((f * 8 + t) % 8) (drop (length (key_bytes f t)) (o ∷ os)) groups)
            field
          ∙ ap (λ a. wire_value f a (drop (length (key_bytes f t)) (o ∷ os)) groups) type'
          ∙ ap (λ a. wire_value f t a groups) d
          ∙ v in
        let onward = go r (omega (arith, less, k, j)) in
        round_step r o os count (f * 8 + t) (length (key_bytes f t)) after groups groups' es q
          (bad_key-number f t number kind) (grind (arith, room)) value onward
        ∙ ap (λ a. ok (entry a ((f * 8 + t) % 8) ∷ es)) field
        ∙ ap (λ a. ok (entry f a ∷ es)) type'

-- A key after which the groups are as given, and a value that is skipped.
pub skipped :
    (f : ℕ) (rest groups : List ℕ) (bytes : List ℕ)
    → (length bytes ≡ 8 → wire_value f 1 (bytes ++ rest) groups ≡ ok (rest, groups))
      × (length bytes ≡ 4 → wire_value f 5 (bytes ++ rest) groups ≡ ok (rest, groups))
unfolding wire_value
skipped f rest groups bytes =
    let whole = drop-length bytes rest in
    let size = length-append bytes rest in
    (
      λ eight.
          let tail : drop 8 (bytes ++ rest) ≡ rest =
            ap (λ n. drop n (bytes ++ rest)) (sym eight) ∙ whole in
          grind (arith, tail, size, eight),
      λ four.
          let tail : drop 4 (bytes ++ rest) ≡ rest =
            ap (λ n. drop n (bytes ++ rest)) (sym four) ∙ whole in
          grind (arith, tail, size, four),
    )

pub varint_skipped :
    (f v : ℕ) (rest groups : List ℕ)
    → v < 2 ^ 64
    → wire_value f 0 (append_varint [] v ++ rest) groups ≡ ok (rest, groups)
unfolding wire_value
varint_skipped f v rest groups h =
    grind (arith, read_varint v rest h, drop-length (append_varint [] v) rest)

pub bytes_skipped :
    (f : ℕ) (bytes rest groups : List ℕ)
    → length bytes < 2 ^ 64
    → wire_value f 2 (append_varint [] (length bytes) ++ (bytes ++ rest)) groups ≡ ok (rest, groups)
unfolding wire_value
bytes_skipped f bytes rest groups h = grind (
  arith,
  read_varint (length bytes) (bytes ++ rest) h,
  drop-length (append_varint [] (length bytes)) (bytes ++ rest),
  drop-length bytes rest,
  length-append bytes rest,
)

pub group_switch :
    (f : ℕ) (rest groups : List ℕ)
    → (wire_value f 3 rest groups ≡ ok (rest, f ∷ groups))
      × (wire_value f 4 rest (f ∷ groups) ≡ ok (rest, groups))
unfolding wire_value
group_switch f rest groups = ground arith
