-- ===== src/SunSpec/Value.antt =====
-- sunspec_value.go: the values of SunSpec points, decoded from their words. An int64, an int16 and a
-- float32 stand as their bits.
pub mod Text
pub mod Datum
mod Tests
use Prim.Native.Nat.{bit_and}
use helianthus_modbusreg.Base.{
  ℕ, zero, suc, ◌+◌, ◌-◌, ◌*◌, ◌/◌, ◌%◌, ◌^◌, Bool, true, false, ◌&&◌, ◌||◌, not, Option, none,
  some, List, [], ◌∷◌, ◌++◌, ltb, leb, ◌==◌, if◌then◌else◌, length, Map, find,
}
use helianthus_modbusreg.Base.Bytes.{ascii}

pub data SunSpecPointType : Type 0 where
  int16 int32 uint16 uint32 uint64 acc32 acc64 count enum16 bitfield16 bitfield32 : SunSpecPointType
  string_type float32_type sunssf pad other_type : SunSpecPointType

pub data SunSpecValueState : Type 0 where
  valid not_implemented not_accumulated invalid_encoding : SunSpecValueState

pub record SunSpecDecimal : Type 0 where
  pub coefficient : ℕ
  pub exponent : ℕ

-- A value and its `has…` flag are an option.
pub record SunSpecValue : Type 0 where
  pub point_type : SunSpecPointType
  pub state : SunSpecValueState
  pub raw : List ℕ
  pub decimal : Option SunSpecDecimal
  pub unsigned_decimal : Option SunSpecDecimal
  pub float32 : Option ℕ
  pub signed : Option ℕ
  pub unsigned : Option ℕ
  pub text : Option (List ℕ)
  pub enum : Option (ℕ × List ℕ)
  pub bits : Option (ℕ × ℕ)
  pub bit_symbols : List (List ℕ)

-- The fields of a point definition that decoding reads.
pub record SunSpecPointDefinition : Type 0 where
  pub point_type : SunSpecPointType
  pub size : ℕ
  pub scale_factor : List ℕ
  pub fixed_scale : Option ℕ
  pub symbols : Map (List ℕ)
  pub known_mask : ℕ

-- `invalidSunSpecValue`
unfoldable pub bare_value : SunSpecPointType → List ℕ → SunSpecValueState → SunSpecValue
bare_value point_type words state = record {
  point_type = point_type;
  state = state;
  raw = words;
  decimal = none;
  unsigned_decimal = none;
  float32 = none;
  signed = none;
  unsigned = none;
  text = none;
  enum = none;
  bits = none;
  bit_symbols = [];
}

-- `symbols[key]`: a missing key gives the empty string.
abbrev pub symbol : ℕ → Map (List ℕ) → List ℕ
symbol key symbols = elim (find key symbols) [ some s ↦ s | none ↦ [] ]

-- Words joined, the first one the highest.
abbrev join2 : ℕ → ℕ → ℕ
join2 high low = high * 2 ^ 16 + low

abbrev join4 : ℕ → ℕ → ℕ → ℕ → ℕ
join4 a b c d = a * 2 ^ 48 + b * 2 ^ 32 + c * 2 ^ 16 + d

-- `int64(int16(w))` and `int64(int32(w))`
abbrev pub extend16 : ℕ → ℕ
extend16 w = if ltb w (2 ^ 15) then w else w + (2 ^ 64 - 2 ^ 16)

abbrev pub extend32 : ℕ → ℕ
extend32 w = if ltb w (2 ^ 31) then w else w + (2 ^ 64 - 2 ^ 32)

-- Neither NaN nor infinite: the exponent's eight bits are not all ones.
abbrev finite32 : ℕ → Bool
finite32 bits = not (bits / 2 ^ 23 % 256 == 255)

-- The loop of `setSunSpecBitfield` over the bits from `bit` on.
unfoldable pub bit_names : ℕ → ℕ → ℕ → ℕ → Map (List ℕ) → List (List ℕ)
bit_names zero bit bits known_mask symbols = []
bit_names (suc n) bit bits known_mask symbols =
    let rest = bit_names n (bit + 1) bits known_mask symbols in
    if not (bit_and bits (2 ^ bit) == 0)
      && not (bit_and known_mask (2 ^ bit) == 0)
      && not (length (symbol bit symbols) == 0)
    then symbol bit symbols ∷ rest
    else rest

-- `setSunSpecBitfield`; `bits &^ mask` is the and with the complement.
unfoldable pub set_bitfield : SunSpecValue → ℕ → SunSpecPointDefinition → ℕ → SunSpecValue
unfolding bit_names
set_bitfield value bits def width = record value {
  bits = some (bits, bit_and bits (2 ^ 64 - 1 - def.known_mask));
  bit_symbols = bit_names (width + 1) 0 bits def.known_mask def.symbols;
}

abbrev is_uint64 : SunSpecPointType → Bool
is_uint64 uint64 = true
is_uint64 _ = false

-- The end of `applySunSpecScale`, on the scale factor and what the value has.
unfoldable pub scale_by : SunSpecValue → ℕ → Option ℕ → Option ℕ → SunSpecValue
scale_by value factor (some coefficient) unsigned = record value {
  decimal = some (record { coefficient = coefficient; exponent = factor % 2 ^ 16 });
}
scale_by value factor none none = record value { state = invalid_encoding }
scale_by value factor none (some number) =
    if is_uint64 value.point_type
    then record value {
      unsigned_decimal = some (record { coefficient = number; exponent = factor % 2 ^ 16 });
    }
    else if ltb (2 ^ 63 - 1) number
    then record value { state = invalid_encoding }
    else record value {
      decimal = some (record { coefficient = number; exponent = factor % 2 ^ 16 });
    }

abbrev scale_state : SunSpecValue → SunSpecValueState → Option ℕ → SunSpecValue
scale_state value invalid_encoding factor = record value {
  state = invalid_encoding;
  decimal = none;
}
scale_state value valid (some factor) = scale_by value factor value.signed value.unsigned
scale_state value _ _ = record value { state = not_implemented; decimal = none }

-- `applySunSpecScale`
unfoldable pub apply_scale : SunSpecValue → Option SunSpecValue → SunSpecValue
unfolding scale_by
apply_scale value none = record value { state = invalid_encoding; decimal = none }
apply_scale value (some scale) = scale_state value scale.state scale.signed

-- The bytes of the words, each in big-endian order.
abbrev pub word_bytes : List ℕ → List ℕ
word_bytes [] = []
word_bytes (w ∷ ws) = w / 256 % 256 ∷ w % 256 ∷ word_bytes ws

abbrev pub all_zero : List ℕ → Bool
all_zero [] = true
all_zero (b ∷ bs) = b == 0 && all_zero bs

-- The bytes before the first zero byte, and from it on.
abbrev pub before_zero : List ℕ → List ℕ
before_zero [] = []
before_zero (b ∷ bs) = if b == 0 then [] else b ∷ before_zero bs

abbrev pub from_zero : List ℕ → List ℕ
from_zero [] = []
from_zero (b ∷ bs) = if b == 0 then b ∷ bs else from_zero bs

-- `utf8.Valid`: the ranges of the bytes that follow a first byte.
abbrev pub utf8_follow : ℕ → Option (List (ℕ × ℕ))
utf8_follow b =
    if ltb b 0x80
    then some []
    else if leb 0xc2 b && leb b 0xdf
    then some ((0x80, 0xbf) ∷ [])
    else if b == 0xe0
    then some ((0xa0, 0xbf) ∷ (0x80, 0xbf) ∷ [])
    else if b == 0xed
    then some ((0x80, 0x9f) ∷ (0x80, 0xbf) ∷ [])
    else if leb 0xe1 b && leb b 0xef
    then some ((0x80, 0xbf) ∷ (0x80, 0xbf) ∷ [])
    else if b == 0xf0
    then some ((0x90, 0xbf) ∷ (0x80, 0xbf) ∷ (0x80, 0xbf) ∷ [])
    else if leb 0xf1 b && leb b 0xf3
    then some ((0x80, 0xbf) ∷ (0x80, 0xbf) ∷ (0x80, 0xbf) ∷ [])
    else if b == 0xf4
    then some ((0x80, 0x8f) ∷ (0x80, 0xbf) ∷ (0x80, 0xbf) ∷ [])
    else none

abbrev follow_or : {A : Type 0} → Option A → (A → Bool) → Bool
follow_or none next = false
follow_or (some a) next = next a

abbrev pub utf8_from : List (ℕ × ℕ) → List ℕ → Bool
utf8_from [] [] = true
utf8_from (range ∷ ranges) [] = false
utf8_from (range ∷ ranges) (b ∷ bs) = leb range.0 b && leb b range.1 && utf8_from ranges bs
utf8_from [] (b ∷ bs) = follow_or (utf8_follow b) λ ranges. utf8_from ranges bs

abbrev pub valid_utf8 : List ℕ → Bool
valid_utf8 bytes = utf8_from [] bytes

abbrev empty_mark : List ℕ → Bool
empty_mark (a ∷ b ∷ rest) = a == 0 && b == 0x80
empty_mark _ = false

abbrev after_two : List ℕ → List ℕ
after_two (a ∷ b ∷ rest) = rest
after_two _ = []

-- `decodeSunSpecString`, on the words and their bytes.
unfoldable pub string_value : SunSpecPointType → List ℕ → List ℕ → SunSpecValue
unfolding bare_value
string_value point_type words bytes =
    let invalid = bare_value point_type words invalid_encoding in
    if all_zero bytes
    then bare_value point_type words not_implemented
    else if empty_mark bytes
    then (if all_zero (after_two bytes)
        then record invalid { state = valid; text = some [] }
        else invalid)
    else if not (all_zero (from_zero bytes)) || not (valid_utf8 (before_zero bytes))
    then invalid
    else record invalid { state = valid; text = some (before_zero bytes) }

unfoldable pub decode_string : SunSpecPointDefinition → List ℕ → SunSpecValue
unfolding string_value
decode_string def words = string_value def.point_type words (word_bytes words)

-- `value.state = SunSpecValueValid` and the scaling at the end of `decodeSunSpecValue`.
abbrev is_scaled : SunSpecPointDefinition → Bool
is_scaled def =
    not (length def.scale_factor == 0) || elim def.fixed_scale [ some s ↦ true | none ↦ false ]

unfoldable pub finish : SunSpecPointDefinition → Option SunSpecValue → SunSpecValue → SunSpecValue
unfolding apply_scale
finish def scale value =
    if is_scaled def
    then apply_scale (record value { state = valid }) scale
    else record value { state = valid }

-- The switch of `decodeSunSpecValue`. `none` is Go's panic on a word that a definition of too small a
-- size leaves out.
unfoldable pub decode_as :
    SunSpecPointDefinition
    → List ℕ
    → Option SunSpecValue
    → SunSpecPointType
    → List ℕ
    → Option SunSpecValue
unfolding bare_value finish set_bitfield decode_string
decode_as def words scale int16 (w ∷ ws) = some (
    if w == 0x8000
    then bare_value def.point_type words not_implemented
    else finish def scale
        (record (bare_value def.point_type words valid) { signed = some (extend16 w) }))
decode_as def words scale int32 (a ∷ b ∷ ws) = some (
    if join2 a b == 0x8000_0000
    then bare_value def.point_type words not_implemented
    else finish def scale
        (record (bare_value def.point_type words valid) { signed = some (extend32 (join2 a b)) }))
decode_as def words scale uint16 (w ∷ ws) = some (
    if w == 0xffff
    then bare_value def.point_type words not_implemented
    else finish def scale (record (bare_value def.point_type words valid) { unsigned = some w }))
decode_as def words scale count (w ∷ ws) = some (
    if w == 0xffff
    then bare_value def.point_type words not_implemented
    else finish def scale (record (bare_value def.point_type words valid) { unsigned = some w }))
decode_as def words scale uint32 (a ∷ b ∷ ws) = some (
    if join2 a b == 0xffff_ffff
    then bare_value def.point_type words not_implemented
    else finish def scale
        (record (bare_value def.point_type words valid) { unsigned = some (join2 a b) }))
decode_as def words scale uint64 (a ∷ b ∷ c ∷ d ∷ ws) = some (
    if join4 a b c d == 2 ^ 64 - 1
    then bare_value def.point_type words not_implemented
    else finish def scale
        (record (bare_value def.point_type words valid) { unsigned = some (join4 a b c d) }))
decode_as def words scale acc32 (a ∷ b ∷ ws) = some (
    if join2 a b == 0
    then bare_value def.point_type words not_accumulated
    else finish def scale
        (record (bare_value def.point_type words valid) { unsigned = some (join2 a b) }))
decode_as def words scale acc64 (a ∷ b ∷ c ∷ d ∷ ws) = some (
    if join4 a b c d == 0
    then bare_value def.point_type words not_accumulated
    else finish def scale
        (record (bare_value def.point_type words valid) { unsigned = some (join4 a b c d) }))
decode_as def words scale sunssf (w ∷ ws) = some (
    if w == 0x8000
    then bare_value def.point_type words not_implemented
    else if ltb 10 w && ltb w (2 ^ 16 - 10)
    then bare_value def.point_type words invalid_encoding
    else finish def scale
        (record (bare_value def.point_type words valid) { signed = some (extend16 w) }))
decode_as def words scale float32_type (a ∷ b ∷ ws) = some (
    if join2 a b == 0x7fc0_0000
    then bare_value def.point_type words not_implemented
    else if not (finite32 (join2 a b))
    then bare_value def.point_type words invalid_encoding
    else finish def scale
        (record (bare_value def.point_type words valid) { float32 = some (join2 a b) }))
decode_as def words scale enum16 (w ∷ ws) = some (
    if w == 0xffff
    then bare_value def.point_type words not_implemented
    else finish def scale
        (record (bare_value def.point_type words valid) { enum = some (w, symbol w def.symbols) }))
decode_as def words scale bitfield16 (w ∷ ws) = some (
    if w == 0xffff
    then bare_value def.point_type words not_implemented
    else finish def scale (set_bitfield (bare_value def.point_type words valid) w def 15))
decode_as def words scale bitfield32 (a ∷ b ∷ ws) = some (
    if join2 a b == 0xffff_ffff
    then bare_value def.point_type words not_implemented
    else finish def scale (set_bitfield (bare_value def.point_type words valid) (join2 a b) def 31))
decode_as def words scale string_type ws = some (decode_string def words)
decode_as def words scale pad (w ∷ ws) = some (
    if not (w == 0x8000)
    then bare_value def.point_type words invalid_encoding
    else finish def scale (bare_value def.point_type words valid))
decode_as def words scale other_type ws = some (bare_value def.point_type words invalid_encoding)
decode_as def words scale _ _ = none

-- `decodeSunSpecValue`
unfoldable pub decode_value :
    SunSpecPointDefinition → List ℕ → Option SunSpecValue → Option SunSpecValue
unfolding bare_value decode_as
decode_value def words scale =
    if not (length words == def.size)
    then some (bare_value def.point_type words invalid_encoding)
    else decode_as def words scale def.point_type words
