-- ===== src/SunSpec/Value/Text.antt =====
-- Text that is packed into words is decoded.
use helianthus_modbusreg.Base.{
  ℕ, zero, suc, ◌+◌, ◌*◌, ◌/◌, ◌%◌, ◌≤◌, ◌<◌, ◌≡◌, refl, ap, ◌∙◌, true, false, Option, some, List,
  [], ◌∷◌, ◌++◌, ◌==◌, length, length-append, length-replicate, replicate, All, arith,
}
use helianthus_modbusreg.SunSpec.Value.{
  SunSpecPointType, string_type, valid, SunSpecValue, SunSpecPointDefinition, bare_value,
  word_bytes, all_zero, before_zero, from_zero, valid_utf8, empty_mark, string_value, decode_string,
  decode_as, decode_value,
}

-- Two bytes in each word, the last one filled with a zero byte.
abbrev pub pack : List ℕ → List ℕ
pack [] = []
pack (a ∷ []) = (a * 256) ∷ []
pack (a ∷ b ∷ rest) = (a * 256 + b) ∷ pack rest

-- A byte of text: not zero.
abbrev pub IsLetter : ℕ → Type 0
IsLetter b = (1 ≤ b) × (b < 256)

zeros_bytes : (k : ℕ) → all_zero (word_bytes (replicate k 0)) ≡ true
zeros_bytes zero = refl
zeros_bytes (suc k) = zeros_bytes k

-- The bytes of the packed text: the text, then only zeros.
word_bytes-pack :
    (text : List ℕ) (k : ℕ)
    → All IsLetter text
    → (rest : List ℕ) × (word_bytes (pack text ++ replicate k 0) ≡ text ++ rest)
      × (all_zero rest ≡ true)
word_bytes-pack [] k h = (word_bytes (replicate k 0), refl, zeros_bytes k)
word_bytes-pack (a ∷ []) k h =
    let high : a * 256 / 256 % 256 ≡ a = omega (arith, h) in
    let low : a * 256 % 256 ≡ 0 = omega arith in
    (
      0 ∷ word_bytes (replicate k 0),
      ap (λ x. x ∷ (a * 256 % 256) ∷ word_bytes (replicate k 0)) high
          ∙ ap (λ x. a ∷ x ∷ word_bytes (replicate k 0)) low,
      zeros_bytes k,
    )
word_bytes-pack (a ∷ b ∷ text) k h =
    let (rest, same, zero_rest) = word_bytes-pack text k h.1.1 in
    let high : (a * 256 + b) / 256 % 256 ≡ a = omega (arith, h) in
    let low : (a * 256 + b) % 256 ≡ b = omega (arith, h) in
    (
      rest,
      ap (λ x. x ∷ ((a * 256 + b) % 256) ∷ word_bytes (pack text ++ replicate k 0)) high
          ∙ ap (λ x. a ∷ x ∷ word_bytes (pack text ++ replicate k 0)) low
          ∙ ap (λ l. a ∷ b ∷ l) same,
      zero_rest,
    )

before_zero-zeros : (rest : List ℕ) → all_zero rest ≡ true → before_zero rest ≡ []
before_zero-zeros [] h = refl
before_zero-zeros (b ∷ bs) h = ground arith

from_zero-zeros : (rest : List ℕ) → all_zero rest ≡ true → from_zero rest ≡ rest
from_zero-zeros [] h = refl
from_zero-zeros (b ∷ bs) h = ground arith

text_end :
    (text rest : List ℕ)
    → All IsLetter text
    → all_zero rest ≡ true
    → (before_zero (text ++ rest) ≡ text) × (from_zero (text ++ rest) ≡ rest)
text_end [] rest h z = (before_zero-zeros rest z, from_zero-zeros rest z)
text_end (a ∷ text) rest h z =
    let (before, after) = text_end text rest h.1 z in
    let letter : (a == 0) ≡ false = ground (arith, h) in
    (grind (arith, letter, before), grind (arith, letter, after))

no_mark : (a : ℕ) (xs : List ℕ) → (a == 0) ≡ false → empty_mark (a ∷ xs) ≡ false
no_mark a [] h = refl
no_mark a (b ∷ xs) h = ground arith

string_value_ok :
    (t : SunSpecPointType) (words bytes text : List ℕ)
    → all_zero bytes ≡ false
    → empty_mark bytes ≡ false
    → all_zero (from_zero bytes) ≡ true
    → valid_utf8 (before_zero bytes) ≡ true
    → before_zero bytes ≡ text
    → string_value t words bytes ≡ record (bare_value t words valid) { text = some text }
unfolding string_value bare_value
string_value_ok t words bytes text some_byte unmarked zeros fine same =
    simp (some_byte, unmarked, zeros, fine)
      (ap (λ x. record (bare_value t words valid) { text = some x }) same)

string_value-text :
    (t : SunSpecPointType) (words : List ℕ) (a : ℕ) (text rest : List ℕ)
    → All IsLetter (a ∷ text)
    → valid_utf8 (a ∷ text) ≡ true
    → all_zero rest ≡ true
    → string_value t words ((a ∷ text) ++ rest)
      ≡ record (bare_value t words valid) { text = some (a ∷ text) }
string_value-text t words a text rest h utf z =
    let letter : (a == 0) ≡ false = ground (arith, h.0) in
    let (before, after) = text_end (a ∷ text) rest h z in
    let zeros : all_zero (from_zero ((a ∷ text) ++ rest)) ≡ true = ap all_zero after ∙ z in
    let fine : valid_utf8 (before_zero ((a ∷ text) ++ rest)) ≡ true = ap valid_utf8 before ∙ utf in
    let some_byte : all_zero (a ∷ (text ++ rest)) ≡ false = ground (arith, letter) in
    string_value_ok t words (a ∷ (text ++ rest)) (a ∷ text) some_byte
      (no_mark a (text ++ rest) letter) zeros fine before

string_decodes :
    (def : SunSpecPointDefinition) (words : List ℕ) (scale : Option SunSpecValue) (v : SunSpecValue)
    → (length words == def.size) ≡ true
    → def.point_type ≡ string_type
    → string_value string_type words (word_bytes words) ≡ v
    → decode_value def words scale ≡ some v
unfolding decode_value decode_as decode_string
string_decodes def words scale v long t value = simp (long, t) (ap some value)

-- Text of letters in valid UTF-8, packed into the words of a string point and filled up with zero
-- words, is decoded to that text, whatever the scale.
pub decode_value-pack :
    (def : SunSpecPointDefinition) (text : List ℕ) (k : ℕ) (scale : Option SunSpecValue)
    → def.point_type ≡ string_type
    → def.size ≡ length (pack text) + k
    → 1 ≤ length text
    → All IsLetter text
    → valid_utf8 text ≡ true
    → decode_value def (pack text ++ replicate k 0) scale
      ≡ some
          (record (bare_value string_type (pack text ++ replicate k 0) valid) { text = some text })
decode_value-pack def [] k scale t size some_text h utf = absurd (omega (arith, some_text))
decode_value-pack def (a ∷ text) k scale t size some_text h utf =
    let words : List ℕ = pack (a ∷ text) ++ replicate k 0 in
    let (rest, bytes, zero_rest) = word_bytes-pack (a ∷ text) k h in
    let long : (length words == def.size) ≡ true = ground (
      arith,
      length-append (pack (a ∷ text)) (replicate k 0),
      length-replicate {A = ℕ} k 0,
      size,
    ) in
    let value =
      ap (string_value string_type words) bytes
      ∙ string_value-text string_type words a text rest h utf zero_rest in
    string_decodes def words scale _ long t value
