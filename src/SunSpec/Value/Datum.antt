-- ===== src/SunSpec/Value/Datum.antt =====
-- The datum that a valid value carries is that of its point type.
use helianthus_modbusreg.Base.{
  ℕ, ◌-◌, ◌^◌, ltb, ◌≡◌, ◌≢◌, if◌then◌else◌, refl, subst, ◌∙◌, Bool, true, false, ◌&&◌, ◌||◌, not,
  Option, none, some, List, [], ◌∷◌, ◌==◌, length, Bool-cases, inl, inr, arith,
}
use helianthus_modbusreg.SunSpec.Value.{
  SunSpecPointType, int16, int32, uint16, uint32, uint64, acc32, acc64, count, enum16, bitfield16,
  bitfield32, string_type, float32_type, sunssf, pad, other_type, SunSpecValueState, valid,
  SunSpecValue, SunSpecPointDefinition, bare_value, set_bitfield, scale_by, apply_scale, finish,
  decode_as, string_value, decode_value, not_implemented, not_accumulated, invalid_encoding,
  extend16, extend32, symbol, join2, join4, finite32, word_bytes, all_zero, empty_mark, after_two,
  from_zero, before_zero, valid_utf8,
}

pub data Datum : Type 0 where
  signed_datum unsigned_datum float_datum text_datum enum_datum bits_datum no_datum : Datum

abbrev pub datum_of : SunSpecPointType → Datum
datum_of int16 = signed_datum
datum_of int32 = signed_datum
datum_of sunssf = signed_datum
datum_of uint16 = unsigned_datum
datum_of uint32 = unsigned_datum
datum_of uint64 = unsigned_datum
datum_of acc32 = unsigned_datum
datum_of acc64 = unsigned_datum
datum_of count = unsigned_datum
datum_of enum16 = enum_datum
datum_of bitfield16 = bits_datum
datum_of bitfield32 = bits_datum
datum_of string_type = text_datum
datum_of float32_type = float_datum
datum_of pad = no_datum
datum_of other_type = no_datum

abbrev is_some {ℓ} : {A : Type ℓ} → Option A → Bool
is_some (some a) = true
is_some none = false

-- The flags of a value: signed, unsigned, float, text, enum and bits.
abbrev pub flags : SunSpecValue → List Bool
flags v =
    is_some v.signed
    ∷ is_some v.unsigned
    ∷ is_some v.float32
    ∷ is_some v.text
    ∷ is_some v.enum
    ∷ is_some v.bits
    ∷ []

abbrev pub datum_flags : Datum → List Bool
datum_flags signed_datum = true ∷ false ∷ false ∷ false ∷ false ∷ false ∷ []
datum_flags unsigned_datum = false ∷ true ∷ false ∷ false ∷ false ∷ false ∷ []
datum_flags float_datum = false ∷ false ∷ true ∷ false ∷ false ∷ false ∷ []
datum_flags text_datum = false ∷ false ∷ false ∷ true ∷ false ∷ false ∷ []
datum_flags enum_datum = false ∷ false ∷ false ∷ false ∷ true ∷ false ∷ []
datum_flags bits_datum = false ∷ false ∷ false ∷ false ∷ false ∷ true ∷ []
datum_flags no_datum = false ∷ false ∷ false ∷ false ∷ false ∷ false ∷ []

scale_by-flags :
    (v : SunSpecValue) (factor : ℕ) (s u : Option ℕ)
    → (flags (scale_by v factor s u) ≡ flags v) × ((scale_by v factor s u).raw ≡ v.raw)
unfolding scale_by
scale_by-flags v factor s u = ground arith

apply_scale-flags :
    (v : SunSpecValue) (scale : Option SunSpecValue)
    → (flags (apply_scale v scale) ≡ flags v) × ((apply_scale v scale).raw ≡ v.raw)
unfolding apply_scale
apply_scale-flags v none = (refl, refl)
apply_scale-flags v (some scale) = ground (arith, scale_by-flags v)

finish-flags :
    (def : SunSpecPointDefinition) (scale : Option SunSpecValue) (v : SunSpecValue)
    → (flags (finish def scale v) ≡ flags v) × ((finish def scale v).raw ≡ v.raw)
unfolding finish
finish-flags def scale v = ground (arith, apply_scale-flags (record v { state = valid }) scale)

-- The datum of a valid value.
abbrev IsDatum : SunSpecPointType → List ℕ → SunSpecValue → Type 0
IsDatum t words v = v.state ≡ valid → (flags v ≡ datum_flags (datum_of t)) × (v.raw ≡ words)

abbrev AllDatum : SunSpecPointType → List ℕ → Option SunSpecValue → Type 0
AllDatum t words none = Unit
AllDatum t words (some v) = IsDatum t words v

bare-IsDatum :
    (t : SunSpecPointType) (u : SunSpecPointType) (words : List ℕ) (s : SunSpecValueState)
    → s ≢ valid
    → IsDatum t words (bare_value u words s)
unfolding bare_value
bare-IsDatum t u words s h j = absurd (h j)

finish-IsDatum :
    (def : SunSpecPointDefinition) (scale : Option SunSpecValue) (t : SunSpecPointType)
    (words : List ℕ) (v : SunSpecValue)
    → flags v ≡ datum_flags (datum_of t)
    → v.raw ≡ words
    → IsDatum t words (finish def scale v)
finish-IsDatum def scale t words v f r j =
    let (same, kept) = finish-flags def scale v in (same ∙ f, kept ∙ r)

choose :
    (t : SunSpecPointType) (words : List ℕ) (b : Bool) (x y : SunSpecValue)
    → IsDatum t words x
    → IsDatum t words y
    → IsDatum t words (if b then x else y)
choose t words true x y h j = h
choose t words false x y h j = j

implemented : not_implemented ≢ valid
implemented h = cc h

accumulated : not_accumulated ≢ valid
accumulated h = cc h

encoded : invalid_encoding ≢ valid
encoded h = cc h

module _ (def : SunSpecPointDefinition) (words : List ℕ) (scale : Option SunSpecValue) where
  abbrev bare : SunSpecValue
  bare = bare_value def.point_type words valid

  -- A sentinel, or a datum that is finished.
  abbrev unless :
      (t : SunSpecPointType) (b : Bool) (s : SunSpecValueState) (v : SunSpecValue)
      → s ≢ valid
      → flags v ≡ datum_flags (datum_of t)
      → v.raw ≡ words
      → IsDatum t words (if b then bare_value def.point_type words s else finish def scale v)
  unless t b s v h f r =
      choose t words b (bare_value def.point_type words s) (finish def scale v)
        (bare-IsDatum t def.point_type words s h) (finish-IsDatum def scale t words v f r)

  text_datum_of :
      (bytes : List ℕ) → IsDatum string_type words (string_value def.point_type words bytes)
  unfolding string_value bare_value
  text_datum_of bytes =
      choose string_type words (all_zero bytes) _ _
        (bare-IsDatum string_type def.point_type words not_implemented implemented)
        (choose string_type words (empty_mark bytes) _ _
          (choose string_type words (all_zero (after_two bytes)) _ _ (λ j. (refl, refl))
            (bare-IsDatum string_type def.point_type words invalid_encoding encoded))
          (choose string_type words
            (not (all_zero (from_zero bytes)) || not (valid_utf8 (before_zero bytes))) _ _
            (bare-IsDatum string_type def.point_type words invalid_encoding encoded)
            (λ j. (refl, refl))))

  decode_as-AllDatum :
      (t : SunSpecPointType) (ws : List ℕ) → AllDatum t words (decode_as def words scale t ws)
  unfolding decode_as bare_value set_bitfield
  decode_as-AllDatum int16 [] = tt
  decode_as-AllDatum int16 (w ∷ ws) =
      unless int16 (w == 0x8000) not_implemented (record bare { signed = some (extend16 w) })
        implemented refl refl
  decode_as-AllDatum int32 [] = tt
  decode_as-AllDatum int32 (a ∷ []) = tt
  decode_as-AllDatum int32 (a ∷ b ∷ ws) =
      unless int32 (join2 a b == 0x8000_0000) not_implemented
        (record bare { signed = some (extend32 (join2 a b)) }) implemented refl refl
  decode_as-AllDatum uint16 [] = tt
  decode_as-AllDatum uint16 (w ∷ ws) =
      unless uint16 (w == 0xffff) not_implemented (record bare { unsigned = some w }) implemented
        refl refl
  decode_as-AllDatum uint32 [] = tt
  decode_as-AllDatum uint32 (a ∷ []) = tt
  decode_as-AllDatum uint32 (a ∷ b ∷ ws) =
      unless uint32 (join2 a b == 0xffff_ffff) not_implemented
        (record bare { unsigned = some (join2 a b) }) implemented refl refl
  decode_as-AllDatum uint64 [] = tt
  decode_as-AllDatum uint64 (a ∷ []) = tt
  decode_as-AllDatum uint64 (a ∷ b ∷ []) = tt
  decode_as-AllDatum uint64 (a ∷ b ∷ c ∷ []) = tt
  decode_as-AllDatum uint64 (a ∷ b ∷ c ∷ d ∷ ws) =
      unless uint64 (join4 a b c d == 2 ^ 64 - 1) not_implemented
        (record bare { unsigned = some (join4 a b c d) }) implemented refl refl
  decode_as-AllDatum acc32 [] = tt
  decode_as-AllDatum acc32 (a ∷ []) = tt
  decode_as-AllDatum acc32 (a ∷ b ∷ ws) =
      unless acc32 (join2 a b == 0) not_accumulated (record bare { unsigned = some (join2 a b) })
        accumulated refl refl
  decode_as-AllDatum acc64 [] = tt
  decode_as-AllDatum acc64 (a ∷ []) = tt
  decode_as-AllDatum acc64 (a ∷ b ∷ []) = tt
  decode_as-AllDatum acc64 (a ∷ b ∷ c ∷ []) = tt
  decode_as-AllDatum acc64 (a ∷ b ∷ c ∷ d ∷ ws) =
      unless acc64 (join4 a b c d == 0) not_accumulated
        (record bare { unsigned = some (join4 a b c d) }) accumulated refl refl
  decode_as-AllDatum count [] = tt
  decode_as-AllDatum count (w ∷ ws) =
      unless count (w == 0xffff) not_implemented (record bare { unsigned = some w }) implemented
        refl refl
  decode_as-AllDatum enum16 [] = tt
  decode_as-AllDatum enum16 (w ∷ ws) =
      unless enum16 (w == 0xffff) not_implemented
        (record bare { enum = some (w, symbol w def.symbols) }) implemented refl refl
  decode_as-AllDatum bitfield16 [] = tt
  decode_as-AllDatum bitfield16 (w ∷ ws) =
      unless bitfield16 (w == 0xffff) not_implemented (set_bitfield bare w def 15) implemented refl
        refl
  decode_as-AllDatum bitfield32 [] = tt
  decode_as-AllDatum bitfield32 (a ∷ []) = tt
  decode_as-AllDatum bitfield32 (a ∷ b ∷ ws) =
      unless bitfield32 (join2 a b == 0xffff_ffff) not_implemented
        (set_bitfield bare (join2 a b) def 31) implemented refl refl
  decode_as-AllDatum string_type ws = text_datum_of (word_bytes words)
  decode_as-AllDatum float32_type [] = tt
  decode_as-AllDatum float32_type (a ∷ []) = tt
  decode_as-AllDatum float32_type (a ∷ b ∷ ws) =
      choose float32_type words (join2 a b == 0x7fc0_0000) _ _
        (bare-IsDatum float32_type def.point_type words not_implemented implemented)
        (unless float32_type (not (finite32 (join2 a b))) invalid_encoding
          (record bare { float32 = some (join2 a b) }) encoded refl refl)
  decode_as-AllDatum sunssf [] = tt
  decode_as-AllDatum sunssf (w ∷ ws) =
      choose sunssf words (w == 0x8000) _ _
        (bare-IsDatum sunssf def.point_type words not_implemented implemented)
        (unless sunssf (ltb 10 w && ltb w (2 ^ 16 - 10)) invalid_encoding
          (record bare { signed = some (extend16 w) }) encoded refl refl)
  decode_as-AllDatum pad [] = tt
  decode_as-AllDatum pad (w ∷ ws) =
      unless pad (not (w == 0x8000)) invalid_encoding bare encoded refl refl
  decode_as-AllDatum other_type ws =
      bare-IsDatum other_type def.point_type words invalid_encoding encoded

  valid_datum :
      (v : SunSpecValue) → decode_value def words scale ≡ some v → IsDatum def.point_type words v
  unfolding decode_value
  valid_datum v h = elim (Bool-cases (length words == def.size)) [
    | inl sized ↦
        let read : decode_as def words scale def.point_type words ≡ some v =
          grind (arith, sized, h) in
        subst (AllDatum def.point_type words) read (decode_as-AllDatum def.point_type words)
    | inr missized ↦
        let made : bare_value def.point_type words invalid_encoding ≡ v =
          grind (arith, missized, h) in
        subst (IsDatum def.point_type words) made
          (bare-IsDatum def.point_type def.point_type words invalid_encoding encoded)
  ]

-- A value that is decoded as valid, scaled or not, carries the datum of its point type and no other,
-- and keeps the words it was decoded from.
pub decode_value-datum_flags :
    (def : SunSpecPointDefinition) (words : List ℕ) (scale : Option SunSpecValue) (v : SunSpecValue)
    → decode_value def words scale ≡ some v
    → v.state ≡ valid
    → (flags v ≡ datum_flags (datum_of def.point_type)) × (v.raw ≡ words)
decode_value-datum_flags def words scale v h state = valid_datum def words scale v h state
