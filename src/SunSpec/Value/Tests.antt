-- ===== src/SunSpec/Value/Tests.antt =====
-- Values at concrete words.
use helianthus_modbusreg.Base.{
  ◌-◌, ◌^◌, ◌≡◌, refl, none, some, [], ◌∷◌, ◌++◌, replicate, All, arith,
}
use helianthus_modbusreg.Base.Bytes.{ascii}
use helianthus_modbusreg.SunSpec.Value.{
  string_type, int16, sunssf, valid, not_implemented, SunSpecValue, SunSpecPointDefinition,
  bare_value, decode_value,
}
use helianthus_modbusreg.SunSpec.Value.Text.{pack, IsLetter, decode_value-pack}
use helianthus_modbusreg.SunSpec.Value.Datum.{
  flags, datum_flags, datum_of, decode_value-datum_flags,
}

abbrev text_point : SunSpecPointDefinition
text_point = record {
  point_type = string_type;
  size = 3;
  scale_factor = [];
  fixed_scale = none;
  symbols = [];
  known_mask = 0;
}

letters : All IsLetter (ascii "abc")
letters =
    ((omega arith, omega arith), ((omega arith, omega arith), ((omega arith, omega arith), tt)))

decode_value-pack_example :
    decode_value text_point (pack (ascii "abc") ++ replicate 1 0) none
    ≡ some (record (bare_value string_type (pack (ascii "abc") ++ replicate 1 0) valid) {
      text = some (ascii "abc");
    })
decode_value-pack_example =
    decode_value-pack text_point (ascii "abc") 1 none refl refl (omega arith) letters refl

-- The point W of -2 with the scale factor -1, and the sentinel.
abbrev watt_point : SunSpecPointDefinition
watt_point = record text_point { point_type = int16; size = 1; scale_factor = ascii "W_SF" }

abbrev minus_one : SunSpecValue
minus_one = record (bare_value sunssf (0xffff ∷ []) valid) { signed = some (2 ^ 64 - 1) }

abbrev watts : SunSpecValue
watts = record (bare_value int16 (0xfffe ∷ []) valid) {
  signed = some (2 ^ 64 - 2);
  decimal = some (record { coefficient = 2 ^ 64 - 2; exponent = 2 ^ 16 - 1 });
}

decodes_watts : decode_value watt_point (0xfffe ∷ []) (some minus_one) ≡ some watts
unfolding decode_value
decodes_watts = refl

decodes_sentinel :
    decode_value watt_point (0x8000 ∷ []) (some minus_one)
    ≡ some (bare_value int16 (0x8000 ∷ []) not_implemented)
unfolding decode_value
decodes_sentinel = refl

watts_valid : watts.state ≡ valid
unfolding bare_value
watts_valid = refl

decode_value-datum_flags_example :
    (flags watts ≡ datum_flags (datum_of int16)) × (watts.raw ≡ 0xfffe ∷ [])
decode_value-datum_flags_example =
    decode_value-datum_flags watt_point (0xfffe ∷ []) (some minus_one) watts decodes_watts
      watts_valid
