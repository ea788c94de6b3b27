-- ===== src/Tesla/Wire/Message.antt =====
-- Protobuf messages as nested fields, their bytes and their keys.
use helianthus_modbusreg.Base.{ℕ, ◌+◌, ◌*◌, ◌^◌, ◌≤◌, ◌<◌, ◌≡◌, List, [], ◌∷◌, ◌++◌, length}
use helianthus_modbusreg.Tesla.Varint.{append_varint}
use helianthus_modbusreg.Tesla.Wire.{TeslaFc100WireEntry}
use helianthus_modbusreg.Tesla.Wire.Nesting.{entry}

-- A protobuf message: fields in order, and groups of fields.
mutual
  pub data WireField : Type 0 where
    varint_field : ℕ → ℕ → WireField
    fixed64_field fixed32_field bytes_field : ℕ → List ℕ → WireField
    group_field : ℕ → WireFields → WireField

  pub data WireFields : Type 0 where
    no_fields : WireFields
    and_field : WireField → WireFields → WireFields

-- Its bytes: each field's key and value, and the end key of a group.
abbrev pub key_bytes : ℕ → ℕ → List ℕ
key_bytes f t = append_varint [] (f * 8 + t)

abbrev mutual
  pub print_field : WireField → List ℕ
  print_field (varint_field f v) = key_bytes f 0 ++ append_varint [] v
  print_field (fixed64_field f bytes) = key_bytes f 1 ++ bytes
  print_field (bytes_field f bytes) = key_bytes f 2 ++ (append_varint [] (length bytes) ++ bytes)
  print_field (group_field f fields) = key_bytes f 3 ++ (print_fields fields ++ key_bytes f 4)
  print_field (fixed32_field f bytes) = key_bytes f 5 ++ bytes

  pub print_fields : WireFields → List ℕ
  print_fields no_fields = []
  print_fields (and_field x xs) = print_field x ++ print_fields xs

-- Its keys, in order.
abbrev mutual
  pub field_keys : WireField → List TeslaFc100WireEntry
  field_keys (varint_field f v) = entry f 0 ∷ []
  field_keys (fixed64_field f bytes) = entry f 1 ∷ []
  field_keys (bytes_field f bytes) = entry f 2 ∷ []
  field_keys (group_field f fields) = entry f 3 ∷ (fields_keys fields ++ (entry f 4 ∷ []))
  field_keys (fixed32_field f bytes) = entry f 5 ∷ []

  pub fields_keys : WireFields → List TeslaFc100WireEntry
  fields_keys no_fields = []
  fields_keys (and_field x xs) = field_keys x ++ fields_keys xs

abbrev pub IsNumber : ℕ → Type 0
IsNumber f = (1 ≤ f) × (f < 2 ^ 29)

-- Field numbers of 29 bits, numbers of 64 bits, and fixed values of their size.
abbrev mutual
  pub IsField : WireField → Type 0
  IsField (varint_field f v) = IsNumber f × (v < 2 ^ 64)
  IsField (fixed64_field f bytes) = IsNumber f × (length bytes ≡ 8)
  IsField (bytes_field f bytes) = IsNumber f × (length bytes < 2 ^ 64)
  IsField (group_field f fields) = IsNumber f × AreFields fields
  IsField (fixed32_field f bytes) = IsNumber f × (length bytes ≡ 4)

  pub AreFields : WireFields → Type 0
  AreFields no_fields = Unit
  AreFields (and_field x xs) = IsField x × AreFields xs
