-- ===== src/Tesla/Field.antt =====
-- tesla_fc100_wc_vitals.go and tesla_fc100_operation.go: one length-delimited protobuf field.
pub mod RoundTrip
use Prim.Native.Nat.{bit_or}
use helianthus_modbusreg.Base.{
  ℕ, ◌+◌, ◌-◌, ◌*◌, ◌%◌, ◌^◌, ◌||◌, not, List, [], ◌++◌, Result, ok, err, ltb, ◌==◌, ◌>>=◌, ◌>>◌,
  refuse_if, length, drop,
}
use helianthus_modbusreg.Tesla.Varint.{VarintError, decode_fc100_varint, append_varint}

pub data FieldError : Type 0 where
  expected_field length_invalid : FieldError

-- `result, width, err := decodeTeslaFC100Varint(..)` under an `if err != nil`.
abbrev pub or_error {ℓ κ} : {A : Type ℓ} {F : Type κ} → Result VarintError A → F → Result F A
or_error (ok value) e = ok value
or_error (err refusal) e = err e

-- `fieldNumber<<3|2`
abbrev pub delimited_key : ℕ → ℕ
delimited_key field_number = bit_or (field_number * 8 % 2 ^ 64) 2

-- `decodeExactLengthDelimitedField`
unfoldable pub decode_exact_field : List ℕ → ℕ → Result FieldError (List ℕ)
decode_exact_field message field_number =
    or_error (decode_fc100_varint message) expected_field >>= λ key.
    refuse_if (not (key.0 == delimited_key field_number)) expected_field
    >> (or_error (decode_fc100_varint (drop key.1 message)) length_invalid >>= λ len.
        refuse_if
          (ltb (length message - key.1 - len.1) len.0
            || not (len.0 == length message - key.1 - len.1))
          length_invalid
        >> ok (drop (key.1 + len.1) message))

-- The key, the length and the bytes that `BuildTeslaFC100OperationRequest` appends for one field.
unfoldable pub append_field : ℕ → List ℕ → List ℕ
append_field tag body =
    append_varint (append_varint [] (delimited_key tag)) (length body % 2 ^ 64) ++ body
