-- ===== src/Tesla/Wire.antt =====
-- tesla_fc100_tedapi.go: the protobuf keys of a message.
pub mod Nesting
pub mod Termination
pub mod Message
pub mod Rounds
pub mod RoundTrip
use helianthus_modbusreg.Base.{
  ℕ, zero, suc, ◌+◌, ◌-◌, ◌/◌, ◌%◌, ◌^◌, ◌||◌, not, Bool, true, false, Option, none, some, List, [],
  ◌∷◌, Result, ok, err, ltb, leb, ◌==◌, if◌then◌else◌, ◌>>=◌, ◌>>◌, refuse_if, length, drop,
}
use helianthus_modbusreg.Base.Bytes.{same_bytes}
use helianthus_modbusreg.Tesla.Varint.{VarintError, decode_tedapi_varint}
use helianthus_modbusreg.Tesla.Envelope.{HscError, function_100, decode_hsc_envelope}
use helianthus_modbusreg.Tesla.Operation.{
  TeslaFc100Operation, common_system_info, wc_get_vitals, wc_get_lifetime_stats,
  wc_configure_settings, wc_get_system_info, wc_get_load_sharing_state, wc_set_provisional,
  wc_get_provisional, unlisted, OperationError, operation_specs, operation_compatibility, map_error,
  or_refuse, build_request,
}

-- `maxTeslaFC100TEDAPIWireEntries`
abbrev pub max_wire_entries : ℕ
max_wire_entries = 64

pub record TeslaFc100WireEntry : Type 0 where
  pub field_number : ℕ
  pub wire_type : ℕ

-- `stuck` is no error of the code: the loop ran out of rounds.
pub data WireError : Type 0 where
  varint : VarintError → WireError
  key_invalid entry_count_exceeds_bound fixed64_truncated delimited_truncated : WireError
  group_boundary_invalid fixed32_truncated group_boundary_truncated stuck : WireError

-- The bytes after a value of `n` bytes.
abbrev skip : ℕ → WireError → List ℕ → Result WireError (List ℕ)
skip n refusal rest = refuse_if (ltb (length rest) n) refusal >> ok (drop n rest)

abbrev pub close_group : ℕ → List ℕ → Result WireError (List ℕ)
close_group field [] = err group_boundary_invalid
close_group field (innermost ∷ groups) =
    refuse_if (not (innermost == field)) group_boundary_invalid >> ok groups

-- The switch on the wire type: the bytes after the value, and the groups that are open.
unfoldable pub wire_value : ℕ → ℕ → List ℕ → List ℕ → Result WireError (List ℕ × List ℕ)
wire_value field wire_type rest groups =
    if wire_type == 0
    then (map_error varint (decode_tedapi_varint rest) >>= λ value. ok (drop value.1 rest, groups))
    else if wire_type == 1
    then (skip 8 fixed64_truncated rest >>= λ after. ok (after, groups))
    else if wire_type == 2
    then (map_error varint (decode_tedapi_varint rest) >>= λ value.
        (skip value.0 delimited_truncated (drop value.1 rest) >>= λ after. ok (after, groups)))
    else if wire_type == 3
    then ok (rest, field ∷ groups)
    else if wire_type == 4
    then (close_group field groups >>= λ outer. ok (rest, outer))
    else (skip 4 fixed32_truncated rest >>= λ after. ok (after, groups))

abbrev pub no_groups : List ℕ → Bool
no_groups [] = true
no_groups (innermost ∷ groups) = false

-- The loop, on the bytes from `offset` on: `count` is `len(entries)`, and the entries from here on
-- are returned. A round reads a byte at least.
unfoldable pub wire_loop : ℕ → List ℕ → ℕ → List ℕ → Result WireError (List TeslaFc100WireEntry)
unfolding wire_value
wire_loop rounds [] count groups =
    refuse_if (not (no_groups groups)) group_boundary_truncated >> ok []
wire_loop zero (octet ∷ octets) count groups = err stuck
wire_loop (suc rounds) (octet ∷ octets) count groups =
    map_error varint (decode_tedapi_varint (octet ∷ octets)) >>= λ key.
    refuse_if (key.0 / 8 == 0 || ltb (2 ^ 29 - 1) (key.0 / 8) || ltb 5 (key.0 % 8)) key_invalid
    >> refuse_if (count == max_wire_entries) entry_count_exceeds_bound
    >> (wire_value (key.0 / 8) (key.0 % 8) (drop key.1 (octet ∷ octets)) groups >>= λ after.
        (wire_loop rounds after.0 (count + 1) after.1 >>= λ entries.
        ok (record { field_number = key.0 / 8; wire_type = key.0 % 8 } ∷ entries)))

-- `decodeTeslaFC100TEDAPIWireEntries`
unfoldable pub decode_wire_entries : List ℕ → Result WireError (List TeslaFc100WireEntry)
unfolding wire_loop
decode_wire_entries message = wire_loop (length message) message 0 []
