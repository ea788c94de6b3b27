-- ===== src/Tesla/Operation.antt =====
-- tesla_fc100_operation.go: the requests of the FC100 operations and the sequences that answer them.
pub mod Sequence
pub mod RoundTrip
use helianthus_modbusreg.Base.{
  ℕ, ◌+◌, ◌%◌, Bool, true, false, ◌||◌, not, Option, none, some, List, [], ◌∷◌, ◌++◌, Result, ok,
  err, ltb, ◌==◌, if◌then◌else◌, ◌>>=◌, ◌>>◌, refuse_if, length, drop,
}
use helianthus_modbusreg.Base.Bytes.{ascii, same_bytes}
use helianthus_modbusreg.Tesla.Varint.{VarintError, decode_fc100_varint}
use helianthus_modbusreg.Tesla.Field.{FieldError, decode_exact_field, append_field}
use helianthus_modbusreg.Tesla.Envelope.{
  function_100, HscError, TeslaHscEnvelope, TeslaHscResponse, decode_hsc_envelope,
  decode_hsc_response,
}

-- The named operations; the last stands for every other string.
pub data TeslaFc100Operation : Type 0 where
  common_system_info wc_get_vitals wc_get_lifetime_stats wc_configure_settings : TeslaFc100Operation
  wc_get_system_info wc_get_load_sharing_state wc_set_provisional : TeslaFc100Operation
  wc_get_provisional unlisted : TeslaFc100Operation

pub record OperationSpec : Type 0 where
  pub family : ℕ
  pub request_tag : ℕ
  pub response_tag : ℕ

abbrev spec : ℕ → ℕ → ℕ → Option OperationSpec
spec family request_tag response_tag =
    some (record { family = family; request_tag = request_tag; response_tag = response_tag })

-- `teslaFC100OperationSpecs`
unfoldable pub operation_specs : TeslaFc100Operation → Option OperationSpec
operation_specs common_system_info = spec 4 2 3
operation_specs wc_get_vitals = spec 6 1 2
operation_specs wc_get_lifetime_stats = spec 6 3 4
operation_specs wc_configure_settings = spec 6 7 8
operation_specs wc_get_system_info = spec 6 9 10
operation_specs wc_get_load_sharing_state = spec 6 11 12
operation_specs wc_set_provisional = spec 6 25 26
operation_specs wc_get_provisional = spec 6 27 28
operation_specs unlisted = none

pub data TeslaFc100OperationResult : Type 0 where
  intermediate : TeslaFc100OperationResult
  terminal : List ℕ → TeslaFc100OperationResult
  application_error : ℕ → TeslaFc100OperationResult

pub data OperationError : Type 0 where
  compatibility_unsupported operation_unsupported message_exceeds_bound : OperationError
  sequence_invalid echo_follows_terminal multiple_terminals no_terminal : OperationError
  framing : HscError → OperationError
  envelope_field terminal_field : FieldError → OperationError
  transport : OperationError

abbrev pub map_error {ℓ κ μ} :
    {A : Type ℓ} {E : Type κ} {F : Type μ} → (E → F) → Result E A → Result F A
map_error wrap (ok value) = ok value
map_error wrap (err refusal) = err (wrap refusal)

-- A comma-ok lookup and the error for a missing key.
abbrev pub or_refuse {ℓ κ} : {A : Type ℓ} {F : Type κ} → Option A → F → Result F A
or_refuse (some value) refusal = ok value
or_refuse none refusal = err refusal

-- `TeslaHSCFC100OperationCompatibilityV1`
abbrev pub operation_compatibility : List ℕ
operation_compatibility = ascii "wc3_24_44_3"

-- The nested message: the request field inside the family field.
unfoldable pub operation_message : OperationSpec → List ℕ → List ℕ
operation_message s body = append_field s.family (append_field s.request_tag body)

-- `modbus.NewPrivateFunctionRequest` is the constructor of the Modbus library.
module _ {ℓ} {Request : Type ℓ} (new_request : ℕ → List ℕ → Result OperationError Request) where
  -- `BuildTeslaFC100OperationRequest`
  unfoldable pub build_request :
      List ℕ → TeslaFc100Operation → List ℕ → Result OperationError Request
  unfolding operation_message operation_specs
  build_request version operation body =
      refuse_if (not (same_bytes version operation_compatibility)) compatibility_unsupported
      >> (or_refuse (operation_specs operation) operation_unsupported >>= λ s.
          refuse_if (ltb 251 (length (operation_message s body))) message_exceeds_bound
          >> new_request function_100
              ((length (operation_message s body) % 256) ∷ operation_message s body))

-- `decodeTeslaFC100ApplicationError`: `none` is its `false`.
abbrev status_of : List ℕ → ℕ × ℕ → Option ℕ
status_of body key =
    if not (key.0 == 8) then none else elim (decode_fc100_varint (drop key.1 body)) [
      | ok (status, consumed) ↦ if key.1 + consumed == length body then some status else none
      | err e ↦ none
    ]

abbrev ok_value {ℓ κ} : {A : Type ℓ} {E : Type κ} → Result E A → Option A
ok_value (ok value) = some value
ok_value (err refusal) = none

abbrev and_then {ℓ κ} : {A : Type ℓ} {B : Type κ} → Option A → (A → Option B) → Option B
and_then none next = none
and_then (some value) next = next value

unfoldable pub decode_application_error : List ℕ → Option ℕ
decode_application_error message = and_then (ok_value (decode_exact_field message 4)) λ common.
    and_then (ok_value (decode_exact_field common 1))
      λ body. and_then (ok_value (decode_fc100_varint body)) (status_of body)

-- The family field and the response field of a terminal answer.
unfoldable pub decode_terminal :
    OperationSpec → List ℕ → Result OperationError TeslaFc100OperationResult
decode_terminal s message =
    map_error envelope_field (decode_exact_field message s.family) >>= λ family.
    (map_error terminal_field (decode_exact_field family s.response_tag) >>= λ body.
    ok (terminal body))

abbrev error_or_terminal :
    OperationSpec → List ℕ → Option ℕ → Result OperationError TeslaFc100OperationResult
error_or_terminal s message (some status) = ok (application_error status)
error_or_terminal s message none = decode_terminal s message

-- The body of the loop, on one response: what it appends, with the request and `terminal` so far.
unfoldable pub classify :
    OperationSpec → List ℕ → Bool → List ℕ → Result OperationError TeslaFc100OperationResult
unfolding decode_application_error decode_terminal
classify s request seen_terminal message =
    if same_bytes message request
    then (refuse_if seen_terminal echo_follows_terminal >> ok intermediate)
    else (refuse_if seen_terminal multiple_terminals
        >> error_or_terminal s message (decode_application_error message))

abbrev pub is_final : TeslaFc100OperationResult → Bool
is_final intermediate = false
is_final (terminal body) = true
is_final (application_error status) = true

-- `modbus.MaxPDUSize` is a constant of the Modbus library.
module _ (max_pdu_size : ℕ) where
  unfoldable pub sequence_loop :
      OperationSpec
      → List ℕ
      → Bool
      → List (List ℕ)
      → Result OperationError (List TeslaFc100OperationResult)
  unfolding classify
  sequence_loop s request seen_terminal [] = refuse_if (not seen_terminal) no_terminal >> ok []
  sequence_loop s request seen_terminal (payload ∷ payloads) =
      map_error framing (decode_hsc_response max_pdu_size function_100 payload) >>= λ response.
      (classify s request seen_terminal response.payload >>= λ result.
      (sequence_loop s request (seen_terminal || is_final result) payloads >>= λ results.
      ok (result ∷ results)))

  -- `DecodeTeslaFC100OperationSequence`
  unfoldable pub decode_sequence :
      List ℕ
      → TeslaFc100Operation
      → List ℕ
      → List (List ℕ)
      → Result OperationError (List TeslaFc100OperationResult)
  unfolding sequence_loop operation_specs
  decode_sequence version operation request_payload payloads =
      refuse_if (not (same_bytes version operation_compatibility)) compatibility_unsupported
      >> (or_refuse (operation_specs operation) sequence_invalid >>= λ s.
          refuse_if (length payloads == 0 || ltb 8 (length payloads)) sequence_invalid
          >> (map_error framing (decode_hsc_envelope max_pdu_size function_100 request_payload)
              >>= λ request. sequence_loop s request.payload false payloads))
