-- ===== src/Tesla/Envelope.antt =====
-- tesla_hsc.go, tesla_hsc_request.go and tesla_hsc_native.go: the exact-length envelope of the
-- functions 100 to 102, their responses and exchanges, and the requests that are only syntax.
pub mod RoundTrip
use helianthus_modbusreg.Base.{
  ℕ, ◌+◌, ◌-◌, ◌%◌, Bool, true, ◌&&◌, ◌||◌, not, List, [], ◌∷◌, ◌++◌, Result, ok, err, ltb, leb,
  ◌==◌, if◌then◌else◌, ◌>>=◌, ◌>>◌, refuse_if, length,
}
use helianthus_modbusreg.Base.Bytes.{ascii, same_bytes}

abbrev pub function_100 : ℕ
function_100 = 100

abbrev pub function_101 : ℕ
function_101 = 101

abbrev pub function_102 : ℕ
function_102 = 102

pub data HscError : Type 0 where
  function_unsupported payload_exceeds_bound no_length_prefix length_prefix_inexact : HscError
  response_count_invalid nested_exceeds_bound compatibility_unsupported : HscError

pub record TeslaHscEnvelope : Type 0 where
  pub function : ℕ
  pub payload : List ℕ

pub record TeslaHscResponse : Type 0 where
  pub function : ℕ
  pub payload : List ℕ

pub record TeslaHscSyntacticRequest : Type 0 where
  pub function : ℕ
  pub payload : List ℕ

pub record TeslaHscNativeRecord : Type 0 where
  pub function : ℕ
  pub payload : List ℕ

-- `isTeslaHSCFunction`
unfoldable pub is_hsc_function : ℕ → Bool
is_hsc_function function =
    function == function_100 || function == function_101 || function == function_102

pub data TeslaHscException : Type 0 where
  unknown unknown_function codec_failure : TeslaHscException

-- `ClassifyTeslaHSCException`
unfoldable pub classify_exception : ℕ → ℕ → TeslaHscException
unfolding is_hsc_function
classify_exception function status =
    if not (is_hsc_function function)
    then unknown
    else if status == 1
    then unknown_function
    else if status == 4 && (function == function_101 || function == function_102)
    then codec_failure
    else unknown

-- The prefix and the bytes after it, `payload[0]` and `payload[1:]`.
unfoldable pub exact_envelope : ℕ → List ℕ → Result HscError TeslaHscEnvelope
exact_envelope function [] = err no_length_prefix
exact_envelope function (prefix ∷ nested) =
    refuse_if (not (prefix == length nested)) length_prefix_inexact
    >> ok (record { function = function; payload = nested })

-- `modbus.MaxPDUSize` is a constant of the Modbus library.
module _ (max_pdu_size : ℕ) where
  -- `maxTeslaHSCPayload`
  abbrev pub max_hsc_payload : ℕ
  max_hsc_payload = max_pdu_size - 1

  -- `decodeTeslaHSCExactEnvelope`
  unfoldable pub decode_exact_envelope : ℕ → List ℕ → Result HscError TeslaHscEnvelope
  unfolding exact_envelope
  decode_exact_envelope function payload =
      refuse_if (ltb max_hsc_payload (length payload)) payload_exceeds_bound
      >> exact_envelope function payload

  -- `DecodeTeslaHSCEnvelope`
  unfoldable pub decode_hsc_envelope : ℕ → List ℕ → Result HscError TeslaHscEnvelope
  unfolding decode_exact_envelope
  decode_hsc_envelope function payload =
      refuse_if (not (function == function_100)) function_unsupported
      >> decode_exact_envelope function payload

  -- `DecodeTeslaHSCRequestEnvelope`
  unfoldable pub decode_request_envelope : ℕ → List ℕ → Result HscError TeslaHscEnvelope
  unfolding decode_exact_envelope is_hsc_function
  decode_request_envelope function payload =
      refuse_if (not (is_hsc_function function)) function_unsupported
      >> decode_exact_envelope function payload

  -- `DecodeTeslaHSCResponse`
  unfoldable pub decode_hsc_response : ℕ → List ℕ → Result HscError TeslaHscResponse
  unfolding decode_hsc_envelope is_hsc_function
  decode_hsc_response function payload =
      refuse_if (not (is_hsc_function function)) function_unsupported
      >> refuse_if (ltb max_hsc_payload (length payload)) payload_exceeds_bound
      >> (if function == function_100
          then (decode_hsc_envelope function payload >>= λ envelope.
              ok (record { function = function; payload = envelope.payload }))
          else ok (record { function = function; payload = payload }))

  -- The loop over the payloads of an exchange.
  unfoldable pub decode_responses : ℕ → List (List ℕ) → Result HscError (List TeslaHscResponse)
  unfolding decode_hsc_response
  decode_responses function [] = ok []
  decode_responses function (payload ∷ payloads) =
      decode_hsc_response function payload >>= λ response.
      (decode_responses function payloads >>= λ responses. ok (response ∷ responses))

  -- `DecodeTeslaHSCExchange`
  unfoldable pub decode_exchange : ℕ → List (List ℕ) → Result HscError (List TeslaHscResponse)
  unfolding decode_responses is_hsc_function
  decode_exchange function payloads =
      refuse_if (not (is_hsc_function function)) function_unsupported
      >> refuse_if
          (length payloads == 0
            || ltb 8 (length payloads)
            || (not (function == function_100) && not (length payloads == 1)))
          response_count_invalid
      >> decode_responses function payloads

  -- `NewTeslaHSCSyntacticRequest`
  unfoldable pub new_syntactic_request : ℕ → List ℕ → Result HscError TeslaHscSyntacticRequest
  unfolding decode_request_envelope is_hsc_function
  new_syntactic_request function nested =
      let payload = (length nested % 256) ∷ nested in
      refuse_if (not (is_hsc_function function)) function_unsupported
      >> refuse_if (leb max_hsc_payload (length nested)) nested_exceeds_bound
      >> (decode_request_envelope function payload >>= λ envelope.
          ok (record { function = function; payload = payload }))

  -- `DecodeTeslaHSCNativeRecord`
  unfoldable pub decode_native_record : List ℕ → ℕ → List ℕ → Result HscError TeslaHscNativeRecord
  unfolding decode_hsc_response
  decode_native_record version function payload =
      refuse_if (not (same_bytes version (ascii "tesla_hsc_modbus_v1"))) compatibility_unsupported
      >> refuse_if (not (function == function_101) && not (function == function_102))
          function_unsupported
      >> (decode_hsc_response function payload >>= λ response.
          ok (record { function = function; payload = response.payload }))
