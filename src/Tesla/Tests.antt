-- ===== src/Tesla/Tests.antt =====
-- The Tesla records at concrete inputs.
use helianthus_modbusreg.Base.{
  ℕ, ◌≤◌, ◌≡◌, ◌≢◌, ◌↔◌, ◌⊎◌, refl, true, some, List, [], ◌∷◌, ◌++◌, ok, err, length, map,
  replicate, All, arith,
}
use helianthus_modbusreg.Base.Bytes.{ascii}
use helianthus_modbusreg.Base.Order.{lt_wf}
use helianthus_modbusreg.Tesla.Varint.{
  varint_loop, decode_fc100_varint, decode_tedapi_varint, append_loop, append_varint,
}
use helianthus_modbusreg.Tesla.Varint.RoundTrip.{decode_fc100_varint-append_varint}
use helianthus_modbusreg.Tesla.Field.{decode_exact_field, append_field}
use helianthus_modbusreg.Tesla.Envelope.{
  function_100, TeslaHscResponse, decode_hsc_envelope, decode_request_envelope, decode_hsc_response,
  decode_exchange, new_syntactic_request,
}
use helianthus_modbusreg.Tesla.Envelope.RoundTrip.{
  response_bytes, new_syntactic_request-decode_request_envelope, decode_exchange-lossless,
}
use helianthus_modbusreg.Tesla.Operation
use helianthus_modbusreg.Tesla.Operation.{
  OperationSpec, OperationError, wc_get_vitals, wc_set_provisional, operation_specs,
  operation_message, build_request, classify, decode_application_error, decode_terminal,
  sequence_loop, decode_sequence,
}
use helianthus_modbusreg.Tesla.Operation.Sequence.{IsSequence, decode_sequence-IsSequence}
use helianthus_modbusreg.Tesla.Operation.RoundTrip.{
  pdu, PrivateFunctionRequests, decode_sequence-answered, build_request-read,
}
use helianthus_modbusreg.Tesla.Wire.{TeslaFc100WireEntry, stuck, decode_wire_entries}
use helianthus_modbusreg.Tesla.Wire.Nesting.{
  WellNested, IsEntry, entry, decode_wire_entries-WellNested,
}
use helianthus_modbusreg.Tesla.Wire.Termination.{decode_wire_entries-runs}
use helianthus_modbusreg.Tesla.Wire.Message.{
  WireFields, varint_field, bytes_field, group_field, no_fields, and_field, print_fields,
  fields_keys,
}
use helianthus_modbusreg.Tesla.Wire.RoundTrip.{decode_wire_entries-print_fields}
use helianthus_modbusreg.Tesla.Matrix.{TeslaFc100RequestMatrix, validate_request_matrix}
use helianthus_modbusreg.Tesla.Matrix.Forms.{IsForm, validate_request_matrix_iff}
use helianthus_modbusreg.Tesla.Profile.{
  TeslaHscProfileConfig, TeslaHscProfile, qualified_read_only, wc_vitals_v1, new_profile,
  operation_admission_for, request_pdu,
}
use helianthus_modbusreg.Tesla.Profile.Admission.{IsAdmitted, operation_admission_for_iff}
use helianthus_modbusreg.Tesla.Replay
use helianthus_modbusreg.Tesla.Replay.{
  Replay, of_replay, decode_replay, decode_wc_lifetime_replay, decode_replay_sequence,
  decode_qualified_function,
}
use helianthus_modbusreg.Tesla.Replay.Sequence.{Answers, decode_replay_sequence_iff}
use helianthus_modbusreg.Tesla.Replay.Agreement.{decode_sequence-decode_qualified_function}
use native.Mathlib.Decide.{dec_le}

-- Two bytes for 300, and an overflow in the tenth byte.
appends_300 : append_varint [] 300 ≡ 0xac ∷ 0x02 ∷ []
unfolding append_varint append_loop lt_wf dec_le
appends_300 = refl

decode_fc100_varint-append_varint_example :
    decode_fc100_varint (append_varint [] 300 ++ (7 ∷ [])) ≡ ok (300, length (append_varint [] 300))
decode_fc100_varint-append_varint_example =
    decode_fc100_varint-append_varint 300 (7 ∷ []) (omega arith)

new_syntactic_request-decode_request_envelope_example :
    (new_syntactic_request 253 101 (8 ∷ 9 ∷ [])
      ≡ ok (record { function = 101; payload = 2 ∷ 8 ∷ 9 ∷ [] }))
    ↔ (decode_request_envelope 253 101 (2 ∷ 8 ∷ 9 ∷ [])
        ≡ ok (record { function = 101; payload = 8 ∷ 9 ∷ [] }))
new_syntactic_request-decode_request_envelope_example =
    new_syntactic_request-decode_request_envelope 253 101 (8 ∷ 9 ∷ []) (2 ∷ 8 ∷ 9 ∷ [])
      (omega arith)

abbrev two_responses : List TeslaHscResponse
two_responses =
    record { function = 100; payload = 7 ∷ [] } ∷ record { function = 100; payload = [] } ∷ []

decodes_two : decode_exchange 253 100 ((1 ∷ 7 ∷ []) ∷ (0 ∷ []) ∷ []) ≡ ok two_responses
unfolding decode_exchange
decodes_two = refl

decode_exchange-lossless_example :
    All (λ r. r.function ≡ 100) two_responses
    × (map (response_bytes 253) two_responses ≡ (1 ∷ 7 ∷ []) ∷ (0 ∷ []) ∷ [])
    × (1 ≤ length two_responses)
    × (length two_responses ≤ 8)
    × ((function_100 ≡ 100) ⊎ (length two_responses ≡ 1))
decode_exchange-lossless_example =
    decode_exchange-lossless 253 100 ((1 ∷ 7 ∷ []) ∷ (0 ∷ []) ∷ []) two_responses decodes_two

-- The request for vitals, its echo, and an answer of one byte.
abbrev vitals_spec : OperationSpec
vitals_spec = record { family = 6; request_tag = 1; response_tag = 2 }

abbrev nine : List ℕ
nine = 9 ∷ []

abbrev pub vitals_request : List ℕ
vitals_request = 0x04 ∷ 0x32 ∷ 0x02 ∷ 0x0a ∷ 0x00 ∷ []

abbrev pub vitals_answer : List ℕ
vitals_answer = 0x05 ∷ 0x32 ∷ 0x03 ∷ 0x12 ∷ 0x01 ∷ 0x09 ∷ []

abbrev vitals_results : List Operation.TeslaFc100OperationResult
vitals_results = Operation.intermediate ∷ Operation.terminal (9 ∷ []) ∷ []

decodes_vitals :
    decode_sequence 253
      (ascii "wc3_24_44_3")
      wc_get_vitals
      vitals_request
      (vitals_request ∷ vitals_answer ∷ [])
    ≡ ok vitals_results
unfolding decode_sequence decode_hsc_envelope decode_hsc_response decode_exact_field
    decode_fc100_varint varint_loop
decodes_vitals = refl

decode_sequence-IsSequence_example :
    IsSequence vitals_results
    × (length vitals_results ≡ length (vitals_request ∷ vitals_answer ∷ []))
    × (length vitals_results ≤ 8)
decode_sequence-IsSequence_example =
    decode_sequence-IsSequence 253 (ascii "wc3_24_44_3") wc_get_vitals vitals_request
      (vitals_request ∷ vitals_answer ∷ []) vitals_results decodes_vitals

vitals_known : operation_specs wc_get_vitals ≡ some vitals_spec
unfolding operation_specs
vitals_known = refl

vitals_request_fits : length (operation_message vitals_spec []) ≤ 251
unfolding operation_message append_field append_varint append_loop lt_wf dec_le
vitals_request_fits = omega arith

vitals_answer_fits : length (append_field 6 (append_field 2 (9 ∷ []))) ≤ 251
unfolding append_field append_varint append_loop lt_wf dec_le
vitals_answer_fits = omega arith

decode_sequence-answered_example :
    decode_sequence 253
      (ascii "wc3_24_44_3")
      wc_get_vitals
      (pdu (operation_message vitals_spec []))
      (replicate 1 (pdu (operation_message vitals_spec []))
        ++ (pdu (append_field 6 (append_field 2 (9 ∷ []))) ∷ []))
    ≡ ok (replicate 1 Operation.intermediate ++ (Operation.terminal (9 ∷ []) ∷ []))
decode_sequence-answered_example =
    decode_sequence-answered 253 (omega arith) wc_get_vitals vitals_spec [] (9 ∷ []) 1 vitals_known
      (omega arith) vitals_request_fits vitals_answer_fits

-- A Modbus library whose requests are their bytes.
plain_requests : PrivateFunctionRequests (List ℕ)
plain_requests = record {
  new_request = λ function bytes. ok bytes;
  payload = λ r. r;
  payload_kept = λ function bytes r h. cc h;
}

builds_vitals :
    build_request plain_requests.new_request (ascii "wc3_24_44_3") wc_get_vitals []
    ≡ ok vitals_request
unfolding build_request plain_requests append_field append_varint append_loop lt_wf dec_le
builds_vitals = refl

build_request-read_example :
    (s : OperationSpec) × (nested : List ℕ) × (inner : List ℕ) × (operation_specs wc_get_vitals
      ≡ some s)
    × (decode_hsc_envelope 253 100 (plain_requests.payload vitals_request)
        ≡ ok (record { function = 100; payload = nested }))
    × (decode_exact_field nested s.family ≡ ok inner)
    × (decode_exact_field inner s.request_tag ≡ ok [])
build_request-read_example =
    build_request-read plain_requests 253 (ascii "wc3_24_44_3") wc_get_vitals [] vitals_request
      (omega arith) builds_vitals

-- A group around a varint, then a field of one byte.
abbrev grouped : List ℕ
grouped = 0x0b ∷ 0x10 ∷ 0x05 ∷ 0x0c ∷ 0x1a ∷ 0x01 ∷ 0xff ∷ []

abbrev grouped_entries : List TeslaFc100WireEntry
grouped_entries = entry 1 3 ∷ entry 2 0 ∷ entry 1 4 ∷ entry 3 2 ∷ []

decodes_grouped : decode_wire_entries grouped ≡ ok grouped_entries
unfolding decode_wire_entries decode_tedapi_varint varint_loop
decodes_grouped = refl

decode_wire_entries-WellNested_example :
    WellNested grouped_entries × All IsEntry grouped_entries × (length grouped_entries ≤ 64)
decode_wire_entries-WellNested_example =
    decode_wire_entries-WellNested grouped grouped_entries decodes_grouped

decode_wire_entries-runs_example : decode_wire_entries grouped ≢ err stuck
decode_wire_entries-runs_example = decode_wire_entries-runs grouped

abbrev grouped_fields : WireFields
grouped_fields =
    and_field (group_field 1 (and_field (varint_field 2 5) no_fields))
      (and_field (bytes_field 3 (0xff ∷ [])) no_fields)

decode_wire_entries-print_fields_example :
    decode_wire_entries (print_fields grouped_fields) ≡ ok (fields_keys grouped_fields)
decode_wire_entries-print_fields_example =
    decode_wire_entries-print_fields grouped_fields
      (
        ((omega arith, omega arith), (((omega arith, omega arith), omega arith), tt)),
        (((omega arith, omega arith), omega arith), tt),
      )
      (omega arith)

abbrev provisional_matrix : TeslaFc100RequestMatrix
provisional_matrix = record {
  operation = wc_set_provisional;
  request_body = grouped;
  entries = grouped_entries;
}

validates_provisional :
    validate_request_matrix plain_requests.new_request
      (ascii "wc3_24_44_3")
      wc_set_provisional
      grouped
    ≡ ok provisional_matrix
unfolding validate_request_matrix plain_requests append_field append_varint append_loop lt_wf dec_le
    decode_wire_entries decode_tedapi_varint varint_loop
validates_provisional = refl

validate_request_matrix_iff_example :
    (validate_request_matrix plain_requests.new_request
        (ascii "wc3_24_44_3")
        wc_set_provisional
        grouped
      ≡ ok provisional_matrix)
    ↔ ((ascii "wc3_24_44_3" ≡ ascii "wc3_24_44_3")
        × IsForm plain_requests.new_request wc_set_provisional grouped provisional_matrix)
validate_request_matrix_iff_example =
    validate_request_matrix_iff plain_requests.new_request (ascii "wc3_24_44_3") wc_set_provisional
      grouped provisional_matrix

abbrev pub home_config : TeslaHscProfileConfig
home_config = record {
  enabled = true;
  node = 1;
  passive_compatible = true;
  compatibility_version = ascii "tesla_hsc_modbus_v1";
  wc_vitals_operation_version = ascii "wc3_24_44_3";
  system_info_operation_version = [];
  wc_lifetime_operation_version = [];
  wc_system_info_operation_version = [];
  wc_load_sharing_state_operation_version = [];
}

abbrev pub home_profile : TeslaHscProfile
home_profile = record { config = home_config; disposition = qualified_read_only }

pub makes_home : new_profile home_config ≡ ok home_profile
unfolding new_profile
makes_home = refl

operation_admission_for_iff_example :
    ((operation_admission_for home_profile wc_vitals_v1).outbound_allowed ≡ true)
    ↔ IsAdmitted home_config wc_vitals_v1
operation_admission_for_iff_example =
    operation_admission_for_iff home_config home_profile wc_vitals_v1 makes_home

pub no_digest : List ℕ → List ℕ
no_digest bytes = []

vitals_requested : request_pdu wc_vitals_v1 ≡ ok vitals_request
unfolding request_pdu
vitals_requested = refl

vitals_alone :
    decode_sequence 253 (ascii "wc3_24_44_3") wc_get_vitals vitals_request (vitals_answer ∷ [])
    ≡ ok (Operation.terminal (9 ∷ []) ∷ [])
unfolding decode_sequence decode_hsc_envelope decode_hsc_response decode_exact_field
    decode_fc100_varint varint_loop
vitals_alone = refl

decode_sequence-decode_qualified_function_example :
    decode_qualified_function 253 no_digest wc_vitals_v1 100 vitals_answer
    ≡ ok (of_replay (ascii "terminal") (length nine) (no_digest nine))
decode_sequence-decode_qualified_function_example =
    decode_sequence-decode_qualified_function 253 no_digest wc_vitals_v1 vitals_request
      vitals_answer (9 ∷ []) vitals_requested vitals_alone

abbrev lifetime_payloads : List (List ℕ)
lifetime_payloads =
    (0x04 ∷ 0x32 ∷ 0x02 ∷ 0x1a ∷ 0x00 ∷ []) ∷ (0x04 ∷ 0x32 ∷ 0x02 ∷ 0x22 ∷ 0x00 ∷ []) ∷ []

abbrev lifetime_replays : List Replay
lifetime_replays =
    record { kind = Replay.intermediate; snapshot_length = 0; snapshot_digest = [] }
    ∷ record { kind = Replay.terminal; snapshot_length = 0; snapshot_digest = [] }
    ∷ []

decode_replay_sequence_iff_example :
    (decode_replay_sequence (decode_wc_lifetime_replay 253 no_digest) lifetime_payloads
      ≡ ok lifetime_replays)
    ↔ Answers (decode_wc_lifetime_replay 253 no_digest) lifetime_payloads lifetime_replays
decode_replay_sequence_iff_example =
    decode_replay_sequence_iff (decode_wc_lifetime_replay 253 no_digest) lifetime_payloads
      lifetime_replays
