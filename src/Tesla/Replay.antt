-- ===== src/Tesla/Replay.antt =====
-- The replays of the five qualified operations: tesla_fc100_wc_vitals.go, tesla_fc100_common_system_info.go,
-- tesla_fc100_wc_lifetime.go, tesla_fc100_wc_system_info.go and tesla_fc100_wc_load_sharing_state.go.
pub mod Sequence
pub mod Agreement
use helianthus_modbusreg.Base.{
  ℕ, Bool, true, false, ◌&&◌, ◌||◌, not, List, [], ◌∷◌, Result, ok, err, ltb, ◌==◌, if◌then◌else◌,
  ◌>>=◌, ◌>>◌, refuse_if, length, map,
}
use helianthus_modbusreg.Base.Bytes.{ascii, same_bytes}
use helianthus_modbusreg.Tesla.Field.{FieldError, decode_exact_field}
use helianthus_modbusreg.Tesla.Envelope.{
  HscError, TeslaHscResponse, function_100, decode_hsc_response,
}
use helianthus_modbusreg.Tesla.Operation.{map_error}
use helianthus_modbusreg.Tesla.Profile.{
  TedapiOperation, wc_vitals_v1, common_system_info_v1, wc_lifetime_v1, wc_system_info_v1,
  wc_load_sharing_state_v1, other_operation,
}

pub data ReplayKind : Type 0 where
  intermediate terminal : ReplayKind

pub record Replay : Type 0 where
  pub kind : ReplayKind
  pub snapshot_length : ℕ
  pub snapshot_digest : List ℕ

pub data ReplayError : Type 0 where
  framing : HscError → ReplayError
  envelope_field message_field : FieldError → ReplayError
  response_count_invalid sequence_invalid no_terminal : ReplayError
  function_invalid operation_sequence_invalid : ReplayError

pub data QualifiedFunctionResult : Type 0 where
  of_payload : List ℕ → QualifiedFunctionResult
  of_replay : List ℕ → ℕ → List ℕ → QualifiedFunctionResult

-- `request_message` is `teslaFC100…RequestPDU[1:]`; an intermediate replay has no length and digest.
abbrev echo_replay : Replay
echo_replay = record { kind = intermediate; snapshot_length = 0; snapshot_digest = [] }

abbrev is_intermediate : ReplayKind → Bool
is_intermediate intermediate = true
is_intermediate terminal = false

abbrev kind_text : ReplayKind → List ℕ
kind_text intermediate = ascii "intermediate"
kind_text terminal = ascii "terminal"

-- The loop that the three sequence decoders share, with what was seen so far.
unfoldable pub replay_loop :
    (List ℕ → Result ReplayError Replay)
    → Bool
    → Bool
    → List (List ℕ)
    → Result ReplayError (List Replay)
replay_loop decode echoed ended [] = refuse_if (not ended) no_terminal >> ok []
replay_loop decode echoed ended (payload ∷ payloads) = decode payload >>= λ r.
    refuse_if (ended || (is_intermediate r.kind && echoed)) sequence_invalid
    >> (replay_loop decode (echoed || is_intermediate r.kind)
          (ended || not (is_intermediate r.kind)) payloads
        >>= λ replays. ok (r ∷ replays))

unfoldable pub decode_replay_sequence :
    (List ℕ → Result ReplayError Replay) → List (List ℕ) → Result ReplayError (List Replay)
unfolding replay_loop
decode_replay_sequence decode payloads =
    refuse_if (length payloads == 0 || ltb 2 (length payloads)) response_count_invalid
    >> replay_loop decode false false payloads

-- The result that the registry keeps of a replay.
unfoldable pub qualified_replay : Replay → QualifiedFunctionResult
qualified_replay r = of_replay (kind_text r.kind) r.snapshot_length r.snapshot_digest

-- `modbus.MaxPDUSize` is a constant of the Modbus library; `digest` is the hexadecimal SHA-256.
module _ (max_pdu_size : ℕ) (digest : List ℕ → List ℕ) where
  -- The body that the five decoders share.
  unfoldable pub decode_replay : List ℕ → ℕ → ℕ → List ℕ → Result ReplayError Replay
  decode_replay request_message family tag payload =
      map_error framing (decode_hsc_response max_pdu_size function_100 payload) >>= λ response.
      if same_bytes response.payload request_message
      then ok echo_replay
      else (map_error envelope_field (decode_exact_field response.payload family) >>= λ messages.
          (map_error message_field (decode_exact_field messages tag) >>= λ body. ok (record {
            kind = terminal;
            snapshot_length = length body;
            snapshot_digest = digest body;
          })))

  -- `DecodeTeslaFC100WCVitalsReplay`
  unfoldable pub decode_wc_vitals_replay : List ℕ → Result ReplayError Replay
  unfolding decode_replay
  decode_wc_vitals_replay = decode_replay (0x32 ∷ 0x02 ∷ 0x0a ∷ 0x00 ∷ []) 6 2

  -- `DecodeTeslaFC100CommonSystemInfoReplay`
  unfoldable pub decode_common_system_info_replay : List ℕ → Result ReplayError Replay
  unfolding decode_replay
  decode_common_system_info_replay = decode_replay (0x22 ∷ 0x02 ∷ 0x12 ∷ 0x00 ∷ []) 4 3

  -- `DecodeTeslaFC100WCLifetimeReplay`
  unfoldable pub decode_wc_lifetime_replay : List ℕ → Result ReplayError Replay
  unfolding decode_replay
  decode_wc_lifetime_replay = decode_replay (0x32 ∷ 0x02 ∷ 0x1a ∷ 0x00 ∷ []) 6 4

  -- `DecodeTeslaFC100WCSystemInfoReplay`
  unfoldable pub decode_wc_system_info_replay : List ℕ → Result ReplayError Replay
  unfolding decode_replay
  decode_wc_system_info_replay = decode_replay (0x32 ∷ 0x02 ∷ 0x4a ∷ 0x00 ∷ []) 6 10

  -- `DecodeTeslaFC100WCLoadSharingStateReplay`
  unfoldable pub decode_wc_load_sharing_state_replay : List ℕ → Result ReplayError Replay
  unfolding decode_replay
  decode_wc_load_sharing_state_replay = decode_replay (0x32 ∷ 0x02 ∷ 0x5a ∷ 0x00 ∷ []) 6 12

  -- `DecodeTeslaFC100WCLifetimeReplaySequence`
  unfoldable pub decode_wc_lifetime_sequence : List (List ℕ) → Result ReplayError (List Replay)
  unfolding decode_replay_sequence decode_wc_lifetime_replay
  decode_wc_lifetime_sequence = decode_replay_sequence decode_wc_lifetime_replay

  -- `DecodeTeslaFC100WCSystemInfoReplaySequence`
  unfoldable pub decode_wc_system_info_sequence : List (List ℕ) → Result ReplayError (List Replay)
  unfolding decode_replay_sequence decode_wc_system_info_replay
  decode_wc_system_info_sequence = decode_replay_sequence decode_wc_system_info_replay

  -- `DecodeTeslaFC100WCLoadSharingStateReplaySequence`
  unfoldable pub decode_wc_load_sharing_state_sequence :
      List (List ℕ) → Result ReplayError (List Replay)
  unfolding decode_replay_sequence decode_wc_load_sharing_state_replay
  decode_wc_load_sharing_state_sequence = decode_replay_sequence decode_wc_load_sharing_state_replay

  -- One case of `DecodeQualifiedFunction`.
  unfoldable pub qualified_case :
      (List ℕ → Result ReplayError Replay) → ℕ → List ℕ → Result ReplayError QualifiedFunctionResult
  unfolding qualified_replay
  qualified_case decode function bytes =
      refuse_if (not (function == function_100)) function_invalid
      >> (decode bytes >>= λ r. ok (qualified_replay r))

  -- `DecodeQualifiedFunction`
  unfoldable pub decode_qualified_function :
      TedapiOperation → ℕ → List ℕ → Result ReplayError QualifiedFunctionResult
  unfolding qualified_case decode_wc_vitals_replay decode_common_system_info_replay
      decode_wc_lifetime_replay decode_wc_system_info_replay decode_wc_load_sharing_state_replay
  decode_qualified_function wc_vitals_v1 = qualified_case decode_wc_vitals_replay
  decode_qualified_function common_system_info_v1 = qualified_case decode_common_system_info_replay
  decode_qualified_function wc_lifetime_v1 = qualified_case decode_wc_lifetime_replay
  decode_qualified_function wc_system_info_v1 = qualified_case decode_wc_system_info_replay
  decode_qualified_function wc_load_sharing_state_v1 =
      qualified_case decode_wc_load_sharing_state_replay
  decode_qualified_function other_operation = λ function bytes.
      map_error framing (decode_hsc_response max_pdu_size function bytes) >>= λ response.
      ok (of_payload response.payload)

  -- The switch of `DecodeQualifiedFunctionSequence`.
  unfoldable pub sequence_of : TedapiOperation → List (List ℕ) → Result ReplayError (List Replay)
  unfolding decode_wc_lifetime_sequence decode_wc_system_info_sequence
      decode_wc_load_sharing_state_sequence
  sequence_of wc_lifetime_v1 = decode_wc_lifetime_sequence
  sequence_of wc_system_info_v1 = decode_wc_system_info_sequence
  sequence_of wc_load_sharing_state_v1 = decode_wc_load_sharing_state_sequence
  sequence_of _ = λ payloads. err operation_sequence_invalid

  -- `DecodeQualifiedFunctionSequence`
  unfoldable pub decode_qualified_function_sequence :
      TedapiOperation → ℕ → List (List ℕ) → Result ReplayError (List QualifiedFunctionResult)
  unfolding sequence_of qualified_replay
  decode_qualified_function_sequence operation function payloads =
      refuse_if (not (function == function_100)) operation_sequence_invalid
      >> (sequence_of operation payloads >>= λ replays. ok (map qualified_replay replays))

-- `HandlesQualifiedFunctionSequence`
unfoldable pub handles_sequence : TedapiOperation → Bool
handles_sequence wc_lifetime_v1 = true
handles_sequence wc_system_info_v1 = true
handles_sequence wc_load_sharing_state_v1 = true
handles_sequence _ = false
