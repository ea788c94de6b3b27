-- ===== src/Tesla/Replay/Agreement.antt =====
-- The replay decoders against the general codec of FC100 operations.
use helianthus_modbusreg.Base.{
  ℕ, ◌≡◌, refl, ap, subst, ◌∙◌, false, some, List, [], ◌∷◌, Result, ok, length, Result-cases,
  Option-cases, inl, inr, arith,
}
use helianthus_modbusreg.Base.Bytes.{ascii, same_bytes}
use native.Mathlib.Decide.{dec_le}
use helianthus_modbusreg.Base.Order.{lt_wf}
use helianthus_modbusreg.Tesla.Varint.{append_loop, append_varint}
use helianthus_modbusreg.Tesla.Field.{decode_exact_field, append_field}
use helianthus_modbusreg.Tesla.Envelope.{
  function_100, decode_hsc_envelope, decode_exact_envelope, exact_envelope, decode_hsc_response,
}
use helianthus_modbusreg.Tesla.Operation.{
  TeslaFc100Operation, common_system_info, wc_get_vitals, wc_get_lifetime_stats, wc_get_system_info,
  wc_get_load_sharing_state, unlisted, OperationSpec, TeslaFc100OperationResult, operation_specs,
  operation_message, decode_application_error, decode_terminal, classify, sequence_loop,
  decode_sequence,
}
use helianthus_modbusreg.Tesla.Envelope.RoundTrip.{response_kept}
use helianthus_modbusreg.Tesla.Operation
use helianthus_modbusreg.Tesla.Operation.RoundTrip.{pdu}
use helianthus_modbusreg.Tesla.Profile.{
  TedapiOperation, wc_vitals_v1, common_system_info_v1, wc_lifetime_v1, wc_system_info_v1,
  wc_load_sharing_state_v1, other_operation, ProfileError, request_pdu,
}
use helianthus_modbusreg.Tesla.Replay.{
  terminal, of_replay, decode_replay, decode_wc_vitals_replay, decode_common_system_info_replay,
  decode_wc_lifetime_replay, decode_wc_system_info_replay, decode_wc_load_sharing_state_replay,
  qualified_replay, qualified_case, decode_qualified_function,
}

-- The FC100 operation behind each qualified one.
abbrev pub fc100_operation : TedapiOperation → TeslaFc100Operation
fc100_operation wc_vitals_v1 = wc_get_vitals
fc100_operation common_system_info_v1 = common_system_info
fc100_operation wc_lifetime_v1 = wc_get_lifetime_stats
fc100_operation wc_system_info_v1 = wc_get_system_info
fc100_operation wc_load_sharing_state_v1 = wc_get_load_sharing_state
fc100_operation other_operation = unlisted

RequestOf : TedapiOperation → OperationSpec → Type 0
RequestOf operation s = request_pdu operation ≡ ok (pdu (operation_message s []))

RequestOf-value :
    (operation : TedapiOperation) (a s : OperationSpec)
    → RequestOf operation a
    → some a ≡ some s
    → RequestOf operation s
RequestOf-value operation a s r h = let same : a ≡ s = cc h in subst (RequestOf operation) same r

-- Each fixed request PDU is the PDU of the general codec for its operation, with an empty body.
pub request_pdu-operation_message :
    (operation : TedapiOperation) (s : OperationSpec)
    → operation_specs (fc100_operation operation) ≡ some s
    → request_pdu operation ≡ ok (pdu (operation_message s []))
unfolding RequestOf operation_specs request_pdu operation_message append_field append_varint
    append_loop lt_wf dec_le
request_pdu-operation_message wc_vitals_v1 s h = RequestOf-value wc_vitals_v1 _ s refl h
request_pdu-operation_message common_system_info_v1 s h =
    RequestOf-value common_system_info_v1 _ s refl h
request_pdu-operation_message wc_lifetime_v1 s h = RequestOf-value wc_lifetime_v1 _ s refl h
request_pdu-operation_message wc_system_info_v1 s h = RequestOf-value wc_system_info_v1 _ s refl h
request_pdu-operation_message wc_load_sharing_state_v1 s h =
    RequestOf-value wc_load_sharing_state_v1 _ s refl h
request_pdu-operation_message other_operation s h = absurd (ground arith)

abbrev request_pdu_of : List ℕ → Result ProfileError (List ℕ)
request_pdu_of nested = ok (pdu nested)

module _ (max_pdu_size : ℕ) (digest : List ℕ → List ℕ) where
  -- What one terminal response shows, and what the replay decoder makes of it.
  record IsTerminal (s : OperationSpec) (request p body : List ℕ) : Type 0 where
    message : List ℕ
    inner : List ℕ
    framed :
        decode_hsc_response max_pdu_size function_100 p
        ≡ ok (record { function = function_100; payload = message })
    no_echo : same_bytes message request ≡ false
    family_read : decode_exact_field message s.family ≡ ok inner
    body_read : decode_exact_field inner s.response_tag ≡ ok body

  IsTerminal-decode_replay :
      (s : OperationSpec) (request p body : List ℕ)
      → IsTerminal s request p body
      → decode_replay max_pdu_size digest request s.family s.response_tag p
        ≡ ok (record {
          kind = terminal;
          snapshot_length = length body;
          snapshot_digest = digest body;
        })
  unfolding decode_replay
  IsTerminal-decode_replay s request p body t =
      simp (t.framed, t.no_echo, t.family_read, t.body_read) refl

  terminal_read :
      (s : OperationSpec) (message body : List ℕ)
      → decode_terminal s message ≡ ok (Operation.terminal body)
      → (inner : List ℕ) × (decode_exact_field message s.family ≡ ok inner)
        × (decode_exact_field inner s.response_tag ≡ ok body)
  unfolding decode_terminal
  terminal_read s message body h = elim (Result-cases (decode_exact_field message s.family)) [
    | inl (inner, f) ↦ elim (Result-cases (decode_exact_field inner s.response_tag)) [
      | inl (body', b) ↦ (inner, f, b ∙ ap ok (grind (arith, f, b, h)))
      | inr (e, b) ↦ absurd (grind (arith, f, b, h))
    ]
    | inr (e, f) ↦ absurd (grind (arith, f, h))
  ]

  sequence-IsTerminal :
      (s : OperationSpec) (request p body : List ℕ)
      → sequence_loop max_pdu_size s request false (p ∷ []) ≡ ok (Operation.terminal body ∷ [])
      → IsTerminal s request p body
  unfolding sequence_loop classify
  sequence-IsTerminal s request p body h =
      elim (Result-cases (decode_hsc_response max_pdu_size function_100 p)) [
        | inr (e, r) ↦ absurd (ground (arith, r, h))
        | inl (response, r) ↦ elim (Option-cases (decode_application_error response.payload)) [
          | inr (status, a) ↦ absurd (ground (arith, r, a, h))
          | inl a ↦
              let named : response
                  ≡ record { function = function_100; payload = response.payload } =
                ap (λ f. record { function = f; payload = response.payload })
                  (response_kept max_pdu_size function_100 p response r).0 in
              let apart : same_bytes response.payload request ≡ false = ground (arith, r, a, h) in
              let (inner, f, b) =
                terminal_read s response.payload body (ground (arith, r, a, apart, h)) in
              record {
                message = response.payload;
                inner = inner;
                framed = r ∙ ap ok named;
                no_echo = apart;
                family_read = f;
                body_read = b;
              }
        ]
      ]

  single_sequence :
      (operation : TeslaFc100Operation) (s : OperationSpec) (request p body : List ℕ)
      → operation_specs operation ≡ some s
      → decode_sequence max_pdu_size (ascii "wc3_24_44_3") operation (pdu request) (p ∷ [])
        ≡ ok (Operation.terminal body ∷ [])
      → IsTerminal s request p body
  unfolding decode_sequence decode_hsc_envelope decode_exact_envelope exact_envelope
  single_sequence operation s request p body q h =
      sequence-IsTerminal s request p body (ground (arith, q, h))

  agreed :
      (operation : TeslaFc100Operation) (s : OperationSpec) (nested request p body : List ℕ)
      → operation_specs operation ≡ some s
      → request_pdu_of nested ≡ ok request
      → decode_sequence max_pdu_size (ascii "wc3_24_44_3") operation request (p ∷ [])
        ≡ ok (Operation.terminal body ∷ [])
      → qualified_case max_pdu_size digest
          (decode_replay max_pdu_size digest nested s.family s.response_tag)
          100
          p
        ≡ ok (of_replay (ascii "terminal") (length body) (digest body))
  unfolding qualified_case qualified_replay
  agreed operation s nested request p body q r h =
      let same : request ≡ pdu nested = cc r in
      let sent =
        subst
          (λ a.
            decode_sequence max_pdu_size (ascii "wc3_24_44_3") operation a (p ∷ [])
            ≡ ok (Operation.terminal body ∷ []))
          same h in
      simp
        (IsTerminal-decode_replay s nested p body
          (single_sequence operation s nested p body q sent))
        refl

  -- Where the general codec reads a response as the terminal body of a qualified operation that was
  -- requested by its fixed PDU, the decoder of qualified functions returns the terminal replay with
  -- the length and the digest of that body.
  pub decode_sequence-decode_qualified_function :
      (operation : TedapiOperation) (request p body : List ℕ)
      → request_pdu operation ≡ ok request
      → decode_sequence max_pdu_size
          (ascii "wc3_24_44_3")
          (fc100_operation operation)
          request
          (p ∷ [])
        ≡ ok (Operation.terminal body ∷ [])
      → decode_qualified_function max_pdu_size digest operation 100 p
        ≡ ok (of_replay (ascii "terminal") (length body) (digest body))
  unfolding operation_specs request_pdu decode_qualified_function decode_wc_vitals_replay
      decode_common_system_info_replay decode_wc_lifetime_replay decode_wc_system_info_replay
      decode_wc_load_sharing_state_replay
  decode_sequence-decode_qualified_function wc_vitals_v1 request p body r h =
      agreed wc_get_vitals _ (0x32 ∷ 0x02 ∷ 0x0a ∷ 0x00 ∷ []) request p body refl r h
  decode_sequence-decode_qualified_function common_system_info_v1 request p body r h =
      agreed common_system_info _ (0x22 ∷ 0x02 ∷ 0x12 ∷ 0x00 ∷ []) request p body refl r h
  decode_sequence-decode_qualified_function wc_lifetime_v1 request p body r h =
      agreed wc_get_lifetime_stats _ (0x32 ∷ 0x02 ∷ 0x1a ∷ 0x00 ∷ []) request p body refl r h
  decode_sequence-decode_qualified_function wc_system_info_v1 request p body r h =
      agreed wc_get_system_info _ (0x32 ∷ 0x02 ∷ 0x4a ∷ 0x00 ∷ []) request p body refl r h
  decode_sequence-decode_qualified_function wc_load_sharing_state_v1 request p body r h =
      agreed wc_get_load_sharing_state _ (0x32 ∷ 0x02 ∷ 0x5a ∷ 0x00 ∷ []) request p body refl r h
  decode_sequence-decode_qualified_function other_operation request p body r h =
      absurd (ground arith)
