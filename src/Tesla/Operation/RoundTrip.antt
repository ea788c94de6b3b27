-- ===== src/Tesla/Operation/RoundTrip.antt =====
-- Requests are read back, and so are the echoes and the answers to them.
use helianthus_modbusreg.Base.{
  ℕ, zero, suc, ◌%◌, ◌^◌, ◌≤◌, ◌<◌, ◌≡◌, ◌≢◌, sym, ap, ◌∙◌, false, none, some, List, [], ◌∷◌, ◌++◌,
  Result, ok, ◌==◌, length, length-append, replicate, length-replicate, Bool-cases, Option-cases,
  inl, inr, arith,
}
use helianthus_modbusreg.Base.Bytes.{ascii, same_bytes, same_bytes_eq, same_bytes_refl}
use helianthus_modbusreg.Tesla.Field.{FieldError, decode_exact_field, append_field}
use helianthus_modbusreg.Tesla.Field.RoundTrip.{
  IsTag, decode_exact_field-append_field, decode_exact_field-other,
}
use helianthus_modbusreg.Tesla.Envelope.{
  function_100, decode_hsc_envelope, decode_hsc_response, decode_exact_envelope, exact_envelope,
  is_hsc_function,
}
use helianthus_modbusreg.Tesla.Operation.{
  TeslaFc100Operation, OperationSpec, OperationError, intermediate, terminal, operation_specs,
  operation_message, build_request, classify, decode_application_error, decode_terminal,
  sequence_loop, decode_sequence,
}

-- What the table gives each operation.
record IsSpec (s : OperationSpec) : Type 0 where
  family_tag : IsTag s.family
  request_tag_small : IsTag s.request_tag
  response_tag_small : IsTag s.response_tag
  tags_differ : s.request_tag ≢ s.response_tag
  no_error_tag : s.response_tag ≢ 1

specs-IsSpec :
    (operation : TeslaFc100Operation) (s : OperationSpec)
    → operation_specs operation ≡ some s
    → IsSpec s
unfolding operation_specs
specs-IsSpec operation s h = record {
  family_tag = ground arith;
  request_tag_small = ground arith;
  response_tag_small = ground arith;
  tags_differ = ground arith;
  no_error_tag = ground arith;
}

-- The message of an operation that carries a body under a tag.
abbrev message : OperationSpec → ℕ → List ℕ → List ℕ
message s tag body = append_field s.family (append_field tag body)

-- A field is longer than its bytes.
append_field-longer : (tag : ℕ) (body : List ℕ) → length body ≤ length (append_field tag body)
unfolding append_field
append_field-longer tag body = omega (arith, length-append _ body)

field_unique : {r : Result FieldError (List ℕ)} {a b : List ℕ} → r ≡ ok a → r ≡ ok b → a ≡ b
field_unique h j = cc (h, j)

module _ (s : OperationSpec) (good : IsSpec s) where
  read_family :
      (tag : ℕ) (body : List ℕ)
      → length (message s tag body) ≤ 251
      → decode_exact_field (message s tag body) s.family ≡ ok (append_field tag body)
  read_family tag body few =
      decode_exact_field-append_field s.family (append_field tag body) good.family_tag
        (omega (arith, append_field-longer s.family (append_field tag body)))

  body_few : (tag : ℕ) (body : List ℕ) → length (message s tag body) ≤ 251 → length body < 2 ^ 64
  body_few tag body few =
      omega
        (arith, append_field-longer s.family (append_field tag body), append_field-longer tag body)

  -- The answer to a request is never its echo.
  answer_differs :
      (body reply : List ℕ)
      → length (message s s.request_tag body) ≤ 251
      → length (message s s.response_tag reply) ≤ 251
      → same_bytes (message s s.response_tag reply) (message s s.request_tag body) ≡ false
  answer_differs body reply few few' = elim (Bool-cases _) [
    | inl h ↦
        let same =
          same_bytes_eq (message s s.response_tag reply) (message s s.request_tag body) h in
        let fields : append_field s.response_tag reply ≡ append_field s.request_tag body =
          field_unique (read_family s.response_tag reply few')
            (ap (λ m. decode_exact_field m s.family) same ∙ read_family s.request_tag body few) in
        let read =
          decode_exact_field-append_field s.response_tag reply good.response_tag_small
            (body_few s.response_tag reply few') in
        let other =
          decode_exact_field-other s.request_tag s.response_tag body good.request_tag_small
            good.response_tag_small good.tags_differ (body_few s.request_tag body few) in
        absurd (cc (read, other, ap (λ f. decode_exact_field f s.response_tag) fields))
    | inr h ↦ h
  ]

  -- Nor is it taken for an application error, whose tag no answer has.
  answer_no_error :
      (reply : List ℕ)
      → length (message s s.response_tag reply) ≤ 251
      → decode_application_error (message s s.response_tag reply) ≡ none
  unfolding decode_application_error
  answer_no_error reply few = elim (Bool-cases (s.family == 4)) [
    | inl h ↦
        let four : s.family ≡ 4 = ground arith in
        let read =
          ap (decode_exact_field (message s s.response_tag reply)) (sym four)
          ∙ read_family s.response_tag reply few in
        let other =
          decode_exact_field-other s.response_tag 1 reply good.response_tag_small (omega arith)
            good.no_error_tag (body_few s.response_tag reply few) in
        grind (arith, read, other)
    | inr h ↦
        let other =
          decode_exact_field-other s.family 4 (append_field s.response_tag reply) good.family_tag
            (omega arith) (ground arith)
            (omega (arith, append_field-longer s.family (append_field s.response_tag reply))) in
        grind (arith, other)
  ]

  answer_terminal :
      (body reply : List ℕ)
      → length (message s s.request_tag body) ≤ 251
      → length (message s s.response_tag reply) ≤ 251
      → classify s (message s s.request_tag body) false (message s s.response_tag reply)
        ≡ ok (terminal reply)
  unfolding classify decode_terminal
  answer_terminal body reply few few' =
      let family = read_family s.response_tag reply few' in
      let field =
        decode_exact_field-append_field s.response_tag reply good.response_tag_small
          (body_few s.response_tag reply few') in
      grind (arith, answer_differs body reply few few', answer_no_error reply few', family, field)

-- The PDU of a message, and the PDUs of an answered request: its echoes, then the answer.
abbrev pub pdu : List ℕ → List ℕ
pdu nested = length nested ∷ nested

module _ (max_pdu_size : ℕ) (room : 253 ≤ max_pdu_size) where
  pdu_envelope :
      (nested : List ℕ)
      → length nested ≤ 251
      → decode_hsc_envelope max_pdu_size function_100 (pdu nested)
        ≡ ok (record { function = function_100; payload = nested })
  unfolding decode_hsc_envelope decode_exact_envelope exact_envelope
  pdu_envelope nested few = ground arith

  pdu_response :
      (nested : List ℕ)
      → length nested ≤ 251
      → decode_hsc_response max_pdu_size function_100 (pdu nested)
        ≡ ok (record { function = function_100; payload = nested })
  unfolding decode_hsc_response is_hsc_function
  pdu_response nested few = grind (arith, pdu_envelope nested few)

  answered :
      (s : OperationSpec) (body reply : List ℕ) (k : ℕ)
      → IsSpec s
      → length (message s s.request_tag body) ≤ 251
      → length (message s s.response_tag reply) ≤ 251
      → sequence_loop max_pdu_size s (message s s.request_tag body) false (
          replicate k (pdu (message s s.request_tag body))
          ++ (pdu (message s s.response_tag reply) ∷ []))
        ≡ ok (replicate k intermediate ++ (terminal reply ∷ []))
  unfolding sequence_loop
  answered s body reply zero good few few' = grind (
    arith,
    pdu_response (message s s.response_tag reply) few',
    answer_terminal s good body reply few few',
  )
  answered s body reply (suc k) good few few' =
      let echoed : classify s (message s s.request_tag body) false (message s s.request_tag body)
          ≡ ok intermediate =
        unfold classify in grind (arith, same_bytes_refl (message s s.request_tag body)) in
      grind (
        arith,
        pdu_response (message s s.request_tag body) few,
        echoed,
        answered s body reply k good few few',
      )

  -- A request of a listed operation, echoed up to seven times and answered with a field of the
  -- operation's response tag, decodes to as many echoes and the bytes of that field. The Modbus
  -- library's PDUs have at least 253 bytes, and both messages are within the bound of 251.
  pub decode_sequence-answered :
      (operation : TeslaFc100Operation) (s : OperationSpec) (body reply : List ℕ) (k : ℕ)
      → operation_specs operation ≡ some s
      → k ≤ 7
      → length (operation_message s body) ≤ 251
      → length (append_field s.family (append_field s.response_tag reply)) ≤ 251
      → decode_sequence max_pdu_size
          (ascii "wc3_24_44_3")
          operation
          (pdu (operation_message s body))
          (replicate k (pdu (operation_message s body))
            ++ (pdu (append_field s.family (append_field s.response_tag reply)) ∷ []))
        ≡ ok (replicate k intermediate ++ (terminal reply ∷ []))
  unfolding decode_sequence operation_message
  decode_sequence-answered operation s body reply k h few fit fit' =
      let good = specs-IsSpec operation s h in
      let request = pdu_envelope (message s s.request_tag body) fit in
      let loop = answered s body reply k good fit fit' in
      let many =
        length-append (replicate k (pdu (message s s.request_tag body)))
          (pdu (message s s.response_tag reply) ∷ []) in
      let echoes = length-replicate k (pdu (message s s.request_tag body)) in
      grind (arith, h, request, loop, many, echoes)

-- What the Modbus library gives: a request that it constructs carries the bytes it was given.
pub record PrivateFunctionRequests {ℓ} (Request : Type ℓ) : Type ℓ where
  pub new_request : ℕ → List ℕ → Result OperationError Request
  pub payload : Request → List ℕ
  pub payload_kept :
      (function : ℕ) (bytes : List ℕ) (r : Request)
      → new_request function bytes ≡ ok r
      → payload r ≡ bytes

-- A request that is built for an operation decodes, by its envelope and its two fields, to the body
-- that it was built from, where the Modbus library's PDUs have at least 253 bytes.
pub build_request-read {ℓ} :
    {Request : Type ℓ} (lib : PrivateFunctionRequests Request) (max_pdu_size : ℕ) (version : List ℕ)
    (operation : TeslaFc100Operation) (body : List ℕ) (r : Request)
    → 253 ≤ max_pdu_size
    → build_request lib.new_request version operation body ≡ ok r
    → (s : OperationSpec) × (nested : List ℕ) × (inner : List ℕ) × (operation_specs operation
        ≡ some s)
      × (decode_hsc_envelope max_pdu_size 100 (lib.payload r)
          ≡ ok (record { function = 100; payload = nested }))
      × (decode_exact_field nested s.family ≡ ok inner)
      × (decode_exact_field inner s.request_tag ≡ ok body)
unfolding build_request operation_message
build_request-read lib m version operation body r room h =
    elim (Option-cases (operation_specs operation)) [
      | inl q ↦ absurd (grind (arith, q, h))
      | inr (s, q) ↦
          let good = specs-IsSpec operation s q in
          let nested = message s s.request_tag body in
          let few : length nested ≤ 251 = ground (arith, q, h) in
          let byte : length nested % 256 ≡ length nested = omega arith in
          let made : lib.new_request function_100 ((length nested % 256) ∷ nested) ≡ ok r =
            ground (arith, q, h) in
          let kept : lib.payload r ≡ pdu nested =
            lib.payload_kept function_100 _ r made ∙ ap (λ n. n ∷ nested) byte in
          (
            s,
            nested,
            append_field s.request_tag body,
            q,
            ap (decode_hsc_envelope m function_100) kept ∙ pdu_envelope m room nested few,
            read_family s good s.request_tag body few,
            decode_exact_field-append_field s.request_tag body good.request_tag_small
                (body_few s good s.request_tag body few),
          )
    ]
