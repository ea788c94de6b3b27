-- ===== src/Tesla/Operation/Sequence.antt =====
-- The shape of an accepted sequence of responses: echoes, then one answer.
use helianthus_modbusreg.Base.{
  ℕ, suc, ◌≤◌, ◌≡◌, ◌≢◌, ◌||◌, refl, sym, ap, subst, ◌∙◌, Bool, true, false, List, [], ◌∷◌, Result,
  ok, length, Result-cases, Option-cases, ◌⊎◌, inl, inr, arith,
}
use helianthus_modbusreg.Tesla.Envelope.{
  function_100, TeslaHscResponse, decode_hsc_envelope, decode_hsc_response,
}
use helianthus_modbusreg.Tesla.Operation.{
  TeslaFc100Operation, OperationSpec, OperationError, TeslaFc100OperationResult, intermediate,
  terminal, application_error, is_final, map_error, framing, operation_specs, classify,
  sequence_loop, decode_sequence,
}

-- Any number of echoes of the request, then one answer that is the last.
pub data IsSequence : List TeslaFc100OperationResult → Type 0 where
  answer : (r : TeslaFc100OperationResult) → is_final r ≡ true → IsSequence (r ∷ [])
  echo : (rs : List TeslaFc100OperationResult) → IsSequence rs → IsSequence (intermediate ∷ rs)

-- After the answer every further response is refused.
classify_after :
    (s : OperationSpec) (request message : List ℕ) (r : TeslaFc100OperationResult)
    → classify s request true message ≢ ok r
unfolding classify
classify_after s request message r = ground arith

IsSequence-start :
    (r : TeslaFc100OperationResult) (rs : List TeslaFc100OperationResult)
    → ((is_final r ≡ true) × (rs ≡ [])) ⊎ ((r ≡ intermediate) × IsSequence rs)
    → IsSequence (r ∷ rs)
IsSequence-start r rs (inl (final, none_left)) =
    subst (λ l. IsSequence (r ∷ l)) (sym none_left) (answer r final)
IsSequence-start r rs (inr (same, rest)) =
    subst (λ a. IsSequence (a ∷ rs)) (sym same) (echo rs rest)

is_final-cases : (r : TeslaFc100OperationResult) → (is_final r ≡ true) ⊎ (r ≡ intermediate)
is_final-cases intermediate = inr refl
is_final-cases (terminal body) = inl refl
is_final-cases (application_error status) = inl refl

module _ (max_pdu_size : ℕ) (s : OperationSpec) (request : List ℕ) where
  abbrev response_of : List ℕ → Result OperationError TeslaHscResponse
  response_of payload = map_error framing (decode_hsc_response max_pdu_size function_100 payload)

  -- The parts of an accepted step of the loop.
  step_parts :
      (seen : Bool) (p : List ℕ) (ps : List (List ℕ)) (rs : List TeslaFc100OperationResult)
      → sequence_loop max_pdu_size s request seen (p ∷ ps) ≡ ok rs
      → (message : List ℕ) × (r : TeslaFc100OperationResult) × (more : List
          TeslaFc100OperationResult)
        × (classify s request seen message ≡ ok r)
        × (sequence_loop max_pdu_size s request (seen || is_final r) ps ≡ ok more)
        × (r ∷ more ≡ rs)
  unfolding sequence_loop
  step_parts seen p ps rs h = elim (Result-cases (response_of p)) [
    | inl (response, q) ↦ elim (Result-cases (classify s request seen response.payload)) [
      | inl (r, c) ↦
          elim (Result-cases (sequence_loop max_pdu_size s request (seen || is_final r) ps)) [
            | inl (more, l) ↦ (response.payload, r, more, c, l, grind (arith, q, c, l, h))
            | inr (e, l) ↦ absurd (grind (arith, q, c, l, h))
          ]
      | inr (e, c) ↦ absurd (grind (arith, q, c, h))
    ]
    | inr (e, q) ↦ absurd (grind (arith, q, h))
  ]

  loop_after :
      (ps : List (List ℕ)) (rs : List TeslaFc100OperationResult)
      → sequence_loop max_pdu_size s request true ps ≡ ok rs
      → (rs ≡ []) × (ps ≡ [])
  unfolding sequence_loop
  loop_after [] rs h = ground arith
  loop_after (p ∷ ps) rs h =
      let (message, r, more, c, rest, made) = step_parts true p ps rs h in
      absurd (classify_after s request message r c)

  loop-IsSequence :
      (ps : List (List ℕ)) (rs : List TeslaFc100OperationResult)
      → sequence_loop max_pdu_size s request false ps ≡ ok rs
      → IsSequence rs × (length rs ≡ length ps)
  unfolding sequence_loop
  loop-IsSequence [] rs h = absurd (ground arith)
  loop-IsSequence (p ∷ ps) rs h =
      let (message, r, more, c, l, made) = step_parts false p ps rs h in
      subst (λ a. IsSequence a × (length a ≡ suc (length ps))) made
        (elim (is_final-cases r) [
          | inl final ↦
              let l' : sequence_loop max_pdu_size s request true ps ≡ ok more =
                ap (λ b. sequence_loop max_pdu_size s request b ps) (sym final) ∙ l in
              let (none_more, none_left) = loop_after ps more l' in
              (
                IsSequence-start r more (inl (final, none_more)),
                ap suc (ap length none_more ∙ sym (ap length none_left)),
              )
          | inr same ↦
              let l' : sequence_loop max_pdu_size s request false ps ≡ ok more =
                ap (λ a. sequence_loop max_pdu_size s request (is_final a) ps) (sym same) ∙ l in
              let (rest, many) = loop-IsSequence ps more l' in
              (IsSequence-start r more (inr (same, rest)), ap suc many)
        ])

-- An accepted sequence has 1 to 8 results, one for each response: the echoes of the request, then
-- one answer, terminal or error, which is the last.
pub decode_sequence-IsSequence :
    (max_pdu_size : ℕ) (version : List ℕ) (operation : TeslaFc100Operation)
    (request_payload : List ℕ) (payloads : List (List ℕ)) (rs : List TeslaFc100OperationResult)
    → decode_sequence max_pdu_size version operation request_payload payloads ≡ ok rs
    → IsSequence rs × (length rs ≡ length payloads) × (length rs ≤ 8)
unfolding decode_sequence
decode_sequence-IsSequence m version operation request_payload payloads rs h =
    elim (Option-cases (operation_specs operation)) [
      | inl q ↦ absurd (grind (arith, q, h))
      | inr (s, q) ↦ elim (Result-cases (decode_hsc_envelope m function_100 request_payload)) [
        | inl (request, e) ↦
            let (shape, many) =
              loop-IsSequence m s request.payload payloads rs (ground (arith, q, e, h)) in
            (shape, many, ground (arith, q, e, h, many))
        | inr (f, e) ↦ absurd (ground (arith, q, e, h))
      ]
    ]
