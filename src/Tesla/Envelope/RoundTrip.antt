-- ===== src/Tesla/Envelope/RoundTrip.antt =====
-- The envelope of a request and its decoder are inverse, and an exchange keeps every byte.
use helianthus_modbusreg.Base.{
  ℕ, ◌+◌, ◌-◌, ◌%◌, ◌≤◌, ◌<◌, ◌≡◌, ◌↔◌, sym, ap, ap₂, ◌∙◌, List, [], ◌∷◌, ok, ◌==◌, if◌then◌else◌,
  length, map, Result-cases, subst, All, length-map, ◌⊎◌, inl, inr, arith,
}
use helianthus_modbusreg.Tesla.Envelope.{
  function_100, TeslaHscEnvelope, TeslaHscResponse, TeslaHscSyntacticRequest, exact_envelope,
  decode_exact_envelope, decode_request_envelope, decode_hsc_envelope, decode_hsc_response,
  decode_responses, decode_exchange, new_syntactic_request,
}

module _ (max_pdu_size : ℕ) where
  abbrev envelope_of : ℕ → List ℕ → TeslaHscEnvelope
  envelope_of function nested = record { function = function; payload = nested }

  abbrev request_of : ℕ → List ℕ → TeslaHscSyntacticRequest
  request_of function payload = record { function = function; payload = payload }

  -- An envelope is its length and its bytes, within the bound.
  exact_envelope_ok :
      (function : ℕ) (nested : List ℕ)
      → length nested + 1 < max_pdu_size
      → decode_exact_envelope max_pdu_size function (length nested ∷ nested)
        ≡ ok (envelope_of function nested)
  unfolding decode_exact_envelope exact_envelope
  exact_envelope_ok function nested h = ground arith

  pub decode_exact_envelope-shape :
      (function : ℕ) (payload nested : List ℕ)
      → decode_exact_envelope max_pdu_size function payload ≡ ok (envelope_of function nested)
      → (payload ≡ length nested ∷ nested) × (length nested < max_pdu_size - 1)
  unfolding decode_exact_envelope exact_envelope
  decode_exact_envelope-shape function [] nested h = absurd (ground arith)
  decode_exact_envelope-shape function (prefix ∷ rest) nested h = ground arith

  request_ok :
      (function : ℕ) (nested payload : List ℕ)
      → max_pdu_size ≤ 256
      → new_syntactic_request max_pdu_size function nested ≡ ok (request_of function payload)
      → decode_request_envelope max_pdu_size function payload ≡ ok (envelope_of function nested)
  unfolding new_syntactic_request decode_request_envelope decode_exact_envelope exact_envelope
  request_ok function nested payload small h = ground arith

  envelope_ok :
      (function : ℕ) (nested payload : List ℕ)
      → max_pdu_size ≤ 256
      → decode_request_envelope max_pdu_size function payload ≡ ok (envelope_of function nested)
      → new_syntactic_request max_pdu_size function nested ≡ ok (request_of function payload)
  unfolding new_syntactic_request decode_request_envelope
  envelope_ok function nested payload small h =
      let (shape, few) = decode_exact_envelope-shape function payload nested (ground arith) in
      let byte : length nested % 256 ≡ length nested = omega arith in
      let made = exact_envelope_ok function nested (omega arith) in
      ground (arith, made, ap (λ n. n ∷ nested) byte)

  -- With a PDU of at most 256 bytes the constructor of requests and the decoder of their envelope
  -- are inverse: a PDU is constructed from bytes exactly when it decodes to them.
  pub new_syntactic_request-decode_request_envelope :
      (function : ℕ) (nested payload : List ℕ)
      → max_pdu_size ≤ 256
      → (new_syntactic_request max_pdu_size function nested
          ≡ ok (record { function = function; payload = payload }))
        ↔ (decode_request_envelope max_pdu_size function payload
            ≡ ok (record { function = function; payload = nested }))
  new_syntactic_request-decode_request_envelope function nested payload small =
      (request_ok function nested payload small, envelope_ok function nested payload small)

  -- The bytes that a response was decoded from.
  abbrev pub response_bytes : TeslaHscResponse → List ℕ
  response_bytes r = if r.function == function_100 then length r.payload ∷ r.payload else r.payload

  pub response_kept :
      (function : ℕ) (payload : List ℕ) (r : TeslaHscResponse)
      → decode_hsc_response max_pdu_size function payload ≡ ok r
      → (r.function ≡ function) × (response_bytes r ≡ payload)
  unfolding decode_hsc_response decode_hsc_envelope decode_exact_envelope exact_envelope
  response_kept function [] r h = ground arith
  response_kept function (prefix ∷ nested) r h = ground arith

  responses_kept :
      (function : ℕ) (payloads : List (List ℕ)) (rs : List TeslaHscResponse)
      → decode_responses max_pdu_size function payloads ≡ ok rs
      → All (λ r. r.function ≡ function) rs × (map response_bytes rs ≡ payloads)
  unfolding decode_responses
  responses_kept function [] rs h = ground arith
  responses_kept function (p ∷ ps) rs h =
      elim (Result-cases (decode_hsc_response max_pdu_size function p)) [
        | inl (r, q) ↦ elim (Result-cases (decode_responses max_pdu_size function ps)) [
          | inl (more, q') ↦
              let made : r ∷ more ≡ rs = grind (arith, q, q') in
              let (f, kept) = response_kept function p r q in
              let (fs, all_kept) = responses_kept function ps more q' in
              subst (λ l. All (λ r. r.function ≡ function) l × (map response_bytes l ≡ (p ∷ ps)))
                made ((f, fs), ap₂ (λ a b. a ∷ b) kept all_kept)
          | inr (e, q') ↦ absurd (grind (arith, q, q'))
        ]
        | inr (e, q) ↦ absurd (grind (arith, q))
      ]

  -- The responses of an accepted exchange are of the asked function and hold every byte that was
  -- received, in order; there are 1 to 8 of them, and one only unless the function is 100.
  pub decode_exchange-lossless :
      (function : ℕ) (payloads : List (List ℕ)) (rs : List TeslaHscResponse)
      → decode_exchange max_pdu_size function payloads ≡ ok rs
      → All (λ r. r.function ≡ function) rs
        × (map response_bytes rs ≡ payloads)
        × (1 ≤ length rs)
        × (length rs ≤ 8)
        × ((function ≡ 100) ⊎ (length rs ≡ 1))
  unfolding decode_exchange
  decode_exchange-lossless function payloads rs h =
      let (fs, kept) = responses_kept function payloads rs (ground arith) in
      let many : length rs ≡ length payloads =
        sym (length-map response_bytes rs) ∙ ap length kept in
      (fs, kept, ground (arith, many), ground (arith, many), ground (arith, many))
