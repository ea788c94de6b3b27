-- ===== src/Tesla/Codec/Gates.antt =====
-- What a registry with a Tesla profile sends.
use helianthus_modbusreg.Base.{
  ℕ, ◌≡◌, sym, ap, subst, ◌∙◌, true, some, List, [], ◌∷◌, Result, ok, All, Bool-cases, Result-cases,
  inl, inr, arith,
}
use helianthus_modbusreg.Tesla.Envelope.{function_100}
use helianthus_modbusreg.Tesla.Operation.{map_error}
use helianthus_modbusreg.Tesla.Profile.{
  TeslaHscProfileConfig, TeslaHscProfile, TedapiOperation, ProfileError, new_profile,
  operation_admission_for, request_pdu, encode_qualified_function,
}
use helianthus_modbusreg.Tesla.Profile.Admission.{IsAdmitted, operation_admission_for_iff}
use helianthus_modbusreg.Tesla.Replay.{QualifiedFunctionResult}
use helianthus_modbusreg.Registry.{
  QualifiedFunctionSelector, QualifiedFunctionProfile, QualifiedFunctionCodec, is_selected,
  dispatch,
}
use helianthus_modbusreg.Registry.Dispatch.{matching, dispatch-IsSent}
use helianthus_modbusreg.Tesla.Codec.{CodecError, of_profile, operation_named, tesla_codec}

some_same {ℓ} : {A : Type ℓ} {a b : A} → some a ≡ some b → a ≡ b
some_same h = cc h

module _ {Request Policy : Type 0} (new_request : ℕ → List ℕ → Result ProfileError Request)
    (default_policy : Policy) (max_pdu_size : ℕ) (digest : List ℕ → List ℕ) where
  encoded_gates :
      (p : TeslaHscProfile) (operation : TedapiOperation) (r : Request) (policy : Policy)
      → encode_qualified_function new_request default_policy p operation ≡ ok (r, policy)
      → ((operation_admission_for p operation).outbound_allowed ≡ true)
        × ((bytes : List ℕ) × (request_pdu operation ≡ ok bytes)
            × (new_request function_100 bytes ≡ ok r))
  unfolding encode_qualified_function
  encoded_gates p operation r policy h =
      elim (Bool-cases (operation_admission_for p operation).outbound_allowed) [
        | inr blocked ↦ absurd (grind (arith, blocked, h))
        | inl allowed ↦ elim (Result-cases (request_pdu operation)) [
          | inr (e, q) ↦ absurd (grind (arith, allowed, q, h))
          | inl (bytes, q) ↦ elim (Result-cases (new_request function_100 bytes)) [
            | inr (e, n) ↦ absurd (grind (arith, allowed, q, n, h))
            | inl (r', n) ↦
                let same : r' ≡ r = ground (arith, allowed, q, n, h) in
                (allowed, (bytes, q, n ∙ ap ok same))
          ]
        ]
      ]

  -- A registered profile with the codec of a Tesla profile that was constructed.
  pub record IsTesla
      (b : QualifiedFunctionProfile Request Policy QualifiedFunctionResult CodecError)
      : Type 0 where
    pub config : TeslaHscProfileConfig
    pub profile : TeslaHscProfile
    pub constructed : new_profile config ≡ ok profile
    pub its_codec :
        b.codec ≡ some (tesla_codec new_request default_policy max_pdu_size digest profile)

  All-matching :
      (s : QualifiedFunctionSelector)
      (ps : List (QualifiedFunctionProfile Request Policy QualifiedFunctionResult CodecError))
      → All IsTesla ps
      → All IsTesla (matching s ps)
  All-matching s [] h = tt
  All-matching s (p ∷ ps) h =
      elim (Bool-cases (is_selected Request Policy QualifiedFunctionResult CodecError s p)) [
        | inl shown ↦ simp shown (h.0, All-matching s ps h.1)
        | inr unseen ↦ simp unseen (All-matching s ps h.1)
      ]

  codec_gates :
      (p : TeslaHscProfile) (name : List ℕ)
      (codec : QualifiedFunctionCodec Request Policy QualifiedFunctionResult CodecError)
      (r : Request) (policy : Policy)
      → codec ≡ tesla_codec new_request default_policy max_pdu_size digest p
      → codec.encode name ≡ ok (r, policy)
      → encode_qualified_function new_request default_policy p (operation_named name)
        ≡ ok (r, policy)
  unfolding tesla_codec
  codec_gates p name codec r policy same h =
      let sent : map_error of_profile
            (encode_qualified_function new_request default_policy p (operation_named name))
          ≡ ok (r, policy) =
        ap (λ c. c.encode name) (sym same) ∙ h in
      elim (Result-cases
        (encode_qualified_function new_request default_policy p (operation_named name))) [
          | inl (pair, q) ↦
              let alike : pair ≡ (r, policy) = grind (arith, q, sent) in q ∙ ap ok alike
          | inr (e, q) ↦ absurd (grind (arith, q, sent))
        ]

  -- Where all registered profiles are Tesla's, a dispatch sends a request only for the one profile of
  -- the endpoint and the unit, only if its configuration meets every gate of the operation, and the
  -- request is the Modbus library's for function 100 and the fixed PDU of the operation.
  pub dispatch-IsAdmitted :
      (function_code : Request → ℕ)
      (exchange : ℕ → Request → Policy → Result CodecError (List (List ℕ)))
      (ps : List (QualifiedFunctionProfile Request Policy QualifiedFunctionResult CodecError))
      (s : QualifiedFunctionSelector) (sent : ℕ × Request × Policy)
      (rest : List (ℕ × Request × Policy))
      → All IsTesla ps
      → (dispatch Request Policy QualifiedFunctionResult CodecError function_code exchange ps
          s).exchanged
        ≡ sent ∷ rest
      → (b : QualifiedFunctionProfile Request Policy QualifiedFunctionResult CodecError)
        × (t : IsTesla b) × (matching s ps ≡ b ∷ [])
        × IsAdmitted t.config (operation_named s.operation)
        × ((bytes : List ℕ) × (request_pdu (operation_named s.operation) ≡ ok bytes)
            × (new_request 100 bytes ≡ ok sent.1))
  dispatch-IsAdmitted function_code exchange ps s sent rest good h =
      let (found, none_left) = dispatch-IsSent function_code exchange ps s sent rest h in
      let t : IsTesla found.profile = (subst (All IsTesla) found.only (All-matching s ps good)).0 in
      let same : found.codec
          ≡ tesla_codec new_request default_policy max_pdu_size digest t.profile =
        some_same (sym found.its_codec ∙ t.its_codec) in
      let encoded =
        codec_gates t.profile s.operation found.codec sent.1 sent.2 same found.encoded in
      let (allowed, pdu) =
        encoded_gates t.profile (operation_named s.operation) sent.1 sent.2 encoded in
      (
        found.profile,
        t,
        found.only,
        (operation_admission_for_iff t.config t.profile (operation_named s.operation)
              t.constructed).0
            allowed,
        pdu,
      )
