-- ===== src/Registry/Dispatch.antt =====
-- What a dispatch sends, and when it sends nothing.
use helianthus_modbusreg.Base.{
  ℕ, ◌+◌, ◌≡◌, ◌==◌, ◌&&◌, refl, sym, ap, ◌∙◌, true, Option, none, some, List, [], ◌∷◌, Result, ok,
  err, if◌then◌else◌, length, Bool-cases, Option-cases, inl, inr, arith,
}
use helianthus_modbusreg.Base.Bytes.{same_bytes, same_bytes_eq}
use helianthus_modbusreg.Registry.{
  QualifiedFunctionSelector, QualifiedFunctionProfile, QualifiedFunctionCodec, Selection,
  is_selected, select_profile, exchange_with, with_codec, dispatch,
}

module _ {Request Policy R E : Type 0} where
  -- The registered profiles of an endpoint and a unit.
  abbrev pub matching :
      QualifiedFunctionSelector
      → List (QualifiedFunctionProfile Request Policy R E)
      → List (QualifiedFunctionProfile Request Policy R E)
  matching s [] = []
  matching s (p ∷ ps) =
      let rest = matching s ps in
      if same_bytes p.endpoint s.endpoint && p.unit_id == s.unit_id then p ∷ rest else rest

  abbrev last_or :
      Option (QualifiedFunctionProfile Request Policy R E)
      → List (QualifiedFunctionProfile Request Policy R E)
      → Option (QualifiedFunctionProfile Request Policy R E)
  last_or found [] = found
  last_or found (p ∷ ps) = last_or (some p) ps

  select_profile-matching :
      (s : QualifiedFunctionSelector) (found : Selection Request Policy R E)
      (ps : List (QualifiedFunctionProfile Request Policy R E))
      → ((select_profile Request Policy R E s found ps).selected
          ≡ last_or found.selected (matching s ps))
        × ((select_profile Request Policy R E s found ps).matches
            ≡ found.matches + length (matching s ps))
  unfolding select_profile
  select_profile-matching s found [] = (refl, omega arith)
  select_profile-matching s found (p ∷ ps) =
      elim (Bool-cases (is_selected Request Policy R E s p)) [
        | inl shown ↦
            let (last, many) =
              select_profile-matching s (record { selected = some p; matches = found.matches + 1 })
                ps in
            (simp shown last, simp shown (omega (arith, many)))
        | inr unseen ↦
            let (last, many) = select_profile-matching s found ps in
            (simp unseen last, simp unseen many)
      ]

  -- The only match is the one that was selected.
  one_match :
      (ps : List (QualifiedFunctionProfile Request Policy R E))
      (p : QualifiedFunctionProfile Request Policy R E)
      → length ps ≡ 1
      → last_or none ps ≡ some p
      → ps ≡ p ∷ []
  one_match [] p h j = absurd (omega (arith, h))
  one_match (q ∷ []) p h j = let same : q ≡ p = cc j in ap (λ a. a ∷ []) same
  one_match (q ∷ q' ∷ qs) p h j = absurd (omega (arith, h))

  -- A request that was sent: of the only profile that matches, whose vendor is the asked one, and as
  -- the codec of that profile encodes the operation.
  pub record IsSent (ps : List (QualifiedFunctionProfile Request Policy R E))
      (s : QualifiedFunctionSelector) (sent : ℕ × Request × Policy) : Type 0 where
    pub profile : QualifiedFunctionProfile Request Policy R E
    pub codec : QualifiedFunctionCodec Request Policy R E
    pub only : matching s ps ≡ profile ∷ []
    pub same_vendor : profile.vendor_profile ≡ s.vendor_profile
    pub its_codec : profile.codec ≡ some codec
    pub encoded : codec.encode s.operation ≡ ok (sent.1, sent.2)
    pub same_unit : sent.0 ≡ s.unit_id

  module _ (function_code : Request → ℕ)
      (exchange : ℕ → Request → Policy → Result E (List (List ℕ))) where
    exchange_sent :
        (s : QualifiedFunctionSelector) (codec : QualifiedFunctionCodec Request Policy R E)
        (r : Result E (Request × Policy)) (sent : ℕ × Request × Policy)
        (rest : List (ℕ × Request × Policy))
        → (exchange_with Request Policy R E function_code exchange s codec r).exchanged
          ≡ sent ∷ rest
        → (r ≡ ok (sent.1, sent.2)) × (sent.0 ≡ s.unit_id) × (rest ≡ [])
    unfolding exchange_with
    exchange_sent s codec (err refusal) sent rest h = absurd (cc h)
    exchange_sent s codec (ok (request, policy)) sent rest h =
        let same : (s.unit_id, request, policy) ≡ sent = cc h in
        let none_left : [] ≡ rest = cc h in
        (ap (λ a. ok (a.1, a.2)) same, ap (λ a. a.0) (sym same), sym none_left)

    codec_sent :
        (s : QualifiedFunctionSelector) (o : Option (QualifiedFunctionCodec Request Policy R E))
        (sent : ℕ × Request × Policy) (rest : List (ℕ × Request × Policy))
        → (with_codec Request Policy R E function_code exchange s o).exchanged ≡ sent ∷ rest
        → (codec : QualifiedFunctionCodec Request Policy R E) × (o ≡ some codec)
          × (codec.encode s.operation ≡ ok (sent.1, sent.2))
          × (sent.0 ≡ s.unit_id)
          × (rest ≡ [])
    codec_sent s none sent rest h = absurd (cc h)
    codec_sent s (some codec) sent rest h =
        let (encoded, unit, none_left) =
          exchange_sent s codec (codec.encode s.operation) sent rest h in
        (codec, refl, encoded, unit, none_left)

    -- A dispatch sends at most one request. It sends it only where exactly one registered profile has
    -- the endpoint and the unit, that profile is of the asked vendor, and its codec encodes the
    -- operation as that request; and it is sent to the asked unit.
    pub dispatch-IsSent :
        (ps : List (QualifiedFunctionProfile Request Policy R E)) (s : QualifiedFunctionSelector)
        (sent : ℕ × Request × Policy) (rest : List (ℕ × Request × Policy))
        → (dispatch Request Policy R E function_code exchange ps s).exchanged ≡ sent ∷ rest
        → IsSent ps s sent × (rest ≡ [])
    unfolding dispatch
    dispatch-IsSent ps s sent rest h =
        let found =
          select_profile Request Policy R E s (record { selected = none; matches = 0 }) ps in
        let (last, many) = select_profile-matching s (record { selected = none; matches = 0 }) ps in
        elim (Option-cases found.selected) [
          | inl q ↦ absurd (ground (arith, q, h))
          | inr (p, q) ↦
              let one : found.matches ≡ 1 = ground (arith, q, h) in
              let vendor : same_bytes p.vendor_profile s.vendor_profile ≡ true =
                ground (arith, q, h) in
              let sent' : (with_codec Request Policy R E function_code exchange s p.codec).exchanged
                  ≡ sent ∷ rest =
                ground (arith, q, h) in
              let (codec, has, encoded, unit, none_left) = codec_sent s p.codec sent rest sent' in
              (
                record {
                  profile = p;
                  codec = codec;
                  only = one_match (matching s ps) p (omega (arith, many, one)) (sym last ∙ q);
                  same_vendor = same_bytes_eq p.vendor_profile s.vendor_profile vendor;
                  its_codec = has;
                  encoded = encoded;
                  same_unit = unit;
                },
                none_left,
              )
        ]
