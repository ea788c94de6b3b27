-- ===== src/Registry.antt =====
-- qualified_function_registry.go: the registry that selects one codec for an endpoint and a unit, and
-- the dispatch of an operation to it.
pub mod Dispatch
use helianthus_modbusreg.Base.{
  ℕ, ◌+◌, Bool, true, false, ◌&&◌, ◌||◌, not, Option, none, some, List, [], ◌∷◌, Result, ok, err,
  ltb, leb, ◌==◌, if◌then◌else◌, ◌>>=◌, ◌>>◌, refuse_if, length,
}
use helianthus_modbusreg.Base.Bytes.{same_bytes}
use helianthus_modbusreg.Ledger.Limits.{max_contract_string_bytes}

-- The characters of an identity: letters, digits and four marks. A byte above 127 belongs to none.
abbrev identity_byte : ℕ → Bool
identity_byte b =
    (leb 97 b && leb b 122)
    || (leb 65 b && leb b 90)
    || (leb 48 b && leb b 57)
    || b == 46
    || b == 45
    || b == 95
    || b == 58

abbrev identity_bytes : List ℕ → Bool
identity_bytes [] = true
identity_bytes (b ∷ bs) = identity_byte b && identity_bytes bs

-- `validIdentity` of version.go
unfoldable pub valid_identity : List ℕ → Bool
valid_identity value =
    not (length value == 0) && leb (length value) max_contract_string_bytes && identity_bytes value

pub record QualifiedFunctionSelector : Type 0 where
  pub endpoint : List ℕ
  pub unit_id : ℕ
  pub vendor_profile : List ℕ
  pub operation : List ℕ

-- Requests and policies are the Modbus library's; `R` is a result of a codec and `E` its error.
module _ (Request Policy R E : Type 0) where
  -- `qualifiedFunctionSequenceCodec`
  pub record SequenceCodec : Type 0 where
    pub handles : List ℕ → Bool
    pub decode_sequence : List ℕ → ℕ → List (List ℕ) → Result E (List R)

  -- `QualifiedFunctionCodec`, with the interface for sequences where the codec has it.
  pub record QualifiedFunctionCodec : Type 0 where
    pub encode : List ℕ → Result E (Request × Policy)
    pub decode : List ℕ → ℕ → List ℕ → Result E R
    pub sequences : Option SequenceCodec

  -- A nil codec is `none`.
  pub record QualifiedFunctionProfile : Type 0 where
    pub endpoint : List ℕ
    pub unit_id : ℕ
    pub vendor_profile : List ℕ
    pub codec : Option QualifiedFunctionCodec

  pub data RegistryError : Type 0 where
    no_profiles profile_invalid : RegistryError

  -- `ErrQualifiedFunctionNoSend`, an error of the exchange and one of the codec. A nil codec, which
  -- the constructor refuses, would panic.
  pub data DispatchError : Type 0 where
    no_send panic : DispatchError
    exchange_failed decode_failed : E → DispatchError

  abbrev has_codec : Option QualifiedFunctionCodec → Bool
  has_codec none = false
  has_codec (some codec) = true

  abbrev bad_unit : ℕ → Bool
  bad_unit unit_id = unit_id == 0 || ltb 247 unit_id

  -- The loop of `NewQualifiedFunctionRegistry`.
  unfoldable pub check_profiles : List QualifiedFunctionProfile → Result RegistryError (Unit {0})
  unfolding valid_identity
  check_profiles [] = ok tt
  check_profiles (p ∷ ps) =
      refuse_if
        (not (valid_identity p.endpoint)
          || bad_unit p.unit_id
          || not (valid_identity p.vendor_profile)
          || not (has_codec p.codec))
        profile_invalid
      >> check_profiles ps

  -- `NewQualifiedFunctionRegistry`: the registry is its profiles.
  unfoldable pub new_registry :
      List QualifiedFunctionProfile → Result RegistryError (List QualifiedFunctionProfile)
  unfolding check_profiles
  new_registry profiles =
      refuse_if (length profiles == 0) no_profiles >> check_profiles profiles >> ok profiles

  abbrev pub is_selected : QualifiedFunctionSelector → QualifiedFunctionProfile → Bool
  is_selected s p = same_bytes p.endpoint s.endpoint && p.unit_id == s.unit_id

  pub record Selection : Type 0 where
    pub selected : Option QualifiedFunctionProfile
    pub matches : ℕ

  -- The loop over the profiles: the last match, and the number of them.
  unfoldable pub select_profile :
      QualifiedFunctionSelector → Selection → List QualifiedFunctionProfile → Selection
  select_profile s found [] = found
  select_profile s found (p ∷ ps) =
      let next =
        if is_selected s p
        then record { selected = some p; matches = found.matches + 1 }
        else found in
      select_profile s next ps

  -- What a dispatch has exchanged, and its result.
  pub record Dispatched : Type 0 where
    pub exchanged : List (ℕ × Request × Policy)
    pub outcome : Result DispatchError (List R)

  abbrev pub refused : Dispatched
  refused = record { exchanged = []; outcome = err no_send }

  abbrev or_failed {ℓ κ} :
      {A : Type ℓ} {F : Type κ} → (F → DispatchError) → Result F A → Result DispatchError A
  or_failed wrap (ok value) = ok value
  or_failed wrap (err refusal) = err (wrap refusal)

  -- The loop over the responses, each decoded by itself.
  unfoldable pub decode_each : (List ℕ → Result E R) → List (List ℕ) → Result DispatchError (List R)
  decode_each decode [] = ok []
  decode_each decode (payload ∷ payloads) = or_failed decode_failed (decode payload) >>= λ result.
      (decode_each decode payloads >>= λ results. ok (result ∷ results))

  unfoldable pub decode_responses_by :
      QualifiedFunctionCodec
      → Option SequenceCodec
      → List ℕ
      → ℕ
      → List (List ℕ)
      → Result DispatchError (List R)
  unfolding decode_each
  decode_responses_by codec none operation function payloads =
      decode_each (codec.decode operation function) payloads
  decode_responses_by codec (some sequences) operation function payloads =
      if sequences.handles operation
      then or_failed decode_failed (sequences.decode_sequence operation function payloads)
      else decode_each (codec.decode operation function) payloads

  -- `FunctionCode` of a request, and the exchange with the payloads of its responses.
  module _ (function_code : Request → ℕ)
      (exchange : ℕ → Request → Policy → Result E (List (List ℕ))) where
    unfoldable pub exchange_with :
        QualifiedFunctionSelector
        → QualifiedFunctionCodec
        → Result E (Request × Policy)
        → Dispatched
    unfolding decode_responses_by
    exchange_with s codec (err refusal) = refused
    exchange_with s codec (ok (request, policy)) = record {
      exchanged = (s.unit_id, request, policy) ∷ [];
      outcome = or_failed exchange_failed (exchange s.unit_id request policy) >>= λ payloads.
          decode_responses_by codec codec.sequences s.operation (function_code request) payloads;
    }

    abbrev pub with_codec : QualifiedFunctionSelector → Option QualifiedFunctionCodec → Dispatched
    with_codec s none = record { exchanged = []; outcome = err panic }
    with_codec s (some codec) = exchange_with s codec (codec.encode s.operation)

    abbrev pub with_profile :
        QualifiedFunctionSelector → ℕ → Option QualifiedFunctionProfile → Dispatched
    with_profile s matches none = refused
    with_profile s matches (some p) =
        if not (matches == 1) || not (same_bytes p.vendor_profile s.vendor_profile)
        then refused
        else with_codec s p.codec

    -- `Dispatch`, on a registry, a context and an exchanger that are not nil.
    unfoldable pub dispatch : List QualifiedFunctionProfile → QualifiedFunctionSelector → Dispatched
    unfolding exchange_with select_profile valid_identity
    dispatch profiles s =
        let found = select_profile s (record { selected = none; matches = 0 }) profiles in
        if not (valid_identity s.endpoint)
          || bad_unit s.unit_id
          || not (valid_identity s.vendor_profile)
          || not (valid_identity s.operation)
        then refused
        else with_profile s found.matches found.selected
