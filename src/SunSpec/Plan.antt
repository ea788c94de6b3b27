-- ===== src/SunSpec/Plan.antt =====
-- sunspec_chain_plan.go: the immutable read plan of a chain.
pub mod Accepted
use helianthus_modbusreg.Base.{
  ℕ, ◌+◌, ◌/◌, ◌%◌, ◌^◌, Bool, true, false, ◌&&◌, ◌||◌, not, List, [], ◌∷◌, ◌++◌, Option, none,
  some, Result, ok, err, ◌>>=◌, ◌>>◌, refuse_if, ltb, leb, ◌==◌, if◌then◌else◌, length, has,
}
use helianthus_modbusreg.Base.Bytes.{same_bytes}
use helianthus_modbusreg.SunSpec.{
  SunSpecWireKey, SunSpecDecoderKey, SunSpecReadRequest, SunSpecReadPurpose, signature,
  valid_revision, end_fits,
}

pub record SunSpecChainLimits : Type 0 where
  pub max_total_words : ℕ
  pub max_occurrences : ℕ

pub record SunSpecChainPlanSpec : Type 0 where
  pub schema_revision : List ℕ
  pub base_candidates : List ℕ
  pub limits : SunSpecChainLimits
  pub decoder_keys : List SunSpecDecoderKey
  pub structural_candidate_ids : List ℕ

-- The map from wire keys is the list of its entries; `known` and the structural ids are sets.
pub record SunSpecChainPlan : Type 0 where
  pub revision : List ℕ
  pub bases : List ℕ
  pub limits : SunSpecChainLimits
  pub keys : List (SunSpecWireKey × SunSpecDecoderKey)
  pub known : List ℕ
  pub structural_candidate_ids : List ℕ
  pub nonce : ℕ
  pub initial : List SunSpecReadRequest

pub data PlanError : Type 0 where
  bounds_not_finite base_duplicated base_out_of_range key_not_exact key_duplicated : PlanError
  structural_duplicated : PlanError

abbrev pub same_wire_key : SunSpecWireKey → SunSpecWireKey → Bool
same_wire_key a b = a.model_id == b.model_id && a.model_length == b.model_length

abbrev pub find_key :
    SunSpecWireKey → List (SunSpecWireKey × SunSpecDecoderKey) → Option SunSpecDecoderKey
find_key k [] = none
find_key k ((j, d) ∷ m) = if same_wire_key j k then some d else find_key k m

abbrev is_some {ℓ} : {A : Type ℓ} → Option A → Bool
is_some none = false
is_some (some a) = true

unfoldable pub bounds_finite : SunSpecChainPlanSpec → Bool
bounds_finite s =
    valid_revision s.schema_revision
    && not (length s.base_candidates == 0)
    && leb 4 s.limits.max_total_words
    && not (s.limits.max_occurrences == 0)
    && leb s.limits.max_total_words 65536
    && leb s.limits.max_occurrences (s.limits.max_total_words / 2)

-- `for _, b := range p.bases`, with the bases seen so far.
unfoldable pub check_bases : List ℕ → List ℕ → Result PlanError (Unit {0})
check_bases seen [] = ok tt
check_bases seen (b ∷ bs) =
    let rest = check_bases (b ∷ seen) bs in
    if has b seen then err base_duplicated else if end_fits b 2 then rest else err base_out_of_range

-- `for _, k := range s.DecoderKeys`: the key map and the known model ids.
unfoldable pub collect_keys :
    List ℕ
    → List (SunSpecWireKey × SunSpecDecoderKey)
    → List ℕ
    → List SunSpecDecoderKey
    → Result PlanError (List (SunSpecWireKey × SunSpecDecoderKey) × List ℕ)
collect_keys revision keys known [] = ok (keys, known)
collect_keys revision keys known (k ∷ ks) =
    let wk : SunSpecWireKey = record { model_id = k.model_id; model_length = k.model_length } in
    let rest = collect_keys revision (keys ++ (wk, k) ∷ []) (k.model_id ∷ known) ks in
    if not (same_bytes k.schema_revision revision) || k.model_length == 0
    then err key_not_exact
    else if is_some (find_key wk keys)
    then err key_duplicated
    else rest

-- `for _, id := range s.StructuralCandidateIDs`
unfoldable pub collect_structural : List ℕ → List ℕ → Result PlanError (List ℕ)
collect_structural seen [] = ok seen
collect_structural seen (id ∷ ids) =
    let rest = collect_structural (seen ++ id ∷ []) ids in
    if has id seen then err structural_duplicated else rest

-- The signature requests, numbered from `i`; a request belongs to no chain yet.
unfoldable pub initial_requests : ℕ → ℕ → List ℕ → List SunSpecReadRequest
initial_requests nonce i [] = []
initial_requests nonce i (b ∷ bs) =
    record {
      address = b;
      words = 2;
      purpose = signature;
      nonce = nonce;
      chain_instance = 0;
      sequence = i;
    }
    ∷ initial_requests nonce (i + 1) bs

-- `NewSunSpecChainPlan`; `nonce` is what the process-wide counter hands out.
unfoldable pub new_plan : ℕ → SunSpecChainPlanSpec → Result PlanError SunSpecChainPlan
new_plan nonce s = do
  refuse_if (not (bounds_finite s)) bounds_not_finite
  check_bases [] s.base_candidates
  (keys, known) ← collect_keys s.schema_revision [] [] s.decoder_keys
  structural ← collect_structural [] s.structural_candidate_ids
  ok (record {
    revision = s.schema_revision;
    bases = s.base_candidates;
    limits = s.limits;
    keys = keys;
    known = known;
    structural_candidate_ids = structural;
    nonce = nonce;
    initial = initial_requests nonce 1 s.base_candidates;
  })
