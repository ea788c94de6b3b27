-- ===== src/SunSpec/Chain/Steps.antt =====
-- sunspec_chain.go: `signature`, `header`, `payload` and `admitReplay`.
use helianthus_modbusreg.Base.{
  ℕ, ◌+◌, ◌-◌, ◌%◌, ◌^◌, Bool, true, false, ◌&&◌, ◌||◌, not, List, [], ◌∷◌, ◌++◌, Option, none,
  some, Result, ok, err, ltb, ◌==◌, if◌then◌else◌, length, has, find,
}
use helianthus_modbusreg.Base.Bytes.{same_bytes}
use helianthus_modbusreg.View.{LogicalViewRecord, function_read_holding_registers}
use helianthus_modbusreg.SunSpec.{
  SunSpecWireKey, SunSpecDecoderKey, SunSpecReadRequest, SunSpecReadPurpose, unset, signature,
  header, payload, SunSpecOccurrence, SunSpecSourceSpan, SunSpecChainDisposition, admitted,
  unknown_model, unsupported_length, signature_first, signature_second, end_model, max_read_words,
  u32, same_request,
}
use helianthus_modbusreg.SunSpec.Plan.{SunSpecChainPlan, find_key}
use helianthus_modbusreg.SunSpec.Chain.{
  SunSpecChain, SunSpecCurrent, SunSpecChainSnapshot, ChainError, detached, not_planned,
  view_duplicated, view_mismatch, mixed_provenance, base_not_selected, purpose_invalid,
  bases_ambiguous, signature_absent, end_marker_nonzero, zero_length, total_words_exceeded,
  occurrences_exceeded, model_range_overflows, address_out_of_range, payload_lacks_header,
  index_out_of_range, Step, empty_snapshot, failing, fail_chain, validate_source_identity, accept,
  queue_address_fits, queue, first_two, contradicts, reject◌when◌leaving◌otherwise◌,
}

abbrev pub is_signature : ℕ → ℕ → Bool
is_signature w0 w1 = w0 == signature_first && w1 == signature_second

abbrev pub is_some {ℓ} : {A : Type ℓ} → Option A → Bool
is_some none = false
is_some (some a) = true

-- The base is queued, when one candidate had the signature.
unfoldable pub probed_from :
    {C : Type 0} → SunSpecChain C → Option ℕ → Step C (SunSpecChainSnapshot C)
unfolding queue
probed_from c none = (c, err signature_absent)
probed_from c (some b) =
    queue (record c { raw = signature_first ∷ signature_second ∷ [] }) (u32 (b + 2)) 2 header

-- `signature` after the view is accepted: the base is queued when no candidate is left.
unfoldable pub probed : {C : Type 0} → SunSpecChain C → Step C (SunSpecChainSnapshot C)
unfolding probed_from
probed c = if not (length c.pending == 0) then (c, ok empty_snapshot) else probed_from c c.selected

unfoldable pub signature_words :
    {C : Type 0}
    → SunSpecChain C
    → SunSpecReadRequest
    → LogicalViewRecord
    → ℕ
    → ℕ
    → Step C (SunSpecChainSnapshot C)
unfolding accept probed
signature_words c r x w0 w1 =
    if is_signature w0 w1
    then (if is_some c.selected
        then (record c { failed = true; pending = [] }, err bases_ambiguous)
        else probed (accept (record c { selected = some r.address }) r x))
    else probed (accept c r x)

-- `signature`
unfoldable pub admit_signature :
    {C : Type 0}
    → SunSpecChain C
    → SunSpecReadRequest
    → LogicalViewRecord
    → Step C (SunSpecChainSnapshot C)
unfolding signature_words
admit_signature c r x = elim (first_two x.words) [
  | none ↦ (c, err index_out_of_range)
  | some (w0, w1) ↦ signature_words c r x w0 w1
]

-- `minSunSpec`
abbrev pub min_sun_spec : ℕ → ℕ
min_sun_spec n = if ltb max_read_words n then max_read_words else n

-- `snapshot`
abbrev pub snapshot : {C : Type 0} → SunSpecChain C → SunSpecChainSnapshot C
snapshot c = record { occurrences = c.occ; raw = c.raw; sources = c.sources }

unfoldable pub end_marker :
    {C : Type 0}
    → SunSpecChain C
    → SunSpecReadRequest
    → LogicalViewRecord
    → ℕ
    → ℕ
    → Step C (SunSpecChainSnapshot C)
unfolding accept
end_marker c r x id n =
    let c' = accept c r x in
    let done = record c' { raw = c'.raw ++ id ∷ n ∷ []; complete = true } in
    reject end_marker_nonzero when not (n == 0) leaving c otherwise (done, ok (snapshot done))

-- `header` from the bounds on a model's extent on.
unfoldable pub model_header :
    {C : Type 0}
    → SunSpecChain C
    → SunSpecReadRequest
    → LogicalViewRecord
    → ℕ
    → ℕ
    → Step C (SunSpecChainSnapshot C)
unfolding accept queue queue_address_fits
model_header c r x id n =
    let payload_address = u32 (r.address + 2) in
    let c' = accept c r x in
    let current : SunSpecCurrent = record {
      id = id;
      len = n;
      header_address = r.address;
      words = id ∷ n ∷ [];
      spans =
          record {
            logical_view_id = x.logical_view_id;
            pdu_offset = x.slice_offset;
            word_count = 2;
          }
          ∷ [];
    } in
    reject zero_length
    when n == 0
    leaving c
    otherwise reject total_words_exceeded
    when ltb c.plan.limits.max_total_words (u32 (length c.raw + 2 + n + 2))
    leaving c
    otherwise reject occurrences_exceeded
    when ltb c.plan.limits.max_occurrences (u32 (length c.occ + 1))
    leaving c
    otherwise reject model_range_overflows
    when ltb 65536 (u32 (r.address + 2 + n))
    leaving c
    otherwise reject address_out_of_range
    when not (queue_address_fits payload_address (min_sun_spec n))
    leaving c
    otherwise queue (record c' { raw = c'.raw ++ id ∷ n ∷ []; current = some current })
        payload_address (min_sun_spec n) payload

-- `header`
unfoldable pub admit_header :
    {C : Type 0}
    → SunSpecChain C
    → SunSpecReadRequest
    → LogicalViewRecord
    → Step C (SunSpecChainSnapshot C)
unfolding end_marker model_header
admit_header c r x = elim (first_two x.words) [
  | none ↦ (c, err index_out_of_range)
  | some (id, n) ↦ if id == end_model then end_marker c r x id n else model_header c r x id n
]

-- The disposition and the decoder key of a complete occurrence.
unfoldable pub resolve_key :
    SunSpecChainPlan → SunSpecWireKey → SunSpecChainDisposition × Option SunSpecDecoderKey
resolve_key p wk = elim (find_key wk p.keys) [
  | some k ↦ (admitted, some k)
  | none ↦ if has wk.model_id p.known then (unsupported_length, none) else (unknown_model, none)
]

-- The sidecar builder `sunSpecV2DERTripLVStructuralCandidate`, of another component.
abbrev pub Derive : Type 0 → Type 0
Derive C = List ℕ → SunSpecWireKey → List ℕ → List SunSpecSourceSpan → Option C

-- `structuralCandidate`: only for the model ids that the plan opted in.
unfoldable pub structural_candidate :
    {C : Type 0}
    → Derive C
    → SunSpecChainPlan
    → SunSpecWireKey
    → List ℕ
    → List SunSpecSourceSpan
    → Option C
structural_candidate derive p wk words spans =
    if has wk.model_id p.structural_candidate_ids then derive p.revision wk words spans else none

unfoldable pub occurrence_of :
    {C : Type 0} → Derive C → SunSpecChain C → SunSpecCurrent → SunSpecOccurrence C
unfolding resolve_key structural_candidate
occurrence_of derive c cur =
    let wk : SunSpecWireKey = record { model_id = cur.id; model_length = cur.len } in
    record {
      ordinal = u32 (length c.occ + 1);
      wire_key = wk;
      schema_revision = c.plan.revision;
      header_offset = cur.header_address;
      payload_offset = (cur.header_address + 2) % 2 ^ 16;
      disposition = (resolve_key c.plan wk).0;
      decoder_key = (resolve_key c.plan wk).1;
      structural_candidate = structural_candidate derive c.plan wk cur.words cur.spans;
      words = cur.words;
      spans = cur.spans;
    }

-- The payload words read so far, with this request's: `uint16(len(c.current.words)-2)+r.words`.
abbrev pub words_read : SunSpecCurrent → SunSpecReadRequest → ℕ
words_read cur r = ((length cur.words + 65534) % 2 ^ 16 + r.words) % 2 ^ 16

abbrev pub extended : SunSpecCurrent → SunSpecReadRequest → LogicalViewRecord → SunSpecCurrent
extended cur r x = record cur {
  words = cur.words ++ x.words;
  spans =
      cur.spans
      ++ record {
        logical_view_id = x.logical_view_id;
        pdu_offset = x.slice_offset;
        word_count = r.words;
      }
        ∷ [];
}

-- The chain after the view is accepted and its words are appended.
abbrev pub grown :
    {C : Type 0}
    → SunSpecChain C
    → SunSpecReadRequest
    → LogicalViewRecord
    → SunSpecCurrent
    → SunSpecChain C
grown c r x cur =
    let c' = accept c r x in
    record c' { raw = c'.raw ++ x.words; current = some (extended cur r x) }

-- `payload` when the model is complete: its occurrence is added and the next header queued.
unfoldable pub close_model :
    {C : Type 0}
    → Derive C
    → SunSpecChain C
    → SunSpecReadRequest
    → LogicalViewRecord
    → SunSpecCurrent
    → Step C (SunSpecChainSnapshot C)
unfolding accept queue queue_address_fits occurrence_of
close_model derive c r x cur =
    let next_address = u32 (r.address + r.words) in
    let c' = grown c r x cur in
    reject address_out_of_range
    when not (queue_address_fits next_address 2)
    leaving c
    otherwise queue
        (record c' {
          occ = c'.occ ++ occurrence_of derive c' (extended cur r x) ∷ [];
          current = none;
        })
        next_address 2 header

-- `payload` when words are missing: the next chunk is queued.
unfoldable pub next_chunk :
    {C : Type 0}
    → SunSpecChain C
    → SunSpecReadRequest
    → LogicalViewRecord
    → SunSpecCurrent
    → Step C (SunSpecChainSnapshot C)
unfolding accept queue queue_address_fits
next_chunk c r x cur =
    let next_address = u32 (r.address + r.words) in
    let rest = min_sun_spec ((cur.len + 65536 - words_read cur r) % 2 ^ 16) in
    reject address_out_of_range
    when not (queue_address_fits next_address rest)
    leaving c
    otherwise queue (grown c r x cur) next_address rest payload

unfoldable pub payload_words :
    {C : Type 0}
    → Derive C
    → SunSpecChain C
    → SunSpecReadRequest
    → LogicalViewRecord
    → SunSpecCurrent
    → Step C (SunSpecChainSnapshot C)
unfolding close_model next_chunk
payload_words derive c r x cur =
    if words_read cur r == cur.len then close_model derive c r x cur else next_chunk c r x cur

-- `if c.current == nil`
unfoldable pub payload_of :
    {C : Type 0}
    → Derive C
    → SunSpecChain C
    → SunSpecReadRequest
    → LogicalViewRecord
    → Option SunSpecCurrent
    → Step C (SunSpecChainSnapshot C)
unfolding payload_words
payload_of derive c r x none = (c, err payload_lacks_header)
payload_of derive c r x (some cur) = payload_words derive c r x cur

-- `payload`
unfoldable pub admit_payload :
    {C : Type 0}
    → Derive C
    → SunSpecChain C
    → SunSpecReadRequest
    → LogicalViewRecord
    → Step C (SunSpecChainSnapshot C)
unfolding payload_of
admit_payload derive c r x = payload_of derive c r x c.current

-- `sameSunSpecProvenance`
unfoldable pub same_provenance : LogicalViewRecord → LogicalViewRecord → Bool
same_provenance a b =
    same_bytes a.endpoint b.endpoint
    && a.unit_id == b.unit_id
    && a.connection_id == b.connection_id
    && a.transport == b.transport
    && a.transport_generation == b.transport_generation
    && a.poll_generation == b.poll_generation
    && a.deadline_identity == b.deadline_identity
    && same_bytes a.authorization_scope b.authorization_scope

abbrev pub view_matches : SunSpecReadRequest → LogicalViewRecord → Bool
view_matches r x =
    x.requested_function == function_read_holding_registers
    && x.received_function == function_read_holding_registers
    && x.logical_offset == r.address
    && x.logical_word_count == r.words
    && length x.words == r.words

-- The switch on the request's purpose, once the view is bound to its sources.
unfoldable pub dispatch :
    {C : Type 0}
    → Derive C
    → SunSpecReadPurpose
    → SunSpecChain C
    → SunSpecReadRequest
    → LogicalViewRecord
    → Step C (SunSpecChainSnapshot C)
unfolding failing admit_signature admit_header admit_payload
dispatch derive signature c r x = failing (admit_signature c r x)
dispatch derive header c r x =
    if is_some c.selected then failing (admit_header c r x) else (c, err base_not_selected)
dispatch derive payload c r x =
    if is_some c.selected then failing (admit_payload derive c r x) else (c, err base_not_selected)
dispatch derive unset c r x =
    reject purpose_invalid when is_some c.selected leaving c otherwise (c, err base_not_selected)

abbrev pub bound {ℓ} :
    {C : Type 0} {A : Type ℓ}
    → SunSpecChain C × Result ChainError (Unit {0})
    → (SunSpecChain C → SunSpecChain C × Result ChainError A)
    → SunSpecChain C × Result ChainError A
bound (c, ok u) f = f c
bound (c, err e) f = (fail_chain c, err e)

-- `admitReplay`
unfoldable pub admit_replay :
    {C : Type 0}
    → Derive C
    → SunSpecChain C
    → SunSpecReadRequest
    → LogicalViewRecord
    → Step C (SunSpecChainSnapshot C)
unfolding dispatch validate_source_identity same_provenance
admit_replay derive c r x =
    reject detached
    when c.complete
      || c.failed
      || c.chain_instance == 0
      || not (r.nonce == c.plan.nonce)
      || not (r.chain_instance == c.chain_instance)
    leaving c
    otherwise reject not_planned
    when contradicts (find r.sequence c.pending) (λ want. same_request want r)
      || not (is_some (find r.sequence c.pending))
    leaving c
    otherwise reject view_duplicated
    when has x.logical_view_id c.seen
    leaving c
    otherwise reject view_mismatch
    when not (view_matches r x)
    leaving c
    otherwise reject mixed_provenance
    when contradicts c.provenance (λ p. same_provenance p x)
    leaving c
    otherwise bound (validate_source_identity c x) (λ c'. dispatch derive r.purpose c' r x)
