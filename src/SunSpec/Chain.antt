-- ===== src/SunSpec/Chain.antt =====
-- sunspec_chain.go: the state machine that discovers a model chain from replayed reads. A method
-- takes the chain and returns the new one with its result, so what an error leaves behind shows.
pub mod Steps
pub mod Phase
pub mod Good
pub mod HeaderSteps
pub mod PayloadSteps
pub mod SignatureSteps
pub mod Admission
pub mod Runs
use helianthus_modbusreg.Base.{
  ℕ, zero, suc, ◌+◌, ◌-◌, ◌%◌, ◌^◌, Bool, true, false, ◌&&◌, ◌||◌, not, List, [], ◌∷◌, ◌++◌, Option,
  none, some, Result, ok, err, ltb, leb, ◌==◌, if◌then◌else◌, length, has, Map, find, store, delete,
}
use helianthus_modbusreg.Base.Bytes.{same_bytes}
use helianthus_modbusreg.View.{LogicalViewRecord, function_read_holding_registers}
use helianthus_modbusreg.SunSpec.{
  SunSpecWireKey, SunSpecDecoderKey, SunSpecReadRequest, SunSpecReadPurpose, unset, signature,
  header, payload, SunSpecOccurrence, SunSpecSourceSpan, SunSpecChainDisposition, admitted,
  unknown_model, unsupported_length, signature_first, signature_second, end_model, max_read_words,
  u32, end_fits, same_request,
}
use helianthus_modbusreg.SunSpec.Plan.{SunSpecChainPlan, find_key}

pub record SunSpecCurrent : Type 0 where
  pub id : ℕ
  pub len : ℕ
  pub header_address : ℕ
  pub spans : List SunSpecSourceSpan
  pub words : List ℕ

pub record SunSpecPhysicalSource : Type 0 where
  pub wire_response_id : ℕ
  pub connection_id : ℕ
  pub transport_generation : ℕ
  pub function : ℕ
  pub table : ℕ
  pub offset : ℕ
  pub count : ℕ

pub record SunSpecWireSource : Type 0 where
  pub physical_request_id : ℕ
  pub response_bytes : List ℕ

pub record SunSpecChain (C : Type 0) : Type 0 where
  pub plan : SunSpecChainPlan
  pub chain_instance : ℕ
  pub seen : List ℕ
  pub physical : Map SunSpecPhysicalSource
  pub wire : Map SunSpecWireSource
  pub provenance : Option LogicalViewRecord
  pub pending : Map SunSpecReadRequest
  pub next : ℕ
  pub selected : Option ℕ
  pub raw : List ℕ
  pub occ : List (SunSpecOccurrence C)
  pub sources : List LogicalViewRecord
  pub current : Option SunSpecCurrent
  pub complete : Bool
  pub failed : Bool

pub record SunSpecChainSnapshot (C : Type 0) : Type 0 where
  pub occurrences : List (SunSpecOccurrence C)
  pub raw : List ℕ
  pub sources : List LogicalViewRecord

-- One for each message; `index_out_of_range` is Go's panic on `x.Words[1]`.
pub data ChainError : Type 0 where
  detached not_planned view_duplicated view_mismatch mixed_provenance : ChainError
  physical_contradictory wire_contradictory base_not_selected purpose_invalid : ChainError
  bases_ambiguous signature_absent end_marker_nonzero zero_length total_words_exceeded : ChainError
  occurrences_exceeded model_range_overflows address_out_of_range payload_lacks_header : ChainError
  request_bound_invalid index_out_of_range : ChainError

-- A method's outcome.
abbrev pub Step : Type 0 → Type 0 → Type 0
Step C A = SunSpecChain C × Result ChainError A

-- `if bad { return error }`: the chain as it is then, with the error.
infix 1 reject◌when◌leaving◌otherwise◌
unfoldable pub reject◌when◌leaving◌otherwise◌ :
    {C A : Type 0} → ChainError → Bool → SunSpecChain C → Step C A → Step C A
reject e when true leaving c otherwise s = (c, err e)
reject e when false leaving c otherwise s = s

abbrev pub empty_snapshot : {C : Type 0} → SunSpecChainSnapshot C
empty_snapshot = record { occurrences = []; raw = []; sources = [] }

-- `NewSunSpecChain`'s pending requests: those of the plan, bound to the instance.
unfoldable pub bind_requests : ℕ → List SunSpecReadRequest → Map SunSpecReadRequest
bind_requests i [] = []
bind_requests i (r ∷ rs) = (r.sequence, record r { chain_instance = i }) ∷ bind_requests i rs

abbrev pub empty_plan : SunSpecChainPlan
empty_plan = record {
  revision = [];
  bases = [];
  limits = record { max_total_words = 0; max_occurrences = 0 };
  keys = [];
  known = [];
  structural_candidate_ids = [];
  nonce = 0;
  initial = [];
}

abbrev pub fresh_chain : {C : Type 0} → SunSpecChainPlan → ℕ → Bool → SunSpecChain C
fresh_chain p i failed = record {
  plan = p;
  chain_instance = i;
  seen = [];
  physical = [];
  wire = [];
  provenance = none;
  pending = bind_requests i p.initial;
  next = length p.initial % 2 ^ 64;
  selected = none;
  raw = [];
  occ = [];
  sources = [];
  current = none;
  complete = false;
  failed = failed;
}

-- `NewSunSpecChain`; `i` is what `nextSunSpecChainInstance` returned, 0 when the counter is spent.
unfoldable pub new_chain : {C : Type 0} → ℕ → SunSpecChainPlan → SunSpecChain C
unfolding bind_requests
new_chain i p = if i == 0 then fresh_chain empty_plan 0 true else fresh_chain p i false

-- `fail`: a failed chain has no request left.
unfoldable pub fail_chain : {C : Type 0} → SunSpecChain C → SunSpecChain C
fail_chain c = record c { failed = true; pending = []; current = none }

-- `if err != nil { return snapshot, c.fail(err) }`
unfoldable pub failing : {C A : Type 0} → Step C A → Step C A
unfolding fail_chain
failing (c, ok a) = (c, ok a)
failing (c, err e) = (fail_chain c, err e)

unfoldable pub same_physical : SunSpecPhysicalSource → SunSpecPhysicalSource → Bool
same_physical a b =
    a.wire_response_id == b.wire_response_id
    && a.connection_id == b.connection_id
    && a.transport_generation == b.transport_generation
    && a.function == b.function
    && a.table == b.table
    && a.offset == b.offset
    && a.count == b.count

abbrev pub contradicts {ℓ} : {V : Type ℓ} → Option V → (V → Bool) → Bool
contradicts none same = false
contradicts (some v) same = not (same v)

abbrev pub physical_of : LogicalViewRecord → SunSpecPhysicalSource
physical_of x = record {
  wire_response_id = x.wire_response_id;
  connection_id = x.connection_id;
  transport_generation = x.transport_generation;
  function = x.requested_function;
  table = x.table;
  offset = x.physical_offset;
  count = x.physical_word_count;
}

abbrev pub same_wire : LogicalViewRecord → SunSpecWireSource → Bool
same_wire x s =
    s.physical_request_id == x.physical_request_id
    && same_bytes s.response_bytes x.wire_response_bytes

-- The physical request was seen with another wire response.
unfoldable pub physical_clash : {C : Type 0} → SunSpecChain C → LogicalViewRecord → Bool
unfolding same_physical
physical_clash c x =
    contradicts (find x.physical_request_id c.physical) (λ p. same_physical p (physical_of x))

-- The wire response was seen with another physical request or other bytes.
unfoldable pub wire_clash : {C : Type 0} → SunSpecChain C → LogicalViewRecord → Bool
wire_clash c x = contradicts (find x.wire_response_id c.wire) (same_wire x)

-- `validateSourceIdentity`: it records both identities when neither contradicts an earlier one.
unfoldable pub validate_source_identity :
    {C : Type 0} → SunSpecChain C → LogicalViewRecord → Step C (Unit {0})
unfolding physical_clash wire_clash
validate_source_identity c x =
    if physical_clash c x
    then (c, err physical_contradictory)
    else if wire_clash c x
    then (c, err wire_contradictory)
    else (
      record c {
        physical = store x.physical_request_id (physical_of x) c.physical;
        wire =
            store x.wire_response_id
              (record {
                physical_request_id = x.physical_request_id;
                response_bytes = x.wire_response_bytes;
              })
              c.wire;
      },
      ok tt,
    )

abbrev pub or_else : Option LogicalViewRecord → LogicalViewRecord → Option LogicalViewRecord
or_else none x = some x
or_else (some p) x = some p

-- `accept`
unfoldable pub accept :
    {C : Type 0} → SunSpecChain C → SunSpecReadRequest → LogicalViewRecord → SunSpecChain C
accept c r x = record c {
  provenance = or_else c.provenance x;
  seen = x.logical_view_id ∷ c.seen;
  pending = delete r.sequence c.pending;
  sources = c.sources ++ x ∷ [];
}

-- `sunSpecQueueAddress`, on a uint32 address.
unfoldable pub queue_address_fits : ℕ → ℕ → Bool
unfolding end_fits
queue_address_fits address words =
    if ltb 65535 address then false else end_fits (address % 2 ^ 16) words

-- `queue`: the next request, under the next sequence number.
unfoldable pub queue :
    {C : Type 0} → SunSpecChain C → ℕ → ℕ → SunSpecReadPurpose → Step C (SunSpecChainSnapshot C)
unfolding queue_address_fits
queue c address n p =
    let i = (c.next + 1) % 2 ^ 64 in
    reject request_bound_invalid
    when n == 0 || ltb max_read_words n
    leaving c
    otherwise reject address_out_of_range
    when not (queue_address_fits address n)
    leaving c
    otherwise (
      record c {
        next = i;
        pending =
            store i
              (record {
                address = address % 2 ^ 16;
                words = n;
                purpose = p;
                nonce = c.plan.nonce;
                chain_instance = c.chain_instance;
                sequence = i;
              })
              c.pending;
      },
      ok empty_snapshot,
    )

-- `x.Words[0], x.Words[1]`
abbrev pub first_two : List ℕ → Option (ℕ × ℕ)
first_two [] = none
first_two (a ∷ []) = none
first_two (a ∷ b ∷ ws) = some (a, b)

-- `nextSunSpecChainInstance`: the instance, 0 when the counter is spent, and the counter after it.
unfoldable pub next_chain_instance : ℕ → ℕ × ℕ
next_chain_instance current =
    if current == 0xffff_ffff_ffff_ffff then (0, current) else (current + 1, current + 1)

-- `sortedRequests`: the requests in the order of their sequence numbers.
unfoldable pub insert_request :
    ℕ × SunSpecReadRequest → Map SunSpecReadRequest → Map SunSpecReadRequest
insert_request e [] = e ∷ []
insert_request e (d ∷ m) =
    let rest = insert_request e m in if ltb e.0 d.0 then e ∷ d ∷ m else d ∷ rest

unfoldable pub sorted_requests : Map SunSpecReadRequest → Map SunSpecReadRequest
unfolding insert_request
sorted_requests [] = []
sorted_requests (e ∷ m) = insert_request e (sorted_requests m)

unfoldable pub requests_of : Map SunSpecReadRequest → List SunSpecReadRequest
requests_of [] = []
requests_of ((i, r) ∷ m) = r ∷ requests_of m

-- `NextRequests`
unfoldable pub next_requests : {C : Type 0} → SunSpecChain C → List SunSpecReadRequest
unfolding sorted_requests requests_of
next_requests c = requests_of (sorted_requests c.pending)
