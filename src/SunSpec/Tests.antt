-- ===== src/SunSpec/Tests.antt =====
-- A discovery of one small model behind a base at 40000, and the theorems at that run.
use helianthus_modbusreg.Base.{
  ℕ, ◌+◌, ◌≤◌, ◌<◌, ◌≡◌, refl, true, false, List, [], ◌∷◌, none, length, All, arith, ok,
}
use helianthus_modbusreg.Base.Bytes.{ascii}
use helianthus_modbusreg.View.{LogicalViewRecord}
use helianthus_modbusreg.SunSpec.{
  SunSpecReadPurpose, signature, header, payload, signature_first, signature_second, end_model,
  valid_revision, end_fits, same_request,
}
use helianthus_modbusreg.SunSpec.Plan.{
  SunSpecChainPlan, SunSpecChainPlanSpec, new_plan, initial_requests, bounds_finite, check_bases,
  collect_keys, collect_structural,
}
use helianthus_modbusreg.SunSpec.Plan.Accepted.{Accepted, new_plan-Accepted}
use helianthus_modbusreg.SunSpec.Chain.{new_chain, reject◌when◌leaving◌otherwise◌}
use helianthus_modbusreg.SunSpec.Chain.Steps.{Derive, admit_replay}
use helianthus_modbusreg.SunSpec.Chain.Phase.{Finished}
use helianthus_modbusreg.SunSpec.Chain.Runs.{
  Offer, InRange, replay, admissions, replay-Finished, replay-InRange, replay-asks,
  admissions_bounded,
}

abbrev no_candidate : Derive (Unit {0})
no_candidate revision wk words spans = none

abbrev small_spec : SunSpecChainPlanSpec
small_spec = record {
  schema_revision = ascii "v1";
  base_candidates = 40000 ∷ 0 ∷ [];
  limits = record { max_total_words = 16; max_occurrences = 2 };
  decoder_keys = record { model_id = 9; model_length = 2; schema_revision = ascii "v1" } ∷ [];
  structural_candidate_ids = [];
}

abbrev small_plan : SunSpecChainPlan
small_plan = record {
  revision = ascii "v1";
  bases = 40000 ∷ 0 ∷ [];
  limits = record { max_total_words = 16; max_occurrences = 2 };
  keys =
      (
        record { model_id = 9; model_length = 2 },
        record { model_id = 9; model_length = 2; schema_revision = ascii "v1" },
      )
      ∷ [];
  known = 9 ∷ [];
  structural_candidate_ids = [];
  nonce = 7;
  initial = initial_requests 7 1 (40000 ∷ 0 ∷ []);
}

small_planned : new_plan 7 small_spec ≡ ok small_plan
unfolding new_plan bounds_finite valid_revision check_bases end_fits collect_keys collect_structural
small_planned = refl

abbrev view : ℕ → ℕ → List ℕ → LogicalViewRecord
view id address words = record {
  logical_view_id = id;
  wire_response_id = id;
  physical_request_id = id;
  endpoint = ascii "tcp";
  connection_id = 1;
  transport = 0;
  transport_generation = 1;
  unit_id = 1;
  requested_function = 3;
  received_function = 3;
  table = 0;
  physical_offset = address;
  physical_word_count = length words;
  authorization_scope = ascii "read";
  poll_generation = 1;
  deadline_identity = 1;
  logical_offset = address;
  logical_word_count = length words;
  slice_offset = 0;
  slice_word_count = length words;
  words = words;
  wire_response_bytes = [];
}

abbrev offer : SunSpecReadPurpose → ℕ → ℕ → List ℕ → Offer
offer p i address words = (
  record {
    address = address;
    words = length words;
    purpose = p;
    nonce = 7;
    chain_instance = 5;
    sequence = i;
  },
  view i address words,
)

-- Both bases are probed, one has the signature.
abbrev probes : List Offer
probes =
    offer signature 2 0 (1 ∷ 2 ∷ [])
    ∷ offer signature 1 40000 (signature_first ∷ signature_second ∷ [])
    ∷ []

abbrev discovery : List Offer
discovery =
    offer signature 2 0 (1 ∷ 2 ∷ [])
    ∷ offer signature 1 40000 (signature_first ∷ signature_second ∷ [])
    ∷ offer header 3 40002 (9 ∷ 2 ∷ [])
    ∷ offer payload 4 40004 (11 ∷ 12 ∷ [])
    ∷ offer header 5 40006 (end_model ∷ 0 ∷ [])
    ∷ []

discovered : (replay no_candidate (new_chain 5 small_plan) discovery).complete ≡ true
unfolding replay new_chain admit_replay reject◌when◌leaving◌otherwise◌ initial_requests same_request
discovered = refl

probed_open : (replay no_candidate (new_chain 5 small_plan) probes).complete ≡ false
unfolding replay new_chain admit_replay reject◌when◌leaving◌otherwise◌ initial_requests same_request
probed_open = refl

probed_alive : (replay no_candidate (new_chain 5 small_plan) probes).failed ≡ false
unfolding replay new_chain admit_replay reject◌when◌leaving◌otherwise◌ initial_requests same_request
probed_alive = refl

small_bases : All (λ b. b < 65536) small_spec.base_candidates
small_bases = omega arith

new_plan-Accepted_example : Accepted small_spec small_plan
new_plan-Accepted_example = new_plan-Accepted 7 small_spec small_plan small_bases small_planned

replay-Finished_example :
    (b : ℕ) × Finished (replay no_candidate (new_chain 5 small_plan) discovery) b
replay-Finished_example =
    replay-Finished no_candidate 7 5 small_spec small_plan small_bases small_planned discovery
      (omega arith) discovered

replay-InRange_example : All InRange (replay no_candidate (new_chain 5 small_plan) probes).pending
replay-InRange_example =
    replay-InRange no_candidate 7 5 small_spec small_plan small_bases small_planned probes
      (omega arith)

replay-asks_example : 1 ≤ length (replay no_candidate (new_chain 5 small_plan) probes).pending
replay-asks_example =
    replay-asks no_candidate 7 5 small_spec small_plan small_bases small_planned probes
      (omega arith) probed_open probed_alive

admissions_bounded_example : admissions no_candidate (new_chain 5 small_plan) discovery ≤ 2 + 16
admissions_bounded_example =
    admissions_bounded no_candidate 7 5 small_spec small_plan small_bases small_planned discovery
      (omega arith)
