-- ===== src/Ledger/Attempt.antt =====
-- runtime_ledger.go: the lifecycle of one attempt and of its claims. Each function is a critical
-- section of a method, so the steps of concurrent callers interleave between them. What a call of the
-- Modbus runtime or of the committer returned is an argument of the section that reads it.
pub mod Lifecycle
pub mod Progress
pub mod Calls
pub mod Tombstones
mod Tests
use helianthus_modbusreg.Base.{
  ℕ, ◌+◌, ◌-◌, Bool, true, false, ◌&&◌, ◌||◌, not, List, [], ◌∷◌, Option, none, some, Result, ok,
  err, ltb, leb, ◌==◌, if◌then◌else◌, length, get_elem?, set,
}
use helianthus_modbusreg.Ledger.{
  ClaimOutcome, claim_succeeded, capability_cancelled, capability_failed, capability_expired,
  claim_rejected_terminal, attempt_cancelled, AttemptPhase, opened, sealed, cancelling, publishing,
  published, publish_failed, cancel_failed, cancelled,
}

pub data RuntimeClaimPhase : Type 0 where
  unresolved in_progress terminal : RuntimeClaimPhase

-- An outcome is `none` until the entry is terminal.
pub record RuntimeClaimEntry : Type 0 where
  pub phase : RuntimeClaimPhase
  pub outcome : Option ClaimOutcome
  pub terminal_sequence : ℕ

-- The fields of `runtimeAttemptState` that the lifecycle reads and writes.
pub record RuntimeAttemptState : Type 0 where
  pub phase : AttemptPhase
  pub terminal_sequence : ℕ
  pub entries : List RuntimeClaimEntry
  pub in_progress_claims : ℕ
  pub has_producer : Bool
  pub admitted : Bool
  pub restart_committed : Bool
  pub terminal_outcome : Option AttemptPhase
  pub terminal_commit_in_progress : Bool
  pub terminal_persistence_failed : Bool

pub data AttemptError : Type 0 where
  ordinal_outside claim_closed cannot_seal unsuccessful_claim : AttemptError
  admission_closed set_incomplete producer_refused envelope_refused not_sealed : AttemptError
  persistence_unavailable outcome_immutable commit_waits finalization_unavailable : AttemptError
  cancel_unavailable : AttemptError
  claim_terminal : Option ClaimOutcome → AttemptError

abbrev pub phase_number : AttemptPhase → ℕ
phase_number opened = 0
phase_number sealed = 1
phase_number cancelling = 2
phase_number publishing = 3
phase_number published = 4
phase_number publish_failed = 5
phase_number cancel_failed = 6
phase_number cancelled = 7

abbrev pub same_phase : AttemptPhase → AttemptPhase → Bool
same_phase p q = phase_number p == phase_number q

-- `validAttemptTerminalOutcome`
abbrev pub is_terminal_phase : AttemptPhase → Bool
is_terminal_phase p = leb 4 (phase_number p)

abbrev pub is_persisting : AttemptPhase → Bool
is_persisting p = same_phase p cancelling || same_phase p publishing

abbrev pub is_outcome : Option AttemptPhase → AttemptPhase → Bool
is_outcome none p = false
is_outcome (some q) p = same_phase q p

-- The outcome of `Claim` on the result of the runtime's capability.
pub data CapabilityOutcome : Type 0 where
  claimed capability_was_cancelled capability_has_failed capability_has_expired other_outcome :
      CapabilityOutcome

-- `claimOutcomeFromProducer`: whether the call failed, whether it won, and what it reported.
unfoldable pub claim_outcome_from_producer : Bool → Bool → CapabilityOutcome → ClaimOutcome
claim_outcome_from_producer true won o = claim_rejected_terminal
claim_outcome_from_producer false true claimed = claim_succeeded
claim_outcome_from_producer false false claimed = claim_rejected_terminal
claim_outcome_from_producer false won capability_was_cancelled = capability_cancelled
claim_outcome_from_producer false won capability_has_failed = capability_failed
claim_outcome_from_producer false won capability_has_expired = capability_expired
claim_outcome_from_producer false won other_outcome = claim_rejected_terminal

-- The first section of `Claim`, on the entry of the ordinal and its phase.
unfoldable pub begin_entry :
    RuntimeAttemptState
    → ℕ
    → RuntimeClaimEntry
    → RuntimeClaimPhase
    → RuntimeAttemptState × Result AttemptError (Unit {0})
begin_entry a i e terminal = (a, err (claim_terminal e.outcome))
begin_entry a i e in_progress = (a, err claim_closed)
begin_entry a i e unresolved =
    if not (same_phase a.phase opened) || not a.admitted then (a, err claim_closed) else (
      record a {
        entries = set a.entries i (record e { phase = in_progress });
        in_progress_claims = a.in_progress_claims + 1;
      },
      ok tt,
    )

unfoldable pub begin_at :
    RuntimeAttemptState
    → ℕ
    → Option RuntimeClaimEntry
    → RuntimeAttemptState × Result AttemptError (Unit {0})
unfolding begin_entry
begin_at a i none = (a, err ordinal_outside)
begin_at a i (some e) = begin_entry a i e e.phase

-- The first section of `Claim`.
unfoldable pub begin_claim :
    RuntimeAttemptState → ℕ → RuntimeAttemptState × Result AttemptError (Unit {0})
unfolding begin_at
begin_claim a i = begin_at a i (get_elem? a.entries i)

-- The second section of `Claim`, by the caller that began it; `e` is the entry it reads again.
unfoldable pub end_claim :
    RuntimeAttemptState → ℕ → RuntimeClaimEntry → ClaimOutcome → RuntimeAttemptState
end_claim a i e o = record a {
  entries = set a.entries i (record e { phase = terminal; outcome = some o });
  in_progress_claims = a.in_progress_claims - 1;
}

abbrev pub is_success : Option ClaimOutcome → Bool
is_success (some claim_succeeded) = true
is_success _ = false

abbrev pub is_terminal_claim : RuntimeClaimPhase → Bool
is_terminal_claim terminal = true
is_terminal_claim _ = false

unfoldable pub all_succeeded : List RuntimeClaimEntry → Bool
all_succeeded [] = true
all_succeeded (e ∷ es) = is_terminal_claim e.phase && is_success e.outcome && all_succeeded es

-- `Seal`
unfoldable pub seal : RuntimeAttemptState → RuntimeAttemptState × Result AttemptError (Unit {0})
unfolding all_succeeded
seal a =
    if not (same_phase a.phase opened)
      || not a.admitted
      || length a.entries == 0
      || not (a.in_progress_claims == 0)
    then (a, err cannot_seal)
    else if not (all_succeeded a.entries)
    then (a, err unsuccessful_claim)
    else (record a { phase = sealed }, ok tt)

abbrev pub cancel_entry : RuntimeClaimEntry → RuntimeClaimPhase → RuntimeClaimEntry
cancel_entry e unresolved = record e { phase = terminal; outcome = some attempt_cancelled }
cancel_entry e in_progress = e
cancel_entry e terminal = e

-- `cancelUnresolvedLocked`
unfoldable pub cancel_unresolved : List RuntimeClaimEntry → List RuntimeClaimEntry
cancel_unresolved [] = []
cancel_unresolved (e ∷ es) = cancel_entry e e.phase ∷ cancel_unresolved es

-- The locked part of `Admit`: whether the set is issued and valid, the producer closed it, and the
-- observation built from it fits.
unfoldable pub admit :
    RuntimeAttemptState → Bool → Bool → Bool → RuntimeAttemptState × Result AttemptError (Unit {0})
unfolding cancel_unresolved
admit a complete closed fits =
    if not (same_phase a.phase opened)
      || a.admitted
      || not a.has_producer
      || not (a.in_progress_claims == 0)
    then (a, err admission_closed)
    else if not complete
    then (a, err set_incomplete)
    else if not closed
    then (
      record a { has_producer = false; entries = cancel_unresolved a.entries; phase = cancelling },
      err producer_refused,
    )
    else if fits
    then (record a { has_producer = false; admitted = true }, ok tt)
    else (
      record a { has_producer = false; admitted = true; phase = cancelling },
      err envelope_refused,
    )

-- The first section of `Publish`.
unfoldable pub start_publish :
    RuntimeAttemptState → RuntimeAttemptState × Result AttemptError (Unit {0})
start_publish a =
    if not (same_phase a.phase sealed)
    then (a, err not_sealed)
    else (record a { phase = publishing }, ok tt)

-- `Cancel` of an attempt that is open or sealed; in the other phases it waits or answers.
unfoldable pub start_cancel :
    RuntimeAttemptState → RuntimeAttemptState × Result AttemptError (Unit {0})
start_cancel a =
    if same_phase a.phase opened || same_phase a.phase sealed
    then (record a { phase = cancelling }, ok tt)
    else (a, err cancel_unavailable)

-- `Cancel` takes the producer once no claim is in progress.
unfoldable pub take_producer : RuntimeAttemptState → RuntimeAttemptState
take_producer a = if a.in_progress_claims == 0 then record a { has_producer = false } else a

-- The section of `finishCancellation`.
unfoldable pub cancel_remaining : RuntimeAttemptState → RuntimeAttemptState
unfolding cancel_unresolved
cancel_remaining a =
    if same_phase a.phase cancelling then record a { entries = cancel_unresolved a.entries } else a

-- The first section of `persistTerminalOutcome`; at `commit_waits` the caller waits for the commit
-- that is running.
unfoldable pub start_commit :
    RuntimeAttemptState → AttemptPhase → RuntimeAttemptState × Result AttemptError (Unit {0})
start_commit a o =
    if not (is_terminal_phase o) || not (is_persisting a.phase)
    then (a, err persistence_unavailable)
    else if a.terminal_persistence_failed && not (is_outcome a.terminal_outcome o)
    then (a, err outcome_immutable)
    else if a.terminal_commit_in_progress
    then (if is_outcome a.terminal_outcome o
        then (a, err commit_waits)
        else (a, err outcome_immutable))
    else (record a { terminal_outcome = some o; terminal_commit_in_progress = true }, ok tt)

-- What the failed commit leaves.
unfoldable pub fail_commit : RuntimeAttemptState → RuntimeAttemptState
fail_commit a = record a { terminal_commit_in_progress = false; terminal_persistence_failed = true }

-- The commit of the restart state succeeded.
unfoldable pub commit_restart : RuntimeAttemptState → RuntimeAttemptState
commit_restart a = record a { restart_committed = true }

-- `finalizeTerminalAttempt` on the attempt; `owned` is whether the ledger still holds it.
unfoldable pub finalize :
    RuntimeAttemptState → AttemptPhase → Bool → RuntimeAttemptState × Result AttemptError (Unit {0})
unfolding fail_commit
finalize a o owned =
    if not (is_terminal_phase o)
    then (a, err finalization_unavailable)
    else if not (a.in_progress_claims == 0)
        || not a.terminal_commit_in_progress
        || not (is_outcome a.terminal_outcome o)
        || not (is_persisting a.phase)
        || not owned
    then (fail_commit a, err finalization_unavailable)
    else (
      record a {
        phase = o;
        terminal_commit_in_progress = false;
        terminal_persistence_failed = false;
        entries = [];
        has_producer = false;
        admitted = false;
        restart_committed = false;
      },
      ok tt,
    )

-- A new attempt as `BeginRuntimeAttempt` makes it from its reserved sequences.
unfoldable pub open_entries : List ℕ → List RuntimeClaimEntry
open_entries [] = []
open_entries (n ∷ ns) =
    record { phase = unresolved; outcome = none; terminal_sequence = n } ∷ open_entries ns

unfoldable pub new_attempt : ℕ → List ℕ → RuntimeAttemptState
unfolding open_entries
new_attempt first claims = record {
  phase = opened;
  terminal_sequence = first;
  entries = open_entries claims;
  in_progress_claims = 0;
  has_producer = true;
  admitted = false;
  restart_committed = false;
  terminal_outcome = none;
  terminal_commit_in_progress = false;
  terminal_persistence_failed = false;
}

-- `attemptIdentityAdvances` on the poll generations of two identities.
unfoldable pub attempt_identity_advances : ℕ → ℕ → Bool
attempt_identity_advances previous next =
    if next == 0 then false else if previous == 0 then true else ltb previous next
