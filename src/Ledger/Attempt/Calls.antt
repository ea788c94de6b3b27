-- ===== src/Ledger/Attempt/Calls.antt =====
-- The callers of `Claim` on one attempt: how many are between its two sections for each ordinal, and
-- how often the capability of each was invoked.
pub mod Held
pub mod Moves
pub mod Once
use helianthus_modbusreg.Base.{
  ℕ, zero, suc, ◌+◌, ◌-◌, ◌≤◌, ◌≡◌, refl, sym, ap, subst, Bool, List, [], ◌∷◌, Option, none, some,
  Result, ok, err, ◌==◌, if◌then◌else◌, get_elem?, set, arith, Bool-cases, inl, inr, ◌⊎◌, ◌∙◌, true,
  false, not, ◌||◌,
}
use helianthus_modbusreg.Ledger.{ClaimOutcome, AttemptPhase, opened}
use helianthus_modbusreg.Ledger.Attempt.{
  RuntimeClaimPhase, unresolved, in_progress, terminal, RuntimeClaimEntry, RuntimeAttemptState,
  AttemptError, same_phase, begin_entry, begin_at, begin_claim, end_claim, seal, cancel_entry,
  cancel_unresolved, admit, start_publish, start_cancel, take_producer, cancel_remaining,
  start_commit, fail_commit, commit_restart, finalize, new_attempt, open_entries,
}
use helianthus_modbusreg.Ledger.Attempt.Lifecycle.{
  Step, claim_begins, claim_ends, seals, admits, publish_starts, cancel_starts, producer_taken,
  rest_cancelled, commit_starts, commit_fails, restart_commits, finalizes, Reach, started, followed,
  Sound, busy, busy_entry, Step-Sound, new_attempt-Sound,
}
use helianthus_modbusreg.Ledger.Attempt.Progress.{Kept, Reach-Kept}

pub record Calls : Type 0 where
  pub attempt : RuntimeAttemptState
  pub claiming : ℕ → ℕ
  pub invoked : ℕ → ℕ

abbrev pub update : ℕ → ℕ → (ℕ → ℕ) → ℕ → ℕ
update i n f j = if i == j then n else f j

abbrev pub one_more : Result AttemptError (Unit {0}) → ℕ → (ℕ → ℕ) → ℕ → ℕ
one_more (ok u) i f = update i (f i + 1) f
one_more (err e) i f = f

-- What the first section of a call leaves: when it succeeds, the caller invokes the capability.
abbrev pub after_begin : Calls → ℕ → RuntimeAttemptState × Result AttemptError (Unit {0}) → Calls
after_begin c i (a, r) = record {
  attempt = a;
  claiming = one_more r i c.claiming;
  invoked = one_more r i c.invoked;
}

-- What the second section leaves, with the entry that it reads and the outcome it was handed.
abbrev pub after_end : Calls → ℕ → RuntimeClaimEntry → ClaimOutcome → Calls
after_end c i e o = record c {
  attempt = end_claim c.attempt i e o;
  claiming = update i (c.claiming i - 1) c.claiming;
}

-- One section of some caller. A call ends only after it began; nothing is assumed of its entry.
pub data Move (c : Calls) : Calls → Type 0 where
  call_begins : (i : ℕ) → Move c (after_begin c i (begin_claim c.attempt i))
  call_ends :
      (i : ℕ) (e : RuntimeClaimEntry) (o : ClaimOutcome)
      → 1 ≤ c.claiming i
      → get_elem? c.attempt.entries i ≡ some e
      → Move c (after_end c i e o)
  call_seals : Move c (record c { attempt = (seal c.attempt).0 })
  call_admits :
      (complete closed fits : Bool)
      → Move c (record c { attempt = (admit c.attempt complete closed fits).0 })
  call_publishes : Move c (record c { attempt = (start_publish c.attempt).0 })
  call_cancels : Move c (record c { attempt = (start_cancel c.attempt).0 })
  call_takes : Move c (record c { attempt = take_producer c.attempt })
  call_cancels_rest : Move c (record c { attempt = cancel_remaining c.attempt })
  call_commits : (o : AttemptPhase) → Move c (record c { attempt = (start_commit c.attempt o).0 })
  call_fails : Move c (record c { attempt = fail_commit c.attempt })
  call_restarts : Move c (record c { attempt = commit_restart c.attempt })
  call_finalizes :
      (o : AttemptPhase) (owned : Bool)
      → Move c (record c { attempt = (finalize c.attempt o owned).0 })

pub data Run (c : Calls) : Calls → Type 0 where
  idle : Run c c
  moved : {b d : Calls} → Run c b → Move b d → Run c d

-- A new attempt that nobody has called.
abbrev pub no_calls : ℕ → List ℕ → Calls
no_calls first ns = record { attempt = new_attempt first ns; claiming = λ i. 0; invoked = λ i. 0 }
