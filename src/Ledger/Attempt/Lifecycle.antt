-- ===== src/Ledger/Attempt/Lifecycle.antt =====
-- What the interleaved sections of an attempt keep: the count of claims in progress, the success of
-- all claims of a sealed attempt, and the outcomes once given.
use helianthus_modbusreg.Base.{
  ℕ, zero, suc, ◌+◌, ◌≡◌, refl, sym, ap, subst, Bool, true, ◌||◌, List, [], ◌∷◌, Option, none, some,
  get_elem?, set, arith,
}
use helianthus_modbusreg.Ledger.{ClaimOutcome, AttemptPhase, sealed, publishing}
use helianthus_modbusreg.Ledger.Attempt.{
  RuntimeClaimPhase, unresolved, in_progress, terminal, RuntimeClaimEntry, RuntimeAttemptState,
  same_phase, is_terminal_phase, begin_entry, begin_at, begin_claim, end_claim, is_terminal_claim,
  all_succeeded, seal, cancel_entry, cancel_unresolved, admit, start_publish, start_cancel,
  take_producer, cancel_remaining, start_commit, fail_commit, commit_restart, finalize, new_attempt,
  open_entries,
}

-- One critical section of some caller. `end_claim` is for the caller whose entry is in progress.
pub data Step (a : RuntimeAttemptState) : RuntimeAttemptState → Type 0 where
  claim_begins : (i : ℕ) → Step a (begin_claim a i).0
  claim_ends :
      (i : ℕ) (e : RuntimeClaimEntry) (o : ClaimOutcome)
      → get_elem? a.entries i ≡ some e
      → e.phase ≡ in_progress
      → Step a (end_claim a i e o)
  seals : Step a (seal a).0
  admits : (complete closed fits : Bool) → Step a (admit a complete closed fits).0
  publish_starts : Step a (start_publish a).0
  cancel_starts : Step a (start_cancel a).0
  producer_taken : Step a (take_producer a)
  rest_cancelled : Step a (cancel_remaining a)
  commit_starts : (o : AttemptPhase) → Step a (start_commit a o).0
  commit_fails : Step a (fail_commit a)
  restart_commits : Step a (commit_restart a)
  finalizes : (o : AttemptPhase) (owned : Bool) → Step a (finalize a o owned).0

abbrev pub busy_entry : RuntimeClaimPhase → ℕ
busy_entry in_progress = 1
busy_entry unresolved = 0
busy_entry terminal = 0

-- The number of entries in progress.
abbrev pub busy : List RuntimeClaimEntry → ℕ
busy [] = 0
busy (e ∷ es) = busy_entry e.phase + busy es

abbrev pub is_frozen : AttemptPhase → Bool
is_frozen p = same_phase p sealed || same_phase p publishing

pub record Sound (a : RuntimeAttemptState) : Type 0 where
  pub counted : a.in_progress_claims ≡ busy a.entries
  pub frozen : is_frozen a.phase ≡ true → all_succeeded a.entries ≡ true
  pub reclaimed : is_terminal_phase a.phase ≡ true → a.entries ≡ []

busy-set :
    (es : List RuntimeClaimEntry) (i : ℕ) (e f : RuntimeClaimEntry)
    → get_elem? es i ≡ some e
    → busy (set es i f) + busy_entry e.phase ≡ busy es + busy_entry f.phase
busy-set [] i e f h = cc
busy-set (d ∷ es) zero e f h =
    let same : d ≡ e = cc in let q = ap (λ d. busy_entry d.phase) same in omega (arith, q)
busy-set (d ∷ es) (suc i) e f h = omega (arith, busy-set es i e f h)

all_succeeded-get_elem? :
    (es : List RuntimeClaimEntry) (i : ℕ) (e : RuntimeClaimEntry)
    → all_succeeded es ≡ true
    → get_elem? es i ≡ some e
    → is_terminal_claim e.phase ≡ true
unfolding all_succeeded
all_succeeded-get_elem? [] i e h k = cc
all_succeeded-get_elem? (d ∷ es) zero e h k =
    let same : d ≡ e = cc in subst (λ f. is_terminal_claim f.phase ≡ true) same (ground arith)
all_succeeded-get_elem? (d ∷ es) (suc i) e h k = all_succeeded-get_elem? es i e (ground arith) k

busy-cancel_entry :
    (e : RuntimeClaimEntry) (p : RuntimeClaimPhase)
    → p ≡ e.phase
    → busy_entry (cancel_entry e p).phase ≡ busy_entry p
busy-cancel_entry e unresolved h = refl
busy-cancel_entry e in_progress h = ap busy_entry (sym h)
busy-cancel_entry e terminal h = ap busy_entry (sym h)

busy-cancel_unresolved : (es : List RuntimeClaimEntry) → busy (cancel_unresolved es) ≡ busy es
unfolding cancel_unresolved
busy-cancel_unresolved [] = refl
busy-cancel_unresolved (e ∷ es) =
    omega (arith, busy-cancel_entry e e.phase refl, busy-cancel_unresolved es)

seal-Sound : (a : RuntimeAttemptState) → Sound a → Sound (seal a).0
unfolding seal
seal-Sound a h = record { counted = ground arith; frozen = ground arith; reclaimed = ground arith }

start_publish-Sound : (a : RuntimeAttemptState) → Sound a → Sound (start_publish a).0
unfolding start_publish
start_publish-Sound a h = record {
  counted = ground arith;
  frozen = ground arith;
  reclaimed = ground arith;
}

start_cancel-Sound : (a : RuntimeAttemptState) → Sound a → Sound (start_cancel a).0
unfolding start_cancel
start_cancel-Sound a h = record {
  counted = ground arith;
  frozen = ground arith;
  reclaimed = ground arith;
}

start_commit-Sound :
    (a : RuntimeAttemptState) (o : AttemptPhase) → Sound a → Sound (start_commit a o).0
unfolding start_commit
start_commit-Sound a o h = record {
  counted = ground arith;
  frozen = ground arith;
  reclaimed = ground arith;
}

finalize-Sound :
    (a : RuntimeAttemptState) (o : AttemptPhase) (b : Bool) → Sound a → Sound (finalize a o b).0
unfolding finalize
finalize-Sound a o b h = record {
  counted = ground arith;
  frozen = ground arith;
  reclaimed = ground arith;
}

admit-Sound : (a : RuntimeAttemptState) (b c d : Bool) → Sound a → Sound (admit a b c d).0
unfolding admit
admit-Sound a b c d h =
    let q = busy-cancel_unresolved a.entries in
    record { counted = ground (arith, q); frozen = ground arith; reclaimed = ground arith }

take_producer-Sound : (a : RuntimeAttemptState) → Sound a → Sound (take_producer a)
unfolding take_producer
take_producer-Sound a h = record {
  counted = ground arith;
  frozen = ground arith;
  reclaimed = ground arith;
}

cancel_remaining-Sound : (a : RuntimeAttemptState) → Sound a → Sound (cancel_remaining a)
unfolding cancel_remaining
cancel_remaining-Sound a h =
    let q = busy-cancel_unresolved a.entries in
    record { counted = ground (arith, q); frozen = ground arith; reclaimed = ground arith }

begin_entry-Sound :
    (a : RuntimeAttemptState) (i : ℕ) (e : RuntimeClaimEntry) (p : RuntimeClaimPhase)
    → e.phase ≡ p
    → get_elem? a.entries i ≡ some e
    → Sound a
    → Sound (begin_entry a i e p).0
unfolding begin_entry
begin_entry-Sound a i e terminal q g h = h
begin_entry-Sound a i e in_progress q g h = h
begin_entry-Sound a i e unresolved q g h =
    let set_busy = busy-set a.entries i e (record e { phase = in_progress }) g in
    let free = ap busy_entry q in
    record {
      counted = ground (arith, set_busy, free);
      frozen = ground arith;
      reclaimed = ground arith;
    }

begin_at-Sound :
    (a : RuntimeAttemptState) (i : ℕ) (o : Option RuntimeClaimEntry)
    → get_elem? a.entries i ≡ o
    → Sound a
    → Sound (begin_at a i o).0
unfolding begin_at
begin_at-Sound a i none g h = h
begin_at-Sound a i (some e) g h = begin_entry-Sound a i e e.phase refl g h

begin_claim-Sound : (a : RuntimeAttemptState) (i : ℕ) → Sound a → Sound (begin_claim a i).0
unfolding begin_claim
begin_claim-Sound a i h = begin_at-Sound a i (get_elem? a.entries i) refl h

end_claim-Sound :
    (a : RuntimeAttemptState) (i : ℕ) (e : RuntimeClaimEntry) (o : ClaimOutcome)
    → get_elem? a.entries i ≡ some e
    → e.phase ≡ in_progress
    → Sound a
    → Sound (end_claim a i e o)
unfolding end_claim
end_claim-Sound a i e o g q h =
    let set_busy = busy-set a.entries i e (record e { phase = terminal; outcome = some o }) g in
    let held = ap busy_entry q in
    record {
      counted = omega (arith, set_busy, held, h.counted);
      frozen =
          λ f. absurd (ground (arith, all_succeeded-get_elem? a.entries i e (h.frozen f) g, q));
      reclaimed = λ f. absurd (ground (arith, h.reclaimed f, g));
    }

pub Step-Sound : {a b : RuntimeAttemptState} → Step a b → Sound a → Sound b
unfolding fail_commit commit_restart
Step-Sound {a} (claim_begins i) h = begin_claim-Sound a i h
Step-Sound {a} (claim_ends i e o g q) h = end_claim-Sound a i e o g q h
Step-Sound {a} seals h = seal-Sound a h
Step-Sound {a} (admits complete closed fits) h = admit-Sound a complete closed fits h
Step-Sound {a} publish_starts h = start_publish-Sound a h
Step-Sound {a} cancel_starts h = start_cancel-Sound a h
Step-Sound {a} producer_taken h = take_producer-Sound a h
Step-Sound {a} rest_cancelled h = cancel_remaining-Sound a h
Step-Sound {a} (commit_starts o) h = start_commit-Sound a o h
Step-Sound {a} commit_fails h = record {
  counted = h.counted;
  frozen = h.frozen;
  reclaimed = h.reclaimed;
}
Step-Sound {a} restart_commits h = record {
  counted = h.counted;
  frozen = h.frozen;
  reclaimed = h.reclaimed;
}
Step-Sound {a} (finalizes o owned) h = finalize-Sound a o owned h

-- The attempts that interleaved sections lead to.
pub data Reach (a : RuntimeAttemptState) : RuntimeAttemptState → Type 0 where
  started : Reach a a
  followed : {b c : RuntimeAttemptState} → Reach a b → Step b c → Reach a c

busy-open_entries : (ns : List ℕ) → busy (open_entries ns) ≡ 0
unfolding open_entries
busy-open_entries [] = refl
busy-open_entries (n ∷ ns) = omega (arith, busy-open_entries ns)

pub new_attempt-Sound : (first : ℕ) (ns : List ℕ) → Sound (new_attempt first ns)
unfolding new_attempt
new_attempt-Sound first ns = record {
  counted = sym (busy-open_entries ns);
  frozen = ground arith;
  reclaimed = ground arith;
}

-- Whatever sections of concurrent callers a new attempt went through: its counter is the number of
-- claims in progress, a sealed or publishing attempt has only successful claims, and an attempt in a
-- terminal phase has given its entries up.
pub Reach-Sound :
    (first : ℕ) (ns : List ℕ) (a : RuntimeAttemptState) → Reach (new_attempt first ns) a → Sound a
Reach-Sound first ns a started = new_attempt-Sound first ns
Reach-Sound first ns a (followed {b} r s) = Step-Sound s (Reach-Sound first ns b r)
