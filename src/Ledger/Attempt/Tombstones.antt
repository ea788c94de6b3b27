-- ===== src/Ledger/Attempt/Tombstones.antt =====
-- runtime_ledger.go: the tombstones of an attempt, `terminalTombstones`, and what they say of it.
use helianthus_modbusreg.Base.{
  ℕ, zero, suc, ◌+◌, ◌≡◌, refl, sym, ap, ◌∙◌, Bool, true, List, [], ◌∷◌, Option, none, some,
  get_elem?, set, length, ◌⊎◌, inl, inr, arith,
}
use helianthus_modbusreg.Ledger.{
  ClaimOutcome, claim_succeeded, capability_cancelled, capability_failed, capability_expired,
  claim_rejected_terminal, attempt_cancelled, AttemptPhase, LedgerAuditTombstone, attempt, claim,
  claim_text, phase_text,
}
use helianthus_modbusreg.Ledger.Attempt.{
  RuntimeClaimPhase, unresolved, in_progress, terminal, RuntimeClaimEntry, RuntimeAttemptState,
  is_terminal_phase, begin_entry, begin_at, begin_claim, end_claim, is_terminal_claim,
  all_succeeded, is_success, seal, cancel_entry, cancel_unresolved, admit, start_publish,
  start_cancel, take_producer, cancel_remaining, start_commit, fail_commit, commit_restart,
  finalize, new_attempt, open_entries,
}
use helianthus_modbusreg.Ledger.Attempt.Lifecycle.{
  Step, claim_begins, claim_ends, seals, admits, publish_starts, cancel_starts, producer_taken,
  rest_cancelled, commit_starts, commit_fails, restart_commits, finalizes, Reach, started, followed,
  is_frozen, Reach-Sound,
}
use helianthus_modbusreg.Ledger.Attempt.Progress.{Step-terminal}

abbrev pub claim_tombstone : ℕ → ℕ → ℕ → ClaimOutcome → LedgerAuditTombstone
claim_tombstone attempt_sequence ordinal n o = record {
  schema_version = 1;
  object_kind = claim;
  terminal_sequence = n;
  claim_count = 0;
  attempt_terminal_sequence = attempt_sequence;
  claim_ordinal = ordinal;
  terminal_outcome = claim_text o;
}

-- An entry that is not terminal with a valid outcome has no tombstone.
abbrev entry_tombstones :
    ℕ
    → ℕ
    → RuntimeClaimEntry
    → RuntimeClaimPhase
    → Option ClaimOutcome
    → List LedgerAuditTombstone
    → List LedgerAuditTombstone
entry_tombstones first i e terminal (some o) rest =
    claim_tombstone first i e.terminal_sequence o ∷ rest
entry_tombstones first i e terminal none rest = rest
entry_tombstones first i e unresolved o rest = rest
entry_tombstones first i e in_progress o rest = rest

-- The loop of `terminalTombstones`, from the ordinal `i` on.
unfoldable pub claim_tombstones : ℕ → ℕ → List RuntimeClaimEntry → List LedgerAuditTombstone
claim_tombstones first i [] = []
claim_tombstones first i (e ∷ es) =
    entry_tombstones first i e e.phase e.outcome (claim_tombstones first (i + 1) es)

abbrev pub attempt_tombstone : ℕ → ℕ → AttemptPhase → LedgerAuditTombstone
attempt_tombstone first claims o = record {
  schema_version = 1;
  object_kind = attempt;
  terminal_sequence = first;
  claim_count = claims;
  attempt_terminal_sequence = 0;
  claim_ordinal = 0;
  terminal_outcome = phase_text o;
}

-- `terminalTombstones`
unfoldable pub terminal_tombstones : RuntimeAttemptState → AttemptPhase → List LedgerAuditTombstone
unfolding claim_tombstones
terminal_tombstones a o =
    attempt_tombstone a.terminal_sequence (length a.entries) o
    ∷ claim_tombstones a.terminal_sequence 0 a.entries

abbrev pub sequences : List RuntimeClaimEntry → List ℕ
sequences [] = []
sequences (e ∷ es) = e.terminal_sequence ∷ sequences es

-- The attempt holds the sequences it began with, until it gives its entries up.
abbrev pub Numbered : ℕ → List ℕ → RuntimeAttemptState → Type 0
Numbered first ns a =
    (a.terminal_sequence ≡ first)
    × ((sequences a.entries ≡ ns) ⊎ (is_terminal_phase a.phase ≡ true))

sequences-set :
    (es : List RuntimeClaimEntry) (i : ℕ) (e f : RuntimeClaimEntry)
    → get_elem? es i ≡ some e
    → f.terminal_sequence ≡ e.terminal_sequence
    → sequences (set es i f) ≡ sequences es
sequences-set [] i e f g h = refl
sequences-set (d ∷ es) zero e f g h =
    let same : d ≡ e = cc in
    ap (λ n. n ∷ sequences es) (h ∙ ap (λ x. x.terminal_sequence) (sym same))
sequences-set (d ∷ es) (suc i) e f g h =
    ap (λ l. d.terminal_sequence ∷ l) (sequences-set es i e f g h)

cancel_entry-sequence :
    (e : RuntimeClaimEntry) (p : RuntimeClaimPhase)
    → (cancel_entry e p).terminal_sequence ≡ e.terminal_sequence
cancel_entry-sequence e unresolved = refl
cancel_entry-sequence e in_progress = refl
cancel_entry-sequence e terminal = refl

sequences-cancel_unresolved :
    (es : List RuntimeClaimEntry) → sequences (cancel_unresolved es) ≡ sequences es
unfolding cancel_unresolved
sequences-cancel_unresolved [] = refl
sequences-cancel_unresolved (e ∷ es) =
    grind (arith, cancel_entry-sequence e e.phase, sequences-cancel_unresolved es)

begin_entry-sequences :
    (a : RuntimeAttemptState) (i : ℕ) (e : RuntimeClaimEntry) (p : RuntimeClaimPhase)
    → get_elem? a.entries i ≡ some e
    → (sequences (begin_entry a i e p).0.entries ≡ sequences a.entries)
      × ((begin_entry a i e p).0.terminal_sequence ≡ a.terminal_sequence)
unfolding begin_entry
begin_entry-sequences a i e terminal g = (refl, refl)
begin_entry-sequences a i e in_progress g = (refl, refl)
begin_entry-sequences a i e unresolved g =
    ground (arith, sequences-set a.entries i e (record e { phase = in_progress }) g refl)

begin_at-sequences :
    (a : RuntimeAttemptState) (i : ℕ) (o : Option RuntimeClaimEntry)
    → get_elem? a.entries i ≡ o
    → (sequences (begin_at a i o).0.entries ≡ sequences a.entries)
      × ((begin_at a i o).0.terminal_sequence ≡ a.terminal_sequence)
unfolding begin_at
begin_at-sequences a i none g = (refl, refl)
begin_at-sequences a i (some e) g = begin_entry-sequences a i e e.phase g

-- A section keeps the sequences, or has just reclaimed the entries.
abbrev SameNumbers : RuntimeAttemptState → RuntimeAttemptState → Type 0
SameNumbers a b =
    (b.terminal_sequence ≡ a.terminal_sequence)
    × ((sequences b.entries ≡ sequences a.entries) ⊎ (is_terminal_phase b.phase ≡ true))

finalize-SameNumbers :
    (a : RuntimeAttemptState) (o : AttemptPhase) (b : Bool) → SameNumbers a (finalize a o b).0
unfolding finalize
finalize-SameNumbers a o b = (ground arith, ground arith)

Step-SameNumbers : {a b : RuntimeAttemptState} → Step a b → SameNumbers a b
unfolding begin_claim end_claim seal admit start_publish start_cancel take_producer cancel_remaining
    start_commit fail_commit commit_restart
Step-SameNumbers {a} (claim_begins j) =
    let q = begin_at-sequences a j (get_elem? a.entries j) refl in (q.1, inl q.0)
Step-SameNumbers {a} (claim_ends j d o k q) = (
  refl,
  inl (sequences-set a.entries j d (record d { phase = terminal; outcome = some o }) k refl),
)
Step-SameNumbers {a} seals = (ground arith, inl (ground arith))
Step-SameNumbers {a} (admits complete closed fits) =
    (ground arith, inl (ground (arith, sequences-cancel_unresolved a.entries)))
Step-SameNumbers {a} publish_starts = (ground arith, inl (ground arith))
Step-SameNumbers {a} cancel_starts = (ground arith, inl (ground arith))
Step-SameNumbers {a} producer_taken = (ground arith, inl (ground arith))
Step-SameNumbers {a} rest_cancelled =
    (ground arith, inl (ground (arith, sequences-cancel_unresolved a.entries)))
Step-SameNumbers {a} (commit_starts o) = (ground arith, inl (ground arith))
Step-SameNumbers {a} commit_fails = (refl, inl refl)
Step-SameNumbers {a} restart_commits = (refl, inl refl)
Step-SameNumbers {a} (finalizes o owned) = finalize-SameNumbers a o owned

sequences-open_entries : (ns : List ℕ) → sequences (open_entries ns) ≡ ns
unfolding open_entries
sequences-open_entries [] = refl
sequences-open_entries (n ∷ ns) = ap (λ l. n ∷ l) (sequences-open_entries ns)

Reach-Numbered :
    (first : ℕ) (ns : List ℕ) (a : RuntimeAttemptState)
    → Reach (new_attempt first ns) a
    → Numbered first ns a
unfolding new_attempt
Reach-Numbered first ns a started = (refl, inl (sequences-open_entries ns))
Reach-Numbered first ns c (followed {b} r s) =
    let (number, numbers) = Reach-Numbered first ns b r in
    let same = Step-SameNumbers s in
    (
      same.0 ∙ number,
      elim numbers [
        | inl q ↦ elim (same.1) [ inl p ↦ inl (p ∙ q) | inr over ↦ inr over ]
        | inr over ↦ inr (Step-terminal s over)
      ],
    )

-- One tombstone for each sequence, with its ordinal from `i` on and the outcome of success.
abbrev pub success_tombstones : ℕ → ℕ → List ℕ → List LedgerAuditTombstone
success_tombstones first i [] = []
success_tombstones first i (n ∷ ns) =
    claim_tombstone first i n claim_succeeded ∷ success_tombstones first (i + 1) ns

entry_tombstones-success :
    (first i : ℕ) (e : RuntimeClaimEntry) (p : RuntimeClaimPhase) (o : Option ClaimOutcome)
    (rest : List LedgerAuditTombstone)
    → is_terminal_claim p ≡ true
    → is_success o ≡ true
    → entry_tombstones first i e p o rest
      ≡ claim_tombstone first i e.terminal_sequence claim_succeeded ∷ rest
entry_tombstones-success first i e terminal (some claim_succeeded) rest h k = refl
entry_tombstones-success first i e terminal (some capability_cancelled) rest h k = cc
entry_tombstones-success first i e terminal (some capability_failed) rest h k = cc
entry_tombstones-success first i e terminal (some capability_expired) rest h k = cc
entry_tombstones-success first i e terminal (some claim_rejected_terminal) rest h k = cc
entry_tombstones-success first i e terminal (some attempt_cancelled) rest h k = cc
entry_tombstones-success first i e terminal none rest h k = cc
entry_tombstones-success first i e unresolved o rest h k = cc
entry_tombstones-success first i e in_progress o rest h k = cc

claim_tombstones-success :
    (first i : ℕ) (es : List RuntimeClaimEntry)
    → all_succeeded es ≡ true
    → claim_tombstones first i es ≡ success_tombstones first i (sequences es)
unfolding claim_tombstones all_succeeded
claim_tombstones-success first i [] h = refl
claim_tombstones-success first i (e ∷ es) h =
    entry_tombstones-success first i e e.phase e.outcome (claim_tombstones first (i + 1) es)
      (ground arith) (ground arith)
    ∙ ap (λ l. claim_tombstone first i e.terminal_sequence claim_succeeded ∷ l)
        (claim_tombstones-success first (i + 1) es (ground arith))

length-sequences : (es : List RuntimeClaimEntry) → length (sequences es) ≡ length es
length-sequences [] = refl
length-sequences (e ∷ es) = ap suc (length-sequences es)

-- The history that a sealed or publishing attempt hands over, after any sections of concurrent
-- callers, is the whole batch of sequences it was opened with: the attempt's own first, then one
-- successful claim for each of the others, with ordinals from 0 on.
pub terminal_tombstones-success :
    (first : ℕ) (ns : List ℕ) (a : RuntimeAttemptState) (o : AttemptPhase)
    → Reach (new_attempt first ns) a
    → is_frozen a.phase ≡ true
    → terminal_tombstones a o
      ≡ attempt_tombstone first (length ns) o ∷ success_tombstones first 0 ns
unfolding terminal_tombstones
terminal_tombstones-success first ns a o r h =
    let sound = Reach-Sound first ns a r in
    let (number, numbers) = Reach-Numbered first ns a r in
    let numbers_kept : sequences a.entries ≡ ns = elim numbers [
      | inl q ↦ q
      | inr over ↦ absurd (ground (arith, h, over))
    ] in
    let claims = claim_tombstones-success a.terminal_sequence 0 a.entries (sound.frozen h) in
    ap (λ l. attempt_tombstone a.terminal_sequence (length a.entries) o ∷ l) claims
    ∙ ap
        (λ n.
          attempt_tombstone n (length a.entries) o ∷ success_tombstones n 0 (sequences a.entries))
        number
    ∙ ap (λ k. attempt_tombstone first k o ∷ success_tombstones first 0 (sequences a.entries))
        (sym (length-sequences a.entries))
    ∙ ap (λ l. attempt_tombstone first (length l) o ∷ success_tombstones first 0 l) numbers_kept
