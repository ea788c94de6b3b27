-- ===== src/Ledger/Attempt/Progress.antt =====
-- What the sections of an attempt do to its phase and to its claims.
use helianthus_modbusreg.Base.{
  ℕ, zero, suc, ◌≤◌, ◌<◌, ◌≡◌, refl, sym, ap, subst, Bool, true, false, List, [], ◌∷◌, Option, none,
  some, get_elem?, set, ◌⊎◌, inl, inr, arith,
}
use helianthus_modbusreg.Ledger.{
  AttemptPhase, opened, sealed, cancelling, publishing, published, publish_failed, cancel_failed,
  cancelled,
}
use helianthus_modbusreg.Ledger.Attempt.{
  RuntimeClaimPhase, unresolved, in_progress, terminal, RuntimeClaimEntry, RuntimeAttemptState,
  phase_number, is_terminal_phase, begin_entry, begin_at, begin_claim, end_claim, is_terminal_claim,
  seal, cancel_entry, cancel_unresolved, admit, start_publish, start_cancel, take_producer,
  cancel_remaining, start_commit, fail_commit, commit_restart, finalize,
}
use helianthus_modbusreg.Ledger.Attempt.Lifecycle.{
  Step, claim_begins, claim_ends, seals, admits, publish_starts, cancel_starts, producer_taken,
  rest_cancelled, commit_starts, commit_fails, restart_commits, finalizes, Reach, started, followed,
}

-- Open, sealed, on the way to an outcome, and the outcome.
abbrev pub rank : AttemptPhase → ℕ
rank opened = 0
rank sealed = 1
rank cancelling = 2
rank publishing = 2
rank published = 3
rank publish_failed = 3
rank cancel_failed = 3
rank cancelled = 3

abbrev pub Forward : RuntimeAttemptState → RuntimeAttemptState → Type 0
Forward a b = (b.phase ≡ a.phase) ⊎ (rank a.phase < rank b.phase)

begin_entry-phase :
    (a : RuntimeAttemptState) (i : ℕ) (e : RuntimeClaimEntry) (p : RuntimeClaimPhase)
    → (begin_entry a i e p).0.phase ≡ a.phase
unfolding begin_entry
begin_entry-phase a i e terminal = refl
begin_entry-phase a i e in_progress = refl
begin_entry-phase a i e unresolved = ground arith

begin_at-phase :
    (a : RuntimeAttemptState) (i : ℕ) (o : Option RuntimeClaimEntry)
    → (begin_at a i o).0.phase ≡ a.phase
unfolding begin_at
begin_at-phase a i none = refl
begin_at-phase a i (some e) = begin_entry-phase a i e e.phase

rank_by_number :
    (p : AttemptPhase) (n : ℕ)
    → phase_number p ≡ n
    → (n ≡ 0 → rank p ≡ 0)
      × (n ≡ 1 → rank p ≡ 1)
      × (2 ≤ n → n ≤ 3 → rank p ≡ 2)
      × (4 ≤ n → rank p ≡ 3)
rank_by_number opened n h = ground arith
rank_by_number sealed n h = ground arith
rank_by_number cancelling n h = ground arith
rank_by_number publishing n h = ground arith
rank_by_number published n h = ground arith
rank_by_number publish_failed n h = ground arith
rank_by_number cancel_failed n h = ground arith
rank_by_number cancelled n h = ground arith

seal-Forward : (a : RuntimeAttemptState) → Forward a (seal a).0
unfolding seal
seal-Forward a = ground (arith, rank_by_number a.phase (phase_number a.phase) refl)

admit-Forward : (a : RuntimeAttemptState) (b c d : Bool) → Forward a (admit a b c d).0
unfolding admit
admit-Forward a b c d = ground (arith, rank_by_number a.phase (phase_number a.phase) refl)

start_publish-Forward : (a : RuntimeAttemptState) → Forward a (start_publish a).0
unfolding start_publish
start_publish-Forward a = ground (arith, rank_by_number a.phase (phase_number a.phase) refl)

start_cancel-Forward : (a : RuntimeAttemptState) → Forward a (start_cancel a).0
unfolding start_cancel
start_cancel-Forward a = ground (arith, rank_by_number a.phase (phase_number a.phase) refl)

finalize-Forward :
    (a : RuntimeAttemptState) (o : AttemptPhase) (b : Bool) → Forward a (finalize a o b).0
unfolding finalize
finalize-Forward a o b = ground (
  arith,
  rank_by_number a.phase (phase_number a.phase) refl,
  rank_by_number o (phase_number o) refl,
)

Step-Forward : {a b : RuntimeAttemptState} → Step a b → Forward a b
unfolding begin_claim end_claim take_producer cancel_remaining start_commit fail_commit
    commit_restart
Step-Forward {a} (claim_begins i) = inl (begin_at-phase a i (get_elem? a.entries i))
Step-Forward {a} (claim_ends i e o g q) = inl refl
Step-Forward {a} seals = seal-Forward a
Step-Forward {a} (admits complete closed fits) = admit-Forward a complete closed fits
Step-Forward {a} publish_starts = start_publish-Forward a
Step-Forward {a} cancel_starts = start_cancel-Forward a
Step-Forward {a} producer_taken = inl (ground arith)
Step-Forward {a} rest_cancelled = inl (ground arith)
Step-Forward {a} (commit_starts o) = inl (ground arith)
Step-Forward {a} commit_fails = inl refl
Step-Forward {a} restart_commits = inl refl
Step-Forward {a} (finalizes o owned) = finalize-Forward a o owned

-- An attempt's phase stays or moves forward: from open to sealed, to publishing or cancelling, and
-- from started to an outcome.
pub Reach-Forward : (a b : RuntimeAttemptState) → Reach a b → Forward a b
Reach-Forward a b started = inl refl
Reach-Forward a c (followed {b} r s) =
    let before = Reach-Forward a b r in let now = Step-Forward s in ground (arith, before, now)

-- The entry of an ordinal is as it was, or the attempt has reached its outcome and given it up.
abbrev pub Kept : RuntimeAttemptState → ℕ → RuntimeClaimEntry → Type 0
Kept b i e = (get_elem? b.entries i ≡ some e) ⊎ (is_terminal_phase b.phase ≡ true)

get_elem?-cancel_unresolved :
    (es : List RuntimeClaimEntry) (i : ℕ) (e : RuntimeClaimEntry)
    → get_elem? es i ≡ some e
    → e.phase ≡ terminal
    → get_elem? (cancel_unresolved es) i ≡ some e
unfolding cancel_unresolved
get_elem?-cancel_unresolved [] i e g t = g
get_elem?-cancel_unresolved (d ∷ es) zero e g t =
    let same : d ≡ e = cc in
    subst (λ f. some (cancel_entry f f.phase) ≡ some e) (sym same) (rw t refl)
get_elem?-cancel_unresolved (d ∷ es) (suc i) e g t = get_elem?-cancel_unresolved es i e g t

-- Setting an entry in another phase does not touch a terminal one.
get_elem?-set_other :
    (es : List RuntimeClaimEntry) (i j : ℕ) (e d f : RuntimeClaimEntry)
    → get_elem? es i ≡ some e
    → e.phase ≡ terminal
    → get_elem? es j ≡ some d
    → is_terminal_claim d.phase ≡ false
    → get_elem? (set es j f) i ≡ some e
get_elem?-set_other [] i j e d f g t k o = g
get_elem?-set_other (c ∷ es) zero zero e d f g t k o =
    absurd (
      let p : e ≡ d = cc in
      let q = ap (λ x. is_terminal_claim x.phase) p in ground (arith, q, t, o))
get_elem?-set_other (c ∷ es) zero (suc j) e d f g t k o = g
get_elem?-set_other (c ∷ es) (suc i) zero e d f g t k o = g
get_elem?-set_other (c ∷ es) (suc i) (suc j) e d f g t k o =
    get_elem?-set_other es i j e d f g t k o

begin_entry-Kept :
    (a : RuntimeAttemptState) (j : ℕ) (d : RuntimeClaimEntry) (p : RuntimeClaimPhase) (i : ℕ)
    (e : RuntimeClaimEntry)
    → d.phase ≡ p
    → get_elem? a.entries j ≡ some d
    → get_elem? a.entries i ≡ some e
    → e.phase ≡ terminal
    → get_elem? (begin_entry a j d p).0.entries i ≡ some e
unfolding begin_entry
begin_entry-Kept a j d terminal i e q k g t = g
begin_entry-Kept a j d in_progress i e q k g t = g
begin_entry-Kept a j d unresolved i e q k g t =
    let other =
      get_elem?-set_other a.entries i j e d (record d { phase = in_progress }) g t k (rw q refl) in
    ground (arith, other)

begin_at-Kept :
    (a : RuntimeAttemptState) (j : ℕ) (o : Option RuntimeClaimEntry) (i : ℕ) (e : RuntimeClaimEntry)
    → get_elem? a.entries j ≡ o
    → get_elem? a.entries i ≡ some e
    → e.phase ≡ terminal
    → get_elem? (begin_at a j o).0.entries i ≡ some e
unfolding begin_at
begin_at-Kept a j none i e k g t = g
begin_at-Kept a j (some d) i e k g t = begin_entry-Kept a j d d.phase i e refl k g t

finalize-Kept :
    (a : RuntimeAttemptState) (o : AttemptPhase) (b : Bool) (i : ℕ) (e : RuntimeClaimEntry)
    → get_elem? a.entries i ≡ some e
    → Kept (finalize a o b).0 i e
unfolding finalize
finalize-Kept a o b i e g = ground arith

Step-Kept :
    {a b : RuntimeAttemptState} (i : ℕ) (e : RuntimeClaimEntry)
    → Step a b
    → get_elem? a.entries i ≡ some e
    → e.phase ≡ terminal
    → Kept b i e
unfolding begin_claim end_claim seal admit start_publish start_cancel take_producer cancel_remaining
    start_commit fail_commit commit_restart
Step-Kept {a} i e (claim_begins j) g t =
    inl (begin_at-Kept a j (get_elem? a.entries j) i e refl g t)
Step-Kept {a} i e (claim_ends j d o k q) g t = inl (
    get_elem?-set_other a.entries i j e d (record d { phase = terminal; outcome = some o }) g t k
      (rw q refl))
Step-Kept {a} i e seals g t = inl (ground arith)
Step-Kept {a} i e (admits complete closed fits) g t =
    inl (ground (arith, get_elem?-cancel_unresolved a.entries i e g t))
Step-Kept {a} i e publish_starts g t = inl (ground arith)
Step-Kept {a} i e cancel_starts g t = inl (ground arith)
Step-Kept {a} i e producer_taken g t = inl (ground arith)
Step-Kept {a} i e rest_cancelled g t =
    inl (ground (arith, get_elem?-cancel_unresolved a.entries i e g t))
Step-Kept {a} i e (commit_starts o) g t = inl (ground arith)
Step-Kept {a} i e commit_fails g t = inl g
Step-Kept {a} i e restart_commits g t = inl g
Step-Kept {a} i e (finalizes o owned) g t = finalize-Kept a o owned i e g

pub Step-terminal :
    {a b : RuntimeAttemptState}
    → Step a b
    → is_terminal_phase a.phase ≡ true
    → is_terminal_phase b.phase ≡ true
Step-terminal {a} {b} s h = ground (
  arith,
  Step-Forward s,
  rank_by_number a.phase (phase_number a.phase) refl,
  rank_by_number b.phase (phase_number b.phase) refl,
)

-- Where each claim is ended by the caller whose entry is in progress.
pub Reach-Kept :
    (a b : RuntimeAttemptState) (i : ℕ) (e : RuntimeClaimEntry)
    → get_elem? a.entries i ≡ some e
    → e.phase ≡ terminal
    → Reach a b
    → Kept b i e
Reach-Kept a b i e g t started = inl g
Reach-Kept a c i e g t (followed {b} r s) = elim (Reach-Kept a b i e g t r) [
  | inl kept ↦ Step-Kept i e s kept t
  | inr over ↦ inr (Step-terminal s over)
]
