-- ===== src/Ledger/Attempt/Calls/Moves.antt =====
-- The sections of the callers as sections of the attempt.
use helianthus_modbusreg.Base.{
  ℕ, zero, suc, ◌≡◌, refl, sym, subst, Bool, List, [], ◌∷◌, Option, none, some, get_elem?, arith,
  inl, inr, ◌⊎◌,
}
use helianthus_modbusreg.Ledger.{AttemptPhase}
use helianthus_modbusreg.Ledger.Attempt.{
  RuntimeClaimEntry, RuntimeAttemptState, begin_claim, seal, cancel_unresolved, admit,
  start_publish, start_cancel, take_producer, cancel_remaining, start_commit, fail_commit,
  commit_restart, finalize, new_attempt, open_entries,
}
use helianthus_modbusreg.Ledger.Attempt.Lifecycle.{
  Step, claim_begins, claim_ends, seals, admits, publish_starts, cancel_starts, producer_taken,
  rest_cancelled, commit_starts, commit_fails, restart_commits, finalizes, Sound,
}
use helianthus_modbusreg.Ledger.Attempt.Calls.{
  Calls, Move, call_begins, call_ends, call_seals, call_admits, call_publishes, call_cancels,
  call_takes, call_cancels_rest, call_commits, call_fails, call_restarts, call_finalizes, no_calls,
}
use helianthus_modbusreg.Ledger.Attempt.Calls.Held.{
  busy_at, Agree, Held, Held-begin_at, claiming-in_progress, Held-end_claim, cancel_unresolved-at,
  busy_at-busy,
}

Held-same :
    (c : Calls) (a : RuntimeAttemptState)
    → a.entries ≡ c.attempt.entries
    → Held c
    → Held (record c { attempt = a })
Held-same c a q h =
    λ j. subst (λ es. Agree (c.claiming j) (c.invoked j) (get_elem? es j)) (sym q) (h j)

Held-cancelled :
    (c : Calls) (a : RuntimeAttemptState)
    → (a.entries ≡ c.attempt.entries) ⊎ (a.entries ≡ cancel_unresolved c.attempt.entries)
    → Held c
    → Held (record c { attempt = a })
Held-cancelled c a (inl q) h = Held-same c a q h
Held-cancelled c a (inr q) h = λ j.
    subst (λ es. Agree (c.claiming j) (c.invoked j) (get_elem? es j)) (sym q)
      (cancel_unresolved-at c.attempt.entries j (c.claiming j) (c.invoked j) (h j))

Agree-nothing :
    (n k : ℕ) (o : Option RuntimeClaimEntry) → busy_at o ≡ 0 → Agree n k o → Agree n k none
Agree-nothing n k none q h = h
Agree-nothing n k (some e) q h = (omega (arith, h, q), h.1, ground (arith, h))

finalize-entries :
    (a : RuntimeAttemptState) (o : AttemptPhase) (owned : Bool)
    → ((finalize a o owned).0.entries ≡ a.entries)
      ⊎ (((finalize a o owned).0.entries ≡ []) × (a.in_progress_claims ≡ 0))
unfolding finalize
finalize-entries a o owned = ground arith

admit-entries :
    (a : RuntimeAttemptState) (complete closed fits : Bool)
    → ((admit a complete closed fits).0.entries ≡ a.entries)
      ⊎ ((admit a complete closed fits).0.entries ≡ cancel_unresolved a.entries)
unfolding admit
admit-entries a complete closed fits = ground arith

cancel_remaining-entries :
    (a : RuntimeAttemptState)
    → ((cancel_remaining a).entries ≡ a.entries)
      ⊎ ((cancel_remaining a).entries ≡ cancel_unresolved a.entries)
unfolding cancel_remaining
cancel_remaining-entries a = ground arith

fresh_at : (ns : List ℕ) (j : ℕ) → Agree 0 0 (get_elem? (open_entries ns) j)
unfolding open_entries
fresh_at [] j = (refl, omega arith, omega arith)
fresh_at (n ∷ ns) zero = (refl, omega arith, omega arith)
fresh_at (n ∷ ns) (suc j) = fresh_at ns j

-- An attempt gives its entries up when no claim is in progress.
Held-finalize :
    (c : Calls) (o : AttemptPhase) (owned : Bool)
    → Sound c.attempt
    → Held c
    → Held (record c { attempt = (finalize c.attempt o owned).0 })
unfolding finalize
Held-finalize c o owned sound h = elim (finalize-entries c.attempt o owned) [
  | inl q ↦ Held-same c (finalize c.attempt o owned).0 q h
  | inr (q, idle_now) ↦ λ j.
      subst (λ es. Agree (c.claiming j) (c.invoked j) (get_elem? es j)) (sym q)
        (Agree-nothing (c.claiming j) (c.invoked j) (get_elem? c.attempt.entries j)
          (omega (arith, busy_at-busy c.attempt.entries j, sound.counted, idle_now)) (h j))
]

-- The sections of the callers are sections of the attempt, and keep its callers known.
pub Move-Step :
    {c d : Calls} → Sound c.attempt → Held c → Move c d → Step c.attempt d.attempt × Held d
unfolding begin_claim seal admit start_publish start_cancel take_producer cancel_remaining
    start_commit fail_commit commit_restart
Move-Step {c} sound h (call_begins i) =
    (claim_begins i, Held-begin_at c i (get_elem? c.attempt.entries i) refl h)
Move-Step {c} sound h (call_ends i e o some_call g) = (
  claim_ends i e o g (claiming-in_progress c i e some_call g h),
  Held-end_claim c i e o some_call g h,
)
Move-Step {c} sound h call_seals = (seals, Held-same c (seal c.attempt).0 (ground arith) h)
Move-Step {c} sound h (call_admits complete closed fits) = (
  admits complete closed fits,
  Held-cancelled c (admit c.attempt complete closed fits).0
      (admit-entries c.attempt complete closed fits) h,
)
Move-Step {c} sound h call_publishes =
    (publish_starts, Held-same c (start_publish c.attempt).0 (ground arith) h)
Move-Step {c} sound h call_cancels =
    (cancel_starts, Held-same c (start_cancel c.attempt).0 (ground arith) h)
Move-Step {c} sound h call_takes =
    (producer_taken, Held-same c (take_producer c.attempt) (ground arith) h)
Move-Step {c} sound h call_cancels_rest = (
  rest_cancelled,
  Held-cancelled c (cancel_remaining c.attempt) (cancel_remaining-entries c.attempt) h,
)
Move-Step {c} sound h (call_commits o) =
    (commit_starts o, Held-same c (start_commit c.attempt o).0 (ground arith) h)
Move-Step {c} sound h call_fails = (commit_fails, h)
Move-Step {c} sound h call_restarts = (restart_commits, h)
Move-Step {c} sound h (call_finalizes o owned) =
    (finalizes o owned, Held-finalize c o owned sound h)

-- A new attempt has no callers.
pub no_calls-Held : (first : ℕ) (ns : List ℕ) → Held (no_calls first ns)
unfolding new_attempt
no_calls-Held first ns = λ j. fresh_at ns j
