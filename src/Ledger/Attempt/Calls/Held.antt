-- ===== src/Ledger/Attempt/Calls/Held.antt =====
-- How the callers of each ordinal relate to its entry.
use helianthus_modbusreg.Base.{
  ℕ, zero, suc, ◌+◌, ◌-◌, ◌≤◌, ◌≡◌, refl, sym, ap, subst, List, [], ◌∷◌, Option, none, some, ◌==◌,
  if◌then◌else◌, get_elem?, set, arith, Bool-cases, inl, inr, ◌∙◌, false, not, ◌||◌,
}
use helianthus_modbusreg.Ledger.{ClaimOutcome, opened}
use helianthus_modbusreg.Ledger.Attempt.{
  RuntimeClaimPhase, unresolved, in_progress, terminal, RuntimeClaimEntry, same_phase, begin_entry,
  begin_at, end_claim, cancel_unresolved,
}
use helianthus_modbusreg.Ledger.Attempt.Lifecycle.{busy, busy_entry}
use helianthus_modbusreg.Ledger.Attempt.Calls.{Calls, update, after_begin, after_end}

abbrev pub busy_at : Option RuntimeClaimEntry → ℕ
busy_at none = 0
busy_at (some e) = busy_entry e.phase

abbrev pub spent_entry : RuntimeClaimPhase → ℕ
spent_entry unresolved = 0
spent_entry in_progress = 1
spent_entry terminal = 1

-- How often the capability of an entry can have been invoked.
abbrev pub spent_at : Option RuntimeClaimEntry → ℕ
spent_at none = 1
spent_at (some e) = spent_entry e.phase

abbrev pub Agree : ℕ → ℕ → Option RuntimeClaimEntry → Type 0
Agree claiming invoked o = (claiming ≡ busy_at o) × (claiming ≤ invoked) × (invoked ≤ spent_at o)

-- The callers of each ordinal are those its entry knows of, and none came before an unresolved one.
abbrev pub Held : Calls → Type 0
Held c = (j : ℕ) → Agree (c.claiming j) (c.invoked j) (get_elem? c.attempt.entries j)

get_elem?-set :
    (es : List RuntimeClaimEntry) (i j : ℕ) (e d : RuntimeClaimEntry)
    → get_elem? es i ≡ some e
    → get_elem? (set es i d) j ≡ (if i == j then some d else get_elem? es j)
get_elem?-set [] i j e d h = cc
get_elem?-set (c ∷ es) zero zero e d h = refl
get_elem?-set (c ∷ es) zero (suc j) e d h = ground arith
get_elem?-set (c ∷ es) (suc i) zero e d h = ground arith
get_elem?-set (c ∷ es) (suc i) (suc j) e d h = ground (arith, get_elem?-set es i j e d h)

-- What holds of the entry that is set, and of the others as they were, holds of all.
all_set {ℓ} :
    (P : ℕ → Option RuntimeClaimEntry → Type ℓ) (es : List RuntimeClaimEntry) (i : ℕ)
    (e d : RuntimeClaimEntry)
    → get_elem? es i ≡ some e
    → P i (some d)
    → ((j : ℕ) → (i == j) ≡ false → P j (get_elem? es j))
    → (j : ℕ) → P j (get_elem? (set es i d) j)
all_set P es i e d g here there j =
    let at = get_elem?-set es i j e d g in
    elim (Bool-cases (i == j)) [
      | inl t ↦
          let same : i ≡ j = ground (arith, t) in
          subst (P j) (sym (at ∙ rw t refl)) (subst (λ k. P k (some d)) same here)
      | inr t ↦ subst (P j) (sym (at ∙ rw t refl)) (there j t)
    ]

update-here : (i n : ℕ) (f : ℕ → ℕ) → update i n f i ≡ n
update-here i n f = ground arith

update-there : (i n j : ℕ) (f : ℕ → ℕ) → (i == j) ≡ false → update i n f j ≡ f j
update-there i n j f h = rw h refl

pub busy_at-held : (e : RuntimeClaimEntry) → 1 ≤ busy_entry e.phase → e.phase ≡ in_progress
busy_at-held e h = ground arith

Held-begin_entry :
    (c : Calls) (i : ℕ) (e : RuntimeClaimEntry) (p : RuntimeClaimPhase)
    → e.phase ≡ p
    → get_elem? c.attempt.entries i ≡ some e
    → Held c
    → Held (after_begin c i (begin_entry c.attempt i e p))
unfolding begin_entry
Held-begin_entry c i e terminal q g h = h
Held-begin_entry c i e in_progress q g h = h
Held-begin_entry c i e unresolved q g h =
    elim (Bool-cases (not (same_phase c.attempt.phase opened) || not c.attempt.admitted)) [
      | inl t ↦ rw t h
      | inr t ↦ rw t (
          let before = subst (Agree (c.claiming i) (c.invoked i)) g (h i) in
          let busy_now = ap busy_entry q in
          let spent_now = ap spent_entry q in
          all_set
            (λ j.
              Agree (update i (c.claiming i + 1) c.claiming j)
                (update i (c.invoked i + 1) c.invoked j))
            c.attempt.entries i e (record e { phase = in_progress }) g
            (rw (update-here i (c.claiming i + 1) c.claiming)
              (rw (update-here i (c.invoked i + 1) c.invoked) (omega arith)))
            (λ j o.
              rw (update-there i (c.claiming i + 1) j c.claiming o)
                (rw (update-there i (c.invoked i + 1) j c.invoked o) (h j))))
    ]

pub Held-begin_at :
    (c : Calls) (i : ℕ) (o : Option RuntimeClaimEntry)
    → get_elem? c.attempt.entries i ≡ o
    → Held c
    → Held (after_begin c i (begin_at c.attempt i o))
unfolding begin_at
Held-begin_at c i none g h = h
Held-begin_at c i (some e) g h = Held-begin_entry c i e e.phase refl g h

-- A call that began finds its entry in progress.
pub claiming-in_progress :
    (c : Calls) (i : ℕ) (e : RuntimeClaimEntry)
    → 1 ≤ c.claiming i
    → get_elem? c.attempt.entries i ≡ some e
    → Held c
    → e.phase ≡ in_progress
claiming-in_progress c i e some_call g h =
    let here = subst (Agree (c.claiming i) (c.invoked i)) g (h i) in busy_at-held e (omega arith)

pub Held-end_claim :
    (c : Calls) (i : ℕ) (e : RuntimeClaimEntry) (o : ClaimOutcome)
    → 1 ≤ c.claiming i
    → get_elem? c.attempt.entries i ≡ some e
    → Held c
    → Held (after_end c i e o)
unfolding end_claim
Held-end_claim c i e o some_call g h =
    let before = subst (Agree (c.claiming i) (c.invoked i)) g (h i) in
    let held = ap busy_entry (claiming-in_progress c i e some_call g h) in
    let used = ap spent_entry (claiming-in_progress c i e some_call g h) in
    all_set (λ j. Agree (update i (c.claiming i - 1) c.claiming j) (c.invoked j)) c.attempt.entries
      i e (record e { phase = terminal; outcome = some o }) g
      (rw (update-here i (c.claiming i - 1) c.claiming) (omega arith))
      (λ j p. rw (update-there i (c.claiming i - 1) j c.claiming p) (h j))

-- A cancellation leaves the entries in progress, and only uses entries up.
pub cancel_unresolved-at :
    (es : List RuntimeClaimEntry) (j n k : ℕ)
    → Agree n k (get_elem? es j)
    → Agree n k (get_elem? (cancel_unresolved es) j)
unfolding cancel_unresolved
cancel_unresolved-at [] j n k h = h
cancel_unresolved-at (e ∷ es) zero n k h = ground arith
cancel_unresolved-at (e ∷ es) (suc j) n k h = cancel_unresolved-at es j n k h

pub busy_at-busy : (es : List RuntimeClaimEntry) (j : ℕ) → busy_at (get_elem? es j) ≤ busy es
busy_at-busy [] j = omega arith
busy_at-busy (e ∷ es) zero = omega arith
busy_at-busy (e ∷ es) (suc j) = omega (arith, busy_at-busy es j)
