-- ===== src/Ledger/Attempt/Calls/Once.antt =====
-- Whole runs of the callers of `Claim`.
use helianthus_modbusreg.Base.{
  ℕ, zero, suc, ◌≤◌, ◌≡◌, refl, List, Option, none, some, get_elem?, arith, inl, inr, ◌⊎◌,
}
use helianthus_modbusreg.Ledger.Attempt.{in_progress, terminal, RuntimeClaimEntry}
use helianthus_modbusreg.Ledger.Attempt.Lifecycle.{
  Reach, started, followed, Sound, Step-Sound, new_attempt-Sound,
}
use helianthus_modbusreg.Ledger.Attempt.Progress.{Kept, Reach-Kept}
use helianthus_modbusreg.Ledger.Attempt.Calls.{Calls, Run, idle, moved, no_calls}
use helianthus_modbusreg.Ledger.Attempt.Calls.Held.{busy_at, spent_at, Held, busy_at-held}
use helianthus_modbusreg.Ledger.Attempt.Calls.Moves.{Move-Step, no_calls-Held}

Run-Reach :
    {c d : Calls}
    → Sound c.attempt
    → Held c
    → Run c d
    → Reach c.attempt d.attempt × Sound d.attempt × Held d
Run-Reach sound h idle = (started, sound, h)
Run-Reach sound h (moved r m) =
    let (reached, sound_then, held_then) = Run-Reach sound h r in
    let (step, held_now) = Move-Step sound_then held_then m in
    (followed reached step, Step-Sound step sound_then, held_now)

fresh-Run :
    (first : ℕ) (ns : List ℕ) (c : Calls) → Run (no_calls first ns) c → Sound c.attempt × Held c
fresh-Run first ns c r =
    let (reached, sound, held) =
      Run-Reach (new_attempt-Sound first ns) (no_calls-Held first ns) r in
    (sound, held)

-- Whatever callers did on a new attempt: once a claim is terminal, its entry with its outcome stays
-- what it is, whatever sections of whatever callers follow, until the attempt reaches its own
-- outcome. The second section of a claim writes its entry whatever stands there; that it never
-- overwrites an outcome follows from the guards of the first.
pub Run-Kept :
    (first : ℕ) (ns : List ℕ) (c d : Calls) (i : ℕ) (e : RuntimeClaimEntry)
    → Run (no_calls first ns) c
    → Run c d
    → get_elem? c.attempt.entries i ≡ some e
    → e.phase ≡ terminal
    → Kept d.attempt i e
Run-Kept first ns c d i e before after g t =
    let (sound, held) = fresh-Run first ns c before in
    Reach-Kept c.attempt d.attempt i e g t (Run-Reach sound held after).0

-- An entry that its ordinal finds is in progress.
abbrev pub InProgress : List RuntimeClaimEntry → ℕ → Type 0
InProgress es i = (e : RuntimeClaimEntry) × (get_elem? es i ≡ some e) × (e.phase ≡ in_progress)

or_nobody :
    (es : List RuntimeClaimEntry) (i : ℕ) (o : Option RuntimeClaimEntry) (n : ℕ)
    → get_elem? es i ≡ o
    → n ≡ busy_at o
    → (n ≡ 0) ⊎ InProgress es i
or_nobody es i none n g h = inl h
or_nobody es i (some e) zero g h = inl refl
or_nobody es i (some e) (suc n) g h = inr (e, g, busy_at-held e (omega arith))

spent_at-one : (o : Option RuntimeClaimEntry) → spent_at o ≤ 1
spent_at-one none = omega arith
spent_at-one (some e) = ground arith

-- Whatever callers did on a new attempt: the capability of each ordinal was invoked at most once, and
-- the callers that began its claim and have not ended it are among those that invoked it; either
-- there is none, or the entry of the ordinal is there and in progress.
pub Run-once :
    (first : ℕ) (ns : List ℕ) (c : Calls) (i : ℕ)
    → Run (no_calls first ns) c
    → (c.invoked i ≤ 1)
      × (c.claiming i ≤ c.invoked i)
      × ((c.claiming i ≡ 0) ⊎ InProgress c.attempt.entries i)
Run-once first ns c i r =
    let (known, begun, used) = (fresh-Run first ns c r).1 i in
    let entry = get_elem? c.attempt.entries i in
    (
      omega (arith, spent_at-one entry, used),
      begun,
      or_nobody c.attempt.entries i entry (c.claiming i) refl known,
    )
