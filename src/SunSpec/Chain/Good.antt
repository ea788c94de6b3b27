-- ===== src/SunSpec/Chain/Good.antt =====
-- What a step of the chain leaves behind, and the rules for its guards and its queue.
use helianthus_modbusreg.Base.{
  ℕ, ◌+◌, ◌≤◌, ◌<◌, ◌≡◌, refl, Bool, true, false, [], ◌∷◌, arith, ok, err, ==_refl, store, delete,
  Map,
}
use helianthus_modbusreg.SunSpec.{SunSpecReadRequest, SunSpecReadPurpose}
use helianthus_modbusreg.SunSpec.Chain.{
  SunSpecChain, ChainError, Step, failing, queue, reject◌when◌leaving◌otherwise◌,
}
use helianthus_modbusreg.SunSpec.Chain.Phase.{Phase, spare, budget, halted}

-- A uint16 value.
abbrev pub IsWord : ℕ → Type 0
IsWord w = w < 65536

-- What a success takes off the budget.
abbrev pub paid : {C A : Type 0} → Step C A → ℕ
paid (c, ok a) = 1
paid (c, err e) = 0

-- What a step leaves behind, an error by way of `fail` included, is a phase, within the budget `n`.
pub data Good {C A : Type 0} (n : ℕ) (s : Step C A) : Type 0 where
  good : Phase (failing s).0 → budget (failing s).0 + paid s ≤ n → Good n s

pub refused :
    {C A : Type 0} (n : ℕ) (c : SunSpecChain C) (e : ChainError)
    → c.complete ≡ false
    → spare c ≤ n
    → Good {C = C} {A = A} n (c, err e)
unfolding failing
refused n c e running le = good (halted refl running refl) (omega arith)

-- A guard that refuses leaves a failed chain; so only the way past it is left to show.
pub guarded :
    {C A : Type 0} {n : ℕ} (b : Bool) (c : SunSpecChain C) (e : ChainError) {s : Step C A}
    → c.complete ≡ false
    → spare c ≤ n
    → (b ≡ false → Good n s)
    → Good n (reject e when b leaving c otherwise s)
unfolding reject◌when◌leaving◌otherwise◌
guarded true c e running le go = refused _ c e running le
guarded false c e running le go = go refl

-- `queue` with no other request out, where what it queues is a phase.
pub queued :
    {C : Type 0} {n : ℕ} (c : SunSpecChain C) (address k : ℕ) (p : SunSpecReadPurpose)
    → c.complete ≡ false
    → c.pending ≡ []
    → spare c + 2 ≤ n
    → ((r : SunSpecReadRequest) (i : ℕ)
        → r.address ≡ address
        → r.words ≡ k
        → r.purpose ≡ p
        → r.sequence ≡ i
        → address + k ≤ 65536
        → Phase (record c { next = i; pending = store i r c.pending }))
    → Good n (queue c address k p)
unfolding queue failing
queued c address k p running none_left le go = guarded _ c _ running (omega arith) λ bound.
    guarded _ c _ running (omega arith) λ fits.
      good (go _ _ (ground arith) refl refl refl (ground arith)) (rw none_left (omega arith))

-- Taking the only request out leaves none, and the next one is then the only one.
pub answered :
    (r : SunSpecReadRequest) {m : Map SunSpecReadRequest}
    → m ≡ (r.sequence, r) ∷ []
    → delete r.sequence m ≡ []
answered r asked = rw (asked, ==_refl r.sequence)

pub asked_next :
    (r q : SunSpecReadRequest) (i : ℕ) {m : Map SunSpecReadRequest}
    → m ≡ (r.sequence, r) ∷ []
    → q.sequence ≡ i
    → store i q (delete r.sequence m) ≡ (q.sequence, q) ∷ []
asked_next r q i asked e = rw (answered r asked, e)
