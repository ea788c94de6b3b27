-- ===== src/SunSpec/Chain/Runs.antt =====
-- Whole discoveries: a chain from an accepted plan, and any sequence of offered replays.
use helianthus_modbusreg.Base.{
  ℕ, suc, ◌+◌, ◌≤◌, ◌<◌, ◌≡◌, refl, sym, ap, subst, true, false, List, [], ◌∷◌, length, All,
  All-mono, arith, ok, Bool-cases, inl, inr, ◌==◌,
}
use helianthus_modbusreg.View.{LogicalViewRecord}
use helianthus_modbusreg.SunSpec.{SunSpecReadRequest, max_read_words}
use helianthus_modbusreg.SunSpec.Plan.{
  SunSpecChainPlan, SunSpecChainPlanSpec, new_plan, initial_requests,
}
use helianthus_modbusreg.SunSpec.Plan.Accepted.{Accepted, new_plan-Accepted, new_plan-initial}
use helianthus_modbusreg.SunSpec.Chain.{SunSpecChain, new_chain, bind_requests, fresh_chain}
use helianthus_modbusreg.SunSpec.Chain.Steps.{Derive, admit_replay}
use helianthus_modbusreg.SunSpec.Chain.Phase.{
  Phase, Finished, IsProbe, probing, at_header, at_payload, finished, halted, budget,
}
use helianthus_modbusreg.SunSpec.Chain.Good.{IsWord, paid}
use helianthus_modbusreg.SunSpec.Chain.Admission.{admit_replay-Phase, admit_replay-budget}

-- One call of `AdmitReplay`: the request and the view that the caller holds.
abbrev pub Offer : Type 0
Offer = SunSpecReadRequest × LogicalViewRecord

abbrev pub HasWords : Offer → Type 0
HasWords o = All IsWord o.1.words

unfoldable pub replay : {C : Type 0} → Derive C → SunSpecChain C → List Offer → SunSpecChain C
replay derive c [] = c
replay derive c ((r, x) ∷ os) = replay derive (admit_replay derive c r x).0 os

-- How many of the offers are admitted.
unfoldable pub admissions : {C : Type 0} → Derive C → SunSpecChain C → List Offer → ℕ
admissions derive c [] = 0
admissions derive c ((r, x) ∷ os) =
    let s = admit_replay derive c r x in paid s + admissions derive s.0 os

bound_probes :
    (i nonce k : ℕ) (bs : List ℕ)
    → All (λ b. b + 2 ≤ 65536) bs
    → All IsProbe (bind_requests i (initial_requests nonce k bs))
      × (length (bind_requests i (initial_requests nonce k bs)) ≡ length bs)
unfolding bind_requests initial_requests
bound_probes i nonce k [] h = (tt, refl)
bound_probes i nonce k (b ∷ bs) h =
    let rest = bound_probes i nonce (k + 1) bs h.1 in
    ((record { keyed = refl; purpose = refl; words = refl; fits = h.0 }, rest.0), ap suc rest.1)

module _ {C : Type 0} (i : ℕ) (s : SunSpecChainPlanSpec) (p : SunSpecChainPlan) (a : Accepted s p)
    (asked : p.initial ≡ initial_requests p.nonce 1 p.bases) where
  fresh-Phase : Phase (fresh_chain {C = C} p i false)
  fresh-Phase =
      let probes = bound_probes i p.nonce 1 p.bases a.fit in
      probing
        (record {
          plan_ok = record { least = a.least; most = a.most; counted = a.counted };
          probes = subst (λ q. All IsProbe (bind_requests i q)) (sym asked) probes.0;
          base_fits = λ b e. cc;
          no_raw = refl;
          no_occ = refl;
          no_current = refl;
          running = refl;
        })
        (omega (arith, ap (λ q. length (bind_requests i q)) asked, probes.1, a.some_base))

  new_chain-Phase : Phase (new_chain {C = C} i p)
  unfolding new_chain
  new_chain-Phase = elim (Bool-cases (i == 0)) [
    | inl e ↦ rw e (halted refl refl (unfold bind_requests in refl))
    | inr e ↦ rw e fresh-Phase
  ]

  new_chain-budget :
      (c : SunSpecChain C)
      → c ≡ new_chain i p
      → budget c ≤ length p.bases + p.limits.max_total_words
  unfolding new_chain bind_requests
  new_chain-budget c q =
      subst (λ d. budget d ≤ length p.bases + p.limits.max_total_words) (sym q)
        (elim (Bool-cases (i == 0)) [
          | inl e ↦ rw e (omega arith)
          | inr e ↦ rw e (
              omega (
                arith,
                ap (λ q. length (bind_requests i q)) asked,
                (bound_probes i p.nonce 1 p.bases a.fit).1,
              ))
        ])

module _ {C : Type 0} (derive : Derive C) where
  replay-Phase :
      (c : SunSpecChain C) (os : List Offer)
      → Phase c
      → All HasWords os
      → Phase (replay derive c os)
  unfolding replay
  replay-Phase c [] h w = h
  replay-Phase c ((r, x) ∷ os) h w =
      replay-Phase (admit_replay derive c r x).0 os (admit_replay-Phase derive c r x h w.0) w.1

  admissions-budget :
      (c : SunSpecChain C) (os : List Offer)
      → Phase c
      → All HasWords os
      → admissions derive c os ≤ budget c
  unfolding admissions
  admissions-budget c [] h w = omega arith
  admissions-budget c ((r, x) ∷ os) h w = omega (
    arith,
    admissions-budget (admit_replay derive c r x).0 os (admit_replay-Phase derive c r x h w.0) w.1,
    admit_replay-budget derive c r x h w.0,
  )

-- What is out of a chain in some phase is within the address space and one read's words.
abbrev pub InRange : ℕ × SunSpecReadRequest → Type 0
InRange e = (1 ≤ e.1.words) × (e.1.words ≤ max_read_words) × (e.1.address + e.1.words ≤ 65536)

Phase-InRange : {C : Type 0} (c : SunSpecChain C) → Phase c → All InRange c.pending
Phase-InRange c (probing h left) =
    All-mono c.pending (λ e q. omega (arith, q.words, q.fits)) h.probes
Phase-InRange c (at_header b r h) =
    subst (All InRange) (sym h.asked) (omega (arith, h.words, h.fits), tt)
Phase-InRange c (at_payload b r cur h) =
    subst (All InRange) (sym h.asked) (ground (arith, h.words, h.short, h.fits, h.address), tt)
Phase-InRange c (finished b h) = subst (All InRange) (sym h.no_pending) tt
Phase-InRange c (halted h running none_left) = subst (All InRange) (sym none_left) tt

Phase-asks :
    {C : Type 0} (c : SunSpecChain C)
    → Phase c
    → c.complete ≡ false
    → c.failed ≡ false
    → 1 ≤ length c.pending
Phase-asks c (probing h left) running alive = left
Phase-asks c (at_header b r h) running alive = omega (arith, ap length h.asked)
Phase-asks c (at_payload b r cur h) running alive = omega (arith, ap length h.asked)
Phase-asks c (finished b h) running alive = absurd (cc (h.complete))
Phase-asks c (halted h r l) running alive = absurd (cc h)

Phase-Finished :
    {C : Type 0} (c : SunSpecChain C) → Phase c → c.complete ≡ true → (b : ℕ) × Finished c b
Phase-Finished c (probing h left) done = absurd (cc (h.running))
Phase-Finished c (at_header b r h) done = absurd (cc (h.running))
Phase-Finished c (at_payload b r cur h) done = absurd (cc (h.running))
Phase-Finished c (finished b h) done = (b, h)
Phase-Finished c (halted h r l) done = absurd (cc r)

module _ {C : Type 0} (derive : Derive C) (nonce i : ℕ) (s : SunSpecChainPlanSpec)
    (p : SunSpecChainPlan) (small : All (λ b. b < 65536) s.base_candidates)
    (planned : new_plan nonce s ≡ ok p) (os : List Offer) (words : All HasWords os) where
  reached : Phase (replay derive (new_chain i p) os)
  reached =
      let a = new_plan-Accepted nonce s p small planned in
      replay-Phase derive _ os (new_chain-Phase i s p a (new_plan-initial nonce s p planned)) words

  -- Whatever is replayed to a chain of an accepted plan: once the chain is complete, its words are the
  -- signature, the occurrences in order and the end marker; each occurrence holds its own header and
  -- exactly as many words as that declares; the occurrences lie one behind the other from the base on,
  -- numbered from 1; and words and occurrences are within the plan's limits.
  pub replay-Finished :
      (replay derive (new_chain i p) os).complete ≡ true
      → (b : ℕ) × Finished (replay derive (new_chain i p) os) b
  replay-Finished done = Phase-Finished _ reached done

  -- At any time every request of the chain asks for 1 to 125 words inside the 16-bit address space.
  pub replay-InRange : All InRange (replay derive (new_chain i p) os).pending
  replay-InRange = Phase-InRange _ reached

  -- A chain that is neither complete nor failed has a request out: discovery never stalls.
  pub replay-asks :
      (replay derive (new_chain i p) os).complete ≡ false
      → (replay derive (new_chain i p) os).failed ≡ false
      → 1 ≤ length (replay derive (new_chain i p) os).pending
  replay-asks running alive = Phase-asks _ reached running alive

  -- Discovery ends: of any offers at most as many are admitted as there are bases and planned words.
  pub admissions_bounded :
      admissions derive (new_chain i p) os ≤ length p.bases + p.limits.max_total_words
  admissions_bounded =
      let a = new_plan-Accepted nonce s p small planned in
      let asked = new_plan-initial nonce s p planned in
      omega (
        arith,
        admissions-budget derive (new_chain i p) os (new_chain-Phase i s p a asked) words,
        new_chain-budget i s p a asked (new_chain i p) refl,
      )
