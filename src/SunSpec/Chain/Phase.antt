-- ===== src/SunSpec/Chain/Phase.antt =====
-- The phases of a chain's life: which request is out, and what the words read so far are.
use helianthus_modbusreg.Base.{
  ℕ, ◌+◌, ◌-◌, ◌≤◌, ◌<◌, ◌≡◌, ◌≢◌, true, false, List, [], ◌∷◌, ◌++◌, none, some, length,
  length-append, All, arith, append_assoc, append-nil,
}
use helianthus_modbusreg.SunSpec.{
  SunSpecReadRequest, SunSpecOccurrence, signature, header, payload, signature_first,
  signature_second, end_model,
}
use helianthus_modbusreg.SunSpec.Plan.{SunSpecChainPlan}
use helianthus_modbusreg.SunSpec.Chain.{SunSpecChain, SunSpecCurrent}
use helianthus_modbusreg.SunSpec.Chain.Steps.{min_sun_spec}

-- The words of all occurrences in order.
abbrev pub flat : {C : Type 0} → List (SunSpecOccurrence C) → List ℕ
flat [] = []
flat (o ∷ os) = o.words ++ flat os

pub flat-append :
    {C : Type 0} (os : List (SunSpecOccurrence C)) (o : SunSpecOccurrence C)
    → flat (os ++ o ∷ []) ≡ flat os ++ o.words
flat-append [] o = append-nil o.words
flat-append (p ∷ os) o = rw (flat-append os o, append_assoc)

-- An occurrence holds its own header and as many payload words as the header declares.
pub record IsOccurrence {C : Type 0} (o : SunSpecOccurrence C) : Type 0 where
  pub body : List ℕ
  pub framed : o.words ≡ o.wire_key.model_id ∷ o.wire_key.model_length ∷ body
  pub filled : length body ≡ o.wire_key.model_length
  pub not_end : o.wire_key.model_id ≢ end_model
  pub not_empty : o.wire_key.model_length ≢ 0

-- Occurrences follow one another without gap from `base + pos` on, numbered from `i`.
abbrev pub Laid : {C : Type 0} → ℕ → ℕ → ℕ → List (SunSpecOccurrence C) → Type 0
Laid base pos i [] = Unit {0}
Laid base pos i (o ∷ os) =
    (o.header_offset ≡ base + pos) × (o.ordinal ≡ i) × Laid base (pos + length o.words) (i + 1) os

pub Laid-append :
    {C : Type 0} (base pos i : ℕ) (os : List (SunSpecOccurrence C)) (o : SunSpecOccurrence C)
    → Laid base pos i os
    → o.header_offset ≡ base + pos + length (flat os)
    → o.ordinal ≡ i + length os
    → Laid base pos i (os ++ o ∷ [])
Laid-append base pos i [] o l h n = (omega arith, omega arith, tt)
Laid-append base pos i (p ∷ os) o (h', n', l) h n = (
  h',
  n',
  Laid-append base (pos + length p.words) (i + 1) os o l
      (omega (arith, length-append p.words (flat os))) (omega arith),
)

-- What `NewSunSpecChainPlan` lets pass.
pub record IsPlan (p : SunSpecChainPlan) : Type 0 where
  pub least : 4 ≤ p.limits.max_total_words
  pub most : p.limits.max_total_words ≤ 65536
  pub counted : p.limits.max_occurrences ≤ 32768

-- A request for a signature, under its own sequence number.
pub record IsProbe (e : ℕ × SunSpecReadRequest) : Type 0 where
  pub keyed : e.1.sequence ≡ e.0
  pub purpose : e.1.purpose ≡ signature
  pub words : e.1.words ≡ 2
  pub fits : e.1.address + 2 ≤ 65536

pub record Probing {C : Type 0} (c : SunSpecChain C) : Type 0 where
  pub plan_ok : IsPlan c.plan
  pub probes : All IsProbe c.pending
  pub base_fits : (b : ℕ) → c.selected ≡ some b → b + 2 ≤ 65536
  pub no_raw : c.raw ≡ []
  pub no_occ : c.occ ≡ []
  pub no_current : c.current ≡ none
  pub running : c.complete ≡ false

-- The next header is out: the words read are the signature and the occurrences.
pub record AtHeader {C : Type 0} (c : SunSpecChain C) (b : ℕ) (r : SunSpecReadRequest)
    : Type 0 where
  pub plan_ok : IsPlan c.plan
  pub selected : c.selected ≡ some b
  pub no_current : c.current ≡ none
  pub running : c.complete ≡ false
  pub layout : c.raw ≡ signature_first ∷ signature_second ∷ flat c.occ
  pub laid : Laid b 2 1 c.occ
  pub models : All IsOccurrence c.occ
  pub room : length (flat c.occ) + 4 ≤ c.plan.limits.max_total_words
  pub counted : length c.occ ≤ c.plan.limits.max_occurrences
  pub asked : c.pending ≡ (r.sequence, r) ∷ []
  pub purpose : r.purpose ≡ header
  pub words : r.words ≡ 2
  pub address : r.address ≡ b + 2 + length (flat c.occ)
  pub fits : r.address + 2 ≤ 65536

-- A chunk of the current model's payload is out.
pub record AtPayload {C : Type 0} (c : SunSpecChain C) (b : ℕ) (r : SunSpecReadRequest)
    (cur : SunSpecCurrent) : Type 0 where
  pub plan_ok : IsPlan c.plan
  pub selected : c.selected ≡ some b
  pub current : c.current ≡ some cur
  pub running : c.complete ≡ false
  pub layout : c.raw ≡ signature_first ∷ signature_second ∷ (flat c.occ ++ cur.words)
  pub laid : Laid b 2 1 c.occ
  pub models : All IsOccurrence c.occ
  pub body : List ℕ
  pub framed : cur.words ≡ cur.id ∷ cur.len ∷ body
  pub not_end : cur.id ≢ end_model
  pub short : length body < cur.len
  pub len_u16 : cur.len < 65536
  pub header_address : cur.header_address ≡ b + 2 + length (flat c.occ)
  pub room : length (flat c.occ) + 6 + cur.len ≤ c.plan.limits.max_total_words
  pub counted : length c.occ + 1 ≤ c.plan.limits.max_occurrences
  pub asked : c.pending ≡ (r.sequence, r) ∷ []
  pub purpose : r.purpose ≡ payload
  pub words : r.words ≡ min_sun_spec (cur.len - length body)
  pub address : r.address ≡ b + 4 + length (flat c.occ) + length body
  pub fits : b + 4 + length (flat c.occ) + cur.len ≤ 65536

-- The end marker was read.
pub record Finished {C : Type 0} (c : SunSpecChain C) (b : ℕ) : Type 0 where
  pub selected : c.selected ≡ some b
  pub complete : c.complete ≡ true
  pub layout : c.raw ≡ signature_first ∷ signature_second ∷ (flat c.occ ++ end_model ∷ 0 ∷ [])
  pub laid : Laid b 2 1 c.occ
  pub models : All IsOccurrence c.occ
  pub room : length c.raw ≤ c.plan.limits.max_total_words
  pub counted : length c.occ ≤ c.plan.limits.max_occurrences
  pub no_pending : c.pending ≡ []

pub data Phase {C : Type 0} (c : SunSpecChain C) : Type 0 where
  probing : Probing c → 1 ≤ length c.pending → Phase c
  at_header : (b : ℕ) (r : SunSpecReadRequest) → AtHeader c b r → Phase c
  at_payload :
      (b : ℕ) (r : SunSpecReadRequest) (cur : SunSpecCurrent) → AtPayload c b r cur → Phase c
  finished : (b : ℕ) → Finished c b → Phase c
  halted : c.failed ≡ true → c.complete ≡ false → c.pending ≡ [] → Phase c

-- The words that may still be read, and with the requests that are out a bound on the admissions.
abbrev pub spare : {C : Type 0} → SunSpecChain C → ℕ
spare c = c.plan.limits.max_total_words - length c.raw

abbrev pub budget : {C : Type 0} → SunSpecChain C → ℕ
budget c = length c.pending + spare c
