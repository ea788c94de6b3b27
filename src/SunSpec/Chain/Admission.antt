-- ===== src/SunSpec/Chain/Admission.antt =====
-- `admitReplay` keeps the phase facts, whatever is offered to it.
use helianthus_modbusreg.Base.{
  ℕ, ◌+◌, ◌≤◌, ◌≡◌, refl, sym, ap, subst, Bool, true, false, not, ◌||◌, inl, inr, [], ◌∷◌, Option,
  none, some, length, All, arith, ok, err, if◌then◌else◌, Bool-cases, ◌==◌, ==_iff, Map, find,
}
use helianthus_modbusreg.View.{LogicalViewRecord}
use helianthus_modbusreg.SunSpec.{
  SunSpecReadRequest, SunSpecReadPurpose, unset, signature, header, payload, same_request,
  same_purpose,
}
use helianthus_modbusreg.SunSpec.Chain.{
  SunSpecChain, SunSpecPhysicalSource, SunSpecWireSource, SunSpecChainSnapshot, ChainError, Step,
  failing, fail_chain, contradicts, physical_clash, wire_clash, reject◌when◌leaving◌otherwise◌,
  validate_source_identity, base_not_selected,
}
use helianthus_modbusreg.SunSpec.Chain.Steps.{Derive, dispatch, admit_replay, bound, is_some}
use helianthus_modbusreg.SunSpec.Chain.Phase.{
  Phase, budget, AtHeader, AtPayload, IsProbe, at_header, at_payload, finished, halted, probing,
}
use helianthus_modbusreg.SunSpec.Chain.Good.{IsWord, Good, good, paid}
use helianthus_modbusreg.SunSpec.Chain.HeaderSteps.{admit_header-Good}
use helianthus_modbusreg.SunSpec.Chain.PayloadSteps.{admit_payload-Good}
use helianthus_modbusreg.SunSpec.Chain.SignatureSteps.{admit_signature-Good}

-- A step whose errors leave the chain as they say is a phase.
pub data Stays {C A : Type 0} (n : ℕ) (s : Step C A) : Type 0 where
  stays : Phase s.0 → budget s.0 + paid s ≤ n → Stays n s

Stays-failing : {C A : Type 0} {n : ℕ} (s : Step C A) → Good n s → Stays n (failing s)
unfolding failing
Stays-failing (c, ok a) (good h le) = stays h le
Stays-failing (c, err e) (good h le) = stays h le

kept :
    {C A : Type 0} (e : ChainError) (b : Bool) (c : SunSpecChain C) {s : Step C A}
    → Phase c
    → (b ≡ false → Stays (budget c) s)
    → Stays (budget c) (reject e when b leaving c otherwise s)
unfolding reject◌when◌leaving◌otherwise◌
kept e true c h go = stays h (omega arith)
kept e false c h go = go refl

same_purpose_eq : (p q : SunSpecReadPurpose) → same_purpose p q ≡ true → p ≡ q
same_purpose_eq unset unset h = refl
same_purpose_eq signature signature h = refl
same_purpose_eq header header h = refl
same_purpose_eq payload payload h = refl
same_purpose_eq _ _ h = cc

pub same_request_eq : (a b : SunSpecReadRequest) → same_request a b ≡ true → a ≡ b
unfolding same_request
same_request_eq a b h = ground (arith, same_purpose_eq a.purpose b.purpose)

-- What `validateSourceIdentity` stores is not part of a phase.
module _ {C : Type 0} (c : SunSpecChain C) (p : Map SunSpecPhysicalSource)
    (w : Map SunSpecWireSource) where
  rebind : Phase c → Phase (record c { physical = p; wire = w })
  rebind (probing h left) =
      probing
        (record {
          plan_ok = h.plan_ok;
          probes = h.probes;
          base_fits = h.base_fits;
          no_raw = h.no_raw;
          no_occ = h.no_occ;
          no_current = h.no_current;
          running = h.running;
        })
        left
  rebind (at_header b r h) = at_header b r (record {
    plan_ok = h.plan_ok;
    selected = h.selected;
    no_current = h.no_current;
    running = h.running;
    layout = h.layout;
    laid = h.laid;
    models = h.models;
    room = h.room;
    counted = h.counted;
    asked = h.asked;
    purpose = h.purpose;
    words = h.words;
    address = h.address;
    fits = h.fits;
  })
  rebind (at_payload b r cur h) = at_payload b r cur (record {
    plan_ok = h.plan_ok;
    selected = h.selected;
    current = h.current;
    running = h.running;
    layout = h.layout;
    laid = h.laid;
    models = h.models;
    body = h.body;
    framed = h.framed;
    not_end = h.not_end;
    short = h.short;
    len_u16 = h.len_u16;
    header_address = h.header_address;
    room = h.room;
    counted = h.counted;
    asked = h.asked;
    purpose = h.purpose;
    words = h.words;
    address = h.address;
    fits = h.fits;
  })
  rebind (finished b h) = finished b (record {
    selected = h.selected;
    complete = h.complete;
    layout = h.layout;
    laid = h.laid;
    models = h.models;
    room = h.room;
    counted = h.counted;
    no_pending = h.no_pending;
  })
  rebind (halted h running left) = halted h running left

-- The entry that `find` returns has what all entries have.
find-All :
    (P : ℕ × SunSpecReadRequest → Type 0) (k : ℕ) (m : Map SunSpecReadRequest)
    (q : SunSpecReadRequest)
    → All P m
    → find k m ≡ some q
    → P (k, q)
find-All P k [] q h e = cc
find-All P k ((j, v) ∷ m) q h e = elim (Bool-cases (j == k)) [
  | inl s ↦
      let v_q : v ≡ q = ground arith in
      subst (λ i. P (i, q)) ((==_iff j k).0 s) (subst (λ u. P (j, u)) v_q h.0)
  | inr n ↦ find-All P k m q h.1 (ground arith)
]

find_only :
    (r q : SunSpecReadRequest) (m : Map SunSpecReadRequest)
    → m ≡ (q.sequence, q) ∷ []
    → find r.sequence m ≡ some r
    → q ≡ r
find_only r q m e f = ground arith

module _ {C : Type 0} (derive : Derive C) (c : SunSpecChain C) (r : SunSpecReadRequest)
    (x : LogicalViewRecord) where
  -- Once a base is selected, a header or payload request reaches its step.
  selected_step :
      (b : ℕ) {s : Step C (SunSpecChainSnapshot C)}
      → c.selected ≡ some b
      → Good (budget c) s
      → Stays (budget c) (if is_some c.selected then failing s else (c, err base_not_selected))
  selected_step b sel h =
      let e : is_some c.selected ≡ true = ap is_some sel in rw e (Stays-failing _ h)

  dispatch-Stays :
      Phase c
      → c.failed ≡ false
      → c.complete ≡ false
      → find r.sequence c.pending ≡ some r
      → All IsWord x.words
      → length x.words ≡ r.words
      → Stays (budget c) (dispatch derive r.purpose c r x)
  unfolding dispatch
  dispatch-Stays (probing h _) alive running asked small fits =
      let probe : IsProbe (r.sequence, r) = find-All IsProbe _ _ r h.probes asked in
      subst (λ p. Stays (budget c) (dispatch derive p c r x)) (sym probe.purpose)
        (Stays-failing _ (admit_signature-Good c r x h probe.fits asked))
  dispatch-Stays (at_header b q h) alive running asked small fits =
      let here : AtHeader c b r = subst (AtHeader c b) (find_only r q c.pending h.asked asked) h in
      subst (λ p. Stays (budget c) (dispatch derive p c r x)) (sym here.purpose)
        (selected_step b h.selected (admit_header-Good c b r x here small fits))
  dispatch-Stays (at_payload b q cur h) alive running asked small fits =
      let here : AtPayload c b r cur =
        subst (λ t. AtPayload c b t cur) (find_only r q c.pending h.asked asked) h in
      subst (λ p. Stays (budget c) (dispatch derive p c r x)) (sym here.purpose)
        (selected_step b h.selected (admit_payload-Good derive c b r x cur here fits))
  dispatch-Stays (finished b h) alive running asked small fits = absurd (cc (h.complete))
  dispatch-Stays (halted h _ _) alive running asked small fits = absurd (cc h)

-- The guard on the planned requests lets only the request itself through.
planned_eq :
    (o : Option SunSpecReadRequest) (r : SunSpecReadRequest)
    → (contradicts o (λ want. same_request want r) || not (is_some o)) ≡ false
    → o ≡ some r
planned_eq none r h = cc
planned_eq (some q) r h = ap some (same_request_eq q r (ground arith))

module _ {C : Type 0} (derive : Derive C) (c : SunSpecChain C) (r : SunSpecReadRequest)
    (x : LogicalViewRecord) where
  validated :
      (f : SunSpecChain C → Step C (SunSpecChainSnapshot C))
      → Phase c
      → c.complete ≡ false
      → ((p : Map SunSpecPhysicalSource) (w : Map SunSpecWireSource)
          → Stays (budget c) (f (record c { physical = p; wire = w })))
      → Stays (budget c) (bound (validate_source_identity c x) f)
  unfolding validate_source_identity fail_chain
  validated f h running go = elim (Bool-cases (physical_clash c x)) [
    | inl e ↦ rw e (stays (halted refl running refl) (omega arith))
    | inr e ↦ rw e (elim (Bool-cases (wire_clash c x)) [
      | inl e' ↦ rw e' (stays (halted refl running refl) (omega arith))
      | inr e' ↦ rw e' (go _ _)
    ])
  ]

  admit_replay-Stays : Phase c → All IsWord x.words → Stays (budget c) (admit_replay derive c r x)
  unfolding admit_replay
  admit_replay-Stays h small = kept _ _ c h λ free. kept _ _ c h λ planned. kept _ _ c h λ fresh.
      kept _ _ c h λ matches. kept _ _ c h λ same. validated _ h (ground arith) λ p w.
        dispatch-Stays derive _ r x (rebind c p w h) (ground arith) (ground arith)
          (planned_eq _ r planned) small (ground arith)

  -- Whatever is offered, the chain stays in one of its phases.
  pub admit_replay-Phase : Phase c → All IsWord x.words → Phase (admit_replay derive c r x).0
  admit_replay-Phase h small = elim (admit_replay-Stays h small) [ stays k le ↦ k ]

  -- A success takes one off the budget, and an error adds nothing to it.
  pub admit_replay-budget :
      Phase c
      → All IsWord x.words
      → budget (admit_replay derive c r x).0 + paid (admit_replay derive c r x) ≤ budget c
  admit_replay-budget h small = elim (admit_replay-Stays h small) [ stays k le ↦ le ]
