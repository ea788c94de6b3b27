-- ===== src/SunSpec/Plan/Accepted.antt =====
-- What every plan that `NewSunSpecChainPlan` returns satisfies.
use mathlib.Core.Option
use helianthus_modbusreg.Base.{
  ℕ, zero, suc, ◌+◌, ◌≤◌, ◌<◌, ◌≡◌, ◌≢◌, refl, subst, sym, ap, ◌∙◌, true, false, List, [], ◌∷◌,
  ◌++◌, append_assoc, append-nil, map, none, some, ok, length, get_elem?, All, All-append, has,
  arith, inl, inr, Result-cases, Option-cases,
}
use helianthus_modbusreg.Base.Bytes.{same_bytes, same_bytes_eq}
use helianthus_modbusreg.SunSpec.{
  SunSpecWireKey, SunSpecDecoderKey, SunSpecReadRequest, signature, valid_revision, end_fits,
}
use helianthus_modbusreg.SunSpec.Plan.{
  SunSpecChainPlan, SunSpecChainPlanSpec, bounds_finite, check_bases, collect_keys, find_key,
  initial_requests, new_plan,
}

-- No base stands twice among those before it.
abbrev pub Distinct : List ℕ → List ℕ → Type 0
Distinct seen [] = Unit {0}
Distinct seen (b ∷ bs) = (has b seen ≡ false) × Distinct (b ∷ seen) bs

-- A key entry is filed under its own wire key, for the plan's revision, with a payload.
pub record IsExactKey (revision : List ℕ) (e : SunSpecWireKey × SunSpecDecoderKey) : Type 0 where
  pub filed_id : e.0.model_id ≡ e.1.model_id
  pub filed_length : e.0.model_length ≡ e.1.model_length
  pub same_revision : e.1.schema_revision ≡ revision
  pub positive : e.1.model_length ≢ 0

abbrev pub wire_of : SunSpecDecoderKey → SunSpecWireKey
wire_of k = record { model_id = k.model_id; model_length = k.model_length }

abbrev pub filed : SunSpecDecoderKey → SunSpecWireKey × SunSpecDecoderKey
filed k = (wire_of k, k)

-- The request that probes a base for the two words of the SunSpec signature.
abbrev pub probe_of : ℕ → ℕ → ℕ → SunSpecReadRequest
probe_of nonce base number = record {
  address = base;
  words = 2;
  purpose = signature;
  nonce = nonce;
  chain_instance = 0;
  sequence = number;
}

pub record Accepted (s : SunSpecChainPlanSpec) (p : SunSpecChainPlan) : Type 0 where
  pub least : 4 ≤ p.limits.max_total_words
  pub most : p.limits.max_total_words ≤ 65536
  pub counted : p.limits.max_occurrences ≤ 32768
  pub occurs : 1 ≤ p.limits.max_occurrences
  pub bases : p.bases ≡ s.base_candidates
  pub some_base : 1 ≤ length p.bases
  pub fit : All (λ b. b + 2 ≤ 65536) p.bases
  pub distinct : Distinct [] p.bases
  pub exact : All (IsExactKey s.schema_revision) p.keys
  pub files : p.keys ≡ map filed s.decoder_keys
  pub finds : All (λ k. find_key (wire_of k) p.keys ≡ some k) s.decoder_keys
  pub asks :
      (k : ℕ)
      → get_elem? p.initial k ≡ Option.map (λ b. probe_of p.nonce b (k + 1)) (get_elem? p.bases k)

check_bases-fit :
    (seen bs : List ℕ)
    → All (λ b. b < 65536) bs
    → check_bases seen bs ≡ ok tt
    → All (λ b. b + 2 ≤ 65536) bs × Distinct seen bs
unfolding check_bases end_fits
check_bases-fit seen [] w h = (tt, tt)
check_bases-fit seen (b ∷ bs) w h =
    let rest = check_bases-fit (b ∷ seen) bs w.1 (ground arith) in
    ((ground arith, rest.0), (ground arith, rest.1))

collect_keys-exact :
    (revision : List ℕ) (keys : List (SunSpecWireKey × SunSpecDecoderKey)) (known : List ℕ)
    (ks : List SunSpecDecoderKey) {out : List (SunSpecWireKey × SunSpecDecoderKey) × List ℕ}
    → All (IsExactKey revision) keys
    → collect_keys revision keys known ks ≡ ok out
    → All (IsExactKey revision) out.0
unfolding collect_keys
collect_keys-exact revision keys known [] {out = out} h e =
    let q : (keys, known) ≡ out = ground arith in subst (λ o. All (IsExactKey revision) o.0) q h
collect_keys-exact revision keys known (k ∷ ks) {out = out} h e =
    let r : same_bytes k.schema_revision revision ≡ true = ground arith in
    let wk : SunSpecWireKey = record { model_id = k.model_id; model_length = k.model_length } in
    let exact : IsExactKey revision (wk, k) = record {
      filed_id = refl;
      filed_length = refl;
      same_revision = same_bytes_eq k.schema_revision revision r;
      positive = ground arith;
    } in
    collect_keys-exact revision (keys ++ (wk, k) ∷ []) (k.model_id ∷ known) ks {out = out}
      (All-append (IsExactKey revision) keys _ h (exact, tt)) (ground arith)

-- The keys are filed in the order they are given in, behind those filed before.
collect_keys-filed :
    (revision : List ℕ) (keys : List (SunSpecWireKey × SunSpecDecoderKey)) (known : List ℕ)
    (ks : List SunSpecDecoderKey) {out : List (SunSpecWireKey × SunSpecDecoderKey) × List ℕ}
    → collect_keys revision keys known ks ≡ ok out
    → out.0 ≡ keys ++ map filed ks
unfolding collect_keys
collect_keys-filed revision keys known [] {out = out} e =
    let q : (keys, known) ≡ out = ground arith in ap (λ o. o.0) (sym q) ∙ sym (append-nil keys)
collect_keys-filed revision keys known (k ∷ ks) {out = out} e =
    collect_keys-filed revision (keys ++ filed k ∷ []) (k.model_id ∷ known) ks {out = out}
      (ground arith)
    ∙ append_assoc keys (filed k ∷ []) (map filed ks)

find_key-append :
    (w : SunSpecWireKey) (keys rest : List (SunSpecWireKey × SunSpecDecoderKey))
    → find_key w keys ≡ none
    → find_key w (keys ++ rest) ≡ find_key w rest
find_key-append w [] rest h = refl
find_key-append w ((j, d) ∷ keys) rest h = ground (arith, find_key-append w keys rest)

find_key-here :
    (k : SunSpecDecoderKey) (rest : List (SunSpecWireKey × SunSpecDecoderKey))
    → find_key (wire_of k) (filed k ∷ rest) ≡ some k
find_key-here k rest = ground arith

-- A key that is filed is found, since none before it has its wire key.
collect_keys-find :
    (revision : List ℕ) (keys : List (SunSpecWireKey × SunSpecDecoderKey)) (known : List ℕ)
    (ks : List SunSpecDecoderKey) {out : List (SunSpecWireKey × SunSpecDecoderKey) × List ℕ}
    → collect_keys revision keys known ks ≡ ok out
    → All (λ k. find_key (wire_of k) out.0 ≡ some k) ks
unfolding collect_keys
collect_keys-find revision keys known [] e = tt
collect_keys-find revision keys known (k ∷ ks) {out = out} e =
    let order = collect_keys-filed revision keys known (k ∷ ks) {out = out} e in
    let fresh : find_key (wire_of k) keys ≡ none = elim (Option-cases (find_key (wire_of k) keys)) [
      | inl q ↦ q
      | inr (d, q) ↦ absurd (ground (arith, q, e))
    ] in
    (
      ap (find_key (wire_of k)) order
          ∙ find_key-append (wire_of k) keys (map filed (k ∷ ks)) fresh
          ∙ find_key-here k (map filed ks),
      collect_keys-find revision (keys ++ filed k ∷ []) (k.model_id ∷ known) ks {out = out}
          (ground arith),
    )

get_elem?-initial_requests :
    (nonce i k : ℕ) (bs : List ℕ)
    → get_elem? (initial_requests nonce i bs) k
      ≡ Option.map (λ b. probe_of nonce b (k + i)) (get_elem? bs k)
unfolding initial_requests
get_elem?-initial_requests nonce i k [] = refl
get_elem?-initial_requests nonce i zero (b ∷ bs) =
    let number : i ≡ 0 + i = omega arith in ap (λ n. some (probe_of nonce b n)) number
get_elem?-initial_requests nonce i (suc k) (b ∷ bs) =
    let number : k + (i + 1) ≡ suc k + i = omega arith in
    get_elem?-initial_requests nonce (i + 1) k bs
    ∙ ap (λ n. Option.map (λ a. probe_of nonce a n) (get_elem? bs k)) number

bounds_finite-bounds :
    (s : SunSpecChainPlanSpec)
    → bounds_finite s ≡ true
    → (4 ≤ s.limits.max_total_words)
      × (s.limits.max_total_words ≤ 65536)
      × (s.limits.max_occurrences ≤ 32768)
      × (1 ≤ s.limits.max_occurrences)
      × (1 ≤ length s.base_candidates)
unfolding bounds_finite valid_revision
bounds_finite-bounds s h = ground arith

pub new_plan-initial :
    (nonce : ℕ) (s : SunSpecChainPlanSpec) (p : SunSpecChainPlan)
    → new_plan nonce s ≡ ok p
    → p.initial ≡ initial_requests p.nonce 1 p.bases
unfolding new_plan
new_plan-initial nonce s p e = ground arith

-- A plan that is returned is bounded. Its bases are those asked for, distinct and inside the address
-- space, and its first requests are one for the two signature words of each base, in order and
-- numbered from 1. It files the decoder keys that it was given, in order, each under its own wire key
-- for the plan's revision, and finds each by that wire key.
pub new_plan-Accepted :
    (nonce : ℕ) (s : SunSpecChainPlanSpec) (p : SunSpecChainPlan)
    → All (λ b. b < 65536) s.base_candidates
    → new_plan nonce s ≡ ok p
    → Accepted s p
unfolding new_plan
new_plan-Accepted nonce s p small e =
    let bounds = bounds_finite-bounds s (ground arith) in
    let bases = check_bases-fit [] s.base_candidates small (ground arith) in
    elim (Result-cases (collect_keys s.schema_revision [] [] s.decoder_keys)) [
      | inl (out, k) ↦
          let exact = collect_keys-exact s.schema_revision [] [] s.decoder_keys {out = out} tt k in
          let q : p.bases ≡ s.base_candidates = ground arith in
          let l : p.limits ≡ s.limits = ground arith in
          let f : out.0 ≡ p.keys = ground arith in
          let start = new_plan-initial nonce s p e in
          record {
            least = ground arith;
            most = ground arith;
            counted = ground arith;
            occurs = ground arith;
            bases = q;
            some_base = ground arith;
            fit = subst (All (λ b. b + 2 ≤ 65536)) (sym q) bases.0;
            distinct = subst (Distinct []) (sym q) bases.1;
            exact = subst (All (IsExactKey s.schema_revision)) f exact;
            files = sym f ∙ collect_keys-filed s.schema_revision [] [] s.decoder_keys {out = out} k;
            finds =
                subst (λ m. All (λ d. find_key (wire_of d) m ≡ some d) s.decoder_keys) f
                  (collect_keys-find s.schema_revision [] [] s.decoder_keys {out = out} k);
            asks =
                λ n. ap (λ m. get_elem? m n) start ∙ get_elem?-initial_requests p.nonce 1 n p.bases;
          }
      | inr (r, k) ↦ absurd (ground arith)
    ]
