-- ===== src/SunSpec/Chain/SignatureSteps.antt =====
-- The answer to a signature request.
use helianthus_modbusreg.Base.{
  ℕ, suc, ◌+◌, ◌≤◌, ◌<◌, ◌≡◌, refl, sym, ap, subst, true, not, inl, inr, [], ◌∷◌, Option, none,
  some, length, All, arith, ok, err, if◌then◌else◌, Bool-cases, ◌==◌, delete, find, Map,
}
use helianthus_modbusreg.View.{LogicalViewRecord}
use helianthus_modbusreg.SunSpec.{
  SunSpecReadRequest, header, signature_first, signature_second, u32,
}
use helianthus_modbusreg.SunSpec.Chain.{
  SunSpecChain, index_out_of_range, failing, queue, accept, first_two, empty_snapshot,
}
use helianthus_modbusreg.SunSpec.Chain.Steps.{
  admit_signature, signature_words, probed, probed_from, is_signature, is_some,
}
use helianthus_modbusreg.SunSpec.Chain.Phase.{
  Probing, IsOccurrence, IsProbe, Laid, flat, budget, at_header, probing,
}
use helianthus_modbusreg.SunSpec.Chain.Good.{Good, good, refused, queued}

-- Deleting keeps what holds of all entries.
delete-All :
    (P : ℕ × SunSpecReadRequest → Type 0) (k : ℕ) (m : Map SunSpecReadRequest)
    → All P m
    → All P (delete k m)
delete-All P k [] h = tt
delete-All P k ((j, q) ∷ m) h = ground (arith, delete-All P k m h.1)

-- An answered request is out no more.
length-delete_le : (k : ℕ) (m : Map SunSpecReadRequest) → length (delete k m) ≤ length m
length-delete_le k [] = omega arith
length-delete_le k ((j, q) ∷ m) = ground (arith, length-delete_le k m)

length-delete_lt :
    (k : ℕ) (m : Map SunSpecReadRequest) (q : SunSpecReadRequest)
    → find k m ≡ some q
    → length (delete k m) < length m
length-delete_lt k [] q e = cc
length-delete_lt k ((j, v) ∷ m) q e = ground (arith, length-delete_le k m, length-delete_lt k m q)

-- What is left to probe after an answer.
module _ {C : Type 0} (n : ℕ) (c : SunSpecChain C) (p : Probing c) (pays : budget c + 1 ≤ n) where
  base_queued :
      (b : ℕ)
      → c.selected ≡ some b
      → c.pending ≡ []
      → Good n (
          queue (record c { raw = signature_first ∷ signature_second ∷ [] }) (u32 (b + 2)) 2 header)
  base_queued b chosen none_left =
      queued _ _ _ _ p.running none_left (omega (arith, p.plan_ok.least, ap length p.no_raw))
        λ q i qa qw qp qs qf. at_header b q (record {
          plan_ok = p.plan_ok;
          selected = chosen;
          no_current = p.no_current;
          running = p.running;
          layout = ap (λ os. signature_first ∷ signature_second ∷ flat os) (sym p.no_occ);
          laid = subst (Laid b 2 1) (sym p.no_occ) tt;
          models = subst (All IsOccurrence) (sym p.no_occ) tt;
          room = omega (arith, ap (λ os. length (flat os)) p.no_occ, p.plan_ok.least);
          counted = omega (arith, ap length p.no_occ);
          asked = rw (none_left, qs);
          purpose = qp;
          words = qw;
          address = omega (arith, qa, ap (λ os. length (flat os)) p.no_occ, p.base_fits b chosen);
          fits = omega (arith, qa, qf);
        })

  selected_Good : (s : Option ℕ) → c.selected ≡ s → c.pending ≡ [] → Good n (probed_from c s)
  unfolding probed_from
  selected_Good none e none_left = refused _ _ _ p.running (omega (arith, pays))
  selected_Good (some b) e none_left = base_queued b e none_left

  probed-Good : Good n (probed c)
  unfolding probed
  probed-Good = left_Good c.pending refl
    where
      left_Good :
          (m : Map SunSpecReadRequest)
          → c.pending ≡ m
          → Good n
              (if not (length m == 0) then (c, ok empty_snapshot) else probed_from c c.selected)
      left_Good [] e = selected_Good c.selected refl e
      left_Good (a ∷ m) e =
          let more : not (suc (length m) == 0) ≡ true = ground arith in
          rw more (
            good (unfold failing in probing p (omega (arith, ap length e)))
              (unfold failing in pays))

module _ {C : Type 0} (c : SunSpecChain C) (r : SunSpecReadRequest) (x : LogicalViewRecord)
    (p : Probing c) (base : r.address + 2 ≤ 65536)
    (asked : find r.sequence c.pending ≡ some r) where
  accepted :
      (s : Option ℕ)
      → ((b : ℕ) → s ≡ some b → b + 2 ≤ 65536)
      → Probing (accept (record c { selected = s }) r x)
  unfolding accept
  accepted s fits = record {
    plan_ok = p.plan_ok;
    probes = delete-All IsProbe r.sequence c.pending p.probes;
    base_fits = fits;
    no_raw = p.no_raw;
    no_occ = p.no_occ;
    no_current = p.no_current;
    running = p.running;
  }

  pays : (s : Option ℕ) → budget (accept (record c { selected = s }) r x) + 1 ≤ budget c
  unfolding accept
  pays s = omega (arith, length-delete_lt r.sequence c.pending r asked)

  signature_words-Good : (w0 w1 : ℕ) → Good (budget c) (signature_words c r x w0 w1)
  unfolding signature_words
  signature_words-Good w0 w1 = elim (Bool-cases (is_signature w0 w1)) [
    | inl s ↦ rw s (elim (Bool-cases (is_some c.selected)) [
      | inl twice ↦ rw twice (refused _ _ _ p.running (omega arith))
      | inr once ↦ rw once (
          probed-Good _ _ (accepted (some r.address) (λ b e. ground arith)) (pays (some r.address)))
    ])
    | inr s ↦ rw s (probed-Good _ _ (accepted c.selected p.base_fits) (pays c.selected))
  ]

  pub admit_signature-Good : Good (budget c) (admit_signature c r x)
  unfolding admit_signature
  admit_signature-Good = words_Good (first_two x.words)
    where
      words_Good :
          (o : Option (ℕ × ℕ))
          → Good (budget c) (elim o [
            | none ↦ (c, err index_out_of_range)
            | some (w0, w1) ↦ signature_words c r x w0 w1
          ])
      words_Good none = refused _ c index_out_of_range p.running (omega arith)
      words_Good (some (w0, w1)) = signature_words-Good w0 w1
