-- ===== src/SunSpec/Chain/HeaderSteps.antt =====
-- The answer to a header request: the end marker, or a model whose payload is queued.
use helianthus_modbusreg.Base.{
  ℕ, ◌+◌, ◌-◌, ◌≤◌, ◌<◌, ◌≡◌, ◌≢◌, refl, ap, ◌∙◌, inl, inr, List, [], ◌∷◌, ◌++◌, none, some, length,
  length-append, All, arith, append_assoc, err, if◌then◌else◌, Bool-cases, ◌==◌, ==_iff,
}
use helianthus_modbusreg.View.{LogicalViewRecord}
use helianthus_modbusreg.SunSpec.{SunSpecReadRequest, end_model}
use helianthus_modbusreg.SunSpec.Chain.{SunSpecChain, index_out_of_range, failing, first_two}
use helianthus_modbusreg.SunSpec.Chain.Steps.{admit_header, model_header, end_marker}
use helianthus_modbusreg.SunSpec.Chain.Phase.{AtHeader, flat, spare, budget, at_payload, finished}
use helianthus_modbusreg.SunSpec.Chain.Good.{
  IsWord, Good, good, guarded, queued, answered, asked_next,
}

module _ {C : Type 0} (c : SunSpecChain C) (b : ℕ) (r : SunSpecReadRequest) (x : LogicalViewRecord)
    (h : AtHeader c b r) where
  in_budget : spare c ≤ budget c
  in_budget = omega arith

  length_raw : length c.raw ≡ 2 + length (flat c.occ)
  length_raw = omega (arith, ap length h.layout)

  raw_grows :
      (id n : ℕ) → c.plan.limits.max_total_words - length (c.raw ++ id ∷ n ∷ []) + 2 ≤ budget c
  raw_grows id n =
      omega (arith, length-append c.raw (id ∷ n ∷ []), length_raw, h.room, ap length h.asked)

  end_marker-Good : (id n : ℕ) → id ≡ end_model → Good (budget c) (end_marker c r x id n)
  unfolding end_marker failing
  end_marker-Good id n e = guarded _ c _ h.running in_budget λ zero_len.
      good
        (finished b (record {
          selected = h.selected;
          complete = refl;
          layout = ground (arith, append_assoc (flat c.occ));
          laid = h.laid;
          models = h.models;
          room = omega (arith, length-append c.raw (id ∷ n ∷ []), ap length h.layout, h.room);
          counted = h.counted;
          no_pending = answered r h.asked;
        }))
        (rw (answered r h.asked) (omega (arith, raw_grows id n)))

  model_header-Good :
      (id n : ℕ) → n < 65536 → id ≢ end_model → Good (budget c) (model_header c r x id n)
  unfolding model_header
  model_header-Good id n small not_end = guarded _ c _ h.running in_budget λ nonzero.
      guarded _ c _ h.running in_budget λ words_fit. guarded _ c _ h.running in_budget λ occ_fit.
        guarded _ c _ h.running in_budget λ range_fits.
          guarded _ c _ h.running in_budget λ address_fits.
            queued _ _ _ _ h.running (answered r h.asked) (raw_grows id n) λ q i qa qw qp qs qf.
              at_payload b q _ (record {
                plan_ok = h.plan_ok;
                selected = h.selected;
                current = refl;
                running = h.running;
                layout = ap (λ l. l ++ id ∷ n ∷ []) h.layout;
                laid = h.laid;
                models = h.models;
                body = [];
                framed = refl;
                not_end = not_end;
                short = ground arith;
                len_u16 = small;
                header_address = h.address;
                room =
                    ground
                      (arith, ap length h.layout, h.plan_ok.most, h.plan_ok.counted, h.counted);
                counted =
                    ground
                      (arith, ap length h.layout, h.plan_ok.most, h.plan_ok.counted, h.counted);
                asked = asked_next r q i h.asked qs;
                purpose = qp;
                words =
                    ground
                      (arith, ap length h.layout, h.plan_ok.most, h.plan_ok.counted, h.counted);
                address =
                    ground
                      (arith, ap length h.layout, h.plan_ok.most, h.plan_ok.counted, h.counted);
                fits =
                    ground
                      (arith, ap length h.layout, h.plan_ok.most, h.plan_ok.counted, h.counted);
              })

  pub admit_header-Good :
      All IsWord x.words → length x.words ≡ r.words → Good (budget c) (admit_header c r x)
  unfolding admit_header
  admit_header-Good small fits = words_Good x.words small (fits ∙ h.words)
    where
      words_Good :
          (ws : List ℕ)
          → All IsWord ws
          → length ws ≡ 2
          → Good (budget c) (elim (first_two ws) [
            | none ↦ (c, err index_out_of_range)
            | some (id, n) ↦
                if id == end_model then end_marker c r x id n else model_header c r x id n
          ])
      words_Good [] s e = absurd (omega (arith, e))
      words_Good (a ∷ []) s e = absurd (omega (arith, e))
      words_Good (a ∷ n ∷ ws) s e = elim (Bool-cases (a == end_model)) [
        | inl m ↦ rw m (end_marker-Good a n ((==_iff _ _).0 m))
        | inr m ↦ rw m (model_header-Good a n s.1.0 (ground arith))
      ]
