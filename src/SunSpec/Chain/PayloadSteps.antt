-- ===== src/SunSpec/Chain/PayloadSteps.antt =====
-- The answer to a payload request: the model's occurrence, or its next chunk.
use helianthus_modbusreg.Base.{
  ℕ, ◌+◌, ◌-◌, ◌%◌, ◌^◌, ◌≤◌, ◌≡◌, ◌≢◌, refl, sym, ap, subst, ◌∙◌, inl, inr, [], ◌∷◌, ◌++◌, length,
  length-append, All-append, arith, append_assoc, Bool-cases, ◌==◌, ==_iff,
}
use helianthus_modbusreg.View.{LogicalViewRecord}
use helianthus_modbusreg.SunSpec.{
  SunSpecReadRequest, SunSpecOccurrence, signature_first, signature_second,
}
use helianthus_modbusreg.SunSpec.Chain.{SunSpecChain, SunSpecCurrent}
use helianthus_modbusreg.SunSpec.Chain.Steps.{
  min_sun_spec, admit_payload, payload_of, payload_words, close_model, next_chunk, words_read,
  Derive, occurrence_of, grown, extended,
}
use helianthus_modbusreg.SunSpec.Chain.Phase.{
  AtPayload, IsOccurrence, Laid-append, flat, flat-append, spare, budget, at_header, at_payload,
}
use helianthus_modbusreg.SunSpec.Chain.Good.{Good, guarded, queued, answered, asked_next}

module _ {C : Type 0} (derive : Derive C) (c : SunSpecChain C) (b : ℕ) (r : SunSpecReadRequest)
    (x : LogicalViewRecord) (cur : SunSpecCurrent) (h : AtPayload c b r cur)
    (fits : length x.words ≡ r.words) where
  -- The count of payload words does not wrap, and does not pass the declared length.
  read_so_far :
      (words_read cur r ≡ length h.body + r.words)
      × (length h.body + r.words ≤ cur.len)
      × (1 ≤ r.words)
  read_so_far = (
    ground (arith, ap length h.framed, h.words, h.short, h.len_u16),
    ground (arith, h.words, h.short),
    ground (arith, h.words, h.short),
  )

  in_budget : spare c ≤ budget c
  in_budget = omega arith

  length_raw : length c.raw ≡ 4 + length (flat c.occ) + length h.body
  length_raw =
      omega (arith, ap length h.layout, length-append (flat c.occ) cur.words, ap length h.framed)

  raw_grows : c.plan.limits.max_total_words - length (c.raw ++ x.words) + 2 ≤ budget c
  raw_grows = omega (
    arith,
    length-append c.raw x.words,
    length_raw,
    read_so_far,
    h.room,
    h.short,
    fits,
    ap length h.asked,
  )

  grown_layout :
      c.raw ++ x.words ≡ signature_first ∷ signature_second ∷ (flat c.occ ++ (cur.words ++ x.words))
  grown_layout = ground (arith, h.layout, append_assoc (flat c.occ) cur.words x.words)

  closed : SunSpecOccurrence C
  closed = occurrence_of derive (grown c r x cur) (extended cur r x)

  closed-IsOccurrence : words_read cur r ≡ cur.len → IsOccurrence closed
  unfolding closed occurrence_of
  closed-IsOccurrence done = record {
    body = h.body ++ x.words;
    framed = ap (λ l. l ++ x.words) h.framed;
    filled = omega (arith, length-append h.body x.words, read_so_far, done, fits);
    not_end = h.not_end;
    not_empty = omega (arith, h.short);
  }

  flat-closed : flat (c.occ ++ closed ∷ []) ≡ flat c.occ ++ (cur.words ++ x.words)
  flat-closed = flat-append c.occ closed ∙ (unfold closed occurrence_of in refl)

  length-closed :
      words_read cur r ≡ cur.len
      → length (flat (c.occ ++ closed ∷ [])) ≡ length (flat c.occ) + 2 + cur.len
  length-closed done = rw flat-closed (
      omega (
        arith,
        length-append (flat c.occ) (cur.words ++ x.words),
        length-append cur.words x.words,
        ap length h.framed,
        read_so_far,
        done,
        fits,
      ))

  close_model-Good : words_read cur r ≡ cur.len → Good (budget c) (close_model derive c r x cur)
  unfolding close_model closed
  close_model-Good done = guarded _ c _ h.running in_budget λ address_fits.
      queued _ _ _ _ h.running (answered r h.asked) raw_grows λ q i qa qw qp qs qf.
        at_header b q (record {
          plan_ok = h.plan_ok;
          selected = h.selected;
          no_current = refl;
          running = h.running;
          layout =
              grown_layout ∙ ap (λ l. signature_first ∷ signature_second ∷ l) (sym flat-closed);
          laid =
              Laid-append b 2 1 c.occ _ h.laid h.header_address
                (omega (arith, h.counted, h.plan_ok.counted));
          models = All-append _ c.occ _ h.models (closed-IsOccurrence done, tt);
          room = omega (arith, length-closed done, h.room);
          counted = omega (arith, length-append c.occ (closed ∷ []), h.counted);
          asked = asked_next r q i h.asked qs;
          purpose = qp;
          words = qw;
          address = omega (arith, qa, h.address, read_so_far, length-closed done, h.fits, done);
          fits = omega (arith, qa, qf);
        })

  words_left :
      words_read cur r ≢ cur.len
      → (cur.len + 65536 - words_read cur r) % 2 ^ 16 ≡ cur.len - length (h.body ++ x.words)
  words_left more = omega (arith, length-append h.body x.words, read_so_far, fits, h.len_u16, more)

  next_chunk-Good : words_read cur r ≢ cur.len → Good (budget c) (next_chunk c r x cur)
  unfolding next_chunk
  next_chunk-Good more = guarded _ c _ h.running in_budget λ address_fits.
      queued _ _ _ _ h.running (answered r h.asked) raw_grows λ q i qa qw qp qs qf.
        at_payload b q _ (record {
          plan_ok = h.plan_ok;
          selected = h.selected;
          current = refl;
          running = h.running;
          layout = grown_layout;
          laid = h.laid;
          models = h.models;
          body = h.body ++ x.words;
          framed = ap (λ l. l ++ x.words) h.framed;
          not_end = h.not_end;
          short = omega (arith, length-append h.body x.words, read_so_far, more, fits);
          len_u16 = h.len_u16;
          header_address = h.header_address;
          room = h.room;
          counted = h.counted;
          asked = asked_next r q i h.asked qs;
          purpose = qp;
          words = qw ∙ ap min_sun_spec (words_left more);
          address =
              omega (arith, qa, h.address, length-append h.body x.words, read_so_far, fits, h.fits);
          fits = h.fits;
        })

  payload_words-Good : Good (budget c) (payload_words derive c r x cur)
  unfolding payload_words
  payload_words-Good = elim (Bool-cases (words_read cur r == cur.len)) [
    | inl e ↦ rw e (close_model-Good ((==_iff _ _).0 e))
    | inr e ↦ rw e (next_chunk-Good (ground arith))
  ]

  pub admit_payload-Good : Good (budget c) (admit_payload derive c r x)
  unfolding admit_payload
  admit_payload-Good =
      subst (λ m. Good (budget c) (payload_of derive c r x m)) (sym h.current)
        (unfold payload_of in payload_words-Good)
