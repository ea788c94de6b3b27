-- ===== src/SunSpec/SourceRange/Slice.antt =====
-- What a selected source range holds: the words of the occurrence's spans at the range's place.
use helianthus_modbusreg.Base.{
  ℕ, zero, suc, ◌+◌, ◌-◌, ◌^◌, ◌≤◌, ◌<◌, ◌≡◌, ◌↔◌, refl, sym, ap, ap₂, subst, ◌∙◌, false, List, [],
  ◌∷◌, ◌++◌, ok, leb, All, length, take, drop, length-take, length-drop, Bool-cases, Result-cases,
  inl, inr, arith,
}
use helianthus_modbusreg.SunSpec.{SunSpecSourceSpan}
use helianthus_modbusreg.SunSpec.SourceRange.{
  max_occurrence_words, u32, extent_exceeds_bounds, spans_exceed_range, add_spans, is_empty,
  SunSpecOccurrenceSourceRange, new_source_range, cut_span, select_spans, source_range_from_spans,
}
use helianthus_modbusreg.SunSpec.SourceRange.Words.{
  run, positions, words, InType, IsSpan, add_spans-words, add_spans-IsSpan, run-cong,
  length-positions, window, window-cong, window-run,
}

-- The number of words that a span of `n` words at `c` has between `o` and `e`.
abbrev kept : ℕ → ℕ → ℕ → ℕ → ℕ
kept o e c n = (n - (o - c)) - ((n - (o - c)) - (e - c - (o - c)))

cut_span-offset :
    (o e c : ℕ) (s : SunSpecSourceSpan)
    → IsSpan s
    → e ≤ 65536
    → c + s.word_count ≤ 65536
    → o < c + s.word_count
    → (cut_span o e c s).pdu_offset ≡ s.pdu_offset + (o - c)
unfolding cut_span
cut_span-offset o e c s h he hc ho = ground arith

cut_span-count :
    (o e c : ℕ) (s : SunSpecSourceSpan)
    → IsSpan s
    → e ≤ 65536
    → c + s.word_count ≤ 65536
    → o < c + s.word_count
    → c < e
    → o < e
    → (cut_span o e c s).word_count ≡ kept o e c s.word_count
unfolding cut_span
cut_span-count o e c s h he hc ho hce hoe = ground arith

cut_span-IsSpan :
    (o e c : ℕ) (s : SunSpecSourceSpan)
    → IsSpan s
    → e ≤ 65536
    → c + s.word_count ≤ 65536
    → o < c + s.word_count
    → c < e
    → o < e
    → IsSpan (cut_span o e c s)
unfolding cut_span
cut_span-IsSpan o e c s h he hc ho hce hoe =
    let p = cut_span-offset o e c s h he hc ho in
    let n = cut_span-count o e c s h he hc ho hce hoe in
    record {
      in_type = record { offset_small = ground arith; count_small = ground arith };
      named = h.named;
      some_word = omega (arith, n, h.some_word);
      in_response = omega (arith, p, n, h.in_response);
    }

-- What the selection makes of a span: it passes it, ends at it or keeps a part of it.
data Selected (o e c : ℕ) (s : SunSpecSourceSpan) (ss : List SunSpecSourceSpan) : Type 0 where
  passed :
      c + s.word_count ≤ o
      → select_spans o e c (s ∷ ss) ≡ select_spans o e (c + s.word_count) ss
      → Selected o e c s ss
  ended : o < c + s.word_count → e ≤ c → select_spans o e c (s ∷ ss) ≡ [] → Selected o e c s ss
  kept_part :
      o < c + s.word_count
      → c < e
      → select_spans o e c (s ∷ ss) ≡ cut_span o e c s ∷ select_spans o e (c + s.word_count) ss
      → Selected o e c s ss

select_spans-Selected :
    (o e c : ℕ) (s : SunSpecSourceSpan) (ss : List SunSpecSourceSpan)
    → c + s.word_count ≤ 65536
    → Selected o e c s ss
unfolding select_spans
select_spans-Selected o e c s ss hc =
    let m : u32 (c + s.word_count) ≡ c + s.word_count = omega arith in
    elim (Bool-cases (leb (c + s.word_count) o)) [
      | inl h ↦ passed (ground arith) (grind (arith, m, h))
      | inr h ↦ elim (Bool-cases (leb e c)) [
        | inl j ↦ ended (ground arith) (ground arith) (grind (arith, m, h, j))
        | inr j ↦ kept_part (ground arith) (ground arith) (grind (arith, m, h, j))
      ]
    ]

select_spans-IsSpan :
    (o e c : ℕ) (ss : List SunSpecSourceSpan)
    → o < e
    → e ≤ 65536
    → All IsSpan ss
    → c + words ss ≤ 65536
    → All IsSpan (select_spans o e c ss)
unfolding select_spans
select_spans-IsSpan o e c [] hoe he h hc = tt
select_spans-IsSpan o e c (s ∷ ss) hoe he h hc =
    let rest = select_spans-IsSpan o e (c + s.word_count) ss hoe he h.1 (omega arith) in
    elim (select_spans-Selected o e c s ss (omega arith)) [
      | passed k q ↦ subst (All IsSpan) (sym q) rest
      | ended k j q ↦ subst (All IsSpan) (sym q) tt
      | kept_part k j q ↦
          subst (All IsSpan) (sym q) (cut_span-IsSpan o e c s h.0 he (omega arith) k j hoe, rest)
    ]

window-nil : (d k : ℕ) → window d k [] ≡ []
window-nil zero zero = refl
window-nil zero (suc k) = refl
window-nil (suc d) zero = refl
window-nil (suc d) (suc k) = refl

select_spans-window :
    (o e c : ℕ) (ss : List SunSpecSourceSpan)
    → o < e
    → e ≤ 65536
    → All IsSpan ss
    → c + words ss ≤ 65536
    → positions (select_spans o e c ss) ≡ window (o - c) (e - c - (o - c)) (positions ss)
unfolding select_spans cut_span
select_spans-window o e c [] hoe he h hc = sym (window-nil (o - c) (e - c - (o - c)))
select_spans-window o e c (s ∷ ss) hoe he h hc =
    let n = s.word_count in
    let v = s.logical_view_id in
    let p = s.pdu_offset in
    let rest = select_spans-window o e (c + n) ss hoe he h.1 (omega arith) in
    let split = window-run v p n (o - c) (e - c - (o - c)) (positions ss) in
    let onward : window (o - (c + n)) (e - (c + n) - (o - (c + n))) (positions ss)
        ≡ window (o - c - n) (e - c - (o - c) - (n - (o - c))) (positions ss) =
      window-cong (o - (c + n)) (o - c - n) (e - (c + n) - (o - (c + n)))
        (e - c - (o - c) - (n - (o - c))) (positions ss) (omega arith) (omega arith) in
    elim (select_spans-Selected o e c s ss (omega arith)) [
      | passed k q ↦
          let none_kept : 0 ≡ kept o e c n = omega arith in
          ap positions q
          ∙ rest
          ∙ onward
          ∙ ap
              (λ a.
                run v (p + (o - c)) a
                ++ window (o - c - n) (e - c - (o - c) - (n - (o - c))) (positions ss))
              none_kept
          ∙ sym split
      | ended k j q ↦
          let nothing : 0 ≡ e - c - (o - c) = omega arith in
          ap positions q ∙ ap (λ a. window (o - c) a (positions (s ∷ ss))) nothing
      | kept_part k j q ↦
          ap positions q
          ∙ ap₂ (λ a b. a ++ b)
              (run-cong v (cut_span o e c s).pdu_offset (p + (o - c)) (cut_span o e c s).word_count
                (kept o e c n) (cut_span-offset o e c s h.0 he (omega arith) k)
                (cut_span-count o e c s h.0 he (omega arith) k j hoe))
              (rest ∙ onward)
          ∙ sym split
    ]

-- A range that can be taken from spans.
pub record IsRange (offset word_count : ℕ) (ss : List SunSpecSourceSpan) : Type 0 where
  pub all_spans : All IsSpan ss
  pub extent : words ss ≤ 65536
  pub some_words : 1 ≤ word_count
  pub inside : offset + word_count ≤ words ss

abbrev selected_spans : ℕ → ℕ → List SunSpecSourceSpan → List SunSpecSourceSpan
selected_spans offset word_count ss = select_spans offset (offset + word_count) 0 ss

selected-window :
    (o w : ℕ) (ss : List SunSpecSourceSpan)
    → IsRange o w ss
    → positions (selected_spans o w ss) ≡ take w (drop o (positions ss))
selected-window o w ss r =
    select_spans-window o (o + w) 0 ss (omega (arith, r.some_words))
      (omega (arith, r.inside, r.extent)) r.all_spans (omega (arith, r.extent))
    ∙ window-cong (o - 0) o (o + w - 0 - (o - 0)) w (positions ss) (omega arith) (omega arith)

selected-words :
    (o w : ℕ) (ss : List SunSpecSourceSpan) → IsRange o w ss → words (selected_spans o w ss) ≡ w
selected-words o w ss r = omega (
  arith,
  length-positions (selected_spans o w ss),
  ap length (selected-window o w ss r),
  length-take w (drop o (positions ss)),
  length-drop o (positions ss),
  length-positions ss,
  r.inside,
)

words-is_empty : (ss : List SunSpecSourceSpan) → 1 ≤ words ss → is_empty ss ≡ false
words-is_empty [] h = absurd (omega arith)
words-is_empty (s ∷ ss) h = refl

new_source_range-words :
    (o w : ℕ) (ss : List SunSpecSourceSpan)
    → All IsSpan ss
    → words ss ≡ w
    → 1 ≤ w
    → o + w ≤ 65536
    → new_source_range o w ss ≡ ok (record { offset = o; word_count = w; spans = ss })
unfolding new_source_range
new_source_range-words o w ss h total some_words fit =
    let sum = add_spans-words w spans_exceed_range 0 ss (omega arith) h (omega arith) in
    let exact : 0 + words ss ≡ w = omega arith in
    ground (arith, sum, exact, words-is_empty ss (omega arith))

IsRange-selected :
    (o w : ℕ) (ss : List SunSpecSourceSpan)
    → IsRange o w ss
    → source_range_from_spans o w ss
      ≡ ok (record { offset = o; word_count = w; spans = selected_spans o w ss })
unfolding source_range_from_spans
IsRange-selected o w ss r =
    let some_span = words-is_empty ss (omega (arith, r.inside, r.some_words)) in
    let sum =
      add_spans-words max_occurrence_words extent_exceeds_bounds 0 ss (omega arith) r.all_spans
        (omega (arith, r.extent)) in
    let total : 0 + words ss ≡ words ss = omega arith in
    let stop : u32 (o + w) ≡ o + w = omega (arith, r.inside, r.extent) in
    let made =
      new_source_range-words o w (selected_spans o w ss)
        (select_spans-IsSpan o (o + w) 0 ss (omega (arith, r.some_words))
          (omega (arith, r.inside, r.extent)) r.all_spans (omega (arith, r.extent)))
        (selected-words o w ss r) r.some_words (omega (arith, r.inside, r.extent)) in
    grind (arith, some_span, sum, total, stop, made)

ok-IsRange :
    (o w : ℕ) (ss : List SunSpecSourceSpan) (r : SunSpecOccurrenceSourceRange)
    → o < 2 ^ 32
    → w < 2 ^ 32
    → All InType ss
    → source_range_from_spans o w ss ≡ ok r
    → IsRange o w ss
unfolding source_range_from_spans
ok-IsRange o w ss r ho hw h e = elim (Result-cases (add_spans 65536 extent_exceeds_bounds 0 ss)) [
  | inl (t, q) ↦
      let (goods, sum, most) = add_spans-IsSpan extent_exceeds_bounds 0 ss t h (omega arith) q in
      record {
        all_spans = goods;
        extent = omega (arith, sum, most);
        some_words = ground arith;
        inside = ground arith;
      }
  | inr (f, q) ↦ absurd (ground arith)
]

-- Of spans with fields of type uint16 a range is selected exactly when each span names words of a
-- response, their words are within the largest occurrence, and the range is a part of them.
pub source_range_from_spans_iff :
    (o w : ℕ) (ss : List SunSpecSourceSpan)
    → o < 2 ^ 32
    → w < 2 ^ 32
    → All InType ss
    → ((r : SunSpecOccurrenceSourceRange) × (source_range_from_spans o w ss ≡ ok r))
      ↔ IsRange o w ss
source_range_from_spans_iff o w ss ho hw h = (
  λ r. ok-IsRange o w ss r.0 ho hw h r.1,
  λ r. (
    record { offset = o; word_count = w; spans = selected_spans o w ss },
    IsRange-selected o w ss r,
  ),
)

-- A range that is selected keeps the asked place and size, and its spans name exactly the words of
-- the occurrence's spans from that place on, in order, each by its response and its place there.
pub source_range_from_spans-positions :
    (o w : ℕ) (ss : List SunSpecSourceSpan) (r : SunSpecOccurrenceSourceRange)
    → o < 2 ^ 32
    → w < 2 ^ 32
    → All InType ss
    → source_range_from_spans o w ss ≡ ok r
    → (r.offset ≡ o) × (r.word_count ≡ w) × (positions r.spans ≡ take w (drop o (positions ss)))
source_range_from_spans-positions o w ss r ho hw h e =
    let range = ok-IsRange o w ss r ho hw h e in
    let made : record { offset = o; word_count = w; spans = selected_spans o w ss } ≡ r =
      grind (arith, IsRange-selected o w ss range, e) in
    (
      ap (λ m. m.offset) (sym made),
      ap (λ m. m.word_count) (sym made),
      ap (λ m. positions m.spans) (sym made) ∙ selected-window o w ss range,
    )
