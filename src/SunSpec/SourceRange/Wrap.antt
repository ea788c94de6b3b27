-- ===== src/SunSpec/SourceRange/Wrap.antt =====
-- Where the 32-bit sum of a directly made source range wraps around.
use helianthus_modbusreg.Base.{
  ℕ, zero, suc, ◌+◌, ◌*◌, ◌≤◌, ◌<◌, ◌≡◌, refl, ap, ◌∙◌, List, [], ◌∷◌, ◌++◌, ok, replicate, false,
  ltb, arith,
}
use helianthus_modbusreg.SunSpec.{SunSpecSourceSpan}
use helianthus_modbusreg.SunSpec.SourceRange.{
  u32, u32_minus, RangeError, spans_exceed_range, bad_span, add_spans, is_empty,
  SunSpecOccurrenceSourceRange, new_source_range,
}
use helianthus_modbusreg.SunSpec.SourceRange.Words.{words}

-- The largest span, and one with a word more than the range.
abbrev largest_span : SunSpecSourceSpan
largest_span = record { logical_view_id = 1; pdu_offset = 0; word_count = 65535 }

abbrev last_span : ℕ → SunSpecSourceSpan
last_span w = record { logical_view_id = 1; pdu_offset = 0; word_count = w + 1 }

abbrev pub wrapping_spans : ℕ → ℕ → List SunSpecSourceSpan
wrapping_spans n w = replicate n largest_span ++ last_span w ∷ []

words-wrapping_spans : (n w : ℕ) → words (wrapping_spans n w) ≡ 65535 * n + w + 1
words-wrapping_spans zero w = omega arith
words-wrapping_spans (suc n) w = omega (arith, words-wrapping_spans n w)

add_spans-replicate :
    (w total n : ℕ) (e : RangeError) (rest : List SunSpecSourceSpan)
    → w ≤ 65534
    → total + 65535 * n < 0x1_0000_0000
    → add_spans w e total (replicate n largest_span ++ rest)
      ≡ add_spans w e (total + 65535 * n) rest
unfolding add_spans bad_span
add_spans-replicate w total zero e rest h k =
    let same : total ≡ total + 65535 * 0 = omega arith in ap (λ t. add_spans w e t rest) same
add_spans-replicate w total (suc n) e rest h k =
    let room : ltb (u32_minus w 65535) total ≡ false = ground arith in
    let m : u32 (total + 65535) ≡ total + 65535 = omega arith in
    let onward = add_spans-replicate w (total + 65535) n e rest h (omega arith) in
    let same : total + 65535 + 65535 * n ≡ total + 65535 * suc n = omega arith in
    grind (arith, room, m, onward, same)

add_spans-last :
    (w : ℕ)
    → 1 ≤ w
    → w ≤ 65534
    → add_spans w spans_exceed_range 4294967295 (last_span w ∷ []) ≡ ok w
unfolding add_spans bad_span
add_spans-last w lo hi =
    let room : ltb (u32_minus w (w + 1)) 4294967295 ≡ false = ground arith in
    let m : u32 (4294967295 + (w + 1)) ≡ w = omega arith in grind (arith, room, m)

is_empty-wrapping_spans : (n w : ℕ) → is_empty (wrapping_spans n w) ≡ false
is_empty-wrapping_spans zero w = refl
is_empty-wrapping_spans (suc n) w = refl

-- The constructor accepts 65537 spans of 65535 words and one of `w + 1` words for a range of `w`
-- words, though together they have `2 ^ 32` words more than it.
pub new_source_range-wraps :
    (n w : ℕ)
    → n ≡ 65537
    → 1 ≤ w
    → w ≤ 65534
    → ((r : SunSpecOccurrenceSourceRange) × (new_source_range 0 w (wrapping_spans n w) ≡ ok r))
      × (words (wrapping_spans n w) ≡ 0x1_0000_0000 + w)
unfolding new_source_range
new_source_range-wraps n w hn lo hi =
    let full : 0 + 65535 * n ≡ 4294967295 = omega arith in
    let sum : add_spans w spans_exceed_range 0 (wrapping_spans n w) ≡ ok w =
      add_spans-replicate w 0 n spans_exceed_range (last_span w ∷ []) hi (omega arith)
      ∙ ap (λ t. add_spans w spans_exceed_range t (last_span w ∷ [])) full
      ∙ add_spans-last w lo hi in
    (
      (
        record { offset = 0; word_count = w; spans = wrapping_spans n w },
        ground (arith, sum, is_empty-wrapping_spans n w),
      ),
      omega (arith, words-wrapping_spans n w),
    )
