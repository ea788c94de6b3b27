-- ===== src/SunSpec/SourceRange/Tests.antt =====
-- Concrete source ranges.
use helianthus_modbusreg.Base.{
  ℕ, ◌+◌, ◌≤◌, ◌≡◌, ◌↔◌, refl, List, [], ◌∷◌, ok, All, arith, take, drop,
}
use helianthus_modbusreg.SunSpec.{SunSpecSourceSpan}
use helianthus_modbusreg.SunSpec.SourceRange.{
  SunSpecOccurrenceSourceRange, new_source_range, source_range_from_spans, add_spans, bad_span,
  select_spans, cut_span,
}
use helianthus_modbusreg.SunSpec.SourceRange.Words.{
  InType, positions, words, new_source_range-words_exact,
}
use helianthus_modbusreg.SunSpec.SourceRange.Wrap.{wrapping_spans, new_source_range-wraps}
use helianthus_modbusreg.SunSpec.SourceRange.Slice.{
  IsRange, source_range_from_spans_iff, source_range_from_spans-positions,
}

abbrev span : ℕ → ℕ → ℕ → SunSpecSourceSpan
span v p n = record { logical_view_id = v; pdu_offset = p; word_count = n }

abbrev three_spans : List SunSpecSourceSpan
three_spans = span 1 10 5 ∷ span 2 0 7 ∷ span 3 100 4 ∷ []

three_spans-InType : All InType three_spans
three_spans-InType = (
  record { offset_small = omega arith; count_small = omega arith },
  (
    record { offset_small = omega arith; count_small = omega arith },
    (record { offset_small = omega arith; count_small = omega arith }, tt),
  ),
)

abbrev middle : SunSpecOccurrenceSourceRange
middle = record {
  offset = 3;
  word_count = 10;
  spans = span 1 13 2 ∷ span 2 0 7 ∷ span 3 100 1 ∷ [];
}

middle-run : source_range_from_spans 3 10 three_spans ≡ ok middle
unfolding source_range_from_spans add_spans bad_span select_spans cut_span new_source_range
middle-run = refl

source_range_from_spans-positions_example :
    (middle.offset ≡ 3)
    × (middle.word_count ≡ 10)
    × (positions middle.spans ≡ take 10 (drop 3 (positions three_spans)))
source_range_from_spans-positions_example =
    source_range_from_spans-positions 3 10 three_spans middle (omega arith) (omega arith)
      three_spans-InType middle-run

source_range_from_spans_iff_example :
    ((r : SunSpecOccurrenceSourceRange) × (source_range_from_spans 3 10 three_spans ≡ ok r))
    ↔ IsRange 3 10 three_spans
source_range_from_spans_iff_example =
    source_range_from_spans_iff 3 10 three_spans (omega arith) (omega arith) three_spans-InType

abbrev whole : SunSpecOccurrenceSourceRange
whole = record { offset = 0; word_count = 16; spans = three_spans }

whole-run : new_source_range 0 16 three_spans ≡ ok whole
unfolding new_source_range add_spans bad_span
whole-run = refl

new_source_range-words_exact_example :
    (words whole.spans ≡ 16) × (whole.spans ≡ three_spans) × (0 + 16 ≤ 65536)
new_source_range-words_exact_example =
    new_source_range-words_exact 0 16 three_spans whole (omega arith) three_spans-InType
      (omega arith) whole-run

new_source_range-wraps_example :
    ((r : SunSpecOccurrenceSourceRange) × (new_source_range 0 5 (wrapping_spans 65537 5) ≡ ok r))
    × (words (wrapping_spans 65537 5) ≡ 4294967301)
new_source_range-wraps_example = new_source_range-wraps 65537 5 refl (omega arith) (omega arith)
