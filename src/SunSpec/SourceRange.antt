-- ===== src/SunSpec/SourceRange.antt =====
-- sunspec_nested_layout.go: the source ranges of an occurrence and their selection from its spans.
pub mod Words
pub mod Slice
pub mod Wrap
mod Tests
use helianthus_modbusreg.Base.{
  ℕ, ◌+◌, ◌-◌, ◌%◌, Bool, true, false, ◌||◌, not, List, [], ◌∷◌, Result, ok, err, ltb, leb, ◌==◌,
  if◌then◌else◌, ◌>>=◌, ◌>>◌, refuse_if,
}
use helianthus_modbusreg.SunSpec.{SunSpecSourceSpan}

abbrev pub max_occurrence_words : ℕ
max_occurrence_words = 65536

-- uint32 and uint16 arithmetic.
abbrev pub u32 : ℕ → ℕ
u32 n = n % 0x1_0000_0000

abbrev pub u32_minus : ℕ → ℕ → ℕ
u32_minus a b = u32 (a + 0x1_0000_0000 - b)

abbrev pub u16 : ℕ → ℕ
u16 n = n % 0x1_0000

pub data RangeError : Type 0 where
  range_outside_bounds no_spans span_outside_bounds spans_exceed_range : RangeError
  spans_do_not_cover extent_exceeds_bounds range_outside_aggregate : RangeError

pub record SunSpecOccurrenceSourceRange : Type 0 where
  pub offset : ℕ
  pub word_count : ℕ
  pub spans : List SunSpecSourceSpan

unfoldable pub bad_span : SunSpecSourceSpan → Bool
bad_span s =
    s.logical_view_id == 0
    || s.word_count == 0
    || ltb max_occurrence_words (u32 (s.pdu_offset + s.word_count))

-- The loop of both constructors: `limit` is the range's word count or the largest occurrence.
unfoldable pub add_spans : ℕ → RangeError → ℕ → List SunSpecSourceSpan → Result RangeError ℕ
add_spans limit e total [] = ok total
add_spans limit e total (s ∷ ss) =
    refuse_if (bad_span s) span_outside_bounds
    >> refuse_if (ltb (u32_minus limit s.word_count) total) e
    >> add_spans limit e (u32 (total + s.word_count)) ss

abbrev pub is_empty : List SunSpecSourceSpan → Bool
is_empty [] = true
is_empty (s ∷ ss) = false

-- `NewSunSpecOccurrenceSourceRange`
unfoldable pub new_source_range :
    ℕ → ℕ → List SunSpecSourceSpan → Result RangeError SunSpecOccurrenceSourceRange
new_source_range offset word_count spans =
    refuse_if
      (word_count == 0
        || leb max_occurrence_words offset
        || ltb (u32_minus max_occurrence_words offset) word_count)
      range_outside_bounds
    >> refuse_if (is_empty spans) no_spans
    >> (add_spans word_count spans_exceed_range 0 spans >>= λ total.
        refuse_if (not (total == word_count)) spans_do_not_cover
        >> ok (record { offset = offset; word_count = word_count; spans = spans }))

-- The part of a span that starts at `span_start`, cut to the words from `offset` to `stop`.
unfoldable pub cut_span : ℕ → ℕ → ℕ → SunSpecSourceSpan → SunSpecSourceSpan
cut_span offset stop span_start s =
    let start = if ltb span_start offset then u32_minus offset span_start else 0 in
    let finish =
      if ltb stop (u32 (span_start + s.word_count))
      then u32_minus stop span_start
      else s.word_count in
    record {
      logical_view_id = s.logical_view_id;
      pdu_offset = u16 (u32 (s.pdu_offset + start));
      word_count = u16 (u32_minus finish start);
    }

-- The second loop of `NewSunSpecOccurrenceSourceRangeFromSpans`.
unfoldable pub select_spans : ℕ → ℕ → ℕ → List SunSpecSourceSpan → List SunSpecSourceSpan
select_spans offset stop cursor [] = []
select_spans offset stop cursor (s ∷ ss) =
    let span_end = u32 (cursor + s.word_count) in
    let rest = select_spans offset stop span_end ss in
    if leb span_end offset
    then rest
    else if leb stop cursor
    then []
    else cut_span offset stop cursor s ∷ rest

-- `NewSunSpecOccurrenceSourceRangeFromSpans`
unfoldable pub source_range_from_spans :
    ℕ → ℕ → List SunSpecSourceSpan → Result RangeError SunSpecOccurrenceSourceRange
source_range_from_spans offset word_count spans =
    refuse_if (is_empty spans) no_spans
    >> (add_spans max_occurrence_words extent_exceeds_bounds 0 spans >>= λ total.
        refuse_if (word_count == 0 || leb total offset || ltb (u32_minus total offset) word_count)
          range_outside_aggregate
        >> new_source_range offset word_count
            (select_spans offset (u32 (offset + word_count)) 0 spans))
