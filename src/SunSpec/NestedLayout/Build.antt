-- ===== src/SunSpec/NestedLayout/Build.antt =====
-- The layout of an occurrence: `buildSunSpecNestedOccurrenceLayout` and its walk.
use helianthus_modbusreg.Base.{
  ℕ, zero, suc, ◌+◌, ◌-◌, Bool, true, false, ◌||◌, not, Option, none, some, List, [], ◌∷◌, ◌++◌,
  Result, ok, err, ltb, leb, ◌==◌, ◌>>=◌, ◌>>◌, refuse_if, length, get_elem?, if◌then◌else◌,
}
use helianthus_modbusreg.Base.Bytes.{same_bytes}
use helianthus_modbusreg.SunSpec.{SunSpecSourceSpan}
use helianthus_modbusreg.SunSpec.FactPath.{SunSpecFactPathSegment, new_fact_path}
use helianthus_modbusreg.SunSpec.SourceRange.{
  max_occurrence_words, u32, u32_minus, is_empty, bad_span, source_range_from_spans,
}
use helianthus_modbusreg.SunSpec.NestedLayout.{
  NestedCountSpec, NestedLayoutField, LayoutGroup, LayoutGroups, group, no_groups, and_group,
  NestedLayoutTemplate, NestedLayoutEntry, NestedOccurrenceLayout, LayoutError, header_invalid,
  no_spans, spans_invalid, spans_do_not_cover, count_offset_outside, count_value_invalid,
  index_exceeds_bounds, field_exceeds_occurrence, entry_count_exceeds_bounds, extent_mismatch,
  materialization_inconsistent, fact_path, source_range, is_empty_name,
}

abbrev pub max_uint32 : ℕ
max_uint32 = 0xffff_ffff

abbrev pub or_wrap {ℓ κ μ} :
    {A : Type ℓ} {E : Type κ} {F : Type μ} → (E → F) → Result E A → Result F A
or_wrap wrap (ok value) = ok value
or_wrap wrap (err refusal) = err (wrap refusal)

-- The loop of `validateSunSpecNestedOccurrenceSpans`.
unfoldable pub cover_spans : ℕ → ℕ → List SunSpecSourceSpan → Result LayoutError ℕ
cover_spans expected total [] = ok total
cover_spans expected total (s ∷ ss) =
    refuse_if (bad_span s || ltb (u32_minus expected total) s.word_count) spans_invalid
    >> cover_spans expected (u32 (total + s.word_count)) ss

-- `validateSunSpecNestedOccurrenceSpans`
unfoldable pub validate_occurrence_spans :
    List SunSpecSourceSpan → ℕ → Result LayoutError (Unit {0})
unfolding cover_spans
validate_occurrence_spans spans expected =
    refuse_if (is_empty spans) no_spans
    >> (cover_spans expected 0 spans >>= λ total.
        refuse_if (not (total == expected)) spans_do_not_cover)

-- The counts as an association list: the last one stored under a name counts.
abbrev pub Counts : Type 0
Counts = List (List ℕ × ℕ)

abbrev pub find_count : List ℕ → Counts → ℕ
find_count name [] = 0
find_count name ((n, v) ∷ counts) = if same_bytes n name then v else find_count name counts

unfoldable pub count_value :
    NestedCountSpec → List ℕ → Option ℕ → Counts → Result LayoutError Counts
count_value spec words none counts = err count_offset_outside
count_value spec words (some value) counts =
    refuse_if (value == spec.unavailable || ltb value spec.min_count || ltb spec.max_count value)
      count_value_invalid
    >> ok ((spec.name, value) ∷ counts)

-- `resolveSunSpecNestedCounts`: a word out of range is no word of the list.
unfoldable pub resolve_counts : Counts → List NestedCountSpec → List ℕ → Result LayoutError Counts
unfolding count_value
resolve_counts counts [] words = ok counts
resolve_counts counts (spec ∷ specs) words =
    count_value spec words (get_elem? words spec.occurrence_word_offset) counts >>= λ counts'.
    resolve_counts counts' specs words

-- `sunSpecNestedLayoutWalk`: what a walk changes. Without entries it only counts them.
pub record LayoutWalk : Type 0 where
  pub offset : ℕ
  pub entry_count : ℕ
  pub entries : Option (List NestedLayoutEntry)

-- The body of the loop `for occurrence := 0; occurrence < repetitions; occurrence++`.
abbrev pub repeat_from :
    ℕ
    → ℕ
    → (ℕ → LayoutWalk → Result LayoutError LayoutWalk)
    → LayoutWalk
    → Result LayoutError LayoutWalk
repeat_from zero occurrence body w = ok w
repeat_from (suc n) occurrence body w =
    body occurrence w >>= λ w'. repeat_from n (occurrence + 1) body w'

module _ (counts : Counts) (words : ℕ) (spans : List SunSpecSourceSpan) where
  -- The path of one repetition of a group.
  unfoldable pub group_path :
      List ℕ
      → List ℕ
      → ℕ
      → List SunSpecFactPathSegment
      → ℕ
      → Result LayoutError (List SunSpecFactPathSegment)
  group_path name repeat_count index_base parent occurrence =
      if is_empty_name name
      then ok parent
      else if is_empty_name repeat_count
      then ok (parent ++ (record { name = name; index = 0; indexed = false } ∷ []))
      else (refuse_if (ltb (max_uint32 - occurrence) index_base) index_exceeds_bounds
          >> ok (
              parent
              ++ (record { name = name; index = u32 (index_base + occurrence); indexed = true }
                  ∷ [])))

  -- A field that is emitted: counted in the first walk, materialised in the second.
  unfoldable pub emit_field :
      NestedLayoutField
      → List SunSpecFactPathSegment
      → ℕ
      → LayoutWalk
      → Option (List NestedLayoutEntry)
      → Result LayoutError LayoutWalk
  emit_field f path start w none =
      refuse_if (leb words w.entry_count) entry_count_exceeds_bounds
      >> ok (record w { entry_count = u32 (w.entry_count + 1) })
  emit_field f path start w (some entries) =
      or_wrap fact_path
        (new_fact_path (path ++ (record { name = f.name; index = 0; indexed = false } ∷ [])))
      >>= λ fact.
          (or_wrap source_range (source_range_from_spans start f.word_count spans) >>= λ selected.
          ok (record w {
            entries = some (
                entries
                ++ (record {
                  path = fact;
                  source_range = selected;
                  has_value_metadata = f.has_value_metadata;
                  value_metadata = f.value_metadata;
                }
                    ∷ []));
          }))

  unfoldable pub walk_field :
      List SunSpecFactPathSegment → NestedLayoutField → LayoutWalk → Result LayoutError LayoutWalk
  unfolding emit_field
  walk_field path f w =
      refuse_if (ltb words w.offset || ltb (u32_minus words w.offset) f.word_count)
        field_exceeds_occurrence
      >> (if not f.emit
          then ok (record w { offset = u32 (w.offset + f.word_count) })
          else emit_field f path w.offset (record w { offset = u32 (w.offset + f.word_count) })
              w.entries)

  unfoldable pub walk_fields :
      List SunSpecFactPathSegment
      → List NestedLayoutField
      → LayoutWalk
      → Result LayoutError LayoutWalk
  unfolding walk_field
  walk_fields path [] w = ok w
  walk_fields path (f ∷ fs) w = walk_field path f w >>= λ w'. walk_fields path fs w'

  abbrev pub repetitions : List ℕ → ℕ
  repetitions repeat_count =
      if is_empty_name repeat_count then 1 else find_count repeat_count counts

  -- `walk`, and its loop over the children.
  unfoldable mutual
    unfolding walk_fields group_path

    pub walk :
        LayoutGroup → List SunSpecFactPathSegment → LayoutWalk → Result LayoutError LayoutWalk
    walk (group name repeat_count index_base fields children) parent w =
        repeat_from (repetitions repeat_count) 0
          (λ occurrence v. group_path name repeat_count index_base parent occurrence >>= λ path.
            (walk_fields path fields v >>= λ v'. walk_children children path v'))
          w

    pub walk_children :
        LayoutGroups → List SunSpecFactPathSegment → LayoutWalk → Result LayoutError LayoutWalk
    walk_children no_groups path w = ok w
    walk_children (and_group child children) path w =
        walk child path w >>= λ w'. walk_children children path w'

-- The second walk against the first: `none` cannot be, since entries are only added.
unfoldable pub materialized :
    ℕ → ℕ → ℕ → Option (List NestedLayoutEntry) → Result LayoutError (List NestedLayoutEntry)
materialized words expected offset none = err materialization_inconsistent
materialized words expected offset (some entries) =
    refuse_if (not (offset == words) || not (u32 (length entries) == expected))
      materialization_inconsistent
    >> ok entries

-- Both walks, one after the other.
unfoldable pub two_walks :
    Counts → ℕ → List SunSpecSourceSpan → LayoutGroup → Result LayoutError (List NestedLayoutEntry)
unfolding walk materialized
two_walks counts words spans root =
    walk counts words spans root [] (record { offset = 0; entry_count = 0; entries = none })
    >>= λ first.
        refuse_if (not (first.offset == words)) extent_mismatch
        >> refuse_if (ltb words first.entry_count) entry_count_exceeds_bounds
        >> (walk counts words spans root []
              (record { offset = 0; entry_count = 0; entries = some [] })
            >>= λ second. materialized words first.entry_count second.offset second.entries)

abbrev pub bad_header : ℕ → List ℕ → Bool
bad_header model_id (id ∷ declared ∷ rest) =
    ltb max_occurrence_words (u32 (length (id ∷ declared ∷ rest)))
    || not (id == model_id)
    || not (u32 (declared + 2) == u32 (length (id ∷ declared ∷ rest)))
bad_header model_id _ = true

-- `buildSunSpecNestedOccurrenceLayout`
unfoldable pub build_occurrence_layout :
    NestedLayoutTemplate
    → List ℕ
    → List SunSpecSourceSpan
    → Result LayoutError NestedOccurrenceLayout
unfolding validate_occurrence_spans resolve_counts two_walks
build_occurrence_layout template words spans =
    refuse_if (bad_header template.key.model_id words) header_invalid
    >> validate_occurrence_spans spans (u32 (length words))
    >> (resolve_counts [] template.counts words >>= λ counts.
        (two_walks counts (u32 (length words)) spans template.root >>= λ entries.
        ok (record { key = template.key; entries = entries })))
