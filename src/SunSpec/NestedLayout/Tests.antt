-- ===== src/SunSpec/NestedLayout/Tests.antt =====
-- A layout of a repeated group at a concrete occurrence.
use helianthus_modbusreg.Base.{
  ℕ, ◌-◌, ◌≡◌, ◌≢◌, refl, Bool, true, false, List, [], ◌∷◌, ok, err, length, All, arith,
}
use helianthus_modbusreg.Base.Bytes.{ascii}
use helianthus_modbusreg.SunSpec.{SunSpecSourceSpan, valid_revision}
use helianthus_modbusreg.SunSpec.FactPath.{SunSpecFactPathSegment, PathError, new_fact_path}
use helianthus_modbusreg.SunSpec.SourceRange.{
  RangeError, bad_span, add_spans, new_source_range, cut_span, select_spans,
  source_range_from_spans,
}
use helianthus_modbusreg.SunSpec.SourceRange.Words.{InType}
use helianthus_modbusreg.SunSpec.NestedLayout.{
  NestedTemplateKey, NestedCountSpec, NestedValueMetadata, NestedLayoutField, LayoutGroup, group,
  no_groups, and_group, NestedLayoutTemplate, NestedLayoutEntry, NestedOccurrenceLayout,
  extent_mismatch, materialization_inconsistent, fact_path, source_range, new_layout_template,
}
use helianthus_modbusreg.SunSpec.NestedLayout.Build.{build_occurrence_layout}
use helianthus_modbusreg.SunSpec.NestedLayout.Twin.{Placed}
use helianthus_modbusreg.SunSpec.NestedLayout.Placement.{
  build_occurrence_layout-Placed, build_occurrence_layout_consistent,
}

abbrev no_metadata : NestedValueMetadata
no_metadata = record {
  field_id = [];
  point_name = [];
  unit = [];
  point_type = [];
  scale_factor = [];
  symbols = [];
}

abbrev word_field : List ℕ → Bool → NestedLayoutField
word_field name emit = record {
  name = name;
  word_count = 1;
  emit = emit;
  has_value_metadata = false;
  value_metadata = no_metadata;
}

-- A header of two words and a count, then one word for each repetition.
abbrev crv_root : LayoutGroup
crv_root =
    group [] [] 0
      (word_field (ascii "ID") false
        ∷ word_field (ascii "L") false
        ∷ word_field (ascii "N") true
        ∷ [])
      (and_group (group (ascii "Crv") (ascii "N") 1 (word_field (ascii "V") true ∷ []) no_groups)
        no_groups)

abbrev crv_key : NestedTemplateKey
crv_key = record { revision = ascii "1.2"; model_id = 5 }

abbrev crv_counts : List NestedCountSpec
crv_counts =
    record {
      name = ascii "N";
      occurrence_word_offset = 2;
      unavailable = 0xffff;
      min_count = 0;
      max_count = 8;
    }
    ∷ []

abbrev crv_template : NestedLayoutTemplate
crv_template = record { key = crv_key; counts = crv_counts; root = crv_root }

makes_template : new_layout_template crv_key crv_counts crv_root ≡ ok crv_template
unfolding new_layout_template valid_revision
makes_template = refl

abbrev crv_words : List ℕ
crv_words = 5 ∷ 3 ∷ 2 ∷ 11 ∷ 12 ∷ []

abbrev span_at : ℕ → ℕ → ℕ → SunSpecSourceSpan
span_at view offset count = record {
  logical_view_id = view;
  pdu_offset = offset;
  word_count = count;
}

abbrev crv_spans : List SunSpecSourceSpan
crv_spans = span_at 1 0 2 ∷ span_at 2 0 3 ∷ []

abbrev plain_segment : List ℕ → SunSpecFactPathSegment
plain_segment name = record { name = name; index = 0; indexed = false }

abbrev crv_entry : List SunSpecFactPathSegment → ℕ → NestedLayoutEntry
crv_entry segments offset = record {
  path = record { segments = segments };
  source_range = record { offset = offset; word_count = 1; spans = span_at 2 (offset - 2) 1 ∷ [] };
  has_value_metadata = false;
  value_metadata = no_metadata;
}

abbrev crv_layout : NestedOccurrenceLayout
crv_layout = record {
  key = crv_key;
  entries =
      crv_entry (plain_segment (ascii "N") ∷ []) 2
      ∷ crv_entry
          (record { name = ascii "Crv"; index = 1; indexed = true }
            ∷ plain_segment (ascii "V")
            ∷ [])
          3
      ∷ crv_entry
          (record { name = ascii "Crv"; index = 2; indexed = true }
            ∷ plain_segment (ascii "V")
            ∷ [])
          4
      ∷ [];
}

builds_layout : build_occurrence_layout crv_template crv_words crv_spans ≡ ok crv_layout
unfolding build_occurrence_layout bad_span new_fact_path source_range_from_spans add_spans
    new_source_range select_spans cut_span
builds_layout = refl

crv_typed : All InType crv_spans
crv_typed = (
  record { offset_small = omega arith; count_small = omega arith },
  (record { offset_small = omega arith; count_small = omega arith }, tt),
)

build_occurrence_layout-Placed_example :
    (crv_key ≡ crv_key) × Placed crv_spans 0 crv_layout.entries (length crv_words)
build_occurrence_layout-Placed_example =
    build_occurrence_layout-Placed crv_key crv_counts crv_root crv_template crv_words crv_spans
      makes_template crv_typed (omega arith) crv_layout builds_layout

-- With a count that leaves a word over the extent does not match.
abbrev short_words : List ℕ
short_words = 5 ∷ 3 ∷ 1 ∷ 11 ∷ 12 ∷ []

refuses_layout : build_occurrence_layout crv_template short_words crv_spans ≡ err extent_mismatch
unfolding build_occurrence_layout bad_span
refuses_layout = refl

build_occurrence_layout_consistent_example :
    (extent_mismatch ≢ materialization_inconsistent)
    × ((p : PathError) → extent_mismatch ≢ fact_path p)
    × ((r : RangeError) → extent_mismatch ≢ source_range r)
build_occurrence_layout_consistent_example =
    build_occurrence_layout_consistent crv_key crv_counts crv_root crv_template short_words
      crv_spans makes_template crv_typed (omega arith) extent_mismatch refuses_layout
