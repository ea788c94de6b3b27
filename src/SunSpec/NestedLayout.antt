-- ===== src/SunSpec/NestedLayout.antt =====
-- sunspec_nested_layout_builder.go: templates of nested layouts, and the layout of an occurrence.
pub mod Build
pub mod Twin
pub mod Walks
pub mod Placement
mod Tests
use helianthus_modbusreg.Base.{
  ℕ, ◌+◌, Bool, true, false, ◌&&◌, ◌||◌, not, Option, none, some, List, [], ◌∷◌, Result, ok, err,
  ltb, leb, ◌==◌, ◌>>=◌, ◌>>◌, refuse_if, length, if◌then◌else◌,
}
use helianthus_modbusreg.Base.Bytes.{same_bytes}
use helianthus_modbusreg.SunSpec.{valid_revision}
use helianthus_modbusreg.SunSpec.FactPath.{SunSpecFactPath, PathError}
use helianthus_modbusreg.SunSpec.SourceRange.{SunSpecOccurrenceSourceRange, RangeError}

abbrev pub max_nested_layout_depth : ℕ
max_nested_layout_depth = 16

pub record NestedTemplateKey : Type 0 where
  pub revision : List ℕ
  pub model_id : ℕ

pub record NestedCountSpec : Type 0 where
  pub name : List ℕ
  pub occurrence_word_offset : ℕ
  pub unavailable : ℕ
  pub min_count : ℕ
  pub max_count : ℕ

pub record NestedValueMetadata : Type 0 where
  pub field_id : List ℕ
  pub point_name : List ℕ
  pub unit : List ℕ
  pub point_type : List ℕ
  pub scale_factor : List ℕ
  pub symbols : List (ℕ × List ℕ)

pub record NestedLayoutField : Type 0 where
  pub name : List ℕ
  pub word_count : ℕ
  pub emit : Bool
  pub has_value_metadata : Bool
  pub value_metadata : NestedValueMetadata

-- `sunSpecNestedLayoutGroup`: its name, repeat count, index base, fields and children.
mutual
  pub data LayoutGroup : Type 0 where
    group : List ℕ → List ℕ → ℕ → List NestedLayoutField → LayoutGroups → LayoutGroup

  pub data LayoutGroups : Type 0 where
    no_groups : LayoutGroups
    and_group : LayoutGroup → LayoutGroups → LayoutGroups

pub record NestedLayoutTemplate : Type 0 where
  pub key : NestedTemplateKey
  pub counts : List NestedCountSpec
  pub root : LayoutGroup

pub record NestedLayoutEntry : Type 0 where
  pub path : SunSpecFactPath
  pub source_range : SunSpecOccurrenceSourceRange
  pub has_value_metadata : Bool
  pub value_metadata : NestedValueMetadata

pub record NestedOccurrenceLayout : Type 0 where
  pub key : NestedTemplateKey
  pub entries : List NestedLayoutEntry

pub data LayoutError : Type 0 where
  key_invalid count_invalid count_name_duplicated count_offset_duplicated root_invalid : LayoutError
  depth_exceeds_bounds group_unnamed static_index_base unknown_count field_invalid : LayoutError
  metadata_invalid header_invalid no_spans spans_invalid spans_do_not_cover : LayoutError
  count_offset_outside count_value_invalid index_exceeds_bounds field_exceeds_occurrence :
      LayoutError
  entry_count_exceeds_bounds extent_mismatch materialization_inconsistent : LayoutError
  fact_path : PathError → LayoutError
  source_range : RangeError → LayoutError

abbrev pub is_empty_name : List ℕ → Bool
is_empty_name name = length name == 0

abbrev pub has_name : List ℕ → List (List ℕ) → Bool
has_name name [] = false
has_name name (n ∷ ns) = same_bytes n name || has_name name ns

abbrev has_offset : ℕ → List ℕ → Bool
has_offset offset [] = false
has_offset offset (o ∷ os) = o == offset || has_offset offset os

-- The loop over the count specifications: the names and the offsets seen so far.
unfoldable pub check_counts :
    List (List ℕ) → List ℕ → List NestedCountSpec → Result LayoutError (List (List ℕ))
check_counts names offsets [] = ok names
check_counts names offsets (c ∷ cs) =
    refuse_if (is_empty_name c.name || ltb c.max_count c.min_count || leb c.unavailable c.max_count)
      count_invalid
    >> refuse_if (has_name c.name names) count_name_duplicated
    >> refuse_if (has_offset c.occurrence_word_offset offsets) count_offset_duplicated
    >> check_counts (c.name ∷ names) (c.occurrence_word_offset ∷ offsets) cs

unfoldable pub check_fields : List NestedLayoutField → Result LayoutError (Unit {0})
check_fields [] = ok tt
check_fields (f ∷ fs) =
    refuse_if (is_empty_name f.name || f.word_count == 0) field_invalid
    >> refuse_if (f.has_value_metadata && (not f.emit || is_empty_name f.value_metadata.point_type))
        metadata_invalid
    >> check_fields fs

-- `validateSunSpecNestedLayoutGroup`, and its loop over the children.
unfoldable mutual
  unfolding check_fields

  pub validate_group : List (List ℕ) → Bool → ℕ → LayoutGroup → Result LayoutError (Unit {0})
  validate_group names is_root depth (group name repeat_count index_base fields children) =
      refuse_if (ltb max_nested_layout_depth depth) depth_exceeds_bounds
      >> refuse_if (not is_root && is_empty_name name) group_unnamed
      >> (if is_empty_name repeat_count
          then refuse_if (not (index_base == 0)) static_index_base
          else refuse_if (not (has_name repeat_count names)) unknown_count)
      >> check_fields fields
      >> validate_groups names (depth + 1) children

  pub validate_groups : List (List ℕ) → ℕ → LayoutGroups → Result LayoutError (Unit {0})
  validate_groups names depth no_groups = ok tt
  validate_groups names depth (and_group child children) =
      validate_group names false depth child >> validate_groups names depth children

abbrev bad_root : LayoutGroup → Bool
bad_root (group name repeat_count index_base fields children) =
    not (is_empty_name name) || not (is_empty_name repeat_count) || not (index_base == 0)

-- `newSunSpecNestedLayoutTemplate`
unfoldable pub new_layout_template :
    NestedTemplateKey → List NestedCountSpec → LayoutGroup → Result LayoutError NestedLayoutTemplate
unfolding check_counts validate_group
new_layout_template key counts root =
    refuse_if (not (valid_revision key.revision) || key.model_id == 0) key_invalid
    >> (check_counts [] [] counts >>= λ names.
        refuse_if (bad_root root) root_invalid
        >> validate_group names true 0 root
        >> ok (record { key = key; counts = counts; root = root }))
