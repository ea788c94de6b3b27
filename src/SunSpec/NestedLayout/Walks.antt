-- ===== src/SunSpec/NestedLayout/Walks.antt =====
-- Every walk over a validated group emits what it counted, in place.
use helianthus_modbusreg.Base.{
  ℕ, ◌+◌, ◌^◌, ◌≤◌, ◌<◌, ◌≡◌, refl, sym, ap, ap₂, subst, ◌∙◌, true, false, not, ◌&&◌, ◌||◌, List,
  [], ◌∷◌, ◌++◌, Result, ok, err, ltb, ◌==◌, ◌>>=◌, All, All-append, All-mono, ◌⊎◌, append-nil,
  length, length-append, take, drop, Bool-cases, inl, inr, arith,
}
use helianthus_modbusreg.SunSpec.{SunSpecSourceSpan}
use helianthus_modbusreg.SunSpec.FactPath.{SunSpecFactPathSegment, check_segments, new_fact_path}
use helianthus_modbusreg.SunSpec.SourceRange.{
  u32, u32_minus, SunSpecOccurrenceSourceRange, source_range_from_spans,
}
use helianthus_modbusreg.SunSpec.SourceRange.Words
use helianthus_modbusreg.SunSpec.SourceRange.Words.{positions, InType, IsSpan}
use helianthus_modbusreg.SunSpec.SourceRange.Slice.{
  source_range_from_spans_iff, source_range_from_spans-positions,
}
use helianthus_modbusreg.SunSpec.NestedLayout.{
  NestedLayoutField, LayoutGroup, LayoutGroups, group, no_groups, and_group, NestedLayoutEntry,
  LayoutError,
}
use helianthus_modbusreg.SunSpec.NestedLayout.Build.{
  LayoutWalk, Counts, repetitions, group_path, emit_field, walk_field, walk_fields, walk,
  walk_children,
}
use helianthus_modbusreg.SunSpec.NestedLayout.Twin.{
  counting, emitting, counting_error, IsPart, Placed, Twin, Simulates, Simulates-ok, Simulates-err,
  Simulates-then, Simulates-repeat,
}

-- A segment that the constructor of paths accepts.
pub record IsSegment (s : SunSpecFactPathSegment) : Type 0 where
  pub segment_named : (length s.name == 0) ≡ false
  pub index_used : (not s.indexed && not (s.index == 0)) ≡ false

pub record IsLayoutField (f : NestedLayoutField) : Type 0 where
  pub field_named : (length f.name == 0) ≡ false
  pub some_word : 1 ≤ f.word_count

unfoldable mutual
  pub AreGroups : LayoutGroups → Type 0
  AreGroups no_groups = Unit
  AreGroups (and_group g gs) = IsGroup g × AreGroups gs

  pub IsGroup : LayoutGroup → Type 0
  IsGroup (group name repeat_count index_base fields children) =
      All IsLayoutField fields × AreGroups children

check_segments-IsSegment :
    (ss : List SunSpecFactPathSegment) → All IsSegment ss → check_segments ss ≡ ok tt
unfolding check_segments
check_segments-IsSegment [] h = refl
check_segments-IsSegment (s ∷ ss) h =
    grind (arith, h.0.segment_named, h.0.index_used, check_segments-IsSegment ss h.1)

abbrev field_segment : NestedLayoutField → SunSpecFactPathSegment
field_segment f = record { name = f.name; index = 0; indexed = false }

field_fact_path :
    (path : List SunSpecFactPathSegment) (f : NestedLayoutField)
    → All IsSegment path
    → IsLayoutField f
    → new_fact_path (path ++ (field_segment f ∷ []))
      ≡ ok (record { segments = path ++ (field_segment f ∷ []) })
unfolding new_fact_path
field_fact_path path f h j =
    let last : IsSegment (field_segment f) = record {
      segment_named = j.field_named;
      index_used = refl;
    } in
    let all_good =
      check_segments-IsSegment (path ++ (field_segment f ∷ []))
        (All-append IsSegment path (field_segment f ∷ []) h (last, tt)) in
    let some_segment : (length (path ++ (field_segment f ∷ [])) == 0) ≡ false =
      ground (arith, length-append path (field_segment f ∷ [])) in
    simp (some_segment, all_good) refl

IsSpan-InType : (ss : List SunSpecSourceSpan) → All IsSpan ss → All InType ss
IsSpan-InType ss h = All-mono ss (λ s g. g.in_type) h

module _ (counts : Counts) (words : ℕ) (spans : List SunSpecSourceSpan)
    (good_spans : All IsSpan spans) (covered : Words.words spans ≡ words)
    (bound : words ≤ 65536) where
  IsPart-found :
      (o w : ℕ)
      → 1 ≤ w
      → o + w ≤ words
      → (r : SunSpecOccurrenceSourceRange) × (source_range_from_spans o w spans ≡ ok r)
        × (r.offset ≡ o)
        × (r.word_count ≡ w)
        × IsPart spans r
  IsPart-found o w some_word inside =
      let types = IsSpan-InType spans good_spans in
      let small : o < 2 ^ 32 = omega arith in
      let small' : w < 2 ^ 32 = omega arith in
      let (r, made) = (source_range_from_spans_iff o w spans small small' types).1 (record {
        all_spans = good_spans;
        extent = omega arith;
        some_words = some_word;
        inside = omega arith;
      }) in
      let (at, size, named) =
        source_range_from_spans-positions o w spans r small small' types made in
      (
        r,
        made,
        at,
        size,
        record {
          some_word = omega (arith, size);
          named = named ∙ ap₂ (λ a b. take a (drop b (positions spans))) (sym size) (sym at);
        },
      )

  -- A field is refused, or it fits and is counted where it is emitted.
  fits :
      (path : List SunSpecFactPathSegment) (f : NestedLayoutField) (o k : ℕ) (v : LayoutWalk)
      → o ≤ words
      → walk_field counts words spans path f (counting o k) ≡ ok v
      → (o + f.word_count ≤ words)
        × (((f.emit ≡ false) × (v ≡ counting (o + f.word_count) k))
            ⊎ ((f.emit ≡ true) × (k < words) × (v ≡ counting (o + f.word_count) (u32 (k + 1)))))
  unfolding walk_field emit_field
  fits path f o k v inside h =
      let room : o + f.word_count ≤ words = ground arith in
      let next : u32 (o + f.word_count) ≡ o + f.word_count = omega arith in
      (
        room,
        elim (Bool-cases f.emit) [
          | inl shown ↦ inr (shown, ground arith, ground (arith, next))
          | inr unseen ↦ inl (unseen, ground (arith, next))
        ],
      )

  field_error :
      (path : List SunSpecFactPathSegment) (f : NestedLayoutField) (o k : ℕ) (e : LayoutError)
      → walk_field counts words spans path f (counting o k) ≡ err e
      → counting_error e ≡ true
  unfolding walk_field emit_field
  field_error path f o k e h = ground arith

  in_room :
      (f : NestedLayoutField) (o : ℕ)
      → o + f.word_count ≤ words
      → (ltb words o || ltb (u32_minus words o) f.word_count) ≡ false
  in_room f o room = ground arith

  passed :
      (path : List SunSpecFactPathSegment) (f : NestedLayoutField) (o j : ℕ)
      (es : List NestedLayoutEntry)
      → o + f.word_count ≤ words
      → f.emit ≡ false
      → walk_field counts words spans path f (emitting o j es)
        ≡ ok (emitting (o + f.word_count) j es)
  unfolding walk_field
  passed path f o j es room unseen =
      let next : u32 (o + f.word_count) ≡ o + f.word_count = omega arith in
      simp (in_room f o room, unseen, next) refl

  abbrev entry_of :
      NestedLayoutField
      → List SunSpecFactPathSegment
      → SunSpecOccurrenceSourceRange
      → NestedLayoutEntry
  entry_of f path r = record {
    path = record { segments = path ++ (field_segment f ∷ []) };
    source_range = r;
    has_value_metadata = f.has_value_metadata;
    value_metadata = f.value_metadata;
  }

  emitted :
      (path : List SunSpecFactPathSegment) (f : NestedLayoutField) (o j : ℕ)
      (es : List NestedLayoutEntry) (r : SunSpecOccurrenceSourceRange)
      → o + f.word_count ≤ words
      → f.emit ≡ true
      → All IsSegment path
      → IsLayoutField f
      → source_range_from_spans o f.word_count spans ≡ ok r
      → walk_field counts words spans path f (emitting o j es)
        ≡ ok (emitting (o + f.word_count) j (es ++ (entry_of f path r ∷ [])))
  unfolding walk_field emit_field
  emitted path f o j es r room shown good_path good q =
      let next : u32 (o + f.word_count) ≡ o + f.word_count = omega arith in
      simp (in_room f o room, shown, next, field_fact_path path f good_path good, q) refl

  walk_field-Simulates :
      (path : List SunSpecFactPathSegment) (f : NestedLayoutField)
      → All IsSegment path
      → IsLayoutField f
      → Simulates spans words (walk_field counts words spans path f)
  unfolding Simulates Placed
  walk_field-Simulates path f good_path good = λ o k inside few. (
    λ v h.
        let (room, how) = fits path f o k v inside h in
        elim how [
          | inl (unseen, same) ↦
              subst (Twin spans words (walk_field counts words spans path f) o k) (sym same)
                (record {
                  still_counting = refl;
                  inside = room;
                  few = few;
                  new = [];
                  counted = omega arith;
                  placed = omega arith;
                  made = λ es j.
                      passed path f o j es room unseen
                      ∙ ap (λ l. ok (emitting (o + f.word_count) j l)) (sym (append-nil es));
                })
          | inr (shown, more, same) ↦
              let (r, q, at, size, part) = IsPart-found o f.word_count good.some_word room in
              subst (Twin spans words (walk_field counts words spans path f) o k) (sym same)
                (record {
                  still_counting = refl;
                  inside = room;
                  few = omega (arith, more);
                  new = entry_of f path r ∷ [];
                  counted = omega (arith, more);
                  placed = (omega (arith, at), part, omega (arith, at, size));
                  made = λ es j. emitted path f o j es r room shown good_path good q;
                })
        ],
    λ e h. field_error path f o k e h,
  )

  walk_fields-Simulates :
      (path : List SunSpecFactPathSegment) (fs : List NestedLayoutField)
      → All IsSegment path
      → All IsLayoutField fs
      → Simulates spans words (walk_fields counts words spans path fs)
  unfolding walk_fields
  walk_fields-Simulates path [] good_path good = Simulates-ok spans words
  walk_fields-Simulates path (f ∷ fs) good_path good =
      Simulates-then spans words (walk_field counts words spans path f)
        (walk_fields counts words spans path fs) (walk_field-Simulates path f good_path good.0)
        (walk_fields-Simulates path fs good_path good.1)

  group_path-IsSegment :
      (name repeat_count : List ℕ) (index_base : ℕ) (parent : List SunSpecFactPathSegment)
      (occurrence : ℕ) (path : List SunSpecFactPathSegment)
      → All IsSegment parent
      → group_path counts words spans name repeat_count index_base parent occurrence ≡ ok path
      → All IsSegment path
  unfolding group_path
  group_path-IsSegment name repeat_count index_base parent occurrence path good h =
      elim (Bool-cases (length name == 0)) [
        | inl none_given ↦
            let same : parent ≡ path = grind (arith, none_given, h) in
            subst (All IsSegment) same good
        | inr named ↦ elim (Bool-cases (length repeat_count == 0)) [
          | inl once ↦
              let same : parent ++ (record { name = name; index = 0; indexed = false } ∷ [])
                  ≡ path =
                grind (arith, named, once, h) in
              subst (All IsSegment) same (
                All-append IsSegment parent _ good
                  (record { segment_named = named; index_used = refl }, tt))
          | inr many ↦
              let same : parent
                    ++ (record {
                      name = name;
                      index = u32 (index_base + occurrence);
                      indexed = true;
                    }
                        ∷ [])
                  ≡ path =
                ground (arith, named, many, h) in
              subst (All IsSegment) same (
                All-append IsSegment parent _ good
                  (record { segment_named = named; index_used = refl }, tt))
        ]
      ]

  group_path_error :
      (name repeat_count : List ℕ) (index_base : ℕ) (parent : List SunSpecFactPathSegment)
      (occurrence : ℕ) (e : LayoutError)
      → group_path counts words spans name repeat_count index_base parent occurrence ≡ err e
      → counting_error e ≡ true
  unfolding group_path
  group_path_error name repeat_count index_base parent occurrence e h = ground arith

  -- The walk of a repetition after its path.
  after_path-Simulates :
      (W : List SunSpecFactPathSegment → LayoutWalk → Result LayoutError LayoutWalk)
      → ((path : List SunSpecFactPathSegment) → All IsSegment path → Simulates spans words (W path))
      → (r : Result LayoutError (List SunSpecFactPathSegment))
      → ((path : List SunSpecFactPathSegment) → r ≡ ok path → All IsSegment path)
      → ((e : LayoutError) → r ≡ err e → counting_error e ≡ true)
      → Simulates spans words (λ v. r >>= λ path. W path v)
  after_path-Simulates W each (ok path) good known = each path (good path refl)
  after_path-Simulates W each (err e) good known = Simulates-err spans words e (known e refl)

  mutual
    unfolding walk IsGroup

    walk-Simulates :
        (g : LayoutGroup) (parent : List SunSpecFactPathSegment)
        → IsGroup g
        → All IsSegment parent
        → Simulates spans words (walk counts words spans g parent)
    walk-Simulates (group name repeat_count index_base fields children) parent good good_parent =
        Simulates-repeat spans words
          (λ occurrence v.
            group_path counts words spans name repeat_count index_base parent occurrence >>= λ path.
            (walk_fields counts words spans path fields v >>= λ v'.
            walk_children counts words spans children path v'))
          (λ occurrence.
            after_path-Simulates
              (λ path v. walk_fields counts words spans path fields v >>= λ v'.
                walk_children counts words spans children path v')
              (λ path good_path.
                Simulates-then spans words (walk_fields counts words spans path fields)
                  (walk_children counts words spans children path)
                  (walk_fields-Simulates path fields good_path good.0)
                  (walk_children-Simulates children path good.1 good_path))
              (group_path counts words spans name repeat_count index_base parent occurrence)
              (λ path.
                group_path-IsSegment name repeat_count index_base parent occurrence path
                  good_parent)
              (λ e. group_path_error name repeat_count index_base parent occurrence e))
          (repetitions counts words spans repeat_count) 0

    walk_children-Simulates :
        (gs : LayoutGroups) (path : List SunSpecFactPathSegment)
        → AreGroups gs
        → All IsSegment path
        → Simulates spans words (walk_children counts words spans gs path)
    walk_children-Simulates no_groups path good good_path = Simulates-ok spans words
    walk_children-Simulates (and_group g gs) path good good_path =
        Simulates-then spans words (walk counts words spans g path)
          (walk_children counts words spans gs path) (walk-Simulates g path good.0 good_path)
          (walk_children-Simulates gs path good.1 good_path)

  -- Outside the block.
  pub root-Simulates :
      (g : LayoutGroup) → IsGroup g → Simulates spans words (walk counts words spans g [])
  root-Simulates g good = walk-Simulates g [] good tt
