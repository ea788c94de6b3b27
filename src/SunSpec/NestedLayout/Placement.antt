-- ===== src/SunSpec/NestedLayout/Placement.antt =====
-- What the layout of an occurrence holds, and which errors its construction cannot give.
use helianthus_modbusreg.Base.{
  ℕ, ◌+◌, ◌^◌, ◌≤◌, ◌<◌, ◌≡◌, ◌≢◌, sym, ap, subst, Bool, true, false, Option, List, [], ◌∷◌, ok,
  err, All, length, get_elem?, Result-cases, Bool-cases, inl, inr, arith,
}
use helianthus_modbusreg.SunSpec.{SunSpecSourceSpan}
use helianthus_modbusreg.SunSpec.FactPath.{PathError}
use helianthus_modbusreg.SunSpec.SourceRange.{u32, RangeError}
use helianthus_modbusreg.SunSpec.SourceRange.Words
use helianthus_modbusreg.SunSpec.SourceRange.Words.{InType, IsSpan, bad_span-IsSpan}
use helianthus_modbusreg.SunSpec.NestedLayout.{
  NestedTemplateKey, NestedCountSpec, NestedLayoutField, LayoutGroup, LayoutGroups, group,
  no_groups, and_group, NestedLayoutTemplate, NestedLayoutEntry, NestedOccurrenceLayout,
  LayoutError, materialization_inconsistent, fact_path, source_range, check_fields, check_counts,
  validate_group, validate_groups, new_layout_template,
}
use helianthus_modbusreg.SunSpec.NestedLayout.Build.{
  Counts, cover_spans, validate_occurrence_spans, count_value, resolve_counts, bad_header, walk,
  materialized, two_walks, build_occurrence_layout,
}
use helianthus_modbusreg.SunSpec.NestedLayout.Twin.{counting, counting_error, Placed, Simulates}
use helianthus_modbusreg.SunSpec.NestedLayout.Walks.{
  IsLayoutField, IsGroup, AreGroups, root-Simulates,
}

check_fields-IsLayoutField :
    (fs : List NestedLayoutField) → check_fields fs ≡ ok tt → All IsLayoutField fs
unfolding check_fields
check_fields-IsLayoutField [] h = tt
check_fields-IsLayoutField (f ∷ fs) h = (
  record { field_named = ground arith; some_word = ground arith },
  check_fields-IsLayoutField fs (ground arith),
)

mutual
  unfolding validate_group IsGroup

  validate_group-IsGroup :
      (names : List (List ℕ)) (is_root : Bool) (depth : ℕ) (g : LayoutGroup)
      → validate_group names is_root depth g ≡ ok tt
      → IsGroup g
  validate_group-IsGroup names is_root depth (group name repeat_count index_base fields children)
        h =
      (
        check_fields-IsLayoutField fields (ground arith),
        validate_groups-AreGroups names (depth + 1) children (ground arith),
      )

  validate_groups-AreGroups :
      (names : List (List ℕ)) (depth : ℕ) (gs : LayoutGroups)
      → validate_groups names depth gs ≡ ok tt
      → AreGroups gs
  validate_groups-AreGroups names depth no_groups h = tt
  validate_groups-AreGroups names depth (and_group g gs) h = (
    validate_group-IsGroup names false depth g (ground arith),
    validate_groups-AreGroups names depth gs (ground arith),
  )

new_layout_template-IsGroup :
    (key : NestedTemplateKey) (counts : List NestedCountSpec) (root : LayoutGroup)
    (t : NestedLayoutTemplate)
    → new_layout_template key counts root ≡ ok t
    → IsGroup t.root
unfolding new_layout_template
new_layout_template-IsGroup key counts root t h = elim (Result-cases (check_counts [] [] counts)) [
  | inr (e, q) ↦ absurd (ground (arith, q, h))
  | inl (names, q) ↦
      let kept : root ≡ t.root = ground (arith, q, h) in
      subst IsGroup kept (validate_group-IsGroup names true 0 root (ground (arith, q, h)))
]

cover_spans-IsSpan :
    (expected total : ℕ) (ss : List SunSpecSourceSpan) (t : ℕ)
    → expected ≤ 65536
    → total ≤ expected
    → All InType ss
    → cover_spans expected total ss ≡ ok t
    → All IsSpan ss × (t ≡ total + Words.words ss)
unfolding cover_spans
cover_spans-IsSpan expected total [] t small below h q = (tt, ground arith)
cover_spans-IsSpan expected total (s ∷ ss) t small below h q =
    let good : IsSpan s = bad_span-IsSpan s h.0 (ground arith) in
    let room : total + s.word_count ≤ expected = ground arith in
    let m : u32 (total + s.word_count) ≡ total + s.word_count = omega (arith, room) in
    let (goods, sum) =
      cover_spans-IsSpan expected (u32 (total + s.word_count)) ss t small (omega (arith, m, room))
        h.1 (ground arith) in
    ((good, goods), omega (arith, m, sum))

validate_occurrence_spans-IsSpan :
    (ss : List SunSpecSourceSpan) (expected : ℕ)
    → expected ≤ 65536
    → All InType ss
    → validate_occurrence_spans ss expected ≡ ok tt
    → All IsSpan ss × (Words.words ss ≡ expected)
unfolding validate_occurrence_spans
validate_occurrence_spans-IsSpan ss expected small h q =
    elim (Result-cases (cover_spans expected 0 ss)) [
      | inr (e, c) ↦ absurd (ground (arith, c, q))
      | inl (t, c) ↦
          let (goods, sum) = cover_spans-IsSpan expected 0 ss t small (omega arith) h c in
          let met : t ≡ expected = ground (arith, c, q) in (goods, omega (arith, sum, met))
    ]

-- The errors that say that the code contradicts itself.
abbrev pub self_contradiction : LayoutError → Bool
self_contradiction materialization_inconsistent = true
self_contradiction (fact_path e) = true
self_contradiction (source_range e) = true
self_contradiction _ = false

counting_known : (e : LayoutError) → counting_error e ≡ true → self_contradiction e ≡ false
counting_known e h = ground arith

module _ (counts : Counts) (words : ℕ) (spans : List SunSpecSourceSpan) (root : LayoutGroup)
    (good_spans : All IsSpan spans) (covered : Words.words spans ≡ words) (bound : words ≤ 65536)
    (good : IsGroup root) where
  -- Either the first walk refuses, or both end as one.
  two_walks-Placed :
      (es : List NestedLayoutEntry)
      → two_walks counts words spans root ≡ ok es
      → Placed spans 0 es words
  unfolding two_walks materialized Simulates
  two_walks-Placed es h =
      let s =
        root-Simulates counts words spans good_spans covered bound root good 0 0 (omega arith)
          (omega arith) in
      elim (Result-cases (walk counts words spans root [] (counting 0 0))) [
        | inr (e, q) ↦ absurd (ground (arith, q, h))
        | inl (v, q) ↦
            let t = s.0 v q in
            let second = t.made [] 0 in
            let at_end : v.offset ≡ words = ground (arith, q, h) in
            let same : t.new ≡ es = ground (arith, q, second, h) in
            subst (λ l. Placed spans 0 l words) same (subst (Placed spans 0 t.new) at_end t.placed)
      ]

  two_walks_errors :
      (e : LayoutError) → two_walks counts words spans root ≡ err e → self_contradiction e ≡ false
  unfolding two_walks materialized Simulates
  two_walks_errors e h =
      let s =
        root-Simulates counts words spans good_spans covered bound root good 0 0 (omega arith)
          (omega arith) in
      elim (Result-cases (walk counts words spans root [] (counting 0 0))) [
        | inr (f, q) ↦
            let same : f ≡ e = ground (arith, q, h) in
            subst (λ a. self_contradiction a ≡ false) same (counting_known f (s.1 f q))
        | inl (v, q) ↦
            let t = s.0 v q in
            let second = t.made [] 0 in
            let few : u32 (length t.new) ≡ v.entry_count = omega (arith, t.counted, t.few) in
            ground (arith, q, second, few, h)
      ]

cover_error :
    (expected total : ℕ) (ss : List SunSpecSourceSpan) (e : LayoutError)
    → cover_spans expected total ss ≡ err e
    → self_contradiction e ≡ false
unfolding cover_spans
cover_error expected total [] e h = absurd (cc h)
cover_error expected total (s ∷ ss) e h =
    ground (arith, cover_error expected (u32 (total + s.word_count)) ss e)

spans_error :
    (ss : List SunSpecSourceSpan) (expected : ℕ) (e : LayoutError)
    → validate_occurrence_spans ss expected ≡ err e
    → self_contradiction e ≡ false
unfolding validate_occurrence_spans
spans_error ss expected e h = ground (arith, cover_error expected 0 ss e)

value_error :
    (spec : NestedCountSpec) (words : List ℕ) (o : Option ℕ) (counts : Counts) (e : LayoutError)
    → count_value spec words o counts ≡ err e
    → self_contradiction e ≡ false
unfolding count_value
value_error spec words o counts e h = ground arith

counts_error :
    (counts : Counts) (specs : List NestedCountSpec) (words : List ℕ) (e : LayoutError)
    → resolve_counts counts specs words ≡ err e
    → self_contradiction e ≡ false
unfolding resolve_counts
counts_error counts [] words e h = absurd (cc h)
counts_error counts (spec ∷ specs) words e h =
    elim (Result-cases
      (count_value spec words (get_elem? words spec.occurrence_word_offset) counts)) [
        | inr (f, q) ↦
            let same : f ≡ e = grind (arith, q, h) in
            subst (λ a. self_contradiction a ≡ false) same
              (value_error spec words (get_elem? words spec.occurrence_word_offset) counts f q)
        | inl (counts', q) ↦ counts_error counts' specs words e (grind (arith, q, h))
      ]

bad_header-small :
    (model_id : ℕ) (words : List ℕ) → bad_header model_id words ≡ false → u32 (length words) ≤ 65536
bad_header-small model_id [] h = absurd (cc h)
bad_header-small model_id (id ∷ []) h = absurd (cc h)
bad_header-small model_id (id ∷ declared ∷ rest) h = ground arith

module _ (key : NestedTemplateKey) (count_specs : List NestedCountSpec) (root : LayoutGroup)
    (t : NestedLayoutTemplate) (words : List ℕ) (spans : List SunSpecSourceSpan)
    (made : new_layout_template key count_specs root ≡ ok t) (typed : All InType spans)
    (long : length words < 2 ^ 32) where
  -- The layout of an occurrence has the template's key, and its entries are in order inside the
  -- occurrence and disjoint: each has at least one word, starts where the last one ended or later,
  -- and its spans name exactly the words of the occurrence's spans at its place. The template is
  -- constructed, and the spans have fields of type uint16.
  pub build_occurrence_layout-Placed :
      (layout : NestedOccurrenceLayout)
      → build_occurrence_layout t words spans ≡ ok layout
      → (layout.key ≡ t.key) × Placed spans 0 layout.entries (length words)
  unfolding build_occurrence_layout
  build_occurrence_layout-Placed layout h = elim (Result-cases (resolve_counts [] t.counts words)) [
    | inr (e, c) ↦ absurd (ground (arith, c, h))
    | inl (counts, c) ↦ elim (Result-cases (two_walks counts (u32 (length words)) spans t.root)) [
      | inr (e, q) ↦ absurd (ground (arith, c, q, h))
      | inl (es, q) ↦
          let small = bad_header-small t.key.model_id words (ground (arith, c, q, h)) in
          let (goods, covered) =
            validate_occurrence_spans-IsSpan spans (u32 (length words)) small typed
              (ground (arith, c, q, h)) in
          let placed =
            two_walks-Placed counts (u32 (length words)) spans t.root goods covered small
              (new_layout_template-IsGroup key count_specs root t made) es q in
          let exact : u32 (length words) ≡ length words = omega (arith, long) in
          let same : record { key = t.key; entries = es } ≡ layout = ground (arith, c, q, h) in
          (
            ap (λ l. l.key) (sym same),
            subst (λ l. Placed spans 0 l (length words)) (ap (λ l. l.entries) same)
                (subst (Placed spans 0 es) exact placed),
          )
    ]
  ]

  build_error :
      (e : LayoutError)
      → build_occurrence_layout t words spans ≡ err e
      → self_contradiction e ≡ false
  unfolding build_occurrence_layout
  build_error e h = elim (Bool-cases (bad_header t.key.model_id words)) [
    | inl bad ↦ ground (arith, bad, h)
    | inr fine ↦ elim (Result-cases (validate_occurrence_spans spans (u32 (length words)))) [
      | inr (f, v) ↦
          let same : f ≡ e = ground (arith, fine, v, h) in
          subst (λ a. self_contradiction a ≡ false) same
            (spans_error spans (u32 (length words)) f v)
      | inl (u, v) ↦ elim (Result-cases (resolve_counts [] t.counts words)) [
        | inr (f, c) ↦
            let same : f ≡ e = ground (arith, fine, v, c, h) in
            subst (λ a. self_contradiction a ≡ false) same (counts_error [] t.counts words f c)
        | inl (counts, c) ↦
            let small = bad_header-small t.key.model_id words fine in
            let (goods, covered) =
              validate_occurrence_spans-IsSpan spans (u32 (length words)) small typed v in
            two_walks_errors counts (u32 (length words)) spans t.root goods covered small
              (new_layout_template-IsGroup key count_specs root t made) e
              (ground (arith, fine, v, c, h))
      ]
    ]
  ]

  -- The construction of a layout never ends with the error that the second walk differs from the
  -- first, nor with an error of a path or a source range: a walk that counts its entries within the
  -- occurrence also materialises them. The template is constructed, and the spans are of type uint16.
  pub build_occurrence_layout_consistent :
      (e : LayoutError)
      → build_occurrence_layout t words spans ≡ err e
      → (e ≢ materialization_inconsistent)
        × ((p : PathError) → e ≢ fact_path p)
        × ((r : RangeError) → e ≢ source_range r)
  unfolding build_occurrence_layout validate_occurrence_spans
  build_occurrence_layout_consistent e h =
      let harmless : self_contradiction e ≡ false = build_error e h in
      (
        λ q. cc (harmless, ap self_contradiction q),
        λ p q. cc (harmless, ap self_contradiction q),
        λ r q. cc (harmless, ap self_contradiction q),
      )
