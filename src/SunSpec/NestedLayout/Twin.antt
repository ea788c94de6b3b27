-- ===== src/SunSpec/NestedLayout/Twin.antt =====
-- A walk that materialises against one that only counts.
use helianthus_modbusreg.Base.{
  ℕ, zero, suc, ◌+◌, ◌≤◌, ◌≡◌, refl, sym, ap, subst, ◌∙◌, Bool, true, false, none, some, List, [],
  ◌∷◌, ◌++◌, Result, ok, err, ◌>>=◌, append_assoc, append-nil, length, length-append, take, drop,
  Result-cases, inl, inr, arith,
}
use helianthus_modbusreg.SunSpec.{SunSpecSourceSpan}
use helianthus_modbusreg.SunSpec.SourceRange.{SunSpecOccurrenceSourceRange}
use helianthus_modbusreg.SunSpec.SourceRange.Words.{positions}
use helianthus_modbusreg.SunSpec.NestedLayout.{
  NestedLayoutEntry, LayoutError, index_exceeds_bounds, field_exceeds_occurrence,
  entry_count_exceeds_bounds,
}
use helianthus_modbusreg.SunSpec.NestedLayout.Build.{LayoutWalk, repeat_from}

abbrev pub counting : ℕ → ℕ → LayoutWalk
counting o k = record { offset = o; entry_count = k; entries = none }

abbrev pub emitting : ℕ → ℕ → List NestedLayoutEntry → LayoutWalk
emitting o k es = record { offset = o; entry_count = k; entries = some es }

-- The errors that a counting walk can give.
abbrev pub counting_error : LayoutError → Bool
counting_error index_exceeds_bounds = true
counting_error field_exceeds_occurrence = true
counting_error entry_count_exceeds_bounds = true
counting_error _ = false

module _ (spans : List SunSpecSourceSpan) where
  -- A range of at least one word that names the occurrence's words at its place.
  pub record IsPart (r : SunSpecOccurrenceSourceRange) : Type 0 where
    pub some_word : 1 ≤ r.word_count
    pub named : positions r.spans ≡ take r.word_count (drop r.offset (positions spans))

  -- Parts in order from one word to another: each starts where the last one ended, or after it.
  unfoldable pub Placed : ℕ → List NestedLayoutEntry → ℕ → Type 0
  Placed o [] end' = o ≤ end'
  Placed o (e ∷ es) end' =
      (o ≤ e.source_range.offset)
      × IsPart e.source_range
      × Placed (e.source_range.offset + e.source_range.word_count) es end'

  Placed-later :
      (o o' : ℕ) (es : List NestedLayoutEntry) (end' : ℕ)
      → o ≤ o'
      → Placed o' es end'
      → Placed o es end'
  unfolding Placed
  Placed-later o o' [] end' h p = omega (arith, p)
  Placed-later o o' (e ∷ es) end' h (from, part, rest) = (omega (arith, from), part, rest)

  Placed-append :
      (o m : ℕ) (es : List NestedLayoutEntry) (end' : ℕ) (fs : List NestedLayoutEntry)
      → Placed o es m
      → Placed m fs end'
      → Placed o (es ++ fs) end'
  unfolding Placed
  Placed-append o m [] end' fs p q = Placed-later o m fs end' p q
  Placed-append o m (e ∷ es) end' fs (from, part, rest) q = (
    from,
    part,
    Placed-append (e.source_range.offset + e.source_range.word_count) m es end' fs rest q,
  )

  module _ (words : ℕ) where
    -- What a counting walk from `o` and `k` to `v` says of the emitting one: it ends at the same word,
    -- and adds the counted number of entries, placed between the words.
    pub record Twin (W : LayoutWalk → Result LayoutError LayoutWalk) (o k : ℕ) (v : LayoutWalk)
        : Type 0 where
      pub still_counting : v.entries ≡ none
      pub inside : v.offset ≤ words
      pub few : v.entry_count ≤ words
      pub new : List NestedLayoutEntry
      pub counted : k + length new ≡ v.entry_count
      pub placed : Placed o new v.offset
      pub made :
          (es : List NestedLayoutEntry) (j : ℕ)
          → W (emitting o j es) ≡ ok (emitting v.offset j (es ++ new))

    unfoldable pub Simulates : (LayoutWalk → Result LayoutError LayoutWalk) → Type 0
    Simulates W =
        (o k : ℕ)
        → o ≤ words
        → k ≤ words
        → ((v : LayoutWalk) → W (counting o k) ≡ ok v → Twin W o k v)
          × ((e : LayoutError) → W (counting o k) ≡ err e → counting_error e ≡ true)

    pub Simulates-ok : Simulates (λ w. ok w)
    unfolding Simulates Placed
    Simulates-ok = λ o k inside few. (
      λ v h.
          let same : counting o k ≡ v = cc h in
          subst (Twin (λ w. ok w) o k) same (record {
            still_counting = refl;
            inside = inside;
            few = few;
            new = [];
            counted = omega arith;
            placed = omega arith;
            made = λ es j. ap (λ l. ok (emitting o j l)) (sym (append-nil es));
          }),
      λ e h. absurd (cc h),
    )

    -- A walk that is refused by an error of counting walks.
    pub Simulates-err : (e : LayoutError) → counting_error e ≡ true → Simulates (λ w. err e)
    unfolding Simulates
    Simulates-err e known = λ o k inside few. (
      λ v h. absurd (cc h),
      λ f h. let same : e ≡ f = cc h in subst (λ a. counting_error a ≡ true) same known,
    )

    pub Simulates-then :
        (V W : LayoutWalk → Result LayoutError LayoutWalk)
        → Simulates V
        → Simulates W
        → Simulates (λ w. V w >>= W)
    unfolding Simulates
    Simulates-then V W sv sw = λ o k inside few. elim (Result-cases (V (counting o k))) [
      | inr (e, q) ↦ (
        λ v h. absurd (grind (arith, q, h)),
        λ f h.
            let same : e ≡ f = grind (arith, q, h) in
            subst (λ a. counting_error a ≡ true) same ((sv o k inside few).1 e q),
      )
      | inl (m, q) ↦
          let t = (sv o k inside few).0 m q in
          let at : m ≡ counting m.offset m.entry_count =
            ap (λ a. record m { entries = a }) t.still_counting in
          let onward : (V (counting o k) >>= W) ≡ W (counting m.offset m.entry_count) =
            ap (λ r. r >>= W) q ∙ ap W at in
          let s = sw m.offset m.entry_count t.inside t.few in
          (
            λ v h.
                let u = s.0 v (sym onward ∙ h) in
                record {
                  still_counting = u.still_counting;
                  inside = u.inside;
                  few = u.few;
                  new = t.new ++ u.new;
                  counted = omega (arith, length-append t.new u.new, t.counted, u.counted);
                  placed = Placed-append o m.offset t.new v.offset u.new t.placed u.placed;
                  made = λ es j.
                      ap (λ r. r >>= W) (t.made es j)
                      ∙ u.made (es ++ t.new) j
                      ∙ ap (λ l. ok (emitting v.offset j l)) (append_assoc es t.new u.new);
                },
            λ e h. s.1 e (sym onward ∙ h),
          )
    ]

    pub Simulates-repeat :
        (body : ℕ → LayoutWalk → Result LayoutError LayoutWalk)
        → ((occurrence : ℕ) → Simulates (body occurrence))
        → (n occurrence : ℕ) → Simulates (repeat_from n occurrence body)
    Simulates-repeat body each zero occurrence = Simulates-ok
    Simulates-repeat body each (suc n) occurrence =
        Simulates-then (body occurrence) (repeat_from n (occurrence + 1) body) (each occurrence)
          (Simulates-repeat body each n (occurrence + 1))
