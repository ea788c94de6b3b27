-- ===== src/SunSpec/SourceRange/Words.antt =====
-- The words that spans name, their number, and what the loops over spans make of it.
use helianthus_modbusreg.Base.{
  ℕ, zero, suc, ◌+◌, ◌-◌, ◌*◌, ◌^◌, ◌≤◌, ◌<◌, ◌≡◌, ◌≢◌, refl, ap, ap₂, subst, ◌∙◌, false, List, [],
  ◌∷◌, ◌++◌, ok, ltb, All, length, length-append, take, drop, take-append, drop-append,
  Result-cases, inl, inr, arith,
}
use helianthus_modbusreg.SunSpec.{SunSpecSourceSpan}
use helianthus_modbusreg.SunSpec.SourceRange.{
  u32, u32_minus, RangeError, spans_exceed_range, bad_span, add_spans, SunSpecOccurrenceSourceRange,
  new_source_range,
}

-- The `n` words of one physical response from `p` on.
abbrev pub run : ℕ → ℕ → ℕ → List (ℕ × ℕ)
run v p zero = []
run v p (suc n) = (v, p) ∷ run v (suc p) n

-- The words that spans name, in order: the response of each and its place there.
abbrev pub positions : List SunSpecSourceSpan → List (ℕ × ℕ)
positions [] = []
positions (s ∷ ss) = run s.logical_view_id s.pdu_offset s.word_count ++ positions ss

abbrev pub words : List SunSpecSourceSpan → ℕ
words [] = 0
words (s ∷ ss) = s.word_count + words ss

-- The fields are of the type uint16.
pub record InType (s : SunSpecSourceSpan) : Type 0 where
  pub offset_small : s.pdu_offset < 65536
  pub count_small : s.word_count < 65536

-- A span that names words of a response, inside the largest one.
pub record IsSpan (s : SunSpecSourceSpan) : Type 0 where
  pub in_type : InType s
  pub named : s.logical_view_id ≢ 0
  pub some_word : 1 ≤ s.word_count
  pub in_response : s.pdu_offset + s.word_count ≤ 65536

pub bad_span-IsSpan : (s : SunSpecSourceSpan) → InType s → bad_span s ≡ false → IsSpan s
unfolding bad_span
bad_span-IsSpan s t h = record {
  in_type = t;
  named = ground arith;
  some_word = ground arith;
  in_response = ground arith;
}

IsSpan-bad_span : (s : SunSpecSourceSpan) → IsSpan s → bad_span s ≡ false
unfolding bad_span
IsSpan-bad_span s h = ground arith

-- The loop accepts spans whose words stay within the limit, and counts them.
pub add_spans-words :
    (limit : ℕ) (e : RangeError) (total : ℕ) (ss : List SunSpecSourceSpan)
    → limit ≤ 65536
    → All IsSpan ss
    → total + words ss ≤ limit
    → add_spans limit e total ss ≡ ok (total + words ss)
unfolding add_spans
add_spans-words limit e total [] small h k = ap ok (omega arith)
add_spans-words limit e total (s ∷ ss) small h k =
    let good = IsSpan-bad_span s h.0 in
    let m : u32 (total + s.word_count) ≡ total + s.word_count = omega arith in
    let room : ltb (u32_minus limit s.word_count) total ≡ false = ground arith in
    let rest : add_spans limit e (total + s.word_count) ss ≡ ok (total + s.word_count + words ss) =
      add_spans-words limit e (total + s.word_count) ss small h.1 (omega arith) in
    let same : total + s.word_count + words ss ≡ total + (s.word_count + words ss) = omega arith in
    grind (arith, good, m, room, rest, same)

-- Of a whole occurrence the loop accepts nothing else.
pub add_spans-IsSpan :
    (e : RangeError) (total : ℕ) (ss : List SunSpecSourceSpan) (t : ℕ)
    → All InType ss
    → total ≤ 65536
    → add_spans 65536 e total ss ≡ ok t
    → All IsSpan ss × (t ≡ total + words ss) × (t ≤ 65536)
unfolding add_spans
add_spans-IsSpan e total [] t h k q = (tt, ground arith, ground arith)
add_spans-IsSpan e total (s ∷ ss) t h k q =
    let good : IsSpan s = bad_span-IsSpan s h.0 (ground arith) in
    let m : u32 (total + s.word_count) ≡ total + s.word_count = ground arith in
    let (goods, sum, most) =
      add_spans-IsSpan e (u32 (total + s.word_count)) ss t h.1 (ground arith) (ground arith) in
    ((good, goods), omega (arith, m, sum), most)

pub run-cong : (v p q m n : ℕ) → p ≡ q → m ≡ n → run v p m ≡ run v q n
run-cong v p q m n h k = ap (λ a. run v a m) h ∙ ap (run v q) k

length-run : (v p n : ℕ) → length (run v p n) ≡ n
length-run v p zero = refl
length-run v p (suc n) = ap suc (length-run v (suc p) n)

drop-run : (v p n k : ℕ) → drop k (run v p n) ≡ run v (p + k) (n - k)
drop-run v p n zero = run-cong v p (p + 0) n (n - 0) (omega arith) (omega arith)
drop-run v p zero (suc k) = let z : 0 ≡ 0 - suc k = omega arith in ap (run v (p + suc k)) z
drop-run v p (suc n) (suc k) =
    drop-run v (suc p) n k
    ∙ run-cong v (suc p + k) (p + suc k) (n - k) (suc n - suc k) (omega arith) (omega arith)

take-run : (v p n k : ℕ) → take k (run v p n) ≡ run v p (n - (n - k))
take-run v p n zero = let z : 0 ≡ n - (n - 0) = omega arith in ap (run v p) z
take-run v p zero (suc k) = let z : 0 ≡ 0 - (0 - suc k) = omega arith in ap (run v p) z
take-run v p (suc n) (suc k) =
    let z : suc (n - (n - k)) ≡ suc n - (suc n - suc k) = omega arith in
    ap (λ l. (v, p) ∷ l) (take-run v (suc p) n k) ∙ ap (run v p) z

pub length-positions : (ss : List SunSpecSourceSpan) → length (positions ss) ≡ words ss
length-positions [] = refl
length-positions (s ∷ ss) = omega (
  arith,
  length-append (run s.logical_view_id s.pdu_offset s.word_count) (positions ss),
  length-run s.logical_view_id s.pdu_offset s.word_count,
  length-positions ss,
)

-- The `k` words after the first `d`.
abbrev pub window : ℕ → ℕ → List (ℕ × ℕ) → List (ℕ × ℕ)
window d k l = take k (drop d l)

pub window-cong :
    (d d' k k' : ℕ) (l : List (ℕ × ℕ)) → d ≡ d' → k ≡ k' → window d k l ≡ window d' k' l
window-cong d d' k k' l h j = ap (λ a. window a k l) h ∙ ap (λ a. window d' a l) j

-- A window over a run and more words: a shorter run, and a window over those words.
pub window-run :
    (v p n d k : ℕ) (l : List (ℕ × ℕ))
    → window d k (run v p n ++ l)
      ≡ run v (p + d) ((n - d) - ((n - d) - k)) ++ window (d - n) (k - (n - d)) l
window-run v p n d k l =
    ap (take k) (
      drop-append d (run v p n) l
      ∙ ap₂ (λ a b. a ++ drop b l) (drop-run v p n d) (ap (λ a. d - a) (length-run v p n)))
    ∙ take-append k (run v (p + d) (n - d)) (drop (d - n) l)
    ∙ ap₂ (λ a b. a ++ take b (drop (d - n) l)) (take-run v (p + d) (n - d) k)
        (ap (λ a. k - a) (length-run v (p + d) (n - d)))

add_spans-sum :
    (limit : ℕ) (e : RangeError) (total : ℕ) (ss : List SunSpecSourceSpan) (t : ℕ)
    → total < 0x1_0000_0000
    → add_spans limit e total ss ≡ ok t
    → t ≡ u32 (total + words ss)
unfolding add_spans
add_spans-sum limit e total [] t h q = ground arith
add_spans-sum limit e total (s ∷ ss) t h q =
    let rest =
      add_spans-sum limit e (u32 (total + s.word_count)) ss t (omega arith) (ground arith) in
    omega (arith, rest)

words-most : (ss : List SunSpecSourceSpan) → All InType ss → words ss ≤ 65535 * length ss
words-most [] h = omega arith
words-most (s ∷ ss) h = omega (arith, words-most ss h.1, h.0.count_small)

-- A range made from at most 65536 spans with fields of type uint16 has as many words as its spans
-- together: the 32-bit sum cannot wrap around.
pub new_source_range-words_exact :
    (o w : ℕ) (ss : List SunSpecSourceSpan) (r : SunSpecOccurrenceSourceRange)
    → w < 2 ^ 32
    → All InType ss
    → length ss ≤ 65536
    → new_source_range o w ss ≡ ok r
    → (words r.spans ≡ r.word_count) × (r.spans ≡ ss) × (r.offset + r.word_count ≤ 65536)
unfolding new_source_range
new_source_range-words_exact o w ss r hw h few e =
    elim (Result-cases (add_spans w spans_exceed_range 0 ss)) [
      | inl (t, q) ↦
          let sum = add_spans-sum w spans_exceed_range 0 ss t (omega arith) q in
          let exact : words ss ≡ t = omega (arith, sum, words-most ss h, few) in
          let met : t ≡ w = ground arith in
          let made : record { offset = o; word_count = w; spans = ss } ≡ r = ground arith in
          let bound : o + w ≤ 65536 = ground arith in
          subst
            (λ m.
              (words m.spans ≡ m.word_count) × (m.spans ≡ ss) × (m.offset + m.word_count ≤ 65536))
            made (exact ∙ met, refl, bound)
      | inr (f, q) ↦ absurd (ground arith)
    ]
