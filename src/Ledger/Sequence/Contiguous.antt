-- ===== src/Ledger/Sequence/Contiguous.antt =====
-- The reservations of a ledger: what a batch holds, and that no sequence is given out twice.
use helianthus_modbusreg.Base.{
  ℕ, zero, suc, ◌+◌, ◌-◌, ◌≤◌, ◌<◌, ◌≡◌, refl, ap, ◌∙◌, subst, sym, true, false, List, [], ◌∷◌,
  ◌++◌, Option, none, some, if◌then◌else◌, arith, All, inl, inr, ◌↔◌, Bool-cases, Option-cases,
}
use helianthus_modbusreg.Ledger.{max_uint64}
use helianthus_modbusreg.Ledger.Sequence.{
  Watermark, u64, u64_minus, terminal_batch_available, claim_sequences, Batch, advance,
  reserve_terminal_batch,
}

-- The sequences from `at` on, without a word size.
abbrev pub count_up : ℕ → ℕ → List ℕ
count_up at zero = []
count_up at (suc n) = at ∷ count_up (suc at) n

-- The last sequence that a watermark has given out.
abbrev pub spent : Watermark → ℕ
spent w = if w.sequence_exhausted then max_uint64 else w.next_terminal_sequence - 1

-- The next sequence is a uint64, and 0 exactly when there is none left.
pub record IsWatermark (w : Watermark) : Type 0 where
  pub next-le : w.next_terminal_sequence ≤ max_uint64
  pub exhausted-iff : (w.sequence_exhausted ≡ true) ↔ (w.next_terminal_sequence ≡ 0)

claim_sequences-count_up :
    (first index left : ℕ)
    → first + index + left ≤ max_uint64
    → claim_sequences first index left ≡ count_up (first + index + 1) left
unfolding claim_sequences
claim_sequences-count_up first index zero h = refl
claim_sequences-count_up first index (suc left) h =
    let rest : claim_sequences first (index + 1) left ≡ count_up (first + (index + 1) + 1) left =
      claim_sequences-count_up first (index + 1) left (omega arith) in
    let m : u64 (first + index + 1) ≡ first + index + 1 = omega arith in grind (arith, rest, m)

available_iff :
    (w : Watermark) (n : ℕ)
    → IsWatermark w
    → n < max_uint64
    → (terminal_batch_available w n ≡ true) ↔ ((1 ≤ n) × (spent w + n + 1 ≤ max_uint64))
unfolding terminal_batch_available
available_iff w n ok h = ground arith

-- The sequences a batch gives out, in the order of the ledger's history.
abbrev pub given : Batch → List ℕ
given b = b.first ∷ b.claims

-- What a reservation promises: the next sequences after those spent, and a sound watermark.
pub record Reserved (w : Watermark) (n : ℕ) (b : Batch) (w' : Watermark) : Type 0 where
  pub next_given : given b ≡ count_up (suc (spent w)) (suc n)
  pub now_spent : spent w' ≡ spent w + suc n
  pub bounded : spent w' ≤ max_uint64
  pub sound : IsWatermark w'

advance-spent : (last : ℕ) → last ≤ max_uint64 → spent (advance last) ≡ last
unfolding advance
advance-spent last h = ground arith

advance-IsWatermark : (last : ℕ) → last ≤ max_uint64 → IsWatermark (advance last)
unfolding advance
advance-IsWatermark last h = record { next-le = ground arith; exhausted-iff = ground arith }

-- The batch at `first`, and what remains after it.
abbrev granted : Watermark → ℕ → Batch × Watermark
granted w n = (
  record {
    first = w.next_terminal_sequence;
    claims = claim_sequences w.next_terminal_sequence 0 n;
  },
  advance (w.next_terminal_sequence + n),
)

last-eq :
    (first n : ℕ)
    → n < max_uint64
    → first + n ≤ max_uint64
    → u64_minus (u64 (first + u64 (n + 1))) 1 ≡ first + n
last-eq first n h k = omega arith

reserve-granted :
    (w : Watermark) (n : ℕ)
    → IsWatermark w
    → n < max_uint64
    → terminal_batch_available w n ≡ true
    → reserve_terminal_batch w n ≡ some (granted w n)
unfolding reserve_terminal_batch
reserve-granted w n ok h a =
    let fits = (available_iff w n ok h).0 a in
    let sum : w.next_terminal_sequence + n ≤ max_uint64 = ground arith in
    let q = last-eq w.next_terminal_sequence n h sum in ground (arith, q)

reserve-refused :
    (w : Watermark) (n : ℕ)
    → terminal_batch_available w n ≡ false
    → reserve_terminal_batch w n ≡ none
unfolding reserve_terminal_batch
reserve-refused w n a = ground arith

-- A reservation succeeds exactly when the batch is not empty and what is left of the 64-bit
-- sequences holds it; the second test for exhaustion never refuses.
pub reserve_terminal_batch_iff :
    (w : Watermark) (n : ℕ)
    → IsWatermark w
    → n < max_uint64
    → ((r : Batch × Watermark) × (reserve_terminal_batch w n ≡ some r))
      ↔ ((1 ≤ n) × (spent w + n + 1 ≤ max_uint64))
reserve_terminal_batch_iff w n ok h = elim (Bool-cases (terminal_batch_available w n)) [
  | inl a ↦ (λ _. (available_iff w n ok h).0 a, λ _. (granted w n, reserve-granted w n ok h a))
  | inr a ↦ (
    λ r. absurd (ground (arith, r.1, reserve-refused w n a)),
    λ fits. absurd (ground (arith, (available_iff w n ok h).1 fits, a)),
  )
]

available-sum :
    (w : Watermark) (n : ℕ)
    → n < max_uint64
    → IsWatermark w
    → terminal_batch_available w n ≡ true
    → (w.next_terminal_sequence ≡ suc (spent w)) × (w.next_terminal_sequence + n ≤ max_uint64)
unfolding terminal_batch_available
available-sum w n h ok a = ground arith

granted-Reserved :
    (w : Watermark) (n : ℕ)
    → w.next_terminal_sequence ≡ suc (spent w)
    → w.next_terminal_sequence + n ≤ max_uint64
    → Reserved w n (granted w n).0 (granted w n).1
granted-Reserved w n next sum =
    let last : spent (advance (w.next_terminal_sequence + n)) ≡ w.next_terminal_sequence + n =
      advance-spent (w.next_terminal_sequence + n) sum in
    record {
      next_given = grind (arith, claim_sequences-count_up w.next_terminal_sequence 0 n, next);
      now_spent = omega (arith, last, next);
      bounded = omega (arith, last);
      sound = advance-IsWatermark (w.next_terminal_sequence + n) sum;
    }

reserve_terminal_batch-Reserved :
    (w : Watermark) (n : ℕ) (b : Batch) (w' : Watermark)
    → IsWatermark w
    → n < max_uint64
    → reserve_terminal_batch w n ≡ some (b, w')
    → Reserved w n b w'
reserve_terminal_batch-Reserved w n b w' ok h e = elim (Bool-cases (terminal_batch_available w n)) [
  | inl a ↦
      let (next, sum) = available-sum w n h ok a in
      let q : granted w n ≡ (b, w') = grind (arith, e, reserve-granted w n ok h a) in
      subst (λ r. Reserved w n r.0 r.1) q (granted-Reserved w n next sum)
  | inr a ↦ absurd (ground (arith, e, reserve-refused w n a))
]

-- Batches reserved one after the other, while other reservations are refused.
abbrev after :
    Option (Batch × Watermark)
    → Watermark
    → (Watermark → List Batch × Watermark)
    → List Batch × Watermark
after none w rest = rest w
after (some r) w rest = (r.0 ∷ (rest r.1).0, (rest r.1).1)

abbrev pub reserve_all : Watermark → List ℕ → List Batch × Watermark
reserve_all w [] = ([], w)
reserve_all w (n ∷ ns) = after (reserve_terminal_batch w n) w (λ v. reserve_all v ns)

-- All sequences of the batches, in order.
abbrev pub all_given : List Batch → List ℕ
all_given [] = []
all_given (b ∷ bs) = given b ++ all_given bs

pub record Contiguous (w : Watermark) (bs : List Batch) (last : Watermark) : Type 0 where
  pub advanced : spent w ≤ spent last
  pub in_range : spent last ≤ max_uint64
  pub contiguous : all_given bs ≡ count_up (suc (spent w)) (spent last - spent w)

count_up-append :
    (at m n at' k : ℕ) → at' ≡ at + m → k ≡ m + n → count_up at m ++ count_up at' n ≡ count_up at k
count_up-append at zero n at' k h e =
    let p : at' ≡ at = omega arith in
    let q : n ≡ k = omega arith in ap (λ a. count_up a n) p ∙ ap (count_up at) q
count_up-append at (suc m) n at' zero h e = absurd (omega arith)
count_up-append at (suc m) n at' (suc k) h e =
    ap (λ l. at ∷ l) (count_up-append (suc at) m n at' k (omega arith) (omega arith))

Reserved-Contiguous :
    (w : Watermark) (n : ℕ) (b : Batch) (w' : Watermark) (bs : List Batch) (last : Watermark)
    → Reserved w n b w'
    → Contiguous w' bs last
    → Contiguous w (b ∷ bs) last
Reserved-Contiguous w n b w' bs last r c = record {
  advanced = omega (arith, r.now_spent, c.advanced);
  in_range = c.in_range;
  contiguous =
      ap (λ l. l ++ all_given bs) r.next_given
      ∙ ap (λ l. count_up (suc (spent w)) (suc n) ++ l) c.contiguous
      ∙ count_up-append (suc (spent w)) (suc n) (spent last - spent w') (suc (spent w'))
          (spent last - spent w) (omega (arith, r.now_spent))
          (omega (arith, r.now_spent, c.advanced));
}

spent-le : (w : Watermark) → IsWatermark w → spent w ≤ max_uint64
spent-le w ok = ground arith

-- Whatever batches a ledger is asked for, the sequences of those it grants are, in order, the
-- consecutive numbers after the watermark it began with, none of them above the largest uint64:
-- no sequence is given out twice or skipped, and the counter never wraps around.
pub reserve_all-Contiguous :
    (w : Watermark) (ns : List ℕ)
    → IsWatermark w
    → All (λ n. n < max_uint64) ns
    → Contiguous w (reserve_all w ns).0 (reserve_all w ns).1
reserve_all-Contiguous w [] ok h = record {
  advanced = omega arith;
  in_range = spent-le w ok;
  contiguous =
      let none_yet : 0 ≡ spent w - spent w = omega arith in ap (count_up (suc (spent w))) none_yet;
}
reserve_all-Contiguous w (n ∷ ns) ok h = elim (Option-cases (reserve_terminal_batch w n)) [
  | inl e ↦
      subst
        (λ o.
          Contiguous w (after o w (λ v. reserve_all v ns)).0 (after o w (λ v. reserve_all v ns)).1)
        (sym e) (reserve_all-Contiguous w ns ok h.1)
  | inr (r, e) ↦
      let given_now = reserve_terminal_batch-Reserved w n r.0 r.1 ok h.0 e in
      subst
        (λ o.
          Contiguous w (after o w (λ v. reserve_all v ns)).0 (after o w (λ v. reserve_all v ns)).1)
        (sym e)
        (Reserved-Contiguous w n r.0 r.1 (reserve_all r.1 ns).0 (reserve_all r.1 ns).1 given_now
          (reserve_all-Contiguous r.1 ns given_now.sound h.1))
]
