-- ===== src/Ledger/Sequence.antt =====
-- runtime_ledger.go: the reservation of a batch of terminal sequences, one for the attempt and one
-- for each of its claims. A Go int that is not positive stands as 0: the same test refuses both.
pub mod Contiguous
use helianthus_modbusreg.Base.{
  ℕ, zero, suc, ◌%◌, ◌+◌, ◌-◌, ◌≤◌, ◌<◌, ◌≡◌, refl, ap, Bool, true, false, ◌&&◌, ◌||◌, not, List,
  [], ◌∷◌, Option, none, some, ltb, leb, ◌==◌, if◌then◌else◌, length, arith, All, ◌⊎◌, inl, inr,
}
use helianthus_modbusreg.Ledger.{max_uint64}

-- The fields of `SampleLedger` that the reservation reads and writes.
pub record Watermark : Type 0 where
  pub next_terminal_sequence : ℕ
  pub sequence_exhausted : Bool

-- uint64 arithmetic.
abbrev pub u64 : ℕ → ℕ
u64 n = n % 0x1_0000_0000_0000_0000

abbrev pub u64_minus : ℕ → ℕ → ℕ
u64_minus a b = u64 (a + 0x1_0000_0000_0000_0000 - b)

-- `terminalBatchAvailableLocked`
unfoldable pub terminal_batch_available : Watermark → ℕ → Bool
terminal_batch_available w claim_count =
    if w.sequence_exhausted || w.next_terminal_sequence == 0 || claim_count == 0
    then false
    else leb (u64_minus (u64 (claim_count + 1)) 1) (u64_minus max_uint64 w.next_terminal_sequence)

-- `claims[index] = first + uint64(index) + 1` for `left` indices from `index` on.
unfoldable pub claim_sequences : ℕ → ℕ → ℕ → List ℕ
claim_sequences first index zero = []
claim_sequences first index (suc left) =
    u64 (first + index + 1) ∷ claim_sequences first (index + 1) left

pub record Batch : Type 0 where
  pub first : ℕ
  pub claims : List ℕ

-- The watermark after a batch that ends at `last`.
unfoldable pub advance : ℕ → Watermark
advance last =
    if last == max_uint64
    then record { next_terminal_sequence = 0; sequence_exhausted = true }
    else record { next_terminal_sequence = u64 (last + 1); sequence_exhausted = false }

-- `reserveTerminalBatchLocked`; `none` is its error.
unfoldable pub reserve_terminal_batch : Watermark → ℕ → Option (Batch × Watermark)
reserve_terminal_batch w claim_count =
    let batch = u64 (claim_count + 1) in
    let first = w.next_terminal_sequence in
    if not (terminal_batch_available w claim_count)
    then none
    else if ltb (u64_minus max_uint64 first) (u64_minus batch 1)
    then none
    else some (
      record { first = first; claims = claim_sequences first 0 claim_count },
      advance (u64_minus (u64 (first + batch)) 1),
    )
