-- ===== src/Ledger/Tests.antt =====
-- Concrete runs of the ledger's bounds, tombstones and sequences.
use helianthus_modbusreg.Base.{
  ℕ, ◌+◌, ◌≤◌, ◌≡◌, ◌↔◌, refl, true, false, ok, List, [], ◌∷◌, some, arith, length,
}
use helianthus_modbusreg.Base.Decimal.{decimal}
use helianthus_modbusreg.Ledger.{
  LedgerAuditTombstone, claim, claim_text, capability_expired, max_uint64,
}
use helianthus_modbusreg.Ledger.Limits.{
  default_ledger_limits, validate_ledger_limits, AreValid, validate-AreValid,
}
use helianthus_modbusreg.Ledger.Tombstone.{
  attempt_json, largest_tombstones_fit, marshal_tombstone, claim_json, valid_tombstone,
  valid_claim_tombstone, valid_claim_outcome, valid_attempt_tombstone,
  valid_attempt_terminal_outcome,
}
use helianthus_modbusreg.Ledger.Tombstone.Size.{InRange, marshal_tombstone-fits}
use helianthus_modbusreg.Ledger.Sequence.{
  terminal_batch_available, advance, Watermark, Batch, reserve_terminal_batch,
}
use helianthus_modbusreg.Ledger.Sequence.Contiguous.{
  IsWatermark, reserve_all, Contiguous, reserve_all-Contiguous, reserve_terminal_batch_iff, spent,
}

abbrev one_claim : LedgerAuditTombstone
one_claim = record {
  schema_version = 1;
  object_kind = claim;
  terminal_sequence = 43;
  claim_count = 0;
  attempt_terminal_sequence = 41;
  claim_ordinal = 1;
  terminal_outcome = claim_text capability_expired;
}

one_claim-InRange : InRange default_ledger_limits one_claim
one_claim-InRange = record {
  sequence-le = omega arith;
  attempt_sequence-le = omega arith;
  ordinal-le = omega arith;
  claims-le = omega arith;
}

default-fits : largest_tombstones_fit default_ledger_limits ≡ true
unfolding largest_tombstones_fit marshal_tombstone valid_tombstone valid_attempt_tombstone
    valid_attempt_terminal_outcome attempt_json decimal valid_claim_tombstone valid_claim_outcome
    claim_json
default-fits = refl

one_claim-marshal : marshal_tombstone one_claim ≡ some (claim_json one_claim)
unfolding marshal_tombstone valid_tombstone valid_claim_tombstone valid_claim_outcome
one_claim-marshal = refl

marshal_tombstone-fits_example : length (claim_json one_claim) ≤ 256
marshal_tombstone-fits_example =
    marshal_tombstone-fits default_ledger_limits one_claim (claim_json one_claim) default-fits
      one_claim-InRange one_claim-marshal

abbrev near_end : Watermark
near_end = record { next_terminal_sequence = 18446744073709551610; sequence_exhausted = false }

near_end-IsWatermark : IsWatermark near_end
near_end-IsWatermark = record { next-le = omega arith; exhausted-iff = ground arith }

-- The second batch does not fit, the third takes the last sequence.
abbrev asked : List ℕ
asked = 2 ∷ 3 ∷ 2 ∷ 1 ∷ []

near_end-run :
    (reserve_all near_end asked).1
    ≡ record { next_terminal_sequence = 0; sequence_exhausted = true }
unfolding reserve_terminal_batch terminal_batch_available advance
near_end-run = refl

reserve_all-Contiguous_example :
    Contiguous near_end (reserve_all near_end asked).0 (reserve_all near_end asked).1
reserve_all-Contiguous_example =
    reserve_all-Contiguous near_end asked near_end-IsWatermark
      (omega arith, (omega arith, (omega arith, (omega arith, tt))))

reserve_terminal_batch_iff_example :
    ((r : Batch × Watermark) × (reserve_terminal_batch near_end 5 ≡ some r))
    ↔ ((1 ≤ 5) × (spent near_end + 5 + 1 ≤ max_uint64))
reserve_terminal_batch_iff_example =
    reserve_terminal_batch_iff near_end 5 near_end-IsWatermark (omega arith)

validate-AreValid_example :
    (validate_ledger_limits default_ledger_limits ≡ ok tt) ↔ AreValid default_ledger_limits
validate-AreValid_example = validate-AreValid default_ledger_limits
