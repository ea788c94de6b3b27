-- ===== src/Ledger/Restart/Tests.antt =====
-- Concrete restart states: one attempt with one claim, and the same after another truncation.
use helianthus_modbusreg.Base.{◌≤◌, ◌≡◌, refl, Bool, true, false, ok, [], ◌∷◌, All, arith}
use helianthus_modbusreg.Ledger.{
  LedgerAuditTombstone, LedgerRestartState, attempt, claim, phase_text, claim_text, published,
  claim_succeeded,
}
use helianthus_modbusreg.Ledger.Limits.{default_ledger_limits}
use helianthus_modbusreg.Ledger.Restart.{
  end_sequence, header_invalid, check_history, by_sequence, lead, check_leading, check_claim,
  check_interval, check_attempt, check_records, check_reservations, check_claims, check_retained,
  overlaps_agree, validate_restart_state, covers_terminal_watermark,
}
use helianthus_modbusreg.Base.Decimal.{decimal}
use helianthus_modbusreg.Ledger.Tombstone.{
  marshal_tombstone, valid_tombstone, valid_attempt_tombstone, valid_claim_tombstone,
  valid_attempt_terminal_outcome, valid_claim_outcome, attempt_json, claim_json,
}
use helianthus_modbusreg.Ledger.Restart.History.{Complete, validate_restart_state-Complete}
use helianthus_modbusreg.Ledger.Restart.Covers.{Agrees, covers_terminal_watermark-Agrees}

abbrev one_attempt : LedgerAuditTombstone
one_attempt = record {
  schema_version = 1;
  object_kind = attempt;
  terminal_sequence = 4;
  claim_count = 1;
  attempt_terminal_sequence = 0;
  claim_ordinal = 0;
  terminal_outcome = phase_text published;
}

abbrev its_claim : LedgerAuditTombstone
its_claim = record {
  schema_version = 1;
  object_kind = claim;
  terminal_sequence = 5;
  claim_count = 0;
  attempt_terminal_sequence = 4;
  claim_ordinal = 0;
  terminal_outcome = claim_text claim_succeeded;
}

abbrev any_size : LedgerRestartState → Bool
any_size r = true

abbrev earlier : LedgerRestartState
earlier = record {
  schema_version = 1;
  next_terminal_sequence = 6;
  sequence_exhausted = false;
  truncated_through_sequence = 3;
  audit_tombstones = one_attempt ∷ its_claim ∷ [];
}

abbrev later : LedgerRestartState
later = record {
  schema_version = 1;
  next_terminal_sequence = 6;
  sequence_exhausted = false;
  truncated_through_sequence = 4;
  audit_tombstones = its_claim ∷ [];
}

earlier-valid : validate_restart_state any_size earlier default_ledger_limits ≡ ok tt
unfolding validate_restart_state header_invalid end_sequence check_history by_sequence lead
    check_leading check_claim check_interval check_attempt check_records check_reservations
    check_claims check_retained marshal_tombstone valid_tombstone valid_attempt_tombstone
    valid_claim_tombstone valid_attempt_terminal_outcome valid_claim_outcome attempt_json claim_json
    decimal
earlier-valid = refl

later-covers : covers_terminal_watermark any_size later earlier ≡ true
unfolding validate_restart_state header_invalid end_sequence check_history by_sequence lead
    check_leading check_claim check_interval check_attempt check_records check_reservations
    check_claims check_retained marshal_tombstone valid_tombstone valid_attempt_tombstone
    valid_claim_tombstone valid_attempt_terminal_outcome valid_claim_outcome attempt_json claim_json
    decimal covers_terminal_watermark overlaps_agree
later-covers = refl

validate_restart_state-Complete_example : Complete earlier default_ledger_limits
validate_restart_state-Complete_example =
    validate_restart_state-Complete any_size earlier default_ledger_limits earlier-valid

covers_terminal_watermark-Agrees_example :
    (end_sequence earlier ≤ end_sequence later) × All (Agrees later) (one_attempt ∷ its_claim ∷ [])
covers_terminal_watermark-Agrees_example =
    covers_terminal_watermark-Agrees any_size later earlier (omega arith) (omega arith) later-covers
