-- ===== src/Ledger.antt =====
-- runtime_ledger.go: the enums of the attempt ledger and its audit and restart records.
pub mod Limits
pub mod Tombstone
pub mod Sequence
pub mod Attempt
pub mod Restart
mod Tests
use helianthus_modbusreg.Base.{ℕ, Bool, true, false, ◌&&◌, List, [], ◌∷◌, ◌==◌}
use helianthus_modbusreg.Base.Bytes.{ascii, same_bytes}

pub data ClaimOutcome : Type 0 where
  claim_succeeded capability_cancelled capability_failed capability_expired : ClaimOutcome
  claim_rejected_terminal attempt_cancelled : ClaimOutcome

pub data AttemptPhase : Type 0 where
  opened sealed cancelling publishing published publish_failed cancel_failed cancelled :
      AttemptPhase

-- The strings of the constants.
abbrev pub claim_text : ClaimOutcome → List ℕ
claim_text claim_succeeded = ascii "claim_succeeded"
claim_text capability_cancelled = ascii "capability_cancelled"
claim_text capability_failed = ascii "capability_failed"
claim_text capability_expired = ascii "capability_expired"
claim_text claim_rejected_terminal = ascii "claim_rejected_terminal"
claim_text attempt_cancelled = ascii "attempt_cancelled"

abbrev pub phase_text : AttemptPhase → List ℕ
phase_text opened = ascii "open"
phase_text sealed = ascii "sealed"
phase_text cancelling = ascii "cancelling"
phase_text publishing = ascii "publishing"
phase_text published = ascii "published"
phase_text publish_failed = ascii "publish_failed"
phase_text cancel_failed = ascii "cancel_failed"
phase_text cancelled = ascii "cancelled"

-- `other` stands for every string that names no kind.
pub data AuditObjectKind : Type 0 where
  attempt claim other : AuditObjectKind

pub record LedgerAuditTombstone : Type 0 where
  pub schema_version : ℕ
  pub object_kind : AuditObjectKind
  pub terminal_sequence : ℕ
  pub claim_count : ℕ
  pub attempt_terminal_sequence : ℕ
  pub claim_ordinal : ℕ
  pub terminal_outcome : List ℕ

pub record LedgerRestartState : Type 0 where
  pub schema_version : ℕ
  pub next_terminal_sequence : ℕ
  pub sequence_exhausted : Bool
  pub truncated_through_sequence : ℕ
  pub audit_tombstones : List LedgerAuditTombstone

-- `math.MaxUint64`
abbrev pub max_uint64 : ℕ
max_uint64 = 0xffff_ffff_ffff_ffff
