-- ===== src/Ledger/Tombstone/Size.antt =====
-- The bound on a tombstone's encoding that a ledger's activation relies on.
use helianthus_modbusreg.Base.{
  ℕ, ◌+◌, ◌==◌, ◌≤◌, ◌≡◌, refl, ap, true, false, List, Option, some, length, length-append, arith,
}
use helianthus_modbusreg.Base.Bytes.{same_bytes_eq}
use helianthus_modbusreg.Base.Decimal.{decimal, length-decimal_mono}
use helianthus_modbusreg.Ledger.{
  LedgerAuditTombstone, AuditObjectKind, attempt, claim, other, claim_text, phase_text, published,
  publish_failed, cancel_failed, cancelled, claim_succeeded, capability_cancelled,
  capability_failed, capability_expired, claim_rejected_terminal, attempt_cancelled, max_uint64,
}
use helianthus_modbusreg.Ledger.Limits.{LedgerLimits}
use helianthus_modbusreg.Ledger.Tombstone.{
  valid_attempt_terminal_outcome, valid_claim_outcome, valid_attempt_tombstone,
  valid_claim_tombstone, valid_tombstone, attempt_json, claim_json, marshal_tombstone, oversized,
  valid_kind, json_of, largest_attempt, largest_claim, largest_tombstones_fit,
}

length-attempt_json :
    (t : LedgerAuditTombstone)
    → length (attempt_json t)
      ≡ 102
        + length (decimal t.terminal_sequence)
        + length (decimal t.claim_count)
        + length t.terminal_outcome
unfolding attempt_json
length-attempt_json t = simp length-append (omega arith)

length-claim_json :
    (t : LedgerAuditTombstone)
    → length (claim_json t)
      ≡ 131
        + length (decimal t.terminal_sequence)
        + length (decimal t.attempt_terminal_sequence)
        + length (decimal t.claim_ordinal)
        + length t.terminal_outcome
unfolding claim_json
length-claim_json t = simp length-append (omega arith)

attempt_outcome-le : (o : List ℕ) → valid_attempt_terminal_outcome o ≡ true → length o ≤ 14
unfolding valid_attempt_terminal_outcome
attempt_outcome-le o h = ground (
  arith,
  same_bytes_eq o (phase_text published),
  same_bytes_eq o (phase_text publish_failed),
  same_bytes_eq o (phase_text cancel_failed),
  same_bytes_eq o (phase_text cancelled),
)

claim_outcome-le : (o : List ℕ) → valid_claim_outcome o ≡ true → length o ≤ 23
unfolding valid_claim_outcome
claim_outcome-le o h = ground (
  arith,
  same_bytes_eq o (claim_text claim_succeeded),
  same_bytes_eq o (claim_text capability_cancelled),
  same_bytes_eq o (claim_text capability_failed),
  same_bytes_eq o (claim_text capability_expired),
  same_bytes_eq o (claim_text claim_rejected_terminal),
  same_bytes_eq o (claim_text attempt_cancelled),
)

-- The fields are of the type uint64, and the number of claims is within the limit.
pub record InRange (l : LedgerLimits) (t : LedgerAuditTombstone) : Type 0 where
  pub sequence-le : t.terminal_sequence ≤ max_uint64
  pub attempt_sequence-le : t.attempt_terminal_sequence ≤ max_uint64
  pub ordinal-le : t.claim_ordinal ≤ max_uint64
  pub claims-le : t.claim_count ≤ l.max_claim_entries_per_attempt

attempt_json-le :
    (t : LedgerAuditTombstone) (claims : ℕ)
    → valid_attempt_terminal_outcome t.terminal_outcome ≡ true
    → t.terminal_sequence ≤ max_uint64
    → t.claim_count ≤ claims
    → length (attempt_json t) ≤ length (attempt_json (largest_attempt claims))
attempt_json-le t claims outcome_ok seq-le claims-le = omega (
  arith,
  length-attempt_json t,
  length-attempt_json (largest_attempt claims),
  attempt_outcome-le t.terminal_outcome outcome_ok,
  length-decimal_mono t.terminal_sequence max_uint64 seq-le,
  length-decimal_mono t.claim_count claims claims-le,
)

claim_json-le :
    (t : LedgerAuditTombstone)
    → valid_claim_outcome t.terminal_outcome ≡ true
    → t.terminal_sequence ≤ max_uint64
    → t.attempt_terminal_sequence ≤ max_uint64
    → t.claim_ordinal ≤ max_uint64
    → length (claim_json t) ≤ length (claim_json largest_claim)
claim_json-le t outcome_ok seq-le attempt-le ordinal-le = omega (
  arith,
  length-claim_json t,
  length-claim_json largest_claim,
  claim_outcome-le t.terminal_outcome outcome_ok,
  length-decimal_mono t.terminal_sequence max_uint64 seq-le,
  length-decimal_mono t.attempt_terminal_sequence max_uint64 attempt-le,
  length-decimal_mono t.claim_ordinal max_uint64 ordinal-le,
)

oversized-false :
    (m : Option (List ℕ)) (bs : List ℕ) (limit : ℕ)
    → oversized m limit ≡ false
    → m ≡ some bs
    → length bs ≤ limit
oversized-false m bs limit h e = ground arith

marshal-largest_attempt :
    (claims : ℕ)
    → (claims == 0) ≡ false
    → marshal_tombstone (largest_attempt claims) ≡ some (attempt_json (largest_attempt claims))
unfolding marshal_tombstone valid_tombstone valid_attempt_tombstone valid_attempt_terminal_outcome
marshal-largest_attempt claims h = rw h

marshal-largest_claim : marshal_tombstone largest_claim ≡ some (claim_json largest_claim)
unfolding marshal_tombstone valid_tombstone valid_claim_tombstone valid_claim_outcome
marshal-largest_claim = refl

fits-attempt :
    (l : LedgerLimits)
    → largest_tombstones_fit l ≡ true
    → length (attempt_json (largest_attempt l.max_claim_entries_per_attempt))
      ≤ l.audit_tombstone_max_encoded_bytes
unfolding largest_tombstones_fit marshal_tombstone valid_tombstone valid_attempt_tombstone
fits-attempt l h =
    let z : (l.max_claim_entries_per_attempt == 0) ≡ false = ground arith in
    oversized-false _ _ _ (ground arith) (marshal-largest_attempt l.max_claim_entries_per_attempt z)

fits-claim :
    (l : LedgerLimits)
    → largest_tombstones_fit l ≡ true
    → length (claim_json largest_claim) ≤ l.audit_tombstone_max_encoded_bytes
unfolding largest_tombstones_fit
fits-claim l h = oversized-false _ _ _ (ground arith) marshal-largest_claim

kind-le :
    (l : LedgerLimits) (t : LedgerAuditTombstone) (bs : List ℕ) (k : AuditObjectKind)
    → largest_tombstones_fit l ≡ true
    → InRange l t
    → valid_kind k t ≡ true
    → json_of k t ≡ some bs
    → length bs ≤ l.audit_tombstone_max_encoded_bytes
unfolding valid_attempt_tombstone valid_claim_tombstone
kind-le l t bs attempt fits range valid e =
    let q : attempt_json t ≡ bs = cc in
    let shorter = attempt_json-le t _ (ground arith) range.sequence-le range.claims-le in
    omega (arith, fits-attempt l fits, shorter, ap length q)
kind-le l t bs claim fits range valid e =
    let q : claim_json t ≡ bs = cc in
    let shorter =
      claim_json-le t (ground arith) range.sequence-le range.attempt_sequence-le range.ordinal-le in
    omega (arith, fits-claim l fits, shorter, ap length q)
kind-le l t bs other fits range valid e = cc

-- Under limits whose two largest tombstones fit, no tombstone with fields of type uint64 and a
-- claim count within the limits has an encoding above the byte limit.
pub marshal_tombstone-fits :
    (l : LedgerLimits) (t : LedgerAuditTombstone) (bs : List ℕ)
    → largest_tombstones_fit l ≡ true
    → InRange l t
    → marshal_tombstone t ≡ some bs
    → length bs ≤ l.audit_tombstone_max_encoded_bytes
unfolding marshal_tombstone valid_tombstone
marshal_tombstone-fits l t bs fits range e =
    kind-le l t bs t.object_kind fits range (ground arith) (ground arith)
