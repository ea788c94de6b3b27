-- ===== src/Ledger/Tombstone.antt =====
-- runtime_ledger.go: the audit tombstones, their validation and their JSON form.
pub mod Size
use helianthus_modbusreg.Base.{
  ℕ, suc, ◌+◌, ◌^◌, ◌≤◌, ◌<◌, ◌≡◌, refl, ap, Bool, true, false, ◌&&◌, ◌||◌, not, List, [], ◌∷◌,
  ◌++◌, Option, none, some, Result, ok, err, ltb, ◌==◌, if◌then◌else◌, length, length-append, arith,
  Bool-cases, inl, inr, ◌>>=◌, ◌>>◌, refuse_if,
}
use helianthus_modbusreg.Base.Bytes.{ascii, same_bytes, same_bytes_eq}
use helianthus_modbusreg.Base.Decimal.{decimal, length-decimal_mono}
use helianthus_modbusreg.Ledger.{
  LedgerAuditTombstone, AuditObjectKind, attempt, claim, other, claim_text, phase_text, published,
  publish_failed, cancel_failed, cancelled, claim_succeeded, capability_cancelled,
  capability_failed, capability_expired, claim_rejected_terminal, attempt_cancelled, max_uint64,
}
use helianthus_modbusreg.Ledger.Limits.{LedgerLimits}

-- `validAttemptTerminalOutcome` on the string.
unfoldable pub valid_attempt_terminal_outcome : List ℕ → Bool
valid_attempt_terminal_outcome o =
    same_bytes o (phase_text published)
    || same_bytes o (phase_text publish_failed)
    || same_bytes o (phase_text cancel_failed)
    || same_bytes o (phase_text cancelled)

-- `validClaimOutcome` on the string.
unfoldable pub valid_claim_outcome : List ℕ → Bool
valid_claim_outcome o =
    same_bytes o (claim_text claim_succeeded)
    || same_bytes o (claim_text capability_cancelled)
    || same_bytes o (claim_text capability_failed)
    || same_bytes o (claim_text capability_expired)
    || same_bytes o (claim_text claim_rejected_terminal)
    || same_bytes o (claim_text attempt_cancelled)

-- The two constant halves of `validateLedgerAuditTombstone`.
unfoldable pub valid_attempt_tombstone : LedgerAuditTombstone → Bool
valid_attempt_tombstone t =
    valid_attempt_terminal_outcome t.terminal_outcome
    && t.schema_version == 1
    && not (t.terminal_sequence == 0)
    && not (t.claim_count == 0)
    && t.attempt_terminal_sequence == 0
    && t.claim_ordinal == 0

unfoldable pub valid_claim_tombstone : LedgerAuditTombstone → Bool
valid_claim_tombstone t =
    valid_claim_outcome t.terminal_outcome
    && t.schema_version == 1
    && not (t.terminal_sequence == 0)
    && not (t.attempt_terminal_sequence == 0)
    && t.claim_count == 0

abbrev pub valid_kind : AuditObjectKind → LedgerAuditTombstone → Bool
valid_kind attempt t = valid_attempt_tombstone t
valid_kind claim t = valid_claim_tombstone t
valid_kind other t = false

-- `validateLedgerAuditTombstone`
unfoldable pub valid_tombstone : LedgerAuditTombstone → Bool
valid_tombstone t = valid_kind t.object_kind t

-- The JSON object of `attemptAuditTombstoneDTO`; an outcome is a constant and needs no escape.
unfoldable pub attempt_json : LedgerAuditTombstone → List ℕ
attempt_json t =
    ascii "{\"schema_version\":1,\"object_kind\":\"attempt\",\"terminal_sequence\":"
    ++ (decimal t.terminal_sequence
        ++ (ascii ",\"claim_count\":"
            ++ (decimal t.claim_count
                ++ (ascii ",\"terminal_outcome\":\"" ++ (t.terminal_outcome ++ ascii "\"}")))))

-- The JSON object of `claimAuditTombstoneDTO`.
unfoldable pub claim_json : LedgerAuditTombstone → List ℕ
claim_json t =
    ascii "{\"schema_version\":1,\"object_kind\":\"claim\",\"terminal_sequence\":"
    ++ (decimal t.terminal_sequence
        ++ (ascii ",\"attempt_terminal_sequence\":"
            ++ (decimal t.attempt_terminal_sequence
                ++ (ascii ",\"claim_ordinal\":"
                    ++ (decimal t.claim_ordinal
                        ++ (ascii ",\"terminal_outcome\":\""
                            ++ (t.terminal_outcome ++ ascii "\"}")))))))

abbrev pub json_of : AuditObjectKind → LedgerAuditTombstone → Option (List ℕ)
json_of attempt t = some (attempt_json t)
json_of claim t = some (claim_json t)
json_of other t = none

-- `MarshalJSON`; `none` is its error.
unfoldable pub marshal_tombstone : LedgerAuditTombstone → Option (List ℕ)
marshal_tombstone t = if not (valid_tombstone t) then none else json_of t.object_kind t

-- `err != nil || len(encoded) > limit`
abbrev pub oversized : Option (List ℕ) → ℕ → Bool
oversized none limit = true
oversized (some bytes) limit = ltb limit (length bytes)

abbrev pub largest_attempt : ℕ → LedgerAuditTombstone
largest_attempt claims = record {
  schema_version = 1;
  object_kind = attempt;
  terminal_sequence = max_uint64;
  claim_count = claims;
  attempt_terminal_sequence = 0;
  claim_ordinal = 0;
  terminal_outcome = phase_text publish_failed;
}

abbrev pub largest_claim : LedgerAuditTombstone
largest_claim = record {
  schema_version = 1;
  object_kind = claim;
  terminal_sequence = max_uint64;
  claim_count = 0;
  attempt_terminal_sequence = max_uint64;
  claim_ordinal = max_uint64;
  terminal_outcome = claim_text claim_rejected_terminal;
}

-- `validateLargestLedgerTombstones`
unfoldable pub largest_tombstones_fit : LedgerLimits → Bool
largest_tombstones_fit l =
    not (
      oversized (marshal_tombstone (largest_attempt l.max_claim_entries_per_attempt))
        l.audit_tombstone_max_encoded_bytes)
    && not (oversized (marshal_tombstone largest_claim) l.audit_tombstone_max_encoded_bytes)
