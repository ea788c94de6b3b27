-- ===== src/Ledger/Restart.antt =====
-- runtime_ledger.go: the validation of a restart state and the comparison of two of them. The fields
-- of type uint64 are numbers below 2 ^ 64; Go's map from sequences is an association list.
pub mod History
pub mod Covers
mod Tests
use helianthus_modbusreg.Base.{
  ℕ, zero, suc, ◌+◌, ◌-◌, ◌/◌, ◌%◌, Bool, true, false, ◌&&◌, ◌||◌, not, List, [], ◌∷◌, ◌++◌, Option,
  none, some, Result, ok, err, ltb, leb, ◌==◌, if◌then◌else◌, length, Map, find, store, ◌>>=◌, ◌>>◌,
  refuse_if,
}
use helianthus_modbusreg.Base.Bytes.{ascii, same_bytes}
use helianthus_modbusreg.Base.Decimal.{decimal}
use helianthus_modbusreg.Ledger.{
  LedgerAuditTombstone, AuditObjectKind, attempt, claim, other, LedgerRestartState, max_uint64,
  claim_text, phase_text, claim_succeeded, published, publish_failed,
}
use helianthus_modbusreg.Ledger.Limits.{
  LedgerLimits, default_ledger_limits, max_profile_dependencies, max_serialized_contract_bytes,
}
use helianthus_modbusreg.Ledger.Sequence.{u64, u64_minus}
use helianthus_modbusreg.Ledger.Tombstone.{marshal_tombstone, oversized}

pub data RestartError : Type 0 where
  state_invalid truncation_invalid empty_lacks_watermark follows_exhausted tombstone_invalid :
      RestartError
  not_at_watermark claim_follows_attempts suffix_incoherent claim_ordinal_invalid : RestartError
  claim_sequence_invalid target_not_attempt ordinals_not_contiguous lacks_first_claim : RestartError
  claim_count_invalid interval_incomplete interval_invalid impossible_outcome kind_invalid :
      RestartError
  exceeds_reservation aggregate_too_large index_out_of_range : RestartError

abbrev pub same_kind : AuditObjectKind → AuditObjectKind → Bool
same_kind attempt attempt = true
same_kind claim claim = true
same_kind other other = true
same_kind _ _ = false

unfoldable pub end_sequence : LedgerRestartState → ℕ
end_sequence r = if r.sequence_exhausted then max_uint64 else u64_minus r.next_terminal_sequence 1

unfoldable pub header_invalid : LedgerRestartState → LedgerLimits → Bool
header_invalid r l =
    not (r.schema_version == 1)
    || ltb l.audit_tombstone_limit (length r.audit_tombstones)
    || (r.sequence_exhausted && not (r.next_terminal_sequence == 0))
    || (not r.sequence_exhausted && r.next_terminal_sequence == 0)

-- The loop over the history: `expected` is the successor of the truncation or of the tombstone
-- before, and `none` after the largest sequence. It gives the last sequence.
unfoldable pub check_history :
    LedgerLimits → Option ℕ → ℕ → List LedgerAuditTombstone → Result RestartError ℕ
check_history l expected previous [] = ok previous
check_history l none previous (t ∷ ts) = err tombstone_invalid
check_history l (some n) previous (t ∷ ts) =
    refuse_if
      (oversized (marshal_tombstone t) l.audit_tombstone_max_encoded_bytes
        || not (t.terminal_sequence == n))
      tombstone_invalid
    >> check_history l
        (if t.terminal_sequence == max_uint64 then none else some (u64 (t.terminal_sequence + 1)))
        t.terminal_sequence ts

unfoldable pub by_sequence :
    Map LedgerAuditTombstone → List LedgerAuditTombstone → Map LedgerAuditTombstone
by_sequence m [] = m
by_sequence m (t ∷ ts) = by_sequence (store t.terminal_sequence t m) ts

-- What the loop over the claims of truncated attempts remembers: the attempt of the first one, 0
-- before it, the last ordinal, and whether a retained attempt came before.
pub record Leading : Type 0 where
  pub attempt_sequence : ℕ
  pub ordinal : ℕ
  pub attempt_seen : Bool

unfoldable pub lead : ℕ → Leading → LedgerAuditTombstone → Result RestartError Leading
lead truncated s t =
    if same_kind t.object_kind attempt
    then ok (record s { attempt_seen = true })
    else if not (same_kind t.object_kind claim) || ltb truncated t.attempt_terminal_sequence
    then ok s
    else if s.attempt_seen
    then err claim_follows_attempts
    else if s.attempt_sequence == 0
    then ok (record s { attempt_sequence = t.attempt_terminal_sequence; ordinal = t.claim_ordinal })
    else if not (t.attempt_terminal_sequence == s.attempt_sequence)
        || s.ordinal == max_uint64
        || not (t.claim_ordinal == u64 (s.ordinal + 1))
    then err suffix_incoherent
    else ok (record s { ordinal = t.claim_ordinal })

unfoldable pub check_leading :
    ℕ → Leading → List LedgerAuditTombstone → Result RestartError (Unit {0})
unfolding lead
check_leading truncated s [] = ok tt
check_leading truncated s (t ∷ ts) = lead truncated s t >>= λ s'. check_leading truncated s' ts

abbrev pub has_kind : Option LedgerAuditTombstone → AuditObjectKind → Bool
has_kind none k = false
has_kind (some t) k = same_kind t.object_kind k

-- What a claim's ordinal must be, after the last one of the same attempt.
abbrev check_ordinal : Option ℕ → ℕ → LedgerAuditTombstone → Result RestartError (Unit {0})
check_ordinal (some prior) truncated t =
    refuse_if (prior == max_uint64 || not (t.claim_ordinal == u64 (prior + 1)))
      ordinals_not_contiguous
check_ordinal none truncated t =
    refuse_if (ltb truncated t.attempt_terminal_sequence && not (t.claim_ordinal == 0))
      lacks_first_claim

unfoldable pub check_claim :
    LedgerLimits
    → LedgerRestartState
    → Map LedgerAuditTombstone
    → Map ℕ
    → LedgerAuditTombstone
    → Result RestartError (Unit {0})
check_claim l r m last t =
    let offset = u64 (t.claim_ordinal + 1) in
    refuse_if (leb l.max_claim_entries_per_attempt t.claim_ordinal || t.claim_ordinal == max_uint64)
      claim_ordinal_invalid
    >> refuse_if
        (ltb (u64_minus max_uint64 offset) t.attempt_terminal_sequence
          || not (t.terminal_sequence == u64 (t.attempt_terminal_sequence + offset)))
        claim_sequence_invalid
    >> refuse_if
        (ltb r.truncated_through_sequence t.attempt_terminal_sequence
          && not (has_kind (find t.attempt_terminal_sequence m) attempt))
        target_not_attempt
    >> check_ordinal (find t.attempt_terminal_sequence last) r.truncated_through_sequence t

-- The claims of an attempt are the tombstones behind it.
unfoldable pub check_interval :
    LedgerAuditTombstone → ℕ → ℕ → List LedgerAuditTombstone → Result RestartError (Unit {0})
check_interval t ordinal zero rest = ok tt
check_interval t ordinal (suc left) [] = err index_out_of_range
check_interval t ordinal (suc left) (c ∷ rest) =
    refuse_if
      (not (same_kind c.object_kind claim)
        || not (c.attempt_terminal_sequence == t.terminal_sequence)
        || not (c.claim_ordinal == ordinal)
        || not (c.terminal_sequence == u64 (t.terminal_sequence + ordinal + 1)))
      interval_invalid
    >> refuse_if
        ((same_bytes t.terminal_outcome (phase_text published)
            || same_bytes t.terminal_outcome (phase_text publish_failed))
          && not (same_bytes c.terminal_outcome (claim_text claim_succeeded)))
        impossible_outcome
    >> check_interval t (ordinal + 1) left rest

unfoldable pub check_attempt :
    LedgerLimits
    → LedgerRestartState
    → LedgerAuditTombstone
    → List LedgerAuditTombstone
    → Result RestartError (Unit {0})
check_attempt l r t rest =
    refuse_if
      (ltb l.max_claim_entries_per_attempt t.claim_count
        || ltb (u64_minus max_uint64 t.terminal_sequence) t.claim_count)
      claim_count_invalid
    >> refuse_if
        (ltb (end_sequence r) (u64 (t.terminal_sequence + t.claim_count))
          || ltb (length rest) t.claim_count)
        interval_incomplete
    >> check_interval t 0 t.claim_count rest

abbrev check_record :
    AuditObjectKind
    → LedgerLimits
    → LedgerRestartState
    → Map LedgerAuditTombstone
    → Map ℕ
    → LedgerAuditTombstone
    → List LedgerAuditTombstone
    → Result RestartError (Unit {0})
check_record claim l r m last t rest = check_claim l r m last t
check_record attempt l r m last t rest = check_attempt l r t rest
check_record other l r m last t rest = err kind_invalid

abbrev note_ordinal : AuditObjectKind → LedgerAuditTombstone → Map ℕ → Map ℕ
note_ordinal claim t last = store t.attempt_terminal_sequence t.claim_ordinal last
note_ordinal attempt t last = last
note_ordinal other t last = last

-- The loop over all tombstones, with the last ordinal of each attempt.
unfoldable pub check_records :
    LedgerLimits
    → LedgerRestartState
    → Map LedgerAuditTombstone
    → Map ℕ
    → List LedgerAuditTombstone
    → Result RestartError (Unit {0})
check_records l r m last [] = ok tt
check_records l r m last (t ∷ ts) =
    check_record t.object_kind l r m last t ts
    >> check_records l r m (note_ordinal t.object_kind t last) ts

abbrev beyond : Option LedgerAuditTombstone → LedgerAuditTombstone → Bool
beyond none t = false
beyond (some target) t =
    same_kind target.object_kind attempt && leb target.claim_count t.claim_ordinal

unfoldable pub check_reservations :
    Map LedgerAuditTombstone → List LedgerAuditTombstone → Result RestartError (Unit {0})
check_reservations m [] = ok tt
check_reservations m (t ∷ ts) =
    refuse_if (same_kind t.object_kind claim && beyond (find t.attempt_terminal_sequence m) t)
      exceeds_reservation
    >> check_reservations m ts

-- The checks after the history's loop.
unfoldable pub check_claims : LedgerLimits → LedgerRestartState → Result RestartError (Unit {0})
check_claims l r =
    let m = by_sequence [] r.audit_tombstones in
    check_leading r.truncated_through_sequence
      (record { attempt_sequence = 0; ordinal = 0; attempt_seen = false }) r.audit_tombstones
    >> check_records l r m [] r.audit_tombstones
    >> check_reservations m r.audit_tombstones

-- A history that is not empty.
unfoldable pub check_retained : LedgerLimits → LedgerRestartState → Result RestartError (Unit {0})
check_retained l r =
    refuse_if (r.truncated_through_sequence == max_uint64) follows_exhausted
    >> (check_history l (some (u64 (r.truncated_through_sequence + 1))) 0 r.audit_tombstones
        >>= λ last. refuse_if (not (last == end_sequence r)) not_at_watermark >> check_claims l r)

abbrev pub has_history : List LedgerAuditTombstone → Bool
has_history [] = false
has_history (t ∷ ts) = true

-- `validateLedgerRestartState`; `bounded` is whether `marshalBounded` of serialization.go encodes it.
unfoldable pub validate_restart_state :
    (LedgerRestartState → Bool) → LedgerRestartState → LedgerLimits → Result RestartError (Unit {0})
validate_restart_state bounded r l =
    refuse_if (header_invalid r l) state_invalid
    >> refuse_if (ltb (end_sequence r) r.truncated_through_sequence) truncation_invalid
    >> (if has_history r.audit_tombstones
        then check_retained l r >> refuse_if (not (bounded r)) aggregate_too_large
        else refuse_if (not (r.truncated_through_sequence == end_sequence r)) empty_lacks_watermark)

-- `maximumLedgerRestartValidationLimits`
abbrev pub maximum_restart_limits : LedgerLimits
maximum_restart_limits = record default_ledger_limits {
  max_claim_entries_per_attempt = max_profile_dependencies;
  audit_tombstone_limit = max_serialized_contract_bytes / 64;
  audit_tombstone_max_encoded_bytes = max_serialized_contract_bytes;
}

abbrev pub same_tombstone : LedgerAuditTombstone → LedgerAuditTombstone → Bool
same_tombstone a b =
    a.schema_version == b.schema_version
    && same_kind a.object_kind b.object_kind
    && a.terminal_sequence == b.terminal_sequence
    && a.claim_count == b.claim_count
    && a.attempt_terminal_sequence == b.attempt_terminal_sequence
    && a.claim_ordinal == b.claim_ordinal
    && same_bytes a.terminal_outcome b.terminal_outcome

abbrev pub is_same : Option LedgerAuditTombstone → LedgerAuditTombstone → Bool
is_same none t = false
is_same (some c) t = same_tombstone c t

-- The loop over the earlier history.
unfoldable pub overlaps_agree : ℕ → Map LedgerAuditTombstone → List LedgerAuditTombstone → Bool
overlaps_agree truncated m [] = true
overlaps_agree truncated m (t ∷ ts) =
    (leb t.terminal_sequence truncated || is_same (find t.terminal_sequence m) t)
    && overlaps_agree truncated m ts

abbrev pub is_valid_restart : (LedgerRestartState → Bool) → LedgerRestartState → Bool
is_valid_restart bounded r = elim (validate_restart_state bounded r maximum_restart_limits) [
  | ok u ↦ true
  | err e ↦ false
]

-- `CoversTerminalWatermark`
unfoldable pub covers_terminal_watermark :
    (LedgerRestartState → Bool) → LedgerRestartState → LedgerRestartState → Bool
covers_terminal_watermark bounded restart prior =
    is_valid_restart bounded restart
    && is_valid_restart bounded prior
    && not (prior.sequence_exhausted && not restart.sequence_exhausted)
    && not (
        not restart.sequence_exhausted
        && not prior.sequence_exhausted
        && ltb restart.next_terminal_sequence prior.next_terminal_sequence)
    && overlaps_agree restart.truncated_through_sequence (by_sequence [] restart.audit_tombstones)
        prior.audit_tombstones
