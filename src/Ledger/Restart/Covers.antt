-- ===== src/Ledger/Restart/Covers.antt =====
-- Two restart states, of which one covers the other.
use helianthus_modbusreg.Base.{
  ℕ, suc, ◌≤◌, ◌≡◌, refl, subst, Bool, true, false, ◌&&◌, not, List, [], ◌∷◌, some, ltb, ◌==◌, All,
  get_elem?, leb, none, Option, arith, Bool-cases, inl, inr, ◌⊎◌, Map, find, store, find-store,
}
use helianthus_modbusreg.Base.Bytes.{same_bytes_eq}
use helianthus_modbusreg.Ledger.{
  AuditObjectKind, LedgerAuditTombstone, LedgerRestartState, max_uint64,
}
use helianthus_modbusreg.Ledger.Restart.{
  end_sequence, header_invalid, by_sequence, validate_restart_state, maximum_restart_limits,
  same_kind, same_tombstone, is_same, overlaps_agree, is_valid_restart, covers_terminal_watermark,
}

valid_header :
    (bounded : LedgerRestartState → Bool) (r : LedgerRestartState)
    → is_valid_restart bounded r ≡ true
    → header_invalid r maximum_restart_limits ≡ false
unfolding validate_restart_state
valid_header bounded r h = elim (Bool-cases (header_invalid r maximum_restart_limits)) [
  | inl q ↦ absurd (ground (arith, q, h))
  | inr q ↦ q
]

end_sequence_mono :
    (restart prior : LedgerRestartState)
    → restart.next_terminal_sequence ≤ max_uint64
    → prior.next_terminal_sequence ≤ max_uint64
    → header_invalid restart maximum_restart_limits ≡ false
    → header_invalid prior maximum_restart_limits ≡ false
    → (prior.sequence_exhausted && not restart.sequence_exhausted) ≡ false
    → (not restart.sequence_exhausted
        && not prior.sequence_exhausted
        && ltb restart.next_terminal_sequence prior.next_terminal_sequence)
      ≡ false
    → end_sequence prior ≤ end_sequence restart
unfolding end_sequence header_invalid
end_sequence_mono restart prior hr hp vr vp x n = ground arith

-- A tombstone stands at some place of a history.
abbrev pub Retained : List LedgerAuditTombstone → LedgerAuditTombstone → Type 0
Retained ts t = (k : ℕ) × (get_elem? ts k ≡ some t)

-- A tombstone of the earlier state is truncated in the later one, or stands there, all of its fields
-- as they were.
abbrev pub Agrees : LedgerRestartState → LedgerAuditTombstone → Type 0
Agrees restart t =
    (t.terminal_sequence ≤ restart.truncated_through_sequence) ⊎ Retained restart.audit_tombstones t

same_kind_eq : (a b : AuditObjectKind) → same_kind a b ≡ true → a ≡ b
same_kind_eq a b h = ground arith

same_tombstone_eq : (a b : LedgerAuditTombstone) → same_tombstone a b ≡ true → a ≡ b
same_tombstone_eq a b h =
    let kind = same_kind_eq a.object_kind b.object_kind (ground arith) in
    let outcome = same_bytes_eq a.terminal_outcome b.terminal_outcome (ground arith) in
    ground (arith, kind, outcome, h)

find-by_sequence :
    (n : ℕ) (m : Map LedgerAuditTombstone) (ts : List LedgerAuditTombstone)
    (c : LedgerAuditTombstone)
    → find n (by_sequence m ts) ≡ some c
    → (find n m ≡ some c) ⊎ Retained ts c
unfolding by_sequence
find-by_sequence n m [] c h = inl h
find-by_sequence n m (t ∷ ts) c h =
    elim (find-by_sequence n (store t.terminal_sequence t m) ts c h) [
      | inr (k, q) ↦ inr (suc k, q)
      | inl q ↦ elim (Bool-cases (t.terminal_sequence == n)) [
        | inl e ↦ inr (0, ground (arith, find-store t.terminal_sequence n t m, q, e))
        | inr e ↦ inl (ground (arith, find-store t.terminal_sequence n t m, q, e))
      ]
    ]

is_same-Retained :
    (o : Option LedgerAuditTombstone) (ts : List LedgerAuditTombstone) (t : LedgerAuditTombstone)
    → ((c : LedgerAuditTombstone) → o ≡ some c → Retained ts c)
    → is_same o t ≡ true
    → Retained ts t
is_same-Retained none ts t f h = cc
is_same-Retained (some c) ts t f h = subst (Retained ts) (same_tombstone_eq c t h) (f c refl)

found-Retained :
    (ts : List LedgerAuditTombstone) (n : ℕ) (c : LedgerAuditTombstone)
    → find n (by_sequence [] ts) ≡ some c
    → Retained ts c
found-Retained ts n c h = elim (find-by_sequence n [] ts c h) [ inl q ↦ cc | inr r ↦ r ]

overlaps_agree-Agrees :
    (restart : LedgerRestartState) (ts : List LedgerAuditTombstone)
    → overlaps_agree restart.truncated_through_sequence (by_sequence [] restart.audit_tombstones) ts
      ≡ true
    → All (Agrees restart) ts
unfolding overlaps_agree
overlaps_agree-Agrees restart [] h = tt
overlaps_agree-Agrees restart (t ∷ ts) h =
    let rest = overlaps_agree-Agrees restart ts (ground arith) in
    elim (Bool-cases (leb t.terminal_sequence restart.truncated_through_sequence)) [
      | inl q ↦ (inl (ground (arith, q)), rest)
      | inr q ↦
          let held = find t.terminal_sequence (by_sequence [] restart.audit_tombstones) in
          let same : is_same held t ≡ true = ground (arith, q, h) in
          (
            inr (
                is_same-Retained held restart.audit_tombstones t
                  (found-Retained restart.audit_tombstones t.terminal_sequence) same),
            rest,
          )
    ]

-- A state that covers an earlier one has spent every sequence that the earlier one had, and each
-- tombstone of the earlier one is truncated in it, or stands in its history with all fields as they
-- were.
pub covers_terminal_watermark-Agrees :
    (bounded : LedgerRestartState → Bool) (restart prior : LedgerRestartState)
    → restart.next_terminal_sequence ≤ max_uint64
    → prior.next_terminal_sequence ≤ max_uint64
    → covers_terminal_watermark bounded restart prior ≡ true
    → (end_sequence prior ≤ end_sequence restart) × All (Agrees restart) prior.audit_tombstones
unfolding covers_terminal_watermark
covers_terminal_watermark-Agrees bounded restart prior hr hp e = (
  end_sequence_mono restart prior hr hp (valid_header bounded restart (ground arith))
      (valid_header bounded prior (ground arith)) (ground arith) (ground arith),
  overlaps_agree-Agrees restart prior.audit_tombstones (ground arith),
)
