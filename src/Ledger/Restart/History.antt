-- ===== src/Ledger/Restart/History.antt =====
-- What a valid restart state says of the sequences.
use helianthus_modbusreg.Base.{
  ℕ, suc, ◌+◌, ◌-◌, ◌≤◌, ◌<◌, ◌≡◌, refl, sym, ap, subst, ◌∙◌, Bool, true, false, List, [], ◌∷◌,
  some, ok, ◌==◌, All, length, arith, Bool-cases, Result-cases, inl, inr, ◌⊎◌,
}
use helianthus_modbusreg.Ledger.{LedgerAuditTombstone, LedgerRestartState, max_uint64}
use helianthus_modbusreg.Ledger.Limits.{LedgerLimits}
use helianthus_modbusreg.Ledger.Sequence.{u64}
use helianthus_modbusreg.Ledger.Sequence.Contiguous.{count_up}
use helianthus_modbusreg.Ledger.Tombstone.{marshal_tombstone, oversized}
use helianthus_modbusreg.Ledger.Restart.{
  end_sequence, header_invalid, check_history, check_retained, has_history, validate_restart_state,
}

abbrev pub sequences : List LedgerAuditTombstone → List ℕ
sequences [] = []
sequences (t ∷ ts) = t.terminal_sequence ∷ sequences ts

abbrev pub Fits : LedgerLimits → LedgerAuditTombstone → Type 0
Fits l t = oversized (marshal_tombstone t) l.audit_tombstone_max_encoded_bytes ≡ false

-- The history after the truncation holds each sequence up to the last one given out, once and in
-- order, and each of its tombstones has a bounded encoding.
pub record Complete (r : LedgerRestartState) (l : LedgerLimits) : Type 0 where
  pub truncation : r.truncated_through_sequence ≤ end_sequence r
  pub contiguous :
      sequences r.audit_tombstones
      ≡ count_up (suc r.truncated_through_sequence) (end_sequence r - r.truncated_through_sequence)
  pub fits : All (Fits l) r.audit_tombstones
  pub counted : length r.audit_tombstones ≤ l.audit_tombstone_limit

check_history-head :
    (l : LedgerLimits) (n previous : ℕ) (t : LedgerAuditTombstone) (ts : List LedgerAuditTombstone)
    (last : ℕ)
    → check_history l (some n) previous (t ∷ ts) ≡ ok last
    → (t.terminal_sequence ≡ n) × Fits l t
unfolding check_history
check_history-head l n previous t ts last e = ground arith

check_history-one :
    (l : LedgerLimits) (n previous : ℕ) (t : LedgerAuditTombstone) (last : ℕ)
    → check_history l (some n) previous (t ∷ []) ≡ ok last
    → last ≡ n
unfolding check_history
check_history-one l n previous t last e = ground arith

check_history-more :
    (l : LedgerLimits) (n previous : ℕ) (t u : LedgerAuditTombstone)
    (ts : List LedgerAuditTombstone) (last : ℕ)
    → n ≤ max_uint64
    → check_history l (some n) previous (t ∷ u ∷ ts) ≡ ok last
    → (n < max_uint64) × (check_history l (some (suc n)) n (u ∷ ts) ≡ ok last)
unfolding check_history
check_history-more l n previous t u ts last h e =
    elim (Bool-cases (t.terminal_sequence == max_uint64)) [
      | inl q ↦ absurd (ground (arith, q, e))
      | inr q ↦
          let at : t.terminal_sequence ≡ n = ground arith in
          let below : n < max_uint64 = ground arith in
          let up : u64 (t.terminal_sequence + 1) ≡ suc n = omega arith in
          (below, grind (arith, q, up, at, e))
    ]

check_history-contiguous :
    (l : LedgerLimits) (n previous : ℕ) (t : LedgerAuditTombstone) (ts : List LedgerAuditTombstone)
    (last : ℕ)
    → n ≤ max_uint64
    → check_history l (some n) previous (t ∷ ts) ≡ ok last
    → (n ≤ last)
      × (last ≤ max_uint64)
      × (sequences (t ∷ ts) ≡ count_up n (suc (last - n)))
      × All (Fits l) (t ∷ ts)
check_history-contiguous l n previous t [] last h e =
    let (at, fits) = check_history-head l n previous t [] last e in
    let end = check_history-one l n previous t last e in
    let none_more : 0 ≡ last - n = omega arith in
    (
      omega arith,
      omega arith,
      ap (λ k. k ∷ []) at ∙ ap (λ k. n ∷ count_up (suc n) k) none_more,
      (fits, tt),
    )
check_history-contiguous l n previous t (u ∷ ts) last h e =
    let (at, fits) = check_history-head l n previous t (u ∷ ts) last e in
    let (below, rest) = check_history-more l n previous t u ts last h e in
    let (low, high, order, all_fit) =
      check_history-contiguous l (suc n) n u ts last (omega arith) rest in
    let left : suc (last - suc n) ≡ last - n = omega arith in
    (
      omega arith,
      high,
      ap (λ k. k ∷ sequences (u ∷ ts)) at
          ∙ ap (λ k. n ∷ k) order
          ∙ ap (λ k. n ∷ count_up (suc n) k) left,
      (fits, all_fit),
    )

end_sequence-le : (r : LedgerRestartState) → end_sequence r ≤ max_uint64
unfolding end_sequence
end_sequence-le r = ground arith

check_retained-last :
    (l : LedgerLimits) (r : LedgerRestartState)
    → r.truncated_through_sequence ≤ end_sequence r
    → check_retained l r ≡ ok tt
    → (r.truncated_through_sequence < max_uint64)
      × (check_history l (some (suc r.truncated_through_sequence)) 0 r.audit_tombstones
          ≡ ok (end_sequence r))
unfolding check_retained
check_retained-last l r low e =
    let below : r.truncated_through_sequence < max_uint64 = ground (arith, end_sequence-le r) in
    let up : u64 (r.truncated_through_sequence + 1) ≡ suc r.truncated_through_sequence =
      omega arith in
    elim (Result-cases
      (check_history l (some (u64 (r.truncated_through_sequence + 1))) 0 r.audit_tombstones)) [
        | inl (last, q) ↦
            let at_end : last ≡ end_sequence r = ground arith in
            (below, grind (arith, q, up, at_end))
        | inr (f, q) ↦ absurd (ground arith)
      ]

retained-Complete :
    (r : LedgerRestartState) (l : LedgerLimits) (t : LedgerAuditTombstone)
    (ts : List LedgerAuditTombstone)
    → r.audit_tombstones ≡ t ∷ ts
    → r.truncated_through_sequence ≤ end_sequence r
    → length r.audit_tombstones ≤ l.audit_tombstone_limit
    → check_retained l r ≡ ok tt
    → Complete r l
retained-Complete r l t ts h low few e =
    let (below, run) = check_retained-last l r low e in
    let run_here : check_history l (some (suc r.truncated_through_sequence)) 0 (t ∷ ts)
        ≡ ok (end_sequence r) =
      ap (check_history l (some (suc r.truncated_through_sequence)) 0) (sym h) ∙ run in
    let (first, top, order, all_fit) =
      check_history-contiguous l (suc r.truncated_through_sequence) 0 t ts (end_sequence r)
        (omega arith) run_here in
    let number : suc (end_sequence r - suc r.truncated_through_sequence)
        ≡ end_sequence r - r.truncated_through_sequence =
      omega arith in
    record {
      truncation = low;
      contiguous = ap sequences h ∙ order ∙ ap (count_up (suc r.truncated_through_sequence)) number;
      fits = subst (All (Fits l)) (sym h) all_fit;
      counted = few;
    }

list_cases :
    (ts : List LedgerAuditTombstone)
    → (ts ≡ []) ⊎ ((u : LedgerAuditTombstone) × (us : List LedgerAuditTombstone) × (ts ≡ u ∷ us))
list_cases [] = inl refl
list_cases (u ∷ us) = inr (u, us, refl)

validate-bounds :
    (bounded : LedgerRestartState → Bool) (r : LedgerRestartState) (l : LedgerLimits)
    → validate_restart_state bounded r l ≡ ok tt
    → (r.truncated_through_sequence ≤ end_sequence r)
      × (length r.audit_tombstones ≤ l.audit_tombstone_limit)
unfolding validate_restart_state header_invalid
validate-bounds bounded r l e = ground arith

validate-empty :
    (bounded : LedgerRestartState → Bool) (r : LedgerRestartState) (l : LedgerLimits)
    → has_history r.audit_tombstones ≡ false
    → validate_restart_state bounded r l ≡ ok tt
    → r.truncated_through_sequence ≡ end_sequence r
unfolding validate_restart_state
validate-empty bounded r l h e = ground arith

validate-retained :
    (bounded : LedgerRestartState → Bool) (r : LedgerRestartState) (l : LedgerLimits)
    → has_history r.audit_tombstones ≡ true
    → validate_restart_state bounded r l ≡ ok tt
    → check_retained l r ≡ ok tt
unfolding validate_restart_state
validate-retained bounded r l h e = ground arith

-- A restart state that is accepted holds each sequence after its truncation up to the last one given
-- out, once and in order, within the limit on tombstones and on the encoding of each.
pub validate_restart_state-Complete :
    (bounded : LedgerRestartState → Bool) (r : LedgerRestartState) (l : LedgerLimits)
    → validate_restart_state bounded r l ≡ ok tt
    → Complete r l
validate_restart_state-Complete bounded r l e =
    let (low, few) = validate-bounds bounded r l e in
    elim (list_cases r.audit_tombstones) [
      | inl h ↦
          let all_gone = validate-empty bounded r l (ap has_history h) e in
          let no_number : 0 ≡ end_sequence r - r.truncated_through_sequence = omega arith in
          record {
            truncation = low;
            contiguous =
                ap sequences h ∙ ap (count_up (suc r.truncated_through_sequence)) no_number;
            fits = subst (All (Fits l)) (sym h) tt;
            counted = few;
          }
      | inr (t, ts, h) ↦
          retained-Complete r l t ts h low few (validate-retained bounded r l (ap has_history h) e)
    ]
