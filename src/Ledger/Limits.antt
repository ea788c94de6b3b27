-- ===== src/Ledger/Limits.antt =====
-- limits.go: the bounds of the attempt ledger. A Go int that is not positive stands as 0 here: the
-- same check refuses both.
use helianthus_modbusreg.Base.{
  ℕ, ◌*◌, ◌/◌, ◌^◌, ◌≤◌, ◌≡◌, refl, Bool, false, ◌||◌, Result, ok, ltb, ◌==◌, arith, List, [], ◌∷◌,
  ◌>>◌, refuse_if, ◌↔◌, All,
}
use native.Mathlib.Nat.{le-div_iff_mul-le, le_trans, mul-le-mul}

pub record LedgerLimits : Type 0 where
  pub max_retained_attempts : ℕ
  pub max_claim_entries_per_attempt : ℕ
  pub max_retained_claim_entries : ℕ
  pub max_dependency_set_encoded_bytes : ℕ
  pub attempt_key_max_utf8_bytes : ℕ
  pub normalization_record_max_encoded_bytes : ℕ
  pub retained_diagnostic_count_per_object_max : ℕ
  pub retained_diagnostic_max_utf8_bytes : ℕ
  pub audit_tombstone_limit : ℕ
  pub audit_tombstone_max_encoded_bytes : ℕ

abbrev pub max_profile_dependencies : ℕ
max_profile_dependencies = 4096

abbrev pub max_contract_string_bytes : ℕ
max_contract_string_bytes = 4096

abbrev pub max_serialized_contract_bytes : ℕ
max_serialized_contract_bytes = 4 * 1024 * 1024

-- `int(^uint(0)>>1)` of a 64-bit platform.
abbrev pub max_int : ℕ
max_int = 0x7fff_ffff_ffff_ffff

abbrev pub default_ledger_limits : LedgerLimits
default_ledger_limits = record {
  max_retained_attempts = 64;
  max_claim_entries_per_attempt = max_profile_dependencies;
  max_retained_claim_entries = 64 * max_profile_dependencies;
  max_dependency_set_encoded_bytes = max_serialized_contract_bytes;
  attempt_key_max_utf8_bytes = max_contract_string_bytes;
  normalization_record_max_encoded_bytes = max_serialized_contract_bytes;
  retained_diagnostic_count_per_object_max = 32;
  retained_diagnostic_max_utf8_bytes = max_contract_string_bytes;
  audit_tombstone_limit = 4096;
  audit_tombstone_max_encoded_bytes = 256;
}

pub data LimitsError : Type 0 where
  not_positive exceeds_contract product_overflows inconsistent : LimitsError

-- `for _, value := range positive`
unfoldable pub any_zero : List ℕ → Bool
any_zero [] = false
any_zero (v ∷ vs) = v == 0 || any_zero vs

unfoldable pub exceeds_contract_maximum : LedgerLimits → Bool
exceeds_contract_maximum l =
    ltb (2 ^ 16) l.max_retained_attempts
    || ltb max_profile_dependencies l.max_claim_entries_per_attempt
    || ltb max_serialized_contract_bytes l.max_dependency_set_encoded_bytes
    || ltb max_contract_string_bytes l.attempt_key_max_utf8_bytes
    || ltb max_serialized_contract_bytes l.normalization_record_max_encoded_bytes
    || ltb max_profile_dependencies l.retained_diagnostic_count_per_object_max
    || ltb max_contract_string_bytes l.retained_diagnostic_max_utf8_bytes
    || ltb (2 ^ 20) l.audit_tombstone_limit
    || ltb max_serialized_contract_bytes l.audit_tombstone_max_encoded_bytes

-- The slice `positive`.
abbrev positive : LedgerLimits → List ℕ
positive l =
    l.max_retained_attempts ∷ l.max_claim_entries_per_attempt ∷ l.max_retained_claim_entries
    ∷ l.max_dependency_set_encoded_bytes ∷ l.attempt_key_max_utf8_bytes
    ∷ l.normalization_record_max_encoded_bytes ∷ l.retained_diagnostic_count_per_object_max
    ∷ l.retained_diagnostic_max_utf8_bytes ∷ l.audit_tombstone_limit
    ∷ l.audit_tombstone_max_encoded_bytes ∷ []

-- `validateLedgerLimits`
unfoldable pub validate_ledger_limits : LedgerLimits → Result LimitsError (Unit {0})
validate_ledger_limits l = do
  refuse_if (any_zero (positive l)) not_positive
  refuse_if (exceeds_contract_maximum l) exceeds_contract
  refuse_if (ltb (max_int / l.max_claim_entries_per_attempt) l.max_retained_attempts)
      product_overflows
  refuse_if
      (ltb l.max_retained_claim_entries l.max_claim_entries_per_attempt
        || ltb (l.max_retained_attempts * l.max_claim_entries_per_attempt)
            l.max_retained_claim_entries)
      inconsistent

-- What limits must be: positive, under the contract's maxima, and such that the ledger can hold one
-- full attempt and never promises more claim entries than its attempts can carry.
pub record AreValid (l : LedgerLimits) : Type 0 where
  pub attempts : (1 ≤ l.max_retained_attempts) × (l.max_retained_attempts ≤ 65536)
  pub claims : (1 ≤ l.max_claim_entries_per_attempt) × (l.max_claim_entries_per_attempt ≤ 4096)
  pub one_fits : l.max_claim_entries_per_attempt ≤ l.max_retained_claim_entries
  pub no_more :
      l.max_retained_claim_entries ≤ l.max_retained_attempts * l.max_claim_entries_per_attempt
  pub set_bytes :
      (1 ≤ l.max_dependency_set_encoded_bytes) × (l.max_dependency_set_encoded_bytes ≤ 4194304)
  pub key_bytes : (1 ≤ l.attempt_key_max_utf8_bytes) × (l.attempt_key_max_utf8_bytes ≤ 4096)
  pub record_bytes :
      (1 ≤ l.normalization_record_max_encoded_bytes)
      × (l.normalization_record_max_encoded_bytes ≤ 4194304)
  pub diagnostics :
      (1 ≤ l.retained_diagnostic_count_per_object_max)
      × (l.retained_diagnostic_count_per_object_max ≤ 4096)
  pub diagnostic_bytes :
      (1 ≤ l.retained_diagnostic_max_utf8_bytes) × (l.retained_diagnostic_max_utf8_bytes ≤ 4096)
  pub tombstones : (1 ≤ l.audit_tombstone_limit) × (l.audit_tombstone_limit ≤ 1048576)
  pub tombstone_bytes :
      (1 ≤ l.audit_tombstone_max_encoded_bytes) × (l.audit_tombstone_max_encoded_bytes ≤ 4194304)

-- The product cannot overflow once the other bounds hold.
product_fits : (a c : ℕ) → a ≤ 65536 → 1 ≤ c → c ≤ 4096 → a ≤ max_int / c
product_fits a c ha hc hc' = (le-div_iff_mul-le hc).1 (le_trans (mul-le-mul ha hc') (omega arith))

any_zero-all : (vs : List ℕ) → any_zero vs ≡ false → All (λ v. 1 ≤ v) vs
unfolding any_zero
any_zero-all [] h = tt
any_zero-all (v ∷ vs) h = (ground arith, any_zero-all vs (ground arith))

all-any_zero : (vs : List ℕ) → All (λ v. 1 ≤ v) vs → any_zero vs ≡ false
unfolding any_zero
all-any_zero [] h = refl
all-any_zero (v ∷ vs) h = ground (arith, all-any_zero vs h.1)

-- The check accepts exactly the valid limits; its test for overflow of the product refuses none.
pub validate-AreValid : (l : LedgerLimits) → (validate_ledger_limits l ≡ ok tt) ↔ AreValid l
unfolding validate_ledger_limits exceeds_contract_maximum
validate-AreValid l = (accepted, complete)
  where
    accepted : validate_ledger_limits l ≡ ok tt → AreValid l
    accepted h =
        let some_each : All (λ v. 1 ≤ v) (positive l) = any_zero-all (positive l) (ground arith) in
        ground (arith, some_each)

    complete : AreValid l → validate_ledger_limits l ≡ ok tt
    complete v = ground (
      arith,
      all-any_zero (positive l) (omega arith),
      product_fits l.max_retained_attempts l.max_claim_entries_per_attempt,
    )
