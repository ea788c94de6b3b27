-- ===== src/Tesla/Profile/Admission.antt =====
-- Which requests a profile admits and sends.
use helianthus_modbusreg.Base.{
  ℕ, ◌≡◌, ◌↔◌, refl, sym, ap, subst, ◌∙◌, true, Option, none, some, List, ok, arith,
}
use helianthus_modbusreg.Base.Bytes.{ascii, same_bytes, same_bytes_eq}
use helianthus_modbusreg.Tesla.Profile.{
  AdmissionState, allowed_wc_vitals, allowed_common_system_info, allowed_wc_lifetime,
  allowed_wc_system_info, allowed_wc_load_sharing_state, TeslaHscProfileConfig, TeslaHscProfile,
  TedapiOperation, wc_vitals_v1, common_system_info_v1, wc_lifetime_v1, wc_system_info_v1,
  wc_load_sharing_state_v1, other_operation, new_profile, gate_operation, gate,
  operation_admission_for,
}

-- The version that the configuration gives an operation.
abbrev pub operation_version : TeslaHscProfileConfig → TedapiOperation → Option (List ℕ)
operation_version c wc_vitals_v1 = some c.wc_vitals_operation_version
operation_version c common_system_info_v1 = some c.system_info_operation_version
operation_version c wc_lifetime_v1 = some c.wc_lifetime_operation_version
operation_version c wc_system_info_v1 = some c.wc_system_info_operation_version
operation_version c wc_load_sharing_state_v1 = some c.wc_load_sharing_state_operation_version
operation_version c other_operation = none

-- Every gate in front of an operation.
pub record IsAdmitted (c : TeslaHscProfileConfig) (operation : TedapiOperation) : Type 0 where
  pub is_enabled : c.enabled ≡ true
  pub is_passive : c.passive_compatible ≡ true
  pub profile_version : c.compatibility_version ≡ ascii "tesla_hsc_modbus_v1"
  pub version_met : operation_version c operation ≡ some (ascii "wc3_24_44_3")

gate-version :
    (v : List ℕ) (a : AdmissionState)
    → ((gate v a).outbound_allowed ≡ true) ↔ (v ≡ ascii "wc3_24_44_3")
gate-version v a = (
  λ h. same_bytes_eq v (ascii "wc3_24_44_3") (ground arith),
  λ h. subst (λ w. (gate w a).outbound_allowed ≡ true) (sym h) refl,
)

some_iff : {A : Type 0} (P : Type 0) (a b : A) → P ↔ (a ≡ b) → P ↔ (some a ≡ some b)
some_iff P a b f = (λ p. ap some (f.0 p), λ e. f.1 (cc e))

gate_operation-version :
    (c : TeslaHscProfileConfig) (operation : TedapiOperation)
    → ((gate_operation c operation).outbound_allowed ≡ true)
      ↔ (operation_version c operation ≡ some (ascii "wc3_24_44_3"))
unfolding gate_operation
gate_operation-version c wc_vitals_v1 =
    some_iff _ _ _ (gate-version c.wc_vitals_operation_version allowed_wc_vitals)
gate_operation-version c common_system_info_v1 =
    some_iff _ _ _ (gate-version c.system_info_operation_version allowed_common_system_info)
gate_operation-version c wc_lifetime_v1 =
    some_iff _ _ _ (gate-version c.wc_lifetime_operation_version allowed_wc_lifetime)
gate_operation-version c wc_system_info_v1 =
    some_iff _ _ _ (gate-version c.wc_system_info_operation_version allowed_wc_system_info)
gate_operation-version c wc_load_sharing_state_v1 =
    some_iff _ _ _
      (gate-version c.wc_load_sharing_state_operation_version allowed_wc_load_sharing_state)
gate_operation-version c other_operation = (λ h. cc, λ h. cc)

admitted :
    (c : TeslaHscProfileConfig) (p : TeslaHscProfile) (operation : TedapiOperation)
    → new_profile c ≡ ok p
    → (operation_admission_for p operation).outbound_allowed ≡ true
    → IsAdmitted c operation
unfolding new_profile operation_admission_for
admitted c p operation made h =
    let kept : p.config ≡ c = ground arith in
    let allowed : (gate_operation p.config operation).outbound_allowed ≡ true = ground arith in
    record {
      is_enabled = ground arith;
      is_passive = ground arith;
      profile_version =
          same_bytes_eq c.compatibility_version (ascii "tesla_hsc_modbus_v1") (ground arith);
      version_met =
          (gate_operation-version c operation).0
            (ap (λ a. (gate_operation a operation).outbound_allowed) (sym kept) ∙ allowed);
    }

admits :
    (c : TeslaHscProfileConfig) (p : TeslaHscProfile) (operation : TedapiOperation)
    → new_profile c ≡ ok p
    → IsAdmitted c operation
    → (operation_admission_for p operation).outbound_allowed ≡ true
unfolding new_profile operation_admission_for
admits c p operation made a =
    let kept : p.config ≡ c = ground arith in
    let allowed : (gate_operation p.config operation).outbound_allowed ≡ true =
      ap (λ b. (gate_operation b operation).outbound_allowed) kept
      ∙ (gate_operation-version c operation).1 a.version_met in
    let version : same_bytes c.compatibility_version (ascii "tesla_hsc_modbus_v1") ≡ true =
      subst (λ v. same_bytes v (ascii "tesla_hsc_modbus_v1") ≡ true) (sym a.profile_version) refl in
    grind (arith, made, allowed, version, a.is_enabled, a.is_passive)

-- A profile that is returned admits an operation for sending exactly when it is enabled, passively
-- compatible and of the known profile version, and the operation is one of the five and given the
-- known operation version.
pub operation_admission_for_iff :
    (c : TeslaHscProfileConfig) (p : TeslaHscProfile) (operation : TedapiOperation)
    → new_profile c ≡ ok p
    → ((operation_admission_for p operation).outbound_allowed ≡ true) ↔ IsAdmitted c operation
operation_admission_for_iff c p operation made =
    (admitted c p operation made, admits c p operation made)
