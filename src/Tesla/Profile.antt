-- ===== src/Tesla/Profile.antt =====
-- tesla_hsc.go and tesla_fc100_wc_vitals.go: the HSC profile, its gates and the qualified requests.
pub mod Admission
use helianthus_modbusreg.Base.{
  ℕ, Bool, true, false, ◌&&◌, ◌||◌, not, List, [], ◌∷◌, Result, ok, err, ltb, ◌==◌, if◌then◌else◌,
  ◌>>=◌, ◌>>◌, refuse_if, length,
}
use helianthus_modbusreg.Base.Bytes.{ascii, same_bytes}
use helianthus_modbusreg.Tesla.Envelope.{function_100}

pub data TeslaHscDisposition : Type 0 where
  disabled framing_only qualified_read_only : TeslaHscDisposition

pub data AdmissionState : Type 0 where
  blocked_profile blocked_no_admissible_operation allowed_wc_vitals : AdmissionState
  allowed_common_system_info allowed_wc_lifetime allowed_wc_system_info : AdmissionState
  allowed_wc_load_sharing_state : AdmissionState

pub record TeslaTedapiOperationAdmission : Type 0 where
  pub state : AdmissionState
  pub outbound_allowed : Bool

pub record TeslaHscProfileConfig : Type 0 where
  pub enabled : Bool
  pub node : ℕ
  pub passive_compatible : Bool
  pub compatibility_version : List ℕ
  pub wc_vitals_operation_version : List ℕ
  pub system_info_operation_version : List ℕ
  pub wc_lifetime_operation_version : List ℕ
  pub wc_system_info_operation_version : List ℕ
  pub wc_load_sharing_state_operation_version : List ℕ

pub record TeslaHscProfile : Type 0 where
  pub config : TeslaHscProfileConfig
  pub disposition : TeslaHscDisposition

pub data ProfileError : Type 0 where
  node_invalid version_required not_admitted transport : ProfileError

-- `NewTeslaHSCProfile`
unfoldable pub new_profile : TeslaHscProfileConfig → Result ProfileError TeslaHscProfile
new_profile config =
    let qualified =
      config.passive_compatible
      && same_bytes config.compatibility_version (ascii "tesla_hsc_modbus_v1") in
    let disposition =
      if config.enabled
      then (if qualified then qualified_read_only else framing_only)
      else disabled in
    refuse_if (config.node == 0 || ltb 247 config.node) node_invalid
    >> refuse_if (length config.compatibility_version == 0) version_required
    >> ok (record { config = config; disposition = disposition })

abbrev is_qualified : TeslaHscDisposition → Bool
is_qualified disabled = false
is_qualified framing_only = false
is_qualified qualified_read_only = true

-- `OperationAdmission`
unfoldable pub operation_admission : TeslaHscProfile → TeslaTedapiOperationAdmission
operation_admission profile =
    if not (is_qualified profile.disposition)
    then record { state = blocked_profile; outbound_allowed = false }
    else record { state = blocked_no_admissible_operation; outbound_allowed = false }

-- The qualified operations; the last stands for every other string.
pub data TedapiOperation : Type 0 where
  wc_vitals_v1 common_system_info_v1 wc_lifetime_v1 wc_system_info_v1 : TedapiOperation
  wc_load_sharing_state_v1 other_operation : TedapiOperation

abbrev gate : List ℕ → AdmissionState → TeslaTedapiOperationAdmission
gate version allowed =
    if same_bytes version (ascii "wc3_24_44_3")
    then record { state = allowed; outbound_allowed = true }
    else record { state = blocked_no_admissible_operation; outbound_allowed = false }

-- The switch of `OperationAdmissionFor`.
unfoldable pub gate_operation :
    TeslaHscProfileConfig → TedapiOperation → TeslaTedapiOperationAdmission
gate_operation c wc_vitals_v1 = gate c.wc_vitals_operation_version allowed_wc_vitals
gate_operation c common_system_info_v1 =
    gate c.system_info_operation_version allowed_common_system_info
gate_operation c wc_lifetime_v1 = gate c.wc_lifetime_operation_version allowed_wc_lifetime
gate_operation c wc_system_info_v1 = gate c.wc_system_info_operation_version allowed_wc_system_info
gate_operation c wc_load_sharing_state_v1 =
    gate c.wc_load_sharing_state_operation_version allowed_wc_load_sharing_state
gate_operation c other_operation = record {
  state = blocked_no_admissible_operation;
  outbound_allowed = false;
}

-- `OperationAdmissionFor`
unfoldable pub operation_admission_for :
    TeslaHscProfile → TedapiOperation → TeslaTedapiOperationAdmission
unfolding gate_operation
operation_admission_for profile operation =
    if not (is_qualified profile.disposition)
    then record { state = blocked_profile; outbound_allowed = false }
    else gate_operation profile.config operation

-- The fixed request PDUs, and the switch of `EncodeQualifiedFunction` over them.
unfoldable pub request_pdu : TedapiOperation → Result ProfileError (List ℕ)
request_pdu wc_vitals_v1 = ok (0x04 ∷ 0x32 ∷ 0x02 ∷ 0x0a ∷ 0x00 ∷ [])
request_pdu common_system_info_v1 = ok (0x04 ∷ 0x22 ∷ 0x02 ∷ 0x12 ∷ 0x00 ∷ [])
request_pdu wc_lifetime_v1 = ok (0x04 ∷ 0x32 ∷ 0x02 ∷ 0x1a ∷ 0x00 ∷ [])
request_pdu wc_system_info_v1 = ok (0x04 ∷ 0x32 ∷ 0x02 ∷ 0x4a ∷ 0x00 ∷ [])
request_pdu wc_load_sharing_state_v1 = ok (0x04 ∷ 0x32 ∷ 0x02 ∷ 0x5a ∷ 0x00 ∷ [])
request_pdu other_operation = err not_admitted

-- `modbus.NewPrivateFunctionRequest` and `modbus.DefaultPrivateFunctionResponsePolicy` are the Modbus library's.
module _ {ℓ} {Request Policy : Type ℓ} (new_request : ℕ → List ℕ → Result ProfileError Request)
    (default_policy : Policy) where
  -- `EncodeQualifiedFunction`
  unfoldable pub encode_qualified_function :
      TeslaHscProfile → TedapiOperation → Result ProfileError (Request × Policy)
  unfolding operation_admission_for request_pdu
  encode_qualified_function profile operation =
      refuse_if (not (operation_admission_for profile operation).outbound_allowed) not_admitted
      >> (request_pdu operation >>= λ payload.
          (new_request function_100 payload >>= λ request. ok (request, default_policy)))
