-- ===== src/Tesla/Codec.antt =====
-- tesla_hsc.go: the HSC profile as a codec of the registry of qualified functions.
pub mod Gates
mod Tests
use helianthus_modbusreg.Base.{ℕ, Option, none, some, List, [], Result, ok, err, if◌then◌else◌}
use helianthus_modbusreg.Base.Bytes.{ascii, same_bytes}
use helianthus_modbusreg.Tesla.Operation.{map_error}
use helianthus_modbusreg.Tesla.Profile.{
  TeslaHscProfile, TedapiOperation, wc_vitals_v1, common_system_info_v1, wc_lifetime_v1,
  wc_system_info_v1, wc_load_sharing_state_v1, other_operation, ProfileError,
  encode_qualified_function,
}
use helianthus_modbusreg.Tesla.Replay.{
  ReplayError, QualifiedFunctionResult, decode_qualified_function,
  decode_qualified_function_sequence, handles_sequence,
}
use helianthus_modbusreg.Registry.{QualifiedFunctionCodec, SequenceCodec}

pub data CodecError : Type 0 where
  of_profile : ProfileError → CodecError
  of_replay : ReplayError → CodecError

-- The operation strings that the profile's switches know.
unfoldable pub operation_named : List ℕ → TedapiOperation
operation_named name =
    if same_bytes name (ascii "tesla.hsc.fc100.wc_vitals.v1")
    then wc_vitals_v1
    else if same_bytes name (ascii "tesla.hsc.fc100.common_system_info.v1")
    then common_system_info_v1
    else if same_bytes name (ascii "tesla.hsc.fc100.wc_lifetime.v1")
    then wc_lifetime_v1
    else if same_bytes name (ascii "tesla.hsc.fc100.wc_system_info.v1")
    then wc_system_info_v1
    else if same_bytes name (ascii "tesla.hsc.fc100.wc_load_sharing_state.v1")
    then wc_load_sharing_state_v1
    else other_operation

module _ {Request Policy : Type 0} (new_request : ℕ → List ℕ → Result ProfileError Request)
    (default_policy : Policy) (max_pdu_size : ℕ) (digest : List ℕ → List ℕ) where
  -- The methods that make `TeslaHSCProfile` a codec, with the interface for sequences.
  unfoldable pub tesla_codec :
      TeslaHscProfile → QualifiedFunctionCodec Request Policy QualifiedFunctionResult CodecError
  unfolding operation_named encode_qualified_function decode_qualified_function
      decode_qualified_function_sequence handles_sequence
  tesla_codec profile = record {
    encode = λ name.
        map_error of_profile
          (encode_qualified_function new_request default_policy profile (operation_named name));
    decode = λ name function bytes.
        map_error of_replay
          (decode_qualified_function max_pdu_size digest (operation_named name) function bytes);
    sequences = some (record {
      handles = λ name. handles_sequence (operation_named name);
      decode_sequence = λ name function payloads. map_error of_replay (
          decode_qualified_function_sequence max_pdu_size digest (operation_named name) function
            payloads);
    });
  }
