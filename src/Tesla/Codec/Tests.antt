-- ===== src/Tesla/Codec/Tests.antt =====
-- A dispatch to a Tesla profile at a concrete registry.
use helianthus_modbusreg.Base.{ℕ, ◌≡◌, refl, some, List, [], ◌∷◌, Result, ok}
use helianthus_modbusreg.Base.Bytes.{ascii}
use helianthus_modbusreg.Tesla.Profile.{ProfileError, request_pdu}
use helianthus_modbusreg.Tesla.Profile.Admission.{IsAdmitted}
use helianthus_modbusreg.Tesla.Replay.{QualifiedFunctionResult}
use helianthus_modbusreg.Tesla.Codec.{CodecError, operation_named, tesla_codec}
use helianthus_modbusreg.Tesla.Codec.Gates.{IsTesla, dispatch-IsAdmitted}
use helianthus_modbusreg.Tesla.Tests.{
  home_config, home_profile, makes_home, vitals_request, vitals_answer, no_digest,
}
use helianthus_modbusreg.Registry.{
  QualifiedFunctionSelector, QualifiedFunctionProfile, QualifiedFunctionCodec, dispatch,
}
use helianthus_modbusreg.Registry.Dispatch.{IsSent, matching, dispatch-IsSent}

-- A Modbus library whose requests are their bytes and whose policy is a number, and a bus that answers.
abbrev plain_request : ℕ → List ℕ → Result ProfileError (List ℕ)
plain_request function bytes = ok bytes

abbrev code_of : List ℕ → ℕ
code_of request = 100

abbrev answering : ℕ → List ℕ → ℕ → Result CodecError (List (List ℕ))
answering unit request policy = ok (vitals_answer ∷ [])

abbrev home_codec : QualifiedFunctionCodec (List ℕ) ℕ QualifiedFunctionResult CodecError
home_codec = tesla_codec plain_request 5 253 no_digest home_profile

abbrev home_binding : QualifiedFunctionProfile (List ℕ) ℕ QualifiedFunctionResult CodecError
home_binding = record {
  endpoint = ascii "rtu0";
  unit_id = 1;
  vendor_profile = ascii "tesla_hsc";
  codec = some home_codec;
}

abbrev vitals_selector : QualifiedFunctionSelector
vitals_selector = record {
  endpoint = ascii "rtu0";
  unit_id = 1;
  vendor_profile = ascii "tesla_hsc";
  operation = ascii "tesla.hsc.fc100.wc_vitals.v1";
}

abbrev vitals_sent : ℕ × List ℕ × ℕ
vitals_sent = (1, vitals_request, 5)

abbrev no_more : List (ℕ × List ℕ × ℕ)
no_more = []

sends_vitals :
    (dispatch
      (List ℕ)
      ℕ
      QualifiedFunctionResult
      CodecError
      code_of
      answering
      (home_binding ∷ [])
      vitals_selector).exchanged
    ≡ vitals_sent ∷ []
unfolding dispatch tesla_codec
sends_vitals = refl

dispatch-IsSent_example : IsSent (home_binding ∷ []) vitals_selector vitals_sent × (no_more ≡ [])
dispatch-IsSent_example =
    dispatch-IsSent code_of answering (home_binding ∷ []) vitals_selector vitals_sent no_more
      sends_vitals

home_IsTesla : IsTesla plain_request 5 253 no_digest home_binding
home_IsTesla = record {
  config = home_config;
  profile = home_profile;
  constructed = makes_home;
  its_codec = refl;
}

dispatch-IsAdmitted_example :
    (b : QualifiedFunctionProfile (List ℕ) ℕ QualifiedFunctionResult CodecError) × (t : IsTesla
      plain_request 5 253 no_digest b)
    × (matching vitals_selector (home_binding ∷ []) ≡ b ∷ [])
    × IsAdmitted t.config (operation_named vitals_selector.operation)
    × ((bytes : List ℕ) × (request_pdu (operation_named vitals_selector.operation) ≡ ok bytes)
        × (plain_request 100 bytes ≡ ok vitals_sent.1))
dispatch-IsAdmitted_example =
    dispatch-IsAdmitted plain_request 5 253 no_digest code_of answering (home_binding ∷ [])
      vitals_selector vitals_sent [] (home_IsTesla, tt) sends_vitals
