-- ===== src/SunSpec.antt =====
-- sunspec_core_types.go: keys, requests, spans and occurrences of a SunSpec model chain.
-- `C` is the private sidecar of a structural candidate, which the chain stores and never reads.
pub mod Plan
pub mod Chain
pub mod SourceRange
pub mod FactPath
pub mod NestedLayout
pub mod Value
mod Tests
use helianthus_modbusreg.Base.{
  ℕ, ◌+◌, ◌%◌, ◌^◌, Bool, true, false, ◌&&◌, List, [], Option, none, some, Result, ok, err, ltb,
  leb, ◌==◌, if◌then◌else◌, length, ◌||◌,
}

pub record SunSpecWireKey : Type 0 where
  pub model_id : ℕ
  pub model_length : ℕ

pub record SunSpecDecoderKey : Type 0 where
  pub model_id : ℕ
  pub model_length : ℕ
  pub schema_revision : List ℕ

-- `unset` is Go's zero value: a caller can hold a request of the plan, or an empty one.
pub data SunSpecReadPurpose : Type 0 where
  unset signature header payload : SunSpecReadPurpose

pub data SunSpecChainDisposition : Type 0 where
  admitted unknown_model unsupported_length : SunSpecChainDisposition

pub record SunSpecSourceSpan : Type 0 where
  pub logical_view_id : ℕ
  pub pdu_offset : ℕ
  pub word_count : ℕ

pub record SunSpecReadRequest : Type 0 where
  pub address : ℕ
  pub words : ℕ
  pub purpose : SunSpecReadPurpose
  pub nonce : ℕ
  pub chain_instance : ℕ
  pub sequence : ℕ

pub record SunSpecOccurrence (C : Type 0) : Type 0 where
  pub ordinal : ℕ
  pub wire_key : SunSpecWireKey
  pub schema_revision : List ℕ
  pub header_offset : ℕ
  pub payload_offset : ℕ
  pub disposition : SunSpecChainDisposition
  pub decoder_key : Option SunSpecDecoderKey
  pub structural_candidate : Option C
  pub words : List ℕ
  pub spans : List SunSpecSourceSpan

abbrev pub signature_first : ℕ
signature_first = 0x5375

abbrev pub signature_second : ℕ
signature_second = 0x6e53

abbrev pub end_model : ℕ
end_model = 0xffff

abbrev pub max_read_words : ℕ
max_read_words = 125

-- `uint32(n)` of a wider number, and arithmetic on uint32.
abbrev pub u32 : ℕ → ℕ
u32 n = n % 2 ^ 32

unfoldable pub valid_revision : List ℕ → Bool
valid_revision v = ltb 0 (length v) && leb (length v) 128

-- `sunSpecEnd`: whether the read stays inside the 16-bit address space.
unfoldable pub end_fits : ℕ → ℕ → Bool
end_fits address words = if words == 0 then false else leb (u32 (address + words)) 65536

abbrev pub same_purpose : SunSpecReadPurpose → SunSpecReadPurpose → Bool
same_purpose unset unset = true
same_purpose signature signature = true
same_purpose header header = true
same_purpose payload payload = true
same_purpose _ _ = false

-- `want == r` on the comparable struct.
unfoldable pub same_request : SunSpecReadRequest → SunSpecReadRequest → Bool
same_request a b =
    a.address == b.address
    && a.words == b.words
    && same_purpose a.purpose b.purpose
    && a.nonce == b.nonce
    && a.chain_instance == b.chain_instance
    && a.sequence == b.sequence
