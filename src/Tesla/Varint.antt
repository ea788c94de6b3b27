-- ===== src/Tesla/Varint.antt =====
-- tesla_fc100_operation.go, tesla_fc100_wc_vitals.go and tesla_fc100_tedapi.go: protobuf integers of
-- 64 bits. A byte slice is a list of numbers below 256.
pub mod RoundTrip
pub mod Prefix
use Prim.Native.Nat.{bit_and, bit_or}
use mathlib.Core.Logic.{dite}
use mathlib.Core.WellFounded.{Acc}
use native.Mathlib.Decide.{dec_le}
use helianthus_modbusreg.Base.{
  ℕ, ◌+◌, ◌*◌, ◌/◌, ◌%◌, ◌^◌, ◌≤◌, ◌<◌, ◌≡◌, ◌&&◌, ◌||◌, List, [], ◌∷◌, ◌++◌, Result, ok, err, ltb,
  ◌==◌, if◌then◌else◌, arith,
}
use helianthus_modbusreg.Base.Order.{lt_wf}

pub data VarintError : Type 0 where
  overflows truncated : VarintError

-- `value |= uint64(octet&0x7f) << (7 * index)`
abbrev pub add_group : ℕ → ℕ → ℕ → ℕ
add_group value octet index = bit_or value (bit_and octet 0x7f * 2 ^ (7 * index) % 2 ^ 64)

-- The loop of both decoders, at `index` with the bytes that it has not reached.
unfoldable pub varint_loop : List ℕ → ℕ → ℕ → Result VarintError (ℕ × ℕ)
varint_loop [] index value = err truncated
varint_loop (octet ∷ octets) index value =
    let value' = add_group value octet index in
    let rest = varint_loop octets (index + 1) value' in
    if index == 10 || (index == 9 && ltb 1 octet)
    then err overflows
    else if bit_and octet 0x80 == 0
    then ok (value', index + 1)
    else rest

-- `decodeTeslaFC100Varint`: the value and the number of bytes read.
unfoldable pub decode_fc100_varint : List ℕ → Result VarintError (ℕ × ℕ)
decode_fc100_varint input = varint_loop input 0 0

-- `decodeTeslaTEDAPIVarint`, which has the same loop.
unfoldable pub decode_tedapi_varint : List ℕ → Result VarintError (ℕ × ℕ)
decode_tedapi_varint message = varint_loop message 0 0

-- The loop `for value >= 0x80`: `byte(value)` is `value % 256`, and `value >>= 7` is `value / 128`.
unfoldable pub append_loop : List ℕ → (value : ℕ) → Acc ◌<◌ value → List ℕ
append_loop out value (Acc.intro _ smaller) =
    dite (dec_le 0x80 value)
      (λ more.
        append_loop (out ++ (bit_or (value % 256) 0x80 ∷ [])) (value / 128)
          (smaller (value / 128) (omega arith)))
      (λ _. out ++ (value % 256 ∷ []))

-- `appendTeslaFC100Varint`
unfoldable pub append_varint : List ℕ → ℕ → List ℕ
append_varint out value = append_loop out value (lt_wf.apply value)
