-- ===== src/Tesla/Varint/Prefix.antt =====
-- What a decoder of varints reads: one to ten bytes of its input.
use helianthus_modbusreg.Base.{ℕ, ◌+◌, ◌≤◌, ◌<◌, ◌≡◌, List, [], ◌∷◌, ok, length, arith}
use helianthus_modbusreg.Tesla.Varint.{add_group, varint_loop, decode_tedapi_varint}

varint_loop-width :
    (octets : List ℕ) (index value v n : ℕ)
    → index ≤ 10
    → varint_loop octets index value ≡ ok (v, n)
    → (index < n) × (n ≤ index + length octets) × (n ≤ 10)
unfolding varint_loop
varint_loop-width [] index value v n few h = absurd (ground arith)
varint_loop-width (o ∷ os) index value v n few h =
    ground (arith, varint_loop-width os (index + 1) (add_group value o index) v n)

pub decode_tedapi_varint-width :
    (message : List ℕ) (v n : ℕ)
    → decode_tedapi_varint message ≡ ok (v, n)
    → (1 ≤ n) × (n ≤ length message) × (n ≤ 10)
unfolding decode_tedapi_varint
decode_tedapi_varint-width message v n h =
    let (some_byte, most, ten) = varint_loop-width message 0 0 v n (omega arith) h in
    (some_byte, omega (arith, most), ten)
