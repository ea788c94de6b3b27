-- ===== src/Tesla/Varint/RoundTrip.antt =====
-- What the encoder writes, the decoders read back.
use Prim.Native.Nat.{bit_or}
use mathlib.Core.WellFounded.{Acc}
use helianthus_modbusreg.Base.{
  ℕ, zero, suc, ◌+◌, ◌*◌, ◌/◌, ◌%◌, ◌^◌, ◌≤◌, ◌<◌, ◌≡◌, ap, subst, ◌∙◌, List, [], ◌∷◌, ◌++◌, ok,
  ltb, if◌then◌else◌, append_assoc, length, arith,
}
use helianthus_modbusreg.Base.Bits.{bit_and-low, bit_and-high, bit_or-high, bit_or_disjoint}
use helianthus_modbusreg.Tesla.Varint.{
  add_group, varint_loop, decode_fc100_varint, append_loop, append_varint,
}

-- The bytes of a number below 128 ^ (rounds + 1): groups of seven bits, the lowest first.
unfoldable pub written : ℕ → ℕ → List ℕ
written zero v = v ∷ []
written (suc rounds) v =
    let rest = written rounds (v / 128) in if ltb v 128 then v ∷ [] else (v % 128 + 128) ∷ rest

append_loop-written :
    (k : ℕ) (out : List ℕ) (v : ℕ) (w : Acc ◌<◌ v)
    → v < 128 ^ suc k
    → append_loop out v w ≡ out ++ written k v
unfolding append_loop written
append_loop-written zero out v (Acc.intro _ smaller) h = ground arith
append_loop-written (suc k) out v (Acc.intro _ smaller) h =
    let octet : List ℕ = (v % 128 + 128) ∷ [] in
    grind (
      arith,
      bit_or-high (v % 256),
      λ (a : Acc ◌<◌ (v / 128)). append_loop-written k (out ++ octet) (v / 128) a (omega arith),
      append_assoc out octet (written k (v / 128)),
    )

pub append_varint-written :
    (out : List ℕ) (v : ℕ) → v < 2 ^ 64 → append_varint out v ≡ out ++ written 9 v
unfolding append_varint
append_varint-written out v h = append_loop-written 9 out v _ (omega arith)

-- A group lands above the bits that were read before.
pub add_group-sum :
    (value octet index : ℕ)
    → octet < 256
    → value < 2 ^ (7 * index)
    → octet % 128 * 2 ^ (7 * index) < 2 ^ 64
    → add_group value octet index ≡ value + octet % 128 * 2 ^ (7 * index)
add_group-sum value octet index h below fits =
    let kept : octet % 128 * 2 ^ (7 * index) % 2 ^ 64 ≡ octet % 128 * 2 ^ (7 * index) =
      omega (arith, fits) in
    ap (λ g. bit_or value (g * 2 ^ (7 * index) % 2 ^ 64)) (bit_and-low octet h)
    ∙ ap (bit_or value) kept
    ∙ bit_or_disjoint (7 * index) value (octet % 128) below

ninth_small : (v value index : ℕ) → value + v * 2 ^ (7 * index) < 2 ^ 64 → index ≡ 9 → v < 2
ninth_small v value index fits at =
    let fits' : value + v * 2 ^ (7 * 9) < 2 ^ 64 =
      subst (λ i. value + v * 2 ^ (7 * i) < 2 ^ 64) at fits in
    omega (arith, fits')

last_round :
    (v value index : ℕ) (rest : List ℕ)
    → v < 128
    → index ≤ 9
    → value < 2 ^ (7 * index)
    → value + v * 2 ^ (7 * index) < 2 ^ 64
    → varint_loop (v ∷ rest) index value ≡ ok (value + v * 2 ^ (7 * index), index + 1)
unfolding varint_loop
last_round v value index rest h few below fits =
    let low : v % 128 ≡ v = omega arith in
    let group = ap (λ g. g * 2 ^ (7 * index)) low in
    let sum = add_group-sum value v index (omega arith) below (omega (arith, group, fits)) in
    grind (arith, sum, group, bit_and-high v, ninth_small v value index fits)

inner_round :
    (g value index : ℕ) (rest : List ℕ)
    → g < 128
    → index ≤ 8
    → value < 2 ^ (7 * index)
    → value + g * 2 ^ (7 * index) < 2 ^ 64
    → varint_loop ((g + 128) ∷ rest) index value
      ≡ varint_loop rest (index + 1) (value + g * 2 ^ (7 * index))
unfolding varint_loop
inner_round g value index rest h few below fits =
    let low : (g + 128) % 128 ≡ g = omega arith in
    let group = ap (λ a. a * 2 ^ (7 * index)) low in
    let sum =
      add_group-sum value (g + 128) index (omega arith) below (omega (arith, group, fits)) in
    grind (arith, sum, group, bit_and-high (g + 128))

pub power_seven : (index : ℕ) → 2 ^ (7 * (index + 1)) ≡ 128 * 2 ^ (7 * index)
power_seven index =
    let seven : 7 * (index + 1) ≡ suc (suc (suc (suc (suc (suc (suc (7 * index))))))) =
      omega arith in
    ap (λ (k : ℕ). 2 ^ k) seven ∙ omega arith

-- A number is its lowest group and the others, both shifted.
split_group :
    (v index : ℕ)
    → v * 2 ^ (7 * index) ≡ v % 128 * 2 ^ (7 * index) + v / 128 * 2 ^ (7 * (index + 1))
split_group v index =
    let parts : v ≡ v % 128 + v / 128 * 128 = omega arith in
    omega (arith, ap (λ t. t * 2 ^ (7 * index)) parts, ap (λ t. v / 128 * t) (power_seven index))

group_below :
    (g value index : ℕ)
    → g < 128
    → value < 2 ^ (7 * index)
    → value + g * 2 ^ (7 * index) < 2 ^ (7 * (index + 1))
group_below g value index h below = grind (arith, power_seven index)

varint_loop-written :
    (k v value index : ℕ) (rest : List ℕ)
    → v < 128 ^ suc k
    → index + k ≤ 9
    → value < 2 ^ (7 * index)
    → value + v * 2 ^ (7 * index) < 2 ^ 64
    → varint_loop (written k v ++ rest) index value
      ≡ ok (value + v * 2 ^ (7 * index), index + length (written k v))
unfolding written
varint_loop-written zero v value index rest h few below fits =
    last_round v value index rest (omega (arith, h)) (omega arith) below fits
varint_loop-written (suc k) v value index rest h few below fits =
    let split = split_group v index in
    let g : v % 128 < 128 = omega arith in
    let fit : value + v % 128 * 2 ^ (7 * index) < 2 ^ 64 = omega (arith, split, fits) in
    let inner =
      inner_round (v % 128) value index (written k (v / 128) ++ rest) g (omega arith) below fit in
    let tail =
      varint_loop-written k (v / 128) (value + v % 128 * 2 ^ (7 * index)) (index + 1) rest
        (omega (arith, h)) (omega arith) (group_below (v % 128) value index g below)
        (omega (arith, split, fits)) in
    ground (arith, last_round v value index rest, inner, tail, split)

-- A number of 64 bits that is appended to bytes is read back from there, whatever follows it, and
-- the decoder reads the appended bytes, no more.
pub decode_fc100_varint-append_varint :
    (value : ℕ) (rest : List ℕ)
    → value < 2 ^ 64
    → decode_fc100_varint (append_varint [] value ++ rest)
      ≡ ok (value, length (append_varint [] value))
unfolding decode_fc100_varint
decode_fc100_varint-append_varint value rest h =
    let read =
      varint_loop-written 9 value 0 0 rest (omega arith) (omega arith) (omega arith)
        (omega arith) in
    let same = append_varint-written [] value h in
    ap (λ l. varint_loop (l ++ rest) 0 0) same ∙ read ∙ ap ok (grind (arith, same))
