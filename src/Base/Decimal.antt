-- ===== src/Base/Decimal.antt =====
-- Decimal digits of a uint64, as `strconv` and `encoding/json` print them.
use Prim.Native.Nat.{ℕ, zero, suc, ◌+◌, ◌-◌, ◌*◌, ◌/◌, ◌%◌, ◌^◌, ◌≤◌, ◌<◌}
use mathlib.Core.Path.{◌≡◌, refl}
use mathlib.Core.List.{List, [], ◌∷◌, ◌++◌}
use native.Mathlib.Omega.{arith}
use native.Mathlib.Nat.{pow-suc}
use package.helianthus_modbusreg.Base.Tests.{ltb, if◌then◌else◌}
use package.helianthus_modbusreg.Base.Lists.{length, length-append}

pub digits : ℕ → ℕ → List ℕ
digits zero n = []
digits (suc f) n =
    let rest = digits f (n / 10) in if ltb n 10 then (48 + n) ∷ [] else rest ++ (48 + n % 10) ∷ []

-- A uint64 has 20 digits at most.
unfoldable pub decimal : ℕ → List ℕ
unfolding digits
decimal n = digits 20 n

-- The number that digits stand for, read on from `acc`.
abbrev pub value : ℕ → List ℕ → ℕ
value acc [] = acc
value acc (d ∷ ds) = value (acc * 10 + (d - 48)) ds

value-append :
    (acc : ℕ) (xs : List ℕ) (d : ℕ) → value acc (xs ++ d ∷ []) ≡ value acc xs * 10 + (d - 48)
value-append acc [] d = refl
value-append acc (x ∷ xs) d = value-append (acc * 10 + (x - 48)) xs d

value-digits : (f n : ℕ) → n < 10 ^ f → value 0 (digits f n) ≡ n
unfolding digits
value-digits zero n h = ground arith
value-digits (suc f) n h =
    ground (
      arith,
      pow-suc 10 f,
      value-append 0 (digits f (n / 10)) (48 + n % 10),
      value-digits f (n / 10),
    )

-- The digits of a uint64 stand for it.
pub value-decimal : (n : ℕ) → n < 2 ^ 64 → value 0 (decimal n) ≡ n
unfolding decimal
value-decimal n h = value-digits 20 n (omega arith)

length-digits_mono : (f a b : ℕ) → a ≤ b → length (digits f a) ≤ length (digits f b)
unfolding digits
length-digits_mono zero a b h = omega arith
length-digits_mono (suc f) a b h = ground (
  arith,
  length-append (digits f (a / 10)) ((48 + a % 10) ∷ []),
  length-append (digits f (b / 10)) ((48 + b % 10) ∷ []),
  length-digits_mono f (a / 10) (b / 10),
)

-- A larger number is not shorter.
pub length-decimal_mono : (a b : ℕ) → a ≤ b → length (decimal a) ≤ length (decimal b)
unfolding decimal
length-decimal_mono a b h = length-digits_mono 20 a b h
