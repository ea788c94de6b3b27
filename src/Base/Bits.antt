-- ===== src/Base/Bits.antt =====
-- The bit operations that the code uses, as arithmetic.
use Prim.Native.Nat.{
  ℕ, zero, suc, ◌+◌, ◌*◌, ◌/◌, ◌%◌, ◌^◌, ◌≤◌, ◌<◌, max, bit_and, bit_or, digits, bit_or-bitwise,
}
use mathlib.Core.Path.{◌≡◌, refl, ap, ◌∙◌}
use mathlib.Core.Bool.{Bool, true, ◌&&◌}
use native.Mathlib.Omega.{arith}
use package.helianthus_modbusreg.Base.Tests.{◌==◌}

-- A table of the first values of two functions, compared by evaluation.
same_table : (ℕ → ℕ) → (ℕ → ℕ) → ℕ → Bool
same_table f g zero = true
same_table f g (suc n) = f n == g n && same_table f g n

same_table-entry : (f g : ℕ → ℕ) (n x : ℕ) → same_table f g n ≡ true → x < n → f x ≡ g x
unfolding same_table
same_table-entry f g zero x h lt = absurd (omega arith)
same_table-entry f g (suc n) x h lt = ground (arith, same_table-entry f g n x)

-- Of a byte, the low seven bits, the high bit, and the high bit set.
pub bit_and-low : (b : ℕ) → b < 256 → bit_and b 0x7f ≡ b % 128
unfolding same_table
bit_and-low b h = same_table-entry (λ x. bit_and x 0x7f) (λ x. x % 128) 256 b refl h

pub bit_and-high : (b : ℕ) → b < 256 → bit_and b 0x80 ≡ b / 128 * 128
unfolding same_table
bit_and-high b h = same_table-entry (λ x. bit_and x 0x80) (λ x. x / 128 * 128) 256 b refl h

pub bit_or-high : (b : ℕ) → b < 256 → bit_or b 0x80 ≡ b % 128 + 128
unfolding same_table
bit_or-high b h = same_table-entry (λ x. bit_or x 0x80) (λ x. x % 128 + 128) 256 b refl h

power_step : (k : ℕ) → 2 ^ suc k ≡ 2 * 2 ^ k
power_step k = omega arith

digits_disjoint :
    (k n a g : ℕ) → a ≤ n → a < 2 ^ k → digits (λ b. b) max n a (g * 2 ^ k) ≡ a + g * 2 ^ k
digits_disjoint k zero zero g fuel small = omega arith
digits_disjoint k zero (suc a) g fuel small = absurd (omega arith)
digits_disjoint k (suc n) zero g fuel small = omega arith
digits_disjoint zero (suc n) (suc a) g fuel small = absurd (omega arith)
digits_disjoint (suc k) (suc n) (suc a) g fuel small =
    let double : g * 2 ^ suc k ≡ 2 * (g * 2 ^ k) = omega (arith, ap (λ t. g * t) (power_step k)) in
    let half : g * 2 ^ suc k / 2 ≡ g * 2 ^ k = omega (arith, double) in
    let rest = digits_disjoint k n (suc a / 2) g (omega arith) (omega (arith, power_step k)) in
    let under : digits (λ b. b) max n (suc a / 2) (g * 2 ^ suc k / 2) ≡ suc a / 2 + g * 2 ^ k =
      ap (digits (λ b. b) max n (suc a / 2)) half ∙ rest in
    omega (arith, double, under)

-- Bits that start above a number are added to it.
pub bit_or_disjoint : (k a g : ℕ) → a < 2 ^ k → bit_or a (g * 2 ^ k) ≡ a + g * 2 ^ k
bit_or_disjoint k a g small =
    bit_or-bitwise a (g * 2 ^ k) ∙ digits_disjoint k a a g (omega arith) small

digits_zero : (n x : ℕ) → x ≤ n → digits (λ b. b) max n x 0 ≡ x
digits_zero zero zero fuel = refl
digits_zero zero (suc x) fuel = absurd (omega arith)
digits_zero (suc n) zero fuel = refl
digits_zero (suc n) (suc x) fuel = omega (arith, digits_zero n (suc x / 2) (omega arith))

digits_below :
    (k n x g a : ℕ) → x ≡ g * 2 ^ k → x ≤ n → a < 2 ^ k → digits (λ b. b) max n x a ≡ x + a
digits_below zero n x g zero e fuel small = omega (arith, digits_zero n x fuel)
digits_below zero n x g (suc a) e fuel small = absurd (omega arith)
digits_below (suc k) zero zero g a e fuel small = omega arith
digits_below (suc k) zero (suc x) g a e fuel small = absurd (omega arith)
digits_below (suc k) (suc n) zero g a e fuel small = omega arith
digits_below (suc k) (suc n) (suc x) g a e fuel small =
    let double : g * 2 ^ suc k ≡ 2 * (g * 2 ^ k) = omega (arith, ap (λ t. g * t) (power_step k)) in
    let half : suc x / 2 ≡ g * 2 ^ k = omega (arith, double, e) in
    let low : a / 2 < 2 ^ k = omega (arith, power_step k) in
    omega (arith, double, e, digits_below k n (suc x / 2) g (a / 2) half (omega arith) low)

-- Bits below the ones of a number are added to it.
pub bit_or_below : (k g a : ℕ) → a < 2 ^ k → bit_or (g * 2 ^ k) a ≡ g * 2 ^ k + a
bit_or_below k g a small =
    bit_or-bitwise (g * 2 ^ k) a
    ∙ digits_below k (g * 2 ^ k) (g * 2 ^ k) g a refl (omega arith) small
