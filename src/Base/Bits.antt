-- ===== src/Base/Bits.antt =====
-- `^` on numbers of any width: it undoes itself, and keeps bytes bytes.
use Prim.Native.Nat.{
  ℕ, zero, suc, ◌+◌, ◌*◌, ◌/◌, ◌%◌, ◌^◌, ◌≤◌, ◌<◌, bit_xor, digits, bit_xor-bitwise, differ,
}
use mathlib.Core.Path.{◌≡◌, refl, ap}
use native.Mathlib.Nat.{pow-suc}
use native.Mathlib.Omega.{arith}

abbrev xor_digits : ℕ → ℕ → ℕ → ℕ
xor_digits n a b = digits (λ b. b) differ n a b

xor_digits_fuel : (n m a b : ℕ) → a ≤ n → a ≤ m → xor_digits n a b ≡ xor_digits m a b
xor_digits_fuel zero zero a b p q = refl
xor_digits_fuel zero (suc m) zero b p q = refl
xor_digits_fuel zero (suc m) (suc a) b p q = absurd (omega arith)
xor_digits_fuel (suc n) zero zero b p q = refl
xor_digits_fuel (suc n) zero (suc a) b p q = absurd (omega arith)
xor_digits_fuel (suc n) (suc m) zero b p q = refl
xor_digits_fuel (suc n) (suc m) (suc a) b p q =
    omega (arith, xor_digits_fuel n m (suc a / 2) (b / 2) (omega arith) (omega arith))

zero-bit_xor : (b : ℕ) → bit_xor 0 b ≡ b
zero-bit_xor b = bit_xor-bitwise 0 b

differ_zero : (y : ℕ) → differ 0 y ≡ y
differ_zero y = refl

-- The law for the lowest digit.
bit_xor_step : (a b : ℕ) → bit_xor a b ≡ bit_xor (a / 2) (b / 2) * 2 + differ (a % 2) (b % 2)
bit_xor_step zero b = omega (arith, zero-bit_xor b, zero-bit_xor (b / 2), differ_zero (b % 2))
bit_xor_step (suc a) b = omega (
  arith,
  bit_xor-bitwise (suc a) b,
  bit_xor-bitwise (suc a / 2) (b / 2),
  xor_digits_fuel a (suc a / 2) (suc a / 2) (b / 2) (omega arith) (omega arith),
)

differ_bit : (x y : ℕ) → x < 2 → y < 2 → (differ x y < 2) × (differ x (differ x y) ≡ y)
differ_bit zero zero p q = omega arith
differ_bit zero (suc zero) p q = (omega arith, refl)
differ_bit (suc zero) zero p q = (omega arith, refl)
differ_bit (suc zero) (suc zero) p q = (omega arith, refl)
differ_bit (suc (suc x)) _ p q = absurd (omega arith)
differ_bit zero (suc (suc y)) p q = absurd (omega arith)
differ_bit (suc zero) (suc (suc y)) p q = absurd (omega arith)

bit_xor_self_fuel : (n a b : ℕ) → a ≤ n → b ≤ n → bit_xor a (bit_xor a b) ≡ b
bit_xor_self_fuel zero zero zero p q = refl
bit_xor_self_fuel zero zero (suc b) p q = absurd (omega arith)
bit_xor_self_fuel zero (suc a) b p q = absurd (omega arith)
bit_xor_self_fuel (suc n) a b p q = omega (
  arith,
  bit_xor_step a b,
  bit_xor_step a (bit_xor a b),
  differ_bit (a % 2) (b % 2) (omega arith) (omega arith),
  halves,
  lowest,
  bit_xor_self_fuel n (a / 2) (b / 2) (omega arith) (omega arith),
)
  where
    bit : differ (a % 2) (b % 2) < 2
    bit = (differ_bit (a % 2) (b % 2) (omega arith) (omega arith)).0

    halves : bit_xor (a / 2) (bit_xor a b / 2) ≡ bit_xor (a / 2) (bit_xor (a / 2) (b / 2))
    halves = ap (λ h. bit_xor (a / 2) h) (omega (arith, bit_xor_step a b, bit))

    lowest : differ (a % 2) (bit_xor a b % 2) ≡ differ (a % 2) (differ (a % 2) (b % 2))
    lowest = ap (λ d. differ (a % 2) d) (omega (arith, bit_xor_step a b, bit))

-- `^` with the same number twice gives the number back.
pub bit_xor_self : (a b : ℕ) → bit_xor a (bit_xor a b) ≡ b
bit_xor_self a b = bit_xor_self_fuel (a + b) a b (omega arith) (omega arith)

pub bit_xor-lt : (k a b : ℕ) → a < 2 ^ k → b < 2 ^ k → bit_xor a b < 2 ^ k
bit_xor-lt zero zero zero p q = omega (arith, zero-bit_xor 0)
bit_xor-lt zero zero (suc b) p q = absurd (omega arith)
bit_xor-lt zero (suc a) b p q = absurd (omega arith)
bit_xor-lt (suc k) a b p q = omega (
  arith,
  bit_xor_step a b,
  pow-suc 2 k,
  differ_bit (a % 2) (b % 2) (omega arith) (omega arith),
  bit_xor-lt k (a / 2) (b / 2) (omega (arith, pow-suc 2 k)) (omega (arith, pow-suc 2 k)),
)
