-- ===== src/Base/Bits.antt =====
-- The binary digits of words: `|`, `<<`, `>>` and masks, digit by digit.
use Prim.Native.Nat.{
  ℕ, zero, suc, ◌+◌, ◌-◌, ◌*◌, ◌/◌, ◌%◌, ◌^◌, ◌≤◌, max, digits, bit_or, bit_or-bitwise,
}
use mathlib.Core.Path.{◌≡◌, refl, ◌∙◌, ap}
use native.Mathlib.Omega.{arith}
use native.Mathlib.Nat.{pow-suc, one-le-pow}
use yc_libvhost_server.Base.Tests.{ltb, if◌then◌else◌}
use yc_libvhost_server.Base.Words.{bit_at}

or_digits_fuel :
    (n m a b : ℕ) → a ≤ n → a ≤ m → digits (λ y. y) max n a b ≡ digits (λ y. y) max m a b
or_digits_fuel zero zero a b p q = refl
or_digits_fuel zero (suc m) zero b p q = refl
or_digits_fuel zero (suc m) (suc a) b p q = absurd (omega arith)
or_digits_fuel (suc n) zero zero b p q = refl
or_digits_fuel (suc n) zero (suc a) b p q = absurd (omega arith)
or_digits_fuel (suc n) (suc m) zero b p q = refl
or_digits_fuel (suc n) (suc m) (suc a) b p q =
    omega (arith, or_digits_fuel n m (suc a / 2) (b / 2) (omega arith) (omega arith))

zero-bit_or : (b : ℕ) → bit_or 0 b ≡ b
zero-bit_or b = bit_or-bitwise 0 b

bit_or_halves : (a b : ℕ) → bit_or a b ≡ bit_or (a / 2) (b / 2) * 2 + max (a % 2) (b % 2)
bit_or_halves zero b = omega (arith, zero-bit_or b, zero-bit_or (b / 2))
bit_or_halves (suc a) b = omega (
  arith,
  bit_or-bitwise (suc a) b,
  bit_or-bitwise (suc a / 2) (b / 2),
  or_digits_fuel a (suc a / 2) (suc a / 2) (b / 2) (omega arith) (omega arith),
)

pub bit_at-bit_or : (i a b : ℕ) → bit_at (bit_or a b) i ≡ max (bit_at a i) (bit_at b i)
bit_at-bit_or zero a b = omega (arith, bit_or_halves a b)
bit_at-bit_or (suc i) a b = ap (λ w. bit_at w i) half ∙ bit_at-bit_or i (a / 2) (b / 2)
  where
    half : bit_or a b / 2 ≡ bit_or (a / 2) (b / 2)
    half = omega (arith, bit_or_halves a b)

pub bits_at : (x y i : ℕ) → x ≡ y → bit_at x i ≡ bit_at y i
bits_at x y i e = ap (λ w. bit_at w i) e

index : (x i j : ℕ) → i ≡ j → bit_at x i ≡ bit_at x j
index x i j e = ap (bit_at x) e

bit_at-zero : (i : ℕ) → bit_at 0 i ≡ 0
bit_at-zero zero = refl
bit_at-zero (suc i) = bit_at-zero i

pub bit_at-shl : (s x i : ℕ) → bit_at (x * 2 ^ s) i ≡ (if ltb i s then 0 else bit_at x (i - s))
bit_at-shl zero x i =
    ground (arith, bits_at (x * 1) x i (omega arith), index x (i - 0) i (omega arith))
bit_at-shl (suc s) x zero = rw (pow-suc 2 s) (ground arith)
bit_at-shl (suc s) x (suc i) = ground (
  arith,
  bits_at (x * 2 ^ suc s / 2) (x * 2 ^ s) i (rw (pow-suc 2 s) (omega arith)),
  bit_at-shl s x i,
  index x (suc i - suc s) (i - s) (omega arith),
)

halve_mod : (x m : ℕ) → x % (m * 2) / 2 ≡ x / 2 % m
halve_mod x m = grind arith

halve_div : (x m : ℕ) → x / (m * 2) ≡ x / 2 / m
halve_div x m = grind arith

low_mod : (x m : ℕ) → x % (m * 2) % 2 ≡ x % 2
low_mod x m = grind arith

pub bit_at-shr : (s x i : ℕ) → bit_at (x / 2 ^ s) i ≡ bit_at x (i + s)
bit_at-shr zero x i =
    ground (arith, bits_at (x / 1) x i (omega arith), index x (i + 0) i (omega arith))
bit_at-shr (suc s) x i =
    bits_at (x / 2 ^ suc s) (x / 2 / 2 ^ s) i (rw (pow-suc 2 s) (halve_div x (2 ^ s)))
    ∙ bit_at-shr s (x / 2) i
    ∙ index x (suc (i + s)) (i + suc s) (omega arith)

pub bit_at-mod : (k x i : ℕ) → bit_at (x % 2 ^ k) i ≡ (if ltb i k then bit_at x i else 0)
bit_at-mod zero x i = ground (arith, bits_at (x % 1) 0 i (omega arith), bit_at-zero i)
bit_at-mod (suc k) x zero = rw (pow-suc 2 k) (ground (arith, low_mod x (2 ^ k)))
bit_at-mod (suc k) x (suc i) = ground (
  arith,
  bits_at (x % 2 ^ suc k / 2) (x / 2 % 2 ^ k) i (rw (pow-suc 2 k) (halve_mod x (2 ^ k))),
  bit_at-mod k (x / 2) i,
)

pub bit_at-ones : (k i : ℕ) → bit_at (2 ^ k - 1) i ≡ (if ltb i k then 1 else 0)
bit_at-ones zero i = ground (arith, bit_at-zero i)
bit_at-ones (suc k) zero = rw (pow-suc 2 k) (ground (arith, one-le-pow k 2))
bit_at-ones (suc k) (suc i) = ground (
  arith,
  bits_at ((2 ^ suc k - 1) / 2) (2 ^ k - 1) i (rw (pow-suc 2 k) (omega (arith, one-le-pow k 2))),
  bit_at-ones k i,
)

pub bit_at-le : (x i : ℕ) → bit_at x i ≤ 1
bit_at-le x zero = omega arith
bit_at-le x (suc i) = bit_at-le (x / 2) i
