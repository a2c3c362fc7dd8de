-- ===== src/Base/Words.antt =====
-- Unsigned machine words as native numbers that wrap (uint16_t, uint64_t), single bits, and the
-- alignment macros of platform.h.
use Prim.Native.Nat.{ℕ, zero, suc, ◌+◌, ◌-◌, ◌*◌, ◌/◌, ◌%◌, ◌^◌}
use mathlib.Core.Bool.{Bool}
use yc_libvhost_server.Base.Tests.{◌==◌}
use yc_libvhost_server.Base.Tests.{◌==◌}

abbrev pub add16 : ℕ → ℕ → ℕ
add16 a b = (a + b) % 2 ^ 16

-- Subtraction stops at 0, so the modulus is added first.
abbrev pub sub16 : ℕ → ℕ → ℕ
sub16 a b = (a + 2 ^ 16 - b) % 2 ^ 16

abbrev pub add64 : ℕ → ℕ → ℕ
add64 a b = (a + b) % 2 ^ 64

abbrev pub sub64 : ℕ → ℕ → ℕ
sub64 a b = (a + 2 ^ 64 - b) % 2 ^ 64

-- The binary digit of weight `2 ^ i`.
abbrev pub bit_at : ℕ → ℕ → ℕ
bit_at word zero = word % 2
bit_at word (suc i) = bit_at (word / 2) i

-- `word & (1 << i)` as a truth value.
abbrev pub test_bit : ℕ → ℕ → Bool
test_bit word i = bit_at word i == 1

-- `VHD_ALIGN_UP(x, a)` in 64 bits: `(x + mask) & ~mask` clears the low bits of the sum, which for
-- a power of two `a` leaves the multiple of `a` below it.
abbrev pub align_up : ℕ → ℕ → ℕ
align_up x a = add64 x (a - 1) / a * a

-- `VHD_IS_ALIGNED(x, a)` for a power of two `a`: the low bits of `x` are clear.
abbrev pub is_aligned : ℕ → ℕ → Bool
is_aligned x a = x % a == 0
