-- ===== src/Base/Words.antt =====
-- Machine words as native numbers: a cast is a remainder, a shift a product or a quotient.
use Prim.Native.Nat.{ℕ, ◌+◌, ◌-◌, ◌/◌, ◌%◌, ◌^◌, ◌<◌}
use mathlib.Core.Bool.{Bool}
use vidga_os.Base.Tests.{◌==◌}

abbrev pub u8 : ℕ → ℕ
u8 n = n % 2 ^ 8

abbrev pub u16 : ℕ → ℕ
u16 n = n % 2 ^ 16

abbrev pub u32 : ℕ → ℕ
u32 n = n % 2 ^ 32

-- `a - b` on `uint32_t`, for operands below 2 ^ 32
abbrev pub sub32 : ℕ → ℕ → ℕ
sub32 a b = (a + 2 ^ 32 - b) % 2 ^ 32

-- `x & (2 ^ k - 1)`
abbrev pub low_bits : ℕ → ℕ → ℕ
low_bits x k = x % 2 ^ k

-- `x >> k`
abbrev pub shr : ℕ → ℕ → ℕ
shr x k = x / 2 ^ k

-- `x & (1 << k)` as a test
abbrev pub has_bit : ℕ → ℕ → Bool
has_bit x k = x / 2 ^ k % 2 == 1

-- A value of `uint8_t`.
abbrev pub IsByte : ℕ → Type 0
IsByte n = n < 256
