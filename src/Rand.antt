-- ===== src/Rand.antt =====
-- The generator of src/kernel/rand.c. The state is a 32-bit pattern, and so is an `int`.
pub mod Range
use vidga_os.Base.{
  ℕ, ◌+◌, ◌-◌, ◌*◌, ◌/◌, ◌%◌, ◌^◌, Bool, ltb, ◌==◌, if◌then◌else◌, u32, sub32, shr, low_bits,
}

-- `seed ? seed : 1`
unfoldable pub srand : ℕ → ℕ
srand seed = if seed == 0 then 1 else seed

-- The new state, and `(rand_state >> 16) & 0x7FFF`.
unfoldable pub rand : ℕ → ℕ × ℕ
rand state =
    let state' = u32 (u32 (state * 1103515245) + 12345) in (state', low_bits (shr state' 16) 15)

-- `a < b` of two `int`s: the patterns from 2 ^ 31 on stand for the negative numbers.
abbrev pub int_lt : ℕ → ℕ → Bool
int_lt a b = ltb (u32 (a + 2 ^ 31)) (u32 (b + 2 ^ 31))

-- `rand() % n` for a positive `int`; for other values of `max - min + 1`, which the range does
-- not fit, the division is left undefined by C, and the model's remainder is no statement on it.
unfoldable pub rand_range : ℕ → ℕ → ℕ → ℕ × ℕ
rand_range min max state =
    if int_lt min max
    then (let (state', r) = rand state in (state', u32 (min + r % u32 (sub32 max min + 1))))
    else (state, min)
