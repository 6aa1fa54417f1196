-- ===== src/Rand/Range.antt =====
-- The ranges of `rand` and `rand_range`.
use vidga_os.Base.{
  ℕ, ◌+◌, ◌-◌, ◌%◌, ◌^◌, ◌≤◌, ◌<◌, ◌≡◌, refl, true, false, inl, inr, arith, ltb, if◌then◌else◌,
  Bool-cases, u32, sub32,
}
use vidga_os.Rand.{rand, int_lt, rand_range}

-- `rand` gives a number of 15 bits, and its state stays a number of 32 bits.
pub rand-lt : (state : ℕ) → ((rand state).0 < 2 ^ 32) × ((rand state).1 < 2 ^ 15)
unfolding rand
rand-lt state = omega arith

-- What `rand_range` is to give, without wrap-around: each number from `min` to `max` is the result
-- for the draws of one remainder.
abbrev pub drawn : ℕ → ℕ → ℕ → ℕ × ℕ
drawn min max state =
    if ltb min max then ((rand state).0, min + (rand state).1 % (max - min + 1)) else (state, min)

-- The greatest result.
abbrev pub top : ℕ → ℕ → ℕ
top min max = if ltb min max then max else min

in_order :
    (min max state : ℕ)
    → min < max
    → max < 2 ^ 31 - 1
    → (min ≤ (rand_range min max state).1)
      × ((rand_range min max state).1 ≤ top min max)
      × (rand_range min max state ≡ drawn min max state)
unfolding rand_range
in_order min max state lt h =
    let test : int_lt min max ≡ true = ground arith in
    let width : u32 (sub32 max min + 1) ≡ max - min + 1 = omega arith in
    let r = (rand state).1 in
    let part : r % (max - min + 1) < max - min + 1 = omega arith in
    let fits : u32 (min + r % (max - min + 1)) ≡ min + r % (max - min + 1) = omega (arith, part) in
    let less : ltb min max ≡ true = ground arith in
    rw (test, width, less, fits) (omega arith, omega (arith, part), refl)

out_of_order :
    (min max state : ℕ) → min < 2 ^ 31 → max ≤ min → rand_range min max state ≡ (state, min)
unfolding rand_range
out_of_order min max state h le = let test : int_lt min max ≡ false = ground arith in rw test

-- For bounds from 0 to 2 ^ 31 - 1, the second below 2 ^ 31 - 1, `rand_range` gives a number that is
-- no less than the first, and no more than the second if they are in order, or the first if not.
-- In order, it is the first plus the remainder of a draw of `rand` by the count of the numbers
-- between them, both included; else nothing is drawn.
pub rand_range_bounds :
    (min max state : ℕ)
    → min < 2 ^ 31
    → max < 2 ^ 31 - 1
    → (min ≤ (rand_range min max state).1)
      × ((rand_range min max state).1 ≤ top min max)
      × (rand_range min max state ≡ drawn min max state)
rand_range_bounds min max state hmin hmax = elim (Bool-cases (ltb min max)) [
  | inl lt ↦ in_order min max state (ground arith) hmax
  | inr le ↦
      let same = out_of_order min max state hmin (ground arith) in
      rw (same, le) (omega arith, omega arith, refl)
]
