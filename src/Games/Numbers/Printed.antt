-- ===== src/Games/Numbers/Printed.antt =====
-- The digits that `print_msg_num` prints, as they are typed and read.
use vidga_os.Base.{
  ℕ, zero, suc, ◌+◌, ◌-◌, ◌*◌, ◌/◌, ◌%◌, ◌^◌, ◌≤◌, ◌<◌, ◌≡◌, refl, ap, ◌∙◌, inl, inr, true, false,
  ◌&&◌, [], ◌∷◌, arith, ltb, leb, ◌==◌, Bool-cases, length, All, Text,
}
use vidga_os.Vga.{digits_loop, number_text}
use vidga_os.Games.{is_digit, parse_loop}

abbrev pub IsDigits : Text → Type 0
IsDigits = All (λ c. is_digit c ≡ true)

parse_loop-digit :
    (num : ℕ) (out : Text) → parse_loop ((b'0' + num % 10) ∷ out) (num / 10) ≡ parse_loop out num
unfolding parse_loop
parse_loop-digit num out = ap (parse_loop out) (omega arith)

-- What `digits_loop` puts before `out`, for a number of at most `j` digits.
pub digits_loop_lem :
    (k j num : ℕ) (out : Text)
    → j ≤ k
    → num < 10 ^ j
    → num < 2 ^ 31
    → IsDigits out
    → (parse_loop (digits_loop k num out).1 0 ≡ parse_loop out num)
      × (length (digits_loop k num out).1 ≤ j + length out)
      × IsDigits (digits_loop k num out).1
unfolding digits_loop
digits_loop_lem zero zero num out le h small d = (ap (parse_loop out) (omega arith), omega arith, d)
digits_loop_lem zero (suc j) num out le h small d = absurd (omega arith)
digits_loop_lem (suc k) zero num out le h small d =
    let last : (ltb 0 num && ltb num (2 ^ 31)) ≡ false = ground arith in
    rw last (ap (parse_loop out) (omega arith), omega arith, d)
digits_loop_lem (suc k) (suc j) num out le h small d =
    elim (Bool-cases (ltb 0 num && ltb num (2 ^ 31))) [
      | inl more ↦
          let rest =
            digits_loop_lem k j (num / 10) ((b'0' + num % 10) ∷ out) (omega arith) (omega arith)
              (omega arith) (ground arith, d) in
          rw more (rest.0 ∙ parse_loop-digit num out, omega (arith, rest.1), rest.2)
      | inr last ↦ rw last (ap (parse_loop out) (ground arith), omega arith, d)
    ]

-- The text of a number below 10 ^ 6 has one to six digits, and they make the number.
pub number_text-IsDigits :
    (num : ℕ)
    → num < 10 ^ 6
    → IsDigits (number_text num)
      × (length (number_text num) ≤ 6)
      × (parse_loop (number_text num) 0 ≡ num)
unfolding number_text parse_loop
number_text-IsDigits num h =
    let positive : leb (2 ^ 31) num ≡ false = ground arith in
    let found = digits_loop_lem 15 6 num [] (omega arith) h (omega arith) tt in
    rw positive (elim (Bool-cases (num == 0)) [
      | inl z ↦ rw z ((refl, tt), omega arith, ground arith)
      | inr n ↦ rw n (found.2, found.1, found.0)
    ])

-- `j` digits or fewer, after a number below `m`.
tens : ℕ → ℕ → ℕ
tens zero m = m
tens (suc j) m = tens j (m * 10)

parse_loop-tens :
    (cs : Text) (j acc m : ℕ) → length cs ≤ j → acc < m → IsDigits cs → parse_loop cs acc < tens j m
unfolding parse_loop tens
parse_loop-tens [] zero acc m le lt d = lt
parse_loop-tens [] (suc j) acc m le lt d =
    parse_loop-tens [] j acc (m * 10) (omega arith) (omega arith) d
parse_loop-tens (c ∷ cs) zero acc m le lt d = absurd (omega arith)
parse_loop-tens (c ∷ cs) (suc j) acc m le lt (d, ds) =
    parse_loop-tens cs j (acc * 10 + (c - b'0')) (m * 10) (omega arith) (ground arith) ds

-- Six digits make a number below 10 ^ 6.
pub parse_loop-lt : (cs : Text) → length cs ≤ 6 → IsDigits cs → parse_loop cs 0 < 10 ^ 6
unfolding tens
parse_loop-lt cs le d = parse_loop-tens cs 6 0 1 le (omega arith) d
