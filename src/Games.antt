-- ===== src/Games.antt =====
-- The games of src/games/games.c. A game reads the characters that `keyboard_getchar` will give,
-- and waits when there is none left.
pub mod Numbers
pub mod Dice
pub mod Guessing
use vidga_os.Base.{
  ℕ, zero, suc, ◌+◌, ◌-◌, ◌*◌, ◌^◌, Bool, ◌||◌, ◌&&◌, List, [], ◌∷◌, ◌++◌, ltb, leb, if◌then◌else◌,
  length, take, Text, codes, u32,
}
use vidga_os.Vga.{blue, cyan, light_green, light_cyan, yellow, vga_color}
use vidga_os.Kernel.{
  ok, out_of_fuel, waiting, Cmd, pure, and_then, ◌>>=◌, ◌>>◌, print, print_char, print_num, reseed,
  draw,
}
use vidga_os.Shell.{is_enter, is_erase}

-- `c >= '0' && c <= '9'`
abbrev pub is_digit : ℕ → Bool
is_digit c = leb b'0' c && leb c b'9'

-- `guess < 1 || guess > 100`
abbrev pub is_refused : ℕ → Bool
is_refused guess = ltb guess 1 || ltb 100 guess

-- The loop of `read_number` that makes a number of the digits.
unfoldable pub parse_loop : Text → ℕ → ℕ
parse_loop [] result = result
parse_loop (c ∷ cs) result = parse_loop cs (result * 10 + (c - b'0'))

module _ {D : Type 0} where
  -- The characters that are left after one of them is read.
  abbrev pub keys_left : List ℕ → Cmd D (Unit {0})
  keys_left cs s = ok tt (record s { keys = cs })

  unfoldable pub game_list : Cmd D (Unit {0})
  game_list = do
    print (codes "Available Games:\n") (vga_color cyan blue)
    print (codes "  game play dice       - Roll two dice\n") (vga_color cyan blue)
    print (codes "  game play guess      - Number guessing game\n") (vga_color cyan blue)

  -- The end of a game that is won with this many guesses.
  unfoldable pub won : ℕ → Cmd D (Unit {0})
  won guesses = do
    print (codes "Correct! You got it in ") (vga_color light_green blue)
    print_num guesses (vga_color light_green blue)
    print (codes " guesses!\n") (vga_color light_green blue)

  -- The end of a round: `again` is the next round, with the number of guesses so far.
  unfoldable pub answer : ℕ → ℕ → ℕ → (ℕ → Cmd D (Unit {0})) → Cmd D (Unit {0})
  answer target guess guesses again =
      if is_refused guess
      then (print (codes "Please enter a number between 1 and 100.\n") (vga_color light_cyan blue)
          >> again (u32 (guesses + 2 ^ 32 - 1)))
      else if ltb guess target
      then (print (codes "Too low! Try higher.\n") (vga_color light_cyan blue) >> again guesses)
      else if ltb target guess
      then (print (codes "Too high! Try lower.\n") (vga_color light_cyan blue) >> again guesses)
      else won guesses

module _ {D : Type 0} (design : ℕ) where
  -- The branches of `read_number` for a key that does not end the number: what becomes of the
  -- first `idx` characters of `buf`.
  unfoldable pub edit_number : ℕ → Text → Cmd D Text
  edit_number c buf =
      if is_erase c
      then (if ltb 0 (length buf)
          then (print (codes "\u{8} \u{8}") design >> pure (take (length buf - 1) buf))
          else pure buf)
      else if is_digit c && ltb (length buf) 6
      then (print (c ∷ []) design >> pure (buf ++ c ∷ []))
      else pure buf

  -- The first loop of `read_number`, for the characters that are left.
  unfoldable pub number_loop : List ℕ → Text → Cmd D Text
  number_loop [] buf = λ s. waiting
  number_loop (c ∷ cs) buf =
      let rest = number_loop cs in
      keys_left cs
      >> (if is_enter c
          then (print (codes "\n") design >> pure buf)
          else edit_number c buf >>= rest)

  unfoldable pub read_number : Cmd D ℕ
  read_number s = and_then (number_loop s.keys [] s) (λ buf. pure (parse_loop buf 0))

  unfoldable pub game_dice : Cmd D (Unit {0})
  game_dice = do
    reseed
    roll1 ← draw 1 6
    roll2 ← draw 1 6
    print (codes "Rolling two dice...\n") design
    print (codes "Die 1: ") design
    print_num roll1 design
    print (codes "\n") design
    print (codes "Die 2: ") design
    print_num roll2 design
    print (codes "\n") design
    print (codes "Total: ") design
    print_num (u32 (roll1 + roll2)) design
    print (codes "\n") design

  -- The loop of `game_number_guess`: `guesses` is the count before the round.
  unfoldable pub guess_loop : ℕ → ℕ → ℕ → Cmd D (Unit {0})
  guess_loop target zero guesses = λ s. out_of_fuel
  guess_loop target (suc fuel) guesses =
      let rest = guess_loop target fuel in
      print (codes "Your guess: ") design >> read_number >>= λ guess.
      answer target guess (u32 (guesses + 1)) rest

  unfoldable pub game_number_guess : ℕ → Cmd D (Unit {0})
  game_number_guess fuel = do
    reseed
    target ← draw 1 100
    print (codes "=== Number Guessing Game ===\n") (vga_color yellow blue)
    print (codes "I'm thinking of a number between 1 and 100.\n") design
    print (codes "Type your guess and press Enter.\n\n") design
    guess_loop target fuel 0
