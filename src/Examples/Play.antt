-- ===== src/Examples/Play.antt =====
-- The theorems on the games at a few keys.
use vidga_os.Base.{ℕ, ◌≡◌, ◌+◌, ◌≤◌, refl, List, [], ◌∷◌, ◌++◌, arith, codes}
use vidga_os.Vga.{Screen, number_text, digits_loop}
use vidga_os.Rand.{srand, rand_range, rand}
use vidga_os.Kernel.{Kernel, ok}
use vidga_os.Games.{read_number, game_dice, game_number_guess}
use vidga_os.Games.Dice.{report, game_dice-rolls}
use vidga_os.Games.Numbers.{read_number-number_text}
use vidga_os.Games.Guessing.{
  lines, counted, target_of, Ends, Wins, game_number_guess-Ends, game_number_guess-Wins,
}
use vidga_os.Examples.Drive.{Drive, started}

abbrev typing : List ℕ → Kernel Drive
typing keys = record started { pit_ticks = 7; keys = keys }

digits_42 : codes "42\nls\n" ≡ number_text 42 ++ 10 ∷ codes "ls\n"
unfolding number_text digits_loop
digits_42 = refl

read_number-number_text_example :
    (screen : Screen) × (read_number 31 (typing (codes "42\nls\n"))
      ≡ ok 42 (record (typing (codes "42\nls\n")) { keys = codes "ls\n"; screen = screen }))
read_number-number_text_example =
    read_number-number_text 31 42 (codes "ls\n") (typing (codes "42\nls\n")) (omega arith) digits_42

-- Two wrong numbers, one of which is refused, and the number drawn.
abbrev game : List ℕ
game = codes "500\n17\n65\nls\n"

drawn : target_of (typing game) ≡ 65
unfolding srand rand_range rand
drawn = refl

typed_lines : (typing game).keys ≡ lines (500 ∷ 17 ∷ []) (number_text 65 ++ 10 ∷ codes "ls\n")
unfolding number_text digits_loop lines
typed_lines = refl

game_dice-rolls_example :
    (roll1 : ℕ) × (roll2 : ℕ) × (rand_state : ℕ) × (1 ≤ roll1)
    × (roll1 ≤ 6)
    × (1 ≤ roll2)
    × (roll2 ≤ 6)
    × (game_dice 31 (typing [])
        ≡ ok tt (record (typing []) {
          rand_state = rand_state;
          screen = report 31 roll1 roll2 (roll1 + roll2) started.screen;
        }))
game_dice-rolls_example = game_dice-rolls 31 (typing [])

game_number_guess-Ends_example :
    (rand_state : ℕ) × Ends
      (record (typing game) { rand_state = rand_state })
      (game_number_guess 31 14 (typing game))
game_number_guess-Ends_example = game_number_guess-Ends 31 14 (typing game) (omega arith)

game_number_guess-Wins_example :
    (rand_state : ℕ) × Wins
      (record (typing game) { rand_state = rand_state })
      2
      (codes "ls\n")
      (game_number_guess 31 3 (typing game))
unfolding counted srand rand_range rand
game_number_guess-Wins_example =
    game_number_guess-Wins 31 (500 ∷ 17 ∷ []) 3 (codes "ls\n") (typing game) (omega arith)
      (omega arith)
      ((omega arith, λ e. omega (arith, e)), ((omega arith, λ e. omega (arith, e)), tt)) typed_lines
