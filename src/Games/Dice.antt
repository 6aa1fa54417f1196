-- ===== src/Games/Dice.antt =====
-- `game_dice`: what the dice show.
use vidga_os.Base.{ℕ, ◌+◌, ◌≤◌, ◌≡◌, refl, arith, codes, u32}
use vidga_os.Vga.{Screen, print_msg, print_msg_num}
use vidga_os.Kernel.{Kernel, ok}
use vidga_os.Rand.{srand, rand_range}
use vidga_os.Rand.Range.{rand_range_bounds}
use vidga_os.Games.{game_dice}

-- What the game shows for two rolls and a total.
abbrev pub report : ℕ → ℕ → ℕ → ℕ → Screen → Screen
report design roll1 roll2 total s =
    let nl = print_msg (codes "\n") design in
    nl (
      print_msg_num total design (
        print_msg (codes "Total: ") design (
          nl (
            print_msg_num roll2 design (
              print_msg (codes "Die 2: ") design (
                nl (
                  print_msg_num roll1 design (
                    print_msg (codes "Die 1: ") design
                      (print_msg (codes "Rolling two dice...\n") design s)))))))))

-- In every state the game of dice ends: it shows two numbers from 1 to 6 and their sum, and
-- changes the screen and the state of the generator alone.
pub game_dice-rolls :
    {D : Type 0} (design : ℕ) (s : Kernel D)
    → (roll1 : ℕ) × (roll2 : ℕ) × (rand_state : ℕ) × (1 ≤ roll1)
      × (roll1 ≤ 6)
      × (1 ≤ roll2)
      × (roll2 ≤ 6)
      × (game_dice design s
          ≡ ok tt (record s {
            rand_state = rand_state;
            screen = report design roll1 roll2 (roll1 + roll2) s.screen;
          }))
unfolding game_dice
game_dice-rolls design s =
    let d1 = rand_range 1 6 (srand s.pit_ticks) in
    let d2 = rand_range 1 6 d1.0 in
    let b1 = rand_range_bounds 1 6 (srand s.pit_ticks) (omega arith) (omega arith) in
    let b2 = rand_range_bounds 1 6 d1.0 (omega arith) (omega arith) in
    let sum : u32 (d1.1 + d2.1) ≡ d1.1 + d2.1 = omega (arith, b1.1, b2.1) in
    (d1.1, d2.1, d2.0, b1.0, b1.1, b2.0, b2.1, rw sum refl)
