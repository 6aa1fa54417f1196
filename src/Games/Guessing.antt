-- ===== src/Games/Guessing.antt =====
-- `game_number_guess`: that it ends, and with what count.
use vidga_os.Base.{
  ℕ, zero, suc, ◌+◌, ◌-◌, ◌^◌, ◌<◌, ◌≡◌, ◌≢◌, ◌⊎◌, inl, inr, refl, true, false, List, [], ◌∷◌, ◌++◌,
  arith, ltb, Bool-cases, if◌then◌else◌, length, All, codes, u32,
}
use vidga_os.Vga.{Screen, blue, yellow, vga_color, print_msg, number_text}
use vidga_os.Kernel.{Kernel, Run, ok, waiting, Cmd}
use vidga_os.Rand.{srand, rand_range}
use vidga_os.Rand.Range.{rand_range_bounds}
use vidga_os.Games.{is_refused, won, answer, guess_loop, game_number_guess}
use vidga_os.Games.Numbers.{read_number-number_text, read_number-Answers}

-- The lines of these guesses, and the keys after them.
unfoldable pub lines : List ℕ → List ℕ → List ℕ
lines [] rest = rest
lines (g ∷ gs) rest = number_text g ++ 10 ∷ lines gs rest

-- The guesses that are in the range, and so are counted.
unfoldable pub counted : List ℕ → ℕ
counted [] = 0
counted (g ∷ gs) = if is_refused g then counted gs else suc (counted gs)

-- A guess that is not the number.
abbrev pub IsWrong : ℕ → ℕ → Type 0
IsWrong target g = (g < 10 ^ 6) × (g ≢ target)

-- What the game shows before the first guess.
abbrev pub greeting : ℕ → Screen → Screen
greeting design s = print_msg (codes "Type your guess and press Enter.\n\n") design (
    print_msg (codes "I'm thinking of a number between 1 and 100.\n") design
      (print_msg (codes "=== Number Guessing Game ===\n") (vga_color yellow blue) s))

-- The number to guess.
abbrev pub target_of : {D : Type 0} → Kernel D → ℕ
target_of s = (rand_range 1 100 (srand s.pit_ticks)).1

module _ {D : Type 0} where
  -- The run waits for a key, or is over; it has changed the keys and the screen alone.
  abbrev pub Ends : Kernel D → Run D (Unit {0}) → Type 0
  Ends s run =
      (run ≡ waiting)
      ⊎ ((rest : List ℕ) × (screen : Screen) × (run
            ≡ ok tt (record s { keys = rest; screen = screen })))

  answer-Ends :
      (target guess guesses : ℕ) (again : ℕ → Cmd D (Unit {0})) (s : Kernel D)
      → ((n : ℕ) (screen : Screen) → Ends s (again n (record s { screen = screen })))
      → Ends s (answer target guess guesses again s)
  unfolding answer won
  answer-Ends target guess guesses again s h = elim (Bool-cases (is_refused guess)) [
    | inl r ↦ rw r (h _ _)
    | inr n ↦ elim (Bool-cases (ltb guess target)) [
      | inl low ↦ rw (n, low) (h _ _)
      | inr not_low ↦ elim (Bool-cases (ltb target guess)) [
        | inl high ↦ rw (n, not_low, high) (h _ _)
        | inr equal ↦ rw (n, not_low, equal) (inr (_, _, refl))
      ]
    ]
  ]

  answer-refused :
      (target guess n : ℕ) (again : ℕ → Cmd D (Unit {0})) (s : Kernel D)
      → is_refused guess ≡ true
      → n < 2 ^ 31
      → (screen : Screen) × (answer target guess (u32 (n + 1)) again s
          ≡ again n (record s { screen = screen }))
  unfolding answer
  answer-refused target guess n again s r lt =
      let back : u32 (u32 (n + 1) + 2 ^ 32 - 1) ≡ n = omega arith in rw (r, back) (_, refl)

  answer-wrong :
      (target guess n : ℕ) (again : ℕ → Cmd D (Unit {0})) (s : Kernel D)
      → is_refused guess ≡ false
      → guess ≢ target
      → (screen : Screen) × (answer target guess n again s ≡ again n (record s { screen = screen }))
  unfolding answer
  answer-wrong target guess n again s r ne = elim (Bool-cases (ltb guess target)) [
    | inl low ↦ rw (r, low) (_, refl)
    | inr not_low ↦
        let high : ltb target guess ≡ true = ground arith in rw (r, not_low, high) (_, refl)
  ]

  answer-right :
      (target n : ℕ) (again : ℕ → Cmd D (Unit {0})) (s : Kernel D)
      → is_refused target ≡ false
      → answer target target n again s ≡ won n s
  unfolding answer
  answer-right target n again s r =
      let equal : ltb target target ≡ false = ground arith in rw (r, equal) refl

  -- The run is that of `won n`, in a state with other keys and another screen.
  abbrev pub Wins : Kernel D → ℕ → List ℕ → Run D (Unit {0}) → Type 0
  Wins s n rest run = (screen : Screen) × (run ≡ won n (record s { keys = rest; screen = screen }))

module _ {D : Type 0} (design : ℕ) where
  guess_loop-Ends :
      (target fuel guesses : ℕ) (s : Kernel D)
      → length s.keys < fuel
      → Ends s (guess_loop design target fuel guesses s)
  unfolding guess_loop
  guess_loop-Ends target zero guesses s h = absurd (omega arith)
  guess_loop-Ends target (suc fuel) guesses s h =
      let asked = record s { screen = print_msg (codes "Your guess: ") design s.screen } in
      elim (read_number-Answers design asked) [
        | inl e ↦ rw e (inl refl)
        | inr (num, rest, screen, lt, fewer, e) ↦ rw e (
            answer-Ends target num (u32 (guesses + 1)) (guess_loop design target fuel)
              (record s { keys = rest; screen = screen })
              (λ n screen'.
                guess_loop-Ends target fuel n (record s { keys = rest; screen = screen' })
                  (omega arith)))
      ]

  -- With more rounds than keys the guessing game never runs out of rounds: it waits for a key, or
  -- it ends, and then it has changed the keys, the screen and the state of the generator alone.
  pub game_number_guess-Ends :
      (fuel : ℕ) (s : Kernel D)
      → length s.keys < fuel
      → (rand_state : ℕ) × Ends
          (record s { rand_state = rand_state })
          (game_number_guess design fuel s)
  unfolding game_number_guess
  game_number_guess-Ends fuel s h =
      let drawn = rand_range 1 100 (srand s.pit_ticks) in
      (
        drawn.0,
        guess_loop-Ends drawn.1 fuel 0
            (record s { rand_state = drawn.0; screen = greeting design s.screen }) h,
      )

  guess_loop-Wins :
      (gs : List ℕ) (target fuel n : ℕ) (rest : List ℕ) (s : Kernel D)
      → length gs < fuel
      → n + length gs < 2 ^ 31
      → All (IsWrong target) gs
      → is_refused target ≡ false
      → s.keys ≡ lines gs (number_text target ++ 10 ∷ rest)
      → Wins s (n + counted gs + 1) rest (guess_loop design target fuel n s)
  unfolding guess_loop lines counted
  guess_loop-Wins [] target zero n rest s h small w r e = absurd (omega arith)
  guess_loop-Wins (g ∷ gs) target zero n rest s h small w r e = absurd (omega arith)
  guess_loop-Wins [] target (suc fuel) n rest s h small w r e =
      let asked = record s { screen = print_msg (codes "Your guess: ") design s.screen } in
      let (screen, run) = read_number-number_text design target rest asked (ground arith) e in
      let count : u32 (n + 1) ≡ n + 0 + 1 = omega arith in
      rw
        (
          run,
          count,
          answer-right target (n + 0 + 1) (guess_loop design target fuel)
              (record s { keys = rest; screen = screen }) r,
        )
        (screen, refl)
  guess_loop-Wins (g ∷ gs) target (suc fuel) n rest s h small ((lt, ne), w) r e =
      let asked = record s { screen = print_msg (codes "Your guess: ") design s.screen } in
      let left = lines gs (number_text target ++ 10 ∷ rest) in
      let (screen, run) = read_number-number_text design g left asked lt e in
      let read = record s { keys = left; screen = screen } in
      elim (Bool-cases (is_refused g)) [
        | inl refused ↦
            let (screen', next) =
              answer-refused target g n (guess_loop design target fuel) read refused
                (omega arith) in
            rw (run, next, refused)
              (guess_loop-Wins gs target fuel n rest (record read { screen = screen' })
                (omega arith) (omega arith) w r refl)
        | inr valid ↦
            let count : u32 (n + 1) ≡ n + 1 = omega arith in
            let (screen', next) =
              answer-wrong target g (n + 1) (guess_loop design target fuel) read valid ne in
            let total : n + suc (counted gs) + 1 ≡ n + 1 + counted gs + 1 = omega arith in
            rw (run, count, next, valid, total)
              (guess_loop-Wins gs target fuel (n + 1) rest (record read { screen = screen' })
                (omega arith) (omega arith) w r refl)
      ]

  -- If the keys are lines of numbers below 10 ^ 6, none of them the number drawn, and then the line
  -- of that number, the guessing game ends after that line, with the keys behind it left: it shows
  -- as the count one more than the wrong numbers from 1 to 100. There are more rounds than wrong
  -- lines, and the lines are fewer than 2 ^ 31.
  pub game_number_guess-Wins :
      (gs : List ℕ) (fuel : ℕ) (rest : List ℕ) (s : Kernel D)
      → length gs < fuel
      → length gs < 2 ^ 31
      → All (IsWrong (target_of s)) gs
      → s.keys ≡ lines gs (number_text (target_of s) ++ 10 ∷ rest)
      → (rand_state : ℕ) × Wins
          (record s { rand_state = rand_state })
          (counted gs + 1)
          rest
          (game_number_guess design fuel s)
  unfolding game_number_guess
  game_number_guess-Wins gs fuel rest s h small w e =
      let drawn = rand_range 1 100 (srand s.pit_ticks) in
      let bounds = rand_range_bounds 1 100 (srand s.pit_ticks) (omega arith) (omega arith) in
      let fine : is_refused drawn.1 ≡ false = ground (arith, bounds) in
      let total : counted gs + 1 ≡ 0 + counted gs + 1 = omega arith in
      rw total (
        drawn.0,
        guess_loop-Wins gs drawn.1 fuel 0 rest
            (record s { rand_state = drawn.0; screen = greeting design s.screen }) h (omega arith) w
            fine e,
      )
