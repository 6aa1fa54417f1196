-- ===== src/Examples/Keys.antt =====
-- The theorems on the keyboard driver and the random numbers.
use vidga_os.Base.{
  ℕ, ◌⊎◌, ◌≤◌, ◌<◌, ◌≡◌, refl, false, none, some, [], ◌∷◌, arith, replicate, length-replicate,
}
use vidga_os.Keyboard.{Keyboard, translate_scancode}
use vidga_os.Keyboard.Ring.{
  IsValid, contents, typed, asked, run, run_queue, enqueue, dequeue, run_refines,
}
use vidga_os.Keyboard.Scancodes.{Gives, translate_scancode-Gives}
use vidga_os.Rand.{rand_range}
use vidga_os.Rand.Range.{drawn, top, rand_range_bounds}

abbrev idle : Keyboard
idle = record { shift = false; caps = false; buf = replicate 128 0; head = 0; tail = 0 }

idle-IsValid : IsValid idle
idle-IsValid = record {
  room = length-replicate {A = ℕ} 128 0;
  head_in = omega arith;
  tail_in = omega arith;
}

run_refines_example :
    run idle (typed b'l' ∷ typed b's' ∷ asked ∷ asked ∷ asked ∷ [])
    ≡ run_queue (contents idle) (typed b'l' ∷ typed b's' ∷ asked ∷ asked ∷ asked ∷ [])
run_refines_example =
    run_refines (typed b'l' ∷ typed b's' ∷ asked ∷ asked ∷ asked ∷ []) idle idle-IsValid

answers :
    run_queue [] (typed b'l' ∷ typed b's' ∷ asked ∷ asked ∷ asked ∷ [])
    ≡ some b'l' ∷ some b's' ∷ none ∷ []
unfolding run_queue enqueue dequeue
answers = refl

rand_range_bounds_example :
    (1 ≤ (rand_range 1 6 7).1) × ((rand_range 1 6 7).1 ≤ top 1 6) × (rand_range 1 6 7 ≡ drawn 1 6 7)
rand_range_bounds_example = rand_range_bounds 1 6 7 (omega arith) (omega arith)

translate_scancode-Gives_example :
    ((0x1E < 0x60) ⊎ (128 ≤ 0x1E) → Gives (translate_scancode 0x1E idle))
    × ((0x60 ≤ 0x1E) × (0x1E < 128) → translate_scancode 0x1E idle ≡ none)
translate_scancode-Gives_example = translate_scancode-Gives 0x1E idle (omega arith)
