-- ===== src/Examples/Lines.antt =====
-- The theorem on the line editor at a short line.
use vidga_os.Base.{
  ℕ, ◌≡◌, refl, [], ◌∷◌, ◌++◌, List, arith, codes, replicate, length-replicate, Text,
}
use vidga_os.Kernel.{Kernel, Cmd, pure}
use vidga_os.Shell.{Editor, process_keys}
use vidga_os.Shell.Editing.{line, IsValid, edit, edit_all, Finishes, process_keys-Finishes}
use vidga_os.Examples.Drive.{Drive, started}

abbrev pub empty_line : Editor
empty_line = record { input_buffer = replicate 256 0; buffer_idx = 0 }

pub empty_line-IsValid : IsValid empty_line
empty_line-IsValid = record {
  room = length-replicate {A = ℕ} 256 0;
  index = omega arith;
  text = tt;
}

abbrev no_command : Text → ℕ → Cmd Drive (Unit {0})
no_command cmd design = pure tt

-- "lx", a key that erases, and "s".
abbrev keys : List ℕ
keys = b'l' ∷ b'x' ∷ 8 ∷ b's' ∷ []

edited : edit_all [] keys ≡ codes "ls"
unfolding edit_all edit
edited = refl

abbrev typing : Kernel Drive
typing = record started { keys = keys ++ 10 ∷ codes "pwd" }

process_keys-Finishes_example :
    Finishes no_command 7
      (codes "pwd")
      typing
      (edit_all (line empty_line) keys)
      (process_keys no_command 7 5 empty_line typing)
process_keys-Finishes_example =
    process_keys-Finishes no_command 7 keys (codes "pwd") empty_line typing empty_line-IsValid
      (refl, (refl, (refl, (refl, tt)))) refl
