-- ===== src/Examples/Commands.antt =====
-- The theorems on the commands at short lines.
use vidga_os.Base.{ℕ, ◌≡◌, ◌≢◌, refl, List, arith, get_or, length, codes, ap}
use vidga_os.Kernel.{Kernel}
use vidga_os.Shell.{process_keys}
use vidga_os.Shell.Editing.{SameButKeys}
use vidga_os.Shell.Commands.{execute_command, unknown}
use vidga_os.Shell.Commands.Dispatch.{
  Command, say, wipe, where_am_i, list_here, list_root, change_dir, make_dir, make_file, remove,
  show_file, explain, for_games, line_of, execute_command-unknown,
}
use vidga_os.Shell.Commands.Session.{run_command, after_command, process_keys-line_of}
use vidga_os.Examples.Drive.{Drive, ideal, started}
use vidga_os.Examples.Lines.{empty_line, empty_line-IsValid}

abbrev first : List ℕ → ℕ
first l = get_or l 0 0

not_a_command : (c : Command) → codes "x" ≢ line_of c
not_a_command (say text) = λ e. omega (arith, ap first e)
not_a_command wipe = λ e. omega (arith, ap first e)
not_a_command where_am_i = λ e. omega (arith, ap first e)
not_a_command list_here = λ e. omega (arith, ap first e)
not_a_command list_root = λ e. omega (arith, ap first e)
not_a_command (change_dir path) = λ e. omega (arith, ap first e)
not_a_command (make_dir path) = λ e. omega (arith, ap first e)
not_a_command (make_file path) = λ e. omega (arith, ap first e)
not_a_command (remove path) = λ e. omega (arith, ap first e)
not_a_command (show_file name) = λ e. omega (arith, ap first e)
not_a_command explain = λ e. omega (arith, ap first e)
not_a_command (for_games text) = λ e. omega (arith, ap first e)

execute_command-unknown_example : execute_command ideal 4 31 (codes "x") ≡ unknown (codes "x")
execute_command-unknown_example =
    execute_command-unknown ideal 4 31 (codes "x") (λ e. omega (arith, e), tt)
      (λ e. omega (arith, ap length e)) not_a_command

abbrev typing : Kernel Drive
typing = record started { keys = codes "cd a\npwd" }

process_keys-line_of_example :
    (buffer : List ℕ) × (t : Kernel Drive) × SameButKeys (codes "pwd") typing t
    × (process_keys (run_command ideal 4) 31 5 empty_line typing
        ≡ after_command ideal 4 31 (change_dir (codes "a")) buffer t)
process_keys-line_of_example =
    process_keys-line_of ideal 4 31 (change_dir (codes "a")) (codes "pwd") empty_line typing
      empty_line-IsValid refl
      (
        (omega arith, omega arith),
        (
          (omega arith, omega arith),
          ((omega arith, omega arith), ((omega arith, omega arith), tt)),
        ),
      )
      (omega arith) refl
