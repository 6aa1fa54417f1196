-- ===== src/Shell.antt =====
-- The line editor of src/shell/shell.c. `execute_command` is an argument of the functions that
-- call it.
pub mod Prefixes
pub mod Editing
pub mod Commands
use vidga_os.Base.{
  ℕ, zero, suc, ◌+◌, ◌-◌, ◌<◌, ◌≤◌, Bool, true, false, ◌&&◌, ◌||◌, List, [], ◌∷◌, ◌++◌, ltb, leb,
  ◌==◌, if◌then◌else◌, replicate, set, Text, c_str, codes,
}
use vidga_os.Kernel.{
  Kernel, Run, ok, fault, out_of_fuel, Cmd, pure, and_then, ◌>>=◌, ◌>>◌, get_cwd, print, print_char,
  read_key,
}

-- `input_buffer` and `buffer_idx`
pub record Editor : Type 0 where
  pub input_buffer : List ℕ
  pub buffer_idx : ℕ

-- `c == '\n' || c == '\r'`
abbrev pub is_enter : ℕ → Bool
is_enter c = c == 10 || c == 13

-- `c == '\b' || c == 127`
abbrev pub is_erase : ℕ → Bool
is_erase c = c == 8 || c == 127

-- `c >= 32`, of a signed character
abbrev pub is_shown : ℕ → Bool
is_shown c = leb 32 c && ltb c 128

module _ {D : Type 0} (design : ℕ) where
  unfoldable pub print_prompt : Cmd D (Unit {0})
  print_prompt = do
    cwd ← get_cwd
    print (codes "root") design
    print cwd.path design
    print (codes "> ") design

  unfoldable pub shell_init : Editor → Cmd D Editor
  shell_init ed = do
    print (codes "VidgaOS Shell\n") design
    print_prompt
    pure (record ed { buffer_idx = 0 })

  -- A key that erases.
  unfoldable pub erase : Editor → Cmd D Editor
  erase ed =
      if ltb 0 ed.buffer_idx
      then (print (codes "\u{8} \u{8}") design
          >> pure (record ed { buffer_idx = ed.buffer_idx - 1 }))
      else pure ed

  -- Any other key but the one that ends the line.
  unfoldable pub insert : ℕ → Editor → Cmd D Editor
  insert c ed =
      if ltb ed.buffer_idx 255 && is_shown c
      then (print_char c design
          >> pure (record ed {
            input_buffer = set ed.input_buffer ed.buffer_idx c;
            buffer_idx = ed.buffer_idx + 1;
          }))
      else pure ed

module _ {D : Type 0} (execute_command : Text → ℕ → Cmd D (Unit {0})) (design : ℕ) where
  -- The call of `execute_command` when the line is not empty.
  unfoldable pub run_line : ℕ → List ℕ → Cmd D (Unit {0})
  run_line idx buffer = if ltb 0 idx then execute_command (c_str buffer) design else pure tt

  -- The key that ends the line.
  unfoldable pub enter : Editor → Cmd D Editor
  enter ed = do
    print (codes "\n") design
    run_line ed.buffer_idx (set ed.input_buffer ed.buffer_idx 0)
    print_prompt design
    pure (record { input_buffer = set ed.input_buffer ed.buffer_idx 0; buffer_idx = 0 })

  unfoldable pub process_input : ℕ → Editor → Cmd D Editor
  process_input c ed =
      if is_enter c then enter ed else if is_erase c then erase design ed else insert design c ed

  -- The first rounds of the loop of `shell_run`.
  unfoldable pub process_keys : ℕ → Editor → Cmd D Editor
  process_keys zero ed = pure ed
  process_keys (suc rounds) ed = do
    c ← read_key
    next ← if c == 0 then pure ed else process_input c ed
    process_keys rounds next
