-- ===== src/Shell/Commands/Session.antt =====
-- The line editor with `execute_command`: a command that is typed is run.
use vidga_os.Base.{
  ℕ, suc, ◌+◌, ◌≤◌, ◌<◌, ◌≡◌, refl, sym, ◌∙◌, true, false, ◌&&◌, List, [], ◌∷◌, ◌++◌, arith, ltb,
  ◌==◌, length, All, Text, append-nil, append_assoc, length-append,
}
use mathlib.Core.Path.{subst}
use vidga_os.Kernel.{BlockDevice, Kernel, Cmd, pure, ◌>>=◌}
use vidga_os.Shell.{Editor, is_enter, is_erase, is_shown, print_prompt, process_keys}
use vidga_os.Shell.Editing.{
  line, IsValid, edit, edit_all, SameButKeys, finish, Finishes, process_keys-Finishes,
}
use vidga_os.Shell.Commands.{execute_command}
use vidga_os.Shell.Commands.Dispatch.{
  Command, say, wipe, where_am_i, list_here, list_root, change_dir, make_dir, make_file, remove,
  show_file, explain, for_games, line_of, meaning, execute_command-line_of,
}

-- A printable ASCII character.
abbrev pub IsPrintable : ℕ → Type 0
IsPrintable c = (32 ≤ c) × (c < 127)

edit_all-printable :
    (cs l : Text) → All IsPrintable cs → length l + length cs ≤ 255 → edit_all l cs ≡ l ++ cs
unfolding edit_all edit
edit_all-printable [] l h le = sym (append-nil l)
edit_all-printable (c ∷ cs) l (h, hs) le =
    let key : (c == 0) ≡ false = ground (arith, h) in
    let kept : is_erase c ≡ false = ground (arith, h) in
    let fits : (ltb (length l) 255 && is_shown c) ≡ true = ground (arith, h) in
    rw (key, kept, fits)
      (edit_all-printable cs (l ++ c ∷ []) hs (omega (arith, length-append l (c ∷ [])))
        ∙ append_assoc l (c ∷ []) cs)

no_enter : (cs : Text) → All IsPrintable cs → All (λ c. is_enter c ≡ false) cs
no_enter [] h = tt
no_enter (c ∷ cs) (h, hs) = (ground (arith, h), no_enter cs hs)

some_text : (c : Command) → (length (line_of c) == 0) ≡ false
some_text (say text) = ground arith
some_text wipe = ground arith
some_text where_am_i = ground arith
some_text list_here = ground arith
some_text list_root = ground arith
some_text (change_dir path) = ground arith
some_text (make_dir path) = ground arith
some_text (make_file path) = ground arith
some_text (remove path) = ground arith
some_text (show_file name) = ground arith
some_text explain = ground arith
some_text (for_games text) = ground arith

-- `execute_command(input_buffer, design)`
abbrev pub run_command : {D : Type 0} → BlockDevice D → ℕ → Text → ℕ → Cmd D (Unit {0})
run_command dev fuel cmd design = execute_command dev fuel design cmd

module _ {D : Type 0} (dev : BlockDevice D) (fuel design : ℕ) where
  -- A command, then the prompt and an empty line.
  abbrev pub after_command : Command → List ℕ → Cmd D Editor
  after_command c buffer = meaning dev fuel design c >>= λ _.
      print_prompt design >>= λ _. pure (record { input_buffer = buffer; buffer_idx = 0 })

  finish-line_of :
      (c : Command) (buffer : List ℕ) (t : Kernel D)
      → finish (run_command dev fuel) design (line_of c) buffer t ≡ after_command c buffer t
  finish-line_of c buffer t = rw (some_text c, execute_command-line_of dev fuel design c) refl

  -- On an empty line, let the keys be the line of a command, of printable characters and at most
  -- 255 of them, and the key that ends it. After as many rounds of `shell_run` the shell has read
  -- these keys, done what the command means, and printed the prompt, and its line is empty; before
  -- the command nothing but the keys and the screen has changed.
  pub process_keys-line_of :
      (c : Command) (rest : List ℕ) (ed : Editor) (s : Kernel D)
      → IsValid ed
      → ed.buffer_idx ≡ 0
      → All IsPrintable (line_of c)
      → length (line_of c) ≤ 255
      → s.keys ≡ line_of c ++ 10 ∷ rest
      → (buffer : List ℕ) × (t : Kernel D) × SameButKeys rest s t
        × (process_keys (run_command dev fuel) design (suc (length (line_of c))) ed s
            ≡ after_command c buffer t)
  process_keys-line_of c rest ed s v e h le k =
      let start : line ed ≡ [] = rw e refl in
      let typed : edit_all (line ed) (line_of c) ≡ line_of c =
        rw start (edit_all-printable (line_of c) [] h (omega (arith, le))) in
      let (buffer, t, same, run) =
        subst
          (λ l.
            Finishes (run_command dev fuel) design rest s l
              (process_keys (run_command dev fuel) design (suc (length (line_of c))) ed s))
          typed
          (process_keys-Finishes (run_command dev fuel) design (line_of c) rest ed s v
            (no_enter (line_of c) h) k) in
      (buffer, t, same, run ∙ finish-line_of c buffer t)
