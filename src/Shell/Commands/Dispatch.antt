-- ===== src/Shell/Commands/Dispatch.antt =====
-- `execute_command` against the commands as data.
use vidga_os.Base.{
  ℕ, ◌≡◌, ◌≢◌, refl, ap₂, inl, inr, Bool, true, false, not, ◌&&◌, [], ◌∷◌, ◌++◌, arith, ◌==◌,
  Bool-cases, length, drop, Text, IsText, codes, strcmp_eq, strcmp_eq_iff,
}
use vidga_os.Kernel.{BlockDevice, Cmd, pure, ◌>>◌}
use vidga_os.Vfs.{ls, cd, vfs_mkdir, vfs_create_file, vfs_delete}
use vidga_os.Shell.Commands.{
  strncmp_eq, echo, clear, pwd, cat, help, game, unknown, select, execute_command,
}

-- The commands, with what follows the first word.
pub data Command : Type 0 where
  say : Text → Command
  wipe : Command
  where_am_i : Command
  list_here : Command
  list_root : Command
  change_dir : Text → Command
  make_dir : Text → Command
  make_file : Text → Command
  remove : Text → Command
  show_file : Text → Command
  explain : Command
  for_games : Text → Command

-- The line that stands for a command.
abbrev pub line_of : Command → Text
line_of (say text) = codes "echo " ++ text
line_of wipe = codes "clear"
line_of where_am_i = codes "pwd"
line_of list_here = codes "ls"
line_of list_root = codes "dir"
line_of (change_dir path) = codes "cd " ++ path
line_of (make_dir path) = codes "mkdir " ++ path
line_of (make_file path) = codes "touch " ++ path
line_of (remove path) = codes "rm " ++ path
line_of (show_file name) = codes "cat " ++ name
line_of explain = codes "help"
line_of (for_games text) = codes "game " ++ text

strncmp_eq-prefix :
    (word cmd : Text)
    → IsText word
    → strncmp_eq cmd word (length word) ≡ true
    → cmd ≡ word ++ drop (length word) cmd
unfolding strncmp_eq
strncmp_eq-prefix [] cmd w h = refl
strncmp_eq-prefix (y ∷ ys) [] w h = absurd (ground (arith, w.0))
strncmp_eq-prefix (y ∷ ys) (x ∷ xs) w h =
    let same : x ≡ y = ground (arith, h) in
    let below : strncmp_eq xs ys (length ys) ≡ true = ground (arith, h) in
    ap₂ ◌∷◌ same (strncmp_eq-prefix ys xs w.1 below)

-- No character of the text is NUL, as a test.
has_no_nul : Text → Bool
has_no_nul [] = true
has_no_nul (c ∷ cs) = not (c == 0) && has_no_nul cs

literal : (t : Text) → has_no_nul t ≡ true → IsText t
unfolding has_no_nul
literal [] h = tt
literal (c ∷ cs) h = (ground (arith, h), literal cs (ground (arith, h)))

not_prefix :
    (word cmd : Text)
    → has_no_nul word ≡ true
    → ((rest : Text) → cmd ≢ word ++ rest)
    → strncmp_eq cmd word (length word) ≡ false
not_prefix word cmd w h = elim (Bool-cases (strncmp_eq cmd word (length word))) [
  | inl e ↦ absurd (h (drop (length word) cmd) (strncmp_eq-prefix word cmd (literal word w) e))
  | inr n ↦ n
]

not_word :
    (word cmd : Text)
    → has_no_nul word ≡ true
    → IsText cmd
    → cmd ≢ word
    → strcmp_eq cmd word ≡ false
not_word word cmd w t h = elim (Bool-cases (strcmp_eq cmd word)) [
  | inl e ↦ absurd (h ((strcmp_eq_iff cmd word t (literal word w)).0 e))
  | inr n ↦ n
]

module _ {D : Type 0} (dev : BlockDevice D) (fuel design : ℕ) where
  -- What a command does.
  abbrev pub meaning : Command → Cmd D (Unit {0})
  meaning (say text) = echo design text
  meaning wipe = clear
  meaning where_am_i = pwd
  meaning list_here = ls dev fuel (codes ".") >> pure tt
  meaning list_root = ls dev fuel (codes "/") >> pure tt
  meaning (change_dir path) = cd dev fuel path >> pure tt
  meaning (make_dir path) = vfs_mkdir dev fuel path >> pure tt
  meaning (make_file path) = vfs_create_file dev fuel path >> pure tt
  meaning (remove path) = vfs_delete dev fuel path >> pure tt
  meaning (show_file name) = cat dev fuel design name
  meaning explain = help design
  meaning (for_games text) = game design text

  -- `execute_command` on the line of a command does what the command means: the argument of the
  -- operation is all that follows the first word and the space.
  pub execute_command-line_of :
      (c : Command) → execute_command dev fuel design (line_of c) ≡ meaning c
  unfolding execute_command select strncmp_eq strcmp_eq
  execute_command-line_of (say text) = refl
  execute_command-line_of wipe = refl
  execute_command-line_of where_am_i = refl
  execute_command-line_of list_here = refl
  execute_command-line_of list_root = refl
  execute_command-line_of (change_dir path) = refl
  execute_command-line_of (make_dir path) = refl
  execute_command-line_of (make_file path) = refl
  execute_command-line_of (remove path) = refl
  execute_command-line_of (show_file name) = refl
  execute_command-line_of explain = refl
  execute_command-line_of (for_games text) = refl

  of_none :
      (cmd : Text)
      → IsText cmd
      → ((c : Command) → cmd ≢ line_of c)
      → select dev fuel design cmd ≡ unknown cmd
  unfolding select has_no_nul
  of_none cmd t h =
      rw
        (
          not_prefix (codes "echo ") cmd refl (λ rest. h (say rest)),
          not_word (codes "clear") cmd refl t (h wipe),
          not_word (codes "pwd") cmd refl t (h where_am_i),
          not_word (codes "ls") cmd refl t (h list_here),
          not_word (codes "dir") cmd refl t (h list_root),
          not_prefix (codes "cd ") cmd refl (λ rest. h (change_dir rest)),
          not_prefix (codes "mkdir ") cmd refl (λ rest. h (make_dir rest)),
          not_prefix (codes "touch ") cmd refl (λ rest. h (make_file rest)),
          not_prefix (codes "rm ") cmd refl (λ rest. h (remove rest)),
          not_prefix (codes "cat ") cmd refl (λ rest. h (show_file rest)),
          not_word (codes "help") cmd refl t (h explain),
          not_prefix (codes "game ") cmd refl (λ rest. h (for_games rest)),
        )
        refl

  -- On a line that is not empty and no command's, `execute_command` reports an unknown command
  -- and does nothing else.
  pub execute_command-unknown :
      (cmd : Text)
      → IsText cmd
      → cmd ≢ []
      → ((c : Command) → cmd ≢ line_of c)
      → execute_command dev fuel design cmd ≡ unknown cmd
  unfolding execute_command
  execute_command-unknown [] t ne h = absurd (ne refl)
  execute_command-unknown (x ∷ xs) t ne h = of_none (x ∷ xs) t h
