-- ===== src/Shell/Commands.antt =====
-- The commands of src/shell/commands.c, over the operations of src/kernel/vfs.c, the files of
-- src/kernel/fat32.c and the games. `fuel` bounds the clusters of a directory and the rounds of a
-- loop; the guessing game gets more rounds than there are keys.
pub mod Dispatch
pub mod Session
pub mod Cat
pub mod Showing
use vidga_os.Base.{
  ℕ, zero, suc, ◌+◌, ◌<◌, Bool, true, false, ◌&&◌, Option, none, some, List, [], ◌∷◌, ltb, leb,
  ◌==◌, if◌then◌else◌, length, drop, Text, codes, strcmp_eq, u32,
}
use vidga_os.Vga.{blue, light_red, light_cyan, white, vga_color, clear_screen}
use vidga_os.Kernel.{
  BlockDevice, out_of_fuel, Cmd, pure, ◌>>=◌, ◌>>◌, ok, and_then, get_cwd, print, print_char,
}
use vidga_os.Fat32.File.{OpenFile, open_file, read}
use vidga_os.Vfs.{ls, cd, vfs_mkdir, vfs_create_file, vfs_delete}
use vidga_os.Games.{game_list, game_dice, game_number_guess}

-- `strncmp(a, b, n) == 0`, where `b` has `n` characters at least: the end of `a` is compared as
-- the character 0.
unfoldable pub strncmp_eq : Text → Text → ℕ → Bool
strncmp_eq a b zero = true
strncmp_eq a [] (suc n) = true
strncmp_eq [] (y ∷ ys) (suc n) = 0 == y
strncmp_eq (x ∷ xs) (y ∷ ys) (suc n) = x == y && strncmp_eq xs ys n

module _ {D : Type 0} where
  unfoldable pub clear : Cmd D (Unit {0})
  clear s = ok tt (record s { screen = clear_screen (vga_color white blue) s.screen })

  unfoldable pub pwd : Cmd D (Unit {0})
  pwd = do
    cwd ← get_cwd
    print (codes "Current directory: ") (vga_color light_cyan blue)
    print cwd.path (vga_color light_cyan blue)
    print (codes "\n") (vga_color light_cyan blue)

  unfoldable pub unknown : Text → Cmd D (Unit {0})
  unknown cmd = do
    print (codes "Unknown command: ") (vga_color light_red blue)
    print cmd (vga_color light_red blue)
    print (codes "\n") (vga_color light_red blue)

module _ {D : Type 0} (design : ℕ) where
  unfoldable pub echo : Text → Cmd D (Unit {0})
  echo text = do print text design; print (codes "\n") design

  -- What `cat` shows of a byte.
  unfoldable pub cat_byte : ℕ → Cmd D (Unit {0})
  cat_byte b =
      if leb 32 b && ltb b 127
      then print_char b design
      else if b == 10
      then print (codes "\n") design
      else if b == 9
      then print (codes "  ") design
      else pure tt

  unfoldable pub cat_bytes : List ℕ → Cmd D (Unit {0})
  cat_bytes [] = pure tt
  cat_bytes (b ∷ bs) = let rest = cat_bytes bs in cat_byte b >> rest

  unfoldable pub help : Cmd D (Unit {0})
  help = do
    print (codes "Commands:\n") design
    print (codes "  pwd              - Print working directory\n") design
    print (codes "  cd <path>        - Change directory (supports cd .., cd /abs/path)\n") design
    print (codes "  ls               - List files in current directory\n") design
    print (codes "  dir              - List files in root directory\n") design
    print (codes "  mkdir <dir>      - Create directory\n") design
    print (codes "  touch <file>     - Create empty file\n") design
    print (codes "  rm <path>        - Remove file or directory\n") design
    print (codes "  cat <file>       - Display file contents\n") design
    print (codes "  echo <text>      - Print text\n") design
    print (codes "  clear            - Clear screen\n") design
    print (codes "  game list        - List available games\n") design
    print (codes "  game play <game> - Play a game\n") design
    print (codes "  help             - Show this help\n") design
    print (codes "\nDefault directories:\n") design
    print (codes "  /system  - System files (default location)\n") design
    print (codes "  /personal - User files\n") design
    print (codes "  /tmp     - Temporary files\n") design

  -- What follows "game play ".
  unfoldable pub play : Text → Cmd D (Unit {0})
  play game_name =
      if strcmp_eq game_name (codes "dice")
      then game_dice design
      else if strcmp_eq game_name (codes "guess")
      then (λ s. game_number_guess design (suc (length s.keys)) s)
      else (do
        print (codes "Unknown game: ") (vga_color light_red blue)
        print game_name (vga_color light_red blue)
        print (codes "\nUse 'game list' to see available games\n") (vga_color light_red blue))

  -- What follows "game ".
  unfoldable pub game : Text → Cmd D (Unit {0})
  game subcmd =
      if strcmp_eq subcmd (codes "list")
      then game_list
      else if strncmp_eq subcmd (codes "play ") 5
      then play (drop 5 subcmd)
      else print (codes "Usage: game list | game play <game_name>\n") (vga_color light_red blue)

module _ {D : Type 0} (dev : BlockDevice D) (fuel design : ℕ) where
  -- The loop of `cat`: at most `rounds` calls of `fat32_read`, each for 512 bytes.
  unfoldable pub cat_loop : ℕ → OpenFile → ℕ → Cmd D ℕ
  cat_loop zero file total_read = λ s. out_of_fuel
  cat_loop (suc rounds) file total_read =
      let rest = cat_loop rounds in
      read dev fuel file 512 >>= λ (file', bytes).
      if ltb 0 (length bytes)
      then (cat_bytes design bytes >> rest file' (u32 (total_read + length bytes)))
      else pure total_read

  unfoldable pub cat_open : Text → Option OpenFile → Cmd D (Unit {0})
  cat_open filename none = do
    print (codes "Error: File not found: ") (vga_color light_red blue)
    print filename (vga_color light_red blue)
    print (codes "\n") (vga_color light_red blue)
  cat_open filename (some file) = cat_loop fuel file 0 >>= λ total_read.
      if total_read == 0
      then print (codes "Error: Could not read file\n") (vga_color light_red blue)
      else pure tt

  unfoldable pub cat : Text → Cmd D (Unit {0})
  cat filename = open_file dev fuel filename >>= cat_open filename

  -- The chain of tests, on the text of the command.
  unfoldable pub select : Text → Cmd D (Unit {0})
  select cmd =
      if strncmp_eq cmd (codes "echo ") 5
      then echo design (drop 5 cmd)
      else if strcmp_eq cmd (codes "clear")
      then clear
      else if strcmp_eq cmd (codes "pwd")
      then pwd
      else if strcmp_eq cmd (codes "ls")
      then (ls dev fuel (codes ".") >> pure tt)
      else if strcmp_eq cmd (codes "dir")
      then (ls dev fuel (codes "/") >> pure tt)
      else if strncmp_eq cmd (codes "cd ") 3
      then (cd dev fuel (drop 3 cmd) >> pure tt)
      else if strncmp_eq cmd (codes "mkdir ") 6
      then (vfs_mkdir dev fuel (drop 6 cmd) >> pure tt)
      else if strncmp_eq cmd (codes "touch ") 6
      then (vfs_create_file dev fuel (drop 6 cmd) >> pure tt)
      else if strncmp_eq cmd (codes "rm ") 3
      then (vfs_delete dev fuel (drop 3 cmd) >> pure tt)
      else if strncmp_eq cmd (codes "cat ") 4
      then cat (drop 4 cmd)
      else if strcmp_eq cmd (codes "help")
      then help design
      else if strncmp_eq cmd (codes "game ") 5
      then game design (drop 5 cmd)
      else unknown cmd

  unfoldable pub execute_command : Text → Cmd D (Unit {0})
  execute_command [] = pure tt
  execute_command (c ∷ cs) = select (c ∷ cs)
