-- ===== src/Vfs.antt =====
-- The operations on paths of src/kernel/vfs.c. `fuel` bounds the clusters of one directory.
pub mod Root
pub mod Walk
pub mod Navigation
use vidga_os.Base.{
  ℕ, zero, suc, ◌+◌, Bool, true, false, Option, none, some, List, [], ◌∷◌, ◌++◌, ltb, ◌==◌,
  if◌then◌else◌, length, Text, strcmp_eq, has_bit, codes,
}
use vidga_os.Vga.{blue, light_red, light_green, white, vga_color}
use vidga_os.Kernel.{
  BlockDevice, FileSystem, WorkingDir, Kernel, Run, ok, fault, out_of_fuel, Cmd, pure, on_option,
  ◌>>=◌, ◌>>◌, get_fs, get_cwd, print,
}
use vidga_os.Paths.{
  root_path, span_component, skip_slash, resolve_path, split_in_place, normalize_path,
}
use vidga_os.Fat32.Dirent.{Dirent, start_cluster}
use vidga_os.Fat32.Directory.{find_file, mkdir, create_file, delete}
use vidga_os.Fat32.Listing.{list_dir}

-- `vfs_entry_t`, without the name, which `vfs_find` does not fill in
pub record Entry : Type 0 where
  pub size : ℕ
  pub cluster : ℕ
  pub is_dir : Bool
  pub is_readonly : Bool

abbrev pub entry_of : Dirent → Entry
entry_of e = record {
  size = e.file_size;
  cluster = start_cluster e;
  is_dir = has_bit e.attributes 4;
  is_readonly = has_bit e.attributes 0;
}

abbrev pub max_path : ℕ
max_path = 256

-- Where ".." leads: the root if the directory has no such entry.
abbrev pub parent_cluster : FileSystem → Option Dirent → ℕ
parent_cluster fs none = fs.root_cluster
parent_cluster fs (some e) = start_cluster e

-- Where a name leads: only to a directory.
abbrev pub child_cluster : Option Dirent → Option ℕ
child_cluster none = none
child_cluster (some e) = if has_bit e.attributes 4 then some (start_cluster e) else none

module _ {D : Type 0} where
  abbrev pub set_cwd : WorkingDir → Cmd D (Unit {0})
  set_cwd cwd s = ok tt (record s { cwd = cwd })

  unfoldable pub init : Cmd D (Unit {0})
  init = do fs ← get_fs; set_cwd (record { cluster = fs.root_cluster; path = root_path })

  -- `vfs_resolve_path` into a buffer of 256 bytes, the terminator included.
  unfoldable pub resolve : Text → Cmd D Text
  resolve relpath = do
    cwd ← get_cwd
    if ltb (length (resolve_path cwd.path relpath)) max_path
        then pure (resolve_path cwd.path relpath)
        else λ s. fault

  unfoldable pub error : Text → Cmd D Bool
  error msg = do print msg (vga_color light_red blue); pure false

  -- The report of an operation that has succeeded.
  unfoldable pub report : Text → Text → Cmd D Bool
  report done name = do
    print done (vga_color light_green blue)
    print name (vga_color light_green blue)
    print (codes "\n") (vga_color light_green blue)
    pure true

  unfoldable pub copy : Text → Text → Cmd D Bool
  copy src dst = error (codes "Copy not yet implemented\n")

module _ {D : Type 0} (dev : BlockDevice D) (fuel : ℕ) where
  -- What a round of `navigate_path` does with a component.
  unfoldable pub navigate_step : ℕ → Text → Cmd D (Option ℕ)
  navigate_step cluster comp =
      if strcmp_eq comp (codes "..")
      then (do
        fs ← get_fs
        found ← find_file dev fuel cluster (codes "..")
        pure (some (parent_cluster fs found)))
      else if strcmp_eq comp (codes ".")
      then pure (some cluster)
      else (do found ← find_file dev fuel cluster comp; pure (child_cluster found))

  -- The loop, on fuel for the components.
  unfoldable pub navigate_loop : ℕ → ℕ → Text → Cmd D (Option ℕ)
  navigate_loop f cluster [] = pure (some cluster)
  navigate_loop zero cluster (c ∷ cs) = λ s. out_of_fuel
  navigate_loop (suc f) cluster (c ∷ cs) =
      navigate_step cluster (span_component (c ∷ cs)).0 >>= λ next.
      on_option next (pure none)
        (λ cluster'. navigate_loop f cluster' (skip_slash (span_component (c ∷ cs)).1))

  unfoldable pub navigate_path : Text → Cmd D (Option ℕ)
  navigate_path path = do
    abspath ← resolve path
    fs ← get_fs
    if strcmp_eq abspath root_path
        then pure (some fs.root_cluster)
        else navigate_loop (length abspath) fs.root_cluster (skip_slash abspath)

  unfoldable pub ls : Text → Cmd D Bool
  ls path = do
    found ← navigate_path path
    on_option found (error (codes "Error: Directory not found\n")) λ cluster. do
      print (if strcmp_eq path root_path then codes "root/\n" else codes "Files:\n")
          (vga_color white blue)
      list_dir dev fuel cluster
      pure true

  -- Walk to a directory, and call `act` there with a name.
  unfoldable pub act_at : {A : Type 0} → Text × Text → Cmd D A → (ℕ → Text → Cmd D A) → Cmd D A
  act_at split missing act =
      navigate_path split.0 >>= λ parent. on_option parent missing (λ cluster. act cluster split.1)

  -- How the operations on a path begin: the path is resolved and split in its buffer.
  unfoldable pub at_parent : {A : Type 0} → Text → Cmd D A → (ℕ → Text → Cmd D A) → Cmd D A
  at_parent path missing act = resolve path >>= λ target. act_at (split_in_place target) missing act

  unfoldable pub vfs_mkdir : Text → Cmd D Bool
  vfs_mkdir path =
      at_parent path (error (codes "Error: Parent directory not found\n")) λ cluster name. do
        done ← mkdir dev fuel cluster name
        if done
            then report (codes "Directory created: ") name
            else error (codes "Error: Could not create directory\n")

  unfoldable pub vfs_create_file : Text → Cmd D Bool
  vfs_create_file path =
      at_parent path (error (codes "Error: Parent directory not found\n")) λ cluster name. do
        done ← create_file dev fuel cluster name
        if done
            then report (codes "File created: ") name
            else error (codes "Error: Could not create file\n")

  unfoldable pub vfs_delete : Text → Cmd D Bool
  vfs_delete path =
      at_parent path (error (codes "Error: Parent directory not found\n")) λ cluster name. do
        done ← delete dev fuel cluster name
        if done then report (codes "Deleted: ") name else error (codes "Error: Could not delete\n")

  unfoldable pub vfs_find : Text → Cmd D (Option Entry)
  vfs_find path = at_parent path (pure none) λ cluster name. do
    found ← find_file dev fuel cluster name
    on_option found (pure none) (λ e. pure (some (entry_of e)))

  -- The end of `vfs_cd`: the new path is stored in a buffer of 256 bytes.
  unfoldable pub enter : ℕ → Option Text → Cmd D Bool
  enter cluster none = λ s. out_of_fuel
  enter cluster (some path) =
      if ltb (length path) max_path
      then (do set_cwd (record { cluster = cluster; path = path }); pure true)
      else λ s. fault

  unfoldable pub cd : Text → Cmd D Bool
  cd path = do
    new_path ← resolve path
    found ← navigate_path new_path
    on_option found (error (codes "Error: Directory not found\n"))
        λ cluster. enter cluster (normalize_path new_path)
