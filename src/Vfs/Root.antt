-- ===== src/Vfs/Root.antt =====
-- What becomes of the last component of a path in the operations of src/kernel/vfs.c.
use vidga_os.Base.{
  ℕ, ◌-◌, ◌<◌, ◌≡◌, refl, some, [], ◌∷◌, arith, lt→ltb, length, Text, IsText, strcmp_eq,
}
use vidga_os.Kernel.{BlockDevice, Kernel, ok, Cmd}
use vidga_os.Paths.{slash, root_path, is_absolute, resolve_path}
use vidga_os.Paths.Split.{NoSlash, split_in_place_lem}
use vidga_os.Vfs.{max_path, resolve, navigate_path, act_at, at_parent}

module _ {D : Type 0} (dev : BlockDevice D) (fuel : ℕ) where
  pub resolve-ok :
      (path target : Text) (s : Kernel D)
      → resolve_path s.cwd.path path ≡ target
      → length target < max_path
      → resolve path s ≡ ok target s
  unfolding resolve
  resolve-ok path target s e h = rw (e, lt→ltb (length target) max_path h)

  pub navigate_path-root :
      (s : Kernel D) → navigate_path dev fuel root_path s ≡ ok (some s.fs.root_cluster) s
  unfolding navigate_path resolve resolve_path is_absolute strcmp_eq
  navigate_path-root s = refl

  -- An operation on a path that resolves to "/name", for a name without a slash that fits the
  -- path buffer, acts in the root directory on the empty name, whatever the name is.
  pub at_parent-root :
      {A : Type 0} (path name : Text) (missing : Cmd D A) (act : ℕ → Text → Cmd D A) (s : Kernel D)
      → resolve_path s.cwd.path path ≡ slash ∷ name
      → IsText name
      → NoSlash name
      → length name < max_path - 1
      → at_parent dev fuel path missing act s ≡ act s.fs.root_cluster [] s
  unfolding at_parent act_at
  at_parent-root path name missing act s e t h lt = rw (
    resolve-ok path (slash ∷ name) s e (omega arith),
    split_in_place_lem [] name tt t h,
    navigate_path-root s,
  )
