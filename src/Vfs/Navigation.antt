-- ===== src/Vfs/Navigation.antt =====
-- `navigate_path` of src/kernel/vfs.c, and the operations that begin with it, against the walk.
use vidga_os.Base.{
  ℕ, ◌-◌, ◌<◌, ◌≡◌, refl, sym, ap, ◌∙◌, inl, inr, false, Option, some, List, [], ◌∷◌, ◌++◌, arith,
  ◌==◌, length, length-append, Text, IsText, strcmp_eq, strcmp_eq_iff, Bool-cases,
}
use mathlib.Core.Path.{subst}
use vidga_os.Kernel.{BlockDevice, FileSystem, Kernel, ok, Cmd, on_option}
use vidga_os.Paths.{slash, root_path, is_absolute, resolve_path, skip_slash}
use vidga_os.Paths.Components.{components, components-nil}
use vidga_os.Paths.Split.{NoSlash, split_in_place_lem}
use vidga_os.Fat32.Disk.{IsDisk, FatFits, SameDisk, SameDisk-refl}
use vidga_os.Fat32.Directory.Chains.{Holds, Finds}
use vidga_os.Vfs.{max_path, navigate_path, act_at, at_parent}
use vidga_os.Vfs.Root.{resolve-ok, navigate_path-root}
use vidga_os.Vfs.Walk.{Leads, Leads-nil, navigate_loop-Leads}

module _ {D : Type 0} (dev : BlockDevice D) (fuel size : ℕ) (sector : D → ℕ → List ℕ)
    (disk : IsDisk dev size sector) (fs : FileSystem) (stored : ℕ → List ℕ)
    (fits : FatFits fs size) where
  -- The path resolved, of an absolute path.
  absolute : (cwd rest : Text) → resolve_path cwd (slash ∷ rest) ≡ slash ∷ rest
  unfolding resolve_path is_absolute
  absolute cwd rest = refl

  skip_one : (rest : Text) → skip_slash (slash ∷ rest) ≡ rest
  unfolding skip_slash
  skip_one rest = refl

  -- On a drive that works and holds the tables, for an absolute path that fits the path buffer, if
  -- its components lead from the root directory to a directory then `navigate_path` gives the
  -- cluster of that, and if one of them leads nowhere then it fails; in either case the drive, the
  -- file system's parameters, the screen and the working directory stay. The directories looked at
  -- are chains of readable clusters that end, with as much fuel as the longest has clusters. "." leads to the same directory, ".." to
  -- what the entry ".." names or else to the root, and another name to the first entry that bears
  -- it if that is a directory.
  pub navigate_path-Leads :
      (rest : Text) (r : Option ℕ) (s : Kernel D)
      → IsText rest
      → length rest < max_path - 1
      → Leads fuel size fs stored fs.root_cluster (components rest) r
      → Holds sector fs stored s
      → Finds sector s r (navigate_path dev fuel (slash ∷ rest) s)
  unfolding navigate_path strcmp_eq
  navigate_path-Leads rest r s t lt walk h =
      let resolved =
        resolve-ok dev fuel (slash ∷ rest) (slash ∷ rest) s (absolute s.cwd.path rest)
          (omega arith) in
      elim (Bool-cases (strcmp_eq (slash ∷ rest) root_path)) [
        | inl root ↦
            let nothing : rest ≡ [] =
              cc ((strcmp_eq_iff (slash ∷ rest) root_path ((λ e. cc), t) (ground arith)).0 root) in
            let there : r ≡ some fs.root_cluster =
              Leads-nil fuel size fs stored fs.root_cluster (ap components nothing ∙ components-nil)
                walk in
            (
              s,
              ap (λ (p : Text). navigate_path dev fuel (slash ∷ p) s) nothing
                  ∙ navigate_path-root dev fuel s
                  ∙ ap (λ (f : FileSystem). ok (some f.root_cluster) s) h.0
                  ∙ ap (λ x. ok x s) (sym there),
              SameDisk-refl sector s,
            )
        | inr other ↦
            let from : Leads fuel size fs stored s.fs.root_cluster (components rest) r =
              subst (λ c. Leads fuel size fs stored c (components rest) r)
                (ap (λ (f : FileSystem). f.root_cluster) (sym h.0)) walk in
            rw (resolved, other, skip_one rest)
              (navigate_loop-Leads dev fuel size sector disk fs stored fits (length (slash ∷ rest))
                s.fs.root_cluster rest s refl from (omega arith) h)
      ]

  -- On a drive that works and holds the tables, an operation on a path that resolves to
  -- "/dir/name", with a name without a slash, and that fits the path buffer, acts on the name in the
  -- directory that the components of "dir" lead to from the root, or fails as for a missing parent
  -- if they lead nowhere. It does so in a state with the drive, the parameters, the screen and the
  -- working directory as before. The directories looked at are chains of readable clusters that
  -- end, as long as the fuel at most.
  pub at_parent-Leads :
      {A : Type 0} (path rest name : Text) (r : Option ℕ) (missing : Cmd D A)
      (act : ℕ → Text → Cmd D A) (s : Kernel D)
      → resolve_path s.cwd.path path ≡ (slash ∷ rest) ++ slash ∷ name
      → IsText rest
      → IsText name
      → NoSlash name
      → length ((slash ∷ rest) ++ slash ∷ name) < max_path
      → Leads fuel size fs stored fs.root_cluster (components rest) r
      → Holds sector fs stored s
      → (t : Kernel D) × SameDisk sector s t
        × (at_parent dev fuel path missing act s
            ≡ on_option r missing (λ cluster. act cluster name) t)
  unfolding at_parent act_at
  at_parent-Leads path rest name r missing act s e td tn ns lt walk h =
      let below : (length (slash ∷ rest) == 0) ≡ false = ground arith in
      let fits_too : length rest < max_path - 1 =
        omega (arith, length-append rest (slash ∷ name)) in
      let found = navigate_path-Leads rest r s td fits_too walk h in
      (
        found.0,
        found.2,
        rw
            (
              resolve-ok dev fuel path ((slash ∷ rest) ++ slash ∷ name) s e lt,
              split_in_place_lem (slash ∷ rest) name ((λ e. cc), td) tn ns,
              below,
              found.1,
            )
            refl,
      )
