-- ===== src/Vfs/Walk.antt =====
-- The rounds of `navigate_path` of src/kernel/vfs.c against a walk through the tree of directories.
use vidga_os.Base.{
  ℕ, zero, suc, ◌≤◌, ◌≡◌, refl, ap, ◌∙◌, ◌≢◌, true, false, Option, none, some, List, [], ◌∷◌, arith,
  length, All, Text, IsText, strcmp_eq, strcmp_eq_iff, has_bit, codes,
}
use vidga_os.Kernel.{BlockDevice, FileSystem, Kernel, ok}
use vidga_os.Paths.{span_component, skip_slash}
use vidga_os.Paths.Components.{components, components-span, components-nil, length-span-lt}
use vidga_os.Fat32.Disk.{IsDisk, FatFits, SameDisk-refl}
use vidga_os.Fat32.Dirent.{Dirent, start_cluster}
use vidga_os.Fat32.Table.Alloc.{next_of}
use vidga_os.Fat32.Directory.{find_file}
use vidga_os.Fat32.Directory.Chains.{Chain, Usable, Holds, Finds, Holds-SameDisk, Finds-after}
use vidga_os.Fat32.Directory.Lookup.{live, first_named, directory, find_file-first_named}
use vidga_os.Vfs.{child_cluster, navigate_step, navigate_loop}

module _ (fuel size : ℕ) (fs : FileSystem) (stored : ℕ → List ℕ) where
  -- The directory at a cluster is a chain that ends, can be read, and is no longer than the fuel,
  -- and the first of its entries with a name, if there is one.
  abbrev pub Lists : ℕ → Text → Option Dirent → Type 0
  Lists c name r =
      (cs : List ℕ) × Chain (next_of fs stored) c cs
      × (length cs ≤ fuel)
      × All (Usable fs size) cs
      × (first_named name (live (directory fs stored cs)) ≡ r)

  -- Where one component of a path leads from a directory: "." to itself, ".." to what its entry
  -- ".." names or else to the root, another name to the directory that bears it.
  pub data Steps (c : ℕ) : Text → Option ℕ → Type 0 where
    stay : Steps c (codes ".") (some c)
    up :
        {e : Dirent} → Lists c (codes "..") (some e) → Steps c (codes "..") (some (start_cluster e))
    up_root : Lists c (codes "..") none → Steps c (codes "..") (some fs.root_cluster)
    into :
        {name : Text} {e : Dirent}
        → IsText name
        → name ≢ codes "."
        → name ≢ codes ".."
        → Lists c name (some e)
        → has_bit e.attributes 4 ≡ true
        → Steps c name (some (start_cluster e))
    no_directory :
        {name : Text} {e : Dirent}
        → IsText name
        → name ≢ codes "."
        → name ≢ codes ".."
        → Lists c name (some e)
        → has_bit e.attributes 4 ≡ false
        → Steps c name none
    absent :
        {name : Text}
        → IsText name
        → name ≢ codes "."
        → name ≢ codes ".."
        → Lists c name none
        → Steps c name none

  -- Where the components lead, one after the other, up to the first that leads nowhere.
  pub data Leads : ℕ → List Text → Option ℕ → Type 0 where
    arrived : {c : ℕ} → Leads c [] (some c)
    stuck :
        {c : ℕ} {name : Text} {names : List Text} → Steps c name none → Leads c (name ∷ names) none
    go :
        {c d : ℕ} {name : Text} {names : List Text} {r : Option ℕ}
        → Steps c name (some d)
        → Leads d names r
        → Leads c (name ∷ names) r

  -- No components lead nowhere else.
  pub Leads-nil :
      (c : ℕ) {names : List Text} {r : Option ℕ} → names ≡ [] → Leads c names r → r ≡ some c
  Leads-nil c e arrived = refl
  Leads-nil c e (stuck st) = cc e
  Leads-nil c e (go st rest) = cc e

strcmp_eq-other : (a b : Text) → IsText a → IsText b → a ≢ b → strcmp_eq a b ≡ false
strcmp_eq-other a b ha hb ne = ground (arith, strcmp_eq_iff a b ha hb)

module _ {D : Type 0} (dev : BlockDevice D) (fuel size : ℕ) (sector : D → ℕ → List ℕ)
    (disk : IsDisk dev size sector) (fs : FileSystem) (stored : ℕ → List ℕ)
    (fits : FatFits fs size) where
  find :
      (c : ℕ) (name : Text) (r : Option Dirent) (s : Kernel D)
      → Lists fuel size fs stored c name r
      → Holds sector fs stored s
      → Finds sector s r (find_file dev fuel c name s)
  find c name r s (cs, chain, room, usable, e) h =
      rw (← e) (
        find_file-first_named dev size sector disk fs stored name fuel c s fits chain room usable h)

  -- A name that is neither "." nor "..".
  named :
      (c : ℕ) (name : Text) (r : Option Dirent) (s : Kernel D)
      → IsText name
      → name ≢ codes "."
      → name ≢ codes ".."
      → Lists fuel size fs stored c name r
      → Holds sector fs stored s
      → Finds sector s (child_cluster r) (navigate_step dev fuel c name s)
  unfolding navigate_step
  named c name r s t n1 n2 l h =
      let found = find c name r s l h in
      let dots = strcmp_eq-other name (codes "..") t (ground arith) n2 in
      let dot = strcmp_eq-other name (codes ".") t (ground arith) n1 in
      (found.0, rw (dots, dot, found.1) refl, found.2)

  navigate_step-Steps :
      (c : ℕ) {name : Text} {r : Option ℕ} (s : Kernel D)
      → Steps fuel size fs stored c name r
      → Holds sector fs stored s
      → Finds sector s r (navigate_step dev fuel c name s)
  unfolding navigate_step strcmp_eq
  navigate_step-Steps c s stay h = (s, refl, SameDisk-refl sector s)
  navigate_step-Steps c s (up {e} l) h =
      let found = find c (codes "..") (some e) s l h in (found.0, rw found.1 refl, found.2)
  navigate_step-Steps c s (up_root l) h =
      let found = find c (codes "..") none s l h in
      (found.0, rw found.1 (ap (λ (f : FileSystem). ok (some f.root_cluster) found.0) h.0), found.2)
  navigate_step-Steps c s (into {name} {e} t n1 n2 l dir) h =
      let found = named c name (some e) s t n1 n2 l h in
      (found.0, found.1 ∙ ap (λ x. ok x found.0) (rw dir refl), found.2)
  navigate_step-Steps c s (no_directory {name} {e} t n1 n2 l dir) h =
      let found = named c name (some e) s t n1 n2 l h in
      (found.0, found.1 ∙ ap (λ x. ok x found.0) (rw dir refl), found.2)
  navigate_step-Steps c s (absent {name} t n1 n2 l) h = named c name none s t n1 n2 l h

  -- The loop, for what is left of the path.
  pub navigate_loop-Leads :
      (left c : ℕ) (path : Text) {names : List Text} {r : Option ℕ} (s : Kernel D)
      → components path ≡ names
      → Leads fuel size fs stored c names r
      → length path ≤ left
      → Holds sector fs stored s
      → Finds sector s r (navigate_loop dev fuel left c path s)
  unfolding navigate_loop
  navigate_loop-Leads left c [] s e arrived le h = (s, refl, SameDisk-refl sector s)
  navigate_loop-Leads left c (b ∷ bs) s e arrived le h = absurd (cc (e, components-span b bs))
  navigate_loop-Leads left c [] s e (stuck st) le h = absurd (cc (e, components-nil))
  navigate_loop-Leads left c [] s e (go st rest) le h = absurd (cc (e, components-nil))
  navigate_loop-Leads zero c (b ∷ bs) s e (stuck st) le h = absurd (omega arith)
  navigate_loop-Leads zero c (b ∷ bs) s e (go st rest) le h = absurd (omega arith)
  navigate_loop-Leads (suc left) c (b ∷ bs) s e (stuck {name} {names} st) le h =
      let first : (span_component (b ∷ bs)).0 ≡ name = cc (e, components-span b bs) in
      let found = navigate_step-Steps c s st h in (found.0, rw (first, found.1) refl, found.2)
  navigate_loop-Leads (suc left) c (b ∷ bs) s e (go {d} {name} {names} {r} st rest) le h =
      let first : (span_component (b ∷ bs)).0 ≡ name = cc (e, components-span b bs) in
      let later : components (skip_slash (span_component (b ∷ bs)).1) ≡ names =
        cc (e, components-span b bs) in
      let found = navigate_step-Steps c s st h in
      rw (first, found.1)
        (Finds-after dev size sector disk fs stored _ _ found.2 (
          navigate_loop-Leads left d (skip_slash (span_component (b ∷ bs)).1) found.0 later rest
            (omega (arith, length-span-lt b bs))
            (Holds-SameDisk dev size sector disk fs stored h found.2)))
