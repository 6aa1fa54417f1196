-- ===== src/Fat32/Directory/Chains.antt =====
-- Chains of clusters in the table, and how the loops over a directory step along them.
use vidga_os.Base.{ℕ, ◌≡◌, refl, fun_ext, ◌∙◌, ◌⊎◌, inl, inr, true, false, some, List, [], ◌∷◌}
use mathlib.Core.Path.{subst₂}
use vidga_os.Kernel.{BlockDevice, FileSystem, Kernel, Run, ok}
use vidga_os.Fat32.Disk.{IsDisk, FatFits, InFat, SameDisk, SameDisk-trans}
use vidga_os.Fat32.Table.{is_eoc, fat_sector, get_next_cluster}
use vidga_os.Fat32.Cluster.{read_cluster}
use vidga_os.Fat32.Table.Alloc.{next_of, buffered, buffered-SameDisk, get_next_cluster-ok}
use vidga_os.Fat32.Cluster.Reads.{cluster_bytes, ClusterFits, read_cluster-ok}
use vidga_os.Fat32.Directory.{Scan, stop, exhausted}

-- The clusters that the table links, from one on to an end mark.
pub data Chain (next : ℕ → ℕ) : ℕ → List ℕ → Type 0 where
  end_mark : {c : ℕ} → is_eoc c ≡ true → Chain next c []
  link : {c : ℕ} {cs : List ℕ} → is_eoc c ≡ false → Chain next (next c) cs → Chain next c (c ∷ cs)

pub Scan-cases : {A : Type 0} (r : Scan A) → ((a : A) × (r ≡ stop a)) ⊎ (r ≡ exhausted)
Scan-cases (stop a) = inl (a, refl)
Scan-cases exhausted = inr refl

-- A cluster has an entry in the table and can be read.
abbrev pub Usable : FileSystem → ℕ → ℕ → Type 0
Usable fs size c = InFat fs c × ClusterFits fs size c

module _ {D : Type 0} (sector : D → ℕ → List ℕ) where
  -- The file system's parameters, and what the drive holds.
  abbrev pub Holds : FileSystem → (ℕ → List ℕ) → Kernel D → Type 0
  Holds fs stored s = (s.fs ≡ fs) × (sector s.drive ≡ stored)

  -- A run ends with a result, and changes nothing on the drive.
  abbrev pub Finds : {A : Type 0} → Kernel D → A → Run D A → Type 0
  Finds s r run = (t : Kernel D) × (run ≡ ok r t) × SameDisk sector s t

module _ {D : Type 0} (dev : BlockDevice D) (size : ℕ) (sector : D → ℕ → List ℕ)
    (disk : IsDisk dev size sector) (fs : FileSystem) (stored : ℕ → List ℕ) where
  pub Holds-SameDisk :
      {s t : Kernel D} → Holds sector fs stored s → SameDisk sector s t → Holds sector fs stored t
  Holds-SameDisk (e, h) same = (same.same_fs ∙ e, fun_ext same.same_sectors ∙ h)

  pub reads :
      (c : ℕ) (s : Kernel D)
      → Holds sector fs stored s
      → Usable fs size c
      → (t : Kernel D) × (read_cluster dev c s ≡ ok (some (cluster_bytes fs stored c)) t)
        × SameDisk sector s t
  reads c s (e, h) u =
      subst₂
        (λ f m.
          ClusterFits f size c
          → (t : Kernel D) × (read_cluster dev c s ≡ ok (some (cluster_bytes f m c)) t)
            × SameDisk sector s t)
        e h (read_cluster-ok dev size sector disk c s) u.1

  pub follows :
      (c : ℕ) (s : Kernel D)
      → FatFits fs size
      → Holds sector fs stored s
      → Usable fs size c
      → (t : Kernel D) × (get_next_cluster dev c s ≡ ok (next_of fs stored c) t)
        × SameDisk sector s t
  follows c s fits (e, h) u =
      subst₂
        (λ f m.
          FatFits f size
          → InFat f c
          → (t : Kernel D) × (get_next_cluster dev c s ≡ ok (next_of f m c) t)
            × SameDisk sector s t)
        e h
        (λ fits' u'. (
          buffered dev size sector disk (fat_sector s.fs c) s,
          get_next_cluster-ok dev size sector disk c s fits' u',
          buffered-SameDisk dev size sector disk (fat_sector s.fs c) s,
        ))
        fits u.0

  -- Work before a search whose result does not depend on it.
  pub Finds-after :
      {A : Type 0} {s t : Kernel D} (r : A) (run : Run D A)
      → SameDisk sector s t
      → Finds sector t r run
      → Finds sector s r run
  Finds-after r run same (u, e, same') = (u, e, SameDisk-trans sector same same')
