-- ===== src/Fat32/Disk.antt =====
-- What the proofs about src/kernel/fat32.c assume of a drive that works, and which parts of the
-- state a command that only reads leaves alone.
use vidga_os.Base.{
  ℕ, ◌+◌, ◌*◌, ◌≤◌, ◌<◌, ◌^◌, ◌≡◌, refl, ◌∙◌, true, some, List, ◌==◌, if◌then◌else◌, length, All,
  IsByte,
}
use vidga_os.Kernel.{BlockDevice, FileSystem, Kernel}

-- The bytes of a sector.
abbrev pub IsSector : List ℕ → Type 0
IsSector bytes = (length bytes ≡ 512) × All IsByte bytes

-- A drive of `size` sectors: a read of one gives what is stored there and changes nothing, and a
-- write of 512 bytes succeeds and changes that sector alone.
pub record IsDisk {D : Type 0} (dev : BlockDevice D) (size : ℕ) (sector : D → ℕ → List ℕ)
    : Type 0 where
  pub addressable : size ≤ 2 ^ 28
  pub length_sector : (d : D) (n : ℕ) → length (sector d n) ≡ 512
  pub bytes_sector : (d : D) (n : ℕ) → All IsByte (sector d n)
  pub read_ok : (lba : ℕ) (d : D) → lba < size → (dev.read_sector lba d).0 ≡ some (sector d lba)
  pub read_keeps : (lba n : ℕ) (d : D) → sector (dev.read_sector lba d).1 n ≡ sector d n
  pub write_ok :
      (lba : ℕ) (bytes : List ℕ) (d : D)
      → lba < size
      → length bytes ≡ 512
      → (dev.write_sector lba bytes d).0 ≡ true
  pub write_stores :
      (lba n : ℕ) (bytes : List ℕ) (d : D)
      → lba < size
      → length bytes ≡ 512
      → All IsByte bytes
      → sector (dev.write_sector lba bytes d).1 n ≡ (if n == lba then bytes else sector d n)

-- There is a table, of at least one sector; the tables lie on the drive, and a table's size in
-- bytes is a 32-bit number.
pub record FatFits (fs : FileSystem) (size : ℕ) : Type 0 where
  pub one_copy : 1 ≤ fs.boot_sector.num_fats
  pub one_sector : 1 ≤ fs.boot_sector.sects_per_fat
  pub small : fs.boot_sector.sects_per_fat * 512 < 2 ^ 32
  pub on_disk : fs.fat_start_sector + fs.boot_sector.num_fats * fs.boot_sector.sects_per_fat ≤ size

-- The table has an entry for the cluster.
abbrev pub InFat : FileSystem → ℕ → Type 0
InFat fs cluster = cluster < fs.boot_sector.sects_per_fat * 128

module _ {D : Type 0} (sector : D → ℕ → List ℕ) where
  -- What is stored on the drive, the file system's parameters, the screen and the working
  -- directory are the same.
  pub record SameDisk (s t : Kernel D) : Type 0 where
    pub same_fs : t.fs ≡ s.fs
    pub same_screen : t.screen ≡ s.screen
    pub same_cwd : t.cwd ≡ s.cwd
    pub same_sectors : (n : ℕ) → sector t.drive n ≡ sector s.drive n

  pub SameDisk-refl : (s : Kernel D) → SameDisk s s
  SameDisk-refl s = record {
    same_fs = refl;
    same_screen = refl;
    same_cwd = refl;
    same_sectors = λ n. refl;
  }

  pub SameDisk-trans : {s t u : Kernel D} → SameDisk s t → SameDisk t u → SameDisk s u
  SameDisk-trans p q = record {
    same_fs = q.same_fs ∙ p.same_fs;
    same_screen = q.same_screen ∙ p.same_screen;
    same_cwd = q.same_cwd ∙ p.same_cwd;
    same_sectors = λ n. q.same_sectors n ∙ p.same_sectors n;
  }
