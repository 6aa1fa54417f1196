-- ===== src/Fat32/Table/Copies.antt =====
-- The loop of `fat32_update_fat_entry` over the copies of the table, on a drive that works.
use vidga_os.Base.{
  ℕ, zero, suc, ◌+◌, ◌*◌, ◌≤◌, ◌<◌, ◌≡◌, refl, ap, ◌∙◌, ◌≢◌, Bool, true, List, arith, ◌==◌,
  if◌then◌else◌, u32,
}
use native.Mathlib.Decide.{ℕ_discrete}
use vidga_os.Kernel.{BlockDevice, Kernel, Run, ok}
use vidga_os.Fat32.Disk.{IsDisk, IsSector}
use vidga_os.Fat32.Table.{write_copy, write_copies}

mul-lt : (a b m : ℕ) → 1 ≤ m → a < b → a * m < b * m
mul-lt a b m h lt = grind arith

module _ {D : Type 0} (dev : BlockDevice D) (size : ℕ) (sector : D → ℕ → List ℕ)
    (disk : IsDisk dev size sector) where
  -- The state after `bytes` have been written to a sector.
  abbrev pub written : ℕ → Kernel D → Kernel D
  written lba s = record s { drive = (dev.write_sector lba s.fat_buffer s.drive).1 }

  pub write_copy-ok :
      (fat_num base : ℕ) (s : Kernel D)
      → base + fat_num * s.fs.boot_sector.sects_per_fat < size
      → IsSector s.fat_buffer
      → write_copy dev fat_num base s
        ≡ ok true (written (base + fat_num * s.fs.boot_sector.sects_per_fat) s)
  unfolding write_copy
  write_copy-ok fat_num base s h len =
      let lba = base + fat_num * s.fs.boot_sector.sects_per_fat in
      let small = disk.addressable in
      let exact : u32 lba ≡ lba = omega arith in
      rw (exact, disk.write_ok lba s.fat_buffer s.drive h len.0)

  -- What the loop over the copies from number `k` to `n` leaves: `fat32_buffer` in the sectors of
  -- those copies, and the other sectors as they were.
  pub record IsCopied (base k n : ℕ) (s t : Kernel D) : Type 0 where
    pub same_fs : t.fs ≡ s.fs
    pub same_screen : t.screen ≡ s.screen
    pub same_cwd : t.cwd ≡ s.cwd
    pub copied :
        (j : ℕ)
        → k ≤ j
        → j < n
        → sector t.drive (base + j * s.fs.boot_sector.sects_per_fat) ≡ s.fat_buffer
    pub others :
        (m : ℕ)
        → ((j : ℕ) → k ≤ j → j < n → m ≢ base + j * s.fs.boot_sector.sects_per_fat)
        → sector t.drive m ≡ sector s.drive m

  pub IsCopied-cons :
      (base k n : ℕ) (s t : Kernel D)
      → base + k * s.fs.boot_sector.sects_per_fat < size
      → IsSector s.fat_buffer
      → 1 ≤ s.fs.boot_sector.sects_per_fat
      → k < n
      → IsCopied base (k + 1) n (written (base + k * s.fs.boot_sector.sects_per_fat) s) t
      → IsCopied base k n s t
  IsCopied-cons base k n s t h len pos lt rest = record {
    same_fs = rest.same_fs;
    same_screen = rest.same_screen;
    same_cwd = rest.same_cwd;
    copied = λ j p q. elim (ℕ_discrete j k) [
      | yes e ↦
          ap (λ (i : ℕ). sector t.drive (base + i * s.fs.boot_sector.sects_per_fat)) e
          ∙ rest.others lba (λ i p' q'.
            omega (arith, mul-lt k i s.fs.boot_sector.sects_per_fat pos (omega arith)))
          ∙ disk.write_stores lba lba s.fat_buffer s.drive h len.0 len.1
          ∙ here
      | no ne ↦ rest.copied j (omega arith) q
    ];
    others = λ m apart.
        rest.others m (λ j p q. apart j (omega arith) q)
        ∙ disk.write_stores lba m s.fat_buffer s.drive h len.0 len.1
        ∙ not_here m (apart k (omega arith) lt);
  }
    where
      lba : ℕ
      lba = base + k * s.fs.boot_sector.sects_per_fat

      here : (if lba == lba then s.fat_buffer else sector s.drive lba) ≡ s.fat_buffer
      here = ground arith

      not_here :
          (m : ℕ)
          → m ≢ lba
          → (if m == lba then s.fat_buffer else sector s.drive m) ≡ sector s.drive m
      not_here m ne = ground arith

  abbrev pub Copied : ℕ → ℕ → ℕ → Kernel D → Run D Bool → Type 0
  Copied base k n s run = (t : Kernel D) × (run ≡ ok true t) × IsCopied base k n s t

  pub write_copies-Copied :
      (left k n base : ℕ) (s : Kernel D)
      → k + left ≡ n
      → ((j : ℕ) → j < n → base + j * s.fs.boot_sector.sects_per_fat < size)
      → IsSector s.fat_buffer
      → 1 ≤ s.fs.boot_sector.sects_per_fat
      → Copied base k n s (write_copies dev left k base s)
  unfolding write_copies
  write_copies-Copied zero k n base s e room len pos = (
    s,
    refl,
    record {
      same_fs = refl;
      same_screen = refl;
      same_cwd = refl;
      copied = λ j p q. absurd (omega arith);
      others = λ m apart. refl;
    },
  )
  write_copies-Copied (suc left) k n base s e room len pos =
      let here = room k (omega arith) in
      let next = written (base + k * s.fs.boot_sector.sects_per_fat) s in
      let rest = write_copies-Copied left (k + 1) n base next (omega arith) room len pos in
      rw (write_copy-ok k base s here len)
        (rest.0, rest.1, IsCopied-cons base k n s rest.0 here len pos (omega arith) rest.2)
