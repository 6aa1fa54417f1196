-- ===== src/Fat32/Table/Entry.antt =====
-- `fat32_update_fat_entry` on a drive that works.
use vidga_os.Base.{
  ℕ, zero, suc, ◌+◌, ◌*◌, ◌/◌, ◌^◌, ◌≤◌, ◌<◌, ◌≡◌, ap, ◌∙◌, ◌≢◌, ◌⊎◌, inl, inr, Bool, true, List,
  arith, ◌==◌, if◌then◌else◌, low_bits,
}
use native.Mathlib.Decide.{ℕ_discrete, dec_lt}
use vidga_os.Bytes.{put32}
use vidga_os.Bytes.Laws.{length-put32, All-put32, get32-put32, get32-put32_ne}
use vidga_os.Kernel.{BlockDevice, FileSystem, Kernel, Run, ok}
use vidga_os.Fat32.Disk.{IsDisk, FatFits, InFat}
use vidga_os.Fat32.Table.{fat_offset, fat_sector, offset_in_sector, change_entry, update_fat_entry}
use vidga_os.Fat32.Table.Alloc.{next_of, fat_sector-lt, buffered, read_fat_buffer-ok}
use vidga_os.Fat32.Table.Copies.{IsCopied, Copied, write_copies-Copied}

-- Two entries of one sector do not overlap.
offsets_apart :
    (fs : FileSystem) (size cluster k : ℕ)
    → FatFits fs size
    → size ≤ 2 ^ 28
    → InFat fs cluster
    → InFat fs k
    → fat_sector fs k ≡ fat_sector fs cluster
    → k ≢ cluster
    → (offset_in_sector k + 4 ≤ offset_in_sector cluster)
      ⊎ (offset_in_sector cluster + 4 ≤ offset_in_sector k)
offsets_apart fs size cluster k fits small h hk shared ne =
    let at = (fat_sector-lt fs size cluster fits small h).0 in
    let at' = (fat_sector-lt fs size k fits small hk).0 in
    let same : k / 128 ≡ cluster / 128 = omega (arith, at, at') in
    let exact : fat_offset k ≡ k * 4 = omega arith in
    let exact' : fat_offset cluster ≡ cluster * 4 = omega arith in
    elim (dec_lt k cluster) [
      | yes lt ↦ inl (omega (arith, same, exact, exact'))
      | no ge ↦ inr (omega (arith, same, exact, exact'))
    ]

-- A later copy of the table begins behind the one before it.
copy_bound : (a b m : ℕ) → a < b → a * m + m ≤ b * m
copy_bound a b m lt = grind arith

module _ {D : Type 0} (sector : D → ℕ → List ℕ) where
  -- The buffer that `fat32_update_fat_entry` writes.
  abbrev pub changed : Kernel D → ℕ → ℕ → List ℕ
  changed s cluster next =
      put32 (sector s.drive (fat_sector s.fs cluster)) (offset_in_sector cluster) (low_bits next 28)

  -- A run that returns 1 with the entry of `cluster` changed in every copy, and in the first copy
  -- no other entry.
  abbrev pub Updated : Kernel D → ℕ → ℕ → Run D Bool → Type 0
  Updated s cluster next run =
      (t : Kernel D) × (run ≡ ok true t)
      × (t.fs ≡ s.fs)
      × ((k : ℕ)
          → InFat s.fs k
          → next_of t.fs (sector t.drive) k
            ≡ (if k == cluster then low_bits next 28 else next_of s.fs (sector s.drive) k))
      × ((j : ℕ)
          → j < s.fs.boot_sector.num_fats
          → sector t.drive (fat_sector s.fs cluster + j * s.fs.boot_sector.sects_per_fat)
            ≡ changed s cluster next)

module _ {D : Type 0} (dev : BlockDevice D) (size : ℕ) (sector : D → ℕ → List ℕ)
    (disk : IsDisk dev size sector) where
  -- What the change of one entry means for the table's entries.
  next_of-changed :
      (s : Kernel D) (cluster next k : ℕ) (fs : FileSystem) (stored : ℕ → List ℕ)
      → FatFits s.fs size
      → InFat s.fs cluster
      → InFat s.fs k
      → fs ≡ s.fs
      → stored (fat_sector s.fs cluster) ≡ changed sector s cluster next
      → (fat_sector s.fs k ≢ fat_sector s.fs cluster
          → stored (fat_sector s.fs k) ≡ sector s.drive (fat_sector s.fs k))
      → next_of fs stored k
        ≡ (if k == cluster then low_bits next 28 else next_of s.fs (sector s.drive) k)
  unfolding next_of
  next_of-changed s cluster next k fs stored fits h hk e at others =
      rw e (elim (ℕ_discrete k cluster) [
        | yes same ↦
            rw
              (
                same,
                at,
                get32-put32 old (offset_in_sector cluster) (low_bits next 28) (omega arith)
                    (omega (arith, disk.length_sector s.drive (fat_sector s.fs cluster))),
              )
              (ground arith)
        | no ne ↦ elim (ℕ_discrete (fat_sector s.fs k) (fat_sector s.fs cluster)) [
          | yes shared ↦
              rw
                (
                  shared,
                  at,
                  get32-put32_ne old (offset_in_sector cluster) (offset_in_sector k)
                      (low_bits next 28)
                      (offsets_apart s.fs size cluster k fits disk.addressable h hk shared ne),
                )
                (ground arith)
          | no other ↦ rw (others other) (ground arith)
        ]
      ])
    where
      old : List ℕ
      old = sector s.drive (fat_sector s.fs cluster)

  -- The state in which the copies are written.
  abbrev edited : Kernel D → ℕ → ℕ → Kernel D
  edited s cluster next = record (buffered dev size sector disk (fat_sector s.fs cluster) s) {
    fat_buffer = changed sector s cluster next;
  }

  -- A sector of the first table that does not hold the entry is none of the sectors written.
  not_copied :
      (fs : FileSystem) (cluster k j : ℕ)
      → FatFits fs size
      → InFat fs cluster
      → InFat fs k
      → fat_sector fs k ≢ fat_sector fs cluster
      → fat_sector fs k ≢ fat_sector fs cluster + j * fs.boot_sector.sects_per_fat
  not_copied fs cluster k zero fits h hk ne e = ne (omega arith)
  not_copied fs cluster k (suc j) fits h hk ne e = omega (
    arith,
    (fat_sector-lt fs size cluster fits disk.addressable h).0,
    (fat_sector-lt fs size k fits disk.addressable hk).0,
    copy_bound 0 (suc j) fs.boot_sector.sects_per_fat (omega arith),
  )

  next_of-copied :
      (s t : Kernel D) (cluster next k : ℕ)
      → FatFits s.fs size
      → InFat s.fs cluster
      → InFat s.fs k
      → IsCopied dev size sector disk
          (fat_sector s.fs cluster)
          0
          s.fs.boot_sector.num_fats
          (edited s cluster next)
          t
      → next_of t.fs (sector t.drive) k
        ≡ (if k == cluster then low_bits next 28 else next_of s.fs (sector s.drive) k)
  next_of-copied s t cluster next k fits h hk copies =
      next_of-changed s cluster next k t.fs (sector t.drive) fits h hk copies.same_fs
        (ap (sector t.drive) (omega arith) ∙ copies.copied 0 (omega arith) fits.one_copy)
        (λ other.
          copies.others (fat_sector s.fs k) (λ j p q. not_copied s.fs cluster k j fits h hk other)
          ∙ disk.read_keeps (fat_sector s.fs cluster) (fat_sector s.fs k) s.drive)

  -- On a drive that works and holds the tables, `fat32_update_fat_entry` succeeds for a cluster of
  -- the table, and changes its entry to the low 28 bits of the argument in every copy of the table;
  -- the first table's other entries stay as they were.
  pub update_fat_entry_lem :
      (s : Kernel D) (cluster next : ℕ)
      → FatFits s.fs size
      → InFat s.fs cluster
      → Updated sector s cluster next (update_fat_entry dev cluster next s)
  unfolding update_fat_entry change_entry
  update_fat_entry_lem s cluster next fits h =
      let base = fat_sector s.fs cluster in
      let where_is = fat_sector-lt s.fs size cluster fits disk.addressable h in
      rw (read_fat_buffer-ok dev size sector disk base s where_is.1) (
        finish (
          write_copies-Copied dev size sector disk s.fs.boot_sector.num_fats 0
            s.fs.boot_sector.num_fats base (edited s cluster next) (omega arith)
            (λ j p. omega (
              arith,
              where_is.0,
              copy_bound j s.fs.boot_sector.num_fats s.fs.boot_sector.sects_per_fat p,
            ))
            (
              length-put32 _ _ _ ∙ disk.length_sector s.drive base,
              All-put32 _ _ _ (disk.bytes_sector s.drive base),
            )
            fits.one_sector))
    where
      finish :
          {run : Run D Bool}
          → Copied dev size sector disk
              (fat_sector s.fs cluster)
              0
              s.fs.boot_sector.num_fats
              (edited s cluster next)
              run
          → Updated sector s cluster next run
      finish (t, e, copies) = (
        t,
        e,
        copies.same_fs,
        λ k hk. next_of-copied s t cluster next k fits h hk copies,
        λ j p. copies.copied j (omega arith) p,
      )
