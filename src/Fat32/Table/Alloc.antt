-- ===== src/Fat32/Table/Alloc.antt =====
-- `fat32_get_next_cluster` and `fat32_alloc_cluster` on a drive that works.
use vidga_os.Base.{
  ℕ, zero, suc, ◌+◌, ◌-◌, ◌*◌, ◌/◌, ◌^◌, ◌≤◌, ◌<◌, ◌≡◌, refl, sym, ap, fun_ext, ◌∙◌, ◌≢◌, ◌⊎◌, inl,
  inr, true, List, arith, ◌==◌, ==_iff, Bool-cases, u32, low_bits,
}
use native.Mathlib.Decide.{ℕ_discrete}
use vidga_os.Bytes.{get32}
use vidga_os.Kernel.{BlockDevice, FileSystem, Kernel, Run, ok}
use vidga_os.Fat32.Disk.{IsDisk, FatFits, InFat, SameDisk, SameDisk-refl, SameDisk-trans}
use vidga_os.Fat32.Table.{
  fat_sector, offset_in_sector, read_fat_buffer, get_next_cluster, alloc_loop, alloc_cluster,
}

-- The entry of a cluster in the first table, given what the sectors hold.
unfoldable pub next_of : FileSystem → (ℕ → List ℕ) → ℕ → ℕ
next_of fs stored cluster =
    low_bits (get32 (stored (fat_sector fs cluster)) (offset_in_sector cluster)) 28

pub next_of-SameDisk :
    {D : Type 0} (sector : D → ℕ → List ℕ) {s t : Kernel D} (cluster : ℕ)
    → SameDisk sector s t
    → next_of t.fs (sector t.drive) cluster ≡ next_of s.fs (sector s.drive) cluster
unfolding next_of
next_of-SameDisk sector {s} {t} cluster same =
    ap (λ fs. next_of fs (sector t.drive) cluster) same.same_fs
    ∙ ap (λ stored. next_of s.fs stored cluster) (fun_ext same.same_sectors)

le-mul : (a b : ℕ) → 1 ≤ a → b ≤ a * b
le-mul a b h = grind arith

pub fat_sector-lt :
    (fs : FileSystem) (size cluster : ℕ)
    → FatFits fs size
    → size ≤ 2 ^ 28
    → InFat fs cluster
    → (fat_sector fs cluster ≡ fs.fat_start_sector + cluster / 128) × (fat_sector fs cluster < size)
fat_sector-lt fs size cluster fits small h =
    let copies = le-mul fs.boot_sector.num_fats fs.boot_sector.sects_per_fat fits.one_copy in
    (omega (arith, copies), omega (arith, copies))

-- The result `r` of a search for a free entry among the clusters from `lo` to `hi`: the first
-- that is free, or 0 if none is.
abbrev pub IsFirstFree : FileSystem → (ℕ → List ℕ) → ℕ → ℕ → ℕ → Type 0
IsFirstFree fs stored lo hi r =
    ((r ≡ 0) × ((k : ℕ) → lo ≤ k → k < hi → next_of fs stored k ≢ 0))
    ⊎ ((lo ≤ r)
        × (r < hi)
        × (next_of fs stored r ≡ 0)
        × ((k : ℕ) → lo ≤ k → k < r → next_of fs stored k ≢ 0))

module _ {D : Type 0} (dev : BlockDevice D) (size : ℕ) (sector : D → ℕ → List ℕ)
    (disk : IsDisk dev size sector) where
  -- The state after a sector has been read into `fat32_buffer`.
  abbrev pub buffered : ℕ → Kernel D → Kernel D
  buffered lba s = record s {
    drive = (dev.read_sector lba s.drive).1;
    fat_buffer = sector s.drive lba;
  }

  pub buffered-SameDisk : (lba : ℕ) (s : Kernel D) → SameDisk sector s (buffered lba s)
  buffered-SameDisk lba s = record {
    same_fs = refl;
    same_screen = refl;
    same_cwd = refl;
    same_sectors = λ n. disk.read_keeps lba n s.drive;
  }

  pub read_fat_buffer-ok :
      (lba : ℕ) (s : Kernel D) → lba < size → read_fat_buffer dev lba s ≡ ok true (buffered lba s)
  unfolding read_fat_buffer
  read_fat_buffer-ok lba s h = rw (disk.read_ok lba s.drive h)

  pub get_next_cluster-ok :
      (cluster : ℕ) (s : Kernel D)
      → FatFits s.fs size
      → InFat s.fs cluster
      → get_next_cluster dev cluster s
        ≡ ok (next_of s.fs (sector s.drive) cluster) (buffered (fat_sector s.fs cluster) s)
  unfolding get_next_cluster next_of
  get_next_cluster-ok cluster s fits h = rw (
      read_fat_buffer-ok (fat_sector s.fs cluster) s
        (fat_sector-lt s.fs size cluster fits disk.addressable h).1)

  abbrev Allocated : Kernel D → ℕ → ℕ → Run D ℕ → Type 0
  Allocated s lo hi run =
      (r : ℕ) × (t : Kernel D) × (run ≡ ok r t)
      × SameDisk sector s t
      × IsFirstFree s.fs (sector s.drive) lo hi r

  -- One more entry in front, which is in use.
  Allocated-cons :
      (s t : Kernel D) (lo hi : ℕ) (run : Run D ℕ)
      → SameDisk sector s t
      → next_of s.fs (sector s.drive) lo ≢ 0
      → Allocated t (lo + 1) hi run
      → Allocated s lo hi run
  Allocated-cons s t lo hi run same used (r, u, e, same', first) =
      (r, u, e, SameDisk-trans sector same same', widen first)
    where
      keep : (k : ℕ) → next_of t.fs (sector t.drive) k ≡ next_of s.fs (sector s.drive) k
      keep k = next_of-SameDisk sector k same

      used_from :
          (n k : ℕ)
          → ((j : ℕ) → lo + 1 ≤ j → j < n → next_of t.fs (sector t.drive) j ≢ 0)
          → lo ≤ k
          → k < n
          → next_of s.fs (sector s.drive) k ≢ 0
      used_from n k h p q = elim (ℕ_discrete k lo) [
        | yes e ↦ λ z. used (ap (next_of s.fs (sector s.drive)) (sym e) ∙ z)
        | no ne ↦ λ z. h k (omega arith) q (keep k ∙ z)
      ]

      widen :
          IsFirstFree t.fs (sector t.drive) (lo + 1) hi r
          → IsFirstFree s.fs (sector s.drive) lo hi r
      widen (inl (z, h)) = inl (z, λ k. used_from hi k h)
      widen (inr (p, q, z, h)) = inr (omega arith, q, sym (keep r) ∙ z, λ k. used_from r k h)

  alloc_loop-Allocated :
      (left cluster hi : ℕ) (s : Kernel D)
      → FatFits s.fs size
      → cluster + left ≡ hi
      → hi ≤ s.fs.boot_sector.sects_per_fat * 128
      → Allocated s cluster hi (alloc_loop dev left cluster s)
  unfolding alloc_loop
  alloc_loop-Allocated zero cluster hi s fits e h =
      (0, s, refl, SameDisk-refl sector s, inl (refl, λ k p q. absurd (omega arith)))
  alloc_loop-Allocated (suc left) cluster hi s fits e h =
      rw (get_next_cluster-ok cluster s fits (omega arith))
        (elim (Bool-cases (next_of s.fs (sector s.drive) cluster == 0)) [
          | inl free ↦ rw free (
            cluster,
            after,
            refl,
            buffered-SameDisk (fat_sector s.fs cluster) s,
            inr (omega arith, omega arith, (==_iff _ 0).0 free, λ k p q. absurd (omega arith)),
          )
          | inr used ↦ rw used (
              Allocated-cons s after cluster hi _ (buffered-SameDisk (fat_sector s.fs cluster) s)
                (ground arith)
                (alloc_loop-Allocated left (cluster + 1) hi after fits (omega arith) h))
        ])
    where
      after : Kernel D
      after = buffered (fat_sector s.fs cluster) s

  -- On a drive that works and holds the tables, `fat32_alloc_cluster` ends, changes nothing on the
  -- drive, and returns the first cluster from 2 on whose table entry is 0, or 0 if the table has no
  -- such entry.
  pub alloc_cluster-IsFirstFree :
      (s : Kernel D)
      → FatFits s.fs size
      → (r : ℕ) × (t : Kernel D) × (alloc_cluster dev s ≡ ok r t)
        × SameDisk sector s t
        × IsFirstFree s.fs (sector s.drive) 2 (s.fs.boot_sector.sects_per_fat * 128) r
  unfolding alloc_cluster
  alloc_cluster-IsFirstFree s fits = rw count (
      alloc_loop-Allocated (s.fs.boot_sector.sects_per_fat * 128 - 2) 2
        (s.fs.boot_sector.sects_per_fat * 128) s fits (omega arith) (omega arith))
    where
      count :
          u32 (s.fs.boot_sector.sects_per_fat * 512) / 4 - 2
          ≡ s.fs.boot_sector.sects_per_fat * 128 - 2
      count = omega arith
