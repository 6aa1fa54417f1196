-- ===== src/Fat32/Cluster/Reads.antt =====
-- `read_cluster` on a drive that works.
use vidga_os.Base.{
  ℕ, zero, suc, ◌+◌, ◌≤◌, ◌≡◌, refl, ap, fun_ext, false, Option, some, List, [], ◌++◌, arith, leb,
  u32,
}
use vidga_os.Kernel.{BlockDevice, FileSystem, Kernel, Run, ok}
use vidga_os.Fat32.Disk.{IsDisk, SameDisk, SameDisk-refl, SameDisk-trans}
use vidga_os.Fat32.Cluster.{buffer_sectors, cluster_sector, read_loop, read_cluster}

-- The bytes of `left` sectors from number `lba + i` on.
unfoldable pub stored_bytes : (ℕ → List ℕ) → ℕ → ℕ → ℕ → List ℕ
stored_bytes stored zero i lba = []
stored_bytes stored (suc left) i lba = stored (lba + i) ++ stored_bytes stored left (i + 1) lba

-- The bytes of a cluster.
abbrev pub cluster_bytes : FileSystem → (ℕ → List ℕ) → ℕ → List ℕ
cluster_bytes fs stored cluster =
    stored_bytes stored fs.sectors_per_cluster 0 (cluster_sector fs cluster)

-- A cluster fits the buffers of 4096 bytes and lies on the drive.
abbrev pub ClusterFits : FileSystem → ℕ → ℕ → Type 0
ClusterFits fs size cluster =
    (fs.sectors_per_cluster ≤ buffer_sectors)
    × (cluster_sector fs cluster + fs.sectors_per_cluster ≤ size)

module _ {D : Type 0} (dev : BlockDevice D) (size : ℕ) (sector : D → ℕ → List ℕ)
    (disk : IsDisk dev size sector) where
  ReadsTo : Kernel D → List ℕ → Run D (Option (List ℕ)) → Type 0
  ReadsTo s bytes run = (t : Kernel D) × (run ≡ ok (some bytes) t) × SameDisk sector s t

  read_loop-ReadsTo :
      (left i lba : ℕ) (s : Kernel D)
      → i + left ≤ buffer_sectors
      → lba + (i + left) ≤ size
      → ReadsTo s (stored_bytes (sector s.drive) left i lba) (read_loop dev left i lba s)
  unfolding read_loop stored_bytes ReadsTo
  read_loop-ReadsTo zero i lba s h fits = (s, refl, SameDisk-refl sector s)
  read_loop-ReadsTo (suc left) i lba s h fits =
      let small = disk.addressable in
      let exact : u32 (lba + i) ≡ lba + i = omega arith in
      let room : leb buffer_sectors i ≡ false = ground arith in
      let after = record s { drive = (dev.read_sector (lba + i) s.drive).1 } in
      let rest = read_loop-ReadsTo left (i + 1) lba after (omega arith) (omega arith) in
      let same : sector after.drive ≡ sector s.drive =
        fun_ext (λ n. disk.read_keeps (lba + i) n s.drive) in
      rw (exact, disk.read_ok (lba + i) s.drive (omega arith), room, rest.1)
        (
          rest.0,
          ap
              (λ stored.
                ok (some (sector s.drive (lba + i) ++ stored_bytes stored left (i + 1) lba)) rest.0)
              same,
          SameDisk-trans sector
              (record {
                same_fs = refl;
                same_screen = refl;
                same_cwd = refl;
                same_sectors = λ n. disk.read_keeps (lba + i) n s.drive;
              })
              rest.2,
        )

  -- On a drive that works, `read_cluster` succeeds for a cluster that fits the drive and the
  -- buffer, gives the bytes of its sectors in order and changes nothing on the drive.
  pub read_cluster-ok :
      (cluster : ℕ) (s : Kernel D)
      → ClusterFits s.fs size cluster
      → (t : Kernel D) × (read_cluster dev cluster s
          ≡ ok (some (cluster_bytes s.fs (sector s.drive) cluster)) t)
        × SameDisk sector s t
  unfolding read_cluster ReadsTo
  read_cluster-ok cluster s (small, fits) =
      read_loop-ReadsTo s.fs.sectors_per_cluster 0 (cluster_sector s.fs cluster) s (omega arith)
        (omega arith)
