-- ===== src/Fat32/File/Rounds.antt =====
-- The loop of `fat32_read`, round by round, on a drive that works.
use vidga_os.Base.{
  ℕ, zero, suc, ◌+◌, ◌-◌, ◌*◌, ◌^◌, ◌≤◌, ◌<◌, ◌≡◌, refl, sym, ap, ◌∙◌, true, false, some, List,
  ◌++◌, arith, min, ◌==◌, length, take, append-nil,
}
use vidga_os.Kernel.{BlockDevice, FileSystem, Kernel, Run, ok}
use vidga_os.Fat32.Disk.{IsDisk, FatFits, SameDisk, SameDisk-refl, SameDisk-trans}
use vidga_os.Fat32.Table.{is_eoc}
use vidga_os.Fat32.Table.Alloc.{next_of}
use vidga_os.Fat32.Cluster.{cluster_sector}
use vidga_os.Fat32.Cluster.Reads.{cluster_bytes}
use vidga_os.Fat32.Cluster.Writes.{length-stored_bytes}
use vidga_os.Fat32.Directory.Chains.{Usable, Holds, Holds-SameDisk, reads, follows}
use vidga_os.Fat32.File.{Reading, goes_on, to_copy, load_cluster, read_rounds}
use vidga_os.Fat32.File.Copying.{loaded, copied_from, copy_round-start, to_copy-start}

-- What a call is to give: `n` more bytes of the bytes, and nothing changed on the drive.
abbrev pub Fills :
    {D : Type 0} → (D → ℕ → List ℕ) → Kernel D → Reading → ℕ → List ℕ → Run D Reading → Type 0
Fills {D} sector s r n bytes run =
    (r' : Reading) × (t : Kernel D) × (run ≡ ok r' t)
    × SameDisk sector s t
    × (r'.copied ≡ r.copied ++ take n bytes)
    × (r'.file.position ≡ r.file.position + n)

-- How many bytes the call still has to copy.
abbrev pub to_go : ℕ → Reading → ℕ
to_go want r = min (want - r.bytes_read) (r.file.file_size - r.file.position)

-- A call at the start of a cluster, in numbers that fit their types.
abbrev pub AtStart : ℕ → Reading → Type 0
AtStart want r =
    (r.file.cluster_pos ≡ 0)
    × (want < 2 ^ 32)
    × (r.file.file_size < 2 ^ 32)
    × (r.bytes_read ≤ want)
    × (r.file.position ≤ r.file.file_size)

module _ {D : Type 0} (dev : BlockDevice D) (size : ℕ) (sector : D → ℕ → List ℕ)
    (disk : IsDisk dev size sector) (fs : FileSystem) (stored : ℕ → List ℕ) where
  pub load_cluster-ok :
      (r : Reading) (s : Kernel D)
      → FatFits fs size
      → Holds sector fs stored s
      → Usable fs size r.file.cluster
      → is_eoc r.file.cluster ≡ false
      → r.file.cluster_pos ≡ 0
      → (t : Kernel D) × (load_cluster dev r s
          ≡ ok
              (some (
                loaded
                  (next_of fs stored r.file.cluster)
                  (cluster_bytes fs stored r.file.cluster)
                  r))
              t)
        × SameDisk sector s t
  unfolding load_cluster
  load_cluster-ok r s fits holds u live e =
      let start : (r.file.cluster_pos == 0) ≡ true = ground arith in
      let (t, bytes, same) = reads dev size sector disk fs stored r.file.cluster s holds u in
      let (t', next, same') =
        follows dev size sector disk fs stored r.file.cluster t fits
          (Holds-SameDisk dev size sector disk fs stored holds same) u in
      rw (start, live, bytes, next) (t', refl, SameDisk-trans sector same same')

  pub length-cluster_bytes :
      (c : ℕ) (s : Kernel D)
      → Holds sector fs stored s
      → length (cluster_bytes fs stored c) ≡ fs.sectors_per_cluster * 512
  length-cluster_bytes c s (e, h) =
      length-stored_bytes stored fs.sectors_per_cluster 0 (cluster_sector fs c)
        (λ n. ap (λ m. length (m n)) (sym h) ∙ disk.length_sector s.drive n)

  pub read_rounds-ends :
      (fuel want : ℕ) (r : Reading) (s : Kernel D)
      → goes_on want r ≡ false
      → read_rounds dev fuel want r s ≡ ok r s
  unfolding read_rounds
  read_rounds-ends zero want r s stop = rw stop refl
  read_rounds-ends (suc fuel) want r s stop = rw stop refl

  pub read_rounds-stop :
      (fuel want : ℕ) (r : Reading) (bytes : List ℕ) (s : Kernel D)
      → goes_on want r ≡ false
      → Fills sector s r 0 bytes (read_rounds dev fuel want r s)
  read_rounds-stop fuel want r bytes s stop = (
    r,
    s,
    read_rounds-ends fuel want r s stop,
    SameDisk-refl sector s,
    sym (append-nil r.copied),
    omega arith,
  )

  pub read_rounds-step :
      (fuel want : ℕ) (r : Reading) (s : Kernel D)
      → FatFits fs size
      → Holds sector fs stored s
      → Usable fs size r.file.cluster
      → is_eoc r.file.cluster ≡ false
      → AtStart want r
      → 0 < fs.sectors_per_cluster
      → goes_on want r ≡ true
      → (t : Kernel D) × (read_rounds dev (suc fuel) want r s
          ≡ read_rounds dev fuel want
              (copied_from
                (fs.sectors_per_cluster * 512)
                (min (fs.sectors_per_cluster * 512) (to_go want r))
                (next_of fs stored r.file.cluster)
                (cluster_bytes fs stored r.file.cluster)
                r)
              t)
        × SameDisk sector s t
  unfolding read_rounds
  read_rounds-step fuel want r s fits holds u live (e, w, f, k, p) pos more =
      let (t, loads, same) = load_cluster-ok r s fits holds u live e in
      let next = next_of fs stored r.file.cluster in
      let bytes = cluster_bytes fs stored r.file.cluster in
      let cluster_size = fs.sectors_per_cluster * 512 in
      let params : t.fs ≡ fs = (Holds-SameDisk dev size sector disk fs stored holds same).0 in
      let m = min cluster_size (to_go want r) in
      let small : cluster_size < 2 ^ 32 = omega (arith, u.1.0) in
      let first : to_copy cluster_size want r ≡ m =
        to_copy-start cluster_size want r e small w f k p in
      let round =
        copy_round-start cluster_size want m next bytes r e first (ground arith) (omega arith)
          (omega arith) (omega arith) in
      rw (more, loads, params, round) (t, refl, same)
