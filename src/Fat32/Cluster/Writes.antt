-- ===== src/Fat32/Cluster/Writes.antt =====
-- `fat32_write_cluster` and `fat32_write_dirent` on a drive that works.
use vidga_os.Base.{
  ℕ, zero, suc, ◌+◌, ◌*◌, ◌≤◌, ◌<◌, ◌≡◌, refl, ap, ap₂, fun_ext, sym, ◌∙◌, ◌≢◌, ◌⊎◌, inl, false,
  true, Bool, List, ◌++◌, arith, leb, ◌==◌, if◌then◌else◌, u32, length, get_or, length-append, All,
  All-append, IsByte, lt→ltb,
}
use mathlib.Core.Path.{subst₂}
use native.Mathlib.Decide.{ℕ_discrete}
use vidga_os.Bytes.{bytes_at, splice}
use vidga_os.Bytes.Laws.{
  bytes_at_all, bytes_at_add, length-bytes_at, length-splice, All-bytes_at, All-splice,
}
use vidga_os.Kernel.{BlockDevice, FileSystem, Kernel, Run, ok}
use vidga_os.Fat32.Disk.{IsDisk}
use vidga_os.Fat32.Dirent.{Dirent, decode, encode}
use vidga_os.Fat32.Dirent.Widths.{All-encode}
use vidga_os.Fat32.Dirent.Layout.{IsEntry, decode-splice}
use vidga_os.Fat32.Cluster.{
  buffer_sectors, cluster_sector, write_loop, write_cluster, write_entry, write_dirent,
}
use vidga_os.Fat32.Cluster.Reads.{stored_bytes, cluster_bytes, ClusterFits, read_cluster-ok}

-- Sectors that hold the pieces of a buffer, one after the other, hold its bytes.
stored_bytes-pieces :
    (stored : ℕ → List ℕ) (bytes : List ℕ) (left i lba : ℕ)
    → ((k : ℕ) → i ≤ k → k < i + left → stored (lba + k) ≡ bytes_at bytes (k * 512) 512)
    → stored_bytes stored left i lba ≡ bytes_at bytes (i * 512) (left * 512)
unfolding stored_bytes bytes_at
stored_bytes-pieces stored bytes zero i lba pieces = refl
stored_bytes-pieces stored bytes (suc left) i lba pieces =
    ap₂ ◌++◌ (pieces i (omega arith) (omega arith)) (
      stored_bytes-pieces stored bytes left (i + 1) lba
        (λ k lo hi. pieces k (omega arith) (omega arith))
      ∙ ap (λ x. bytes_at bytes x (left * 512)) (omega arith))
    ∙ sym (bytes_at_add bytes (i * 512) 512 (left * 512))
    ∙ ap (bytes_at bytes (i * 512)) (omega arith)

pub length-stored_bytes :
    (stored : ℕ → List ℕ) (left i lba : ℕ)
    → ((n : ℕ) → length (stored n) ≡ 512)
    → length (stored_bytes stored left i lba) ≡ left * 512
unfolding stored_bytes
length-stored_bytes stored zero i lba h = refl
length-stored_bytes stored (suc left) i lba h = omega (
  arith,
  length-append (stored (lba + i)) (stored_bytes stored left (i + 1) lba),
  h (lba + i),
  length-stored_bytes stored left (i + 1) lba h,
)

pub All-stored_bytes :
    (stored : ℕ → List ℕ) (left i lba : ℕ)
    → ((n : ℕ) → All IsByte (stored n))
    → All IsByte (stored_bytes stored left i lba)
unfolding stored_bytes
All-stored_bytes stored zero i lba h = tt
All-stored_bytes stored (suc left) i lba h =
    All-append IsByte (stored (lba + i)) (stored_bytes stored left (i + 1) lba) (h (lba + i))
      (All-stored_bytes stored left (i + 1) lba h)

module _ {D : Type 0} (dev : BlockDevice D) (size : ℕ) (sector : D → ℕ → List ℕ)
    (disk : IsDisk dev size sector) where
  -- What the loop leaves from index `i` on: the pieces of the buffer in the sectors, and all else
  -- as it was.
  record IsStored (left i lba : ℕ) (bytes : List ℕ) (s t : Kernel D) : Type 0 where
    same_fs : t.fs ≡ s.fs
    pieces :
        (k : ℕ) → i ≤ k → k < i + left → sector t.drive (lba + k) ≡ bytes_at bytes (k * 512) 512
    others : (n : ℕ) → (n < lba + i) ⊎ (lba + (i + left) ≤ n) → sector t.drive n ≡ sector s.drive n

  abbrev after_write : ℕ → List ℕ → Kernel D → Kernel D
  after_write lba bytes s = record s { drive = (dev.write_sector lba bytes s.drive).1 }

  IsStored-cons :
      (left i lba : ℕ) (bytes : List ℕ) (s t : Kernel D)
      → lba + i < size
      → All IsByte bytes
      → IsStored left (i + 1) lba bytes (after_write (lba + i) (bytes_at bytes (i * 512) 512) s) t
      → IsStored (suc left) i lba bytes s t
  IsStored-cons left i lba bytes s t h all rest = record {
    same_fs = rest.same_fs;
    pieces = λ k lo hi. elim (ℕ_discrete k i) [
      | yes e ↦
          ap (λ (j : ℕ). sector t.drive (lba + j)) e
          ∙ rest.others (lba + i) (inl (omega arith))
          ∙ disk.write_stores (lba + i) (lba + i) piece s.drive h full small
          ∙ here
          ∙ ap (λ (j : ℕ). bytes_at bytes (j * 512) 512) (sym e)
      | no ne ↦ rest.pieces k (omega arith) (omega arith)
    ];
    others = λ n away.
        rest.others n (ground arith)
        ∙ disk.write_stores (lba + i) n piece s.drive h full small
        ∙ not_here n (ground arith);
  }
    where
      piece : List ℕ
      piece = bytes_at bytes (i * 512) 512

      full : length piece ≡ 512
      full = length-bytes_at bytes (i * 512) 512

      small : All IsByte piece
      small = All-bytes_at bytes (i * 512) 512 all

      here : (if lba + i == lba + i then piece else sector s.drive (lba + i)) ≡ piece
      here = ground arith

      not_here :
          (n : ℕ)
          → n ≢ lba + i
          → (if n == lba + i then piece else sector s.drive n) ≡ sector s.drive n
      not_here n ne = ground arith

  write_loop-IsStored :
      (left i lba : ℕ) (bytes : List ℕ) (s : Kernel D)
      → i + left ≤ buffer_sectors
      → lba + (i + left) ≤ size
      → All IsByte bytes
      → (t : Kernel D) × (write_loop dev left i lba bytes s ≡ ok true t)
        × IsStored left i lba bytes s t
  unfolding write_loop
  write_loop-IsStored zero i lba bytes s h fits all = (
    s,
    refl,
    record { same_fs = refl; pieces = λ k lo hi. absurd (omega arith); others = λ n away. refl },
  )
  write_loop-IsStored (suc left) i lba bytes s h fits all =
      let piece = bytes_at bytes (i * 512) 512 in
      let small = disk.addressable in
      let exact : u32 (lba + i) ≡ lba + i = omega arith in
      let room : leb buffer_sectors i ≡ false = ground arith in
      let rest =
        write_loop-IsStored left (i + 1) lba bytes (after_write (lba + i) piece s) (omega arith)
          (omega arith) all in
      rw
        (
          exact,
          room,
          disk.write_ok (lba + i) piece s.drive (omega arith) (length-bytes_at bytes (i * 512) 512),
        )
        (rest.0, rest.1, IsStored-cons left i lba bytes s rest.0 (omega arith) all rest.2)

  -- The sectors that are not the cluster's.
  abbrev pub Outside : FileSystem → ℕ → ℕ → Type 0
  Outside fs cluster n =
      (n < cluster_sector fs cluster) ⊎ (cluster_sector fs cluster + fs.sectors_per_cluster ≤ n)

  -- The run succeeds, the cluster then holds the bytes, and every other sector what it held.
  abbrev pub Writes : FileSystem → (ℕ → List ℕ) → ℕ → List ℕ → Run D Bool → Type 0
  Writes fs stored cluster bytes run =
      (t : Kernel D) × (run ≡ ok true t)
      × (t.fs ≡ fs)
      × (cluster_bytes fs (sector t.drive) cluster ≡ bytes)
      × ((n : ℕ) → Outside fs cluster n → sector t.drive n ≡ stored n)

  -- On a drive that works, `fat32_write_cluster` succeeds for a cluster that fits the drive and the
  -- buffer and for a buffer of bytes, stores them in the cluster, and changes no other sector.
  pub write_cluster-Writes :
      (cluster : ℕ) (bytes : List ℕ) (s : Kernel D)
      → ClusterFits s.fs size cluster
      → length bytes ≡ s.fs.sectors_per_cluster * 512
      → All IsByte bytes
      → Writes s.fs (sector s.drive) cluster bytes (write_cluster dev cluster bytes s)
  unfolding write_cluster
  write_cluster-Writes cluster bytes s (small, fits) len all =
      let lba = cluster_sector s.fs cluster in
      let done =
        write_loop-IsStored s.fs.sectors_per_cluster 0 lba bytes s (omega arith) (omega arith)
          all in
      (
        done.0,
        done.1,
        done.2.same_fs,
        stored_bytes-pieces (sector done.0.drive) bytes s.fs.sectors_per_cluster 0 lba done.2.pieces
            ∙ bytes_at_all bytes bytes 0 (s.fs.sectors_per_cluster * 512) (omega arith)
                (λ k lt. ap (λ x. get_or bytes x 0) (omega arith)),
        λ n away. done.2.others n (ground arith),
      )

  -- The run succeeds, slot `i` of the cluster then holds the entry, its other slots and every
  -- sector outside of it what they held.
  abbrev pub WritesEntry : FileSystem → (ℕ → List ℕ) → ℕ → ℕ → Dirent → Run D Bool → Type 0
  WritesEntry fs stored cluster i e run =
      (t : Kernel D) × (run ≡ ok true t)
      × (t.fs ≡ fs)
      × ((j : ℕ)
          → decode (cluster_bytes fs (sector t.drive) cluster) (j * 32)
            ≡ (if j == i then e else decode (cluster_bytes fs stored cluster) (j * 32)))
      × ((n : ℕ) → Outside fs cluster n → sector t.drive n ≡ stored n)

  -- The run of a write of the cluster's bytes with the entry in slot `i`.
  abbrev pub put_entry : FileSystem → (ℕ → List ℕ) → ℕ → ℕ → Dirent → Kernel D → Run D Bool
  put_entry fs stored cluster i e =
      write_cluster dev cluster (splice (cluster_bytes fs stored cluster) (i * 32) (encode e))

  put_entry_here :
      (cluster i : ℕ) (e : Dirent) (s : Kernel D)
      → IsEntry e
      → ClusterFits s.fs size cluster
      → i < s.fs.sectors_per_cluster * 16
      → WritesEntry s.fs
          (sector s.drive)
          cluster
          i
          e
          (put_entry s.fs (sector s.drive) cluster i e s)
  put_entry_here cluster i e s v fits lt =
      let old = cluster_bytes s.fs (sector s.drive) cluster in
      let old_length : length old ≡ s.fs.sectors_per_cluster * 512 =
        length-stored_bytes (sector s.drive) s.fs.sectors_per_cluster 0
          (cluster_sector s.fs cluster) (disk.length_sector s.drive) in
      let done =
        write_cluster-Writes cluster (splice old (i * 32) (encode e)) s fits
          (length-splice old (encode e) (i * 32) ∙ old_length)
          (All-splice old (encode e) (i * 32)
            (All-stored_bytes (sector s.drive) s.fs.sectors_per_cluster 0
              (cluster_sector s.fs cluster) (disk.bytes_sector s.drive))
            (All-encode e v)) in
      (
        done.0,
        done.1,
        done.2,
        (λ j.
            ap (λ x. decode x (j * 32)) done.3
            ∙ decode-splice e v old i j (omega (arith, old_length))),
        done.4,
      )

  -- The same for a state with given parameters and a given drive.
  pub put_entry-WritesEntry :
      (fs : FileSystem) (stored : ℕ → List ℕ) (cluster i : ℕ) (e : Dirent) (s : Kernel D)
      → s.fs ≡ fs
      → sector s.drive ≡ stored
      → IsEntry e
      → ClusterFits fs size cluster
      → i < fs.sectors_per_cluster * 16
      → WritesEntry fs stored cluster i e (put_entry fs stored cluster i e s)
  put_entry-WritesEntry fs stored cluster i e s p q v =
      subst₂
        (λ f m.
          ClusterFits f size cluster
          → i < f.sectors_per_cluster * 16
          → WritesEntry f m cluster i e (put_entry f m cluster i e s))
        p q (put_entry_here cluster i e s v)

  -- On a drive that works, `fat32_write_dirent` succeeds for a cluster that fits the drive and the
  -- buffer and for an index of one of its slots: that slot then holds the entry, and the other
  -- slots of the cluster and all other sectors hold what they held.
  pub write_dirent-WritesEntry :
      (cluster i : ℕ) (e : Dirent) (s : Kernel D)
      → IsEntry e
      → ClusterFits s.fs size cluster
      → i < s.fs.sectors_per_cluster * 16
      → WritesEntry s.fs (sector s.drive) cluster i e (write_dirent dev cluster i e s)
  unfolding write_dirent write_entry
  write_dirent-WritesEntry cluster i e s v fits lt =
      let got = read_cluster-ok dev size sector disk cluster s fits in
      rw (got.1, lt→ltb i 128 (omega (arith, fits.0)))
        (put_entry-WritesEntry s.fs (sector s.drive) cluster i e got.0 got.2.same_fs
          (fun_ext got.2.same_sectors) v fits lt)
