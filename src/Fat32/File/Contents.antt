-- ===== src/Fat32/File/Contents.antt =====
-- `fat32_read` against the bytes of a file's clusters.
use vidga_os.Base.{
  ℕ, zero, suc, ◌+◌, ◌-◌, ◌*◌, ◌^◌, ◌≤◌, ◌<◌, ◌≡◌, refl, sym, ap, ◌∙◌, inl, inr, true, false, List,
  [], ◌∷◌, ◌++◌, arith, min, leb, ◌==◌, Bool-cases, length, take, All, append-nil, append_assoc,
}
use mathlib.Core.Path.{subst}
use vidga_os.Bytes.{bytes_at}
use vidga_os.Kernel.{BlockDevice, FileSystem, Kernel, Run, ok, fault}
use vidga_os.Fat32.Disk.{IsDisk, FatFits, SameDisk, SameDisk-trans}
use vidga_os.Fat32.Table.Alloc.{next_of}
use vidga_os.Fat32.Cluster.Reads.{cluster_bytes}
use vidga_os.Fat32.Directory.Chains.{Chain, end_mark, link, Usable, Holds, Holds-SameDisk}
use vidga_os.Fat32.File.{
  OpenFile, Reading, goes_on, to_copy, copy_round, load_cluster, read_rounds, read,
}
use vidga_os.Fat32.File.Copying.{
  fresh, to_copy-inside, take-append_front, take-append, bytes_at-take, at_start, advance, fewer,
  whole_cluster, copied_from,
}
use vidga_os.Fat32.File.Rounds.{
  length-cluster_bytes, read_rounds-stop, read_rounds-step, Fills, to_go, AtStart,
}

-- The bytes of the clusters, in order.
unfoldable pub contents : FileSystem → (ℕ → List ℕ) → List ℕ → List ℕ
contents fs stored [] = []
contents fs stored (c ∷ cs) = cluster_bytes fs stored c ++ contents fs stored cs

module _ {D : Type 0} (dev : BlockDevice D) (size : ℕ) (sector : D → ℕ → List ℕ)
    (disk : IsDisk dev size sector) (fs : FileSystem) (stored : ℕ → List ℕ) where
  -- The rest of the call, where the first round has copied a part of the cluster.
  last_round :
      (fuel want m next : ℕ) (cluster more : List ℕ) (r : Reading) (s : Kernel D)
      → AtStart want r
      → m ≡ to_go want r
      → m < fs.sectors_per_cluster * 512
      → length cluster ≡ fs.sectors_per_cluster * 512
      → Fills sector s r m (cluster ++ more) (
          read_rounds dev fuel want (copied_from (fs.sectors_per_cluster * 512) m next cluster r) s)
  last_round fuel want m next cluster more r s (e, w, f, k, p) tm lt len =
      let r' = copied_from (fs.sectors_per_cluster * 512) m next cluster r in
      let stop : goes_on want r' ≡ false = ground arith in
      let (r'', t, run, same, copied, position) =
        read_rounds-stop dev size sector disk fs stored fuel want r' [] s stop in
      (
        r'',
        t,
        run,
        same,
        copied
            ∙ append-nil r'.copied
            ∙ ap (λ l. r.copied ++ l)
                (bytes_at-take m cluster (omega arith)
                  ∙ sym (take-append_front m cluster more (omega arith))),
        omega (arith, position),
      )

  -- The call has nothing to copy.
  nothing_to_go :
      (fuel want : ℕ) (r : Reading) (bytes : List ℕ) (s : Kernel D)
      → goes_on want r ≡ false
      → AtStart want r
      → Fills sector s r (to_go want r) bytes (read_rounds dev fuel want r s)
  nothing_to_go fuel want r bytes s stop start =
      let none_left : 0 ≡ to_go want r = ground (arith, start) in
      subst (λ n. Fills sector s r n bytes (read_rounds dev fuel want r s)) none_left
        (read_rounds-stop dev size sector disk fs stored fuel want r bytes s stop)

  -- The first round copies the whole cluster, and the rest follows.
  after_cluster :
      (n k next : ℕ) (cluster more : List ℕ) (r : Reading) (s t : Kernel D)
      (run run' : Run D Reading)
      → n ≡ length cluster + k
      → run ≡ run'
      → SameDisk sector s t
      → Fills sector t (copied_from (length cluster) (length cluster) next cluster r) k more run'
      → Fills sector s r n (cluster ++ more) run
  after_cluster n k next cluster more r s t run run' split same_run same
        (r', u, e, same', copied, position) =
      (
        r',
        u,
        same_run ∙ e,
        SameDisk-trans sector same same',
        copied
            ∙ append_assoc r.copied (bytes_at cluster 0 (length cluster)) (take k more)
            ∙ ap (λ l. r.copied ++ l)
                (ap (λ l. l ++ take k more) (whole_cluster cluster)
                  ∙ sym (take-append n k cluster more split)),
        omega (arith, position),
      )

  read_rounds-Fills :
      (fuel want : ℕ) (r : Reading) {cs : List ℕ} (s : Kernel D)
      → FatFits fs size
      → 0 < fs.sectors_per_cluster
      → Chain (next_of fs stored) r.file.cluster cs
      → length cs ≤ fuel
      → All (Usable fs size) cs
      → Holds sector fs stored s
      → AtStart want r
      → to_go want r ≤ length cs * (fs.sectors_per_cluster * 512)
      → Fills sector s r (to_go want r) (contents fs stored cs) (read_rounds dev fuel want r s)
  unfolding contents
  read_rounds-Fills fuel want r s fits pos (end_mark mark) le u holds start enough =
      nothing_to_go fuel want r [] s (ground (arith, start)) start
  read_rounds-Fills zero want r s fits pos (link live rest) le u holds start enough =
      absurd (omega arith)
  read_rounds-Fills (suc fuel) want r s fits pos (link {cs = cs} live rest) le (u, us) holds start
        enough =
      elim (Bool-cases (goes_on want r)) [
        | inr stop ↦ nothing_to_go (suc fuel) want r _ s stop start
        | inl more ↦
            let (t, run, same) =
              read_rounds-step dev size sector disk fs stored fuel want r s fits holds u live start
                pos more in
            let cluster_size = fs.sectors_per_cluster * 512 in
            let cluster = cluster_bytes fs stored r.file.cluster in
            let next = next_of fs stored r.file.cluster in
            let len : length cluster ≡ cluster_size =
              length-cluster_bytes dev size sector disk fs stored r.file.cluster s holds in
            let first : (m : ℕ)
                → min cluster_size (to_go want r) ≡ m
                → read_rounds dev (suc fuel) want r s
                  ≡ read_rounds dev fuel want (copied_from cluster_size m next cluster r) t =
              λ m e.
                subst
                  (λ n.
                    read_rounds dev (suc fuel) want r s
                    ≡ read_rounds dev fuel want (copied_from cluster_size n next cluster r) t)
                  e run in
            elim (Bool-cases (leb cluster_size (to_go want r))) [
              | inl full ↦
                  let fits_in : length cluster ≤ to_go want r = ground (arith, len) in
                  let (split, wanted, left) =
                    advance want r.file.file_size r.bytes_read r.file.position (length cluster)
                      start.3 start.4 fits_in in
                  let whole =
                    subst
                      (λ n.
                        read_rounds dev (suc fuel) want r s
                        ≡ read_rounds dev fuel want (copied_from n n next cluster r) t)
                      (sym len) (first cluster_size (ground arith)) in
                  let r' = copied_from (length cluster) (length cluster) next cluster r in
                  after_cluster (to_go want r) (to_go want r') next cluster (contents fs stored cs)
                    r s t _ _ split whole same
                    (read_rounds-Fills fuel want r' t fits pos rest (omega arith) us
                      (Holds-SameDisk dev size sector disk fs stored holds same)
                      (at_start (length cluster), start.1, start.2, wanted, left)
                      (subst (λ c. to_go want r' ≤ length cs * c) len
                        (fewer (to_go want r) (to_go want r') (length cs) (length cluster) split
                          (subst (λ c. to_go want r ≤ suc (length cs) * c) (sym len) enough))))
              | inr part ↦
                  let (r', t', e, same', copied, position) =
                    last_round fuel want (to_go want r) next cluster (contents fs stored cs) r t
                      start refl (ground arith) len in
                  (
                    r',
                    t',
                    first (to_go want r) (ground arith) ∙ e,
                    SameDisk-trans sector same same',
                    copied,
                    position,
                  )
            ]
      ]

  -- On a drive that works and holds the tables, with clusters of at least one sector: if a handle
  -- stands at the start of a cluster, and the table links it and the following ones to an end mark,
  -- all of them fit the drive and the buffer, and they have room for what is asked for and left in
  -- the file, then `fat32_read` ends with as much fuel as there are clusters. It gives that many
  -- bytes, the first of these clusters in order, moves the position behind them, and changes
  -- nothing on the drive.
  pub read-contents :
      (fuel want : ℕ) (file : OpenFile) {cs : List ℕ} (s : Kernel D)
      → FatFits fs size
      → 0 < fs.sectors_per_cluster
      → Chain (next_of fs stored) file.cluster cs
      → length cs ≤ fuel
      → All (Usable fs size) cs
      → Holds sector fs stored s
      → file.cluster_pos ≡ 0
      → want < 2 ^ 32
      → file.file_size < 2 ^ 32
      → file.position ≤ file.file_size
      → min want (file.file_size - file.position) ≤ length cs * (fs.sectors_per_cluster * 512)
      → (file' : OpenFile) × (t : Kernel D) × (read dev fuel file want s
          ≡ ok (file', take (min want (file.file_size - file.position)) (contents fs stored cs)) t)
        × SameDisk sector s t
        × (file'.position ≡ file.position + min want (file.file_size - file.position))
  unfolding read
  read-contents fuel want file {cs = cs} s fits pos chain le u holds e w f p enough =
      let r = fresh file in
      let all : min want (file.file_size - file.position) ≡ to_go want r = omega arith in
      let (r', t, run, same, copied, position) =
        read_rounds-Fills fuel want r s fits pos chain le u holds (e, w, f, omega arith, p)
          (subst (λ n. n ≤ length cs * (fs.sectors_per_cluster * 512)) all enough) in
      rw (all, run) (r'.file, t, ap (λ l. ok (r'.file, l) t) copied, same, position)

-- A call that goes on inside a cluster, where there is something to copy, reads bytes that no call
-- has set: the buffer for the cluster is new in each call and is filled at a cluster's start alone.
pub read-inside :
    {D : Type 0} (dev : BlockDevice D) (fuel want : ℕ) (file : OpenFile) (s : Kernel D)
    → 0 < file.cluster_pos
    → file.cluster_pos < s.fs.sectors_per_cluster * 512
    → s.fs.sectors_per_cluster * 512 < 2 ^ 32
    → 0 < want
    → want < 2 ^ 32
    → file.position < file.file_size
    → file.file_size < 2 ^ 32
    → read dev (suc fuel) file want s ≡ fault
unfolding read read_rounds load_cluster copy_round
read-inside dev fuel want file s inside room small some_wanted w some_left f =
    let r = fresh file in
    let more : goes_on want r ≡ true = ground arith in
    let kept : (file.cluster_pos == 0) ≡ false = ground arith in
    let copies : (to_copy (s.fs.sectors_per_cluster * 512) want r == 0) ≡ false =
      to_copy-inside (s.fs.sectors_per_cluster * 512) want file room small some_wanted w some_left
        f in
    rw (more, kept, copies) refl
