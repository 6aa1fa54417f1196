-- ===== src/Shell/Commands/Cat.antt =====
-- `cat` on a file whose clusters have one sector, so that each call of `fat32_read` for 512 bytes
-- starts at a cluster.
use vidga_os.Base.{
  ℕ, suc, ◌+◌, ◌-◌, ◌*◌, ◌^◌, ◌≤◌, ◌<◌, ◌≡◌, refl, sym, ap₂, ◌∙◌, inl, inr, true, false, ◌&&◌, List,
  [], ◌∷◌, ◌++◌, arith, min, leb, ltb, ◌==◌, Bool-cases, if◌then◌else◌, length, take, codes, u32,
}
use mathlib.Core.Path.{subst}
use vidga_os.Bytes.{bytes_at}
use vidga_os.Bytes.Laws.{length-bytes_at}
use vidga_os.Vga.{Screen, print_msg, print_msg_char}
use vidga_os.Kernel.{BlockDevice, FileSystem, Kernel, ok}
use vidga_os.Fat32.Disk.{IsDisk, FatFits, SameDisk}
use vidga_os.Fat32.Table.{is_eoc}
use vidga_os.Fat32.Table.Alloc.{next_of}
use vidga_os.Fat32.Cluster.Reads.{cluster_bytes}
use vidga_os.Fat32.Directory.Chains.{Usable, Holds, Holds-SameDisk}
use vidga_os.Fat32.File.{OpenFile, goes_on, read_rounds, read}
use vidga_os.Fat32.File.Copying.{fresh, copied_from, bytes_at-take, whole_cluster}
use vidga_os.Fat32.File.Rounds.{to_go, read_rounds-ends, read_rounds-step, length-cluster_bytes}
use vidga_os.Shell.Commands.{cat_byte, cat_bytes, cat_loop}

-- What `cat` shows of a byte: a printable character, a new line, two spaces for a tab, and of any
-- other byte nothing.
abbrev pub show_byte : ℕ → ℕ → Screen → Screen
show_byte design b s =
    if leb 32 b && ltb b 127
    then print_msg_char b design s
    else if b == 10
    then print_msg (codes "\n") design s
    else if b == 9
    then print_msg (codes "  ") design s
    else s

unfoldable pub show : ℕ → List ℕ → Screen → Screen
show design [] s = s
show design (b ∷ bs) s = show design bs (show_byte design b s)

pub show-append :
    (design : ℕ) (bs cs : List ℕ) (s : Screen)
    → show design (bs ++ cs) s ≡ show design cs (show design bs s)
unfolding show
show-append design [] cs s = refl
show-append design (b ∷ bs) cs s = show-append design bs cs (show_byte design b s)

-- The handle after a call for 512 bytes that has copied `m`.
abbrev pub moved : FileSystem → (ℕ → List ℕ) → ℕ → OpenFile → OpenFile
moved fs stored m file = record file {
  cluster = next_of fs stored file.cluster;
  position = file.position + m;
  cluster_pos = if leb 512 m then 0 else m;
}

pub take-all : (n : ℕ) (xs : List ℕ) → length xs ≡ n → take n xs ≡ xs
take-all n xs e =
    subst (λ k. take k xs ≡ xs) e
      (sym (bytes_at-take (length xs) xs (omega arith)) ∙ whole_cluster xs)

module _ {D : Type 0} (design : ℕ) where
  cat_byte-show :
      (b : ℕ) (s : Kernel D)
      → cat_byte design b s ≡ ok tt (record s { screen = show_byte design b s.screen })
  unfolding cat_byte
  cat_byte-show b s = elim (Bool-cases (leb 32 b && ltb b 127)) [
    | inl shown ↦ rw shown refl
    | inr other ↦ elim (Bool-cases (b == 10)) [
      | inl line ↦ rw (other, line) refl
      | inr more ↦ elim (Bool-cases (b == 9)) [
        | inl tab ↦ rw (other, more, tab) refl
        | inr hidden ↦ rw (other, more, hidden) refl
      ]
    ]
  ]

  cat_bytes-show :
      (bs : List ℕ) (s : Kernel D)
      → cat_bytes design bs s ≡ ok tt (record s { screen = show design bs s.screen })
  unfolding cat_bytes show
  cat_bytes-show [] s = refl
  cat_bytes-show (b ∷ bs) s =
      rw (cat_byte-show b s) (cat_bytes-show bs (record s { screen = show_byte design b s.screen }))

module _ {D : Type 0} (dev : BlockDevice D) (size : ℕ) (sector : D → ℕ → List ℕ)
    (disk : IsDisk dev size sector) (fs : FileSystem) (stored : ℕ → List ℕ) (fuel design : ℕ) where
  -- A call at the end of the file.
  read-end :
      (file : OpenFile) (s : Kernel D)
      → file.file_size ≤ file.position
      → read dev (suc fuel) file 512 s ≡ ok (file, []) s
  unfolding read
  read-end file s h =
      let stop : goes_on 512 (fresh file) ≡ false = ground arith in
      rw (read_rounds-ends dev size sector disk fs stored (suc fuel) 512 (fresh file) s stop) refl

  -- A call at the start of a cluster.
  read-cluster :
      (file : OpenFile) (s : Kernel D) (n : ℕ)
      → FatFits fs size
      → fs.sectors_per_cluster ≡ 1
      → Holds sector fs stored s
      → Usable fs size file.cluster
      → is_eoc file.cluster ≡ false
      → file.cluster_pos ≡ 0
      → file.file_size < 2 ^ 32
      → file.position < file.file_size
      → n ≡ min 512 (file.file_size - file.position)
      → (t : Kernel D) × (read dev (suc fuel) file 512 s
          ≡ ok (moved fs stored n file, bytes_at (cluster_bytes fs stored file.cluster) 0 n) t)
        × SameDisk sector s t
  unfolding read
  read-cluster file s n fits one holds u live start f some_left e =
      let next = next_of fs stored file.cluster in
      let cluster = cluster_bytes fs stored file.cluster in
      let more : goes_on 512 (fresh file) ≡ true = ground arith in
      let (t, run, same) =
        read_rounds-step dev size sector disk fs stored fuel 512 (fresh file) s fits holds u live
          (start, omega arith, f, omega arith, omega arith) (omega arith) more in
      let whole : fs.sectors_per_cluster * 512 ≡ 512 = omega arith in
      let part : min 512 (to_go 512 (fresh file)) ≡ n = omega arith in
      let after : ℕ → ℕ → Type 0 = λ c m.
        read_rounds dev (suc fuel) 512 (fresh file) s
        ≡ read_rounds dev fuel 512 (copied_from c m next cluster (fresh file)) t in
      let run' : after 512 n =
        subst (λ m. after 512 m) part
          (subst (λ c. after c (min c (to_go 512 (fresh file)))) whole run) in
      let stop : goes_on 512 (copied_from 512 n next cluster (fresh file)) ≡ false = ground arith in
      rw
        (
          run',
          read_rounds-ends dev size sector disk fs stored fuel 512
              (copied_from 512 n next cluster (fresh file)) t stop,
        )
        (t, refl, same)

  pub cat_loop-end :
      (rounds : ℕ) (file : OpenFile) (total : ℕ) (s : Kernel D)
      → file.file_size ≤ file.position
      → cat_loop dev (suc fuel) design (suc rounds) file total s ≡ ok total s
  unfolding cat_loop
  cat_loop-end rounds file total s h = rw (read-end file s h) refl

  -- One round of the loop.
  pub cat_loop-round :
      (rounds : ℕ) (file : OpenFile) (total n : ℕ) (s : Kernel D)
      → FatFits fs size
      → fs.sectors_per_cluster ≡ 1
      → Holds sector fs stored s
      → Usable fs size file.cluster
      → is_eoc file.cluster ≡ false
      → file.cluster_pos ≡ 0
      → file.file_size < 2 ^ 32
      → file.position < file.file_size
      → n ≡ min 512 (file.file_size - file.position)
      → (t : Kernel D) × (cat_loop dev (suc fuel) design (suc rounds) file total s
          ≡ cat_loop dev (suc fuel) design rounds (moved fs stored n file) (u32 (total + n)) t)
        × Holds sector fs stored t
        × (t.screen ≡ show design (take n (cluster_bytes fs stored file.cluster)) s.screen)
  unfolding cat_loop
  cat_loop-round rounds file total n s fits one holds u live start f some_left e =
      let cluster = cluster_bytes fs stored file.cluster in
      let (t, run, same) = read-cluster file s n fits one holds u live start f some_left e in
      let len = length-bytes_at cluster 0 n in
      let shown : ltb 0 (length (bytes_at cluster 0 n)) ≡ true = ground (arith, len) in
      let full = length-cluster_bytes dev size sector disk fs stored file.cluster s holds in
      let first : bytes_at cluster 0 n ≡ take n cluster =
        bytes_at-take n cluster (omega (arith, full)) in
      rw (run, shown, cat_bytes-show, len)
        (
          record t { screen = show design (bytes_at cluster 0 n) t.screen },
          refl,
          Holds-SameDisk dev size sector disk fs stored holds same,
          ap₂ (show design) first same.same_screen,
        )
