-- ===== src/Shell/Commands/Showing.antt =====
-- What `cat` shows of a file on a drive that works, for clusters of one sector.
use vidga_os.Base.{
  ℕ, zero, suc, ◌+◌, ◌-◌, ◌*◌, ◌^◌, ◌≤◌, ◌<◌, ◌≡◌, refl, sym, ap, ◌∙◌, inl, inr, false, some, Text,
  List, [], ◌++◌, arith, leb, ltb, leb→le, ◌==◌, Bool-cases, length, take, All, u32, has_bit,
}
use mathlib.Core.Path.{subst}
use vidga_os.Kernel.{BlockDevice, FileSystem, Kernel, Run, ok}
use vidga_os.Fat32.Disk.{IsDisk, FatFits}
use vidga_os.Fat32.Table.Alloc.{next_of}
use vidga_os.Fat32.Cluster.Reads.{cluster_bytes}
use vidga_os.Fat32.Directory.Chains.{Chain, end_mark, link, Usable, Holds, Holds-SameDisk}
use vidga_os.Fat32.File.{handle_of, open_file, OpenFile}
use vidga_os.Fat32.File.Copying.{take-append_front, take-append}
use vidga_os.Fat32.File.Rounds.{length-cluster_bytes}
use vidga_os.Fat32.File.Contents.{contents}
use vidga_os.Fat32.Dirent.{Dirent, start_cluster}
use vidga_os.Fat32.Directory.{find_file}
use vidga_os.Fat32.Directory.Lookup.{live, first_named, directory, find_file-first_named}
use vidga_os.Shell.Commands.{cat, cat_loop, cat_open}
use vidga_os.Shell.Commands.Cat.{show, show-append, moved, take-all, cat_loop-end, cat_loop-round}

module _ {D : Type 0} (dev : BlockDevice D) (size : ℕ) (sector : D → ℕ → List ℕ)
    (disk : IsDisk dev size sector) (fs : FileSystem) (stored : ℕ → List ℕ) (fuel design : ℕ) where
  -- What the loop is to do: count the bytes that are left, show them, and leave the drive alone.
  abbrev pub Shows : ℕ → List ℕ → ℕ → Kernel D → Run D ℕ → Type 0
  Shows n bytes total s run =
      (t : Kernel D) × (run ≡ ok (u32 (total + n)) t)
      × Holds sector fs stored t
      × (t.screen ≡ show design (take n bytes) s.screen)

  nothing_left :
      (rounds : ℕ) (file : OpenFile) (bytes : List ℕ) (total : ℕ) (s : Kernel D)
      → file.file_size ≤ file.position
      → total < 2 ^ 32
      → Holds sector fs stored s
      → Shows
          (file.file_size - file.position)
          bytes
          total
          s
          (cat_loop dev (suc fuel) design (suc rounds) file total s)
  unfolding show
  nothing_left rounds file bytes total s h small holds =
      let zero_left : file.file_size - file.position ≡ 0 = omega arith in
      let count : total ≡ u32 (total + 0) = omega arith in
      rw zero_left (
        s,
        cat_loop-end dev size sector disk fs stored fuel design rounds file total s h
            ∙ ap (λ k. ok k s) count,
        holds,
        refl,
      )

  cat_loop-Shows :
      (rounds : ℕ) (file : OpenFile) {cs : List ℕ} (total : ℕ) (s : Kernel D)
      → FatFits fs size
      → fs.sectors_per_cluster ≡ 1
      → Chain (next_of fs stored) file.cluster cs
      → length cs < rounds
      → All (Usable fs size) cs
      → Holds sector fs stored s
      → file.cluster_pos ≡ 0
      → file.file_size < 2 ^ 32
      → file.file_size - file.position ≤ length cs * 512
      → total < 2 ^ 32
      → Shows
          (file.file_size - file.position)
          (contents fs stored cs)
          total
          s
          (cat_loop dev (suc fuel) design rounds file total s)
  unfolding contents
  cat_loop-Shows zero file total s fits one chain r u holds start f room small =
      absurd (omega arith)
  cat_loop-Shows (suc rounds) file total s fits one (end_mark mark) r u holds start f room small =
      nothing_left rounds file [] total s (omega arith) small holds
  cat_loop-Shows (suc zero) file total s fits one (link live rest) r u holds start f room small =
      absurd (omega arith)
  cat_loop-Shows (suc (suc rounds)) file total s fits one (link {cs = cs} live rest) r (u, us) holds
        start f room small =
      let left = file.file_size - file.position in
      let cluster = cluster_bytes fs stored file.cluster in
      let full : length cluster ≡ 512 =
        length-cluster_bytes dev size sector disk fs stored file.cluster s holds
        ∙ ap (λ k. k * 512) one in
      elim (Bool-cases (ltb file.position file.file_size)) [
        | inr none_left ↦ nothing_left (suc rounds) file _ total s (ground arith) small holds
        | inl some_left ↦ elim (Bool-cases (leb 512 left)) [
          | inl whole ↦
              let (t, run, holds', screen) =
                cat_loop-round dev size sector disk fs stored fuel design (suc rounds) file total
                  512 s fits one holds u live start f (ground arith) (ground arith) in
              let (t', run', holds'', screen') =
                cat_loop-Shows (suc rounds) (moved fs stored 512 file) (u32 (total + 512)) t fits
                  one rest (omega arith) us holds' refl f (ground arith) (omega arith) in
              let after = file.file_size - (file.position + 512) in
              let enough = leb→le 512 left whole in
              let split : left ≡ length cluster + after = omega (arith, full, enough) in
              let count : u32 (u32 (total + 512) + after) ≡ u32 (total + left) =
                omega (arith, split, full) in
              (
                t',
                run ∙ run' ∙ ap (λ k. ok k t') count,
                holds'',
                screen'
                    ∙ ap (show design (take after (contents fs stored cs))) screen
                    ∙ sym (
                        show-append design (take 512 cluster) (take after (contents fs stored cs))
                          s.screen)
                    ∙ ap (λ l. show design l s.screen)
                        (ap (λ l. l ++ take after (contents fs stored cs))
                            (take-all 512 cluster full)
                          ∙ sym (take-append left after cluster (contents fs stored cs) split)),
              )
          | inr part ↦
              let (t, run, holds', screen) =
                cat_loop-round dev size sector disk fs stored fuel design (suc rounds) file total
                  left s fits one holds u live start f (ground arith) (ground arith) in
              (
                t,
                run
                    ∙ cat_loop-end dev size sector disk fs stored fuel design rounds
                        (moved fs stored left file) (u32 (total + left)) t (omega arith),
                holds',
                screen
                    ∙ ap (λ l. show design l s.screen)
                        (sym (
                          take-append_front left cluster (contents fs stored cs)
                            (ground (arith, full)))),
              )
        ]
      ]

  -- The file once it is open.
  cat_open-Shows :
      (filename : Text) (file : OpenFile) {cs : List ℕ} (s : Kernel D)
      → FatFits fs size
      → fs.sectors_per_cluster ≡ 1
      → Chain (next_of fs stored) file.cluster cs
      → length cs < suc fuel
      → All (Usable fs size) cs
      → Holds sector fs stored s
      → file.cluster_pos ≡ 0
      → file.position ≡ 0
      → 0 < file.file_size
      → file.file_size < 2 ^ 32
      → file.file_size ≤ length cs * 512
      → (t : Kernel D) × (cat_open dev (suc fuel) design filename (some file) s ≡ ok tt t)
        × Holds sector fs stored t
        × (t.screen ≡ show design (take file.file_size (contents fs stored cs)) s.screen)
  unfolding cat_open
  cat_open-Shows filename file {cs = cs} s fits one chain r u holds start begin some_bytes f room =
      let n : file.file_size - file.position ≡ file.file_size = omega arith in
      let (t, run, holds', screen) =
        cat_loop-Shows (suc fuel) file 0 s fits one chain r u holds start f (omega arith)
          (omega arith) in
      let counted : (u32 (0 + (file.file_size - file.position)) == 0) ≡ false = ground arith in
      rw (run, counted)
        (
          t,
          refl,
          holds',
          screen ∙ ap (λ k. show design (take k (contents fs stored cs)) s.screen) n,
        )

  -- On a drive that works and holds the tables, with clusters of one sector: let the first live
  -- entry of the root directory that bears the name not be a directory, and its file be neither
  -- empty nor larger than the clusters that the table links from its first to an end mark; the
  -- clusters of file and directory fit the drive. With more fuel than there are clusters in the
  -- file and no less than there are in the directory, `cat` ends: it shows the bytes of the file in
  -- order, reports no error, and leaves what is stored on the drive as it is.
  pub cat-Shows :
      (filename : Text) (e : Dirent) {rs cs : List ℕ} (s : Kernel D)
      → FatFits fs size
      → fs.sectors_per_cluster ≡ 1
      → Holds sector fs stored s
      → Chain (next_of fs stored) fs.root_cluster rs
      → length rs ≤ suc fuel
      → All (Usable fs size) rs
      → first_named filename (live (directory fs stored rs)) ≡ some e
      → has_bit e.attributes 4 ≡ false
      → Chain (next_of fs stored) (start_cluster e) cs
      → length cs < suc fuel
      → All (Usable fs size) cs
      → 0 < e.file_size
      → e.file_size < 2 ^ 32
      → e.file_size ≤ length cs * 512
      → (t : Kernel D) × (cat dev (suc fuel) design filename s ≡ ok tt t)
        × Holds sector fs stored t
        × (t.screen ≡ show design (take e.file_size (contents fs stored cs)) s.screen)
  unfolding cat open_file
  cat-Shows filename e {rs = rs} {cs = cs} s fits one holds root rs_room rs_fit named plain chain r
        u some_bytes f room =
      let (t, found, same) =
        find_file-first_named dev size sector disk fs stored filename (suc fuel) fs.root_cluster s
          fits root rs_room rs_fit holds in
      let (t', run, holds', screen) =
        cat_open-Shows filename (handle_of e) t fits one chain r u
          (Holds-SameDisk dev size sector disk fs stored holds same) refl refl some_bytes f room in
      let found' =
        subst
          (λ f.
            find_file dev (suc fuel) f.root_cluster filename s
            ≡ ok (first_named filename (live (directory fs stored rs))) t)
          (sym holds.0) found in
      rw (found', named, plain, run)
        (
          t',
          refl,
          holds',
          screen ∙ ap (show design (take e.file_size (contents fs stored cs))) same.same_screen,
        )
