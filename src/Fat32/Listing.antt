-- ===== src/Fat32/Listing.antt =====
-- `fat32_list_dir` of src/kernel/fat32.c.
use vidga_os.Base.{
  ℕ, zero, suc, ◌+◌, Bool, true, false, not, ◌||◌, ◌&&◌, none, some, List, [], ◌∷◌, leb, ltb, ◌==◌,
  if◌then◌else◌, get_or, has_bit, codes,
}
use vidga_os.Vga.{blue, white, vga_color}
use vidga_os.Kernel.{
  BlockDevice, ok, out_of_fuel, Cmd, pure, ◌>>=◌, ◌>>◌, and_then, get_fs, print, print_char,
}
use vidga_os.Fat32.Dirent.{Dirent, first_byte, until_space}
use vidga_os.Fat32.Table.{is_eoc, get_next_cluster}
use vidga_os.Fat32.Cluster.{read_cluster}
use vidga_os.Fat32.Directory.{entry_at, entries_per_cluster, is_skipped}

-- The entries that are passed over: those of `fat32_find_file`, "." and "..", and entries that
-- are neither directories nor archived files.
abbrev pub is_hidden : Dirent → Bool
is_hidden e =
    (is_skipped e || first_byte e == b'.') || not (has_bit e.attributes 4 || has_bit e.attributes 5)

abbrev pub is_printable : ℕ → Bool
is_printable c = leb 32 c && ltb c 127

module _ {D : Type 0} where
  -- The printable characters of a field, and whether there was one.
  unfoldable pub print_field : List ℕ → ℕ → Bool → Cmd D Bool
  print_field [] color valid s = ok valid s
  print_field (c ∷ cs) color valid s = elim (is_printable c) [
    | true ↦ and_then (print_char c color s) (λ _. print_field cs color true)
    | false ↦ print_field cs color valid s
  ]

  unfoldable pub print_extension : Dirent → ℕ → Cmd D (Unit {0})
  print_extension e color =
      if get_or e.extension 0 0 == b' '
      then pure tt
      else (do print (codes ".") color; print_field (until_space e.extension) color false; pure tt)

  -- The end of a round for an entry that is shown: the new value of `found`.
  unfoldable pub print_entry : Dirent → ℕ → ℕ → Cmd D ℕ
  print_entry e color found = do
    print (codes "+-- ") color
    valid ← print_field (until_space e.filename) color false
    if not valid then pure found else (do
      print_extension e color
      (if has_bit e.attributes 4 then print (codes "/") color else pure tt)
      print (codes "\n") color
      pure (found + 1))

  -- The loop over the entries of a cluster: whether it has met the end of the directory, and
  -- `found`.
  unfoldable pub list_scan : List ℕ → ℕ → ℕ → ℕ → ℕ → Cmd D (Bool × ℕ)
  list_scan data_bytes color zero i found s = ok (false, found) s
  list_scan data_bytes color (suc left) i found s =
      let e = entry_at data_bytes i in
      elim (first_byte e == 0) [
        | true ↦ ok (true, found) s
        | false ↦ elim (is_hidden e) [
          | true ↦ list_scan data_bytes color left (i + 1) found s
          | false ↦
              and_then (print_entry e color found s)
                (λ n. list_scan data_bytes color left (i + 1) n)
        ]
      ]

module _ {D : Type 0} (dev : BlockDevice D) where
  unfoldable pub list_loop : ℕ → ℕ → ℕ → ℕ → Cmd D ℕ
  list_loop zero color cluster found = elim (is_eoc cluster) [
    | true ↦ pure found
    | false ↦ (λ s. out_of_fuel)
  ]
  list_loop (suc fuel) color cluster found = elim (is_eoc cluster) [
    | true ↦ pure found
    | false ↦ read_cluster dev cluster >>= λ r. elim r [
      | none ↦ pure found
      | some data_bytes ↦ get_fs >>= λ fs.
          list_scan data_bytes color (entries_per_cluster fs) 0 found >>= λ p. elim p.0 [
            | true ↦ pure p.1
            | false ↦ get_next_cluster dev cluster >>= λ next. list_loop fuel color next p.1
          ]
    ]
  ]

  unfoldable pub list_dir : ℕ → ℕ → Cmd D ℕ
  list_dir fuel cluster = list_loop fuel (vga_color white blue) cluster 0
