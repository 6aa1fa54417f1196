-- ===== src/Fat32/Directory.antt =====
-- The operations on directories: `fat32_find_file`, `create_dirent`, `fat32_mkdir`,
-- `fat32_create_file` and `fat32_delete` of src/kernel/fat32.c. The loop over a directory's
-- clusters runs on fuel.
pub mod Chains
pub mod Lookup
pub mod Creation
pub mod Named
pub mod Removal
use vidga_os.Base.{
  ℕ, zero, suc, ◌+◌, ◌-◌, ◌*◌, ◌/◌, ◌%◌, ◌^◌, Bool, true, false, not, ◌||◌, Option, none, some,
  List, [], ◌∷◌, ◌++◌, leb, ltb, ◌==◌, if◌then◌else◌, replicate, set, Text, u16, u32, shr, has_bit,
  codes,
}
use vidga_os.Bytes.{splice}
use vidga_os.Vga.{blue, light_red, vga_color}
use vidga_os.Kernel.{
  BlockDevice, FileSystem, Kernel, Run, ok, fault, out_of_fuel, Cmd, pure, on_option, ◌>>=◌, ◌>>◌,
  and_then, get_fs, print,
}
use vidga_os.Fat32.Dirent.{
  Dirent, decode, encode, first_byte, entry_name, new_entry, strcmp_83_eq, attr_directory,
  attr_archive, attr_long_name,
}
use vidga_os.Fat32.Table.{is_eoc, get_next_cluster, alloc_cluster, update_fat_entry}
use vidga_os.Fat32.Cluster.{read_cluster, write_cluster}

-- `(fat32_fs.sectors_per_cluster * 512) / 32`
abbrev pub entries_per_cluster : FileSystem → ℕ
entries_per_cluster fs = fs.sectors_per_cluster * 512 / 32

-- `entries[i]`
abbrev pub entry_at : List ℕ → ℕ → Dirent
entry_at data_bytes i = decode data_bytes (i * 32)

-- How the loop over the entries of one cluster ends: with a value to return, or at its end.
pub data Scan (A : Type 0) : Type 0 where
  stop : A → Scan A
  exhausted : Scan A

-- What follows the loop over one cluster.
abbrev pub on_scan : {D A B : Type 0} → Scan A → (A → Cmd D B) → Cmd D B → Cmd D B
on_scan (stop a) k rest = k a
on_scan exhausted k rest = rest

-- The entries that `fat32_find_file` passes over: deleted ones, parts of long names, labels.
abbrev pub is_skipped : Dirent → Bool
is_skipped e = (first_byte e == 0xE5 || e.attributes == attr_long_name) || has_bit e.attributes 3

-- The loop of `fat32_find_file` over the entries of a cluster, at index `i` with `left` to go.
unfoldable pub find_scan : Text → List ℕ → ℕ → ℕ → Scan (Option Dirent)
find_scan name data_bytes zero i = exhausted
find_scan name data_bytes (suc left) i =
    let e = entry_at data_bytes i in
    let rest = find_scan name data_bytes left (i + 1) in
    if first_byte e == 0
    then stop none
    else if is_skipped e
    then rest
    else if strcmp_83_eq (entry_name e) name
    then stop (some e)
    else rest

-- The loop of `fat32_delete`: the index of the entry that it marks.
unfoldable pub delete_scan : Text → List ℕ → ℕ → ℕ → Scan (Option ℕ)
delete_scan name data_bytes zero i = exhausted
delete_scan name data_bytes (suc left) i =
    let e = entry_at data_bytes i in
    let rest = delete_scan name data_bytes left (i + 1) in
    if first_byte e == 0
    then stop none
    else if first_byte e == 0xE5
    then rest
    else if strcmp_83_eq (entry_name e) name
    then stop (some i)
    else rest

-- The loop of `create_dirent`: the index of the first entry that is free.
unfoldable pub free_scan : List ℕ → ℕ → ℕ → Scan ℕ
free_scan data_bytes zero i = exhausted
free_scan data_bytes (suc left) i =
    let e = entry_at data_bytes i in
    let rest = free_scan data_bytes left (i + 1) in
    if first_byte e == 0 || first_byte e == 0xE5 then stop i else rest

-- An entry of a new directory that names a cluster: "." or "..", and zeros elsewhere.
unfoldable pub dot_entry : List ℕ → ℕ → Dirent
dot_entry filename cluster = record {
  filename = filename;
  extension = replicate 3 b' ';
  attributes = attr_directory;
  reserved = 0;
  creation_time_tenths = 0;
  creation_time = 0;
  creation_date = 0;
  access_date = 0;
  high_cluster = u16 (shr cluster 16);
  write_time = 0;
  write_date = 0;
  low_cluster = u16 cluster;
  file_size = 0;
}

-- The bytes of a new directory: `cluster_data` of `fat32_mkdir`.
unfoldable pub dot_entries : ℕ → ℕ → List ℕ
dot_entries new_cluster parent_cluster =
    splice (splice (replicate 4096 0) 0 (encode (dot_entry (codes ".       ") new_cluster))) 32
      (encode (dot_entry (codes "..      ") parent_cluster))

module _ {D : Type 0} (dev : BlockDevice D) where
  -- The outer loop of `fat32_find_file`.
  unfoldable pub find_file : ℕ → ℕ → Text → Cmd D (Option Dirent)
  find_file zero cluster name = if is_eoc cluster then pure none else (λ s. out_of_fuel)
  find_file (suc fuel) cluster name =
      if is_eoc cluster
      then pure none
      else (read_cluster dev cluster >>= λ r. on_option r (pure none) λ data_bytes. get_fs >>= λ fs.
          on_scan (find_scan name data_bytes (entries_per_cluster fs) 0) pure
            (get_next_cluster dev cluster >>= λ next. find_file fuel next name))

  -- What `fat32_delete` does with the entry that its loop has found.
  unfoldable pub mark_deleted : ℕ → List ℕ → Option ℕ → Cmd D Bool
  mark_deleted cluster data_bytes none = pure false
  mark_deleted cluster data_bytes (some i) =
      write_cluster dev cluster (set data_bytes (i * 32) 0xE5)

  -- The loop of `fat32_delete`.
  unfoldable pub delete : ℕ → ℕ → Text → Cmd D Bool
  delete zero cluster name = if is_eoc cluster then pure false else (λ s. out_of_fuel)
  delete (suc fuel) cluster name =
      if is_eoc cluster
      then pure false
      else (read_cluster dev cluster >>= λ r. on_option r (pure false) λ data_bytes.
          get_fs >>= λ fs.
          on_scan (delete_scan name data_bytes (entries_per_cluster fs) 0)
            (mark_deleted cluster data_bytes)
            (get_next_cluster dev cluster >>= λ next. delete fuel next name))

  -- The end of a round of `create_dirent`, when an entry is free.
  unfoldable pub fill_entry : ℕ → List ℕ → ℕ → Dirent → Cmd D Bool
  fill_entry cluster data_bytes i entry = do
    written ← write_cluster dev cluster (splice data_bytes (i * 32) (encode entry))
    if written then pure true else (do
      print (codes "FAT32: ERROR - Failed to write cluster\n") (vga_color light_red blue)
      pure false)

  -- The loop of `create_dirent`.
  unfoldable pub create_dirent : ℕ → ℕ → Text → ℕ → ℕ → Cmd D Bool
  create_dirent zero cluster name attr start =
      if is_eoc cluster then pure false else (λ s. out_of_fuel)
  create_dirent (suc fuel) cluster name attr start =
      if is_eoc cluster
      then pure false
      else (read_cluster dev cluster >>= λ r. on_option r (pure false) λ data_bytes.
          get_fs >>= λ fs.
          on_scan (free_scan data_bytes (entries_per_cluster fs) 0)
            (λ i. fill_entry cluster data_bytes i (new_entry name attr start))
            (get_next_cluster dev cluster >>= λ next. create_dirent fuel next name attr start))

  unfoldable pub create_file : ℕ → ℕ → Text → Cmd D Bool
  create_file fuel parent_cluster filename =
      create_dirent fuel parent_cluster filename attr_archive 0

  unfoldable pub mkdir : ℕ → ℕ → Text → Cmd D Bool
  mkdir fuel parent_cluster dirname = do
    new_cluster ← alloc_cluster dev
    if new_cluster == 0
        then (do print (codes "FAT32: No free clusters\n") (vga_color light_red blue); pure false)
        else (do
          linked ← update_fat_entry dev new_cluster 0x0FFFFFFF
          if linked
              then (do
                written ← write_cluster dev new_cluster (dot_entries new_cluster parent_cluster)
                if written
                    then create_dirent fuel parent_cluster dirname attr_directory new_cluster
                    else pure false)
              else pure false)
