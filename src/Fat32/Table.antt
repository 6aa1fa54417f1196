-- ===== src/Fat32/Table.antt =====
-- The file allocation table: `is_eoc`, `fat32_get_next_cluster`, `fat32_alloc_cluster` and
-- `fat32_update_fat_entry` of src/kernel/fat32.c.
pub mod Copies
pub mod Entry
pub mod Alloc
use vidga_os.Base.{
  ℕ, zero, suc, ◌+◌, ◌-◌, ◌*◌, ◌/◌, ◌%◌, ◌^◌, Bool, true, false, Option, none, some, List, leb, ltb,
  ◌==◌, if◌then◌else◌, u32, low_bits,
}
use vidga_os.Bytes.{get32, put32}
use vidga_os.Kernel.{
  BlockDevice, FileSystem, Kernel, Run, ok, fault, out_of_fuel, Cmd, pure, ◌>>=◌, ◌>>◌, and_then,
  get_fs, read_sector, write_sector,
}

unfoldable pub is_eoc : ℕ → Bool
is_eoc cluster = leb 0x0FFFFFF8 cluster

-- `cluster * 4` of a `uint32_t`
abbrev pub fat_offset : ℕ → ℕ
fat_offset cluster = u32 (cluster * 4)

-- The sector of the first table that holds a cluster's entry.
abbrev pub fat_sector : FileSystem → ℕ → ℕ
fat_sector fs cluster = u32 (fs.fat_start_sector + fat_offset cluster / 512)

abbrev pub offset_in_sector : ℕ → ℕ
offset_in_sector cluster = fat_offset cluster % 512

-- A read into `fat32_buffer`; a failed read leaves it as it was.
abbrev pub keep_buffer : {D : Type 0} → Option (List ℕ) → Cmd D Bool
keep_buffer none s = ok false s
keep_buffer (some buf) s = ok true (record s { fat_buffer = buf })

-- `*(uint32_t *)(fat32_buffer + offset_in_sector) & 0x0FFFFFFF`
abbrev pub buffer_entry : {D : Type 0} → ℕ → Cmd D ℕ
buffer_entry cluster s = ok (low_bits (get32 s.fat_buffer (offset_in_sector cluster)) 28) s

module _ {D : Type 0} (dev : BlockDevice D) where
  unfoldable pub read_fat_buffer : ℕ → Cmd D Bool
  read_fat_buffer lba = read_sector dev lba >>= keep_buffer

  unfoldable pub get_next_cluster : ℕ → Cmd D ℕ
  get_next_cluster cluster = do
    fs ← get_fs
    done ← read_fat_buffer (fat_sector fs cluster)
    if done then buffer_entry cluster else pure 0xFFFFFFFF

  -- The loop of `fat32_alloc_cluster`, with `left` rounds to go.
  unfoldable pub alloc_loop : ℕ → ℕ → Cmd D ℕ
  alloc_loop zero cluster = pure 0
  alloc_loop (suc left) cluster =
      let rest = alloc_loop left (cluster + 1) in
      get_next_cluster cluster >>= λ next. if next == 0 then pure cluster else rest

  unfoldable pub alloc_cluster : Cmd D ℕ
  alloc_cluster = do fs ← get_fs; alloc_loop (u32 (fs.boot_sector.sects_per_fat * 512) / 4 - 2) 2

  unfoldable pub write_copy : ℕ → ℕ → Cmd D Bool
  write_copy fat_num sector s =
      write_sector dev (u32 (sector + fat_num * s.fs.boot_sector.sects_per_fat)) s.fat_buffer s

  -- The loop of `fat32_update_fat_entry` over the copies of the table.
  unfoldable pub write_copies : ℕ → ℕ → ℕ → Cmd D Bool
  write_copies zero fat_num sector = pure true
  write_copies (suc left) fat_num sector =
      let rest = write_copies left (fat_num + 1) sector in
      write_copy fat_num sector >>= λ done. if done then rest else pure false

  unfoldable pub change_entry : ℕ → ℕ → Cmd D (Unit {0})
  change_entry cluster next s =
      ok tt
        (record s { fat_buffer = put32 s.fat_buffer (offset_in_sector cluster) (low_bits next 28) })

  unfoldable pub update_fat_entry : ℕ → ℕ → Cmd D Bool
  update_fat_entry cluster next = do
    fs ← get_fs
    done ← read_fat_buffer (fat_sector fs cluster)
    if done
        then (do
          change_entry cluster next
          write_copies fs.boot_sector.num_fats 0 (fat_sector fs cluster))
        else pure false
