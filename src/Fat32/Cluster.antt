-- ===== src/Fat32/Cluster.antt =====
-- `read_cluster`, `fat32_write_cluster` and `fat32_write_dirent` of src/kernel/fat32.c.
pub mod Reads
pub mod Writes
use vidga_os.Base.{
  ℕ, zero, suc, ◌+◌, ◌-◌, ◌*◌, ◌/◌, ◌%◌, ◌^◌, Bool, true, false, Option, none, some, List, [], ◌++◌,
  leb, ltb, if◌then◌else◌, u32, sub32,
}
use vidga_os.Bytes.{splice, bytes_at}
use vidga_os.Kernel.{
  BlockDevice, FileSystem, Kernel, Run, ok, fault, out_of_fuel, Cmd, pure, on_option, ◌>>=◌, ◌>>◌,
  and_then, get_fs, read_sector, write_sector,
}
use vidga_os.Fat32.Dirent.{Dirent, encode}

-- The sectors for which a buffer of 4096 bytes has room.
abbrev pub buffer_sectors : ℕ
buffer_sectors = 8

-- The first sector of a cluster.
unfoldable pub cluster_sector : FileSystem → ℕ → ℕ
cluster_sector fs cluster = u32 (fs.data_start_sector + sub32 cluster 2 * fs.sectors_per_cluster)

-- What a round of the loop of `read_cluster` adds in front of the bytes of the later rounds.
abbrev pub prepend : {D : Type 0} → List ℕ → Option (List ℕ) → Cmd D (Option (List ℕ))
prepend bytes none = pure none
prepend bytes (some rest) = pure (some (bytes ++ rest))

module _ {D : Type 0} (dev : BlockDevice D) where
  -- The loop of `read_cluster` at index `i`, with `left` rounds to go. The caller's buffer has
  -- room for eight sectors: to store a ninth is a fault.
  unfoldable pub read_loop : ℕ → ℕ → ℕ → Cmd D (Option (List ℕ))
  read_loop zero i sector = pure (some [])
  read_loop (suc left) i sector =
      let rest = read_loop left (i + 1) sector in
      read_sector dev (u32 (sector + i)) >>= λ r.
      on_option r (pure none)
        λ bytes. if leb buffer_sectors i then (λ s. fault) else (rest >>= prepend bytes)

  unfoldable pub read_cluster : ℕ → Cmd D (Option (List ℕ))
  read_cluster cluster = do
    fs ← get_fs
    read_loop fs.sectors_per_cluster 0 (cluster_sector fs cluster)

  -- The loop of `fat32_write_cluster`; to read a ninth sector of the caller's buffer is a fault.
  unfoldable pub write_loop : ℕ → ℕ → ℕ → List ℕ → Cmd D Bool
  write_loop zero i sector data_bytes = pure true
  write_loop (suc left) i sector data_bytes =
      let rest = write_loop left (i + 1) sector data_bytes in
      if leb buffer_sectors i
      then (λ s. fault)
      else (write_sector dev (u32 (sector + i)) (bytes_at data_bytes (i * 512) 512) >>= λ done.
          if done then rest else pure false)

  unfoldable pub write_cluster : ℕ → List ℕ → Cmd D Bool
  write_cluster cluster data_bytes = do
    fs ← get_fs
    write_loop fs.sectors_per_cluster 0 (cluster_sector fs cluster) data_bytes

  -- What `fat32_write_dirent` does with the result of its read: an entry behind the buffer's
  -- 128 entries is a fault.
  unfoldable pub write_entry : ℕ → ℕ → Dirent → Option (List ℕ) → Cmd D Bool
  write_entry cluster offset entry none = pure false
  write_entry cluster offset entry (some data_bytes) =
      if ltb offset 128
      then write_cluster cluster (splice data_bytes (offset * 32) (encode entry))
      else λ s. fault

  unfoldable pub write_dirent : ℕ → ℕ → Dirent → Cmd D Bool
  write_dirent cluster offset entry = read_cluster cluster >>= write_entry cluster offset entry
