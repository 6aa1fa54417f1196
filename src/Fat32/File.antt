-- ===== src/Fat32/File.antt =====
-- `fat32_open`, `fat32_read` and `fat32_close` of src/kernel/fat32.c.
pub mod Copying
pub mod Rounds
pub mod Contents
use vidga_os.Base.{
  ℕ, Bool, zero, suc, ◌+◌, ◌*◌, min, true, false, ◌&&◌, Option, none, some, List, [], ◌++◌, leb,
  ltb, ◌==◌, if◌then◌else◌, Text, u32, sub32, has_bit,
}
use vidga_os.Bytes.{bytes_at}
use vidga_os.Kernel.{BlockDevice, fault, out_of_fuel, Cmd, pure, on_option, ◌>>=◌, get_fs}
use vidga_os.Fat32.Dirent.{Dirent, start_cluster}
use vidga_os.Fat32.Table.{is_eoc, get_next_cluster}
use vidga_os.Fat32.Cluster.{read_cluster}
use vidga_os.Fat32.Directory.{find_file}

-- `fat32_file_t`
pub record OpenFile : Type 0 where
  pub cluster : ℕ
  pub position : ℕ
  pub file_size : ℕ
  pub cluster_pos : ℕ

abbrev pub handle_of : Dirent → OpenFile
handle_of e = record {
  cluster = start_cluster e;
  position = 0;
  file_size = e.file_size;
  cluster_pos = 0;
}

abbrev pub open_entry : Option Dirent → Option OpenFile
open_entry none = none
open_entry (some e) = if has_bit e.attributes 4 then none else some (handle_of e)

-- The local variables of `fat32_read`: the bytes copied so far, and `cluster_data`, which is
-- `none` until a cluster has been read into it.
pub record Reading : Type 0 where
  pub file : OpenFile
  pub copied : List ℕ
  pub bytes_read : ℕ
  pub cluster_data : Option (List ℕ)

abbrev pub to_copy : ℕ → ℕ → Reading → ℕ
to_copy cluster_size size r =
    min (min (sub32 cluster_size r.file.cluster_pos) (sub32 size r.bytes_read))
      (sub32 r.file.file_size r.file.position)

-- The end of a round. To read a byte of `cluster_data` before it is written is a fault.
unfoldable pub copy_round : ℕ → ℕ → Reading → Option Reading
copy_round cluster_size size r =
    let n = to_copy cluster_size size r in
    let pos = u32 (r.file.cluster_pos + n) in
    let file' = record r.file {
      position = u32 (r.file.position + n);
      cluster_pos = if leb cluster_size pos then 0 else pos;
    } in
    if n == 0 then some (record r { file = file' }) else elim r.cluster_data [
      | none ↦ none
      | some bytes ↦ some (record r {
        file = file';
        copied = r.copied ++ bytes_at bytes r.file.cluster_pos n;
        bytes_read = u32 (r.bytes_read + n);
      })
    ]

-- The condition of the loop.
abbrev pub goes_on : ℕ → Reading → Bool
goes_on size r = ltb r.bytes_read size && ltb r.file.position r.file.file_size

module _ {D : Type 0} (dev : BlockDevice D) where
  unfoldable pub open_file : ℕ → Text → Cmd D (Option OpenFile)
  open_file fuel filename = do
    fs ← get_fs
    found ← find_file dev fuel fs.root_cluster filename
    pure (open_entry found)

  -- The part of a round that is done at the start of a cluster; `none` stands for `break`.
  unfoldable pub load_cluster : Reading → Cmd D (Option Reading)
  load_cluster r =
      if r.file.cluster_pos == 0
      then (if is_eoc r.file.cluster
          then pure none
          else read_cluster dev r.file.cluster >>= λ bytes. on_option bytes (pure none) λ b. do
            next ← get_next_cluster dev r.file.cluster
            pure (
                some (record r { file = record r.file { cluster = next }; cluster_data = some b })))
      else pure (some r)

  unfoldable pub read_rounds : ℕ → ℕ → Reading → Cmd D Reading
  read_rounds zero size r = if goes_on size r then (λ s. out_of_fuel) else pure r
  read_rounds (suc fuel) size r =
      let rest = read_rounds fuel size in
      if goes_on size r
      then (load_cluster r >>= λ loaded. on_option loaded (pure r) λ r'. get_fs >>= λ fs.
          on_option (copy_round (fs.sectors_per_cluster * 512) size r') (λ s. fault) rest)
      else pure r

  -- The new handle, and the bytes that are stored in the caller's buffer.
  unfoldable pub read : ℕ → OpenFile → ℕ → Cmd D (OpenFile × List ℕ)
  read fuel file size =
      read_rounds fuel size
        (record { file = file; copied = []; bytes_read = 0; cluster_data = none })
      >>= λ r. pure (r.file, r.copied)
