-- ===== src/Fat32/Boot.antt =====
-- `fat32_init` and `fat32_read_boot_sector` of src/kernel/fat32.c.
use vidga_os.Base.{
  ℕ, ◌+◌, ◌*◌, Bool, true, false, Option, none, some, List, ◌==◌, not, if◌then◌else◌, get_or, u32,
  codes,
}
use vidga_os.Bytes.{get16, get32, bytes_at}
use vidga_os.Vga.{blue, light_red, light_green, vga_color}
use vidga_os.Kernel.{
  BlockDevice, BootSector, FileSystem, ok, Cmd, pure, ◌>>=◌, ◌>>◌, print, read_sector,
}

-- `(fat32_boot_sector_t *)buffer`
unfoldable pub decode_boot : List ℕ → BootSector
decode_boot buf = record {
  jmp = bytes_at buf 0x00 3;
  oem = bytes_at buf 0x03 8;
  bytes_per_sect = get16 buf 0x0B;
  sects_per_cluster = get_or buf 0x0D 0;
  reserved_sects = get16 buf 0x0E;
  num_fats = get_or buf 0x10 0;
  max_root_entries = get16 buf 0x11;
  total_sects_16 = get16 buf 0x13;
  media_desc = get_or buf 0x15 0;
  sects_per_fat_16 = get16 buf 0x16;
  sects_per_track = get16 buf 0x18;
  num_heads = get16 buf 0x1A;
  hidden_sects = get32 buf 0x1C;
  total_sects_32 = get32 buf 0x20;
  sects_per_fat = get32 buf 0x24;
  ext_flags = get16 buf 0x28;
  fs_version = get16 buf 0x2A;
  root_cluster = get32 buf 0x2C;
  fsinfo_sector = get16 buf 0x30;
  backup_boot_sect = get16 buf 0x32;
  reserved = bytes_at buf 0x34 12;
  drive_num = get_or buf 0x40 0;
  reserved_1 = get_or buf 0x41 0;
  boot_sig = get_or buf 0x42 0;
  volume_id = get32 buf 0x43;
  volume_label = bytes_at buf 0x47 11;
  fs_type = bytes_at buf 0x52 8;
}

-- `fat32_fs` as it is filled from a boot sector.
unfoldable pub mount : BootSector → FileSystem
mount boot = record {
  boot_sector = boot;
  fat_start_sector = boot.reserved_sects;
  data_start_sector = u32 (boot.reserved_sects + boot.num_fats * boot.sects_per_fat);
  root_cluster = if boot.root_cluster == 0 then 2 else boot.root_cluster;
  sectors_per_cluster = boot.sects_per_cluster;
  bytes_per_sector = boot.bytes_per_sect;
}

module _ {D : Type 0} where
  abbrev pub set_fs : FileSystem → Cmd D (Unit {0})
  set_fs fs s = ok tt (record s { fs = fs })

  -- What `fat32_read_boot_sector` does with the result of its read.
  unfoldable pub check_boot : Option (List ℕ) → Cmd D Bool
  check_boot none = do
    print (codes "FAT32: Failed to read boot sector\n") (vga_color light_red blue)
    pure false
  check_boot (some buf) =
      if not (get16 buf 0x0B == 512)
      then (do print (codes "FAT32: Invalid sector size\n") (vga_color light_red blue); pure false)
      else (do
        set_fs (mount (decode_boot buf))
        print (codes "FAT32: Initialized successfully\n") (vga_color light_green blue)
        pure true)

unfoldable pub read_boot_sector : {D : Type 0} → BlockDevice D → Cmd D Bool
read_boot_sector dev = read_sector dev 0 >>= check_boot

unfoldable pub fat32_init : {D : Type 0} → BlockDevice D → Cmd D Bool
fat32_init dev = read_boot_sector dev
