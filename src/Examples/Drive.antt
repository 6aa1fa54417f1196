-- ===== src/Examples/Drive.antt =====
-- A drive that works, as a function from sectors to their bytes, and a small file system on it.
use vidga_os.Base.{
  zero, suc, All, IsByte, ℕ, ◌^◌, ◌≡◌, refl, ◌∙◌, Bool, true, false, some, List, [], arith, ◌==◌,
  if◌then◌else◌, length, replicate, codes,
}
use vidga_os.Bytes.{put32, splice}
use vidga_os.Bytes.Laws.{length-put32, length-splice, All-put32, All-splice}
use vidga_os.Vga.{Screen}
use vidga_os.Kernel.{BlockDevice, BootSector, FileSystem, Kernel}
use vidga_os.Fat32.Disk.{IsDisk}
use vidga_os.Ata.Storing.{sent, length-sent, All-sent, sent_sector}
use vidga_os.Fat32.Dirent.Widths.{All-encode, new_entry-IsEntry}
use vidga_os.Fat32.Dirent.{encode, new_entry}

abbrev pub Sector : Type 0
Sector = (bytes : List ℕ) × (length bytes ≡ 512) × All IsByte bytes

abbrev pub Drive : Type 0
Drive = ℕ → Sector

abbrev pub stored : Drive → ℕ → List ℕ
stored d n = (d n).0

-- The 512 bytes that the words of a buffer carry.
abbrev pub normal : List ℕ → Sector
normal bytes = (sent 256 0 bytes, length-sent 256 0 bytes, All-sent 256 0 bytes)

abbrev pub ideal : BlockDevice Drive
ideal = record {
  read_sector = λ lba d. (some (d lba).0, d);
  write_sector = λ lba bytes d. (true, λ n. if n == lba then normal bytes else d n);
}

pub ideal-stores :
    (b : Bool) (bytes : List ℕ) (old : Sector)
    → length bytes ≡ 512
    → All IsByte bytes
    → (if b then normal bytes else old).0 ≡ (if b then bytes else old.0)
ideal-stores true bytes old h small = sent_sector bytes h small
ideal-stores false bytes old h small = refl

pub ideal-IsDisk : IsDisk ideal (2 ^ 28) stored
ideal-IsDisk = record {
  addressable = omega arith;
  length_sector = λ d n. (d n).1;
  bytes_sector = λ d n. (d n).2;
  read_ok = λ lba d h. refl;
  read_keeps = λ lba n d. refl;
  write_ok = λ lba bytes d h full. refl;
  write_stores = λ lba n bytes d h full small. ideal-stores (n == lba) bytes (d n) full small;
}

abbrev pub blank : List ℕ
blank = replicate 512 0

pub length-blank : length blank ≡ 512
length-blank = refl

All-replicate : (n : ℕ) → All IsByte (replicate n 0)
All-replicate zero = tt
All-replicate (suc n) = (omega arith, All-replicate n)

pub All-blank : All IsByte blank
All-blank = All-replicate 512

pub IsByte-letters : All IsByte (codes "NOTES.TXT")
IsByte-letters = ground arith

-- Cluster 2, the root directory, is the only one in use.
abbrev pub table : List ℕ
table = put32 blank 8 0x0FFFFFFF

-- The root directory holds one file.
abbrev pub root_bytes : List ℕ
root_bytes = splice blank 0 (encode (new_entry (codes "NOTES.TXT") 0x20 0))

abbrev boot : BootSector
boot = record {
  jmp = [];
  oem = [];
  bytes_per_sect = 512;
  sects_per_cluster = 1;
  reserved_sects = 1;
  num_fats = 2;
  max_root_entries = 0;
  total_sects_16 = 0;
  media_desc = 0xF8;
  sects_per_fat_16 = 0;
  sects_per_track = 0;
  num_heads = 0;
  hidden_sects = 0;
  total_sects_32 = 131;
  sects_per_fat = 1;
  ext_flags = 0;
  fs_version = 0;
  root_cluster = 2;
  fsinfo_sector = 0;
  backup_boot_sect = 0;
  reserved = [];
  drive_num = 0x80;
  reserved_1 = 0;
  boot_sig = 0x29;
  volume_id = 0;
  volume_label = [];
  fs_type = [];
}

abbrev pub fs : FileSystem
fs = record {
  boot_sector = boot;
  fat_start_sector = 1;
  data_start_sector = 3;
  root_cluster = 2;
  sectors_per_cluster = 1;
  bytes_per_sector = 512;
}

abbrev pub image : Drive
image n =
    if n == 1
    then (
      table,
      length-put32 blank 8 0x0FFFFFFF ∙ length-blank,
      All-put32 blank 8 0x0FFFFFFF All-blank,
    )
    else if n == 3
    then (
      root_bytes,
      length-splice blank (encode (new_entry (codes "NOTES.TXT") 0x20 0)) 0 ∙ length-blank,
      All-splice blank (encode (new_entry (codes "NOTES.TXT") 0x20 0)) 0 All-blank (
          All-encode (new_entry (codes "NOTES.TXT") 0x20 0)
            (new_entry-IsEntry (codes "NOTES.TXT") 0x20 0 IsByte-letters (omega arith))),
    )
    else (blank, length-blank, All-blank)

abbrev pub screen : Screen
screen = record { mem = λ a. 0; pos = 0; ports = [] }

abbrev pub started : Kernel Drive
started = record {
  drive = image;
  fs = fs;
  fat_buffer = blank;
  screen = screen;
  cwd = record { cluster = 2; path = codes "/" };
  rand_state = 1;
  pit_ticks = 42;
  keys = [];
}
