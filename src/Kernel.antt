-- ===== src/Kernel.antt =====
-- The state that src/kernel/fat32.c and src/kernel/vfs.c share, and commands on it: the drive
-- behind the ATA functions, the static variables of the two files, and the screen.
use vidga_os.Base.{ℕ, Bool, Option, none, some, List, [], ◌∷◌, Text}
use vidga_os.Vga.{Screen, print_msg, print_msg_char, print_msg_num}
use vidga_os.Rand.{srand, rand_range}

-- `ata_read_sector(lba, buffer)` and `ata_write_sectors(lba, 1, buffer)`, on a drive whose state
-- is a `D`. A read gives the 512 bytes that it stores, or `none` for a result of 0, with which
-- no byte is stored.
pub record BlockDevice (D : Type 0) : Type 0 where
  pub read_sector : ℕ → D → Option (List ℕ) × D
  pub write_sector : ℕ → List ℕ → D → Bool × D

-- `fat32_boot_sector_t`
pub record BootSector : Type 0 where
  pub jmp : List ℕ
  pub oem : List ℕ
  pub bytes_per_sect : ℕ
  pub sects_per_cluster : ℕ
  pub reserved_sects : ℕ
  pub num_fats : ℕ
  pub max_root_entries : ℕ
  pub total_sects_16 : ℕ
  pub media_desc : ℕ
  pub sects_per_fat_16 : ℕ
  pub sects_per_track : ℕ
  pub num_heads : ℕ
  pub hidden_sects : ℕ
  pub total_sects_32 : ℕ
  pub sects_per_fat : ℕ
  pub ext_flags : ℕ
  pub fs_version : ℕ
  pub root_cluster : ℕ
  pub fsinfo_sector : ℕ
  pub backup_boot_sect : ℕ
  pub reserved : List ℕ
  pub drive_num : ℕ
  pub reserved_1 : ℕ
  pub boot_sig : ℕ
  pub volume_id : ℕ
  pub volume_label : List ℕ
  pub fs_type : List ℕ

-- `fat32_fs_t`
pub record FileSystem : Type 0 where
  pub boot_sector : BootSector
  pub fat_start_sector : ℕ
  pub data_start_sector : ℕ
  pub root_cluster : ℕ
  pub sectors_per_cluster : ℕ
  pub bytes_per_sector : ℕ

-- `vfs_cwd_t`
pub record WorkingDir : Type 0 where
  pub cluster : ℕ
  pub path : Text

-- `fat32_fs`, `fat32_buffer` and `vfs_cwd`, with the drive and the screen; `rand_state` and
-- `pit_ticks`; and the characters that `keyboard_getchar` will give.
pub record Kernel (D : Type 0) : Type 0 where
  pub drive : D
  pub fs : FileSystem
  pub fat_buffer : List ℕ
  pub screen : Screen
  pub cwd : WorkingDir
  pub rand_state : ℕ
  pub pit_ticks : ℕ
  pub keys : List ℕ

-- `fault` is an access outside an array, which C leaves undefined; `out_of_fuel` is a loop that
-- has not ended in the rounds given; `waiting` is a wait for a key that does not come.
pub data Run (D A : Type 0) : Type 0 where
  ok : A → Kernel D → Run D A
  fault : Run D A
  out_of_fuel : Run D A
  waiting : Run D A

abbrev pub Cmd : Type 0 → Type 0 → Type 0
Cmd D A = Kernel D → Run D A

module _ {D : Type 0} where
  abbrev pub pure : {A : Type 0} → A → Cmd D A
  pure a s = ok a s

  abbrev pub and_then : {A B : Type 0} → Run D A → (A → Cmd D B) → Run D B
  and_then (ok a s) k = k a s
  and_then fault k = fault
  and_then out_of_fuel k = out_of_fuel
  and_then waiting k = waiting

  infixl 5 ◌>>=◌ ◌>>◌
  abbrev pub ◌>>=◌ : {A B : Type 0} → Cmd D A → (A → Cmd D B) → Cmd D B
  m >>= k = λ s. and_then (m s) k

  abbrev pub ◌>>◌ : {A B : Type 0} → Cmd D A → Cmd D B → Cmd D B
  m >> n = m >>= λ _. n

  -- What follows a call that may give nothing.
  abbrev pub on_option : {A B : Type 0} → Option A → Cmd D B → (A → Cmd D B) → Cmd D B
  on_option none m k = m
  on_option (some a) m k = k a

  abbrev pub get_fs : Cmd D FileSystem
  get_fs s = ok s.fs s

  abbrev pub get_cwd : Cmd D WorkingDir
  get_cwd s = ok s.cwd s

  abbrev pub print : Text → ℕ → Cmd D (Unit {0})
  print msg color s = ok tt (record s { screen = print_msg msg color s.screen })

  abbrev pub print_char : ℕ → ℕ → Cmd D (Unit {0})
  print_char c color s = ok tt (record s { screen = print_msg_char c color s.screen })

  abbrev pub next_key : List ℕ → Cmd D ℕ
  next_key [] s = waiting
  next_key (c ∷ cs) s = ok c (record s { keys = cs })

  -- `keyboard_getchar`
  abbrev pub read_key : Cmd D ℕ
  read_key s = next_key s.keys s

  abbrev pub print_num : ℕ → ℕ → Cmd D (Unit {0})
  print_num num color s = ok tt (record s { screen = print_msg_num num color s.screen })

  -- `srand(pit_ticks)`
  abbrev pub reseed : Cmd D (Unit {0})
  reseed s = ok tt (record s { rand_state = srand s.pit_ticks })

  -- `rand_range(min, max)`
  abbrev pub draw : ℕ → ℕ → Cmd D ℕ
  draw min max s =
      ok (rand_range min max s.rand_state).1
        (record s { rand_state = (rand_range min max s.rand_state).0 })

module _ {D : Type 0} (dev : BlockDevice D) where
  -- `ata_read_sector` into a local buffer
  abbrev pub read_sector : ℕ → Cmd D (Option (List ℕ))
  read_sector lba s =
      ok (dev.read_sector lba s.drive).0 (record s { drive = (dev.read_sector lba s.drive).1 })

  abbrev pub write_sector : ℕ → List ℕ → Cmd D Bool
  write_sector lba bytes s =
      ok (dev.write_sector lba bytes s.drive).0
        (record s { drive = (dev.write_sector lba bytes s.drive).1 })
