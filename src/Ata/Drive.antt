-- ===== src/Ata/Drive.antt =====
-- An ATA drive in programmed transfers of one sector, as far as the driver of src/kernel/ata.c relies
-- on it, and a condition besides which the driver needs because it never tests BUSY.
use vidga_os.Base.{
  ℕ, ◌+◌, ◌-◌, ◌*◌, ◌/◌, ◌%◌, ◌<◌, ◌≡◌, Bool, true, false, List, [], ◌∷◌, ◌++◌, ◌==◌, if◌then◌else◌,
  length, All, IsByte, has_bit,
}
use vidga_os.Ports.{Bus}
use vidga_os.Ata.{
  data_port, sector_cnt, sector_num, cylinder_l, cylinder_h, drive_head, command_port,
  read_sectors_cmd, write_sectors_cmd, ready, data_ready, error, busy_bit, max_polls,
}

-- What a drive is doing: nothing; giving the bytes of a sector that are left; or taking those of
-- the sector with a number, after some of them.
pub data Phase : Type 0 where
  idle : Phase
  giving : List ℕ → Phase
  taking : ℕ → List ℕ → Phase

-- The registers that the driver writes, for how many polls the drive stays busy, what it is doing
-- and what it stores.
pub record View : Type 0 where
  pub count : ℕ
  pub low : ℕ
  pub mid : ℕ
  pub high : ℕ
  pub head : ℕ
  pub busy : ℕ
  pub phase : Phase
  pub stored : ℕ → List ℕ

-- The 28-bit address in the registers.
abbrev pub address : View → ℕ
address v = v.low + 256 * v.mid + 65536 * v.high + 16777216 * (v.head % 16)

abbrev pub wants_data : Phase → Bool
wants_data idle = false
wants_data (giving bytes) = true
wants_data (taking lba bytes) = true

-- What is left to give after some bytes.
abbrev pub after_giving : List ℕ → Phase
after_giving [] = idle
after_giving (b ∷ bs) = giving (b ∷ bs)

abbrev pub with_sector : (ℕ → List ℕ) → ℕ → List ℕ → ℕ → List ℕ
with_sector stored lba bytes n = if n == lba then bytes else stored n

-- Neither busy nor in a transfer. Only then does a drive take a register or a command.
abbrev pub IsFree : View → Type 0
IsFree v = (v.busy ≡ 0) × (v.phase ≡ idle)

-- A drive with a sector for every 28-bit address that is seldom busy and has no errors.
pub record IsAtaDrive {P : Type 0} (bus : Bus P) (view : P → View) : Type 0 where
  pub length_sector : (p : P) (n : ℕ) → length ((view p).stored n) ≡ 512
  pub bytes_sector : (p : P) (n : ℕ) → All IsByte ((view p).stored n)
  -- It is never busy for as many polls as the driver makes.
  pub patient : (p : P) → (view p).busy < max_polls
  -- While it is busy it shows BUSY, and each poll counts. Nothing is said of the other bits.
  pub busy_status :
      (p : P)
      → 0 < (view p).busy
      → (has_bit (bus.inb command_port p).0 busy_bit ≡ true)
        × (view (bus.inb command_port p).1 ≡ record (view p) { busy = (view p).busy - 1 })
  -- Then BUSY is clear, and it is ready without an error, and asks for data when it is to give or take some.
  pub free_status :
      (p : P)
      → (view p).busy ≡ 0
      → (has_bit (bus.inb command_port p).0 ready ≡ true)
        × (has_bit (bus.inb command_port p).0 data_ready ≡ wants_data (view p).phase)
        × (has_bit (bus.inb command_port p).0 error ≡ false)
        × (has_bit (bus.inb command_port p).0 busy_bit ≡ false)
        × (view (bus.inb command_port p).1 ≡ view p)
  -- A drive that is free takes values into its registers.
  pub set_count :
      (p : P) (v : ℕ)
      → IsFree (view p)
      → view (bus.outb sector_cnt v p) ≡ record (view p) { count = v }
  pub set_low :
      (p : P) (v : ℕ)
      → IsFree (view p)
      → view (bus.outb sector_num v p) ≡ record (view p) { low = v }
  pub set_mid :
      (p : P) (v : ℕ)
      → IsFree (view p)
      → view (bus.outb cylinder_l v p) ≡ record (view p) { mid = v }
  pub set_high :
      (p : P) (v : ℕ)
      → IsFree (view p)
      → view (bus.outb cylinder_h v p) ≡ record (view p) { high = v }
  pub set_head :
      (p : P) (v : ℕ)
      → IsFree (view p)
      → view (bus.outb drive_head v p) ≡ record (view p) { head = v }
  -- The commands for one sector, with a block address and for the first drive.
  pub start_read :
      (p : P)
      → IsFree (view p)
      → (view p).count ≡ 1
      → (view p).head / 16 ≡ 14
      → (b : ℕ) × (view (bus.outb command_port read_sectors_cmd p)
          ≡ record (view p) { busy = b; phase = giving ((view p).stored (address (view p))) })
  pub start_write :
      (p : P)
      → IsFree (view p)
      → (view p).count ≡ 1
      → (view p).head / 16 ≡ 14
      → (b : ℕ) × (view (bus.outb command_port write_sectors_cmd p)
          ≡ record (view p) { busy = b; phase = taking (address (view p)) [] })
  -- Two bytes at a time pass through the data port, the first in the low half of a word.
  pub give_word :
      (p : P) (lo hi : ℕ) (rest : List ℕ)
      → (view p).busy ≡ 0
      → (view p).phase ≡ giving (lo ∷ hi ∷ rest)
      → ((bus.inw data_port p).0 ≡ lo + 256 * hi)
        × (view (bus.inw data_port p).1 ≡ record (view p) { phase = after_giving rest })
  pub take_word :
      (p : P) (lba word : ℕ) (got : List ℕ)
      → (view p).busy ≡ 0
      → (view p).phase ≡ taking lba got
      → word < 65536
      → length got + 2 < 512
      → view (bus.outw data_port word p)
        ≡ record (view p) { phase = taking lba (got ++ (word % 256) ∷ (word / 256) ∷ []) }
  -- With the last word the sector is stored.
  pub take_last :
      (p : P) (lba word : ℕ) (got : List ℕ)
      → (view p).busy ≡ 0
      → (view p).phase ≡ taking lba got
      → word < 65536
      → length got + 2 ≡ 512
      → All IsByte got
      → (b : ℕ) × (view (bus.outw data_port word p) ≡ record (view p) {
        busy = b;
        phase = idle;
        stored = with_sector (view p).stored lba (got ++ (word % 256) ∷ (word / 256) ∷ []);
      })

-- A drive that besides shows neither DRDY nor DRQ while it shows BUSY, which IsAtaDrive leaves open.
-- The driver needs it because it polls for those two bits and never tests BUSY. For DRDY that is
-- no more than a restriction to some drives: the ATA standard calls the other bits of the status
-- invalid while BUSY is set, and a drive may well show DRDY then.
pub record ClearsWhileBusy {P : Type 0} (bus : Bus P) (view : P → View) : Type 0 where
  pub clear :
      (p : P)
      → 0 < (view p).busy
      → (has_bit (bus.inb command_port p).0 ready ≡ false)
        × (has_bit (bus.inb command_port p).0 data_ready ≡ false)
