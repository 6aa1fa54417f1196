-- ===== src/Ata.antt =====
-- The ATA driver of src/kernel/ata.c, on a bus of ports.
pub mod Drive
pub mod Transfer
pub mod Storing
pub mod Disk
pub mod Errors
use vidga_os.Base.{
  ℕ, zero, suc, ◌+◌, ◌-◌, ◌*◌, ◌/◌, ◌%◌, ◌^◌, Bool, true, false, not, Option, none, some, List, [],
  ◌∷◌, ◌++◌, if◌then◌else◌, get_or, u8, u16, shr, low_bits, has_bit,
}
use vidga_os.Ports.{Bus}
use vidga_os.Kernel.{BlockDevice}

-- The ports of src/kernel/ata.h.
abbrev pub data_port : ℕ
data_port = 0x1F0

abbrev pub sector_cnt : ℕ
sector_cnt = 0x1F2

abbrev pub sector_num : ℕ
sector_num = 0x1F3

abbrev pub cylinder_l : ℕ
cylinder_l = 0x1F4

abbrev pub cylinder_h : ℕ
cylinder_h = 0x1F5

abbrev pub drive_head : ℕ
drive_head = 0x1F6

-- The command register, which reads as the status.
abbrev pub command_port : ℕ
command_port = 0x1F7

abbrev pub read_sectors_cmd : ℕ
read_sectors_cmd = 0x20

abbrev pub write_sectors_cmd : ℕ
write_sectors_cmd = 0x30

-- The numbers of the status bits ATA_STATUS_READY, ATA_STATUS_DATA_READY and ATA_STATUS_ERROR.
abbrev pub ready : ℕ
ready = 6

-- ATA_STATUS_BUSY, which the driver does not test.
abbrev pub busy_bit : ℕ
busy_bit = 7

abbrev pub data_ready : ℕ
data_ready = 3

abbrev pub error : ℕ
error = 0

abbrev pub max_polls : ℕ
max_polls = 100000

-- What a round adds in front of the bytes of the later rounds.
abbrev pub join : {P : Type 0} → List ℕ → Option (List ℕ) × P → Option (List ℕ) × P
join bytes (none, p) = (none, p)
join bytes (some rest, p) = (some (bytes ++ rest), p)

module _ {P : Type 0} (bus : Bus P) where
  -- The loop of `ata_poll_status`, with `left` rounds to go after this one.
  unfoldable pub poll_loop : ℕ → ℕ → P → ℕ × P
  poll_loop zero bit p = bus.inb command_port p
  poll_loop (suc left) bit p =
      let rest = poll_loop left bit (bus.inb command_port p).1 in
      if has_bit (bus.inb command_port p).0 bit then bus.inb command_port p else rest

  unfoldable pub poll_status : ℕ → P → ℕ × P
  poll_status bit p = poll_loop (max_polls - 1) bit p

  unfoldable pub wait_ready : P → Bool × P
  wait_ready p = (not (has_bit (poll_status ready p).0 error), (poll_status ready p).1)

  unfoldable pub ata_init : P → P
  ata_init p = (wait_ready (bus.outb drive_head 0xE0 p)).1

  -- The number of sectors, the address and the command.
  unfoldable pub send_command : ℕ → ℕ → ℕ → P → P
  send_command lba count cmd p =
      let p1 = bus.outb sector_cnt count p in
      let p2 = bus.outb sector_num (u8 lba) p1 in
      let p3 = bus.outb cylinder_l (u8 (shr lba 8)) p2 in
      let p4 = bus.outb cylinder_h (u8 (shr lba 16)) p3 in
      let p5 = bus.outb drive_head (0xE0 + low_bits (shr lba 24) 4) p4 in
      bus.outb command_port cmd p5

  -- The loop over the words of a sector, with `left` to go.
  unfoldable pub read_words : ℕ → P → List ℕ × P
  read_words zero p = ([], p)
  read_words (suc left) p =
      let word = (bus.inw data_port p).0 in
      let rest = read_words left (bus.inw data_port p).1 in
      (u8 word ∷ u8 (shr word 8) ∷ rest.0, rest.1)

  -- The loop over the sectors; `none` stands for the result 0.
  unfoldable pub read_loop : ℕ → P → Option (List ℕ) × P
  read_loop zero p = (some [], p)
  read_loop (suc left) p =
      let poll = poll_status data_ready p in
      let words = read_words 256 poll.1 in
      let rest = read_loop left words.1 in
      if has_bit poll.0 error then (none, poll.1) else join words.0 rest

  unfoldable pub read_sectors : ℕ → ℕ → P → Option (List ℕ) × P
  read_sectors lba count p =
      if (wait_ready p).0
      then read_loop count (send_command lba count read_sectors_cmd (wait_ready p).1)
      else (none, (wait_ready p).1)

  unfoldable pub read_sector : ℕ → P → Option (List ℕ) × P
  read_sector lba p = read_sectors lba 1 p

  -- The loop over the words of a sector, from byte `o` of the buffer on.
  unfoldable pub write_words : ℕ → ℕ → List ℕ → P → P
  write_words zero o buffer p = p
  write_words (suc left) o buffer p =
      write_words left (o + 2) buffer
        (bus.outw data_port (u16 (get_or buffer o 0 + 256 * get_or buffer (o + 1) 0)) p)

  -- The loop over the sectors, at sector `sec` of the buffer.
  unfoldable pub write_loop : ℕ → ℕ → List ℕ → P → Bool × P
  write_loop zero sec buffer p = (true, p)
  write_loop (suc left) sec buffer p =
      let poll = poll_status data_ready p in
      let rest = write_loop left (sec + 1) buffer (write_words 256 (sec * 512) buffer poll.1) in
      if has_bit poll.0 error then (false, poll.1) else rest

  -- The last wait, whose result the source does not use.
  abbrev pub finish_write : Bool × P → Bool × P
  finish_write (false, p) = (false, p)
  finish_write (true, p) = (true, (wait_ready p).1)

  unfoldable pub write_sectors : ℕ → ℕ → List ℕ → P → Bool × P
  write_sectors lba count buffer p =
      if (wait_ready p).0
      then finish_write
          (write_loop count 0 buffer (send_command lba count write_sectors_cmd (wait_ready p).1))
      else (false, (wait_ready p).1)

  -- The driver as the file system uses it, a sector at a time.
  abbrev pub device : BlockDevice P
  device = record {
    read_sector = read_sector;
    write_sector = λ lba bytes p. write_sectors lba 1 bytes p;
  }
