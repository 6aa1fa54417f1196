-- ===== src/Examples/AtaDrive.antt =====
-- A drive behind the ports, as a program: it is busy for one poll after a command and after a
-- sector has been stored, and takes no register and no command while it is busy.
use vidga_os.Base.{
  ℕ, ◌+◌, ◌*◌, ◌/◌, ◌%◌, ◌≡◌, refl, Bool, true, false, some, List, [], ◌∷◌, ◌++◌, ◌==◌,
  if◌then◌else◌, length,
}
use vidga_os.Ports.{Bus}
use vidga_os.Ata.{
  sector_cnt, sector_num, cylinder_l, cylinder_h, drive_head, read_sectors_cmd, write_sectors_cmd,
  read_sectors, write_sectors,
}
use vidga_os.Ata.Drive.{Phase, idle, giving, taking, View, address, after_giving}
use vidga_os.Ata.Errors.{transfers_succeed}
use vidga_os.Examples.Drive.{Drive, stored, normal, image, blank}

record State : Type 0 where
  count : ℕ
  low : ℕ
  mid : ℕ
  high : ℕ
  head : ℕ
  slow : Bool
  phase : Phase
  sectors : Drive

abbrev polls : Bool → ℕ
polls true = 1
polls false = 0

abbrev view : State → View
view p = record {
  count = p.count;
  low = p.low;
  mid = p.mid;
  high = p.high;
  head = p.head;
  busy = polls p.slow;
  phase = p.phase;
  stored = stored p.sectors;
}

abbrev status : Phase → ℕ
status idle = 0x40
status (giving bytes) = 0x48
status (taking lba got) = 0x48

abbrev poll : Bool → State → ℕ × State
poll true p = (0x80, record p { slow = false })
poll false p = (status p.phase, p)

abbrev command : ℕ → State → State
command v p =
    if v == read_sectors_cmd
    then record p { slow = true; phase = giving (stored p.sectors (address (view p))) }
    else if v == write_sectors_cmd
    then record p { slow = true; phase = taking (address (view p)) [] }
    else p

abbrev register : ℕ → ℕ → State → State
register port v p =
    if port == sector_cnt
    then record p { count = v }
    else if port == sector_num
    then record p { low = v }
    else if port == cylinder_l
    then record p { mid = v }
    else if port == cylinder_h
    then record p { high = v }
    else if port == drive_head
    then record p { head = v }
    else command v p

abbrev give : Phase → State → ℕ × State
give (giving (lo ∷ hi ∷ rest)) p = (lo + 256 * hi, record p { phase = after_giving rest })
give _ p = (0, p)

abbrev put : Drive → ℕ → List ℕ → Drive
put d lba bytes n = if n == lba then normal bytes else d n

abbrev take_in : Phase → ℕ → State → State
take_in (taking lba got) word p =
    if length got + 2 == 512
    then record p {
      slow = true;
      phase = idle;
      sectors = put p.sectors lba (got ++ (word % 256) ∷ (word / 256) ∷ []);
    }
    else record p { phase = taking lba (got ++ (word % 256) ∷ (word / 256) ∷ []) }
take_in _ word p = p

abbrev bus : Bus State
bus = record {
  inb = λ port p. poll p.slow p;
  outb = λ port v p. if p.slow then p else register port v p;
  inw = λ port p. give p.phase p;
  outw = λ port word p. take_in p.phase word p;
}

abbrev asleep : State
asleep = record {
  count = 0;
  low = 0;
  mid = 0;
  high = 0;
  head = 0;
  slow = true;
  phase = idle;
  sectors = image;
}

-- Ports behind which there is no drive, on a bus that reads as 0.
abbrev nothing : Bus (Unit {0})
nothing = record {
  inb = λ port p. (0, p);
  outb = λ port v p. p;
  inw = λ port p. (0, p);
  outw = λ port v p. p;
}

transfers_succeed_example :
    ((bytes : List ℕ) × ((read_sectors nothing 0 1 tt).0 ≡ some bytes))
    × ((write_sectors nothing 0 1 blank tt).0 ≡ true)
transfers_succeed_example = transfers_succeed nothing (λ p. refl) 0 1 blank tt
