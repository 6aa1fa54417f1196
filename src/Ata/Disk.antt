-- ===== src/Ata/Disk.antt =====
-- The driver and a drive that is in no transfer between its calls are a disk in the sense of the
-- file system.
use vidga_os.Base.{ℕ, ◌≡◌, List}
use vidga_os.Ports.{Bus}
use vidga_os.Kernel.{BlockDevice}
use vidga_os.Ata.{device}
use vidga_os.Ata.Drive.{idle, View, IsAtaDrive, ClearsWhileBusy}
use vidga_os.Ata.Transfer.{read_sector-ok}
use vidga_os.Ata.Storing.{write_sectors-Left}

module _ {P : Type 0} (bus : Bus P) (view : P → View) (drive : IsAtaDrive bus view)
    (quiet : ClearsWhileBusy bus view) where
  -- A state of the ports in which the drive is in no transfer. It may be busy.
  abbrev pub Resting : Type 0
  Resting = (p : P) × ((view p).phase ≡ idle)

  -- The driver, between such states.
  abbrev pub resting_device : BlockDevice Resting
  resting_device = record {
    read_sector = λ lba d. (
      ((device bus).read_sector lba d.0).0,
      (((device bus).read_sector lba d.0).1, (read_sector-ok bus view drive quiet lba d.0 d.1).1),
    );
    write_sector = λ lba bytes d. (
      ((device bus).write_sector lba bytes d.0).0,
      (
        ((device bus).write_sector lba bytes d.0).1,
        (write_sectors-Left bus view drive quiet lba bytes d.0 d.1).1.0,
      ),
    );
  }

  abbrev pub held : Resting → ℕ → List ℕ
  held d = (view d.0).stored
