-- ===== src/Main.antt =====
-- `kernel_main` of src/kernel.c, and `shell_run` of src/shell/shell.c for a number of rounds. No
-- interrupt is served before the end of the initialisation, since src/entry.s disables them. The
-- ports of the machine are those that the driver of the disk uses: they are the kernel's drive.
use vidga_os.Base.{ℕ, codes}
use vidga_os.Vga.{white, blue, vga_color, vga_init, clear_screen}
use vidga_os.Ports.{Bus}
use vidga_os.Kernel.{ok, Kernel, Run, Cmd, ◌>>=◌, ◌>>◌, print, reseed}
use vidga_os.Ata.{ata_init, device}
use vidga_os.Idt.{Machine, init_keyboard, idt_init}
use vidga_os.Fat32.Boot.{fat32_init}
use vidga_os.Vfs as Vfs
use vidga_os.Shell.{Editor, shell_init, process_keys}
use vidga_os.Shell.Commands.Session.{run_command}

-- `design`
abbrev pub design : ℕ
design = vga_color white blue

module _ {P : Type 0} (bus : Bus P) where
  -- The machine after `idt_init` and `init_keyboard`.
  unfoldable pub start_interrupts : ℕ → (ℕ → ℕ) → (ℕ → ℕ) → Machine P → Machine P
  start_interrupts table isr irq m = init_keyboard (idt_init bus table isr irq m)

  unfoldable pub start_screen : Cmd P (Unit {0})
  start_screen s =
      print (codes "VidgaOS running in 32bit mode.\n") design
        (record s { screen = clear_screen design (vga_init s.screen) })

  -- The state of the ports and the ticks, as the interrupts' initialisation leaves them.
  abbrev pub set_machine : Machine P → Cmd P (Unit {0})
  set_machine m s = ok tt (record s { drive = m.ports; pit_ticks = m.pit_ticks })

  unfoldable pub init_drive : Cmd P (Unit {0})
  init_drive s = ok tt (record s { drive = ata_init bus s.drive })

  -- The directories, and the one that the shell starts in.
  unfoldable pub start_files : ℕ → Cmd P (Unit {0})
  start_files fuel = do
    fat32_init (device bus)
    Vfs.init
    Vfs.vfs_mkdir (device bus) fuel (codes "/system")
    Vfs.vfs_mkdir (device bus) fuel (codes "/personal")
    Vfs.vfs_mkdir (device bus) fuel (codes "/tmp")
    Vfs.cd (device bus) fuel (codes "/system")
    λ s. ok tt s

  -- `shell_run`, for its first rounds.
  unfoldable pub shell_run : ℕ → ℕ → Editor → Cmd P Editor
  shell_run fuel rounds ed =
      shell_init design ed >>= process_keys (run_command (device bus) fuel) design rounds

  -- `kernel_main`, for the addresses of the table and of the stubs: the machine, and the run of
  -- all that comes after its initialisation.
  unfoldable pub kernel_main :
      ℕ → (ℕ → ℕ) → (ℕ → ℕ) → ℕ → ℕ → Editor → Machine P → Kernel P → Machine P × Run P Editor
  kernel_main table isr irq fuel rounds ed m s =
      let m' = start_interrupts table isr irq (record m { ports = s.drive }) in
      (
        m',
        (start_screen
              >> set_machine m'
              >> init_drive
              >> start_files fuel
              >> reseed
              >> shell_run fuel rounds ed)
            s,
      )
