-- ===== src/Lib.antt =====
-- The library vidga_os: a model of the file system, the path functions and the drivers of
-- VidgaOS, with the theorems that say what they do.
--
-- The parts and their files:
-- * src/drivers/vga.c is Vga. `Screen` is the text memory as a function from addresses to bytes,
--   `vgaBuffPos` as a 32-bit word and the port writes, the latest first. The functions bear the
--   names of the source; the body of the loop of `print_msg` is `print_char`, whose branches are
--   `handle_next_line`, `rub_out` and `put_char`. Vga/Page has the proofs.
-- * src/drivers/keyboard.c and src/kb_layouts/en_us.h are Keyboard. `Keyboard` holds the modifiers
--   and the ring buffer. `none` from `translate_scancode` is a read behind the end of a table,
--   `none` from `getchar` is a reader that waits. Proofs: Keyboard/Ring, Keyboard/Scancodes.
-- * src/kernel/rand.c is Rand, a function from the state to the next state and the number.
-- * src/kernel/fat32.c and src/kernel/fat32.h are Fat32: Fat32/Boot (`fat32_read_boot_sector`),
--   Fat32/Table (the allocation table: `fat32_get_next_cluster`, `fat32_alloc_cluster`,
--   `fat32_update_fat_entry`), Fat32/Cluster (`read_cluster`, `fat32_write_cluster`,
--   `fat32_write_dirent`), Fat32/Dirent (the entry, its bytes, 8.3 names), Fat32/Directory
--   (`fat32_find_file`, `create_dirent`, `fat32_mkdir`, `fat32_create_file`, `fat32_delete`),
--   Fat32/Listing (`fat32_list_dir`) and Fat32/File (`fat32_open`, `fat32_read`). The proofs
--   are in the files below them.
-- * src/kernel/vfs.c and src/kernel/vfs.h are Paths (the functions on strings) and Vfs (the
--   operations, which walk a path with `navigate_path` and call those of Fat32). Vfs/Walk has the
--   walk through the tree as a relation, Vfs/Navigation the proofs on it, Vfs/Root those on "/name".
-- * src/shell/shell.c is Shell: the line editor, with `execute_command` as an argument.
--   `process_keys` are the first rounds of the loop of `shell_run`. Shell/Editing has the proofs.
-- * src/shell/commands.c is Shell/Commands: `execute_command` with its chain of tests in `select`,
--   over the operations of Vfs, the files of Fat32 and the games. Shell/Commands/Dispatch has
--   the proofs on the tests, Shell/Commands/Session puts the editor and the commands together, and
--   Shell/Commands/Cat and Shell/Commands/Showing say what `cat` shows.
-- * src/games/games.c is Games. Proofs: Games/Numbers (`read_number`), Games/Dice, Games/Guessing.
-- * src/kernel/ata.c and src/kernel/ata.h are Ata, over the record `Bus` of the port instructions
--   of src/kernel/io.h (Ports). Ata/Drive says what the proofs assume of the hardware:
--   `IsAtaDrive`, and `ClearsWhileBusy`, a restriction to drives that show neither DRDY nor DRQ
--   while they are busy, since the driver never tests BUSY. Ata/Transfer and Ata/Storing are a
--   read and a write, Ata/Disk the driver as the disk that the file system takes, and Ata/Errors
--   what it does without an answer.
-- * src/kernel/idt.c and src/kernel/idt.h are Idt, with the handlers of the timer and of the
--   keyboard as names. Proofs: Idt/Gates (the table), Idt/Requests (the dispatch), Idt/Traces
--   (sequences of interrupts).
-- * src/kernel.c is Main: `kernel_main`, with the rounds of the shell that follow it.
-- * Kernel is what the file system, the shell and the games share: the static variables as one
--   state, with the characters that `keyboard_getchar` will give, and the commands on it. A
--   command gives its result and the next state, `fault` where the source writes behind the end
--   of a buffer or reads what it has not set, `out_of_fuel`, and `waiting` where the source waits
--   for a character and there is none left.
-- * Base and Bytes have the shared lists, strings, words and tests; Examples has a small file
--   system on which the theorems are applied.
--
-- The file system takes the drive as the record `BlockDevice` of two operations, for any type of
-- states. Proofs about the file system assume of it that it obeys `IsDisk` (Fat32/Disk), and of
-- the file system's parameters that the tables lie on the drive (`FatFits`). Ata/Disk fills that
-- interface with the driver. The interrupts have a state of their own, `Machine`, since they meet
-- the other parts in the ring buffer and in `pit_ticks` alone.
--
-- Bounds and fuel: strings are lists of bytes; a path buffer has 256 bytes and a cluster buffer
-- 4096, and a command that would overrun one is a fault. 32-bit words wrap around as in the
-- source. The loops over a chain of clusters run on fuel, since a table may hold a cycle; the
-- number of clusters of the chain is enough. The loops over a path run on the path's length. A poll
-- of the drive runs 100000 rounds, as in the source. `read_number` runs on the characters that are
-- left, and the guessing game, as the shell calls it, for one round more than there are
-- characters, which is enough since every round reads one. The loop of `fat32_read` runs on
-- fuel, for which the number of the file's clusters is enough, and so does that of `cat`, which
-- takes one more. The other loops run on the count that the source has.
--
-- Not modelled: the assembly of idt_asm.s and entry.s, whose addresses are parameters, and the
-- moments at which interrupts come while other code runs.
-- The character that a read past a table of scancodes gives, and what lies behind a buffer, have
-- no value here.
pub mod Base
pub mod Bytes
pub mod Paths
pub mod Vga
pub mod Kernel
pub mod Ports
pub mod Ata
pub mod Fat32
pub mod Vfs
pub mod Keyboard
pub mod Idt
pub mod Rand
pub mod Shell
pub mod Games
pub mod Main
mod Examples
