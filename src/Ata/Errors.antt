-- ===== src/Ata/Errors.antt =====
-- When the driver reports a failure: only for the error bit, never for a drive that is not ready.
use vidga_os.Base.{
  ℕ, zero, suc, ◌+◌, ◌-◌, ◌≡◌, refl, ap, Bool, true, false, not, Option, none, some, List, [], ◌++◌,
  has_bit, Bool-cases, inl, inr,
}
use vidga_os.Ports.{Bus}
use vidga_os.Ata.{
  command_port, ready, data_ready, error, max_polls, read_sectors_cmd, write_sectors_cmd, poll_loop,
  poll_status, wait_ready, send_command, read_words, read_loop, read_sectors, write_loop,
  write_sectors, join, finish_write,
}

module _ {P : Type 0} (bus : Bus P)
    (no_error : (p : P) → has_bit (bus.inb command_port p).0 error ≡ false) where
  poll_loop_clean : (left bit : ℕ) (p : P) → has_bit (poll_loop bus left bit p).0 error ≡ false
  unfolding poll_loop
  poll_loop_clean zero bit p = no_error p
  poll_loop_clean (suc left) bit p = elim (Bool-cases (has_bit (bus.inb command_port p).0 bit)) [
    | inl set ↦ rw set (no_error p)
    | inr clear ↦ rw clear (poll_loop_clean left bit (bus.inb command_port p).1)
  ]

  poll_status_clean : (bit : ℕ) (p : P) → has_bit (poll_status bus bit p).0 error ≡ false
  unfolding poll_status
  poll_status_clean bit p = poll_loop_clean (max_polls - 1) bit p

  wait_ready_clean : (p : P) → (wait_ready bus p).0 ≡ true
  unfolding wait_ready
  wait_ready_clean p = ap not (poll_status_clean ready p)

  read_loop_clean : (left : ℕ) (p : P) → (bytes : List ℕ) × ((read_loop bus left p).0 ≡ some bytes)
  unfolding read_loop
  read_loop_clean zero p = ([], refl)
  read_loop_clean (suc left) p =
      let poll = poll_status bus data_ready p in
      let words = read_words bus 256 poll.1 in
      let rest = read_loop_clean left words.1 in
      rw (poll_status_clean data_ready p)
        (words.0 ++ rest.0, join_some words.0 (read_loop bus left words.1) rest.1)
    where
      join_some :
          (bytes : List ℕ) (r : Option (List ℕ) × P) {more : List ℕ}
          → r.0 ≡ some more
          → (join bytes r).0 ≡ some (bytes ++ more)
      join_some bytes (none, p) e = cc
      join_some bytes (some rest, p) e = cc

  write_loop_clean :
      (left sec : ℕ) (buffer : List ℕ) (p : P) → (write_loop bus left sec buffer p).0 ≡ true
  unfolding write_loop
  write_loop_clean zero sec buffer p = refl
  write_loop_clean (suc left) sec buffer p =
      rw (poll_status_clean data_ready p) (write_loop_clean left (sec + 1) buffer _)

  -- If no status that the drive gives has the error bit, every read and every write of the driver
  -- succeeds, whatever the number of sectors is and whether or not the drive is ever ready or asks
  -- for data.
  pub transfers_succeed :
      (lba count : ℕ) (buffer : List ℕ) (p : P)
      → ((bytes : List ℕ) × ((read_sectors bus lba count p).0 ≡ some bytes))
        × ((write_sectors bus lba count buffer p).0 ≡ true)
  unfolding read_sectors write_sectors
  transfers_succeed lba count buffer p =
      let sent = send_command bus lba count write_sectors_cmd (wait_ready bus p).1 in
      rw (wait_ready_clean p) (
        read_loop_clean count (send_command bus lba count read_sectors_cmd (wait_ready bus p).1),
        finished (write_loop bus count 0 buffer sent) (write_loop_clean count 0 buffer sent),
      )
    where
      finished : (r : Bool × P) → r.0 ≡ true → (finish_write bus r).0 ≡ true
      finished (true, q) e = refl
      finished (false, q) e = cc
