-- ===== src/Ata/Transfer.antt =====
-- The driver on a drive that clears DRDY and DRQ while it is busy.
use vidga_os.Base.{
  ℕ, zero, suc, ◌+◌, ◌-◌, ◌*◌, ◌/◌, ◌%◌, ◌^◌, ◌≤◌, ◌<◌, ◌≡◌, refl, sym, ap, ◌∙◌, ◌⊎◌, inl, inr,
  true, false, not, some, List, [], ◌∷◌, ◌==◌, append-nil, arith, length, All, IsByte, low_bits,
  has_bit, u8, shr, Bool-cases,
}
use mathlib.Core.Path.{subst}
use vidga_os.Ports.{Bus}
use vidga_os.Ata.{
  data_port, command_port, read_sectors_cmd, write_sectors_cmd, ready, data_ready, error, max_polls,
  drive_head, sector_cnt, sector_num, cylinder_l, cylinder_h, poll_loop, poll_status, wait_ready,
  send_command, read_words, read_loop, read_sectors, read_sector,
}
use vidga_os.Ata.Drive.{
  Phase, idle, giving, taking, View, address, wants_data, after_giving, IsFree, IsAtaDrive,
  ClearsWhileBusy,
}

-- The drive as before, but for the polls that it stays busy.
abbrev pub unbusy : View → View
unbusy v = record v { busy = 0 }

module _ {P : Type 0} (bus : Bus P) (view : P → View) (drive : IsAtaDrive bus view)
    (quiet : ClearsWhileBusy bus view) where
  -- A poll that ends with the bit it waits for, without an error, the drive being free.
  abbrev pub Polled : P → ℕ → ℕ × P → Type 0
  Polled p bit (status, q) =
      (has_bit status bit ≡ true) × (has_bit status error ≡ false) × (view q ≡ unbusy (view p))

  -- Which bit a poll may wait for.
  abbrev pub Offered : Phase → ℕ → Type 0
  Offered phase bit = (bit ≡ ready) ⊎ ((bit ≡ data_ready) × (wants_data phase ≡ true))

  free_poll :
      (bit : ℕ) (p : P)
      → (view p).busy ≡ 0
      → Offered (view p).phase bit
      → Polled p bit (bus.inb command_port p)
  free_poll bit p h o =
      let st = drive.free_status p h in
      let same = st.4 ∙ ap (λ (b : ℕ). record (view p) { busy = b }) h in
      elim o [ inl e ↦ rw e (st.0, st.2, same) | inr (e, wants) ↦ rw e (st.1 ∙ wants, st.2, same) ]

  busy_poll :
      (bit : ℕ) (p : P)
      → 0 < (view p).busy
      → Offered (view p).phase bit
      → has_bit (bus.inb command_port p).0 bit ≡ false
  busy_poll bit p h o = elim o [
    | inl e ↦ rw e (quiet.clear p h).0
    | inr (e, wants) ↦ rw e (quiet.clear p h).1
  ]

  poll_loop-Polled :
      (left bit : ℕ) (p : P)
      → (view p).busy ≤ left
      → Offered (view p).phase bit
      → Polled p bit (poll_loop bus left bit p)
  unfolding poll_loop
  poll_loop-Polled zero bit p h o = free_poll bit p (omega arith) o
  poll_loop-Polled (suc left) bit p h o = elim (Bool-cases ((view p).busy == 0)) [
    | inl free ↦ let done = free_poll bit p (ground arith) o in rw done.0 done
    | inr busy ↦
        let some_left : 0 < (view p).busy = ground arith in
        let next = (drive.busy_status p some_left).1 in
        let fewer : (view (bus.inb command_port p).1).busy ≤ left =
          subst (λ v. v.busy ≤ left) (sym next) (omega arith) in
        let rest =
          poll_loop-Polled left bit (bus.inb command_port p).1 fewer
            (subst (λ v. Offered v.phase bit) (sym next) o) in
        rw (busy_poll bit p some_left o) (rest.0, rest.1, rest.2 ∙ ap unbusy next)
  ]

  poll_status-Polled :
      (bit : ℕ) (p : P) → Offered (view p).phase bit → Polled p bit (poll_status bus bit p)
  unfolding poll_status
  poll_status-Polled bit p o =
      poll_loop-Polled (max_polls - 1) bit p (omega (arith, drive.patient p)) o

  -- `ata_wait_ready` finds the drive ready.
  pub wait_ready-ok :
      (p : P) → ((wait_ready bus p).0 ≡ true) × (view (wait_ready bus p).1 ≡ unbusy (view p))
  unfolding wait_ready
  wait_ready-ok p = let done = poll_status-Polled ready p (inl refl) in (ap not done.1, done.2)

  -- The registers with the address of a sector.
  abbrev loaded : ℕ → View → View
  loaded lba v = record v {
    count = 1;
    low = u8 lba;
    mid = u8 (shr lba 8);
    high = u8 (shr lba 16);
    head = 0xE0 + low_bits (shr lba 24) 4;
  }

  -- The state in which the command is written.
  abbrev addressed : ℕ → P → P
  addressed lba p = bus.outb drive_head (0xE0 + low_bits (shr lba 24) 4) (
      bus.outb cylinder_h (u8 (shr lba 16)) (
        bus.outb cylinder_l (u8 (shr lba 8))
          (bus.outb sector_num (u8 lba) (bus.outb sector_cnt 1 p))))

  addressed-loaded :
      (lba : ℕ) (p : P) → IsFree (view p) → view (addressed lba p) ≡ loaded lba (view p)
  addressed-loaded lba p h =
      let p1 = bus.outb sector_cnt 1 p in
      let e1 = drive.set_count p 1 h in
      let p2 = bus.outb sector_num (u8 lba) p1 in
      let e2 =
        drive.set_low p1 (u8 lba) (subst IsFree (sym e1) h)
        ∙ ap (λ (v : View). record v { low = u8 lba }) e1 in
      let p3 = bus.outb cylinder_l (u8 (shr lba 8)) p2 in
      let e3 =
        drive.set_mid p2 (u8 (shr lba 8)) (subst IsFree (sym e2) h)
        ∙ ap (λ (v : View). record v { mid = u8 (shr lba 8) }) e2 in
      let p4 = bus.outb cylinder_h (u8 (shr lba 16)) p3 in
      let e4 =
        drive.set_high p3 (u8 (shr lba 16)) (subst IsFree (sym e3) h)
        ∙ ap (λ (v : View). record v { high = u8 (shr lba 16) }) e3 in
      drive.set_head p4 (0xE0 + low_bits (shr lba 24) 4) (subst IsFree (sym e4) h)
      ∙ ap (λ (v : View). record v { head = 0xE0 + low_bits (shr lba 24) 4 }) e4

  loaded-address : (lba : ℕ) (v : View) → address (loaded lba v) ≡ lba % 2 ^ 28
  loaded-address lba v = omega arith

  loaded_head : (lba : ℕ) → (0xE0 + low_bits (shr lba 24) 4) / 16 ≡ 14
  loaded_head lba = omega arith

  -- What a command leaves, of which the driver can tell the phase and the sectors.
  abbrev pub Leaves : P → Phase → (ℕ → List ℕ) → Type 0
  Leaves q phase stored = ((view q).phase ≡ phase) × ((view q).stored ≡ stored)

  send_read :
      (lba : ℕ) (p : P)
      → IsFree (view p)
      → Leaves
          (send_command bus lba 1 read_sectors_cmd p)
          (giving ((view p).stored (lba % 2 ^ 28)))
          (view p).stored
  unfolding send_command
  send_read lba p h =
      let q = addressed lba p in
      let e = addressed-loaded lba p h in
      let s =
        drive.start_read q (subst IsFree (sym e) h) (ap (λ v. v.count) e)
          (ap (λ v. v.head / 16) e ∙ loaded_head lba) in
      (
        ap (λ v. v.phase) s.1
            ∙ ap (λ v. giving (v.stored (address v))) e
            ∙ ap (λ a. giving ((view p).stored a)) (loaded-address lba (view p)),
        ap (λ v. v.stored) s.1 ∙ ap (λ v. v.stored) e,
      )

  pub send_write :
      (lba : ℕ) (p : P)
      → IsFree (view p)
      → Leaves
          (send_command bus lba 1 write_sectors_cmd p)
          (taking (lba % 2 ^ 28) [])
          (view p).stored
  unfolding send_command
  send_write lba p h =
      let q = addressed lba p in
      let e = addressed-loaded lba p h in
      let s =
        drive.start_write q (subst IsFree (sym e) h) (ap (λ v. v.count) e)
          (ap (λ v. v.head / 16) e ∙ loaded_head lba) in
      (
        ap (λ v. v.phase) s.1
            ∙ ap (λ v. taking (address v) []) e
            ∙ ap (λ a. taking a []) (loaded-address lba (view p)),
        ap (λ v. v.stored) s.1 ∙ ap (λ v. v.stored) e,
      )

  -- A poll for data changes neither.
  pub poll_data :
      (p : P) (phase : Phase) (stored : ℕ → List ℕ)
      → Leaves p phase stored
      → wants_data phase ≡ true
      → (has_bit (poll_status bus data_ready p).0 error ≡ false)
        × ((view (poll_status bus data_ready p).1).busy ≡ 0)
        × Leaves (poll_status bus data_ready p).1 phase stored
  poll_data p phase stored (e, f) w =
      let done = poll_status-Polled data_ready p (inr (refl, ap wants_data e ∙ w)) in
      (
        done.1,
        ap (λ v. v.busy) done.2,
        (ap (λ v. v.phase) done.2 ∙ e, ap (λ v. v.stored) done.2 ∙ f),
      )

  read_words-ok :
      (n : ℕ) (bytes : List ℕ) (p : P) (stored : ℕ → List ℕ)
      → (view p).busy ≡ 0
      → length bytes ≡ 2 * n
      → All IsByte bytes
      → Leaves p (after_giving bytes) stored
      → ((read_words bus n p).0 ≡ bytes)
        × ((view (read_words bus n p).1).busy ≡ 0)
        × Leaves (read_words bus n p).1 idle stored
  unfolding read_words
  read_words-ok zero [] p stored free e small h = (refl, free, h)
  read_words-ok zero (b ∷ bs) p stored free e small h = absurd (omega arith)
  read_words-ok (suc n) [] p stored free e small h = absurd (omega arith)
  read_words-ok (suc n) (lo ∷ []) p stored free e small h = absurd (omega arith)
  read_words-ok (suc n) (lo ∷ hi ∷ rest) p stored free e (slo, (shi, small)) (h, st) =
      let got = drive.give_word p lo hi rest free h in
      let more =
        read_words-ok n rest (bus.inw data_port p).1 stored (ap (λ v. v.busy) got.1 ∙ free)
          (omega arith) small (ap (λ v. v.phase) got.1, ap (λ v. v.stored) got.1 ∙ st) in
      let first : u8 (lo + 256 * hi) ≡ lo = omega arith in
      let second : u8 (shr (lo + 256 * hi) 8) ≡ hi = omega arith in
      (rw (got.0, first, second) (ap (λ l. lo ∷ hi ∷ l) more.0), more.1, more.2)

  -- On a drive that clears DRDY and DRQ while it is busy, and that may be busy but is in no
  -- transfer, `ata_read_sector` succeeds, gives the bytes of the sector whose number is the low 28
  -- bits of the argument, and leaves the drive free, with all sectors as they were.
  pub read_sector-ok :
      (lba : ℕ) (p : P)
      → (view p).phase ≡ idle
      → ((read_sector bus lba p).0 ≡ some ((view p).stored (lba % 2 ^ 28)))
        × ((view (read_sector bus lba p).1).phase ≡ idle)
        × ((view (read_sector bus lba p).1).stored ≡ (view p).stored)
        × ((view (read_sector bus lba p).1).busy ≡ 0)
  unfolding read_sector read_sectors read_loop
  read_sector-ok lba p h =
      let waited = wait_ready-ok p in
      let q = (wait_ready bus p).1 in
      let sent = send_read lba q (subst IsFree (sym waited.1) (refl, h)) in
      let bytes = (view q).stored (lba % 2 ^ 28) in
      let full = drive.length_sector q (lba % 2 ^ 28) in
      let polled =
        poll_data (send_command bus lba 1 read_sectors_cmd q) (giving bytes) (view q).stored sent
          refl in
      let done =
        read_words-ok 256 bytes _ (view q).stored polled.1 full
          (drive.bytes_sector q (lba % 2 ^ 28)) (polled.2.0 ∙ giving_full bytes full, polled.2.1) in
      let same = ap (λ v. v.stored) waited.1 in
      rw (waited.0, polled.0)
        (
          ap (λ l. some l) (append-nil _ ∙ done.0 ∙ ap (λ (f : ℕ → List ℕ). f (lba % 2 ^ 28)) same),
          done.2.0,
          done.2.1 ∙ same,
          done.1,
        )
    where
      giving_full : (bytes : List ℕ) → length bytes ≡ 512 → giving bytes ≡ after_giving bytes
      giving_full [] e = absurd (omega arith)
      giving_full (b ∷ bs) e = refl
