-- ===== src/Ata/Storing.antt =====
-- `ata_write_sectors` for one sector, on a drive that clears DRDY and DRQ while it is busy.
use vidga_os.Base.{
  ℕ, zero, suc, ◌+◌, ◌*◌, ◌/◌, ◌%◌, ◌^◌, ◌≡◌, refl, sym, ap, ◌∙◌, true, List, [], ◌∷◌, ◌++◌,
  append_assoc, arith, length, get_or, length-append, All, All-get_or, IsByte, u16,
}
use mathlib.Core.Path.{subst}
use vidga_os.Bytes.{bytes_at}
use vidga_os.Bytes.Laws.{bytes_at_all}
use vidga_os.Ports.{Bus}
use vidga_os.Ata.{
  data_port, write_sectors_cmd, wait_ready, send_command, write_words, write_loop, write_sectors,
}
use vidga_os.Ata.Drive.{Phase, idle, taking, View, with_sector, IsFree, IsAtaDrive, ClearsWhileBusy}
use vidga_os.Ata.Transfer.{Leaves, wait_ready-ok, send_write, poll_data}

-- The word that the driver makes of the bytes at an offset.
abbrev word_at : List ℕ → ℕ → ℕ
word_at buffer o = u16 (get_or buffer o 0 + 256 * get_or buffer (o + 1) 0)

-- The bytes of so many words.
abbrev pub sent : ℕ → ℕ → List ℕ → List ℕ
sent zero o buffer = []
sent (suc n) o buffer = (word_at buffer o % 256) ∷ (word_at buffer o / 256) ∷ sent n (o + 2) buffer

All-snoc_two :
    (got : List ℕ) (a b : ℕ) → All IsByte got → IsByte a → IsByte b → All IsByte (got ++ a ∷ b ∷ [])
All-snoc_two [] a b h p q = (p, (q, tt))
All-snoc_two (x ∷ xs) a b h p q = (h.0, All-snoc_two xs a b h.1 p q)

twice : ℕ → ℕ
twice zero = 0
twice (suc n) = suc (suc (twice n))

twice_lem : (n : ℕ) → twice n ≡ 2 * n
unfolding twice
twice_lem zero = refl
twice_lem (suc n) = omega (arith, twice_lem n)

pub All-sent : (n o : ℕ) (buffer : List ℕ) → All IsByte (sent n o buffer)
All-sent zero o buffer = tt
All-sent (suc n) o buffer = (omega arith, (omega arith, All-sent n (o + 2) buffer))

pub length-sent : (n o : ℕ) (buffer : List ℕ) → length (sent n o buffer) ≡ 2 * n
length-sent zero o buffer = refl
length-sent (suc n) o buffer = omega (arith, length-sent n (o + 2) buffer)

-- Of a buffer of bytes they are the bytes themselves.
sent-bytes_at :
    (n o : ℕ) (buffer : List ℕ) → All IsByte buffer → sent n o buffer ≡ bytes_at buffer o (twice n)
unfolding twice bytes_at
sent-bytes_at zero o buffer h = refl
sent-bytes_at (suc n) o buffer h =
    let lo = All-get_or IsByte buffer o 0 h (omega arith) in
    let hi = All-get_or IsByte buffer (o + 1) 0 h (omega arith) in
    let first : word_at buffer o % 256 ≡ get_or buffer o 0 = omega arith in
    let second : word_at buffer o / 256 ≡ get_or buffer (o + 1) 0 = omega arith in
    rw (first, second)
      (ap (λ l. get_or buffer o 0 ∷ get_or buffer (o + 1) 0 ∷ l)
        (sent-bytes_at n (o + 2) buffer h ∙ ap (λ k. bytes_at buffer k (twice n)) (omega arith)))

pub sent_sector :
    (buffer : List ℕ) → length buffer ≡ 512 → All IsByte buffer → sent 256 0 buffer ≡ buffer
unfolding twice
sent_sector buffer len small =
    sent-bytes_at 256 0 buffer small
    ∙ bytes_at_all buffer buffer 0 512 (sym len) (λ k lt. ap (λ x. get_or buffer x 0) (omega arith))

module _ {P : Type 0} (bus : Bus P) (view : P → View) (drive : IsAtaDrive bus view)
    (quiet : ClearsWhileBusy bus view) where
  abbrev Left : P → Phase → (ℕ → List ℕ) → Type 0
  Left = Leaves bus view drive quiet

  write_words-Left :
      (n o lba : ℕ) (buffer got : List ℕ) (p : P) (stored : ℕ → List ℕ)
      → (view p).busy ≡ 0
      → length got + (2 + 2 * n) ≡ 512
      → All IsByte got
      → Left p (taking lba got) stored
      → Left
          (write_words bus (suc n) o buffer p)
          idle
          (with_sector stored lba (got ++ sent (suc n) o buffer))
  unfolding write_words
  write_words-Left zero o lba buffer got p stored free len small (h, st) =
      let done =
        drive.take_last p lba (word_at buffer o) got free h (omega arith) (omega arith) small in
      (
        ap (λ v. v.phase) done.1,
        ap (λ v. v.stored) done.1 ∙ ap (λ f. with_sector f lba (got ++ sent 1 o buffer)) st,
      )
  write_words-Left (suc n) o lba buffer got p stored free len small (h, st) =
      let w = word_at buffer o in
      let next = bus.outw data_port w p in
      let got' = got ++ (w % 256) ∷ (w / 256) ∷ [] in
      let took = drive.take_word p lba w got free h (omega arith) (omega arith) in
      let rest =
        write_words-Left n (o + 2) lba buffer got' next stored (ap (λ v. v.busy) took ∙ free)
          (omega (arith, length-append got ((w % 256) ∷ (w / 256) ∷ [])))
          (All-snoc_two got (w % 256) (w / 256) small (omega arith) (omega arith))
          (ap (λ v. v.phase) took, ap (λ v. v.stored) took ∙ st) in
      (
        rest.0,
        rest.1
            ∙ ap (with_sector stored lba)
                (append_assoc got ((w % 256) ∷ (w / 256) ∷ []) (sent (suc n) (o + 2) buffer)),
      )

  pub write_sectors-Left :
      (lba : ℕ) (buffer : List ℕ) (p : P)
      → (view p).phase ≡ idle
      → ((write_sectors bus lba 1 buffer p).0 ≡ true)
        × Left
            (write_sectors bus lba 1 buffer p).1
            idle
            (with_sector (view p).stored (lba % 2 ^ 28) (sent 256 0 buffer))
        × ((view (write_sectors bus lba 1 buffer p).1).busy ≡ 0)
  unfolding write_sectors write_loop
  write_sectors-Left lba buffer p h =
      let waited = wait_ready-ok bus view drive quiet p in
      let q = (wait_ready bus p).1 in
      let sent_to = send_write bus view drive quiet lba q (subst IsFree (sym waited.1) (refl, h)) in
      let polled =
        poll_data bus view drive quiet (send_command bus lba 1 write_sectors_cmd q)
          (taking (lba % 2 ^ 28) []) (view q).stored sent_to refl in
      let done =
        write_words-Left 255 0 (lba % 2 ^ 28) buffer [] _ (view q).stored polled.1 refl tt
          polled.2 in
      let end = wait_ready-ok bus view drive quiet _ in
      rw (waited.0, polled.0)
        (
          refl,
          (
            ap (λ v. v.phase) end.1 ∙ done.0,
            ap (λ v. v.stored) end.1
                ∙ done.1
                ∙ ap (λ v. with_sector v.stored (lba % 2 ^ 28) (sent 256 0 buffer)) waited.1,
          ),
          ap (λ v. v.busy) end.1,
        )
