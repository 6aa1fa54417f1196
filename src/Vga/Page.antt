-- ===== src/Vga/Page.antt =====
-- Where `print_msg` writes: the 80 x 25 page, unless line feeds move past its end.
use vidga_os.Base.{
  ℕ, zero, suc, ◌+◌, ◌-◌, ◌*◌, ◌/◌, ◌%◌, ◌^◌, ◌≤◌, ◌<◌, ◌≡◌, refl, ap, ◌∙◌, ◌≢◌, ◌⊎◌, inl, inr, [],
  ◌∷◌, arith, ◌==◌, Bool-cases, All, Text, u8, u32,
}
use vidga_os.Vga.{
  Screen, vga_base, page, line_bytes, int_div, second_byte, past_end, store, outb, update_cursor,
  shift_loop, blank_loop, scroll_screen, handle_next_line, make_room, put_cell, put_char,
  print_char, print_loop, print_msg,
}

-- The position is that of a cell, or just behind the last one.
abbrev pub IsOnPage : Screen → Type 0
IsOnPage s = (s.pos ≤ page) × (s.pos % 2 ≡ 0)

-- No byte outside the page differs.
abbrev pub SameOffPage : (ℕ → ℕ) → (ℕ → ℕ) → Type 0
SameOffPage mem mem' = (a : ℕ) → (a < vga_base) ⊎ (vga_base + page ≤ a) → mem' a ≡ mem a

-- Characters other than line feed and backspace.
abbrev pub IsShown : Text → Type 0
IsShown = All (λ c. (c ≢ 10) × (c ≢ 8))

store_off :
    (mem : ℕ → ℕ) (i v a : ℕ)
    → i < page
    → (a < vga_base) ⊎ (vga_base + page ≤ a)
    → store mem i v a ≡ mem a
unfolding store
store_off mem i v a h o = ground arith

shift_loop_off :
    (left i : ℕ) (mem : ℕ → ℕ) → i + left ≤ page → SameOffPage mem (shift_loop left i mem)
unfolding shift_loop
shift_loop_off zero i mem h a o = refl
shift_loop_off (suc left) i mem h a o =
    shift_loop_off left (i + 1) _ (omega arith) a o ∙ store_off mem i _ a (omega arith) o

blank_loop_off :
    (left i color : ℕ) (mem : ℕ → ℕ)
    → i + 2 * left ≤ page
    → SameOffPage mem (blank_loop left i color mem)
unfolding blank_loop
blank_loop_off zero i color mem h a o = refl
blank_loop_off (suc left) i color mem h a o =
    blank_loop_off left (i + 2) color _ (omega arith) a o
    ∙ store_off (store mem i 0) (i + 1) color a (omega arith) o
    ∙ store_off mem i 0 a (omega arith) o

scroll_screen_off : (color : ℕ) (s : Screen) → SameOffPage s.mem (scroll_screen color s).mem
unfolding scroll_screen
scroll_screen_off color s a o =
    blank_loop_off 80 3840 color (shift_loop 3840 0 s.mem) (omega arith) a o
    ∙ shift_loop_off 3840 0 s.mem (omega arith) a o

past_end_iff : (pos : ℕ) → pos ≤ page → past_end pos ≡ (pos == page)
past_end_iff pos h = ground arith

make_room-page :
    (color : ℕ) (s : Screen)
    → IsOnPage s
    → ((make_room color s).pos < page)
      × ((make_room color s).pos % 2 ≡ 0)
      × SameOffPage s.mem (make_room color s).mem
unfolding make_room
make_room-page color s h = elim (Bool-cases (s.pos == page)) [
  | inl full ↦
      rw (past_end_iff s.pos h.0, full) (ground arith, ground arith, scroll_screen_off color s)
  | inr room ↦ rw (past_end_iff s.pos h.0, room) (ground arith, h.1, λ a o. refl)
]

put_cell-page :
    (color c : ℕ) (s : Screen)
    → s.pos < page
    → s.pos % 2 ≡ 0
    → IsOnPage (put_cell color c s) × SameOffPage s.mem (put_cell color c s).mem
unfolding put_cell
put_cell-page color c s h even = (
  (omega arith, omega arith),
  λ a o.
      store_off (store s.mem s.pos c) (s.pos + 1) color a (omega arith) o
      ∙ store_off s.mem s.pos c a h o,
)

put_char-page :
    (color c : ℕ) (s : Screen)
    → IsOnPage s
    → IsOnPage (put_char color c s) × SameOffPage s.mem (put_char color c s).mem
unfolding put_char
put_char-page color c s h =
    let room = make_room-page color s h in
    let put = put_cell-page color c (make_room color s) room.0 room.1 in
    (put.0, λ a o. put.1 a o ∙ room.2 a o)

print_char_shown :
    (color c : ℕ) (s : Screen) → c ≢ 10 → c ≢ 8 → print_char color c s ≡ put_char color c s
unfolding print_char
print_char_shown color c s h k = ground arith

print_char-page :
    (color c : ℕ) (s : Screen)
    → c ≢ 10
    → c ≢ 8
    → IsOnPage s
    → IsOnPage (print_char color c s) × SameOffPage s.mem (print_char color c s).mem
print_char-page color c s h k v = rw (print_char_shown color c s h k) (put_char-page color c s v)

print_loop_page :
    (msg : Text) (color : ℕ) (s : Screen)
    → IsShown msg
    → IsOnPage s
    → IsOnPage (print_loop msg color s) × SameOffPage s.mem (print_loop msg color s).mem
unfolding print_loop
print_loop_page [] color s shown h = (h, λ a o. refl)
print_loop_page (c ∷ cs) color s shown h =
    let put = print_char-page color c s shown.0.0 shown.0.1 h in
    let rest = print_loop_page cs color (print_char color c s) shown.1 put.0 in
    (rest.0, λ a o. rest.1 a o ∙ put.1 a o)

-- Printing characters other than line feed and backspace, with the position on the page, leaves
-- the position on the page and changes no byte of memory outside the page, however long the
-- message is.
pub print_msg_page :
    (msg : Text) (color : ℕ) (s : Screen)
    → IsShown msg
    → IsOnPage s
    → IsOnPage (print_msg msg color s) × SameOffPage s.mem (print_msg msg color s).mem
unfolding print_msg update_cursor outb
print_msg_page msg color s shown h = print_loop_page msg color s shown h

-- After a message of characters other than line feed and backspace, printed with the position on
-- the page, the display controller has been sent the index of the cell at the position, low byte
-- first.
pub print_msg_cursor :
    (msg : Text) (color : ℕ) (s : Screen)
    → IsShown msg
    → IsOnPage s
    → (hi lo : ℕ) × (hi * 256 + lo ≡ (print_msg msg color s).pos / 2)
      × ((print_msg msg color s).ports
          ≡ (0x3D5, hi)
            ∷ (0x3D4, 0x0E)
            ∷ (0x3D5, lo)
            ∷ (0x3D4, 0x0F)
            ∷ (print_loop msg color s).ports)
unfolding print_msg update_cursor outb
print_msg_cursor msg color s shown h =
    let at = int_div (print_loop msg color s).pos 2 in
    (
      u8 (second_byte at),
      u8 (at % 256),
      ground (arith, (print_loop_page msg color s shown h).0),
      refl,
    )

pos-handle_next_line :
    (s : Screen)
    → s.pos < 2 ^ 31
    → (handle_next_line s).pos ≡ u32 ((s.pos / line_bytes + 1) * line_bytes)
unfolding handle_next_line update_cursor outb
pos-handle_next_line s h = ground arith

put_char_past :
    (c color : ℕ) (s : Screen)
    → s.pos ≡ page + line_bytes
    → (put_char color c s).mem (vga_base + page) ≡ u8 c
unfolding put_char put_cell make_room store
put_char_past c color s h = rw h (ground arith)

-- Two line feeds in a row with the position on the last line send the next character, if it is
-- neither line feed nor backspace, behind the end of the page.
pub line_feeds_leave_page :
    (c color : ℕ) (s : Screen)
    → page - line_bytes ≤ s.pos
    → s.pos < page
    → c ≢ 10
    → c ≢ 8
    → (print_msg (10 ∷ 10 ∷ c ∷ []) color s).mem (vga_base + page) ≡ u8 c
unfolding print_msg update_cursor outb print_loop
line_feeds_leave_page c color s lo hi h k =
    let s1 = handle_next_line s in
    let s2 = handle_next_line s1 in
    let p1 : s1.pos ≡ page = omega (arith, pos-handle_next_line s (omega arith)) in
    let p2 : s2.pos ≡ page + line_bytes = omega (arith, pos-handle_next_line s1 (omega arith)) in
    ap (λ t. (print_char color c t).mem (vga_base + page)) two_lines
    ∙ ap (λ t. t.mem (vga_base + page)) (print_char_shown color c s2 h k)
    ∙ put_char_past c color s2 p2
  where
    two_lines : print_char color 10 (print_char color 10 s) ≡ handle_next_line (handle_next_line s)
    two_lines = unfold print_char in refl
