-- ===== src/Vga.antt =====
-- The text screen of src/drivers/vga.c: `update_cursor`, `scroll_screen`, `handle_next_line`,
-- `print_msg`, `clear_screen`, `vga_init`, `vga_color`, `print_msg_char` and `print_msg_num`.
pub mod Page
use vidga_os.Base.{
  ℕ, zero, suc, ◌+◌, ◌-◌, ◌*◌, ◌/◌, ◌%◌, ◌^◌, List, [], ◌∷◌, ltb, leb, ◌==◌, ◌||◌, ◌&&◌,
  if◌then◌else◌, Bool, false, Text, u8, u32,
}

-- `mem` is the memory by address, `pos` the bit pattern of the `int vgaBuffPos`, and `ports` are
-- the bytes written to the ports of the display controller, the latest first.
pub record Screen : Type 0 where
  pub mem : ℕ → ℕ
  pub pos : ℕ
  pub ports : List (ℕ × ℕ)

-- The enumeration `VGA_COLOR`, as far as the kernel names it.
abbrev pub blue : ℕ
blue = 0x1

abbrev pub cyan : ℕ
cyan = 0x3

abbrev pub light_green : ℕ
light_green = 0xa

abbrev pub light_cyan : ℕ
light_cyan = 0xb

abbrev pub light_red : ℕ
light_red = 0xc

abbrev pub yellow : ℕ
yellow = 0xe

abbrev pub white : ℕ
white = 0xf

-- `char *VGA = (char *)0xb8000`
abbrev pub vga_base : ℕ
vga_base = 0xb8000

-- VGA_WIDTH * VGA_HEIGHT * 2, and the bytes of a line
abbrev pub page : ℕ
page = 4000

abbrev pub line_bytes : ℕ
line_bytes = 160

-- `&VGA[i]`, for the bit pattern of an `int` index
abbrev pub cell : ℕ → ℕ
cell i = u32 (vga_base + i)

-- `VGA[i] = v`
unfoldable pub store : (ℕ → ℕ) → ℕ → ℕ → ℕ → ℕ
store mem i v a = if a == cell i then u8 v else mem a

unfoldable pub outb : ℕ → ℕ → Screen → Screen
outb port v s = record s { ports = (port, u8 v) ∷ s.ports }

-- `n / d` of an `int`, which rounds towards zero, on bit patterns and for `0 < d`
abbrev pub int_div : ℕ → ℕ → ℕ
int_div n d = if ltb n (2 ^ 31) then n / d else u32 (2 ^ 32 - (2 ^ 32 - n) / d)

-- `n >> 8` of an `int`, followed by the mask 0xFF: the second byte of the bit pattern
abbrev pub second_byte : ℕ → ℕ
second_byte n = n / 256 % 256

unfoldable pub update_cursor : Screen → Screen
update_cursor s =
    let at = int_div s.pos 2 in
    outb 0x3D5 (second_byte at) (outb 0x3D4 0x0E (outb 0x3D5 (at % 256) (outb 0x3D4 0x0F s)))

-- The first loop of `scroll_screen`: `left` rounds from index `i` on.
unfoldable pub shift_loop : ℕ → ℕ → (ℕ → ℕ) → ℕ → ℕ
shift_loop zero i mem = mem
shift_loop (suc left) i mem = shift_loop left (i + 1) (store mem i (mem (cell (i + line_bytes))))

-- The second loop of `scroll_screen`, and that of `clear_screen`: `left` rounds of two bytes.
unfoldable pub blank_loop : ℕ → ℕ → ℕ → (ℕ → ℕ) → ℕ → ℕ
blank_loop zero i color mem = mem
blank_loop (suc left) i color mem =
    blank_loop left (i + 2) color (store (store mem i 0) (i + 1) color)

unfoldable pub scroll_screen : ℕ → Screen → Screen
scroll_screen color s = record s {
  mem = blank_loop 80 (page - line_bytes) color (shift_loop (page - line_bytes) 0 s.mem);
}

unfoldable pub vga_init : Screen → Screen
vga_init s = outb 0x3D5 0x0E (outb 0x3D4 0x0B (outb 0x3D5 0x0D (outb 0x3D4 0x0A s)))

unfoldable pub handle_next_line : Screen → Screen
handle_next_line s =
    update_cursor (record s { pos = u32 ((int_div s.pos line_bytes + 1) * line_bytes) })

-- `n >= k` of an `int`, for a constant `k`
abbrev pub int_ge : ℕ → ℕ → Bool
int_ge n k = if ltb n (2 ^ 31) then leb k n else false

-- `vgaBuffPos / 160 >= VGA_HEIGHT || vgaBuffPos >= VGA_WIDTH * VGA_HEIGHT * 2`
abbrev pub past_end : ℕ → Bool
past_end pos = int_ge (int_div pos line_bytes) 25 || int_ge pos page

-- `if (…) { scroll_screen(color); vgaBuffPos -= 160; }`
unfoldable pub make_room : ℕ → Screen → Screen
make_room color s =
    if past_end s.pos
    then record (scroll_screen color s) { pos = u32 (s.pos + 2 ^ 32 - line_bytes) }
    else s

-- `VGA[vgaBuffPos] = c; VGA[vgaBuffPos + 1] = color; vgaBuffPos += 2;`
unfoldable pub put_cell : ℕ → ℕ → Screen → Screen
put_cell color c s = record s {
  mem = store (store s.mem s.pos c) (s.pos + 1) color;
  pos = u32 (s.pos + 2);
}

-- The end of a round of `print_msg`, for a character that is shown.
unfoldable pub put_char : ℕ → ℕ → Screen → Screen
put_char color c s = put_cell color c (make_room color s)

-- The branch of `print_msg` for a backspace.
unfoldable pub rub_out : ℕ → Screen → Screen
rub_out color s = update_cursor (record s {
  mem = store (store s.mem (s.pos + 2 ^ 32 - 2) b' ') (s.pos + 2 ^ 32 - 1) color;
  pos = u32 (s.pos + 2 ^ 32 - 2);
})

-- One round of the loop of `print_msg`.
unfoldable pub print_char : ℕ → ℕ → Screen → Screen
print_char color c s =
    if c == 10 then handle_next_line s else if c == 8 then rub_out color s else put_char color c s

unfoldable pub print_loop : Text → ℕ → Screen → Screen
print_loop [] color s = s
print_loop (c ∷ cs) color s = print_loop cs color (print_char color c s)

unfoldable pub print_msg : Text → ℕ → Screen → Screen
print_msg msg color s = update_cursor (print_loop msg color s)

unfoldable pub clear_screen : ℕ → Screen → Screen
clear_screen color s = update_cursor (record s { mem = blank_loop 2000 0 color s.mem; pos = 0 })

-- `(bg << 4) | (fg & 0x0F)`, on colors
unfoldable pub vga_color : ℕ → ℕ → ℕ
vga_color fg bg = bg * 16 + fg % 16

unfoldable pub print_msg_char : ℕ → ℕ → Screen → Screen
print_msg_char c color s = print_msg (if c == 0 then [] else c ∷ []) color s

-- The loop of `print_msg_num`: `idx` and `num`, and what stands in `buf` from `idx` on.
unfoldable pub digits_loop : ℕ → ℕ → Text → ℕ × Text
digits_loop zero num out = (0, out)
digits_loop (suc idx) num out =
    if ltb 0 num && ltb num (2 ^ 31)
    then digits_loop idx (num / 10) ((b'0' + num % 10) ∷ out)
    else (suc idx, out)

-- The string that `print_msg_num` builds for the bit pattern of an `int`.
unfoldable pub number_text : ℕ → Text
number_text num =
    let negative = leb (2 ^ 31) num in
    let size = if negative then u32 (2 ^ 32 - num) else num in
    if size == 0
    then b'0' ∷ []
    else let (idx, out) = digits_loop 15 size [] in
      if negative && ltb 0 idx then b'-' ∷ out else out

unfoldable pub print_msg_num : ℕ → ℕ → Screen → Screen
print_msg_num num color s = print_msg (number_text num) color s
