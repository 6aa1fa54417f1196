-- ===== src/Keyboard.antt =====
-- The keyboard driver of src/drivers/keyboard.c, with the layout of src/kb_layouts/en_us.h.
pub mod Scancodes
pub mod Ring
use vidga_os.Base.{
  ℕ, zero, suc, ◌+◌, ◌-◌, ◌/◌, ◌%◌, Bool, true, false, not, ◌&&◌, ◌||◌, Option, none, some, List,
  [], ◌∷◌, ◌++◌, leb, ltb, ◌==◌, if◌then◌else◌, get_elem?, get_or, set, replicate, Text, codes,
  low_bits, has_bit,
}

-- The static variables: the modifiers, and the ring buffer with its two indices.
pub record Keyboard : Type 0 where
  pub shift : Bool
  pub caps : Bool
  pub buf : List ℕ
  pub head : ℕ
  pub tail : ℕ

abbrev pub buf_size : ℕ
buf_size = 128

-- `sc_normal`, 0x60 characters
abbrev pub sc_normal : List ℕ
sc_normal =
    codes "\0\01234567890-="
    ++ (codes "\0\0qwertyuiop[]"
        ++ (codes "\0\0asdfghjkl;'`"
            ++ (codes "\0\\zxcvbnm,./" ++ (codes "\0\0\0 " ++ replicate 38 0))))

-- `sc_shift`
abbrev pub sc_shift : List ℕ
sc_shift =
    codes "\0\0!@#$%^&*()_+"
    ++ (codes "\0\0QWERTYUIOP{}"
        ++ (codes "\0\0ASDFGHJKL:\"~"
            ++ (codes "\0|ZXCVBNM<>?" ++ (codes "\0\0\0 " ++ replicate 38 0))))

abbrev pub enter_key : ℕ
enter_key = 0x1C

unfoldable pub kb_buf_push : ℕ → Keyboard → Keyboard
kb_buf_push c k =
    let next = (k.head + 1) % buf_size in
    if next == k.tail then k else record k { buf = set k.buf k.head c; head = next }

-- The end of `translate_scancode`: what caps lock makes of a character.
unfoldable pub apply_caps : Bool → Bool → ℕ → ℕ
apply_caps caps shift c =
    if caps && (leb b'a' c && leb c b'z')
    then c - 32
    else if caps && ((leb b'A' c && leb c b'Z') && not shift)
    then c + 32
    else c

-- What a key of the tables gives: 0 for a key without a character.
abbrev pub key_char : Keyboard → ℕ → ℕ
key_char k c = if c == 0 then 0 else apply_caps k.caps k.shift c

abbrev pub key_result : Keyboard → Option ℕ → Option (ℕ × Keyboard)
key_result k none = none
key_result k (some c) = some (key_char k c, k)

-- The character, 0 for none, and the new state; `none` is a read behind the end of a table.
unfoldable pub translate_scancode : ℕ → Keyboard → Option (ℕ × Keyboard)
translate_scancode sc k =
    if has_bit sc 7
    then (let make = low_bits sc 7 in
        if make == 0x2A || make == 0x36 then some (0, record k { shift = false }) else some (0, k))
    else if sc == enter_key
    then some (10, k)
    else if sc == 0x0E
    then some (8, k)
    else if sc == 0x2A || sc == 0x36
    then some (0, record k { shift = true })
    else if sc == 0x3A
    then some (0, record k { caps = not k.caps })
    else key_result k (get_elem? (if k.shift then sc_shift else sc_normal) sc)

abbrev pub push_result : Option (ℕ × Keyboard) → Option Keyboard
push_result none = none
push_result (some (c, k)) = some (if c == 0 then k else kb_buf_push c k)

-- `keyboard_irq_handler`, with the byte that the port gives.
unfoldable pub irq_handler : ℕ → Keyboard → Option Keyboard
irq_handler sc k = push_result (translate_scancode sc k)

-- `keyboard_getchar`: `none` while it waits for an interrupt.
unfoldable pub getchar : Keyboard → Option (ℕ × Keyboard)
getchar k =
    if k.tail == k.head
    then none
    else some (get_or k.buf k.tail 0, record k { tail = (k.tail + 1) % buf_size })

unfoldable pub init_keyboard : Keyboard → Keyboard
init_keyboard k = record k { shift = false; caps = false; head = 0; tail = 0 }
