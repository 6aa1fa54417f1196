-- ===== src/Examples/Screens.antt =====
-- The theorems on the screen at an empty page.
use vidga_os.Base.{◌+◌, ◌*◌, ◌/◌, ◌≡◌, ℕ, refl, [], ◌∷◌, arith, codes, u8}
use vidga_os.Vga.{vga_base, page, print_msg, print_loop, Screen}
use vidga_os.Vga.Page.{
  IsOnPage, SameOffPage, print_msg_page, print_msg_cursor, line_feeds_leave_page,
}
use vidga_os.Examples.Drive.{screen}

abbrev bottom : Screen
bottom = record { mem = λ a. 0; pos = 3840; ports = [] }

print_msg_page_example :
    IsOnPage (print_msg (codes "VidgaOS") 7 screen)
    × SameOffPage screen.mem (print_msg (codes "VidgaOS") 7 screen).mem
print_msg_page_example =
    print_msg_page (codes "VidgaOS") 7 screen (ground arith) (omega arith, refl)

print_msg_cursor_example :
    (hi lo : ℕ) × (hi * 256 + lo ≡ (print_msg (codes "VidgaOS") 7 screen).pos / 2)
    × ((print_msg (codes "VidgaOS") 7 screen).ports
        ≡ (0x3D5, hi)
          ∷ (0x3D4, 0x0E)
          ∷ (0x3D5, lo)
          ∷ (0x3D4, 0x0F)
          ∷ (print_loop (codes "VidgaOS") 7 screen).ports)
print_msg_cursor_example =
    print_msg_cursor (codes "VidgaOS") 7 screen (ground arith) (omega arith, refl)

line_feeds_leave_page_example :
    (print_msg (10 ∷ 10 ∷ b'>' ∷ []) 7 bottom).mem (vga_base + page) ≡ u8 b'>'
line_feeds_leave_page_example =
    line_feeds_leave_page b'>' 7 bottom (omega arith) (omega arith) (ground arith) (ground arith)
