-- ===== src/Idt.antt =====
-- The interrupts of src/kernel/idt.c and src/kernel/idt.h, with the timer and what
-- src/drivers/keyboard.c installs. The addresses of the stubs of src/kernel/idt_asm.s and of the
-- table are parameters.
pub mod Gates
pub mod Requests
pub mod Traces
use vidga_os.Base.{
  ℕ, zero, suc, ◌+◌, ◌-◌, ◌*◌, ◌/◌, ◌%◌, ◌^◌, Bool, Option, none, some, List, [], ◌∷◌, ltb,
  if◌then◌else◌, get_or, set, u8, u16, u32, shr,
}
use vidga_os.Ports.{Bus}
use vidga_os.Vga.{int_ge}
use vidga_os.Keyboard.{Keyboard}
use vidga_os.Keyboard as Kbd

-- `struct idt_entry`
pub record Gate : Type 0 where
  pub base_low : ℕ
  pub selector : ℕ
  pub always_zero : ℕ
  pub flags : ℕ
  pub base_high : ℕ

-- The functions that are installed as `irq_handler_t`.
pub data Handler : Type 0 where
  pit_irq_handler : Handler
  keyboard_irq_handler : Handler

-- The state: that behind the ports, `idt`, `idtp`, what `lidt` has loaded, `irq_handlers`,
-- `pit_ticks`, and the variables of the keyboard driver.
pub record Machine (P : Type 0) : Type 0 where
  pub ports : P
  pub idt : List Gate
  pub idtp_limit : ℕ
  pub idtp_base : ℕ
  pub loaded : Option (ℕ × ℕ)
  pub handlers : List (Option Handler)
  pub pit_ticks : ℕ
  pub keyboard : Keyboard

abbrev pub gate_of : ℕ → ℕ → ℕ → Gate
gate_of base sel flags = record {
  base_low = u16 base;
  selector = sel;
  always_zero = 0;
  flags = flags;
  base_high = u16 (shr base 16);
}

-- `irq >= 0 && irq < 16`, for the bit pattern of an `int`
abbrev pub is_irq : ℕ → Bool
is_irq irq = ltb irq 16

module _ {P : Type 0} where
  unfoldable pub idt_set_gate : ℕ → ℕ → ℕ → ℕ → Machine P → Machine P
  idt_set_gate num base sel flags m = record m { idt = set m.idt num (gate_of base sel flags) }

  unfoldable pub irq_install_handler : ℕ → Handler → Machine P → Machine P
  irq_install_handler irq handler m =
      if is_irq irq then record m { handlers = set m.handlers irq (some handler) } else m

  unfoldable pub irq_uninstall_handler : ℕ → Machine P → Machine P
  irq_uninstall_handler irq m =
      if is_irq irq then record m { handlers = set m.handlers irq none } else m

  unfoldable pub init_keyboard : Machine P → Machine P
  init_keyboard m =
      irq_install_handler 1 keyboard_irq_handler
        (record m { keyboard = Kbd.init_keyboard m.keyboard })

  -- `lidt [idtp]`
  unfoldable pub idt_load : Machine P → Machine P
  idt_load m = record m { loaded = some (m.idtp_limit, m.idtp_base) }

  unfoldable pub pit_tick : Machine P → Machine P
  pit_tick m = record m { pit_ticks = u32 (m.pit_ticks + 1) }

  -- `h`, for the bit pattern of `irq`
  unfoldable pub handler_for : ℕ → Machine P → Option Handler
  handler_for irq m = if is_irq irq then get_or m.handlers irq none else none

  abbrev pub with_keyboard : P → Machine P → Option Keyboard → Option (Machine P)
  with_keyboard ports m none = none
  with_keyboard ports m (some k) = some (record m { ports = ports; keyboard = k })

  -- The first loop of `idt_init`, with `left` rounds to go from `i` on.
  unfoldable pub zero_loop : ℕ → ℕ → Machine P → Machine P
  zero_loop zero i m = m
  zero_loop (suc left) i m = zero_loop left (i + 1) (idt_set_gate i 0 0 0 m)

  -- A run of calls of `idt_set_gate`, of `left` stubs from number `i` on, for gates `at + i`.
  unfoldable pub stub_gates : (ℕ → ℕ) → ℕ → ℕ → ℕ → Machine P → Machine P
  stub_gates stub at zero i m = m
  stub_gates stub at (suc left) i m =
      stub_gates stub at left (i + 1) (idt_set_gate (at + i) (stub i) 0x08 0x8E m)

module _ {P : Type 0} (bus : Bus P) where
  abbrev pub outb : ℕ → ℕ → Machine P → Machine P
  outb port val m = record m { ports = bus.outb port val m.ports }

  -- A call of a handler; `none` is a read behind the end of a scancode table.
  unfoldable pub call : Handler → Machine P → Option (Machine P)
  call pit_irq_handler m = some (pit_tick m)
  call keyboard_irq_handler m =
      let (sc, ports) = bus.inb 0x60 m.ports in
      with_keyboard ports m (Kbd.irq_handler sc m.keyboard)

  -- The end of `irq_handler`: the end of the interrupt is sent.
  unfoldable pub eoi : ℕ → Machine P → Machine P
  eoi irq m =
      let slave = if int_ge irq 8 then bus.outb 0xA0 0x20 m.ports else m.ports in
      outb 0x20 0x20 (record m { ports = slave })

  -- `if (h) h(r);`
  abbrev pub call_if : Option Handler → Machine P → Option (Machine P)
  call_if none m = some m
  call_if (some h) m = call h m

  abbrev pub then_eoi : ℕ → Option (Machine P) → Option (Machine P)
  then_eoi irq none = none
  then_eoi irq (some m) = some (eoi irq m)

  -- `irq_handler(r)`, for `r->int_no`
  unfoldable pub irq_handler : ℕ → Machine P → Option (Machine P)
  irq_handler int_no m =
      let irq = u32 (int_no + 2 ^ 32 - 32) in then_eoi irq (call_if (handler_for irq m) m)

  unfoldable pub pic_remap : Machine P → Machine P
  pic_remap m =
      let (mask1, p1) = bus.inb 0x21 m.ports in
      let (mask2, p2) = bus.inb 0xA1 p1 in
      let m1 = outb 0xA0 0x11 (outb 0x20 0x11 (record m { ports = p2 })) in
      let m2 = outb 0xA1 0x28 (outb 0x21 0x20 m1) in
      let m3 = outb 0xA1 0x02 (outb 0x21 0x04 m2) in
      let m4 = outb 0xA1 0x01 (outb 0x21 0x01 m3) in outb 0xA1 mask2 (outb 0x21 mask1 m4)

  -- The number 11932 in two bytes.
  unfoldable pub pit_init : Machine P → Machine P
  pit_init m =
      let m' = outb 0x40 (u8 (shr 11932 8)) (outb 0x40 (u8 11932) (outb 0x43 0x36 m)) in
      irq_install_handler 0 pit_irq_handler m'

  -- `idt_init`, for the addresses of the table and of the stubs.
  unfoldable pub idt_init : ℕ → (ℕ → ℕ) → (ℕ → ℕ) → Machine P → Machine P
  idt_init table isr irq m =
      let m0 = record m { idtp_limit = u16 (8 * 256 - 1); idtp_base = table } in
      let m1 = stub_gates isr 0 32 0 (zero_loop 256 0 m0) in
      let m2 = stub_gates irq 32 16 0 (pic_remap m1) in pit_init (idt_load m2)
