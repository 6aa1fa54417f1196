-- ===== src/Examples/Interrupts.antt =====
-- The theorems on the interrupts on a bus that keeps what is written to it.
use vidga_os.Base.{
  ℕ, ◌+◌, ◌-◌, ◌%◌, ◌^◌, ◌≡◌, refl, false, none, some, List, [], ◌∷◌, arith, get_or, replicate, u32,
  length-replicate,
}
use vidga_os.Ports.{Bus}
use vidga_os.Keyboard.{Keyboard}
use vidga_os.Idt.{
  Gate, Machine, gate_of, irq_install_handler, init_keyboard, pit_tick, call, eoi, idt_load,
  pit_init, pic_remap, idt_set_gate, stub_gates, zero_loop, handler_for, irq_handler, idt_init,
}
use vidga_os.Idt.Gates.{IsGate, idt_init-IsGate}
use vidga_os.Idt.Requests.{kernel_handlers, count, served, irq_handler-served}
use vidga_os.Idt.Traces.{Serves, idle, request, Serves-boot}

-- Every port reads as the scancode of the key A.
abbrev logging : Bus (List (ℕ × ℕ))
logging = record {
  inb = λ port p. (0x1E, p);
  outb = λ port val p. (port, val) ∷ p;
  inw = λ port p. (0, p);
  outw = λ port val p. (port, val) ∷ p;
}

abbrev no_keys : Keyboard
no_keys = record { shift = false; caps = false; buf = replicate 128 0; head = 0; tail = 0 }

abbrev off : Machine (List (ℕ × ℕ))
off = record {
  ports = [];
  idt = replicate 256 (gate_of 7 7 7);
  idtp_limit = 0;
  idtp_base = 0;
  loaded = none;
  handlers = replicate 16 none;
  pit_ticks = 0;
  keyboard = no_keys;
}

abbrev on : Machine (List (ℕ × ℕ))
on = record off { handlers = kernel_handlers; pit_ticks = 2 ^ 32 - 1 }

-- Stubs at addresses of 32 bits.
abbrev isr_stub : ℕ → ℕ
isr_stub n = 0x100000 + n % 256

abbrev irq_stub : ℕ → ℕ
irq_stub n = 0x200000 + n % 256

idt_init-IsGate_example :
    IsGate 0x200001 0x08 0x8E
      (get_or (idt_init logging 0x300000 isr_stub irq_stub off).idt 33 (gate_of 0 0 0))
    × ((idt_init logging 0x300000 isr_stub irq_stub off).loaded ≡ some (2047, 0x300000))
idt_init-IsGate_example =
    idt_init-IsGate logging 0x300000 isr_stub irq_stub off 33 (gate_of 0 0 0)
      (length-replicate {A = Gate} 256 (gate_of 7 7 7)) (omega arith) (λ k. omega arith)
      (λ k. omega arith)

irq_handler-served_example : irq_handler logging (32 + 9) on ≡ served logging 9 on
irq_handler-served_example = irq_handler-served logging 9 on (omega arith) refl

-- Request 14, then the timer at the last count.
abbrev counting : Machine (List (ℕ × ℕ))
counting = record off { pit_ticks = 2 ^ 32 - 1 }

abbrev booted : Machine (List (ℕ × ℕ))
booted = init_keyboard (idt_init logging 0x300000 isr_stub irq_stub counting)

abbrev after : Machine (List (ℕ × ℕ))
after = eoi logging 0 (pit_tick (eoi logging 14 booted))

run : Serves logging (14 ∷ 0 ∷ []) booted after
unfolding irq_handler call eoi pit_tick handler_for init_keyboard idt_init idt_load pit_init
    pic_remap irq_install_handler idt_set_gate stub_gates zero_loop
run = request refl (request refl idle)

Serves-boot_example :
    (after.handlers ≡ kernel_handlers)
    × (after.pit_ticks ≡ u32 (counting.pit_ticks + count 0 (14 ∷ 0 ∷ [])))
Serves-boot_example =
    Serves-boot logging 0x300000 isr_stub irq_stub (14 ∷ 0 ∷ []) counting after refl
      (omega arith, (omega arith, tt)) (omega arith) run
