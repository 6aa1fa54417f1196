-- ===== src/Idt/Traces.antt =====
-- Sequences of interrupt requests after the kernel has installed its handlers.
use vidga_os.Base.{
  ℕ, zero, suc, ◌+◌, ◌^◌, ◌<◌, ◌≡◌, refl, sym, ap, ◌∙◌, Bool, true, false, Option, none, some, List,
  [], ◌∷◌, arith, ◌==◌, if◌then◌else◌, replicate, All, u32,
}
use vidga_os.Ports.{Bus}
use vidga_os.Keyboard.{Keyboard}
use vidga_os.Keyboard as Kbd
use vidga_os.Idt.{
  Machine, init_keyboard, irq_install_handler, idt_load, pit_tick, with_keyboard, call, eoi,
  then_eoi, irq_handler, pit_init, idt_init,
}
use vidga_os.Idt.Gates.{built, built-ports}
use vidga_os.Idt.Requests.{kernel_handlers, count, served, irq_handler-served, irq_handler-handlers}

-- The requests that are served, one after the other.
pub data Serves {P : Type 0} (bus : Bus P) : List ℕ → Machine P → Machine P → Type 0 where
  idle : {m : Machine P} → Serves bus [] m m
  request :
      {n : ℕ} {ns : List ℕ} {m m' m'' : Machine P}
      → irq_handler bus (32 + n) m ≡ some m'
      → Serves bus ns m' m''
      → Serves bus (n ∷ ns) m m''

-- The count after a request, which is the timer's or is not.
add_tick :
    (timer : Bool) (t t' rest : ℕ)
    → t' ≡ (if timer then u32 (t + 1) else t)
    → t < 2 ^ 32
    → (t' < 2 ^ 32) × (u32 (t' + rest) ≡ u32 (t + (if timer then suc rest else rest)))
add_tick true t t' rest e h = (omega arith, omega arith)
add_tick false t t' rest e h = (omega arith, omega arith)

module _ {P : Type 0} (bus : Bus P) where
  -- `idt_init` and `init_keyboard`, as `kernel_main` calls them, leave the timer at request 0, the
  -- keyboard at request 1 and no other handler, if no handler has been installed before.
  idt_init-handlers :
      (table : ℕ) (isr irq : ℕ → ℕ) (m : Machine P)
      → m.handlers ≡ replicate 16 none
      → (init_keyboard (idt_init bus table isr irq m)).handlers ≡ kernel_handlers
  unfolding init_keyboard idt_init idt_load pit_init irq_install_handler
  idt_init-handlers table isr irq m e =
      let m' = record m { idtp_limit = 2047; idtp_base = table } in
      let kept : (built bus table isr irq m').handlers ≡ replicate 16 none =
        ap (λ (x : Machine P). x.handlers) (built-ports bus table isr irq m').1 ∙ e in
      rw kept refl

  idt_init-ticks :
      (table : ℕ) (isr irq : ℕ → ℕ) (m : Machine P)
      → (init_keyboard (idt_init bus table isr irq m)).pit_ticks ≡ m.pit_ticks
  unfolding init_keyboard idt_init idt_load pit_init irq_install_handler
  idt_init-ticks table isr irq m =
      ap (λ (x : Machine P). x.pit_ticks)
        (built-ports bus table isr irq (record m { idtp_limit = 2047; idtp_base = table })).1

  ticks_or : ℕ → Option (Machine P) → ℕ
  ticks_or t none = t
  ticks_or t (some m) = m.pit_ticks

  keyboard-ticks :
      (ports : P) (m : Machine P) (k : Option Keyboard)
      → ticks_or m.pit_ticks (then_eoi bus 1 (with_keyboard ports m k)) ≡ m.pit_ticks
  unfolding ticks_or eoi
  keyboard-ticks ports m none = refl
  keyboard-ticks ports m (some k) = refl

  served-ticks :
      (n : ℕ) (m : Machine P)
      → ticks_or m.pit_ticks (served bus n m)
        ≡ (if n == 0 then u32 (m.pit_ticks + 1) else m.pit_ticks)
  unfolding ticks_or eoi pit_tick call
  served-ticks zero m = refl
  served-ticks (suc zero) m =
      keyboard-ticks _ m (Kbd.irq_handler (bus.inb 0x60 m.ports).0 m.keyboard)
  served-ticks (suc (suc n)) m = ground arith

  request-ticks :
      (n : ℕ) (m m' : Machine P)
      → n < 16
      → m.handlers ≡ kernel_handlers
      → irq_handler bus (32 + n) m ≡ some m'
      → m'.pit_ticks ≡ (if n == 0 then u32 (m.pit_ticks + 1) else m.pit_ticks)
  unfolding ticks_or
  request-ticks n m m' lt h e =
      ap (ticks_or m.pit_ticks) (sym e ∙ irq_handler-served bus n m lt h) ∙ served-ticks n m

  -- From a state with these handlers, whatever requests are served, in any order, the handlers
  -- stay, and `pit_ticks` has grown by the number of timer requests among them, modulo 2 ^ 32.
  Serves-ticks :
      (ns : List ℕ) (m m' : Machine P)
      → m.handlers ≡ kernel_handlers
      → All (λ n. n < 16) ns
      → m.pit_ticks < 2 ^ 32
      → Serves bus ns m m'
      → (m'.handlers ≡ kernel_handlers) × (m'.pit_ticks ≡ u32 (m.pit_ticks + count 0 ns))
  unfolding count
  Serves-ticks [] m m' h lt small idle = (h, omega arith)
  Serves-ticks (n ∷ ns) m m'' h (lt, lts) small (request {m' = m'} e rest) =
      let (small', sum) =
        add_tick (n == 0) m.pit_ticks m'.pit_ticks (count 0 ns) (request-ticks n m m' lt h e)
          small in
      let handlers = irq_handler-handlers bus (32 + n) m m' e ∙ h in
      let (kept, total) = Serves-ticks ns m' m'' handlers lts small' rest in (kept, total ∙ sum)

  -- After `idt_init` and `init_keyboard`, where no handler has been installed before, whatever
  -- requests are served, in any order, the timer stays installed at request 0 and the keyboard at
  -- request 1, with no other handler, and `pit_ticks` has grown by the number of timer requests
  -- among those served, modulo 2 ^ 32.
  pub Serves-boot :
      (table : ℕ) (isr irq : ℕ → ℕ) (ns : List ℕ) (m m' : Machine P)
      → m.handlers ≡ replicate 16 none
      → All (λ n. n < 16) ns
      → m.pit_ticks < 2 ^ 32
      → Serves bus ns (init_keyboard (idt_init bus table isr irq m)) m'
      → (m'.handlers ≡ kernel_handlers) × (m'.pit_ticks ≡ u32 (m.pit_ticks + count 0 ns))
  Serves-boot table isr irq ns m m' h lt small run =
      let booted = init_keyboard (idt_init bus table isr irq m) in
      let same = idt_init-ticks table isr irq m in
      let (kept, total) =
        Serves-ticks ns booted m' (idt_init-handlers table isr irq m h) lt (rw same small) run in
      (kept, total ∙ ap (λ t. u32 (t + count 0 ns)) same)
