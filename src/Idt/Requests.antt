-- ===== src/Idt/Requests.antt =====
-- What an interrupt request runs: after any installation, and after the kernel's own.
use vidga_os.Base.{
  ℕ, zero, suc, ◌+◌, ◌-◌, ◌^◌, ◌<◌, ◌≡◌, inl, inr, refl, sym, ap, true, false, Option, none, some,
  List, [], ◌∷◌, arith, ltb, ◌==◌, Bool-cases, if◌then◌else◌, get_or, replicate, u32,
}
use vidga_os.Ports.{Bus}
use vidga_os.Vga.{int_ge}
use vidga_os.Keyboard.{Keyboard}
use vidga_os.Keyboard as Kbd
use vidga_os.Idt.{
  Handler, pit_irq_handler, keyboard_irq_handler, Machine, is_irq, pit_tick, with_keyboard, call,
  call_if, eoi, then_eoi, handler_for, irq_handler,
}

-- The handlers that the kernel installs.
abbrev pub kernel_handlers : List (Option Handler)
kernel_handlers = some pit_irq_handler ∷ some keyboard_irq_handler ∷ replicate 14 none

-- The count of a request among these.
unfoldable pub count : ℕ → List ℕ → ℕ
count n [] = 0
count n (k ∷ ks) = if k == n then suc (count n ks) else count n ks

module _ {P : Type 0} where
  handler_for-kernel :
      (n : ℕ) (m : Machine P)
      → n < 16
      → m.handlers ≡ kernel_handlers
      → handler_for n m ≡ get_or kernel_handlers n none
  unfolding handler_for
  handler_for-kernel n m lt e = let small : is_irq n ≡ true = ground arith in rw (small, e) refl

get_or-none : (k i : ℕ) → get_or (replicate {A = Option Handler} k none) i none ≡ none
get_or-none zero i = refl
get_or-none (suc k) zero = refl
get_or-none (suc k) (suc i) = get_or-none k i

module _ {P : Type 0} (bus : Bus P) where
  -- The byte for the slave controller is sent for the requests from 8 on, and that for the master
  -- always.
  abbrev pub acknowledged : ℕ → P → P
  acknowledged n p = bus.outb 0x20 0x20 (if ltb n 8 then p else bus.outb 0xA0 0x20 p)

  abbrev pub with_end : ℕ → Option (Machine P) → Option (Machine P)
  with_end n none = none
  with_end n (some m) = some (record m { ports = acknowledged n m.ports })

  -- What request `n` does after the kernel's installation.
  abbrev pub served : ℕ → Machine P → Option (Machine P)
  served zero m = with_end 0 (some (pit_tick m))
  served (suc zero) m = with_end 1 (call bus keyboard_irq_handler m)
  served (suc (suc n)) m = with_end (suc (suc n)) (some m)

  eoi-acknowledged :
      (n : ℕ) (m : Machine P) → n < 16 → eoi bus n m ≡ record m { ports = acknowledged n m.ports }
  unfolding eoi
  eoi-acknowledged n m lt = elim (Bool-cases (ltb n 8)) [
    | inl low ↦
        let master : int_ge n 8 ≡ false = ground arith in rw (acknowledged, low, master) refl
    | inr high ↦ let slave : int_ge n 8 ≡ true = ground arith in rw (acknowledged, high, slave) refl
  ]

  then_eoi-with_end : (n : ℕ) (o : Option (Machine P)) → n < 16 → then_eoi bus n o ≡ with_end n o
  then_eoi-with_end n none lt = refl
  then_eoi-with_end n (some m) lt = ap (λ (x : Machine P). some x) (eoi-acknowledged n m lt)

  -- With the kernel's handlers installed and no other, the interrupt 32 + n runs for request 0 the
  -- timer's handler, for request 1 the keyboard's, and none for the others to 15. Where the handler
  -- returns, the end of the interrupt is then sent to the master controller, and for the requests
  -- from 8 on to the slave before.
  pub irq_handler-served :
      (n : ℕ) (m : Machine P)
      → n < 16
      → m.handlers ≡ kernel_handlers
      → irq_handler bus (32 + n) m ≡ served n m
  unfolding irq_handler call
  irq_handler-served zero m lt e =
      rw (handler_for-kernel 0 m lt e) (then_eoi-with_end 0 (some (pit_tick m)) lt)
  irq_handler-served (suc zero) m lt e =
      rw (handler_for-kernel 1 m lt e) (then_eoi-with_end 1 (call bus keyboard_irq_handler m) lt)
  irq_handler-served (suc (suc n)) m lt e =
      let number : u32 (32 + suc (suc n) + 2 ^ 32 - 32) ≡ suc (suc n) = omega arith in
      rw (number, handler_for-kernel (suc (suc n)) m lt e, get_or-none 14 n)
        (then_eoi-with_end (suc (suc n)) (some m) lt)

  handlers_or : List (Option Handler) → Option (Machine P) → List (Option Handler)
  handlers_or hs none = hs
  handlers_or hs (some m) = m.handlers

  keyboard-handlers :
      (ports : P) (m m' : Machine P) (k : Option Keyboard) (irq : ℕ)
      → then_eoi bus irq (with_keyboard ports m k) ≡ some m'
      → m'.handlers ≡ m.handlers
  unfolding eoi handlers_or
  keyboard-handlers ports m m' none irq e = sym (ap (handlers_or m.handlers) e)
  keyboard-handlers ports m m' (some k) irq e = sym (ap (handlers_or m.handlers) e)

  call_if-handlers :
      (irq : ℕ) (h : Option Handler) (m m' : Machine P)
      → then_eoi bus irq (call_if bus h m) ≡ some m'
      → m'.handlers ≡ m.handlers
  unfolding call pit_tick eoi handlers_or
  call_if-handlers irq none m m' e = sym (ap (handlers_or m.handlers) e)
  call_if-handlers irq (some pit_irq_handler) m m' e = sym (ap (handlers_or m.handlers) e)
  call_if-handlers irq (some keyboard_irq_handler) m m' e =
      keyboard-handlers _ m m' (Kbd.irq_handler (bus.inb 0x60 m.ports).0 m.keyboard) irq e

  -- No interrupt changes the installed handlers.
  pub irq_handler-handlers :
      (int_no : ℕ) (m m' : Machine P)
      → irq_handler bus int_no m ≡ some m'
      → m'.handlers ≡ m.handlers
  unfolding irq_handler
  irq_handler-handlers int_no m m' e =
      let irq = u32 (int_no + 2 ^ 32 - 32) in call_if-handlers irq (handler_for irq m) m m' e
