-- ===== src/Idt/Gates.antt =====
-- What `idt_init` leaves in the table.
use vidga_os.Base.{
  ℕ, zero, suc, ◌+◌, ◌-◌, ◌*◌, ◌^◌, ◌≤◌, ◌<◌, ◌≡◌, ◌⊎◌, inl, inr, refl, ap, ◌∙◌, true, some, arith,
  ltb, Bool-cases, if◌then◌else◌, length, get_or, length-set, get_or-set_self, get_or-set_ne,
}
use mathlib.Core.Path.{subst}
use vidga_os.Ports.{Bus}
use vidga_os.Idt.{
  Gate, Machine, gate_of, idt_set_gate, irq_install_handler, idt_load, zero_loop, stub_gates,
  pic_remap, pit_init, idt_init,
}

-- The processor finds the address, of two halves of 16 bits, the selector and the flags in a gate,
-- and the byte between them is zero.
abbrev pub IsGate : ℕ → ℕ → ℕ → Gate → Type 0
IsGate base sel flags g =
    (g.base_low + 2 ^ 16 * g.base_high ≡ base)
    × (g.base_low < 2 ^ 16)
    × (g.base_high < 2 ^ 16)
    × (g.selector ≡ sel)
    × (g.always_zero ≡ 0)
    × (g.flags ≡ flags)

gate_of-IsGate :
    (base sel flags : ℕ) → base < 2 ^ 32 → IsGate base sel flags (gate_of base sel flags)
gate_of-IsGate base sel flags h = (omega arith, omega arith, omega arith, refl, refl, refl)

-- The gate that `idt_init` makes for a stub.
abbrev stub_gate : ℕ → Gate
stub_gate base = gate_of base 0x08 0x8E

-- What it stores as gate `n`.
abbrev expected : (ℕ → ℕ) → (ℕ → ℕ) → ℕ → Gate
expected isr irq n =
    if ltb n 32
    then stub_gate (isr n)
    else if ltb n 48
    then stub_gate (irq (n - 32))
    else gate_of 0 0 0

module _ {P : Type 0} where
  -- The runs of calls change the table alone.
  stub_gates-idt :
      (stub : ℕ → ℕ) (at left i : ℕ) (m : Machine P)
      → stub_gates stub at left i m ≡ record m { idt = (stub_gates stub at left i m).idt }
  unfolding stub_gates idt_set_gate
  stub_gates-idt stub at zero i m = refl
  stub_gates-idt stub at (suc left) i m =
      stub_gates-idt stub at left (i + 1) (idt_set_gate (at + i) (stub i) 0x08 0x8E m)

  zero_loop-idt :
      (left i : ℕ) (m : Machine P)
      → zero_loop left i m ≡ record m { idt = (zero_loop left i m).idt }
  unfolding zero_loop idt_set_gate
  zero_loop-idt zero i m = refl
  zero_loop-idt (suc left) i m = zero_loop-idt left (i + 1) (idt_set_gate i 0 0 0 m)

  length-stub_gates :
      (stub : ℕ → ℕ) (at left i : ℕ) (m : Machine P)
      → length (stub_gates stub at left i m).idt ≡ length m.idt
  unfolding stub_gates idt_set_gate
  length-stub_gates stub at zero i m = refl
  length-stub_gates stub at (suc left) i m =
      length-stub_gates stub at left (i + 1) (idt_set_gate (at + i) (stub i) 0x08 0x8E m)
      ∙ length-set m.idt (at + i) _

  stub_gates-other :
      (stub : ℕ → ℕ) (at left i n : ℕ) (m : Machine P) (d : Gate)
      → (n < at + i) ⊎ (at + i + left ≤ n)
      → get_or (stub_gates stub at left i m).idt n d ≡ get_or m.idt n d
  unfolding stub_gates idt_set_gate
  stub_gates-other stub at zero i n m d h = refl
  stub_gates-other stub at (suc left) i n m d h =
      stub_gates-other stub at left (i + 1) n (idt_set_gate (at + i) (stub i) 0x08 0x8E m) d
        (ground arith)
      ∙ get_or-set_ne m.idt (at + i) n _ d (ground arith)

  stub_gates-own :
      (stub : ℕ → ℕ) (at left i j : ℕ) (m : Machine P) (d : Gate)
      → i ≤ j
      → j < i + left
      → at + j < length m.idt
      → get_or (stub_gates stub at left i m).idt (at + j) d ≡ stub_gate (stub j)
  unfolding stub_gates idt_set_gate
  stub_gates-own stub at zero i j m d h h' r = absurd (omega arith)
  stub_gates-own stub at (suc left) i j m d h h' r =
      let m' = idt_set_gate (at + i) (stub i) 0x08 0x8E m in
      elim (Bool-cases (ltb i j)) [
        | inl later ↦
            stub_gates-own stub at left (i + 1) j m' d (ground arith) (omega arith)
              (omega (arith, length-set m.idt (at + i) (stub_gate (stub i))))
        | inr now ↦
            let same : i ≡ j = ground arith in
            subst
              (λ k. get_or (stub_gates stub at left (i + 1) m').idt (at + k) d ≡ stub_gate (stub k))
              same
              (stub_gates-other stub at left (i + 1) (at + i) m' d (inl (omega arith))
                ∙ get_or-set_self m.idt (at + i) _ d (omega arith))
      ]

  -- The same, at the number of a gate.
  stub_gates-at :
      (stub : ℕ → ℕ) (at left n j : ℕ) (m : Machine P) (d : Gate)
      → at + j ≡ n
      → j < left
      → n < length m.idt
      → get_or (stub_gates stub at left 0 m).idt n d ≡ stub_gate (stub j)
  stub_gates-at stub at left n j m d e h r =
      subst (λ k. get_or (stub_gates stub at left 0 m).idt k d ≡ stub_gate (stub j)) e
        (stub_gates-own stub at left 0 j m d (omega arith) (omega arith) (omega arith))

  length-zero_loop : (left i : ℕ) (m : Machine P) → length (zero_loop left i m).idt ≡ length m.idt
  unfolding zero_loop idt_set_gate
  length-zero_loop zero i m = refl
  length-zero_loop (suc left) i m =
      length-zero_loop left (i + 1) (idt_set_gate i 0 0 0 m) ∙ length-set m.idt i _

  zero_loop-other :
      (left i n : ℕ) (m : Machine P) (d : Gate)
      → n < i
      → get_or (zero_loop left i m).idt n d ≡ get_or m.idt n d
  unfolding zero_loop idt_set_gate
  zero_loop-other zero i n m d h = refl
  zero_loop-other (suc left) i n m d h =
      zero_loop-other left (i + 1) n (idt_set_gate i 0 0 0 m) d (omega arith)
      ∙ get_or-set_ne m.idt i n _ d (ground arith)

  zero_loop-own :
      (left i n : ℕ) (m : Machine P) (d : Gate)
      → i ≤ n
      → n < i + left
      → n < length m.idt
      → get_or (zero_loop left i m).idt n d ≡ gate_of 0 0 0
  unfolding zero_loop idt_set_gate
  zero_loop-own zero i n m d h h' r = absurd (omega arith)
  zero_loop-own (suc left) i n m d h h' r = elim (Bool-cases (ltb i n)) [
    | inl later ↦
        zero_loop-own left (i + 1) n (idt_set_gate i 0 0 0 m) d (ground arith) (omega arith)
          (omega (arith, length-set m.idt i (gate_of 0 0 0)))
    | inr now ↦
        let same : i ≡ n = ground arith in
        subst
          (λ k. get_or (zero_loop left (i + 1) (idt_set_gate i 0 0 0 m)).idt k d ≡ gate_of 0 0 0)
          same
          (zero_loop-other left (i + 1) i (idt_set_gate i 0 0 0 m) d (omega arith)
            ∙ get_or-set_self m.idt i _ d (omega arith))
  ]

module _ {P : Type 0} (bus : Bus P) (table : ℕ) (isr irq : ℕ → ℕ) where
  -- The table, from the calls that change it.
  abbrev pub built : Machine P → Machine P
  built m = stub_gates irq 32 16 0 (pic_remap bus (stub_gates isr 0 32 0 (zero_loop 256 0 m)))

  -- They and `pic_remap` change the table and what is behind the ports alone.
  pub built-ports :
      (m : Machine P) → (ports : P) × (built m ≡ record m { idt = (built m).idt; ports = ports })
  unfolding pic_remap
  built-ports m =
      let m0 = zero_loop 256 0 m in
      let m1 = stub_gates isr 0 32 0 m0 in
      let start : m1 ≡ record m { idt = m1.idt } =
        stub_gates-idt isr 0 32 0 m0
        ∙ ap (λ (x : Machine P). record x { idt = m1.idt }) (zero_loop-idt 256 0 m) in
      (
        _,
        stub_gates-idt irq 32 16 0 (pic_remap bus m1)
            ∙ ap (λ (x : Machine P). record (pic_remap bus x) { idt = (built m).idt }) start,
      )

  built-idt :
      (m : Machine P) (n : ℕ) (d : Gate)
      → length m.idt ≡ 256
      → n < 256
      → get_or (built m).idt n d ≡ expected isr irq n
  unfolding pic_remap
  built-idt m n d len h =
      let m0 = zero_loop 256 0 m in
      let m1 = stub_gates isr 0 32 0 m0 in
      let len0 : length m0.idt ≡ 256 = length-zero_loop 256 0 m ∙ len in
      let len1 : length m1.idt ≡ 256 = length-stub_gates isr 0 32 0 m0 ∙ len0 in
      elim (Bool-cases (ltb n 32)) [
        | inl exception ↦ rw exception (
            stub_gates-other irq 32 16 0 n (pic_remap bus m1) d (ground arith)
            ∙ stub_gates-at isr 0 32 n n m0 d (omega arith) (ground arith) (omega arith))
        | inr other ↦ elim (Bool-cases (ltb n 48)) [
          | inl request ↦
              rw (other, request)
                (stub_gates-at irq 32 16 n (n - 32) (pic_remap bus m1) d (ground arith)
                  (ground arith) (omega arith))
          | inr rest ↦
              rw (other, rest)
                (stub_gates-other irq 32 16 0 n (pic_remap bus m1) d (ground arith)
                  ∙ stub_gates-other isr 0 32 0 n m0 d (ground arith)
                  ∙ zero_loop-own 256 0 n m d (omega arith) (omega arith) (omega arith))
        ]
      ]

  expected-IsGate :
      (n : ℕ)
      → ((k : ℕ) → isr k < 2 ^ 32)
      → ((k : ℕ) → irq k < 2 ^ 32)
      → IsGate
          (if ltb n 32 then isr n else if ltb n 48 then irq (n - 32) else 0)
          (if ltb n 48 then 0x08 else 0)
          (if ltb n 48 then 0x8E else 0)
          (expected isr irq n)
  expected-IsGate n h h' = elim (Bool-cases (ltb n 32)) [
    | inl exception ↦
        let more : ltb n 48 ≡ true = ground arith in
        rw (exception, more) (gate_of-IsGate (isr n) 0x08 0x8E (h n))
    | inr other ↦ elim (Bool-cases (ltb n 48)) [
      | inl request ↦ rw (other, request) (gate_of-IsGate (irq (n - 32)) 0x08 0x8E (h' (n - 32)))
      | inr rest ↦ rw (other, rest) (gate_of-IsGate 0 0 0 (omega arith))
    ]
  ]

  -- In a table of 256 gates, for stubs at addresses of 32 bits, after `idt_init` the halves of
  -- the address in every gate from 0 to 31 are those of the exception's stub, and in every gate
  -- from 32 to 47 those of the stub of the interrupt request 32 below it; these gates have the
  -- selector 0x08 and the flags 0x8E, a present 32-bit interrupt gate of ring 0. In the other gates
  -- all is zero. What `lidt` has loaded is the table, to its last byte.
  pub idt_init-IsGate :
      (m : Machine P) (n : ℕ) (d : Gate)
      → length m.idt ≡ 256
      → n < 256
      → ((k : ℕ) → isr k < 2 ^ 32)
      → ((k : ℕ) → irq k < 2 ^ 32)
      → IsGate
          (if ltb n 32 then isr n else if ltb n 48 then irq (n - 32) else 0)
          (if ltb n 48 then 0x08 else 0)
          (if ltb n 48 then 0x8E else 0)
          (get_or (idt_init bus table isr irq m).idt n d)
        × ((idt_init bus table isr irq m).loaded ≡ some (2047, table))
  unfolding idt_init pit_init irq_install_handler idt_load
  idt_init-IsGate m n d len h hisr hirq =
      let m' = record m { idtp_limit = 2047; idtp_base = table } in
      (
        rw (built-idt m' n d len h) (expected-IsGate n hisr hirq),
        ap (λ (x : Machine P). some (x.idtp_limit, x.idtp_base)) (built-ports m').1,
      )
