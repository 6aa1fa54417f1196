-- ===== src/Ports.antt =====
-- The port instructions of src/kernel/io.h. What they do is up to the machine: the state behind
-- the ports is a parameter.
use vidga_os.Base.{ℕ}

pub record Bus (P : Type 0) : Type 0 where
  pub inb : ℕ → P → ℕ × P
  pub outb : ℕ → ℕ → P → P
  pub inw : ℕ → P → ℕ × P
  pub outw : ℕ → ℕ → P → P
