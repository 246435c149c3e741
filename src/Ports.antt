-- ===== src/Ports.antt =====
-- The processor's port instructions that inc/x86.h wraps (inb, outb, outw, insl), as operations of the
-- devices behind the ports. The devices are a parameter: `D` is the type of their state.
use jos_miles.Prelude.{ℕ}

pub record Ports (D : Type 0) : Type 0 where
  pub inb : ℕ → D → ℕ × D
  pub outb : ℕ → ℕ → D → D
  pub outw : ℕ → ℕ → D → D
  -- The bytes that so many 32-bit words from the port make in memory.
  pub insl : ℕ → ℕ → D → (ℕ → ℕ) × D
