-- ===== src/Clock/Memory.antt =====
-- How much memory is found, and that mem_init can map it.
use jos_miles.Prelude.{
  ℕ, ◌+◌, ◌*◌, ◌/◌, ◌^◌, ◌≤◌, ◌<◌, ◌≡◌, ap, ◌∙◌, ◌==◌, if◌then◌else◌, bit_or, bit_or_split,
  bit_or-zero, zero-bit_or, arith,
}
use native.Mathlib.Nat.{mod-eq_of_lt}
use jos_miles.Mmu.{u32, pgsize, extphysmem}
use jos_miles.Ports.{Ports}
use jos_miles.Clock.{
  io_rtc, nvram_baselo, nvram_extlo, mc146818_read, nvram_read, i386_detect_memory,
}

-- The clock behind the two ports: the byte of the register that was selected last is read, and
-- reading and selecting changes none of them.
pub record IsClock {D : Type 0} (ports : Ports D) (byte : D → ℕ → ℕ) : Type 0 where
  pub fits : (d : D) (r : ℕ) → byte d r < 256
  pub read : (d : D) (r : ℕ) → (ports.inb (io_rtc + 1) (ports.outb io_rtc r d)).0 ≡ byte d r
  pub kept :
      (d : D) (r a : ℕ) → byte (ports.inb (io_rtc + 1) (ports.outb io_rtc r d)).1 a ≡ byte d a

two_bytes : (a b : ℕ) → a < 256 → b < 256 → bit_or a (u32 (b * 2 ^ 8)) ≡ a + b * 256
two_bytes a b ha hb = ground (arith, bit_or_split 8 0 b a 0, bit_or-zero a, zero-bit_or b)

-- The arithmetic of i386_detect_memory on the two numbers it reads.
combined :
    (base ext b e : ℕ)
    → base ≡ b
    → ext ≡ e
    → b < 65536
    → e < 65536
    → (if u32 (ext * 1024) / pgsize == 0
        then u32 (base * 1024) / pgsize
        else extphysmem / pgsize + u32 (ext * 1024) / pgsize)
      ≡ (if e / 4 == 0 then b / 4 else 256 + e / 4)
combined base ext b e p q hb he = ground arith

-- Two registers make a number of 16 bits.
abbrev pub word_of : {D : Type 0} → (D → ℕ → ℕ) → D → ℕ → ℕ
word_of byte d r = byte d r + byte d (r + 1) * 256

-- The pages of memory that the clock's registers tell of: 256 and those of the extended memory, or
-- those of the base memory where there are none.
abbrev pub found : {D : Type 0} → (D → ℕ → ℕ) → D → ℕ
found byte d =
    if word_of byte d nvram_extlo / 4 == 0
    then word_of byte d nvram_baselo / 4
    else 256 + word_of byte d nvram_extlo / 4

module _ {D : Type 0} (ports : Ports D) (byte : D → ℕ → ℕ) (clock : IsClock ports byte) where
  reads : (r : ℕ) (e : D) → r < 256 → (mc146818_read ports r e).0 ≡ byte e r
  unfolding mc146818_read
  reads r e h = rw (mod-eq_of_lt h, mc146818_read) (clock.read e r)

  keeps : (r : ℕ) (e : D) (a : ℕ) → r < 256 → byte (mc146818_read ports r e).1 a ≡ byte e a
  unfolding mc146818_read
  keeps r e a h = rw (mod-eq_of_lt h, mc146818_read) (clock.kept e r a)

  -- nvram_read reads two registers.
  nvram_read_lem : (r : ℕ) (d : D) → r < 255 → (nvram_read ports r d).0 ≡ word_of byte d r
  unfolding nvram_read mc146818_read
  nvram_read_lem r d h =
      let d1 = (mc146818_read ports r d).1 in
      let low : (mc146818_read ports r d).0 ≡ byte d r = reads r d (omega arith) in
      let high : (mc146818_read ports (r + 1) d1).0 ≡ byte d (r + 1) =
        reads (r + 1) d1 (omega arith) ∙ keeps r d (r + 1) (omega arith) in
      ap (λ t. bit_or t (u32 ((mc146818_read ports (r + 1) d1).0 * 2 ^ 8))) low
      ∙ ap (λ (t : ℕ). bit_or (byte d r) (u32 (t * 2 ^ 8))) high
      ∙ two_bytes (byte d r) (byte d (r + 1)) (clock.fits d r) (clock.fits d (r + 1))

  nvram_read_kept : (r a : ℕ) (d : D) → r < 255 → byte (nvram_read ports r d).1 a ≡ byte d a
  unfolding nvram_read
  nvram_read_kept r a d h =
      keeps (r + 1) (mc146818_read ports r d).1 a (omega arith) ∙ keeps r d a (omega arith)

  fits_word : (d : D) (r : ℕ) → word_of byte d r < 65536
  fits_word d r = omega (arith, clock.fits d r, clock.fits d (r + 1))

  pub i386_detect_memory_lem : (d : D) → (i386_detect_memory ports d).0.0 ≡ found byte d
  unfolding i386_detect_memory
  i386_detect_memory_lem d =
      let d1 = (nvram_read ports nvram_baselo d).1 in
      let base : (nvram_read ports nvram_baselo d).0 ≡ word_of byte d nvram_baselo =
        nvram_read_lem nvram_baselo d (omega arith) in
      let ext : (nvram_read ports nvram_extlo d1).0 ≡ word_of byte d nvram_extlo =
        nvram_read_lem nvram_extlo d1 (omega arith) ∙ (λ i.
          nvram_read_kept nvram_baselo nvram_extlo d (omega arith) i
          + nvram_read_kept nvram_baselo (nvram_extlo + 1) d (omega arith) i * 256) in
      combined (nvram_read ports nvram_baselo d).0 (nvram_read ports nvram_extlo d1).0
        (word_of byte d nvram_baselo) (word_of byte d nvram_extlo) base ext
        (fits_word d nvram_baselo) (fits_word d nvram_extlo)

  -- At most the 65 MB that 16 bits of kilobytes above 1 MB make.
  pub found-bounded : (d : D) → found byte d ≤ 16639
  found-bounded d = ground (arith, fits_word d nvram_baselo, fits_word d nvram_extlo)
