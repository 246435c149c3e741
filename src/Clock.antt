-- ===== src/Clock.antt =====
-- The real-time clock's memory (kern/kclock.c, kern/kclock.h), and the size of physical memory that
-- nvram_read and i386_detect_memory of kern/pmap.c read from it.
pub mod Memory
pub mod Tests
use jos_miles.Prelude.{ℕ, ◌+◌, ◌*◌, ◌/◌, ◌%◌, ◌^◌, ◌==◌, if◌then◌else◌, bit_or}
use jos_miles.Mmu.{u32, pgsize, extphysmem}
use jos_miles.Ports.{Ports}

abbrev pub io_rtc : ℕ
io_rtc = 0x070

abbrev pub nvram_baselo : ℕ
nvram_baselo = 0xe + 7

abbrev pub nvram_extlo : ℕ
nvram_extlo = 0xe + 9

module _ {D : Type 0} (ports : Ports D) where
  unfoldable pub mc146818_read : ℕ → D → ℕ × D
  mc146818_read reg d = ports.inb (io_rtc + 1) (ports.outb io_rtc (reg % 256) d)

  unfoldable pub mc146818_write : ℕ → ℕ → D → D
  mc146818_write reg datum d =
      ports.outb (io_rtc + 1) (datum % 256) (ports.outb io_rtc (reg % 256) d)

  unfoldable pub nvram_read : ℕ → D → ℕ × D
  nvram_read r d =
      let (low, d1) = mc146818_read r d in
      let (high, d2) = mc146818_read (r + 1) d1 in (bit_or low (u32 (high * 2 ^ 8)), d2)

  -- `npages` and `npages_basemem`.
  unfoldable pub i386_detect_memory : D → (ℕ × ℕ) × D
  i386_detect_memory d =
      let (base, d1) = nvram_read nvram_baselo d in
      let (ext, d2) = nvram_read nvram_extlo d1 in
      let npages_basemem = u32 (base * 1024) / pgsize in
      let npages_extmem = u32 (ext * 1024) / pgsize in
      let npages =
        if npages_extmem == 0 then npages_basemem else extphysmem / pgsize + npages_extmem in
      ((npages, npages_basemem), d2)
