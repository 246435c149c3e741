-- ===== src/Clock/Tests.antt =====
-- A clock whose registers say 640 KB of base memory and 65472 KB above 1 MB.
use jos_miles.Prelude.{ℕ, ◌==◌, if◌then◌else◌, ◌≡◌, refl, arith}
use jos_miles.Ports.{Ports}
use jos_miles.Clock.{i386_detect_memory, nvram_read, mc146818_read}
use jos_miles.Clock.Memory.{IsClock}

abbrev pub registers : ℕ → ℕ
registers r = if r == 0x15 then 0x80 else if r == 0x16 then 2 else if r == 0x17 then 0xc0 else 0xff

-- The state is the register that was selected.
abbrev pub clock_ports : Ports ℕ
clock_ports = record {
  inb = λ port d. if port == 0x71 then (registers d, d) else (0, d);
  outb = λ port v d. if port == 0x70 then v else d;
  outw = λ port v d. d;
  insl = λ port n d. ((λ i. 0), d);
}

pub clock_ports-IsClock : IsClock clock_ports (λ d. registers)
clock_ports-IsClock = record {
  fits = λ d r. ground arith;
  read = λ d r. refl;
  kept = λ d r a. refl;
}

detected : (i386_detect_memory clock_ports 0).0 ≡ (16624, 160)
unfolding i386_detect_memory nvram_read mc146818_read
detected = refl
