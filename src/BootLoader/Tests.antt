-- ===== src/BootLoader/Tests.antt =====
-- The boot loader on a disk whose image has one segment of 600 bytes, for address 0x100000.
use jos_miles.Prelude.{
  ℕ, zero, suc, ◌≤◌, ◌+◌, ◌-◌, ◌*◌, ◌%◌, ◌^◌, ◌<◌, ◌≡◌, refl, some, ◌==◌, if◌then◌else◌, ltb, arith,
}
use jos_miles.Kernel.{update}
use jos_miles.Ports.{Ports}
use jos_miles.Elf.{elf_at, proghdr_at}
use jos_miles.BootLoader.{entered, bootmain}
use jos_miles.BootLoader.Disk.{IsDisk}
use jos_miles.BootLoader.Segment.{image_byte}
use jos_miles.BootLoader.Image.{IsBootable, SegmentLoaded, segment, bootmain-loaded}

abbrev kernel_image : ℕ → ℕ
kernel_image b =
    if b == 0
    then 0x7f
    else if b == 1
    then 0x45
    else if b == 2
    then 0x4c
    else if b == 3
    then 0x46
    else if b == 24
    then 0x0c
    else if b == 26
    then 0x10
    else if b == 28
    then 52
    else if b == 44
    then 1
    else if b == 57
    then 0x10
    else if b == 66
    then 0x10
    else if b == 72
    then 0x58
    else if b == 73
    then 2
    else if ltb b 84
    then 0
    else b % 7

-- The registers of the drive and the sector it was asked for.
record Drive : Type 0 where
  regs : ℕ → ℕ
  wanted : ℕ

abbrev sector : ℕ → ℕ → ℕ
sector n i = kernel_image (512 * n + i - 512)

abbrev drive_ports : Ports Drive
drive_ports = record {
  inb = λ port d. (0x40, d);
  outb = λ port v d.
      if port == 0x1f7
      then record d {
        wanted =
            d.regs 0x1f3
            + 2 ^ 8 * d.regs 0x1f4
            + 2 ^ 16 * d.regs 0x1f5
            + 2 ^ 24 * (d.regs 0x1f6 % 16);
      }
      else record d { regs = update d.regs port v };
  outw = λ port v d. d;
  insl = λ port n d. (sector d.wanted, d);
}

drive-IsDisk : IsDisk drive_ports sector 1
drive-IsDisk = record {
  busy = λ d. 0;
  reg = λ d. d.regs;
  asked = λ d. d.wanted;
  patience = λ d. omega arith;
  ready = λ d h. refl;
  waiting = λ d h. absurd (h refl);
  poll = λ d. refl;
  poll_asked = λ d. refl;
  write = λ d r r' v lo hi. ground arith;
  command = λ d. refl;
  content = λ d i h lt. refl;
}

abbrev image : ℕ → ℕ
image = image_byte sector

-- Of its one segment.
high : (j : ℕ) → j < 1 → 0x11000 ≤ (segment image j).p_pa
unfolding elf_at proghdr_at
high zero h = omega arith
high (suc j) h = absurd (omega arith)

ends : (j : ℕ) → j < 1 → (segment image j).p_pa + (segment image j).p_memsz + 512 ≤ 2 ^ 32
unfolding elf_at proghdr_at
ends zero h = omega arith
ends (suc j) h = absurd (omega arith)

agree : (j : ℕ) → j < 1 → (segment image j).p_pa % 512 ≡ (segment image j).p_offset % 512
unfolding elf_at proghdr_at
agree zero h = refl
agree (suc j) h = absurd (omega arith)

on_disk : (j : ℕ) → j < 1 → (segment image j).p_offset + (segment image j).p_memsz + 2048 < 2 ^ 37
unfolding elf_at proghdr_at
on_disk zero h = omega arith
on_disk (suc j) h = absurd (omega arith)

short : (j : ℕ) → j < 1 → (segment image j).p_memsz + 1024 < 512 * 16
unfolding elf_at proghdr_at
short zero h = omega arith
short (suc j) h = absurd (omega arith)

image-IsBootable : IsBootable image 16
unfolding elf_at
image-IsBootable = record {
  magic = refl;
  headers = omega arith;
  high = high;
  ends = ends;
  agree = agree;
  on_disk = on_disk;
  short = short;
  apart = λ i j hi hj ne. absurd (omega arith);
}

bootmain-loaded_example :
    (mem' : ℕ → ℕ) × (d' : Drive) × (bootmain drive_ports 1 16
        (λ a. 0)
        (record { regs = λ r. 0; wanted = 0 })
      ≡ some (entered 0x10_000c mem' d'))
    × ((j : ℕ) → j < 1 → SegmentLoaded image j mem')
unfolding elf_at
bootmain-loaded_example =
    bootmain-loaded drive_ports sector 1 drive-IsDisk 1 (omega arith) 16 image-IsBootable (λ a. 0)
      (record { regs = λ r. 0; wanted = 0 }) (omega arith)
