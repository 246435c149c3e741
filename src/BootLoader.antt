-- ===== src/BootLoader.antt =====
-- The boot loader (boot/main.c): it reads the kernel's image from the disk into physical memory.
--
-- Memory holds bytes. The disk is behind the ports; the loops that wait for it have fuel, and so has
-- the loop over sectors.
pub mod Disk
pub mod Segment
pub mod Image
mod Tests
use jos_miles.Prelude.{
  ℕ, zero, suc, ◌+◌, ◌-◌, ◌*◌, ◌/◌, ◌%◌, ◌^◌, Option, none, some, ltb, leb, ◌==◌, ◌&&◌,
  if◌then◌else◌, bit_and, bit_or, not,
}
use jos_miles.Prelude.Options.{◌>>=◌}
use jos_miles.Mmu.{u32}
use jos_miles.Ports.{Ports}
use jos_miles.Elf.{Elf, Proghdr, elf_magic, sizeof_proghdr, elf_at, proghdr_at}

abbrev pub sectsize : ℕ
sectsize = 512

-- ELFHDR
abbrev pub elfhdr : ℕ
elfhdr = 0x10000

-- How bootmain ends: in the kernel, or in the endless loop at `bad`, after its two words to the port.
pub data Ending (D : Type 0) : Type 0 where
  entered : ℕ → (ℕ → ℕ) → D → Ending D
  bad : (ℕ → ℕ) → D → Ending D

module _ {D : Type 0} (ports : Ports D) where
  -- `while ((inb(0x1F7) & 0xC0) != 0x40)`
  unfoldable pub waitdisk : ℕ → D → Option D
  waitdisk zero d = none
  waitdisk (suc fuel) d =
      let (status, d') = ports.inb 0x1f7 d in
      let rest = waitdisk fuel d' in if bit_and status 0xc0 == 0x40 then some d' else rest

  -- The numbers of the sector and the command go to the ports as bytes.
  unfoldable pub select_sector : ℕ → D → D
  select_sector offset d =
      let d1 = ports.outb 0x1f2 1 d in
      let d2 = ports.outb 0x1f3 (offset % 256) d1 in
      let d3 = ports.outb 0x1f4 (offset / 2 ^ 8 % 256) d2 in
      let d4 = ports.outb 0x1f5 (offset / 2 ^ 16 % 256) d3 in
      let d5 = ports.outb 0x1f6 (bit_or (offset / 2 ^ 24) 0xe0 % 256) d4 in ports.outb 0x1f7 0x20 d5

  -- insl puts `sectsize` bytes at `dst`.
  unfoldable pub readsect : ℕ → ℕ → ℕ → (ℕ → ℕ) → D → Option ((ℕ → ℕ) × D)
  unfolding select_sector
  readsect fuel dst offset mem d = waitdisk fuel d >>= λ d1.
      waitdisk fuel (select_sector offset d1) >>= λ d2.
      let (bytes, d3) = ports.insl 0x1f0 (sectsize / 4) d2 in
      some ((λ a. if leb dst a && ltb a (dst + sectsize) then bytes (a - dst) else mem a), d3)

  -- `while (pa < end_pa)`
  unfoldable pub read_sectors : ℕ → ℕ → ℕ → ℕ → ℕ → (ℕ → ℕ) → D → Option ((ℕ → ℕ) × D)
  read_sectors fuel zero end_pa pa offset mem d = none
  read_sectors fuel (suc rounds) end_pa pa offset mem d =
      let next = readsect fuel pa offset mem d >>= λ (mem', d').
      read_sectors fuel rounds end_pa (u32 (pa + sectsize)) (u32 (offset + 1)) mem' d' in
      if ltb pa end_pa then next else some (mem, d)

  unfoldable pub readseg : ℕ → ℕ → ℕ → ℕ → ℕ → (ℕ → ℕ) → D → Option ((ℕ → ℕ) × D)
  unfolding read_sectors
  readseg fuel rounds pa count offset mem d =
      let end_pa = u32 (pa + count) in
      read_sectors fuel rounds end_pa (bit_and pa 0xffff_fe00) (offset / sectsize + 1) mem d

  -- `for (; ph < eph; ph++)`, with the headers that are left. A header is read when its turn comes.
  unfoldable pub load_segments : ℕ → ℕ → ℕ → ℕ → (ℕ → ℕ) → D → Option ((ℕ → ℕ) × D)
  load_segments fuel rounds ph zero mem d = some (mem, d)
  load_segments fuel rounds ph (suc n) mem d =
      let header = proghdr_at mem ph in
      readseg fuel rounds header.p_pa header.p_memsz header.p_offset mem d >>= λ (mem', d').
      load_segments fuel rounds (u32 (ph + sizeof_proghdr)) n mem' d'

  -- The entry point is read from the header after the segments are loaded.
  unfoldable pub bootmain : ℕ → ℕ → (ℕ → ℕ) → D → Option (Ending D)
  bootmain fuel rounds mem d = readseg fuel rounds elfhdr (sectsize * 8) 0 mem d >>= λ (mem1, d1).
      let header = elf_at mem1 elfhdr in
      if not (header.e_magic == elf_magic)
      then some (bad mem1 (ports.outw 0x8a00 0x8e00 (ports.outw 0x8a00 0x8a00 d1)))
      else (load_segments fuel rounds (u32 (elfhdr + header.e_phoff)) header.e_phnum mem1 d1
          >>= λ (mem2, d2). some (entered (elf_at mem2 elfhdr).e_entry mem2 d2))
