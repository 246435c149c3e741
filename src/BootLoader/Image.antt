-- ===== src/BootLoader/Image.antt =====
-- bootmain: the whole image is read, and the kernel entered.
use mathlib.Core.Path.{subst}
use jos_miles.Prelude.{
  ℕ, zero, suc, ◌+◌, ◌-◌, ◌*◌, ◌%◌, ◌^◌, ◌≤◌, ◌<◌, ◌≡◌, ◌≢◌, refl, ap, ◌∙◌, sym, some, false, ◌⊎◌,
  arith, ℕ_discrete,
}
use jos_miles.Mmu.{u32}
use jos_miles.Ports.{Ports}
use jos_miles.Elf.{Elf, Proghdr, elf_magic, long_at, short_at, elf_at, proghdr_at}
use jos_miles.BootLoader.{entered, elfhdr, readseg, load_segments, bootmain}
use jos_miles.BootLoader.Disk.{IsDisk}
use jos_miles.BootLoader.Segment.{
  image_byte, within, seg_from, seg_size, SegmentRead, readseg-SegmentRead,
}

-- The first page of the image is in memory at ELFHDR.
abbrev pub HeadersRead : (ℕ → ℕ) → (ℕ → ℕ) → Type 0
HeadersRead image mem = (a : ℕ) → elfhdr ≤ a → a < elfhdr + 4096 → mem a ≡ image (a - elfhdr)

module _ (image mem : ℕ → ℕ) (h : HeadersRead image mem) where
  byte_same : (x y : ℕ) → y ≡ elfhdr + x → x < 4096 → mem y ≡ image x
  byte_same x y e lt = h y (omega arith) (omega arith) ∙ ap image (omega arith)

  long_same : (x y : ℕ) → y ≡ elfhdr + x → x + 4 ≤ 4096 → long_at mem y ≡ long_at image x
  long_same x y e lt = omega (
    arith,
    byte_same x y e (omega arith),
    byte_same (x + 1) (y + 1) (omega arith) (omega arith),
    byte_same (x + 2) (y + 2) (omega arith) (omega arith),
    byte_same (x + 3) (y + 3) (omega arith) (omega arith),
  )

  short_same : (x y : ℕ) → y ≡ elfhdr + x → x + 2 ≤ 4096 → short_at mem y ≡ short_at image x
  short_same x y e lt =
      omega (
        arith,
        byte_same x y e (omega arith),
        byte_same (x + 1) (y + 1) (omega arith) (omega arith),
      )

  elf_same : elf_at mem elfhdr ≡ elf_at image 0
  unfolding elf_at
  elf_same = ground (
    arith,
    long_same 0 elfhdr refl (omega arith),
    long_same 24 (elfhdr + 24) refl (omega arith),
    long_same 28 (elfhdr + 28) refl (omega arith),
    short_same 44 (elfhdr + 44) refl (omega arith),
  )

  proghdr_same : (x y : ℕ) → y ≡ elfhdr + x → x + 32 ≤ 4096 → proghdr_at mem y ≡ proghdr_at image x
  unfolding proghdr_at
  proghdr_same x y e lt =
      let field = λ (n : ℕ) (hn : n ≤ 20). long_same (x + n) (y + n) (omega arith) (omega arith) in
      let first = long_same x y e (omega arith) in
      let s4 = field 4 (omega arith) in
      let s8 = field 8 (omega arith) in
      let s12 = field 12 (omega arith) in
      let s16 = field 16 (omega arith) in
      let s20 = field 20 (omega arith) in
      λ i. record {
        p_type = first i;
        p_offset = s4 i;
        p_va = s8 i;
        p_pa = s12 i;
        p_filesz = s16 i;
        p_memsz = s20 i;
      }

-- Program header j of the image.
abbrev pub segment : (ℕ → ℕ) → ℕ → Proghdr
segment image j = proghdr_at image ((elf_at image 0).e_phoff + 32 * j)

-- An image that the loader can load in the rounds given: an ELF file whose headers lie in its first
-- page, whose segments lie behind the page at ELFHDR, reach into different sectors of memory and end
-- 512 bytes before the end of the address space, with addresses that agree with their offsets within
-- a sector.
pub record IsBootable (image : ℕ → ℕ) (rounds : ℕ) : Type 0 where
  pub magic : (elf_at image 0).e_magic ≡ elf_magic
  pub headers : (elf_at image 0).e_phoff + 32 * (elf_at image 0).e_phnum ≤ 4096
  pub high : (j : ℕ) → j < (elf_at image 0).e_phnum → elfhdr + 4096 ≤ (segment image j).p_pa
  pub ends :
      (j : ℕ)
      → j < (elf_at image 0).e_phnum
      → (segment image j).p_pa + (segment image j).p_memsz + 512 ≤ 2 ^ 32
  pub agree :
      (j : ℕ)
      → j < (elf_at image 0).e_phnum
      → (segment image j).p_pa % 512 ≡ (segment image j).p_offset % 512
  pub on_disk :
      (j : ℕ)
      → j < (elf_at image 0).e_phnum
      → (segment image j).p_offset + (segment image j).p_memsz + 2048 < 2 ^ 37
  pub short :
      (j : ℕ) → j < (elf_at image 0).e_phnum → (segment image j).p_memsz + 1024 < 512 * rounds
  pub apart :
      (i j : ℕ)
      → i < (elf_at image 0).e_phnum
      → j < (elf_at image 0).e_phnum
      → i ≢ j
      → (seg_from (segment image i).p_pa + seg_size (segment image i).p_pa (segment image i).p_memsz
          ≤ seg_from (segment image j).p_pa)
        ⊎ (seg_from (segment image j).p_pa
              + seg_size (segment image j).p_pa (segment image j).p_memsz
            ≤ seg_from (segment image i).p_pa)

-- Segment j stands in memory.
abbrev pub SegmentLoaded : (ℕ → ℕ) → ℕ → (ℕ → ℕ) → Type 0
SegmentLoaded image j mem =
    (b : ℕ)
    → b < (segment image j).p_memsz
    → mem ((segment image j).p_pa + b) ≡ image ((segment image j).p_offset + b)

-- No sector of memory that one of the segments from i on reaches into holds the address.
abbrev Untouched : (ℕ → ℕ) → ℕ → ℕ → ℕ → Type 0
Untouched image i n a =
    (j : ℕ)
    → i ≤ j
    → j < i + n
    → within (seg_from (segment image j).p_pa)
        (seg_size (segment image j).p_pa (segment image j).p_memsz) a
      ≡ false

module _ {D : Type 0} (ports : Ports D) (fuel rounds : ℕ) where
  load_step :
      (ph n : ℕ) (header : Proghdr) (mem mem1 : ℕ → ℕ) (d d1 : D)
      → proghdr_at mem ph ≡ header
      → readseg ports fuel rounds header.p_pa header.p_memsz header.p_offset mem d ≡ some (mem1, d1)
      → load_segments ports fuel rounds ph (suc n) mem d
        ≡ load_segments ports fuel rounds (u32 (ph + 32)) n mem1 d1
  unfolding load_segments
  load_step ph n header mem mem1 d d1 e run =
      let here = λ (h : Proghdr). readseg ports fuel rounds h.p_pa h.p_memsz h.p_offset mem d in
      rw (ap here e ∙ run) refl

  enter :
      (mem mem1 mem2 : ℕ → ℕ) (d d1 d2 : D) (header : Elf)
      → readseg ports fuel rounds elfhdr 4096 0 mem d ≡ some (mem1, d1)
      → elf_at mem1 elfhdr ≡ header
      → header.e_magic ≡ elf_magic
      → load_segments ports fuel rounds (u32 (elfhdr + header.e_phoff)) header.e_phnum mem1 d1
        ≡ some (mem2, d2)
      → bootmain ports fuel rounds mem d ≡ some (entered (elf_at mem2 elfhdr).e_entry mem2 d2)
  unfolding bootmain
  enter mem mem1 mem2 d d1 d2 header first e magic segments =
      rw first (rw e (rw magic (rw segments refl)))

module _ {D : Type 0} (ports : Ports D) (sector : ℕ → ℕ → ℕ) (limit : ℕ)
    (disk : IsDisk ports sector limit) (fuel : ℕ) (enough : limit ≤ fuel) (rounds : ℕ)
    (boot : IsBootable (image_byte sector) rounds) where
  abbrev image : ℕ → ℕ
  image = image_byte sector

  abbrev phnum : ℕ
  phnum = (elf_at image 0).e_phnum

  abbrev header_at : ℕ → ℕ
  header_at i = elfhdr + (elf_at image 0).e_phoff + 32 * i

  read_segment :
      (i : ℕ) (mem : ℕ → ℕ) (d : D)
      → i < phnum
      → (mem' : ℕ → ℕ) × (d' : D) × (readseg ports fuel rounds
            (segment image i).p_pa
            (segment image i).p_memsz
            (segment image i).p_offset
            mem
            d
          ≡ some (mem', d'))
        × SegmentRead sector
            (segment image i).p_pa
            (segment image i).p_memsz
            (segment image i).p_offset
            mem
            mem'
  read_segment i mem d h =
      readseg-SegmentRead ports sector limit disk fuel enough rounds (segment image i).p_pa
        (segment image i).p_memsz (segment image i).p_offset mem d (boot.agree i h)
        (omega (arith, boot.short i h)) (boot.ends i h) (omega (arith, boot.on_disk i h))

  headers_kept :
      (i : ℕ) (mem mem' : ℕ → ℕ)
      → i < phnum
      → HeadersRead image mem
      → SegmentRead sector
          (segment image i).p_pa
          (segment image i).p_memsz
          (segment image i).p_offset
          mem
          mem'
      → HeadersRead image mem'
  headers_kept i mem mem' h read r a lo hi =
      r.outside a (ground (arith, boot.high i h)) ∙ read a lo hi

  -- A byte of segment i lies in none of the sectors of the others.
  Untouched-segment :
      (i n b : ℕ)
      → i < phnum
      → suc i + n ≤ phnum
      → b < (segment image i).p_memsz
      → Untouched image (suc i) n ((segment image i).p_pa + b)
  Untouched-segment i n b h fits hb j lo hi = ground (arith, boot.apart i j h)

  load_segments-loaded :
      (n i : ℕ) (mem : ℕ → ℕ) (d : D)
      → i + n ≤ phnum
      → HeadersRead image mem
      → (mem' : ℕ → ℕ) × (d' : D) × (load_segments ports fuel rounds (header_at i) n mem d
          ≡ some (mem', d'))
        × ((j : ℕ) → i ≤ j → j < i + n → SegmentLoaded image j mem')
        × ((a : ℕ) → Untouched image i n a → mem' a ≡ mem a)
  unfolding load_segments
  load_segments-loaded zero i mem d fits read =
      (mem, d, refl, λ j lo hi. absurd (omega arith), λ a out. refl)
  load_segments-loaded (suc n) i mem d fits read =
      let h : i < phnum = omega arith in
      let (mem1, d1, run1, r) = read_segment i mem d h in
      let same =
        proghdr_same image mem read ((elf_at image 0).e_phoff + 32 * i) (header_at i) (omega arith)
          (omega (arith, boot.headers)) in
      let step =
        load_step ports fuel rounds (header_at i) n (segment image i) mem mem1 d d1 same run1 in
      let next : u32 (header_at i + 32) ≡ header_at (suc i) = omega (arith, boot.headers) in
      let (mem2, d2, run2, loaded, kept) =
        load_segments-loaded n (suc i) mem1 d1 (omega arith) (headers_kept i mem mem1 h read r) in
      (
        mem2,
        d2,
        step ∙ ap (λ p. load_segments ports fuel rounds p n mem1 d1) next ∙ run2,
        λ j lo hi. elim (ℕ_discrete j i) [
          | yes e ↦
              let own : SegmentLoaded image i mem2 = λ b hb.
                kept ((segment image i).p_pa + b) (Untouched-segment i n b h (omega arith) hb)
                ∙ r.bytes b hb in
              subst (λ t. SegmentLoaded image t mem2) (sym e) own
          | no ne ↦ loaded j (omega arith) (omega arith)
        ],
        λ a out.
            kept a (λ j lo hi. out j (omega arith) (omega arith))
            ∙ r.outside a (out i (omega arith) (omega arith)),
      )

  headers_read :
      (mem mem1 : ℕ → ℕ) → SegmentRead sector elfhdr 4096 0 mem mem1 → HeadersRead image mem1
  headers_read mem mem1 r a lo hi =
      ap mem1 (omega arith) ∙ r.bytes (a - elfhdr) (omega arith) ∙ ap image (omega arith)

  -- From a disk that is ready within the fuel's polls and holds an image that the loader can load in
  -- the rounds given, at least 16, bootmain does not wait or loop for ever: it enters the kernel at
  -- the image's entry point, with every byte of every segment at its address in memory.
  pub bootmain-loaded :
      (mem : ℕ → ℕ) (d : D)
      → 16 ≤ rounds
      → (mem' : ℕ → ℕ) × (d' : D) × (bootmain ports fuel rounds mem d
          ≡ some (entered (elf_at image 0).e_entry mem' d'))
        × ((j : ℕ) → j < phnum → SegmentLoaded image j mem')
  bootmain-loaded mem d few =
      let (mem1, d1, run1, r) =
        readseg-SegmentRead ports sector limit disk fuel enough rounds elfhdr 4096 0 mem d refl
          (omega arith) (omega arith) (omega arith) in
      let read = headers_read mem mem1 r in
      let (mem2, d2, run2, loaded, kept) =
        load_segments-loaded phnum 0 mem1 d1 (omega arith) read in
      let read2 : HeadersRead image mem2 =
        λ a lo hi. kept a (λ j from to. ground (arith, boot.high j)) ∙ read a lo hi in
      (
        mem2,
        d2,
        enter ports fuel rounds mem mem1 mem2 d d1 d2 (elf_at image 0) run1
              (elf_same image mem1 read) boot.magic
              (ap (λ p. load_segments ports fuel rounds p phnum mem1 d1)
                  (omega (arith, boot.headers))
                ∙ run2)
            ∙ ap (λ (e : Elf). some (entered e.e_entry mem2 d2)) (elf_same image mem2 read2),
        λ j h. loaded j (omega arith) (omega arith),
      )
