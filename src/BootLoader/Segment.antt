-- ===== src/BootLoader/Segment.antt =====
-- readseg: a run of sectors, and the segment that lies in it.
use jos_miles.Prelude.{
  ℕ, zero, suc, ◌+◌, ◌-◌, ◌*◌, ◌/◌, ◌%◌, ◌^◌, ◌≤◌, ◌<◌, ◌≡◌, refl, ap, ◌∙◌, some, ltb, leb, ◌&&◌,
  if◌then◌else◌, bit_and, bit_and_split, bit_and-mask, bit_and-zero, arith, true, false, Bool,
}
use jos_miles.Mmu.{u32}
use jos_miles.Ports.{Ports}
use jos_miles.BootLoader.{readsect, read_sectors, readseg}
use jos_miles.BootLoader.Disk.{IsDisk, readsect-sector}

-- Byte b of the disk, and of the kernel's image, which begins in the second sector.
abbrev pub disk_byte : (ℕ → ℕ → ℕ) → ℕ → ℕ
disk_byte sector b = sector (b / 512) (b % 512)

abbrev pub image_byte : (ℕ → ℕ → ℕ) → ℕ → ℕ
image_byte sector b = disk_byte sector (b + 512)

-- The sectors that are read for the addresses from `pa` up to `end_pa`.
abbrev pub sectors : ℕ → ℕ → ℕ
sectors pa end_pa = (end_pa - pa + 511) / 512

abbrev pub within : ℕ → ℕ → ℕ → Bool
within lo n a = leb lo a && ltb a (lo + n)

first_byte :
    (sector : ℕ → ℕ → ℕ) (pa offset a : ℕ)
    → pa ≤ a
    → a < pa + 512
    → disk_byte sector (512 * offset + (a - pa)) ≡ sector offset (a - pa)
first_byte sector pa offset a lo hi =
    let number : (512 * offset + (a - pa)) / 512 ≡ offset = omega arith in
    let place : (512 * offset + (a - pa)) % 512 ≡ a - pa = omega arith in
    λ i. sector (number i) (place i)

later_byte :
    (sector : ℕ → ℕ → ℕ) (pa offset a : ℕ)
    → pa + 512 ≤ a
    → disk_byte sector (512 * (offset + 1) + (a - (pa + 512)))
      ≡ disk_byte sector (512 * offset + (a - pa))
later_byte sector pa offset a h = ap (disk_byte sector) (omega arith)

-- The first sector of a run, and the sectors behind it.
one_more :
    (sector : ℕ → ℕ → ℕ) (pa n offset : ℕ) (mem mem1 mem2 : ℕ → ℕ) (a : ℕ)
    → mem1 a ≡ (if within pa 512 a then sector offset (a - pa) else mem a)
    → mem2 a ≡ (
        if within (pa + 512) (512 * n) a
        then disk_byte sector (512 * (offset + 1) + (a - (pa + 512)))
        else mem1 a)
    → mem2 a
      ≡ (if within pa (512 * suc n) a then disk_byte sector (512 * offset + (a - pa)) else mem a)
one_more sector pa n offset mem mem1 mem2 a first rest =
    ground (arith, first_byte sector pa offset a, later_byte sector pa offset a)

module _ {D : Type 0} (ports : Ports D) (sector : ℕ → ℕ → ℕ) (limit : ℕ)
    (disk : IsDisk ports sector limit) (fuel : ℕ) (enough : limit ≤ fuel) where
  round_run :
      (rounds pa end_pa offset : ℕ) (mem mem1 : ℕ → ℕ) (d d1 : D)
      → ltb pa end_pa ≡ true
      → readsect ports fuel pa offset mem d ≡ some (mem1, d1)
      → pa + 512 < 2 ^ 32
      → offset + 1 < 2 ^ 32
      → read_sectors ports fuel (suc rounds) end_pa pa offset mem d
        ≡ read_sectors ports fuel rounds end_pa (pa + 512) (offset + 1) mem1 d1
  unfolding read_sectors
  round_run rounds pa end_pa offset mem mem1 d d1 more run1 h h' =
      let next : u32 (pa + 512) ≡ pa + 512 = omega arith in
      let next' : u32 (offset + 1) ≡ offset + 1 = omega arith in
      rw more (rw run1 (λ i. read_sectors ports fuel rounds end_pa (next i) (next' i) mem1 d1))

  read_sectors-run :
      (n rounds pa end_pa offset : ℕ) (mem : ℕ → ℕ) (d : D)
      → sectors pa end_pa ≡ n
      → n < rounds
      → end_pa + 512 ≤ 2 ^ 32
      → offset + n < 2 ^ 28
      → (mem' : ℕ → ℕ) × (d' : D) × (read_sectors ports fuel rounds end_pa pa offset mem d
          ≡ some (mem', d'))
        × ((a : ℕ)
            → mem' a ≡ (
                if within pa (512 * n) a
                then disk_byte sector (512 * offset + (a - pa))
                else mem a))
  unfolding read_sectors
  read_sectors-run n zero pa end_pa offset mem d count lt small fits = elim lt [ ]
  read_sectors-run zero (suc rounds) pa end_pa offset mem d count lt small fits =
      (mem, d, ground arith, λ a. ground arith)
  read_sectors-run (suc n) (suc rounds) pa end_pa offset mem d count lt small fits =
      let (mem1, d1, run1, content) =
        readsect-sector ports sector limit disk fuel pa offset mem d enough (omega arith) in
      let more : ltb pa end_pa ≡ true = ground arith in
      let (mem2, d2, run2, rest) =
        read_sectors-run n rounds (pa + 512) end_pa (offset + 1) mem1 d1 (omega arith) (omega arith)
          small (omega arith) in
      (
        mem2,
        d2,
        round_run rounds pa end_pa offset mem mem1 d d1 more run1 (omega arith) (omega arith)
            ∙ run2,
        λ a. one_more sector pa n offset mem mem1 mem2 a (content a) (rest a),
      )

round_sector : (pa : ℕ) → pa < 2 ^ 32 → bit_and pa 0xffff_fe00 ≡ pa / 512 * 512
round_sector pa h = ground (
  arith,
  bit_and_split 9 (pa / 512) 0x7f_ffff (pa % 512) 0,
  bit_and-mask 23 (pa / 512),
  bit_and-zero (pa % 512),
)

-- The addresses that readseg writes: the sectors that the segment reaches into.
abbrev pub seg_from : ℕ → ℕ
seg_from pa = pa / 512 * 512

abbrev pub seg_size : ℕ → ℕ → ℕ
seg_size pa count = 512 * sectors (seg_from pa) (pa + count)

-- What readseg leaves of memory.
pub record SegmentRead (sector : ℕ → ℕ → ℕ) (pa count offset : ℕ) (mem mem' : ℕ → ℕ) : Type 0 where
  pub bytes : (b : ℕ) → b < count → mem' (pa + b) ≡ image_byte sector (offset + b)
  pub outside : (a : ℕ) → within (seg_from pa) (seg_size pa count) a ≡ false → mem' a ≡ mem a

module _ {D : Type 0} (ports : Ports D) (sector : ℕ → ℕ → ℕ) (limit : ℕ)
    (disk : IsDisk ports sector limit) (fuel : ℕ) (enough : limit ≤ fuel) where
  run_of :
      (rounds pa count offset : ℕ) (mem : ℕ → ℕ) (d : D)
      → pa + count + 512 ≤ 2 ^ 32
      → readseg ports fuel rounds pa count offset mem d
        ≡ read_sectors ports fuel rounds (pa + count) (seg_from pa) (offset / 512 + 1) mem d
  unfolding readseg
  run_of rounds pa count offset mem d h =
      let start = round_sector pa (omega arith) in
      let end : u32 (pa + count) ≡ pa + count = omega arith in
      λ i. read_sectors ports fuel rounds (end i) (start i) (offset / 512 + 1) mem d

  -- A segment whose address and offset agree within their sectors is read: byte for byte it is the
  -- part of the image at the offset, and nothing outside the sectors that it reaches into changes.
  pub readseg-SegmentRead :
      (rounds pa count offset : ℕ) (mem : ℕ → ℕ) (d : D)
      → pa % 512 ≡ offset % 512
      → sectors (seg_from pa) (pa + count) < rounds
      → pa + count + 512 ≤ 2 ^ 32
      → offset / 512 + 1 + sectors (seg_from pa) (pa + count) < 2 ^ 28
      → (mem' : ℕ → ℕ) × (d' : D) × (readseg ports fuel rounds pa count offset mem d
          ≡ some (mem', d'))
        × SegmentRead sector pa count offset mem mem'
  readseg-SegmentRead rounds pa count offset mem d agree lt h fits =
      let n = sectors (seg_from pa) (pa + count) in
      let (mem', d', run, all) =
        read_sectors-run ports sector limit disk fuel enough n rounds (seg_from pa) (pa + count)
          (offset / 512 + 1) mem d refl lt (omega arith) fits in
      (
        mem',
        d',
        run_of rounds pa count offset mem d h ∙ run,
        record {
          bytes = λ b hb.
              let inside : within (seg_from pa) (512 * n) (pa + b) ≡ true = ground arith in
              all (pa + b) ∙ rw inside (ap (disk_byte sector) (omega arith));
          outside = λ a out. all a ∙ rw out refl;
        },
      )
