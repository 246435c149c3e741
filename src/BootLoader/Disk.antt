-- ===== src/BootLoader/Disk.antt =====
-- One sector from the disk.
use jos_miles.Prelude.{
  ℕ, zero, suc, ◌+◌, ◌-◌, ◌*◌, ◌/◌, ◌%◌, ◌^◌, ◌≤◌, ◌<◌, ◌≡◌, ◌≢◌, refl, ap, ◌∙◌, some, ltb, leb,
  ◌==◌, ◌&&◌, if◌then◌else◌, bit_and, bit_or, bit_or_split, bit_or-zero, zero-bit_or, ℕ_discrete,
  arith,
}
use jos_miles.Ports.{Ports}
use jos_miles.BootLoader.{waitdisk, select_sector, readsect, sectsize}

-- The behaviour of an IDE disk that the code relies on: it is ready after `busy` more polls of the
-- status port, fewer than `limit`; the ports 0x1f2 to 0x1f6 are registers; the command 0x20 asks for the
-- sector whose 28-bit number they hold; and when it is ready, the data port gives that sector.
pub record IsDisk {D : Type 0} (ports : Ports D) (sector : ℕ → ℕ → ℕ) (limit : ℕ) : Type 0 where
  pub busy : D → ℕ
  pub reg : D → ℕ → ℕ
  pub asked : D → ℕ
  pub patience : (d : D) → busy d < limit
  pub ready : (d : D) → busy d ≡ 0 → bit_and (ports.inb 0x1f7 d).0 0xc0 ≡ 0x40
  pub waiting : (d : D) → busy d ≢ 0 → bit_and (ports.inb 0x1f7 d).0 0xc0 ≢ 0x40
  pub poll : (d : D) → busy (ports.inb 0x1f7 d).1 ≡ busy d - 1
  pub poll_asked : (d : D) → asked (ports.inb 0x1f7 d).1 ≡ asked d
  pub write :
      (d : D) (r r' v : ℕ)
      → 0x1f2 ≤ r
      → r ≤ 0x1f6
      → reg (ports.outb r v d) r' ≡ (if r' == r then v else reg d r')
  pub command :
      (d : D)
      → asked (ports.outb 0x1f7 0x20 d)
        ≡ reg d 0x1f3 + 2 ^ 8 * reg d 0x1f4 + 2 ^ 16 * reg d 0x1f5 + 2 ^ 24 * (reg d 0x1f6 % 16)
  pub content :
      (d : D) (i : ℕ) → busy d ≡ 0 → i < 512 → (ports.insl 0x1f0 128 d).0 i ≡ sector (asked d) i

module _ {D : Type 0} (ports : Ports D) (sector : ℕ → ℕ → ℕ) (limit : ℕ)
    (disk : IsDisk ports sector limit) where
  open disk use {busy, reg, asked}

  waitdisk-ready :
      (fuel : ℕ) (d : D)
      → busy d < fuel
      → (d' : D) × (waitdisk ports fuel d ≡ some d') × (busy d' ≡ 0) × (asked d' ≡ asked d)
  unfolding waitdisk
  waitdisk-ready zero d h = elim h [ ]
  waitdisk-ready (suc fuel) d h = elim (ℕ_discrete (busy d) 0) [
    | yes now ↦ (
      (ports.inb 0x1f7 d).1,
      rw (disk.ready d now) refl,
      omega (arith, disk.poll d),
      disk.poll_asked d,
    )
    | no later ↦
        let (d', run, is_ready, same) =
          waitdisk-ready fuel (ports.inb 0x1f7 d).1 (omega (arith, disk.poll d)) in
        (d', ground (arith, disk.waiting d later, run), is_ready, same ∙ disk.poll_asked d)
  ]

  drive : (q : ℕ) → q < 16 → bit_or q 0xe0 % 256 % 16 ≡ q
  drive q h = ground (arith, bit_or_split 4 0 14 q 0, bit_or-zero q, zero-bit_or 14)

  -- What the four registers hold after they have been written in order.
  written :
      (d : D) (v3 v4 v5 v6 : ℕ)
      → let d' =
          ports.outb 0x1f6 v6 (ports.outb 0x1f5 v5 (ports.outb 0x1f4 v4 (ports.outb 0x1f3 v3 d))) in
        (reg d' 0x1f3 ≡ v3) × (reg d' 0x1f4 ≡ v4) × (reg d' 0x1f5 ≡ v5) × (reg d' 0x1f6 ≡ v6)
  written d v3 v4 v5 v6 =
      let d3 = ports.outb 0x1f3 v3 d in
      let d4 = ports.outb 0x1f4 v4 d3 in
      let d5 = ports.outb 0x1f5 v5 d4 in
      let at =
        λ (e : D) (r r' v : ℕ) (lo : 0x1f2 ≤ r) (hi : r ≤ 0x1f6). disk.write e r r' v lo hi in
      (
        at d5 0x1f6 0x1f3 v6 (omega arith) (omega arith)
            ∙ at d4 0x1f5 0x1f3 v5 (omega arith) (omega arith)
            ∙ at d3 0x1f4 0x1f3 v4 (omega arith) (omega arith)
            ∙ at d 0x1f3 0x1f3 v3 (omega arith) (omega arith),
        at d5 0x1f6 0x1f4 v6 (omega arith) (omega arith)
            ∙ at d4 0x1f5 0x1f4 v5 (omega arith) (omega arith)
            ∙ at d3 0x1f4 0x1f4 v4 (omega arith) (omega arith),
        at d5 0x1f6 0x1f5 v6 (omega arith) (omega arith)
            ∙ at d4 0x1f5 0x1f5 v5 (omega arith) (omega arith),
        at d5 0x1f6 0x1f6 v6 (omega arith) (omega arith),
      )

  -- The number of the sector comes together again from its bytes.
  select_sector_lem :
      (offset : ℕ) (d : D) → offset < 2 ^ 28 → asked (select_sector ports offset d) ≡ offset
  unfolding select_sector
  select_sector_lem offset d h =
      let v6 = bit_or (offset / 2 ^ 24) 0xe0 % 256 in
      let d1 = ports.outb 0x1f2 1 d in
      let (r3, r4, r5, r6) =
        written d1 (offset % 256) (offset / 2 ^ 8 % 256) (offset / 2 ^ 16 % 256) v6 in
      disk.command _ ∙ omega (arith, r3, r4, r5, r6, drive (offset / 2 ^ 24) (omega arith))

  -- With enough fuel for the disk, readsect puts the sector at `dst` and changes nothing else.
  pub readsect-sector :
      (fuel dst offset : ℕ) (mem : ℕ → ℕ) (d : D)
      → limit ≤ fuel
      → offset < 2 ^ 28
      → (mem' : ℕ → ℕ) × (d' : D) × (readsect ports fuel dst offset mem d ≡ some (mem', d'))
        × ((a : ℕ)
            → mem' a
              ≡ (if leb dst a && ltb a (dst + sectsize) then sector offset (a - dst) else mem a))
  unfolding readsect
  readsect-sector fuel dst offset mem d enough h =
      let (d1, run1, _, _) = waitdisk-ready fuel d (omega (arith, disk.patience d)) in
      let d2 = select_sector ports offset d1 in
      let (d3, run2, is_ready, same) = waitdisk-ready fuel d2 (omega (arith, disk.patience d2)) in
      let read = ports.insl 0x1f0 128 d3 in
      let number : asked d3 ≡ offset = same ∙ select_sector_lem offset d1 h in
      (
        λ a. if leb dst a && ltb a (dst + sectsize) then read.0 (a - dst) else mem a,
        read.1,
        rw run1 (rw run2 refl),
        λ a. ground (arith, disk.content d3 (a - dst), ap (λ n. sector n (a - dst)) number),
      )
