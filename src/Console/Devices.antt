-- ===== src/Console/Devices.antt =====
-- The devices of the console (kern/console.c): the serial line, the printer and the cursor behind their
-- ports, and the way of a character to all of them.
pub mod Sent
mod Tests
use jos_miles.Prelude.{
  ℕ, zero, suc, ◌+◌, ◌*◌, ◌/◌, ◌%◌, ◌^◌, Bool, true, false, not, Option, none, some, List, [], ◌∷◌,
  ◌==◌, if◌then◌else◌, bit_and, bit_or,
}
use jos_miles.Ports.{Ports}
use jos_miles.Console.{Cons, Crt, cons_getc, cga_plain, scroll}

abbrev pub com1 : ℕ
com1 = 0x3f8

-- The two base addresses of the display's ports.
abbrev pub mono_base : ℕ
mono_base = 0x3b4

abbrev pub cga_base : ℕ
cga_base = 0x3d4

module _ {D : Type 0} (ports : Ports D) where
  unfoldable pub delay : D → D
  delay d =
      let d1 = (ports.inb 0x84 d).1 in
      let d2 = (ports.inb 0x84 d1).1 in let d3 = (ports.inb 0x84 d2).1 in (ports.inb 0x84 d3).1

  -- `for (i = 0; !(inb(port) & mask) && i < n; i++) delay();`
  unfoldable pub wait_for : ℕ → ℕ → ℕ → D → D
  unfolding delay
  wait_for port mask zero d = (ports.inb port d).1
  wait_for port mask (suc n) d =
      let (status, d') = ports.inb port d in
      let rest = wait_for port mask n (delay d') in if bit_and status mask == 0 then rest else d'

  unfoldable pub serial_putc : ℕ → D → D
  unfolding wait_for
  serial_putc c d = ports.outb com1 (c % 256) (wait_for (com1 + 5) 0x20 12800 d)

  unfoldable pub lpt_putc : ℕ → D → D
  unfolding wait_for
  lpt_putc c d =
      let d1 = ports.outb 0x378 (c % 256) (wait_for (0x378 + 1) 0x80 12800 d) in
      let d2 = ports.outb (0x378 + 2) (bit_or (bit_or 0x08 0x04) 0x01) d1 in
      ports.outb (0x378 + 2) 0x08 d2

  -- `if (!(inb(COM1+COM_LSR) & COM_LSR_DATA)) return -1;`
  unfoldable pub serial_proc_data : D → Option ℕ × D
  serial_proc_data d =
      let (status, d1) = ports.inb (com1 + 5) d in
      if bit_and status 0x01 == 0
      then (none, d1)
      else let (c, d2) = ports.inb com1 d1 in (some c, d2)

  -- The serial line works at 9600 baud. Whether it exists, and the devices.
  unfoldable pub serial_init : D → Bool × D
  serial_init d =
      let d1 = ports.outb (com1 + 2) 0 d in
      let d2 = ports.outb (com1 + 3) 0x80 d1 in
      let d3 = ports.outb com1 (115200 / 9600 % 256) d2 in
      let d4 = ports.outb (com1 + 1) 0 d3 in
      let d5 = ports.outb (com1 + 3) 0x03 d4 in
      let d6 = ports.outb (com1 + 4) 0 d5 in
      let d7 = ports.outb (com1 + 1) 0x01 d6 in
      let (lsr, d8) = ports.inb (com1 + 5) d7 in
      let d9 = (ports.inb (com1 + 2) d8).1 in (not (lsr == 0xff), (ports.inb com1 d9).1)

  -- The address of the display's ports and the position of its cursor. `colour` says whether what is
  -- written to the colour display's memory can be read back.
  unfoldable pub cga_init : Bool → D → ℕ × ℕ × D
  cga_init colour d =
      let addr_6845 = if colour then cga_base else mono_base in
      let d1 = ports.outb addr_6845 14 d in
      let (high, d2) = ports.inb (addr_6845 + 1) d1 in
      let d3 = ports.outb addr_6845 15 d2 in
      let (low, d4) = ports.inb (addr_6845 + 1) d3 in
      (addr_6845, bit_or (high * 2 ^ 8) low % 2 ^ 16, d4)

  unfoldable pub move_cursor : ℕ → ℕ → D → D
  move_cursor addr_6845 crt_pos d =
      let d1 = ports.outb addr_6845 14 d in
      let d2 = ports.outb (addr_6845 + 1) (crt_pos / 2 ^ 8 % 256) d1 in
      let d3 = ports.outb addr_6845 15 d2 in ports.outb (addr_6845 + 1) (crt_pos % 256) d3

  -- cons_putc of a character other than a tab.
  unfoldable pub cons_plain : ℕ → ℕ → Crt → D → Crt × D
  unfolding move_cursor
  cons_plain addr_6845 c crt d =
      let crt' = cga_plain c crt in
      (crt', move_cursor addr_6845 crt'.crt_pos (lpt_putc c (serial_putc c d)))

  -- So many spaces, each to all devices.
  unfoldable pub spaces : ℕ → ℕ → Crt → D → Crt × D
  unfolding cons_plain
  spaces addr_6845 zero crt d = (crt, d)
  spaces addr_6845 (suc n) crt d =
      let (crt', d') = cons_plain addr_6845 0x20 crt d in spaces addr_6845 n crt' d'

  -- cga_putc calls cons_putc for the five spaces of a tab.
  unfoldable pub cons_putc : ℕ → ℕ → Crt → D → Crt × D
  unfolding spaces
  cons_putc addr_6845 c crt d =
      if c % 256 == 0x09
      then (let (crt1, d1) = spaces addr_6845 5 crt (lpt_putc c (serial_putc c d)) in
          let crt2 = scroll crt1 in (crt2, move_cursor addr_6845 crt2.crt_pos d1))
      else cons_plain addr_6845 c crt d

  unfoldable pub cons_init : Bool → D → Bool × ℕ × ℕ × D
  unfolding cga_init serial_init
  cons_init colour d =
      let (addr_6845, crt_pos, d1) = cga_init colour d in
      let (serial_exists, d2) = serial_init d1 in (serial_exists, addr_6845, crt_pos, d2)

-- getchar, over what the rounds of polling find.
unfoldable pub getchar : List (List ℕ × List ℕ) → Cons → Option (ℕ × Cons)
getchar [] cons = none
getchar ((serial, kbd) ∷ polls) cons =
    let (c, cons') = cons_getc serial kbd cons in
    let rest = getchar polls cons' in if c == 0 then rest else some (c, cons')
