-- ===== src/Console.antt =====
-- kern/console.c: the ring of characters that wait for input, and the text screen. The serial line,
-- the printer and the ports of the keyboard and the cursor are devices; what a device's routine returns
-- before its -1 is an argument.
pub mod Ring
pub mod Screen
pub mod Keyboard
pub mod Held
pub mod Devices
mod Tests
use jos_miles.Prelude.{
  ℕ, zero, suc, ◌+◌, ◌-◌, ◌*◌, ◌/◌, ◌%◌, ◌^◌, ◌&&◌, List, [], ◌∷◌, ltb, leb, ◌==◌, if◌then◌else◌,
  bit_or,
}
use jos_miles.Kernel.{update}

-- CONSBUFSIZE
abbrev pub consbufsize : ℕ
consbufsize = 512

-- `cons`
pub record Cons : Type 0 where
  pub buf : ℕ → ℕ
  pub rpos : ℕ
  pub wpos : ℕ

-- One round of the loop of cons_intr.
unfoldable pub cons_char : ℕ → Cons → Cons
cons_char c cons =
    let wpos = cons.wpos + 1 in
    if c == 0 then cons else record cons {
      buf = update cons.buf cons.wpos (c % 256);
      wpos = if wpos == consbufsize then 0 else wpos;
    }

unfoldable pub cons_intr : List ℕ → Cons → Cons
cons_intr [] cons = cons
cons_intr (c ∷ cs) cons = cons_intr cs (cons_char c cons)

-- The next character of the ring, or 0.
unfoldable pub cons_take : Cons → ℕ × Cons
cons_take cons =
    let rpos = cons.rpos + 1 in
    if cons.rpos == cons.wpos
    then (0, cons)
    else (cons.buf cons.rpos, record cons { rpos = if rpos == consbufsize then 0 else rpos })

-- The result, where `serial` and `kbd` are the characters that polling finds.
unfoldable pub cons_getc : List ℕ → List ℕ → Cons → ℕ × Cons
unfolding cons_intr cons_take
cons_getc serial kbd cons = cons_take (cons_intr kbd (cons_intr serial cons))

abbrev pub crt_cols : ℕ
crt_cols = 80

abbrev pub crt_size : ℕ
crt_size = 25 * 80

pub record Crt : Type 0 where
  pub crt_pos : ℕ
  pub crt_buf : ℕ → ℕ

-- White on black, unless the character brings an attribute.
unfoldable pub with_attribute : ℕ → ℕ
with_attribute c = if c / 256 == 0 then bit_or c 0x700 else c

-- The switch of cga_putc for a character other than a tab.
unfoldable pub cga_put : ℕ → Crt → Crt
cga_put c crt =
    let pos = crt.crt_pos in
    if c % 256 == 0x08
    then (if ltb 0 pos
        then record {
          crt_pos = pos - 1;
          crt_buf = update crt.crt_buf (pos - 1) (bit_or (c / 256 * 256 % 2 ^ 16) 0x20);
        }
        else crt)
    else if c % 256 == 0x0a
    then record crt { crt_pos = (pos + crt_cols) % 2 ^ 16 - (pos + crt_cols) % 2 ^ 16 % crt_cols }
    else if c % 256 == 0x0d
    then record crt { crt_pos = pos - pos % crt_cols }
    else record { crt_pos = (pos + 1) % 2 ^ 16; crt_buf = update crt.crt_buf pos (c % 2 ^ 16) }

-- Makes room for a line at the bottom when the last one is full.
unfoldable pub scroll : Crt → Crt
scroll crt =
    if leb crt_size crt.crt_pos
    then record {
      crt_pos = crt.crt_pos - crt_cols;
      crt_buf = λ i.
          if ltb i (crt_size - crt_cols)
          then crt.crt_buf (i + crt_cols)
          else if ltb i crt_size
          then 0x720
          else crt.crt_buf i;
    }
    else crt

unfoldable pub cga_plain : ℕ → Crt → Crt
unfolding scroll cga_put with_attribute
cga_plain c crt = scroll (cga_put (with_attribute c) crt)

-- A tab is five spaces.
unfoldable pub cga_putc : ℕ → Crt → Crt
unfolding cga_plain
cga_putc c crt =
    if c % 256 == 0x09
    then scroll
        (cga_plain 0x20 (cga_plain 0x20 (cga_plain 0x20 (cga_plain 0x20 (cga_plain 0x20 crt)))))
    else cga_plain c crt
