-- ===== src/Format.antt =====
-- lib/printfmt.c: numbers, and the buffer of snprintf. Output is the list of the characters that are
-- given to putch. What vprintfmt emits, which Format/Directive models, is an argument of vsnprintf.
pub mod Number
pub mod Buffer
pub mod Directive
pub mod Render
mod Tests
use jos_miles.Prelude.{
  ℕ, zero, suc, ◌+◌, ◌-◌, ◌*◌, ◌/◌, ◌%◌, ◌^◌, Bool, true, false, Option, none, some, List, [], ◌∷◌,
  ◌++◌, ltb, leb, ◌==◌, if◌then◌else◌,
}
use jos_miles.Errno.{Errno}
use jos_miles.Kernel.{update}

-- "0123456789abcdef"[d]
unfoldable pub digit : ℕ → ℕ
digit d = if ltb d 10 then 48 + d else 87 + d

unfoldable pub pads : ℕ → ℕ → List ℕ
pads zero padc = []
pads (suc n) padc = padc ∷ pads n padc

-- A width below 1 gives no padding, like 0. The recursion is on fuel; `num + 1` is enough.
unfoldable pub printnum : ℕ → ℕ → ℕ → ℕ → ℕ → List ℕ
unfolding digit pads
printnum zero num base width padc = []
printnum (suc fuel) num base width padc =
    let more = printnum fuel (num / base) base (width - 1) padc in
    (if leb base num then more else pads (width - 1) padc) ++ (digit (num % base) ∷ [])

-- The next argument as an unsigned number of the size that lflag asks for.
unfoldable pub getuint : ℕ → ℕ → ℕ
getuint lflag arg = if leb 2 lflag then arg % 2 ^ 64 else arg % 2 ^ 32

-- The same, signed, as a 64-bit pattern.
unfoldable pub getint : ℕ → ℕ → ℕ
getint lflag arg =
    if leb 2 lflag
    then arg % 2 ^ 64
    else if ltb (arg % 2 ^ 32) (2 ^ 31)
    then arg % 2 ^ 32
    else arg % 2 ^ 32 + (2 ^ 64 - 2 ^ 32)

-- The directive %d: a sign, and the absolute value in base 10.
unfoldable pub print_signed : ℕ → ℕ → ℕ → ℕ → ℕ → List ℕ
unfolding getint printnum
print_signed fuel lflag arg width padc =
    let num = getint lflag arg in
    if leb (2 ^ 63) num
    then 45 ∷ printnum fuel (2 ^ 64 - num) 10 width padc
    else printnum fuel num 10 width padc

-- `struct sprintbuf`: `buf` and `ebuf` are addresses in `mem`.
pub record Sprintbuf : Type 0 where
  pub buf : ℕ
  pub ebuf : ℕ
  pub cnt : ℕ
  pub mem : ℕ → ℕ

unfoldable pub sprintputch : ℕ → Sprintbuf → Sprintbuf
sprintputch ch b =
    let b1 = record b { cnt = b.cnt + 1 } in
    if ltb b.buf b.ebuf
    then record b1 { buf = b.buf + 1; mem = update b.mem b.buf (ch % 256) }
    else b1

unfoldable pub sprint_all : List ℕ → Sprintbuf → Sprintbuf
sprint_all [] b = b
sprint_all (ch ∷ chs) b = sprint_all chs (sprintputch ch b)

-- The memory afterwards, and the count, none for -E_INVAL. `buf` is NULL if it is 0; `n` is an int,
-- where 0 stands for every value below 1.
unfoldable pub vsnprintf : (ℕ → ℕ) → ℕ → ℕ → List ℕ → (ℕ → ℕ) × Option ℕ
unfolding sprint_all
vsnprintf mem buf n chs =
    let b = sprint_all chs (record { buf = buf; ebuf = buf + n - 1; cnt = 0; mem = mem }) in
    if buf == 0
    then (mem, none)
    else if ltb n 1
    then (mem, none)
    else (update b.mem b.buf 0, some b.cnt)
