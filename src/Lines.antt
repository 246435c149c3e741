-- ===== src/Lines.antt =====
-- lib/readline.c, and the output buffer of lib/printf.c.
pub mod Laws
mod Tests
use jos_miles.Prelude.{
  ℕ, zero, suc, ◌+◌, ◌-◌, ◌%◌, Bool, true, false, ◌&&◌, ◌||◌, Option, none, some, List, [], ◌∷◌,
  ◌++◌, ltb, leb, ◌==◌, if◌then◌else◌,
}
use jos_miles.Kernel.{update}

-- BUFLEN
abbrev pub buflen : ℕ
buflen = 1024

-- How readline ends: with a line of that many characters in the buffer, with an error, or with its
-- input used up, where it waits for more.
pub data Read : Type 0 where
  line : ℕ → (ℕ → ℕ) → Read
  read_error : Read
  waiting : Read

-- The loop of readline on what getchar gives next (`none` is a negative result), with `i` characters
-- in `buf`. What goes to the screen is not kept.
unfoldable pub readline_loop : List (Option ℕ) → ℕ → (ℕ → ℕ) → Read
readline_loop [] i buf = waiting
readline_loop (none ∷ input) i buf = read_error
readline_loop (some c ∷ input) i buf =
    if ((c == 0x08) || (c == 0x7f)) && ltb 0 i
    then readline_loop input (i - 1) buf
    else if leb 0x20 c && ltb i (buflen - 1)
    then readline_loop input (i + 1) (update buf i (c % 256))
    else if (c == 0x0a) || (c == 0x0d)
    then line i (update buf i 0)
    else readline_loop input i buf

unfoldable pub readline : List (Option ℕ) → (ℕ → ℕ) → Read
unfolding readline_loop
readline input buf = readline_loop input 0 buf

-- `struct printbuf`, and all that sys_cputs has printed.
pub record Printbuf : Type 0 where
  pub idx : ℕ
  pub cnt : ℕ
  pub buf : ℕ → ℕ
  pub printed : List ℕ

-- The first n characters of a buffer.
unfoldable pub chars : (ℕ → ℕ) → ℕ → List ℕ
chars buf zero = []
chars buf (suc n) = chars buf n ++ (buf n ∷ [])

-- The characters in front of the first 0.
unfoldable pub until_nul : List ℕ → List ℕ
until_nul [] = []
until_nul (c ∷ cs) = if c == 0 then [] else c ∷ until_nul cs

-- `sys_cputs(b->buf, b->idx)`: the kernel prints with `%.*s`, which stops at a 0.
unfoldable pub flush : Printbuf → Printbuf
unfolding chars until_nul
flush b = record b { printed = b.printed ++ until_nul (chars b.buf b.idx) }

-- `buf` is an array of char: the character loses all but its low byte.
unfoldable pub putch : ℕ → Printbuf → Printbuf
unfolding flush
putch ch b =
    let b1 = record b { buf = update b.buf b.idx (ch % 256); idx = suc b.idx } in
    let b2 = if b1.idx == 256 - 1 then record (flush b1) { idx = 0 } else b1 in
    record b2 { cnt = b2.cnt + 1 }

-- vprintfmt calls putch for one character after the other.
unfoldable pub put_all : List ℕ → Printbuf → Printbuf
put_all [] b = b
put_all (ch ∷ chs) b = put_all chs (putch ch b)

-- What vcprintf has printed when vprintfmt emits `chs`, and its result.
unfoldable pub vcprintf : List ℕ → (ℕ → ℕ) → List ℕ × ℕ
unfolding put_all flush
vcprintf chs buf =
    let b = put_all chs (record { idx = 0; cnt = 0; buf = buf; printed = [] }) in
    ((flush b).printed, b.cnt)
