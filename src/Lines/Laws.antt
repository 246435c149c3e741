-- ===== src/Lines/Laws.antt =====
-- The buffers are neither overrun nor reordered.
use jos_miles.Prelude.{
  ℕ, zero, suc, ◌+◌, ◌-◌, ◌%◌, ◌≤◌, ◌<◌, ◌≡◌, ◌≢◌, refl, sym, ap, ◌∙◌, Option, none, some, List, [],
  ◌∷◌, ◌++◌, arith, ℕ_discrete, append-nil, append_assoc,
}
use jos_miles.Kernel.{update}
use jos_miles.Lines.{
  buflen, line, readline, readline_loop, Printbuf, chars, until_nul, putch, put_all, vcprintf,
}

readline_loop_lem :
    (input : List (Option ℕ)) (i n : ℕ) (buf buf' : ℕ → ℕ)
    → i < buflen
    → readline_loop input i buf ≡ line n buf'
    → (n < buflen) × (buf' n ≡ 0) × ((a : ℕ) → buflen ≤ a → buf' a ≡ buf a)
unfolding readline_loop
readline_loop_lem [] i n buf buf' h e = absurd (ground arith)
readline_loop_lem (none ∷ input) i n buf buf' h e = absurd (ground arith)
readline_loop_lem (some c ∷ input) i n buf buf' h e = ground (
  arith,
  readline_loop_lem input (i - 1) n buf buf',
  readline_loop_lem input (i + 1) n (update buf i (c % 256)) buf',
  readline_loop_lem input i n buf buf',
)

-- A line that readline returns fits the buffer with its terminating 0, and no byte beyond the
-- buffer is written, whatever is typed.
pub readline-bounded :
    (input : List (Option ℕ)) (n : ℕ) (buf buf' : ℕ → ℕ)
    → readline input buf ≡ line n buf'
    → (n < buflen) × (buf' n ≡ 0) × ((a : ℕ) → buflen ≤ a → buf' a ≡ buf a)
unfolding readline
readline-bounded input n buf buf' e = readline_loop_lem input 0 n buf buf' (omega arith) e

chars-update : (n i v : ℕ) (buf : ℕ → ℕ) → n ≤ i → chars (update buf i v) n ≡ chars buf n
unfolding chars
chars-update zero i v buf h = refl
chars-update (suc n) i v buf h = ground (arith, chars-update n i v buf (omega arith))

-- All that has been given to putch: what is printed, and then what waits in the buffer.
abbrev pub given : Printbuf → List ℕ
given b = b.printed ++ chars b.buf b.idx

given-push :
    (b : Printbuf) (ch : ℕ)
    → b.printed ++ chars (update b.buf b.idx ch) (suc b.idx) ≡ given b ++ (ch ∷ [])
unfolding chars
given-push b ch =
    let last : update b.buf b.idx ch b.idx ≡ ch = ground arith in
    rw (chars-update b.idx b.idx ch b.buf (omega arith))
      (rw last (sym (append_assoc b.printed (chars b.buf b.idx) (ch ∷ []))))

-- None of the characters is 0.
abbrev pub NoNul : List ℕ → Type 0
NoNul [] = Unit {0}
NoNul (c ∷ cs) = (c ≢ 0) × NoNul cs

until_nul-NoNul : (cs : List ℕ) → NoNul cs → until_nul cs ≡ cs
unfolding until_nul
until_nul-NoNul [] h = refl
until_nul-NoNul (c ∷ cs) h = ground (arith, h.0, until_nul-NoNul cs h.1)

NoNul-append : (cs : List ℕ) (c : ℕ) → NoNul cs → c ≢ 0 → NoNul (cs ++ (c ∷ []))
NoNul-append [] c h ne = (ne, tt)
NoNul-append (x ∷ cs) c h ne = (h.0, NoNul-append cs c h.1 ne)

-- The buffer after one more character.
abbrev with_char : ℕ → Printbuf → (ℕ → ℕ)
with_char ch b = update b.buf b.idx (ch % 256)

NoNul-push :
    (ch : ℕ) (b : Printbuf)
    → ch % 256 ≢ 0
    → NoNul (chars b.buf b.idx)
    → NoNul (chars (with_char ch b) (suc b.idx))
unfolding chars
NoNul-push ch b ne h =
    let last : with_char ch b b.idx ≡ ch % 256 = ground arith in
    rw (chars-update b.idx b.idx (ch % 256) b.buf (omega arith))
      (rw last (NoNul-append (chars b.buf b.idx) (ch % 256) h ne))

putch_full :
    (ch : ℕ) (b : Printbuf)
    → suc b.idx ≡ 255
    → putch ch b ≡ record {
      idx = 0;
      cnt = b.cnt + 1;
      buf = with_char ch b;
      printed = b.printed ++ until_nul (chars (with_char ch b) (suc b.idx));
    }
unfolding putch
putch_full ch b full = ground arith

putch_room :
    (ch : ℕ) (b : Printbuf)
    → suc b.idx ≢ 255
    → putch ch b ≡ record b { idx = suc b.idx; cnt = b.cnt + 1; buf = with_char ch b }
unfolding putch
putch_room ch b room = ground arith

-- putch adds one byte to what has been given out, and leaves room for the next.
pub putch-given :
    (ch : ℕ) (b : Printbuf)
    → b.idx < 255
    → ch % 256 ≢ 0
    → NoNul (chars b.buf b.idx)
    → (given (putch ch b) ≡ given b ++ (ch % 256 ∷ []))
      × ((putch ch b).idx < 255)
      × ((putch ch b).cnt ≡ b.cnt + 1)
      × NoNul (chars (putch ch b).buf (putch ch b).idx)
unfolding chars
putch-given ch b h ne solid = elim (ℕ_discrete (suc b.idx) 255) [
  | yes full ↦ rw (putch_full ch b full) (
    append-nil (b.printed ++ until_nul (chars (with_char ch b) (suc b.idx)))
        ∙ ap (λ cs. b.printed ++ cs)
            (until_nul-NoNul (chars (with_char ch b) (suc b.idx)) (NoNul-push ch b ne solid))
        ∙ given-push b (ch % 256),
    omega arith,
    refl,
    tt,
  )
  | no room ↦
      rw (putch_room ch b room)
        (given-push b (ch % 256), omega arith, refl, NoNul-push ch b ne solid)
]

-- The number of elements.
unfoldable pub length : List ℕ → ℕ
length [] = 0
length (x ∷ xs) = length xs + 1

-- The low bytes.
unfoldable pub bytes : List ℕ → List ℕ
bytes [] = []
bytes (ch ∷ chs) = ch % 256 ∷ bytes chs

put_all-given :
    (chs : List ℕ) (b : Printbuf)
    → b.idx < 255
    → NoNul (bytes chs)
    → NoNul (chars b.buf b.idx)
    → (given (put_all chs b) ≡ given b ++ bytes chs)
      × ((put_all chs b).cnt ≡ b.cnt + length chs)
      × NoNul (chars (put_all chs b).buf (put_all chs b).idx)
unfolding put_all length bytes
put_all-given [] b h ne solid = (sym (append-nil (given b)), omega arith, solid)
put_all-given (ch ∷ chs) b h ne solid =
    let (one, room, count, solid') = putch-given ch b h ne.0 solid in
    let (all, count', solid'') = put_all-given chs (putch ch b) room ne.1 solid' in
    (
      all ∙ ap (λ xs. xs ++ bytes chs) one ∙ append_assoc (given b) (ch % 256 ∷ []) (bytes chs),
      omega (arith, count, count'),
      solid'',
    )

-- Of characters whose low byte is not 0, vcprintf prints exactly the low bytes, in their order,
-- whatever the buffer held, and returns their number.
pub vcprintf_lem :
    (chs : List ℕ) (buf : ℕ → ℕ)
    → NoNul (bytes chs)
    → ((vcprintf chs buf).0 ≡ bytes chs) × ((vcprintf chs buf).1 ≡ length chs)
unfolding vcprintf chars
vcprintf_lem chs buf ne =
    let start : Printbuf = record { idx = 0; cnt = 0; buf = buf; printed = [] } in
    let b = put_all chs start in
    let (all, count, solid) = put_all-given chs start (omega arith) ne tt in
    (
      ap (λ cs. b.printed ++ cs) (until_nul-NoNul (chars b.buf b.idx) solid) ∙ all,
      omega (arith, count),
    )

-- Printable characters that are typed, and then the return key.
abbrev pub keys : List ℕ → List (Option ℕ)
keys [] = some 0x0d ∷ []
keys (c ∷ cs) = some c ∷ keys cs

abbrev pub Printable : List ℕ → Type 0
Printable [] = Unit {0}
Printable (c ∷ cs) = (0x20 ≤ c) × (c < 0x7f) × Printable cs

-- The characters and a final 0 stand in the buffer from i on.
abbrev pub TextAt : (ℕ → ℕ) → ℕ → List ℕ → Type 0
TextAt buf i [] = buf i ≡ 0
TextAt buf i (c ∷ cs) = (buf i ≡ c) × TextAt buf (i + 1) cs

readline_loop-typed :
    (cs : List ℕ) (i : ℕ) (buf : ℕ → ℕ)
    → Printable cs
    → i + length cs < buflen
    → (buf' : ℕ → ℕ) × (readline_loop (keys cs) i buf ≡ line (i + length cs) buf')
      × TextAt buf' i cs
      × ((a : ℕ) → a < i → buf' a ≡ buf a)
unfolding readline_loop length
readline_loop-typed [] i buf p room =
    (update buf i 0, ground arith, ground arith, λ a h. ground arith)
readline_loop-typed (c ∷ cs) i buf p room =
    let (buf', run, text, kept) =
      readline_loop-typed cs (i + 1) (update buf i (c % 256)) p.2 (omega arith) in
    (
      buf',
      ground (arith, run, p.0, p.1),
      (ground (arith, kept i, p.1), text),
      λ a h. ground (arith, kept a),
    )

-- After fewer than BUFLEN printable characters and the return key, readline returns the line that
-- was typed, ended by a 0.
pub readline-typed :
    (cs : List ℕ) (buf : ℕ → ℕ)
    → Printable cs
    → length cs < buflen
    → (buf' : ℕ → ℕ) × (readline (keys cs) buf ≡ line (length cs) buf') × TextAt buf' 0 cs
unfolding readline
readline-typed cs buf p room =
    let (buf', run, text, _) = readline_loop-typed cs 0 buf p (omega arith) in
    (buf', ground (arith, run), text)
