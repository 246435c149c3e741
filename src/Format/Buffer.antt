-- ===== src/Format/Buffer.antt =====
-- snprintf stays within its buffer.
use jos_miles.Prelude.{ℕ, ◌+◌, ◌-◌, ◌≤◌, ◌<◌, ◌≡◌, refl, ◌∙◌, ◌⊎◌, some, List, [], ◌∷◌, arith}
use jos_miles.Kernel.{update}
use jos_miles.Lines.Laws.{length}
use jos_miles.Format.{Sprintbuf, sprintputch, sprint_all, vsnprintf}

-- From b0 to b: the buffer has only grown, up to its end, and nothing outside it is written.
record Grown (b0 b : Sprintbuf) (n : ℕ) : Type 0 where
  lower : b0.buf ≤ b.buf
  upper : b.buf ≤ b0.ebuf
  ebuf : b.ebuf ≡ b0.ebuf
  cnt : b.cnt ≡ b0.cnt + n
  outside : (a : ℕ) → (a < b0.buf) ⊎ (b0.ebuf ≤ a) → b.mem a ≡ b0.mem a

sprintputch_lem :
    (ch : ℕ) (b : Sprintbuf)
    → b.buf ≤ b.ebuf
    → ((sprintputch ch b).buf ≤ (sprintputch ch b).ebuf)
      × (b.buf ≤ (sprintputch ch b).buf)
      × ((sprintputch ch b).ebuf ≡ b.ebuf)
      × ((sprintputch ch b).cnt ≡ b.cnt + 1)
      × ((a : ℕ) → (a < b.buf) ⊎ (b.ebuf ≤ a) → (sprintputch ch b).mem a ≡ b.mem a)
unfolding sprintputch
sprintputch_lem ch b h =
    (ground arith, ground arith, ground arith, ground arith, λ a out. ground arith)

sprint_all-Grown :
    (chs : List ℕ) (b : Sprintbuf) → b.buf ≤ b.ebuf → Grown b (sprint_all chs b) (length chs)
unfolding sprint_all length
sprint_all-Grown [] b h = record {
  lower = omega arith;
  upper = h;
  ebuf = refl;
  cnt = omega arith;
  outside = λ a out. refl;
}
sprint_all-Grown (ch ∷ chs) b h =
    let b1 = sprintputch ch b in
    let (room, grows, end, count, kept) = sprintputch_lem ch b h in
    let g = sprint_all-Grown chs b1 room in
    record {
      lower = omega (arith, grows, g.lower);
      upper = omega (arith, end, g.upper);
      ebuf = g.ebuf ∙ end;
      cnt = omega (arith, count, g.cnt);
      outside = λ a out. g.outside a (ground (arith, grows, end)) ∙ kept a out;
    }

-- With a buffer of n > 0 bytes that is not NULL, vsnprintf writes nothing outside it, whatever is
-- printed, ends the text with a 0 inside the buffer, and returns the number of characters printed.
pub vsnprintf-bounded :
    (mem : ℕ → ℕ) (buf n : ℕ) (chs : List ℕ)
    → 0 < buf
    → 0 < n
    → (mem' : ℕ → ℕ) × (end : ℕ) × (vsnprintf mem buf n chs ≡ (mem', some (length chs)))
      × (buf ≤ end)
      × (end < buf + n)
      × (mem' end ≡ 0)
      × ((a : ℕ) → (a < buf) ⊎ (buf + n ≤ a) → mem' a ≡ mem a)
unfolding vsnprintf
vsnprintf-bounded mem buf n chs hb hn =
    let b0 : Sprintbuf = record { buf = buf; ebuf = buf + n - 1; cnt = 0; mem = mem } in
    let g = sprint_all-Grown chs b0 (omega arith) in
    let b = sprint_all chs b0 in
    (
      update b.mem b.buf 0,
      b.buf,
      ground (arith, g.cnt),
      g.lower,
      omega (arith, g.upper),
      ground arith,
      λ a out. ground (arith, g.outside a, g.lower, g.upper),
    )
