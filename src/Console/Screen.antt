-- ===== src/Console/Screen.antt =====
-- The cursor stays on the screen.
use jos_miles.Prelude.{
  ℕ, zero, suc, refl, ◌+◌, ◌%◌, ◌≤◌, ◌<◌, ◌≡◌, ◌==◌, arith, Bool-cases, inl, inr,
}
use jos_miles.Console.{
  crt_cols, crt_size, Crt, cga_put, cga_plain, cga_putc, scroll, with_attribute,
}

-- The cursor is on the screen, and memory beyond the screen is as in `before`.
pub record OnScreen (before crt : Crt) : Type 0 where
  pub cursor : crt.crt_pos < crt_size
  pub beyond : (i : ℕ) → crt_size ≤ i → crt.crt_buf i ≡ before.crt_buf i

-- The same, with a full last line.
record Full (before crt : Crt) : Type 0 where
  cursor : crt.crt_pos < crt_size + crt_cols
  beyond : (i : ℕ) → crt_size ≤ i → crt.crt_buf i ≡ before.crt_buf i

scroll-OnScreen : (before crt : Crt) → Full before crt → OnScreen before (scroll crt)
unfolding scroll
scroll-OnScreen before crt f = record {
  cursor = ground (arith, f.cursor);
  beyond = λ i h. ground (arith, f.beyond i);
}

cga_put-Full : (c : ℕ) (before crt : Crt) → OnScreen before crt → Full before (cga_put c crt)
unfolding cga_put
cga_put-Full c before crt on = record {
  cursor = ground (arith, on.cursor);
  beyond = λ i h. ground (arith, on.cursor, on.beyond i);
}

cga_plain-OnScreen :
    (c : ℕ) (before crt : Crt) → OnScreen before crt → OnScreen before (cga_plain c crt)
unfolding cga_plain
cga_plain-OnScreen c before crt on =
    scroll-OnScreen before (cga_put (with_attribute c) crt)
      (cga_put-Full (with_attribute c) before crt on)

OnScreen-Full : (before crt : Crt) → OnScreen before crt → Full before crt
OnScreen-Full before crt on = record { cursor = omega (arith, on.cursor); beyond = on.beyond }

-- The cursor after n spaces.
spaces : ℕ → Crt → Crt
spaces zero crt = crt
spaces (suc n) crt = cga_plain 0x20 (spaces n crt)

spaces-OnScreen : (n : ℕ) (before crt : Crt) → OnScreen before crt → OnScreen before (spaces n crt)
unfolding spaces
spaces-OnScreen zero before crt on = on
spaces-OnScreen (suc n) before crt on =
    cga_plain-OnScreen 0x20 before (spaces n crt) (spaces-OnScreen n before crt on)

-- With the cursor on the screen, whatever character is written, the cursor stays on the screen,
-- and no cell beyond the screen changes.
pub cga_putc-OnScreen : (c : ℕ) (crt : Crt) → crt.crt_pos < crt_size → OnScreen crt (cga_putc c crt)
unfolding cga_putc spaces
cga_putc-OnScreen c crt h =
    let start : OnScreen crt crt = record { cursor = h; beyond = λ i lt. refl } in
    elim (Bool-cases (c % 256 == 0x09)) [
      | inl tab ↦ rw tab (
          scroll-OnScreen crt (spaces 5 crt)
            (OnScreen-Full crt (spaces 5 crt) (spaces-OnScreen 5 crt crt start)))
      | inr other ↦ rw other (cga_plain-OnScreen c crt crt start)
    ]
