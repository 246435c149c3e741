-- ===== src/Console/Tests.antt =====
-- Runs of the ring and of the screen.
use jos_miles.Prelude.{
  ◌≡◌, ◌≤◌, ◌<◌, ◌+◌, ◌↔◌, ℕ, bit_and, bit_xor, refl, [], ◌∷◌, arith, ◌==◌, if◌then◌else◌,
}
use jos_miles.Console.{Cons, cons_getc, Crt, cga_putc}
use jos_miles.Console.Ring.{Holds, kept, cons_getc-Holds}
use jos_miles.Console.Screen.{OnScreen, cga_putc-OnScreen}
use jos_miles.Console.Keyboard.{shiftcode, togglecode, not32}
use jos_miles.Console.Held.{after, typed, typed_escaped, kbd_proc_data-typed, kbd_proc_data_escape}
use jos_miles.Lines.Laws.{length}

-- Two characters wait at the end of the ring.
abbrev ring : Cons
ring = record { buf = λ i. if i == 510 then 65 else 66; rpos = 510; wpos = 0 }

ring-Holds : Holds ring (65 ∷ 66 ∷ [])
ring-Holds = record {
  rpos = omega arith;
  wpos = omega arith;
  waiting = (λ e. ground arith, refl, (λ e. ground arith, refl, refl));
}

cons_getc-Holds_example :
    ((cons_getc (67 ∷ []) [] ring).0 ≡ 65) × Holds (cons_getc (67 ∷ []) [] ring).1 (66 ∷ 67 ∷ [])
unfolding kept length
cons_getc-Holds_example = cons_getc-Holds (67 ∷ []) [] (65 ∷ 66 ∷ []) ring ring-Holds (omega arith)

-- The last cell of the screen.
abbrev last_cell : Crt
last_cell = record { crt_pos = 1999; crt_buf = λ i. 0x720 }

cga_putc-OnScreen_example : OnScreen last_cell (cga_putc 65 last_cell)
cga_putc-OnScreen_example = cga_putc-OnScreen 65 last_cell (omega arith)

-- Caps Lock with Shift held, and the right Control key.
kbd_proc_data-typed_example :
    (typed 1 0x3a ≡ bit_xor (bit_and 1 (not32 (shiftcode 0x3a))) (togglecode 0x3a))
    × (typed_escaped 1 0x3a ≡ bit_and 1 (not32 (shiftcode (0x3a + 0x80))))
kbd_proc_data-typed_example =
    kbd_proc_data-typed 1 0x3a (omega arith) (omega arith) (λ e. omega arith)

kbd_proc_data_escape_example :
    (after 1 0x9d < 128) × ((64 ≤ after 1 0x9d) ↔ (◌≡◌ {A = ℕ} 0x9d 0xe0))
kbd_proc_data_escape_example = kbd_proc_data_escape 1 0x9d (omega arith) (omega arith)
