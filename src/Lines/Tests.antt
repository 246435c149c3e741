-- ===== src/Lines/Tests.antt =====
-- Runs of readline and of the output buffer.
use jos_miles.Prelude.{arith, ℕ, ◌≡◌, refl, Option, some, List, [], ◌∷◌}
use jos_miles.Kernel.{update}
use jos_miles.Lines.{line, readline, readline_loop, Printbuf, vcprintf}
use jos_miles.Lines.Laws.{keys, TextAt, readline-typed, length, bytes, vcprintf_lem}

-- a, b, backspace, c, enter
abbrev typed : List (Option ℕ)
typed = some 97 ∷ some 98 ∷ some 8 ∷ some 99 ∷ some 13 ∷ []

abbrev empty : ℕ → ℕ
empty i = 0

abbrev filled : ℕ → ℕ
filled = update (update (update (update empty 0 97) 1 98) 1 99) 2 0

typed_line : readline typed empty ≡ line 2 filled
unfolding readline readline_loop
typed_line = refl

abbrev nearly_full : Printbuf
nearly_full = record { idx = 254; cnt = 254; buf = empty; printed = [] }

vcprintf_lem_example :
    ((vcprintf (72 ∷ 0x169 ∷ []) empty).0 ≡ 72 ∷ 105 ∷ [])
    × ((vcprintf (72 ∷ 0x169 ∷ []) empty).1 ≡ length (72 ∷ 0x169 ∷ []))
unfolding bytes
vcprintf_lem_example = vcprintf_lem (72 ∷ 0x169 ∷ []) empty (omega arith, (omega arith, tt))

readline-typed_example :
    (buf' : ℕ → ℕ) × (readline (keys (104 ∷ 105 ∷ [])) empty ≡ line 2 buf')
    × TextAt buf' 0 (104 ∷ 105 ∷ [])
unfolding length
readline-typed_example =
    readline-typed (104 ∷ 105 ∷ []) empty (omega arith, omega arith, (omega arith, omega arith, tt))
      (omega arith)
