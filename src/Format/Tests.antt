-- ===== src/Format/Tests.antt =====
-- Runs of printnum and of vsnprintf.
use jos_miles.Prelude.{ℕ, ◌+◌, ◌≤◌, ◌<◌, ◌≡◌, ◌⊎◌, refl, some, [], ◌∷◌, arith, ◌==◌, if◌then◌else◌}
use jos_miles.Lines.Laws.{length}
use jos_miles.Format.{printnum, print_signed, vsnprintf, getuint}
use jos_miles.CString.{Bytes}
use jos_miles.Format.Directive.{vprintfmt, piece, flags, flag, read_width, convert}
use jos_miles.Format.Render.{letter, decimal, printed_all, vprintfmt-printed_all}
use jos_miles.Format.Number.{value, value-printnum}
use jos_miles.Format.Buffer.{vsnprintf-bounded}

-- "00f010" and "-7"
padded : printnum 100000 0xf010 16 6 48 ≡ 48 ∷ 48 ∷ 102 ∷ 48 ∷ 49 ∷ 48 ∷ []
unfolding printnum
padded = refl

minus_seven : print_signed 100 0 0xffff_fff9 0 32 ≡ 45 ∷ 55 ∷ []
unfolding print_signed
minus_seven = refl

value-printnum_example : value 16 0 (printnum 300 255 16 0 32) ≡ 255
value-printnum_example = value-printnum 300 255 16 32 (omega arith) (omega arith) (omega arith)

vsnprintf-bounded_example :
    (mem' : ℕ → ℕ) × (end : ℕ) × (vsnprintf (λ a. 7) 100 2 (65 ∷ 66 ∷ 67 ∷ [])
      ≡ (mem', some (length (65 ∷ 66 ∷ 67 ∷ []))))
    × (100 ≤ end)
    × (end < 100 + 2)
    × (mem' end ≡ 0)
    × ((a : ℕ) → (a < 100) ⊎ (100 + 2 ≤ a) → mem' a ≡ 7)
vsnprintf-bounded_example =
    vsnprintf-bounded (λ a. 7) 100 2 (65 ∷ 66 ∷ 67 ∷ []) (omega arith) (omega arith)

-- "a%d" at 10
abbrev format : Bytes
format a = if a == 10 then 97 else if a == 11 then 37 else if a == 12 then 100 else 0

vprintfmt-printed_all_example :
    vprintfmt format (42 ∷ []) 10 5 ≡ some (printed_all (letter 97 ∷ decimal ∷ []) (42 ∷ []))
vprintfmt-printed_all_example =
    vprintfmt-printed_all (letter 97 ∷ decimal ∷ []) format (42 ∷ []) 10 5
      (refl, λ e. omega arith, (refl, λ e. omega arith, (refl, λ e. omega arith, refl)))
      (λ e. omega arith, tt) (omega arith)

-- "%04x" at 0
abbrev flagged : Bytes
flagged a =
    if a == 0 then 37 else if a == 1 then 48 else if a == 2 then 52 else if a == 3 then 120 else 0

zeros_in_front : vprintfmt flagged (0xab ∷ []) 0 9 ≡ some (48 ∷ 48 ∷ 97 ∷ 98 ∷ [])
unfolding vprintfmt piece flags flag read_width convert getuint printnum
zeros_in_front = refl
