-- ===== src/CString/Strtol.antt =====
-- strtol: a long is a 32-bit pattern, and the sum wraps as the comment there says. `base` is not
-- negative.
use jos_miles.Prelude.{
  ℕ, zero, suc, ◌+◌, ◌-◌, ◌*◌, ◌<◌, ◌≡◌, ◌≢◌, Bool, true, false, ◌&&◌, ◌||◌, Option, none, some,
  List, [], ◌∷◌, leb, ◌==◌, if◌then◌else◌, arith,
}
use jos_miles.Mmu.{u32, sub32}
use jos_miles.CString.{Bytes}

-- The value of a digit or letter.
unfoldable pub dig : ℕ → Option ℕ
dig c =
    if leb 48 c && leb c 57
    then some (c - 48)
    else if leb 97 c && leb c 122
    then some (c - 97 + 10)
    else if leb 65 c && leb c 90
    then some (c - 65 + 10)
    else none

-- The loop over the digits: the value, and where it stops.
unfoldable pub digits : Bytes → ℕ → ℕ → ℕ → ℕ → Option (ℕ × ℕ)
unfolding dig
digits mem base s val zero = none
digits mem base s val (suc fuel) = elim (dig (mem s)) [
  | none ↦ some (val, s)
  | some d ↦
      let rest = digits mem base (s + 1) (u32 (val * base + d)) fuel in
      if leb base d then some (val, s) else rest
]

unfoldable pub skip_blanks : Bytes → ℕ → ℕ → Option ℕ
skip_blanks mem s zero = none
skip_blanks mem s (suc fuel) =
    let rest = skip_blanks mem (s + 1) fuel in
    if (mem s == 0x20) || (mem s == 0x09) then rest else some s

-- The sign, and what follows it.
unfoldable pub sign : Bytes → ℕ → Bool × ℕ
sign mem s =
    if mem s == 0x2b then (false, s + 1) else if mem s == 0x2d then (true, s + 1) else (false, s)

-- The base, and what follows its prefix.
unfoldable pub prefix : Bytes → ℕ → ℕ → ℕ × ℕ
prefix mem base s =
    if ((base == 0) || (base == 16)) && (mem s == 48) && (mem (s + 1) == 120)
    then (16, s + 2)
    else if (base == 0) && (mem s == 48)
    then (8, s + 1)
    else if base == 0
    then (10, s)
    else (base, s)

-- What is left to do behind the prefix, and behind the sign.
abbrev read_digits : Bytes → ℕ → Bool → ℕ × ℕ → Option (ℕ × ℕ)
read_digits mem fuel neg (base, s) = elim (digits mem base s 0 fuel) [
  | none ↦ none
  | some (val, end) ↦ some (if neg then (sub32 0 val) else val, end)
]

abbrev read_number : Bytes → ℕ → ℕ → Bool × ℕ → Option (ℕ × ℕ)
read_number mem base fuel (neg, s) = read_digits mem fuel neg (prefix mem base s)

-- The result and `*endptr`.
unfoldable pub strtol : Bytes → ℕ → ℕ → ℕ → Option (ℕ × ℕ)
unfolding digits skip_blanks sign prefix
strtol mem s base fuel = elim (skip_blanks mem s fuel) [
  | none ↦ none
  | some s1 ↦ read_number mem base fuel (sign mem s1)
]

-- The digits ds stand at s, each below the base, and what follows them is no digit of it.
abbrev pub DigitsAt : Bytes → ℕ → ℕ → List ℕ → Type 0
DigitsAt mem base s [] = dig (mem s) ≡ none
DigitsAt mem base s (d ∷ ds) = (dig (mem s) ≡ some d) × (d < base) × DigitsAt mem base (s + 1) ds

-- Their value, modulo 2 ^ 32.
unfoldable pub value : ℕ → ℕ → List ℕ → ℕ
value base val [] = val
value base val (d ∷ ds) = value base (u32 (val * base + d)) ds

unfoldable pub count : List ℕ → ℕ
count [] = 0
count (d ∷ ds) = count ds + 1

digits_lem :
    (ds : List ℕ) (mem : Bytes) (base s val fuel : ℕ)
    → DigitsAt mem base s ds
    → count ds < fuel
    → digits mem base s val fuel ≡ some (value base val ds, s + count ds)
unfolding digits value count
digits_lem ds mem base s val zero at h = absurd (omega arith)
digits_lem [] mem base s val (suc fuel) at h = ground (arith, at)
digits_lem (d ∷ ds) mem base s val (suc fuel) at h =
    ground (arith, at.0, at.1, digits_lem ds mem base (s + 1) (u32 (val * base + d)) fuel at.2)

digit_char : (c d : ℕ) → dig c ≡ some d → (c ≢ 0x20) × (c ≢ 0x09) × (c ≢ 0x2b) × (c ≢ 0x2d)
unfolding dig
digit_char c d e = (λ z. ground arith, λ z. ground arith, λ z. ground arith, λ z. ground arith)

no_blanks :
    (mem : Bytes) (s fuel : ℕ)
    → mem s ≢ 0x20
    → mem s ≢ 0x09
    → 0 < fuel
    → skip_blanks mem s fuel ≡ some s
unfolding skip_blanks
no_blanks mem s zero a b h = absurd (omega arith)
no_blanks mem s (suc fuel) a b h = ground arith

no_sign : (mem : Bytes) (s : ℕ) → mem s ≢ 0x2b → mem s ≢ 0x2d → sign mem s ≡ (false, s)
unfolding sign
no_sign mem s a b = ground arith

no_prefix : (mem : Bytes) (base s : ℕ) → base ≢ 0 → base ≢ 16 → prefix mem base s ≡ (base, s)
unfolding prefix
no_prefix mem base s a b = ground arith

read_digits_lem :
    (mem : Bytes) (base s fuel v e : ℕ)
    → digits mem base s 0 fuel ≡ some (v, e)
    → read_digits mem fuel false (base, s) ≡ some (v, e)
read_digits_lem mem base s fuel v e found = ground (arith, found)

-- In a base other than 0 and 16, where at least one digit of the base stands at s, and behind the
-- digits a character that is neither a digit nor a letter, strtol returns their value modulo 2 ^
-- 32 and the place behind them, with fuel above their number.
pub strtol-value :
    (ds : List ℕ) (d : ℕ) (mem : Bytes) (base s fuel : ℕ)
    → base ≢ 0
    → base ≢ 16
    → DigitsAt mem base s (d ∷ ds)
    → count (d ∷ ds) < fuel
    → strtol mem s base fuel ≡ some (value base 0 (d ∷ ds), s + count (d ∷ ds))
unfolding strtol
strtol-value ds d mem base s fuel nz other at h =
    let (a, b, plus, minus) = digit_char (mem s) d at.0 in
    rw
      (
        strtol,
        no_blanks mem s fuel a b (omega arith),
        no_sign mem s plus minus,
        no_prefix mem base s nz other,
      )
      (read_digits_lem mem base s fuel (value base 0 (d ∷ ds)) (s + count (d ∷ ds))
        (digits_lem (d ∷ ds) mem base s 0 fuel at h))
