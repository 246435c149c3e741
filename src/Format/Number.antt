-- ===== src/Format/Number.antt =====
-- What printnum prints stands for the number.
use jos_miles.Prelude.{
  ℕ, zero, suc, ◌+◌, ◌-◌, ◌*◌, ◌/◌, ◌%◌, ◌≤◌, ◌<◌, ◌≡◌, refl, ◌∙◌, ap, List, [], ◌∷◌, ◌++◌, ltb,
  leb, if◌then◌else◌, arith, Bool-cases, inl, inr,
}
use native.Mathlib.Nat.{mod-lt, mul_comm, mod-eq_of_lt, div-lt_self}
use native.Mathlib.Omega.{div_any}
use jos_miles.Lines.Laws.{length}
use jos_miles.Format.{digit, pads, printnum}

-- The digit that a character stands for, and the number that a list of them stands for.
unfoldable pub undigit : ℕ → ℕ
undigit c = if ltb c 58 then c - 48 else c - 87

unfoldable pub value : ℕ → ℕ → List ℕ → ℕ
unfolding undigit
value base acc [] = acc
value base acc (c ∷ cs) = value base (acc * base + undigit c) cs

undigit-digit : (d : ℕ) → d < 16 → undigit (digit d) ≡ d
unfolding undigit digit
undigit-digit d h = ground arith

value-snoc :
    (base acc c : ℕ) (xs : List ℕ)
    → value base acc (xs ++ (c ∷ [])) ≡ value base acc xs * base + undigit c
unfolding value
value-snoc base acc c [] = refl
value-snoc base acc c (x ∷ xs) = value-snoc base (acc * base + undigit x) c xs

printnum_small :
    (fuel num base padc : ℕ)
    → num < base
    → printnum (suc fuel) num base 0 padc ≡ digit (num % base) ∷ []
unfolding printnum
printnum_small fuel num base padc h = ground arith

printnum_large :
    (fuel num base width padc : ℕ)
    → base ≤ num
    → printnum (suc fuel) num base width padc
      ≡ printnum fuel (num / base) base (width - 1) padc ++ (digit (num % base) ∷ [])
unfolding printnum
printnum_large fuel num base width padc h = ground arith

start : (base : ℕ) → value base 0 [] * base ≡ 0
unfolding value
start base = omega arith

whole : (num base : ℕ) → num / base * base + num % base ≡ num
whole num base = ap (λ t. t + num % base) (mul_comm (num / base) base) ∙ div_any num base

shorter : (num base fuel : ℕ) → num < suc fuel → 2 ≤ base → base ≤ num → num / base < fuel
shorter num base fuel h lo large = omega (arith, div-lt_self {n = num} {k = base} (omega arith) lo)

-- Without padding, and with fuel above the number, the digits that printnum prints in a base from
-- 2 to 16 have the number as their value.
pub value-printnum :
    (fuel num base padc : ℕ)
    → num < fuel
    → 2 ≤ base
    → base ≤ 16
    → value base 0 (printnum fuel num base 0 padc) ≡ num
value-printnum zero num base padc h lo hi = absurd (omega arith)
value-printnum (suc fuel) num base padc h lo hi = elim (Bool-cases (leb base num)) [
  | inl large ↦
      let q = num / base in
      let d = num % base in
      let small : d < 16 = omega (arith, mod-lt num {m = base} (omega arith)) in
      ap (value base 0) (printnum_large fuel num base 0 padc (ground arith))
      ∙ value-snoc base 0 (digit d) (printnum fuel q base 0 padc)
      ∙ rw (value-printnum fuel q base padc (shorter num base fuel h lo (ground arith)) lo hi)
          (rw (undigit-digit d small) (whole num base))
  | inr less ↦
      let small : num < base = ground arith in
      let one : undigit (digit num) ≡ num = undigit-digit num (omega arith) in
      ap (value base 0) (printnum_small fuel num base padc small)
      ∙ value-snoc base 0 (digit (num % base)) []
      ∙ rw (mod-eq_of_lt small) (omega (arith, one, start base))
]

length-pads : (n padc : ℕ) → length (pads n padc) ≡ n
unfolding pads length
length-pads zero padc = refl
length-pads (suc n) padc = omega (arith, length-pads n padc)

length-snoc : (xs : List ℕ) (c : ℕ) → length (xs ++ (c ∷ [])) ≡ length xs + 1
unfolding length
length-snoc [] c = omega arith
length-snoc (x ∷ xs) c = omega (arith, length-snoc xs c)

-- The output of printnum is at least as long as the width.
pub length-printnum :
    (fuel num base width padc : ℕ)
    → num < fuel
    → 2 ≤ base
    → width ≤ length (printnum fuel num base width padc)
unfolding printnum
length-printnum zero num base width padc h lo = absurd (omega arith)
length-printnum (suc fuel) num base width padc h lo =
    let d = digit (num % base) in
    elim (Bool-cases (leb base num)) [
      | inl large ↦ rw large (
          omega (
            arith,
            length-snoc (printnum fuel (num / base) base (width - 1) padc) d,
            length-printnum fuel (num / base) base (width - 1) padc
                (shorter num base fuel h lo (ground arith)) lo,
          ))
      | inr less ↦
          rw less
            (omega (arith, length-snoc (pads (width - 1) padc) d, length-pads (width - 1) padc))
    ]
