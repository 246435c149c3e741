-- ===== src/Console/Held.antt =====
-- The keys that are held, as kbd_proc_data keeps track of them.
use jos_miles.Prelude.{
  ℕ, zero, suc, ◌+◌, ◌≤◌, ◌<◌, ◌≡◌, ◌≢◌, ◌↔◌, refl, arith, Bool, true, false, ◌&&◌, ◌||◌, some, leb,
  ltb, ◌==◌, if◌then◌else◌, bit_and, bit_xor, ℕ_discrete,
}
use jos_miles.Console.Keyboard.{shiftcode, togglecode, not32, press, release, kbd_proc_data}

-- A test that holds of all numbers below n.
abbrev all_below : ℕ → (ℕ → Bool) → Bool
all_below zero p = true
all_below (suc n) p = p n && all_below n p

all_below_lem : (n : ℕ) (p : ℕ → Bool) (i : ℕ) → all_below n p ≡ true → i < n → p i ≡ true
all_below_lem zero p i h lt = absurd (omega arith)
all_below_lem (suc n) p i h lt = elim (ℕ_discrete i n) [
  | yes e ↦ ground (arith, h)
  | no ne ↦ all_below_lem n p i (ground (arith, h)) (omega arith)
]

-- The state after one byte, and after a key d with and without an escape is pressed and released.
abbrev pub after : ℕ → ℕ → ℕ
after shift byte = (kbd_proc_data (some byte) shift).shift

abbrev pub typed : ℕ → ℕ → ℕ
typed shift d = after (after shift d) (d + 0x80)

abbrev pub typed_escaped : ℕ → ℕ → ℕ
typed_escaped shift d = after (after (after (after shift 0xe0) d) 0xe0) (d + 0x80)

abbrev restored : ℕ → ℕ → Bool
restored d shift =
    (typed shift d == bit_xor (bit_and shift (not32 (shiftcode d))) (togglecode d))
    && (typed_escaped shift d == bit_and shift (not32 (shiftcode (d + 0x80))))

abbrev restored_key : ℕ → Bool
restored_key d = (d == 0x60) || all_below 64 (restored d)

check_restored : all_below 128 restored_key ≡ true
unfolding kbd_proc_data press release shiftcode togglecode
check_restored = refl

abbrev escaped : ℕ → ℕ → Bool
escaped byte shift =
    let shift' = after shift byte in
    ltb shift' 128 && (if byte == 0xe0 then leb 64 shift' else ltb shift' 64)

check_escaped : all_below 256 (λ d. all_below 128 (escaped d)) ≡ true
unfolding kbd_proc_data press release shiftcode togglecode
check_escaped = refl

or_ne : (a b : Bool) → (a || b) ≡ true → a ≡ false → b ≡ true
or_ne true b h e = absurd (ground arith)
or_ne false b h e = h

split_eq : {a b c d : ℕ} → ((a == b) && (c == d)) ≡ true → (a ≡ b) × (c ≡ d)
split_eq h = (ground (arith, h), ground (arith, h))

read_escaped :
    (v byte : ℕ)
    → (ltb v 128 && (if byte == 0xe0 then leb 64 v else ltb v 64)) ≡ true
    → (v < 128) × ((64 ≤ v) ↔ (byte ≡ 0xe0))
read_escaped v byte h = (ground (arith, h), (λ le. ground (arith, h), λ e. ground (arith, h)))

-- From any state of the modifiers and locks without a pending escape, when a key other than the one
-- with code 0x60 is pressed and released, its modifier is not held afterwards and its lock is flipped;
-- when it is pressed and released with the escape 0xe0 before each byte, the modifier of the escaped
-- key is not held afterwards. All other bits are as before.
pub kbd_proc_data-typed :
    (shift d : ℕ)
    → shift < 64
    → d < 128
    → d ≢ 0x60
    → (typed shift d ≡ bit_xor (bit_and shift (not32 (shiftcode d))) (togglecode d))
      × (typed_escaped shift d ≡ bit_and shift (not32 (shiftcode (d + 0x80))))
kbd_proc_data-typed shift d lt key ne =
    let of_key = all_below_lem 128 restored_key d check_restored key in
    let here : restored d shift ≡ true =
      all_below_lem 64 (restored d) shift
        (or_ne (d == 0x60) (all_below 64 (restored d)) of_key (ground (arith, ne))) lt in
    split_eq here

-- From any state, an escape is pending after a byte if and only if the byte is 0xe0, and the seven
-- bits of the state are all that is ever set.
pub kbd_proc_data_escape :
    (shift byte : ℕ)
    → shift < 128
    → byte < 256
    → (after shift byte < 128) × ((64 ≤ after shift byte) ↔ (byte ≡ 0xe0))
kbd_proc_data_escape shift byte lt lt' =
    let here : escaped byte shift ≡ true =
      all_below_lem 128 (escaped byte) shift
        (all_below_lem 256 (λ d. all_below 128 (escaped d)) byte check_escaped lt') lt in
    read_escaped (after shift byte) byte here
