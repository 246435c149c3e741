-- ===== src/CString/Memory.antt =====
-- memset, memmove and memcpy, as they are compiled with ASM: the string instructions of the
-- processor move bytes, or words of four, upwards or downwards.
use jos_miles.Prelude.{
  ℕ, zero, suc, ◌+◌, ◌-◌, ◌*◌, ◌/◌, ◌%◌, ◌^◌, ◌≤◌, ◌<◌, ◌≡◌, ◌⊎◌, ◌∙◌, ap, ◌&&◌, ltb, leb, ◌==◌,
  if◌then◌else◌, arith, bit_and, bit_or, bit_or-add, bit_and-mask, Bool-cases, inl, inr,
}
use jos_miles.Mmu.{u32}
use jos_miles.Kernel.{update}
use jos_miles.CString.{Bytes}

-- `cld; rep movsb` and `std; rep movsb`, the latter from the last byte on.
unfoldable pub movsb_up : Bytes → ℕ → ℕ → ℕ → Bytes
movsb_up mem d s zero = mem
movsb_up mem d s (suc n) = movsb_up (update mem d (mem s)) (d + 1) (s + 1) n

unfoldable pub movsb_down : Bytes → ℕ → ℕ → ℕ → Bytes
movsb_down mem d s zero = mem
movsb_down mem d s (suc n) = movsb_down (update mem (d + n) (mem (s + n))) d s n

-- One word moved.
abbrev pub move_word : Bytes → ℕ → ℕ → Bytes
move_word mem d s a = if leb d a && ltb a (d + 4) then mem (s + (a - d)) else mem a

unfoldable pub movsl_up : Bytes → ℕ → ℕ → ℕ → Bytes
movsl_up mem d s zero = mem
movsl_up mem d s (suc n) = movsl_up (move_word mem d s) (d + 4) (s + 4) n

unfoldable pub movsl_down : Bytes → ℕ → ℕ → ℕ → Bytes
movsl_down mem d s zero = mem
movsl_down mem d s (suc n) = movsl_down (move_word mem (d + 4 * n) (s + 4 * n)) d s n

unfoldable pub memmove : Bytes → ℕ → ℕ → ℕ → Bytes
memmove mem dst src n =
    let words = (src % 4 == 0) && (dst % 4 == 0) && (n % 4 == 0) in
    if ltb src dst && ltb dst (u32 (src + n))
    then (if words then movsl_down mem dst src (n / 4) else movsb_down mem dst src n)
    else (if words then movsl_up mem dst src (n / 4) else movsb_up mem dst src n)

unfoldable pub memcpy : Bytes → ℕ → ℕ → ℕ → Bytes
unfolding memmove
memcpy = memmove

-- Memory with the n bytes from s on copied to d.
abbrev pub moved : Bytes → ℕ → ℕ → ℕ → Bytes
moved mem d s n a = if leb d a && ltb a (d + n) then mem (s + (a - d)) else mem a

movsb_up-moved :
    (n : ℕ) (mem : Bytes) (d s a : ℕ)
    → (d ≤ s) ⊎ (s + n ≤ d)
    → movsb_up mem d s n a ≡ moved mem d s n a
unfolding movsb_up
movsb_up-moved zero mem d s a h = ground arith
movsb_up-moved (suc n) mem d s a h =
    ground (arith, movsb_up-moved n (update mem d (mem s)) (d + 1) (s + 1) a)

movsb_down-moved :
    (n : ℕ) (mem : Bytes) (d s a : ℕ) → s ≤ d → movsb_down mem d s n a ≡ moved mem d s n a
unfolding movsb_down
movsb_down-moved zero mem d s a h = ground arith
movsb_down-moved (suc n) mem d s a h =
    ground (arith, movsb_down-moved n (update mem (d + n) (mem (s + n))) d s a)

movsl_up-moved :
    (n : ℕ) (mem : Bytes) (d s a : ℕ)
    → (d ≤ s) ⊎ (s + 4 * n ≤ d)
    → movsl_up mem d s n a ≡ moved mem d s (4 * n) a
unfolding movsl_up
movsl_up-moved zero mem d s a h = ground arith
movsl_up-moved (suc n) mem d s a h =
    ground (arith, movsl_up-moved n (move_word mem d s) (d + 4) (s + 4) a)

last_word :
    (m : ℕ) (mem : Bytes) (d s a : ℕ)
    → s ≤ d
    → moved (move_word mem (d + m) (s + m)) d s m a ≡ moved mem d s (m + 4) a
last_word m mem d s a h = elim (Bool-cases (leb d a && ltb a (d + m))) [
  | inl low ↦ ground arith
  | inr other ↦ ground arith
]

four_more : (n : ℕ) → 4 * n + 4 ≡ 4 * suc n
four_more n = omega arith

movsl_down-moved :
    (n : ℕ) (mem : Bytes) (d s a : ℕ) → s ≤ d → movsl_down mem d s n a ≡ moved mem d s (4 * n) a
unfolding movsl_down
movsl_down-moved zero mem d s a h = ground arith
movsl_down-moved (suc n) mem d s a h =
    movsl_down-moved n (move_word mem (d + 4 * n) (s + 4 * n)) d s a h
    ∙ last_word (4 * n) mem d s a h
    ∙ ap (λ t. moved mem d s t a) (four_more n)

-- memmove copies the n bytes that the source held before the call, whether the regions overlap or
-- not, and changes no other byte, if neither region wraps.
pub memmove-moved :
    (mem : Bytes) (dst src n a : ℕ)
    → src + n < 2 ^ 32
    → dst + n < 2 ^ 32
    → memmove mem dst src n a ≡ moved mem dst src n a
unfolding memmove
memmove-moved mem dst src n a hs hd = ground (
  arith,
  movsl_up-moved (n / 4) mem dst src a,
  movsl_down-moved (n / 4) mem dst src a,
  movsb_up-moved n mem dst src a,
  movsb_down-moved n mem dst src a,
)

-- `cld; rep stosb` and `cld; rep stosl`
unfoldable pub stosb : Bytes → ℕ → ℕ → ℕ → Bytes
stosb mem v c zero = mem
stosb mem v c (suc n) = stosb (update mem v (c % 256)) (v + 1) c n

-- Byte a of a word that is stored at v.
abbrev pub store_word : Bytes → ℕ → ℕ → Bytes
store_word mem v w a = if leb v a && ltb a (v + 4) then w / 256 ^ (a - v) % 256 else mem a

unfoldable pub stosl : Bytes → ℕ → ℕ → ℕ → Bytes
stosl mem v w zero = mem
stosl mem v w (suc n) = stosl (store_word mem v w) (v + 4) w n

unfoldable pub memset : Bytes → ℕ → ℕ → ℕ → Bytes
memset mem v c n =
    let byte = bit_and c 0xff in
    let word = bit_or (bit_or (bit_or (byte * 2 ^ 24) (byte * 2 ^ 16)) (byte * 2 ^ 8)) byte in
    if n == 0
    then mem
    else if (v % 4 == 0) && (n % 4 == 0)
    then stosl mem v word (n / 4)
    else stosb mem v c n

stosb_lem :
    (n : ℕ) (mem : Bytes) (v c a : ℕ)
    → stosb mem v c n a ≡ (if leb v a && ltb a (v + n) then c % 256 else mem a)
unfolding stosb
stosb_lem zero mem v c a = ground arith
stosb_lem (suc n) mem v c a = ground (arith, stosb_lem n (update mem v (c % 256)) (v + 1) c a)

word_bytes :
    (b : ℕ)
    → b < 256
    → bit_or (bit_or (bit_or (b * 2 ^ 24) (b * 2 ^ 16)) (b * 2 ^ 8)) b
      ≡ b * 2 ^ 24 + b * 2 ^ 16 + b * 2 ^ 8 + b
word_bytes b h = ground (
  arith,
  bit_or-add 24 b (b * 2 ^ 16),
  bit_or-add 16 (b * 2 ^ 8 + b) (b * 2 ^ 8),
  bit_or-add 8 (b * 2 ^ 16 + b * 2 ^ 8 + b) b,
)

byte_of_word :
    (b i : ℕ) → b < 256 → i < 4 → (b * 2 ^ 24 + b * 2 ^ 16 + b * 2 ^ 8 + b) / 256 ^ i % 256 ≡ b
byte_of_word b zero h hi = omega arith
byte_of_word b (suc zero) h hi = omega arith
byte_of_word b (suc (suc zero)) h hi = omega arith
byte_of_word b (suc (suc (suc zero))) h hi = omega arith
byte_of_word b (suc (suc (suc (suc i)))) h hi = absurd (omega arith)

stosl_lem :
    (n : ℕ) (mem : Bytes) (v w b a : ℕ)
    → ((i : ℕ) → i < 4 → w / 256 ^ i % 256 ≡ b)
    → stosl mem v w n a ≡ (if leb v a && ltb a (v + 4 * n) then b else mem a)
unfolding stosl
stosl_lem zero mem v w b a h = ground arith
stosl_lem (suc n) mem v w b a h =
    ground (arith, stosl_lem n (store_word mem v w) (v + 4) w b a h, h (a - v))

-- memset sets the n bytes from v on to the low byte of c and changes no other byte, whether it
-- stores bytes or words.
pub memset_lem :
    (mem : Bytes) (v c n a : ℕ)
    → memset mem v c n a ≡ (if leb v a && ltb a (v + n) then c % 256 else mem a)
unfolding memset
memset_lem mem v c n a =
    let b = c % 256 in
    let w = b * 2 ^ 24 + b * 2 ^ 16 + b * 2 ^ 8 + b in
    rw (bit_and-mask 8 c) (
      rw (word_bytes b (omega arith)) (
        ground (
          arith,
          stosb_lem n mem v c a,
          stosl_lem (n / 4) mem v w b a (λ i h. byte_of_word b i (omega arith) h),
        )))
