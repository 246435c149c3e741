-- ===== src/CString/Terminated.antt =====
-- The routines that work on terminated strings: length, copies, and search.
use jos_miles.Prelude.{
  ℕ, zero, suc, ◌+◌, ◌-◌, ◌≤◌, ◌<◌, ◌≡◌, ◌≢◌, ◌⊎◌, refl, ◌&&◌, some, leb, if◌then◌else◌, arith,
}
use jos_miles.Kernel.{update}
use jos_miles.CString.{Bytes, strlen, strlen_loop, strcpy, strlcpy, strlcpy_loop}

-- At s stand n bytes that are not 0, and then a 0.
abbrev pub Terminated : Bytes → ℕ → ℕ → Type 0
Terminated mem s n = ((i : ℕ) → i < n → mem (s + i) ≢ 0) × (mem (s + n) ≡ 0)

pub Terminated-tail : (mem : Bytes) (s n : ℕ) → Terminated mem s (suc n) → Terminated mem (s + 1) n
Terminated-tail mem s n (body, end) = (λ i h z. ground (arith, body (suc i)), ground arith)

strlen_loop_lem :
    (n : ℕ) (mem : Bytes) (s m fuel : ℕ)
    → Terminated mem s n
    → n < fuel
    → strlen_loop mem s m fuel ≡ some (m + n)
unfolding strlen_loop
strlen_loop_lem n mem s m zero t h = absurd (omega arith)
strlen_loop_lem zero mem s m (suc fuel) t h = ground (arith, t.1)
strlen_loop_lem (suc n) mem s m (suc fuel) t h =
    ground (arith, t.0 0, strlen_loop_lem n mem (s + 1) (m + 1) fuel (Terminated-tail mem s n t))

-- strlen returns the number of bytes before the first 0, with any fuel above it.
pub strlen_lem :
    (n : ℕ) (mem : Bytes) (s fuel : ℕ) → Terminated mem s n → n < fuel → strlen mem s fuel ≡ some n
unfolding strlen
strlen_lem n mem s fuel t h = ground (arith, strlen_loop_lem n mem s 0 fuel t)

-- What a copy of n bytes and their terminating 0 leaves.
abbrev pub copied : Bytes → ℕ → ℕ → ℕ → Bytes
copied mem dst src n a = if leb dst a && leb a (dst + n) then mem (src + (a - dst)) else mem a

Terminated-update :
    (mem : Bytes) (s n d v : ℕ)
    → Terminated mem s n
    → (d < s) ⊎ (s + n < d)
    → Terminated (update mem d v) s n
Terminated-update mem s n d v (body, end) h = (λ i lt z. ground (arith, body i), ground arith)

-- strcpy of a terminated string ends, with fuel above its length, and copies the string with its
-- terminating 0 and nothing else, if the two regions do not overlap.
pub strcpy-copied :
    (n : ℕ) (mem : Bytes) (dst src fuel : ℕ)
    → Terminated mem src n
    → (dst + n < src) ⊎ (src + n < dst)
    → n < fuel
    → (mem' : Bytes) × (strcpy mem dst src fuel ≡ some mem')
      × ((a : ℕ) → mem' a ≡ copied mem dst src n a)
unfolding strcpy
strcpy-copied n mem dst src zero t apart h = absurd (omega arith)
strcpy-copied zero mem dst src (suc fuel) t apart h =
    (update mem dst (mem src), ground (arith, t.1), λ a. ground arith)
strcpy-copied (suc n) mem dst src (suc fuel) t apart h =
    let mem1 = update mem dst (mem src) in
    let tail =
      Terminated-update mem (src + 1) n dst (mem src) (Terminated-tail mem src n t)
        (ground arith) in
    let (mem', run, all) =
      strcpy-copied n mem1 (dst + 1) (src + 1) fuel tail (ground arith) (omega arith) in
    (mem', ground (arith, t.0 0), λ a. ground (arith, all a))

-- The part of strlcpy before the terminating 0: it stops within the room that is left.
strlcpy_loop_lem :
    (left : ℕ) (mem : Bytes) (dst src : ℕ)
    → let r = strlcpy_loop mem dst src left in
      (dst ≤ r.1) × (r.1 ≤ dst + left) × ((a : ℕ) → (a < dst) ⊎ (dst + left ≤ a) → r.0 a ≡ mem a)
unfolding strlcpy_loop
strlcpy_loop_lem zero mem dst src = (omega arith, omega arith, λ a h. refl)
strlcpy_loop_lem (suc left) mem dst src =
    let (lo, hi, out) = strlcpy_loop_lem left (update mem dst (mem src)) (dst + 1) (src + 1) in
    (ground arith, ground arith, λ a h. ground (arith, out a))

-- Whatever the source is, strlcpy with room for `size` > 0 bytes writes to no other byte, returns
-- less than `size`, and puts a 0 at the end of what it returns.
pub strlcpy-bounded :
    (mem : Bytes) (dst src size : ℕ)
    → 0 < size
    → let r = strlcpy mem dst src size in
      (r.1 < size)
      × (r.0 (dst + r.1) ≡ 0)
      × ((a : ℕ) → (a < dst) ⊎ (dst + size ≤ a) → r.0 a ≡ mem a)
unfolding strlcpy
strlcpy-bounded mem dst src zero h = absurd (omega arith)
strlcpy-bounded mem dst src (suc left) h =
    let (lo, hi, out) = strlcpy_loop_lem left mem dst src in
    (omega arith, ground arith, λ a h'. ground (arith, out a))
