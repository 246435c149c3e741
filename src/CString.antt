-- ===== src/CString.antt =====
-- lib/string.c: the string routines. Memory is a function from addresses to bytes; a loop that runs
-- to the end of a string has fuel, and `none` stands for running out of it. An int result is given
-- by its 32-bit pattern, and the pointer that a routine passes back unchanged is left out.
pub mod Memory
pub mod Terminated
pub mod Text
pub mod Compare
pub mod Strtol
mod Tests
use jos_miles.Prelude.{
  ℕ, zero, suc, ◌+◌, ◌-◌, ◌*◌, ◌%◌, Bool, true, false, ◌&&◌, ◌||◌, not, Option, none, some, ltb,
  leb, ◌==◌, if◌then◌else◌,
}
use jos_miles.Mmu.{u32, sub32}
use jos_miles.Kernel.{update}

abbrev pub Bytes : Type 0
Bytes = ℕ → ℕ

unfoldable pub strlen_loop : Bytes → ℕ → ℕ → ℕ → Option ℕ
strlen_loop mem s n zero = none
strlen_loop mem s n (suc fuel) =
    let rest = strlen_loop mem (s + 1) (n + 1) fuel in if mem s == 0 then some n else rest

unfoldable pub strlen : Bytes → ℕ → ℕ → Option ℕ
unfolding strlen_loop
strlen mem s fuel = strlen_loop mem s 0 fuel

unfoldable pub strnlen_loop : Bytes → ℕ → ℕ → ℕ → ℕ
strnlen_loop mem s n zero = n
strnlen_loop mem s n (suc size) =
    let rest = strnlen_loop mem (s + 1) (n + 1) size in if mem s == 0 then n else rest

unfoldable pub strnlen : Bytes → ℕ → ℕ → ℕ
unfolding strnlen_loop
strnlen mem s size = strnlen_loop mem s 0 size

-- The memory afterwards.
unfoldable pub strcpy : Bytes → ℕ → ℕ → ℕ → Option Bytes
strcpy mem dst src zero = none
strcpy mem dst src (suc fuel) =
    let mem' = update mem dst (mem src) in
    let rest = strcpy mem' (dst + 1) (src + 1) fuel in if mem src == 0 then some mem' else rest

unfoldable pub strcat : Bytes → ℕ → ℕ → ℕ → Option Bytes
unfolding strlen
strcat mem dst src fuel = elim (strlen mem dst fuel) [
  | none ↦ none
  | some len ↦ strcpy mem (dst + len) src fuel
]

unfoldable pub strncpy : Bytes → ℕ → ℕ → ℕ → Bytes
strncpy mem dst src zero = mem
strncpy mem dst src (suc size) =
    let mem' = update mem dst (mem src) in
    strncpy mem' (dst + 1) (if mem' src == 0 then src else src + 1) size

-- The loop of strlcpy with `--size` rounds left, and where it leaves `dst`.
unfoldable pub strlcpy_loop : Bytes → ℕ → ℕ → ℕ → Bytes × ℕ
strlcpy_loop mem dst src zero = (mem, dst)
strlcpy_loop mem dst src (suc left) =
    let rest = strlcpy_loop (update mem dst (mem src)) (dst + 1) (src + 1) left in
    if mem src == 0 then (mem, dst) else rest

-- The memory afterwards, and the result.
unfoldable pub strlcpy : Bytes → ℕ → ℕ → ℕ → Bytes × ℕ
unfolding strlcpy_loop
strlcpy mem dst_in src zero = (mem, 0)
strlcpy mem dst_in src (suc left) =
    let (mem', dst) = strlcpy_loop mem dst_in src left in (update mem' dst 0, dst - dst_in)

unfoldable pub strcmp : Bytes → ℕ → ℕ → ℕ → Option ℕ
strcmp mem p q zero = none
strcmp mem p q (suc fuel) =
    let rest = strcmp mem (p + 1) (q + 1) fuel in
    if not (mem p == 0) && (mem p == mem q) then rest else some (sub32 (mem p) (mem q))

unfoldable pub strncmp : Bytes → ℕ → ℕ → ℕ → ℕ
strncmp mem p q zero = 0
strncmp mem p q (suc n) =
    let rest = strncmp mem (p + 1) (q + 1) n in
    if not (mem p == 0) && (mem p == mem q) then rest else sub32 (mem p) (mem q)

-- The outer option is that of the fuel, the inner one the null pointer.
unfoldable pub strchr : Bytes → ℕ → ℕ → ℕ → Option (Option ℕ)
strchr mem s c zero = none
strchr mem s c (suc fuel) =
    let rest = strchr mem (s + 1) c fuel in
    if mem s == 0 then some none else if mem s == c then some (some s) else rest

unfoldable pub strfind : Bytes → ℕ → ℕ → ℕ → Option ℕ
strfind mem s c zero = none
strfind mem s c (suc fuel) =
    let rest = strfind mem (s + 1) c fuel in
    if mem s == 0 then some s else if mem s == c then some s else rest

unfoldable pub memcmp : Bytes → ℕ → ℕ → ℕ → ℕ
memcmp mem s1 s2 zero = 0
memcmp mem s1 s2 (suc n) =
    let rest = memcmp mem (s1 + 1) (s2 + 1) n in
    if mem s1 == mem s2 then rest else sub32 (mem s1) (mem s2)

unfoldable pub memfind : Bytes → ℕ → ℕ → ℕ → ℕ
memfind mem s c zero = s
memfind mem s c (suc n) = let rest = memfind mem (s + 1) c n in if mem s == c % 256 then s else rest
