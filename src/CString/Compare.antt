-- ===== src/CString/Compare.antt =====
-- The comparisons.
use jos_miles.Prelude.{ℕ, zero, suc, ◌+◌, ◌-◌, ◌≤◌, ◌<◌, ◌≡◌, ◌↔◌, refl, some, arith, ℕ_discrete}
use jos_miles.CString.{Bytes, memcmp, strcmp}
use jos_miles.CString.Terminated.{Terminated, Terminated-tail}

-- In a memory of bytes, memcmp is 0 exactly if the two regions hold the same bytes.
pub memcmp-zero_iff :
    (n : ℕ) (mem : Bytes) (s1 s2 : ℕ)
    → ((a : ℕ) → mem a < 256)
    → (memcmp mem s1 s2 n ≡ 0) ↔ ((i : ℕ) → i < n → mem (s1 + i) ≡ mem (s2 + i))
unfolding memcmp
memcmp-zero_iff zero mem s1 s2 byte = (λ z i h. absurd (omega arith), λ same. refl)
memcmp-zero_iff (suc n) mem s1 s2 byte =
    let (to, from) = memcmp-zero_iff n mem (s1 + 1) (s2 + 1) byte in
    elim (ℕ_discrete (mem s1) (mem s2)) [
      | yes e ↦ (
        λ z i h. ground (arith, to (ground arith) (i - 1)),
        λ same. ground (arith, from (λ i h. ground (arith, same (suc i)))),
      )
      | no ne ↦ (λ z i h. ground (arith, byte s1, byte s2), λ same. ground (arith, same 0))
    ]

-- strcmp is 0 if the two strings are the same, with any fuel above their length.
pub strcmp-same :
    (n : ℕ) (mem : Bytes) (p q fuel : ℕ)
    → Terminated mem p n
    → ((i : ℕ) → i ≤ n → mem (p + i) ≡ mem (q + i))
    → n < fuel
    → strcmp mem p q fuel ≡ some 0
unfolding strcmp
strcmp-same n mem p q zero t same h = absurd (omega arith)
strcmp-same zero mem p q (suc fuel) t same h = ground (arith, t.1, same 0)
strcmp-same (suc n) mem p q (suc fuel) t same h = ground (
  arith,
  t.0 0,
  same 0,
  strcmp-same n mem (p + 1) (q + 1) fuel (Terminated-tail mem p n t)
      (λ i le. ground (arith, same (suc i))),
)
