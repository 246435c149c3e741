-- ===== src/Mmu/Laws.antt =====
-- The fields of an address and of a page table entry as arithmetic, and the rounding macros.
use jos_miles.Prelude.{
  ℕ, zero, suc, refl, ◌+◌, ◌*◌, ◌/◌, ◌%◌, ◌^◌, ◌≤◌, ◌<◌, ◌≡◌, arith, bit_and, bit_or, bit_and_split,
  bit_and-mask, bit_and-zero, bit_or-add, bit_or-zero, bit_or_split,
}
use jos_miles.Mmu.{uvpt, pdx, ptx, pgoff, pgaddr, pte_addr, rounddown, roundup}

pub pdx_lem : (la : ℕ) → pdx la ≡ la / 2 ^ 22 % 1024
unfolding pdx
pdx_lem la = bit_and-mask 10 (la / 2 ^ 22)

pub ptx_lem : (la : ℕ) → ptx la ≡ la / 2 ^ 12 % 1024
unfolding ptx
ptx_lem la = bit_and-mask 10 (la / 2 ^ 12)

pub pgoff_lem : (la : ℕ) → pgoff la ≡ la % 4096
unfolding pgoff
pgoff_lem la = bit_and-mask 12 la

pub pte_addr_lem : (pte : ℕ) → pte_addr pte ≡ pte / 4096 % 2 ^ 20 * 4096
unfolding pte_addr
pte_addr_lem pte = ground (
  arith,
  bit_and_split 12 (pte / 4096) 0xfffff (pte % 4096) 0,
  bit_and-mask 20 (pte / 4096),
  bit_and-zero (pte % 4096),
)

pub pgaddr_lem :
    (d t o : ℕ) → d < 1024 → t < 1024 → o < 4096 → pgaddr d t o ≡ d * 2 ^ 22 + t * 2 ^ 12 + o
unfolding pgaddr
pgaddr_lem d t o hd ht ho =
    ground (arith, bit_or-add 22 d (t * 2 ^ 12), bit_or-add 12 (d * 1024 + t) o)

-- An address is put together again from its directory index, table index and offset.
pub pgaddr-fields : (la : ℕ) → la < 2 ^ 32 → pgaddr (pdx la) (ptx la) (pgoff la) ≡ la
pgaddr-fields la h = omega (
  arith,
  pdx_lem la,
  ptx_lem la,
  pgoff_lem la,
  pgaddr_lem (pdx la) (ptx la) (pgoff la) (omega (arith, pdx_lem la)) (omega (arith, ptx_lem la))
      (omega (arith, pgoff_lem la)),
)

-- The three fields of an address built from indices are those indices.
pub fields-pgaddr :
    (d t o : ℕ)
    → d < 1024
    → t < 1024
    → o < 4096
    → (pdx (pgaddr d t o) ≡ d) × (ptx (pgaddr d t o) ≡ t) × (pgoff (pgaddr d t o) ≡ o)
fields-pgaddr d t o hd ht ho = omega (
  arith,
  pgaddr_lem d t o hd ht ho,
  pdx_lem (pgaddr d t o),
  ptx_lem (pgaddr d t o),
  pgoff_lem (pgaddr d t o),
)

-- An entry built from a page address and low bits: its address field and its present bit.
pub pte_addr-or :
    (q low : ℕ) → q < 2 ^ 20 → low < 4096 → pte_addr (bit_or (q * 4096) low) ≡ q * 4096
pte_addr-or q low hq hl =
    omega (arith, bit_or-add 12 q low hl, pte_addr_lem (bit_or (q * 4096) low))

pub bit_and-one : (a : ℕ) → bit_and a 1 ≡ a % 2
bit_and-one a = bit_and-mask 1 a

bit_or_low : (r : ℕ) → r < 2 → bit_or r 1 ≡ 1
bit_or_low zero h = refl
bit_or_low (suc zero) h = refl
bit_or_low (suc (suc r)) h = absurd (omega arith)

pub bit_or-one : (a : ℕ) → bit_or a 1 ≡ a / 2 * 2 + 1
bit_or-one a =
    ground (arith, bit_or_split 1 (a / 2) 0 (a % 2) 1, bit_or-zero (a / 2), bit_or_low (a % 2))

-- Rounding to pages: the next multiple below and above.
pub rounddown_bounds :
    (a : ℕ) → (rounddown a 4096 % 4096 ≡ 0) × (rounddown a 4096 ≤ a) × (a < rounddown a 4096 + 4096)
unfolding rounddown
rounddown_bounds a = omega arith

pub roundup_bounds :
    (a : ℕ)
    → a + 4095 < 2 ^ 32
    → (roundup a 4096 % 4096 ≡ 0) × (a ≤ roundup a 4096) × (roundup a 4096 < a + 4096)
unfolding roundup
roundup_bounds a h = omega arith

-- `|` on the low twelve bits of an entry leaves the page address alone.
pub low_or : (q a b : ℕ) → a < 4096 → b < 4096 → bit_or (q * 4096 + a) b ≡ q * 4096 + bit_or a b
low_or q a b ha hb = ground (arith, bit_or_split 12 q 0 a b, bit_or-zero q)

pub pdx-uvpt : pdx uvpt ≡ 957
unfolding pdx
pdx-uvpt = refl
