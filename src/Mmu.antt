-- ===== src/Mmu.antt =====
-- inc/mmu.h, inc/memlayout.h and the rounding macros of inc/types.h: how a 32-bit linear address and
-- a page table entry are cut into fields. Addresses are numbers; a macro whose C form can wrap says
-- so by `u32`. A shift by a constant is the division or product by its power of two.
pub mod Gate
pub mod Laws
mod Tests
use jos_miles.Prelude.{ℕ, ◌+◌, ◌-◌, ◌*◌, ◌/◌, ◌%◌, ◌^◌, bit_and, bit_or}

-- The values of uint32_t, uintptr_t, physaddr_t and size_t: arithmetic is modulo 2 ^ 32.
abbrev pub u32 : ℕ → ℕ
u32 x = x % 2 ^ 32

abbrev pub sub32 : ℕ → ℕ → ℕ
sub32 a b = u32 (a + (2 ^ 32 - u32 b))

abbrev pub pgsize : ℕ
pgsize = 4096

abbrev pub ptsize : ℕ
ptsize = pgsize * 1024

abbrev pub npdentries : ℕ
npdentries = 1024

abbrev pub nptentries : ℕ
nptentries = 1024

unfoldable pub pgnum : ℕ → ℕ
pgnum la = la / 2 ^ 12

unfoldable pub pdx : ℕ → ℕ
pdx la = bit_and (la / 2 ^ 22) 0x3ff

unfoldable pub ptx : ℕ → ℕ
ptx la = bit_and (la / 2 ^ 12) 0x3ff

unfoldable pub pgoff : ℕ → ℕ
pgoff la = bit_and la 0xfff

unfoldable pub pgaddr : ℕ → ℕ → ℕ → ℕ
pgaddr d t o = bit_or (bit_or (u32 (d * 2 ^ 22)) (u32 (t * 2 ^ 12))) o

abbrev pub pte_p : ℕ
pte_p = 0x001

abbrev pub pte_w : ℕ
pte_w = 0x002

abbrev pub pte_u : ℕ
pte_u = 0x004

-- `pte & ~0xFFF`, where ~0xFFF is 0xFFFFF000 as a physaddr_t.
unfoldable pub pte_addr : ℕ → ℕ
pte_addr pte = bit_and pte 0xffff_f000

unfoldable pub rounddown : ℕ → ℕ → ℕ
rounddown a n = a - a % n

unfoldable pub roundup : ℕ → ℕ → ℕ
unfolding rounddown
roundup a n = rounddown (u32 (a + n - 1)) n

-- The layout of virtual memory.
abbrev pub kernbase : ℕ
kernbase = 0xf000_0000

abbrev pub iophysmem : ℕ
iophysmem = 0x0a_0000

abbrev pub extphysmem : ℕ
extphysmem = 0x10_0000

abbrev pub kstacktop : ℕ
kstacktop = kernbase

abbrev pub kstksize : ℕ
kstksize = 8 * pgsize

abbrev pub mmiolim : ℕ
mmiolim = kstacktop - ptsize

abbrev pub mmiobase : ℕ
mmiobase = mmiolim - ptsize

abbrev pub ulim : ℕ
ulim = mmiobase

abbrev pub uvpt : ℕ
uvpt = ulim - ptsize

abbrev pub upages : ℕ
upages = uvpt - ptsize

abbrev pub uenvs : ℕ
uenvs = upages - ptsize

abbrev pub utop : ℕ
utop = uenvs

abbrev pub ustacktop : ℕ
ustacktop = utop - 2 * pgsize
