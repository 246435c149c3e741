-- ===== src/Env/Region.antt =====
-- region_alloc: which pages it allocates.
pub mod Backed
pub mod Covered
mod Tests
use jos_miles.Prelude.{
  ℕ, zero, suc, ◌+◌, ◌-◌, ◌*◌, ◌/◌, ◌%◌, ◌^◌, ◌≤◌, ◌<◌, ◌↔◌, false, none, some, bit_or, arith,
}
use jos_miles.Mmu.{u32, pgsize, pte_u, pte_w, rounddown, roundup}
use jos_miles.Kernel.{Cmd, pure, panic, ◌>>=◌, ◌>>◌, out_of_memory}
use jos_miles.PageAlloc.{page_alloc}
use jos_miles.PageTable.{page_insert}

-- One round of the loop.
unfoldable pub alloc_page_at : ℕ → ℕ → Cmd (Unit {0})
alloc_page_at pgdir va = do
  page ← page_alloc false
  elim page [
    | none ↦ panic out_of_memory
    | some pp ↦ do
      result ← page_insert pgdir pp va (bit_or pte_u pte_w)
      elim result [ none ↦ pure tt | some _ ↦ panic out_of_memory ]
  ]

-- The rounds 0 .. n - 1, in order.
unfoldable pub alloc_pages : ℕ → ℕ → ℕ → Cmd (Unit {0})
alloc_pages pgdir va zero = pure tt
alloc_pages pgdir va (suc n) = alloc_pages pgdir va n >> alloc_page_at pgdir (va + n * pgsize)

-- The first page, and the end of the loop, a 32-bit sum.
unfoldable pub region_start : ℕ → ℕ
unfolding rounddown
region_start va = rounddown va pgsize

unfoldable pub region_end : ℕ → ℕ → ℕ
unfolding region_start roundup
region_end va len = u32 (region_start va + roundup len pgsize)

-- The rounds of `for (; va < end; va += PGSIZE)`: both bounds are multiples of PGSIZE.
unfoldable pub region_alloc : ℕ → ℕ → ℕ → Cmd (Unit {0})
unfolding region_end alloc_pages
region_alloc pgdir va len =
    alloc_pages pgdir (region_start va) ((region_end va len - region_start va) / pgsize)
