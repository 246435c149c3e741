-- ===== src/EntryTable.antt =====
-- kern/entrypgdir.c: the page directory and the page table that kern/entry.S starts with. The table
-- stands there as a list of 1024 constants, `0x000000 | PTE_P | PTE_W` to `0x3ff000 | PTE_P | PTE_W`.
use jos_miles.Prelude.{
  ℕ, ◌+◌, ◌-◌, ◌*◌, ◌/◌, ◌^◌, ◌<◌, ◌≡◌, ◌||◌, ◌==◌, ltb, if◌then◌else◌, bit_or, arith,
}
use jos_miles.Mmu.{kernbase, nptentries, pte_p, pte_w}
use jos_miles.Mmu.Laws.{low_or}
use jos_miles.PageTable.Space.{page_at, dir_index, table_index, entry}

-- Entry i of the table, 0 beyond its end.
unfoldable pub entry_pgtable : ℕ → ℕ
entry_pgtable i = if ltb i nptentries then bit_or (bit_or (i * 4096) pte_p) pte_w else 0

-- Entry i of the directory, where the table lies at the kernel virtual address `pgtable`.
unfoldable pub entry_pgdir : ℕ → ℕ → ℕ
entry_pgdir pgtable i =
    if i == 0
    then (pgtable - kernbase) + pte_p
    else if i == kernbase / 2 ^ 22
    then (pgtable - kernbase) + pte_p + pte_w
    else 0

entry_pgtable_lem : (i : ℕ) → i < 1024 → entry_pgtable i ≡ i * 4096 + 3
unfolding entry_pgtable
entry_pgtable_lem i h = ground (arith, low_or i 0 1, low_or i 1 2)

-- With the directory in page d and the table in page t below 2 ^ 16, the first 4 MB of memory are
-- mapped twice, at address 0 and at KERNBASE, and no other address is mapped.
pub entry_pgdir-entry :
    (mem : ℕ → ℕ) (d t va : ℕ)
    → t < 2 ^ 16
    → ((i : ℕ) → i < 1024 → mem (page_at d + 4 * i) ≡ entry_pgdir (page_at t) i)
    → ((i : ℕ) → i < 1024 → mem (page_at t + 4 * i) ≡ entry_pgtable i)
    → entry mem d va
      ≡ (if (dir_index va == 0) || (dir_index va == 960) then table_index va * 4096 + 3 else 0)
unfolding entry entry_pgdir
entry_pgdir-entry mem d t va h dir tab = ground (
  arith,
  dir (dir_index va),
  tab (table_index va),
  entry_pgtable_lem (table_index va) (omega arith),
)
