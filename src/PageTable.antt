-- ===== src/PageTable.antt =====
-- The page tables of kern/pmap.c: pgdir_walk, page_lookup, page_remove, page_insert,
-- boot_map_region, tlb_invalidate, and the checks of user memory.
pub mod Space
pub mod Walk
pub mod Remove
pub mod Released
pub mod Reserve
pub mod Unmap
pub mod Insert
pub mod Region
pub mod UserMem
mod Tests
use jos_miles.Prelude.{
  ℕ, zero, suc, ◌+◌, ◌-◌, ◌*◌, ◌/◌, ◌%◌, ◌^◌, Bool, true, false, ◌&&◌, ◌||◌, not, Option, none,
  some, ltb, leb, ◌==◌, if◌then◌else◌, bit_and, bit_or, List, ◌∷◌,
}
use jos_miles.Mmu.{u32, pgsize, pdx, ptx, pte_p, pte_u, pte_w, pte_addr, ulim}
use jos_miles.Errno.{Errno}
use jos_miles.Kernel.{
  Kernel, Run, ok, panicked, Cmd, pure, panic, and_then, ◌>>=◌, ◌>>◌, load, store, set_ref,
  negative_ref_count, no_page_table,
}
use jos_miles.PageAlloc.{kaddr, page2pa, pa2page, page_alloc, page_decref}

-- `pp->pp_ref += 1` on a uint16_t
unfoldable pub incref : ℕ → Cmd (Unit {0})
incref pp k = ok tt (record k { pages = set_ref k.pages pp (((k.pages pp).pp_ref + 1) % 2 ^ 16) })

-- The part of pgdir_walk that allocates a page table for the entry at `pgdir_entry`.
unfoldable pub new_table : ℕ → ℕ → Cmd (Option ℕ)
unfolding incref
new_table pgdir_entry va = do
  pinfo ← page_alloc true
  elim pinfo [
    | none ↦ pure none
    | some p ↦ do
      incref p
      store pgdir_entry (bit_or (bit_or (bit_or (page2pa p) pte_p) pte_u) pte_w)
      pgtable ← kaddr (page2pa p)
      pure (some (pgtable + 4 * ptx va))
  ]

-- The address of the page table entry for `va`, `none` for NULL.
unfoldable pub pgdir_walk : ℕ → ℕ → Bool → Cmd (Option ℕ)
pgdir_walk pgdir va create = do
  let pgdir_entry = pgdir + 4 * pdx va
  pgtable_paddr ← load pgdir_entry
  if not (bit_and pgtable_paddr pte_p == 0)
      then (do pgtable ← kaddr (pte_addr pgtable_paddr); pure (some (pgtable + 4 * ptx va)))
      else if create
      then new_table pgdir_entry va
      else pure none

-- The page and what goes to `*pte_store`.
unfoldable pub page_lookup : ℕ → ℕ → Cmd (Option ℕ × Option ℕ)
page_lookup pgdir va = do
  pgtable_entry ← pgdir_walk pgdir va false
  elim pgtable_entry [
    | none ↦ pure (none, none)
    | some e ↦ do
      pte ← load e
      if bit_and pte pte_p == 0
          then pure (none, some e)
          else do pinfo ← pa2page (pte_addr pte); pure (some pinfo, some e)
  ]

-- `invlpg(va)`
unfoldable pub tlb_invalidate : ℕ → ℕ → Cmd (Unit {0})
tlb_invalidate pgdir va k = ok tt (record k { flushed = va ∷ k.flushed })

-- The part of page_remove for a page that is mapped by the entry at `e`.
unfoldable pub unmap : ℕ → ℕ → ℕ → ℕ → Cmd (Unit {0})
unfolding tlb_invalidate
unmap pgdir va pp e k =
    if leb (k.pages pp).pp_ref 0
    then panicked negative_ref_count
    else (do page_decref pp; store e 0; tlb_invalidate pgdir va) k

unfoldable pub page_remove : ℕ → ℕ → Cmd (Unit {0})
unfolding unmap
page_remove pgdir va = do
  (found, pte_store) ← page_lookup pgdir va
  elim found [
    | none ↦ pure tt
    | some pp ↦ elim pte_store [ none ↦ pure tt | some e ↦ unmap pgdir va pp e ]
  ]

unfoldable pub page_insert : ℕ → ℕ → ℕ → ℕ → Cmd (Option Errno)
unfolding incref
page_insert pgdir pp va perm = do
  pgtable_entry ← pgdir_walk pgdir va true
  elim pgtable_entry [
    | none ↦ pure (some Errno.no_mem)
    | some e ↦ do
      incref pp
      page_remove pgdir va
      store e (bit_or (bit_or (pte_addr (page2pa pp)) perm) pte_p)
      pure none
  ]

-- One round of the loop of boot_map_region.
unfoldable pub map_page : ℕ → ℕ → ℕ → ℕ → ℕ → Cmd (Unit {0})
map_page pgdir va pa perm page_offset = do
  pgtable_entry ← pgdir_walk pgdir (u32 (va + page_offset * pgsize)) true
  elim pgtable_entry [
    | none ↦ panic no_page_table
    | some e ↦ store e (bit_or (bit_or (pte_addr (u32 (pa + page_offset * pgsize))) perm) pte_p)
  ]

-- The rounds 0 .. n - 1, in order.
unfoldable pub map_pages : ℕ → ℕ → ℕ → ℕ → ℕ → Cmd (Unit {0})
map_pages pgdir va pa perm zero = pure tt
map_pages pgdir va pa perm (suc n) = map_pages pgdir va pa perm n >> map_page pgdir va pa perm n

unfoldable pub boot_map_region : ℕ → ℕ → ℕ → ℕ → ℕ → Cmd (Unit {0})
unfolding map_pages
boot_map_region pgdir va size pa perm = map_pages pgdir va pa perm (size / pgsize)

-- `user_mem_check_addr = va; return -E_FAULT;`
unfoldable pub bad_address : ℕ → Cmd (Option Errno)
bad_address va k = ok (some Errno.fault) (record k { user_mem_check_addr = va })

-- The loop of user_mem_check from `scanner`, with the rounds that are left.
unfoldable pub check_from : ℕ → ℕ → ℕ → ℕ → Cmd (Option Errno)
unfolding bad_address
check_from pgdir perm scanner zero = pure none
check_from pgdir perm scanner (suc n) =
    let rest = check_from pgdir perm (scanner + 1) n in
    page_lookup pgdir scanner >>= λ (found, pte_store). elim found [
      | none ↦ bad_address scanner
      | some pp ↦ elim pte_store [
        | none ↦ bad_address scanner
        | some e ↦ load e >>= λ pte. if bit_and pte perm == 0 then bad_address scanner else rest
      ]
    ]

-- `va + len` is a 32-bit sum. The loop runs while `scanner < va + len`.
unfoldable pub user_mem_check : ℕ → ℕ → ℕ → ℕ → Cmd (Option Errno)
unfolding bad_address check_from
user_mem_check pgdir va len perm =
    let end = u32 (va + len) in
    if ltb ulim end then bad_address va else check_from pgdir perm va (end - va)
