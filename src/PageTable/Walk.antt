-- ===== src/PageTable/Walk.antt =====
-- pgdir_walk on every branch.
use jos_miles.Prelude.{
  ℕ, ◌+◌, ◌*◌, ◌/◌, ◌%◌, ◌^◌, ◌≤◌, ◌<◌, ◌≡◌, Bool, true, false, none, some, List, ◌∷◌, arith,
  bit_or,
}
use jos_miles.Mmu.{kernbase, pte_p, pte_u, pte_w, pte_addr}
use jos_miles.Mmu.Laws.{pdx_lem, ptx_lem, pte_addr_lem, bit_and-one, low_or}
use jos_miles.Kernel.{Kernel, ok, set_ref, update}
use jos_miles.PageAlloc.{kaddr, page2pa, paddr}
use jos_miles.PageAlloc.Boot.{paddr_lem}
use jos_miles.PageAlloc.FreeList.{after_alloc, page_alloc_lem, page_alloc-none}
use jos_miles.PageTable.{pgdir_walk, new_table, incref}
use jos_miles.PageTable.Space.{page_at, pde, Present, table, dir_index, table_index, entry, IsSpace}

pub kaddr_lem :
    (pa : ℕ) (k : Kernel)
    → pa / 4096 < k.npages
    → k.npages ≤ 2 ^ 16
    → kaddr pa k ≡ ok (pa + kernbase) k
unfolding kaddr
kaddr_lem pa k h small = ground arith

pub paddr_of_page : (p : ℕ) (k : Kernel) → p < 2 ^ 16 → paddr (page_at p) k ≡ ok (p * 4096) k
paddr_of_page p k h = ground (arith, paddr_lem (page_at p) k)

-- Where the table is there, the result points into it and nothing changes.
pub pgdir_walk-Present :
    (k : Kernel) (d va : ℕ) (create : Bool)
    → Present k.mem d (dir_index va)
    → table k.mem d (dir_index va) < k.npages
    → k.npages ≤ 2 ^ 16
    → pgdir_walk (page_at d) va create k
      ≡ ok (some (page_at (table k.mem d (dir_index va)) + 4 * table_index va)) k
unfolding pgdir_walk
pgdir_walk-Present k d va create there lt small =
    rw (pdx_lem, ptx_lem)
      (ground (
        arith,
        bit_and-one (pde k.mem d (dir_index va)),
        pte_addr_lem (pde k.mem d (dir_index va)),
        kaddr_lem (pte_addr (pde k.mem d (dir_index va))) k,
      ))

-- Without a table and without `create` the result is NULL.
pub pgdir_walk-absent :
    (k : Kernel) (d va : ℕ)
    → pde k.mem d (dir_index va) % 2 ≡ 0
    → pgdir_walk (page_at d) va false k ≡ ok none k
unfolding pgdir_walk
pgdir_walk-absent k d va gone =
    rw (pdx_lem) (ground (arith, bit_and-one (pde k.mem d (dir_index va))))

-- The state after a table has been made in page p for entry i.
abbrev pub with_table : ℕ → ℕ → ℕ → Kernel → Kernel
with_table d i p k =
    let k' = after_alloc true p k in
    record k' {
      pages = set_ref k'.pages p (((k'.pages p).pp_ref + 1) % 2 ^ 16);
      mem = update k'.mem (page_at d + 4 * i) (p * 4096 + 7);
    }

entry_bits :
    (p : ℕ) → p < 2 ^ 20 → bit_or (bit_or (bit_or (page2pa p) pte_p) pte_u) pte_w ≡ p * 4096 + 7
unfolding page2pa
entry_bits p h = ground (arith, low_or p 0 1, low_or p 1 4, low_or p 5 2)

new_table_lem :
    (k : Kernel) (d va i p : ℕ)
    → k.page_free_list ≡ some p
    → p < k.npages
    → k.npages ≤ 2 ^ 16
    → new_table (page_at d + 4 * i) va k
      ≡ ok (some (page_at p + 4 * table_index va)) (with_table d i p k)
unfolding new_table incref page2pa
new_table_lem k d va i p head lt small =
    rw (page_alloc_lem k true p head lt small, ptx_lem)
      (ground (arith, entry_bits p, kaddr_lem (p * 4096) (with_table d i p k)))

-- Without a table, with `create`, the first free page becomes the table.
pub pgdir_walk-create :
    (k : Kernel) (d va p : ℕ)
    → pde k.mem d (dir_index va) % 2 ≡ 0
    → k.page_free_list ≡ some p
    → p < k.npages
    → k.npages ≤ 2 ^ 16
    → pgdir_walk (page_at d) va true k
      ≡ ok (some (page_at p + 4 * table_index va)) (with_table d (dir_index va) p k)
unfolding pgdir_walk
pgdir_walk-create k d va p gone head lt small =
    rw (pdx_lem, bit_and-one, gone) (new_table_lem k d va (dir_index va) p head lt small)

-- Without a table and without a free page the result is NULL and nothing changes.
pub pgdir_walk-no_mem :
    (k : Kernel) (d va : ℕ)
    → pde k.mem d (dir_index va) % 2 ≡ 0
    → k.page_free_list ≡ none
    → pgdir_walk (page_at d) va true k ≡ ok none k
unfolding pgdir_walk new_table
pgdir_walk-no_mem k d va gone empty =
    rw pdx_lem (ground (arith, bit_and-one (pde k.mem d (dir_index va)), page_alloc-none k true))

module _ (own : ℕ → Bool) (k : Kernel) (d i p : ℕ) (xs : List ℕ) where
  -- A new empty table changes no entry of the space.
  pub entry-with_table :
      (va : ℕ)
      → IsSpace own k d (p ∷ xs)
      → own i ≡ true
      → i < 1024
      → pde k.mem d i % 2 ≡ 0
      → p < k.npages
      → own (dir_index va) ≡ true
      → entry (with_table d i p k).mem d va ≡ entry k.mem d va
  unfolding entry
  entry-with_table va s hi h gone lt hva = ground (
    arith,
    s.small,
    s.dir_used,
    s.table_used (dir_index va) hva,
    s.table_ne_dir (dir_index va) hva,
  )
