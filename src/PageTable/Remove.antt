-- ===== src/PageTable/Remove.antt =====
-- page_lookup and page_remove.
use jos_miles.Prelude.{
  ℕ, ◌-◌, ◌/◌, ◌%◌, ◌^◌, ◌≤◌, ◌<◌, ◌≡◌, false, none, some, ◌∷◌, arith, List, ◌≢◌, Bool-cases, inl,
  inr, refl, ◌==◌, if◌then◌else◌,
}
use jos_miles.Mmu.{pte_addr}
use jos_miles.Mmu.Laws.{pte_addr_lem, bit_and-one}
use jos_miles.Kernel.{Kernel, ok, set_ref, update}
use jos_miles.PageAlloc.{pa2page, page_decref}
use jos_miles.PageAlloc.FreeList.{
  has, Chain, FreeList, Chain-frame, Chain-push, Chain-unreferenced, after_free, page_free_lem,
}
use jos_miles.PageTable.{page_lookup, page_remove, unmap}
use jos_miles.PageTable.Space.{
  page_at, pde, Present, table, dir_index, entry, entry_at, entry-Present,
}
use jos_miles.PageTable.Walk.{pgdir_walk-Present, pgdir_walk-absent}

-- `va` has a table in memory, reached from a directory in page d.
pub record HasTable (k : Kernel) (d va : ℕ) : Type 0 where
  pub there : Present k.mem d (dir_index va)
  pub inside : table k.mem d (dir_index va) < k.npages
  pub small : k.npages ≤ 2 ^ 16

pub pa2page_lem :
    (pte : ℕ) (k : Kernel)
    → pte / 4096 % 2 ^ 20 < k.npages
    → pa2page (pte_addr pte) k ≡ ok (pte / 4096 % 2 ^ 20) k
unfolding pa2page
pa2page_lem pte k h = rw pte_addr_lem (ground arith)

module _ (k : Kernel) (d va : ℕ) where
  pub page_lookup-absent :
      pde k.mem d (dir_index va) % 2 ≡ 0 → page_lookup (page_at d) va k ≡ ok (none, none) k
  unfolding page_lookup
  page_lookup-absent gone = rw (pgdir_walk-absent k d va gone)

  pub page_lookup-unmapped :
      HasTable k d va
      → entry k.mem d va % 2 ≡ 0
      → page_lookup (page_at d) va k ≡ ok (none, some (entry_at k.mem d va)) k
  unfolding page_lookup
  page_lookup-unmapped t out =
      rw (pgdir_walk-Present k d va false t.there t.inside t.small) (
        ground (arith, bit_and-one (k.mem (entry_at k.mem d va)), entry-Present k.mem d va t.there))

  pub page_lookup-mapped :
      HasTable k d va
      → entry k.mem d va % 2 ≡ 1
      → entry k.mem d va / 4096 % 2 ^ 20 < k.npages
      → page_lookup (page_at d) va k
        ≡ ok (some (entry k.mem d va / 4096 % 2 ^ 20), some (entry_at k.mem d va)) k
  unfolding page_lookup
  page_lookup-mapped t out lt = rw (pgdir_walk-Present k d va false t.there t.inside t.small) (
      ground (
        arith,
        bit_and-one (k.mem (entry_at k.mem d va)),
        entry-Present k.mem d va t.there,
        pa2page_lem (k.mem (entry_at k.mem d va)) k,
      ))

-- The state after one reference to page q is gone.
unfoldable pub after_decref : ℕ → Kernel → Kernel
after_decref q k =
    let left = record k { pages = set_ref k.pages q ((k.pages q).pp_ref - 1) } in
    if (k.pages q).pp_ref == 1 then after_free q left else left

-- Page q is referenced, its counter fits 16 bits, and it is not linked.
pub record InUse (k : Kernel) (q : ℕ) : Type 0 where
  pub held : 1 ≤ (k.pages q).pp_ref
  pub fits : (k.pages q).pp_ref < 2 ^ 16
  pub unlinked : (k.pages q).pp_link ≡ none

pub page_decref_lem : (k : Kernel) (q : ℕ) → InUse k q → page_decref q k ≡ ok tt (after_decref q k)
unfolding page_decref after_decref
page_decref_lem k q u =
    ground
      (arith, page_free_lem (record k { pages = set_ref k.pages q ((k.pages q).pp_ref - 1) }) q)

-- The state after page q has been unmapped from `va`, whose entry is at `e`.
unfoldable pub after_remove : ℕ → ℕ → ℕ → Kernel → Kernel
after_remove va e q k =
    let k' = after_decref q k in record k' { mem = update k'.mem e 0; flushed = va ∷ k'.flushed }

module _ (k : Kernel) (d va : ℕ) where
  -- Where nothing is mapped, page_remove does nothing.
  pub page_remove-absent :
      pde k.mem d (dir_index va) % 2 ≡ 0 → page_remove (page_at d) va k ≡ ok tt k
  unfolding page_remove
  page_remove-absent gone = rw (page_lookup-absent k d va gone)

  pub page_remove-unmapped :
      HasTable k d va → entry k.mem d va % 2 ≡ 0 → page_remove (page_at d) va k ≡ ok tt k
  unfolding page_remove
  page_remove-unmapped t out = rw (page_lookup-unmapped k d va t out)

  -- Where an address has a table in memory and is mapped to a page in memory that is referenced,
  -- not linked, and whose counter fits 16 bits, page_remove takes one reference from the page,
  -- which frees it if it was the last, clears the entry and flushes the address, and does nothing
  -- else.
  pub page_remove-mapped :
      HasTable k d va
      → entry k.mem d va % 2 ≡ 1
      → entry k.mem d va / 4096 % 2 ^ 20 < k.npages
      → InUse k (entry k.mem d va / 4096 % 2 ^ 20)
      → page_remove (page_at d) va k
        ≡ ok tt (after_remove va (entry_at k.mem d va) (entry k.mem d va / 4096 % 2 ^ 20) k)
  unfolding page_remove unmap after_remove
  page_remove-mapped t out lt u =
      rw (page_lookup-mapped k d va t out lt)
        (ground (arith, page_decref_lem k (entry k.mem d va / 4096 % 2 ^ 20) u))

module _ (q : ℕ) (k : Kernel) where
  pub mem-after_decref : (after_decref q k).mem ≡ k.mem
  unfolding after_decref
  mem-after_decref = ground arith

  pub npages-after_decref : (after_decref q k).npages ≡ k.npages
  unfolding after_decref
  npages-after_decref = ground arith

  pub ref-after_decref :
      (a : ℕ)
      → ((after_decref q k).pages a).pp_ref
        ≡ (if a == q then (k.pages q).pp_ref - 1 else (k.pages a).pp_ref)
  unfolding after_decref
  ref-after_decref a = ground arith

-- A page that loses its last reference joins the free list; otherwise the list stays.
pub after_decref-FreeList :
    (q : ℕ) (k : Kernel) (free : List ℕ)
    → InUse k q
    → q < k.npages
    → FreeList k free
    → (free' : List ℕ) × FreeList (after_decref q k) free'
      × ((a : ℕ) → a ≢ q → has a free' ≡ has a free)
unfolding after_decref
after_decref-FreeList q k free u lt l =
    let out : has q free ≡ false =
      ground (arith, u.held, Chain-unreferenced k.npages k.pages k.page_free_list free q l) in
    let left = set_ref k.pages q ((k.pages q).pp_ref - 1) in
    let kept : Chain k.npages left k.page_free_list free =
      Chain-frame k.npages k.page_free_list free l (λ a i. ground arith) in
    elim (Bool-cases ((k.pages q).pp_ref == 1)) [
      | inl last ↦ rw last (
        q ∷ free,
        Chain-push k.npages left k.page_free_list q free kept lt out (ground arith),
        λ a ne. ground arith,
      )
      | inr more ↦ rw more (free, kept, λ a ne. refl)
    ]
