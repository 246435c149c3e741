-- ===== src/PageAlloc/Tests.antt =====
-- Runs of the page allocator.
use jos_miles.Prelude.{
  ℕ, ◌+◌, ◌*◌, ◌<◌, ◌≡◌, ◌≢◌, ◌↔◌, refl, true, none, some, List, [], ◌∷◌, arith,
}
use jos_miles.Mmu.{kernbase}
use jos_miles.Kernel.{Kernel, ok}
use jos_miles.PageAlloc.{page_init, page_alloc, page_free}
use jos_miles.PageAlloc.FreeList.{
  has, FreeList, Allocated, page_alloc-Allocated, page_free-FreeList,
}
use jos_miles.PageAlloc.Init.{Available, page_init-FreeList}
use jos_miles.Sample.{machine, full, spare, machine-FreeList}

page_alloc-Allocated_example :
    (k' : Kernel) × (page_alloc true machine ≡ ok (some 5) k')
    × Allocated true 5 (7 ∷ 9 ∷ []) machine k'
page_alloc-Allocated_example =
    page_alloc-Allocated machine true 5 (7 ∷ 9 ∷ []) machine-FreeList (omega arith)

page_free-FreeList_example :
    (k' : Kernel) × (page_free 200 machine ≡ ok tt k')
    × FreeList k' (200 ∷ spare)
    × ((a : ℕ) → a ≢ 200 → k'.pages a ≡ machine.pages a)
    × (k'.mem ≡ machine.mem)
page_free-FreeList_example =
    page_free-FreeList machine 200 spare machine-FreeList (omega arith) refl refl refl

page_init-FreeList_example :
    (k' : Kernel) × (xs : List ℕ) × (page_init (kernbase + 0x110000) full ≡ ok tt k')
    × FreeList k' xs
    × ((i : ℕ) → (has i xs ≡ true) ↔ ((i < 300) × Available (280 * 4096) i))
    × ((i : ℕ)
        → i < 300
        → ¬ Available (280 * 4096) i
        → k'.pages i ≡ record { pp_link = none; pp_ref = 1 })
    × (k'.mem ≡ full.mem)
page_init-FreeList_example =
    page_init-FreeList (kernbase + 0x110000) full refl (omega arith) (omega arith) (omega arith)

abbrev used_up : Kernel
used_up = record machine { nextfree = kernbase + 300 * 4096 }
