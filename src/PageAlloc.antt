-- ===== src/PageAlloc.antt =====
-- The physical page allocator of kern/pmap.c and the address conversions of kern/pmap.h.
pub mod FreeList
pub mod Init
pub mod Boot
mod Tests
use jos_miles.Prelude.{
  ℕ, zero, suc, ◌+◌, ◌-◌, ◌*◌, ◌/◌, ◌%◌, ◌^◌, Bool, true, false, ◌&&◌, ◌||◌, not, Option, none,
  some, ltb, leb, ◌==◌, if◌then◌else◌,
}
use jos_miles.Mmu.{u32, sub32, pgsize, pgnum, kernbase, iophysmem, extphysmem, roundup}
use jos_miles.Kernel.{
  Kernel, Run, ok, panicked, Cmd, pure, panic, and_then, ◌>>=◌, ◌>>◌, zero_page, set_ref, set_link,
  boot_alloc_out_of_memory, invalid_kva, invalid_pa, pa2page_invalid, free_with_refs,
  free_with_link,
}

-- PADDR
unfoldable pub paddr : ℕ → Cmd ℕ
paddr kva = if ltb kva kernbase then panic invalid_kva else pure (sub32 kva kernbase)

-- KADDR
unfoldable pub kaddr : ℕ → Cmd ℕ
unfolding pgnum
kaddr pa k = if leb k.npages (pgnum pa) then panicked invalid_pa else ok (u32 (pa + kernbase)) k

unfoldable pub page2pa : ℕ → ℕ
page2pa pp = u32 (pp * 2 ^ 12)

unfoldable pub pa2page : ℕ → Cmd ℕ
unfolding pgnum
pa2page pa k = if leb k.npages (pgnum pa) then panicked pa2page_invalid else ok (pgnum pa) k

unfoldable pub page2kva : ℕ → Cmd ℕ
unfolding page2pa kaddr
page2kva pp = kaddr (page2pa pp)

-- `kend` is the address of the symbol `end` that the linker defines.
unfoldable pub boot_alloc : ℕ → ℕ → Cmd ℕ
unfolding paddr roundup
boot_alloc kend n k =
    let start = if k.nextfree == 0 then roundup kend pgsize else k.nextfree in
    let required_pages = n / pgsize + (if n % pgsize == 0 then 0 else 1) in
    and_then (paddr start (record k { nextfree = start })) λ pa k'.
      if leb (u32 (k'.npages * pgsize)) pa
      then panicked boot_alloc_out_of_memory
      else ok start (record k' { nextfree = u32 (start + u32 (required_pages * pgsize)) })

-- The test of page_init for page i, where the boot heap ends at `heap_end`.
unfoldable pub in_use : ℕ → ℕ → Bool
unfolding page2pa
in_use heap_end i =
    let pa = page2pa i in
    let page_0 = i == 0 in
    let io_hole = leb iophysmem pa && leb pa extphysmem in
    let boot_used = ltb extphysmem pa && ltb pa heap_end in page_0 || io_hole || boot_used

-- One round of the loop of page_init.
unfoldable pub page_init_round : ℕ → ℕ → Kernel → Kernel
page_init_round heap_end i k =
    let cleared = set_ref k.pages i 0 in
    if in_use heap_end i
    then record k { pages = set_link (set_ref cleared i 1) i none }
    else record k { pages = set_link cleared i k.page_free_list; page_free_list = some i }

-- The rounds 0 .. n - 1, in order.
unfoldable pub page_init_loop : ℕ → ℕ → Kernel → Kernel
page_init_loop heap_end zero k = k
page_init_loop heap_end (suc i) k = page_init_round heap_end i (page_init_loop heap_end i k)

unfoldable pub page_init : ℕ → Cmd (Unit {0})
unfolding boot_alloc paddr page_init_loop
page_init kend = do
  heap ← boot_alloc kend 0
  heap_end ← paddr heap
  λ k. ok tt (page_init_loop heap_end k.npages k)

-- `alloc_zero` is `alloc_flags & ALLOC_ZERO`.
unfoldable pub page_alloc : Bool → Cmd (Option ℕ)
unfolding page2kva
page_alloc alloc_zero k = elim k.page_free_list [
  | none ↦ ok none k
  | some p ↦
      and_then ((if alloc_zero then (do kva ← page2kva p; zero_page kva) else pure tt) k) λ _ k'.
        ok (some p)
          (record k' { page_free_list = (k'.pages p).pp_link; pages = set_link k'.pages p none })
]

unfoldable pub page_free : ℕ → Cmd (Unit {0})
page_free pp k =
    if not ((k.pages pp).pp_ref == 0) then panicked free_with_refs else elim (k.pages pp).pp_link [
      | some _ ↦ panicked free_with_link
      | none ↦
          ok tt
            (record k { pages = set_link k.pages pp k.page_free_list; page_free_list = some pp })
    ]

-- `--pp->pp_ref` on a uint16_t
unfoldable pub page_decref : ℕ → Cmd (Unit {0})
unfolding page_free
page_decref pp k =
    let left = ((k.pages pp).pp_ref + (2 ^ 16 - 1)) % 2 ^ 16 in
    let k' = record k { pages = set_ref k.pages pp left } in
    if left == 0 then page_free pp k' else ok tt k'
