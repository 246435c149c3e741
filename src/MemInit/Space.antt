-- ===== src/MemInit/Space.antt =====
-- The kernel's address space: what boot_alloc and page_init set up, and what map_kernel makes of it.
use jos_miles.Prelude.{
  ℕ, ◌+◌, ◌-◌, ◌*◌, ◌^◌, ◌≤◌, ◌<◌, ◌≡◌, ◌≢◌, ◌⊎◌, ◌%◌, inl, inr, ap, ◌∙◌, arith, true, false, List,
  ◌++◌, length, length-append, none,
}
use jos_miles.Mmu.{pgsize, kernbase, roundup}
use jos_miles.Kernel.{Kernel, ok}
use jos_miles.PageAlloc.{in_use, page_init, page_init_loop}
use jos_miles.PageAlloc.FreeList.{has, FreeList}
use jos_miles.PageAlloc.Init.{
  Initial, page_init_loop-Initial, page_init_lem, free_pages, has-free_pages, length-free_pages,
}
use jos_miles.PageTable.Space.{page_at, pde, table, Present, entry, entry-absent, IsSpace}
use jos_miles.PageTable.Region.{dir_of}
use jos_miles.MemInit.{boot_tables, map_kernel}
use jos_miles.MemInit.Boot.{pages_pages, with_tables, boot_tables_lem}
use jos_miles.MemInit.Regions.{
  TouchedBy, spans, mapped_by, AllFit, MappedAll, map_regions-MappedAll,
}
use jos_miles.MemInit.Layout.{kernel_part, kernel_regions, map_kernel_lem, span_small, region-Fits}

-- The directory in page d maps itself at UVPT and nothing else; the free list, in whatever order,
-- has neither its page nor a page twice.
pub record IsFresh (d : ℕ) (k : Kernel) (free : List ℕ) : Type 0 where
  pub space : IsSpace kernel_part k d free
  pub list : FreeList k free
  pub empty : (i : ℕ) → kernel_part i ≡ true → pde k.mem d i ≡ 0
  pub self : pde k.mem d 957 ≡ d * 4096 + 5

dir_in_use :
    (heap_end d : ℕ) → 256 < d → d < 2 ^ 16 → d * 4096 < heap_end → in_use heap_end d ≡ true
unfolding in_use
dir_in_use heap_end d low small lt = ground arith

module _ (d : ℕ) (k : Kernel) (none_free : k.page_free_list ≡ none) (small : k.npages ≤ 2 ^ 16)
    (low : 256 < d) (base : 160 ≤ k.npages)
    (room : d + 1 + pages_pages k.npages + 24 < k.npages) where
  abbrev heap_end : ℕ
  heap_end = (with_tables d k).nextfree - kernbase

  abbrev after_init : Kernel
  after_init = page_init_loop heap_end k.npages (with_tables d k)

  abbrev free_now : List ℕ
  free_now = free_pages heap_end k.npages

  initial : Initial heap_end k.npages (with_tables d k) after_init
  initial = page_init_loop-Initial heap_end k.npages (with_tables d k) none_free (omega arith)

  -- The directory is empty but for itself, and its page is not free.
  no_pde : (i : ℕ) → kernel_part i ≡ true → pde after_init.mem d i ≡ 0
  no_pde i h = rw initial.mem (ground arith)

  self_pde : pde after_init.mem d 957 ≡ d * 4096 + 5
  self_pde = rw initial.mem (ground arith)

  dir_busy : has d free_now ≡ false
  dir_busy = ground (arith, has-free_pages heap_end k.npages d, dir_in_use heap_end d)

  fresh_space : IsSpace kernel_part after_init d free_now
  fresh_space = record {
    small = rw initial.npages small;
    bounded = λ i h. ground arith;
    dir_in = rw initial.npages (omega arith);
    dir_used = dir_busy;
    table_in = λ i h p. absurd (ground (arith, no_pde i h));
    table_ne_dir = λ i h p. absurd (ground (arith, no_pde i h));
    table_used = λ i h p. absurd (ground (arith, no_pde i h));
    table_inj = λ i j h h' p. absurd (ground (arith, no_pde i h));
  }

  fresh_list : FreeList after_init free_now
  fresh_list = rw initial.npages initial.free

  enough_free : 159 ≤ length free_now
  enough_free = omega (arith, length-free_pages heap_end k.npages 160)

-- If the kernel's image ends in the page before page d above 1 MB, memory has at most 2 ^ 16 pages
-- with room for the directory and the arrays from page d on, boot_alloc has not been called and the
-- free list is empty, then boot_tables and page_init leave a fresh directory in page d, and at least
-- 159 free pages.
pub boot_tables-IsFresh :
    (kend d : ℕ) (k : Kernel)
    → roundup kend pgsize ≡ page_at d
    → k.nextfree ≡ 0
    → k.page_free_list ≡ none
    → k.npages ≤ 2 ^ 16
    → 256 < d
    → d + 1 + pages_pages k.npages + 24 < k.npages
    → (k1 : Kernel) × (k2 : Kernel) × (free : List ℕ) × (boot_tables kend k
        ≡ ok (page_at d, page_at (d + 1), page_at (d + 1 + pages_pages k.npages), 8 * k.npages) k1)
      × (page_init kend k1 ≡ ok tt k2)
      × IsFresh d k2 free
      × (k2.npages ≡ k.npages)
      × (159 ≤ length free)
boot_tables-IsFresh kend d k at fresh no_list small low room = (
  with_tables d k,
  after_init d k no_list small low (omega arith) room,
  free_now d k no_list small low (omega arith) room,
  boot_tables_lem kend d k at fresh small room,
  page_init_lem kend (with_tables d k) small (omega arith) (omega arith),
  record {
    space = fresh_space d k no_list small low (omega arith) room;
    list = fresh_list d k no_list small low (omega arith) room;
    empty = no_pde d k no_list small low (omega arith) room;
    self = self_pde d k no_list small low (omega arith) room;
  },
  (initial d k no_list small low (omega arith) room).npages,
  enough_free d k no_list small low (omega arith) room,
)

-- What map_kernel leaves of the state `k`, with the kernel's directory in page d and its stack in the
-- pages from bs on.
pub record KernelSpace (d bs : ℕ) (k k' : Kernel) : Type 0 where
  pub run :
      map_kernel
        (page_at bs)
        (page_at d)
        (page_at (d + 1))
        (page_at (d + 1 + pages_pages k.npages))
        (8 * k.npages)
        k
      ≡ ok tt k'
  pub pages_at : k'.npages ≡ k.npages
  pub self : pde k'.mem d 957 ≡ d * 4096 + 5
  -- An entry of the directory is empty, or one of the regions reaches into it.
  pub pdes :
      (i : ℕ)
      → i < 1024
      → i ≢ 957
      → (pde k'.mem d i ≡ 0)
        ⊎ (TouchedBy (kernel_regions d (pages_pages k.npages) bs) i × (pde k'.mem d i % 8 ≡ 7))
  pub before : List ℕ
  pub was : FreeList k before
  pub free : List ℕ
  pub list : FreeList k' free
  -- The pages of the tables are the first of those that were free.
  pub taken : List ℕ
  pub order : before ≡ taken ++ free
  pub few : length taken ≤ 100
  pub tables :
      (i : ℕ) → kernel_part i ≡ true → Present k'.mem d i → has (table k'.mem d i) taken ≡ true
  pub space : IsSpace kernel_part k' d free
  pub entries :
      (j : ℕ)
      → j < 2 ^ 20
      → kernel_part (dir_of j) ≡ true
      → entry k'.mem d (j * 4096) ≡ mapped_by (kernel_regions d (pages_pages k.npages) bs) j 0

few_taken :
    (taken left free : List ℕ) (n : ℕ)
    → free ≡ taken ++ left
    → length free ≤ length left + n
    → n ≤ 100
    → length taken ≤ 100
few_taken taken left free n e room h =
    omega (arith, ap (λ (xs : List ℕ). length xs) e, length-append taken left, room, h)

module _ (d : ℕ) (k : Kernel) (free : List ℕ) (f : IsFresh d k free)
    (room : d + 1 + pages_pages k.npages + 24 < k.npages) (plenty : 100 ≤ length free) where
  small : k.npages ≤ 2 ^ 16
  small = f.space.small

  -- No region reaches into the entry at UVPT.
  not-TouchedBy-uvpt : (bs : ℕ) → ¬ TouchedBy (kernel_regions d (pages_pages k.npages) bs) 957
  not-TouchedBy-uvpt bs t = ground (arith, small)

  fresh_entry : (j : ℕ) → kernel_part (dir_of j) ≡ true → entry k.mem d (j * 4096) ≡ 0
  fresh_entry j h = entry-absent k.mem d (j * 4096) (ground (arith, f.empty (dir_of j) h))

  spans_few : (bs : ℕ) → spans (kernel_regions d (pages_pages k.npages) bs) ≤ 100
  spans_few bs =
      let m = pages_pages k.npages in
      omega (
        arith,
        small,
        span_small 0xe_f000 m,
        span_small (0xf_0000 + (d + 1)) m,
        span_small (0xf_0000 + (d + 1 + m)) 24,
      )

  all_fit : (bs : ℕ) → AllFit kernel_part (kernel_regions d (pages_pages k.npages) bs)
  all_fit bs =
      let m = pages_pages k.npages in
      let e = d + 1 + m in
      (
        region-Fits 0xe_f000 m (d + 1) 4 (omega (arith, small)) (omega (arith, small))
            (inl (omega (arith, small))),
        (
          region-Fits (0xf_0000 + (d + 1)) m (d + 1) 2 (omega (arith, small)) (omega (arith, small))
              (inr (omega (arith, small))),
          (
            region-Fits 0xe_ec00 24 e 4 (omega (arith, small)) (omega (arith, small))
                (inl (omega (arith, small))),
            (
              region-Fits (0xf_0000 + e) 24 e 2 (omega (arith, small)) (omega (arith, small))
                  (inr (omega (arith, small))),
              (
                region-Fits 0xe_fff8 8 bs 2 (omega (arith, small)) (omega (arith, small))
                    (inr (omega (arith, small))),
                (
                  region-Fits 0xf_0000 65536 0 2 (omega (arith, small)) (omega (arith, small))
                      (inr (omega (arith, small))),
                  tt,
                ),
              ),
            ),
          ),
        ),
      )

  -- What maps the kernel's regions.
  mapped :
      (bs : ℕ)
      → (k' : Kernel) × (free' : List ℕ) × MappedAll kernel_part k d
          (kernel_regions d (pages_pages k.npages) bs)
          free
          k'
          free'
  mapped bs =
      map_regions-MappedAll kernel_part k d (kernel_regions d (pages_pages k.npages) bs) free
        (all_fit bs) f.space f.list (omega (arith, spans_few bs, plenty))

  -- From a fresh directory in page d, in memory of at most 2 ^ 16 pages that has the arrays in the pages
  -- behind it, with the kernel's stack beginning at page bs below 2 ^ 16, and with 100 or more free
  -- pages in whatever order, map_kernel does not panic. Every page outside the 4 MB at UVPT is then
  -- mapped as the last of the six regions over it says, or not at all. The page tables are distinct and
  -- lie in pages that were among the first 100 of the free list, so below 4 MB if these did, and the
  -- rest of the list is as it was; directory entries that no region reaches into stay empty, and that
  -- at UVPT stays.
  pub map_kernel-KernelSpace : (bs : ℕ) → bs < 2 ^ 16 → (k' : Kernel) × KernelSpace d bs k k'
  map_kernel-KernelSpace bs stack =
      let (k', free', r) = mapped bs in
      let regions = map_kernel_lem d k.npages bs small (omega arith) stack in
      (
        k',
        record {
          run = ap (λ c. c k) regions ∙ r.run;
          pages_at = r.npages;
          self = elim (r.pdes 957 (omega arith)) [
            | inl same ↦ same ∙ f.self
            | inr (touched, _) ↦ absurd (not-TouchedBy-uvpt bs touched)
          ];
          pdes = λ i h ne. elim (r.pdes i h) [
            | inl same ↦ inl (same ∙ f.empty i (ground arith))
            | inr touched ↦ inr touched
          ];
          before = free;
          was = f.list;
          free = free';
          list = r.list;
          taken = r.taken;
          order = r.order;
          few =
              few_taken r.taken free' free (spans (kernel_regions d (pages_pages k.npages) bs))
                r.order r.room (spans_few bs);
          tables = λ i h there. elim (r.new_tables i h there) [
            | inl old ↦ absurd (omega (arith, old, f.empty i h))
            | inr new ↦ new
          ];
          space = r.space;
          entries = λ j hj own_j.
              r.entries j hj own_j
              ∙ ap (mapped_by (kernel_regions d (pages_pages k.npages) bs) j) (fresh_entry j own_j);
        },
      )
