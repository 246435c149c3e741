-- ===== src/PageAlloc/Init.antt =====
-- page_init: which pages start out free.
use jos_miles.Prelude.{
  ℕ, zero, suc, ◌+◌, ◌-◌, ◌*◌, ◌^◌, ◌≤◌, ◌<◌, ◌≡◌, ◌∙◌, refl, ◌≢◌, ◌⊎◌, ◌↔◌, true, false, ◌&&◌, not,
  none, List, [], ◌∷◌, arith, ltb, if◌then◌else◌, Bool-cases, inl, inr, length, ℕ_discrete,
}
use jos_miles.Mmu.{kernbase}
use jos_miles.Kernel.{Kernel, ok, set_ref}
use jos_miles.PageAlloc.{in_use, page_init_round, page_init_loop, page_init}
use jos_miles.PageAlloc.Boot.{boot_alloc-zero, paddr_lem}
use jos_miles.PageAlloc.FreeList.{has, Chain, Chain-frame, Chain-push, FreeList}

-- The free pages below n, the highest first.
pub free_pages : ℕ → ℕ → List ℕ
free_pages heap_end zero = []
free_pages heap_end (suc i) =
    if in_use heap_end i then free_pages heap_end i else i ∷ free_pages heap_end i

pub has-free_pages :
    (heap_end n i : ℕ) → has i (free_pages heap_end n) ≡ (ltb i n && not (in_use heap_end i))
unfolding free_pages
has-free_pages heap_end zero i = ground arith
has-free_pages heap_end (suc n) i = ground (arith, has-free_pages heap_end n i)

-- What n rounds leave of the state `k`.
pub record Initial (heap_end n : ℕ) (k k' : Kernel) : Type 0 where
  pub free : Chain k.npages k'.pages k'.page_free_list (free_pages heap_end n)
  pub npages : k'.npages ≡ k.npages
  pub mem : k'.mem ≡ k.mem
  pub used : (i : ℕ) → i < n → in_use heap_end i ≡ true → (k'.pages i).pp_ref ≡ 1
  pub unlinked : (i : ℕ) → i < n → in_use heap_end i ≡ true → (k'.pages i).pp_link ≡ none

not-mem-free_pages : (heap_end n : ℕ) → has n (free_pages heap_end n) ≡ false
not-mem-free_pages heap_end n = ground (arith, has-free_pages heap_end n n)

module _ (heap_end n : ℕ) (k k' : Kernel) (lt : n < k.npages) (ih : Initial heap_end n k k') where
  busy_round : in_use heap_end n ≡ true → Initial heap_end (suc n) k (page_init_round heap_end n k')
  unfolding page_init_round free_pages
  busy_round busy = rw busy (record {
    free = rw busy (
        Chain-frame k.npages k'.page_free_list (free_pages heap_end n) ih.free
          (λ a i. ground (arith, not-mem-free_pages heap_end n)));
    npages = ih.npages;
    mem = ih.mem;
    used = λ i h u. ground (arith, ih.used i);
    unlinked = λ i h u. ground (arith, ih.unlinked i);
  })

  spare_round :
      in_use heap_end n ≡ false → Initial heap_end (suc n) k (page_init_round heap_end n k')
  unfolding page_init_round free_pages
  spare_round spare =
      let cleared : Chain k.npages (set_ref k'.pages n 0) k'.page_free_list
          (free_pages heap_end n) =
        Chain-frame k.npages k'.page_free_list (free_pages heap_end n) ih.free
          (λ a i. ground (arith, not-mem-free_pages heap_end n)) in
      rw spare (record {
        free = rw spare (
            Chain-push k.npages (set_ref k'.pages n 0) k'.page_free_list n (free_pages heap_end n)
              cleared lt (not-mem-free_pages heap_end n) (ground arith));
        npages = ih.npages;
        mem = ih.mem;
        used = λ i h u. ground (arith, ih.used i);
        unlinked = λ i h u. ground (arith, ih.unlinked i);
      })

pub page_init_loop-Initial :
    (heap_end n : ℕ) (k : Kernel)
    → k.page_free_list ≡ none
    → n ≤ k.npages
    → Initial heap_end n k (page_init_loop heap_end n k)
unfolding page_init_loop free_pages
page_init_loop-Initial heap_end zero k empty h = record {
  free = empty;
  npages = refl;
  mem = refl;
  used = λ i lt. elim lt [ ];
  unlinked = λ i lt. elim lt [ ];
}
page_init_loop-Initial heap_end (suc n) k empty h =
    let ih = page_init_loop-Initial heap_end n k empty (omega arith) in
    let k' = page_init_loop heap_end n k in
    elim (Bool-cases (in_use heap_end n)) [
      | inl busy ↦ busy_round heap_end n k k' h ih busy
      | inr spare ↦ spare_round heap_end n k k' h ih spare
    ]

-- A page is free exactly if it is not page 0 and lies below the I/O hole, or above the page at 1 MB
-- and not below the end of the boot heap.
pub in_use_iff :
    (heap_end i : ℕ)
    → i < 2 ^ 20
    → (in_use heap_end i ≡ false) ↔ ((i ≢ 0) × ((i < 160) ⊎ ((256 < i) × (heap_end ≤ i * 4096))))
unfolding in_use
in_use_iff heap_end i h = ground arith

-- Page 0 is in use, and the pages below the I/O hole are free.
pub length-free_pages :
    (heap_end n j : ℕ) → j ≤ n → j ≤ 160 → n ≤ 2 ^ 16 → j ≤ length (free_pages heap_end n) + 1
unfolding free_pages in_use
length-free_pages heap_end zero j le few small = omega arith
length-free_pages heap_end (suc n) j le few small = elim (ℕ_discrete j (suc n)) [
  | yes e ↦ ground (arith, length-free_pages heap_end n n)
  | no ne ↦ ground (arith, length-free_pages heap_end n j)
]

pub page_init_lem :
    (kend : ℕ) (k : Kernel)
    → k.npages ≤ 2 ^ 16
    → kernbase ≤ k.nextfree
    → k.nextfree < kernbase + k.npages * 4096
    → page_init kend k ≡ ok tt (page_init_loop (k.nextfree - kernbase) k.npages k)
unfolding page_init
page_init_lem kend k small lo hi = ground (arith, boot_alloc-zero kend k, paddr_lem k.nextfree k)

-- Memory that may be handed out: neither page 0, nor in the I/O hole or the page behind it, nor below
-- the end of the boot heap if it is above them.
abbrev pub Available : ℕ → ℕ → Type 0
Available heap_end i = (i ≢ 0) × ((i < 160) ⊎ ((256 < i) × (heap_end ≤ i * 4096)))

not-Available : (heap_end i : ℕ) → i < 2 ^ 20 → ¬ Available heap_end i → in_use heap_end i ≡ true
not-Available heap_end i h taken = elim (Bool-cases (in_use heap_end i)) [
  | inl busy ↦ busy
  | inr spare ↦ absurd (taken ((in_use_iff heap_end i h).0 spare))
]

free_pages-Available :
    (heap_end n i : ℕ)
    → n ≤ 2 ^ 16
    → (has i (free_pages heap_end n) ≡ true) ↔ ((i < n) × Available heap_end i)
free_pages-Available heap_end n i small = (
  λ h.
      let lt : i < n = ground (arith, has-free_pages heap_end n i) in
      (lt, (in_use_iff heap_end i (omega arith)).0 (ground (arith, has-free_pages heap_end n i))),
  λ (lt, spare).
      let idle = (in_use_iff heap_end i (omega arith)).1 spare in
      has-free_pages heap_end n i ∙ rw idle (ground arith),
)

-- With at most 2 ^ 16 pages, no free list, and the boot heap's end inside the memory mapped at
-- KERNBASE, page_init puts on the list exactly the pages but page 0 that lie below the I/O hole (below
-- page 160), or above the page at 1 MB (page 256) and not below the end of the boot heap. It does not
-- touch memory, and gives each other page one reference and no link.
pub page_init-FreeList :
    (kend : ℕ) (k : Kernel)
    → k.page_free_list ≡ none
    → k.npages ≤ 2 ^ 16
    → kernbase ≤ k.nextfree
    → k.nextfree < kernbase + k.npages * 4096
    → (k' : Kernel) × (xs : List ℕ) × (page_init kend k ≡ ok tt k')
      × FreeList k' xs
      × ((i : ℕ) → (has i xs ≡ true) ↔ ((i < k.npages) × Available (k.nextfree - kernbase) i))
      × ((i : ℕ)
          → i < k.npages
          → ¬ Available (k.nextfree - kernbase) i
          → k'.pages i ≡ record { pp_link = none; pp_ref = 1 })
      × (k'.mem ≡ k.mem)
page_init-FreeList kend k empty small lo hi =
    let heap_end = k.nextfree - kernbase in
    let k' = page_init_loop heap_end k.npages k in
    let r = page_init_loop-Initial heap_end k.npages k empty (omega arith) in
    (
      k',
      free_pages heap_end k.npages,
      page_init_lem kend k small lo hi,
      rw r.npages r.free,
      λ i. free_pages-Available heap_end k.npages i small,
      λ i lt taken.
          let u = not-Available heap_end i (omega arith) taken in
          ground (arith, r.used i lt u, r.unlinked i lt u),
      r.mem,
    )
