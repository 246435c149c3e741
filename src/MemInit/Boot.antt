-- ===== src/MemInit/Boot.antt =====
-- The first part of mem_init: what boot_alloc hands out, and the directory that it leaves. Pages are
-- numbered from KERNBASE: page p begins at page_at p.
use jos_miles.Prelude.{
  ℕ, ◌+◌, ◌*◌, ◌/◌, ◌^◌, ◌≤◌, ◌<◌, ◌≡◌, refl, ◌∙◌, arith, ltb, leb, ◌&&◌, if◌then◌else◌, bit_or,
}
use jos_miles.Mmu.{pgsize, pte_p, pte_u, roundup}
use jos_miles.Mmu.Laws.{low_or, pdx-uvpt}
use jos_miles.Kernel.{Kernel, ok, update}
use jos_miles.PageAlloc.{boot_alloc}
use jos_miles.PageAlloc.Boot.{next_chunk, next_chunk-set, boot_alloc_lem}
use jos_miles.PageTable.Space.{page_at}
use jos_miles.PageTable.Walk.{paddr_of_page}
use jos_miles.MemInit.{no_page, pages_size, envs_size, boot_tables}

-- The pages that `pages` takes up.
abbrev pub pages_pages : ℕ → ℕ
pages_pages npages = (8 * npages + 4095) / 4096

alloc_at :
    (kend n p : ℕ) (k : Kernel)
    → next_chunk kend k ≡ page_at p
    → k.npages ≤ 2 ^ 16
    → p + (n + 4095) / 4096 < k.npages
    → boot_alloc kend n k ≡ ok (page_at p) (record k { nextfree = page_at (p + (n + 4095) / 4096) })
alloc_at kend n p k at small room =
    boot_alloc_lem kend n k small (omega (arith, at)) (omega (arith, at)) (omega arith)
    ∙ ground (arith, at)

-- The state when the directory is cleared, and when it maps itself.
abbrev with_dir : ℕ → Kernel → Kernel
with_dir d k = record k {
  nextfree = page_at (d + 1);
  mem = λ b. if leb (page_at d) b && ltb b (page_at d + pgsize) then 0 else k.mem b;
}

abbrev with_uvpt : ℕ → Kernel → Kernel
with_uvpt d k = record k { mem = update (with_dir d k).mem (page_at d + 4 * 957) (d * 4096 + 5) }

-- The state after it, with the directory in page d.
abbrev pub with_tables : ℕ → Kernel → Kernel
with_tables d k = record k {
  nextfree = page_at (d + 1 + pages_pages k.npages + 24);
  pages = λ p. no_page;
  mem = (with_uvpt d k).mem;
}

uvpt_pde : (d : ℕ) → d < 2 ^ 16 → bit_or (bit_or (d * 4096) pte_u) pte_p ≡ d * 4096 + 5
uvpt_pde d h = ground (arith, low_or d 0 4, low_or d 4 1)

first_chunk :
    (kend d : ℕ) (k : Kernel)
    → roundup kend pgsize ≡ page_at d
    → k.nextfree ≡ 0
    → next_chunk kend k ≡ page_at d
unfolding next_chunk
first_chunk kend d k at fresh = ground (arith, at)

pub pages_size_lem : (npages : ℕ) → npages ≤ 2 ^ 16 → pages_size npages ≡ 8 * npages
unfolding pages_size
pages_size_lem npages h = omega arith

pub envs_size_lem : envs_size ≡ 98304
unfolding envs_size
envs_size_lem = refl

-- The chunk after the first.
later_chunk :
    (kend n p : ℕ) (k : Kernel)
    → k.npages ≤ 2 ^ 16
    → p + (n + 4095) / 4096 < k.npages
    → boot_alloc kend n (record k { nextfree = page_at p })
      ≡ ok (page_at p) (record k { nextfree = page_at (p + (n + 4095) / 4096) })
later_chunk kend n p k small room =
    alloc_at kend n p (record k { nextfree = page_at p })
      (next_chunk-set kend (page_at p) k (omega arith)) small room

-- Where the kernel's image ends in the page before d, boot_tables hands out page d for the directory
-- and the following pages for the arrays.
pub boot_tables_lem :
    (kend d : ℕ) (k : Kernel)
    → roundup kend pgsize ≡ page_at d
    → k.nextfree ≡ 0
    → k.npages ≤ 2 ^ 16
    → d + 1 + pages_pages k.npages + 24 < k.npages
    → boot_tables kend k
      ≡ ok
          (page_at d, page_at (d + 1), page_at (d + 1 + pages_pages k.npages), 8 * k.npages)
          (with_tables d k)
unfolding boot_tables
boot_tables_lem kend d k at fresh small room =
    let m = pages_pages k.npages in
    let k1 = with_dir d k in
    let k2 = with_uvpt d k in
    let k3 = record k2 { pages = λ p. no_page } in
    rw (alloc_at kend pgsize d k (first_chunk kend d k at fresh) small (omega arith), pdx-uvpt)
      (rw (paddr_of_page d k1 (omega arith), uvpt_pde d (omega arith))
        (rw (pages_size_lem k.npages small) (
          rw (later_chunk kend (8 * k.npages) (d + 1) k2 small (omega arith), envs_size_lem)
            (rw (later_chunk kend 98304 (d + 1 + m) k3 small (omega arith)) refl))))
