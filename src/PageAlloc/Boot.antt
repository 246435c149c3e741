-- ===== src/PageAlloc/Boot.antt =====
-- boot_alloc: the allocator that serves before the free list is there.
use jos_miles.Prelude.{ℕ, ◌+◌, ◌-◌, ◌*◌, ◌/◌, ◌%◌, ◌^◌, ◌≤◌, ◌<◌, ◌≡◌, arith, ◌==◌, if◌then◌else◌}
use jos_miles.Mmu.{u32, kernbase, pgsize, roundup}
use jos_miles.Kernel.{Kernel, ok, panicked, boot_alloc_out_of_memory}
use jos_miles.PageAlloc.{boot_alloc, paddr}

-- Where the next chunk starts: behind the kernel's image at the first call.
unfoldable pub next_chunk : ℕ → Kernel → ℕ
next_chunk kend k = if k.nextfree == 0 then roundup kend pgsize else k.nextfree

pub paddr_lem :
    (kva : ℕ) (k : Kernel) → kernbase ≤ kva → kva < 2 ^ 32 → paddr kva k ≡ ok (kva - kernbase) k
unfolding paddr
paddr_lem kva k lo hi = ground arith

-- With at most 2 ^ 16 pages, a next chunk that starts inside the memory mapped at KERNBASE, and a
-- request of less than 2 ^ 32 - 4096 bytes, boot_alloc returns the start of the chunk and moves on
-- by the bytes asked for, rounded up to whole pages, modulo 2 ^ 32. It asks only that the start
-- lie in memory: the end of the chunk may lie beyond it.
pub boot_alloc_lem :
    (kend n : ℕ) (k : Kernel)
    → k.npages ≤ 2 ^ 16
    → kernbase ≤ next_chunk kend k
    → next_chunk kend k < kernbase + k.npages * 4096
    → n < 2 ^ 32 - 4096
    → boot_alloc kend n k
      ≡ ok
          (next_chunk kend k)
          (record k { nextfree = u32 (next_chunk kend k + (n + 4095) / 4096 * 4096) })
unfolding boot_alloc next_chunk
boot_alloc_lem kend n k small lo hi fits = ground arith

-- A chunk that starts beyond the end of memory is refused.
pub boot_alloc-out_of_memory :
    (kend n : ℕ) (k : Kernel)
    → k.npages ≤ 2 ^ 16
    → kernbase + k.npages * 4096 ≤ next_chunk kend k
    → next_chunk kend k < 2 ^ 32
    → boot_alloc kend n k ≡ panicked boot_alloc_out_of_memory
unfolding boot_alloc next_chunk
boot_alloc-out_of_memory kend n k small hi fits = ground arith

pub next_chunk-set :
    (kend b : ℕ) (k : Kernel) → 0 < b → next_chunk kend (record k { nextfree = b }) ≡ b
unfolding next_chunk
next_chunk-set kend b k h = ground arith

-- With at most 2 ^ 16 pages, if the first chunk starts page-aligned at KERNBASE or above and ends
-- a page before the end of memory, and the second asks for less than 2 ^ 32 - 4096 bytes, then
-- both requests succeed, the chunks are page-aligned, and the second starts at the first page
-- boundary behind the first.
pub boot_alloc-boot_alloc :
    (kend m n : ℕ) (k : Kernel)
    → k.npages ≤ 2 ^ 16
    → next_chunk kend k % 4096 ≡ 0
    → kernbase ≤ next_chunk kend k
    → next_chunk kend k + m + 4096 < kernbase + k.npages * 4096
    → n < 2 ^ 32 - 4096
    → (a b : ℕ) × (k' k'' : Kernel) × (boot_alloc kend m k ≡ ok a k')
      × (boot_alloc kend n k' ≡ ok b k'')
      × (a + m ≤ b)
      × (b < a + m + 4096)
      × (a % 4096 ≡ 0)
      × (b % 4096 ≡ 0)
boot_alloc-boot_alloc kend m n k small aligned lo hi fits = (
  a,
  b,
  record k { nextfree = b },
  record k { nextfree = u32 (b + (n + 4095) / 4096 * 4096) },
  boot_alloc_lem kend m k small lo (omega arith) (omega arith),
  second,
  omega arith,
  omega arith,
  aligned,
  omega arith,
)
  where
    a : ℕ
    a = next_chunk kend k

    b : ℕ
    b = u32 (a + (m + 4095) / 4096 * 4096)

    at : next_chunk kend (record k { nextfree = b }) ≡ b
    at = next_chunk-set kend b k (omega arith)

    second :
        boot_alloc kend n (record k { nextfree = b })
        ≡ ok b (record k { nextfree = u32 (b + (n + 4095) / 4096 * 4096) })
    second = rw at at (
        boot_alloc_lem kend n (record k { nextfree = b }) small (omega (arith, at))
          (omega (arith, at)) fits)

-- A request of no bytes returns the next chunk's address and changes nothing.
pub boot_alloc-zero :
    (kend : ℕ) (k : Kernel)
    → k.npages ≤ 2 ^ 16
    → kernbase ≤ k.nextfree
    → k.nextfree < kernbase + k.npages * 4096
    → boot_alloc kend 0 k ≡ ok k.nextfree k
unfolding boot_alloc
boot_alloc-zero kend k small lo hi = ground arith
