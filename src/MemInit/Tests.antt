-- ===== src/MemInit/Tests.antt =====
-- The set-up of the address space on a machine of 65 MB whose kernel ends in the page at 0xf0104000.
use jos_miles.Prelude.{
  ℕ, ◌≡◌, ◌≤◌, ◌*◌, ◌+◌, refl, none, some, Option, arith, List, [], ◌∷◌, length,
}
use jos_miles.Mmu.{roundup, rounddown, pdx}
use jos_miles.Kernel.{Kernel, Run, ok, panicked, set_link}
use jos_miles.PageAlloc.{page2pa, page_init}
use jos_miles.PageTable.Space.{page_at}
use jos_miles.MemInit.{boot_tables}
use jos_miles.MemInit.Boot.{pages_pages}
use jos_miles.MemInit.Space.{IsFresh, boot_tables-IsFresh, KernelSpace, map_kernel-KernelSpace}
use jos_miles.MemInit.Check.{check_kern_pgdir}
use jos_miles.MemInit.Check.Listed.{low_first, split_loop, split_round, put_low, put_high}
use jos_miles.MemInit.Check.Passes.{check_kern_pgdir-passes}
use jos_miles.Sample.{machine}

abbrev booting : Kernel
booting = record machine { npages = 16624; nextfree = 0; page_free_list = none }

booted :
    (k1 : Kernel) × (k2 : Kernel) × (free : List ℕ) × (boot_tables 0xf010_4123 booting
      ≡ ok (page_at 261, page_at 262, page_at 295, 8 * 16624) k1)
    × (page_init 0xf010_4123 k1 ≡ ok tt k2)
    × IsFresh 261 k2 free
    × (k2.npages ≡ 16624)
    × (159 ≤ length free)
unfolding roundup rounddown
booted =
    boot_tables-IsFresh 0xf010_4123 261 booting refl refl refl (omega arith) (omega arith)
      (omega arith)

abbrev start : Kernel
start = booted.1

map_kernel-KernelSpace_example : (k' : Kernel) × KernelSpace 261 240 start k'
map_kernel-KernelSpace_example =
    map_kernel-KernelSpace 261 start booted.2 booted.5 (omega (arith, booted.6))
      (omega (arith, booted.7)) 240 (omega arith)

mapped : (k' : Kernel) × KernelSpace 261 240 start k'
mapped =
    map_kernel-KernelSpace 261 start booted.2 booted.5 (omega (arith, booted.6))
      (omega (arith, booted.7)) 240 (omega arith)

check_kern_pgdir-passes_example :
    check_kern_pgdir
      (page_at 261)
      (page_at 262)
      (page_at (262 + pages_pages start.npages))
      (page_at 240)
      mapped.0
    ≡ ok tt mapped.0
check_kern_pgdir-passes_example =
    check_kern_pgdir-passes 261 240 start mapped.0 (omega (arith, booted.6))
      (omega (arith, booted.6)) (omega arith) mapped.1

-- A free list of pages above and below 4 MB in turn.
abbrev mixed : Kernel
mixed = record machine {
  npages = 1600;
  page_free_list = some 1500;
  pages =
      set_link
        (set_link (set_link (set_link machine.pages 1500 (some 5)) 5 (some 1200)) 1200 (some 7)) 7
        none;
}

abbrev links : Kernel → List (Option ℕ)
links k =
    k.page_free_list
    ∷ (k.pages 5).pp_link
    ∷ (k.pages 7).pp_link
    ∷ (k.pages 1500).pp_link
    ∷ (k.pages 1200).pp_link
    ∷ []

abbrev after : Run (Unit {0}) → List (Option ℕ)
after (ok _ k) = links k
after (panicked why) = []

-- The pages below 4 MB are first, each part in its order.
reordered : after (low_first 1 mixed) ≡ some 5 ∷ some 7 ∷ some 1500 ∷ some 1200 ∷ none ∷ []
unfolding low_first split_loop split_round put_low put_high page2pa pdx
reordered = refl
