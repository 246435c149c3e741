-- ===== src/MemInit/Check.antt =====
-- check_kern_pgdir and check_va2pa of kern/pmap.c: the kernel's own test of the address space that
-- mem_init has made. check_page_free_list is in the child Listed.
pub mod Walk
pub mod Passes
pub mod Listed
use jos_miles.Prelude.{
  ℕ, zero, suc, ◌+◌, ◌-◌, ◌*◌, ◌/◌, ◌^◌, Bool, true, false, ◌&&◌, ◌||◌, not, leb, ◌==◌,
  if◌then◌else◌, bit_and,
}
use jos_miles.Mmu.{
  u32, pgsize, ptsize, pdx, ptx, pte_p, pte_w, pte_addr, kernbase, kstacktop, kstksize, upages,
  uenvs, uvpt, npdentries, roundup,
}
use jos_miles.Kernel.{Kernel, Cmd, ok, pure, panic, ◌>>=◌, ◌>>◌, load, assertion_failed}
use jos_miles.PageAlloc.{paddr, kaddr}
use jos_miles.MemInit.{pages_size, envs_size}

-- `assert(b)`
abbrev pub assert : Bool → Cmd (Unit {0})
assert b = if b then pure tt else panic assertion_failed

-- `~0`
abbrev pub no_address : ℕ
no_address = 2 ^ 32 - 1

unfoldable pub check_va2pa : ℕ → ℕ → Cmd ℕ
check_va2pa pgdir va = do
  pde ← load (pgdir + 4 * pdx va)
  if bit_and pde pte_p == 0 then pure no_address else do
    p ← kaddr (pte_addr pde)
    pte ← load (p + 4 * ptx va)
    if bit_and pte pte_p == 0 then pure no_address else pure (pte_addr pte)

-- The rounds 0 .. n - 1 of a loop over pages, each against the address `pa` and the offset.
unfoldable pub check_pages : ℕ → ℕ → Cmd ℕ → ℕ → Cmd (Unit {0})
check_pages pgdir va pa zero = pure tt
check_pages pgdir va pa (suc n) = check_pages pgdir va pa n >> do
  found ← check_va2pa pgdir (u32 (va + n * pgsize))
  base ← pa
  assert (found == u32 (base + n * pgsize))

-- What is asserted of directory entry i.
unfoldable pub pde_expected : ℕ → ℕ → Bool
pde_expected i pde =
    let present = not (bit_and pde pte_p == 0) in
    if (i == pdx uvpt) || (i == pdx (kstacktop - 1)) || (i == pdx upages) || (i == pdx uenvs)
    then present
    else if leb (pdx kernbase) i
    then present && not (bit_and pde pte_w == 0)
    else pde == 0

-- The rounds 0 .. n - 1 over the directory.
unfoldable pub check_pdes : ℕ → ℕ → Cmd (Unit {0})
unfolding pde_expected
check_pdes pgdir zero = pure tt
check_pdes pgdir (suc n) =
    check_pdes pgdir n >> do pde ← load (pgdir + 4 * n); assert (pde_expected n pde)

-- `pages`, `envs` and `bootstack` are the addresses of the arrays.
unfoldable pub check_kern_pgdir : ℕ → ℕ → ℕ → ℕ → Cmd (Unit {0})
unfolding check_pages check_pdes
check_kern_pgdir kern_pgdir pages envs bootstack = do
  npages ← λ k. ok k.npages k
  check_pages kern_pgdir upages (paddr pages) (roundup (pages_size npages) pgsize / pgsize)
  check_pages kern_pgdir uenvs (paddr envs) (roundup envs_size pgsize / pgsize)
  check_pages kern_pgdir kernbase (pure 0) (u32 (npages * pgsize) / pgsize)
  check_pages kern_pgdir (kstacktop - kstksize) (paddr bootstack) (kstksize / pgsize)
  guard ← check_va2pa kern_pgdir (kstacktop - ptsize)
  assert (guard == no_address)
  check_pdes kern_pgdir npdentries
