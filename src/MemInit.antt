-- ===== src/MemInit.antt =====
-- The kernel's address space, as mem_init of kern/pmap.c sets it up: boot_tables is its part in front of
-- page_init, map_kernel its part behind the first self checks, and the child Whole has all of it. The
-- self checks are in the child Check. The arrays `pages` and `envs` are kept outside `mem`.
pub mod Regions
pub mod Boot
pub mod Layout
pub mod Space
pub mod Check
pub mod Whole
mod Tests
use jos_miles.Prelude.{ℕ, ◌+◌, ◌-◌, ◌*◌, ◌^◌, none, bit_or, bit_xor}
use jos_miles.Mmu.{
  u32, sub32, pgsize, pdx, pte_p, pte_u, pte_w, kernbase, kstacktop, kstksize, uvpt, upages, uenvs,
  roundup,
}
use jos_miles.Kernel.{PageInfo, Cmd, Run, ok, pure, ◌>>=◌, ◌>>◌, store, zero_page}
use jos_miles.PageAlloc.{boot_alloc, page_init, paddr}
use jos_miles.PageTable.{boot_map_region}
use jos_miles.Env.{Status, Env, Sys, done, Call, then_do, on_kernel, nenv, zero_regs}
use jos_miles.Env.Switch.{lcr3}

-- sizeof(struct PageInfo) and sizeof(struct Env)
abbrev pub sizeof_page_info : ℕ
sizeof_page_info = 8

abbrev pub sizeof_env : ℕ
sizeof_env = 96

abbrev pub no_page : PageInfo
no_page = record { pp_link = none; pp_ref = 0 }

-- An environment of zero bytes.
abbrev pub zero_env : Env
zero_env = record {
  env_tf = record {
    tf_regs = zero_regs;
    tf_es = 0;
    tf_ds = 0;
    tf_trapno = 0;
    tf_err = 0;
    tf_eip = 0;
    tf_cs = 0;
    tf_eflags = 0;
    tf_esp = 0;
    tf_ss = 0;
  };
  env_link = none;
  env_id = 0;
  env_parent_id = 0;
  env_status = Status.free;
  env_runs = 0;
  env_pgdir = 0;
}

-- The local variables `pages_size` and `envs_size`.
unfoldable pub pages_size : ℕ → ℕ
pages_size npages = u32 (sizeof_page_info * npages)

unfoldable pub envs_size : ℕ
envs_size = sizeof_env * nenv

-- The directory, with itself at UVPT, and room for the two arrays: their addresses, and the size of
-- the first array.
unfoldable pub boot_tables : ℕ → Cmd (ℕ × ℕ × ℕ × ℕ)
unfolding pages_size envs_size
boot_tables kend = do
  kern_pgdir ← boot_alloc kend pgsize
  zero_page kern_pgdir
  pa ← paddr kern_pgdir
  store (kern_pgdir + 4 * pdx uvpt) (bit_or (bit_or pa pte_u) pte_p)
  size ← λ k. ok (pages_size k.npages) k
  pages ← boot_alloc kend size
  λ k. ok tt (record k { pages = λ p. no_page })
  envs ← boot_alloc kend envs_size
  pure (kern_pgdir, pages, envs, size)

-- The regions above UTOP. `2^32` in the size of the last one is an exclusive or.
unfoldable pub map_kernel : ℕ → ℕ → ℕ → ℕ → ℕ → Cmd (Unit {0})
unfolding envs_size
map_kernel bootstack kern_pgdir pages envs size = do
  pages_pa ← paddr pages
  boot_map_region kern_pgdir upages (roundup size pgsize) pages_pa pte_u
  boot_map_region kern_pgdir pages (roundup size pgsize) pages_pa pte_w
  envs_pa ← paddr envs
  boot_map_region kern_pgdir uenvs (roundup envs_size pgsize) envs_pa pte_u
  boot_map_region kern_pgdir envs (roundup envs_size pgsize) envs_pa pte_w
  stack_pa ← paddr bootstack
  boot_map_region kern_pgdir (kstacktop - kstksize) kstksize stack_pa pte_w
  boot_map_region kern_pgdir kernbase (sub32 (bit_xor 2 32) kernbase) 0 pte_w
