-- ===== src/KernelStart.antt =====
-- i386_init of kern/init.c: the order in which the kernel sets itself up, up to the first environment.
-- The clearing of the bss is where the state comes from: all globals are zero. cons_init is Console's,
-- and what is printed is not kept.
use jos_miles.Prelude.{ℕ, none, []}
use jos_miles.Kernel.{Cmd}
use jos_miles.Mmu.Gate.{Gatedesc}
use jos_miles.Ports.{Ports}
use jos_miles.MemInit.{zero_env, no_page}
use jos_miles.MemInit.Whole.{mem_init}
use jos_miles.Env.{Sys, Outcome, then_do, env_init}
use jos_miles.Env.Load.{env_create}
use jos_miles.Env.Switch.{env_run}
use jos_miles.Trap.{trap_init}

-- Globals after `memset(edata, 0, end - edata)`, in a physical memory `mem`.
abbrev pub cleared : (ℕ → ℕ) → ℕ → Sys
cleared mem cr3 = record {
  kernel = record {
    npages = 0;
    nextfree = 0;
    pages = λ p. no_page;
    page_free_list = none;
    mem = mem;
    flushed = [];
    user_mem_check_addr = 0;
  };
  envs = λ e. zero_env;
  curenv = none;
  env_free_list = none;
  kern_pgdir = 0;
  cr3 = cr3;
  printed = [];
}

-- The descriptor table that trap_init fills, and how the start ends. `binary` is the program that
-- ENV_CREATE names; the three self checks are mem_init's.
module _ (check_page_alloc : Cmd (Unit {0})) (check_page : ℕ → Cmd (Unit {0}))
    (check_page_installed_pgdir : ℕ → Cmd (Unit {0})) where
  unfoldable pub i386_init :
      {D : Type 0}
      → Ports D
      → ℕ
      → ℕ
      → (ℕ → ℕ)
      → (ℕ → ℕ)
      → D
      → Sys
      → (ℕ → Gatedesc) × Outcome (Unit {0})
  i386_init ports kend bootstack trap_handlers binary d s =
      let started =
        mem_init check_page_alloc check_page check_page_installed_pgdir ports kend bootstack d s in
      (
        trap_init trap_handlers,
        then_do started.0 λ _ s1. then_do (env_create binary (env_init s1)) λ _ s2. env_run 0 s2,
      )
