-- ===== src/Env/Switch.antt =====
-- env_free, env_destroy and env_run, and user_mem_assert of kern/pmap.c, which destroys.
use jos_miles.Prelude.{
  ℕ, zero, suc, ◌+◌, ◌*◌, ◌%◌, ◌^◌, none, some, ◌==◌, if◌then◌else◌, bit_and, bit_or,
}
use jos_miles.Mmu.{pdx, pte_p, pte_u, pte_addr, pgaddr, utop, nptentries}
use jos_miles.Kernel.{Cmd, pure, ◌>>=◌, ◌>>◌, load, store, update}
use jos_miles.PageAlloc.{page_decref, pa2page, paddr, kaddr}
use jos_miles.PageTable.{page_remove, user_mem_check}
use jos_miles.Env.{
  Sys, Status, is_running, done, in_monitor, in_user, Call, then_do, on_kernel, set_env, same_env,
}

-- The rounds pteno = 0 .. n - 1 over one page table.
unfoldable pub free_ptes : ℕ → ℕ → ℕ → ℕ → Cmd (Unit {0})
free_ptes pgdir pt pdeno zero = pure tt
free_ptes pgdir pt pdeno (suc n) = free_ptes pgdir pt pdeno n >> do
  pte ← load (pt + 4 * n)
  if bit_and pte pte_p == 0 then pure tt else page_remove pgdir (pgaddr pdeno n 0)

-- One round of the loop over the directory.
unfoldable pub free_pde : ℕ → ℕ → Cmd (Unit {0})
unfolding free_ptes
free_pde pgdir pdeno = do
  pde ← load (pgdir + 4 * pdeno)
  if bit_and pde pte_p == 0 then pure tt else do
    pt ← kaddr (pte_addr pde)
    free_ptes pgdir pt pdeno nptentries
    store (pgdir + 4 * pdeno) 0
    page ← pa2page (pte_addr pde)
    page_decref page

unfoldable pub free_pdes : ℕ → ℕ → Cmd (Unit {0})
free_pdes pgdir zero = pure tt
free_pdes pgdir (suc n) = free_pdes pgdir n >> free_pde pgdir n

-- The user part of the address space, and then the directory itself.
unfoldable pub free_space : ℕ → Cmd (Unit {0})
unfolding free_pdes
free_space pgdir = do
  free_pdes pgdir (pdx utop)
  pa ← paddr pgdir
  page ← pa2page pa
  page_decref page

-- `lcr3(PADDR(pgdir))`
unfoldable pub lcr3 : ℕ → Call (Unit {0})
lcr3 pgdir = on_kernel (paddr pgdir) λ pa s. done tt (record s { cr3 = pa })

unfoldable pub env_free : ℕ → Call (Unit {0})
unfolding lcr3
env_free e s = then_do ((if same_env s.curenv e then lcr3 s.kern_pgdir else done tt) s) λ _.
    on_kernel (free_space (s.envs e).env_pgdir) λ _ s'. done tt (record s' {
      envs = update s'.envs e (record (s'.envs e) {
        env_pgdir = 0;
        env_status = Status.free;
        env_link = s'.env_free_list;
      });
      env_free_list = some e;
    })

-- After env_free the monitor runs for ever.
unfoldable pub env_destroy : ℕ → Call (Unit {0})
env_destroy e s = then_do (env_free e s) λ _ s'. in_monitor s'

-- The status of the environment that gives way.
unfoldable pub step_down : Sys → Sys
step_down s = elim s.curenv [
  | none ↦ s
  | some c ↦
      if is_running (s.envs c).env_status
      then set_env s c (record (s.envs c) { env_status = Status.runnable })
      else s
]

-- env_pop_tf, the last step, leaves the kernel with the registers in `env_tf`.
unfoldable pub env_run : ℕ → Call (Unit {0})
unfolding lcr3 step_down
env_run e s =
    let s1 = step_down s in
    let env = s1.envs e in
    let s2 = record s1 {
      curenv = some e;
      envs =
          update s1.envs e
            (record env { env_status = Status.running; env_runs = (env.env_runs + 1) % 2 ^ 32 });
    } in
    then_do (lcr3 env.env_pgdir s2) λ _ s3. in_user s3

unfoldable pub user_mem_assert : ℕ → ℕ → ℕ → ℕ → Call (Unit {0})
user_mem_assert e va len perm s =
    on_kernel (user_mem_check (s.envs e).env_pgdir va len (bit_or perm pte_u))
      (elim [ none ↦ λ s'. done tt s' | some _ ↦ env_destroy e ]) s
