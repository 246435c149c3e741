-- ===== src/Env.antt =====
-- The environments of kern/env.c and inc/env.h.
--
-- A `struct Env *` is its index in `envs`. An envid_t and a register are 32-bit patterns. Code that
-- loads segment registers or the descriptor tables (env_init_percpu) has no effect on this state.
pub mod Ids
pub mod Outcomes
pub mod Vm
pub mod Init
pub mod Region
pub mod Switch
pub mod Running
pub mod Free
pub mod Load
mod Tests
use jos_miles.Prelude.{
  ℕ, zero, suc, ◌+◌, ◌-◌, ◌*◌, ◌/◌, ◌^◌, Bool, true, false, ◌&&◌, ◌||◌, not, Option, none, some,
  List, ltb, leb, ◌==◌, if◌then◌else◌, bit_and, bit_or,
}
use jos_miles.Mmu.{
  u32, pgsize, pdx, ptx, pgaddr, pte_p, pte_u, pte_w, pte_addr, utop, uvpt, ustacktop, npdentries,
  nptentries, rounddown, roundup,
}
use jos_miles.Errno.{Errno}
use jos_miles.Kernel
use jos_miles.Kernel.{
  Kernel, Run, Cmd, Panic, pure, ◌>>=◌, ◌>>◌, load, store, update, out_of_memory, no_current_env,
  cannot_alloc_env,
}
use jos_miles.PageAlloc.{page_alloc, page2kva, page_decref, pa2page, paddr, kaddr}
use jos_miles.PageTable.{page_insert, page_remove, incref, user_mem_check}

pub data Status : Type 0 where
  free dying runnable running not_runnable : Status

abbrev pub is_free : Status → Bool
is_free Status.free = true
is_free _ = false

abbrev pub is_running : Status → Bool
is_running Status.running = true
is_running _ = false

-- `struct PushRegs` and `struct Trapframe` without its padding.
pub record PushRegs : Type 0 where
  pub reg_edi : ℕ
  pub reg_esi : ℕ
  pub reg_ebp : ℕ
  pub reg_oesp : ℕ
  pub reg_ebx : ℕ
  pub reg_edx : ℕ
  pub reg_ecx : ℕ
  pub reg_eax : ℕ

pub record Trapframe : Type 0 where
  pub tf_regs : PushRegs
  pub tf_es : ℕ
  pub tf_ds : ℕ
  pub tf_trapno : ℕ
  pub tf_err : ℕ
  pub tf_eip : ℕ
  pub tf_cs : ℕ
  pub tf_eflags : ℕ
  pub tf_esp : ℕ
  pub tf_ss : ℕ

-- `struct Env` without env_type, an enum with the one value ENV_TYPE_USER.
pub record Env : Type 0 where
  pub env_tf : Trapframe
  pub env_link : Option ℕ
  pub env_id : ℕ
  pub env_parent_id : ℕ
  pub env_status : Status
  pub env_runs : ℕ
  pub env_pgdir : ℕ

-- The globals of the kernel. `envs` and `kernel.pages` are beside the memory `mem`, not in it: what may
-- write into their frames is said where memory is written from outside the kernel.
pub record Sys : Type 0 where
  pub kernel : Kernel
  pub envs : ℕ → Env
  pub curenv : Option ℕ
  pub env_free_list : Option ℕ
  pub kern_pgdir : ℕ
  pub cr3 : ℕ
  -- The ranges of user memory that sys_cputs gave to cprintf, the last first.
  pub printed : List (ℕ × ℕ)

-- A command that returns, one that panics, and the two ways not to return: into the monitor for
-- good, and into the code of an environment.
pub data Outcome (A : Type 0) : Type 0 where
  done : A → Sys → Outcome A
  panicked : Panic → Outcome A
  in_monitor : Sys → Outcome A
  in_user : Sys → Outcome A

abbrev pub Call : Type 0 → Type 0
Call A = Sys → Outcome A

module _ {A B : Type 0} where
  abbrev pub then_do : Outcome A → (A → Call B) → Outcome B
  then_do (done a s) f = f a s
  then_do (panicked why) f = panicked why
  then_do (in_monitor s) f = in_monitor s
  then_do (in_user s) f = in_user s

  -- Runs a command of the memory system.
  abbrev pub on_kernel : Cmd A → (A → Call B) → Call B
  on_kernel m f s = elim (m s.kernel) [
    | Kernel.ok a k ↦ f a (record s { kernel = k })
    | Kernel.panicked why ↦ panicked why
  ]

abbrev pub nenv : ℕ
nenv = 1024

-- ENVX
unfoldable pub envx : ℕ → ℕ
envx envid = bit_and envid 0x3ff

abbrev pub set_env : Sys → ℕ → Env → Sys
set_env s e env = record s { envs = update s.envs e env }

-- `p == q` on environment pointers
abbrev pub same_env : Option ℕ → ℕ → Bool
same_env none e = false
same_env (some c) e = c == e

-- What goes to `*env_store`, and the result. With `checkperm` and no current environment the code
-- reads through a null pointer.
unfoldable pub envid2env : ℕ → Bool → Call (Option ℕ × Option Errno)
unfolding envx
envid2env envid checkperm s =
    let e = envx envid in
    let env = s.envs e in
    if envid == 0
    then done (s.curenv, none) s
    else if is_free env.env_status || not (env.env_id == envid)
    then done (none, some Errno.bad_env) s
    else if checkperm && not (same_env s.curenv e)
    then elim s.curenv [
      | none ↦ panicked no_current_env
      | some c ↦
          if env.env_parent_id == (s.envs c).env_id
          then done (some e, none) s
          else done (none, some Errno.bad_env) s
    ]
    else done (some e, none) s

-- The rounds n - 1, ..., 0 of the loop of env_init.
unfoldable pub env_init_loop : ℕ → Sys → Sys
env_init_loop zero s = s
env_init_loop (suc i) s = env_init_loop i (record s {
  envs = update s.envs i (record (s.envs i) { env_id = 0; env_link = s.env_free_list });
  env_free_list = some i;
})

unfoldable pub env_init : Sys → Sys
unfolding env_init_loop
env_init s = env_init_loop nenv (record s { env_free_list = none })

-- The rounds i = from .. from + n - 1 of the copy of the kernel's part of the directory.
unfoldable pub copy_pdes : ℕ → ℕ → ℕ → ℕ → Cmd (Unit {0})
copy_pdes dst src from zero = pure tt
copy_pdes dst src from (suc n) =
    copy_pdes dst src from n
    >> (do pde ← load (src + 4 * (from + n)); store (dst + 4 * (from + n)) pde)

-- The new directory, or NULL.
unfoldable pub new_pgdir : ℕ → Cmd (Option ℕ)
unfolding incref
new_pgdir kern_pgdir = do
  page ← page_alloc true
  elim page [
    | none ↦ pure none
    | some p ↦ do
      incref p
      pgdir ← page2kva p
      copy_pdes pgdir kern_pgdir (pdx utop) (npdentries - pdx utop)
      pa ← paddr pgdir
      store (pgdir + 4 * pdx uvpt) (bit_or (bit_or pa pte_p) pte_u)
      pure (some pgdir)
  ]

unfoldable pub env_setup_vm : ℕ → Call (Option Errno)
env_setup_vm e s =
    on_kernel (new_pgdir s.kern_pgdir)
      (elim [
        | none ↦ λ s'. done (some Errno.no_mem) s'
        | some pgdir ↦ λ s'. done none (set_env s' e (record (s'.envs e) { env_pgdir = pgdir }))
      ])
      s

-- `(id + (1 << ENVGENSHIFT)) & ~(NENV - 1)` as an int32_t, and 1 << ENVGENSHIFT where that is not
-- positive.
unfoldable pub generation : ℕ → ℕ
generation id =
    let g = bit_and (u32 (id + 4096)) 0xffff_fc00 in
    if g == 0 then 4096 else if leb (2 ^ 31) g then 4096 else g

abbrev pub zero_regs : PushRegs
zero_regs = record {
  reg_edi = 0;
  reg_esi = 0;
  reg_ebp = 0;
  reg_oesp = 0;
  reg_ebx = 0;
  reg_edx = 0;
  reg_ecx = 0;
  reg_eax = 0;
}

-- The registers of a new environment: cleared but for segments and stack.
unfoldable pub initial_tf : Trapframe
initial_tf = record {
  tf_regs = zero_regs;
  tf_es = bit_or 0x20 3;
  tf_ds = bit_or 0x20 3;
  tf_trapno = 0;
  tf_err = 0;
  tf_eip = 0;
  tf_cs = bit_or 0x18 3;
  tf_eflags = 0;
  tf_esp = ustacktop;
  tf_ss = bit_or 0x20 3;
}

-- What env_alloc makes of the free environment e after env_setup_vm.
unfoldable pub start_env : ℕ → ℕ → Sys → Sys
unfolding generation
start_env e parent_id s =
    let env = s.envs e in
    record s {
      envs = update s.envs e (record env {
        env_id = bit_or (generation env.env_id) e;
        env_parent_id = parent_id;
        env_status = Status.runnable;
        env_runs = 0;
        env_tf = initial_tf;
      });
      env_free_list = env.env_link;
    }

-- What goes to `*newenv_store`, and the result.
unfoldable pub env_alloc : ℕ → Call (Option ℕ × Option Errno)
env_alloc parent_id s = elim s.env_free_list [
  | none ↦ done (none, some Errno.no_free_env) s
  | some e ↦ then_do (env_setup_vm e s) (elim [
    | some err ↦ λ s'. done (none, some err) s'
    | none ↦ λ s'. done (some e, none) (start_env e parent_id s')
  ])
]
