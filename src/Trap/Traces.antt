-- ===== src/Trap/Traces.antt =====
-- User code and traps in turn: what stays the same for as long as the kernel returns to the user.
use mathlib.Core.Path.{subst}
use jos_miles.Prelude.{
  ℕ, ◌≡◌, ◌≢◌, sym, ap, ◌∙◌, ◌⊎◌, inl, inr, some, arith, ℕ_discrete, bit_or, Bool, Option-cases,
  ◌∷◌,
}
use jos_miles.Env.{Env, Sys, Status, Outcome, done, in_user, Call, then_do}
use jos_miles.Env.Switch.{lcr3, env_free, env_destroy}
use jos_miles.Env.Running.{OneRunning}
use jos_miles.Env.{envid2env, envx}
use jos_miles.Env.Outcomes.{then_do-done, then_do-in_user}
use jos_miles.Env.Switch.{user_mem_assert}
use jos_miles.Mmu.{pte_u}
use jos_miles.PageTable.{user_mem_check}
use jos_miles.PageTable.UserMem.{Run-cases}
use jos_miles.Syscall.{syscall, sys_cputs, sys_getenvid, sys_cgetc, sys_env_destroy}
use jos_miles.Syscall.Laws.{syscall-kept, syscall-kernel}
use jos_miles.Trap.{
  t_brkpt, t_syscall, trap_dispatch, read_frame, set_eax, page_fault_handler, saved,
}
use jos_miles.Trap.Dispatch.{call_of, env_destroy-never_done}

-- A session in the monitor that changes nothing, or does not come back.
pub record IsQuiet (monitor : Call (Unit {0})) : Type 0 where
  pub back : (s s' : Sys) → monitor s ≡ done tt s' → s' ≡ s
  pub stays : (s s' : Sys) → monitor s ≢ in_user s'

-- Environment c is the current and only running one, in its own address space, of which the directory
-- is at `pgdir`.
pub record Runs (c pgdir : ℕ) (s : Sys) : Type 0 where
  pub current : s.curenv ≡ some c
  pub status : (s.envs c).env_status ≡ Status.running
  pub one : OneRunning s
  pub space : (s.envs c).env_pgdir ≡ pgdir

-- A system call that returns, and its result in eax, change neither that nor the memory system.
syscall_back :
    (getc c pgdir r : ℕ) (s s1 : Sys)
    → call_of getc (s.envs c).env_tf s ≡ done r s1
    → Runs c pgdir s
    → Runs c pgdir (set_eax (saved c) r s1) × ((set_eax (saved c) r s1).kernel ≡ s.kernel)
unfolding set_eax
syscall_back getc c pgdir r s s1 h runs =
    let tf = (s.envs c).env_tf in
    let regs = tf.tf_regs in
    let (envs, current, _) =
      syscall-kept getc regs.reg_eax regs.reg_edx regs.reg_ecx regs.reg_ebx regs.reg_edi
        regs.reg_esi r s s1 h in
    let kernel =
      syscall-kernel getc regs.reg_eax regs.reg_edx regs.reg_ecx regs.reg_ebx regs.reg_edi
        regs.reg_esi r s s1 h in
    (
      record {
        current = current ∙ runs.current;
        status = ground (arith, ap (λ (f : ℕ → Env). f c) envs);
        one = λ a run. ground (arith, runs.one a, ap (λ (f : ℕ → Env). f a) envs);
        space = ground (arith, ap (λ (f : ℕ → Env). f c) envs);
      },
      kernel,
    )

-- A call that neither returns to its caller nor goes on in user code.
abbrev NoWayBack : Outcome (Unit {0}) → Type 0
NoWayBack o = ((s' : Sys) → o ≢ done tt s') × ((s' : Sys) → o ≢ in_user s')

env_free-stays : (e : ℕ) (s s' : Sys) → env_free e s ≢ in_user s'
unfolding env_free lcr3
env_free-stays e s s' h = ground arith

env_destroy-NoWayBack : (e : ℕ) (s : Sys) → NoWayBack (env_destroy e s)
unfolding env_destroy
env_destroy-NoWayBack e s =
    (λ s' h. env_destroy-never_done e s s' tt h, λ s' h. ground (arith, env_free-stays e s s'))

user_mem_assert-stays :
    (e va len perm : ℕ) (s s' : Sys) → user_mem_assert e va len perm s ≢ in_user s'
unfolding user_mem_assert
user_mem_assert-stays e va len perm s s' h =
    elim (Run-cases (user_mem_check (s.envs e).env_pgdir va len (bit_or perm pte_u) s.kernel)) [
      | inl (result, k, run) ↦ elim (Option-cases result) [
        | inl pass ↦ ground arith
        | inr (err, bad) ↦ ground (arith, (env_destroy-NoWayBack e (record s { kernel = k })).1 s')
      ]
      | inr (why, run) ↦ ground arith
    ]

sys_cputs-stays : (va len : ℕ) (s s' : Sys) → sys_cputs va len s ≢ in_user s'
unfolding sys_cputs
sys_cputs-stays va len s s' h = elim (Option-cases s.curenv) [
  | inl none_now ↦ ground arith
  | inr (c, now) ↦
      elim (then_do-in_user (user_mem_assert c va len pte_u s)
        (λ _ s1. done tt (record s1 { printed = (va, len) ∷ s1.printed })) {s' = s'}
        (ground arith)) [
          | inl (_, s1, run, rest) ↦ ground arith
          | inr run ↦ user_mem_assert-stays c va len pte_u s s' run
        ]
]

envid2env-stays :
    (envid : ℕ) (checkperm : Bool) (s s' : Sys) → envid2env envid checkperm s ≢ in_user s'
unfolding envid2env
envid2env-stays envid checkperm s s' h = ground arith

sys_env_destroy-stays : (envid : ℕ) (s s' : Sys) → sys_env_destroy envid s ≢ in_user s'
unfolding sys_env_destroy envid2env
sys_env_destroy-stays envid s s' h = elim (Option-cases s.curenv) [
  | inl none_now ↦ ground (arith, (env_destroy-NoWayBack (envx envid) s).1 s')
  | inr (c, now) ↦
      ground (arith, (env_destroy-NoWayBack (envx envid) s).1 s', (env_destroy-NoWayBack c s).1 s')
]

-- A system call does not go on in user code by itself.
syscall-stays :
    (getc n a1 a2 a3 a4 a5 : ℕ) (s s' : Sys) → syscall getc n a1 a2 a3 a4 a5 s ≢ in_user s'
unfolding syscall sys_getenvid sys_cgetc
syscall-stays getc n a1 a2 a3 a4 a5 s s' h =
    ground (arith, sys_cputs-stays a1 a2 s s', sys_env_destroy-stays a1 s s')

module _ (monitor : Call (Unit {0})) (getc c : ℕ) (s : Sys) where
  abbrev answer : Outcome (Unit {0})
  answer = then_do (call_of getc (s.envs c).env_tf s) (λ r s1. done tt (set_eax (saved c) r s1))

  -- What trap_dispatch does with a frame that has been saved in environment c.
  dispatch_cases :
      s.curenv ≡ some c
      → (trap_dispatch monitor getc (saved c) s ≡ monitor s)
        ⊎ ((trap_dispatch monitor getc (saved c) s ≡ answer)
            ⊎ NoWayBack (trap_dispatch monitor getc (saved c) s))
  unfolding trap_dispatch read_frame page_fault_handler
  dispatch_cases cur = elim (ℕ_discrete (s.envs c).env_tf.tf_trapno t_brkpt) [
    | yes brkpt ↦ inl (ground arith)
    | no other ↦ elim (ℕ_discrete (s.envs c).env_tf.tf_trapno t_syscall) [
      | yes call ↦ inr (inl (ground arith))
      | no rest ↦
          let (no_done, no_user) = env_destroy-NoWayBack c s in
          inr (inr (λ s' h. ground (arith, no_done s'), λ s' h. ground (arith, no_user s')))
    ]
  ]

-- What `Runs` and the memory system were, they are after trap_dispatch, if it returns.
pub dispatch_back :
    (monitor : Call (Unit {0})) (getc c pgdir : ℕ) (s s' : Sys)
    → IsQuiet monitor
    → Runs c pgdir s
    → trap_dispatch monitor getc (saved c) s ≡ done tt s'
    → Runs c pgdir s' × (s'.kernel ≡ s.kernel)
dispatch_back monitor getc c pgdir s s' quiet runs h =
    elim (dispatch_cases monitor getc c s runs.current) [
      | inl session ↦
          let same = quiet.back s s' (sym session ∙ h) in
          (subst (Runs c pgdir) (sym same) runs, ap (λ (t : Sys). t.kernel) same)
      | inr (inl call) ↦
          let give : ℕ → Call (Unit {0}) = λ r s1. done tt (set_eax (saved c) r s1) in
          let (r, s1, run, last) =
            then_do-done (call_of getc (s.envs c).env_tf s) give (sym call ∙ h) in
          let e : set_eax (saved c) r s1 ≡ s' = cc last in
          let (runs', kernel) = syscall_back getc c pgdir r s s1 run runs in
          (subst (Runs c pgdir) e runs', sym (ap (λ (t : Sys). t.kernel) e) ∙ kernel)
      | inr (inr (no_done, _)) ↦ absurd (no_done s' h)
    ]

pub dispatch_stays :
    (monitor : Call (Unit {0})) (getc c pgdir : ℕ) (s s' : Sys)
    → IsQuiet monitor
    → Runs c pgdir s
    → trap_dispatch monitor getc (saved c) s ≢ in_user s'
dispatch_stays monitor getc c pgdir s s' quiet runs h =
    elim (dispatch_cases monitor getc c s runs.current) [
      | inl session ↦ quiet.stays s s' (sym session ∙ h)
      | inr (inl call) ↦
          let give : ℕ → Call (Unit {0}) = λ r s1. done tt (set_eax (saved c) r s1) in
          let regs = (s.envs c).env_tf.tf_regs in
          elim (then_do-in_user (call_of getc (s.envs c).env_tf s) give (sym call ∙ h)) [
            | inl (r, s1, run, last) ↦ cc last
            | inr run ↦
                syscall-stays getc regs.reg_eax regs.reg_edx regs.reg_ecx regs.reg_ebx regs.reg_edi
                  regs.reg_esi s s' run
          ]
      | inr (inr (_, no_user)) ↦ no_user s' h
    ]
