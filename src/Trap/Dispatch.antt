-- ===== src/Trap/Dispatch.antt =====
-- How each kind of trap ends.
use jos_miles.Prelude.{ℕ, ◌-◌, ◌%◌, ◌^◌, ◌≤◌, ◌<◌, ◌≡◌, ◌≢◌, ap, ◌∙◌, some, bit_and-mask, arith}
use jos_miles.Kernel.{kernel_page_fault}
use jos_miles.Env.{Sys, Status, Trapframe, done, panicked, in_user, Call, set_env}
use jos_miles.Env.Switch.{env_run, env_destroy}
use jos_miles.Env.Running.{OneRunning, env_run-Entered}
use jos_miles.Mmu.{kernbase}
use jos_miles.Syscall.{syscall}
use jos_miles.Syscall.Laws.{syscall-kept}
use jos_miles.Trap.{
  t_pgflt, t_brkpt, t_syscall, gd_kt, trap, trap_dispatch, save_frame, resume, read_frame, set_eax,
  page_fault_handler, rpl, saved,
}

-- A page fault of the kernel panics, whatever the state.
pub trap-kernel_page_fault :
    (monitor : Call (Unit {0})) (getc : ℕ) (tf : Trapframe) (s : Sys)
    → tf.tf_trapno ≡ t_pgflt
    → tf.tf_cs ≡ gd_kt
    → trap monitor getc 0 tf s ≡ panicked kernel_page_fault
unfolding trap save_frame trap_dispatch read_frame
trap-kernel_page_fault monitor getc tf s number kernel = ground arith

-- The state after the frame has been copied into environment c.
abbrev pub with_frame : Sys → ℕ → Trapframe → Sys
with_frame s c tf = set_env s c (record (s.envs c) { env_tf = tf })

-- env_destroy returns to no caller.
pub env_destroy-never_done : (c : ℕ) (s s' : Sys) (u : Unit {0}) → env_destroy c s ≢ done u s'
unfolding env_destroy
env_destroy-never_done c s s' u h = ground arith

-- A trap of user code, with a current environment and interrupts disabled, that is neither a
-- breakpoint nor a system call ends as env_destroy of that environment does, with the frame saved
-- in it.
pub trap-user_fault :
    (monitor : Call (Unit {0})) (getc c : ℕ) (tf : Trapframe) (s : Sys)
    → tf.tf_trapno ≢ t_brkpt
    → tf.tf_trapno ≢ t_syscall
    → tf.tf_cs % 4 ≡ 3
    → s.curenv ≡ some c
    → trap monitor getc 0 tf s ≡ env_destroy c (with_frame s c tf)
unfolding trap save_frame trap_dispatch read_frame page_fault_handler rpl env_destroy
trap-user_fault monitor getc c tf s not_brkpt not_call user cur =
    ground (arith, bit_and-mask 2 tf.tf_cs)

-- The registers with the result of a system call.
abbrev pub with_eax : Trapframe → ℕ → Trapframe
with_eax tf r = record tf { tf_regs = record (tf.tf_regs) { reg_eax = r } }

-- The registers of a trap frame passed to syscall as number and arguments.
abbrev pub call_of : ℕ → Trapframe → Call ℕ
call_of getc tf =
    syscall getc tf.tf_regs.reg_eax tf.tf_regs.reg_edx tf.tf_regs.reg_ecx tf.tf_regs.reg_ebx
      tf.tf_regs.reg_edi tf.tf_regs.reg_esi

module _ (monitor : Call (Unit {0})) (getc c r : ℕ) (tf : Trapframe) (s s1 : Sys) where
  abbrev answered : Sys
  answered = set_env s1 c (record (s1.envs c) { env_tf = with_eax (s1.envs c).env_tf r })

  dispatch_syscall :
      tf.tf_trapno ≡ t_syscall
      → call_of getc tf (with_frame s c tf) ≡ done r s1
      → trap_dispatch monitor getc (saved c) (with_frame s c tf) ≡ done tt answered
  unfolding trap_dispatch read_frame set_eax
  dispatch_syscall number returned = ground arith

  pub resume_running :
      (t : Sys)
      → t.curenv ≡ some c
      → (t.envs c).env_status ≡ Status.running
      → resume t ≡ env_run c t
  unfolding resume
  resume_running t cur status = rw cur (rw status)

  pub save_user :
      tf.tf_cs % 4 ≡ 3 → s.curenv ≡ some c → save_frame tf s ≡ done (saved c) (with_frame s c tf)
  unfolding save_frame rpl
  save_user user cur = ground (arith, bit_and-mask 2 tf.tf_cs)

  answered_lem :
      s1.envs ≡ (with_frame s c tf).envs
      → ((answered.envs c).env_tf ≡ with_eax tf r)
        × ((answered.envs c).env_status ≡ (s.envs c).env_status)
        × ((answered.envs c).env_pgdir ≡ (s.envs c).env_pgdir)
        × (OneRunning s → s1.curenv ≡ s.curenv → OneRunning answered)
  answered_lem envs =
      (ground arith, ground arith, ground arith, λ one cur a h. ground (arith, one a))

  -- With the current environment the only running one, and its directory at KERNBASE or above, a
  -- system call from user mode that returns goes back to user mode in the same environment and
  -- address space, with the result in eax and every other register as it was; interrupts are
  -- disabled on entry.
  pub trap-syscall :
      tf.tf_trapno ≡ t_syscall
      → tf.tf_cs % 4 ≡ 3
      → s.curenv ≡ some c
      → (s.envs c).env_status ≡ Status.running
      → OneRunning s
      → kernbase ≤ (s.envs c).env_pgdir
      → (s.envs c).env_pgdir < 2 ^ 32
      → call_of getc tf (with_frame s c tf) ≡ done r s1
      → (s' : Sys) × (trap monitor getc 0 tf s ≡ in_user s')
        × (s'.curenv ≡ some c)
        × ((s'.envs c).env_tf ≡ with_eax tf r)
        × (s'.cr3 ≡ (s.envs c).env_pgdir - kernbase)
        × OneRunning s'
  unfolding trap
  trap-syscall number user cur status one lo hi returned =
      let (envs, current, _) =
        syscall-kept getc tf.tf_regs.reg_eax tf.tf_regs.reg_edx tf.tf_regs.reg_ecx
          tf.tf_regs.reg_ebx tf.tf_regs.reg_edi tf.tf_regs.reg_esi r (with_frame s c tf) s1
          returned in
      let (frame, same_status, same_space, one') = answered_lem envs in
      let (s', entered) =
        env_run-Entered c answered (one' one current) (rw same_space lo) (rw same_space hi) in
      (
        s',
        rw (save_user user cur) (
            rw (dispatch_syscall number returned)
              (resume_running answered (current ∙ cur) (same_status ∙ status) ∙ entered.run)),
        entered.current,
        entered.tf ∙ frame,
        entered.space ∙ ap (λ d. d - kernbase) same_space,
        entered.one,
      )
