-- ===== src/Trap.antt =====
-- kern/trap.c and inc/trap.h: the interrupt descriptor table, and the way of a trap through the
-- kernel.
--
-- The handlers' addresses (`trap_handlers`, assembled in kern/trapentry.S), the monitor, the
-- character that cons_getc returns and the flags register are arguments. What print_trapframe and
-- cprintf write is not kept. The frame that `tf` points to is the one that the trap pushed, or, from
-- user mode, the copy in the current environment.
pub mod Gates
pub mod Dispatch
pub mod Traces
pub mod Isolation
mod Tests
use jos_miles.Prelude.{
  ℕ, zero, suc, ◌+◌, ◌%◌, ◌^◌, Bool, true, false, not, Option, none, some, ◌==◌, if◌then◌else◌,
  bit_and,
}
use jos_miles.Kernel.{Panic, update, kernel_page_fault, unhandled_trap, no_current_env, not_running}
use jos_miles.Mmu.Gate.{Gatedesc, setgate}
use jos_miles.Env.{Sys, Trapframe, Env, is_running, Outcome, done, panicked, Call, then_do, set_env}
use jos_miles.Env.Switch.{env_destroy, env_run}
use jos_miles.Syscall.{syscall, with_curenv}

abbrev pub t_brkpt : ℕ
t_brkpt = 3

abbrev pub t_pgflt : ℕ
t_pgflt = 14

abbrev pub t_syscall : ℕ
t_syscall = 48

abbrev pub gd_kt : ℕ
gd_kt = 0x08

-- A slot of the table before trap_init.
abbrev pub no_gate : Gatedesc
no_gate = record {
  gd_off_15_0 = 0;
  gd_sel = 0;
  gd_args = 0;
  gd_rsv1 = 0;
  gd_type = 0;
  gd_s = 0;
  gd_dpl = 0;
  gd_p = 0;
  gd_off_31_16 = 0;
}

-- The rounds i = 0 .. n - 1 of the loop of trap_init.
unfoldable pub gates : (ℕ → ℕ) → ℕ → (ℕ → Gatedesc) → ℕ → Gatedesc
gates trap_handlers zero idt = idt
gates trap_handlers (suc i) idt =
    update (gates trap_handlers i idt) i (setgate true gd_kt (trap_handlers i) 0)

unfoldable pub trap_init : (ℕ → ℕ) → ℕ → Gatedesc
unfolding gates
trap_init trap_handlers =
    let idt = gates trap_handlers (suc t_syscall) (λ _. no_gate) in
    let idt' = update idt t_brkpt (setgate true gd_kt (trap_handlers t_brkpt) 3) in
    update idt' t_syscall (setgate true gd_kt (trap_handlers t_syscall) 3)

-- Where `tf` points.
pub data Frame : Type 0 where
  pushed : Trapframe → Frame
  saved : ℕ → Frame

unfoldable pub read_frame : Frame → Sys → Trapframe
read_frame (pushed tf) s = tf
read_frame (saved c) s = (s.envs c).env_tf

-- `tf->tf_regs.reg_eax = r`; nobody reads a pushed frame afterwards.
unfoldable pub set_eax : Frame → ℕ → Sys → Sys
set_eax (pushed tf) r s = s
set_eax (saved c) r s =
    let tf = (s.envs c).env_tf in
    set_env s c
      (record (s.envs c) { env_tf = record tf { tf_regs = record (tf.tf_regs) { reg_eax = r } } })

-- `tf_cs & 3`, the privilege level of the interrupted code.
unfoldable pub rpl : Trapframe → ℕ
rpl tf = bit_and tf.tf_cs 3

unfoldable pub page_fault_handler : Call (Unit {0})
page_fault_handler = with_curenv λ c. env_destroy c

-- `monitor` is what `monitor(NULL)` does to the state before it returns.
unfoldable pub trap_dispatch : Call (Unit {0}) → ℕ → Frame → Call (Unit {0})
unfolding rpl page_fault_handler
trap_dispatch monitor getc frame s =
    let tf = read_frame frame s in
    let regs = tf.tf_regs in
    if tf.tf_trapno == t_brkpt
    then monitor s
    else if tf.tf_trapno == t_pgflt
    then (if not (rpl tf == 3) then panicked kernel_page_fault else page_fault_handler s)
    else if tf.tf_trapno == t_syscall
    then (then_do
        (syscall getc regs.reg_eax regs.reg_edx regs.reg_ecx regs.reg_ebx regs.reg_edi regs.reg_esi
          s)
        λ r s'. done tt (set_eax frame r s'))
    else if tf.tf_cs == gd_kt
    then panicked unhandled_trap
    else with_curenv (λ c. env_destroy c) s

-- The copy of the frame into the current environment, if the trap is from user mode.
unfoldable pub save_frame : Trapframe → Call Frame
unfolding rpl
save_frame tf s =
    if rpl tf == 3
    then elim s.curenv [
      | none ↦ panicked no_current_env
      | some c ↦ done (saved c) (set_env s c (record (s.envs c) { env_tf = tf }))
    ]
    else done (pushed tf) s

-- Back to the environment, which should be running.
unfoldable pub resume : Call (Unit {0})
resume s = elim s.curenv [
  | none ↦ panicked not_running
  | some c ↦ if is_running (s.envs c).env_status then env_run c s else panicked not_running
]

-- `fl_if` is `read_eflags() & FL_IF`.
unfoldable pub trap : Call (Unit {0}) → ℕ → ℕ → Trapframe → Call (Unit {0})
trap monitor getc fl_if tf s =
    if not (fl_if == 0)
    then panicked not_running
    else then_do (save_frame tf s)
        λ frame s'. then_do (trap_dispatch monitor getc frame s') λ _ s''. resume s''
