-- ===== src/Trap/Tests.antt =====
-- Traps of the sample machine.
use jos_miles.Prelude.{ℕ, ◌+◌, ◌-◌, ◌*◌, ◌≡◌, refl, some, arith}
use jos_miles.Mmu.{kernbase}
use jos_miles.Env.{Sys, Trapframe, Call, done, in_user}
use jos_miles.Env.Switch.{env_destroy}
use jos_miles.Env.Running.{OneRunning}
use jos_miles.Syscall.{syscall, sys_getenvid}
use jos_miles.Trap.{trap, gd_kt}
use jos_miles.Trap.Dispatch.{call_of, with_frame, with_eax, trap-syscall, trap-user_fault}
use jos_miles.Sample.{system, frame}

-- A monitor that is left at once.
abbrev leave : Call (Unit {0})
leave s = done tt s

-- SYS_getenvid in environment 3.
getenvid : call_of 0 frame (with_frame system 3 frame) ≡ done 0x1003 (with_frame system 3 frame)
unfolding syscall sys_getenvid
getenvid = refl

trap-syscall_example :
    (s' : Sys) × (trap leave 0 0 frame system ≡ in_user s')
    × (s'.curenv ≡ some 3)
    × ((s'.envs 3).env_tf ≡ with_eax frame 0x1003)
    × (s'.cr3 ≡ (system.envs 3).env_pgdir - kernbase)
    × OneRunning s'
trap-syscall_example =
    trap-syscall leave 0 3 0x1003 frame system (with_frame system 3 frame) refl refl refl refl
      (λ a h. ground arith) (omega arith) (omega arith) getenvid

abbrev divide : Trapframe
divide = record frame { tf_trapno = 0 }

trap-user_fault_example : trap leave 0 0 divide system ≡ env_destroy 3 (with_frame system 3 divide)
trap-user_fault_example =
    trap-user_fault leave 0 3 divide system (λ h. ground arith) (λ h. ground arith) refl refl

abbrev kernel_fault : Trapframe
kernel_fault = record frame { tf_trapno = 14; tf_cs = gd_kt }

abbrev handlers : ℕ → ℕ
handlers i = 0xf010_0000 + 16 * i
