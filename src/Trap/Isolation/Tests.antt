-- ===== src/Trap/Isolation/Tests.antt =====
-- Environment 3 of the sample writes to its page and asks for its id.
use jos_miles.Prelude.{ℕ, ◌-◌, ◌≡◌, refl, some, ◌==◌, arith, if◌then◌else◌, ℕ_discrete}
use jos_miles.PageTable.Space.{page_at, entry}
use jos_miles.Mmu.{kernbase}
use jos_miles.Env.{Sys, Call, done, in_user}
use jos_miles.Env.Running.{OneRunning}
use jos_miles.Syscall.{syscall, sys_getenvid}
use jos_miles.Trap.{trap}
use jos_miles.Trap.Traces.{IsQuiet, Runs}
use jos_miles.Trap.Dispatch.{call_of, with_frame, with_eax, trap-syscall}
use jos_miles.Trap.Isolation.{
  UserWritable, IsProtected, Shut, OnlyUser, with_mem, turn, here, next, Isolated, Reach-Isolated,
}
use jos_miles.Sample.{machine, frame, system}

abbrev no_session : Call (Unit {0})
no_session s = done tt s

no_session-IsQuiet : IsQuiet no_session
no_session-IsQuiet = record { back = λ s s' h. cc; stays = λ s s' h. cc }

machine-IsProtected : IsProtected machine.mem 10
unfolding entry
machine-IsProtected = record {
  dir = λ i h w. ground arith;
  tables = λ i j hi hj open_pde w. ground arith;
}

machine-Shut : Shut machine 10
unfolding entry
machine-Shut a inside w = ground arith

abbrev written : ℕ → ℕ
written a = if a == page_at 12 then 5 else machine.mem a

page_12 : UserWritable machine.mem 10 (page_at 12)
unfolding entry
page_12 = (0, refl, refl, refl)

written-OnlyUser : OnlyUser machine.mem 10 written
written-OnlyUser a shut = elim (ℕ_discrete a (page_at 12)) [
  | yes e ↦ absurd (shut (rw e page_12))
  | no ne ↦ ground arith
]

abbrev start : Sys
start = with_mem written system

getenvid : call_of 0 frame (with_frame start 3 frame) ≡ done 0x1003 (with_frame start 3 frame)
unfolding syscall sys_getenvid
getenvid = refl

-- The call of SYS_getenvid after the write.
call :
    (s' : Sys) × (trap no_session 0 0 frame start ≡ in_user s')
    × (s'.curenv ≡ some 3)
    × ((s'.envs 3).env_tf ≡ with_eax frame 0x1003)
    × (s'.cr3 ≡ (start.envs 3).env_pgdir - kernbase)
    × OneRunning s'
call =
    trap-syscall no_session 0 3 0x1003 frame start (with_frame start 3 frame) refl refl refl refl
      (λ a h. ground arith) (omega arith) (omega arith) getenvid

system-Runs : Runs 3 (page_at 10) system
system-Runs = record { current = refl; status = refl; one = λ a h. ground arith; space = refl }

Reach-Isolated_example : Isolated 3 10 system call.0
Reach-Isolated_example =
    Reach-Isolated no_session no_session-IsQuiet 3 10 (omega arith) system machine-IsProtected
      machine-Shut system-Runs refl
      (next here (turn 0 frame start written-OnlyUser (λ shut. refl) refl call.1))
