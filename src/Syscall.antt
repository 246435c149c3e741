-- ===== src/Syscall.antt =====
-- kern/syscall.c: the system calls and their dispatch. The character that cons_getc returns is an
-- argument, since the console is a component of its own.
pub mod Laws
mod Tests
use jos_miles.Prelude.{ℕ, ◌+◌, ◌-◌, ◌%◌, ◌^◌, true, Option, none, some, ◌∷◌, ◌==◌, if◌then◌else◌}
use jos_miles.Mmu.{pte_u}
use jos_miles.Errno.{Errno, code}
use jos_miles.Kernel.{no_current_env}
use jos_miles.Env.{Sys, Outcome, done, panicked, Call, then_do, envid2env}
use jos_miles.Env.Switch.{env_destroy, user_mem_assert}

-- `-E_X` as a 32-bit pattern.
unfoldable pub negative : Errno → ℕ
unfolding code
negative e = 2 ^ 32 - code e

-- A use of `curenv->...`.
abbrev pub with_curenv : {A : Type 0} → (ℕ → Call A) → Call A
with_curenv f s = elim s.curenv [ none ↦ panicked no_current_env | some c ↦ f c s ]

-- The output of `cprintf("%.*s", len, s)` is kept as the range that it is given.
unfoldable pub sys_cputs : ℕ → ℕ → Call (Unit {0})
sys_cputs va len = with_curenv λ c s.
    then_do (user_mem_assert c va len pte_u s)
      λ _ s'. done tt (record s' { printed = (va, len) ∷ s'.printed })

unfoldable pub sys_cgetc : ℕ → Call ℕ
sys_cgetc getc s = done (getc % 2 ^ 32) s

unfoldable pub sys_getenvid : Call ℕ
sys_getenvid = with_curenv λ c s. done (s.envs c).env_id s

-- With `*env_store` NULL env_destroy would read through a null pointer.
unfoldable pub sys_env_destroy : ℕ → Call ℕ
sys_env_destroy envid s = then_do (envid2env envid true s) λ (store, result) s'. elim result [
  | some err ↦ done (negative err) s'
  | none ↦ elim store [
    | none ↦ panicked no_current_env
    | some e ↦ then_do (env_destroy e s') λ _ s''. done 0 s''
  ]
]

-- The result is the bit pattern of the int32_t. SYS_cputs breaks out of the switch.
unfoldable pub syscall : ℕ → ℕ → ℕ → ℕ → ℕ → ℕ → ℕ → Call ℕ
syscall getc syscallno a1 a2 a3 a4 a5 s =
    if syscallno == 0
    then (then_do (sys_cputs a1 a2 s) λ _ s'. done (negative Errno.no_sys) s')
    else if syscallno == 1
    then sys_cgetc getc s
    else if syscallno == 2
    then sys_getenvid s
    else if syscallno == 3
    then sys_env_destroy a1 s
    else done (negative Errno.no_sys) s
