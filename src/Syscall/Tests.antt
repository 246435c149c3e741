-- ===== src/Syscall/Tests.antt =====
-- Runs of the system calls.
use jos_miles.Prelude.{ℕ, ◌-◌, ◌^◌, ◌≡◌, refl, [], ◌∷◌, arith}
use jos_miles.Env.{done}
use jos_miles.Syscall.{syscall, sys_env_destroy, negative}
use jos_miles.Syscall.Laws.{syscall-cputs, syscall-env_destroy}
use jos_miles.PageTable.Space.{entry}
use jos_miles.PageTable.UserMem.{accessible, first_bad}
use jos_miles.Env.{envid2env, envx}
use jos_miles.Sample.{system, machine-InMemory}

syscall-cputs_example :
    syscall 0 0 16 3 0 0 0 system ≡ done (2 ^ 32 - 7) (record system { printed = (16, 3) ∷ [] })
unfolding entry accessible first_bad
syscall-cputs_example =
    syscall-cputs 0 16 3 0 0 0 3 10 system refl refl machine-InMemory (omega arith) refl

-- No environment has the id 0x1404.
no_such_env : syscall 0 3 0x1404 0 0 0 0 system ≡ done (2 ^ 32 - 2) system
unfolding syscall sys_env_destroy envid2env envx negative
no_such_env = refl

syscall-env_destroy_example : (◌≡◌ {A = ℕ} (2 ^ 32 - 2) (2 ^ 32 - 2)) × (system ≡ system)
syscall-env_destroy_example =
    syscall-env_destroy 0 0x1404 0 0 0 0 (2 ^ 32 - 2) system system no_such_env
