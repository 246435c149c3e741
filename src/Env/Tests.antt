-- ===== src/Env/Tests.antt =====
-- Runs of the environment operations.
use jos_miles.Prelude.{ℕ, ◌^◌, ◌<◌, ◌≡◌, ◌≢◌, refl, false, none, some, [], ◌∷◌, arith, bit_or}
use jos_miles.Errno.{Errno}
use jos_miles.Env.{
  Sys, Status, done, envx, nenv, envid2env, env_init, env_alloc, generation, set_env,
}
use jos_miles.Env.Ids.{new_id_lem, envid2env-env_alloc}
use jos_miles.Env.Vm.{NewSpace, env_setup_vm-NewSpace}
use jos_miles.Env.Init.{Links, count_from, env_init-Links}
use jos_miles.Env.Running.{Entered, env_run-Entered}
use jos_miles.Sample.{full, system, environment, machine-FreeList}

new_id_lem_example :
    (0 < bit_or (generation 0x7fff_fc03) 3)
    × (bit_or (generation 0x7fff_fc03) 3 < 2 ^ 31)
    × (envx (bit_or (generation 0x7fff_fc03) 3) ≡ 3)
    × (◌≢◌ {A = ℕ} (bit_or (generation 0x7fff_fc03) 3) 0x7fff_fc03)
new_id_lem_example = new_id_lem 0x7fff_fc03 3 (omega arith) (omega arith)

-- Environment 6 is a child of the current environment.
abbrev family : Sys
family =
    set_env system 6
      (record (environment 6) { env_parent_id = 0x1003; env_status = Status.runnable })

abbrev full_system : Sys
full_system = record system { kernel = full }

env_init-Links_example :
    Links (env_init system).envs (env_init system).env_free_list (count_from 0 nenv)
    × ((a : ℕ) → a < nenv → ((env_init system).envs a).env_id ≡ 0)
env_init-Links_example = env_init-Links system

env_run-Entered_example : (s' : Sys) × Entered 3 system s'
env_run-Entered_example = env_run-Entered 3 system (λ a h. ground arith) (omega arith) (omega arith)

envid2env-env_alloc_example :
    (t : Sys) × (env_alloc 0 system ≡ done (some 4, none) t)
    × (envid2env (t.envs 4).env_id false t ≡ done (some 4, none) t)
    × (envid2env 0x1004 false t ≡ done (none, some Errno.bad_env) t)
envid2env-env_alloc_example =
    envid2env-env_alloc system 4 0 5 20 (7 ∷ 9 ∷ []) refl (omega arith) (omega arith) refl
      (λ h. ground arith) machine-FreeList (omega arith) refl (λ h. ground arith)

env_setup_vm-NewSpace_example : (s' : Sys) × NewSpace system 4 5 20 (7 ∷ 9 ∷ []) s'
env_setup_vm-NewSpace_example =
    env_setup_vm-NewSpace system 4 5 20 (7 ∷ 9 ∷ []) machine-FreeList (omega arith) refl
      (λ h. ground arith)
