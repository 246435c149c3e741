-- ===== src/Env/Running.antt =====
-- Which environment runs.
use jos_miles.Prelude.{ℕ, ◌+◌, ◌-◌, ◌%◌, ◌^◌, ◌≤◌, ◌<◌, ◌≡◌, ◌≢◌, refl, some, arith}
use jos_miles.Mmu.{kernbase}
use jos_miles.Kernel.{update}
use jos_miles.Env.{Sys, Status, in_user}
use jos_miles.Env.Switch.{env_run, step_down}
use jos_miles.PageAlloc.Boot.{paddr_lem}

-- Only the current environment is marked as running.
abbrev pub OneRunning : Sys → Type 0
OneRunning s = (a : ℕ) → (s.envs a).env_status ≡ Status.running → s.curenv ≡ some a

module _ (s : Sys) where
  no_running : (a : ℕ) → OneRunning s → ((step_down s).envs a).env_status ≢ Status.running
  unfolding step_down
  no_running a one h = ground (arith, one a)

  step_down_kept :
      (a : ℕ)
      → (((step_down s).envs a).env_pgdir ≡ (s.envs a).env_pgdir)
        × (((step_down s).envs a).env_tf ≡ (s.envs a).env_tf)
        × (((step_down s).envs a).env_runs ≡ (s.envs a).env_runs)
        × ((step_down s).kernel ≡ s.kernel)
  unfolding step_down
  step_down_kept a = ground arith

-- What env_run leaves.
pub record Entered (e : ℕ) (s s' : Sys) : Type 0 where
  pub run : env_run e s ≡ in_user s'
  pub current : s'.curenv ≡ some e
  pub status : (s'.envs e).env_status ≡ Status.running
  pub one : OneRunning s'
  pub space : s'.cr3 ≡ (s.envs e).env_pgdir - kernbase
  pub tf : (s'.envs e).env_tf ≡ (s.envs e).env_tf
  pub runs : (s'.envs e).env_runs ≡ ((s.envs e).env_runs + 1) % 2 ^ 32
  pub kernel : s'.kernel ≡ s.kernel
  pub pgdirs : (a : ℕ) → (s'.envs a).env_pgdir ≡ (s.envs a).env_pgdir

-- If no environment but the current one is marked as running, and the directory of environment e
-- has a 32-bit address at KERNBASE or above, env_run enters user mode with e as the current and
-- only running environment, in its address space, with its saved registers and one more run
-- counted.
pub env_run-Entered :
    (e : ℕ) (s : Sys)
    → OneRunning s
    → kernbase ≤ (s.envs e).env_pgdir
    → (s.envs e).env_pgdir < 2 ^ 32
    → (s' : Sys) × Entered e s s'
unfolding env_run
env_run-Entered e s one lo hi =
    let s1 = step_down s in
    let kept = step_down_kept s e in
    let s2 = record s1 {
      curenv = some e;
      envs = update s1.envs e (record (s1.envs e) {
        env_status = Status.running;
        env_runs = ((s1.envs e).env_runs + 1) % 2 ^ 32;
      });
      cr3 = (s.envs e).env_pgdir - kernbase;
    } in
    (
      s2,
      record {
        run = ground (arith, paddr_lem (s.envs e).env_pgdir s.kernel);
        current = refl;
        status = ground arith;
        one = λ a h. ground (arith, no_running s a one);
        space = refl;
        tf = ground arith;
        runs = ground arith;
        kernel = kept.3;
        pgdirs = λ a. ground (arith, step_down_kept s a);
      },
    )
