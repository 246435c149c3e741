-- ===== src/Env/Free/Tests.antt =====
-- env_free of the sample's environment 3: a directory, one table and one mapped page.
use jos_miles.Prelude.{ℕ, zero, suc, ◌+◌, ◌≤◌, ◌<◌, ◌≡◌, refl, arith, ◌==◌, if◌then◌else◌}
use jos_miles.Env.{Sys}
use jos_miles.Env.Free.Table.{table_refs}
use jos_miles.Env.Free.Directory.{pde_refs, dir_refs, Countable}
use jos_miles.Env.Free.Whole.{space_refs, Freed, env_free-Freed}
use jos_miles.Sample.{machine, spare, system, machine-IsSpace}

one_leaf : (a n : ℕ) → n < 1024 → table_refs machine.mem 11 a (suc n) ≡ (if a == 12 then 1 else 0)
unfolding table_refs
one_leaf a zero h = ground arith
one_leaf a (suc n) h = ground (arith, one_leaf a n)

one_table :
    (a n : ℕ)
    → n < 1024
    → dir_refs machine.mem 10 a (suc n) ≡ (if a == 12 then 1 else 0) + (if a == 11 then 1 else 0)
unfolding dir_refs pde_refs
one_table a zero h = ground (arith, one_leaf a 1023)
one_table a (suc n) h = ground (arith, one_table a n)

machine-Countable : Countable machine 10 spare
machine-Countable = record {
  space = machine-IsSpace;
  tidy = λ a. ground arith;
  leaves = λ i j hi hj there odd. ground arith;
}

covered : (a : ℕ) → space_refs machine.mem 10 a ≤ (machine.pages a).pp_ref
covered a = ground (arith, one_table a 954)

env_free-Freed_example : (s' : Sys) × Freed 3 10 system s'
env_free-Freed_example =
    env_free-Freed 3 system 10 spare refl (omega arith) (omega arith) machine-Countable covered
