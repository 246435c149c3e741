-- ===== src/Env/Ids.antt =====
-- Environment ids: envid2env, and the ids that env_alloc gives.
use jos_miles.Prelude.{
  ℕ, List, ◌∷◌, ◌≤◌, ◌+◌, ◌*◌, ◌/◌, ◌%◌, ◌^◌, ◌<◌, ◌≡◌, ◌≢◌, true, false, not, ◌||◌, none, some,
  leb, ◌==◌, if◌then◌else◌, bit_and, bit_or, bit_and_split, bit_and-mask, bit_and-zero, bit_or-add,
  arith,
}
use jos_miles.Mmu.{u32}
use jos_miles.Errno.{Errno}
use jos_miles.PageAlloc.FreeList.{FreeList, page_alloc-none}
use jos_miles.PageTable.Space.{page_at}
use jos_miles.Env.Vm.{env_setup_vm-NewSpace}
use jos_miles.Env.{
  Sys, Status, is_free, done, envx, envid2env, generation, start_env, env_setup_vm, new_pgdir,
  env_alloc,
}

pub envx_lem : (id : ℕ) → envx id ≡ id % 1024
unfolding envx
envx_lem id = bit_and-mask 10 id

top_bits : (g : ℕ) → g < 2 ^ 32 → bit_and g 0xffff_fc00 ≡ g / 1024 * 1024
top_bits g h = ground (
  arith,
  bit_and_split 10 (g / 1024) 0x3fffff (g % 1024) 0,
  bit_and-mask 22 (g / 1024),
  bit_and-zero (g % 1024),
)

generation_lem :
    (id : ℕ)
    → generation id ≡ (
        let g = u32 (id + 4096) / 1024 * 1024 in
        if g == 0 then 4096 else if leb (2 ^ 31) g then 4096 else g)
unfolding generation
generation_lem id = rw (top_bits (u32 (id + 4096)) (omega arith))

-- For a slot below 1024 and any old 32-bit id, the new id is a positive envid_t, names its slot,
-- and is not the old id.
pub new_id_lem :
    (id e : ℕ)
    → id < 2 ^ 32
    → e < 1024
    → (0 < bit_or (generation id) e)
      × (bit_or (generation id) e < 2 ^ 31)
      × (envx (bit_or (generation id) e) ≡ e)
      × (bit_or (generation id) e ≢ id)
new_id_lem id e h he = ground (
  arith,
  generation_lem id,
  bit_or-add 10 (generation id / 1024) e,
  envx_lem (bit_or (generation id) e),
)

-- envid2env finds an environment exactly by the id that it has now.
pub envid2env_lem :
    (envid : ℕ) (s : Sys)
    → envid ≢ 0
    → envid2env envid false s ≡ (
        if is_free (s.envs (envid % 1024)).env_status
          || not ((s.envs (envid % 1024)).env_id == envid)
        then done (none, some Errno.bad_env) s
        else done (some (envid % 1024), none) s)
unfolding envid2env
envid2env_lem envid s h = rw envx_lem (ground arith)

-- With the permission check, a current environment, and an id other than 0: an environment is
-- found exactly if it is not free, has that id now, and is the current environment or a child of
-- it; otherwise the result is -E_BAD_ENV. Nothing changes.
pub envid2env-checked :
    (envid c : ℕ) (s : Sys)
    → envid ≢ 0
    → s.curenv ≡ some c
    → envid2env envid true s ≡ (
        let env = s.envs (envid % 1024) in
        if is_free env.env_status || not (env.env_id == envid)
        then done (none, some Errno.bad_env) s
        else if (c == envid % 1024) || (env.env_parent_id == (s.envs c).env_id)
        then done (some (envid % 1024), none) s
        else done (none, some Errno.bad_env) s)
unfolding envid2env
envid2env-checked envid c s h cur = ground (arith, envx_lem envid)

start_env_fields :
    (s : Sys) (e parent_id : ℕ)
    → (((start_env e parent_id s).envs e).env_id ≡ bit_or (generation (s.envs e).env_id) e)
      × (((start_env e parent_id s).envs e).env_status ≡ Status.runnable)
unfolding start_env
start_env_fields s e parent_id = ground arith

module _ (s : Sys) (e parent_id : ℕ) (head : s.env_free_list ≡ some e) where
  -- env_alloc when no page is left for the directory.
  pub env_alloc-no_mem :
      s.kernel.page_free_list ≡ none → env_alloc parent_id s ≡ done (none, some Errno.no_mem) s
  unfolding env_alloc env_setup_vm new_pgdir
  env_alloc-no_mem empty = ground (arith, page_alloc-none s.kernel true)

  env_alloc-start :
      (s' : Sys)
      → env_setup_vm e s ≡ done none s'
      → env_alloc parent_id s ≡ done (some e, none) (start_env e parent_id s')
  unfolding env_alloc
  env_alloc-start s' vm = ground arith

  id-env_setup_vm :
      (s' : Sys) → env_setup_vm e s ≡ done none s' → (s'.envs e).env_id ≡ (s.envs e).env_id
  unfolding env_setup_vm
  id-env_setup_vm s' vm = ground arith

  ids_after_alloc :
      (s' : Sys)
      → env_setup_vm e s ≡ done none s'
      → e < 1024
      → (s.envs e).env_id < 2 ^ 32
      → (s.envs e).env_id % 1024 ≡ e
      → (s.envs e).env_id ≢ 0
      → (t : Sys) × (env_alloc parent_id s ≡ done (some e, none) t)
        × (envid2env (t.envs e).env_id false t ≡ done (some e, none) t)
        × (envid2env (s.envs e).env_id false t ≡ done (none, some Errno.bad_env) t)
  ids_after_alloc s' vm he hid slot nz =
      let t = start_env e parent_id s' in
      let kept = id-env_setup_vm s' vm in
      let fresh = new_id_lem (s'.envs e).env_id e (rw kept hid) he in
      let (id, status) = start_env_fields s' e parent_id in
      (
        t,
        env_alloc-start s' vm,
        ground (arith, envid2env_lem (t.envs e).env_id t, envx_lem (t.envs e).env_id),
        ground (arith, envid2env_lem (s.envs e).env_id t),
      )

-- With a free environment e whose id is not 0 and names its slot, a free page, at most 2 ^ 16
-- pages, and the kernel's directory in another page, env_alloc succeeds, after which the new id
-- finds the new environment, and the id that the slot had before finds none.
pub envid2env-env_alloc :
    (s : Sys) (e parent_id p q : ℕ) (xs : List ℕ)
    → s.env_free_list ≡ some e
    → e < 1024
    → (s.envs e).env_id < 2 ^ 32
    → (s.envs e).env_id % 1024 ≡ e
    → (s.envs e).env_id ≢ 0
    → FreeList s.kernel (p ∷ xs)
    → s.kernel.npages ≤ 2 ^ 16
    → s.kern_pgdir ≡ page_at q
    → p ≢ q
    → (t : Sys) × (env_alloc parent_id s ≡ done (some e, none) t)
      × (envid2env (t.envs e).env_id false t ≡ done (some e, none) t)
      × (envid2env (s.envs e).env_id false t ≡ done (none, some Errno.bad_env) t)
envid2env-env_alloc s e parent_id p q xs head he hid slot nz free small dir ne =
    let (s', new) = env_setup_vm-NewSpace s e p q xs free small dir ne in
    ids_after_alloc s e parent_id head s' new.run he hid slot nz
