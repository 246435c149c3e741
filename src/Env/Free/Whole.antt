-- ===== src/Env/Free/Whole.antt =====
-- env_free: the whole address space and the slot.
use jos_miles.Prelude.{
  ℕ, ◌+◌, ◌-◌, ◌*◌, ◌^◌, ◌≤◌, ◌<◌, ◌≡◌, refl, ap, ◌∙◌, false, some, List, arith, ◌==◌,
  if◌then◌else◌, Bool-cases, inl, inr,
}
use jos_miles.Mmu.{pdx, utop, kernbase}
use jos_miles.Kernel.{Kernel, ok, update}
use jos_miles.PageAlloc.{pa2page}
use jos_miles.PageAlloc.Boot.{paddr_lem}
use jos_miles.PageTable.Space.{page_at, user_pdes}
use jos_miles.PageTable.Walk.{paddr_of_page}
use jos_miles.PageTable.Remove.{after_decref, page_decref_lem}
use jos_miles.PageTable.Released.{Released, Released-then, Tidy-InUse, decref-Released}
use jos_miles.Env.{Env, Sys, Status, done, same_env, on_kernel}
use jos_miles.Env.Switch.{free_space, lcr3, env_free}
use jos_miles.Env.Free.Directory.{dir_refs, Countable, free_pdes-Cleared}

-- The references of the address space with directory d to page a: those of its user part, and the
-- one to the directory.
abbrev pub space_refs : (ℕ → ℕ) → ℕ → ℕ → ℕ
space_refs mem d a = dir_refs mem d a user_pdes + (if a == d then 1 else 0)

pa2page_page :
    (d : ℕ) (k : Kernel) → d < k.npages → k.npages ≤ 2 ^ 16 → pa2page (d * 4096) k ≡ ok d k
unfolding pa2page
pa2page_page d k h small = ground arith

user_rounds : pdx utop ≡ user_pdes
unfolding pdx
user_rounds = refl

free_space-Released :
    (k : Kernel) (d : ℕ) (free : List ℕ)
    → Countable k d free
    → ((a : ℕ) → space_refs k.mem d a ≤ (k.pages a).pp_ref)
    → (k' : Kernel) × (free_space (page_at d) k ≡ ok tt k') × Released k k' (space_refs k.mem d)
unfolding free_space
free_space-Released k d free c counted =
    let (k1, e) =
      free_pdes-Cleared k d user_pdes free (omega arith) c (λ a. omega (arith, counted a)) in
    let r = e.released in
    let inside : d < k1.npages = rw r.npages c.space.dir_in in
    let small : k1.npages ≤ 2 ^ 16 = rw r.npages c.space.small in
    let held : 1 ≤ (k1.pages d).pp_ref = ground (arith, counted d, r.refs d) in
    (
      after_decref d k1,
      rw user_rounds (
          rw e.run (
            rw (paddr_of_page d k1 (omega arith)) (
              rw (pa2page_page d k1 inside small)
                (page_decref_lem k1 d (Tidy-InUse k1 d r.tidy held))))),
      Released-then k k1 (after_decref d k1) (λ a. dir_refs k.mem d a user_pdes)
          (λ a. if a == d then 1 else 0) r (decref-Released d k1 r.tidy held inside),
    )

-- What env_free leaves of environment e.
pub record Freed (e d : ℕ) (s s' : Sys) : Type 0 where
  pub run : env_free e s ≡ done tt s'
  pub released : Released s.kernel s'.kernel (space_refs s.kernel.mem d)
  pub status : (s'.envs e).env_status ≡ Status.free
  pub pgdir : (s'.envs e).env_pgdir ≡ 0
  pub link : (s'.envs e).env_link ≡ s.env_free_list
  pub head : s'.env_free_list ≡ some e
  pub others : (a : ℕ) → (a == e) ≡ false → s'.envs a ≡ s.envs a
  pub space : s'.cr3 ≡ (if same_env s.curenv e then s.kern_pgdir - kernbase else s.cr3)

module _ (e : ℕ) (s : Sys) where
  abbrev cr3_after : ℕ
  cr3_after = if same_env s.curenv e then s.kern_pgdir - kernbase else s.cr3

  -- The current environment's space is left before it goes.
  switched :
      kernbase ≤ s.kern_pgdir
      → s.kern_pgdir < 2 ^ 32
      → (if same_env s.curenv e then lcr3 s.kern_pgdir else done tt) s
        ≡ done tt (record s { cr3 = cr3_after })
  unfolding lcr3
  switched lo hi = elim (Bool-cases (same_env s.curenv e)) [
    | inl mine ↦ rw mine (ground (arith, paddr_lem s.kern_pgdir s.kernel))
    | inr other ↦ rw other refl
  ]

  abbrev freed_env : Env
  freed_env = record (s.envs e) {
    env_pgdir = 0;
    env_status = Status.free;
    env_link = s.env_free_list;
  }

  -- If environment e has its directory in page d, in a well-formed space in which the mapped pages
  -- lie in memory, if the counter of each page fits 16 bits, is 0 for a linked page, and covers
  -- the references that the space makes to the page, and if the kernel's directory has a 32-bit
  -- address at KERNBASE or above, then env_free returns without a panic. Each page has given back
  -- exactly the references of the space, and the pages that lost their last one with it are exactly
  -- those that joined the free list, which stays well formed. The environment is free, without a
  -- directory, and the first on the list of free environments; every other one is as it was. If it
  -- was the current one, the kernel's address space is loaded, otherwise the address space stays.
  pub env_free-Freed :
      (d : ℕ) (free : List ℕ)
      → (s.envs e).env_pgdir ≡ page_at d
      → kernbase ≤ s.kern_pgdir
      → s.kern_pgdir < 2 ^ 32
      → Countable s.kernel d free
      → ((a : ℕ) → space_refs s.kernel.mem d a ≤ (s.kernel.pages a).pp_ref)
      → (s' : Sys) × Freed e d s s'
  unfolding env_free
  env_free-Freed d free dir lo hi c counted =
      let (k', frees, r) = free_space-Released s.kernel d free c counted in
      let here : free_space (s.envs e).env_pgdir s.kernel ≡ ok tt k' =
        ap (λ p. free_space p s.kernel) dir ∙ frees in
      (
        record s {
          kernel = k';
          cr3 = cr3_after;
          envs = update s.envs e freed_env;
          env_free_list = some e;
        },
        record {
          run = rw (switched lo hi) (rw (here, on_kernel) refl);
          released = r;
          status = ground arith;
          pgdir = ground arith;
          link = ground arith;
          head = refl;
          others = λ a ne. ground arith;
          space = refl;
        },
      )
