-- ===== src/Env/Vm.antt =====
-- env_setup_vm: the address space that a new environment starts with.
use jos_miles.Prelude.{
  ℕ, zero, suc, ◌+◌, ◌*◌, ◌%◌, ◌^◌, ◌≤◌, ◌<◌, ◌≡◌, ◌≢◌, refl, ap, ◌∙◌, true, false, none, some,
  List, ◌∷◌, ltb, leb, ◌&&◌, if◌then◌else◌, bit_or, arith,
}
use jos_miles.Mmu.{pdx, utop, pte_p, pte_u}
use jos_miles.Mmu.Laws.{low_or, pdx-uvpt}
use jos_miles.Kernel.{Kernel, ok, update, set_ref}
use jos_miles.PageAlloc.FreeList.{FreeList, Chain-frame, after_alloc, page_alloc_lem, page2kva_lem}
use jos_miles.PageTable.{incref}
use jos_miles.PageTable.Walk.{paddr_of_page}
use jos_miles.PageTable.Space.{page_at, pde, user_pdes}
use jos_miles.Env.{Sys, done, copy_pdes, new_pgdir, env_setup_vm, set_env}

-- Memory after n rounds of the copy.
unfoldable copied : ℕ → ℕ → ℕ → ℕ → (ℕ → ℕ) → ℕ → ℕ
copied dst src from zero mem = mem
copied dst src from (suc n) mem =
    let rest = copied dst src from n mem in
    update rest (dst + 4 * (from + n)) (rest (src + 4 * (from + n)))

copy_pdes_lem :
    (dst src from n : ℕ) (k : Kernel)
    → copy_pdes dst src from n k ≡ ok tt (record k { mem = copied dst src from n k.mem })
unfolding copy_pdes copied
copy_pdes_lem dst src from zero k = refl
copy_pdes_lem dst src from (suc n) k = rw (copy_pdes_lem dst src from n k) refl

copied-other :
    (p src from n a : ℕ) (mem : ℕ → ℕ)
    → from + n ≤ 1024
    → leb (page_at p) a && ltb a (page_at p + 4096) ≡ false
    → copied (page_at p) src from n mem a ≡ mem a
unfolding copied
copied-other p src from zero a mem h out = refl
copied-other p src from (suc n) a mem h out =
    ground (arith, copied-other p src from n a mem (omega arith) out)

copied-entry :
    (p q from n i : ℕ) (mem : ℕ → ℕ)
    → p ≢ q
    → from + n ≤ 1024
    → pde (copied (page_at p) (page_at q) from n mem) p i
      ≡ (if leb from i && ltb i (from + n) then pde mem q i else pde mem p i)
unfolding copied
copied-entry p q from zero i mem ne h = ground arith
copied-entry p q from (suc n) i mem ne h = ground (
  arith,
  copied-entry p q from n i mem ne (omega arith),
  copied-other p (page_at q) from n (page_at q + 4 * (from + n)) mem,
)

pdx-utop : pdx utop ≡ 955
unfolding pdx
pdx-utop = refl

self_pde : (p : ℕ) → p < 2 ^ 16 → bit_or (bit_or (p * 4096) pte_p) pte_u ≡ p * 4096 + 5
self_pde p h = ground (arith, low_or p 0 1, low_or p 1 4)

module _ (k : Kernel) (p q : ℕ) (xs : List ℕ) where
  -- The state that new_pgdir leaves with page p as the directory and page q as the kernel's.
  abbrev with_pgdir : Kernel
  with_pgdir =
      let k' = after_alloc true p k in
      record k' {
        pages = set_ref k'.pages p (((k'.pages p).pp_ref + 1) % 2 ^ 16);
        mem =
            update (copied (page_at p) (page_at q) 955 69 k'.mem) (page_at p + 4 * 957)
              (p * 4096 + 5);
      }

  new_pgdir_lem :
      FreeList k (p ∷ xs)
      → k.npages ≤ 2 ^ 16
      → new_pgdir (page_at q) k ≡ ok (some (page_at p)) with_pgdir
  unfolding new_pgdir incref
  new_pgdir_lem free small =
      let k1 = after_alloc true p k in
      let k2 = record k1 { pages = set_ref k1.pages p (((k1.pages p).pp_ref + 1) % 2 ^ 16) } in
      let mem = copied (page_at p) (page_at q) 955 69 k1.mem in
      let fits : p < 2 ^ 16 = omega (arith, free.1) in
      rw (page_alloc_lem k true p free.0 free.1 small) (
        rw (page2kva_lem k2 p free.1 small, pdx-utop, pdx-uvpt)
          (rw (copy_pdes_lem (page_at p) (page_at q) 955 69 k2)
            (rw (paddr_of_page p (record k2 { mem = mem }) fits) (rw (self_pde p fits)))))

setup_run :
    (s : Sys) (e d : ℕ) (k' : Kernel)
    → new_pgdir s.kern_pgdir s.kernel ≡ ok (some d) k'
    → env_setup_vm e s
      ≡ done none (set_env (record s { kernel = k' }) e (record (s.envs e) { env_pgdir = d }))
unfolding env_setup_vm
setup_run s e d k' made = ground arith

-- What env_setup_vm makes of page p: a directory whose user part is empty, that maps itself at
-- UVPT for reading, and that agrees with the kernel's directory everywhere else above UTOP.
pub record NewSpace (s : Sys) (e p q : ℕ) (xs : List ℕ) (s' : Sys) : Type 0 where
  pub run : env_setup_vm e s ≡ done none s'
  pub pgdir : (s'.envs e).env_pgdir ≡ page_at p
  pub user : (i : ℕ) → i < user_pdes → pde s'.kernel.mem p i ≡ 0
  pub self : pde s'.kernel.mem p 957 ≡ p * 4096 + 5
  pub shared :
      (i : ℕ) → user_pdes ≤ i → i < 1024 → i ≢ 957 → pde s'.kernel.mem p i ≡ pde s.kernel.mem q i
  pub outside :
      (a : ℕ)
      → leb (page_at p) a && ltb a (page_at p + 4096) ≡ false
      → s'.kernel.mem a ≡ s.kernel.mem a
  pub counted : (s'.kernel.pages p).pp_ref ≡ 1
  pub free : FreeList s'.kernel xs

-- With a free page, at most 2 ^ 16 pages, and the kernel's directory in another page, env_setup_vm
-- takes the first free page for the directory of environment e and fills it as `NewSpace` states.
pub env_setup_vm-NewSpace :
    (s : Sys) (e p q : ℕ) (xs : List ℕ)
    → FreeList s.kernel (p ∷ xs)
    → s.kernel.npages ≤ 2 ^ 16
    → s.kern_pgdir ≡ page_at q
    → p ≢ q
    → (s' : Sys) × NewSpace s e p q xs s'
env_setup_vm-NewSpace s e p q xs free small dir ne =
    let k' = with_pgdir s.kernel p q xs in
    let zeroed = (after_alloc true p s.kernel).mem in
    let entries = λ (i : ℕ). copied-entry p q 955 69 i zeroed ne (omega arith) in
    (
      set_env (record s { kernel = k' }) e (record (s.envs e) { env_pgdir = page_at p }),
      record {
        run =
            setup_run s e (page_at p) k'
              (ap (λ d. new_pgdir d s.kernel) dir ∙ new_pgdir_lem s.kernel p q xs free small);
        pgdir = ground arith;
        user = λ i h. ground (arith, entries i);
        self = ground arith;
        shared = λ i lo hi other. ground (arith, entries i);
        outside =
            λ a out. ground (arith, copied-other p (page_at q) 955 69 a zeroed (omega arith) out);
        counted = ground (arith, free.2);
        free =
            Chain-frame s.kernel.npages (s.kernel.pages p).pp_link xs free.4
              (λ a i. ground (arith, free.3));
      },
    )
