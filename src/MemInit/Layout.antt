-- ===== src/MemInit/Layout.antt =====
-- The regions above UTOP that mem_init maps, as a list.
use jos_miles.Prelude.{
  ℕ, zero, suc, ◌+◌, ◌-◌, ◌*◌, ◌/◌, ◌^◌, ◌≤◌, ◌<◌, ◌≡◌, ◌⊎◌, refl, sym, ap, ◌∙◌, arith, Bool, ltb,
  ◌&&◌, not, List, [], ◌∷◌, bit_xor, ◌==◌,
}
use jos_miles.Mmu.{sub32, pgsize, kernbase, kstacktop, kstksize, upages, uenvs, rounddown, roundup}
use jos_miles.Kernel.{Run, ok, panicked, Cmd, pure, ◌>>=◌, ◌>>◌, and_then}
use jos_miles.PageAlloc.{paddr}
use jos_miles.PageTable.{boot_map_region, map_pages}
use jos_miles.PageTable.Space.{page_at}
use jos_miles.PageTable.Region.{span}
use jos_miles.MemInit.{envs_size, map_kernel}
use jos_miles.PageTable.Walk.{paddr_of_page}
use jos_miles.MemInit.Boot.{pages_pages}
use jos_miles.MemInit.Regions.{Region, map_regions, Fits}

-- The part of the kernel's directory that has page tables: all but the entry at UVPT.
abbrev pub kernel_part : ℕ → Bool
kernel_part i = ltb i 1024 && not (i == 957)

-- The regions of mem_init in order, where the directory is page d, the arrays take m and 24 pages
-- from page d + 1 on, and the stack lies in the pages from bs on.
abbrev pub kernel_regions : ℕ → ℕ → ℕ → List Region
kernel_regions d m bs =
    record { start = 0xe_f000; n = m; q = d + 1; perm = 4 }
    ∷ record { start = 0xf_0000 + (d + 1); n = m; q = d + 1; perm = 2 }
    ∷ record { start = 0xe_ec00; n = 24; q = d + 1 + m; perm = 4 }
    ∷ record { start = 0xf_0000 + (d + 1 + m); n = 24; q = d + 1 + m; perm = 2 }
    ∷ record { start = 0xe_fff8; n = 8; q = bs; perm = 2 }
    ∷ record { start = 0xf_0000; n = 65536; q = 0; perm = 2 }
    ∷ []

pages_round : (n : ℕ) → n ≤ 2 ^ 16 → roundup (8 * n) pgsize / pgsize ≡ pages_pages n
unfolding roundup rounddown
pages_round n h = omega arith

envs_round : roundup envs_size pgsize / pgsize ≡ 24
unfolding roundup rounddown envs_size
envs_round = refl

last_size : sub32 (bit_xor 2 32) kernbase / pgsize ≡ 65536
last_size = refl

paddr-pure : (p : ℕ) → p < 2 ^ 16 → paddr (page_at p) ≡ pure (p * 4096)
paddr-pure p h = λ i k. paddr_of_page p k h i

-- A command that returns its argument, one that does nothing, and two commands in a row.
module _ {A : Type 0} where
  bind_pure : {x : Cmd ℕ} {p : ℕ} (f : ℕ → Cmd A) {c : Cmd A} → x ≡ pure p → f p ≡ c → (x >>= f) ≡ c
  bind_pure f e rest = ap (λ x. x >>= f) e ∙ rest

last_pure : (r : Run (Unit {0})) → and_then r (λ x. pure tt) ≡ r
last_pure (ok tt k) = refl
last_pure (panicked why) = refl

then_nothing : (c : Cmd (Unit {0})) → (c >> pure tt) ≡ c
then_nothing c i k = last_pure (c k) i

row : {a a' b b' : Cmd (Unit {0})} → a ≡ a' → b ≡ b' → (a >> b) ≡ (a' >> b')
row e e' i = e i >> e' i

map_region :
    (pgdir va start size n pa q perm : ℕ)
    → va ≡ start * 4096
    → pa ≡ q * 4096
    → size / pgsize ≡ n
    → boot_map_region pgdir va size pa perm ≡ map_pages pgdir (start * 4096) (q * 4096) perm n
unfolding boot_map_region
map_region pgdir va start size n pa q perm e e' e'' = rw e (rw e' (rw e'' refl))

pub map_kernel_lem :
    (d n bs : ℕ)
    → n ≤ 2 ^ 16
    → d + 1 + pages_pages n < 2 ^ 16
    → bs < 2 ^ 16
    → map_kernel
        (page_at bs)
        (page_at d)
        (page_at (d + 1))
        (page_at (d + 1 + pages_pages n))
        (8 * n)
      ≡ map_regions d (kernel_regions d (pages_pages n) bs)
unfolding map_kernel map_regions
map_kernel_lem d n bs small room room' =
    let dir = page_at d in
    let m = pages_pages n in
    let e = d + 1 + m in
    let round = pages_round n small in
    let size = roundup (8 * n) pgsize in
    let envs = roundup envs_size pgsize in
    bind_pure _ (paddr-pure (d + 1) (omega arith)) (
      row (map_region dir upages 0xe_f000 size m ((d + 1) * 4096) (d + 1) 4 refl refl round) (
        row
          (map_region dir (page_at (d + 1)) (0xf_0000 + (d + 1)) size m ((d + 1) * 4096) (d + 1) 2
            (omega arith) refl round)
          (bind_pure _ (paddr-pure e room) (
            row (map_region dir uenvs 0xe_ec00 envs 24 (e * 4096) e 4 refl refl envs_round) (
              row
                (map_region dir (page_at e) (0xf_0000 + e) envs 24 (e * 4096) e 2 (omega arith) refl
                  envs_round)
                (bind_pure _ (paddr-pure bs room') (
                  row
                    (map_region dir (kstacktop - kstksize) 0xe_fff8 kstksize 8 (bs * 4096) bs 2 refl
                      refl refl)
                    (map_region dir kernbase 0xf_0000 (sub32 (bit_xor 2 32) kernbase) 65536 0 0 2
                        refl refl last_size
                      ∙ sym (then_nothing (map_pages dir kernbase 0 2 65536))))))))))

-- Few pages reach into at most two tables.
pub span_small : (start n : ℕ) → n ≤ 1024 → span start n ≤ 2
span_small start zero h = omega arith
span_small start (suc n) h = omega arith

-- A region fits if it ends before the directory index 957 or begins behind it.
pub region-Fits :
    (start n q perm : ℕ)
    → perm < 4096
    → start + n ≤ 2 ^ 20
    → (start + n ≤ 957 * 1024) ⊎ (958 * 1024 ≤ start)
    → Fits kernel_part (record { start = start; n = n; q = q; perm = perm })
region-Fits start n q perm h lt out = (h, lt, λ i hi. ground arith)
