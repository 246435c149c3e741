-- ===== src/MemInit/Check/Passes.antt =====
-- The kernel's own test passes in the state that map_kernel leaves.
use mathlib.Core.Path.{subst}
use jos_miles.Prelude.{
  ℕ, ◌+◌, ◌-◌, ◌*◌, ◌/◌, ◌%◌, ◌^◌, ◌≤◌, ◌<◌, ◌≡◌, ◌≢◌, refl, ap, sym, ◌∙◌, ◌⊎◌, inl, inr, true,
  bit_and, bit_and_split, bit_and-zero, arith, ℕ_discrete, dec_lt,
}
use jos_miles.PageAlloc.{paddr}
use jos_miles.Mmu.{
  u32, pgsize, ptsize, kstksize, pdx, upages, uenvs, kstacktop, kernbase, roundup, rounddown,
}
use jos_miles.Mmu.Laws.{bit_and-one, bit_or-one}
use jos_miles.Kernel.{Kernel, ok, pure}
use jos_miles.PageTable.Space.{page_at, pde, entry-absent}
use jos_miles.PageTable.Walk.{paddr_of_page}
use jos_miles.PageTable.Region.{dir_of, map_entry}
use jos_miles.MemInit.{pages_size, envs_size}
use jos_miles.MemInit.Boot.{pages_pages}
use jos_miles.MemInit.Regions.{TouchedBy, mapped_by}
use jos_miles.MemInit.Layout.{kernel_part, kernel_regions}
use jos_miles.MemInit.Space.{KernelSpace}
use jos_miles.MemInit.Check.{
  no_address, check_va2pa, check_pages, pde_expected, check_pdes, check_kern_pgdir,
}
use jos_miles.MemInit.Check.Walk.{named_by, check_va2pa_lem, check_pages-pass, check_pdes-pass}

-- What the regions make of the pages of each range.
module _ (d m bs i : ℕ) (few : m ≤ 1024) where
  at_upages : i < m → mapped_by (kernel_regions d m bs) (0xe_f000 + i) 0 ≡ map_entry (d + 1 + i) 4
  at_upages h = ground arith

  at_uenvs :
      i < 24 → mapped_by (kernel_regions d m bs) (0xe_ec00 + i) 0 ≡ map_entry (d + 1 + m + i) 4
  at_uenvs h = ground arith

  at_stack : i < 8 → mapped_by (kernel_regions d m bs) (0xe_fff8 + i) 0 ≡ map_entry (bs + i) 2
  at_stack h = ground arith

  at_kernbase : i < 65536 → mapped_by (kernel_regions d m bs) (0xf_0000 + i) 0 ≡ map_entry i 2
  at_kernbase h = ground arith

  -- The entries that a region reaches into.
  touched_entries :
      TouchedBy (kernel_regions d m bs) i → (i ≡ 955) ⊎ ((i ≡ 956) ⊎ ((i ≡ 959) ⊎ (960 ≤ i)))
  touched_entries t = ground arith

at_guard : (d m bs : ℕ) → m ≤ 1024 → mapped_by (kernel_regions d m bs) 0xe_fc00 0 ≡ 0
at_guard d m bs few = ground arith

bits_7 : (v : ℕ) → v % 8 ≡ 7 → (bit_and v 1 ≡ 1) × (bit_and v 2 ≡ 2)
bits_7 v h = (
  omega (arith, bit_and-one v),
  ground (arith, bit_and_split 3 (v / 8) 0 (v % 8) 2, bit_and-zero (v / 8)),
)

module _ (i v : ℕ) where
  expected_special :
      (i ≡ 955) ⊎ ((i ≡ 956) ⊎ ((i ≡ 957) ⊎ (i ≡ 959))) → v % 2 ≡ 1 → pde_expected i v ≡ true
  unfolding pde_expected pdx
  expected_special which odd = ground (arith, bit_and-one v)

  expected_high : 960 ≤ i → v % 8 ≡ 7 → pde_expected i v ≡ true
  unfolding pde_expected pdx
  expected_high hi bits = ground (arith, bits_7 v)

  expected_low : i < 960 → i ≢ 955 → i ≢ 956 → i ≢ 957 → i ≢ 959 → v ≡ 0 → pde_expected i v ≡ true
  unfolding pde_expected pdx
  expected_low hi a b c e empty = ground arith

pages_rounds : (n : ℕ) → n ≤ 2 ^ 16 → roundup (pages_size n) pgsize / pgsize ≡ pages_pages n
unfolding roundup rounddown pages_size
pages_rounds n h = omega arith

memory_rounds : (n : ℕ) → n ≤ 2 ^ 16 → u32 (n * pgsize) / pgsize ≡ n
memory_rounds n h = omega arith

envs_rounds : roundup envs_size pgsize / pgsize ≡ 24
unfolding roundup rounddown envs_size
envs_rounds = refl

-- The test as a whole, from its parts.
all_checks :
    (k : Kernel) (pgdir pages envs stack n : ℕ)
    → roundup (pages_size k.npages) pgsize / pgsize ≡ n
    → check_pages pgdir upages (paddr pages) n k ≡ ok tt k
    → check_pages pgdir uenvs (paddr envs) 24 k ≡ ok tt k
    → check_pages pgdir kernbase (pure 0) (u32 (k.npages * pgsize) / pgsize) k ≡ ok tt k
    → check_pages pgdir (kstacktop - kstksize) (paddr stack) 8 k ≡ ok tt k
    → check_va2pa pgdir (kstacktop - ptsize) k ≡ ok no_address k
    → check_pdes pgdir 1024 k ≡ ok tt k
    → check_kern_pgdir pgdir pages envs stack k ≡ ok tt k
unfolding check_kern_pgdir
all_checks k pgdir pages envs stack n rounds a b c e f g =
    rw rounds (rw a (rw envs_rounds (rw b (rw c (rw e (rw f (rw g refl)))))))

module _ (d bs : ℕ) (k0 k : Kernel) (small : k0.npages ≤ 2 ^ 16)
    (room : d + 1 + pages_pages k0.npages + 24 < k0.npages) (stack : bs < 2 ^ 16 - 8)
    (r : KernelSpace d bs k0 k) where
  abbrev m : ℕ
  m = pages_pages k0.npages

  few : m ≤ 1024
  few = omega arith

  -- A directory entry is present if an address in its reach is mapped.
  mapped-Present :
      (j q perm : ℕ)
      → j < 2 ^ 20
      → kernel_part (dir_of j) ≡ true
      → mapped_by (kernel_regions d m bs) j 0 ≡ map_entry q perm
      → pde k.mem d (dir_of j) % 2 ≡ 1
  mapped-Present j q perm hj own mapped = elim (ℕ_discrete (pde k.mem d (dir_of j) % 2) 1) [
    | yes there ↦ there
    | no gone ↦
        let zero_entry = entry-absent k.mem d (j * 4096) (omega arith) in
        absurd (omega (arith, zero_entry, r.entries j hj own, mapped, odd q perm))
  ]
    where
      odd : (q perm : ℕ) → map_entry q perm ≢ 0
      odd q perm e = omega (arith, bit_or-one perm)

  uenvs_there : pde k.mem d 955 % 2 ≡ 1
  uenvs_there =
      mapped-Present 0xe_ec00 (d + 1 + m + 0) 4 (omega arith) refl
        (at_uenvs d m bs 0 few (omega arith))

  pages_exist : 0 < m
  pages_exist = omega arith

  upages_there : pde k.mem d 956 % 2 ≡ 1
  upages_there =
      mapped-Present 0xe_f000 (d + 1 + 0) 4 (omega arith) refl (at_upages d m bs 0 few pages_exist)

  stack_there : pde k.mem d 959 % 2 ≡ 1
  stack_there =
      mapped-Present 0xe_fff8 (bs + 0) 2 (omega arith) refl (at_stack d m bs 0 few (omega arith))

  memory_there : (i : ℕ) → 960 ≤ i → i < 1024 → pde k.mem d i % 8 ≡ 7
  memory_there i lo hi =
      let j = 0xf_0000 + (i - 960) * 1024 in
      let here : dir_of j ≡ i = omega arith in
      let own : kernel_part (dir_of j) ≡ true = rw here (ground arith) in
      let there =
        mapped-Present j ((i - 960) * 1024) 2 (omega arith) own
          (at_kernbase d m bs ((i - 960) * 1024) few (omega arith)) in
      let there_i : pde k.mem d i % 2 ≡ 1 = ap (λ t. pde k.mem d t % 2) (sym here) ∙ there in
      elim (r.pdes i hi (λ e. omega arith)) [
        | inl empty ↦ absurd (omega (arith, empty))
        | inr (_, bits) ↦ bits
      ]

  other_empty : (i : ℕ) → i < 960 → i ≢ 955 → i ≢ 956 → i ≢ 957 → i ≢ 959 → pde k.mem d i ≡ 0
  other_empty i hi a b c e = elim (r.pdes i (omega arith) c) [
    | inl empty ↦ empty
    | inr (touched, _) ↦ absurd (ground (arith, touched_entries d m bs i few touched))
  ]

  abbrev IsExpected : ℕ → Type 0
  IsExpected i = pde_expected i (pde k.mem d i) ≡ true

  special_pde : (i j : ℕ) → i ≡ j → IsExpected j → IsExpected i
  special_pde i j e g = subst IsExpected (sym e) g

  every_pde : (i : ℕ) → i < 1024 → IsExpected i
  every_pde i h = elim (ℕ_discrete i 955) [
    | yes e ↦ special_pde i 955 e (expected_special 955 _ (inl refl) uenvs_there)
    | no ne ↦ elim (ℕ_discrete i 956) [
      | yes e ↦ special_pde i 956 e (expected_special 956 _ (inr (inl refl)) upages_there)
      | no ne' ↦ elim (ℕ_discrete i 957) [
        | yes e ↦
            special_pde i 957 e
              (expected_special 957 _ (inr (inr (inl refl))) (omega (arith, r.self)))
        | no ne'' ↦ rest_pde i h ne ne' ne''
      ]
    ]
  ]
    where
      rest_pde : (i : ℕ) → i < 1024 → i ≢ 955 → i ≢ 956 → i ≢ 957 → IsExpected i
      rest_pde i h a b c = elim (ℕ_discrete i 959) [
        | yes e ↦ special_pde i 959 e (expected_special 959 _ (inr (inr (inr refl))) stack_there)
        | no ne ↦ elim (dec_lt i 960) [
          | yes low ↦ expected_low i _ low a b c ne (other_empty i low a b c ne)
          | no high ↦ expected_high i _ (omega arith) (memory_there i (omega arith) h)
        ]
      ]

  passes_upages : check_pages (page_at d) upages (paddr (page_at (d + 1))) m k ≡ ok tt k
  passes_upages =
      check_pages-pass kernel_part k d r.free r.space 0xe_f000 (d + 1) 4 (paddr (page_at (d + 1))) m
        (omega arith) (omega arith) (omega arith) (paddr_of_page (d + 1) k (omega arith))
        (λ i h. ground arith)
        (λ i h. r.entries (0xe_f000 + i) (omega arith) (ground arith) ∙ at_upages d m bs i few h)

  passes_uenvs : check_pages (page_at d) uenvs (paddr (page_at (d + 1 + m))) 24 k ≡ ok tt k
  passes_uenvs =
      check_pages-pass kernel_part k d r.free r.space 0xe_ec00 (d + 1 + m) 4
        (paddr (page_at (d + 1 + m))) 24 (omega arith) (omega arith) (omega arith)
        (paddr_of_page (d + 1 + m) k (omega arith)) (λ i h. ground arith)
        (λ i h. r.entries (0xe_ec00 + i) (omega arith) (ground arith) ∙ at_uenvs d m bs i few h)

  passes_memory : check_pages (page_at d) kernbase (pure 0) k0.npages k ≡ ok tt k
  passes_memory =
      check_pages-pass kernel_part k d r.free r.space 0xf_0000 0 2 (pure 0) k0.npages (omega arith)
        (omega arith) (omega arith) refl (λ i h. ground arith)
        (λ i h.
          r.entries (0xf_0000 + i) (omega arith) (ground arith)
          ∙ at_kernbase d m bs i few (omega arith)
          ∙ ap (λ t. map_entry t 2) (omega arith))

  passes_stack : check_pages (page_at d) (kstacktop - kstksize) (paddr (page_at bs)) 8 k ≡ ok tt k
  passes_stack =
      check_pages-pass kernel_part k d r.free r.space 0xe_fff8 bs 2 (paddr (page_at bs)) 8
        (omega arith) (omega arith) (omega arith) (paddr_of_page bs k (omega arith))
        (λ i h. ground arith)
        (λ i h. r.entries (0xe_fff8 + i) (omega arith) (ground arith) ∙ at_stack d m bs i few h)

  guard_hole : check_va2pa (page_at d) (kstacktop - ptsize) k ≡ ok no_address k
  guard_hole =
      check_va2pa_lem kernel_part k d r.free r.space (kstacktop - ptsize) refl
      ∙ ap (λ e. ok (named_by e) k) (r.entries 0xe_fc00 (omega arith) refl ∙ at_guard d m bs few)

  -- In the state that map_kernel leaves, as `KernelSpace` describes it, with at most 2 ^ 16 pages, with
  -- room for the directory and the arrays, and with the kernel's stack below page 2 ^ 16,
  -- check_kern_pgdir passes all its assertions and changes nothing: the arrays, all of memory and the
  -- kernel's stack are found at their places, the page below the stack's region is not mapped, and
  -- every directory entry is present, writable or zero as the test expects it to be.
  pub check_kern_pgdir-passes :
      check_kern_pgdir (page_at d) (page_at (d + 1)) (page_at (d + 1 + m)) (page_at bs) k ≡ ok tt k
  check_kern_pgdir-passes =
      let pdes = check_pdes-pass kernel_part k d r.free r.space 1024 every_pde in
      let rounds =
        ap (λ (n : ℕ). roundup (pages_size n) pgsize / pgsize) r.pages_at
        ∙ pages_rounds k0.npages small in
      let memory =
        subst (λ (n : ℕ). check_pages (page_at d) kernbase (pure 0) n k ≡ ok tt k)
          (sym
            (ap (λ (n : ℕ). u32 (n * pgsize) / pgsize) r.pages_at ∙ memory_rounds k0.npages small))
          passes_memory in
      all_checks k (page_at d) (page_at (d + 1)) (page_at (d + 1 + m)) (page_at bs) m rounds
        passes_upages passes_uenvs memory passes_stack guard_hole pdes
