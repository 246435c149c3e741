-- ===== src/MemInit/Check/Walk.antt =====
-- check_va2pa and the loops over pages and entries, in terms of the address space.
use jos_miles.Prelude.{
  ℕ, zero, suc, ◌+◌, ◌*◌, ◌/◌, ◌%◌, ◌^◌, ◌≤◌, ◌<◌, ◌≡◌, refl, ap, ◌∙◌, Bool, true, List, ◌==◌,
  if◌then◌else◌, arith, ℕ_discrete,
}
use jos_miles.Mmu.{u32, pte_addr}
use jos_miles.Mmu.Laws.{pdx_lem, ptx_lem, pte_addr_lem, bit_and-one, bit_or-one}
use jos_miles.Kernel.{Kernel, Cmd, ok}
use jos_miles.PageTable.Space.{
  page_at, pde, table, dir_index, entry, entry-Present, entry-absent, IsSpace,
}
use jos_miles.PageTable.Walk.{kaddr_lem}
use jos_miles.PageTable.Region.{dir_of, map_entry}
use jos_miles.MemInit.Check.{no_address, check_va2pa, check_pages, pde_expected, check_pdes}

-- The address that an entry names.
abbrev pub named_by : ℕ → ℕ
named_by e = if e % 2 == 1 then e / 4096 % 2 ^ 20 * 4096 else no_address

module _ (own : ℕ → Bool) (k : Kernel) (d : ℕ) (free : List ℕ) (s : IsSpace own k d free) where
  -- The walk in software says what the address space says.
  pub check_va2pa_lem :
      (va : ℕ)
      → own (dir_index va) ≡ true
      → check_va2pa (page_at d) va k ≡ ok (named_by (entry k.mem d va)) k
  unfolding check_va2pa
  check_va2pa_lem va mine = elim (ℕ_discrete (pde k.mem d (dir_index va) % 2) 1) [
    | yes there ↦
        let v = pde k.mem d (dir_index va) in
        let e = k.mem (page_at (table k.mem d (dir_index va)) + 4 * (va / 2 ^ 12 % 1024)) in
        rw (pdx_lem, ptx_lem)
          (ground (
            arith,
            bit_and-one v,
            pte_addr_lem v,
            kaddr_lem (pte_addr v) k,
            s.small,
            s.table_in (dir_index va) mine there,
            bit_and-one e,
            pte_addr_lem e,
            entry-Present k.mem d va there,
          ))
    | no gone ↦ rw (pdx_lem) (
        ground
          (arith, bit_and-one (pde k.mem d (dir_index va)), entry-absent k.mem d va (omega arith)))
  ]

  named_by-map_entry :
      (q perm : ℕ) → q < 2 ^ 20 → perm < 4096 → named_by (map_entry q perm) ≡ q * 4096
  named_by-map_entry q perm hq hp = ground (arith, bit_or-one perm)

  -- A range that is mapped to consecutive pages passes.
  pub check_pages-pass :
      (start q perm : ℕ) (pa : Cmd ℕ) (n : ℕ)
      → start + n ≤ 2 ^ 20
      → q + n ≤ 2 ^ 20
      → perm < 4096
      → pa k ≡ ok (q * 4096) k
      → ((i : ℕ) → i < n → own (dir_of (start + i)) ≡ true)
      → ((i : ℕ) → i < n → entry k.mem d ((start + i) * 4096) ≡ map_entry (q + i) perm)
      → check_pages (page_at d) (start * 4096) pa n k ≡ ok tt k
  unfolding check_pages
  check_pages-pass start q perm pa zero lt lt' hp base mine mapped = refl
  check_pages-pass start q perm pa (suc n) lt lt' hp base mine mapped =
      let rest =
        check_pages-pass start q perm pa n (omega arith) (omega arith) hp base
          (λ i h. mine i (omega arith)) (λ i h. mapped i (omega arith)) in
      let here : u32 (start * 4096 + n * 4096) ≡ (start + n) * 4096 = omega arith in
      let sum : u32 (q * 4096 + n * 4096) ≡ (q + n) * 4096 = omega arith in
      let found : named_by (entry k.mem d ((start + n) * 4096)) ≡ (q + n) * 4096 =
        ap named_by (mapped n (omega arith)) ∙ named_by-map_entry (q + n) perm (omega arith) hp in
      rw rest (
        rw here (
          rw (check_va2pa_lem ((start + n) * 4096) (mine n (omega arith)))
            (rw base (rw (found, sum) (ground arith)))))

  -- A directory all of whose entries are as expected passes.
  pub check_pdes-pass :
      (n : ℕ)
      → ((i : ℕ) → i < n → pde_expected i (pde k.mem d i) ≡ true)
      → check_pdes (page_at d) n k ≡ ok tt k
  unfolding check_pdes
  check_pdes-pass zero good = refl
  check_pdes-pass (suc n) good =
      rw (check_pdes-pass n (λ i h. good i (omega arith))) (rw (good n (omega arith)) refl)
