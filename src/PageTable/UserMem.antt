-- ===== src/PageTable/UserMem.antt =====
-- user_mem_check: which ranges pass.
use jos_miles.Prelude.{
  ℕ, zero, suc, ◌+◌, ◌-◌, ◌/◌, ◌%◌, ◌^◌, ◌≤◌, ◌<◌, ◌≡◌, refl, ◌⊎◌, inl, inr, Bool, false, not,
  Option, none, some, arith, ◌==◌, if◌then◌else◌, bit_and, Bool-cases, ℕ_discrete,
}
use jos_miles.Mmu.{u32, ulim}
use jos_miles.PageAlloc.{kaddr, pa2page}
use jos_miles.Errno.{Errno}
use jos_miles.Kernel.{Kernel, Panic, Run, ok, panicked}
use jos_miles.PageTable.{page_lookup, pgdir_walk, user_mem_check, check_from, bad_address}
use jos_miles.PageTable.Space.{
  page_at, pde, Present, table, dir_index, entry, entry-Present, entry-absent,
}
use jos_miles.PageTable.Remove.{
  HasTable, page_lookup-absent, page_lookup-unmapped, page_lookup-mapped,
}

-- Tables and mapped pages lie in memory.
pub record InMemory (k : Kernel) (d : ℕ) : Type 0 where
  pub small : k.npages ≤ 2 ^ 16
  pub tables : (i : ℕ) → i < 1024 → Present k.mem d i → table k.mem d i < k.npages
  pub leaves : (va : ℕ) → entry k.mem d va % 2 ≡ 1 → entry k.mem d va / 4096 % 2 ^ 20 < k.npages

-- The address is mapped, and its entry has one of the bits of `perm`.
unfoldable pub accessible : Kernel → ℕ → ℕ → ℕ → Bool
accessible k d perm va =
    if entry k.mem d va % 2 == 1 then not (bit_and (entry k.mem d va) perm == 0) else false

-- The first of the n addresses from `va` on that is not accessible.
unfoldable pub first_bad : Kernel → ℕ → ℕ → ℕ → ℕ → Option ℕ
first_bad k d perm va zero = none
first_bad k d perm va (suc n) =
    if accessible k d perm va then first_bad k d perm (va + 1) n else some va

-- How the check reports its finding.
abbrev pub report : Kernel → Option ℕ → Run (Option Errno)
report k none = ok none k
report k (some va) = ok (some Errno.fault) (record k { user_mem_check_addr = va })

accessible-unmapped :
    (k : Kernel) (d perm va : ℕ) → entry k.mem d va % 2 ≡ 0 → accessible k d perm va ≡ false
unfolding accessible
accessible-unmapped k d perm va out = ground arith

accessible-mapped :
    (k : Kernel) (d perm va : ℕ)
    → entry k.mem d va % 2 ≡ 1
    → accessible k d perm va ≡ not (bit_and (entry k.mem d va) perm == 0)
unfolding accessible
accessible-mapped k d perm va mapped = ground arith

module _ (k : Kernel) (d perm : ℕ) (m : InMemory k d) where
  check_from-suc :
      (va n : ℕ)
      → check_from (page_at d) perm va (suc n) k ≡ (
          if accessible k d perm va
          then check_from (page_at d) perm (va + 1) n k
          else report k (some va))
  unfolding check_from bad_address
  check_from-suc va n = elim (ℕ_discrete (pde k.mem d (dir_index va) % 2) 1) [
    | no gone ↦ rw (
      page_lookup-absent k d va (omega arith),
      accessible-unmapped k d perm va (omega (arith, entry-absent k.mem d va (omega arith))),
    )
    | yes there ↦
        let t : HasTable k d va = record {
          there = there;
          inside = m.tables (dir_index va) (omega arith) there;
          small = m.small;
        } in
        elim (ℕ_discrete (entry k.mem d va % 2) 1) [
          | no out ↦ rw (
            page_lookup-unmapped k d va t (omega arith),
            accessible-unmapped k d perm va (omega arith),
          )
          | yes mapped ↦
              rw
                (
                  page_lookup-mapped k d va t mapped (m.leaves va mapped),
                  ← entry-Present k.mem d va there,
                  accessible-mapped k d perm va mapped,
                )
                (elim (Bool-cases (bit_and (entry k.mem d va) perm == 0)) [
                  | inl none_set ↦ rw none_set
                  | inr some_set ↦ rw some_set
                ])
        ]
  ]

  check_from-first_bad :
      (va n : ℕ) → check_from (page_at d) perm va n k ≡ report k (first_bad k d perm va n)
  unfolding first_bad
  check_from-first_bad va zero = unfold check_from in refl
  check_from-first_bad va (suc n) = elim (Bool-cases (accessible k d perm va)) [
    | inl good ↦ rw (check_from-suc va n, good) (check_from-first_bad (va + 1) n)
    | inr bad ↦ rw (check_from-suc va n, bad)
  ]

  -- Where tables and mapped pages lie in memory, of at most 2 ^ 16 pages, a range that ends at
  -- ULIM or below passes exactly if each of its addresses is accessible, that is, mapped with one
  -- of the bits of perm; otherwise the first one that is not is recorded and -E_FAULT returned.
  pub user_mem_check-first_bad :
      (va len : ℕ)
      → va + len ≤ ulim
      → user_mem_check (page_at d) va len perm k ≡ report k (first_bad k d perm va len)
  unfolding user_mem_check
  user_mem_check-first_bad va len h = ground (arith, check_from-first_bad va len)

-- A range that ends above ULIM, but within 32 bits, is refused at its first address.
pub user_mem_check-above :
    (pgdir va len perm : ℕ) (k : Kernel)
    → ulim < va + len
    → va + len < 2 ^ 32
    → user_mem_check pgdir va len perm k ≡ report k (some va)
unfolding user_mem_check bad_address
user_mem_check-above pgdir va len perm k lo hi = ground arith

-- A range of a 32-bit address and length that runs over the end of the address space and comes out
-- at ULIM or below passes, without any page being looked at.
pub user_mem_check-wraps :
    (pgdir va len perm : ℕ) (k : Kernel)
    → va < 2 ^ 32
    → len < 2 ^ 32
    → 2 ^ 32 ≤ va + len
    → va + len ≤ 2 ^ 32 + ulim
    → user_mem_check pgdir va len perm k ≡ ok none k
unfolding user_mem_check check_from
user_mem_check-wraps pgdir va len perm k hv hl lo hi =
    let empty : (va + len) % 2 ^ 32 - va ≡ 0 = omega arith in ground (arith, empty)

-- A lookup changes nothing.
page_lookup-kept :
    (pgdir va : ℕ) (k k' : Kernel) (r : Option ℕ × Option ℕ)
    → page_lookup pgdir va k ≡ ok r k'
    → k' ≡ k
unfolding page_lookup pgdir_walk kaddr pa2page
page_lookup-kept pgdir va k k' r h = ground arith

-- How a command ended.
pub Run-cases :
    {A : Type 0} (r : Run A)
    → ((a : A) × (k : Kernel) × (r ≡ ok a k)) ⊎ ((why : Panic) × (r ≡ panicked why))
Run-cases (ok a k) = inl (a, k, refl)
Run-cases (panicked why) = inr (why, refl)

check_from-kept :
    (pgdir perm scanner n : ℕ) (k k' : Kernel)
    → check_from pgdir perm scanner n k ≡ ok none k'
    → k' ≡ k
unfolding check_from bad_address
check_from-kept pgdir perm scanner zero k k' h = ground arith
check_from-kept pgdir perm scanner (suc n) k k' h = elim (Run-cases (page_lookup pgdir scanner k)) [
  | inl ((found, entry), k1, e) ↦ ground (
    arith,
    e,
    page_lookup-kept pgdir scanner k k1 (found, entry),
    check_from-kept pgdir perm (scanner + 1) n k k',
  )
  | inr (why, e) ↦ ground (arith, e)
]

-- A check that passes changes nothing.
pub user_mem_check-kept :
    (pgdir va len perm : ℕ) (k k' : Kernel)
    → user_mem_check pgdir va len perm k ≡ ok none k'
    → k' ≡ k
unfolding user_mem_check bad_address
user_mem_check-kept pgdir va len perm k k' h =
    ground (arith, check_from-kept pgdir perm va (u32 (va + len) - va) k k')
