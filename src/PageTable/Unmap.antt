-- ===== src/PageTable/Unmap.antt =====
-- page_remove as page_insert sees it, whether something is mapped or not.
use jos_miles.Prelude.{
  ℕ, ◌+◌, ◌/◌, ◌%◌, ◌^◌, ◌<◌, ◌≡◌, refl, ◌≢◌, ◌⊎◌, inl, inr, List, arith, ◌==◌, if◌then◌else◌,
}
use jos_miles.Kernel.{Kernel, ok}
use jos_miles.PageAlloc.FreeList.{has, FreeList}
use jos_miles.PageTable.{page_remove}
use jos_miles.PageTable.Space.{page_at, entry, entry_at}
use jos_miles.PageTable.Remove.{
  HasTable, InUse, after_remove, page_remove-unmapped, page_remove-mapped, after_decref-FreeList,
  mem-after_decref, npages-after_decref, ref-after_decref,
}

-- What may stand at `va` before the call: nothing, or a page in use.
abbrev pub Old : Kernel → ℕ → ℕ → Type 0
Old k d va =
    (entry k.mem d va % 2 ≡ 0)
    ⊎ ((entry k.mem d va % 2 ≡ 1)
        × (entry k.mem d va / 4096 % 2 ^ 20 < k.npages)
        × InUse k (entry k.mem d va / 4096 % 2 ^ 20))

-- The references that an entry makes to page a.
abbrev pub refs_to : ℕ → ℕ → ℕ
refs_to a e = if e % 2 == 1 then (if e / 4096 % 2 ^ 20 == a then 1 else 0) else 0

-- What page_remove leaves of k.
pub record Removed (k : Kernel) (d va : ℕ) (k' : Kernel) : Type 0 where
  pub run : page_remove (page_at d) va k ≡ ok tt k'
  pub npages : k'.npages ≡ k.npages
  pub mem : (a : ℕ) → a ≢ entry_at k.mem d va → k'.mem a ≡ k.mem a
  pub refs : (a : ℕ) → (k'.pages a).pp_ref + refs_to a (entry k.mem d va) ≡ (k.pages a).pp_ref
  pub lists :
      (free : List ℕ)
      → FreeList k free
      → (free' : List ℕ) × FreeList k' free'
        × ((a : ℕ) → refs_to a (entry k.mem d va) ≡ 0 → has a free' ≡ has a free)
        × (entry k.mem d va % 2 ≡ 0 → free' ≡ free)
  pub idle : entry k.mem d va % 2 ≡ 0 → k' ≡ k

pub remove-Removed :
    (k : Kernel) (d va : ℕ) → HasTable k d va → Old k d va → (k' : Kernel) × Removed k d va k'
unfolding after_remove
remove-Removed k d va t (inl out) = (
  k,
  record {
    run = page_remove-unmapped k d va t out;
    npages = refl;
    mem = λ a ne. refl;
    refs = λ a. ground arith;
    lists = λ free l. (free, l, λ a h. refl, λ h. refl);
    idle = λ h. refl;
  },
)
remove-Removed k d va t (inr (out, lt, u)) =
    let q = entry k.mem d va / 4096 % 2 ^ 20 in
    (
      after_remove va (entry_at k.mem d va) q k,
      record {
        run = page_remove-mapped k d va t out lt u;
        npages = npages-after_decref q k;
        mem = λ a ne. rw (mem-after_decref q k) (ground arith);
        refs = λ a. ground (arith, ref-after_decref q k a);
        lists = λ free l.
            let (free', l', same) = after_decref-FreeList q k free u lt l in
            (free', l', λ a h. same a (λ e. ground arith), λ h. absurd (omega (arith, out)));
        idle = λ h. absurd (omega (arith, out));
      },
    )
