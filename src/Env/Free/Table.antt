-- ===== src/Env/Free/Table.antt =====
-- free_ptes: one page table is emptied.
use mathlib.Core.Path.{subst}
use jos_miles.Prelude.{
  ℕ, zero, suc, ◌+◌, ◌*◌, ◌/◌, ◌%◌, ◌^◌, ◌≤◌, ◌<◌, ◌≡◌, ◌≢◌, refl, sym, ap, ◌∷◌, ◌∙◌, Bool, false,
  ◌&&◌, arith, ltb, leb, ◌==◌, if◌then◌else◌, ℕ_discrete,
}
use jos_miles.Mmu.{pgaddr}
use jos_miles.Mmu.Laws.{pgaddr_lem, bit_and-one}
use jos_miles.Kernel.{Kernel, ok, update}
use jos_miles.PageTable.{page_remove}
use jos_miles.PageTable.Space.{
  page_at, pde, Present, table, dir_index, entry, entry_at, entry-Present,
}
use jos_miles.PageTable.Remove.{
  HasTable, InUse, after_decref, after_remove, page_remove-mapped, mem-after_decref,
}
use jos_miles.PageTable.Released.{
  Tidy, Released, Released-none, Released-then, Released-same, Tidy-InUse, decref-Released,
}
use jos_miles.PageTable.Unmap.{refs_to}
use jos_miles.Env.Switch.{free_ptes}

-- Word j of page t.
abbrev pub word : (ℕ → ℕ) → ℕ → ℕ → ℕ
word mem t j = mem (page_at t + 4 * j)

-- The references that the first n entries of the table in page t make to page a.
unfoldable pub table_refs : (ℕ → ℕ) → ℕ → ℕ → ℕ → ℕ
table_refs mem t a zero = 0
table_refs mem t a (suc n) = table_refs mem t a n + refs_to a (word mem t n)

table_refs_mono : (mem : ℕ → ℕ) (t a n m : ℕ) → n ≤ m → table_refs mem t a n ≤ table_refs mem t a m
unfolding table_refs
table_refs_mono mem t a zero m h = omega arith
table_refs_mono mem t a (suc n) zero h = absurd (omega arith)
table_refs_mono mem t a (suc n) (suc m) h = elim (ℕ_discrete n m) [
  | yes e ↦ rw e (omega arith)
  | no ne ↦ omega (arith, table_refs_mono mem t a (suc n) m (omega arith))
]

abbrev pub in_page_of : ℕ → ℕ → Bool
in_page_of t b = leb (page_at t) b && ltb b (page_at t + 4096)

-- What n rounds leave.
pub record Emptied (k : Kernel) (d i t n : ℕ) (k' : Kernel) : Type 0 where
  pub run : free_ptes (page_at d) (page_at t) i n k ≡ ok tt k'
  pub released : Released k k' (λ a. table_refs k.mem t a n)
  pub outside : (b : ℕ) → in_page_of t b ≡ false → k'.mem b ≡ k.mem b
  pub ahead : (j : ℕ) → n ≤ j → j < 1024 → word k'.mem t j ≡ word k.mem t j

-- The table of directory entry i, which is another page than the directory, in a memory whose pages
-- are counted.
pub record IsTable (k : Kernel) (d i t : ℕ) : Type 0 where
  pub there : Present k.mem d i
  pub at : table k.mem d i ≡ t
  pub index : i < 1024
  pub inside : t < k.npages
  pub small : k.npages ≤ 2 ^ 16
  pub apart : t ≢ d
  pub tidy : Tidy k
  pub leaves :
      (j : ℕ) → j < 1024 → word k.mem t j % 2 ≡ 1 → word k.mem t j / 4096 % 2 ^ 20 < k.npages

abbrev slot : ℕ → ℕ → ℕ
slot i n = i * 2 ^ 22 + n * 2 ^ 12 + 0

module _ (k : Kernel) (d i t n : ℕ) (k1 : Kernel) (tb : IsTable k d i t) (e : Emptied k d i t n k1)
    (lt : n < 1024) where
  same_pde : pde k1.mem d i ≡ pde k.mem d i
  same_pde = e.outside (page_at d + 4 * i) (ground (arith, tb.apart, tb.index))

  at_slot : dir_index (slot i n) ≡ i
  at_slot = omega (arith, tb.index)

  has_table : HasTable k1 d (slot i n)
  has_table = record {
    there = rw at_slot (ap (λ v. v % 2) same_pde ∙ tb.there);
    inside = rw at_slot (
        subst (λ v. v / 4096 % 2 ^ 20 < k1.npages) (sym same_pde)
          (rw (e.released.npages, tb.at) tb.inside));
    small = rw e.released.npages tb.small;
  }

  table_at : table k1.mem d (dir_index (slot i n)) ≡ t
  table_at = rw at_slot (ap (λ v. v / 4096 % 2 ^ 20) same_pde ∙ tb.at)

  entry_slot : entry_at k1.mem d (slot i n) ≡ page_at t + 4 * n
  entry_slot = omega (arith, table_at)

  value_here : word k1.mem t n ≡ word k.mem t n
  value_here = e.ahead n (omega arith) lt

  value : entry k1.mem d (slot i n) ≡ word k.mem t n
  value = entry-Present k1.mem d (slot i n) has_table.there ∙ ap k1.mem entry_slot ∙ value_here

  -- An entry that is not present is passed over.
  Emptied-absent : word k.mem t n % 2 ≡ 0 → Emptied k d i t (suc n) k1
  unfolding free_ptes table_refs
  Emptied-absent gone = record {
    run = rw e.run (ground (arith, value_here, bit_and-one (word k1.mem t n)));
    released =
        Released-same k k1 (λ a. table_refs k.mem t a n) (λ a. table_refs k.mem t a (suc n))
          e.released (λ a. ground arith);
    outside = e.outside;
    ahead = λ j h. e.ahead j (omega arith);
  }

  abbrev leaf : ℕ
  leaf = word k.mem t n / 4096 % 2 ^ 20

  abbrev after : Kernel
  after =
      let k2 = after_decref leaf k1 in
      record k2 { mem = update k2.mem (page_at t + 4 * n) 0; flushed = slot i n ∷ k2.flushed }

  removes :
      word k.mem t n % 2 ≡ 1
      → InUse k1 leaf
      → page_remove (page_at d) (pgaddr i n 0) k1 ≡ ok tt after
  unfolding after_remove
  removes odd u =
      let r =
        page_remove-mapped k1 d (slot i n) has_table (rw value odd)
          (rw value (rw e.released.npages (tb.leaves n lt odd))) (rw value u) in
      rw (pgaddr_lem i n 0 tb.index lt (omega arith))
        (r ∙ (λ i'. ok tt (after_remove (slot i n) (entry_slot i') (value i' / 4096 % 2 ^ 20) k1)))

  -- An entry that is present gives its reference back.
  Emptied-present :
      word k.mem t n % 2 ≡ 1
      → table_refs k.mem t leaf (suc n) ≤ (k.pages leaf).pp_ref
      → Emptied k d i t (suc n) after
  unfolding free_ptes table_refs
  Emptied-present odd counted =
      let held : 1 ≤ (k1.pages leaf).pp_ref = ground (arith, e.released.refs leaf) in
      let step =
        decref-Released leaf k1 e.released.tidy held (rw e.released.npages (tb.leaves n lt odd)) in
      let both =
        Released-then k k1 (after_decref leaf k1) (λ a. table_refs k.mem t a n)
          (λ a. if a == leaf then 1 else 0) e.released step in
      let all =
        Released-same k (after_decref leaf k1)
          (λ a. table_refs k.mem t a n + (if a == leaf then 1 else 0))
          (λ a. table_refs k.mem t a (suc n)) both (λ a. ground arith) in
      record {
        run = rw e.run (
            ground (
              arith,
              value_here,
              bit_and-one (word k1.mem t n),
              removes odd (Tidy-InUse k1 leaf e.released.tidy held),
            ));
        released = record {
          npages = all.npages;
          refs = all.refs;
          tidy = all.tidy;
          lists = all.lists;
        };
        outside =
            λ b h. ground (arith, ap (λ (f : ℕ → ℕ). f b) (mem-after_decref leaf k1), e.outside b);
        ahead = λ j h hj. ground (
          arith,
          ap (λ (f : ℕ → ℕ). f (page_at t + 4 * j)) (mem-after_decref leaf k1),
          e.ahead j,
        );
      }

Emptied-none : (k : Kernel) (d i t : ℕ) → IsTable k d i t → Emptied k d i t 0 k
unfolding free_ptes table_refs
Emptied-none k d i t tb = record {
  run = refl;
  released = Released-none k tb.tidy;
  outside = λ b h. refl;
  ahead = λ j lo hi. refl;
}

-- Where the page counts cover the references of the table, the loop empties it: each entry that is
-- present gives its reference back.
pub free_ptes-Emptied :
    (k : Kernel) (d i t n : ℕ)
    → n ≤ 1024
    → IsTable k d i t
    → ((a : ℕ) → table_refs k.mem t a 1024 ≤ (k.pages a).pp_ref)
    → (k' : Kernel) × Emptied k d i t n k'
free_ptes-Emptied k d i t zero h tb counted = (k, Emptied-none k d i t tb)
free_ptes-Emptied k d i t (suc n) h tb counted =
    let (k1, e) = free_ptes-Emptied k d i t n (omega arith) tb counted in
    let lt : n < 1024 = omega arith in
    elim (ℕ_discrete (word k.mem t n % 2) 1) [
      | yes odd ↦
          let a = word k.mem t n / 4096 % 2 ^ 20 in
          (
            after k d i t n k1 tb e lt,
            Emptied-present k d i t n k1 tb e lt odd
                (omega (arith, counted a, table_refs_mono k.mem t a (suc n) 1024)),
          )
      | no even ↦ (k1, Emptied-absent k d i t n k1 tb e lt (omega arith))
    ]
