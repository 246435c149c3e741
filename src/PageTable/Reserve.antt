-- ===== src/PageTable/Reserve.antt =====
-- pgdir_walk with `create`: the table of an address is there afterwards, and the space says what it
-- said before.
use jos_miles.Prelude.{
  ℕ, length, ◌≤◌, ◌++◌, ◌/◌, ◌^◌, ◌∙◌, ap, sym, append_assoc, ◌+◌, ◌%◌, ◌<◌, ◌≡◌, refl, Bool, true,
  false, some, List, [], ◌∷◌, arith, ◌⊎◌, inl, inr, ◌≢◌, ℕ_discrete,
}
use jos_miles.Kernel.{Kernel, ok}
use jos_miles.PageAlloc.FreeList.{has, has-append, Chain-frame, FreeList}
use jos_miles.PageTable.{pgdir_walk}
use jos_miles.PageTable.Space.{page_at, pde, Present, table, dir_index, entry, entry_at, IsSpace}
use jos_miles.PageTable.Walk.{pgdir_walk-Present, pgdir_walk-create, with_table, entry-with_table}
use jos_miles.PageTable.Remove.{HasTable}

-- The page tables of the part `own` in `mem'` are those of `mem`, or pages that have been taken.
abbrev pub NewTables : (ℕ → Bool) → (ℕ → ℕ) → ℕ → List ℕ → (ℕ → ℕ) → Type 0
NewTables own mem d taken mem' =
    (i : ℕ)
    → own i ≡ true
    → Present mem' d i
    → (pde mem' d i ≡ pde mem d i) ⊎ (has (table mem' d i) taken ≡ true)

pub NewTables-append :
    (own : ℕ → Bool) (mem mem1 mem2 : ℕ → ℕ) (d : ℕ) (xs ys : List ℕ)
    → NewTables own mem d xs mem1
    → NewTables own mem1 d ys mem2
    → NewTables own mem d (xs ++ ys) mem2
NewTables-append own mem mem1 mem2 d xs ys first second i h there = elim (second i h there) [
  | inr new ↦ inr (ground (arith, has-append (table mem2 d i) xs ys))
  | inl same ↦ elim (first i h (ap (λ e. e % 2) (sym same) ∙ there)) [
    | inl old ↦ inl (same ∙ old)
    | inr new ↦ inr (
        ap (λ e. has (e / 4096 % 2 ^ 20) (xs ++ ys)) same
        ∙ ground (arith, has-append (table mem1 d i) xs ys))
  ]
]

pub taken-append :
    {free free1 : List ℕ} (xs ys free2 : List ℕ)
    → free ≡ xs ++ free1
    → free1 ≡ ys ++ free2
    → free ≡ (xs ++ ys) ++ free2
taken-append xs ys free2 e e' = e ∙ ap (λ zs. xs ++ zs) e' ∙ sym (append_assoc xs ys free2)

-- What pgdir_walk with `create` leaves when it succeeds: the table is there, the space says of each
-- address what it said before, and pages that were not free are as before.
pub record Walked (own : ℕ → Bool) (k : Kernel) (d va : ℕ) (free : List ℕ) (k' : Kernel)
    (free' : List ℕ) : Type 0 where
  pub walk : pgdir_walk (page_at d) va true k ≡ ok (some (entry_at k'.mem d va)) k'
  pub has_table : HasTable k' d va
  pub space : IsSpace own k' d free'
  pub list : FreeList k' free'
  pub npages : k'.npages ≡ k.npages
  pub entries : (va' : ℕ) → own (dir_index va') ≡ true → entry k'.mem d va' ≡ entry k.mem d va'
  pub pages : (a : ℕ) → has a free ≡ false → k'.pages a ≡ k.pages a
  -- A table is an old one, or was a free page.
  pub tables :
      (i : ℕ)
      → own i ≡ true
      → Present k'.mem d i
      → (Present k.mem d i × (table k'.mem d i ≡ table k.mem d i))
        ⊎ (has (table k'.mem d i) free ≡ true)
  pub room : length free ≤ length free' + 1
  pub pdes :
      (i : ℕ)
      → i < 1024
      → (pde k'.mem d i ≡ pde k.mem d i) ⊎ ((i ≡ dir_index va) × (pde k'.mem d i % 8 ≡ 7))
  pub no_room : Present k.mem d (dir_index va) → free' ≡ free
  pub taken : List ℕ
  pub order : free ≡ taken ++ free'
  pub new_tables : NewTables own k.mem d taken k'.mem
  pub still : (a : ℕ) → has a free ≡ false → has a free' ≡ false

module _ (own : ℕ → Bool) (k : Kernel) (d va : ℕ) (user : own (dir_index va) ≡ true) where
  pub walk-Present :
      (free : List ℕ)
      → IsSpace own k d free
      → FreeList k free
      → Present k.mem d (dir_index va)
      → Walked own k d va free k free
  walk-Present free s l there = record {
    walk = pgdir_walk-Present k d va true there (s.table_in (dir_index va) user there) s.small;
    has_table = record {
      there = there;
      inside = s.table_in (dir_index va) user there;
      small = s.small;
    };
    space = s;
    list = l;
    npages = refl;
    entries = λ va' h. refl;
    pages = λ a h. refl;
    tables = λ i h there. inl (there, refl);
    room = omega arith;
    pdes = λ i h. inl refl;
    no_room = λ h. refl;
    taken = [];
    order = refl;
    new_tables = λ i h there. inl refl;
    still = λ a h. h;
  }

  -- The new table's page joins the pages that the space occupies.
  IsSpace-with_table :
      (p : ℕ) (xs : List ℕ)
      → IsSpace own k d (p ∷ xs)
      → p < k.npages
      → has p xs ≡ false
      → IsSpace own (with_table d (dir_index va) p k) d xs
  IsSpace-with_table p xs s lt out = record {
    small = s.small;
    bounded = s.bounded;
    dir_in = s.dir_in;
    dir_used = ground (arith, s.dir_used);
    table_in = λ i h there. ground (arith, s.dir_used, s.table_in i h);
    table_ne_dir = λ i h there. ground (arith, s.dir_used, s.table_ne_dir i h);
    table_used = λ i h there. ground (arith, s.dir_used, s.table_used i h);
    table_inj = λ i j hi hj there there' e.
        ground (arith, s.dir_used, s.table_inj i j hi hj, s.table_used i hi, s.table_used j hj);
  }

  pub walk-create :
      (p : ℕ) (xs : List ℕ)
      → IsSpace own k d (p ∷ xs)
      → FreeList k (p ∷ xs)
      → pde k.mem d (dir_index va) % 2 ≡ 0
      → Walked own k d va (p ∷ xs) (with_table d (dir_index va) p k) xs
  walk-create p xs s l gone = record {
    walk = ground (arith, pgdir_walk-create k d va p);
    has_table = record { there = ground arith; inside = ground arith; small = s.small };
    space = IsSpace-with_table p xs s l.1 l.3;
    list = Chain-frame k.npages (k.pages p).pp_link xs l.4 (λ a i. ground arith);
    npages = refl;
    entries =
        λ va' h. entry-with_table own k d (dir_index va) p xs va' s user (omega arith) gone l.1 h;
    pages = λ a h. ground arith;
    tables = λ i h there. ground (arith, s.bounded i h, s.dir_used);
    room = omega arith;
    pdes = λ i h. elim (ℕ_discrete i (dir_index va)) [
      | yes e ↦ inr (e, ground arith)
      | no ne ↦ inl (ground (arith, s.dir_used))
    ];
    no_room = λ h. absurd (omega (arith, gone));
    taken = p ∷ [];
    order = refl;
    new_tables = λ i h there. elim (ℕ_discrete i (dir_index va)) [
      | yes e ↦ inr (ground (arith, s.bounded i h))
      | no ne ↦ inl (ground (arith, s.dir_used))
    ];
    still = λ a h. ground arith;
  }

-- The two ways to have a table, in one.
pub walk_lem :
    (own : ℕ → Bool) (k : Kernel) (d va : ℕ) (free : List ℕ)
    → own (dir_index va) ≡ true
    → IsSpace own k d free
    → FreeList k free
    → Present k.mem d (dir_index va) ⊎ (free ≢ [])
    → (k' : Kernel) × (free' : List ℕ) × Walked own k d va free k' free'
walk_lem own k d va [] user s l (inl there) = (k, [], walk-Present own k d va user [] s l there)
walk_lem own k d va [] user s l (inr some_free) = absurd (some_free refl)
walk_lem own k d va (p ∷ xs) user s l room = elim (ℕ_discrete (pde k.mem d (dir_index va) % 2) 1) [
  | yes there ↦ (k, p ∷ xs, walk-Present own k d va user (p ∷ xs) s l there)
  | no gone ↦
      (with_table d (dir_index va) p k, xs, walk-create own k d va user p xs s l (omega arith))
]
