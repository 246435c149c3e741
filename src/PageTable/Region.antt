-- ===== src/PageTable/Region.antt =====
-- boot_map_region: a range of pages is mapped, page by page. Pages are numbered: page m of the
-- address space begins at m * 4096.
use mathlib.Core.Path.{subst}
use jos_miles.Prelude.{
  ℕ, zero, suc, ◌+◌, ◌-◌, ◌*◌, ◌/◌, ◌%◌, ◌^◌, ◌≤◌, ◌<◌, ◌≡◌, ◌≢◌, refl, sym, ap, ◌∙◌, ◌⊎◌, inl, inr,
  Bool, true, false, ◌&&◌, List, [], ◌++◌, arith, length, ltb, leb, ◌==◌, if◌then◌else◌, ℕ_discrete,
  bit_or, zero-bit_or,
}
use jos_miles.Mmu.{u32, pte_addr, pte_p}
use jos_miles.Mmu.Laws.{pte_addr_lem, low_or}
use jos_miles.Kernel.{Kernel, ok, update}
use jos_miles.PageAlloc.FreeList.{has, FreeList}
use jos_miles.PageTable.{boot_map_region, map_pages, map_page}
use jos_miles.PageTable.Space.{
  page_at, pde, Present, dir_index, entry, entry_at, IsSpace, SamePage, entry-store_self,
  entry-store_ne, pde-store, IsSpace-store,
}
use jos_miles.PageTable.Reserve.{Walked, NewTables, NewTables-append, taken-append, walk_lem}

-- The directory index of page m, and the entry that maps page q with `perm`.
abbrev pub dir_of : ℕ → ℕ
dir_of m = dir_index (m * 4096)

abbrev pub map_entry : ℕ → ℕ → ℕ
map_entry q perm = q % 2 ^ 20 * 4096 + bit_or perm 1

map_entry_lem :
    (a q perm : ℕ)
    → u32 a ≡ q % 2 ^ 20 * 4096
    → perm < 4096
    → bit_or (bit_or (pte_addr (u32 a)) perm) pte_p ≡ map_entry q perm
map_entry_lem a q perm e h = rw e (
    rw pte_addr_lem
      (ground (arith, low_or (q % 2 ^ 20) 0 perm, low_or (q % 2 ^ 20) perm 1, zero-bit_or perm)))

-- What one round leaves.
record Stored (own : ℕ → Bool) (k : Kernel) (d m v : ℕ) (free : List ℕ) (k' : Kernel)
    (free' : List ℕ) : Type 0 where
  space : IsSpace own k' d free'
  list : FreeList k' free'
  npages : k'.npages ≡ k.npages
  there : Present k'.mem d (dir_of m)
  room : length free ≤ length free' + 1
  pdes :
      (i : ℕ)
      → i < 1024
      → (pde k'.mem d i ≡ pde k.mem d i) ⊎ ((i ≡ dir_of m) × (pde k'.mem d i % 8 ≡ 7))
  no_room : Present k.mem d (dir_of m) → free' ≡ free
  pages : (a : ℕ) → has a free ≡ false → k'.pages a ≡ k.pages a
  taken : List ℕ
  order : free ≡ taken ++ free'
  new_tables : NewTables own k.mem d taken k'.mem
  still : (a : ℕ) → has a free ≡ false → has a free' ≡ false
  entries :
      (j : ℕ)
      → j < 2 ^ 20
      → own (dir_of j) ≡ true
      → entry k'.mem d (j * 4096) ≡ (if j == m then v else entry k.mem d (j * 4096))

module _ (own : ℕ → Bool) (k : Kernel) (d m : ℕ) (free : List ℕ) (k1 : Kernel) (free1 : List ℕ)
    (w : Walked own k d (m * 4096) free k1 free1) where
  abbrev round_end : ℕ → Kernel
  round_end v = record k1 { mem = update k1.mem (entry_at k1.mem d (m * 4096)) v }

  round-Stored :
      (v : ℕ) → m < 2 ^ 20 → own (dir_of m) ≡ true → Stored own k d m v free (round_end v) free1
  round-Stored v lt mine =
      let there = w.has_table.there in
      let stays =
        pde-store own k1 d free1 w.space (m * 4096) v (dir_of m) mine (omega arith) there in
      record {
        space = IsSpace-store own k1 d free1 w.space (m * 4096) v mine there;
        list = w.list;
        npages = w.npages;
        there = ap (λ t. t % 2) stays ∙ there;
        room = w.room;
        pdes = λ i h.
            let same = pde-store own k1 d free1 w.space (m * 4096) v i mine h there in
            elim (w.pdes i h) [
              | inl old ↦ inl (same ∙ old)
              | inr (e, bits) ↦ inr (e, ap (λ t. t % 8) same ∙ bits)
            ];
        no_room = w.no_room;
        pages = w.pages;
        taken = w.taken;
        order = w.order;
        new_tables = λ i h here.
            let same =
              pde-store own k1 d free1 w.space (m * 4096) v i mine (w.space.bounded i h) there in
            elim (w.new_tables i h (ap (λ t. t % 2) (sym same) ∙ here)) [
              | inl old ↦ inl (same ∙ old)
              | inr new ↦ inr (ap (λ e. has (e / 4096 % 2 ^ 20) w.taken) same ∙ new)
            ];
        still = w.still;
        entries = λ j hj own_j. elim (ℕ_discrete j m) [
          | yes e ↦
              let here = entry-store_self own k1 d free1 w.space (m * 4096) v mine there in
              ground (arith, subst (λ t. entry (round_end v).mem d (t * 4096) ≡ v) (sym e) here)
          | no ne ↦
              let apart : ¬ SamePage (m * 4096) (j * 4096) = λ p. omega arith in
              let other =
                entry-store_ne own k1 d free1 w.space (m * 4096) v (j * 4096) mine own_j there
                  apart in
              ground (arith, other, w.entries (j * 4096) own_j)
        ];
      }

  round_run :
      (start i q perm : ℕ)
      → start + i ≡ m
      → m < 2 ^ 20
      → perm < 4096
      → map_page (page_at d) (start * 4096) (q * 4096) perm i k
        ≡ ok tt (round_end (map_entry (q + i) perm))
  unfolding map_page
  round_run start i q perm e lt h =
      let va : u32 (start * 4096 + i * 4096) ≡ m * 4096 = omega arith in
      rw va (rw w.walk (rw (map_entry_lem (q * 4096 + i * 4096) (q + i) perm (omega arith) h)))

-- The number of tables that n pages from page `start` on reach into.
abbrev pub span : ℕ → ℕ → ℕ
span start zero = 0
span start (suc n) = (start + n) / 1024 - start / 1024 + 1

-- What n rounds leave: page `start + i` is mapped to page `q + i` for each i below n, and every
-- other page of the part `own` is as it was.
pub record Mapped (own : ℕ → Bool) (k : Kernel) (d start n q perm : ℕ) (free : List ℕ) (k' : Kernel)
    (free' : List ℕ) : Type 0 where
  pub run : map_pages (page_at d) (start * 4096) (q * 4096) perm n k ≡ ok tt k'
  pub space : IsSpace own k' d free'
  pub list : FreeList k' free'
  pub npages : k'.npages ≡ k.npages
  pub room : length free ≤ length free' + span start n
  -- A directory entry is as before, or is one of the range's, with a table for the user to write.
  pub pdes :
      (i : ℕ)
      → i < 1024
      → (pde k'.mem d i ≡ pde k.mem d i)
        ⊎ ((start / 1024 ≤ i) × (i * 1024 < start + n) × (pde k'.mem d i % 8 ≡ 7))
  pub last : (n ≡ 0) ⊎ Present k'.mem d (dir_of (start + n - 1))
  pub pages : (a : ℕ) → has a free ≡ false → k'.pages a ≡ k.pages a
  pub taken : List ℕ
  pub order : free ≡ taken ++ free'
  pub new_tables : NewTables own k.mem d taken k'.mem
  pub still : (a : ℕ) → has a free ≡ false → has a free' ≡ false
  pub entries :
      (j : ℕ)
      → j < 2 ^ 20
      → own (dir_of j) ≡ true
      → entry k'.mem d (j * 4096) ≡ (
          if leb start j && ltb j (start + n)
          then map_entry (q + (j - start)) perm
          else entry k.mem d (j * 4096))

-- The next page is in the same table, or one more table is reached into.
pub next_table :
    (mem : ℕ → ℕ) (d start n : ℕ)
    → (n ≡ 0) ⊎ Present mem d (dir_of (start + n - 1))
    → Present mem d (dir_of (start + n)) ⊎ (span start (suc n) ≡ span start n + 1)
next_table mem d start zero last = inr (omega arith)
next_table mem d start (suc n) (inl z) = absurd (omega arith)
next_table mem d start (suc n) (inr before) = elim (ℕ_discrete ((start + suc n) % 1024) 0) [
  | yes first ↦ inr (omega arith)
  | no inside ↦
      let same : dir_of (start + suc n - 1) ≡ dir_of (start + suc n) = omega arith in
      inl (subst (Present mem d) same before)
]

pub span_mono : (start n : ℕ) → span start n ≤ span start (suc n)
span_mono start zero = omega arith
span_mono start (suc n) = omega arith

pub nonempty : (free : List ℕ) → 1 ≤ length free → free ≢ []
nonempty free h e = ground arith

module _ (own : ℕ → Bool) (k : Kernel) (d start q perm : ℕ) (free : List ℕ)
    (hperm : perm < 4096) where
  -- One more round.
  Mapped-suc :
      (n : ℕ) (k1 k2 : Kernel) (free1 free2 : List ℕ)
      → start + n < 2 ^ 20
      → Mapped own k d start n q perm free k1 free1
      → map_page (page_at d) (start * 4096) (q * 4096) perm n k1 ≡ ok tt k2
      → Stored own k1 d (start + n) (map_entry (q + n) perm) free1 k2 free2
      → Mapped own k d start (suc n) q perm free k2 free2
  unfolding map_pages
  Mapped-suc n k1 k2 free1 free2 lt r step t = record {
    run = rw r.run step;
    space = t.space;
    list = t.list;
    npages = t.npages ∙ r.npages;
    room = room;
    pdes = λ i h. elim (t.pdes i h) [
      | inr (e, bits) ↦ inr (omega (arith, e), omega (arith, e), bits)
      | inl same ↦ elim (r.pdes i h) [
        | inl old ↦ inl (same ∙ old)
        | inr (lo, hi, bits) ↦ inr (lo, omega (arith, hi), ap (λ v. v % 8) same ∙ bits)
      ]
    ];
    last = inr (subst (λ m. Present k2.mem d (dir_of m)) (omega arith) t.there);
    pages = λ a h. t.pages a (r.still a h) ∙ r.pages a h;
    taken = r.taken ++ t.taken;
    order = taken-append r.taken t.taken free2 r.order t.order;
    new_tables =
        NewTables-append own k.mem k1.mem k2.mem d r.taken t.taken r.new_tables t.new_tables;
    still = λ a h. t.still a (r.still a h);
    entries = λ j hj own_j. ground (arith, t.entries j hj own_j, r.entries j hj own_j);
  }
    where
      room : length free ≤ length free2 + span start (suc n)
      room = elim (next_table k1.mem d start n r.last) [
        | inl there ↦
            omega (arith, r.room, ap (λ xs. length xs) (t.no_room there), span_mono start n)
        | inr one ↦ omega (arith, r.room, t.room, one)
      ]

  -- The rounds succeed as long as free pages are left for the tables that they reach into.
  pub map_pages-Mapped :
      (n : ℕ)
      → start + n ≤ 2 ^ 20
      → ((i : ℕ) → i < n → own (dir_of (start + i)) ≡ true)
      → IsSpace own k d free
      → FreeList k free
      → span start n ≤ length free
      → (k' : Kernel) × (free' : List ℕ) × Mapped own k d start n q perm free k' free'
  unfolding map_pages
  map_pages-Mapped zero lt mine s l enough = (
    k,
    free,
    record {
      run = refl;
      space = s;
      list = l;
      npages = refl;
      room = omega arith;
      pdes = λ i h. inl refl;
      last = inl refl;
      pages = λ a h. refl;
      taken = [];
      order = refl;
      new_tables = λ i h there. inl refl;
      still = λ a h. h;
      entries = λ j hj own_j. ground arith;
    },
  )
  map_pages-Mapped (suc n) lt mine s l enough =
      let (k1, free1, r) =
        map_pages-Mapped n (omega arith) (λ i h. mine i (omega arith)) s l
          (omega (arith, span_mono start n)) in
      let mine_n = mine n (omega arith) in
      let space_for : Present k1.mem d (dir_of (start + n)) ⊎ (free1 ≢ []) =
        elim (next_table k1.mem d start n r.last) [
          | inl there ↦ inl there
          | inr one ↦ inr (nonempty free1 (omega (arith, r.room, one)))
        ] in
      let (k2, free2, w) =
        walk_lem own k1 d ((start + n) * 4096) free1 mine_n r.space r.list space_for in
      let v = map_entry (q + n) perm in
      let lt' : start + n < 2 ^ 20 = omega arith in
      (
        round_end own k1 d (start + n) free1 k2 free2 w v,
        free2,
        Mapped-suc n k1 (round_end own k1 d (start + n) free1 k2 free2 w v) free1 free2 lt' r
            (round_run own k1 d (start + n) free1 k2 free2 w start n q perm refl lt' hperm)
            (round-Stored own k1 d (start + n) free1 k2 free2 w v lt' mine_n),
      )

-- Into a well-formed space with at least as many free pages as the range reaches into tables, for a
-- range that does not go past the end of the address space, boot_map_region maps the pages of the range,
-- of which all directory indices lie in the part `own`, to consecutive physical pages with `perm` below
-- 4096 and the present bit, changes no other entry of that part, and leaves space and free list well
-- formed. It does not panic.
pub boot_map_region-Mapped :
    (own : ℕ → Bool) (k : Kernel) (d start size q perm : ℕ) (free : List ℕ)
    → perm < 4096
    → start + size / 4096 ≤ 2 ^ 20
    → ((i : ℕ) → i < size / 4096 → own (dir_of (start + i)) ≡ true)
    → IsSpace own k d free
    → FreeList k free
    → span start (size / 4096) ≤ length free
    → (k' : Kernel) × (free' : List ℕ) × (boot_map_region
          (page_at d)
          (start * 4096)
          size
          (q * 4096)
          perm
          k
        ≡ ok tt k')
      × Mapped own k d start (size / 4096) q perm free k' free'
unfolding boot_map_region
boot_map_region-Mapped own k d start size q perm free hperm lt mine s l enough =
    let (k', free', r) =
      map_pages-Mapped own k d start q perm free hperm (size / 4096) lt mine s l enough in
    (k', free', r.run, r)
