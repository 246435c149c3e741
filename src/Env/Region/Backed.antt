-- ===== src/Env/Region/Backed.antt =====
-- region_alloc: the pages of a range that was unmapped are backed by pages that were free.
use mathlib.Core.Path.{fun_ext, subst}
use jos_miles.Prelude.{
  ℕ, zero, suc, ◌+◌, ◌-◌, ◌*◌, ◌/◌, ◌%◌, ◌^◌, ◌≤◌, ◌<◌, ◌≡◌, ◌≢◌, refl, sym, ap, ◌∙◌, ◌⊎◌, inl, inr,
  Bool, true, false, some, List, [], ◌∷◌, ◌&&◌, arith, length, ltb, leb, ◌==◌, if◌then◌else◌,
  ℕ_discrete,
}
use jos_miles.Mmu.{pgsize, rounddown, roundup}
use jos_miles.Kernel.{Kernel, ok, update}
use jos_miles.PageAlloc.{page_alloc}
use jos_miles.PageAlloc.FreeList.{has, FreeList, Allocated, page_alloc-Allocated}
use jos_miles.PageTable.Space.{page_at, Present, table, entry, IsSpace, IsSpace-free, SamePage}
use jos_miles.PageTable.Insert.{Inserted, OneTaken, Spared, page_insert_lem}
use jos_miles.PageTable.Unmap.{refs_to}
use jos_miles.PageTable.Region.{dir_of, span, next_table, span_mono, nonempty}
use jos_miles.Env.Region.{alloc_page_at, alloc_pages, region_start, region_end, region_alloc}

-- What one round leaves: page m is mapped to page p, which was the first free one.
record Filled (own : ℕ → Bool) (k : Kernel) (d m p : ℕ) (free : List ℕ) (k' : Kernel)
    (free' : List ℕ) : Type 0 where
  run : alloc_page_at (page_at d) (m * 4096) k ≡ ok tt k'
  space : IsSpace own k' d free'
  list : FreeList k' free'
  npages : k'.npages ≡ k.npages
  there : Present k'.mem d (dir_of m)
  room : length free ≤ length free' + 2
  no_room : Present k.mem d (dir_of m) → length free ≤ length free' + 1
  was_free : has p free ≡ true
  taken : has p free' ≡ false
  counted : (k'.pages p).pp_ref ≡ 1
  pages : (a : ℕ) → has a free ≡ false → k'.pages a ≡ k.pages a
  still : (a : ℕ) → has a free ≡ false → has a free' ≡ false
  entries :
      (j : ℕ)
      → j < 2 ^ 20
      → own (dir_of j) ≡ true
      → entry k'.mem d (j * 4096) ≡ (if j == m then p * 4096 + 7 else entry k.mem d (j * 4096))

module _ (own : ℕ → Bool) (k : Kernel) (d m p : ℕ) (xs : List ℕ) (k1 : Kernel)
    (s : IsSpace own k d (p ∷ xs)) (l : FreeList k (p ∷ xs)) (a : Allocated false p xs k k1) where
  same_mem : k1.mem ≡ k.mem
  same_mem = fun_ext (λ b. ground (arith, a.contents b))

  space_left : IsSpace own k1 d xs
  space_left =
      IsSpace-free own k k1 d (p ∷ xs) xs s a.npages same_mem (ground (arith, s.dir_used))
        (λ i h there. ground (arith, s.table_used i h there))

  -- The page that has been taken off the list is no page of the space.
  round-Filled :
      (k2 : Kernel)
      → m < 2 ^ 20
      → own (dir_of m) ≡ true
      → entry k.mem d (m * 4096) ≡ 0
      → page_alloc false k ≡ ok (some p) k1
      → Inserted own k1 d (m * 4096) p 6 xs k2
      → (free2 : List ℕ) × IsSpace own k2 d free2
        × FreeList k2 free2
        × (entry k1.mem d (m * 4096) % 2 ≡ 0 → OneTaken k1 d (m * 4096) xs free2)
      → (free2 : List ℕ) × Filled own k d m p (p ∷ xs) k2 free2
  unfolding alloc_page_at
  round-Filled k2 lt mine zero_entry got r (free2, space2, list2, taken) =
      let gone : entry k1.mem d (m * 4096) % 2 ≡ 0 =
        ap (λ (f : ℕ → ℕ). entry f d (m * 4096) % 2) same_mem ∙ ap (λ t. t % 2) zero_entry in
      let (room, no_room, still) = taken gone in
      (
        free2,
        record {
          run = rw got (rw r.run refl);
          space = space2;
          list = list2;
          npages = r.npages ∙ a.npages;
          there = r.has_table.there;
          room = omega (arith, room);
          no_room = λ there.
              let e = no_room (subst (λ f. Present f d (dir_of m)) (sym same_mem) there) in
              omega (arith, ap (λ ys. length ys) e);
          was_free = ground arith;
          taken = still p l.3;
          counted = ground (arith, r.untouched gone p l.3, a.refs p, l.2);
          pages = λ b h. ground (arith, r.untouched gone b, a.others b);
          still = λ b h. still b (ground arith);
          entries = λ j hj own_j. elim (ℕ_discrete j m) [
            | yes e ↦
                let here : entry k2.mem d (j * 4096) ≡ p * 4096 + 7 =
                  subst (λ t. entry k2.mem d (t * 4096) ≡ p * 4096 + 7) (sym e) r.mapped in
                ground arith
            | no ne ↦ ground (
              arith,
              r.others (j * 4096) own_j (λ (same : SamePage (m * 4096) (j * 4096)). omega arith),
              ap (λ (f : ℕ → ℕ). entry f d (j * 4096)) same_mem,
            )
          ];
        },
      )

-- One page at an unmapped address, with free pages for it and, if need be, for its table.
alloc_page_at-Filled :
    (own : ℕ → Bool) (k : Kernel) (d m : ℕ) (free : List ℕ)
    → m < 2 ^ 20
    → own (dir_of m) ≡ true
    → IsSpace own k d free
    → FreeList k free
    → entry k.mem d (m * 4096) ≡ 0
    → (Present k.mem d (dir_of m) × (1 ≤ length free)) ⊎ (2 ≤ length free)
    → (p : ℕ) × (k' : Kernel) × (free' : List ℕ) × Filled own k d m p free k' free'
alloc_page_at-Filled own k d m [] lt mine s l zero_entry enough = absurd (ground arith)
alloc_page_at-Filled own k d m (p ∷ xs) lt mine s l zero_entry enough =
    let (k1, got, a) = page_alloc-Allocated k false p xs l s.small in
    let mem = same_mem own k d m p xs k1 s l a in
    let space = space_left own k d m p xs k1 s l a in
    let clear : entry k1.mem d (m * 4096) % 2 ≡ 0 =
      ap (λ (f : ℕ → ℕ). entry f d (m * 4096) % 2) mem ∙ ap (λ t. t % 2) zero_entry in
    let room : Present k1.mem d (dir_of m) ⊎ (xs ≢ []) = elim enough [
      | inl (there, _) ↦ inl (subst (λ f. Present f d (dir_of m)) (sym mem) there)
      | inr two ↦ inr (nonempty xs (omega (arith, two)))
    ] in
    let (k2, r) =
      page_insert_lem own k1 d (m * 4096) p 6 xs mine space a.free room (inl clear)
        (omega (arith, l.1, s.small)) (omega arith) l.3 (omega (arith, a.refs p, l.2)) in
    let spared : Spared own k1 d (m * 4096) = (
      unreferenced (entry k1.mem d (m * 4096)) d clear,
      λ i hi there. unreferenced (entry k1.mem d (m * 4096)) (table k1.mem d i) clear,
    ) in
    let (free2, filled) =
      round-Filled own k d m p xs k1 s l a k2 lt mine zero_entry got r (r.kept spared) in
    (p, k2, free2, filled)
  where
    unreferenced : (e b : ℕ) → e % 2 ≡ 0 → refs_to b e ≡ 0
    unreferenced e b h = ground arith

-- What n rounds leave: page `start + i` is mapped, for the user and for writing, to page `page i`, a
-- different one for each i, which was free and is not any more; every other page of the part `own`
-- is as it was.
pub record Backed (own : ℕ → Bool) (k : Kernel) (d start n : ℕ) (free : List ℕ) (k' : Kernel)
    (free' : List ℕ) : Type 0 where
  pub run : alloc_pages (page_at d) (start * 4096) n k ≡ ok tt k'
  pub space : IsSpace own k' d free'
  pub list : FreeList k' free'
  pub npages : k'.npages ≡ k.npages
  pub room : length free ≤ length free' + n + span start n
  pub last : (n ≡ 0) ⊎ Present k'.mem d (dir_of (start + n - 1))
  pub page : ℕ → ℕ
  pub was_free : (i : ℕ) → i < n → has (page i) free ≡ true
  pub taken : (i : ℕ) → i < n → has (page i) free' ≡ false
  pub counted : (i : ℕ) → i < n → (k'.pages (page i)).pp_ref ≡ 1
  pub distinct : (i j : ℕ) → i < n → j < n → page i ≡ page j → i ≡ j
  pub pages : (a : ℕ) → has a free ≡ false → k'.pages a ≡ k.pages a
  pub still : (a : ℕ) → has a free ≡ false → has a free' ≡ false
  pub entries :
      (j : ℕ)
      → j < 2 ^ 20
      → own (dir_of j) ≡ true
      → entry k'.mem d (j * 4096) ≡ (
          if leb start j && ltb j (start + n)
          then page (j - start) * 4096 + 7
          else entry k.mem d (j * 4096))

module _ (own : ℕ → Bool) (k : Kernel) (d start : ℕ) (free : List ℕ) where
  Backed-suc :
      (n p : ℕ) (k1 k2 : Kernel) (free1 free2 : List ℕ)
      → Backed own k d start n free k1 free1
      → Filled own k1 d (start + n) p free1 k2 free2
      → Backed own k d start (suc n) free k2 free2
  unfolding alloc_pages
  Backed-suc n p k1 k2 free1 free2 b f = record {
    run = rw b.run (ap (λ va. alloc_page_at (page_at d) va k1) (omega arith) ∙ f.run);
    space = f.space;
    list = f.list;
    npages = f.npages ∙ b.npages;
    room = room;
    last = inr (subst (λ m. Present k2.mem d (dir_of m)) (omega arith) f.there);
    page = update b.page n p;
    was_free = λ i h. ground (arith, b.was_free i, f.was_free, b.still p);
    taken = λ i h. ground (arith, f.taken, f.still (b.page i), b.taken i);
    counted = λ i h. ground (arith, f.counted, f.pages (b.page i), b.counted i, b.taken i);
    distinct = λ i j hi hj e. ground (arith, b.distinct i j, f.was_free, b.taken i, b.taken j);
    pages = λ a h. f.pages a (b.still a h) ∙ b.pages a h;
    still = λ a h. f.still a (b.still a h);
    entries = λ j hj own_j. ground (arith, f.entries j hj own_j, b.entries j hj own_j);
  }
    where
      room : length free ≤ length free2 + suc n + span start (suc n)
      room = elim (next_table k1.mem d start n b.last) [
        | inl there ↦ omega (arith, b.room, f.no_room there, span_mono start n)
        | inr one ↦ omega (arith, b.room, f.room, one)
      ]

  pub alloc_pages-Backed :
      (n : ℕ)
      → start + n ≤ 2 ^ 20
      → ((i : ℕ) → i < n → own (dir_of (start + i)) ≡ true)
      → ((i : ℕ) → i < n → entry k.mem d ((start + i) * 4096) ≡ 0)
      → IsSpace own k d free
      → FreeList k free
      → n + span start n ≤ length free
      → (k' : Kernel) × (free' : List ℕ) × Backed own k d start n free k' free'
  unfolding alloc_pages
  alloc_pages-Backed zero lt mine clear s l enough = (
    k,
    free,
    record {
      run = refl;
      space = s;
      list = l;
      npages = refl;
      room = omega arith;
      last = inl refl;
      page = λ i. 0;
      was_free = λ i h. elim h [ ];
      taken = λ i h. elim h [ ];
      counted = λ i h. elim h [ ];
      distinct = λ i j h. elim h [ ];
      pages = λ a h. refl;
      still = λ a h. h;
      entries = λ j hj own_j. ground arith;
    },
  )
  alloc_pages-Backed (suc n) lt mine clear s l enough =
      let (k1, free1, b) =
        alloc_pages-Backed n (omega arith) (λ i h. mine i (omega arith))
          (λ i h. clear i (omega arith)) s l (omega (arith, span_mono start n)) in
      let mine_n = mine n (omega arith) in
      let still_clear : entry k1.mem d ((start + n) * 4096) ≡ 0 =
        ground (arith, b.entries (start + n) (omega arith) mine_n, clear n (omega arith)) in
      let room : (Present k1.mem d (dir_of (start + n)) × (1 ≤ length free1)) ⊎ (2 ≤ length free1) =
        elim (next_table k1.mem d start n b.last) [
          | inl there ↦ inl (there, omega (arith, b.room, span_mono start n))
          | inr one ↦ inr (omega (arith, b.room, one))
        ] in
      let (p, k2, free2, f) =
        alloc_page_at-Filled own k1 d (start + n) free1 (omega arith) mine_n b.space b.list
          still_clear room in
      (k2, free2, Backed-suc n p k1 k2 free1 free2 b f)

first_page : (va : ℕ) → region_start va ≡ va / 4096 * 4096
unfolding region_start rounddown
first_page va = omega arith

rounds :
    (va len : ℕ)
    → va + len + 8192 < 2 ^ 32
    → (region_end va len - region_start va) / pgsize ≡ (len + 4095) / 4096
unfolding region_end region_start rounddown roundup
rounds va len fits = omega arith

-- For a range that ends 8192 bytes before the end of the address space, the loop of region_alloc
-- starts at the page of `va` and has as many rounds as `len` has pages, rounded up.
region_alloc_rounds :
    (pgdir va len : ℕ)
    → va + len + 8192 < 2 ^ 32
    → region_alloc pgdir va len ≡ alloc_pages pgdir (va / 4096 * 4096) ((len + 4095) / 4096)
unfolding region_alloc
region_alloc_rounds pgdir va len fits = rw (rounds va len fits) (rw (first_page va) refl)

-- For a range that ends 8192 bytes before the end of the address space, if none of the pages that
-- region_alloc goes through is mapped, all lie in the part `own` of a well-formed space, and there
-- are as many free pages as these and as the tables that they reach into, region_alloc does not
-- panic. It maps each of the pages, for the user and for writing, to a page of its own that was free,
-- is not any more, and has one reference; it changes no other entry of that part and no page that was
-- not free, and leaves space and free list well formed.
pub region_alloc-Backed :
    (own : ℕ → Bool) (k : Kernel) (d va len : ℕ) (free : List ℕ)
    → va + len + 8192 < 2 ^ 32
    → ((i : ℕ) → i < (len + 4095) / 4096 → own (dir_of (va / 4096 + i)) ≡ true)
    → ((i : ℕ) → i < (len + 4095) / 4096 → entry k.mem d ((va / 4096 + i) * 4096) ≡ 0)
    → IsSpace own k d free
    → FreeList k free
    → (len + 4095) / 4096 + span (va / 4096) ((len + 4095) / 4096) ≤ length free
    → (k' : Kernel) × (free' : List ℕ) × (region_alloc (page_at d) va len k ≡ ok tt k')
      × Backed own k d (va / 4096) ((len + 4095) / 4096) free k' free'
region_alloc-Backed own k d va len free fits mine clear s l enough =
    let (k', free', b) =
      alloc_pages-Backed own k d (va / 4096) free ((len + 4095) / 4096) (omega arith) mine clear s l
        enough in
    (k', free', ap (λ c. c k) (region_alloc_rounds (page_at d) va len fits) ∙ b.run, b)
