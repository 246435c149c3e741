-- ===== src/PageTable/Insert.antt =====
-- page_insert: the address is mapped as asked, and nothing else of the space changes.
use mathlib.Core.Path.{fun_ext, subst}
use jos_miles.Prelude.{
  ℕ, ap, sym, ◌+◌, ◌-◌, ◌*◌, ◌/◌, ◌%◌, ◌^◌, ◌<◌, ◌≡◌, ◌≢◌, ◌⊎◌, inl, inr, ◌∙◌, Bool, true, false,
  none, some, List, [], arith, length, ◌≤◌, ◌==◌, if◌then◌else◌, bit_or, zero-bit_or,
}
use jos_miles.Mmu.{pte_addr, pte_p}
use jos_miles.Mmu.Laws.{pte_addr_lem, bit_or-one, low_or}
use jos_miles.Errno.{Errno}
use jos_miles.Kernel.{Kernel, ok, set_ref, update}
use jos_miles.PageAlloc.{page2pa}
use jos_miles.PageAlloc.FreeList.{has, Chain-frame, Chain-unreferenced, FreeList}
use jos_miles.PageTable.{page_insert, page_lookup, incref}
use jos_miles.PageTable.Space.{
  page_at, pde, Present, table, dir_index, entry, entry_at, IsSpace, SamePage, entry-Present,
  entry-store_self, entry-store_ne, pde-store, IsSpace-store, IsSpace-free,
}
use jos_miles.PageTable.Walk.{pgdir_walk-no_mem}
use jos_miles.PageTable.Reserve.{Walked, walk_lem}
use jos_miles.PageTable.Remove.{HasTable, InUse, page_lookup-mapped}
use jos_miles.PageTable.Unmap.{Old, refs_to, remove-Removed}

-- `k2` is the state with the reference to `pp` counted.
abbrev with_ref : ℕ → Kernel → Kernel
with_ref pp k = record k { pages = set_ref k.pages pp (((k.pages pp).pp_ref + 1) % 2 ^ 16) }

pte_value :
    (pp perm : ℕ)
    → pp < 2 ^ 20
    → perm < 4096
    → bit_or (bit_or (pte_addr (page2pa pp)) perm) pte_p ≡ pp * 4096 + bit_or perm 1
unfolding page2pa
pte_value pp perm h hp =
    rw pte_addr_lem (ground (arith, low_or pp 0 perm, low_or pp perm 1, zero-bit_or perm))

-- The page that is mapped at `va` is neither the directory nor a table of the space.
abbrev pub Spared : (ℕ → Bool) → Kernel → ℕ → ℕ → Type 0
Spared own k d va =
    (refs_to d (entry k.mem d va) ≡ 0)
    × ((i : ℕ)
        → own i ≡ true
        → Present k.mem d i
        → refs_to (table k.mem d i) (entry k.mem d va) ≡ 0)

-- The free list where nothing was mapped before: at most a table's page leaves it.
abbrev pub OneTaken : Kernel → ℕ → ℕ → List ℕ → List ℕ → Type 0
OneTaken k d va free free' =
    (length free ≤ length free' + 1)
    × (Present k.mem d (dir_index va) → free' ≡ free)
    × ((a : ℕ) → has a free ≡ false → has a free' ≡ false)

-- What page_insert does when its table can be had: the entry of `va` names page `pp` with `perm` and
-- the present bit, the entries of all other user pages stay, `pp` gains the reference that the new
-- entry makes, and the page that was mapped before loses one. The space and the free list stay well
-- formed if that page is neither the directory nor a table.
pub record Inserted (own : ℕ → Bool) (k : Kernel) (d va pp perm : ℕ) (free : List ℕ) (k' : Kernel)
    : Type 0 where
  pub run : page_insert (page_at d) pp va perm k ≡ ok none k'
  pub npages : k'.npages ≡ k.npages
  pub has_table : HasTable k' d va
  pub mapped : entry k'.mem d va ≡ pp * 4096 + bit_or perm 1
  pub others :
      (va' : ℕ)
      → own (dir_index va') ≡ true
      → ¬ SamePage va va'
      → entry k'.mem d va' ≡ entry k.mem d va'
  pub refs :
      (a : ℕ)
      → has a free ≡ false
      → (k'.pages a).pp_ref + refs_to a (entry k.mem d va)
        ≡ (k.pages a).pp_ref + (if a == pp then 1 else 0)
  pub kept :
      Spared own k d va
      → (free' : List ℕ) × IsSpace own k' d free'
        × FreeList k' free'
        × (entry k.mem d va % 2 ≡ 0 → OneTaken k d va free free')
  pub untouched :
      entry k.mem d va % 2 ≡ 0
      → (a : ℕ) → has a free ≡ false
      → k'.pages a ≡ set_ref k.pages pp (((k.pages pp).pp_ref + 1) % 2 ^ 16) a

module _ (own : ℕ → Bool) (k : Kernel) (d va pp perm : ℕ) (user : own (dir_index va) ≡ true) where
  module _ (free : List ℕ) (k1 : Kernel) (free1 : List ℕ) (l : FreeList k free)
      (w : Walked own k d va free k1 free1) (out : has pp free ≡ false)
      (small : (k.pages pp).pp_ref < 2 ^ 16 - 1) where
    used_after : (q : ℕ) → InUse k q → (has q free ≡ false) × InUse (with_ref pp k1) q
    used_after q u =
        let held : has q free ≡ false =
          ground (arith, Chain-unreferenced k.npages k.pages k.page_free_list free q l) in
        let same = w.pages q held in
        let counted = w.pages pp out in
        (held, record { held = ground arith; fits = ground arith; unlinked = ground arith })

    Old-after : Old k d va → Old (with_ref pp k1) d va
    Old-after (inl gone) = inl (rw (w.entries va user) gone)
    Old-after (inr (there, lt, u)) = inr (
        rw (w.entries va user)
          (there, rw w.npages lt, (used_after (entry k.mem d va / 4096 % 2 ^ 20) u).1))

    refs_to_free : (a : ℕ) → Old k d va → has a free ≡ true → refs_to a (entry k.mem d va) ≡ 0
    refs_to_free a (inl gone) h = ground arith
    refs_to_free a (inr (there, lt, u)) h =
        ground (arith, (used_after (entry k.mem d va / 4096 % 2 ^ 20) u).0)

    -- The page that page_remove may have freed is no page of the space.
    still_used :
        (free' : List ℕ)
        → ((a : ℕ) → refs_to a (entry k.mem d va) ≡ 0 → has a free' ≡ has a free1)
        → Old k d va
        → Spared own k d va
        → (has d free' ≡ false)
          × ((i : ℕ) → own i ≡ true → Present k1.mem d i → has (table k1.mem d i) free' ≡ false)
    still_used free' same old spared = (
      same d spared.0 ∙ w.space.dir_used,
      λ i hi there.
          same (table k1.mem d i) (spared_table i hi there) ∙ w.space.table_used i hi there,
    )
      where
        spared_table :
            (i : ℕ)
            → own i ≡ true
            → Present k1.mem d i
            → refs_to (table k1.mem d i) (entry k.mem d va) ≡ 0
        spared_table i hi there = elim (w.tables i hi there) [
          | inl (before, e) ↦ rw e (spared.1 i hi before)
          | inr fresh ↦ refs_to_free (table k1.mem d i) old fresh
        ]

    insert-Inserted :
        Old k d va → pp < 2 ^ 20 → perm < 4096 → (k' : Kernel) × Inserted own k d va pp perm free k'
    unfolding page_insert incref
    insert-Inserted old hpp hperm =
        let k2 = with_ref pp k1 in
        let t2 : HasTable k2 d va = record {
          there = w.has_table.there;
          inside = w.has_table.inside;
          small = w.has_table.small;
        } in
        let (k3, r) = remove-Removed k2 d va t2 (Old-after old) in
        let v = pp * 4096 + bit_or perm 1 in
        let k' = record k3 { mem = update k3.mem (entry_at k1.mem d va) v } in
        let same : k'.mem ≡ update k1.mem (entry_at k1.mem d va) v =
          fun_ext (λ a. ground (arith, r.mem a)) in
        let kept : pde k'.mem d (dir_index va) ≡ pde k1.mem d (dir_index va) =
          ap (λ m. pde m d (dir_index va)) same
          ∙ pde-store own k1 d free1 w.space va v (dir_index va) user (omega arith)
              w.has_table.there in
        (
          k',
          record {
            run = rw w.walk (ground (arith, r.run, pte_value pp perm hpp hperm));
            npages = r.npages ∙ w.npages;
            has_table = record {
              there = ap (λ t. t % 2) kept ∙ w.has_table.there;
              inside =
                  subst (λ t. t / 4096 % 2 ^ 20 < k'.npages) (sym kept)
                    (rw r.npages w.has_table.inside);
              small = rw r.npages w.has_table.small;
            };
            mapped = rw same (entry-store_self own k1 d free1 w.space va v user w.has_table.there);
            others = λ va' h ne. rw same (
                entry-store_ne own k1 d free1 w.space va v va' user h w.has_table.there ne
                ∙ w.entries va' h);
            refs = λ a h. ground (arith, r.refs a, w.entries va user, w.pages a h, w.pages pp out);
            kept = λ spared.
                let list2 : FreeList k2 free1 =
                  Chain-frame k1.npages k1.page_free_list free1 w.list
                    (λ a i. ground (arith, w.still pp out)) in
                let (free', list', only, idle) = r.lists free1 list2 in
                let (dir, tables) =
                  still_used free' (λ a h. only a (rw (w.entries va user) h)) old spared in
                let space1 = IsSpace-store own k1 d free1 w.space va v user w.has_table.there in
                let stay = λ (i : ℕ) (hi : own i ≡ true).
                  pde-store own k1 d free1 w.space va v i user (w.space.bounded i hi)
                    w.has_table.there in
                (
                  free',
                  IsSpace-free own (record k1 { mem = update k1.mem (entry_at k1.mem d va) v }) k' d
                      free1 free' space1 r.npages same dir
                      (λ i hi there. ground (arith, stay i hi, tables i hi)),
                  list',
                  λ h.
                      let same_list : free' ≡ free1 = idle (rw (w.entries va user) h) in
                      (
                        rw same_list w.room,
                        λ there. same_list ∙ w.no_room there,
                        λ a held. rw same_list (w.still a held),
                      ),
                );
            untouched = λ h a held.
                let k3_k2 = r.idle (rw (w.entries va user) h) in
                ground
                  (arith, ap (λ (q : Kernel). q.pages a) k3_k2, w.pages a held, w.pages pp out);
          },
        )

-- Into a well-formed space, for an address in its part `own` that is unmapped or maps a page in use,
-- where the table is there or a page is free, page_insert of a page that is not free, with fewer than 2 ^ 16
-- - 1 references, and permissions below 4096, returns 0 with the effect that `Inserted` states.
pub page_insert_lem :
    (own : ℕ → Bool) (k : Kernel) (d va pp perm : ℕ) (free : List ℕ)
    → own (dir_index va) ≡ true
    → IsSpace own k d free
    → FreeList k free
    → Present k.mem d (dir_index va) ⊎ (free ≢ [])
    → Old k d va
    → pp < 2 ^ 20
    → perm < 4096
    → has pp free ≡ false
    → (k.pages pp).pp_ref < 2 ^ 16 - 1
    → (k' : Kernel) × Inserted own k d va pp perm free k'
page_insert_lem own k d va pp perm free user s l room old hpp hperm out small =
    let (k1, free1, w) = walk_lem own k d va free user s l room in
    insert-Inserted own k d va pp perm user free k1 free1 l w out small old hpp hperm

-- Where the table is missing and no page is free, page_insert returns -E_NO_MEM and changes nothing.
pub page_insert-no_mem :
    (k : Kernel) (d va pp perm : ℕ)
    → pde k.mem d (dir_index va) % 2 ≡ 0
    → k.page_free_list ≡ none
    → page_insert (page_at d) pp va perm k ≡ ok (some Errno.no_mem) k
unfolding page_insert
page_insert-no_mem k d va pp perm gone empty = rw (pgdir_walk-no_mem k d va gone empty)

entry_fields :
    (mem : ℕ → ℕ) (d va pp perm : ℕ)
    → entry mem d va ≡ pp * 4096 + bit_or perm 1
    → pp < 2 ^ 20
    → perm < 4096
    → (entry mem d va % 2 ≡ 1) × (entry mem d va / 4096 % 2 ^ 20 ≡ pp)
entry_fields mem d va pp perm e h hp = omega (arith, bit_or-one perm)

lookup_of_mapped :
    (k : Kernel) (d va pp perm : ℕ)
    → HasTable k d va
    → entry k.mem d va ≡ pp * 4096 + bit_or perm 1
    → pp < k.npages
    → perm < 4096
    → page_lookup (page_at d) va k ≡ ok (some pp, some (entry_at k.mem d va)) k
lookup_of_mapped k d va pp perm t e h hp =
    let (odd, page) = entry_fields k.mem d va pp perm e (omega (arith, t.small)) hp in
    page_lookup-mapped k d va t odd (rw page h)
    ∙ ap (λ q. ok (some q, some (entry_at k.mem d va)) k) page

-- Under the conditions of page_insert_lem, for a page in memory: page_insert returns 0, after
-- which page_lookup finds the page, and the entry with its permissions and the present bit.
pub page_lookup-page_insert :
    (own : ℕ → Bool) (k : Kernel) (d va pp perm : ℕ) (free : List ℕ)
    → own (dir_index va) ≡ true
    → IsSpace own k d free
    → FreeList k free
    → Present k.mem d (dir_index va) ⊎ (free ≢ [])
    → Old k d va
    → pp < k.npages
    → perm < 4096
    → has pp free ≡ false
    → (k.pages pp).pp_ref < 2 ^ 16 - 1
    → (k' : Kernel) × (e : ℕ) × (page_insert (page_at d) pp va perm k ≡ ok none k')
      × (page_lookup (page_at d) va k' ≡ ok (some pp, some e) k')
      × (k'.mem e ≡ pp * 4096 + bit_or perm 1)
page_lookup-page_insert own k d va pp perm free user s l room old hpp hperm out small =
    let (k', r) =
      page_insert_lem own k d va pp perm free user s l room old (omega arith) hperm out small in
    (
      k',
      entry_at k'.mem d va,
      r.run,
      lookup_of_mapped k' d va pp perm r.has_table r.mapped (rw r.npages hpp) hperm,
      sym (entry-Present k'.mem d va r.has_table.there) ∙ r.mapped,
    )
