-- ===== src/MemInit/Check/Listed.antt =====
-- check_page_free_list of kern/pmap.c. The loops follow pp_link for at most `npages` pages, which is
-- enough for a list of distinct pages. A pointer into `pages` is an index, so that the assertions on
-- its alignment and that it is not below the array hold by themselves.
use jos_miles.Prelude.{
  ℕ, zero, suc, ◌+◌, ◌-◌, Bool, ◌&&◌, not, Option, none, some, ltb, leb, ◌==◌, if◌then◌else◌,
}
use jos_miles.Mmu.{pgsize, pdx, iophysmem, extphysmem, npdentries}
use jos_miles.Kernel.{PageInfo, Cmd, ok, pure, panic, ◌>>=◌, ◌>>◌, set_link, no_free_list}
use jos_miles.PageAlloc.{page2pa, page2kva, boot_alloc}
use jos_miles.MemInit.Check.{assert}

-- The two lists `pp1` and `pp2`, and the pages whose links `tp` points to; at first it points to the
-- variables.
pub record Split : Type 0 where
  pub pp1 : Option ℕ
  pub pp2 : Option ℕ
  pub tp_0 : Option ℕ
  pub tp_1 : Option ℕ
  pub pages : ℕ → PageInfo

-- `*tp[0] = v` and `*tp[1] = v`
unfoldable pub put_low : Option ℕ → Split → Split
put_low v s = elim s.tp_0 [
  | none ↦ record s { pp1 = v }
  | some p ↦ record s { pages = set_link s.pages p v }
]

unfoldable pub put_high : Option ℕ → Split → Split
put_high v s = elim s.tp_1 [
  | none ↦ record s { pp2 = v }
  | some p ↦ record s { pages = set_link s.pages p v }
]

unfoldable pub split_round : ℕ → ℕ → Split → Split
unfolding put_low put_high page2pa
split_round pdx_limit pp s =
    if leb pdx_limit (pdx (page2pa pp))
    then record (put_high (some pp) s) { tp_1 = some pp }
    else record (put_low (some pp) s) { tp_0 = some pp }

unfoldable pub split_loop : ℕ → ℕ → Option ℕ → Split → Split
unfolding split_round
split_loop pdx_limit zero pp s = s
split_loop pdx_limit (suc n) none s = s
split_loop pdx_limit (suc n) (some p) s =
    let s' = split_round pdx_limit p s in split_loop pdx_limit n (s'.pages p).pp_link s'

-- Pages with lower addresses move to the front of the free list.
unfoldable pub low_first : ℕ → Cmd (Unit {0})
unfolding split_loop put_low put_high
low_first pdx_limit k =
    let start : Split = record {
      pp1 = none;
      pp2 = none;
      tp_0 = none;
      tp_1 = none;
      pages = k.pages;
    } in
    let s1 = put_high none (split_loop pdx_limit k.npages k.page_free_list start) in
    let s2 = put_low s1.pp2 s1 in ok tt (record k { page_free_list = s2.pp1; pages = s2.pages })

-- `memset(a, 0x97, 128)` on words
abbrev pub poison : ℕ → Cmd (Unit {0})
poison a k =
    ok tt (record k { mem = λ b. if leb a b && ltb b (a + 128) then 0x9797_9797 else k.mem b })

unfoldable pub poison_pages : ℕ → ℕ → Option ℕ → Cmd (Unit {0})
unfolding page2kva
poison_pages pdx_limit zero pp = pure tt
poison_pages pdx_limit (suc n) none = pure tt
poison_pages pdx_limit (suc n) (some p) = do
  if ltb (pdx (page2pa p)) pdx_limit then (do kva ← page2kva p; poison kva) else pure tt
  next ← λ k. ok (k.pages p).pp_link k
  poison_pages pdx_limit n next

-- What is asserted of a page on the list.
unfoldable pub check_listed : ℕ → ℕ → Cmd (Unit {0})
unfolding page2pa page2kva
check_listed first_free_page p = do
  npages ← λ k. ok k.npages k
  assert (ltb p npages)
  assert (not (page2pa p == 0))
  assert (not (page2pa p == iophysmem))
  assert (not (page2pa p == extphysmem - pgsize))
  assert (not (page2pa p == extphysmem))
  if ltb (page2pa p) extphysmem
      then pure tt
      else do kva ← page2kva p; assert (leb first_free_page kva)

-- The numbers of pages of base memory and of extended memory.
unfoldable pub count_listed : ℕ → ℕ → Option ℕ → ℕ → ℕ → Cmd (ℕ × ℕ)
unfolding check_listed
count_listed first_free_page zero pp basemem extmem = pure (basemem, extmem)
count_listed first_free_page (suc n) none basemem extmem = pure (basemem, extmem)
count_listed first_free_page (suc n) (some p) basemem extmem = do
  check_listed first_free_page p
  next ← λ k. ok (k.pages p).pp_link k
  let base = ltb (page2pa p) extphysmem
  count_listed first_free_page n next (if base then basemem + 1 else basemem)
      (if base then extmem else extmem + 1)

-- `if (!page_free_list) panic(...)`
unfoldable pub nonempty_list : Option ℕ → Cmd (Unit {0})
nonempty_list none = panic no_free_list
nonempty_list (some p) = pure tt

unfoldable pub check_page_free_list : ℕ → Bool → Cmd (Unit {0})
unfolding nonempty_list low_first poison_pages count_listed boot_alloc
check_page_free_list kend only_low_memory = do
  let pdx_limit = if only_low_memory then 1 else npdentries
  first ← λ k. ok k.page_free_list k
  nonempty_list first
  if only_low_memory then low_first pdx_limit else pure tt
  npages ← λ k. ok k.npages k
  head ← λ k. ok k.page_free_list k
  poison_pages pdx_limit npages head
  first_free_page ← boot_alloc kend 0
  (basemem, extmem) ← count_listed first_free_page npages head 0 0
  assert (ltb 0 basemem)
  assert (ltb 0 extmem)
