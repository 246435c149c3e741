-- ===== src/Monitor/Loop.antt =====
-- The loop of showmappings over the pages of a range.
use jos_miles.Prelude.{
  ℕ, zero, suc, ◌+◌, ◌-◌, ◌*◌, ◌/◌, ◌%◌, ◌^◌, ◌≤◌, ◌<◌, ◌≡◌, refl, arith, true, none, some, List,
  [], ◌∷◌, leb,
}
use jos_miles.Mmu.{u32, pgsize, rounddown}
use jos_miles.Kernel.{Kernel, ok}
use jos_miles.PageTable.Space.{page_at}
use jos_miles.CString.{Bytes}
use jos_miles.Monitor.{Print, header, range, for_each, mapping_entry, read_range, mon_showmappings}
use jos_miles.Monitor.Entries.{shown, IsWalkable, mapping_entry-shown}

-- What is shown of n pages from page m on.
pub shown_pages : Kernel → ℕ → ℕ → ℕ → List Print
shown_pages k d m zero = []
shown_pages k d m (suc n) = shown k.mem d (m * 4096) ∷ shown_pages k d (m + 1) n

module _ (k : Kernel) (d : ℕ) (s : IsWalkable k d) where
  all_pages :
      (n m hi fuel : ℕ)
      → hi < 2 ^ 32 - 4096
      → hi / 4096 + 1 ≡ m + n
      → n < fuel
      → for_each (mapping_entry (page_at d)) pgsize (m * 4096) hi fuel k
        ≡ ok (some (shown_pages k d m n)) k
  unfolding for_each shown_pages
  all_pages n m hi zero below end enough = absurd (omega arith)
  all_pages zero m hi (suc fuel) below end enough = ground arith
  all_pages (suc n) m hi (suc fuel) below end enough =
      let more : leb (m * 4096) hi ≡ true = ground arith in
      let next : u32 (m * 4096 + pgsize) ≡ (m + 1) * 4096 = omega arith in
      rw (more, next)
        (rw (mapping_entry-shown k d (m * 4096) s)
          (rw (all_pages n (m + 1) hi fuel below (omega arith) (omega arith)) refl))

  endless :
      (fuel m hi : ℕ)
      → m < 2 ^ 20
      → 2 ^ 32 - 4096 ≤ hi
      → for_each (mapping_entry (page_at d)) pgsize (m * 4096) hi fuel k ≡ ok none k
  unfolding for_each
  endless zero m hi lt top = refl
  endless (suc fuel) m hi lt top =
      let more : leb (m * 4096) hi ≡ true = ground arith in
      let next : u32 (m * 4096 + pgsize) ≡ (m + 1) % 2 ^ 20 * 4096 = omega arith in
      rw (more, next)
        (rw (mapping_entry-shown k d (m * 4096) s)
          (rw (endless fuel ((m + 1) % 2 ^ 20) hi (omega arith) top) refl))

rounddown_page : (a : ℕ) → rounddown a pgsize ≡ a / 4096 * 4096
unfolding rounddown
rounddown_page a = omega arith

-- Where the arguments give the range from lo to hi, hi lies below the last page of the address
-- space, and the directory's page tables lie in memory, showmappings prints the header and then for
-- each page that the range touches, in order, what `shown` says of it, and changes nothing, with fuel
-- above the number of these pages.
pub mon_showmappings-shown :
    (k : Kernel) (d lo hi n fuel : ℕ) (mem : Bytes) (argv : List ℕ)
    → IsWalkable k d
    → read_range mem argv fuel ≡ some (range lo hi)
    → hi < 2 ^ 32 - 4096
    → hi / 4096 + 1 ≡ lo / 4096 + n
    → n < fuel
    → mon_showmappings (page_at d) mem argv fuel k
      ≡ ok (some (header ∷ shown_pages k d (lo / 4096) n)) k
unfolding mon_showmappings
mon_showmappings-shown k d lo hi n fuel mem argv s args below end enough =
    rw (args, rounddown_page lo) (rw (all_pages k d s n (lo / 4096) hi fuel below end enough) refl)

-- Where the range ends in the last page of the address space, showmappings never comes to an end: its
-- address wraps around, so no fuel is enough.
pub mon_showmappings-endless :
    (k : Kernel) (d lo hi fuel : ℕ) (mem : Bytes) (argv : List ℕ)
    → IsWalkable k d
    → read_range mem argv fuel ≡ some (range lo hi)
    → lo < 2 ^ 32
    → 2 ^ 32 - 4096 ≤ hi
    → mon_showmappings (page_at d) mem argv fuel k ≡ ok none k
unfolding mon_showmappings
mon_showmappings-endless k d lo hi fuel mem argv s args small top =
    rw (args, rounddown_page lo) (rw (endless k d s fuel (lo / 4096) hi (omega arith) top) refl)
