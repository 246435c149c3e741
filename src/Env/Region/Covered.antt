-- ===== src/Env/Region/Covered.antt =====
-- region_alloc: which bytes of the region are backed.
use mathlib.Core.Path.{subst}
use jos_miles.Prelude.{
  ℕ, ◌+◌, ◌-◌, ◌*◌, ◌/◌, ◌%◌, ◌^◌, ◌≤◌, ◌<◌, ◌≡◌, ◌↔◌, Bool, true, List, arith, length, leb, ltb,
  ◌&&◌, if◌then◌else◌,
}
use jos_miles.Kernel.{Kernel, ok}
use jos_miles.PageAlloc.FreeList.{FreeList}
use jos_miles.PageTable.Space.{page_at, entry, IsSpace}
use jos_miles.PageTable.Region.{dir_of, span}
use jos_miles.Env.Region.{region_alloc}
use jos_miles.Env.Region.Backed.{region_alloc-Backed}

-- The pages of `len` bytes, rounded up.
abbrev pub rounds_of : ℕ → ℕ
rounds_of len = (len + 4095) / 4096

-- The page of byte b of the region.
abbrev pub page_of : ℕ → ℕ → ℕ
page_of va b = (va + b) / 4096

mapped_iff :
    (base n i o q e e0 : ℕ)
    → e ≡ (if leb base (base + i) && ltb (base + i) (base + n) then q * 4096 + 7 else e0)
    → e0 ≡ 0
    → i ≡ o / 4096
    → (e % 2 ≡ 1) ↔ (o < n * 4096)
mapped_iff base n i o q e e0 found clear at = ground arith

-- For a range that ends 8192 bytes before the end of the address space, if none of its pages is
-- mapped, all lie in the part `own` of a well-formed space, and there are as many free pages as
-- region_alloc needs, region_alloc does not panic, and afterwards a byte of the range is mapped exactly
-- if it stands within `len`, rounded up to pages, of the start of the first page: the bytes behind that
-- stay unmapped.
pub region_alloc_covers_iff :
    (own : ℕ → Bool) (k : Kernel) (d va len : ℕ) (free : List ℕ)
    → va + len + 8192 < 2 ^ 32
    → ((i : ℕ) → i ≤ rounds_of len → own (dir_of (va / 4096 + i)) ≡ true)
    → ((i : ℕ) → i ≤ rounds_of len → entry k.mem d ((va / 4096 + i) * 4096) ≡ 0)
    → IsSpace own k d free
    → FreeList k free
    → rounds_of len + span (va / 4096) (rounds_of len) ≤ length free
    → (k' : Kernel) × (region_alloc (page_at d) va len k ≡ ok tt k')
      × ((b : ℕ)
          → b < len
          → (entry k'.mem d (page_of va b * 4096) % 2 ≡ 1) ↔ (va % 4096 + b < rounds_of len * 4096))
region_alloc_covers_iff own k d va len free fits mine clear s l enough =
    let (k', free', run, r) =
      region_alloc-Backed own k d va len free fits (λ i h. mine i (omega arith))
        (λ i h. clear i (omega arith)) s l enough in
    (
      k',
      run,
      λ b h.
          let i = page_of va b - va / 4096 in
          let e : va / 4096 + i ≡ page_of va b = omega arith in
          let before = clear i (omega arith) in
          let after = r.entries (va / 4096 + i) (omega arith) (mine i (omega arith)) in
          subst
            (λ (j : ℕ).
              (entry k'.mem d (j * 4096) % 2 ≡ 1) ↔ (va % 4096 + b < rounds_of len * 4096))
            e
            (mapped_iff (va / 4096) (rounds_of len) i (va % 4096 + b)
              (r.page (va / 4096 + i - va / 4096)) (entry k'.mem d ((va / 4096 + i) * 4096))
              (entry k.mem d ((va / 4096 + i) * 4096)) after before (omega arith)),
    )
