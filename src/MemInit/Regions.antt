-- ===== src/MemInit/Regions.antt =====
-- Several regions mapped one after the other: a later one overrides an earlier one.
use jos_miles.Prelude.{
  ℕ, ◌+◌, ◌-◌, ◌*◌, ◌^◌, ◌≤◌, ◌<◌, ◌≡◌, ◌/◌, ◌%◌, ◌⊎◌, inl, inr, refl, ap, ◌∙◌, Bool, true, false,
  ◌&&◌, List, [], ◌∷◌, ◌++◌, arith, length, ltb, leb, if◌then◌else◌,
}
use jos_miles.Kernel.{Kernel, Cmd, ok, pure, ◌>>◌}
use jos_miles.PageAlloc.FreeList.{has, FreeList}
use jos_miles.PageTable.{map_pages}
use jos_miles.PageTable.Space.{page_at, pde, entry, IsSpace}
use jos_miles.PageTable.Reserve.{NewTables, NewTables-append, taken-append}
use jos_miles.PageTable.Region.{dir_of, map_entry, span, map_pages-Mapped}

-- `n` pages from page `start` on are mapped to the pages from `q` on.
pub record Region : Type 0 where
  pub start : ℕ
  pub n : ℕ
  pub q : ℕ
  pub perm : ℕ

unfoldable pub map_regions : ℕ → List Region → Cmd (Unit {0})
map_regions d [] = pure tt
map_regions d (r ∷ rs) =
    map_pages (page_at d) (r.start * 4096) (r.q * 4096) r.perm r.n >> map_regions d rs

-- The tables that the regions reach into, each region by itself.
abbrev pub spans : List Region → ℕ
spans [] = 0
spans (r ∷ rs) = span r.start r.n + spans rs

-- What the regions make of the entry `e` of page j.
abbrev pub mapped_by : List Region → ℕ → ℕ → ℕ
mapped_by [] j e = e
mapped_by (r ∷ rs) j e =
    mapped_by rs j
      (if leb r.start j && ltb j (r.start + r.n) then map_entry (r.q + (j - r.start)) r.perm else e)

abbrev pub Fits : (ℕ → Bool) → Region → Type 0
Fits own r =
    (r.perm < 4096)
    × (r.start + r.n ≤ 2 ^ 20)
    × ((i : ℕ) → i < r.n → own (dir_of (r.start + i)) ≡ true)

abbrev pub AllFit : (ℕ → Bool) → List Region → Type 0
AllFit own [] = Unit {0}
AllFit own (r ∷ rs) = Fits own r × AllFit own rs

-- One of the regions reaches into directory entry i.
abbrev pub TouchedBy : List Region → ℕ → Type 0
TouchedBy [] i = ⊥
TouchedBy (r ∷ rs) i = ((r.start / 1024 ≤ i) × (i * 1024 < r.start + r.n)) ⊎ TouchedBy rs i

pub record MappedAll (own : ℕ → Bool) (k : Kernel) (d : ℕ) (rs : List Region) (free : List ℕ)
    (k' : Kernel) (free' : List ℕ) : Type 0 where
  pub run : map_regions d rs k ≡ ok tt k'
  pub space : IsSpace own k' d free'
  pub list : FreeList k' free'
  pub npages : k'.npages ≡ k.npages
  pub taken : List ℕ
  pub order : free ≡ taken ++ free'
  pub new_tables : NewTables own k.mem d taken k'.mem
  pub room : length free ≤ length free' + spans rs
  pub pdes :
      (i : ℕ)
      → i < 1024
      → (pde k'.mem d i ≡ pde k.mem d i) ⊎ (TouchedBy rs i × (pde k'.mem d i % 8 ≡ 7))
  pub pages : (a : ℕ) → has a free ≡ false → k'.pages a ≡ k.pages a
  pub entries :
      (j : ℕ)
      → j < 2 ^ 20
      → own (dir_of j) ≡ true
      → entry k'.mem d (j * 4096) ≡ mapped_by rs j (entry k.mem d (j * 4096))

mapped_by-ap : (rs : List Region) (j : ℕ) {e e' : ℕ} → e ≡ e' → mapped_by rs j e ≡ mapped_by rs j e'
mapped_by-ap rs j p = ap (mapped_by rs j) p

-- With enough free pages all regions are mapped.
pub map_regions-MappedAll :
    (own : ℕ → Bool) (k : Kernel) (d : ℕ) (rs : List Region) (free : List ℕ)
    → AllFit own rs
    → IsSpace own k d free
    → FreeList k free
    → spans rs ≤ length free
    → (k' : Kernel) × (free' : List ℕ) × MappedAll own k d rs free k' free'
unfolding map_regions
map_regions-MappedAll own k d [] free fit s l enough = (
  k,
  free,
  record {
    run = refl;
    space = s;
    list = l;
    npages = refl;
    taken = [];
    order = refl;
    new_tables = λ i h there. inl refl;
    room = omega arith;
    pdes = λ i h. inl refl;
    pages = λ a h. refl;
    entries = λ j hj own_j. refl;
  },
)
map_regions-MappedAll own k d (r ∷ rs) free (fit, fits) s l enough =
    let (k1, free1, m) =
      map_pages-Mapped own k d r.start r.q r.perm free fit.0 r.n fit.1 fit.2 s l (omega arith) in
    let (k2, free2, ms) =
      map_regions-MappedAll own k1 d rs free1 fits m.space m.list (omega (arith, m.room)) in
    (
      k2,
      free2,
      record {
        run = rw m.run ms.run;
        space = ms.space;
        list = ms.list;
        npages = ms.npages ∙ m.npages;
        taken = m.taken ++ ms.taken;
        order = taken-append m.taken ms.taken free2 m.order ms.order;
        new_tables =
            NewTables-append own k.mem k1.mem k2.mem d m.taken ms.taken m.new_tables ms.new_tables;
        room = omega (arith, m.room, ms.room);
        pdes = λ i h. elim (ms.pdes i h) [
          | inr (touched, bits) ↦ inr (inr touched, bits)
          | inl same ↦ elim (m.pdes i h) [
            | inl old ↦ inl (same ∙ old)
            | inr (lo, hi, bits) ↦ inr (inl (lo, hi), ap (λ v. v % 8) same ∙ bits)
          ]
        ];
        pages = λ a h. ms.pages a (m.still a h) ∙ m.pages a h;
        entries = λ j hj own_j. ms.entries j hj own_j ∙ mapped_by-ap rs j (m.entries j hj own_j);
      },
    )
