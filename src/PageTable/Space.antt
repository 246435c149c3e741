-- ===== src/PageTable/Space.antt =====
-- An address space as a function: what a directory and its tables say of each address, and what
-- makes them well formed. A directory and a table are given by the number of their page.
use jos_miles.Prelude.{
  ℕ, ◌+◌, ◌*◌, ◌/◌, ◌%◌, ◌^◌, ◌≤◌, ◌<◌, ◌≡◌, ◌≢◌, false, Bool, true, ltb, ◌==◌, if◌then◌else◌, List,
  arith,
}
use jos_miles.Mmu.{kernbase}
use jos_miles.Kernel.{Kernel, update}
use jos_miles.PageAlloc.FreeList.{has}

-- The kernel virtual address of page p.
abbrev pub page_at : ℕ → ℕ
page_at p = p * 4096 + kernbase

-- Entry i of the directory in page d, whether it is present, and the page of its table.
abbrev pub pde : (ℕ → ℕ) → ℕ → ℕ → ℕ
pde mem d i = mem (page_at d + 4 * i)

abbrev pub Present : (ℕ → ℕ) → ℕ → ℕ → Type 0
Present mem d i = pde mem d i % 2 ≡ 1

abbrev pub table : (ℕ → ℕ) → ℕ → ℕ → ℕ
table mem d i = pde mem d i / 4096 % 2 ^ 20

-- Directory index and table index of an address.
abbrev pub dir_index : ℕ → ℕ
dir_index va = va / 2 ^ 22 % 1024

abbrev pub table_index : ℕ → ℕ
table_index va = va / 2 ^ 12 % 1024

-- The page table entry for `va`, 0 where there is no page table.
unfoldable pub entry : (ℕ → ℕ) → ℕ → ℕ → ℕ
entry mem d va =
    if pde mem d (dir_index va) % 2 == 1
    then mem (page_at (table mem d (dir_index va)) + 4 * table_index va)
    else 0

-- Entries below PDX(UTOP) are the environment's own.
abbrev pub user_pdes : ℕ
user_pdes = 955

-- The part of an environment's directory that is its own.
abbrev pub user_part : ℕ → Bool
user_part i = ltb i user_pdes

-- The directory, and the tables of its entries in the part `own`, lie in distinct pages of memory,
-- none of them free.
pub record IsSpace (own : ℕ → Bool) (k : Kernel) (d : ℕ) (free : List ℕ) : Type 0 where
  pub small : k.npages ≤ 2 ^ 16
  pub bounded : (i : ℕ) → own i ≡ true → i < 1024
  pub dir_in : d < k.npages
  pub dir_used : has d free ≡ false
  pub table_in : (i : ℕ) → own i ≡ true → Present k.mem d i → table k.mem d i < k.npages
  pub table_ne_dir : (i : ℕ) → own i ≡ true → Present k.mem d i → table k.mem d i ≢ d
  pub table_used : (i : ℕ) → own i ≡ true → Present k.mem d i → has (table k.mem d i) free ≡ false
  pub table_inj :
      (i j : ℕ)
      → own i ≡ true
      → own j ≡ true
      → Present k.mem d i
      → Present k.mem d j
      → table k.mem d i ≡ table k.mem d j
      → i ≡ j

-- The address of the page table entry for `va`, where there is a table.
abbrev pub entry_at : (ℕ → ℕ) → ℕ → ℕ → ℕ
entry_at mem d va = page_at (table mem d (dir_index va)) + 4 * table_index va

abbrev pub SamePage : ℕ → ℕ → Type 0
SamePage va va' = (dir_index va ≡ dir_index va') × (table_index va ≡ table_index va')

pub entry-Present :
    (mem : ℕ → ℕ) (d va : ℕ)
    → Present mem d (dir_index va)
    → entry mem d va ≡ mem (entry_at mem d va)
unfolding entry
entry-Present mem d va there = ground arith

pub entry-absent : (mem : ℕ → ℕ) (d va : ℕ) → pde mem d (dir_index va) % 2 ≡ 0 → entry mem d va ≡ 0
unfolding entry
entry-absent mem d va gone = ground arith

module _ (own : ℕ → Bool) (k : Kernel) (d : ℕ) (free : List ℕ) (s : IsSpace own k d free)
    (va v : ℕ) where
  abbrev stored : ℕ → ℕ
  stored = update k.mem (entry_at k.mem d va) v

  -- Writing the entry of one address sets that entry, leaves those of all other pages alone ...
  pub entry-store_self :
      own (dir_index va) ≡ true → Present k.mem d (dir_index va) → entry stored d va ≡ v
  unfolding entry
  entry-store_self h there = ground (arith, s.table_ne_dir (dir_index va))

  pub entry-store_ne :
      (va' : ℕ)
      → own (dir_index va) ≡ true
      → own (dir_index va') ≡ true
      → Present k.mem d (dir_index va)
      → ¬ SamePage va va'
      → entry stored d va' ≡ entry k.mem d va'
  unfolding entry
  entry-store_ne va' h h' there ne =
      ground (arith, s.table_ne_dir (dir_index va), s.table_inj (dir_index va) (dir_index va'), ne)

  -- ... and changes no directory entry.
  pub pde-store :
      (i : ℕ)
      → own (dir_index va) ≡ true
      → i < 1024
      → Present k.mem d (dir_index va)
      → pde stored d i ≡ pde k.mem d i
  pde-store i h hi there = ground (arith, s.table_ne_dir (dir_index va))

  -- The space stays well formed.
  pub IsSpace-store :
      own (dir_index va) ≡ true
      → Present k.mem d (dir_index va)
      → IsSpace own (record k { mem = stored }) d free
  IsSpace-store h there =
      let same = λ (i : ℕ) (hi : own i ≡ true). pde-store i h (s.bounded i hi) there in
      record {
        small = s.small;
        bounded = s.bounded;
        dir_in = s.dir_in;
        dir_used = s.dir_used;
        table_in = λ i hi p. ground (arith, same i hi, s.table_in i hi);
        table_ne_dir = λ i hi p. ground (arith, same i hi, s.table_ne_dir i hi);
        table_used = λ i hi p. ground (arith, same i hi, s.table_used i hi);
        table_inj = λ i j hi hj p p' e. ground (arith, same i hi, same j hj, s.table_inj i j hi hj);
      }

-- What is well formed depends only on memory, its size, and which of the space's pages are free.
pub IsSpace-free :
    (own : ℕ → Bool) (k k' : Kernel) (d : ℕ) (free free' : List ℕ)
    → IsSpace own k d free
    → k'.npages ≡ k.npages
    → k'.mem ≡ k.mem
    → has d free' ≡ false
    → ((i : ℕ) → own i ≡ true → Present k.mem d i → has (table k.mem d i) free' ≡ false)
    → IsSpace own k' d free'
IsSpace-free own k k' d free free' s size mem dir tables = record {
  small = rw size s.small;
  bounded = s.bounded;
  dir_in = rw size s.dir_in;
  dir_used = dir;
  table_in = rw mem (rw size s.table_in);
  table_ne_dir = rw mem s.table_ne_dir;
  table_used = rw mem tables;
  table_inj = rw mem s.table_inj;
}
