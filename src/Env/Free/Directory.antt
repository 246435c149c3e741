-- ===== src/Env/Free/Directory.antt =====
-- free_pdes: the tables of a directory are emptied and given back, one after the other.
use mathlib.Core.Path.{subst}
use native.Mathlib.Nat.{le_trans}
use jos_miles.Prelude.{
  ℕ, zero, suc, ◌+◌, ◌*◌, ◌/◌, ◌%◌, ◌^◌, ◌≤◌, ◌<◌, ◌≡◌, ◌≢◌, refl, sym, ap, ◌∙◌, false, arith, List,
  ◌==◌, if◌then◌else◌, bit_and, ℕ_discrete,
}
use jos_miles.Mmu.{pte_p, pte_addr, nptentries}
use jos_miles.Mmu.Laws.{pte_addr_lem, bit_and-one}
use jos_miles.Kernel.{Kernel, ok, update}
use jos_miles.PageAlloc.{kaddr, pa2page, page_decref}
use jos_miles.PageTable.Space.{page_at, pde, Present, table, user_pdes, user_part, IsSpace}
use jos_miles.PageTable.Walk.{kaddr_lem}
use jos_miles.PageTable.Remove.{after_decref, pa2page_lem, page_decref_lem, mem-after_decref}
use jos_miles.PageTable.Released.{
  Tidy, Released, Released-none, Released-then, Released-same, Tidy-InUse, decref-Released,
}
use jos_miles.Env.Switch.{free_ptes, free_pde, free_pdes}
use jos_miles.Env.Free.Table.{word, table_refs, in_page_of, Emptied, IsTable, free_ptes-Emptied}

-- The references of directory entry i to page a: those of its table, and the one to the table.
unfoldable pub pde_refs : (ℕ → ℕ) → ℕ → ℕ → ℕ → ℕ
pde_refs mem d a i =
    if pde mem d i % 2 == 1
    then table_refs mem (table mem d i) a 1024 + (if a == table mem d i then 1 else 0)
    else 0

-- Those of the first n entries.
unfoldable pub dir_refs : (ℕ → ℕ) → ℕ → ℕ → ℕ → ℕ
dir_refs mem d a zero = 0
dir_refs mem d a (suc n) = dir_refs mem d a n + pde_refs mem d a n

-- A well-formed space in a memory whose pages are counted, with all mapped pages in memory.
pub record Countable (k : Kernel) (d : ℕ) (free : List ℕ) : Type 0 where
  pub space : IsSpace user_part k d free
  pub tidy : Tidy k
  pub leaves :
      (i j : ℕ)
      → i < user_pdes
      → j < 1024
      → Present k.mem d i
      → word k.mem (table k.mem d i) j % 2 ≡ 1
      → word k.mem (table k.mem d i) j / 4096 % 2 ^ 20 < k.npages

-- What the first n rounds leave.
pub record Cleared (k : Kernel) (d n : ℕ) (k' : Kernel) : Type 0 where
  pub run : free_pdes (page_at d) n k ≡ ok tt k'
  pub released : Released k k' (λ a. dir_refs k.mem d a n)
  pub pdes : (i : ℕ) → n ≤ i → i < user_pdes → pde k'.mem d i ≡ pde k.mem d i
  pub words :
      (i j : ℕ)
      → n ≤ i
      → i < user_pdes
      → j < 1024
      → Present k.mem d i
      → word k'.mem (table k.mem d i) j ≡ word k.mem (table k.mem d i) j

table_refs_same :
    (f g : ℕ → ℕ) (t a n : ℕ)
    → ((j : ℕ) → j < n → word f t j ≡ word g t j)
    → table_refs f t a n ≡ table_refs g t a n
unfolding table_refs
table_refs_same f g t a zero same = refl
table_refs_same f g t a (suc n) same =
    ground (arith, table_refs_same f g t a n (λ j h. same j (omega arith)), same n (omega arith))

odd_test : (v : ℕ) → v % 2 ≡ 1 → (bit_and v pte_p == 0) ≡ false
odd_test v h = ground (arith, bit_and-one v)

-- One round on an entry that is present, from what its calls do.
free_pde_run :
    (pgdir i pt t : ℕ) (k1 k2 k3 : Kernel)
    → (bit_and (k1.mem (pgdir + 4 * i)) pte_p == 0) ≡ false
    → kaddr (pte_addr (k1.mem (pgdir + 4 * i))) k1 ≡ ok pt k1
    → free_ptes pgdir pt i nptentries k1 ≡ ok tt k2
    → pa2page
        (pte_addr (k1.mem (pgdir + 4 * i)))
        (record k2 { mem = update k2.mem (pgdir + 4 * i) 0 })
      ≡ ok t (record k2 { mem = update k2.mem (pgdir + 4 * i) 0 })
    → page_decref t (record k2 { mem = update k2.mem (pgdir + 4 * i) 0 }) ≡ ok tt k3
    → free_pde pgdir i k1 ≡ ok tt k3
unfolding free_pde
free_pde_run pgdir i pt t k1 k2 k3 there addr frees page gives =
    rw there (rw addr (rw frees (rw page gives)))

module _ (k : Kernel) (d n : ℕ) (k1 : Kernel) (free : List ℕ) (c : Countable k d free)
    (e : Cleared k d n k1) (lt : n < user_pdes) where
  -- A directory entry that is not present is passed over.
  Cleared-absent : pde k.mem d n % 2 ≡ 0 → Cleared k d (suc n) k1
  unfolding free_pdes free_pde dir_refs pde_refs
  Cleared-absent gone = record {
    run = rw e.run (ground (arith, e.pdes n, bit_and-one (pde k1.mem d n)));
    released =
        Released-same k k1 (λ a. dir_refs k.mem d a n) (λ a. dir_refs k.mem d a (suc n)) e.released
          (λ a. ground arith);
    pdes = λ i h. e.pdes i (omega arith);
    words = λ i j h. e.words i j (omega arith);
  }

  abbrev t : ℕ
  t = table k.mem d n

  module _ (there : Present k.mem d n) where
    pde_here : pde k1.mem d n ≡ pde k.mem d n
    pde_here = e.pdes n (omega arith) lt

    inside : t < k.npages
    inside = c.space.table_in n (ground arith) there

    t-IsTable : IsTable k1 d n t
    t-IsTable = record {
      there = ap (λ v. v % 2) pde_here ∙ there;
      at = ap (λ v. v / 4096 % 2 ^ 20) pde_here;
      index = omega arith;
      inside = rw e.released.npages inside;
      small = rw e.released.npages c.space.small;
      apart = c.space.table_ne_dir n (ground arith) there;
      tidy = e.released.tidy;
      leaves = λ j h odd.
          let same = e.words n j (omega arith) lt h there in
          let in_k = c.leaves n j lt h there (sym (ap (λ v. v % 2) same) ∙ odd) in
          subst (λ v. v / 4096 % 2 ^ 20 < k1.npages) (sym same) (rw e.released.npages in_k);
    }

    refs_here : (a : ℕ) → table_refs k1.mem t a 1024 ≡ table_refs k.mem t a 1024
    refs_here a =
        table_refs_same k1.mem k.mem t a 1024 (λ j h. e.words n j (omega arith) lt h there)

    sum_here :
        (a : ℕ)
        → dir_refs k.mem d a (suc n)
          ≡ dir_refs k.mem d a n + (table_refs k1.mem t a 1024 + (if a == t then 1 else 0))
    unfolding dir_refs pde_refs
    sum_here a = ground (arith, refs_here a)

    -- The round, from the state in which its table is empty.
    abbrev cleared_pde : Kernel → Kernel
    cleared_pde k2 = record k2 { mem = update k2.mem (page_at d + 4 * n) 0 }

    round_run :
        (k2 : Kernel)
        → Emptied k1 d n t 1024 k2
        → 1 ≤ (k2.pages t).pp_ref
        → free_pdes (page_at d) (suc n) k ≡ ok tt (after_decref t (cleared_pde k2))
    unfolding free_pdes
    round_run k2 m held =
        let v = pde k1.mem d n in
        let k2' = cleared_pde k2 in
        let at : v / 4096 % 2 ^ 20 ≡ t = t-IsTable.at in
        let here : v / 4096 % 2 ^ 20 < k2'.npages =
          rw at (rw (m.released.npages) t-IsTable.inside) in
        let addr : kaddr (pte_addr v) k1 ≡ ok (page_at t) k1 =
          rw (pte_addr_lem v)
            (rw at (kaddr_lem (t * 4096) k1 (omega (arith, t-IsTable.inside)) t-IsTable.small)) in
        let page : pa2page (pte_addr v) k2' ≡ ok t k2' =
          pa2page_lem v k2' here ∙ ap (λ q. ok q k2') at in
        rw e.run (
          free_pde_run (page_at d) n (page_at t) t k1 k2 (after_decref t k2')
            (odd_test v t-IsTable.there) addr m.run page
            (page_decref_lem k2' t (Tidy-InUse k2' t m.released.tidy held)))

    module _ (counted : (a : ℕ) → dir_refs k.mem d a (suc n) ≤ (k.pages a).pp_ref) where
      covered :
          (a : ℕ) → table_refs k1.mem t a 1024 + (if a == t then 1 else 0) ≤ (k1.pages a).pp_ref
      unfolding dir_refs pde_refs
      covered a = ground (arith, counted a, e.released.refs a, refs_here a)

      module _ (k2 : Kernel) (m : Emptied k1 d n t 1024 k2) where
        held : 1 ≤ (k2.pages t).pp_ref
        held = ground (arith, covered t, m.released.refs t)

        gives_table : Released k2 (after_decref t (cleared_pde k2)) (λ a. if a == t then 1 else 0)
        gives_table =
            let r =
              decref-Released t (cleared_pde k2) m.released.tidy held
                (rw m.released.npages t-IsTable.inside) in
            record { npages = r.npages; refs = r.refs; tidy = r.tidy; lists = r.lists }

        round-Released :
            Released k (after_decref t (cleared_pde k2)) (λ a. dir_refs k.mem d a (suc n))
        round-Released =
            let k3 = after_decref t (cleared_pde k2) in
            let one = λ (a : ℕ). if a == t then 1 else 0 in
            let two =
              Released-then k1 k2 k3 (λ a. table_refs k1.mem t a 1024) one m.released gives_table in
            let three =
              Released-then k k1 k3 (λ a. dir_refs k.mem d a n)
                (λ a. table_refs k1.mem t a 1024 + one a) e.released two in
            Released-same k k3 (λ a. dir_refs k.mem d a n + (table_refs k1.mem t a 1024 + one a))
              (λ a. dir_refs k.mem d a (suc n)) three sum_here

        other_word :
            (b : ℕ)
            → in_page_of t b ≡ false
            → b ≢ page_at d + 4 * n
            → (after_decref t (cleared_pde k2)).mem b ≡ k1.mem b
        other_word b out ne =
            ap (λ (f : ℕ → ℕ). f b) (mem-after_decref t (cleared_pde k2))
            ∙ ground (arith, m.outside b out)

        Cleared-present : Cleared k d (suc n) (after_decref t (cleared_pde k2))
        Cleared-present = record {
          run = round_run k2 m held;
          released = round-Released;
          pdes = λ i lo hi.
              other_word (page_at d + 4 * i)
                (ground (arith, c.space.table_ne_dir n (ground arith) there)) (omega arith)
              ∙ e.pdes i (omega arith) hi;
          words = λ i j lo hi hj here.
              let apart = λ (same : table k.mem d i ≡ t).
                c.space.table_inj i n (ground arith) (ground arith) here there same in
              other_word (page_at (table k.mem d i) + 4 * j) (ground (arith, apart))
                (ground (arith, c.space.table_ne_dir i (ground arith) here))
              ∙ e.words i j (omega arith) hi hj here;
        }

dir_refs_mono : (mem : ℕ → ℕ) (d a n m : ℕ) → n ≤ m → dir_refs mem d a n ≤ dir_refs mem d a m
unfolding dir_refs
dir_refs_mono mem d a zero m h = omega arith
dir_refs_mono mem d a (suc n) zero h = absurd (omega arith)
dir_refs_mono mem d a (suc n) (suc m) h = elim (ℕ_discrete n m) [
  | yes e ↦ rw e (omega arith)
  | no ne ↦ omega (arith, dir_refs_mono mem d a (suc n) m (omega arith))
]

Cleared-none : (k : Kernel) (d : ℕ) (free : List ℕ) → Countable k d free → Cleared k d 0 k
unfolding free_pdes dir_refs
Cleared-none k d free c = record {
  run = refl;
  released = Released-none k c.tidy;
  pdes = λ i lo hi. refl;
  words = λ i j lo hi hj there. refl;
}

-- Where the page counts cover the references of the space, its user part is given back.
pub free_pdes-Cleared :
    (k : Kernel) (d n : ℕ) (free : List ℕ)
    → n ≤ user_pdes
    → Countable k d free
    → ((a : ℕ) → dir_refs k.mem d a user_pdes ≤ (k.pages a).pp_ref)
    → (k' : Kernel) × Cleared k d n k'
free_pdes-Cleared k d zero free h c counted = (k, Cleared-none k d free c)
free_pdes-Cleared k d (suc n) free h c counted =
    let (k1, e) = free_pdes-Cleared k d n free (omega arith) c counted in
    let lt : n < user_pdes = omega arith in
    elim (ℕ_discrete (pde k.mem d n % 2) 1) [
      | no even ↦ (k1, Cleared-absent k d n k1 free c e lt (omega arith))
      | yes there ↦
          let sofar =
            λ (a : ℕ). le_trans (dir_refs_mono k.mem d a (suc n) user_pdes h) (counted a) in
          let tb = t-IsTable k d n k1 free c e lt there in
          let enough : (a : ℕ) → table_refs k1.mem (table k.mem d n) a 1024 ≤ (k1.pages a).pp_ref =
            λ a. omega (arith, covered k d n k1 free c e lt there sofar a) in
          let (k2, m) = free_ptes-Emptied k1 d n (table k.mem d n) 1024 (omega arith) tb enough in
          (
            after_decref (table k.mem d n) (cleared_pde k d n k1 free c e lt there k2),
            Cleared-present k d n k1 free c e lt there sofar k2 m,
          )
    ]
