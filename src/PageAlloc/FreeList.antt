-- ===== src/PageAlloc/FreeList.antt =====
-- The list of free pages as page_alloc, page_free and page_decref see it.
use mathlib.Core.Path.{subst}
use jos_miles.Prelude.{
  ℕ, ◌+◌, ◌*◌, ◌^◌, ◌≤◌, ◌<◌, ◌≡◌, refl, ◌≢◌, sym, ◌∙◌, Bool, true, false, ◌&&◌, ◌||◌, Option, none,
  some, List, [], ◌∷◌, ◌++◌, arith, ltb, leb, ◌==◌, if◌then◌else◌, ℕ_discrete,
}
use jos_miles.Mmu.{kernbase}
use jos_miles.Kernel.{PageInfo, Kernel, ok, panicked, free_with_link, set_link}
use jos_miles.PageAlloc.{page2kva, page_alloc, page_free}

abbrev pub has : ℕ → List ℕ → Bool
has a [] = false
has a (x ∷ xs) = (a == x) || has a xs

-- From `p` on, `pp_link` leads through `xs` to NULL: distinct pages below n with no reference.
abbrev pub Chain : ℕ → (ℕ → PageInfo) → Option ℕ → List ℕ → Type 0
Chain n f p [] = p ≡ none
Chain n f p (x ∷ xs) =
    (p ≡ some x) × (x < n) × ((f x).pp_ref ≡ 0) × (has x xs ≡ false) × Chain n f (f x).pp_link xs

pub has-append : (a : ℕ) (xs ys : List ℕ) → has a (xs ++ ys) ≡ (has a xs || has a ys)
has-append a [] ys = refl
has-append a (x ∷ xs) ys = ground (arith, has-append a xs ys)

abbrev pub FreeList : Kernel → List ℕ → Type 0
FreeList k xs = Chain k.npages k.pages k.page_free_list xs

pub Chain-frame :
    (n : ℕ) {f g : ℕ → PageInfo} (p : Option ℕ) (xs : List ℕ)
    → Chain n f p xs
    → ((a : ℕ) → has a xs ≡ true → g a ≡ f a)
    → Chain n g p xs
Chain-frame n p [] c same = c
Chain-frame n {f} {g} p (x ∷ xs) c same =
    let e : g x ≡ f x = same x (ground arith) in
    let rest = Chain-frame n (f x).pp_link xs c.4 (λ a h. same a (ground arith)) in
    (c.0, c.1, rw e c.2, c.3, rw e rest)

abbrev pub in_page : ℕ → ℕ → Bool
in_page p a = leb (p * 4096 + kernbase) a && ltb a (p * 4096 + kernbase + 4096)

-- What page_alloc leaves: `p` taken off the list, unlinked, and zeroed if that was asked.
pub record Allocated (alloc_zero : Bool) (p : ℕ) (xs : List ℕ) (k k' : Kernel) : Type 0 where
  pub free : FreeList k' xs
  pub npages : k'.npages ≡ k.npages
  pub unlinked : (k'.pages p).pp_link ≡ none
  pub refs : (a : ℕ) → (k'.pages a).pp_ref ≡ (k.pages a).pp_ref
  pub others : (a : ℕ) → a ≢ p → k'.pages a ≡ k.pages a
  pub contents : (a : ℕ) → k'.mem a ≡ (if alloc_zero && in_page p a then 0 else k.mem a)
  pub flushed : k'.flushed ≡ k.flushed

abbrev pub after_alloc : Bool → ℕ → Kernel → Kernel
after_alloc alloc_zero p k = record k {
  pages = set_link k.pages p none;
  page_free_list = (k.pages p).pp_link;
  mem = λ b. if alloc_zero && in_page p b then 0 else k.mem b;
}

-- Without pages beyond 256 MB a page's address at KERNBASE does not wrap.
pub page2kva_lem :
    (k : Kernel) (p : ℕ)
    → p < k.npages
    → k.npages ≤ 2 ^ 16
    → page2kva p k ≡ ok (p * 4096 + kernbase) k
unfolding page2kva
page2kva_lem k p h small = ground arith

pub page_alloc_lem :
    (k : Kernel) (alloc_zero : Bool) (p : ℕ)
    → k.page_free_list ≡ some p
    → p < k.npages
    → k.npages ≤ 2 ^ 16
    → page_alloc alloc_zero k ≡ ok (some p) (after_alloc alloc_zero p k)
unfolding page_alloc
page_alloc_lem k false p head h small = rw head
page_alloc_lem k true p head h small = ground (arith, page2kva_lem k p h small)

-- With a non-empty free list and at most 2 ^ 16 pages, page_alloc takes the first free page off
-- the list, clears its link, zeroes exactly its memory if that was asked for, and changes no other
-- page and no reference count.
pub page_alloc-Allocated :
    (k : Kernel) (alloc_zero : Bool) (p : ℕ) (xs : List ℕ)
    → FreeList k (p ∷ xs)
    → k.npages ≤ 2 ^ 16
    → (k' : Kernel) × (page_alloc alloc_zero k ≡ ok (some p) k') × Allocated alloc_zero p xs k k'
page_alloc-Allocated k z p xs free small = (
  after_alloc z p k,
  page_alloc_lem k z p free.0 free.1 small,
  record {
    free = Chain-frame k.npages (k.pages p).pp_link xs free.4 (λ a i. ground arith);
    npages = refl;
    unlinked = ground arith;
    refs = λ a. ground arith;
    others = λ a ne. ground arith;
    contents = λ a. refl;
    flushed = refl;
  },
)

-- With no free page, page_alloc returns NULL and changes nothing.
pub page_alloc-none :
    (k : Kernel) (alloc_zero : Bool) → FreeList k [] → page_alloc alloc_zero k ≡ ok none k
unfolding page_alloc
page_alloc-none k z free = rw free

pub Chain-push :
    (n : ℕ) (f : ℕ → PageInfo) (p : Option ℕ) (pp : ℕ) (xs : List ℕ)
    → Chain n f p xs
    → pp < n
    → has pp xs ≡ false
    → (f pp).pp_ref ≡ 0
    → Chain n (set_link f pp p) (some pp) (pp ∷ xs)
Chain-push n f p pp xs c lt out ref =
    let e : (set_link f pp p pp).pp_link ≡ p = ground arith in
    let same = Chain-frame n {g = set_link f pp p} p xs c (λ a i. ground arith) in
    (refl, lt, ground arith, out, subst (λ q. Chain n (set_link f pp p) q xs) (sym e) same)

abbrev pub after_free : ℕ → Kernel → Kernel
after_free pp k = record k {
  pages = set_link k.pages pp k.page_free_list;
  page_free_list = some pp;
}

pub page_free_lem :
    (k : Kernel) (pp : ℕ)
    → (k.pages pp).pp_ref ≡ 0
    → (k.pages pp).pp_link ≡ none
    → page_free pp k ≡ ok tt (after_free pp k)
unfolding page_free
page_free_lem k pp ref link = ground arith

-- Freeing a page below npages that is not on the free list, has no reference and is not linked
-- puts it in front of the list; no other page and no memory changes.
pub page_free-FreeList :
    (k : Kernel) (pp : ℕ) (xs : List ℕ)
    → FreeList k xs
    → pp < k.npages
    → has pp xs ≡ false
    → (k.pages pp).pp_ref ≡ 0
    → (k.pages pp).pp_link ≡ none
    → (k' : Kernel) × (page_free pp k ≡ ok tt k')
      × FreeList k' (pp ∷ xs)
      × ((a : ℕ) → a ≢ pp → k'.pages a ≡ k.pages a)
      × (k'.mem ≡ k.mem)
page_free-FreeList k pp xs free lt out ref link = (
  after_free pp k,
  page_free_lem k pp ref link,
  Chain-push k.npages k.pages k.page_free_list pp xs free lt out ref,
  λ a ne. ground arith,
  refl,
)

-- With at most 2 ^ 16 pages, a page that has just been allocated, without zeroing, and is freed
-- again is back at the front of the same list.
pub page_alloc-page_free :
    (k : Kernel) (p : ℕ) (xs : List ℕ)
    → FreeList k (p ∷ xs)
    → k.npages ≤ 2 ^ 16
    → (k' k'' : Kernel) × (page_alloc false k ≡ ok (some p) k')
      × (page_free p k' ≡ ok tt k'')
      × FreeList k'' (p ∷ xs)
page_alloc-page_free k p xs free small =
    let (k', got, a) = page_alloc-Allocated k false p xs free small in
    let ref : (k'.pages p).pp_ref ≡ 0 = a.refs p ∙ free.2 in
    let lt : p < k'.npages = rw a.npages free.1 in
    let (k'', done, free', _, _) = page_free-FreeList k' p xs a.free lt free.3 ref a.unlinked in
    (k', k'', got, done, free')

-- The links and counts of the pages on a list.
Chain-inner :
    (n : ℕ) (f : ℕ → PageInfo) (p : Option ℕ) (xs ys : List ℕ) (pp q : ℕ)
    → Chain n f p (xs ++ (pp ∷ q ∷ ys))
    → ((f pp).pp_ref ≡ 0) × ((f pp).pp_link ≡ some q)
Chain-inner n f p [] ys pp q c = (c.2, c.4.0)
Chain-inner n f p (x ∷ xs) ys pp q c = Chain-inner n f (f x).pp_link xs ys pp q c.4

Chain-last :
    (n : ℕ) (f : ℕ → PageInfo) (p : Option ℕ) (xs : List ℕ) (pp : ℕ)
    → Chain n f p (xs ++ (pp ∷ []))
    → ((f pp).pp_ref ≡ 0) × ((f pp).pp_link ≡ none)
Chain-last n f p [] pp c = (c.2, c.4)
Chain-last n f p (x ∷ xs) pp c = Chain-last n f (f x).pp_link xs pp c.4

-- A second free of a page that is on the list, but not at its end, is caught.
pub page_free_twice :
    (k : Kernel) (xs ys : List ℕ) (pp q : ℕ)
    → FreeList k (xs ++ (pp ∷ q ∷ ys))
    → page_free pp k ≡ panicked free_with_link
unfolding page_free
page_free_twice k xs ys pp q free =
    ground (arith, Chain-inner k.npages k.pages k.page_free_list xs ys pp q free)

-- Two chains from one page that differ only at `pp`, where the first ends in `pp`.
Chain-meets :
    (n : ℕ) (f g : ℕ → PageInfo) (p : Option ℕ) (xs ys : List ℕ) (pp : ℕ)
    → Chain n f p (xs ++ (pp ∷ []))
    → Chain n g p ys
    → ((a : ℕ) → a ≢ pp → g a ≡ f a)
    → has pp ys ≡ true
Chain-meets n f g p [] [] pp c d same = absurd (ground arith)
Chain-meets n f g p [] (y ∷ ys) pp c d same = ground arith
Chain-meets n f g p (x ∷ xs) [] pp c d same = absurd (ground arith)
Chain-meets n f g p (x ∷ xs) (y ∷ ys) pp c d same = elim (ℕ_discrete x pp) [
  | yes e ↦ ground arith
  | no ne ↦
      let meet : (g y).pp_link ≡ (f x).pp_link = ground (arith, same x) in
      let rest : Chain n g (f x).pp_link ys = subst (λ q. Chain n g q ys) meet d.4 in
      ground (arith, Chain-meets n f g (f x).pp_link xs ys pp c.4 rest same)
]

-- A second free of the page at the end of the list is not caught, and afterwards the links lead
-- round in a circle: no list of distinct pages describes them.
pub page_free_twice_tail :
    (k : Kernel) (xs : List ℕ) (pp : ℕ)
    → FreeList k (xs ++ (pp ∷ []))
    → (k' : Kernel) × (page_free pp k ≡ ok tt k') × ((ys : List ℕ) → ¬ FreeList k' ys)
page_free_twice_tail k xs pp free =
    let (ref, link) = Chain-last k.npages k.pages k.page_free_list xs pp free in
    (after_free pp k, page_free_lem k pp ref link, no_list)
  where
    no_list : (ys : List ℕ) → ¬ FreeList (after_free pp k) ys
    no_list [] d = ground arith
    no_list (y ∷ ys) d =
        let g = (after_free pp k).pages in
        let back : (g y).pp_link ≡ k.page_free_list = ground arith in
        let rest = subst (λ q. Chain k.npages g q ys) back d.4 in
        let meets =
          Chain-meets k.npages k.pages g k.page_free_list xs ys pp free rest
            (λ a ne. ground arith) in
        ground arith

-- A page on the list has no reference.
pub Chain-unreferenced :
    (n : ℕ) (f : ℕ → PageInfo) (p : Option ℕ) (xs : List ℕ) (a : ℕ)
    → Chain n f p xs
    → has a xs ≡ true
    → (f a).pp_ref ≡ 0
Chain-unreferenced n f p [] a c h = cc
Chain-unreferenced n f p (x ∷ xs) a c h =
    ground (arith, Chain-unreferenced n f (f x).pp_link xs a c.4)
