-- ===== src/PageTable/Released.antt =====
-- Giving references back: how the counters and the free list change over any number of page_decref.
use jos_miles.Prelude.{
  ℕ, ◌+◌, ◌-◌, ◌^◌, ◌≤◌, ◌<◌, ◌≡◌, refl, ◌∙◌, Bool, false, ◌&&◌, ◌||◌, none, List, ◌∷◌, arith, ltb,
  ◌==◌, if◌then◌else◌, Bool-cases, inl, inr,
}
use jos_miles.Kernel.{PageInfo, Kernel, set_ref}
use jos_miles.PageAlloc.FreeList.{has, Chain, Chain-frame, Chain-push, Chain-unreferenced, FreeList}
use jos_miles.PageTable.Remove.{InUse, after_decref}

-- The counters of the pages fit 16 bits, and a page with references is not linked.
abbrev pub Tidy : Kernel → Type 0
Tidy k =
    (a : ℕ) → ((k.pages a).pp_ref < 2 ^ 16) × (1 ≤ (k.pages a).pp_ref → (k.pages a).pp_link ≡ none)

-- Page a has lost its last reference.
abbrev pub lost_last : (ℕ → PageInfo) → (ℕ → PageInfo) → ℕ → Bool
lost_last f g a = ltb 0 (f a).pp_ref && ((g a).pp_ref == 0)

-- From k to k' each page a has given back `taken a` references, and the pages that lost their last
-- one are exactly those that joined the free list.
pub record Released (k k' : Kernel) (taken : ℕ → ℕ) : Type 0 where
  pub npages : k'.npages ≡ k.npages
  pub refs : (a : ℕ) → (k'.pages a).pp_ref + taken a ≡ (k.pages a).pp_ref
  pub tidy : Tidy k'
  pub lists :
      (free : List ℕ)
      → FreeList k free
      → (free' : List ℕ) × FreeList k' free'
        × ((a : ℕ) → has a free' ≡ (has a free || lost_last k.pages k'.pages a))

pub Released-none : (k : Kernel) → Tidy k → Released k k (λ a. 0)
Released-none k t = record {
  npages = refl;
  refs = λ a. omega arith;
  tidy = t;
  lists = λ free l. (free, l, λ a. ground arith);
}

pub Released-then :
    (k k' k'' : Kernel) (s t : ℕ → ℕ)
    → Released k k' s
    → Released k' k'' t
    → Released k k'' (λ a. s a + t a)
Released-then k k' k'' s t r r' = record {
  npages = r'.npages ∙ r.npages;
  refs = λ a. omega (arith, r.refs a, r'.refs a);
  tidy = r'.tidy;
  lists = λ free l.
      let (free1, l1, same) = r.lists free l in
      let (free2, l2, same') = r'.lists free1 l1 in
      (free2, l2, λ a. ground (arith, same a, same' a, r.refs a, r'.refs a));
}

-- The same number of references in other words.
pub Released-same :
    (k k' : Kernel) (s t : ℕ → ℕ) → Released k k' s → ((a : ℕ) → t a ≡ s a) → Released k k' t
Released-same k k' s t r e = record {
  npages = r.npages;
  refs = λ a. omega (arith, r.refs a, e a);
  tidy = r.tidy;
  lists = r.lists;
}

pub Tidy-InUse : (k : Kernel) (q : ℕ) → Tidy k → 1 ≤ (k.pages q).pp_ref → InUse k q
Tidy-InUse k q t h = record { held = h; fits = (t q).0; unlinked = (t q).1 h }

module _ (q : ℕ) (k : Kernel) (t : Tidy k) (held : 1 ≤ (k.pages q).pp_ref) (lt : q < k.npages) where
  left : ℕ → PageInfo
  left = set_ref k.pages q ((k.pages q).pp_ref - 1)

  -- One page_decref gives back one reference.
  pub decref-Released : Released k (after_decref q k) (λ a. if a == q then 1 else 0)
  unfolding after_decref left
  decref-Released = elim (Bool-cases ((k.pages q).pp_ref == 1)) [
    | inl last ↦ rw last (record {
      npages = refl;
      refs = λ a. ground arith;
      tidy = λ a. ground (arith, t a);
      lists = λ free l.
          let out : has q free ≡ false =
            ground (arith, Chain-unreferenced k.npages k.pages k.page_free_list free q l) in
          let kept : Chain k.npages left k.page_free_list free =
            Chain-frame k.npages k.page_free_list free l (λ a i. ground arith) in
          (
            q ∷ free,
            Chain-push k.npages left k.page_free_list q free kept lt out (ground arith),
            λ a. ground arith,
          );
    })
    | inr more ↦ rw more (record {
      npages = refl;
      refs = λ a. ground arith;
      tidy = λ a. ground (arith, t a);
      lists = λ free l.
          let out : has q free ≡ false =
            ground (arith, Chain-unreferenced k.npages k.pages k.page_free_list free q l) in
          (
            free,
            Chain-frame k.npages k.page_free_list free l (λ a i. ground arith),
            λ a. ground arith,
          );
    })
  ]
