-- ===== src/Kernel.antt =====
-- The global state that kern/pmap.c works on, and the commands over it.
--
-- A `struct PageInfo *` is its index in `pages`, so NULL is `none`. A pointer to a page directory,
-- a page table or an entry of one is a kernel virtual address, and `mem` holds the 32-bit word at
-- such an address: all physical memory is mapped at KERNBASE. The `pages` array itself lies in
-- memory of its own, which `boot_alloc` handed out.
use jos_miles.Prelude.{ℕ, ◌+◌, Option, List, ◌&&◌, ltb, leb, ◌==◌, if◌then◌else◌}
use jos_miles.Mmu.{pgsize}

-- `struct PageInfo` of inc/memlayout.h
pub record PageInfo : Type 0 where
  pub pp_link : Option ℕ
  pub pp_ref : ℕ

pub record Kernel : Type 0 where
  -- Amount of physical memory, in pages.
  pub npages : ℕ
  -- `nextfree` of boot_alloc, 0 before its first call.
  pub nextfree : ℕ
  pub pages : ℕ → PageInfo
  pub page_free_list : Option ℕ
  pub mem : ℕ → ℕ
  -- The addresses given to `invlpg`, the last first.
  pub flushed : List ℕ
  pub user_mem_check_addr : ℕ

-- Why the kernel panicked.
pub data Panic : Type 0 where
  boot_alloc_out_of_memory invalid_kva invalid_pa pa2page_invalid : Panic
  free_with_refs free_with_link negative_ref_count no_page_table out_of_memory : Panic
  cannot_alloc_env no_elf_magic assertion_failed kernel_page_fault unhandled_trap no_current_env
        not_running no_free_list :
      Panic

pub data Run (A : Type 0) : Type 0 where
  ok : A → Kernel → Run A
  panicked : Panic → Run A

abbrev pub Cmd : Type 0 → Type 0
Cmd A = Kernel → Run A

abbrev pub pure : {A : Type 0} → A → Cmd A
pure = ok

abbrev pub panic : {A : Type 0} → Panic → Cmd A
panic why k = panicked why

module _ {A B : Type 0} where
  abbrev pub and_then : Run A → (A → Cmd B) → Run B
  and_then (ok a k) f = f a k
  and_then (panicked why) f = panicked why

  infixl 5 ◌>>=◌ ◌>>◌
  abbrev pub ◌>>=◌ : Cmd A → (A → Cmd B) → Cmd B
  m >>= f = λ k. and_then (m k) f

  abbrev pub ◌>>◌ : Cmd A → Cmd B → Cmd B
  m >> n = m >>= λ _. n

abbrev pub update {ℓ} : {A : Type ℓ} → (ℕ → A) → ℕ → A → ℕ → A
update f p v q = if q == p then v else f q

-- `*a` and `*a = v`
abbrev pub load : ℕ → Cmd ℕ
load a k = ok (k.mem a) k

abbrev pub store : ℕ → ℕ → Cmd (Unit {0})
store a v k = ok tt (record k { mem = update k.mem a v })

-- `memset(a, 0, PGSIZE)` on words
abbrev pub zero_page : ℕ → Cmd (Unit {0})
zero_page a k = ok tt (record k { mem = λ b. if leb a b && ltb b (a + pgsize) then 0 else k.mem b })

-- `pp->pp_ref` and `pp->pp_link`
abbrev pub set_ref : (ℕ → PageInfo) → ℕ → ℕ → ℕ → PageInfo
set_ref f pp n = update f pp (record (f pp) { pp_ref = n })

abbrev pub set_link : (ℕ → PageInfo) → ℕ → Option ℕ → ℕ → PageInfo
set_link f pp l = update f pp (record (f pp) { pp_link = l })
