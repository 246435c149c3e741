-- ===== src/Monitor.antt =====
-- kern/monitor.c: the commands that look at and change the address space. What cprintf prints is a
-- list of the calls. The command line lies in `mem`; `fuel` bounds strtol and the loops, and a result
-- `none` stands for a command that is still running when it is used up. What the processor reads at
-- an address is an argument `word`.
pub mod Runcmd
pub mod Words
pub mod Parse
pub mod Loop
pub mod Entries
pub mod Backtrace
pub mod Lookup
mod Tests
use jos_miles.Prelude.{
  ℕ, zero, suc, ◌+◌, ◌-◌, ◌*◌, Bool, true, false, ◌&&◌, ◌||◌, not, Option, none, some, List, [],
  ◌∷◌, ltb, leb, ◌==◌, if◌then◌else◌, bit_and, bit_or, length, get_or,
}
use jos_miles.Mmu.{u32, pgsize, pgnum, rounddown, pte_p, pte_u, pte_w, pte_addr}
use jos_miles.Kernel.{Kernel, ok, Cmd, pure, ◌>>=◌, ◌>>◌, load, store}
use jos_miles.PageAlloc.{kaddr}
use jos_miles.PageTable.{pgdir_walk, page_lookup}
use jos_miles.CString.{Bytes}
use jos_miles.CString.Strtol.{strtol}

-- The calls of cprintf, with their arguments.
pub data Print : Type 0 where
  usage header bad_first bad_high bad_order bad_second bad_third not_aligned out_of_range : Print
  no_table no_page not_mapped : ℕ → Print
  mapping : ℕ → ℕ → Bool → Bool → Print
  value : ℕ → ℕ → Print

-- mon_showmappings_entry
unfoldable pub mapping_entry : ℕ → ℕ → Cmd Print
mapping_entry kern_pgdir va = do
  pgtable_entry ← pgdir_walk kern_pgdir va false
  elim pgtable_entry [
    | none ↦ pure (no_table va)
    | some e ↦ do
      pa_wflags ← load e
      if bit_and pa_wflags pte_p == 0
          then pure (no_page va)
          else pure (
              mapping va (pte_addr pa_wflags) (not (bit_and pa_wflags pte_u == 0))
                (not (bit_and pa_wflags pte_w == 0)))
  ]

-- `for (; a <= hi; a += step)`, with what each round prints.
unfoldable pub for_each : (ℕ → Cmd Print) → ℕ → ℕ → ℕ → ℕ → Cmd (Option (List Print))
for_each print step a hi zero = pure none
for_each print step a hi (suc fuel) =
    let rest = for_each print step (u32 (a + step)) hi fuel in
    if leb a hi
    then (print a >>= λ p.
        rest >>= λ ps. elim ps [ none ↦ pure none | some qs ↦ pure (some (p ∷ qs)) ])
    else pure (some [])

-- What the arguments of a command on a range of addresses come to.
pub data Range : Type 0 where
  refused : Print → Range
  range : ℕ → ℕ → Range

-- The second argument, with `lo` the first.
unfoldable pub read_high : Bytes → List ℕ → ℕ → ℕ → Option Range
read_high mem argv lo fuel =
    let hi_str = get_or argv 2 0 in
    elim (strtol mem hi_str 16 fuel) [
      | none ↦ none
      | some (hi, arg_end) ↦ some (
          if arg_end == hi_str
          then refused bad_high
          else if ltb hi lo
          then refused bad_order
          else range lo hi)
    ]

-- The addresses that the arguments give; `argc` is the length of `argv`.
unfoldable pub read_range : Bytes → List ℕ → ℕ → Option Range
read_range mem argv fuel =
    let argc = length argv in
    let lo_str = get_or argv 1 0 in
    let high = λ (lo : ℕ). if ltb 2 argc then read_high mem argv lo fuel else some (range lo lo) in
    if not (leb 2 argc && leb argc 3)
    then some (refused usage)
    else elim (strtol mem lo_str 16 fuel) [
      | none ↦ none
      | some (lo, arg_end) ↦ if arg_end == lo_str then some (refused bad_first) else high lo
    ]

-- A command on a range: what it does with the addresses, after the header.
abbrev pub on_range : Option Range → (ℕ → ℕ → Cmd (Option (List Print))) → Cmd (Option (List Print))
on_range none loop = pure none
on_range (some (refused why)) loop = pure (some (why ∷ []))
on_range (some (range lo hi)) loop =
    loop lo hi >>= λ ps. elim ps [ none ↦ pure none | some qs ↦ pure (some (header ∷ qs)) ]

unfoldable pub mon_showmappings : ℕ → Bytes → List ℕ → ℕ → Cmd (Option (List Print))
mon_showmappings kern_pgdir mem argv fuel =
    on_range (read_range mem argv fuel)
      λ lo hi. for_each (mapping_entry kern_pgdir) pgsize (rounddown lo pgsize) hi fuel

-- One round of mon_memxv.
unfoldable pub examine_va : ℕ → (ℕ → ℕ) → ℕ → Cmd Print
examine_va kern_pgdir word va = page_lookup kern_pgdir va >>= λ (found, pte_store). elim found [
  | none ↦ pure (not_mapped va)
  | some pp ↦ pure (value va (word va))
]

unfoldable pub mon_memxv : ℕ → (ℕ → ℕ) → Bytes → List ℕ → ℕ → Cmd (Option (List Print))
mon_memxv kern_pgdir word mem argv fuel =
    on_range (read_range mem argv fuel) λ lo hi. for_each (examine_va kern_pgdir word) 4 lo hi fuel

-- One round of mon_memxp.
unfoldable pub examine_pa : (ℕ → ℕ) → ℕ → Cmd Print
unfolding pgnum kaddr
examine_pa word pa k =
    if ltb (pgnum pa) k.npages
    then (kaddr pa >>= λ va. pure (value pa (word va))) k
    else ok out_of_range k

unfoldable pub mon_memxp : (ℕ → ℕ) → Bytes → List ℕ → ℕ → Cmd (Option (List Print))
mon_memxp word mem argv fuel =
    on_range (read_range mem argv fuel) λ lo hi. for_each (examine_pa word) 4 lo hi fuel

-- `~PTE_U` and `~PTE_W` as a physaddr_t.
abbrev pub not_u : ℕ
not_u = 0xffff_fffb

abbrev pub not_w : ℕ
not_w = 0xffff_fffd

-- The part of mon_pgmod behind its arguments.
unfoldable pub set_permissions : ℕ → ℕ → Bool → Bool → Cmd (List Print)
set_permissions kern_pgdir va allow_user allow_write = do
  pgtable_entry ← pgdir_walk kern_pgdir va false
  elim pgtable_entry [
    | none ↦ pure (no_table va ∷ [])
    | some e ↦ do
      pa_wflags ← load e
      if bit_or pa_wflags pte_p == 0 then pure (no_page va ∷ []) else do
        store e (
            bit_or
              (bit_or (bit_and (bit_and pa_wflags not_u) not_w) (if allow_user then pte_u else 0))
              (if allow_write then pte_w else 0))
        pure []
  ]

-- A number assigned to a bool: `none` where strtol runs out, and the inner one for no digits.
unfoldable pub read_bool : Bytes → ℕ → ℕ → Option (Option Bool)
read_bool mem arg fuel = elim (strtol mem arg 16 fuel) [
  | none ↦ none
  | some (v, arg_end) ↦ some (if arg_end == arg then none else some (not (v == 0)))
]

unfoldable pub mon_pgmod : ℕ → Bytes → List ℕ → ℕ → Cmd (Option (List Print))
mon_pgmod kern_pgdir mem argv fuel =
    let refuse = λ (why : Print). pure (some (why ∷ [])) in
    if not (length argv == 4) then refuse usage else elim (strtol mem (get_or argv 1 0) 16 fuel) [
      | none ↦ pure none
      | some (va, arg_end) ↦
          if arg_end == get_or argv 1 0
          then refuse bad_first
          else if not (va == rounddown va pgsize)
          then refuse not_aligned
          else elim (read_bool mem (get_or argv 2 0) fuel) [
            | none ↦ pure none
            | some none ↦ refuse bad_second
            | some (some allow_user) ↦ elim (read_bool mem (get_or argv 3 0) fuel) [
              | none ↦ pure none
              | some none ↦ refuse bad_third
              | some (some allow_write) ↦
                  set_permissions kern_pgdir (rounddown va pgsize) allow_user allow_write >>= λ ps.
                  pure (some ps)
            ]
          ]
    ]
