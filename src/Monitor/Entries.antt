-- ===== src/Monitor/Entries.antt =====
-- What showmappings shows of a page, and what pgmod makes of it.
use jos_miles.Prelude.{
  ℕ, zero, suc, ◌+◌, ◌*◌, ◌/◌, ◌%◌, ◌^◌, ◌≤◌, ◌<◌, ◌≡◌, ◌≢◌, refl, sym, ap, ◌∙◌, arith, Bool, true,
  false, not, some, List, [], ◌∷◌, ◌==◌, if◌then◌else◌, Bool-cases, inl, inr, bit_and, bit_or,
  bit_and_split, bit_or_split, bit_and-mask, bit_and-zero, bit_or-zero,
}
use jos_miles.Mmu.{pgsize, rounddown, pte_p, pte_u, pte_w}
use jos_miles.Mmu.Laws.{pte_addr_lem, bit_and-one}
use jos_miles.Kernel.{Kernel, ok, update}
use jos_miles.PageTable.Space.{
  page_at, pde, Present, table, dir_index, entry, entry_at, IsSpace, SamePage, entry-Present,
  entry-store_self, entry-store_ne, IsSpace-store,
}
use jos_miles.PageTable.Walk.{pgdir_walk-Present, pgdir_walk-absent}
use jos_miles.CString.{Bytes}
use jos_miles.CString.Strtol.{strtol}
use jos_miles.Monitor.{
  Print, no_table, no_page, mapping, mapping_entry, set_permissions, mon_pgmod, read_bool, not_u,
  not_w,
}

bit_and-two : (e : ℕ) → bit_and e 2 ≡ e / 2 % 2 * 2
bit_and-two e =
    ground (arith, bit_and_split 1 (e / 2) 1 (e % 2) 0, bit_and-one (e / 2), bit_and-zero (e % 2))

bit_and-four : (e : ℕ) → bit_and e 4 ≡ e / 4 % 2 * 4
bit_and-four e =
    ground (arith, bit_and_split 2 (e / 4) 1 (e % 4) 0, bit_and-one (e / 4), bit_and-zero (e % 4))

-- What there is to say of an address.
abbrev pub shown : (ℕ → ℕ) → ℕ → ℕ → Print
shown mem d va =
    let e = entry mem d va in
    if pde mem d (dir_index va) % 2 == 0
    then no_table va
    else if e % 2 == 0
    then no_page va
    else mapping va (e / 4096 % 2 ^ 20 * 4096) (e / 4 % 2 == 1) (e / 2 % 2 == 1)

-- The page tables of a directory lie in memory.
pub record IsWalkable (k : Kernel) (d : ℕ) : Type 0 where
  pub small : k.npages ≤ 2 ^ 16
  pub inside : (i : ℕ) → i < 1024 → Present k.mem d i → table k.mem d i < k.npages

-- mon_showmappings_entry prints `shown`, and changes nothing.
pub mapping_entry-shown :
    (k : Kernel) (d va : ℕ)
    → IsWalkable k d
    → mapping_entry (page_at d) va k ≡ ok (shown k.mem d va) k
unfolding mapping_entry
mapping_entry-shown k d va s = elim (Bool-cases (pde k.mem d (dir_index va) % 2 == 0)) [
  | inl gone ↦ rw (pgdir_walk-absent k d va (ground arith)) (ground arith)
  | inr there ↦
      let present : Present k.mem d (dir_index va) = ground arith in
      let e = entry k.mem d va in
      let inside = s.inside (dir_index va) (omega arith) present in
      rw (pgdir_walk-Present k d va false present inside s.small) (
        ground (
          arith,
          entry-Present k.mem d va present,
          bit_and-one e,
          bit_and-two e,
          bit_and-four e,
          pte_addr_lem e,
        ))
]

-- An entry with the bits for user access and writing set as asked.
abbrev pub permitted : ℕ → Bool → Bool → ℕ
permitted e allow_user allow_write =
    e / 8 % 2 ^ 29 * 8 + (if allow_user then 4 else 0) + (if allow_write then 2 else 0) + e % 2

cleared : (e : ℕ) → bit_and (bit_and e not_u) not_w ≡ e / 8 % 2 ^ 29 * 8 + e % 2
cleared e = ground (
  arith,
  bit_and_split 3 (e / 8) 0x1fff_ffff (e % 8) 3,
  bit_and-mask 29 (e / 8),
  bit_and-mask 2 (e % 8),
  bit_and_split 2 (e / 8 % 2 ^ 29 * 2) 0x3fff_ffff (e % 4) 1,
  bit_and-mask 30 (e / 8 % 2 ^ 29 * 2),
  bit_and-one (e % 4),
)

low_three : (q r v : ℕ) → r < 8 → v < 8 → bit_or (q * 8 + r) v ≡ q * 8 + bit_or r v
low_three q r v h h' = ground (arith, bit_or_split 3 q 0 r v, bit_or-zero q)

with_bits :
    (q r : ℕ) (u w : Bool)
    → r < 2
    → bit_or (bit_or (q * 8 + r) (if u then pte_u else 0)) (if w then pte_w else 0)
      ≡ q * 8 + (if u then 4 else 0) + (if w then 2 else 0) + r
with_bits q zero u w h = ground (
  arith,
  low_three q 0 4,
  low_three q 0 2,
  low_three q 4 2,
  bit_or-zero (q * 8 + 0),
  bit_or-zero (q * 8 + 4),
)
with_bits q (suc zero) u w h = ground (
  arith,
  low_three q 1 4,
  low_three q 1 2,
  low_three q 5 2,
  bit_or-zero (q * 8 + 1),
  bit_or-zero (q * 8 + 5),
)
with_bits q (suc (suc r)) u w h = absurd (omega arith)

or_one : (r : ℕ) → r < 2 → bit_or r 1 ≡ 1
or_one zero h = refl
or_one (suc zero) h = refl
or_one (suc (suc r)) h = absurd (omega arith)

not_rejected : (e : ℕ) → (bit_or e pte_p == 0) ≡ false
not_rejected e = ground (arith, bit_or_split 1 (e / 2) 0 (e % 2) 1, or_one (e % 2))

permitted_lem :
    (e : ℕ) (u w : Bool)
    → bit_or
        (bit_or (bit_and (bit_and e not_u) not_w) (if u then pte_u else 0))
        (if w then pte_w else 0)
      ≡ permitted e u w
permitted_lem e u w = rw (cleared e) (with_bits (e / 8 % 2 ^ 29) (e % 2) u w (omega arith))

-- What set_permissions leaves.
pub record Permitted (own : ℕ → Bool) (k : Kernel) (d va : ℕ) (u w : Bool) (free : List ℕ)
    (k' : Kernel) : Type 0 where
  pub run : set_permissions (page_at d) va u w k ≡ ok [] k'
  pub changed : entry k'.mem d va ≡ permitted (entry k.mem d va) u w
  pub others :
      (va' : ℕ)
      → own (dir_index va') ≡ true
      → ¬ SamePage va va'
      → entry k'.mem d va' ≡ entry k.mem d va'
  pub space : IsSpace own k' d free
  pub flushed : k'.flushed ≡ k.flushed

pub set_permissions_lem :
    (own : ℕ → Bool) (k : Kernel) (d va : ℕ) (u w : Bool) (free : List ℕ)
    → IsSpace own k d free
    → own (dir_index va) ≡ true
    → Present k.mem d (dir_index va)
    → (k' : Kernel) × Permitted own k d va u w free k'
unfolding set_permissions
set_permissions_lem own k d va u w free s mine there =
    let e = entry_at k.mem d va in
    let v = permitted (k.mem e) u w in
    let inside = s.table_in (dir_index va) mine there in
    (
      record k { mem = update k.mem e v },
      record {
        run =
            rw (pgdir_walk-Present k d va false there inside s.small)
              (rw (not_rejected (k.mem e), permitted_lem (k.mem e) u w) refl);
        changed =
            entry-store_self own k d free s va v mine there
            ∙ ap (λ e'. permitted e' u w) (sym (entry-Present k.mem d va there));
        others = λ va' mine' ne. entry-store_ne own k d free s va v va' mine mine' there ne;
        space = IsSpace-store own k d free s va v mine there;
        flushed = refl;
      },
    )

-- The string at `arg` reads as a number, `v`.
pub record IsHex (mem : Bytes) (arg v fuel : ℕ) : Type 0 where
  pub arg_end : ℕ
  pub read : strtol mem arg 16 fuel ≡ some (v, arg_end)
  pub digits : arg_end ≢ arg

read_bool_lem :
    (mem : Bytes) (arg v fuel : ℕ)
    → IsHex mem arg v fuel
    → read_bool mem arg fuel ≡ some (some (not (v == 0)))
unfolding read_bool
read_bool_lem mem arg v fuel h = ground (arith, h.read, h.digits)

rounddown_aligned : (va : ℕ) → va % 4096 ≡ 0 → rounddown va pgsize ≡ va
unfolding rounddown
rounddown_aligned va h = omega arith

mon_pgmod_run :
    (pgdir name a b c va v w fuel : ℕ) (mem : Bytes) (k k' : Kernel)
    → IsHex mem a va fuel
    → IsHex mem b v fuel
    → IsHex mem c w fuel
    → va % 4096 ≡ 0
    → set_permissions pgdir va (not (v == 0)) (not (w == 0)) k ≡ ok [] k'
    → mon_pgmod pgdir mem (name ∷ a ∷ b ∷ c ∷ []) fuel k ≡ ok (some []) k'
unfolding mon_pgmod
mon_pgmod_run pgdir name a b c va v w fuel mem k k' ha hb hc aligned run = ground (
  arith,
  ha.read,
  ha.digits,
  rounddown_aligned va aligned,
  read_bool_lem mem b v fuel hb,
  read_bool_lem mem c w fuel hc,
  run,
)

-- With three arguments that read as numbers, the first a page-aligned address that has a page table
-- in a well-formed space, mon_pgmod sets the two permission bits of the entry for that address, user
-- access if the second number is not 0 and writing if the third is not 0, whether the entry is
-- present or not. It changes no other bit of the entry and no other entry of the part `own`, and
-- invalidates no address in the TLB.
pub mon_pgmod-Permitted :
    (own : ℕ → Bool) (k : Kernel) (d name a b c va v w fuel : ℕ) (mem : Bytes) (free : List ℕ)
    → IsSpace own k d free
    → own (dir_index va) ≡ true
    → Present k.mem d (dir_index va)
    → IsHex mem a va fuel
    → IsHex mem b v fuel
    → IsHex mem c w fuel
    → va % 4096 ≡ 0
    → (k' : Kernel) × (mon_pgmod (page_at d) mem (name ∷ a ∷ b ∷ c ∷ []) fuel k ≡ ok (some []) k')
      × Permitted own k d va (not (v == 0)) (not (w == 0)) free k'
mon_pgmod-Permitted own k d name a b c va v w fuel mem free s mine there ha hb hc aligned =
    let (k', r) = set_permissions_lem own k d va (not (v == 0)) (not (w == 0)) free s mine there in
    (k', mon_pgmod_run (page_at d) name a b c va v w fuel mem k k' ha hb hc aligned r.run, r)
