-- ===== src/Kdebug/Found.antt =====
-- What stab_binsearch finds.
use jos_miles.Prelude.{
  ℕ, zero, suc, ◌+◌, ◌-◌, ◌*◌, ◌^◌, ◌≤◌, ◌<◌, ◌≡◌, refl, arith, true, false, some, ltb, Bool-cases,
  inl, inr,
}
use jos_miles.Kdebug.{Stabs, is, Bisection, rightmost, stab_binsearch}
use jos_miles.Kdebug.Search.{NoneIn, IsLast, search_loop_lem, measure_lem}
use jos_miles.Kdebug.Narrow.{IsOrdered, Narrowed, Narrowed-Round, Narrowed-end}

abbrev start : ℕ → ℕ → ℕ → Bisection
start left right_next addr = record {
  l = left;
  r_next = right_next;
  region_left = left;
  any_matches = false;
  addr = addr;
}

-- For every table, sorted or not, and every interval and address, stab_binsearch returns: the fuel of
-- its loop, twice the length of the interval plus 2, is never used up.
pub stab_binsearch-total :
    (stabs : Stabs) (left right_next type addr : ℕ)
    → (l r : ℕ) × (stab_binsearch stabs left right_next type addr ≡ some (l, r))
unfolding stab_binsearch
stab_binsearch-total stabs left right_next type addr =
    let s0 = start left right_next addr in
    let (s, run, h, over) =
      search_loop_lem stabs type (λ s. Unit {0}) (λ s s' t lo hi r h. tt)
        (2 * (right_next - left) + 2) s0 (measure_lem stabs type s0) tt in
    elim (Bool-cases s.any_matches) [
      | inl some_match ↦
          (rightmost stabs type s.region_left s.r_next, s.r_next, rw run (rw some_match refl))
      | inr no_match ↦ (suc s.region_left, s.region_left, rw run (rw no_match refl))
    ]

rightmost_lem :
    (stabs : Stabs) (type left e : ℕ)
    → left < e
    → NoneIn stabs type (suc left) e
    → rightmost stabs type left e ≡ suc left
unfolding rightmost
rightmost_lem stabs type left zero lt gone = absurd (omega arith)
rightmost_lem stabs type left (suc l) lt gone = elim (Bool-cases (ltb left l)) [
  | inl later ↦ ground (
    arith,
    gone l,
    rightmost_lem stabs type left l (ground arith) (λ i lo hi. gone i lo (omega arith)),
  )
  | inr here ↦ ground arith
]

-- The entry at `l` is the last one of the type at or before `addr`, and the entries from `r_next` on
-- lie behind `addr`.
pub record IsFound (stabs : Stabs) (type left right_next addr l r_next : ℕ) : Type 0 where
  pub run : stab_binsearch stabs left right_next type addr ≡ some (suc l, r_next)
  pub last : IsLast stabs type left r_next l
  pub inside : r_next ≤ right_next
  pub starts : (stabs l).n_value ≤ addr
  pub behind :
      (i : ℕ) → r_next ≤ i → i < right_next → is stabs type i ≡ true → addr < (stabs i).n_value

-- If the entries of the type between the two indices are in order, some entry of the type there
-- starts at or before `addr`, none starts at `addr + 1`, and that is below 2 ^ 32, then
-- stab_binsearch sets `*region_left` to the last entry of the type that starts at or before `addr`,
-- and `*region_right` so that the entries of the type behind it start after `addr`.
pub stab_binsearch-IsFound :
    (stabs : Stabs) (left right_next type addr i : ℕ)
    → IsOrdered stabs type left right_next addr
    → addr + 1 < 2 ^ 32
    → left ≤ i
    → i < right_next
    → is stabs type i ≡ true
    → (stabs i).n_value ≤ addr
    → (l r_next : ℕ) × IsFound stabs type left right_next addr l r_next
unfolding stab_binsearch
stab_binsearch-IsFound stabs left right_next type addr i order fits lo hi here le =
    let s0 = start left right_next addr in
    let (s, run, n, over) =
      search_loop_lem stabs type (Narrowed stabs type left right_next addr)
        (Narrowed-Round stabs type left right_next addr order fits) (2 * (right_next - left) + 2) s0
        (measure_lem stabs type s0)
        (record {
          from = omega arith;
          to = omega arith;
          target = inl refl;
          low = λ i lo hi. absurd (omega arith);
          high = λ i lo hi. absurd (omega arith);
          best = inl (λ i lo hi. absurd (omega arith));
          matched = inr refl;
        }) in
    let (some_match, last, starts) =
      Narrowed-end stabs type left right_next addr i s n over lo hi here le in
    let b = s.region_left in
    (
      b,
      s.r_next,
      record {
        run =
            rw run (
              rw some_match
                (rw (rightmost_lem stabs type b s.r_next last.before last.behind) refl));
        last = last;
        inside = n.to;
        starts = starts;
        behind = n.high;
      },
    )
