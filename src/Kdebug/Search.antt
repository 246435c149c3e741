-- ===== src/Kdebug/Search.antt =====
-- The loop of stab_binsearch: what one round does, and that the loop ends.
use jos_miles.Prelude.{
  ℕ, zero, suc, ◌+◌, ◌-◌, ◌*◌, ◌/◌, ◌≤◌, ◌<◌, ◌≡◌, refl, arith, true, false, ◌&&◌, none, some, ltb,
  ◌==◌, if◌then◌else◌, Bool-cases, ℕ_discrete, inl, inr, ◌⊎◌,
}
use jos_miles.Mmu.{u32}
use jos_miles.Kdebug.{Stabs, is, Bisection, last_of, search_round, search_loop}

-- There is no entry of the type from index `l` to before `e`.
abbrev pub NoneIn : Stabs → ℕ → ℕ → ℕ → Type 0
NoneIn stabs type l e = (i : ℕ) → l ≤ i → i < e → is stabs type i ≡ false

-- Index m is the last such entry.
pub record IsLast (stabs : Stabs) (type l e m : ℕ) : Type 0 where
  pub from : l ≤ m
  pub before : m < e
  pub here : is stabs type m ≡ true
  pub behind : NoneIn stabs type (suc m) e

last_of_lem :
    (stabs : Stabs) (type l e : ℕ)
    → ((last_of stabs type l e ≡ none) × NoneIn stabs type l e)
      ⊎ ((m : ℕ) × (last_of stabs type l e ≡ some m) × IsLast stabs type l e m)
unfolding last_of
last_of_lem stabs type l zero = inl (refl, λ i le lt. absurd (omega arith))
last_of_lem stabs type l (suc n) = elim (Bool-cases (ltb n l)) [
  | inl out ↦ inl (ground arith, λ i le lt. absurd (ground arith))
  | inr into ↦ elim (Bool-cases (is stabs type n)) [
    | inl found ↦ inr (
      n,
      ground arith,
      record {
        from = ground arith;
        before = omega arith;
        here = found;
        behind = λ i le lt. absurd (omega arith);
      },
    )
    | inr other ↦ elim (last_of_lem stabs type l n) [
      | inl (e, gone) ↦ inl (ground arith, λ i le lt. ground (arith, gone i))
      | inr (m, e, last) ↦ inr (
        m,
        ground arith,
        record {
          from = last.from;
          before = omega (arith, last.before);
          here = last.here;
          behind = λ i le lt. ground (arith, last.behind i);
        },
      )
    ]
  ]
]

-- What a round with the middle index `t` does.
pub data Round (stabs : Stabs) (type : ℕ) (s : Bisection) (t : ℕ) (s' : Bisection) : Type 0 where
  skip : NoneIn stabs type s.l (suc t) → s' ≡ record s { l = suc t } → Round stabs type s t s'
  below :
      (m : ℕ)
      → IsLast stabs type s.l (suc t) m
      → (stabs m).n_value < s.addr
      → s' ≡ record s { l = suc t; region_left = m; any_matches = true }
      → Round stabs type s t s'
  above :
      (m : ℕ)
      → IsLast stabs type s.l (suc t) m
      → s.addr < (stabs m).n_value
      → s' ≡ record s { r_next = m; any_matches = true }
      → Round stabs type s t s'
  exact :
      (m : ℕ)
      → IsLast stabs type s.l (suc t) m
      → (stabs m).n_value ≡ s.addr
      → s' ≡ record s { l = m; region_left = m; any_matches = true; addr = u32 (s.addr + 1) }
      → Round stabs type s t s'

abbrev pub middle : Bisection → ℕ
middle s = (s.l + (s.r_next - 1)) / 2

pub round_lem :
    (stabs : Stabs) (type : ℕ) (s : Bisection)
    → Round stabs type s (middle s) (search_round stabs type s)
unfolding search_round
round_lem stabs type s = elim (last_of_lem stabs type s.l (suc (middle s))) [
  | inl (e, gone) ↦ skip gone (ground (arith, e))
  | inr (m, e, last) ↦ elim (Bool-cases (ltb (stabs m).n_value s.addr)) [
    | inl lt ↦ below m last (ground arith) (ground (arith, e))
    | inr ge ↦ elim (Bool-cases (ltb s.addr (stabs m).n_value)) [
      | inl gt ↦ above m last (ground arith) (ground (arith, e))
      | inr le ↦ exact m last (ground arith) (ground (arith, e))
    ]
  ]
]

-- 1 where the first index is an exact match.
unfoldable pub hit : Stabs → ℕ → ℕ → ℕ → ℕ
hit stabs type l addr = if is stabs type l && ((stabs l).n_value == addr) then 1 else 0

hit_le : (stabs : Stabs) (type l addr : ℕ) → hit stabs type l addr ≤ 1
unfolding hit
hit_le stabs type l addr = ground arith

hit_exact :
    (stabs : Stabs) (type m addr : ℕ)
    → is stabs type m ≡ true
    → (stabs m).n_value ≡ addr
    → hit stabs type m addr ≡ 1
unfolding hit
hit_exact stabs type m addr here e = ground arith

hit_next :
    (stabs : Stabs) (type m addr : ℕ)
    → (stabs m).n_value ≡ addr
    → hit stabs type m (u32 (addr + 1)) ≡ 0
unfolding hit
hit_next stabs type m addr e = ground arith

-- It falls with each round: an exact match at the first index is followed by a search for another
-- address.
abbrev pub measure : Stabs → ℕ → Bisection → ℕ
measure stabs type s = 2 * (s.r_next - s.l) + hit stabs type s.l s.addr

Round-falls :
    (stabs : Stabs) (type : ℕ) (s s' : Bisection) (t : ℕ)
    → s.l ≤ t
    → t < s.r_next
    → Round stabs type s t s'
    → measure stabs type s' < measure stabs type s
Round-falls stabs type s s' t lo hi (skip gone e) =
    rw e (omega (arith, hit_le stabs type (suc t) s.addr))
Round-falls stabs type s s' t lo hi (below m last lt e) =
    rw e (omega (arith, hit_le stabs type (suc t) s.addr))
Round-falls stabs type s s' t lo hi (above m last gt e) =
    rw e (omega (arith, last.from, last.before))
Round-falls stabs type s s' t lo hi (exact m last eq e) = elim (ℕ_discrete m s.l) [
  | yes first ↦ rw e (
      omega (
        arith,
        hit_next stabs type m s.addr eq,
        hit_exact stabs type s.l s.addr (ground (arith, last.here)) (ground (arith)),
      ))
  | no later ↦ rw e (omega (arith, hit_le stabs type m (u32 (s.addr + 1)), last.from, last.before))
]

-- The loop keeps what a round keeps, and ends with the interval empty.
pub search_loop_lem :
    (stabs : Stabs) (type : ℕ) (Keeps : Bisection → Type 0)
    → ((s s' : Bisection) (t : ℕ)
        → s.l ≤ t
        → t < s.r_next
        → Round stabs type s t s'
        → Keeps s
        → Keeps s')
    → (fuel : ℕ) (s : Bisection) → measure stabs type s < fuel
    → Keeps s
    → (s' : Bisection) × (search_loop stabs type s fuel ≡ some s') × Keeps s' × (s'.r_next ≤ s'.l)
unfolding search_loop
search_loop_lem stabs type Keeps kept zero s enough h = absurd (omega arith)
search_loop_lem stabs type Keeps kept (suc fuel) s enough h = elim (Bool-cases (ltb s.l s.r_next)) [
  | inl more ↦
      let t = middle s in
      let s1 = search_round stabs type s in
      let r = round_lem stabs type s in
      let falls = Round-falls stabs type s s1 t (ground arith) (ground arith) r in
      let (s', run, h', done) =
        search_loop_lem stabs type Keeps kept fuel s1 (omega (arith, falls))
          (kept s s1 t (ground arith) (ground arith) r h) in
      (s', rw more run, h', done)
  | inr over ↦ (s, rw over refl, h, ground arith)
]

pub measure_lem :
    (stabs : Stabs) (type : ℕ) (s : Bisection) → measure stabs type s < 2 * (s.r_next - s.l) + 2
measure_lem stabs type s = omega (arith, hit_le stabs type s.l s.addr)
