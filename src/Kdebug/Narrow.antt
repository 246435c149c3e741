-- ===== src/Kdebug/Narrow.antt =====
-- What a round of stab_binsearch keeps when the entries are in order.
use jos_miles.Prelude.{
  ℕ, suc, ◌+◌, ◌^◌, max, ◌≤◌, ◌<◌, ◌≡◌, ◌≢◌, refl, ◌∙◌, arith, true, false, ltb, Bool-cases, inl,
  inr, ◌⊎◌,
}
use jos_miles.Kdebug.{Stabs, is, Bisection}
use jos_miles.Kdebug.Search.{NoneIn, IsLast, Round, skip, below, above, exact}

-- The entries of the type between two indices are in order, and none has the value that follows `addr`.
pub record IsOrdered (stabs : Stabs) (type left right_next addr : ℕ) : Type 0 where
  pub sorted :
      (i j : ℕ)
      → left ≤ i
      → i ≤ j
      → j < right_next
      → is stabs type i ≡ true
      → is stabs type j ≡ true
      → (stabs i).n_value ≤ (stabs j).n_value
  pub apart :
      (i : ℕ) → left ≤ i → i < right_next → is stabs type i ≡ true → (stabs i).n_value ≢ addr + 1

-- The last entry up to `e` is the last one up to `e'` if none follows.
longer :
    (stabs : Stabs) (type left l e e' m : ℕ)
    → left ≤ l
    → IsLast stabs type l e m
    → e ≤ e'
    → ((i : ℕ) → e ≤ i → i < e' → is stabs type i ≡ false)
    → IsLast stabs type left e' m
longer stabs type left l e e' m le last le' gone = record {
  from = omega (arith, last.from);
  before = omega (arith, last.before);
  here = last.here;
  behind = λ i lo hi. elim (Bool-cases (ltb i e)) [
    | inl early ↦ last.behind i lo (ground arith)
    | inr late ↦ gone i (ground arith) hi
  ];
}

module _ (stabs : Stabs) (type left right_next addr : ℕ) where
  -- What the loop keeps.
  pub record Narrowed (s : Bisection) : Type 0 where
    pub from : left ≤ s.l
    pub to : s.r_next ≤ right_next
    pub target : (s.addr ≡ addr) ⊎ (s.addr ≡ addr + 1)
    pub low : (i : ℕ) → left ≤ i → i < s.l → is stabs type i ≡ true → (stabs i).n_value ≤ addr
    pub high :
        (i : ℕ) → s.r_next ≤ i → i < right_next → is stabs type i ≡ true → addr < (stabs i).n_value
    pub best :
        NoneIn stabs type left s.l
        ⊎ ((s.any_matches ≡ true)
            × IsLast stabs type left (max s.l (suc s.region_left)) s.region_left
            × ((stabs s.region_left).n_value ≤ addr)
            × (s.region_left < right_next))
    pub matched : (s.any_matches ≡ true) ⊎ (s.r_next ≡ right_next)

  pub Narrowed-Round :
      IsOrdered stabs type left right_next addr
      → addr + 1 < 2 ^ 32
      → (s s' : Bisection) (t : ℕ) → s.l ≤ t
      → t < s.r_next
      → Round stabs type s t s'
      → Narrowed s
      → Narrowed s'
  Narrowed-Round order fits s s' t lo hi (skip gone e) n = rw e (record {
    from = omega (arith, n.from);
    to = n.to;
    target = n.target;
    low = λ i le lt here. ground (arith, n.low i, gone i);
    high = n.high;
    best = elim n.best [
      | inl none_yet ↦ inl (λ i le lt. ground (arith, none_yet i, gone i))
      | inr (some_match, last, le, lt) ↦ inr (
        some_match,
        longer stabs type left left (max s.l (suc s.region_left)) (max (suc t) (suc s.region_left))
            s.region_left (omega arith) last (omega arith)
            (λ i le' lt'. gone i (omega arith) (omega arith)),
        le,
        lt,
      )
    ];
    matched = n.matched;
  })
  Narrowed-Round order fits s s' t lo hi (below m last lt e) n =
      let v : (stabs m).n_value ≤ addr = elim n.target [
        | inl e' ↦ omega arith
        | inr e' ↦ omega arith
      ] in
      rw e (record {
        from = omega (arith, n.from);
        to = n.to;
        target = n.target;
        low = λ i le lt' here. elim (Bool-cases (ltb m i)) [
          | inl late ↦ absurd (ground (arith, last.behind i))
          | inr early ↦ omega (
            arith,
            order.sorted i m le (ground arith) (omega (arith, n.to, last.before)) here last.here,
            v,
          )
        ];
        high = n.high;
        best = inr (
          refl,
          longer stabs type left s.l (suc t) (max (suc t) (suc m)) m n.from last (omega arith)
              (λ i le' lt'. absurd (omega (arith, last.before))),
          v,
          omega (arith, n.to, last.before),
        );
        matched = inl refl;
      })
  Narrowed-Round order fits s s' t lo hi (above m last gt e) n =
      let ge : addr ≤ s.addr = elim n.target [ inl e' ↦ omega arith | inr e' ↦ omega arith ] in
      rw e (record {
        from = n.from;
        to = omega (arith, n.to, last.before);
        target = n.target;
        low = n.low;
        high = λ i le lt here.
            omega
              (arith, order.sorted m i (omega (arith, n.from, last.from)) le lt last.here here, ge);
        best = elim n.best [
          | inl none_yet ↦ inl none_yet
          | inr (some_match, last', le, lt) ↦ inr (refl, last', le, lt)
        ];
        matched = inl refl;
      })
  Narrowed-Round order fits s s' t lo hi (exact m last eq e) n =
      let hits : s.addr ≡ addr = elim n.target [
        | inl e' ↦ e'
        | inr e' ↦ absurd (
            order.apart m (omega (arith, n.from, last.from)) (omega (arith, n.to, last.before))
              last.here (eq ∙ e'))
      ] in
      let v : (stabs m).n_value ≤ addr = omega arith in
      rw e (record {
        from = omega (arith, n.from, last.from);
        to = n.to;
        target = inr (omega (arith, hits));
        low = λ i le lt here. omega (
          arith,
          order.sorted i m le (omega arith) (omega (arith, n.to, last.before)) here last.here,
          v,
        );
        high = n.high;
        best = inr (
          refl,
          record {
            from = omega (arith, n.from, last.from);
            before = omega arith;
            here = last.here;
            behind = λ i le' lt'. absurd (omega arith);
          },
          v,
          omega (arith, n.to, last.before),
        );
        matched = inl refl;
      })

-- When the interval is empty, the best entry is the last one before it.
pub Narrowed-end :
    (stabs : Stabs) (type left right_next addr i : ℕ) (s : Bisection)
    → Narrowed stabs type left right_next addr s
    → s.r_next ≤ s.l
    → left ≤ i
    → i < right_next
    → is stabs type i ≡ true
    → (stabs i).n_value ≤ addr
    → (s.any_matches ≡ true)
      × IsLast stabs type left s.r_next s.region_left
      × ((stabs s.region_left).n_value ≤ addr)
Narrowed-end stabs type left right_next addr i s n over lo hi here le =
    elim (Bool-cases (ltb i s.r_next)) [
      | inr out ↦ absurd (omega (arith, n.high i (ground arith) hi here))
      | inl into ↦ elim n.best [
        | inl none_yet ↦ absurd (ground (arith, none_yet i))
        | inr (some_match, last, starts, lt) ↦
            let inside : s.region_left < s.r_next = elim (Bool-cases (ltb s.region_left s.r_next)) [
              | inl yes_inside ↦ ground arith
              | inr ge ↦ absurd (omega (arith, n.high s.region_left (ground arith) lt last.here))
            ] in
            (
              some_match,
              record {
                from = last.from;
                before = inside;
                here = last.here;
                behind = λ j lo' hi'. last.behind j lo' (omega arith);
              },
              starts,
            )
      ]
    ]
