-- ===== src/Console/Ring.antt =====
-- The ring as a queue.
use mathlib.Core.Path.{subst}
use jos_miles.Prelude.{
  ℕ, Bool-cases, ℕ_discrete, inl, inr, sym, ap, ◌∙◌, append-nil, append_assoc, ◌+◌, ◌-◌, ◌%◌, ◌≤◌,
  ◌<◌, ◌≡◌, ◌≢◌, refl, List, [], ◌∷◌, ◌++◌, ◌==◌, if◌then◌else◌, arith,
}
use jos_miles.Kernel.{update}
use jos_miles.Lines.Laws.{length}
use jos_miles.Console.{consbufsize, Cons, cons_char, cons_intr, cons_take, cons_getc}

abbrev pub next : ℕ → ℕ
next r = if r + 1 == consbufsize then 0 else r + 1

-- From r up to w, round the end of the ring, stand the characters xs.
abbrev pub Waiting : (ℕ → ℕ) → ℕ → ℕ → List ℕ → Type 0
Waiting buf r w [] = r ≡ w
Waiting buf r w (x ∷ xs) = (r ≢ w) × (buf r ≡ x) × Waiting buf (next r) w xs

Waiting-length :
    (buf : ℕ → ℕ) (r w : ℕ) (xs : List ℕ)
    → r < 512
    → w < 512
    → Waiting buf r w xs
    → length xs ≡ (w + 512 - r) % 512
unfolding length
Waiting-length buf r w [] hr hw q = omega (arith, q)
Waiting-length buf r w (x ∷ xs) hr hw q =
    ground (arith, Waiting-length buf (next r) w xs (ground arith) hw q.2)

Waiting-push :
    (buf : ℕ → ℕ) (r w c : ℕ) (xs : List ℕ)
    → r < 512
    → w < 512
    → length xs < 511
    → Waiting buf r w xs
    → Waiting (update buf w c) r (next w) (xs ++ (c ∷ []))
unfolding length
Waiting-push buf r w c [] hr hw short q =
    (λ e. ground (arith, q), ground (arith, q), ground (arith, q))
Waiting-push buf r w c (x ∷ xs) hr hw short q =
    let count = Waiting-length buf (next r) w xs (ground arith) hw q.2 in
    (
      λ e. ground (arith, q.0),
      ground (arith, q.0),
      Waiting-push buf (next r) w c xs (ground arith) hw (omega arith) q.2,
    )

-- The ring holds the characters xs.
pub record Holds (cons : Cons) (xs : List ℕ) : Type 0 where
  pub rpos : cons.rpos < consbufsize
  pub wpos : cons.wpos < consbufsize
  pub waiting : Waiting cons.buf cons.rpos cons.wpos xs

-- What the ring keeps of the characters of a device: all but 0, as bytes.
unfoldable pub kept : List ℕ → List ℕ
kept [] = []
kept (c ∷ cs) = if c == 0 then kept cs else (c % 256) ∷ kept cs

cons_char-zero : (c : ℕ) (cons : Cons) → c ≡ 0 → cons_char c cons ≡ cons
unfolding cons_char
cons_char-zero c cons z = ground arith

kept_skip : (c : ℕ) (cs : List ℕ) → c ≡ 0 → kept (c ∷ cs) ≡ kept cs
unfolding kept
kept_skip c cs z = ground arith

kept_char : (c : ℕ) (cs : List ℕ) → c ≢ 0 → kept (c ∷ cs) ≡ (c % 256) ∷ kept cs
unfolding kept
kept_char c cs nz = ground arith

cons_char-Holds :
    (c : ℕ) (cons : Cons) (xs : List ℕ)
    → c ≢ 0
    → Holds cons xs
    → length xs < 511
    → Holds (cons_char c cons) (xs ++ ((c % 256) ∷ []))
unfolding cons_char
cons_char-Holds c cons xs nz q short =
    let push =
      Waiting-push cons.buf cons.rpos cons.wpos (c % 256) xs q.rpos q.wpos short q.waiting in
    elim (Bool-cases (c == 0)) [
      | inl z ↦ absurd (ground arith)
      | inr other ↦
          rw other (record { rpos = q.rpos; wpos = ground (arith, q.wpos); waiting = push })
    ]

length-append : (xs ys : List ℕ) → length (xs ++ ys) ≡ length xs + length ys
unfolding length
length-append [] ys = omega arith
length-append (x ∷ xs) ys = omega (arith, length-append xs ys)

length-snoc : (xs : List ℕ) (y : ℕ) → length (xs ++ (y ∷ [])) ≡ length xs + 1
unfolding length
length-snoc [] y = omega arith
length-snoc (x ∷ xs) y = omega (arith, length-snoc xs y)

-- Characters that come in join the queue in their order, as long as there is room for all of them.
pub cons_intr-Holds :
    (cs : List ℕ) (cons : Cons) (xs : List ℕ)
    → Holds cons xs
    → length xs + length (kept cs) ≤ 511
    → Holds (cons_intr cs cons) (xs ++ kept cs)
unfolding cons_intr kept length
cons_intr-Holds [] cons xs q room = subst (Holds cons) (sym (append-nil xs)) q
cons_intr-Holds (c ∷ cs) cons xs q room = elim (ℕ_discrete c 0) [
  | yes z ↦
      let e = kept_skip c cs z in
      let fits : length xs + length (kept cs) ≤ 511 =
        subst (λ ks. length xs + length ks ≤ 511) e room in
      subst (λ ks. Holds (cons_intr cs (cons_char c cons)) (xs ++ ks)) (sym e)
        (rw (cons_char-zero c cons z) (cons_intr-Holds cs cons xs q fits))
  | no nz ↦
      let d = c % 256 in
      let e = kept_char c cs nz in
      let fits : length xs + length (d ∷ kept cs) ≤ 511 =
        subst (λ ks. length xs + length ks ≤ 511) e room in
      let step = cons_char-Holds c cons xs nz q (omega (arith, fits)) in
      let rest =
        cons_intr-Holds cs (cons_char c cons) (xs ++ (d ∷ [])) step
          (omega (arith, length-snoc xs d, fits)) in
      subst (Holds (cons_intr cs (cons_char c cons)))
        (append_assoc xs (d ∷ []) (kept cs) ∙ ap (λ ks. xs ++ ks) (sym e)) rest
]

abbrev pub first : List ℕ → ℕ
first [] = 0
first (x ∷ xs) = x

abbrev pub others : List ℕ → List ℕ
others [] = []
others (x ∷ xs) = xs

cons_take-Holds :
    (xs : List ℕ) (cons : Cons)
    → Holds cons xs
    → ((cons_take cons).0 ≡ first xs) × Holds (cons_take cons).1 (others xs)
unfolding cons_take
cons_take-Holds [] cons q = elim (Bool-cases (cons.rpos == cons.wpos)) [
  | inl same ↦ rw same (refl, q)
  | inr apart ↦ absurd (ground (arith, q.waiting))
]
cons_take-Holds (x ∷ xs) cons q = elim (Bool-cases (cons.rpos == cons.wpos)) [
  | inl same ↦ absurd (ground (arith, q.waiting.0))
  | inr apart ↦
      rw apart (
        q.waiting.1,
        record { rpos = ground (arith, q.rpos); wpos = q.wpos; waiting = q.waiting.2 },
      )
]

-- If at most 511 characters wait in the ring after polling, cons_getc returns the first of them, 0
-- if there is none, and leaves the others in their order; polling adds the characters other than 0
-- of the serial line and then of the keyboard.
pub cons_getc-Holds :
    (serial kbd xs : List ℕ) (cons : Cons)
    → Holds cons xs
    → length xs + length (kept serial) + length (kept kbd) ≤ 511
    → let all = (xs ++ kept serial) ++ kept kbd in
      ((cons_getc serial kbd cons).0 ≡ first all) × Holds (cons_getc serial kbd cons).1 (others all)
unfolding cons_getc
cons_getc-Holds serial kbd xs cons q room =
    let polled = cons_intr-Holds serial cons xs q (omega arith) in
    cons_take-Holds ((xs ++ kept serial) ++ kept kbd) (cons_intr kbd (cons_intr serial cons)) (
      cons_intr-Holds kbd (cons_intr serial cons) (xs ++ kept serial) polled
        (omega (arith, length-append xs (kept serial))))
