-- ===== src/Monitor/Words.antt =====
-- The words of a line, and what the two inner loops of runcmd make of them.
use jos_miles.Prelude.{
  ℕ, zero, suc, ◌+◌, ◌≤◌, ◌<◌, ◌≡◌, ◌⊎◌, refl, sym, ap, ◌∙◌, arith, Bool, true, false, not, some,
  List, [], ◌∷◌, if◌then◌else◌, length, Bool-cases, inl, inr,
}
use mathlib.Core.Path.{subst}
use jos_miles.Kernel.{update}
use jos_miles.CString.{Bytes}
use jos_miles.CString.Text.{TextAt}
use jos_miles.Monitor.Runcmd.{white, gobble, scan_arg}

-- Words and positions, one for one.
abbrev pub TextsAt : Bytes → List ℕ → List (List ℕ) → Type 0
TextsAt mem [] [] = Unit {0}
TextsAt mem [] (w ∷ ws) = ⊥
TextsAt mem (p ∷ ps) [] = ⊥
TextsAt mem (p ∷ ps) (w ∷ ws) = TextAt mem p w × TextsAt mem ps ws

abbrev pub starts_word : List ℕ → Bool
starts_word [] = false
starts_word (c ∷ cs) = not (white c)

abbrev pub cons_head : ℕ → List (List ℕ) → List (List ℕ)
cons_head c [] = (c ∷ []) ∷ []
cons_head c (w ∷ ws) = (c ∷ w) ∷ ws

-- The words of a line, from the right.
abbrev pub words : List ℕ → List (List ℕ)
words [] = []
words (c ∷ cs) =
    if white c
    then words cs
    else if starts_word cs
    then cons_head c (words cs)
    else (c ∷ []) ∷ words cs

-- The first word of a text that starts with one, and what follows it.
abbrev pub word_of : List ℕ → List ℕ
word_of [] = []
word_of (c ∷ cs) = if white c then [] else c ∷ word_of cs

abbrev pub rest_of : List ℕ → List ℕ
rest_of [] = []
rest_of (c ∷ cs) = if white c then c ∷ cs else rest_of cs

words-word :
    (c : ℕ) (cs : List ℕ) → white c ≡ false → words (c ∷ cs) ≡ (c ∷ word_of cs) ∷ words (rest_of cs)
words-word c [] h = rw h refl
words-word c (d ∷ cs) h = elim (Bool-cases (white d)) [
  | inl e ↦ rw (h, e) (rw e refl)
  | inr e ↦
      let one : words (c ∷ d ∷ cs) ≡ cons_head c (words (d ∷ cs)) = rw (h, e) refl in
      one ∙ ap (cons_head c) (words-word d cs e) ∙ rw e refl
]

-- A write in front of a text, or behind the writes, leaves it.
TextAt-same :
    (mem mem' : Bytes) (p : ℕ) (cs : List ℕ)
    → ((a : ℕ) → p ≤ a → mem' a ≡ mem a)
    → TextAt mem p cs
    → TextAt mem' p cs
TextAt-same mem mem' p [] same t = same p (omega arith) ∙ t
TextAt-same mem mem' p (c ∷ cs) same t = (
  same p (omega arith) ∙ t.0,
  t.1,
  TextAt-same mem mem' (p + 1) cs (λ a h. same a (omega arith)) t.2,
)

-- What the first inner loop leaves of the text cs at buf: a text that starts with a word or is empty.
pub record Gobbled (mem : Bytes) (buf : ℕ) (cs : List ℕ) (fuel : ℕ) (mem' : Bytes) (b : ℕ)
    (cs' : List ℕ) : Type 0 where
  pub run : gobble mem buf fuel ≡ some (mem', b)
  pub text : TextAt mem' b cs'
  pub same : (a : ℕ) → a < buf → mem' a ≡ mem a
  pub from : buf ≤ b
  pub bytes : ((a : ℕ) → mem a < 256) → (a : ℕ) → mem' a < 256
  pub ended : starts_word cs ≡ false → mem' buf ≡ 0
  pub words_of : words cs ≡ words cs'
  pub clean : (cs' ≡ []) ⊎ (starts_word cs' ≡ true)
  pub shorter : length cs' ≤ length cs

pub gobble_lem :
    (cs : List ℕ) (mem : Bytes) (buf fuel : ℕ)
    → TextAt mem buf cs
    → length cs < fuel
    → (mem' : Bytes) × (b : ℕ) × (cs' : List ℕ) × Gobbled mem buf cs fuel mem' b cs'
unfolding gobble
gobble_lem cs mem buf zero t enough = absurd (omega arith)
gobble_lem [] mem buf (suc fuel) t enough = (
  mem,
  buf,
  [],
  record {
    run = ground (arith, t);
    text = t;
    same = λ a h. refl;
    from = omega arith;
    bytes = λ h. h;
    ended = λ h. t;
    words_of = refl;
    clean = inl refl;
    shorter = omega arith;
  },
)
gobble_lem (c ∷ cs) mem buf (suc fuel) t enough = elim (Bool-cases (white c)) [
  | inl blank ↦
      let later = TextAt-same mem (update mem buf 0) (buf + 1) cs (λ a h. ground arith) t.2 in
      let (mem', b, cs', g) = gobble_lem cs (update mem buf 0) (buf + 1) fuel later (omega arith) in
      (
        mem',
        b,
        cs',
        record {
          run = rw (t.0) (ground (arith, t.1, blank, g.run));
          text = g.text;
          same = λ a h. g.same a (omega arith) ∙ ground arith;
          from = omega (arith, g.from);
          bytes = λ h. g.bytes (λ a. ground (arith, h a));
          ended = λ h. g.same buf (omega arith) ∙ ground arith;
          words_of = rw blank g.words_of;
          clean = g.clean;
          shorter = omega (arith, g.shorter);
        },
      )
  | inr letter ↦ (
    mem,
    buf,
    c ∷ cs,
    record {
      run = rw (t.0) (ground (arith, t.1, letter));
      text = t;
      same = λ a h. refl;
      from = omega arith;
      bytes = λ h. h;
      ended = λ h. absurd (ground (arith, letter));
      words_of = refl;
      clean = inr (ground (arith, letter));
      shorter = omega arith;
    },
  )
]

-- What the second inner loop makes of a text: a word w, which is a string once it is ended by a 0,
-- and the rest r.
pub record Scanned (mem : Bytes) (b : ℕ) (cs : List ℕ) (fuel : ℕ) (w r : List ℕ) : Type 0 where
  pub run : scan_arg mem b fuel ≡ some (b + length w)
  pub text : TextAt mem (b + length w) r
  pub ended : starts_word r ≡ false
  pub lengths : length w + length r ≡ length cs
  pub is_word : word_of cs ≡ w
  pub is_rest : rest_of cs ≡ r
  pub string :
      (mem' : Bytes)
      → ((a : ℕ) → a < b + length w → mem' a ≡ mem a)
      → mem' (b + length w) ≡ 0
      → TextAt mem' b w

pub scan_lem :
    (cs : List ℕ) (mem : Bytes) (b fuel : ℕ)
    → TextAt mem b cs
    → length cs < fuel
    → (w r : List ℕ) × Scanned mem b cs fuel w r
unfolding scan_arg
scan_lem cs mem b zero t enough = absurd (omega arith)
scan_lem [] mem b (suc fuel) t enough = (
  [],
  [],
  record {
    run = ground (arith, t);
    text = ground (arith, t);
    ended = refl;
    lengths = refl;
    is_word = refl;
    is_rest = refl;
    string = λ mem' same end. ground (arith, end);
  },
)
scan_lem (c ∷ cs) mem b (suc fuel) t enough = elim (Bool-cases (white c)) [
  | inl blank ↦ (
    [],
    c ∷ cs,
    record {
      run = rw (t.0) (ground (arith, t.1, blank));
      text = subst (λ p. TextAt mem p (c ∷ cs)) (omega arith) t;
      ended = rw blank refl;
      lengths = omega arith;
      is_word = rw blank refl;
      is_rest = rw blank refl;
      string = λ mem' same end. ground (arith, end);
    },
  )
  | inr letter ↦
      let (w, r, s) = scan_lem cs mem (b + 1) fuel t.2 (omega arith) in
      (
        c ∷ w,
        r,
        record {
          run = rw (t.0) (ground (arith, t.1, letter, s.run));
          text = subst (λ p. TextAt mem p r) (omega arith) s.text;
          ended = s.ended;
          lengths = omega (arith, s.lengths);
          is_word = rw letter (ap (λ v. c ∷ v) s.is_word);
          is_rest = rw letter s.is_rest;
          string = λ mem' same end. (
            same b (omega arith) ∙ t.0,
            t.1,
            s.string mem' (λ a h. same a (omega arith)) (subst (λ p. mem' p ≡ 0) (omega arith) end),
          );
        },
      )
]

letter_word : (c : ℕ) (cs : List ℕ) → white c ≡ false → word_of (c ∷ cs) ≡ c ∷ word_of cs
letter_word c cs h = rw h refl

letter_rest : (c : ℕ) (cs : List ℕ) → white c ≡ false → rest_of (c ∷ cs) ≡ rest_of cs
letter_rest c cs h = rw h refl

-- A text that starts with a word is that word and the rest.
pub split_lem :
    (cs : List ℕ) (mem : Bytes) (b fuel : ℕ) (w r : List ℕ)
    → Scanned mem b cs fuel w r
    → starts_word cs ≡ true
    → (words cs ≡ w ∷ words r) × (1 ≤ length w)
split_lem [] mem b fuel w r s h = absurd (ground arith)
split_lem (c ∷ cs) mem b fuel w r s h =
    let letter : white c ≡ false = ground (arith, h) in
    let word : c ∷ word_of cs ≡ w = sym (letter_word c cs letter) ∙ s.is_word in
    let rest : rest_of cs ≡ r = sym (letter_rest c cs letter) ∙ s.is_rest in
    (
      words-word c cs letter ∙ (λ i. word i ∷ words (rest i)),
      omega (arith, ap (λ v. length v) word),
    )
