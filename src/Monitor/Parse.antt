-- ===== src/Monitor/Parse.antt =====
-- The arguments that runcmd finds are the words of the line.
use jos_miles.Prelude.{
  ℕ, zero, suc, ◌+◌, ◌≤◌, ◌<◌, ◌≡◌, ◌≢◌, sym, ap, ◌∙◌, arith, true, false, some, List, [], ◌∷◌,
  ◌++◌, append-nil, append_assoc, length, length-append, inl, inr, ℕ_discrete,
}
use mathlib.Core.Path.{subst}
use jos_miles.CString.{Bytes}
use jos_miles.Monitor.Runcmd.{gobble, scan_arg, parse_args, Arguments, args, too_many}
use jos_miles.CString.Text.{TextAt}
use jos_miles.Monitor.Words.{
  TextsAt, starts_word, words, Gobbled, gobble_lem, Scanned, scan_lem, split_lem,
}

pub record Parsed (mem : Bytes) (buf : ℕ) (argv : List ℕ) (cs : List ℕ) (fuel : ℕ) (mem' : Bytes)
    (argv' : List ℕ) : Type 0 where
  pub run : parse_args mem buf argv fuel ≡ some (args mem' (argv ++ argv'))
  pub texts : TextsAt mem' argv' (words cs)
  pub same : (a : ℕ) → a < buf → mem' a ≡ mem a
  pub ended : starts_word cs ≡ false → mem' buf ≡ 0
  pub bytes : ((a : ℕ) → mem a < 256) → (a : ℕ) → mem' a < 256

-- One round that finds an argument.
parse_round :
    (mem mem1 : Bytes) (buf b e : ℕ) (argv : List ℕ) (fuel : ℕ) (result : Arguments)
    → gobble mem buf (suc fuel) ≡ some (mem1, b)
    → mem1 b ≢ 0
    → length argv ≢ 15
    → scan_arg mem1 b (suc fuel) ≡ some e
    → parse_args mem1 e (argv ++ (b ∷ [])) fuel ≡ some result
    → parse_args mem buf argv (suc fuel) ≡ some result
unfolding parse_args
parse_round mem mem1 buf b e argv fuel result g ne few s rest = ground (arith, g, ne, few, s, rest)

parse_end :
    (mem mem1 : Bytes) (buf b : ℕ) (argv : List ℕ) (fuel : ℕ)
    → gobble mem buf (suc fuel) ≡ some (mem1, b)
    → mem1 b ≡ 0
    → parse_args mem buf argv (suc fuel) ≡ some (args mem1 argv)
unfolding parse_args
parse_end mem mem1 buf b argv fuel g z = ground (arith, g, z)

text_begins :
    (cs : List ℕ) (mem : Bytes) (b : ℕ) → TextAt mem b cs → starts_word cs ≡ true → mem b ≢ 0
text_begins [] mem b t h = absurd (ground arith)
text_begins (c ∷ cs) mem b t h = λ z. t.1 (sym t.0 ∙ z)

module _ (mem mem1 : Bytes) (buf b fuel : ℕ) (argv cs : List ℕ) where
  Parsed-end : Gobbled mem buf cs (suc fuel) mem1 b [] → Parsed mem buf argv cs (suc fuel) mem1 []
  Parsed-end g = record {
    run = rw (append-nil argv) (parse_end mem mem1 buf b argv fuel g.run g.text);
    texts = subst (λ ws. TextsAt mem1 [] ws) (sym g.words_of) tt;
    same = g.same;
    ended = g.ended;
    bytes = g.bytes;
  }

  Parsed-word :
      (cs' w r : List ℕ) (mem2 : Bytes) (argv2 : List ℕ)
      → Gobbled mem buf cs (suc fuel) mem1 b cs'
      → Scanned mem1 b cs' (suc fuel) w r
      → starts_word cs' ≡ true
      → words cs' ≡ w ∷ words r
      → 1 ≤ length w
      → length argv ≢ 15
      → Parsed mem1 (b + length w) (argv ++ (b ∷ [])) r fuel mem2 argv2
      → Parsed mem buf argv cs (suc fuel) mem2 (b ∷ argv2)
  Parsed-word cs' w r mem2 argv2 g s begins split long few p = record {
    run =
        parse_round mem mem1 buf b (b + length w) argv fuel (args mem2 (argv ++ (b ∷ argv2))) g.run
          (text_begins cs' mem1 b g.text begins) few s.run
          (p.run ∙ ap (λ v. some (args mem2 v)) (append_assoc argv (b ∷ []) argv2));
    texts =
        subst (λ ws. TextsAt mem2 (b ∷ argv2) ws) (sym (g.words_of ∙ split))
          (s.string mem2 p.same (p.ended s.ended), p.texts);
    same = λ a h. p.same a (omega (arith, g.from)) ∙ g.same a h;
    ended = λ h. p.same buf (omega (arith, g.from, long)) ∙ g.ended h;
    bytes = λ h. p.bytes (g.bytes h);
  }

refuse :
    (mem mem1 : Bytes) (buf b fuel : ℕ) (argv : List ℕ)
    → gobble mem buf (suc fuel) ≡ some (mem1, b)
    → mem1 b ≢ 0
    → length argv ≡ 15
    → parse_args mem buf argv (suc fuel) ≡ some too_many
unfolding parse_args
refuse mem mem1 buf b fuel argv g ne full = ground (arith, g, ne, full)

pub parse_lem :
    (fuel : ℕ) (cs : List ℕ) (mem : Bytes) (buf : ℕ) (argv : List ℕ)
    → TextAt mem buf cs
    → length cs < fuel
    → length argv + length (words cs) ≤ 15
    → (mem' : Bytes) × (argv' : List ℕ) × Parsed mem buf argv cs fuel mem' argv'
parse_lem zero cs mem buf argv t enough few = absurd (omega arith)
parse_lem (suc fuel) cs mem buf argv t enough few =
    let (mem1, b, cs', g) = gobble_lem cs mem buf (suc fuel) t enough in
    elim g.clean [
      | inl empty ↦
          let g' = subst (Gobbled mem buf cs (suc fuel) mem1 b) empty g in
          (mem1, [], Parsed-end mem mem1 buf b fuel argv cs g')
      | inr begins ↦
          let (w, r, s) = scan_lem cs' mem1 b (suc fuel) g.text (omega (arith, g.shorter)) in
          let (split, long) = split_lem cs' mem1 b (suc fuel) w r s begins in
          let room : length argv + 1 + length (words r) ≤ 15 =
            omega (arith, few, ap (λ ws. length ws) (g.words_of ∙ split)) in
          let (mem2, argv2, p) =
            parse_lem fuel r mem1 (b + length w) (argv ++ (b ∷ [])) s.text
              (omega (arith, s.lengths, long, g.shorter))
              (omega (arith, room, length-append argv (b ∷ []))) in
          (
            mem2,
            b ∷ argv2,
            Parsed-word mem mem1 buf b fuel argv cs cs' w r mem2 argv2 g s begins split long
                (λ e. omega (arith, room)) p,
          )
    ]

-- For a line at buf of which the words are at most 15, and with fuel above its length, the loop of
-- runcmd that cuts it up finds an argument for each word, in order, each of which is a string with
-- that word's characters, and it writes nothing in front of the line.
pub parse_args-words :
    (cs : List ℕ) (mem : Bytes) (buf fuel : ℕ)
    → TextAt mem buf cs
    → length cs < fuel
    → length (words cs) ≤ 15
    → (mem' : Bytes) × (argv : List ℕ) × (parse_args mem buf [] fuel ≡ some (args mem' argv))
      × TextsAt mem' argv (words cs)
      × ((a : ℕ) → a < buf → mem' a ≡ mem a)
parse_args-words cs mem buf fuel t enough few =
    let (mem', argv, p) = parse_lem fuel cs mem buf [] t enough (omega (arith, few)) in
    (mem', argv, p.run, p.texts, p.same)

-- The same as far as the arguments go, when there are too many.
parse_too_many :
    (fuel : ℕ) (cs : List ℕ) (mem : Bytes) (buf : ℕ) (argv : List ℕ)
    → TextAt mem buf cs
    → length cs < fuel
    → length argv ≤ 15
    → 15 < length argv + length (words cs)
    → parse_args mem buf argv fuel ≡ some too_many
parse_too_many zero cs mem buf argv t enough few many = absurd (omega arith)
parse_too_many (suc fuel) cs mem buf argv t enough few many =
    let (mem1, b, cs', g) = gobble_lem cs mem buf (suc fuel) t enough in
    elim g.clean [
      | inl empty ↦
          absurd (omega (arith, many, few, ap (λ ws. length ws) (g.words_of ∙ ap words empty)))
      | inr begins ↦
          let (w, r, s) = scan_lem cs' mem1 b (suc fuel) g.text (omega (arith, g.shorter)) in
          let (split, long) = split_lem cs' mem1 b (suc fuel) w r s begins in
          let ne = text_begins cs' mem1 b g.text begins in
          elim (ℕ_discrete (length argv) 15) [
            | yes full ↦ refuse mem mem1 buf b fuel argv g.run ne full
            | no room ↦
                parse_round mem mem1 buf b (b + length w) argv fuel too_many g.run ne room s.run (
                  parse_too_many fuel r mem1 (b + length w) (argv ++ (b ∷ [])) s.text
                    (omega (arith, s.lengths, long, g.shorter))
                    (omega (arith, length-append argv (b ∷ [])))
                    (omega (
                      arith,
                      many,
                      length-append argv (b ∷ []),
                      ap (λ ws. length ws) (g.words_of ∙ split),
                    )))
          ]
    ]

-- A line of more than 15 words is refused, with fuel above its length.
pub parse_args-too_many :
    (cs : List ℕ) (mem : Bytes) (buf fuel : ℕ)
    → TextAt mem buf cs
    → length cs < fuel
    → 15 < length (words cs)
    → parse_args mem buf [] fuel ≡ some too_many
parse_args-too_many cs mem buf fuel t enough many =
    parse_too_many fuel cs mem buf [] t enough (omega arith) (omega (arith, many))
