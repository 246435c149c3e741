-- ===== src/Monitor/Lookup.antt =====
-- The command that runcmd calls is the one that the line's first word names.
use jos_miles.Prelude.{
  ℕ, zero, suc, ◌+◌, ◌≤◌, ◌<◌, ◌≡◌, refl, ap, ◌∙◌, arith, Bool, true, false, ◌&&◌, Option, none,
  some, List, [], ◌∷◌, ◌==◌, if◌then◌else◌, length, ℕ_discrete,
}
use mathlib.Core.Path.{subst}
use jos_miles.Mmu.{sub32}
use jos_miles.CString.{Bytes, strcmp}
use jos_miles.Monitor.Runcmd.{
  Command, commands, find_command, Line, unknown, call, runcmd, dispatch, parse_args, args,
}
use jos_miles.CString.Text.{TextAt}
use jos_miles.Monitor.Words.{TextsAt, words}
use jos_miles.Monitor.Parse.{parse_lem}

abbrev pub same_text : List ℕ → List ℕ → Bool
same_text [] [] = true
same_text [] (y ∷ ys) = false
same_text (x ∷ xs) [] = false
same_text (x ∷ xs) (y ∷ ys) = (x == y) && same_text xs ys

-- strcmp on two strings of bytes is 0 if and only if they are the same.
strcmp-same_text :
    (w v : List ℕ) (mem : Bytes) (p q fuel : ℕ)
    → ((a : ℕ) → mem a < 256)
    → TextAt mem p w
    → TextAt mem q v
    → length w < fuel
    → (r : ℕ) × (strcmp mem p q fuel ≡ some r) × ((r == 0) ≡ same_text w v)
unfolding strcmp
strcmp-same_text w v mem p q zero byte t t' enough = absurd (omega arith)
strcmp-same_text [] [] mem p q (suc fuel) byte t t' enough = (0, ground (arith, t, t'), refl)
strcmp-same_text [] (y ∷ ys) mem p q (suc fuel) byte t t' enough =
    (sub32 (mem p) (mem q), ground (arith, t, t'.0), ground (arith, t, t'.0, t'.1, byte q))
strcmp-same_text (x ∷ xs) [] mem p q (suc fuel) byte t t' enough =
    (sub32 (mem p) (mem q), ground (arith, t.0, t'), ground (arith, t.0, t.1, t', byte p))
strcmp-same_text (x ∷ xs) (y ∷ ys) mem p q (suc fuel) byte t t' enough = elim (ℕ_discrete x y) [
  | yes e ↦
      let (r, run, same) =
        strcmp-same_text xs ys mem (p + 1) (q + 1) fuel byte t.2 t'.2 (omega arith) in
      (r, ground (arith, t.0, t.1, t'.0, e, run), ground (arith, e, same))
  | no ne ↦ (
    sub32 (mem p) (mem q),
    ground (arith, t.0, t'.0, ne),
    ground (arith, t.0, t'.0, ne, byte p, byte q),
  )
]

-- The command of the first of the names that is the word.
abbrev pub named : List ℕ → List (List ℕ) → List Command → Option Command
named w [] cs = none
named w (v ∷ vs) [] = none
named w (v ∷ vs) (c ∷ cs) = if same_text w v then some c else named w vs cs

-- The names from number i on stand in memory in front of `buf`.
abbrev pub NamesAt : Bytes → (ℕ → ℕ) → ℕ → ℕ → List (List ℕ) → Type 0
NamesAt mem names buf i [] = Unit {0}
NamesAt mem names buf i (v ∷ vs) =
    TextAt mem (names i) v × (names i + length v < buf) × NamesAt mem names buf (i + 1) vs

TextAt-below :
    (cs : List ℕ) (mem mem' : Bytes) (p buf : ℕ)
    → TextAt mem p cs
    → p + length cs < buf
    → ((a : ℕ) → a < buf → mem' a ≡ mem a)
    → TextAt mem' p cs
TextAt-below [] mem mem' p buf t lt same = same p (omega arith) ∙ t
TextAt-below (c ∷ cs) mem mem' p buf t lt same =
    (same p (omega arith) ∙ t.0, t.1, TextAt-below cs mem mem' (p + 1) buf t.2 (omega arith) same)

if_some :
    {A : Type 0} (b : Bool) (x y : A) → (if b then some x else some y) ≡ some (if b then x else y)
if_some true x y = refl
if_some false x y = refl

find_command-named :
    (vs : List (List ℕ)) (cs : List Command) (mem mem' : Bytes) (names : ℕ → ℕ) (arg buf i fuel : ℕ)
    (w : List ℕ)
    → length vs ≡ length cs
    → ((a : ℕ) → mem' a < 256)
    → TextAt mem' arg w
    → NamesAt mem names buf i vs
    → ((a : ℕ) → a < buf → mem' a ≡ mem a)
    → length w < fuel
    → find_command mem' names arg cs i fuel ≡ some (named w vs cs)
unfolding find_command
find_command-named [] [] mem mem' names arg buf i fuel w len byte t at same enough = refl
find_command-named [] (c ∷ cs) mem mem' names arg buf i fuel w len byte t at same enough =
    absurd (omega (arith, len))
find_command-named (v ∷ vs) [] mem mem' names arg buf i fuel w len byte t at same enough =
    absurd (omega (arith, len))
find_command-named (v ∷ vs) (c ∷ cs) mem mem' names arg buf i fuel w len byte t at same enough =
    let here = TextAt-below v mem mem' (names i) buf at.0 at.1 same in
    let (r, run, eq) = strcmp-same_text w v mem' arg (names i) fuel byte t here enough in
    let rest =
      find_command-named vs cs mem mem' names arg buf (i + 1) fuel w (omega (arith, len)) byte t
        at.2 same enough in
    rw run (rw eq (rw rest (if_some (same_text w v) (some c) (named w vs cs))))

-- What the line comes to with the command found.
abbrev pub line_of : Option Command → Bytes → ℕ → List ℕ → Line
line_of none mem arg argv = unknown arg
line_of (some c) mem arg argv = call c mem (arg ∷ argv)

dispatch_lem :
    (names : ℕ → ℕ) (fuel : ℕ) (mem : Bytes) (arg : ℕ) (argv : List ℕ) (found : Option Command)
    → find_command mem names arg commands 0 fuel ≡ some found
    → dispatch names fuel (args mem (arg ∷ argv)) ≡ some (line_of found mem arg argv)
unfolding dispatch
dispatch_lem names fuel mem arg argv none e = rw e refl
dispatch_lem names fuel mem arg argv (some c) e = rw e refl

runcmd_lem :
    (names : ℕ → ℕ) (mem mem' : Bytes) (buf fuel : ℕ) (argv : List ℕ) (l : Line)
    → parse_args mem buf [] fuel ≡ some (args mem' argv)
    → dispatch names fuel (args mem' argv) ≡ some l
    → runcmd names mem buf fuel ≡ some l
unfolding runcmd
runcmd_lem names mem mem' buf fuel argv l e e' = rw e e'

-- The arguments that stand for at least one word.
first_arg :
    (mem : Bytes) (argv : List ℕ) (w : List ℕ) (ws : List (List ℕ))
    → TextsAt mem argv (w ∷ ws)
    → (arg : ℕ) × (rest : List ℕ) × (argv ≡ arg ∷ rest)
first_arg mem [] w ws t = absurd t
first_arg mem (arg ∷ rest) w ws t = (arg, rest, refl)

-- In a memory of bytes, with the ten command names in front of the line, for a line of one to 15 words
-- and fuel above its length and that of its first word, runcmd calls the command of the first name that
-- is the line's first word, with one argument for each word of the line, a string with that word's
-- characters; if no name is that word, the command is reported as unknown.
pub runcmd-named :
    (cs w : List ℕ) (ws vs : List (List ℕ)) (mem : Bytes) (names : ℕ → ℕ) (buf fuel : ℕ)
    → ((a : ℕ) → mem a < 256)
    → NamesAt mem names buf 0 vs
    → length vs ≡ 10
    → TextAt mem buf cs
    → words cs ≡ w ∷ ws
    → length (words cs) ≤ 15
    → length cs < fuel
    → length w < fuel
    → (mem' : Bytes) × (arg : ℕ) × (argv : List ℕ) × TextsAt mem' (arg ∷ argv) (w ∷ ws)
      × (runcmd names mem buf fuel ≡ some (line_of (named w vs commands) mem' arg argv))
runcmd-named cs w ws vs mem names buf fuel byte at ten t split few enough enough' =
    let (mem', argv, p) = parse_lem fuel cs mem buf [] t enough (omega (arith, few)) in
    let texts = subst (TextsAt mem' argv) split p.texts in
    let (arg, rest, e) = first_arg mem' argv w ws texts in
    let texts' = subst (λ v. TextsAt mem' v (w ∷ ws)) e texts in
    let found =
      find_command-named vs commands mem mem' names arg buf 0 fuel w ten (p.bytes byte) texts'.0 at
        p.same enough' in
    (
      mem',
      arg,
      rest,
      texts',
      runcmd_lem names mem mem' buf fuel (arg ∷ rest) (line_of (named w vs commands) mem' arg rest)
          (p.run ∙ ap (λ v. some (args mem' v)) e)
          (dispatch_lem names fuel mem' arg rest (named w vs commands) found),
    )
