-- ===== src/Monitor/Tests.antt =====
-- Runs of the monitor's commands.
use jos_miles.Prelude.{
  ℕ, ◌/◌, ◌≡◌, refl, arith, true, false, not, some, none, List, [], ◌∷◌, ◌==◌, if◌then◌else◌, ltb,
  ◌%◌, ◌+◌, ◌*◌, zero, suc,
}
use jos_miles.Kernel.{Kernel, ok}
use jos_miles.PageTable.Space.{page_at, user_part}
use jos_miles.CString.{Bytes}
use jos_miles.CString.Strtol.{strtol}
use jos_miles.Monitor.{range, read_range, read_high, mon_showmappings, mon_pgmod}
use jos_miles.Monitor.Runcmd.{runcmd, commands}
use jos_miles.CString.Text.{TextAt}
use jos_miles.Monitor.Words.{TextsAt}
use jos_miles.Monitor.Lookup.{NamesAt, named, line_of, runcmd-named}
use jos_miles.Monitor.Entries.{IsWalkable, IsHex, Permitted, mon_pgmod-Permitted}
use jos_miles.Monitor.Loop.{mon_showmappings-endless}
use jos_miles.Sample.{machine, spare, machine-IsSpace}

-- "0" at 100, "5" at 110, "fffffff0" at 120
abbrev strings : Bytes
strings a =
    if a == 100
    then 48
    else if a == 110
    then 53
    else if a == 127
    then 48
    else if not (a / 8 == 15)
    then 0
    else 102

zero-IsHex : IsHex strings 100 0 9
unfolding strtol
zero-IsHex = record { arg_end = 101; read = refl; digits = λ e. omega arith }

five-IsHex : IsHex strings 110 5 9
unfolding strtol
five-IsHex = record { arg_end = 111; read = refl; digits = λ e. omega arith }

mon_pgmod-Permitted_example :
    (k' : Kernel) × (mon_pgmod (page_at 10) strings (0 ∷ 100 ∷ 110 ∷ 100 ∷ []) 9 machine
      ≡ ok (some []) k')
    × Permitted user_part machine 10 0 true false spare k'
mon_pgmod-Permitted_example =
    mon_pgmod-Permitted user_part machine 10 0 100 110 100 0 5 0 9 strings spare machine-IsSpace
      refl refl zero-IsHex five-IsHex zero-IsHex refl

machine-IsWalkable : IsWalkable machine 10
machine-IsWalkable = record { small = omega arith; inside = λ i lt there. ground arith }

first_page : read_range strings (0 ∷ 100 ∷ 100 ∷ []) 9 ≡ some (range 0 0)
unfolding read_range read_high strtol
first_page = refl

last_page : read_range strings (0 ∷ 120 ∷ []) 9 ≡ some (range 0xffff_fff0 0xffff_fff0)
unfolding read_range read_high strtol
last_page = refl

mon_showmappings-endless_example :
    mon_showmappings (page_at 10) strings (0 ∷ 120 ∷ []) 9 machine ≡ ok none machine
mon_showmappings-endless_example =
    mon_showmappings-endless machine 10 0xffff_fff0 0xffff_fff0 9 strings (0 ∷ 120 ∷ [])
      machine-IsWalkable last_page (omega arith) (omega arith)

-- " c d" at 200, and the names "a" to "j" in front of it
abbrev shell : Bytes
shell a =
    if ltb a 40
    then (if a % 4 == 0 then 97 + a / 4 else 0)
    else if a == 200
    then 32
    else if a == 201
    then 99
    else if a == 202
    then 32
    else if a == 203
    then 100
    else 0

abbrev typed_line : List ℕ
typed_line = 32 ∷ 99 ∷ 32 ∷ 100 ∷ []

shell-TextAt : TextAt shell 200 typed_line
shell-TextAt = (
  refl,
  λ e. omega arith,
  (refl, λ e. omega arith, (refl, λ e. omega arith, (refl, λ e. omega arith, refl))),
)

abbrev letters : ℕ → ℕ → List (List ℕ)
letters c zero = []
letters c (suc n) = (c ∷ []) ∷ letters (c + 1) n

shell-NamesAt : NamesAt shell (λ i. 4 * i) 200 0 (letters 97 10)
shell-NamesAt = (
  (refl, λ e. omega arith, refl),
  omega arith,
  (
    (refl, λ e. omega arith, refl),
    omega arith,
    (
      (refl, λ e. omega arith, refl),
      omega arith,
      (
        (refl, λ e. omega arith, refl),
        omega arith,
        (
          (refl, λ e. omega arith, refl),
          omega arith,
          (
            (refl, λ e. omega arith, refl),
            omega arith,
            (
              (refl, λ e. omega arith, refl),
              omega arith,
              (
                (refl, λ e. omega arith, refl),
                omega arith,
                (
                  (refl, λ e. omega arith, refl),
                  omega arith,
                  ((refl, λ e. omega arith, refl), omega arith, tt),
                ),
              ),
            ),
          ),
        ),
      ),
    ),
  ),
)

runcmd-named_example :
    (mem' : Bytes) × (arg : ℕ) × (argv : List ℕ) × TextsAt mem'
      (arg ∷ argv)
      ((99 ∷ []) ∷ (100 ∷ []) ∷ [])
    × (runcmd (λ i. 4 * i) shell 200 5
        ≡ some (line_of (named (99 ∷ []) (letters 97 10) commands) mem' arg argv))
runcmd-named_example =
    runcmd-named typed_line (99 ∷ []) ((100 ∷ []) ∷ []) (letters 97 10) shell (λ i. 4 * i) 200 5
      (λ a. ground arith) shell-NamesAt refl shell-TextAt refl (omega arith) (omega arith)
      (omega arith)
