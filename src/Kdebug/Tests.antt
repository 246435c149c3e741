-- ===== src/Kdebug/Tests.antt =====
-- The search on small tables.
use jos_miles.Prelude.{ℕ, ◌+◌, ◌*◌, ◌≡◌, refl, some, arith, ◌==◌, if◌then◌else◌}
use jos_miles.Kdebug.{Stabs, n_fun, n_so, n_sline, stab_binsearch}
use jos_miles.Kdebug.Narrow.{IsOrdered}
use jos_miles.Kdebug.Found.{IsFound, stab_binsearch-IsFound, stab_binsearch-total}

-- A function starts at every third entry, 16 bytes apart.
abbrev functions : Stabs
functions i = record {
  n_strx = 0;
  n_type =
      if i == 0
      then n_so
      else if i == 3
      then n_fun
      else if i == 6
      then n_fun
      else if i == 9
      then n_fun
      else n_sline;
  n_other = 0;
  n_desc = i;
  n_value = 16 * i;
}

found_in_middle : stab_binsearch functions 0 12 n_fun 100 ≡ some (7, 9)
unfolding stab_binsearch
found_in_middle = refl

not_found_in_front : stab_binsearch functions 0 12 n_fun 10 ≡ some (1, 3)
unfolding stab_binsearch
not_found_in_front = refl

-- The entry at 16 is found for 16 if 17 is not the start of another, but not otherwise.
abbrev adjacent : Stabs
adjacent i = record { n_strx = 0; n_type = n_sline; n_other = 0; n_desc = i; n_value = 16 + i }

next_value_misleads : stab_binsearch adjacent 0 2 n_sline 16 ≡ some (2, 2)
unfolding stab_binsearch
next_value_misleads = refl

stab_binsearch-total_example : (l r : ℕ) × (stab_binsearch adjacent 3 9 n_so 20 ≡ some (l, r))
stab_binsearch-total_example = stab_binsearch-total adjacent 3 9 n_so 20

functions-IsOrdered : IsOrdered functions n_fun 1 12 100
functions-IsOrdered = record {
  sorted = λ i j lo le hi here here'. omega arith;
  apart = λ i lo hi here e. omega arith;
}

stab_binsearch-IsFound_example : (l r_next : ℕ) × IsFound functions n_fun 1 12 100 l r_next
stab_binsearch-IsFound_example =
    stab_binsearch-IsFound functions 1 12 n_fun 100 3 functions-IsOrdered (omega arith)
      (omega arith) (omega arith) refl (omega arith)
