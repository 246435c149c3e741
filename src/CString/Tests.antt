-- ===== src/CString/Tests.antt =====
-- Runs of the string routines.
use jos_miles.Prelude.{◌-◌, ◌≡◌, refl, ◌&&◌, leb, ltb, some, arith, ◌^◌, ◌==◌, if◌then◌else◌}
use jos_miles.CString.{Bytes}
use jos_miles.CString.Memory.{memmove, moved, memmove-moved}
use jos_miles.CString.Terminated.{Terminated}
use jos_miles.CString.Strtol.{strtol}

-- "abc" at 100, and again at 200.
abbrev text : Bytes
text a =
    if (leb 100 a) && (ltb a 103) then a - 3 else if (leb 200 a) && (ltb a 203) then a - 103 else 0

text-Terminated : Terminated text 100 3
text-Terminated = (λ i h z. ground arith, refl)

memmove-moved_example : memmove text 101 100 3 103 ≡ moved text 101 100 3 103
memmove-moved_example = memmove-moved text 101 100 3 103 (omega arith) (omega arith)

-- "47 " at 0
abbrev decimal : Bytes
decimal a = if a == 0 then 52 else if a == 1 then 55 else 32

-- " -0x1f"
abbrev hexadecimal : Bytes
hexadecimal a =
    if a == 0
    then 32
    else if a == 1
    then 45
    else if a == 2
    then 48
    else if a == 3
    then 120
    else if a == 4
    then 49
    else if a == 5
    then 102
    else 0

minus_31 : strtol hexadecimal 0 0 10 ≡ some (2 ^ 32 - 31, 6)
unfolding strtol
minus_31 = refl
