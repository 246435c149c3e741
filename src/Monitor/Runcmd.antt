-- ===== src/Monitor/Runcmd.antt =====
-- runcmd of kern/monitor.c: how a command line is cut into arguments, in place, and which command they
-- call. `names i` is the address at which the compiler puts `commands[i].name`.
use jos_miles.Prelude.{
  ℕ, zero, suc, ◌+◌, ◌-◌, Bool, ◌&&◌, ◌||◌, not, Option, none, some, List, [], ◌∷◌, ◌++◌, ◌==◌,
  if◌then◌else◌, length,
}
use jos_miles.Prelude.Options.{◌>>=◌}
use jos_miles.Kernel.{update}
use jos_miles.CString.{Bytes, strcmp}

abbrev pub maxargs : ℕ
maxargs = 16

-- `strchr(WHITESPACE, c)` for a character that is not 0
abbrev pub white : ℕ → Bool
white c = (c == 0x09) || (c == 0x0d) || (c == 0x0a) || (c == 0x20)

-- `while (*buf && strchr(WHITESPACE, *buf)) *buf++ = 0`
unfoldable pub gobble : Bytes → ℕ → ℕ → Option (Bytes × ℕ)
gobble mem buf zero = none
gobble mem buf (suc fuel) =
    let rest = gobble (update mem buf 0) (buf + 1) fuel in
    if not (mem buf == 0) && white (mem buf) then rest else some (mem, buf)

-- `while (*buf && !strchr(WHITESPACE, *buf)) buf++`
unfoldable pub scan_arg : Bytes → ℕ → ℕ → Option ℕ
scan_arg mem buf zero = none
scan_arg mem buf (suc fuel) =
    let rest = scan_arg mem (buf + 1) fuel in
    if not (mem buf == 0) && not (white (mem buf)) then rest else some buf

pub data Arguments : Type 0 where
  too_many : Arguments
  args : Bytes → List ℕ → Arguments

-- The loop with the arguments found so far; the inner loops get the same fuel.
unfoldable pub parse_args : Bytes → ℕ → List ℕ → ℕ → Option Arguments
parse_args mem buf argv zero = none
parse_args mem buf argv (suc fuel) = gobble mem buf (suc fuel) >>= λ (mem1, b).
    if mem1 b == 0
    then some (args mem1 argv)
    else if length argv == maxargs - 1
    then some too_many
    else (scan_arg mem1 b (suc fuel) >>= λ e. parse_args mem1 e (argv ++ (b ∷ [])) fuel)

pub data Command : Type 0 where
  help kerninfo meminfo backtrace showmappings pgmod memxv memxp exit : Command

-- The functions of `commands`, in order; the sixth entry is named "sm".
abbrev pub commands : List Command
commands =
    help ∷ kerninfo ∷ meminfo ∷ backtrace ∷ showmappings ∷ showmappings ∷ pgmod ∷ memxv ∷ memxp
    ∷ exit ∷ []

-- The loop over the commands from entry i on.
unfoldable pub find_command : Bytes → (ℕ → ℕ) → ℕ → List Command → ℕ → ℕ → Option (Option Command)
find_command mem names arg [] i fuel = some none
find_command mem names arg (c ∷ cs) i fuel =
    let rest = find_command mem names arg cs (i + 1) fuel in
    strcmp mem arg (names i) fuel >>= λ r. if r == 0 then some (some c) else rest

-- What a line comes to: nothing, a message, or a call of a command with its arguments.
pub data Line : Type 0 where
  nothing too_many_arguments : Line
  unknown : ℕ → Line
  call : Command → Bytes → List ℕ → Line

unfoldable pub dispatch : (ℕ → ℕ) → ℕ → Arguments → Option Line
dispatch names fuel too_many = some too_many_arguments
dispatch names fuel (args mem []) = some nothing
dispatch names fuel (args mem (arg ∷ argv)) =
    find_command mem names arg commands 0 fuel >>= λ found. elim found [
      | none ↦ some (unknown arg)
      | some c ↦ some (call c mem (arg ∷ argv))
    ]

unfoldable pub runcmd : (ℕ → ℕ) → Bytes → ℕ → ℕ → Option Line
runcmd names mem buf fuel = parse_args mem buf [] fuel >>= dispatch names fuel
