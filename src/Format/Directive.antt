-- ===== src/Format/Directive.antt =====
-- vprintfmt of lib/printfmt.c: the directives of a format string. The result is what is given to putch,
-- `none` where the fuel of a loop over a string is used up. An argument of any size is one element of
-- the list, 0 behind its end. `none` in a width or precision is a negative int.
use jos_miles.Prelude.{
  ℕ, zero, suc, ◌+◌, ◌-◌, ◌*◌, ◌%◌, ◌^◌, Bool, true, false, ◌&&◌, ◌||◌, Option, none, some, List,
  [], ◌∷◌, ◌++◌, ltb, leb, ◌==◌, if◌then◌else◌, drop, take, get_or, length,
}
use jos_miles.Prelude.Options.{◌>>=◌}
use jos_miles.CString.{Bytes, strnlen}
use jos_miles.Format.{pads, printnum, getuint, print_signed}

pub record Directive : Type 0 where
  pub padc : ℕ
  pub width : Option ℕ
  pub precision : Option ℕ
  pub lflag : ℕ
  pub altflag : Bool
  -- What is left of the arguments, and of the format.
  pub args : List ℕ
  pub fmt : ℕ

-- At the start of a %-escape sequence.
abbrev pub fresh : List ℕ → ℕ → Directive
fresh args fmt = record {
  padc = 32;
  width = none;
  precision = none;
  lflag = 0;
  altflag = false;
  args = args;
  fmt = fmt;
}

-- `va_arg(ap, int)`, where negative
abbrev int_arg : ℕ → Option ℕ
int_arg a = if leb (2 ^ 31) (a % 2 ^ 32) then none else some (a % 2 ^ 32)

-- `process_precision`
abbrev process_precision : Option ℕ → Directive → Directive
process_precision precision d = elim d.width [
  | none ↦ record d { width = precision; precision = none }
  | some w ↦ record d { precision = precision }
]

-- The loop of the width field, from the digit `ch` on.
unfoldable pub read_width : Bytes → ℕ → ℕ → ℕ → ℕ → Option (ℕ × ℕ)
read_width mem ch precision fmt zero = none
read_width mem ch precision fmt (suc fuel) =
    let p = precision * 10 + ch - 48 in
    let rest = read_width mem (mem fmt) p (fmt + 1) fuel in
    if ltb (mem fmt) 48 || ltb 57 (mem fmt) then some (p, fmt) else rest

-- One round of `reswitch` that goes back to it, `none` where the character ends the sequence.
unfoldable pub flag : Bytes → ℕ → Directive → ℕ → Option (Option Directive)
flag mem ch d fuel =
    if (ch == 45) || (ch == 48)
    then some (some (record d { padc = ch }))
    else if leb 49 ch && leb ch 57
    then (read_width mem ch 0 d.fmt fuel >>= λ (p, fmt).
        some (some (process_precision (some p) (record d { fmt = fmt }))))
    else if ch == 42
    then some
        (some (process_precision (int_arg (get_or d.args 0 0)) (record d { args = drop 1 d.args })))
    else if ch == 46
    then some (some (elim d.width [ none ↦ record d { width = some 0 } | some w ↦ d ]))
    else if ch == 35
    then some (some (record d { altflag = true }))
    else if ch == 108
    then some (some (record d { lflag = d.lflag + 1 }))
    else some none

-- The character that ends the sequence, with what stands in front of it.
unfoldable pub flags : Bytes → Directive → ℕ → Option (ℕ × Directive)
flags mem d zero = none
flags mem d (suc fuel) =
    let ch = mem d.fmt in
    let d1 = record d { fmt = d.fmt + 1 } in
    flag mem ch d1 fuel >>= λ next. elim next [ none ↦ some (ch, d1) | some d2 ↦ flags mem d2 fuel ]

-- `error_string`, where there is one.
abbrev error_string : ℕ → Option (List ℕ)
error_string err =
    if err == 1
    then some (
        117 ∷ 110 ∷ 115 ∷ 112 ∷ 101 ∷ 99 ∷ 105 ∷ 102 ∷ 105 ∷ 101 ∷ 100 ∷ 32 ∷ 101 ∷ 114 ∷ 114 ∷ 111
        ∷ 114 ∷ [])
    else if err == 2
    then some
        (98 ∷ 97 ∷ 100 ∷ 32 ∷ 101 ∷ 110 ∷ 118 ∷ 105 ∷ 114 ∷ 111 ∷ 110 ∷ 109 ∷ 101 ∷ 110 ∷ 116 ∷ [])
    else if err == 3
    then some (
        105 ∷ 110 ∷ 118 ∷ 97 ∷ 108 ∷ 105 ∷ 100 ∷ 32 ∷ 112 ∷ 97 ∷ 114 ∷ 97 ∷ 109 ∷ 101 ∷ 116 ∷ 101
        ∷ 114 ∷ [])
    else if err == 4
    then some (111 ∷ 117 ∷ 116 ∷ 32 ∷ 111 ∷ 102 ∷ 32 ∷ 109 ∷ 101 ∷ 109 ∷ 111 ∷ 114 ∷ 121 ∷ [])
    else if err == 5
    then some (
        111 ∷ 117 ∷ 116 ∷ 32 ∷ 111 ∷ 102 ∷ 32 ∷ 101 ∷ 110 ∷ 118 ∷ 105 ∷ 114 ∷ 111 ∷ 110 ∷ 109 ∷ 101
        ∷ 110 ∷ 116 ∷ 115 ∷ [])
    else if err == 6
    then some (
        115 ∷ 101 ∷ 103 ∷ 109 ∷ 101 ∷ 110 ∷ 116 ∷ 97 ∷ 116 ∷ 105 ∷ 111 ∷ 110 ∷ 32 ∷ 102 ∷ 97 ∷ 117
        ∷ 108 ∷ 116 ∷ [])
    else none

-- The characters of a string, at most `precision` of them, as %s prints them.
unfoldable pub string_chars : Bytes → Bool → ℕ → Option ℕ → ℕ → Option (List ℕ)
string_chars mem alt p precision zero = none
string_chars mem alt p precision (suc fuel) =
    let ch = mem p in
    let c = if alt && (ltb ch 32 || ltb 126 ch) then 63 else ch in
    if ch == 0 then some [] else elim precision [
      | none ↦ (string_chars mem alt (p + 1) none fuel >>= λ cs. some (c ∷ cs))
      | some k ↦ elim k [
        | zero ↦ some []
        | suc j ↦ (string_chars mem alt (p + 1) (some j) fuel >>= λ cs. some (c ∷ cs))
      ]
    ]

abbrev or_default : Option ℕ → ℕ → ℕ
or_default none n = n
or_default (some m) n = m

-- %s: padding in front by the length that strnlen gives, the characters, and padding behind.
abbrev print_padded : Directive → ℕ → List ℕ → List ℕ
print_padded d len cs =
    let width = or_default d.width 0 in
    if d.padc == 45 then cs ++ pads (width - length cs) 32 else pads (width - len) d.padc ++ cs

abbrev null_text : List ℕ
null_text = 40 ∷ 110 ∷ 117 ∷ 108 ∷ 108 ∷ 41 ∷ []

unfoldable pub print_string : Bytes → Directive → ℕ → ℕ → Option (List ℕ)
print_string mem d p fuel =
    let limit = or_default d.precision 0xffff_ffff in
    let null = take limit null_text in
    if p == 0
    then some (print_padded d (length null) null)
    else (string_chars mem d.altflag p d.precision fuel >>= λ cs.
        some (print_padded d (strnlen mem p limit) cs))

-- `for (fmt--; fmt[-1] != '%'; fmt--)`
unfoldable pub back_to_percent : Bytes → ℕ → ℕ
back_to_percent mem zero = 0
back_to_percent mem (suc a) =
    let rest = back_to_percent mem a in if mem a == 37 then suc a else rest

-- A number; 65 digits are more than one of 64 bits has in base 8 or above.
abbrev pub print_unsigned : Directive → ℕ → ℕ → List ℕ
print_unsigned d num base = printnum 65 num base (or_default d.width 0) d.padc

-- %e: the name of the error, or "error " with its number.
abbrev pub print_error : ℕ → List ℕ
print_error arg =
    let a = arg % 2 ^ 32 in
    let err = if leb (2 ^ 31) a then 2 ^ 32 - a else a in
    elim (error_string err) [
      | none ↦ 101 ∷ 114 ∷ 114 ∷ 111 ∷ 114 ∷ 32 ∷ print_signed 65 0 err 0 32
      | some name ↦ name
    ]

-- What the character `ch` at the end of the sequence prints, and what is left.
unfoldable pub convert : Bytes → ℕ → Directive → ℕ → Option (List ℕ × Directive)
convert mem ch d fuel =
    let arg = get_or d.args 0 0 in
    let next = record d { args = drop 1 d.args } in
    let width = or_default d.width 0 in
    if ch == 99
    then some (arg ∷ [], next)
    else if ch == 101
    then some (print_error arg, next)
    else if ch == 115
    then (print_string mem d arg fuel >>= λ out. some (out, next))
    else if ch == 100
    then some (print_signed 65 d.lflag arg width d.padc, next)
    else if ch == 117
    then some (print_unsigned d (getuint d.lflag arg) 10, next)
    else if ch == 111
    then some (print_unsigned d (getuint d.lflag arg) 8, next)
    else if ch == 112
    then some (48 ∷ 120 ∷ print_unsigned d (arg % 2 ^ 32) 16, next)
    else if ch == 120
    then some (print_unsigned d (getuint d.lflag arg) 16, next)
    else if ch == 37
    then some (37 ∷ [], d)
    else some (37 ∷ [], record d { fmt = back_to_percent mem (d.fmt - 1) })

-- What stands at `fmt` prints, with the arguments and the format that are left; the inner `none` is the
-- end of the format.
unfoldable pub piece : Bytes → List ℕ → ℕ → ℕ → Option (Option (List ℕ × List ℕ × ℕ))
piece mem args fmt fuel =
    let ch = mem fmt in
    if ch == 0
    then some none
    else if ch == 37
    then (flags mem (fresh args (fmt + 1)) fuel >>= λ (c, d).
        convert mem c d fuel >>= λ (out, d'). some (some (out, d'.args, d'.fmt)))
    else some (some (ch ∷ [], args, fmt + 1))

unfoldable pub vprintfmt : Bytes → List ℕ → ℕ → ℕ → Option (List ℕ)
vprintfmt mem args fmt zero = none
vprintfmt mem args fmt (suc fuel) = piece mem args fmt fuel >>= λ found. elim found [
  | none ↦ some []
  | some (out, args', fmt') ↦ vprintfmt mem args' fmt' fuel >>= λ rest. some (out ++ rest)
]
