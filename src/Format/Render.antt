-- ===== src/Format/Render.antt =====
-- What vprintfmt prints for a format without flags and widths.
use jos_miles.Prelude.{
  ℕ, zero, suc, ◌+◌, ◌^◌, ◌%◌, ◌<◌, ◌≡◌, ◌≢◌, refl, arith, none, some, List, [], ◌∷◌, ◌++◌, length,
  get_or, drop,
}
use jos_miles.CString.{Bytes}
use jos_miles.CString.Text.{TextAt}
use jos_miles.Format.{printnum, getuint, print_signed}
use jos_miles.Format.Directive.{fresh, flag, flags, convert, piece, vprintfmt}

-- A character other than '%', or a directive.
pub data Piece : Type 0 where
  letter : ℕ → Piece
  character decimal unsigned octal hexadecimal percent : Piece

abbrev pub encoded : Piece → List ℕ
encoded (letter c) = c ∷ []
encoded character = 37 ∷ 99 ∷ []
encoded decimal = 37 ∷ 100 ∷ []
encoded unsigned = 37 ∷ 117 ∷ []
encoded octal = 37 ∷ 111 ∷ []
encoded hexadecimal = 37 ∷ 120 ∷ []
encoded percent = 37 ∷ 37 ∷ []

abbrev pub printed : Piece → List ℕ → List ℕ
printed (letter c) args = c ∷ []
printed character args = get_or args 0 0 ∷ []
printed decimal args = print_signed 65 0 (get_or args 0 0) 0 32
printed unsigned args = printnum 65 (get_or args 0 0 % 2 ^ 32) 10 0 32
printed octal args = printnum 65 (get_or args 0 0 % 2 ^ 32) 8 0 32
printed hexadecimal args = printnum 65 (get_or args 0 0 % 2 ^ 32) 16 0 32
printed percent args = 37 ∷ []

abbrev pub args_left : Piece → List ℕ → List ℕ
args_left (letter c) args = args
args_left percent args = args
args_left _ args = drop 1 args

abbrev pub encoded_all : List Piece → List ℕ
encoded_all [] = []
encoded_all (p ∷ ps) = encoded p ++ encoded_all ps

abbrev pub printed_all : List Piece → List ℕ → List ℕ
printed_all [] args = []
printed_all (p ∷ ps) args = printed p args ++ printed_all ps (args_left p args)

abbrev pub Plain : List Piece → Type 0
Plain [] = Unit {0}
Plain (letter c ∷ ps) = (c ≢ 37) × Plain ps
Plain (_ ∷ ps) = Plain ps

-- A directive of one character.
piece_directive :
    (mem : Bytes) (args : List ℕ) (fmt fuel k : ℕ) (out args' : List ℕ)
    → mem fmt ≡ 37
    → mem (fmt + 1) ≡ k
    → flag mem k (record (fresh args (fmt + 1)) { fmt = fmt + 1 + 1 }) fuel ≡ some none
    → convert mem k (record (fresh args (fmt + 1)) { fmt = fmt + 1 + 1 }) (suc fuel)
      ≡ some (out, record (fresh args' (fmt + 1 + 1)) { args = args' })
    → piece mem args fmt (suc fuel) ≡ some (some (out, args', fmt + 1 + 1))
unfolding piece flags
piece_directive mem args fmt fuel k out args' e e' stop run =
    rw e (rw e' (rw stop (rw e' (rw run refl))))

piece_letter :
    (mem : Bytes) (args : List ℕ) (fmt fuel c : ℕ)
    → mem fmt ≡ c
    → c ≢ 0
    → c ≢ 37
    → piece mem args fmt fuel ≡ some (some (c ∷ [], args, fmt + 1))
unfolding piece
piece_letter mem args fmt fuel c e nz ne = ground (arith, e, nz, ne)

vprintfmt_step :
    (mem : Bytes) (args args' : List ℕ) (fmt fmt' fuel : ℕ) (out rest : List ℕ)
    → piece mem args fmt fuel ≡ some (some (out, args', fmt'))
    → vprintfmt mem args' fmt' fuel ≡ some rest
    → vprintfmt mem args fmt (suc fuel) ≡ some (out ++ rest)
unfolding vprintfmt
vprintfmt_step mem args args' fmt fmt' fuel out rest e e' = rw e (rw e' refl)

vprintfmt_end :
    (mem : Bytes) (args : List ℕ) (fmt fuel : ℕ)
    → mem fmt ≡ 0
    → vprintfmt mem args fmt (suc (suc fuel)) ≡ some []
unfolding vprintfmt piece
vprintfmt_end mem args fmt fuel e = rw e refl

directive_step :
    (mem : Bytes) (args args' : List ℕ) (fmt fuel k : ℕ) (out rest cs : List ℕ)
    → TextAt mem fmt (37 ∷ k ∷ cs)
    → flag mem k (record (fresh args (fmt + 1)) { fmt = fmt + 1 + 1 }) fuel ≡ some none
    → convert mem k (record (fresh args (fmt + 1)) { fmt = fmt + 1 + 1 }) (suc fuel)
      ≡ some (out, record (fresh args' (fmt + 1 + 1)) { args = args' })
    → vprintfmt mem args' (fmt + 1 + 1) (suc fuel) ≡ some rest
    → vprintfmt mem args fmt (suc (suc fuel)) ≡ some (out ++ rest)
directive_step mem args args' fmt fuel k out rest cs t stop run e =
    vprintfmt_step mem args args' fmt (fmt + 1 + 1) (suc fuel) out rest
      (piece_directive mem args fmt fuel k out args' t.0 t.2.0 stop run) e

-- For a format of characters other than '%' and of directives %c, %d, %u, %o, %x and %% without flags,
-- with fuel above the number of these plus 1, vprintfmt prints what each of them prints, in order, each
-- directive but %% with the next argument.
pub vprintfmt-printed_all :
    (ps : List Piece) (mem : Bytes) (args : List ℕ) (fmt fuel : ℕ)
    → TextAt mem fmt (encoded_all ps)
    → Plain ps
    → length ps + 1 < fuel
    → vprintfmt mem args fmt fuel ≡ some (printed_all ps args)
unfolding flag convert getuint
vprintfmt-printed_all ps mem args fmt zero t plain enough = absurd (omega arith)
vprintfmt-printed_all ps mem args fmt (suc zero) t plain enough = absurd (omega arith)
vprintfmt-printed_all [] mem args fmt (suc (suc fuel)) t plain enough =
    vprintfmt_end mem args fmt fuel t
vprintfmt-printed_all (letter c ∷ ps) mem args fmt (suc (suc fuel)) t plain enough =
    vprintfmt_step mem args args fmt (fmt + 1) (suc fuel) (c ∷ []) (printed_all ps args)
      (piece_letter mem args fmt (suc fuel) c t.0 t.1 plain.0)
      (vprintfmt-printed_all ps mem args (fmt + 1) (suc fuel) t.2 plain.1 (omega arith))
vprintfmt-printed_all (character ∷ ps) mem args fmt (suc (suc fuel)) t plain enough =
    directive_step mem args (drop 1 args) fmt fuel 99 (printed character args)
      (printed_all ps (drop 1 args)) (encoded_all ps) t refl refl
      (vprintfmt-printed_all ps mem (drop 1 args) (fmt + 1 + 1) (suc fuel) t.2.2 plain
        (omega arith))
vprintfmt-printed_all (decimal ∷ ps) mem args fmt (suc (suc fuel)) t plain enough =
    directive_step mem args (drop 1 args) fmt fuel 100 (printed decimal args)
      (printed_all ps (drop 1 args)) (encoded_all ps) t refl refl
      (vprintfmt-printed_all ps mem (drop 1 args) (fmt + 1 + 1) (suc fuel) t.2.2 plain
        (omega arith))
vprintfmt-printed_all (unsigned ∷ ps) mem args fmt (suc (suc fuel)) t plain enough =
    directive_step mem args (drop 1 args) fmt fuel 117 (printed unsigned args)
      (printed_all ps (drop 1 args)) (encoded_all ps) t refl refl
      (vprintfmt-printed_all ps mem (drop 1 args) (fmt + 1 + 1) (suc fuel) t.2.2 plain
        (omega arith))
vprintfmt-printed_all (octal ∷ ps) mem args fmt (suc (suc fuel)) t plain enough =
    directive_step mem args (drop 1 args) fmt fuel 111 (printed octal args)
      (printed_all ps (drop 1 args)) (encoded_all ps) t refl refl
      (vprintfmt-printed_all ps mem (drop 1 args) (fmt + 1 + 1) (suc fuel) t.2.2 plain
        (omega arith))
vprintfmt-printed_all (hexadecimal ∷ ps) mem args fmt (suc (suc fuel)) t plain enough =
    directive_step mem args (drop 1 args) fmt fuel 120 (printed hexadecimal args)
      (printed_all ps (drop 1 args)) (encoded_all ps) t refl refl
      (vprintfmt-printed_all ps mem (drop 1 args) (fmt + 1 + 1) (suc fuel) t.2.2 plain
        (omega arith))
vprintfmt-printed_all (percent ∷ ps) mem args fmt (suc (suc fuel)) t plain enough =
    directive_step mem args args fmt fuel 37 (printed percent args) (printed_all ps args)
      (encoded_all ps) t refl refl
      (vprintfmt-printed_all ps mem args (fmt + 1 + 1) (suc fuel) t.2.2 plain (omega arith))
