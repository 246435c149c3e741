-- ===== src/Kdebug.antt =====
-- kern/kdebug.c: the search in the debugging table. The tables of the kernel and of the user program,
-- which the linker makes, are arguments. `*region_left`, `*region_right` and the local variables that
-- hold them can come out as -1, so they are kept as the next index: i stands for the int i - 1.
pub mod Search
pub mod Narrow
pub mod Found
mod Tests
use jos_miles.Prelude.{
  ℕ, zero, suc, ◌+◌, ◌-◌, ◌*◌, ◌/◌, Bool, true, false, ◌&&◌, ◌||◌, not, Option, none, some, ltb,
  leb, ◌==◌, if◌then◌else◌,
}
use jos_miles.Prelude.Options.{◌>>=◌}
use jos_miles.Mmu.{u32, sub32, ulim}
use jos_miles.CString.{Bytes, strfind}

abbrev pub n_fun : ℕ
n_fun = 0x24

abbrev pub n_sline : ℕ
n_sline = 0x44

abbrev pub n_so : ℕ
n_so = 0x64

abbrev pub n_sol : ℕ
n_sol = 0x84

abbrev pub n_psym : ℕ
n_psym = 0xa0

pub record Stab : Type 0 where
  pub n_strx : ℕ
  pub n_type : ℕ
  pub n_other : ℕ
  pub n_desc : ℕ
  pub n_value : ℕ

abbrev pub Stabs : Type 0
Stabs = ℕ → Stab

abbrev pub is : Stabs → ℕ → ℕ → Bool
is stabs type i = (stabs i).n_type == type

-- `while (m >= l && stabs[m].n_type != type) m--` on the indices below `end`: `none` if m < l.
unfoldable pub last_of : Stabs → ℕ → ℕ → ℕ → Option ℕ
last_of stabs type l zero = none
last_of stabs type l (suc m) =
    let rest = last_of stabs type l m in
    if ltb m l then none else if is stabs type m then some m else rest

-- The variables of stab_binsearch. `r` stays equal to `*region_right`.
pub record Bisection : Type 0 where
  pub l : ℕ
  pub r_next : ℕ
  pub region_left : ℕ
  pub any_matches : Bool
  pub addr : ℕ

-- One round of the loop.
unfoldable pub search_round : Stabs → ℕ → Bisection → Bisection
unfolding last_of
search_round stabs type s =
    let true_m = (s.l + (s.r_next - 1)) / 2 in
    elim (last_of stabs type s.l (suc true_m)) [
      | none ↦ record s { l = suc true_m }
      | some m ↦
          if ltb (stabs m).n_value s.addr
          then record s { l = suc true_m; region_left = m; any_matches = true }
          else if ltb s.addr (stabs m).n_value
          then record s { r_next = m; any_matches = true }
          else record s { l = m; region_left = m; any_matches = true; addr = u32 (s.addr + 1) }
    ]

unfoldable pub search_loop : Stabs → ℕ → Bisection → ℕ → Option Bisection
unfolding search_round
search_loop stabs type s zero = none
search_loop stabs type s (suc fuel) =
    let rest = search_loop stabs type (search_round stabs type s) fuel in
    if ltb s.l s.r_next then rest else some s

-- The last loop, from the index before `end` down.
unfoldable pub rightmost : Stabs → ℕ → ℕ → ℕ → ℕ
rightmost stabs type left zero = 0
rightmost stabs type left (suc l) =
    let rest = rightmost stabs type left l in
    if ltb left l && not (is stabs type l) then rest else suc l

-- What is written to `*region_left` and `*region_right`.
unfoldable pub stab_binsearch : Stabs → ℕ → ℕ → ℕ → ℕ → Option (ℕ × ℕ)
unfolding search_loop rightmost
stab_binsearch stabs left right_next type addr = do
  s ←
      search_loop stabs type
        (record {
          l = left;
          r_next = right_next;
          region_left = left;
          any_matches = false;
          addr = addr;
        })
        (2 * (right_next - left) + 2)
  if s.any_matches
      then some (rightmost stabs type s.region_left s.r_next, s.r_next)
      else some (suc s.region_left, s.region_left)

-- A debugging table with its string table. A file or function name is its offset in the latter.
pub record Table : Type 0 where
  pub stabs : Stabs
  pub nstabs : ℕ
  pub stabstr : Bytes
  pub strsize : ℕ

-- `struct Eipdebuginfo`, where `none` is the name "<unknown>".
pub record Eipdebuginfo : Type 0 where
  pub eip_file : Option ℕ
  pub eip_line : ℕ
  pub eip_fn_name : Option ℕ
  pub eip_fn_namelen : ℕ
  pub eip_fn_addr : ℕ
  pub eip_fn_narg : ℕ

abbrev pub unknown_info : ℕ → Eipdebuginfo
unknown_info addr = record {
  eip_file = none;
  eip_line = 0;
  eip_fn_name = none;
  eip_fn_namelen = 9;
  eip_fn_addr = addr;
  eip_fn_narg = 0;
}

-- A name, if it lies in the string table.
abbrev pub name_at : Table → ℕ → Option ℕ → Option ℕ
name_at t i default =
    let strx = (t.stabs i).n_strx in if ltb strx t.strsize then some strx else default

-- `strfind(info->eip_fn_name, ':') - info->eip_fn_name`
unfoldable pub name_length : Table → Option ℕ → Option ℕ
name_length t none = some 9
name_length t (some s) = do e ← strfind t.stabstr s 58 t.strsize; some (e - s)

-- `while (lline >= lfile && ...) lline--`
unfoldable pub back_to_file : Table → ℕ → ℕ → ℕ
back_to_file t lfile zero = 0
back_to_file t lfile (suc lline) =
    let rest = back_to_file t lfile lline in
    let stab = t.stabs lline in
    if leb lfile lline
      && not (stab.n_type == n_sol)
      && (not (stab.n_type == n_so) || (stab.n_value == 0))
    then rest
    else suc lline

-- The number of N_PSYM entries from index `i` on, of at most n.
unfoldable pub count_args : Table → ℕ → ℕ → ℕ
count_args t i zero = 0
count_args t i (suc n) =
    let rest = count_args t (i + 1) n in if is t.stabs n_psym i then suc rest else 0

-- The end of debuginfo_eip: the file of the line entry `lline`, and the arguments of the function
-- between the next indices `lfun` and `rfun`.
unfoldable pub describe_line : Table → ℕ → ℕ → ℕ → ℕ → Eipdebuginfo → Eipdebuginfo
unfolding back_to_file count_args
describe_line t lfile lfun rfun lline info = record info {
  eip_line = (t.stabs lline).n_desc;
  eip_file = elim (back_to_file t lfile (suc lline)) [
    | zero ↦ info.eip_file
    | suc i ↦ if leb lfile i then name_at t i info.eip_file else info.eip_file
  ];
  eip_fn_narg = info.eip_fn_narg + count_args t lfun (rfun - lfun - 1);
}

-- The search for the line in the entries from `lline` to before `rline`; false stands for -1.
unfoldable pub find_line :
    Table → ℕ → ℕ → ℕ → ℕ → ℕ → ℕ → Eipdebuginfo → Option (Bool × Eipdebuginfo)
unfolding stab_binsearch name_length describe_line
find_line t lfile lfun rfun lline rline addr info0 = do
  namelen ← name_length t info0.eip_fn_name
  let info = record info0 { eip_fn_namelen = namelen }
  (l, r) ← stab_binsearch t.stabs lline rline n_sline addr
  if ltb r l
      then some (false, info)
      else elim l [ zero ↦ none | suc i ↦ some (true, describe_line t lfile lfun rfun i info) ]

-- The search for the function in the entries from `lfile` to before `rfile`.
unfoldable pub find_function : Table → ℕ → ℕ → ℕ → Eipdebuginfo → Option (Bool × Eipdebuginfo)
unfolding find_line
find_function t lfile rfile addr info = do
  (lfun, rfun) ← stab_binsearch t.stabs lfile rfile n_fun addr
  if leb lfun rfun
      then elim lfun [
        | zero ↦ none
        | suc f ↦
            let start = (t.stabs f).n_value in
            find_line t lfile (suc f) rfun f rfun (sub32 addr start)
              (record info { eip_fn_name = name_at t f info.eip_fn_name; eip_fn_addr = start })
      ]
      else find_line t lfile lfun rfun lfile rfile addr (record info { eip_fn_addr = addr })

-- The result of debuginfo_eip and what it stores, with the tables of the kernel and of the user
-- program. `none` stands for a read in front of the table.
unfoldable pub debuginfo_eip : Table → Table → ℕ → Option (Bool × Eipdebuginfo)
unfolding find_function
debuginfo_eip kernel_table user_table addr =
    let t = if leb ulim addr then kernel_table else user_table in
    let info = unknown_info addr in
    if (t.strsize == 0) || not (t.stabstr (t.strsize - 1) == 0) then some (false, info) else do
      (lfile, rfile) ← stab_binsearch t.stabs 0 t.nstabs n_so addr
      elim lfile [
        | zero ↦ none
        | suc i ↦ if i == 0 then some (false, info) else find_function t i rfile addr info
      ]
