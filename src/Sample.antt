-- ===== src/Sample.antt =====
-- A small machine for the tests: 300 pages, of which 5, 7 and 9 are free. Page 10 holds a
-- directory whose first entry leads to the table in page 11, and that maps address 0 to page 12.
-- Environment 3 runs in it.
use jos_miles.Prelude.{ℕ, ◌+◌, ◌*◌, refl, none, some, List, [], ◌∷◌, arith, ◌==◌, if◌then◌else◌}
use jos_miles.Mmu.{kernbase}
use jos_miles.Kernel.{PageInfo, Kernel}
use jos_miles.PageAlloc.FreeList.{FreeList}
use jos_miles.PageTable.Space.{page_at, entry, user_part, IsSpace}
use jos_miles.PageTable.UserMem.{InMemory}
use jos_miles.PageTable.Remove.{HasTable, InUse}
use jos_miles.Env.{Status, Trapframe, Env, Sys, zero_regs}

abbrev info : ℕ → PageInfo
info p =
    if p == 5
    then record { pp_link = some 7; pp_ref = 0 }
    else if p == 7
    then record { pp_link = some 9; pp_ref = 0 }
    else if p == 9
    then record { pp_link = none; pp_ref = 0 }
    else if p == 200
    then record { pp_link = none; pp_ref = 0 }
    else record { pp_link = none; pp_ref = 1 }

abbrev words : ℕ → ℕ
words a = if a == page_at 10 then 11 * 4096 + 7 else if a == page_at 11 then 12 * 4096 + 7 else 0

abbrev pub machine : Kernel
machine = record {
  npages = 300;
  nextfree = kernbase + 280 * 4096;
  pages = info;
  page_free_list = some 5;
  mem = words;
  flushed = [];
  user_mem_check_addr = 0;
}

abbrev pub spare : List ℕ
spare = 5 ∷ 7 ∷ 9 ∷ []

-- The machine with nothing free.
abbrev pub full : Kernel
full = record machine { page_free_list = none }

pub machine-FreeList : FreeList machine spare
machine-FreeList = (
  refl,
  omega arith,
  refl,
  refl,
  (refl, omega arith, refl, refl, (refl, omega arith, refl, refl, refl)),
)

pub machine-IsSpace : IsSpace user_part machine 10 spare
machine-IsSpace = record {
  small = omega arith;
  bounded = λ i h. ground arith;
  dir_in = omega arith;
  dir_used = refl;
  table_in = λ i h there. ground arith;
  table_ne_dir = λ i h there. ground arith;
  table_used = λ i h there. ground arith;
  table_inj = λ i j hi hj there there' e. ground arith;
}

pub machine-InMemory : InMemory machine 10
unfolding entry
machine-InMemory = record {
  small = omega arith;
  tables = λ i h there. ground arith;
  leaves = λ va mapped. ground arith;
}

pub machine-HasTable : HasTable machine 10 0
machine-HasTable = record { there = refl; inside = omega arith; small = omega arith }

pub machine-InUse : InUse machine 12
machine-InUse = record { held = omega arith; fits = omega arith; unlinked = refl }

abbrev pub frame : Trapframe
frame = record {
  tf_regs = record zero_regs { reg_eax = 2; reg_ecx = 5 };
  tf_es = 0x23;
  tf_ds = 0x23;
  tf_trapno = 48;
  tf_err = 0;
  tf_eip = 0x800020;
  tf_cs = 0x1b;
  tf_eflags = 0;
  tf_esp = 0xeebf_d000;
  tf_ss = 0x23;
}

abbrev pub environment : ℕ → Env
environment e = record {
  env_tf = frame;
  env_link = if e == 4 then some 5 else none;
  env_id = 0x1000 + e;
  env_parent_id = 0;
  env_status = if e == 3 then Status.running else Status.free;
  env_runs = 1;
  env_pgdir = if e == 3 then page_at 10 else 0;
}

abbrev pub system : Sys
system = record {
  kernel = machine;
  envs = environment;
  curenv = some 3;
  env_free_list = some 4;
  kern_pgdir = page_at 20;
  cr3 = 10 * 4096;
  printed = [];
}
