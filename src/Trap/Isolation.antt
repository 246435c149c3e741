-- ===== src/Trap/Isolation.antt =====
-- User code and traps in turn: a step relation, and what no number of steps changes.
mod Tests
use jos_miles.Prelude.{
  ℕ, ◌+◌, ◌-◌, ◌*◌, ◌/◌, ◌%◌, ◌^◌, ◌≤◌, ◌<◌, ◌≡◌, ◌≢◌, refl, sym, ap, ◌∙◌, inl, inr, true, some,
  ◌==◌, arith, if◌then◌else◌, ltb, leb, ◌&&◌,
}
use mathlib.Core.Path.{subst}
use jos_miles.Kernel.{Kernel}
use jos_miles.Mmu.{kernbase}
use jos_miles.PageAlloc.FreeList.{in_page}
use jos_miles.PageTable.Space.{
  page_at, pde, table, dir_index, table_index, entry, entry-Present, Present,
}
use jos_miles.Env.{Sys, Trapframe, in_user, done, Call, then_do}
use jos_miles.Env.Outcomes.{then_do-in_user, user_state}
use jos_miles.Env.Running.{Entered, env_run-Entered}
use jos_miles.Env.Switch.{env_run}
use jos_miles.Trap.{trap, trap_dispatch, saved, resume}
use jos_miles.Trap.Dispatch.{with_frame, save_user, resume_running}
use jos_miles.Trap.Traces.{IsQuiet, Runs, dispatch_back, dispatch_stays}

-- The processor lets user code write at `a`: some address is mapped there for the user and for
-- writing, by its directory entry and by its table entry.
abbrev pub UserWritable : (ℕ → ℕ) → ℕ → ℕ → Type 0
UserWritable mem d a =
    (va : ℕ) × (pde mem d (dir_index va) % 8 ≡ 7)
    × (entry mem d va % 8 ≡ 7)
    × (in_page (entry mem d va / 4096 % 2 ^ 20) a ≡ true)

-- User code can write neither in the directory nor in a table through which it writes.
pub record IsProtected (mem : ℕ → ℕ) (d : ℕ) : Type 0 where
  pub dir : (i : ℕ) → i < 1024 → ¬ UserWritable mem d (page_at d + 4 * i)
  pub tables :
      (i j : ℕ)
      → i < 1024
      → j < 1024
      → pde mem d i % 8 ≡ 7
      → ¬ UserWritable mem d (page_at (table mem d i) + 4 * j)

-- The kernel's own data: its image with its variables, from 1 MB on, and the arrays `pages` and `envs`
-- that boot_alloc has made behind it.
abbrev pub KernelData : Kernel → ℕ → Type 0
KernelData k a = (page_at 256 ≤ a) × (a < k.nextfree)

-- User code cannot write there.
abbrev pub Shut : Kernel → ℕ → Type 0
Shut k d = (a : ℕ) → KernelData k a → ¬ UserWritable k.mem d a

-- Memory in which at most what user code can write has changed.
abbrev pub OnlyUser : (ℕ → ℕ) → ℕ → (ℕ → ℕ) → Type 0
OnlyUser mem d mem' = (a : ℕ) → ¬ UserWritable mem d a → mem' a ≡ mem a

module _ (mem : ℕ → ℕ) (d : ℕ) (safe : IsProtected mem d) (mem' : ℕ → ℕ)
    (changed : OnlyUser mem d mem') where
  same_pde : (i : ℕ) → i < 1024 → pde mem' d i ≡ pde mem d i
  same_pde i h = changed (page_at d + 4 * i) (safe.dir i h)

  same_entry : (va : ℕ) → pde mem d (dir_index va) % 8 ≡ 7 → entry mem' d va ≡ entry mem d va
  same_entry va open_here =
      let i = dir_index va in
      let e = same_pde i (omega arith) in
      let t =
        changed (page_at (table mem d i) + 4 * table_index va)
          (safe.tables i (table_index va) (omega arith) (omega arith) open_here) in
      entry-Present mem' d va (omega (arith, e))
      ∙ ap (λ v. mem' (page_at (v / 4096 % 2 ^ 20) + 4 * table_index va)) e
      ∙ t
      ∙ sym (entry-Present mem d va (omega arith))

  -- What user code can write does not grow.
  UserWritable-back : (a : ℕ) → UserWritable mem' d a → UserWritable mem d a
  UserWritable-back a (va, open_pde, open_pte, inside) =
      let e = same_pde (dir_index va) (omega arith) in
      let open_here : pde mem d (dir_index va) % 8 ≡ 7 = omega (arith, e) in
      let e' = same_entry va open_here in
      (
        va,
        open_here,
        sym (ap (λ v. v % 8) e') ∙ open_pte,
        sym (ap (λ v. in_page (v / 4096 % 2 ^ 20) a) e') ∙ inside,
      )

-- A trap from user code that ends in user code again changes neither who runs nor the memory system.
trap_back :
    (monitor : Call (Unit {0})) (getc c pgdir : ℕ) (tf : Trapframe) (s t : Sys)
    → IsQuiet monitor
    → Runs c pgdir s
    → kernbase ≤ pgdir
    → pgdir < 2 ^ 32
    → tf.tf_cs % 4 ≡ 3
    → trap monitor getc 0 tf s ≡ in_user t
    → Runs c pgdir t × (t.kernel ≡ s.kernel) × (t.cr3 ≡ pgdir - kernbase)
unfolding trap
trap_back monitor getc c pgdir tf s t quiet runs lo hi user h =
    let s1 = with_frame s c tf in
    let runs1 : Runs c pgdir s1 = record {
      current = runs.current;
      status = ground (arith, runs.status);
      one = λ a run. ground (arith, runs.one a);
      space = ground (arith, runs.space);
    } in
    let dispatch = trap_dispatch monitor getc (saved c) s1 in
    let saves = save_user monitor getc c 0 tf s s user runs.current in
    let whole : then_do dispatch (λ _ s2. resume s2) ≡ in_user t =
      ap
        (λ o. then_do o λ frame s'. then_do (trap_dispatch monitor getc frame s') λ _ s2. resume s2)
        (sym saves)
      ∙ h in
    elim (then_do-in_user dispatch (λ _ s2. resume s2) whole) [
      | inr gone ↦ absurd (dispatch_stays monitor getc c pgdir s1 t quiet runs1 gone)
      | inl (u, s2, back, resumes) ↦
          let (runs2, kernel) = dispatch_back monitor getc c pgdir s1 s2 quiet runs1 back in
          let (s3, entered) =
            env_run-Entered c s2 runs2.one (rw runs2.space lo) (rw runs2.space hi) in
          let runs_it = resume_running monitor getc c 0 tf s s s2 runs2.current runs2.status in
          let e : s3 ≡ t = user_state s3 t (sym entered.run ∙ sym runs_it ∙ resumes) in
          let runs3 : Runs c pgdir s3 = record {
            current = entered.current;
            status = entered.status;
            one = entered.one;
            space = entered.pgdirs c ∙ runs2.space;
          } in
          subst (λ q. Runs c pgdir q × (q.kernel ≡ s.kernel) × (q.cr3 ≡ pgdir - kernbase)) e
            (runs3, entered.kernel ∙ kernel, entered.space ∙ ap (λ p. p - kernbase) runs2.space)
    ]

abbrev pub with_mem : (ℕ → ℕ) → Sys → Sys
with_mem mem s = record s { kernel = record (s.kernel) { mem = mem } }

-- User code runs, writes what it may and any registers, and traps in the state `s1`; the kernel comes
-- back to it. Where it can write in the kernel's own data, the whole state may be another one.
pub data Turn (monitor : Call (Unit {0})) (d : ℕ) (s t : Sys) : Type 0 where
  turn :
      (getc : ℕ) (tf : Trapframe) (s1 : Sys)
      → OnlyUser s.kernel.mem d s1.kernel.mem
      → (Shut s.kernel d → s1 ≡ with_mem s1.kernel.mem s)
      → tf.tf_cs % 4 ≡ 3
      → trap monitor getc 0 tf s1 ≡ in_user t
      → Turn monitor d s t

pub data Reach (monitor : Call (Unit {0})) (d : ℕ) (s : Sys) : Sys → Type 0 where
  here : Reach monitor d s s
  next : {t u : Sys} → Reach monitor d s t → Turn monitor d t u → Reach monitor d s u

-- What is left of `s` in `t`: environment c is the only one to run, in the address space of page d;
-- memory that user code could not write, the pages and their counters, the free list and all else
-- of the memory system are as they were.
pub record Isolated (c d : ℕ) (s t : Sys) : Type 0 where
  pub runs : Runs c (page_at d) t
  pub space : t.cr3 ≡ d * 4096
  pub memory : OnlyUser s.kernel.mem d t.kernel.mem
  pub rest : t.kernel ≡ record (s.kernel) { mem = t.kernel.mem }

module _ (monitor : Call (Unit {0})) (quiet : IsQuiet monitor) (c d : ℕ) (small : d < 2 ^ 16)
    (s : Sys) (safe : IsProtected s.kernel.mem d) (shut : Shut s.kernel d) where
  Isolated-Shut : {t : Sys} → Isolated c d s t → Shut t.kernel d
  Isolated-Shut {t} i a (lo, hi) w =
      let same : t.kernel.nextfree ≡ s.kernel.nextfree = ap (λ (k : Kernel). k.nextfree) i.rest in
      shut a (lo, omega (arith, same))
        (UserWritable-back s.kernel.mem d safe t.kernel.mem i.memory a w)

  Turn-Isolated : {t u : Sys} → Isolated c d s t → Turn monitor d t u → Isolated c d s u
  Turn-Isolated {t} {u} i (turn getc tf s1 writes rest user h) =
      let mem = s1.kernel.mem in
      let same = rest (Isolated-Shut i) in
      let start : Runs c (page_at d) (with_mem mem t) = record {
        current = i.runs.current;
        status = i.runs.status;
        one = i.runs.one;
        space = i.runs.space;
      } in
      let (runs, kernel, space) =
        trap_back monitor getc c (page_at d) tf (with_mem mem t) u quiet start (omega arith)
          (omega arith) user (ap (λ q. trap monitor getc 0 tf q) (sym same) ∙ h) in
      let same_mem : u.kernel.mem ≡ mem = ap (λ (k : Kernel). k.mem) kernel in
      record {
        runs = runs;
        space = space ∙ omega arith;
        memory = λ a closed.
            ap (λ (f : ℕ → ℕ). f a) same_mem
            ∙ writes a
                (λ w. closed (UserWritable-back s.kernel.mem d safe t.kernel.mem i.memory a w))
            ∙ i.memory a closed;
        rest =
            kernel
            ∙ ap (λ (k : Kernel). record k { mem = mem }) i.rest
            ∙ ap (λ m. record (s.kernel) { mem = m }) (sym same_mem);
      }

  -- However often user code runs and traps, as long as the kernel comes back to it and the sessions
  -- in the monitor change nothing: if environment c is the only one to run, in the address space of
  -- page d, and user code can write neither in the directory nor in the tables through which it
  -- writes nor in the kernel's image and the arrays behind it, then environment c stays the only one to run, in the same address space, and the memory
  -- system stays as it is, but for the contents of memory that user code could write at the start.
  pub Reach-Isolated :
      {t : Sys} → Runs c (page_at d) s → s.cr3 ≡ d * 4096 → Reach monitor d s t → Isolated c d s t
  Reach-Isolated runs space here = record {
    runs = runs;
    space = space;
    memory = λ a closed. refl;
    rest = refl;
  }
  Reach-Isolated runs space (next r last) = Turn-Isolated (Reach-Isolated runs space r) last
