-- ===== src/Syscall/Laws.antt =====
-- What a system call returns, and what it lets out.
use jos_miles.Prelude.{
  ℕ, ◌+◌, ◌-◌, ◌^◌, ◌≤◌, ◌<◌, ◌≡◌, sym, ◌∙◌, none, some, ◌∷◌, arith, inl, inr, Option-cases,
  ℕ_discrete, bit_or,
}
use jos_miles.Mmu.{pte_u, ulim}
use jos_miles.Errno.{Errno}
use jos_miles.Env.{Sys, done, Call, envid2env, then_do}
use jos_miles.Env.Outcomes.{then_do-done, on_kernel-done}
use jos_miles.Env.Switch.{env_destroy, user_mem_assert}
use jos_miles.PageTable.UserMem.{
  user_mem_check-kept, user_mem_check-wraps, user_mem_check-first_bad, first_bad, InMemory,
}
use jos_miles.PageTable.Space.{page_at}
use jos_miles.PageTable.{user_mem_check}
use jos_miles.Syscall.{
  with_curenv, syscall, sys_getenvid, sys_cgetc, sys_cputs, sys_env_destroy, negative,
}

-- With a current environment whose tables and mapped pages lie in memory, SYS_cputs on a range
-- that ends at ULIM or below and is readable for the user prints it and still returns -E_NO_SYS.
pub syscall-cputs :
    (getc va len a3 a4 a5 c d : ℕ) (s : Sys)
    → s.curenv ≡ some c
    → (s.envs c).env_pgdir ≡ page_at d
    → InMemory s.kernel d
    → va + len ≤ ulim
    → first_bad s.kernel d pte_u va len ≡ none
    → syscall getc 0 va len a3 a4 a5 s
      ≡ done (2 ^ 32 - 7) (record s { printed = (va, len) ∷ s.printed })
unfolding syscall sys_cputs user_mem_assert negative
syscall-cputs getc va len a3 a4 a5 c d s cur dir m h good =
    ground (arith, user_mem_check-first_bad s.kernel d pte_u m va len)

-- A range that runs over the end of the address space is printed unchecked, whatever is mapped.
pub syscall-cputs_wraps :
    (getc va len a3 a4 a5 c : ℕ) (s : Sys)
    → s.curenv ≡ some c
    → va < 2 ^ 32
    → len < 2 ^ 32
    → 2 ^ 32 ≤ va + len
    → va + len ≤ 2 ^ 32 + ulim
    → syscall getc 0 va len a3 a4 a5 s
      ≡ done (2 ^ 32 - 7) (record s { printed = (va, len) ∷ s.printed })
unfolding syscall sys_cputs user_mem_assert negative
syscall-cputs_wraps getc va len a3 a4 a5 c s cur hv hl lo hi =
    ground (arith, user_mem_check-wraps (s.envs c).env_pgdir va len pte_u s.kernel)

-- A number that no system call has returns -E_NO_SYS and changes nothing.
pub syscall-unknown :
    (getc n a1 a2 a3 a4 a5 : ℕ) (s : Sys)
    → 4 ≤ n
    → syscall getc n a1 a2 a3 a4 a5 s ≡ done (2 ^ 32 - 7) s
unfolding syscall negative
syscall-unknown getc n a1 a2 a3 a4 a5 s h = ground arith

-- SYS_env_destroy returns to its caller only with -E_BAD_ENV, and then nothing has changed: it never
-- reports success.
pub syscall-env_destroy :
    (getc envid a2 a3 a4 a5 r : ℕ) (s s' : Sys)
    → syscall getc 3 envid a2 a3 a4 a5 s ≡ done r s'
    → (r ≡ 2 ^ 32 - 2) × (s' ≡ s)
unfolding syscall sys_env_destroy negative envid2env env_destroy
syscall-env_destroy getc envid a2 a3 a4 a5 r s s' h = ground arith

-- A system call that returns leaves every environment, the current one and the address space in
-- use as they were.
pub syscall-kept :
    (getc n a1 a2 a3 a4 a5 r : ℕ) (s s' : Sys)
    → syscall getc n a1 a2 a3 a4 a5 s ≡ done r s'
    → (s'.envs ≡ s.envs) × (s'.curenv ≡ s.curenv) × (s'.cr3 ≡ s.cr3)
unfolding syscall sys_cputs sys_getenvid sys_cgetc sys_env_destroy user_mem_assert envid2env
    env_destroy
syscall-kept getc n a1 a2 a3 a4 a5 r s s' h = ground arith

-- A passed check of user memory leaves the memory system as it was.
user_mem_assert-kernel :
    (e va len perm : ℕ) (s s' : Sys)
    → user_mem_assert e va len perm s ≡ done tt s'
    → s'.kernel ≡ s.kernel
unfolding user_mem_assert env_destroy
user_mem_assert-kernel e va len perm s s' h =
    let pgdir = (s.envs e).env_pgdir in
    let (result, k, run, rest) =
      on_kernel-done (user_mem_check pgdir va len (bit_or perm pte_u))
        (elim [ none ↦ λ s1. done tt s1 | some _ ↦ env_destroy e ]) s s' tt h in
    elim (Option-cases result) [
      | inl pass ↦ ground (arith, user_mem_check-kept pgdir va len (bit_or perm pte_u) s.kernel k)
      | inr (err, bad) ↦ ground arith
    ]

with_curenv-some :
    {A : Type 0} (c : ℕ) (s : Sys) (f : ℕ → Call A) → s.curenv ≡ some c → with_curenv f s ≡ f c s
with_curenv-some c s f now = ground arith

sys_cputs-kernel :
    (va len : ℕ) (s s' : Sys) → sys_cputs va len s ≡ done tt s' → s'.kernel ≡ s.kernel
unfolding sys_cputs
sys_cputs-kernel va len s s' h = elim (Option-cases s.curenv) [
  | inl none_now ↦ ground arith
  | inr (c, now) ↦
      let print : Unit {0} → Call (Unit {0}) =
        λ _ s1. done tt (record s1 { printed = (va, len) ∷ s1.printed }) in
      let body = λ (e : ℕ) (s0 : Sys). then_do (user_mem_assert e va len pte_u s0) print in
      let (_, s1, run, rest) =
        then_do-done (user_mem_assert c va len pte_u s) print
          (sym (with_curenv-some c s body now) ∙ h) in
      ground (arith, user_mem_assert-kernel c va len pte_u s s1)
]

-- A system call that returns leaves the memory system as it was.
pub syscall-kernel :
    (getc n a1 a2 a3 a4 a5 r : ℕ) (s s' : Sys)
    → syscall getc n a1 a2 a3 a4 a5 s ≡ done r s'
    → s'.kernel ≡ s.kernel
unfolding syscall sys_getenvid sys_cgetc sys_env_destroy envid2env env_destroy
syscall-kernel getc n a1 a2 a3 a4 a5 r s s' h = elim (ℕ_discrete n 0) [
  | yes cputs ↦
      let back : Unit {0} → Call ℕ = λ _ s1. done (negative Errno.no_sys) s1 in
      let (_, s1, run, rest) =
        then_do-done (sys_cputs a1 a2 s) back {b = r} {s' = s'} (ground arith) in
      ground (arith, sys_cputs-kernel a1 a2 s s1)
  | no other ↦ ground arith
]
