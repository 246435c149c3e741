-- ===== src/Trap/Gates.antt =====
-- trap_init: who may use which gate.
use jos_miles.Prelude.{
  ℕ, zero, suc, ◌+◌, ◌*◌, ◌^◌, ◌<◌, ◌≡◌, ltb, ◌==◌, ◌||◌, true, if◌then◌else◌, bit_and-mask, arith,
  Bool-cases, inl, inr,
}
use jos_miles.Mmu.Gate.{Gatedesc, setgate}
use jos_miles.Trap.{gates, trap_init, no_gate, gd_kt, t_brkpt, t_syscall}

gates_lem :
    (h : ℕ → ℕ) (n i : ℕ) (idt : ℕ → Gatedesc)
    → gates h n idt i ≡ (if ltb i n then setgate true gd_kt (h i) 0 else idt i)
unfolding gates
gates_lem h zero i idt = ground arith
gates_lem h (suc n) i idt = ground (arith, gates_lem h n i idt)

-- The address that a gate leads to.
abbrev pub gate_offset : Gatedesc → ℕ
gate_offset g = g.gd_off_31_16 * 2 ^ 16 + g.gd_off_15_0

slots :
    (h : ℕ → ℕ) (i : ℕ)
    → trap_init h i ≡ (
        if ltb i 49
        then setgate true gd_kt (h i) (if (i == t_brkpt) || (i == t_syscall) then 3 else 0)
        else no_gate)
unfolding trap_init
slots h i = ground (arith, gates_lem h 49 i (λ _. no_gate))

setgate_lem :
    (off dpl : ℕ)
    → off < 2 ^ 32
    → dpl < 4
    → (gate_offset (setgate true gd_kt off dpl) ≡ off)
      × ((setgate true gd_kt off dpl).gd_p ≡ 1)
      × ((setgate true gd_kt off dpl).gd_sel ≡ gd_kt)
      × ((setgate true gd_kt off dpl).gd_dpl ≡ dpl)
unfolding setgate
setgate_lem off dpl h user = ground (arith, bit_and-mask 16 off)

-- For a handler with a 32-bit address: trap numbers up to T_SYSCALL lead to their own handlers, in
-- the kernel's code segment, a program may raise exactly T_BRKPT and T_SYSCALL itself, and every
-- other slot is empty.
pub trap_init_lem :
    (h : ℕ → ℕ) (i : ℕ)
    → h i < 2 ^ 32
    → let g = trap_init h i in
      (g.gd_p ≡ (if ltb i 49 then 1 else 0))
      × (gate_offset g ≡ (if ltb i 49 then h i else 0))
      × (g.gd_sel ≡ (if ltb i 49 then gd_kt else 0))
      × (g.gd_dpl ≡ (if (i == t_brkpt) || (i == t_syscall) then 3 else 0))
trap_init_lem h i fits = rw slots (elim (Bool-cases (ltb i 49)) [
  | inl there ↦
      let dpl : ℕ = if (i == t_brkpt) || (i == t_syscall) then 3 else 0 in
      let small : dpl < 4 = ground arith in
      rw there ((let (o, p, sel, d) = setgate_lem (h i) dpl fits small in (p, o, sel, d)))
  | inr beyond ↦ rw beyond (ground arith)
])
