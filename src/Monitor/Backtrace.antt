-- ===== src/Monitor/Backtrace.antt =====
-- mon_backtrace of kern/monitor.c: the walk along the saved base pointers. `word` is what the processor
-- reads at an address, and `debug` what debuginfo_eip finds.
use jos_miles.Prelude.{
  ℕ, zero, suc, ◌+◌, ◌<◌, ◌≡◌, ◌≢◌, arith, Option, none, some, List, [], ◌∷◌, ◌==◌, if◌then◌else◌,
  length, map,
}
use jos_miles.Prelude.Options.{◌>>=◌}
use jos_miles.Kdebug.{Eipdebuginfo}

-- What is printed of one frame: the base pointer, the return address, five words behind it, and where
-- the address lies, if that is found.
pub record StackFrame : Type 0 where
  pub base_pointer : ℕ
  pub instruction_pointer : ℕ
  pub pargv : List ℕ
  pub frame_info : Option Eipdebuginfo

unfoldable pub read_frame_at : (ℕ → ℕ) → (ℕ → Option Eipdebuginfo) → ℕ → StackFrame
read_frame_at word debug ebp = record {
  base_pointer = ebp;
  instruction_pointer = word (ebp + 4);
  pargv =
      word (ebp + 8) ∷ word (ebp + 12) ∷ word (ebp + 16) ∷ word (ebp + 20) ∷ word (ebp + 24) ∷ [];
  frame_info = debug (word (ebp + 4));
}

-- The loop; `none` where the fuel is used up.
unfoldable pub mon_backtrace :
    (ℕ → ℕ) → (ℕ → Option Eipdebuginfo) → ℕ → ℕ → Option (List StackFrame)
mon_backtrace word debug ebp zero = none
mon_backtrace word debug ebp (suc fuel) =
    let rest = mon_backtrace word debug (word ebp) fuel in
    if ebp == 0 then some [] else (rest >>= λ frames. some (read_frame_at word debug ebp ∷ frames))

-- From ebp on, the saved base pointers lead through the frames at `ebps` to 0.
abbrev pub StackFrames : (ℕ → ℕ) → ℕ → List ℕ → Type 0
StackFrames word ebp [] = ebp ≡ 0
StackFrames word ebp (b ∷ bs) = (ebp ≡ b) × (b ≢ 0) × StackFrames word (word b) bs

-- Along a chain of base pointers that ends in 0, mon_backtrace prints each frame once, the innermost
-- first, with fuel above their number.
pub mon_backtrace-StackFrames :
    (ebps : List ℕ) (word : ℕ → ℕ) (debug : ℕ → Option Eipdebuginfo) (ebp fuel : ℕ)
    → StackFrames word ebp ebps
    → length ebps < fuel
    → mon_backtrace word debug ebp fuel ≡ some (map (read_frame_at word debug) ebps)
unfolding mon_backtrace
mon_backtrace-StackFrames ebps word debug ebp zero f enough = absurd (omega arith)
mon_backtrace-StackFrames [] word debug ebp (suc fuel) f enough = ground (arith, f)
mon_backtrace-StackFrames (b ∷ bs) word debug ebp (suc fuel) f enough =
    rw (f.0)
      (ground (arith, f.1, mon_backtrace-StackFrames bs word debug (word b) fuel f.2 (omega arith)))
