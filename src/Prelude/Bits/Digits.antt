-- ===== src/Prelude/Bits/Digits.antt =====
-- One binary digit of `&` and `|`, from the recursion that the native operations stand for.
use Prim.Native.Nat.{ℕ, zero, suc, ◌+◌, ◌*◌, ◌/◌, ◌%◌, ◌≤◌, min, max, bit_and, bit_or}
use Prim.Native.Nat.{digits, bitwise, bit_and-bitwise, bit_or-bitwise}
use mathlib.Core.Path.{◌≡◌, refl}
use native.Mathlib.Omega.{arith}

-- Any two amounts of fuel that reach the first number give the same digits.
enough_fuel :
    (unit : ℕ → ℕ) (f : ℕ → ℕ → ℕ) (n m a b : ℕ)
    → a ≤ n
    → a ≤ m
    → digits unit f n a b ≡ digits unit f m a b
enough_fuel unit f zero zero a b p q = refl
enough_fuel unit f zero (suc m) zero b p q = refl
enough_fuel unit f zero (suc m) (suc a) b p q = absurd (omega arith)
enough_fuel unit f (suc n) zero zero b p q = refl
enough_fuel unit f (suc n) zero (suc a) b p q = absurd (omega arith)
enough_fuel unit f (suc n) (suc m) zero b p q = refl
enough_fuel unit f (suc n) (suc m) (suc a) b p q =
    rw (enough_fuel unit f n m (suc a / 2) (b / 2) (omega arith) (omega arith))

lowest_digit :
    (unit : ℕ → ℕ) (f : ℕ → ℕ → ℕ) (a b : ℕ)
    → bitwise unit f (suc a) b ≡ bitwise unit f (suc a / 2) (b / 2) * 2 + f (suc a % 2) (b % 2)
lowest_digit unit f a b =
    omega (arith, enough_fuel unit f a (suc a / 2) (suc a / 2) (b / 2) (omega arith) (omega arith))

pub bit_and_digit : (a b : ℕ) → bit_and a b ≡ bit_and (a / 2) (b / 2) * 2 + min (a % 2) (b % 2)
bit_and_digit zero b = simp bit_and-bitwise (omega arith)
bit_and_digit (suc a) b = simp bit_and-bitwise (lowest_digit (λ y. 0) min a b)

pub bit_or_digit : (a b : ℕ) → bit_or a b ≡ bit_or (a / 2) (b / 2) * 2 + max (a % 2) (b % 2)
bit_or_digit zero b = simp bit_or-bitwise (omega arith)
bit_or_digit (suc a) b = simp bit_or-bitwise (lowest_digit (λ y. y) max a b)
