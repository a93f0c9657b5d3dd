-- ===== src/Base/Bits.antt =====
-- `bit_or` one binary digit at a time.
use Prim.Native.Nat.{ℕ, zero, suc, ◌+◌, ◌*◌, ◌/◌, ◌%◌, ◌≤◌, max, bit_or, digits, bit_or-bitwise}
use mathlib.Core.Path.{◌≡◌, refl}
use native.Mathlib.Omega.{arith}

abbrev or_digits : ℕ → ℕ → ℕ → ℕ
or_digits fuel a b = digits (λ b. b) max fuel a b

-- More fuel than digits changes nothing.
or_digits-fuel : (n m a b : ℕ) → a ≤ n → a ≤ m → or_digits n a b ≡ or_digits m a b
or_digits-fuel zero zero a b p q = refl
or_digits-fuel zero (suc m) zero b p q = refl
or_digits-fuel zero (suc m) (suc a) b p q = absurd (omega arith)
or_digits-fuel (suc n) zero zero b p q = refl
or_digits-fuel (suc n) zero (suc a) b p q = absurd (omega arith)
or_digits-fuel (suc n) (suc m) zero b p q = refl
or_digits-fuel (suc n) (suc m) (suc a) b p q =
    omega (arith, or_digits-fuel n m (suc a / 2) (b / 2) (omega arith) (omega arith))

pub zero-bit_or : (b : ℕ) → bit_or 0 b ≡ b
zero-bit_or b = bit_or-bitwise 0 b

pub bit_or-step : (a b : ℕ) → bit_or a b ≡ bit_or (a / 2) (b / 2) * 2 + max (a % 2) (b % 2)
bit_or-step zero b = omega (arith, zero-bit_or b, zero-bit_or (b / 2))
bit_or-step (suc a) b = omega (
  arith,
  bit_or-bitwise (suc a) b,
  bit_or-bitwise (suc a / 2) (b / 2),
  or_digits-fuel a (suc a / 2) (suc a / 2) (b / 2) (omega arith) (omega arith),
)

bit_or-zero_below : (n a : ℕ) → a ≤ n → bit_or a 0 ≡ a
bit_or-zero_below n zero h = refl
bit_or-zero_below zero (suc a) h = absurd (omega arith)
bit_or-zero_below (suc n) (suc a) h =
    omega (arith, bit_or-step (suc a) 0, bit_or-zero_below n (suc a / 2) (omega arith))

pub bit_or-zero : (a : ℕ) → bit_or a 0 ≡ a
bit_or-zero a = bit_or-zero_below a a (omega arith)
