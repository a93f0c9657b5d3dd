-- ===== src/Base/Words.antt =====
-- 32-bit machine words as native numbers, the wrap-around written out, and their signed reading.
use Prim.Native.Nat.{ℕ, ◌+◌, ◌-◌, ◌*◌, ◌/◌, ◌%◌, ◌^◌, ◌<◌}
use mathlib.Core.Path.{◌≡◌}
use mathlib.Core.Bool.{Bool, ◌||◌}
use native.Mathlib.Omega.{arith}
use kaya_project.Base.Tests.{leb, ltb, ◌==◌, if◌then◌else◌}

abbrev pub word_mod : ℕ
word_mod = 0x1_0000_0000

unfoldable pub add32 : ℕ → ℕ → ℕ
add32 a b = (a + b) % word_mod

unfoldable pub sub32 : ℕ → ℕ → ℕ
sub32 a b = (a + word_mod - b) % word_mod

unfoldable pub mul32 : ℕ → ℕ → ℕ
mul32 a b = (a * b) % word_mod

-- `~x`
unfoldable pub not32 : ℕ → ℕ
not32 a = word_mod - 1 - a

-- `x++` and `x--` on an `int`.
unfoldable pub inc32 : ℕ → ℕ
inc32 a = (a + 1) % word_mod

unfoldable pub dec32 : ℕ → ℕ
dec32 a = (a + (word_mod - 1)) % word_mod

-- `x < 0` and `x <= 0` on an `int`.
unfoldable pub is_negative : ℕ → Bool
is_negative a = leb 0x8000_0000 a

unfoldable pub is_nonpositive : ℕ → Bool
unfolding is_negative
is_nonpositive a = (a == 0) || is_negative a

-- The absolute value of a signed word.
abbrev magnitude : ℕ → ℕ
magnitude a = if leb 0x8000_0000 a then word_mod - a else a

-- `a / b` on `int`: the quotient is cut off towards 0.
unfoldable pub div_signed : ℕ → ℕ → ℕ
unfolding is_negative
div_signed a b =
    let q = magnitude a / magnitude b in
    if is_negative a
    then (if is_negative b then q % word_mod else (word_mod - q) % word_mod)
    else (if is_negative b then (word_mod - q) % word_mod else q % word_mod)

-- `CHECK_BIT(var, pos)` as a test.
unfoldable pub check_bit : ℕ → ℕ → Bool
check_bit var pos = (var / 2 ^ pos) % 2 == 1

pub dec32-inc32 : (a : ℕ) → a < word_mod → dec32 (inc32 a) ≡ a
unfolding dec32 inc32
dec32-inc32 a h = omega arith

-- `a < b` for two `int`s.
unfoldable pub ltb_signed : ℕ → ℕ → Bool
ltb_signed a b = ltb ((a + 0x8000_0000) % word_mod) ((b + 0x8000_0000) % word_mod)
