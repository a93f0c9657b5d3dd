-- ===== src/Kernel/Exceptions/Cause.antt =====
-- The two masks by which phase2/exceptions.c turns a system call made in user mode into a reserved
-- instruction.
use Prim.Native.Nat.{bit_or, max}
use kaya_project.Base.{
  ℕ, ◌+◌, ◌-◌, ◌*◌, ◌/◌, ◌%◌, ◌≤◌, ◌<◌, ◌≡◌, ◌∙◌, refl, ap, List, [], ◌∷◌, All, length, arith,
}
use kaya_project.Base.Bits.{bit_or-step, bit_or-zero}
use kaya_project.Base.Words.{word_mod, not32}
use kaya_project.Machine.{Word}
use kaya_project.Kernel.Exceptions.{reserved_cause}

-- A number by its low binary digits, the lowest first, over the rest `h`.
abbrev of_digits : ℕ → List ℕ → ℕ
of_digits h [] = h
of_digits h (x ∷ xs) = of_digits h xs * 2 + x

abbrev or_each : List ℕ → List ℕ → List ℕ
or_each [] ys = []
or_each (x ∷ xs) [] = x ∷ xs
or_each (x ∷ xs) (y ∷ ys) = max x y ∷ or_each xs ys

or_digit : (a m x y : ℕ) → x < 2 → y < 2 → bit_or (a * 2 + x) (m * 2 + y) ≡ bit_or a m * 2 + max x y
or_digit a m x y p q =
    let u : (a * 2 + x) / 2 ≡ a = omega arith in
    let v : (m * 2 + y) / 2 ≡ m = omega arith in
    let s : (a * 2 + x) % 2 ≡ x = omega arith in
    let t : (m * 2 + y) % 2 ≡ y = omega arith in
    rw (bit_or-step (a * 2 + x) (m * 2 + y), u, v, s, t) refl

abbrev IsDigit : ℕ → Type 0
IsDigit x = x < 2

-- A mask of at most as many digits acts on each digit.
or_mask :
    (h : ℕ) (xs ys : List ℕ)
    → All IsDigit xs
    → All IsDigit ys
    → length ys ≤ length xs
    → bit_or (of_digits h xs) (of_digits 0 ys) ≡ of_digits h (or_each xs ys)
or_mask h [] [] p q le = bit_or-zero h
or_mask h [] (y ∷ ys) p q le = absurd (omega arith)
or_mask h (x ∷ xs) [] p q le = bit_or-zero (of_digits h (x ∷ xs))
or_mask h (x ∷ xs) (y ∷ ys) p q le =
    rw
      (
        or_digit (of_digits h xs) (of_digits 0 ys) x y p.0 q.0,
        or_mask h xs ys p.1 q.1 (omega arith),
      )
      refl

-- The digits of a cause with the exception code 8, and of one with the code 10.
abbrev call_digits : ℕ → ℕ → List ℕ
call_digits a b = a ∷ b ∷ 0 ∷ 0 ∷ 0 ∷ 1 ∷ 0 ∷ []

abbrev reserved_digits : ℕ → ℕ → List ℕ
reserved_digits a b = a ∷ b ∷ 0 ∷ 1 ∷ 0 ∷ 1 ∷ 0 ∷ []

abbrev off_digits : ℕ → ℕ → List ℕ
off_digits a b = a ∷ b ∷ 1 ∷ 0 ∷ 1 ∷ 0 ∷ 1 ∷ []

not32-reserved :
    (h a b : ℕ)
    → h < 0x200_0000
    → IsDigit a
    → IsDigit b
    → not32 (of_digits h (reserved_digits a b))
      ≡ of_digits (0x1ff_ffff - h) (off_digits (1 - a) (1 - b))
unfolding not32
not32-reserved h a b p q r = omega arith

not32-off :
    (h a b : ℕ)
    → h < 0x200_0000
    → IsDigit a
    → IsDigit b
    → not32 (of_digits (0x1ff_ffff - h) (off_digits (1 - a) (1 - b)))
      ≡ of_digits h (reserved_digits a b)
unfolding not32
not32-off h a b p q r = omega arith

max_zero : (a : ℕ) → max a 0 ≡ a
max_zero a = omega arith

reserved_cause-digits :
    (h a b : ℕ)
    → h < 0x200_0000
    → IsDigit a
    → IsDigit b
    → reserved_cause (of_digits h (call_digits a b)) ≡ of_digits h (reserved_digits a b)
unfolding reserved_cause
reserved_cause-digits h a b p q r =
    rw (set_on, not32-reserved h a b p q r, set_off) (not32-off h a b p q r)
  where
    set_on : bit_or (of_digits h (call_digits a b)) 0x28 ≡ of_digits h (reserved_digits a b)
    set_on =
        rw
          (
            or_mask h (call_digits a b) (0 ∷ 0 ∷ 0 ∷ 1 ∷ 0 ∷ 1 ∷ []) (omega arith) (omega arith)
                (omega arith),
            max_zero a,
            max_zero b,
          )
          refl

    set_off :
        bit_or (of_digits (0x1ff_ffff - h) (off_digits (1 - a) (1 - b))) 0x14
        ≡ of_digits (0x1ff_ffff - h) (off_digits (1 - a) (1 - b))
    set_off =
        rw
          (
            or_mask (0x1ff_ffff - h) (off_digits (1 - a) (1 - b)) (0 ∷ 0 ∷ 1 ∷ 0 ∷ 1 ∷ [])
                (omega arith) (omega arith) (omega arith),
            max_zero (1 - a),
            max_zero (1 - b),
          )
          refl

abbrev pub exc_code : Word → ℕ
exc_code c = c / 4 % 32

call-digits :
    (c : Word) → exc_code c ≡ 8 → c ≡ of_digits (c / 128) (call_digits (c % 2) (c / 2 % 2))
call-digits c e = omega arith

reserved-exc_code :
    (h a b : ℕ)
    → IsDigit a
    → IsDigit b
    → (exc_code (of_digits h (reserved_digits a b)) ≡ 10)
      × (of_digits h (reserved_digits a b) % 4 ≡ b * 2 + a)
      × (of_digits h (reserved_digits a b) / 128 ≡ h)
reserved-exc_code h a b p q = (omega arith, omega arith, omega arith)

-- A cause with the exception code 8, a system call, becomes one with the code 10, a reserved
-- instruction, and the bits outside the code stay.
pub reserved_cause-exc_code :
    (c : Word)
    → c < word_mod
    → exc_code c ≡ 8
    → (exc_code (reserved_cause c) ≡ 10)
      × (reserved_cause c % 4 ≡ c % 4)
      × (reserved_cause c / 128 ≡ c / 128)
reserved_cause-exc_code c h e =
    let run : reserved_cause c ≡ of_digits (c / 128) (reserved_digits (c % 2) (c / 2 % 2)) =
      ap reserved_cause (call-digits c e)
      ∙ reserved_cause-digits (c / 128) (c % 2) (c / 2 % 2) (omega arith) (omega arith)
          (omega arith) in
    let (code, low, high) =
      reserved-exc_code (c / 128) (c % 2) (c / 2 % 2) (omega arith) (omega arith) in
    rw run (code, low ∙ omega arith, high)
