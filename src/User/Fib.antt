-- ===== src/User/Fib.antt =====
-- `fib` of phase3/fibTest.c, on fuel, against the Fibonacci numbers.
use kaya_project.Base.{
  ℕ, zero, suc, ◌+◌, ◌%◌, ◌≤◌, ◌<◌, ◌≡◌, refl, ap, ◌∙◌, ◌==◌, ◌||◌, if◌then◌else◌, Option, some,
  none, arith,
}
use kaya_project.Base.Words.{word_mod, add32, sub32}
use kaya_project.Machine.{Word}

-- The sum of two results.
abbrev sum : Option Word → Option Word → Option Word
sum (some a) (some b) = some (add32 a b)
sum _ _ = none

-- `none` where the `n` levels of recursion are not enough.
unfoldable pub fib : ℕ → Word → Option Word
unfolding add32 sub32
fib zero i = none
fib (suc n) i =
    let previous = fib n (sub32 i 1) in
    let one_before = fib n (sub32 i 2) in
    if (i == 1) || (i == 2) then some 1 else sum previous one_before

-- The Fibonacci numbers by iteration, two at a time.
abbrev fibonacci_from : ℕ → ℕ → ℕ → ℕ
fibonacci_from a b zero = a
fibonacci_from a b (suc n) = fibonacci_from b (a + b) n

abbrev pub fibonacci : ℕ → ℕ
fibonacci n = fibonacci_from 0 1 n

fibonacci_from-step :
    (a b n : ℕ)
    → fibonacci_from a b (suc (suc n)) ≡ fibonacci_from a b (suc n) + fibonacci_from a b n
fibonacci_from-step a b zero = omega arith
fibonacci_from-step a b (suc n) = fibonacci_from-step b (a + b) n

fib-step :
    (n i : ℕ)
    → fib (suc n) (suc (suc (suc i)))
      ≡ sum (fib n (sub32 (suc (suc (suc i))) 1)) (fib n (sub32 (suc (suc (suc i))) 2))
unfolding fib
fib-step n i = ground arith

-- For an argument from 1 on, with as many levels as the argument, `fib` is the Fibonacci number in
-- 32 bits.
pub fib-fibonacci :
    (n : ℕ) (i : Word) → 1 ≤ i → i ≤ n → i < word_mod → fib n i ≡ some (fibonacci i % word_mod)
unfolding fib add32 sub32
fib-fibonacci zero i low high top = absurd (omega arith)
fib-fibonacci (suc n) zero low high top = absurd (omega arith)
fib-fibonacci (suc n) (suc zero) low high top = refl
fib-fibonacci (suc n) (suc (suc zero)) low high top = refl
fib-fibonacci (suc n) (suc (suc (suc i))) low high top =
    let below : sub32 (suc (suc (suc i))) 1 ≡ suc (suc i) = omega arith in
    let further : sub32 (suc (suc (suc i))) 2 ≡ suc i = omega arith in
    fib-step n i
    ∙ ap (λ a. sum (fib n a) (fib n (sub32 (suc (suc (suc i))) 2))) below
    ∙ ap (λ a. sum (fib n (suc (suc i))) (fib n a)) further
    ∙ ap (λ r. sum r (fib n (suc i)))
        (fib-fibonacci n (suc (suc i)) (omega arith) (omega arith) (omega arith))
    ∙ ap (sum (some (fibonacci (suc (suc i)) % word_mod)))
        (fib-fibonacci n (suc i) (omega arith) (omega arith) (omega arith))
    ∙ ap some (omega (arith, fibonacci_from-step 0 1 (suc i)))
