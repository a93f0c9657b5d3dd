-- ===== src/Base/Monad.antt =====
-- Commands over a state `S`: a run returns, leaves the kernel for good by an exit `E`, faults at
-- NULL, or runs out of fuel.
use kaya_project.Base.Tests.{◌==◌, if◌then◌else◌}
use Prim.Native.Nat.{ℕ}
use mathlib.Core.Path.{◌≡◌, refl}
use mathlib.Core.Bool.{Bool, true, false}

pub data Run (E S A : Type 0) : Type 0 where
  ok : A → S → Run E S A
  stop : E → S → Run E S A
  fault : Run E S A
  out_of_fuel : Run E S A

abbrev pub Cmd : Type 0 → Type 0 → Type 0 → Type 0
Cmd E S A = S → Run E S A

abbrev pub pure : {E S A : Type 0} → A → Cmd E S A
pure a s = ok a s

abbrev pub and_then : {E S A B : Type 0} → Run E S A → (A → Cmd E S B) → Run E S B
and_then (ok a s) k = k a s
and_then (stop e s) k = stop e s
and_then fault k = fault
and_then out_of_fuel k = out_of_fuel

infixl 5 ◌>>=◌ ◌>>◌
abbrev pub ◌>>=◌ : {E S A B : Type 0} → Cmd E S A → (A → Cmd E S B) → Cmd E S B
m >>= k = λ s. and_then (m s) k

abbrev pub ◌>>◌ : {E S B : Type 0} → Cmd E S (Unit {0}) → Cmd E S B → Cmd E S B
m >> n = m >>= λ _. n

-- A test that guards the rest of a command.
abbrev pub when : {E S : Type 0} → Bool → Cmd E S (Unit {0}) → Cmd E S (Unit {0})
when true m = m
when false m = pure tt

-- A command on a part of the state, run on the whole of it.
abbrev pub put_back : {E S T A : Type 0} → (S → T) → Run E S A → Run E T A
put_back put (ok a s) = ok a (put s)
put_back put (stop e s) = stop e (put s)
put_back put fault = fault
put_back put out_of_fuel = out_of_fuel

-- `a` with the value at `p` given anew.
abbrev pub update : {A : Type 0} → (ℕ → A) → ℕ → A → ℕ → A
update f p v q = if q == p then v else f q

-- Total correctness of a run: it returns, and the postcondition holds.
pub data Returns {E S A : Type 0} (P : A → S → Type 0) : Run E S A → Type 0 where
  returns : {a : A} {s : S} → P a s → Returns P (ok a s)

module _ {E S A : Type 0} {P : A → S → Type 0} where
  pub bind :
      {B : Type 0} {Q : B → S → Type 0} {r : Run E S A} {k : A → Cmd E S B}
      → Returns P r
      → ((a : A) (s : S) → P a s → Returns Q (k a s))
      → Returns Q (and_then r k)
  bind (returns p) next = next _ _ p

  pub mono :
      {Q : A → S → Type 0} {r : Run E S A}
      → Returns P r
      → ((a : A) (s : S) → P a s → Q a s)
      → Returns Q r
  mono (returns p) weaken = returns (weaken _ _ p)

-- The postcondition of a run whose result is known.
pub result :
    {E S A : Type 0} {P : A → S → Type 0} {a : A} {s : S} → Returns {E = E} P (ok a s) → P a s
result (returns p) = p

-- A run that leaves the kernel, and how.
pub data Stops {E S A : Type 0} (P : E → S → Type 0) : Run E S A → Type 0 where
  stops : {e : E} {s : S} → P e s → Stops P (stop e s)

module _ {E S A : Type 0} {P : A → S → Type 0} where
  pub bind-Stops :
      {B : Type 0} {Q : E → S → Type 0} {r : Run E S A} {k : A → Cmd E S B}
      → Returns P r
      → ((a : A) (s : S) → P a s → Stops Q (k a s))
      → Stops Q (and_then r k)
  bind-Stops (returns p) next = next _ _ p

  -- A postcondition of a part of the state, on the whole of it.
  pub lift :
      {T : Type 0} {Q : A → T → Type 0} {r : Run E S A} (put : S → T)
      → Returns P r
      → ((a : A) (s : S) → P a s → Q a (put s))
      → Returns Q (put_back put r)
  lift put (returns p) weaken = returns (weaken _ _ p)

pub mono-Stops :
    {E S A : Type 0} {P Q : E → S → Type 0} {r : Run E S A}
    → Stops P r
    → ((e : E) (s : S) → P e s → Q e s)
    → Stops Q r
mono-Stops (stops p) weaken = stops (weaken _ _ p)

-- Nothing runs behind a run that leaves the kernel.
pub Stops-last :
    {E S A : Type 0} {P : E → S → Type 0} {r : Run E S A} (k : A → Cmd E S A)
    → Stops P r
    → and_then r k ≡ r
Stops-last k (stops p) = refl

-- A run that returns, taken apart.
pub returned :
    {E S A : Type 0} {P : A → S → Type 0} {r : Run E S A}
    → Returns P r
    → (a : A) × (s : S) × (r ≡ ok a s) × P a s
returned (returns p) = (_, _, refl, p)

pub lift-Stops :
    {E S T A : Type 0} {P : E → S → Type 0} {Q : E → T → Type 0} {r : Run E S A} (put : S → T)
    → Stops P r
    → ((e : E) (s : S) → P e s → Q e (put s))
    → Stops Q (put_back put r)
lift-Stops put (stops p) weaken = stops (weaken _ _ p)

pub Stops-first :
    {E S A B : Type 0} {P : E → S → Type 0} {r : Run E S A} (k : A → Cmd E S B)
    → Stops P r
    → Stops P (and_then r k)
Stops-first k (stops p) = stops p
