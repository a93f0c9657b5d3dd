-- ===== src/Base/Lists.antt =====
-- Lists measured by native numbers, and sets of pointers as lists with a Boolean membership test.
use Prim.Native.Nat.{ℕ, zero, suc, ◌+◌}
use mathlib.Core.Path.{◌≡◌, refl}
use mathlib.Core.Bool.{Bool, true, false, ◌||◌, or_assoc}
use mathlib.Core.Option.{Option, none, some}
use mathlib.Core.List.{List, [], ◌∷◌, ◌++◌}
use native.Mathlib.Omega.{arith}
use kaya_project.Base.Tests.{◌==◌}

module _ {ℓ} {A : Type ℓ} where
  abbrev pub length : List A → ℕ
  length [] = 0
  length (x ∷ xs) = suc (length xs)

  abbrev pub get_elem? : List A → ℕ → Option A
  get_elem? [] i = none
  get_elem? (x ∷ xs) zero = some x
  get_elem? (x ∷ xs) (suc i) = get_elem? xs i

  pub length-append : (xs ys : List A) → length (xs ++ ys) ≡ length xs + length ys
  length-append [] ys = omega arith
  length-append (x ∷ xs) ys = omega (arith, length-append xs ys)

-- Membership as a test, which `ground` splits on.
abbrev pub has : ℕ → List ℕ → Bool
has a [] = false
has a (x ∷ xs) = (a == x) || has a xs

pub has-append : (a : ℕ) (xs ys : List ℕ) → has a (xs ++ ys) ≡ (has a xs || has a ys)
has-append a [] ys = refl
has-append a (x ∷ xs) ys = rw (has-append a xs ys, or_assoc)

-- A member differs from what is not one.
pub has-apart :
    (a x : ℕ) (xs : List ℕ)
    → has a xs ≡ true
    → has x xs ≡ false
    → ((a == x) ≡ false) × ((x == a) ≡ false)
has-apart a x [] m n = cc
has-apart a x (y ∷ ys) m n = ground (arith, has-apart a x ys)

abbrev pub Nodup : List ℕ → Type 0
Nodup [] = Unit
Nodup (x ∷ xs) = (has x xs ≡ false) × Nodup xs

-- The parts of a list without repetitions have none, and share no member.
pub Nodup-parts :
    (xs ys : List ℕ)
    → Nodup (xs ++ ys)
    → Nodup xs × Nodup ys × ((a : ℕ) → has a xs ≡ true → has a ys ≡ false)
Nodup-parts [] ys n = (tt, n, λ a m. cc)
Nodup-parts (x ∷ xs) ys n =
    let (l, r, apart) = Nodup-parts xs ys n.1 in
    (
      (ground (arith, has-append x xs ys, n.0), l),
      r,
      λ a m. ground (arith, has-append x xs ys, n.0, apart a),
    )

abbrev pub All {ℓ κ} : {A : Type ℓ} → (A → Type κ) → List A → Type κ
All P [] = Unit
All P (x ∷ xs) = P x × All P xs

pub All-append {ℓ κ} :
    {A : Type ℓ} (P : A → Type κ) (xs ys : List A) → All P xs → All P ys → All P (xs ++ ys)
All-append P [] ys hx hy = hy
All-append P (x ∷ xs) ys hx hy = (hx.0, All-append P xs ys hx.1 hy)

-- `from`, `from + 1`, …, `n` numbers.
abbrev pub range : ℕ → ℕ → List ℕ
range from zero = []
range from (suc n) = from ∷ range (suc from) n
