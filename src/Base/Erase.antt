-- ===== src/Base/Erase.antt =====
-- Removal of a value from a list, and how long a list of distinct small numbers can be.
use Prim.Native.Nat.{ℕ, zero, suc, ◌+◌, ◌≤◌, ◌<◌}
use mathlib.Core.Path.{◌≡◌, refl, ap}
use mathlib.Core.Bool.{true, false}
use mathlib.Core.Logic.{◌≢◌, inl, inr}
use mathlib.Core.List.{List, [], ◌∷◌, ◌++◌}
use native.Mathlib.Omega.{arith}
use kaya_project.Base.Tests.{Bool-cases, ◌==◌, if◌then◌else◌}
use kaya_project.Base.Lists.{length, has, Nodup, All}

-- `xs` less the first `p`.
abbrev pub erase : ℕ → List ℕ → List ℕ
erase p [] = []
erase p (x ∷ xs) = if x == p then xs else x ∷ erase p xs

pub has-erase_of : (a p : ℕ) (xs : List ℕ) → has a xs ≡ false → has a (erase p xs) ≡ false
has-erase_of a p [] h = refl
has-erase_of a p (x ∷ xs) h = ground (arith, has-erase_of a p xs)

pub has_of-erase : (a p : ℕ) (xs : List ℕ) → has a (erase p xs) ≡ true → has a xs ≡ true
has_of-erase a p xs h = elim (Bool-cases (has a xs)) [
  | inl e ↦ e
  | inr e ↦ absurd (cc (has-erase_of a p xs e))
]

pub Nodup-erase : (p : ℕ) (xs : List ℕ) → Nodup xs → Nodup (erase p xs)
Nodup-erase p [] n = tt
Nodup-erase p (x ∷ xs) n = ground (arith, has-erase_of x p xs, Nodup-erase p xs)

-- In a list without repetitions nothing is left of what was removed.
pub has-erase_self : (p : ℕ) (xs : List ℕ) → Nodup xs → has p (erase p xs) ≡ false
has-erase_self p [] n = refl
has-erase_self p (x ∷ xs) n = ground (arith, has-erase_self p xs)

pub has-erase_ne : (a p : ℕ) (xs : List ℕ) → a ≢ p → has a (erase p xs) ≡ has a xs
has-erase_ne a p [] n = refl
has-erase_ne a p (x ∷ xs) n = ground (arith, has-erase_ne a p xs n)

pub erase_absent : (p : ℕ) (xs : List ℕ) → has p xs ≡ false → erase p xs ≡ xs
erase_absent p [] h = refl
erase_absent p (x ∷ xs) h = ground (arith, erase_absent p xs)

-- Where `p` stands first in a list.
pub record Split (p : ℕ) (xs : List ℕ) : Type 0 where
  pub before : List ℕ
  pub after : List ℕ
  pub whole : xs ≡ before ++ p ∷ after
  pub fresh : has p before ≡ false

pub Split-at : (p : ℕ) (xs : List ℕ) → has p xs ≡ true → Split p xs
Split-at p [] h = cc
Split-at p (x ∷ xs) h = elim (Bool-cases (x == p)) [
  | inl e ↦ record { before = []; after = xs; whole = ground arith; fresh = refl }
  | inr e ↦
      let s = Split-at p xs (ground arith) in
      record {
        before = x ∷ s.before;
        after = s.after;
        whole = ap (λ l. x ∷ l) s.whole;
        fresh = ground (arith, s.fresh);
      }
]

pub erase-split : (p : ℕ) (xs ys : List ℕ) → has p xs ≡ false → erase p (xs ++ p ∷ ys) ≡ xs ++ ys
erase-split p [] ys h = ground arith
erase-split p (x ∷ xs) ys h = ground (arith, erase-split p xs ys)

pub erase-append :
    (p : ℕ) (xs ys : List ℕ) → has p xs ≡ true → erase p (xs ++ ys) ≡ erase p xs ++ ys
erase-append p [] ys h = cc
erase-append p (x ∷ xs) ys h = ground (arith, erase-append p xs ys)

pub erase-append_right :
    (p : ℕ) (xs ys : List ℕ) → has p xs ≡ false → erase p (xs ++ ys) ≡ xs ++ erase p ys
erase-append_right p [] ys h = refl
erase-append_right p (x ∷ xs) ys h = ground (arith, erase-append_right p xs ys)

pub All-erase {κ} : (P : ℕ → Type κ) (p : ℕ) (xs : List ℕ) → All P xs → All P (erase p xs)
All-erase P p [] c = tt
All-erase P p (x ∷ xs) c = elim (Bool-cases (x == p)) [
  | inl e ↦ rw e c.1
  | inr e ↦ rw e (c.0, All-erase P p xs c.1)
]

-- The last member of a list that is not empty.
pub record Snoc (xs : List ℕ) : Type 0 where
  pub front : List ℕ
  pub last : ℕ
  pub whole : xs ≡ front ++ last ∷ []

pub Snoc-view : (x : ℕ) (xs : List ℕ) → Snoc (x ∷ xs)
Snoc-view x [] = record { front = []; last = x; whole = refl }
Snoc-view x (y ∷ ys) =
    let s = Snoc-view y ys in
    record { front = x ∷ s.front; last = s.last; whole = ap (λ l. x ∷ l) s.whole }

length-erase : (p : ℕ) (xs : List ℕ) → length xs ≤ length (erase p xs) + 1
length-erase p [] = ground arith
length-erase p (x ∷ xs) = ground (arith, length-erase p xs)

All-lt_of_absent :
    (n : ℕ) (xs : List ℕ) → has n xs ≡ false → All (λ a. a < suc n) xs → All (λ a. a < n) xs
All-lt_of_absent n [] h c = tt
All-lt_of_absent n (x ∷ xs) h c = (ground arith, All-lt_of_absent n xs (ground arith) c.1)

All-erase_lt :
    (n : ℕ) (xs : List ℕ) → Nodup xs → All (λ a. a < suc n) xs → All (λ a. a < n) (erase n xs)
All-erase_lt n [] d c = tt
All-erase_lt n (x ∷ xs) d c = elim (Bool-cases (x == n)) [
  | inl e ↦ rw e (All-lt_of_absent n xs (ground arith) c.1)
  | inr e ↦ rw e (ground arith, All-erase_lt n xs d.1 c.1)
]

-- The pigeonhole principle.
pub length-le_of_Nodup : (n : ℕ) (xs : List ℕ) → Nodup xs → All (λ a. a < n) xs → length xs ≤ n
length-le_of_Nodup zero [] d c = ground arith
length-le_of_Nodup zero (x ∷ xs) d c = absurd (omega arith)
length-le_of_Nodup (suc n) xs d c = omega (
  arith,
  length-erase n xs,
  length-le_of_Nodup n (erase n xs) (Nodup-erase n xs d) (All-erase_lt n xs d c),
)
