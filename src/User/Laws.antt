-- ===== src/User/Laws.antt =====
-- What the programs of phase3 rely on: the terminal takes what is written to it, TERMINATE does not
-- return, and memory keeps what is stored. And `print` of phase3/print.c under these laws.
use Prim.Native.String.{String}
use kaya_project.Base.{
  returns, ℕ, zero, suc, ◌<◌, ◌≡◌, refl, sym, ap, ◌∙◌, Bool, true, false, not, ◌&&◌, ◌==◌, ltb,
  if◌then◌else◌, List, [], ◌∷◌, ◌++◌, length, length-append, get_elem?, some, none, arith, ok,
  and_then, when, ◌>>=◌, Returns, Stops,
}
use mathlib.Core.List.{append_assoc, append-nil}
use kaya_project.Base.Monad
use kaya_project.Base.Words.{is_negative}
use kaya_project.Machine.{Addr, Word}
use kaya_project.Selftest.Program.{codes}
use kaya_project.User.{
  Argument, Os, Process, Call, ended, User, literal, word, text, syscall, terminate, print,
  string_length, char_at,
}
use kaya_project.User.Programs.{say, os_segment}

-- `get` is the memory of the process. A read in the segment ksegOS is the end of the process.
pub record Serves {S : Type 0} (os : Os S) (get : S → Addr → Word) : Type 0 where
  pub writes :
      (c : Call) (s : S)
      → c.number ≡ os.write_terminal
      → Returns
          (λ status t. (is_negative status ≡ false) × ((a : Addr) → get t a ≡ get s a))
          (os.serve c s)
  pub ends : (c : Call) (s : S) → c.number ≡ os.terminate → Stops (λ e t. e ≡ ended) (os.serve c s)
  pub load :
      (a : Addr) (s : S)
      → Returns (λ v t. (v ≡ get s a) × ((b : Addr) → get t b ≡ get s b)) (os.load a s)
  pub store :
      (a : Addr) (v : Word) (s : S)
      → Returns (λ _ t. (b : Addr) → get t b ≡ (if b == a then v else get s b)) (os.store a v s)
  pub guarded : (s : S) → Stops (λ e t. e ≡ ended) (os.load_char os_segment s)

abbrev pub no_zero : List ℕ → Bool
no_zero [] = true
no_zero (c ∷ cs) = not (c == 0) && no_zero cs

-- A string constant within the rounds of the loop in `print`.
abbrev pub is_plain : String → Bool
is_plain s = ltb (length (codes s)) 100 && no_zero (codes s)

pub get-append : (xs ys : List ℕ) (y : ℕ) → get_elem? (xs ++ y ∷ ys) (length xs) ≡ some y
get-append [] ys y = refl
get-append (x ∷ xs) ys y = get-append xs ys y

pub get-end : (xs : List ℕ) → get_elem? xs (length xs) ≡ none
get-end [] = refl
get-end (x ∷ xs) = get-end xs

module _ {S : Type 0} (os : Os S) where
  -- A character of a string constant, and its end.
  pub char_at-literal :
      (s : String) (front cs : List ℕ) {c : ℕ} (u : Process S)
      → codes s ≡ front ++ c ∷ cs
      → char_at os (literal s) (length front) u ≡ ok c u
  unfolding char_at
  char_at-literal s front cs {c} u e = rw (e, get-append front cs c) refl

  pub char_at-end :
      (s : String) (front : List ℕ) (u : Process S)
      → codes s ≡ front ++ []
      → char_at os (literal s) (length front) u ≡ ok 0 u
  unfolding char_at
  char_at-end s front u e = rw (e ∙ append-nil front, get-end front) refl

  string_length-literal :
      (s : String) (n : ℕ) (front cs : List ℕ) (u : Process S)
      → codes s ≡ front ++ cs
      → no_zero cs ≡ true
      → length cs < n
      → string_length os n (literal s) (length front) u ≡ ok (length (codes s)) u
  unfolding string_length
  string_length-literal s zero front cs u e z le = absurd (omega arith)
  string_length-literal s (suc n) front [] u e z le = rw (e ∙ append-nil front, get-end front) refl
  string_length-literal s (suc n) front (c ∷ cs) u e z le =
      let here : get_elem? (codes s) (length front) ≡ some c =
        ap (λ l. get_elem? l (length front)) e ∙ get-append front cs c in
      let nonzero : (c == 0) ≡ false = ground arith in
      let longer : length (front ++ c ∷ []) ≡ suc (length front) =
        omega (arith, length-append front (c ∷ [])) in
      rw (here, nonzero)
        (ap (λ i. string_length os n (literal s) i u) (sym longer)
          ∙ string_length-literal s n (front ++ c ∷ []) cs u
              (e ∙ sym (append_assoc front (c ∷ []) cs)) (ground arith) (omega arith))

  -- The call that writes a string constant to a device.
  abbrev pub writing : Word → String → Call
  writing device s = record {
    number = device;
    first = text (literal s);
    second = length (codes s);
    third = 0;
  }

  -- The call that ends a process.
  abbrev pub ending : Call
  ending = record { number = os.terminate; first = word 0; second = 0; third = 0 }

  -- The part of `print` behind its loop.
  abbrev pub checked : Word → Word → User S (Unit {0})
  checked device status = when (is_negative status) (do
    status ← syscall os device (text (literal "Bad device write status\n")) 26 0
    terminate os)

  -- `print` of a string constant writes all of it, within its rounds, and if the status is negative
  -- writes the error message and ends the process.
  pub print-literal :
      (device : Word) (s : String) (u : Process S)
      → is_plain s ≡ true
      → print os device (literal s) u
        ≡ and_then (syscall os device (text (literal s)) (length (codes s)) 0 u) (checked device)
  unfolding print
  print-literal device s u p =
      ap (λ r. and_then r λ leng. syscall os device (text (literal s)) leng 0 >>= checked device)
        (string_length-literal s 100 [] (codes s) u refl (ground arith) (ground arith))

  -- What the system promises of a call holds of SYSCALL.
  pub syscall-serve :
      {P : Word → S → Type 0} (n : Word) (a : Argument) (b c : Word) (u : Process S)
      → Returns P (os.serve (record { number = n; first = a; second = b; third = c }) u.system)
      → Returns (λ r t. P r t.system) (syscall os n a b c u)
  unfolding syscall
  syscall-serve n a b c u m =
      Monad.lift
        (λ w. record {
          system = w;
          trace = record { number = n; first = a; second = b; third = c } ∷ u.trace;
        })
        m λ r w p. p

  -- What the system promises of every write to the terminal holds of `print` of a string constant
  -- there.
  pub say-literal :
      {Q : S → S → Type 0}
      → ((c : Call) (s : S)
          → c.number ≡ os.write_terminal
          → Returns (λ status t. (is_negative status ≡ false) × Q s t) (os.serve c s))
      → (s : String) (u : Process S) → is_plain s ≡ true
      → Returns
          (λ _ t. (t.trace ≡ writing os.write_terminal s ∷ u.trace) × Q u.system t.system)
          (say os s u)
  unfolding syscall
  say-literal {Q = Q} takes s u p =
      let call = writing os.write_terminal s in
      rw (print-literal os.write_terminal s u p) (
        Monad.bind
          (Monad.lift
            {Q = λ status t.
              (is_negative status ≡ false) × (t.trace ≡ call ∷ u.trace) × Q u.system t.system}
            (λ w. record { system = w; trace = call ∷ u.trace }) (takes call u.system refl)
            λ r w (n, m). (n, refl, m))
          λ r t (n, e, m). rw n (returns (e, m)))
