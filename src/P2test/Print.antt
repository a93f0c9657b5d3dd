-- ===== src/P2test/Print.antt =====
-- `print` of phase2/p2test.c, on a kernel that only writes down what it is asked for.
use Prim.Native.Nat.{bit_and}
use Prim.Native.String.{String}
use kaya_project.Base.{◌≡◌, refl, false, List, [], ◌∷◌, ◌++◌, All, ◌==◌, ok, Stops, stops}
use mathlib.Core.List.{reverse_aux}
use kaya_project.Base.Monad
use kaya_project.Machine.{Addr, Word, State}
use kaya_project.Selftest.Program.{codes}
use kaya_project.P2test.{
  Host, Argument, panics, word, var, term_mut, command_register, char_command, print_char,
  print_chars, print,
}

-- What a process asks for.
pub data Event : Type 0 where
  served : (n : Word) → (a b c : Argument) → Event
  stored : Addr → Word → Event

-- The events, the last one first, and the last word stored.
pub record Tape : Type 0 where
  pub log : List Event
  pub last : Word

-- Every request comes back. A system call answers with the status of the device after the last command,
-- which is all that `print` looks at.
abbrev pub recorder : (Word → Word) → State → Host Tape
recorder status blank = record {
  serve = λ n a b c s. ok (status s.last) (record s { log = served n a b c ∷ s.log });
  get = λ x s. ok 0 s;
  set = λ x v s. ok tt s;
  get_area = λ a s. ok blank s;
  set_area = λ a i s. ok tt s;
  load = λ a s. ok 0 s;
  store = λ a v s. ok tt (record { log = stored a v ∷ s.log; last = v });
  store_state = λ s. ok blank s;
  get_status = λ s. ok 0 s;
  set_status = λ v s. ok tt s;
  address = λ c. 0;
}

-- A V or P operation.
abbrev pub on_semaphore : Word → Event
on_semaphore n = served n (var term_mut) (word 0) (word 0)

-- A character for the terminal's command register, and SYS 8 for its transmitter.
abbrev pub events : List Word → List Event
events [] = []
events (c ∷ cs) =
    stored command_register (char_command c) ∷ served 8 (word 7) (word 0) (word 0) ∷ events cs

module _ (status : Word → Word) (blank : State) where
  abbrev host : Host Tape
  host = recorder status blank

  -- The terminal transmits the character.
  abbrev pub Transmits : Word → Type 0
  Transmits c = bit_and (status (char_command c)) 0xff ≡ 5

  print_chars-Panics :
      (front : List Word) (c : Word) (back : List Word) (s : Tape)
      → All Transmits front
      → (bit_and (status (char_command c)) 0xff == 5) ≡ false
      → Stops
          (λ e t. (e ≡ panics) × (t.log ≡ reverse_aux (events (front ++ c ∷ [])) s.log))
          (print_chars host (front ++ c ∷ back) s)
  unfolding print_chars print_char
  print_chars-Panics [] c back s good bad = rw bad (stops (refl, refl))
  print_chars-Panics (x ∷ front) c back s good bad =
      rw good.0 (print_chars-Panics front c back _ good.1 bad)

  -- Where every request comes back and `c` is the first character of the message that the terminal
  -- does not transmit: `print` panics behind SYS 8 for `c`, and has not asked for the V operation,
  -- so the terminal's semaphore stays taken.
  pub print-Panics :
      (msg : String) (front : List Word) (c : Word) (back : List Word) (s : Tape)
      → codes msg ≡ front ++ c ∷ back
      → All Transmits front
      → (bit_and (status (char_command c)) 0xff == 5) ≡ false
      → Stops
          (λ e t.
            (e ≡ panics)
            × (t.log ≡ reverse_aux (events (front ++ c ∷ [])) (on_semaphore 4 ∷ s.log)))
          (print host msg s)
  unfolding print
  print-Panics msg front c back s split good bad = rw split (
      Monad.Stops-first _
        (print_chars-Panics front c back (record s { log = on_semaphore 4 ∷ s.log }) good bad))
