-- ===== src/Tests/Recording.antt =====
-- `print` of phase2/p2test.c on the recorder.
use kaya_project.Base.{◌≡◌, refl, ◌==◌, if◌then◌else◌, [], ◌∷◌, arith, Stops}
use mathlib.Core.List.{reverse_aux}
use kaya_project.Machine.{Word}
use kaya_project.Selftest.Program.{codes}
use kaya_project.P2test.{panics, char_command, print}
use kaya_project.P2test.Print.{Tape, recorder, on_semaphore, events, print-Panics}
use kaya_project.Tests.Blank.{blank_state}

abbrev empty_tape : Tape
empty_tape = record { log = []; last = 0 }

-- A terminal that does not transmit `3`, the character 51.
abbrev no_three : Word → Word
no_three c = if c == char_command 51 then 4 else 5

print-Panics_example :
    Stops
      (λ e t. (e ≡ panics) × (t.log ≡ reverse_aux (events (112 ∷ 51 ∷ [])) (on_semaphore 4 ∷ [])))
      (print (recorder no_three blank_state) "p3 starts\n" empty_tape)
print-Panics_example =
    print-Panics no_three blank_state "p3 starts\n" (112 ∷ []) 51 (codes " starts\n") empty_tape
      refl (omega arith) refl
