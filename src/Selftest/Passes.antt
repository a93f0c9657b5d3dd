-- ===== src/Selftest/Passes.antt =====
-- The test program of phase 1 passes.
use Prim.Native.String.{String, len}
use kaya_project.Base.{
  length, ℕ, ◌+◌, ◌<◌, ◌≡◌, refl, arith, List, [], ◌∷◌, Option, some, none, Run, ok, stop, fault,
  out_of_fuel,
}
use kaya_project.Machine.{Exit}
use kaya_project.Selftest.Terminal.{Registers, transmitted}
use kaya_project.Selftest.Program.{Program, Places}
use kaya_project.Selftest.Main.{main2}
use kaya_project.Selftest.Code.{phase1_code}

-- What a run that returns leaves: the messages, those about errors, and the number of characters sent.
abbrev outcome : Run Exit Program (Unit {0}) → Option (List String × List String × ℕ)
outcome (ok u s) = some (s.okbuf, s.errbuf, length s.registers.written)
outcome (stop e s) = none
outcome fault = none
outcome out_of_fuel = none

-- A terminal that is never busy.
abbrev pub fast : Registers
fast = record { status = λ a n. transmitted; reads = 0; written = [] }

abbrev places : Places
places = record { sem = 0x2000_9000; onesem = 0x2000_9800 }

-- All the progress messages, the last one first.
abbrev transcript : List String
transcript =
    "So Long and Thanks for All the Fish\n" ∷ "ASL module ok   \n"
    ∷ "headBlocked and outBlocked ok   \n" ∷ "insertBlocked and removeBlocked ok   \n"
    ∷ "removeBlocked test started   \n" ∷ "insertBlocked test #2 started  \n"
    ∷ "insertBlocked test #1 started  \n" ∷ "Initialized active semaphore list   \n"
    ∷ "process tree module ok      \n" ∷ "insertChild, removeChild and emptyChild ok   \n"
    ∷ "Removing...   \n" ∷ "outChild ok   \n" ∷ "Inserted 9 children   \n" ∷ "Inserting...   \n"
    ∷ "checking process trees...\n" ∷ "process queues module ok      \n"
    ∷ "insertProcQ, removeProcQ and emptyProcQ ok   \n" ∷ "Removing...   \n" ∷ "outProcQ ok   \n"
    ∷ "inserted 10 elements   \n" ∷ "Inserting...   \n" ∷ "freed 10 entries   \n"
    ∷ "allocPcb ok   \n" ∷ "Initialized process control blocks   \n" ∷ []

abbrev total : List String → ℕ
total [] = 0
total (m ∷ ms) = len m + total ms

-- From any memory, with `sem` and `onesem` at the given places and a terminal that is never busy, the
-- test program of phase 1 returns with every progress message, as many stores into the terminal as
-- these have characters, and no error; and the messages fit into the 2048 bytes of `okbuf`.
main2-passes :
    (s : Program)
    → (outcome (main2 places (record s { registers = fast; okbuf = []; errbuf = [] }))
        ≡ some (transcript, [], total transcript))
      × (total transcript < 2048)
unfolding phase1_code
main2-passes s = (refl, omega arith)
