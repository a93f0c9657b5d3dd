-- ===== src/User/Exchange/Receive.antt =====
-- The loop of the consumer of phase3/pvTestA.c on the recording system, and the two loops together.
use Prim.Native.String.{String}
use kaya_project.Base.{suc, ◌≡◌, List, [], ◌∷◌, update}
use kaya_project.Base.Monad
use kaya_project.Machine.{Addr, Word}
use kaya_project.User.{Os, Process}
use kaya_project.User.Exchange.Record.{Tape, recorder}

-- The characters from `p` on.
abbrev pub Holds : (Addr → Word) → Addr → List Word → Type 0
Holds m p [] = Unit
Holds m p (c ∷ cs) = (m p ≡ c) × Holds m (suc p) cs

abbrev stored : (Addr → Word) → Addr → List Word → Addr → Word
stored m p [] = m
stored m p (c ∷ cs) = stored (update m p c) (suc p) cs

module _ (o : Os (Unit {0})) where
  abbrev os : Os Tape
  os = recorder o

  -- The process with `cs` to come, and with `c` in its memory at `p`.
  abbrev pub expecting : List Word → Process Tape → Process Tape
  expecting cs u = record u { system = record (u.system) { coming = cs } }

  abbrev keeping : Addr → Word → Process Tape → Process Tape
  keeping p c u = record u { system = record (u.system) { memory = update u.system.memory p c } }
