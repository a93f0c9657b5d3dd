-- ===== src/User/Exchange/Record.antt =====
-- A system that writes down what the two processes of phase3/pvTestA.c and phase3/pvTestB.c ask for.
use kaya_project.Base.{◌≡◌, refl, ◌∙◌, ◌==◌, if◌then◌else◌, List, [], ◌∷◌, ok, stop, update, Run}
use mathlib.Core.List.{reverse_aux}
use kaya_project.Base.Words.{add32, is_negative}
use kaya_project.Machine.{Addr, Word}
use kaya_project.User.{Call, Os, Process, Ending, syscall, ended}
use kaya_project.User.Programs.{say}
use kaya_project.User.Laws.{print-literal, writing}
use kaya_project.User.Exchange.{on_semaphore, empty, full}
use kaya_project.User.Exchange.Turns.{
  Action, wait_empty, wait_full, signal_empty, signal_full, fill, drain, dot,
}

-- System calls, and writes and reads of characters in the shared buffer.
pub data Event : Type 0 where
  asked : Call → Event
  put : Word → Event
  got : Word → Event

-- The events, the last one first; the memory of the process, but for the shared buffer; and what
-- the reads of the buffer will find.
pub record Tape : Type 0 where
  pub log : List Event
  pub memory : Addr → Word
  pub coming : List Word

abbrev read_next : List Word → Tape → Run Ending Tape Word
read_next [] s = stop ended s
read_next (c ∷ cs) s = ok c (record s { log = got c ∷ s.log; coming = cs })

-- The system calls come back with the status 0; the numbers of the calls and the addresses of the
-- segments are those of `o`.
abbrev pub recorder : Os (Unit {0}) → Os Tape
recorder o = record {
  serve = λ c s. ok 0 (record s { log = asked c ∷ s.log });
  load = λ a s. ok 0 s;
  store = λ a v s. ok tt s;
  load_char = λ a s. if a == add32 o.seg3 12 then read_next s.coming s else ok (s.memory a) s;
  store_char = λ a c s.
      if a == add32 o.seg3 12
      then ok tt (record s { log = put c ∷ s.log })
      else ok tt (record s { memory = update s.memory a c });
  divide = λ a b s. stop ended s;
  load_state = λ a s. ok tt s;
  read_terminal = o.read_terminal;
  write_terminal = o.write_terminal;
  write_printer = o.write_printer;
  get_tod = o.get_tod;
  delay = o.delay;
  disk_put = o.disk_put;
  disk_get = o.disk_get;
  v_sem_virt = o.v_sem_virt;
  p_sem_virt = o.p_sem_virt;
  get_time = o.get_time;
  terminate = o.terminate;
  second = o.second;
  seg1 = o.seg1;
  seg2 = o.seg2;
  seg3 = o.seg3;
}

module _ (o : Os (Unit {0})) where
  abbrev os : Os Tape
  os = recorder o

  -- What the actions are in the programs.
  abbrev pub event_of : Action → Event
  event_of wait_empty = asked (on_semaphore o.p_sem_virt (empty os))
  event_of wait_full = asked (on_semaphore o.p_sem_virt (full os))
  event_of signal_empty = asked (on_semaphore o.v_sem_virt (empty os))
  event_of signal_full = asked (on_semaphore o.v_sem_virt (full os))
  event_of (fill c) = put c
  event_of (drain c) = got c
  event_of dot = asked (writing os o.write_terminal ".")

  abbrev pub events : List Action → List Event
  events [] = []
  events (a ∷ rest) = event_of a ∷ events rest

  abbrev pub note : Event → Process Tape → Process Tape
  note (asked c) u = record {
    system = record (u.system) { log = asked c ∷ u.system.log };
    trace = c ∷ u.trace;
  }
  note (put c) u = record u { system = record (u.system) { log = put c ∷ u.system.log } }
  note (got c) u = record u { system = record (u.system) { log = got c ∷ u.system.log } }

  -- The actions are written down.
  abbrev pub noted : List Action → Process Tape → Process Tape
  noted [] u = u
  noted (a ∷ rest) u = noted rest (note (event_of a) u)

  pub log-noted :
      (acts : List Action) (u : Process Tape)
      → (noted acts u).system.log ≡ reverse_aux (events acts) u.system.log
  log-noted [] u = refl
  log-noted (wait_empty ∷ rest) u = log-noted rest _
  log-noted (wait_full ∷ rest) u = log-noted rest _
  log-noted (signal_empty ∷ rest) u = log-noted rest _
  log-noted (signal_full ∷ rest) u = log-noted rest _
  log-noted (fill c ∷ rest) u = log-noted rest _
  log-noted (drain c ∷ rest) u = log-noted rest _
  log-noted (dot ∷ rest) u = log-noted rest _

  pub says : (u : Process Tape) → say os "." u ≡ ok tt (noted (dot ∷ []) u)
  unfolding syscall is_negative
  says u = print-literal os o.write_terminal "." u refl ∙ refl
