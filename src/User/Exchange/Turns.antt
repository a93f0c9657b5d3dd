-- ===== src/User/Exchange/Turns.antt =====
-- The producer of phase3/pvTestB.c and the consumer of phase3/pvTestA.c take turns in any order: what
-- they do to the two semaphores and the buffer that they share.
use kaya_project.Base.{
  ℕ, zero, suc, ◌≡◌, refl, Bool, true, false, ◌==◌, ==-refl, ◌||◌, ◌&&◌, if◌then◌else◌, List, [],
  ◌∷◌, Option, none, some,
}
use kaya_project.Machine.{Word}

-- P and V operations, a write and a read of the shared buffer, and a dot for the terminal.
pub data Action : Type 0 where
  wait_empty : Action
  wait_full : Action
  signal_empty : Action
  signal_full : Action
  fill : Word → Action
  drain : Word → Action
  dot : Action

-- What is left to do for the two of them, and what they share.
pub record System : Type 0 where
  pub empty : ℕ
  pub full : ℕ
  pub buffer : Word
  pub producer : List Action
  pub consumer : List Action

-- The rounds for the characters.
abbrev pub produces : List Word → List Action
produces [] = []
produces (c ∷ cs) = wait_empty ∷ fill c ∷ dot ∷ signal_full ∷ produces cs

abbrev pub consumes : List Word → List Action
consumes [] = []
consumes (c ∷ cs) = wait_full ∷ drain c ∷ dot ∷ signal_empty ∷ consumes cs

abbrev pub one_less : ℕ → Option ℕ
one_less zero = none
one_less (suc n) = some n

-- A P operation on a semaphore at 0 does not go on.
abbrev pub perform : Action → System → Option System
perform wait_empty s = elim (one_less s.empty) [
  | none ↦ none
  | some n ↦ some (record s { empty = n })
]
perform wait_full s = elim (one_less s.full) [ none ↦ none | some n ↦ some (record s { full = n }) ]
perform signal_empty s = some (record s { empty = suc s.empty })
perform signal_full s = some (record s { full = suc s.full })
perform (fill c) s = some (record s { buffer = c })
perform (drain c) s = some s
perform dot s = some s

abbrev pub producer_turn : List Action → System → Option System
producer_turn [] s = none
producer_turn (a ∷ rest) s = perform a (record s { producer = rest })

abbrev pub consumer_turn : List Action → System → Option System
consumer_turn [] s = none
consumer_turn (a ∷ rest) s = perform a (record s { consumer = rest })

abbrev pub turn : Bool → System → Option System
turn true s = producer_turn s.producer s
turn false s = consumer_turn s.consumer s

-- Who has the turn and cannot go on loses it.
abbrev pub run : List Bool → System → System
run [] s = s
run (who ∷ turns) s = run turns (elim (turn who s) [ none ↦ s | some t ↦ t ])

-- `empty` is 1 and `full` 0, as the consumer sets them.
abbrev pub start : List Word → System
start cs = record {
  empty = 1;
  full = 0;
  buffer = 0;
  producer = produces cs;
  consumer = consumes cs;
}

-- If a character is read next, it is the one in the buffer.
abbrev reads_right : List Action → Word → Bool
reads_right (drain c ∷ rest) b = b == c
reads_right _ b = true

abbrev pub agrees : System → Bool
agrees s = reads_right s.consumer s.buffer

abbrev is_some : Option System → Bool
is_some none = false
is_some (some s) = true

abbrev is_nil : List Action → Bool
is_nil [] = true
is_nil (a ∷ rest) = false

-- One of them can go on, or both are done.
abbrev pub goes_on : System → Bool
goes_on s =
    if is_nil s.producer && is_nil s.consumer
    then true
    else is_some (turn true s) || is_some (turn false s)

-- The states that the turns lead to, with the characters that neither has started on.
data Reached : System → Type 0 where
  level :
      (cs : List Word) (b : Word)
      → Reached (record {
        empty = 1;
        full = 0;
        buffer = b;
        producer = produces cs;
        consumer = consumes cs;
      })
  granted :
      (c : Word) (cs : List Word) (b : Word)
      → Reached (record {
        empty = 0;
        full = 0;
        buffer = b;
        producer = fill c ∷ dot ∷ signal_full ∷ produces cs;
        consumer = consumes (c ∷ cs);
      })
  filled :
      (c : Word) (cs : List Word)
      → Reached (record {
        empty = 0;
        full = 0;
        buffer = c;
        producer = dot ∷ signal_full ∷ produces cs;
        consumer = consumes (c ∷ cs);
      })
  shown :
      (c : Word) (cs : List Word)
      → Reached (record {
        empty = 0;
        full = 0;
        buffer = c;
        producer = signal_full ∷ produces cs;
        consumer = consumes (c ∷ cs);
      })
  offered :
      (c : Word) (cs : List Word)
      → Reached (record {
        empty = 0;
        full = 1;
        buffer = c;
        producer = produces cs;
        consumer = consumes (c ∷ cs);
      })
  taken :
      (c : Word) (cs : List Word)
      → Reached (record {
        empty = 0;
        full = 0;
        buffer = c;
        producer = produces cs;
        consumer = drain c ∷ dot ∷ signal_empty ∷ consumes cs;
      })
  drained :
      (c : Word) (cs : List Word)
      → Reached (record {
        empty = 0;
        full = 0;
        buffer = c;
        producer = produces cs;
        consumer = dot ∷ signal_empty ∷ consumes cs;
      })
  ended :
      (c : Word) (cs : List Word)
      → Reached (record {
        empty = 0;
        full = 0;
        buffer = c;
        producer = produces cs;
        consumer = signal_empty ∷ consumes cs;
      })

-- A turn of either keeps to these states.
turn-Reached :
    (who : Bool) {s : System} → Reached s → Reached (elim (turn who s) [ none ↦ s | some t ↦ t ])
turn-Reached true (level [] b) = level [] b
turn-Reached true (level (c ∷ cs) b) = granted c cs b
turn-Reached true (granted c cs b) = filled c cs
turn-Reached true (filled c cs) = shown c cs
turn-Reached true (shown c cs) = offered c cs
turn-Reached true (offered c []) = offered c []
turn-Reached true (offered c (d ∷ cs)) = offered c (d ∷ cs)
turn-Reached true (taken c []) = taken c []
turn-Reached true (taken c (d ∷ cs)) = taken c (d ∷ cs)
turn-Reached true (drained c []) = drained c []
turn-Reached true (drained c (d ∷ cs)) = drained c (d ∷ cs)
turn-Reached true (ended c []) = ended c []
turn-Reached true (ended c (d ∷ cs)) = ended c (d ∷ cs)
turn-Reached false (level [] b) = level [] b
turn-Reached false (level (c ∷ cs) b) = level (c ∷ cs) b
turn-Reached false (granted c cs b) = granted c cs b
turn-Reached false (filled c cs) = filled c cs
turn-Reached false (shown c cs) = shown c cs
turn-Reached false (offered c cs) = taken c cs
turn-Reached false (taken c cs) = drained c cs
turn-Reached false (drained c cs) = ended c cs
turn-Reached false (ended c cs) = level cs c

run-Reached : (turns : List Bool) {s : System} → Reached s → Reached (run turns s)
run-Reached [] r = r
run-Reached (who ∷ turns) r = run-Reached turns (turn-Reached who r)

Reached-agrees : {s : System} → Reached s → (agrees s ≡ true) × (goes_on s ≡ true)
Reached-agrees (level [] b) = (refl, refl)
Reached-agrees (level (c ∷ cs) b) = (refl, refl)
Reached-agrees (granted c cs b) = (refl, refl)
Reached-agrees (filled c cs) = (refl, refl)
Reached-agrees (shown c cs) = (refl, refl)
Reached-agrees (offered c []) = (refl, refl)
Reached-agrees (offered c (d ∷ cs)) = (refl, refl)
Reached-agrees (taken c []) = (==-refl c, refl)
Reached-agrees (taken c (d ∷ cs)) = (==-refl c, refl)
Reached-agrees (drained c []) = (refl, refl)
Reached-agrees (drained c (d ∷ cs)) = (refl, refl)
Reached-agrees (ended c []) = (refl, refl)
Reached-agrees (ended c (d ∷ cs)) = (refl, refl)

-- Whoever has the turns: what is read next is what is in the buffer, and one of them can go on until
-- both are done.
pub run-agrees :
    (turns : List Bool) (cs : List Word)
    → (agrees (run turns (start cs)) ≡ true) × (goes_on (run turns (start cs)) ≡ true)
run-agrees turns cs = Reached-agrees (run-Reached turns (level cs 0))
