-- ===== src/Selftest/Terminal.antt =====
-- `termstat` and `termprint` of phase1/p1test.c: a string goes to a terminal, one character at a time.
use Prim.Native.Nat.{bit_or, bit_and}
use mathlib.Core.List.{reverse_aux}
use kaya_project.Base.{
  ℕ, zero, suc, ◌+◌, ◌*◌, ◌^◌, ◌<◌, ◌≡◌, refl, ap, ◌∙◌, Bool, true, false, not, ◌||◌, ltb, ◌==◌,
  if◌then◌else◌, List, [], ◌∷◌, map, arith, ok, out_of_fuel, pure, ◌>>=◌, ◌>>◌, Cmd, Returns,
  returns,
}
use kaya_project.Base.Monad
use kaya_project.Machine.{Addr, Word, Exit}

-- The device registers: `status` gives the status register at an address at each reading of it,
-- numbered from 0, and `written` is what was stored into command registers, the last one first.
pub record Registers : Type 0 where
  pub status : Addr → ℕ → Word
  pub reads : ℕ
  pub written : List (Addr × Word)

abbrev pub ready : Word
ready = 1

abbrev pub busy : Word
busy = 3

abbrev pub transmitted : Word
transmitted = 5

-- `(*stataddr) & STATUSMASK`
unfoldable pub termstat : Addr → Cmd Exit Registers Word
termstat a r = ok (bit_and (r.status a r.reads) 0xff) (record r { reads = suc r.reads })

abbrev pub store : Addr → Word → Cmd Exit Registers (Unit {0})
store a c r = ok tt (record r { written = (a, c) ∷ r.written })

-- The status and the command register of the transmitter of a terminal.
abbrev pub status_address : Word → Addr
status_address term = 0x1000_0250 + term * 16 + 2 * 4

abbrev pub command_address : Word → Addr
command_address term = 0x1000_0250 + term * 16 + 3 * 4

-- `(*str << CHAROFFSET) | PRINTCHR`
abbrev pub print_command : Word → Word
print_command c = bit_or (c * 2 ^ 8) 2

-- The busy waiting, with `n` rounds of fuel: the first status that is not BUSY.
unfoldable pub busy_wait : ℕ → Addr → Word → Cmd Exit Registers Word
busy_wait zero a stat = λ _. out_of_fuel
busy_wait (suc n) a stat = if stat == busy then (do s ← termstat a; busy_wait n a s) else pure stat

-- The print cycle, over the characters up to the end of the string.
unfoldable pub print_cycle : (rounds : ℕ) → Word → List Word → Cmd Exit Registers Bool
print_cycle rounds term [] = pure true
print_cycle rounds term (c ∷ str) = do
  store (command_address term) (print_command c)
  s ← termstat (status_address term)
  stat ← busy_wait rounds (status_address term) s
  if not (stat == transmitted) then pure false else print_cycle rounds term str

unfoldable pub termprint : (rounds : ℕ) → List Word → Word → Cmd Exit Registers Bool
termprint rounds str term =
    if ltb term 8
    then (do
      stat ← termstat (status_address term)
      if stat == ready || stat == transmitted then print_cycle rounds term str else pure false)
    else pure false

-- From the reading `n` on, the status register is BUSY fewer than `rounds` times and then TRANSMITTED.
pub data Answers (status : ℕ → Word) : ℕ → ℕ → Type 0 where
  now : {n rounds : ℕ} → bit_and (status n) 0xff ≡ transmitted → Answers status n (suc rounds)
  later :
      {n rounds : ℕ}
      → bit_and (status n) 0xff ≡ busy
      → Answers status (suc n) rounds
      → Answers status n (suc rounds)

-- The busy waiting ends, and has written nothing.
record Waited (r : Registers) (stat : Word) (g : Registers) : Type 0 where
  pub done : stat ≡ transmitted
  pub status : g.status ≡ r.status
  pub written : g.written ≡ r.written

busy_wait-Waited :
    (rounds : ℕ) (a : Addr) (n : ℕ) (r : Registers)
    → Answers (r.status a) n rounds
    → r.reads ≡ suc n
    → Returns (Waited r) (busy_wait rounds a (bit_and (r.status a n) 0xff) r)
unfolding busy_wait termstat
busy_wait-Waited zero a n r x at_n = elim x [ ]
busy_wait-Waited (suc rounds) a n r (now e) at_n =
    rw e (returns (record { done = refl; status = refl; written = refl }))
busy_wait-Waited (suc rounds) a n r (later e rest) at_n =
    rw (e, at_n)
      (Monad.mono (busy_wait-Waited rounds a (suc n) (record r { reads = suc (suc n) }) rest refl)
        λ s g o. record { done = o.done; status = o.status; written = o.written })

-- What the print cycle stores for the string `str`, the last command first, on top of `before`.
abbrev pub commands : Word → List Word → List (Addr × Word) → List (Addr × Word)
commands term str before =
    reverse_aux (map (λ c. (command_address term, print_command c)) str) before

record Printed (r : Registers) (term : Word) (str : List Word) (b : Bool) (g : Registers)
    : Type 0 where
  pub done : b ≡ true
  pub written : g.written ≡ commands term str r.written

print_cycle-Printed :
    (rounds : ℕ) (term : Word) (str : List Word) (r : Registers)
    → ((n : ℕ) → Answers (r.status (status_address term)) n rounds)
    → Returns (Printed r term str) (print_cycle rounds term str r)
unfolding print_cycle termstat
print_cycle-Printed rounds term [] r serves = returns (record { done = refl; written = refl })
print_cycle-Printed rounds term (c ∷ str) r serves =
    let r' = record r {
      reads = suc r.reads;
      written = (command_address term, print_command c) ∷ r.written;
    } in
    Monad.bind (busy_wait-Waited rounds (status_address term) r.reads r' (serves r.reads) refl)
      λ s g o. rw o.done (
        Monad.mono (print_cycle-Printed rounds term str g (rw o.status serves))
          λ b h m. record { done = m.done; written = m.written ∙ ap (commands term str) o.written })

-- On a terminal that is free and answers each character within the fuel, `termprint` returns TRUE
-- and has stored the print commands of the string, in its order.
pub termprint-Printed :
    (rounds : ℕ) (term : Word) (str : List Word) (r : Registers)
    → term < 8
    → (let s = bit_and (r.status (status_address term) r.reads) 0xff in
        (s == ready || s == transmitted) ≡ true)
    → ((n : ℕ) → Answers (r.status (status_address term)) n rounds)
    → Returns
        (λ b g. (b ≡ true) × (g.written ≡ commands term str r.written))
        (termprint rounds str term r)
unfolding termprint termstat
termprint-Printed rounds term str r low free serves =
    let below : ltb term 8 ≡ true = ground arith in
    rw below (
      rw free (
        Monad.mono (print_cycle-Printed rounds term str (record r { reads = suc r.reads }) serves)
          λ b g m. (m.done, m.written)))
