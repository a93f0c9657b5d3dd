-- ===== src/User.antt =====
-- The user processes of phase3: what they ask of the system and of the machine, and `print` of
-- phase3/print.c. The system calls, the values of phase3/h/tconst.h and the virtual memory are not in
-- the repository: they are the parameter `Os`.
pub mod Fib
pub mod Programs
pub mod Disk
pub mod Exchange
pub mod Laws
pub mod Runs
use Prim.Native.String.{String}
use kaya_project.Base.{
  ℕ, zero, suc, ◌+◌, ◌==◌, leb, if◌then◌else◌, Bool, not, List, [], ◌∷◌, get_elem?, some, none, ok,
  out_of_fuel, put_back, when, pure, ◌>>=◌, ◌>>◌, Run, Cmd, length,
}
use kaya_project.Base.Words.{is_negative}
use kaya_project.Machine.{Addr, Word}
use kaya_project.Selftest.Program.{codes}

-- A pointer to characters: to a string constant, or into the memory of the process.
pub data Text : Type 0 where
  literal : String → Text
  at : Addr → Text

-- An argument of SYSCALL.
pub data Argument : Type 0 where
  word : Word → Argument
  text : Text → Argument

-- The arguments of SYSCALL.
pub record Call : Type 0 where
  pub number : Word
  pub first : Argument
  pub second : Word
  pub third : Word

-- How a process ends: the system does not come back to it, or it halts the machine.
pub data Ending : Type 0 where
  ended : Ending
  halted : Ending

-- The system and the machine below a process, in the state `S`, with the numbers of the system calls.
pub record Os (S : Type 0) : Type 0 where
  pub serve : Call → Cmd Ending S Word
  pub load : Addr → Cmd Ending S Word
  pub store : Addr → Word → Cmd Ending S (Unit {0})
  pub load_char : Addr → Cmd Ending S Word
  pub store_char : Addr → Word → Cmd Ending S (Unit {0})
  pub divide : Word → Word → Cmd Ending S Word
  pub load_state : Addr → Cmd Ending S (Unit {0})
  pub read_terminal : Word
  pub write_terminal : Word
  pub write_printer : Word
  pub get_tod : Word
  pub delay : Word
  pub disk_put : Word
  pub disk_get : Word
  pub v_sem_virt : Word
  pub p_sem_virt : Word
  pub get_time : Word
  pub terminate : Word
  pub second : Word
  pub seg1 : Addr
  pub seg2 : Addr
  pub seg3 : Addr

-- `trace` is the list of the system calls made, the last one first.
pub record Process (S : Type 0) : Type 0 where
  pub system : S
  pub trace : List Call

-- A part of a program.
abbrev pub User : Type 0 → Type 0 → Type 0
User S A = Cmd Ending (Process S) A

module _ {S : Type 0} (os : Os S) where
  -- A step of the machine.
  abbrev pub on_system : {A : Type 0} → Cmd Ending S A → User S A
  on_system m u = put_back (λ s. record u { system = s }) (m u.system)

  -- `SYSCALL(number, first, second, third)`
  unfoldable pub syscall : Word → Argument → Word → Word → User S Word
  syscall n a b c u =
      let call : Call = record { number = n; first = a; second = b; third = c } in
      put_back (λ s. record { system = s; trace = call ∷ u.trace }) (os.serve call u.system)

  -- `SYSCALL(TERMINATE, 0, 0, 0)`
  unfoldable pub terminate : User S (Unit {0})
  unfolding syscall
  terminate = do result ← syscall os.terminate (word 0) 0 0; pure tt

  -- `str[i]`
  unfoldable pub char_at : Text → ℕ → User S Word
  char_at (literal s) i = pure (elim (get_elem? (codes s) i) [ none ↦ 0 | some c ↦ c ])
  char_at (at a) i = on_system (os.load_char (a + i))

  -- The loop, with `n` rounds of fuel, from the length `leng` on.
  unfoldable pub string_length : ℕ → Text → ℕ → User S ℕ
  unfolding char_at
  string_length zero str leng = λ _. out_of_fuel
  string_length (suc n) str leng = do
    c ← char_at str leng
    if c == 0 then pure leng else string_length n str (suc leng)

  -- The rounds that the loop is given.
  abbrev pub string_rounds : ℕ
  string_rounds = 100

  unfoldable pub print : Word → Text → User S (Unit {0})
  unfolding string_length syscall terminate is_negative
  print device str = do
    leng ← string_length string_rounds str 0
    status ← syscall device (text str) leng 0
    when (is_negative status)
        (do status ← syscall device (text (literal "Bad device write status\n")) 26 0; terminate)
