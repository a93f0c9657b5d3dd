-- ===== src/Machine.antt =====
-- The data types of h/types.h and the constants of h/const.h. A pointer is a number, and NULL is
-- 0xFFFFFFFF; a pointer into `procTable` or `semdTable` is the number of its cell.
use kaya_project.Base.{ℕ, ◌<◌, ◌==◌, if◌then◌else◌, Run, Cmd, fault}

-- A pointer to a `pcb_t` or to a `semd_t`.
abbrev pub Ptr : Type 0
Ptr = ℕ

-- A machine address, such as that of a semaphore or of a `state_t`.
abbrev pub Addr : Type 0
Addr = ℕ

-- An `int` or `unsigned int`, by its bit pattern.
abbrev pub Word : Type 0
Word = ℕ

abbrev pub null : ℕ
null = 0xffff_ffff

abbrev pub max_int : ℕ
max_int = 0xffff_ffff

abbrev pub max_proc : ℕ
max_proc = 20

-- `state_t`: the registers that the processor saves and loads.
pub record State : Type 0 where
  pub asid : Word
  pub cause : Word
  pub status : Word
  pub pc : Word
  pub reg : ℕ → Word

-- The fields of `pcb_t` that are no links.
pub record Info : Type 0 where
  pub p_s : State
  pub old_sys : Addr
  pub new_sys : Addr
  pub old_pgm : Addr
  pub new_pgm : Addr
  pub old_tlb : Addr
  pub new_tlb : Addr
  pub time : Word
  pub sem_add : Addr

-- How control leaves the kernel: `LDST` of a state, `HALT`, `PANIC` or `WAIT`.
pub data Exit : Type 0 where
  ldst : State → Exit
  halt : Exit
  panic : Exit
  wait : Exit

-- A command over a state `S`.
abbrev pub Command : Type 0 → Type 0 → Type 0
Command S A = Cmd Exit S A

-- Access through a pointer: a fault at NULL.
abbrev pub guarded : {S A : Type 0} → Ptr → Run Exit S A → Run Exit S A
guarded p r = if p == null then fault else r

-- A pointer to a block of `procTable`.
abbrev pub IsCell : Ptr → Type 0
IsCell a = a < max_proc
