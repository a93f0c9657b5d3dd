-- ===== src/P2test.antt =====
-- phase2/p2test.c, the test program of phase 2: its globals, what its processes ask of the kernel and
-- of the machine, and `print`. The processes run one between the other, so the globals are read and
-- written through the machine, which is the parameter `Host`.
pub mod Print
pub mod Start
pub mod Clock
pub mod Traps
pub mod Trees
use Prim.Native.Nat.{bit_and, bit_or}
use Prim.Native.String.{String}
use kaya_project.Base.{
  ℕ, zero, suc, ◌+◌, ◌*◌, ◌^◌, ◌==◌, if◌then◌else◌, not, when, List, [], ◌∷◌, stop, pure, ◌>>=◌,
  ◌>>◌, Cmd,
}
use kaya_project.Machine.{Addr, Word, State}
use kaya_project.Selftest.Program.{codes}

-- The globals that are integers, the semaphores among them.
pub data Var : Type 0 where
  term_mut : Var
  sems : ℕ → Var
  testsem : Var
  startp2 : Var
  endp2 : Var
  endp3 : Var
  blkp4 : Var
  synp4 : Var
  endp4 : Var
  endp5 : Var
  endp8 : Var
  endcreate : Var
  blkp8 : Var
  p1p2synch : Var
  p8inc : Var
  p4inc : Var
  p5_stack : Var
  creation : Var

-- Their first values.
abbrev pub initial : Var → Word
initial term_mut = 1
initial blkp4 = 1
initial p4inc = 1
initial _ = 0

-- The globals that are processor states.
pub data Area : Type 0 where
  p2state : Area
  p3state : Area
  p4state : Area
  p5state : Area
  p6state : Area
  p7state : Area
  p8rootstate : Area
  child1state : Area
  child2state : Area
  gchild1state : Area
  gchild2state : Area
  gchild3state : Area
  gchild4state : Area
  pstat_n : Area
  mstat_n : Area
  sstat_n : Area
  pstat_o : Area
  mstat_o : Area
  sstat_o : Area

-- The functions whose addresses the program takes.
pub data Code : Type 0 where
  p2_code : Code
  p3_code : Code
  p4_code : Code
  p5_code : Code
  p5a_code : Code
  p5b_code : Code
  p6_code : Code
  p7_code : Code
  p5prog_code : Code
  p5mm_code : Code
  p5sys_code : Code
  p8root_code : Code
  child1_code : Code
  child2_code : Code
  p8leaf_code : Code

-- An argument of SYSCALL.
pub data Argument : Type 0 where
  word : Word → Argument
  var : Var → Argument
  area : Area → Argument

-- How a process ends: it loads a state, panics, or the kernel does not come back to it.
pub data Finish : Type 0 where
  loads : State → Finish
  panics : Finish
  gone : Finish

-- The machine and the kernel below the processes, in the state `S`: SYSCALL, the memory of the
-- globals and of the rest, and the instructions STST, getSTATUS and setSTATUS.
pub record Host (S : Type 0) : Type 0 where
  pub serve : Word → Argument → Argument → Argument → Cmd Finish S Word
  pub get : Var → Cmd Finish S Word
  pub set : Var → Word → Cmd Finish S (Unit {0})
  pub get_area : Area → Cmd Finish S State
  pub set_area : Area → State → Cmd Finish S (Unit {0})
  pub load : Addr → Cmd Finish S Word
  pub store : Addr → Word → Cmd Finish S (Unit {0})
  pub store_state : Cmd Finish S State
  pub get_status : Cmd Finish S Word
  pub set_status : Word → Cmd Finish S (Unit {0})
  pub address : Code → Addr

-- `*(base + 3)` from TERM0ADDR
abbrev pub command_register : Addr
command_register = 0x1000_0250 + 3 * 4

-- `PRINTCHR | (((devregtr) *s) << BYTELEN)`
abbrev pub char_command : Word → Word
char_command c = bit_or 2 (c * 2 ^ 8)

module _ {S : Type 0} (host : Host S) where
  -- A system call for its effect.
  abbrev pub request : Word → Argument → Cmd Finish S (Unit {0})
  request n a = do result ← host.serve n a (word 0) (word 0); pure tt

  abbrev pub v_sem : Var → Cmd Finish S (Unit {0})
  v_sem sem = request 3 (var sem)

  abbrev pub p_sem : Var → Cmd Finish S (Unit {0})
  p_sem sem = request 4 (var sem)

  abbrev pub create : Area → Cmd Finish S (Unit {0})
  create a = request 1 (area a)

  -- `SYSCALL(TERMINATETHREAD, 0, 0, 0)`
  abbrev pub die : Cmd Finish S (Unit {0})
  die = request 2 (word 0)

  abbrev pub panic : Cmd Finish S (Unit {0})
  panic h = stop panics h

  -- One round of the loop.
  unfoldable pub print_char : Word → Cmd Finish S (Unit {0})
  print_char c = do
    host.store command_register (char_command c)
    status ← host.serve 8 (word 7) (word 0) (word 0)
    when (not (bit_and status 0xff == 5)) panic

  unfoldable pub print_chars : List Word → Cmd Finish S (Unit {0})
  unfolding print_char
  print_chars [] = pure tt
  print_chars (c ∷ cs) = do print_char c; print_chars cs

  unfoldable pub print : String → Cmd Finish S (Unit {0})
  unfolding print_chars
  print msg = do p_sem term_mut; print_chars (codes msg); v_sem term_mut
