-- ===== src/Kernel/State.antt =====
-- The state of the phase 2 kernel: the globals of phase2/initial.c, the memory that it reads and
-- writes, and the device registers of h/types.h.
use kaya_project.Base.{ℕ, List}
use kaya_project.Machine.{Ptr, Addr, Word, State}
use kaya_project.Asl.Table.{Asl}

-- `device_t`.
pub record Device : Type 0 where
  pub status : Word
  pub command : Word
  pub data0 : Word
  pub data1 : Word

-- The part of `devregarea_t` and of the bus registers that the kernel uses. `tod_lo` gives the
-- reading of the clock at each access, numbered from 0; `line_map` is the interrupting devices
-- bit map of each line, and `devreg` the array of device registers.
pub record Bus : Type 0 where
  pub rambase : Word
  pub ramsize : Word
  pub tod_lo : ℕ → Word
  pub timescale : Word
  pub interval_timer : Word
  pub line_map : ℕ → Word
  pub devreg : Word → Device

-- Where the linker puts `devSemTable`, the handlers and `test`.
pub record Layout : Type 0 where
  pub dev_sem_table : Addr
  pub sys_call_handler : Addr
  pub pgm_trap_handler : Addr
  pub tlb_mgmt_handler : Addr
  pub interrupt_handler : Addr
  pub test : Addr

-- The calls of libumps that return, in the order in which they were made, the last one first.
pub data Call : Type 0 where
  set_timer : Word → Call
  set_status : Word → Call

-- `ints` is the memory of the semaphores, and `states` that of the `state_t`s, the old and new
-- areas among them. `reads` counts the readings of the clock.
pub record Kernel : Type 0 where
  pub asl : Asl
  pub process_count : Word
  pub soft_block_count : Word
  pub current_process : Ptr
  pub ready_que : Ptr
  pub time : Word
  pub wait_flag : Word
  pub ints : Addr → Word
  pub states : Addr → State
  pub bus : Bus
  pub reads : ℕ
  pub calls : List Call
  pub layout : Layout
