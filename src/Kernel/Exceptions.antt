-- ===== src/Kernel/Exceptions.antt =====
-- The exception handlers of phase2/exceptions.c: `passUpOrDie`, the program trap and TLB handlers,
-- and the system call handler with its dispatch.
pub mod Cause
pub mod Pass
pub mod Privileged
pub mod Calls
use Prim.Native.Nat.{bit_or}
use kaya_project.Base.{
  ℕ, ◌+◌, ◌≡◌, Bool, true, false, not, ◌&&◌, ltb, ◌==◌, if◌then◌else◌, when, pure, ◌>>=◌, ◌>>◌,
}
use kaya_project.Base.Words.{add32, not32, is_nonpositive, check_bit}
use kaya_project.Machine.{Addr, Word, null, Info, Command, ldst}
use kaya_project.Kernel.State.{Kernel}
use kaya_project.Kernel.Access.{
  read, get_current, get_state, set_state, get_pcb, a0, sys_call_old, pgm_trap_old, tlb_mgmt_old,
  state_copy,
}
use kaya_project.Kernel.Scheduler.{exit}
use kaya_project.Kernel.Terminate.{terminate_process}
use kaya_project.Kernel.Syscalls.{
  create_process, verhogen, passeren, specify_exception_state_vector, get_cpu_time, wait_for_clock,
  wait_for_io_device,
}

-- One case of `passUpOrDie`: if the process has a handler, its old area is filled and its new
-- state loaded; otherwise control goes on.
unfoldable pub pass_up : (area old_state new_state : Addr) → Command Kernel (Unit {0})
pass_up area old_state new_state =
    when (not (old_state == null))
      do state_copy area old_state; s ← get_state new_state; exit (ldst s)

unfoldable pub pass_up_or_die : ℕ → Command Kernel (Unit {0})
unfolding get_pcb
pass_up_or_die exception_type = do
  current ← get_current
  if exception_type == 0
      then (do i ← get_pcb current; pass_up tlb_mgmt_old i.old_tlb i.new_tlb)
      else if exception_type == 1
      then (do i ← get_pcb current; pass_up pgm_trap_old i.old_pgm i.new_pgm)
      else when (exception_type == 2)
          do i ← get_pcb current; pass_up sys_call_old i.old_sys i.new_sys
  terminate_process

unfoldable pub pgm_trap_handler : Command Kernel (Unit {0})
pgm_trap_handler = pass_up_or_die 1

unfoldable pub tlb_mgmt_handler : Command Kernel (Unit {0})
tlb_mgmt_handler = pass_up_or_die 0

-- The cause of a system call made in user mode, turned into that of a reserved instruction.
unfoldable pub reserved_cause : Word → Word
unfolding not32
reserved_cause c = not32 (bit_or (not32 (bit_or c 0x28)) 0x14)

-- The `switch`.
unfoldable pub serve : Word → Command Kernel (Unit {0})
serve n =
    if n == 1
    then create_process
    else if n == 2
    then terminate_process
    else if n == 3
    then verhogen
    else if n == 4
    then passeren
    else if n == 5
    then specify_exception_state_vector
    else if n == 6
    then get_cpu_time
    else if n == 7
    then wait_for_clock
    else when (n == 8) wait_for_io_device

unfoldable pub syscall_dispatch : Word → Bool → Command Kernel (Unit {0})
unfolding add32 is_nonpositive
syscall_dispatch syscall_num kernel_mode =
    if not (is_nonpositive syscall_num) && ltb syscall_num 9
    then (if kernel_mode
        then (do
          s ← get_state sys_call_old
          set_state sys_call_old (record s { pc = add32 s.pc 4 })
          serve syscall_num)
        else do
          state_copy sys_call_old pgm_trap_old
          p ← get_state pgm_trap_old
          set_state pgm_trap_old (record p { cause = reserved_cause p.cause })
          pgm_trap_handler)
    else pass_up_or_die 2

-- Bit 3 of the status register, KERNELOFF, is set in user mode.
unfoldable pub sys_call_handler : Command Kernel (Unit {0})
unfolding check_bit
sys_call_handler = do
  s ← get_state sys_call_old
  syscall_dispatch (s.reg a0) (not (check_bit s.status 3))
