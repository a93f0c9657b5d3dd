-- ===== src/Kernel/Interrupts.antt =====
-- `interruptHandler` of phase2/interrupts.c.
pub mod Route
pub mod Wake
pub mod Early
use kaya_project.Base.{
  ℕ, zero, suc, ◌+◌, ◌%◌, Bool, not, ◌&&◌, ltb, ◌==◌, if◌then◌else◌, out_of_fuel, when, pure, ◌>>=◌,
  ◌>>◌,
}
use kaya_project.Base.Words.{inc32, dec32, is_nonpositive, is_negative}
use kaya_project.Machine.{Ptr, Addr, Word, null, max_proc, State, Info, Command, ldst}
use kaya_project.Asl.Blocked.{head_blocked, remove_blocked}
use kaya_project.Kernel.State.{Kernel, Device}
use kaya_project.Kernel.Access.{
  on_asl, read, modify, get_current, set_current, make_ready, get_int, set_int, dev_sem,
  clock_index, get_state, set_reg, get_pcb, set_pcb, v0, interrupt_old, stck, ldit, state_copy_pcb,
  charge_time,
}
use kaya_project.Kernel.Scheduler.{exit, scheduler}
use kaya_project.Kernel.Syscalls.{get_sem_array_num}
use kaya_project.Kernel.Devices.{
  get_line_number, get_device_number, get_dev_reg_index, get_device, set_device, ack_terminal,
  ready, ack,
}

-- `LDST(interruptOld)`
unfoldable pub resume_interrupted : Command Kernel (Unit {0})
resume_interrupted = do s ← get_state interrupt_old; exit (ldst s)

-- The acknowledgement of the device: its status, and the offset of its semaphore.
unfoldable pub ack_device : (line_number dev_reg_index : Word) → Command Kernel (Word × Word)
ack_device line_number dev_reg_index =
    if line_number == 7
    then (do
      (status, _) ← ack_terminal dev_reg_index
      pure (status, if status % 16 == ready then 8 else 0))
    else do
      d ← get_device dev_reg_index
      set_device dev_reg_index (record d { command = ack })
      pure (d.status, 0)

-- The V operation on the device's semaphore, with the status for the process that it wakes.
unfoldable pub wake_for_device : Addr → Word → Command Kernel (Unit {0})
unfolding inc32 dec32 is_nonpositive get_pcb set_pcb stck
wake_for_device sem_add status = do
  v ← get_int sem_add
  set_int sem_add (inc32 v)
  v' ← get_int sem_add
  when (is_nonpositive v') do
    p ← on_asl (remove_blocked sem_add)
    i ← get_pcb p
    set_pcb p (record i { sem_add = null; p_s = set_reg i.p_s v0 status })
    make_ready p
    modify λ k. record k { soft_block_count = dec32 k.soft_block_count }
    waiting ← read λ k. k.wait_flag
    if waiting == 1
        then scheduler
        else do t ← stck; modify λ k. record k { time = t }; resume_interrupted

unfoldable pub device_interrupt : Word → Command Kernel (Unit {0})
unfolding dev_sem
device_interrupt line_number = do
  device_number ← get_device_number line_number
  (status, term_offset) ← ack_device line_number (get_dev_reg_index line_number device_number)
  l ← read λ k. k.layout
  wake_for_device (dev_sem l (get_sem_array_num line_number device_number term_offset)) status

-- The end of a quantum.
unfoldable pub quantum_interrupt : Command Kernel (Unit {0})
quantum_interrupt = do
  current ← get_current
  state_copy_pcb current interrupt_old
  make_ready current
  set_current null
  scheduler

-- The `while` loop: one process more leaves the clock's queue. There are at most `max_proc`.
unfoldable pub wake_all : ℕ → Addr → Command Kernel (Unit {0})
unfolding get_pcb set_pcb inc32 dec32
wake_all zero clock = λ _. out_of_fuel
wake_all (suc n) clock = do
  head ← on_asl (head_blocked clock)
  if head == null then pure tt else do
    temp ← on_asl (remove_blocked clock)
    i ← get_pcb temp
    set_pcb temp (record i { sem_add = null })
    v ← get_int clock
    set_int clock (inc32 v)
    make_ready temp
    modify λ k. record k { soft_block_count = dec32 k.soft_block_count }
    wake_all n clock

unfoldable pub clock_interrupt : Command Kernel (Unit {0})
unfolding ldit dev_sem is_nonpositive
clock_interrupt = do
  ldit 100000
  l ← read λ k. k.layout
  let clock = dev_sem l clock_index
  head ← on_asl (head_blocked clock)
  when (not (head == null))
      do v ← get_int clock; when (is_nonpositive v) (wake_all (suc max_proc) clock)
  current ← get_current
  if not (current == null) then resume_interrupted else scheduler

unfoldable pub interrupt_handler : Command Kernel (Unit {0})
unfolding stck
interrupt_handler = do
  curr_time ← stck
  current ← get_current
  when (not (current == null)) (charge_time current curr_time)
  s ← get_state interrupt_old
  let line_number = get_line_number s.cause
  if ltb 2 line_number && ltb line_number 8
      then device_interrupt line_number
      else if line_number == 1
      then quantum_interrupt
      else clock_interrupt
