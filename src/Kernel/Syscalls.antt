-- ===== src/Kernel/Syscalls.antt =====
-- The system calls SYS 1 and SYS 3 to SYS 8 of phase2/exceptions.c.
pub mod Create
pub mod Spawn
pub mod Sleep
pub mod Wake
use kaya_project.Base.{ℕ, ◌+◌, ◌==◌, if◌then◌else◌, not, ◌&&◌, when, pure, ◌>>=◌, ◌>>◌}
use kaya_project.Base.Words.{
  add32, sub32, mul32, inc32, dec32, is_negative, is_nonpositive, word_mod,
}
use kaya_project.Machine.{Ptr, Addr, Word, null, State, Info, Command, ldst}
use kaya_project.Pcb.Tree.{insert_child}
use kaya_project.Pcb.Pool.{alloc_pcb}
use kaya_project.Asl.Table.{on_pcbs}
use kaya_project.Asl.Blocked.{insert_blocked, remove_blocked}
use kaya_project.Kernel.State.{Kernel}
use kaya_project.Kernel.Access.{
  on_asl, read, modify, get_current, set_current, make_ready, get_int, set_int, dev_sem,
  clock_index, get_state, set_state, set_reg, get_pcb, set_pcb, v0, a1, a2, a3, sys_call_old, stck,
  state_copy_pcb, charge_time,
}
use kaya_project.Kernel.Scheduler.{exit, scheduler}
use kaya_project.Kernel.Terminate.{terminate_process}

-- `LDST(syscallOld)`
unfoldable pub resume : Command Kernel (Unit {0})
resume = do s ← get_state sys_call_old; exit (ldst s)

-- `syscallOld->s_v0 = v`
unfoldable pub set_result : Word → Command Kernel (Unit {0})
set_result v = do s ← get_state sys_call_old; set_state sys_call_old (set_reg s v0 v)

-- An argument register of the caller.
abbrev pub arg : ℕ → Command Kernel Word
arg i = do s ← get_state sys_call_old; pure (s.reg i)

-- SYS 1
unfoldable pub create_process : Command Kernel (Unit {0})
unfolding inc32 set_result resume
create_process = do
  new_proc_state ← arg a1
  p ← on_asl (on_pcbs alloc_pcb)
  if p == null then set_result 0xffff_ffff else do
    state_copy_pcb p new_proc_state
    modify λ k. record k { process_count = inc32 k.process_count }
    current ← get_current
    on_asl (on_pcbs (insert_child current p))
    make_ready p
    set_result 0
    resume

-- SYS 3
unfoldable pub verhogen : Command Kernel (Unit {0})
unfolding inc32 is_nonpositive get_pcb set_pcb resume
verhogen = do
  mutex ← arg a1
  v ← get_int mutex
  set_int mutex (inc32 v)
  v' ← get_int mutex
  when (is_nonpositive v') do
    temp ← on_asl (remove_blocked mutex)
    when (not (temp == null))
        do i ← get_pcb temp; set_pcb temp (record i { sem_add = null }); make_ready temp
  resume

-- SYS 4
unfoldable pub passeren : Command Kernel (Unit {0})
unfolding dec32 is_negative stck resume
passeren = do
  mutex ← arg a1
  v ← get_int mutex
  set_int mutex (dec32 v)
  v' ← get_int mutex
  when (is_negative v') do
    curr_time ← stck
    current ← get_current
    charge_time current curr_time
    state_copy_pcb current sys_call_old
    failed ← on_asl (insert_blocked mutex current)
    set_current null
    scheduler
  resume

-- The three cases of SYS 5: the pair of addresses is set once.
unfoldable pub specify_tlb : Addr → Addr → Command Kernel (Unit {0})
unfolding get_pcb set_pcb
specify_tlb old_state new_state = do
  current ← get_current
  i ← get_pcb current
  if not (i.old_tlb == null)
      then terminate_process
      else set_pcb current (record i { old_tlb = old_state; new_tlb = new_state })

unfoldable pub specify_pgm : Addr → Addr → Command Kernel (Unit {0})
unfolding get_pcb set_pcb
specify_pgm old_state new_state = do
  current ← get_current
  i ← get_pcb current
  if not (i.old_pgm == null)
      then terminate_process
      else set_pcb current (record i { old_pgm = old_state; new_pgm = new_state })

unfoldable pub specify_sys : Addr → Addr → Command Kernel (Unit {0})
unfolding get_pcb set_pcb
specify_sys old_state new_state = do
  current ← get_current
  i ← get_pcb current
  if not (i.old_sys == null)
      then terminate_process
      else set_pcb current (record i { old_sys = old_state; new_sys = new_state })

-- SYS 5
unfoldable pub specify_exception_state_vector : Command Kernel (Unit {0})
unfolding resume
specify_exception_state_vector = do
  exception_type ← arg a1
  old_state ← arg a2
  new_state ← arg a3
  if exception_type == 0
      then specify_tlb old_state new_state
      else if exception_type == 1
      then specify_pgm old_state new_state
      else when (exception_type == 2) (specify_sys old_state new_state)
  resume

-- SYS 6
unfoldable pub get_cpu_time : Command Kernel (Unit {0})
unfolding stck get_pcb set_result resume
get_cpu_time = do
  curr_time ← stck
  current ← get_current
  charge_time current curr_time
  i ← get_pcb current
  set_result i.time
  resume

-- SYS 7
unfoldable pub wait_for_clock : Command Kernel (Unit {0})
unfolding dev_sem dec32 inc32 is_negative stck resume
wait_for_clock = do
  l ← read λ k. k.layout
  let sem_add = dev_sem l clock_index
  v ← get_int sem_add
  set_int sem_add (dec32 v)
  v' ← get_int sem_add
  when (is_negative v') do
    current ← get_current
    state_copy_pcb current sys_call_old
    failed ← on_asl (insert_blocked sem_add current)
    modify λ k. record k { soft_block_count = inc32 k.soft_block_count }
    curr_time ← stck
    charge_time current curr_time
    set_current null
    scheduler
  resume

-- `getSemArrayNum` of phase2/interrupts.c.
unfoldable pub get_sem_array_num : (line_number device_number term_offset : Word) → Word
unfolding add32 sub32 mul32
get_sem_array_num line_number device_number term_offset =
    let array_num = mul32 (sub32 line_number 3) 8 in
    add32 (add32 array_num device_number) term_offset

-- SYS 8
unfoldable pub wait_for_io_device : Command Kernel (Unit {0})
unfolding dev_sem dec32 inc32 is_negative stck
wait_for_io_device = do
  current ← get_current
  state_copy_pcb current sys_call_old
  line_number ← arg a1
  device_number ← arg a2
  term_read ← arg a3
  l ← read λ k. k.layout
  let offset = if line_number == 7 && term_read == 1 then 8 else 0
  let sem_add = dev_sem l (get_sem_array_num line_number device_number offset)
  v ← get_int sem_add
  set_int sem_add (dec32 v)
  v' ← get_int sem_add
  when (is_negative v') do
    curr_time ← stck
    charge_time current curr_time
    modify λ k. record k { soft_block_count = inc32 k.soft_block_count }
    failed ← on_asl (insert_blocked sem_add current)
    set_current null
    scheduler
