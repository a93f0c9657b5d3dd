-- ===== src/Kernel/Scheduler.antt =====
-- phase2/scheduler.c.
pub mod Outcomes
use kaya_project.Base.{◌==◌, if◌then◌else◌, stop, pure, ◌>>=◌, ◌>>◌}
use kaya_project.Machine.{null, Exit, ldst, halt, panic, wait, Command, Ptr}
use kaya_project.Pcb.Queue.{remove_proc_q}
use kaya_project.Asl.Table.{on_pcbs}
use kaya_project.Kernel.State.{Kernel, set_timer, set_status}
use kaya_project.Kernel.Access.{on_asl, read, modify, set_current, set_ready, get_pcb, stck, call}

-- A call that does not return.
abbrev pub exit : {A : Type 0} → Exit → Command Kernel A
exit e k = stop e k

-- `removeProcQ(&readyQue)`
unfoldable pub next_ready : Command Kernel Ptr
next_ready = do
  tp ← read λ k. k.ready_que
  (p, tp') ← on_asl (on_pcbs (remove_proc_q tp))
  set_ready tp'
  pure p

-- What `scheduler` does when no process is ready.
unfoldable pub idle : Command Kernel (Unit {0})
idle = do
  count ← read λ k. k.process_count
  if count == 0 then exit halt else do
    blocked ← read λ k. k.soft_block_count
    if blocked == 0
        then exit panic
        else do modify λ k. record k { wait_flag = 1 }; call (set_status 0xff01); exit wait

unfoldable pub dispatch : Ptr → Command Kernel (Unit {0})
unfolding get_pcb stck
dispatch process = do
  modify λ k. record k { wait_flag = 0 }
  set_current process
  call (set_timer 5000)
  t ← stck
  modify λ k. record k { time = t }
  i ← get_pcb process
  exit (ldst i.p_s)

unfoldable pub scheduler : Command Kernel (Unit {0})
scheduler = do process ← next_ready; if process == null then idle else dispatch process
