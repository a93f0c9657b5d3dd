-- ===== src/Kernel/Terminate.antt =====
-- `terminateRecursively` and `terminateProcess` (SYS 2) of phase2/exceptions.c. The recursion over
-- the process tree takes fuel: two units for each of the at most `max_proc` processes, and one more
-- for the loop's last test.
pub mod Forest
pub mod Census
pub mod Kill
pub mod Step
pub mod Loop
pub mod Current
pub mod After
pub mod Strand
use kaya_project.Base.{
  ℕ, zero, suc, ◌+◌, ◌*◌, Bool, false, not, ◌||◌, ◌==◌, if◌then◌else◌, out_of_fuel, pure, ◌>>=◌,
  ◌>>◌,
}
use kaya_project.Base.Words.{inc32, dec32}
use kaya_project.Machine.{Ptr, Addr, null, max_proc, Command}
use kaya_project.Pcb.Queue.{out_proc_q}
use kaya_project.Pcb.Tree.{empty_child, out_child, remove_child}
use kaya_project.Pcb.Pool.{free_pcb}
use kaya_project.Asl.Table.{on_pcbs}
use kaya_project.Asl.Blocked.{out_blocked}
use kaya_project.Kernel.State.{Layout, Kernel}
use kaya_project.Kernel.Access.{
  on_asl, read, modify, get_current, set_ready, get_int, set_int, dev_sem, dev_sem_count, get_pcb,
}
use kaya_project.Kernel.Scheduler.{scheduler}

-- The loop over the device semaphores, `n` rounds left: is one of them at `sem`?
unfoldable pub is_dev_sem : ℕ → Layout → Addr → Bool
unfolding dev_sem
is_dev_sem zero l sem = false
is_dev_sem (suc n) l sem = (dev_sem l n == sem) || is_dev_sem n l sem

-- `processCount--`
unfoldable pub one_process_less : Command Kernel (Unit {0})
unfolding dec32
one_process_less = modify λ k. record k { process_count = dec32 k.process_count }

-- `outProcQ(&readyQue, p)`
unfoldable pub out_of_ready : Ptr → Command Kernel Ptr
out_of_ready p = do
  tp ← read λ k. k.ready_que
  (found, tp') ← on_asl (on_pcbs (out_proc_q tp p))
  set_ready tp'
  pure found

-- A blocked process gives its unit back: to the semaphore, or to the count of processes that wait
-- for a device.
unfoldable pub release : Addr → Command Kernel (Unit {0})
unfolding inc32 dec32
release sem = do
  l ← read λ k. k.layout
  if is_dev_sem dev_sem_count l sem
      then (modify λ k. record k { soft_block_count = dec32 k.soft_block_count })
      else do v ← get_int sem; set_int sem (inc32 v)

-- The part of `terminateRecursively` behind its loop.
unfoldable pub kill : Ptr → Command Kernel (Unit {0})
unfolding get_pcb
kill p = do
  i ← get_pcb p
  current ← get_current
  if not (i.sem_add == null)
      then (do
        release i.sem_add
        outed ← on_asl (out_blocked p)
        on_asl (on_pcbs (free_pcb outed))
        one_process_less)
      else if p == current
      then (do
        outed ← on_asl (on_pcbs (out_child p))
        on_asl (on_pcbs (free_pcb outed))
        one_process_less)
      else do outed ← out_of_ready p; on_asl (on_pcbs (free_pcb outed)); one_process_less

unfoldable mutual
  pub terminate_recursively : ℕ → Ptr → Command Kernel (Unit {0})
  terminate_recursively zero p = λ _. out_of_fuel
  terminate_recursively (suc f) p = do kill_children f p; kill p

  -- The `while` loop.
  pub kill_children : ℕ → Ptr → Command Kernel (Unit {0})
  kill_children zero p = λ _. out_of_fuel
  kill_children (suc f) p = do
    none_left ← on_asl (on_pcbs (empty_child p))
    if none_left
        then pure tt
        else do c ← on_asl (on_pcbs (remove_child p)); terminate_recursively f c; kill_children f p

abbrev pub tree_fuel : ℕ
tree_fuel = 2 * max_proc + 1

unfoldable pub terminate_process : Command Kernel (Unit {0})
terminate_process = do p ← get_current; terminate_recursively tree_fuel p; scheduler
