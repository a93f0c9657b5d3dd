-- ===== src/Asl/Blocked.antt =====
-- The global functions of phase1/asl.c: queues of processes blocked on semaphores.
pub mod Sorted
pub mod Head
pub mod Out
pub mod Remove
pub mod Start
pub mod Link
pub mod Insert
use kaya_project.Base.{Bool, true, false, not, ◌==◌, if◌then◌else◌, pure, ◌>>=◌, ◌>>◌}
use kaya_project.Machine.{Ptr, Addr, null, Command}
use kaya_project.Pcb.Table.{get_next}
use kaya_project.Pcb.Queue.{empty_proc_q, head_proc_q, insert_proc_q, out_proc_q}
use kaya_project.Asl.Table.{
  Asl, on_pcbs, get_s_next, get_s_sem_add, get_s_proc_q, set_s_next, set_s_proc_q, get_sem_add,
  set_sem_add,
}
use kaya_project.Asl.List.{free_semd, allocate_semd, search_semd}

-- `insertProcQ(&(semd->s_procQ), p); p->p_semAdd = semAdd;`
unfoldable pub enqueue_on : Ptr → Addr → Ptr → Command Asl (Unit {0})
unfolding get_s_proc_q set_s_proc_q set_sem_add
enqueue_on semd sem_add p = do
  tp ← get_s_proc_q semd
  tp' ← on_pcbs (insert_proc_q tp p)
  set_s_proc_q semd tp'
  set_sem_add p sem_add

-- The result says whether the insertion failed, for want of a descriptor.
unfoldable pub insert_blocked : Addr → Ptr → Command Asl Bool
unfolding get_s_next get_s_sem_add set_s_next
insert_blocked sem_add p = do
  parent ← search_semd sem_add
  after ← get_s_next parent
  add ← get_s_sem_add after
  if add == sem_add then (do enqueue_on after sem_add p; pure false) else do
    new_semd ← allocate_semd sem_add
    if new_semd == null then pure true else do
      after' ← get_s_next parent
      set_s_next new_semd after'
      set_s_next parent new_semd
      enqueue_on new_semd sem_add p
      pure false

-- `outProcQ(&(semd->s_procQ), p)`
unfoldable pub out_of_queue : Ptr → Ptr → Command Asl Ptr
unfolding get_s_proc_q set_s_proc_q
out_of_queue semd p = do
  tp ← get_s_proc_q semd
  (found, tp') ← on_pcbs (out_proc_q tp p)
  set_s_proc_q semd tp'
  pure found

unfoldable pub out_blocked : Ptr → Command Asl Ptr
unfolding get_sem_add get_s_next get_s_sem_add get_s_proc_q get_next set_s_next
out_blocked p = do
  sem_add ← get_sem_add p
  parent ← search_semd sem_add
  semd ← get_s_next parent
  add ← get_s_sem_add semd
  if not (add == sem_add) then pure null else do
    tp ← get_s_proc_q semd
    first ← on_pcbs (get_next tp)
    second ← on_pcbs (head_proc_q first)
    if second == p
        then (do
          outed ← out_of_queue semd p
          removed ← get_s_next parent
          after ← get_s_next removed
          set_s_next parent after
          free_semd removed
          pure outed)
        else out_of_queue semd p

unfoldable pub remove_blocked : Addr → Command Asl Ptr
unfolding get_s_next get_s_sem_add get_s_proc_q
remove_blocked sem_add = do
  parent ← search_semd sem_add
  semd ← get_s_next parent
  add ← get_s_sem_add semd
  if not (add == sem_add)
      then pure null
      else do tp ← get_s_proc_q semd; head ← on_pcbs (head_proc_q tp); out_blocked head

unfoldable pub head_blocked : Addr → Command Asl Ptr
unfolding get_s_next get_s_sem_add get_s_proc_q empty_proc_q
head_blocked sem_add = do
  parent ← search_semd sem_add
  semd ← get_s_next parent
  add ← get_s_sem_add semd
  if not (add == sem_add) then pure null else do
    tp ← get_s_proc_q semd
    if empty_proc_q tp then pure null else on_pcbs (head_proc_q tp)
