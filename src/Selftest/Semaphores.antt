-- ===== src/Selftest/Semaphores.antt =====
-- The checks of the active semaphore list in `main2` of phase1/p1test.c.
use kaya_project.Base.{◌-◌, not, ◌==◌, ◌>>=◌, ◌>>◌}
use kaya_project.Machine.{null}
use kaya_project.Pcb.Pool.{alloc_pcb}
use kaya_project.Asl.List.{init_asl}
use kaya_project.Asl.Blocked.{insert_blocked, out_blocked, remove_blocked, head_blocked}
use kaya_project.Selftest.Program.{
  Places, Test, on_asl, on_table, addokbuf, fail_if, set_procp, get_procp, sem_at, for_each,
}

-- The fifth part: the active semaphore list, filled.
unfoldable pub check_insertion : Places → Test (Unit {0})
unfolding sem_at
check_insertion l = do
  on_asl init_asl
  addokbuf "Initialized active semaphore list   \n"
  addokbuf "insertBlocked test #1 started  \n"
  for_each 10 10 λ i. do
    p ← on_table alloc_pcb
    set_procp i p
    failed ← on_asl (insert_blocked (sem_at l i) p)
    fail_if failed "insertBlocked(1): unexpected TRUE   "
  addokbuf "insertBlocked test #2 started  \n"
  for_each 10 0 λ i. do
    p ← on_table alloc_pcb
    set_procp i p
    failed ← on_asl (insert_blocked (sem_at l i) p)
    fail_if failed "insertBlocked(2): unexpected TRUE   "
  p ← on_asl (remove_blocked (sem_at l 11))
  failed ← on_asl (insert_blocked (sem_at l 11) p)
  fail_if failed "removeBlocked: fails to return to free list   "
  p ← get_procp 9
  failed ← on_asl (insert_blocked l.onesem p)
  fail_if (not failed) "insertBlocked: inserted more than MAXPROC   "

-- The sixth part: the list emptied again.
unfoldable pub check_wakes : Places → Test (Unit {0})
unfolding sem_at
check_wakes l = do
  addokbuf "removeBlocked test started   \n"
  for_each 10 10 λ i. do
    q ← on_asl (remove_blocked (sem_at l i))
    fail_if (q == null) "removeBlocked: wouldn't remove   "
    p ← get_procp i
    fail_if (not (q == p)) "removeBlocked: removed wrong element   "
    failed ← on_asl (insert_blocked (sem_at l (i - 10)) q)
    fail_if failed "insertBlocked(3): unexpected TRUE   "
  q ← on_asl (remove_blocked (sem_at l 11))
  fail_if (not (q == null)) "removeBlocked: removed nonexistent blocked proc   "
  addokbuf "insertBlocked and removeBlocked ok   \n"

-- The last part: `headBlocked` and `outBlocked`.
unfoldable pub check_heads : Places → Test (Unit {0})
unfolding sem_at
check_heads l = do
  q ← on_asl (head_blocked (sem_at l 11))
  fail_if (not (q == null)) "headBlocked: nonNULL for a nonexistent queue   "
  q ← on_asl (head_blocked (sem_at l 9))
  fail_if (q == null) "headBlocked(1): NULL for an existent queue   "
  p ← get_procp 9
  fail_if (not (q == p)) "headBlocked(1): wrong process returned   "
  p ← on_asl (out_blocked q)
  fail_if (not (p == q)) "outBlocked(1): couldn't remove from valid queue   "
  q ← on_asl (head_blocked (sem_at l 9))
  fail_if (q == null) "headBlocked(2): NULL for an existent queue   "
  p ← get_procp 19
  fail_if (not (q == p)) "headBlocked(2): wrong process returned   "
  p ← on_asl (out_blocked q)
  fail_if (not (p == q)) "outBlocked(2): couldn't remove from valid queue   "
  p ← on_asl (out_blocked q)
  fail_if (not (p == null)) "outBlocked: removed same process twice."
  q ← on_asl (head_blocked (sem_at l 9))
  fail_if (not (q == null)) "out/headBlocked: unexpected nonempty queue   "
  addokbuf "headBlocked and outBlocked ok   \n"
  addokbuf "ASL module ok   \n"
  addokbuf "So Long and Thanks for All the Fish\n"
