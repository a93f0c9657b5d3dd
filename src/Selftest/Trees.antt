-- ===== src/Selftest/Trees.antt =====
-- The checks of process trees in `main2` of phase1/p1test.c.
use kaya_project.Base.{not, ◌||◌, ◌==◌, ◌>>=◌, ◌>>◌}
use kaya_project.Machine.{null}
use kaya_project.Pcb.Tree.{empty_child, insert_child, out_child, remove_child}
use kaya_project.Pcb.Pool.{free_pcb}
use kaya_project.Selftest.Program.{Test, on_table, addokbuf, fail_if, get_procp, for_each}

-- The fourth part: process trees.
unfoldable pub check_trees : Test (Unit {0})
check_trees = do
  addokbuf "checking process trees...\n"
  p ← get_procp 2
  none ← on_table (empty_child p)
  fail_if (not none) "emptyChild: unexpected FALSE   "
  addokbuf "Inserting...   \n"
  root ← get_procp 0
  for_each 9 1 λ i. do p ← get_procp i; on_table (insert_child root p)
  addokbuf "Inserted 9 children   \n"
  none ← on_table (empty_child root)
  fail_if none "emptyChild: unexpected TRUE   "
  p ← get_procp 1
  q ← on_table (out_child p)
  fail_if (q == null || not (q == p)) "outChild failed on first child   "
  p ← get_procp 4
  q ← on_table (out_child p)
  fail_if (q == null || not (q == p)) "outChild failed on middle child   "
  q ← on_table (out_child root)
  fail_if (not (q == null)) "outChild failed on nonexistent child   "
  addokbuf "outChild ok   \n"
  addokbuf "Removing...   \n"
  for_each 7 0 λ i. do
    q ← on_table (remove_child root)
    fail_if (q == null) "removeChild: unexpected NULL   "
  q ← on_table (remove_child root)
  fail_if (not (q == null)) "removeChild: removes too many children   "
  none ← on_table (empty_child root)
  fail_if (not none) "emptyChild: unexpected FALSE   "
  addokbuf "insertChild, removeChild and emptyChild ok   \n"
  addokbuf "process tree module ok      \n"
  for_each 10 0 λ i. do p ← get_procp i; on_table (free_pcb p)
