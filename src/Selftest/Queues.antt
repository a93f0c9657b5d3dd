-- ===== src/Selftest/Queues.antt =====
-- The checks of the free list and of process queues in `main2` of phase1/p1test.c.
use kaya_project.Base.{ℕ, not, ◌||◌, ◌==◌, if◌then◌else◌, when, pure, ◌>>=◌, ◌>>◌}
use kaya_project.Machine.{Ptr, null, max_proc}
use kaya_project.Pcb.Queue.{empty_proc_q, head_proc_q, insert_proc_q, out_proc_q, remove_proc_q}
use kaya_project.Pcb.Pool.{init_pcbs, alloc_pcb, free_pcb}
use kaya_project.Selftest.Program.{
  Test, on_table, read, modify, addokbuf, fail_if, set_procp, get_procp, set_qa, set_q, for_each,
}

-- The calls of pcb.c on the queue `qa`.
unfoldable pub insert_qa : Ptr → Test (Unit {0})
insert_qa p = do tp ← read λ s. s.qa; tp' ← on_table (insert_proc_q tp p); set_qa tp'

unfoldable pub out_qa : Ptr → Test Ptr
out_qa p = do tp ← read λ s. s.qa; (q, tp') ← on_table (out_proc_q tp p); set_qa tp'; pure q

unfoldable pub remove_qa : Test Ptr
remove_qa = do tp ← read λ s. s.qa; (q, tp') ← on_table (remove_proc_q tp); set_qa tp'; pure q

-- The switch that notes the first, the sixth and the last process.
abbrev pub note_proc : ℕ → Ptr → Test (Unit {0})
note_proc i q =
    if i == 0
    then (modify λ s. record s { firstproc = q })
    else if i == 5
    then (modify λ s. record s { midproc = q })
    else when (i == 9) (modify λ s. record s { lastproc = q })

-- The first part of `main2`: the free list.
unfoldable pub check_pool : Test (Unit {0})
check_pool = do
  on_table init_pcbs
  addokbuf "Initialized process control blocks   \n"
  for_each max_proc 0 λ i. do
    p ← on_table alloc_pcb
    set_procp i p
    fail_if (p == null) "allocPcb: unexpected NULL   "
  p ← on_table alloc_pcb
  fail_if (not (p == null)) "allocPcb: allocated more than MAXPROC entries   "
  addokbuf "allocPcb ok   \n"
  for_each 10 10 λ i. do p ← get_procp i; on_table (free_pcb p)
  addokbuf "freed 10 entries   \n"

-- The second part: process queues.
unfoldable pub check_queues : Test (Unit {0})
check_queues = do
  set_qa null
  qa ← read λ s. s.qa
  fail_if (not (empty_proc_q qa)) "emptyProcQ: unexpected FALSE   "
  addokbuf "Inserting...   \n"
  for_each 10 0 λ i. do
    q ← on_table alloc_pcb
    fail_if (q == null) "allocPcb: unexpected NULL while insert   "
    note_proc i q
    insert_qa q
  addokbuf "inserted 10 elements   \n"
  qa ← read λ s. s.qa
  fail_if (empty_proc_q qa) "emptyProcQ: unexpected TRUE"
  head ← on_table (head_proc_q qa)
  firstproc ← read λ s. s.firstproc
  fail_if (not (head == firstproc)) "headProcQ failed   "
  q ← out_qa firstproc
  fail_if (q == null || not (q == firstproc)) "outProcQ failed on first entry   "
  on_table (free_pcb q)
  midproc ← read λ s. s.midproc
  q ← out_qa midproc
  fail_if (q == null || not (q == midproc)) "outProcQ failed on middle entry   "
  on_table (free_pcb q)
  p ← get_procp 0
  q ← out_qa p
  fail_if (not (q == null)) "outProcQ failed on nonexistent entry   "
  addokbuf "outProcQ ok   \n"

-- The third part: the order of removal.
unfoldable pub check_removal : Test (Unit {0})
unfolding remove_qa
check_removal = do
  addokbuf "Removing...   \n"
  for_each 8 0 λ i. do
    q ← remove_qa
    set_q q
    fail_if (q == null) "removeProcQ: unexpected NULL   "
    on_table (free_pcb q)
  q ← read λ s. s.q
  lastproc ← read λ s. s.lastproc
  fail_if (not (q == lastproc)) "removeProcQ: failed on last entry   "
  q ← remove_qa
  fail_if (not (q == null)) "removeProcQ: removes too many entries   "
  qa ← read λ s. s.qa
  fail_if (not (empty_proc_q qa)) "emptyProcQ: unexpected FALSE   "
  addokbuf "insertProcQ, removeProcQ and emptyProcQ ok   \n"
  addokbuf "process queues module ok      \n"
