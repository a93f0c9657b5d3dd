-- ===== src/Pcb/Queue.antt =====
-- The process queues of phase1/pcb.c: doubly linked circular queues, known by a tail pointer.
-- A tail pointer that the C passes by address, `pcb_PTR *tp`, is an argument here, and its new
-- value a result. The search of `outProcQ` takes `max_proc` rounds at most.
pub mod Links
pub mod Insert
pub mod Unlink
pub mod Out
pub mod Fifo
use kaya_project.Base.{ℕ, zero, suc, Bool, ◌==◌, if◌then◌else◌, out_of_fuel, pure, ◌>>=◌, ◌>>◌}
use kaya_project.Machine.{Ptr, null, max_proc, Command}
use kaya_project.Pcb.Table.{Pcbs, get_next, get_prev, set_next, set_prev}

unfoldable pub empty_proc_q : Ptr → Bool
empty_proc_q tp = tp == null

unfoldable pub mk_empty_proc_q : Ptr
mk_empty_proc_q = null

unfoldable pub head_proc_q : Ptr → Command Pcbs Ptr
unfolding empty_proc_q get_next
head_proc_q tp = if empty_proc_q tp then pure null else get_next tp

unfoldable pub insert_proc_q : Ptr → Ptr → Command Pcbs Ptr
unfolding empty_proc_q get_next set_next set_prev
insert_proc_q tp p = if empty_proc_q tp then (do set_prev p p; set_next p p; pure p) else do
  head ← get_next tp
  set_prev head p
  new_next ← get_next tp
  set_next p new_next
  set_next tp p
  set_prev p tp
  pure p

-- The two writes that take `p` out between its neighbours.
unfoldable pub unlink : Ptr → Command Pcbs (Unit {0})
unfolding get_next get_prev set_next set_prev
unlink p = do
  after ← get_next p
  before ← get_prev p
  set_prev after before
  before' ← get_prev p
  after' ← get_next p
  set_next before' after'

-- The `while` loop: a search for `p` from `current` up to the tail.
unfoldable pub search_q : ℕ → (tail p current : Ptr) → Command Pcbs Ptr
search_q zero tail p current = λ _. out_of_fuel
search_q (suc k) tail p current =
    if current == tail
    then pure null
    else if current == p
    then (do unlink current; pure current)
    else do after ← get_next current; search_q k tail p after

-- The removed block, or NULL, and the new tail pointer.
unfoldable pub out_proc_q : Ptr → Ptr → Command Pcbs (Ptr × Ptr)
unfolding empty_proc_q head_proc_q
out_proc_q tp p =
    if empty_proc_q tp
    then pure (null, tp)
    else if p == tp
    then (do
      head ← head_proc_q tp
      if head == tp then pure (tp, null) else do unlink tp; last ← get_prev tp; pure (tp, last))
    else do first ← get_next tp; found ← search_q max_proc tp p first; pure (found, tp)

unfoldable pub remove_proc_q : Ptr → Command Pcbs (Ptr × Ptr)
unfolding empty_proc_q get_next
remove_proc_q tp =
    if empty_proc_q tp then pure (null, tp) else do head ← get_next tp; out_proc_q tp head
