-- ===== src/Tests/Queues.antt =====
-- The theorems on queues and on the pool, at the queue of three blocks.
use kaya_project.Base.{refl, [], ◌∷◌, arith, Returns}
use kaya_project.Pcb.Queue.{insert_proc_q, out_proc_q}
use kaya_project.Pcb.Queue.Insert.{Appended, insert_proc_q-append}
use kaya_project.Pcb.Queue.Out.{Removed, out_proc_q-erase}
use kaya_project.Tests.Blank.{three, three-IsQueue}

insert_proc_q-append_example :
    Returns (Appended three 2 5 (0 ∷ 1 ∷ 2 ∷ [])) (insert_proc_q 2 5 three)
insert_proc_q-append_example =
    insert_proc_q-append three 2 5 (0 ∷ 1 ∷ 2 ∷ []) three-IsQueue (omega arith) refl

out_proc_q-erase_example : Returns (Removed three 2 1 (0 ∷ 1 ∷ 2 ∷ [])) (out_proc_q 2 1 three)
out_proc_q-erase_example = out_proc_q-erase three 2 1 (0 ∷ 1 ∷ 2 ∷ []) three-IsQueue
