-- ===== src/Selftest/Code.antt =====
-- The code of phase 1, to be run by evaluation.
use kaya_project.Base.{ℕ}
use kaya_project.Pcb.Table.{
  get_next, get_prev, get_prnt, get_child, get_sib, get_prevsib, get_info, set_next, set_prev,
  set_prnt, set_child, set_sib, set_prevsib, set_info, get_free, set_free,
}
use kaya_project.Pcb.Queue.{
  empty_proc_q, mk_empty_proc_q, head_proc_q, insert_proc_q, unlink, search_q, out_proc_q,
  remove_proc_q,
}
use kaya_project.Pcb.Tree.{empty_child, insert_child, unlink_child, out_child, remove_child}
use kaya_project.Pcb.Pool.{clean_pcb, free_pcb, alloc_pcb, free_cells, init_pcbs}
use kaya_project.Asl.Table.{
  get_s_next, get_s_sem_add, get_s_proc_q, set_s_next, set_s_sem_add, set_s_proc_q, get_semd_h,
  set_semd_h, get_semd_free, set_semd_free, get_sem_add, set_sem_add,
}
use kaya_project.Asl.List.{
  clean_semd, free_semd, allocate_semd, search_from, search_semd, free_semds, init_asl,
}
use kaya_project.Asl.Blocked.{
  enqueue_on, insert_blocked, out_of_queue, out_blocked, remove_blocked, head_blocked,
}
use kaya_project.Selftest.Program.{print, addokbuf, adderrbuf, fail_if, sem_at}
use kaya_project.Selftest.Terminal.{termstat, busy_wait, print_cycle, termprint}
use kaya_project.Selftest.Queues.{
  insert_qa, out_qa, remove_qa, check_pool, check_queues, check_removal,
}
use kaya_project.Selftest.Trees.{check_trees}
use kaya_project.Selftest.Semaphores.{check_insertion, check_wakes, check_heads}
use kaya_project.Selftest.Main.{main2}

unfoldable pub phase1_code : ℕ
unfolding get_next get_prev get_prnt get_child get_sib get_prevsib get_info set_next set_prev
    set_prnt set_child set_sib set_prevsib set_info get_free set_free empty_proc_q mk_empty_proc_q
    head_proc_q insert_proc_q unlink search_q out_proc_q remove_proc_q empty_child insert_child
    unlink_child out_child remove_child clean_pcb free_pcb alloc_pcb free_cells init_pcbs get_s_next
    get_s_sem_add get_s_proc_q set_s_next set_s_sem_add set_s_proc_q get_semd_h set_semd_h
    get_semd_free set_semd_free get_sem_add set_sem_add clean_semd free_semd allocate_semd
    search_from search_semd free_semds init_asl enqueue_on insert_blocked out_of_queue out_blocked
    remove_blocked head_blocked print addokbuf adderrbuf fail_if termstat busy_wait print_cycle
    termprint sem_at insert_qa out_qa remove_qa check_pool check_queues check_removal check_trees
    check_insertion check_wakes check_heads main2
phase1_code = 0
