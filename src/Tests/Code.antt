-- ===== src/Tests/Code.antt =====
-- One name that opens every function of the model, for the runs.
use kaya_project.Base.{ℕ}
use kaya_project.Pcb.Table.{
  get_next, get_prev, get_prnt, get_child, get_sib, get_prevsib, get_info, set_next, set_prev,
  set_prnt, set_child, set_sib, set_prevsib, set_info, get_free, set_free,
}
use kaya_project.Pcb.Queue.{
  empty_proc_q, mk_empty_proc_q, head_proc_q, insert_proc_q, unlink, search_q, out_proc_q,
  remove_proc_q,
}
use kaya_project.Pcb.Tree.{empty_child, insert_child, unlink_child, out_child, remove_child}
use kaya_project.Pcb.Pool.{clean_pcb, free_pcb, alloc_pcb, free_cells, init_pcbs}
use kaya_project.Asl.Table.{
  get_s_next, get_s_sem_add, get_s_proc_q, set_s_next, set_s_sem_add, set_s_proc_q, get_semd_h,
  set_semd_h, get_semd_free, set_semd_free, get_sem_add, set_sem_add,
}
use kaya_project.Asl.List.{
  clean_semd, free_semd, allocate_semd, search_from, search_semd, free_semds, init_asl,
}
use kaya_project.Asl.Blocked.{
  enqueue_on, insert_blocked, out_of_queue, out_blocked, remove_blocked, head_blocked,
}
use kaya_project.Kernel.Access.{
  make_ready, dev_sem, get_pcb, set_pcb, stck, ldit, copy_regs, copy_state, state_copy,
  state_copy_pcb, charge_time,
}
use kaya_project.Kernel.Scheduler.{next_ready, idle, dispatch, scheduler}
use kaya_project.Kernel.Terminate.{
  is_dev_sem, one_process_less, out_of_ready, release, kill, terminate_process,
  terminate_recursively, kill_children,
}
use kaya_project.Kernel.Syscalls.{
  resume, set_result, create_process, verhogen, passeren, specify_tlb, specify_pgm, specify_sys,
  specify_exception_state_vector, get_cpu_time, wait_for_clock, get_sem_array_num,
  wait_for_io_device,
}
use kaya_project.Kernel.Exceptions.{
  pass_up, pass_up_or_die, pgm_trap_handler, tlb_mgmt_handler, reserved_cause, serve,
  syscall_dispatch, sys_call_handler,
}
use kaya_project.Kernel.Devices.{
  get_line_number, lowest_device, get_device_number, get_dev_reg_index, ack_terminal,
}
use kaya_project.Kernel.Interrupts.{
  resume_interrupted, ack_device, wake_for_device, device_interrupt, quantum_interrupt, wake_all,
  clock_interrupt, interrupt_handler,
}
use kaya_project.Kernel.Initial.{init_area, clear_dev_sems, main}

unfoldable pub all_code : ℕ
unfolding get_next get_prev get_prnt get_child get_sib get_prevsib get_info set_next set_prev
    set_prnt set_child set_sib set_prevsib set_info get_free set_free empty_proc_q mk_empty_proc_q
    head_proc_q insert_proc_q unlink search_q out_proc_q remove_proc_q empty_child insert_child
    unlink_child out_child remove_child clean_pcb free_pcb alloc_pcb free_cells init_pcbs get_s_next
    get_s_sem_add get_s_proc_q set_s_next set_s_sem_add set_s_proc_q get_semd_h set_semd_h
    get_semd_free set_semd_free get_sem_add set_sem_add clean_semd free_semd allocate_semd
    search_from search_semd free_semds init_asl enqueue_on insert_blocked out_of_queue out_blocked
    remove_blocked head_blocked make_ready dev_sem get_pcb set_pcb stck ldit copy_regs copy_state
    state_copy state_copy_pcb charge_time next_ready idle dispatch scheduler is_dev_sem
    one_process_less out_of_ready release kill terminate_process terminate_recursively kill_children
    resume set_result create_process verhogen passeren specify_tlb specify_pgm specify_sys
    specify_exception_state_vector get_cpu_time wait_for_clock get_sem_array_num wait_for_io_device
    pass_up pass_up_or_die pgm_trap_handler tlb_mgmt_handler reserved_cause serve syscall_dispatch
    sys_call_handler get_line_number lowest_device get_device_number get_dev_reg_index ack_terminal
    resume_interrupted ack_device wake_for_device device_interrupt quantum_interrupt wake_all
    clock_interrupt interrupt_handler init_area clear_dev_sems main
all_code = 0
