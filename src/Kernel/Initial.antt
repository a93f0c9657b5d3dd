-- ===== src/Kernel/Initial.antt =====
-- `main` of phase2/initial.c.
pub mod Boot
pub mod Tables
use kaya_project.Base.{ℕ, zero, suc, ◌-◌, pure, ◌>>=◌, ◌>>◌}
use kaya_project.Base.Words.{add32, sub32, inc32}
use kaya_project.Machine.{Addr, Word, null, State, Command}
use kaya_project.Pcb.Queue.{mk_empty_proc_q}
use kaya_project.Pcb.Pool.{init_pcbs, alloc_pcb}
use kaya_project.Asl.Table.{on_pcbs}
use kaya_project.Asl.List.{init_asl}
use kaya_project.Kernel.State.{Kernel, Layout}
use kaya_project.Kernel.Access.{
  on_asl, read, modify, set_current, set_ready, make_ready, set_int, dev_sem, dev_sem_count,
  get_state, set_state, set_reg, get_pcb, set_pcb, t9, sp, sys_call_new, pgm_trap_new, tlb_mgmt_new,
  interrupt_new, ldit,
}
use kaya_project.Kernel.Scheduler.{scheduler}

-- INTSMASKED | VMOFF | PROCLOCALTIMEON | KERNELON
abbrev pub handler_status : Word
handler_status = 0x0800_0000

-- FIRSTPROCESSSTATUSMASK
abbrev pub first_status : Word
first_status = 0x0800_ff01

-- A state that starts at `entry` with its stack at `stack`.
abbrev pub start_at : (entry stack status : Word) → State → State
start_at entry stack st s = record (set_reg (set_reg s sp stack) t9 entry) {
  pc = entry;
  status = st;
}

-- The four assignments to one new area.
unfoldable pub init_area : (area : Addr) → (entry ram_top : Word) → Command Kernel (Unit {0})
init_area area entry ram_top = do
  s ← get_state area
  set_state area (start_at entry ram_top handler_status s)

-- The loop over `devSemTable`, `n` rounds left.
unfoldable pub clear_dev_sems : ℕ → Layout → Command Kernel (Unit {0})
unfolding dev_sem
clear_dev_sems zero l = pure tt
clear_dev_sems (suc n) l = do set_int (dev_sem l (dev_sem_count - suc n)) 0; clear_dev_sems n l

unfoldable pub main : Command Kernel (Unit {0})
unfolding add32 sub32 inc32 mk_empty_proc_q get_pcb set_pcb ldit
main = do
  b ← read λ k. k.bus
  l ← read λ k. k.layout
  let ram_top = add32 b.rambase b.ramsize
  init_area sys_call_new l.sys_call_handler ram_top
  init_area pgm_trap_new l.pgm_trap_handler ram_top
  init_area tlb_mgmt_new l.tlb_mgmt_handler ram_top
  init_area interrupt_new l.interrupt_handler ram_top
  modify λ k. record k { process_count = 0; soft_block_count = 0 }
  set_current null
  set_ready mk_empty_proc_q
  on_asl (on_pcbs init_pcbs)
  on_asl init_asl
  clear_dev_sems dev_sem_count l
  p ← on_asl (on_pcbs alloc_pcb)
  i ← get_pcb p
  set_pcb p (record i { p_s = start_at l.test (sub32 ram_top 4096) first_status i.p_s })
  modify λ k. record k { process_count = inc32 k.process_count }
  make_ready p
  ldit 100000
  modify λ k. record k { time = 0 }
  scheduler
