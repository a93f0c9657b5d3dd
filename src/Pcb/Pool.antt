-- ===== src/Pcb/Pool.antt =====
-- The pool of free process control blocks of phase1/pcb.c.
pub mod Cycle
use kaya_project.Base.{ℕ, zero, suc, ◌-◌, ◌==◌, if◌then◌else◌, pure, ◌>>=◌, ◌>>◌}
use kaya_project.Machine.{Ptr, null, max_proc, Info, Command}
use kaya_project.Pcb.Table.{
  Pcbs, get_info, get_free, set_next, set_prev, set_prnt, set_child, set_sib, set_prevsib, set_info,
  set_free,
}
use kaya_project.Pcb.Queue.{empty_proc_q, insert_proc_q, remove_proc_q}

-- The fields that are no links, nulled; `p_s` keeps its value.
abbrev pub clean_info : Info → Info
clean_info i = record i {
  old_sys = null;
  new_sys = null;
  old_pgm = null;
  new_pgm = null;
  old_tlb = null;
  new_tlb = null;
  time = 0;
  sem_add = null;
}

unfoldable pub clean_pcb : Ptr → Command Pcbs (Unit {0})
unfolding get_info set_next set_prev set_prnt set_child set_sib set_prevsib set_info
clean_pcb p = do
  set_next p null
  set_prev p null
  set_child p null
  set_sib p null
  set_prevsib p null
  set_prnt p null
  i ← get_info p
  set_info p (clean_info i)

unfoldable pub free_pcb : Ptr → Command Pcbs (Unit {0})
unfolding get_free set_free
free_pcb p = do clean_pcb p; tp ← get_free; tp' ← insert_proc_q tp p; set_free tp'

unfoldable pub alloc_pcb : Command Pcbs Ptr
unfolding empty_proc_q get_free set_free
alloc_pcb = do
  tp ← get_free
  if empty_proc_q tp
      then pure null
      else do (p, tp') ← remove_proc_q tp; set_free tp'; clean_pcb p; pure p

-- The loop of `initPcbs` with `n` rounds left, at the cell `max_proc - n`.
unfoldable pub free_cells : ℕ → Command Pcbs (Unit {0})
free_cells zero = pure tt
free_cells (suc n) = do free_pcb (max_proc - suc n); free_cells n

unfoldable pub init_pcbs : Command Pcbs (Unit {0})
unfolding set_free
init_pcbs = do set_free null; free_cells max_proc
