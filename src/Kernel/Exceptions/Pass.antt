-- ===== src/Kernel/Exceptions/Pass.antt =====
-- `passUpOrDie` of phase2/exceptions.c passes an exception to the handler that the process has
-- specified; and the dispatch of the system calls.
use kaya_project.Base.{
  ℕ, ◌<◌, ◌≡◌, Bool, true, false, not, arith, ◌==◌, if◌then◌else◌, stop, update, ltb, ◌&&◌,
}
use kaya_project.Base.Words.{add32, is_nonpositive, check_bit}
use kaya_project.Machine.{Word, Addr, null, Info, IsCell, ldst}
use kaya_project.Pcb.Queue.Links.{cell_not_null}
use kaya_project.Kernel.State.{Kernel}
use kaya_project.Kernel.Access.{
  a0, sys_call_old, pgm_trap_old, tlb_mgmt_old, copy_state, state_copy,
}
use kaya_project.Kernel.Terminate.{terminate_process}
use kaya_project.Kernel.Exceptions.{
  pass_up, pass_up_or_die, pgm_trap_handler, reserved_cause, serve, syscall_dispatch,
  sys_call_handler,
}

-- Where the exception of each type saves the state.
abbrev pub old_area : ℕ → Addr
old_area t = if t == 0 then tlb_mgmt_old else if t == 1 then pgm_trap_old else sys_call_old

-- The areas that SYS 5 has stored for an exception type.
abbrev pub old_vector : ℕ → Info → Addr
old_vector t i = if t == 0 then i.old_tlb else if t == 1 then i.old_pgm else i.old_sys

abbrev pub new_vector : ℕ → Info → Addr
new_vector t i = if t == 0 then i.new_tlb else if t == 1 then i.new_pgm else i.new_sys

module _ (k : Kernel) (t : ℕ) (le : t < 3) (c : IsCell k.current_process) where
  abbrev vectors : Info
  vectors = k.asl.pcbs.info k.current_process

  -- The kernel after the saved state was copied into the process's own old area.
  abbrev pub passed : Kernel
  passed = record k {
    states =
        update k.states (old_vector t vectors)
          (copy_state (k.states (old_area t)) (k.states (old_vector t vectors)));
  }

  -- With a handler specified for the type, its old area gets the saved state and its new state is
  -- loaded.
  pub pass_up_or_die-passes :
      (old_vector t vectors == null) ≡ false
      → pass_up_or_die t k ≡ stop (ldst (passed.states (new_vector t vectors))) passed
  unfolding pass_up_or_die pass_up state_copy
  pass_up_or_die-passes some_handler = ground (arith, cell_not_null k.current_process c)

  -- With none the process is terminated.
  pub pass_up_or_die-dies :
      (old_vector t vectors == null) ≡ true → pass_up_or_die t k ≡ terminate_process k
  unfolding pass_up_or_die pass_up
  pass_up_or_die-dies no_handler = ground (arith, cell_not_null k.current_process c)

-- The kernel after the copy and the new cause of a privileged call in user mode.
abbrev pub privileged : Kernel → Kernel
privileged k = record k {
  states =
      update
        (update k.states pgm_trap_old (copy_state (k.states sys_call_old) (k.states pgm_trap_old)))
        pgm_trap_old
        (record (copy_state (k.states sys_call_old) (k.states pgm_trap_old)) {
          cause = reserved_cause (copy_state (k.states sys_call_old) (k.states pgm_trap_old)).cause;
        });
}

-- The caller's program counter moved behind the system call.
abbrev pub stepped : Kernel → Kernel
stepped k = record k {
  states =
      update k.states sys_call_old
        (record (k.states sys_call_old) { pc = add32 (k.states sys_call_old).pc 4 });
}

abbrev pub is_kernel_call : Word → Bool
is_kernel_call n = not (is_nonpositive n) && ltb n 9

-- The system call handler serves the calls 1 to 8 in kernel mode, behind the advanced program
-- counter; in user mode they become a program trap with the cause of a reserved instruction; all
-- others are passed up as system calls.
pub sys_call_handler-routes :
    (k : Kernel)
    → let s = k.states sys_call_old in
      sys_call_handler k ≡ (
        if is_kernel_call (s.reg a0)
        then if check_bit s.status 3
          then pgm_trap_handler (privileged k)
          else serve (s.reg a0) (stepped k)
        else pass_up_or_die 2 k)
unfolding sys_call_handler syscall_dispatch state_copy
sys_call_handler-routes k = ground arith
