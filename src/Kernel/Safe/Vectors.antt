-- ===== src/Kernel/Safe/Vectors.antt =====
-- SYS 5 of phase2/exceptions.c is safe the first time that a process calls it for an exception type.
use kaya_project.Base.{ℕ, ◌≡◌, refl, true, Bool, inl, inr, ◌==◌, if◌then◌else◌, Bool-cases, ok}
use kaya_project.Machine.{Addr, Info, null}
use kaya_project.Kernel.State.{Kernel}
use kaya_project.Kernel.Access.{sys_call_old, a1}
use kaya_project.Kernel.Syscalls.{
  specify_tlb, specify_pgm, specify_sys, specify_exception_state_vector, resume,
}
use kaya_project.Kernel.Invariant.{IsApart}
use kaya_project.Kernel.Invariant.Fields.{
  with_info, info_of, IsKernel-with_info, get_pcb-ok, set_pcb-ok,
}
use kaya_project.Kernel.Safe.{IsSound, Safe, leaves, running-IsSound}

-- The process has no handler yet for the exception type `t`.
abbrev pub unset : ℕ → Info → Bool
unset t i =
    if t == 0
    then i.old_tlb == null
    else if t == 1
    then i.old_pgm == null
    else if t == 2
    then i.old_sys == null
    else true

module _ {k : Kernel} (s : IsSound k) (c : IsApart s.ready s.waiting s.pool k.current_process) where
  abbrev me : Info
  me = info_of k k.current_process

  written-IsSound : (i : Info) → i.sem_add ≡ me.sem_add → IsSound (with_info k k.current_process i)
  written-IsSound i e =
      running-IsSound
        (record { kernel = IsKernel-with_info k.current_process i e s.kernel; current = c }) s.idle

  specify_tlb-ok :
      (o n : Addr)
      → (me.old_tlb == null) ≡ true
      → specify_tlb o n k
        ≡ ok tt (with_info k k.current_process (record me { old_tlb = o; new_tlb = n }))
  unfolding specify_tlb
  specify_tlb-ok o n e =
      rw (get_pcb-ok k k.current_process c.cell) (rw e (set_pcb-ok k k.current_process c.cell _))

  specify_pgm-ok :
      (o n : Addr)
      → (me.old_pgm == null) ≡ true
      → specify_pgm o n k
        ≡ ok tt (with_info k k.current_process (record me { old_pgm = o; new_pgm = n }))
  unfolding specify_pgm
  specify_pgm-ok o n e =
      rw (get_pcb-ok k k.current_process c.cell) (rw e (set_pcb-ok k k.current_process c.cell _))

  specify_sys-ok :
      (o n : Addr)
      → (me.old_sys == null) ≡ true
      → specify_sys o n k
        ≡ ok tt (with_info k k.current_process (record me { old_sys = o; new_sys = n }))
  unfolding specify_sys
  specify_sys-ok o n e =
      rw (get_pcb-ok k k.current_process c.cell) (rw e (set_pcb-ok k k.current_process c.cell _))

  pub specify_exception_state_vector-Safe :
      unset ((k.states sys_call_old).reg a1) me ≡ true → Safe (specify_exception_state_vector k)
  unfolding specify_exception_state_vector resume
  specify_exception_state_vector-Safe u =
      let t = (k.states sys_call_old).reg a1 in
      elim (Bool-cases (t == 0)) [
        | inl e ↦ rw (e, specify_tlb-ok _ _ (rw e at u)) (leaves (written-IsSound _ refl))
        | inr e ↦ elim (Bool-cases (t == 1)) [
          | inl f ↦ rw (e, f, specify_pgm-ok _ _ (rw (e, f) at u)) (leaves (written-IsSound _ refl))
          | inr f ↦ elim (Bool-cases (t == 2)) [
            | inl h ↦
                rw (e, f, h, specify_sys-ok _ _ (rw (e, f, h) at u))
                  (leaves (written-IsSound _ refl))
            | inr h ↦ rw (e, f, h) (leaves s)
          ]
        ]
      ]
