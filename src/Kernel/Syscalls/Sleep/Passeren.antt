-- ===== src/Kernel/Syscalls/Sleep/Passeren.antt =====
-- SYS 4 of phase2/exceptions.c when it blocks.
use kaya_project.Base.{suc, ◌<◌, ◌≡◌, refl, ap, ◌∙◌, true, List, ==-refl, Bool, and_then}
use kaya_project.Base.Monad
use kaya_project.Base.Monad.{Run, ◌>>◌}
use kaya_project.Base.Words.{dec32, is_negative}
use kaya_project.Machine.{Ptr, Addr, null, max_int, Exit}
use kaya_project.Asl.Blocked.{insert_blocked}
use kaya_project.Asl.Map.{Waiting}
use kaya_project.Kernel.State.{Kernel}
use kaya_project.Kernel.Access.{on_asl, set_current, sys_call_old, a1}
use kaya_project.Kernel.Scheduler.{scheduler}
use kaya_project.Kernel.Scheduler.Outcomes.{scheduler-last}
use kaya_project.Kernel.Syscalls.{resume, passeren}
use kaya_project.Kernel.Invariant.{IsRunning}
use kaya_project.Kernel.Invariant.Steps.{insert_blocked-Blocks}
use kaya_project.Kernel.Invariant.Fields.{with_info, charge_time-ok, state_copy_pcb-ok}
use kaya_project.Kernel.Syscalls.Sleep.{
  Held, Sleeps, took, charged_info, saved_info, Held-taken, Held-write, Held-blocked, Held-left,
}

module _ {k : Kernel} {ready pool : List Ptr} {w : Waiting} (v : IsRunning k ready w pool) where
  abbrev me : Ptr
  me = k.current_process

  module _ (pos : 0 < (k.states sys_call_old).reg a1)
      (top : (k.states sys_call_old).reg a1 < max_int) where
    abbrev mutex : Addr
    mutex = (k.states sys_call_old).reg a1

    abbrev parked : Kernel
    parked =
        with_info (with_info (record (took k mutex) { reads = suc k.reads }) me (charged_info k)) me
          (saved_info k (charged_info k))

    -- The caller has left the processor.
    abbrev left : Run Exit Kernel Bool → Run Exit Kernel (Unit {0})
    left r = and_then (and_then r (λ failed. set_current null >> scheduler)) (λ _. resume)

    passeren-parked :
        is_negative (dec32 (k.ints mutex)) ≡ true
        → passeren k ≡ left (on_asl (insert_blocked mutex me) parked)
    unfolding passeren is_negative
    passeren-parked low =
        rw (==-refl mutex, low)
          (rw (charge_time-ok _ me v.current.cell)
            (rw (state_copy_pcb-ok _ me v.current.cell) (rw (==-refl me) refl)))

    parked-Held :
        Held k ready w pool mutex k.soft_block_count
          (saved_info k (charged_info k)).p_s
          (charged_info k).time
          parked
    parked-Held =
        Held-write v (saved_info k (charged_info k)) (rw (==-refl me) refl)
          (Held-write v (charged_info k) refl (Held-taken v mutex (suc k.reads)))

    -- SYS 4 on a semaphore at an address between 0 and MAXINT that gets negative: the caller waits for
    -- it, and the scheduler is the rest.
    pub passeren-blocks :
        is_negative (dec32 (k.ints mutex)) ≡ true
        → (g : Kernel) × (passeren k ≡ scheduler g)
          × Sleeps k ready w pool mutex k.soft_block_count g
    passeren-blocks low =
        let (r, h, e, b) =
          Monad.returned (insert_blocked-Blocks parked-Held.kernel mutex me pos top v.current) in
        (
          record h { current_process = null },
          passeren-parked low ∙ ap left e ∙ scheduler-last _ ready (λ _. resume) b.kernel.queue,
          Held-left v (Held-blocked v parked-Held b),
        )
