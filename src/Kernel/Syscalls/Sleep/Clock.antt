-- ===== src/Kernel/Syscalls/Sleep/Clock.antt =====
-- SYS 7 of phase2/exceptions.c when it blocks.
use mathlib.Core.Path.{subst}
use kaya_project.Base.{suc, ◌<◌, ◌≡◌, refl, ap, ◌∙◌, true, List, ok, ==-refl, Bool, and_then}
use kaya_project.Base.Monad
use kaya_project.Base.Monad.{Run, ◌>>◌, ◌>>=◌}
use kaya_project.Base.Words.{inc32, dec32, add32, sub32, is_negative}
use kaya_project.Machine.{Ptr, Addr, null, max_int, Exit}
use kaya_project.Asl.Blocked.{insert_blocked}
use kaya_project.Asl.Table.{Asl}
use kaya_project.Asl.Map.{Waiting, enqueue}
use kaya_project.Kernel.State.{Kernel}
use kaya_project.Kernel.Access.{
  on_asl, modify, stck, set_current, dev_sem, clock_index, charge_time,
}
use kaya_project.Kernel.Scheduler.{scheduler}
use kaya_project.Kernel.Scheduler.Outcomes.{scheduler-last}
use kaya_project.Kernel.Syscalls.{resume, wait_for_clock}
use kaya_project.Kernel.Invariant.{IsRunning}
use kaya_project.Kernel.Invariant.Steps.{insert_blocked-Blocks}
use kaya_project.Kernel.Invariant.Fields.{with_info, info_of, charge_time-ok, state_copy_pcb-ok}
use kaya_project.Kernel.Syscalls.Sleep.{
  clock_now, Held, Sleeps, took, saved_info, Held-taken, Held-write, Held-blocked, Held-left,
  Held-charge, Held-soft,
}

module _ {k : Kernel} {ready pool : List Ptr} {w : Waiting} (v : IsRunning k ready w pool) where
  abbrev me : Ptr
  me = k.current_process

  abbrev clock : Addr
  clock = dev_sem k.layout clock_index

  abbrev waiting : Kernel
  waiting = with_info (took k clock) me (saved_info k (info_of k me))

  -- The rest of the handler behind `insertBlocked`.
  abbrev left : Run Exit Kernel Bool → Run Exit Kernel (Unit {0})
  left r =
      and_then
        (and_then r λ failed.
          modify (λ g. record g { soft_block_count = inc32 g.soft_block_count })
          >> (stck >>= λ t. charge_time me t >> (set_current null >> scheduler)))
        λ _. resume

  wait_for_clock-waiting :
      is_negative (dec32 (k.ints clock)) ≡ true
      → wait_for_clock k ≡ left (on_asl (insert_blocked clock me) waiting)
  unfolding wait_for_clock is_negative
  wait_for_clock-waiting low =
      rw (==-refl clock, low) (rw (state_copy_pcb-ok (took k clock) me v.current.cell) refl)

  waiting-Held :
      Held k ready w pool clock k.soft_block_count
        (saved_info k (info_of k me)).p_s
        (info_of k me).time
        waiting
  waiting-Held = Held-write v (saved_info k (info_of k me)) refl (Held-taken v clock k.reads)

  -- The kernel behind `insertBlocked`, with one process more that waits for a device, and with its
  -- time charged to the caller.
  abbrev counted : Asl → Kernel
  counted a = record waiting {
    asl = a;
    soft_block_count = inc32 k.soft_block_count;
    reads = suc k.reads;
  }

  abbrev billed : Kernel → Kernel
  billed g =
      with_info g me
        (record (info_of g me) { time = add32 (info_of g me).time (sub32 (clock_now k) k.time) })

  left-billed :
      (r : Bool) (a : Asl)
      → left (ok r (record waiting { asl = a }))
        ≡ and_then
            (scheduler (record (billed (counted a)) { current_process = null }))
            (λ _. resume)
  unfolding stck
  left-billed r a = rw (charge_time-ok (counted a) me v.current.cell) refl

  -- SYS 7 when the clock's semaphore, at an address between 0 and MAXINT, gets negative: the caller waits for the clock, one process more
  -- waits for a device, and the scheduler is the rest.
  pub wait_for_clock-blocks :
      0 < dev_sem k.layout clock_index
      → dev_sem k.layout clock_index < max_int
      → is_negative (dec32 (k.ints (dev_sem k.layout clock_index))) ≡ true
      → (g : Kernel) × (wait_for_clock k ≡ scheduler g)
        × Sleeps k ready w pool (dev_sem k.layout clock_index) (inc32 k.soft_block_count) g
  wait_for_clock-blocks pos top low =
      let (r, h, e, b) =
        Monad.returned (insert_blocked-Blocks waiting-Held.kernel clock me pos top v.current) in
      let asleep = Held-charge v (sub32 (clock_now k) k.time) (
        Held-soft v (suc k.reads) (
          subst
            (λ g.
              Held k ready (enqueue w clock me) pool clock k.soft_block_count
                (saved_info k (info_of k me)).p_s (info_of k me).time g)
            b.rest (Held-blocked v waiting-Held b))) in
      (
        record (billed (counted h.asl)) { current_process = null },
        wait_for_clock-waiting low
            ∙ ap left (e ∙ ap (ok r) b.rest)
            ∙ left-billed r h.asl
            ∙ scheduler-last _ ready (λ _. resume) asleep.kernel.queue,
        Held-left v asleep,
      )
