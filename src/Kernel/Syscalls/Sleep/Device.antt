-- ===== src/Kernel/Syscalls/Sleep/Device.antt =====
-- SYS 8 of phase2/exceptions.c when it blocks.
use kaya_project.Base.{
  ok, false, update, ℕ, suc, ◌<◌, ◌≡◌, refl, ap, ◌∙◌, true, List, ◌==◌, ◌&&◌, if◌then◌else◌,
  ==-refl, Bool, and_then,
}
use kaya_project.Base.Monad
use kaya_project.Base.Monad.{Run, ◌>>◌, ◌>>=◌}
use kaya_project.Base.Words.{inc32, dec32, add32, sub32, is_negative}
use kaya_project.Machine.{Ptr, Addr, Word, Info, null, max_int, Exit}
use kaya_project.Asl.Blocked.{insert_blocked}
use kaya_project.Asl.Map.{Waiting}
use kaya_project.Kernel.State.{Kernel}
use kaya_project.Kernel.Access.{on_asl, set_current, dev_sem, a1, a2, a3, sys_call_old, a1}
use kaya_project.Kernel.Scheduler.{scheduler}
use kaya_project.Kernel.Syscalls.{get_sem_array_num, wait_for_io_device}
use kaya_project.Kernel.Invariant.{IsRunning}
use kaya_project.Kernel.Invariant.Steps.{insert_blocked-Blocks}
use kaya_project.Kernel.Invariant.Fields.{with_info, info_of, charge_time-ok, state_copy_pcb-ok}
use kaya_project.Kernel.Syscalls.Sleep.{
  clock_now, Held, Sleeps, took, saved_info, Held-taken, Held-write, Held-blocked, Held-left,
  Held-soft,
}

module _ {k : Kernel} {ready pool : List Ptr} {w : Waiting} (v : IsRunning k ready w pool) where
  abbrev me : Ptr
  me = k.current_process

  -- The registers of the caller.
  abbrev r : ℕ → Word
  r = (k.states sys_call_old).reg

  -- The semaphore of the device that the arguments name.
  abbrev device : Addr
  device =
      dev_sem k.layout (get_sem_array_num (r a1) (r a2) (if r a1 == 7 && r a3 == 1 then 8 else 0))

  abbrev saved : Info
  saved = saved_info k (info_of k me)

  abbrev saved_charged : Info
  saved_charged = record saved { time = add32 (info_of k me).time (sub32 (clock_now k) k.time) }

  -- The kernel before `insertBlocked`.
  abbrev parked : Kernel
  parked =
      let g =
        with_info (with_info (record (took k device) { reads = suc k.reads }) me saved) me
          saved_charged in
      record g { soft_block_count = inc32 k.soft_block_count; reads = suc k.reads }

  -- The rest of the handler behind it.
  abbrev left : Run Exit Kernel Bool → Run Exit Kernel (Unit {0})
  left r = and_then r (λ failed. set_current null >> scheduler)

  wait_for_io_device-parked :
      is_negative (dec32 (k.ints device)) ≡ true
      → wait_for_io_device k ≡ left (on_asl (insert_blocked device me) parked)
  unfolding wait_for_io_device is_negative
  wait_for_io_device-parked low =
      rw (state_copy_pcb-ok k me v.current.cell)
        (rw (==-refl device, low) (rw (charge_time-ok _ me v.current.cell) (rw (==-refl me) refl)))

  parked-Held :
      Held k ready w pool device (inc32 k.soft_block_count) saved.p_s saved_charged.time parked
  parked-Held = Held-soft v (suc k.reads) (
      Held-write v saved_charged (rw (==-refl me) refl)
        (Held-write v saved refl (Held-taken v device (suc k.reads))))

  -- SYS 8 when the device's semaphore, at an address between 0 and MAXINT, gets negative: the caller waits for it, one process more waits
  -- for a device, and the scheduler is the rest.
  pub wait_for_io_device-blocks :
      0 < device
      → device < max_int
      → is_negative (dec32 (k.ints device)) ≡ true
      → (g : Kernel) × (wait_for_io_device k ≡ scheduler g)
        × Sleeps k ready w pool device (inc32 k.soft_block_count) g
  wait_for_io_device-blocks pos top low =
      let (t, h, e, b) =
        Monad.returned (insert_blocked-Blocks parked-Held.kernel device me pos top v.current) in
      (
        record h { current_process = null },
        wait_for_io_device-parked low ∙ ap left e,
        Held-left v (Held-blocked v parked-Held b),
      )

  -- SYS 8 when the device's semaphore stays at 0 or above: the handler comes back.
  pub wait_for_io_device-nonnegative :
      is_negative (dec32 (k.ints device)) ≡ false
      → wait_for_io_device k
        ≡ ok tt
            (record (with_info k me saved) { ints = update k.ints device (dec32 (k.ints device)) })
  unfolding wait_for_io_device is_negative
  wait_for_io_device-nonnegative high =
      rw (state_copy_pcb-ok k me v.current.cell) (rw (==-refl device, high) refl)
