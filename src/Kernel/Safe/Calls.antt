-- ===== src/Kernel/Safe/Calls.antt =====
-- The system calls of phase2/exceptions.c are safe.
use kaya_project.Base.{
  ◌&&◌, if◌then◌else◌, ◌<◌, ◌≡◌, refl, false, true, inl, inr, List, [], ◌∷◌, ◌==◌, ==-refl,
  Bool-cases, stop, update,
}
use kaya_project.Base.Words.{inc32, dec32, is_negative, is_nonpositive}
use kaya_project.Asl.Map.{Waiting}
use kaya_project.Machine.{null, Ptr, Addr, max_int, ldst}
use kaya_project.Kernel.State.{Kernel}
use kaya_project.Kernel.Access.{sys_call_old, a1, a2, a3, dev_sem, clock_index, stck}
use kaya_project.Kernel.Scheduler.{scheduler}
use kaya_project.Kernel.Syscalls.{
  create_process, verhogen, passeren, wait_for_clock, wait_for_io_device, get_sem_array_num,
  get_cpu_time, set_result, resume,
}
use kaya_project.Kernel.Syscalls.Spawn.{create_process-Created}
use kaya_project.Kernel.Syscalls.Create.{
  create_process-full, verhogen-positive, passeren-nonnegative,
}
use kaya_project.Kernel.Syscalls.Sleep.{Sleeps}
use kaya_project.Kernel.Syscalls.Sleep.Passeren.{passeren-blocks}
use kaya_project.Kernel.Syscalls.Sleep.Clock.{wait_for_clock-blocks}
use kaya_project.Kernel.Syscalls.Sleep.Device.{
  wait_for_io_device-blocks, wait_for_io_device-nonnegative,
}
use kaya_project.Kernel.Syscalls.Wake.{verhogen-wakes, verhogen-nobody}
use kaya_project.Kernel.Invariant.{IsApart, IsRunning}
use kaya_project.Kernel.Invariant.Fields.{IsKernel-with_info, charge_time-ok, get_pcb-ok}
use kaya_project.Kernel.Safe.{
  IsSound, Safe, comes_back, leaves, running-IsSound, IsSound-same, scheduler-Safe, Woken-IsSound,
}

created-Safe :
    {k : Kernel} {ready : List Ptr} {w : Waiting} (pool : List Ptr)
    → IsRunning k ready w pool
    → ((k.wait_flag == 1) ≡ true → k.current_process ≡ null)
    → Safe (create_process k)
created-Safe {k} [] v idle =
    rw (create_process-full k v.kernel.free)
      (comes_back (IsSound-same refl refl refl refl (running-IsSound v idle)))
created-Safe (x ∷ pool) v idle =
    let (g, run, o) = create_process-Created x v in
    rw run (
      leaves (
        running-IsSound (record { kernel = o.kernel; current = o.current })
          (rw (o.flag, o.same) idle)))

module _ {k : Kernel} (s : IsSound k) (c : IsApart s.ready s.waiting s.pool k.current_process) where
  v : IsRunning k s.ready s.waiting s.pool
  v = record { kernel = s.kernel; current = c }

  abbrev mutex : Addr
  mutex = (k.states sys_call_old).reg a1

  -- A caller that has gone to sleep leaves a safe scheduler behind.
  asleep :
      {g : Kernel} {sem : Addr} {soft : _}
      → Sleeps k s.ready s.waiting s.pool sem soft g
      → Safe (scheduler g)
  asleep o = scheduler-Safe s.ready o.held.kernel o.nobody

  -- SYS 4 on an address between the sentinels of the list.
  pub passeren-Safe : 0 < mutex → mutex < max_int → Safe (passeren k)
  passeren-Safe pos top = elim (Bool-cases (is_negative (dec32 (k.ints mutex)))) [
    | inl e ↦ let (g, run, o) = passeren-blocks v pos top e in rw run (asleep o)
    | inr e ↦ rw (passeren-nonnegative k e) (leaves (IsSound-same refl refl refl refl s))
  ]

  wait_for_clock-nonnegative :
      is_negative (dec32 (k.ints (dev_sem k.layout clock_index))) ≡ false
      → wait_for_clock k
        ≡ stop (ldst (k.states sys_call_old)) (record k {
          ints =
              update k.ints
                (dev_sem k.layout clock_index)
                (dec32 (k.ints (dev_sem k.layout clock_index)));
        })
  unfolding wait_for_clock is_negative
  wait_for_clock-nonnegative e = rw (==-refl (dev_sem k.layout clock_index), e) refl

  -- SYS 7.
  pub wait_for_clock-Safe :
      0 < dev_sem k.layout clock_index
      → dev_sem k.layout clock_index < max_int
      → Safe (wait_for_clock k)
  wait_for_clock-Safe pos top =
      elim (Bool-cases (is_negative (dec32 (k.ints (dev_sem k.layout clock_index))))) [
        | inl e ↦ let (g, run, o) = wait_for_clock-blocks v pos top e in rw run (asleep o)
        | inr e ↦ rw (wait_for_clock-nonnegative e) (leaves (IsSound-same refl refl refl refl s))
      ]

  -- SYS 3 on an address between the sentinels of the list.
  pub verhogen-Safe : 0 < mutex → mutex < max_int → Safe (verhogen k)
  verhogen-Safe pos top = elim (Bool-cases (is_nonpositive (inc32 (k.ints mutex)))) [
    | inl low ↦ waiters (s.waiting mutex) low refl
    | inr e ↦ rw (verhogen-positive k e) (leaves (IsSound-same refl refl refl refl s))
  ]
    where
      waiters :
          (xs : List Ptr)
          → is_nonpositive (inc32 (k.ints mutex)) ≡ true
          → s.waiting mutex ≡ xs
          → Safe (verhogen k)
      waiters [] low wait =
          rw (verhogen-nobody s.kernel pos top low wait)
            (leaves (IsSound-same refl refl refl refl s))
      waiters (x ∷ xs) low wait =
          let (g, run, o) = verhogen-wakes s.kernel x xs pos top low wait in
          rw run (leaves (Woken-IsSound s wait o))

  -- SYS 6.
  pub get_cpu_time-Safe : Safe (get_cpu_time k)
  unfolding get_cpu_time set_result resume stck
  get_cpu_time-Safe = rw (charge_time-ok _ k.current_process c.cell) (
      rw (get_pcb-ok _ k.current_process c.cell) (
        leaves (
          IsSound-same refl refl refl refl (
            running-IsSound
              (record {
                kernel = IsKernel-with_info k.current_process _ refl s.kernel;
                current = c;
              })
              s.idle))))

  -- The semaphore of the device that the arguments name.
  abbrev device : Addr
  device =
      let r = (k.states sys_call_old).reg in
      dev_sem k.layout (get_sem_array_num (r a1) (r a2) (if r a1 == 7 && r a3 == 1 then 8 else 0))

  -- SYS 8, for a device whose semaphore is between the sentinels of the list.
  pub wait_for_io_device-Safe : 0 < device → device < max_int → Safe (wait_for_io_device k)
  wait_for_io_device-Safe pos top = elim (Bool-cases (is_negative (dec32 (k.ints device)))) [
    | inl e ↦ let (g, run, o) = wait_for_io_device-blocks v pos top e in rw run (asleep o)
    | inr e ↦ rw (wait_for_io_device-nonnegative v e) (
        comes_back (
          IsSound-same refl refl refl refl (
            running-IsSound
              (record {
                kernel = IsKernel-with_info k.current_process _ refl s.kernel;
                current = c;
              })
              s.idle)))
  ]

  -- SYS 1, whether a block is free or not.
  pub create_process-Safe : Safe (create_process k)
  create_process-Safe = created-Safe s.pool v s.idle
