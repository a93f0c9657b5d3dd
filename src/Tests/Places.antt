-- ===== src/Tests/Places.antt =====
-- The theorems on the map of the waiting processes and on the kernel's invariant, at small kernels.
use kaya_project.Base.{
  ok, ℕ, ◌≡◌, refl, true, has, fault, ◌==◌, if◌then◌else◌, [], ◌∷◌, arith, stop, update, Returns,
  Stops,
}
use kaya_project.Base.Words.{inc32, dec32, is_negative, is_nonpositive}
use kaya_project.Machine.{Ptr, Word, null, ldst}
use kaya_project.Asl.Blocked.{insert_blocked, out_blocked, remove_blocked}
use kaya_project.Asl.Map.Insert.{Inserted, insert_blocked-IsAsl}
use kaya_project.Asl.Map.Leave.{Left, out_blocked-Left}
use kaya_project.Asl.Map.Remove.{Taken, remove_blocked-IsAsl}
use kaya_project.Kernel.State.{Kernel}
use kaya_project.Kernel.Access.{a1, a2, v0, set_reg, dev_sem, sys_call_old}
use kaya_project.Kernel.Scheduler.{scheduler}
use kaya_project.Kernel.Syscalls.Spawn.{Created, create_process-Adopts}
use kaya_project.Kernel.Syscalls.{
  create_process, passeren, wait_for_clock, wait_for_io_device, get_sem_array_num,
}
use kaya_project.Kernel.Syscalls.Sleep.{Sleeps}
use kaya_project.Kernel.Syscalls.Sleep.Passeren.{passeren-blocks}
use kaya_project.Kernel.Syscalls.Sleep.Clock.{wait_for_clock-blocks}
use kaya_project.Kernel.Syscalls.Sleep.Device.{wait_for_io_device-blocks}
use kaya_project.Kernel.Interrupts.{wake_for_device, clock_interrupt}
use kaya_project.Kernel.Interrupts.Wake.{after_wake, wake_for_device-wakes}
use kaya_project.Kernel.Interrupts.Wake.All.{AllWoken}
use kaya_project.Kernel.Interrupts.Wake.Tick.{after_tick, clock_interrupt-AllWoken}
use kaya_project.Kernel.Invariant.Wake.{Woken}
use kaya_project.Kernel.Interrupts.Early.{early, Forgotten, wait_for_io_device-Forgotten}
use kaya_project.Kernel.Invariant.{IsRunning}
use kaya_project.Kernel.Invariant.Fields.{IsKernel-same}
use kaya_project.Kernel.Terminate.{kill}
use kaya_project.Kernel.Terminate.Strand.{kill-strands}
use kaya_project.Pcb.Tree.Family.{IsFamily}
use kaya_project.Kernel.Initial.{main}
use kaya_project.Kernel.Initial.Boot.{Booted, main-Booted}
use kaya_project.Tests.Blank.{blank, blank_info}
use kaya_project.Tests.Crowd.{
  spare, spare-IsRunning, clock, waiting, crowd_asl, crowd-IsAsl, crowd, crowd-IsRunning,
}

insert_blocked-IsAsl_example :
    Returns (Inserted clock 3 crowd-IsAsl) (insert_blocked clock 3 crowd_asl)
insert_blocked-IsAsl_example =
    insert_blocked-IsAsl clock 3 crowd-IsAsl (omega arith) (omega arith) (omega arith)
      (λ s. ground arith)

remove_blocked-IsAsl_example :
    Returns
      (Taken clock crowd-IsAsl (omega arith) (omega arith) 0 (1 ∷ 2 ∷ []))
      (remove_blocked clock crowd_asl)
remove_blocked-IsAsl_example =
    remove_blocked-IsAsl clock crowd-IsAsl (omega arith) (omega arith) 0 (1 ∷ 2 ∷ []) refl

out_blocked-Left_example :
    Returns (Left clock crowd-IsAsl 2 0 (1 ∷ 2 ∷ []) refl) (out_blocked 2 crowd_asl)
out_blocked-Left_example =
    out_blocked-Left clock crowd-IsAsl (omega arith) (omega arith) 2 0 (1 ∷ 2 ∷ []) refl refl refl

-- A call with the address of the clock's semaphore in a1.
abbrev on_clock : ℕ → Word
on_clock i = if i == a1 then clock else 0

passeren-blocks_example :
    (g : Kernel) × (passeren (crowd on_clock) ≡ scheduler g)
    × Sleeps (crowd on_clock) [] waiting [] clock 7 g
unfolding is_negative dec32
passeren-blocks_example =
    passeren-blocks (crowd-IsRunning on_clock) (omega arith) (omega arith) refl

wait_for_clock-blocks_example :
    (g : Kernel) × (wait_for_clock (crowd on_clock) ≡ scheduler g)
    × Sleeps (crowd on_clock) [] waiting [] clock 8 g
unfolding is_negative dec32 inc32 dev_sem
wait_for_clock-blocks_example =
    wait_for_clock-blocks (crowd-IsRunning on_clock) (omega arith) (omega arith) refl

-- A read from terminal 2.
abbrev on_terminal : ℕ → Word
on_terminal i = if i == a1 then 7 else if i == a2 then 2 else 1

wait_for_io_device-blocks_example :
    (g : Kernel) × (wait_for_io_device (crowd on_terminal) ≡ scheduler g)
    × Sleeps (crowd on_terminal) [] waiting [] 0x2000_80a8 8 g
unfolding is_negative dec32 inc32 dev_sem get_sem_array_num
wait_for_io_device-blocks_example =
    wait_for_io_device-blocks (crowd-IsRunning on_terminal) (omega arith) (omega arith) refl

wake_for_device-wakes_example :
    (g : Kernel) × (wake_for_device clock 1 (crowd on_clock) ≡ after_wake (crowd on_clock) g)
    × Woken
        (record (crowd on_clock) { ints = update (crowd on_clock).ints clock 0xffff_fffe })
        []
        waiting
        []
        clock
        0
        (record blank_info { sem_add = null; p_s = set_reg blank_info.p_s v0 1 })
        g
unfolding is_nonpositive inc32
wake_for_device-wakes_example =
    wake_for_device-wakes (crowd-IsRunning on_clock).kernel clock 1 0 (1 ∷ 2 ∷ []) (omega arith)
      (omega arith) refl refl

clock_interrupt-AllWoken_example :
    (g : Kernel) × (clock_interrupt (crowd on_clock) ≡ after_tick (crowd on_clock) g)
    × AllWoken
        (record (crowd on_clock) { bus = record (blank.bus) { interval_timer = 100000 } })
        []
        waiting
        []
        clock
        (0 ∷ 1 ∷ 2 ∷ [])
        g
unfolding is_nonpositive dev_sem
clock_interrupt-AllWoken_example =
    clock_interrupt-AllWoken (crowd-IsRunning on_clock).kernel (omega arith) (omega arith) refl

main-Booted_example : Stops (Booted blank) (main blank)
main-Booted_example = main-Booted blank

create_process-Adopts_example :
    (g : Kernel) × (create_process spare ≡ stop (ldst (set_reg (spare.states sys_call_old) v0 0)) g)
    × Created 5 spare-IsRunning g
    × IsFamily g.asl.pcbs 3 (5 ∷ [])
create_process-Adopts_example =
    create_process-Adopts 5 spare-IsRunning []
      (record {
        child = refl;
        chain = tt;
        prnt = λ a m. absurd (cc m);
        distinct = tt;
        cells = tt;
        cell = omega arith;
      })
      (λ a m. absurd (cc m))

kill-strands_example :
    Returns
      (λ _ f. (z : Ptr) → has z (0 ∷ 2 ∷ []) ≡ true → kill z f ≡ fault)
      (kill 1 (crowd on_clock))
kill-strands_example =
    kill-strands (crowd-IsRunning on_clock).kernel clock 0 1 (2 ∷ []) (omega arith) (omega arith)
      refl

-- Nobody waits for the terminal.
abbrev unasked : Kernel
unasked = record (crowd on_terminal) { ints = λ _. 0 }

unasked-IsRunning : IsRunning unasked [] waiting []
unasked-IsRunning = record {
  kernel = IsKernel-same refl refl (crowd-IsRunning on_terminal).kernel;
  current = (crowd-IsRunning on_terminal).current;
}

wait_for_io_device-Forgotten_example :
    (wake_for_device 0x2000_80a8 5 unasked ≡ ok tt (early unasked-IsRunning 5))
    × Returns (λ _. Forgotten unasked-IsRunning 5) (wait_for_io_device (early unasked-IsRunning 5))
unfolding get_sem_array_num dev_sem
wait_for_io_device-Forgotten_example =
    wait_for_io_device-Forgotten unasked-IsRunning 5 (omega arith)
