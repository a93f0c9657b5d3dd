-- ===== src/Tests/Calls.antt =====
-- The theorems on the system call handler, at small kernels.
use kaya_project.Base.{ℕ, ◌≡◌, refl, ◌==◌, if◌then◌else◌, [], arith, stop}
use kaya_project.Base.Words.{inc32, dec32, is_negative, check_bit}
use kaya_project.Machine.{Word, ldst, panic, wait}
use kaya_project.Kernel.State.{Kernel}
use kaya_project.Kernel.Access.{a0, a1, dev_sem}
use kaya_project.Kernel.Exceptions.{sys_call_handler}
use kaya_project.Kernel.Exceptions.Pass.{stepped}
use kaya_project.Kernel.Exceptions.Privileged.{Trapped, sys_call_handler-Trapped}
use kaya_project.Kernel.Exceptions.Calls.{
  Suspended, sys_call_handler-deadlocks, sys_call_handler-idles,
}
use kaya_project.Kernel.Invariant.{IsRunning}
use kaya_project.Kernel.Invariant.Fields.{IsKernel-same}
use kaya_project.Kernel.Syscalls.Sleep.{Sleeps}
use kaya_project.Tests.Blank.{blank, blank_state, blank_info, blank_pcbs, with_pcbs}
use kaya_project.Tests.Crowd.{clock, waiting, crowd, crowd-IsRunning}

-- The call `n` with the clock's semaphore.
abbrev call : Word → ℕ → Word
call n i = if i == a0 then n else if i == a1 then clock else 0

-- No process waits for a device.
abbrev last : Kernel
last = record (crowd (call 4)) { soft_block_count = 0 }

last-IsRunning : IsRunning last [] waiting []
last-IsRunning = record {
  kernel = IsKernel-same refl refl (crowd-IsRunning (call 4)).kernel;
  current = (crowd-IsRunning (call 4)).current;
}

sys_call_handler-deadlocks_example :
    (g : Kernel) × (sys_call_handler last ≡ stop panic g)
    × Sleeps (stepped last) [] waiting [] clock 0 g
    × Suspended last-IsRunning g
unfolding is_negative dec32 check_bit
sys_call_handler-deadlocks_example =
    sys_call_handler-deadlocks last-IsRunning refl refl (omega arith) (omega arith) refl
      (omega arith) refl

sys_call_handler-idles_example :
    (g : Kernel) × (sys_call_handler (crowd (call 7)) ≡ stop wait g)
    × Sleeps (stepped (crowd (call 7))) [] waiting [] clock 8 g
    × Suspended (crowd-IsRunning (call 7)) g
    × (g.wait_flag ≡ 1)
unfolding is_negative dec32 inc32 check_bit dev_sem
sys_call_handler-idles_example =
    sys_call_handler-idles (crowd-IsRunning (call 7)) refl refl (omega arith) (omega arith) refl
      (omega arith) refl

-- Process 0 makes a system call in user mode and has a handler for program traps.
abbrev intruder : Kernel
intruder =
    record (with_pcbs
      (record blank_pcbs { info = λ _. record blank_info { old_pgm = 0x1000; new_pgm = 0x2000 } })
      blank) {
        current_process = 0;
        states = λ _. record blank_state { status = 8; cause = 0x20; reg = call 3 };
      }

sys_call_handler-Trapped_example :
    (g : Kernel) × (sys_call_handler intruder ≡ stop (ldst (g.states 0x2000)) g)
    × Trapped intruder (omega arith) g
unfolding check_bit
sys_call_handler-Trapped_example =
    sys_call_handler-Trapped intruder (omega arith) (omega arith) (omega arith) refl (omega arith)
      refl refl
