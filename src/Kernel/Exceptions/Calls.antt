-- ===== src/Kernel/Exceptions/Calls.antt =====
-- The system call handler of phase2/exceptions.c in kernel mode, down to what its call ends in.
use mathlib.Core.Path.{subst}
use kaya_project.Base.{
  ℕ, ◌<◌, ◌≡◌, refl, ap, ◌∙◌, true, false, List, [], ◌∷◌, arith, ◌==◌, ltb, stop,
}
use kaya_project.Base.Words.{add32, inc32, dec32, is_nonpositive, is_negative, check_bit}
use kaya_project.Machine.{Ptr, Word, Addr, State, max_int, panic, wait}
use kaya_project.Asl.Map.{Waiting}
use kaya_project.Kernel.State.{Kernel, set_status}
use kaya_project.Kernel.Access.{a0, a1, sys_call_old, dev_sem, clock_index}
use kaya_project.Kernel.Access.Copy.{copy_state-IsCopy}
use kaya_project.Kernel.Scheduler.Outcomes.{scheduler-nil}
use kaya_project.Kernel.Syscalls.Sleep.{Sleeps}
use kaya_project.Kernel.Syscalls.Sleep.Passeren.{passeren-blocks}
use kaya_project.Kernel.Syscalls.Sleep.Clock.{wait_for_clock-blocks}
use kaya_project.Kernel.Exceptions.{serve, sys_call_handler}
use kaya_project.Kernel.Exceptions.Pass.{stepped, sys_call_handler-routes, is_kernel_call}
use kaya_project.Kernel.Invariant.{IsRunning}
use kaya_project.Kernel.Invariant.Fields.{info_of, IsKernel-same}

module _ {k : Kernel} {ready pool : List Ptr} {w : Waiting} (v : IsRunning k ready w pool) where
  abbrev saved : State
  saved = k.states sys_call_old

  stepped-IsRunning : IsRunning (stepped k) ready w pool
  stepped-IsRunning = record { kernel = IsKernel-same refl refl v.kernel; current = v.current }

  -- The saved state behind the advance.
  abbrev beyond : State
  beyond = record saved { pc = add32 saved.pc 4 }

  at_call : (stepped k).states sys_call_old ≡ beyond
  at_call = refl

  handler-serve :
      (n : ℕ)
      → is_kernel_call n ≡ true
      → saved.reg a0 ≡ n
      → check_bit saved.status 3 ≡ false
      → sys_call_handler k ≡ serve n (stepped k)
  handler-serve n few e kernel = sys_call_handler-routes k ∙ rw (e, few, kernel) refl

  -- What the caller will go on with: its saved state, behind the call.
  pub record Suspended (g : Kernel) : Type 0 where
    pub pc : (info_of g k.current_process).p_s.pc ≡ add32 saved.pc 4
    pub status : (info_of g k.current_process).p_s.status ≡ saved.status
    pub registers : (i : ℕ) → i < 31 → (info_of g k.current_process).p_s.reg i ≡ saved.reg i

  suspended :
      {sem : Addr} {soft : Word} {g : Kernel}
      → Sleeps (stepped k) ready w pool sem soft g
      → Suspended g
  suspended o =
      let c = copy_state-IsCopy beyond (info_of k k.current_process).p_s in
      let e = o.held.saved in
      record {
        pc = ap (λ (s : State). s.pc) e ∙ c.pc;
        status = ap (λ (s : State). s.status) e ∙ c.status;
        registers = λ i few. ap (λ (s : State). s.reg i) e ∙ c.registers i ∙ rw (below i few) refl;
      }
    where
      below : (i : ℕ) → i < 31 → ltb i 31 ≡ true
      below i few = ground arith

positive : (n : ℕ) → 0 < n → (n == 0) ≡ false
positive n h = ground arith

-- The machine waits.
abbrev waiting : Kernel → Kernel
waiting g = record g { wait_flag = 1; calls = set_status 0xff01 ∷ g.calls }

Sleeps-waiting :
    {k g : Kernel} {ready pool : List Ptr} {w : Waiting} {sem : Addr} {soft : Word}
    → Sleeps k ready w pool sem soft g
    → Sleeps k ready w pool sem soft (waiting g)
Sleeps-waiting o = record {
  held = record {
    kernel = IsKernel-same refl refl o.held.kernel;
    saved = o.held.saved;
    charged = o.held.charged;
    others = o.held.others;
    taken = o.held.taken;
    processes = o.held.processes;
    devices = o.held.devices;
  };
  nobody = o.nobody;
}

-- Nobody is ready.
module _ {k : Kernel} {pool : List Ptr} {w : Waiting} (v : IsRunning k [] w pool) where
  abbrev call : State
  call = k.states sys_call_old

  -- In kernel mode SYS 4 of the last process that could run, on a semaphore at the address in a1,
  -- between 0 and MAXINT, that gets negative, while the count of those that wait for devices is 0 and
  -- that of the processes is not: the machine
  -- panics, with the caller in the queue of the semaphore, its state saved with the program counter
  -- behind the call, and no current process.
  pub sys_call_handler-deadlocks :
      call.reg a0 ≡ 4
      → check_bit call.status 3 ≡ false
      → 0 < call.reg a1
      → call.reg a1 < max_int
      → is_negative (dec32 (k.ints (call.reg a1))) ≡ true
      → 0 < k.process_count
      → k.soft_block_count ≡ 0
      → (g : Kernel) × (sys_call_handler k ≡ stop panic g)
        × Sleeps (stepped k) [] w pool (call.reg a1) 0 g
        × Suspended v g
  unfolding serve is_nonpositive is_negative
  sys_call_handler-deadlocks four kernel pos top low some_left none =
      let (g, run, o) = passeren-blocks (stepped-IsRunning v) pos top low in
      let asleep : Sleeps (stepped k) [] w pool (call.reg a1) 0 g =
        subst (λ n. Sleeps (stepped k) [] w pool (call.reg a1) n g) none o in
      (
        g,
        handler-serve v 4 refl four kernel
            ∙ run
            ∙ scheduler-nil g asleep.held.kernel.queue
            ∙ rw (asleep.held.processes, positive _ some_left, asleep.held.devices) refl,
        asleep,
        suspended v asleep,
      )

  -- In kernel mode SYS 7 of the last process that could run, with the semaphore of the pseudo clock
  -- between 0 and MAXINT and negative then, while there are processes and the count of those that wait
  -- for devices does not wrap around: the machine waits with the flag set and
  -- interrupts on; the caller is in the queue of the clock, its state saved with the program counter
  -- behind the call, and one process more waits for a device.
  pub sys_call_handler-idles :
      call.reg a0 ≡ 7
      → check_bit call.status 3 ≡ false
      → 0 < dev_sem k.layout clock_index
      → dev_sem k.layout clock_index < max_int
      → is_negative (dec32 (k.ints (dev_sem k.layout clock_index))) ≡ true
      → 0 < k.process_count
      → (inc32 k.soft_block_count == 0) ≡ false
      → (g : Kernel) × (sys_call_handler k ≡ stop wait g)
        × Sleeps (stepped k) [] w pool (dev_sem k.layout clock_index) (inc32 k.soft_block_count) g
        × Suspended v g
        × (g.wait_flag ≡ 1)
  unfolding serve is_nonpositive is_negative
  sys_call_handler-idles seven kernel pos top low some_left more =
      let (g, run, o) = wait_for_clock-blocks (stepped-IsRunning v) pos top low in
      let asleep = Sleeps-waiting o in
      (
        waiting g,
        handler-serve v 7 refl seven kernel
            ∙ run
            ∙ scheduler-nil g o.held.kernel.queue
            ∙ rw (o.held.processes, positive _ some_left, o.held.devices, more) refl,
        asleep,
        suspended v asleep,
        refl,
      )
