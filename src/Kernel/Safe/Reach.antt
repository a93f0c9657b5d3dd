-- ===== src/Kernel/Safe/Reach.antt =====
-- The kernel as a transition system: `main` starts it, processes work between its handlers, and a
-- handler that runs leaves it by loading a state, or by waiting or stopping.
use mathlib.Core.Path.{subst}
use kaya_project.Base.{
  true, ◌<◌, ◌≡◌, refl, sym, ◌∙◌, false, inl, inr, List, [], ◌∷◌, length, ◌==◌, ◌&&◌, if◌then◌else◌,
  arith, ok, stop, Run, Stops, stops, ==-refl,
}
use kaya_project.Machine.{Ptr, Addr, Word, State, Command, Exit, max_int, null}
use kaya_project.Pcb.Queue.Fifo.{front}
use kaya_project.Asl.Table.{Asl}
use kaya_project.Asl.Blocked.{head_blocked}
use kaya_project.Asl.Map.Remove.{head_blocked-IsAsl}
use kaya_project.Kernel.State.{Kernel, Bus}
use kaya_project.Kernel.Access.{sys_call_old, a1, a2, a3, dev_sem, clock_index}
use kaya_project.Kernel.Syscalls.{
  specify_exception_state_vector, create_process, verhogen, passeren, wait_for_clock,
  wait_for_io_device, get_cpu_time, get_sem_array_num,
}
use kaya_project.Kernel.Interrupts.{quantum_interrupt, clock_interrupt, wake_for_device}
use kaya_project.Kernel.Initial.{main}
use kaya_project.Kernel.Initial.Boot.{Booted, main-Booted}
use kaya_project.Kernel.Invariant.{IsApart}
use kaya_project.Kernel.Invariant.Fields.{info_of}
use kaya_project.Kernel.Safe.{IsSound, Safe, comes_back, leaves, running-IsSound, IsSound-same}
use kaya_project.Kernel.Safe.Vectors.{unset, specify_exception_state_vector-Safe}
use kaya_project.Kernel.Safe.Calls.{
  create_process-Safe, passeren-Safe, verhogen-Safe, wait_for_clock-Safe, wait_for_io_device-Safe,
  get_cpu_time-Safe,
}
use kaya_project.Kernel.Safe.Interrupts.{
  quantum_interrupt-Safe, clock_interrupt-Safe, wake_for_device-Safe,
}

-- An address of memory between the sentinels of the active semaphore list.
abbrev pub IsSemaphore : Addr → Type 0
IsSemaphore a = (0 < a) × (a < max_int)

-- A process runs.
abbrev pub HasCurrent : Kernel → Type 0
HasCurrent k = (k.current_process == null) ≡ false

-- The handlers that may run: SYS 1 and 3 to 8 and the end of a quantum while a process runs, SYS 5
-- for a type without a handler, a tick of the pseudo clock, and the V operation for a device that
-- somebody waits for.
pub data Handles (k : Kernel) : Command Kernel (Unit {0}) → Type 0 where
  calls_create : HasCurrent k → Handles k create_process
  calls_verhogen : HasCurrent k → IsSemaphore ((k.states sys_call_old).reg a1) → Handles k verhogen
  calls_passeren : HasCurrent k → IsSemaphore ((k.states sys_call_old).reg a1) → Handles k passeren
  calls_vector :
      HasCurrent k
      → unset ((k.states sys_call_old).reg a1) (info_of k k.current_process) ≡ true
      → Handles k specify_exception_state_vector
  calls_time : HasCurrent k → Handles k get_cpu_time
  calls_clock : HasCurrent k → IsSemaphore (dev_sem k.layout clock_index) → Handles k wait_for_clock
  calls_device :
      HasCurrent k
      → IsSemaphore (
          let r = (k.states sys_call_old).reg in
          dev_sem k.layout
            (get_sem_array_num (r a1) (r a2) (if r a1 == 7 && r a3 == 1 then 8 else 0)))
      → Handles k wait_for_io_device
  ends_quantum : HasCurrent k → Handles k quantum_interrupt
  ticks : IsSemaphore (dev_sem k.layout clock_index) → Handles k clock_interrupt
  finishes :
      (sem : Addr) (status : Word) (p : Ptr)
      → IsSemaphore sem
      → head_blocked sem k.asl ≡ ok p k.asl
      → (p == null) ≡ false
      → Handles k (wake_for_device sem status)

-- The kernels that such runs lead to from `main`. Between the handlers the memory of the processes,
-- the old and new areas and the devices change at will.
pub data Reaches : Kernel → Type 0 where
  boots : (k : Kernel) (e : Exit) {g : Kernel} → main k ≡ stop e g → Reaches g
  works :
      {k : Kernel} (ints : Addr → Word) (states : Addr → State) (bus : Bus)
      → Reaches k
      → Reaches (record k { ints = ints; states = states; bus = bus })
  serves :
      (k : Kernel) (h : Command Kernel (Unit {0})) (e : Exit) {g : Kernel}
      → Reaches k
      → Handles k h
      → h k ≡ stop e g
      → Reaches g

current-IsApart :
    {k : Kernel} (s : IsSound k) → HasCurrent k → IsApart s.ready s.waiting s.pool k.current_process
current-IsApart {k} s c = elim s.current [
  | inl none ↦ absurd (ground (arith, ==-refl null, rw none at c))
  | inr a ↦ a
]

-- A handler that may run in a sound kernel is safe.
handler-Safe : {k : Kernel} {h : Command Kernel (Unit {0})} → IsSound k → Handles k h → Safe (h k)
handler-Safe s (calls_create c) = create_process-Safe s (current-IsApart s c)
handler-Safe s (calls_verhogen c a) = verhogen-Safe s (current-IsApart s c) a.0 a.1
handler-Safe s (calls_passeren c a) = passeren-Safe s (current-IsApart s c) a.0 a.1
handler-Safe s (calls_vector c u) = specify_exception_state_vector-Safe s (current-IsApart s c) u
handler-Safe s (calls_time c) = get_cpu_time-Safe s (current-IsApart s c)
handler-Safe s (calls_clock c a) = wait_for_clock-Safe s (current-IsApart s c) a.0 a.1
handler-Safe s (calls_device c a) = wait_for_io_device-Safe s (current-IsApart s c) a.0 a.1
handler-Safe s (ends_quantum c) =
    quantum_interrupt-Safe (record { kernel = s.kernel; current = current-IsApart s c })
handler-Safe s (ticks a) = clock_interrupt-Safe s a.0 a.1
handler-Safe {k} s (finishes sem status p a e some) =
    wake_for_device-Safe s sem status a.0 a.1 λ low. nonempty (s.waiting sem) refl
  where
    first : front (s.waiting sem) ≡ p
    first = result (sym (head_blocked-IsAsl sem s.kernel.waits a.0 a.1) ∙ e)
      where
        result : {q r : Ptr} → ◌≡◌ {A = Run Exit Asl Ptr} (ok q k.asl) (ok r k.asl) → q ≡ r
        result f = cc f

    nonempty : (xs : List Ptr) → s.waiting sem ≡ xs → 0 < length (s.waiting sem)
    nonempty [] w = absurd (ground (arith, rw w at first, some))
    nonempty (x ∷ xs) w = rw w (omega arith)

-- What a safe run that leaves the kernel leaves behind, and what `main` does.
left-IsSound :
    {e : Exit} {g : Kernel} {r : Run Exit Kernel (Unit {0})} → Safe r → r ≡ stop e g → IsSound g
left-IsSound {e} {g} (comes_back t) q = absurd (cc q)
left-IsSound {e} {g} (leaves {g = h} t) q = subst IsSound (final q) t
  where
    final :
        {d : Exit} {h : Kernel} → ◌≡◌ {A = Run Exit Kernel (Unit {0})} (stop d h) (stop e g) → h ≡ g
    final f = cc f

Booted-Safe : {k : Kernel} {r : Run Exit Kernel (Unit {0})} → Stops (Booted k) r → Safe r
Booted-Safe (stops {s = g} b) =
    leaves (running-IsSound b.running λ n. absurd (ground (arith, b.flag)))

-- Every kernel that is reached is sound.
pub Reaches-IsSound : {g : Kernel} → Reaches g → IsSound g
Reaches-IsSound (boots k e run) = left-IsSound (Booted-Safe (main-Booted k)) run
Reaches-IsSound (works ints states bus r) = IsSound-same refl refl refl refl (Reaches-IsSound r)
Reaches-IsSound (serves k h e r m run) = left-IsSound (handler-Safe (Reaches-IsSound r) m) run

-- In every kernel that is reached, each of the handlers that may run neither faults nor runs out of
-- fuel, and ends in a sound kernel.
pub Reaches-Safe :
    {k : Kernel} {h : Command Kernel (Unit {0})} → Reaches k → Handles k h → Safe (h k)
Reaches-Safe r m = handler-Safe (Reaches-IsSound r) m
