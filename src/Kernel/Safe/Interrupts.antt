-- ===== src/Kernel/Safe/Interrupts.antt =====
-- The interrupts of phase2/interrupts.c are safe.
use kaya_project.Base.{
  length, ◌<◌, ◌≡◌, refl, ap, ◌∙◌, true, inl, inr, List, [], ◌∷◌, ◌++◌, ◌==◌, Bool-cases, eq_of_==,
  arith, has-append,
}
use kaya_project.Base.Monad
use kaya_project.Base.Words.{inc32, is_nonpositive}
use kaya_project.Machine.{Ptr, Addr, Word, max_int, null}
use kaya_project.Asl.Map.{Waiting}
use kaya_project.Kernel.State.{Kernel}
use kaya_project.Kernel.Access.{copy_state, interrupt_old, dev_sem, clock_index}
use kaya_project.Kernel.Interrupts.{quantum_interrupt, clock_interrupt, wake_for_device}
use kaya_project.Kernel.Interrupts.Route.{wake_for_device-returns}
use kaya_project.Kernel.Interrupts.Wake.{after_wake, wake_for_device-wakes}
use kaya_project.Kernel.Interrupts.Wake.All.{AllWoken, emptied}
use kaya_project.Kernel.Interrupts.Wake.Tick.{
  after_tick, clock_interrupt-AllWoken, clock_interrupt-positive,
}
use kaya_project.Kernel.Invariant.{IsRunning}
use kaya_project.Kernel.Invariant.Steps.{make_ready-Readies}
use kaya_project.Kernel.Invariant.Fields.{
  info_of, IsKernel-same, IsKernel-with_info, state_copy_pcb-ok,
}
use kaya_project.Kernel.Safe.{
  IsSound, Safe, comes_back, leaves, IsSound-same, scheduler-Safe, Woken-IsSound,
}

-- The end of a quantum, while a process runs.
pub quantum_interrupt-Safe :
    {k : Kernel} {ready pool : List Ptr} {w : Waiting}
    → IsRunning k ready w pool
    → Safe (quantum_interrupt k)
unfolding quantum_interrupt
quantum_interrupt-Safe {k} {ready} v =
    let i = record (info_of k k.current_process) {
      p_s = copy_state (k.states interrupt_old) (info_of k k.current_process).p_s;
    } in
    let (u, g, e, r) = Monad.returned (
      make_ready-Readies (IsKernel-with_info k.current_process i refl v.kernel) k.current_process
        v.current) in
    rw (state_copy_pcb-ok k k.current_process v.current.cell) (
      rw e
        (scheduler-Safe (ready ++ k.current_process ∷ []) (IsKernel-same refl refl r.kernel) refl))

-- What runs behind a tick is safe in a sound kernel.
after_tick-Safe :
    (k : Kernel) {g : Kernel}
    → g.current_process ≡ k.current_process
    → IsSound g
    → Safe (after_tick k g)
after_tick-Safe k c s = elim (Bool-cases (k.current_process == null)) [
  | inl e ↦ rw e (scheduler-Safe s.ready s.kernel (c ∙ eq_of_== k.current_process null e))
  | inr e ↦ rw e (leaves s)
]

module _ {k : Kernel} (s : IsSound k) where
  -- The current process stays apart from the queues when everybody wakes who waits for the clock.
  AllWoken-IsSound :
      {clock : Addr} {b : _} {g : Kernel}
      → AllWoken (record k { bus = b }) s.ready s.waiting s.pool clock (s.waiting clock) g
      → IsSound g
  AllWoken-IsSound {clock} {g = g} o =
      let c = ap (λ m. Kernel.current_process m) o.rest in
      record {
        ready = s.ready ++ s.waiting clock;
        waiting = emptied s.waiting clock;
        pool = s.pool;
        kernel = o.kernel;
        current = rw c (elim s.current [
          | inl none ↦ inl none
          | inr a ↦ inr (record {
            cell = a.cell;
            not_ready = ground (
              arith,
              has-append k.current_process s.ready (s.waiting clock),
              a.not_ready,
              a.idle clock,
            );
            idle = λ x. ground (arith, a.idle x);
            used = a.used;
          })
        ]);
        idle = rw (c, ap (λ m. Kernel.wait_flag m) o.rest) s.idle;
      }

  -- A tick of the pseudo clock.
  pub clock_interrupt-Safe :
      0 < dev_sem k.layout clock_index
      → dev_sem k.layout clock_index < max_int
      → Safe (clock_interrupt k)
  clock_interrupt-Safe pos top =
      elim (Bool-cases (is_nonpositive (k.ints (dev_sem k.layout clock_index)))) [
        | inl low ↦
            let (g, run, o) = clock_interrupt-AllWoken s.kernel pos top low in
            rw run
              (after_tick-Safe k (ap (λ m. Kernel.current_process m) o.rest) (AllWoken-IsSound o))
        | inr high ↦
            rw (clock_interrupt-positive s.kernel pos top high)
              (after_tick-Safe k refl (IsSound-same refl refl refl refl s))
      ]

  -- What runs behind a wake for a device.
  after_wake-Safe :
      {g : Kernel} → g.current_process ≡ k.current_process → IsSound g → Safe (after_wake k g)
  after_wake-Safe c t = elim (Bool-cases (k.wait_flag == 1)) [
    | inl e ↦ rw e (scheduler-Safe t.ready (IsKernel-same refl refl t.kernel) (c ∙ s.idle e))
    | inr e ↦ rw e (leaves (IsSound-same refl refl refl refl t))
  ]

  -- The V operation for a device, if somebody waits while it leaves the semaphore at 0 or below.
  pub wake_for_device-Safe :
      (sem : Addr) (status : Word)
      → 0 < sem
      → sem < max_int
      → (is_nonpositive (inc32 (k.ints sem)) ≡ true → 0 < length (s.waiting sem))
      → Safe (wake_for_device sem status k)
  wake_for_device-Safe sem status pos top some_wait =
      elim (Bool-cases (is_nonpositive (inc32 (k.ints sem)))) [
        | inl low ↦ waiters (s.waiting sem) low refl (some_wait low)
        | inr high ↦
            rw (wake_for_device-returns k sem status high)
              (comes_back (IsSound-same refl refl refl refl s))
      ]
    where
      waiters :
          (xs : List Ptr)
          → is_nonpositive (inc32 (k.ints sem)) ≡ true
          → s.waiting sem ≡ xs
          → 0 < length (s.waiting sem)
          → Safe (wake_for_device sem status k)
      waiters [] low wait n = absurd (omega (arith, ap length wait, n))
      waiters (x ∷ xs) low wait n =
          let (g, run, o) = wake_for_device-wakes s.kernel sem status x xs pos top low wait in
          rw run
            (after_wake-Safe (ap (λ m. Kernel.current_process m) o.rest) (Woken-IsSound s wait o))
