-- ===== src/Kernel/Interrupts/Wake/Tick.antt =====
-- The interrupt of the pseudo clock in phase2/interrupts.c: its loop ends.
use kaya_project.Base.{
  ok, false, suc, ◌*◌, ◌%◌, ◌<◌, ◌≤◌, ◌≡◌, refl, sym, ap, inl, inr, Bool-cases, ◌∙◌, true, List, [],
  ◌∷◌, arith, ◌==◌, if◌then◌else◌, not, length, All, has, stop, and_then, when, Returns, returns,
  length-le_of_Nodup, ==-refl,
}
use kaya_project.Base.Monad
use kaya_project.Base.Monad.{Run, ◌>>◌, ◌>>=◌}
use kaya_project.Base.Words.{is_nonpositive, word_mod}
use kaya_project.Machine.{Command, Ptr, Addr, Word, Exit, null, max_int, max_proc, ldst, IsCell}
use kaya_project.Pcb.Queue.Links.{cell_not_null}
use kaya_project.Pcb.Queue.Fifo.{front}
use kaya_project.Asl.Blocked.{head_blocked}
use kaya_project.Asl.Table.{Asl}
use kaya_project.Asl.Map.{Waiting}
use kaya_project.Asl.Map.Room.{IsCell-of_waiting, Nodup-waiting}
use kaya_project.Kernel.State.{Kernel}
use kaya_project.Kernel.Access.{on_asl, get_int, get_current, dev_sem, clock_index, interrupt_old}
use kaya_project.Kernel.Scheduler.{scheduler}
use kaya_project.Kernel.Interrupts.{wake_all, clock_interrupt, resume_interrupted}
use kaya_project.Kernel.Interrupts.Wake.All.{
  AllWoken, AllWoken-nobody, wake_all-AllWoken, head-front,
}
use kaya_project.Kernel.Invariant.{IsKernel}
use kaya_project.Kernel.Invariant.Fields.{IsKernel-same}

-- What runs behind the wakes: the process that was interrupted, or else the scheduler. `g` is the
-- kernel with everybody awake.
abbrev pub after_tick : Kernel → Kernel → Run Exit Kernel (Unit {0})
after_tick k g =
    if k.current_process == null then scheduler g else stop (ldst (k.states interrupt_old)) g

module _ {k : Kernel} {ready pool : List Ptr} {w : Waiting} (v : IsKernel k ready w pool) where
  -- At most `max_proc` processes wait for a semaphore.
  length-waiting : (sem : Addr) → length (w sem) ≤ max_proc
  length-waiting sem =
      length-le_of_Nodup max_proc (w sem) (Nodup-waiting v.waits sem)
        (cells (w sem) λ x m. IsCell-of_waiting v.waits sem x m)
    where
      cells :
          (xs : List Ptr) → ((x : Ptr) → has x xs ≡ true → IsCell x) → All (λ a. a < max_proc) xs
      cells [] c = tt
      cells (x ∷ xs) c = (c x (ground (arith, ==-refl x)), cells xs λ y m. c y (ground arith))

  -- The interval timer is set again.
  abbrev ticked : Kernel
  ticked = record k {
    bus = record (k.bus) { interval_timer = (100000 * k.bus.timescale) % word_mod };
  }

  abbrev clock : Addr
  clock = dev_sem k.layout clock_index

  abbrev woke : Ptr → Command Kernel (Unit {0})
  woke head =
      when (not (head == null))
        do c ← get_int clock; when (is_nonpositive c) (wake_all (suc max_proc) clock)

  -- The process that was interrupted goes on, or else the scheduler runs.
  abbrev back : Command Kernel (Unit {0})
  back = do current ← get_current; if not (current == null) then resume_interrupted else scheduler

  clock_interrupt-woke :
      clock_interrupt k ≡ and_then (on_asl (head_blocked clock) ticked) (λ head. woke head >> back)
  unfolding clock_interrupt
  clock_interrupt-woke = refl

  ticked-IsKernel : IsKernel ticked ready w pool
  ticked-IsKernel = IsKernel-same refl refl v

  woke-AllWoken :
      (xs : List Ptr)
      → 0 < clock
      → clock < max_int
      → is_nonpositive (k.ints clock) ≡ true
      → w clock ≡ xs
      → Returns (λ _ g. AllWoken ticked ready w pool clock xs g) (woke (front xs) ticked)
  woke-AllWoken [] pos top low wait = returns (AllWoken-nobody clock pos top ticked-IsKernel wait)
  woke-AllWoken (x ∷ xs) pos top low wait =
      rw
        (
          cell_not_null x (IsCell-of_waiting v.waits clock x (rw wait (ground (arith, ==-refl x)))),
          low,
        )
        (wake_all-AllWoken clock pos top (suc max_proc) (x ∷ xs) ticked-IsKernel wait
          (omega (arith, ap length wait, length-waiting clock)))

  back-after_tick :
      (a : Asl) (t : Ptr) (n : Addr → Word) (c : Word)
      → back (record ticked { asl = a; ready_que = t; ints = n; soft_block_count = c })
        ≡ after_tick k (record ticked { asl = a; ready_que = t; ints = n; soft_block_count = c })
  unfolding resume_interrupted
  back-after_tick a t n c = elim (Bool-cases (k.current_process == null)) [
    | inl e ↦ rw e refl
    | inr e ↦ rw e refl
  ]

  -- A tick of the pseudo clock, its semaphore at an address between 0 and MAXINT and not positive: everybody who waits for the clock becomes
  -- ready, however many there are, and then the interrupted process goes on or the scheduler runs.
  pub clock_interrupt-AllWoken :
      0 < dev_sem k.layout clock_index
      → dev_sem k.layout clock_index < max_int
      → is_nonpositive (k.ints (dev_sem k.layout clock_index)) ≡ true
      → (g : Kernel) × (clock_interrupt k ≡ after_tick k g)
        × AllWoken
            (record k {
              bus = record (k.bus) { interval_timer = (100000 * k.bus.timescale) % word_mod };
            })
            ready
            w
            pool
            (dev_sem k.layout clock_index)
            (w (dev_sem k.layout clock_index))
            g
  clock_interrupt-AllWoken pos top low =
      let (u, g, e, m) = Monad.returned (woke-AllWoken (w clock) pos top low refl) in
      (
        g,
        clock_interrupt-woke
            ∙ ap (λ r. and_then r (λ head. woke head >> back))
                (head-front clock pos top ticked-IsKernel)
            ∙ ap (λ r. and_then r (λ _. back)) e
            ∙ ap back m.rest
            ∙ back-after_tick _ _ _ _
            ∙ ap (after_tick k) (sym m.rest),
        m,
      )

  -- A tick while the semaphore is positive wakes nobody.
  pub clock_interrupt-positive :
      0 < dev_sem k.layout clock_index
      → dev_sem k.layout clock_index < max_int
      → is_nonpositive (k.ints (dev_sem k.layout clock_index)) ≡ false
      → clock_interrupt k
        ≡ after_tick k (record k {
          bus = record (k.bus) { interval_timer = (100000 * k.bus.timescale) % word_mod };
        })
  clock_interrupt-positive pos top high =
      clock_interrupt-woke
      ∙ ap (λ r. and_then r (λ head. woke head >> back)) (head-front clock pos top ticked-IsKernel)
      ∙ ap (λ r. and_then r (λ _. back)) (woke-nobody (front (w clock)))
      ∙ back-after_tick _ _ _ _
    where
      woke-nobody : (p : Ptr) → woke p ticked ≡ ok tt ticked
      woke-nobody p = elim (Bool-cases (p == null)) [
        | inl e ↦ rw e refl
        | inr e ↦ rw (e, high) refl
      ]
