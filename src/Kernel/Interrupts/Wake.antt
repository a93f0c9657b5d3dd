-- ===== src/Kernel/Interrupts/Wake.antt =====
-- The wakes of phase2/interrupts.c: one process for a device, and all those of the pseudo clock.
pub mod All
pub mod Tick
use kaya_project.Base.{
  ◌<◌, ◌≡◌, refl, sym, ap, inl, inr, Bool-cases, ◌∙◌, true, false, List, [], ◌∷◌, ◌++◌, arith, ◌==◌,
  if◌then◌else◌, ==-refl, ok, stop, suc, update, and_then, when,
}
use kaya_project.Base.Monad.{Run, ◌>>◌, ◌>>=◌}
use kaya_project.Base.Words.{inc32, dec32, div_signed, is_nonpositive}
use kaya_project.Machine.{Ptr, Addr, Word, Info, Exit, Command, null, max_int, ldst}
use kaya_project.Pcb.Queue.Links.{cell_not_null}
use kaya_project.Asl.Blocked.{remove_blocked}
use kaya_project.Asl.Table.{Asl}
use kaya_project.Asl.Map.{Waiting, dequeue}
use kaya_project.Kernel.State.{Kernel}
use kaya_project.Kernel.Access.{
  on_asl, read, modify, make_ready, get_pcb, set_pcb, set_reg, v0, stck, interrupt_old,
}
use kaya_project.Kernel.Scheduler.{scheduler}
use kaya_project.Kernel.Interrupts.{wake_for_device, resume_interrupted}
use kaya_project.Kernel.Invariant.{IsKernel}
use kaya_project.Kernel.Invariant.Wake.{Woken, Wake, wakes}
use kaya_project.Kernel.Invariant.Fields.{with_info, info_of, IsKernel-same, get_pcb-ok, set_pcb-ok}

-- What runs behind a wake for a device: `g` is the kernel with the process woken.
abbrev pub after_wake : Kernel → Kernel → Run Exit Kernel (Unit {0})
after_wake k g =
    if k.wait_flag == 1
    then scheduler (record g { soft_block_count = dec32 k.soft_block_count })
    else stop (ldst (k.states interrupt_old)) (record g {
      soft_block_count = dec32 k.soft_block_count;
      time = div_signed (k.bus.tod_lo k.reads) k.bus.timescale;
      reads = suc k.reads;
    })

module _ {k : Kernel} {ready pool : List Ptr} {w : Waiting} (v : IsKernel k ready w pool)
    (sem : Addr) (status : Word) where
  -- The semaphore is given back.
  abbrev gave : Kernel
  gave = record k { ints = update k.ints sem (inc32 (k.ints sem)) }

  -- The process gets the status in its register v0.
  abbrev answered : Info → Info
  answered i = record i { sem_add = null; p_s = set_reg i.p_s v0 status }

  -- The end of the handler: the scheduler if the kernel was waiting, and otherwise the process that
  -- was interrupted.
  abbrev back : Command Kernel (Unit {0})
  back = do
    modify λ g. record g { soft_block_count = dec32 g.soft_block_count }
    waiting ← read λ g. g.wait_flag
    if waiting == 1
        then scheduler
        else do t ← stck; modify λ g. record g { time = t }; resume_interrupted

  abbrev woke : Run Exit Kernel Ptr → Run Exit Kernel (Unit {0})
  woke r = and_then r λ p. get_pcb p >>= λ i. set_pcb p (answered i) >> (make_ready p >> back)

  wake_for_device-woke :
      is_nonpositive (inc32 (k.ints sem)) ≡ true
      → wake_for_device sem status k ≡ woke (on_asl (remove_blocked sem) gave)
  unfolding wake_for_device is_nonpositive
  wake_for_device-woke low = rw (==-refl sem, low) refl

  back-after_wake :
      (a : Asl) (t : Ptr)
      → back (record gave { asl = a; ready_que = t })
        ≡ after_wake k (record gave { asl = a; ready_que = t })
  unfolding stck resume_interrupted
  back-after_wake a t = elim (Bool-cases (k.wait_flag == 1)) [
    | inl e ↦ rw e refl
    | inr e ↦ rw e refl
  ]

  -- A device interrupt whose semaphore, at an address between 0 and MAXINT, stays nonpositive, with `x` the first that waits for it: `x` is
  -- ready behind the others with the status in v0, one process fewer waits for a device, and the
  -- interrupted process goes on or, if the kernel waited, the scheduler runs.
  pub wake_for_device-wakes :
      (x : Ptr) (xs : List Ptr)
      → 0 < sem
      → sem < max_int
      → is_nonpositive (inc32 (k.ints sem)) ≡ true
      → w sem ≡ x ∷ xs
      → (g : Kernel) × (wake_for_device sem status k ≡ after_wake k g)
        × Woken
            (record k { ints = update k.ints sem (inc32 (k.ints sem)) })
            ready
            w
            pool
            sem
            x
            (answered (info_of k x))
            g
  wake_for_device-wakes x xs pos top low wait =
      let s =
        wakes {k = gave} (IsKernel-same refl refl v) sem x xs answered (λ n. n) pos top wait in
      (
        s.end,
        wake_for_device-woke low
            ∙ ap woke s.removes
            ∙ rw (get_pcb-ok s.free x s.apart.cell) (
                rw (set_pcb-ok s.free x s.apart.cell) (
                  rw s.readies (
                    ap back s.woken.rest
                    ∙ back-after_wake _ _
                    ∙ ap (after_wake k) (sym s.woken.rest)))),
        s.woken,
      )
