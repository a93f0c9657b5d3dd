-- ===== src/Kernel/Syscalls/Sleep.antt =====
-- A process that blocks in a system call of phase2/exceptions.c: what its kernel looks like.
pub mod Clock
pub mod Device
pub mod Passeren
use kaya_project.Base.{
  ℕ, suc, ◌<◌, ◌≡◌, refl, sym, ap, ◌∙◌, true, false, List, arith, ◌==◌, ok, update, ==-refl, Bool,
  and_then, Returns, returns,
}
use kaya_project.Base.Monad
use kaya_project.Base.Monad.{Run, ◌>>◌}
use kaya_project.Base.Words.{inc32, dec32, add32, sub32, is_negative, div_signed}
use kaya_project.Machine.{Ptr, Addr, Word, Info, State, null, max_int, Exit}
use kaya_project.Asl.Blocked.{insert_blocked}
use kaya_project.Asl.Map.{Waiting, enqueue}
use kaya_project.Kernel.State.{Kernel}
use kaya_project.Kernel.Access.{
  on_asl, set_current, dev_sem, clock_index, sys_call_old, a1, copy_state, charge_time,
  state_copy_pcb,
}
use kaya_project.Kernel.Scheduler.{scheduler}
use kaya_project.Kernel.Scheduler.Outcomes.{scheduler-last}
use kaya_project.Kernel.Syscalls.{resume, passeren, wait_for_clock, wait_for_io_device}
use kaya_project.Kernel.Invariant.{IsApart, IsKernel, IsRunning}
use kaya_project.Kernel.Invariant.Steps.{Blocks, insert_blocked-Blocks}
use kaya_project.Kernel.Invariant.Fields.{
  with_info, info_of, IsKernel-with_info, IsKernel-same, charge_time-ok, state_copy_pcb-ok,
}

-- The reading of the clock.
abbrev pub clock_now : Kernel → Word
clock_now k = div_signed (k.bus.tod_lo k.reads) k.bus.timescale

-- While `k`'s caller is put to sleep on `sem`: `g` has its registers `s` and its processor time `t`.
pub record Held (k : Kernel) (ready : List Ptr) (w : Waiting) (pool : List Ptr) (sem : Addr)
    (soft : Word) (s : State) (t : Word) (g : Kernel) : Type 0 where
  pub kernel : IsKernel g ready w pool
  pub saved : (info_of g k.current_process).p_s ≡ s
  pub charged : (info_of g k.current_process).time ≡ t
  pub others : (q : Ptr) → (q == k.current_process) ≡ false → info_of g q ≡ info_of k q
  pub taken : g.ints ≡ update k.ints sem (dec32 (k.ints sem))
  pub processes : g.process_count ≡ k.process_count
  pub devices : g.soft_block_count ≡ soft

-- The caller waits behind the others for `sem`, its registers saved and its time charged; nobody
-- runs, and `soft` processes wait for devices.
pub record Sleeps (k : Kernel) (ready : List Ptr) (w : Waiting) (pool : List Ptr) (sem : Addr)
    (soft : Word) (g : Kernel) : Type 0 where
  pub held :
      Held k ready
        (enqueue w sem k.current_process)
        pool
        sem
        soft
        (copy_state (k.states sys_call_old) (info_of k k.current_process).p_s)
        (add32 (info_of k k.current_process).time (sub32 (clock_now k) k.time))
        g
  pub nobody : g.current_process ≡ null

-- The fields of the caller with its time charged, and `i` with its registers saved.
abbrev pub charged_info : Kernel → Info
charged_info k = record (info_of k k.current_process) {
  time = add32 (info_of k k.current_process).time (sub32 (clock_now k) k.time);
}

abbrev pub saved_info : Kernel → Info → Info
saved_info k i = record i { p_s = copy_state (k.states sys_call_old) i.p_s }

-- The kernel once the semaphore is taken.
abbrev pub took : Kernel → Addr → Kernel
took k sem = record k { ints = update k.ints sem (dec32 (k.ints sem)) }

module _ {k : Kernel} {ready pool : List Ptr} {w : Waiting} (v : IsRunning k ready w pool) where
  -- The semaphore is taken.
  pub Held-taken :
      (sem : Addr) (n : ℕ)
      → Held k ready w pool sem k.soft_block_count
          (info_of k k.current_process).p_s
          (info_of k k.current_process).time
          (record k { ints = update k.ints sem (dec32 (k.ints sem)); reads = n })
  Held-taken sem n = record {
    kernel = IsKernel-same refl refl v.kernel;
    saved = refl;
    charged = refl;
    others = λ q ne. refl;
    taken = refl;
    processes = refl;
    devices = refl;
  }

  -- Fields of the caller are written.
  pub Held-write :
      {w' : Waiting} {sem : Addr} {soft : Word} {s : State} {t : Word} {g : Kernel} (i : Info)
      → i.sem_add ≡ (info_of g k.current_process).sem_add
      → Held k ready w' pool sem soft s t g
      → Held k ready w' pool sem soft i.p_s i.time (with_info g k.current_process i)
  Held-write i same v' = record {
    kernel = IsKernel-with_info k.current_process i same v'.kernel;
    saved = rw (==-refl k.current_process) refl;
    charged = rw (==-refl k.current_process) refl;
    others = λ q ne. rw ne (v'.others q ne);
    taken = v'.taken;
    processes = v'.processes;
    devices = v'.devices;
  }

  -- The caller joins the queue.
  pub Held-blocked :
      {sem : Addr} {soft : Word} {s : State} {t : Word} {g h : Kernel} {r : Bool}
      (v' : Held k ready w pool sem soft s t g)
      → Blocks v'.kernel sem k.current_process r h
      → Held k ready (enqueue w sem k.current_process) pool sem soft s t h
  Held-blocked v' b = record {
    kernel = b.kernel;
    saved =
        ap (λ (i : Info). i.p_s) (b.info k.current_process)
        ∙ rw (==-refl k.current_process) v'.saved;
    charged =
        ap (λ (i : Info). i.time) (b.info k.current_process)
        ∙ rw (==-refl k.current_process) v'.charged;
    others = λ q ne. b.info q ∙ rw ne (v'.others q ne);
    taken = ap (λ n. Kernel.ints n) b.rest ∙ v'.taken;
    processes = ap (λ n. Kernel.process_count n) b.rest ∙ v'.processes;
    devices = ap (λ n. Kernel.soft_block_count n) b.rest ∙ v'.devices;
  }

  -- The caller is gone.
  pub Held-left :
      {sem : Addr} {soft : Word} {h : Kernel}
      → Held k ready
          (enqueue w sem k.current_process)
          pool
          sem
          soft
          (copy_state (k.states sys_call_old) (info_of k k.current_process).p_s)
          (add32 (info_of k k.current_process).time (sub32 (clock_now k) k.time))
          h
      → Sleeps k ready w pool sem soft (record h { current_process = null })
  Held-left v' = record {
    held = record {
      kernel = IsKernel-same refl refl v'.kernel;
      saved = v'.saved;
      charged = v'.charged;
      others = v'.others;
      taken = v'.taken;
      processes = v'.processes;
      devices = v'.devices;
    };
    nobody = refl;
  }

  -- The time since the dispatch is charged.
  pub Held-charge :
      {w' : Waiting} {sem : Addr} {soft : Word} {s : State} {t : Word} {g : Kernel} (u : Word)
      → Held k ready w' pool sem soft s t g
      → Held k ready w' pool sem soft s (add32 t u) (
          with_info g k.current_process (record (info_of g k.current_process) {
            time = add32 (info_of g k.current_process).time u;
          }))
  Held-charge {w'} {sem} {soft} {s} {t} {g} u v' =
      rw (sym v'.saved, sym v'.charged) (Held-write _ refl v')

  -- One process more waits for a device.
  pub Held-soft :
      {w' : Waiting} {sem : Addr} {soft : Word} {s : State} {t : Word} {g : Kernel} (n : ℕ)
      → Held k ready w' pool sem soft s t g
      → Held k ready w' pool sem
          (inc32 soft)
          s
          t
          (record g { soft_block_count = inc32 g.soft_block_count; reads = n })
  Held-soft n v' = record {
    kernel = IsKernel-same refl refl v'.kernel;
    saved = v'.saved;
    charged = v'.charged;
    others = v'.others;
    taken = v'.taken;
    processes = v'.processes;
    devices = ap inc32 v'.devices;
  }
