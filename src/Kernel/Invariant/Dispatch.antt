-- ===== src/Kernel/Invariant/Dispatch.antt =====
-- `scheduler` of phase2/scheduler.c keeps the invariant: the next process runs.
use mathlib.Core.Path.{subst}
use kaya_project.Base.{
  All, Nodup, ◌≡◌, refl, sym, ap, true, false, List, ◌∷◌, arith, has, ==-refl, stops, Stops, suc,
}
use kaya_project.Base.Monad
use kaya_project.Base.Words.{div_signed}
use kaya_project.Machine.{IsCell, Ptr, Addr, Exit, Info, ldst}
use kaya_project.Pcb.Table.{Pcbs}
use kaya_project.Pcb.Queue.Links.{IsQueue, IsQueue-frame, SameBut, cell_not_null}
use kaya_project.Pcb.Queue.Fifo.{remove_proc_q-cons, IsQueue-cells}
use kaya_project.Asl.Map.{Waiting}
use kaya_project.Asl.Map.Frame.{IsAsl-pcbs}
use kaya_project.Kernel.State.{Kernel, set_timer}
use kaya_project.Kernel.Scheduler.{scheduler, next_ready, dispatch}
use kaya_project.Kernel.Invariant.{IsKernel, IsRunning}
use kaya_project.Kernel.Invariant.Fields.{info_of}

-- The process `x` runs, its registers loaded, and nothing else about the processes has changed.
pub record Runs (k : Kernel) (ready : List Ptr) (w : Waiting) (pool : List Ptr) (x : Ptr) (e : Exit)
    (g : Kernel) : Type 0 where
  pub kernel : IsRunning g ready w pool
  pub current : g.current_process ≡ x
  pub loaded : e ≡ ldst (info_of k x).p_s
  pub started : g.time ≡ div_signed (k.bus.tod_lo k.reads) k.bus.timescale
  pub info : (p : Ptr) → info_of g p ≡ info_of k p
  pub rest : g ≡ record k {
    asl = g.asl;
    ready_que = g.ready_que;
    current_process = g.current_process;
    time = g.time;
    wait_flag = 0;
    reads = suc k.reads;
    calls = set_timer 5000 ∷ k.calls;
  }

module _ {k : Kernel} {ready pool : List Ptr} {w : Waiting} (x : Ptr)
    (v : IsKernel k (x ∷ ready) w pool) where
  here : has x (x ∷ ready) ≡ true
  here = ground (arith, ==-refl x)

  cells : All IsCell (x ∷ ready) × Nodup (x ∷ ready)
  cells = IsQueue-cells k.asl.pcbs k.ready_que (x ∷ ready) v.queue

  -- The first process has left the ready queue.
  unready :
      (g : Pcbs) (t : Ptr) (h : Kernel)
      → IsQueue g t ready
      → SameBut (x ∷ ready) k.asl.pcbs g
      → IsRunning
          (record h { asl = record (k.asl) { pcbs = g }; ready_que = t; current_process = x })
          ready
          w
          pool
  unready g t h q f = record {
    kernel = record {
      waits =
          IsAsl-pcbs g v.waits (λ s b m. f.next b (other b s m)) (λ s b m. f.prev b (other b s m))
            (λ s b m. ap (λ i. Info.sem_add i) (f.info b));
      queue = q;
      free =
          subst (λ l. IsQueue g l pool) (sym f.free)
            (IsQueue-frame v.free f λ b m. ground (arith, v.ready_used b));
      ready_idle = λ b m s. v.ready_idle b (ground arith) s;
      ready_used = λ b m. v.ready_used b (ground arith);
      pool_idle = v.pool_idle;
    };
    current = record {
      cell = cells.0.0;
      not_ready = cells.1.0;
      idle = λ s. v.ready_idle x here s;
      used = v.ready_used x here;
    };
  }
    where
      other : (b : Ptr) (s : Addr) → has b (w s) ≡ true → has b (x ∷ ready) ≡ false
      other b s m = ground (arith, λ (n : has b (x ∷ ready) ≡ true). v.ready_idle b n s)

  abbrev running : Kernel
  running = record k {
    time = div_signed (k.bus.tod_lo k.reads) k.bus.timescale;
    wait_flag = 0;
    reads = suc k.reads;
    calls = set_timer 5000 ∷ k.calls;
  }

  pub scheduler-Runs : Stops (Runs k ready w pool x) (scheduler k)
  unfolding scheduler next_ready dispatch
  scheduler-Runs =
      let ((p, t), h, e, d) =
        Monad.returned (remove_proc_q-cons k.asl.pcbs k.ready_que x ready v.queue) in
      rw (e, d.0, cell_not_null x cells.0.0)
        (rw (cell_not_null x cells.0.0) (
          stops (record {
            kernel = unready h t running d.1 d.2;
            current = refl;
            loaded = ap (λ (i : Info). ldst i.p_s) (d.2.info x);
            started = refl;
            info = d.2.info;
            rest = refl;
          })))
