-- ===== src/Kernel/Scheduler/Outcomes.antt =====
-- The four outcomes of `scheduler` in phase2/scheduler.c: it never returns.
use kaya_project.Base.{
  ◌≡◌, ap, refl, false, List, [], ◌∷◌, arith, ◌==◌, if◌then◌else◌, stop, Stops, stops, and_then,
  Bool-cases, inl, inr,
}
use kaya_project.Base.Monad
use kaya_project.Base.Words.{div_signed}
use kaya_project.Machine.{Command, Ptr, null, Exit, ldst, halt, panic, wait, Info}
use kaya_project.Pcb.Queue.Links.{IsQueue, cell_not_null}
use kaya_project.Pcb.Queue.Fifo.{remove_proc_q-cons, remove_proc_q-nil, IsQueue-cells}
use kaya_project.Kernel.State.{Kernel, set_timer, set_status}
use kaya_project.Kernel.Scheduler.{next_ready, idle, dispatch, scheduler}

-- The ready queue of the kernel holds `xs`, the next process first.
abbrev pub IsReady : Kernel → List Ptr → Type 0
IsReady k xs = IsQueue k.asl.pcbs k.ready_que xs

-- With nobody ready the machine halts if no process is left, panics if none waits for a device, and
-- otherwise waits with the flag set and interrupts on.
pub scheduler-nil :
    (k : Kernel)
    → IsReady k []
    → scheduler k ≡ (
        if k.process_count == 0
        then stop halt k
        else if k.soft_block_count == 0
        then stop panic k
        else stop wait (record k { wait_flag = 1; calls = set_status 0xff01 ∷ k.calls }))
unfolding scheduler next_ready idle
scheduler-nil k q = rw (remove_proc_q-nil k.asl.pcbs k.ready_que q) (ground arith)

-- The process `x` runs: its state is loaded with a quantum of 5000, and it is out of the queue.
pub record Dispatched (k : Kernel) (x : Ptr) (xs : List Ptr) (e : Exit) (g : Kernel) : Type 0 where
  pub loaded : e ≡ ldst (k.asl.pcbs.info x).p_s
  pub current : g.current_process ≡ x
  pub ready : IsReady g xs
  pub running : g.wait_flag ≡ 0
  pub quantum : g.calls ≡ set_timer 5000 ∷ k.calls
  pub started : g.time ≡ div_signed (k.bus.tod_lo k.reads) k.bus.timescale
  pub counts : (g.process_count ≡ k.process_count) × (g.soft_block_count ≡ k.soft_block_count)

-- With a process ready the scheduler never returns: it dispatches the first of the ready queue.
pub scheduler-cons :
    (k : Kernel) (x : Ptr) (xs : List Ptr)
    → IsReady k (x ∷ xs)
    → Stops (Dispatched k x xs) (scheduler k)
unfolding scheduler next_ready dispatch
scheduler-cons k x xs q =
    let ((p, t), h, e, d) = Monad.returned (remove_proc_q-cons k.asl.pcbs k.ready_que x xs q) in
    rw (e, d.0, not_null)
      (rw not_null (
        stops (record {
          loaded = ap (λ (i : Info). ldst i.p_s) (d.2.info x);
          current = refl;
          ready = d.1;
          running = refl;
          quantum = refl;
          started = refl;
          counts = (refl, refl);
        })))
  where
    not_null : (x == null) ≡ false
    not_null = cell_not_null x (IsQueue-cells k.asl.pcbs k.ready_que (x ∷ xs) q).0.0

-- Nothing runs behind the scheduler.
pub scheduler-last :
    (k : Kernel) (xs : List Ptr) (rest : Unit {0} → Command Kernel (Unit {0}))
    → IsReady k xs
    → and_then (scheduler k) rest ≡ scheduler k
scheduler-last k [] rest q = rw (scheduler-nil k q) (elim (Bool-cases (k.process_count == 0)) [
  | inl e ↦ rw e refl
  | inr e ↦
      rw e (elim (Bool-cases (k.soft_block_count == 0)) [ inl f ↦ rw f refl | inr f ↦ rw f refl ])
])
scheduler-last k (x ∷ xs) rest q = Monad.Stops-last rest (scheduler-cons k x xs q)
