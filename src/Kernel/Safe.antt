-- ===== src/Kernel/Safe.antt =====
-- Handlers that neither fault at NULL nor run out of fuel, and keep the kernel's invariant.
pub mod Calls
pub mod Interrupts
pub mod Reach
pub mod Vectors
use kaya_project.Base.{
  ◌++◌, has, has-append, eq_of_==, arith, ◌≡◌, refl, sym, ap, ◌∙◌, false, true, inl, inr, ◌⊎◌, List,
  [], ◌∷◌, ◌==◌, if◌then◌else◌, Bool-cases, Run, ok, stop, Stops, stops,
}
use kaya_project.Machine.{Info, Word, Addr, Ptr, Exit, null}
use kaya_project.Asl.Map.{Waiting, dequeue, rest}
use kaya_project.Kernel.State.{Kernel}
use kaya_project.Kernel.Scheduler.{scheduler}
use kaya_project.Kernel.Scheduler.Outcomes.{scheduler-nil}
use kaya_project.Kernel.Invariant.{IsApart, IsKernel, IsRunning}
use kaya_project.Kernel.Invariant.Wake.{Woken}
use kaya_project.Kernel.Invariant.Dispatch.{Runs, scheduler-Runs}
use kaya_project.Kernel.Invariant.Fields.{IsKernel-same}

-- The invariant holds, the current process, if there is one, is in none of the queues, and there is
-- none while the kernel waits.
pub record IsSound (k : Kernel) : Type 0 where
  pub ready : List Ptr
  pub waiting : Waiting
  pub pool : List Ptr
  pub kernel : IsKernel k ready waiting pool
  pub current : (k.current_process ≡ null) ⊎ IsApart ready waiting pool k.current_process
  pub idle : (k.wait_flag == 1) ≡ true → k.current_process ≡ null

-- The run ends in a sound kernel: it does not fault, and has fuel enough.
pub data Safe : Run Exit Kernel (Unit {0}) → Type 0 where
  comes_back : {g : Kernel} → IsSound g → Safe (ok tt g)
  leaves : {e : Exit} {g : Kernel} → IsSound g → Safe (stop e g)

pub running-IsSound :
    {k : Kernel} {ready pool : List Ptr} {w : Waiting}
    → IsRunning k ready w pool
    → ((k.wait_flag == 1) ≡ true → k.current_process ≡ null)
    → IsSound k
running-IsSound {k} {ready} {pool} {w} v idle = record {
  ready = ready;
  waiting = w;
  pool = pool;
  kernel = v.kernel;
  current = inr v.current;
  idle = idle;
}

pub nobody-IsSound :
    {k : Kernel} {ready pool : List Ptr} {w : Waiting}
    → IsKernel k ready w pool
    → k.current_process ≡ null
    → IsSound k
nobody-IsSound {k} {ready} {pool} {w} v none = record {
  ready = ready;
  waiting = w;
  pool = pool;
  kernel = v;
  current = inl none;
  idle = λ e. none;
}

-- Changes of other fields.
pub IsSound-same :
    {k g : Kernel}
    → g.asl ≡ k.asl
    → g.ready_que ≡ k.ready_que
    → g.current_process ≡ k.current_process
    → g.wait_flag ≡ k.wait_flag
    → IsSound k
    → IsSound g
IsSound-same {k} {g} e f c i s = record {
  ready = s.ready;
  waiting = s.waiting;
  pool = s.pool;
  kernel = IsKernel-same e f s.kernel;
  current = rw c s.current;
  idle = rw (c, i) s.idle;
}

-- While nobody runs, the scheduler is safe whatever is ready.
pub scheduler-Safe :
    {k : Kernel} {pool : List Ptr} {w : Waiting} (ready : List Ptr)
    → IsKernel k ready w pool
    → k.current_process ≡ null
    → Safe (scheduler k)
scheduler-Safe {k} [] v none =
    rw (scheduler-nil k v.queue) (elim (Bool-cases (k.process_count == 0)) [
      | inl e ↦ rw e (leaves (nobody-IsSound v none))
      | inr e ↦ rw e (elim (Bool-cases (k.soft_block_count == 0)) [
        | inl f ↦ rw f (leaves (nobody-IsSound v none))
        | inr f ↦ rw f (leaves (nobody-IsSound (IsKernel-same refl refl v) none))
      ])
    ])
scheduler-Safe {k} {pool} {w} (x ∷ ready) v none = left (scheduler-Runs x v)
  where
    runs : (g : Kernel) → g.wait_flag ≡ 0 → (g.wait_flag == 1) ≡ true → g.current_process ≡ null
    runs g e n = absurd (ground arith)

    left : {r : Run Exit Kernel (Unit {0})} → Stops (Runs k ready w pool x) r → Safe r
    left (stops {s = g} d) =
        leaves (running-IsSound d.kernel (runs g (ap (λ m. Kernel.wait_flag m) d.rest)))

has-dequeue :
    (w : Waiting) (sem s : Addr) (p : Ptr) → has p (w s) ≡ false → has p (dequeue w sem s) ≡ false
has-dequeue w sem s p idle = elim (Bool-cases (s == sem)) [
  | inl e ↦ rw e (has-rest (w s) p idle)
  | inr e ↦ rw e idle
]
  where
    has-rest : (xs : List Ptr) (p : Ptr) → has p xs ≡ false → has p (rest xs) ≡ false
    has-rest [] p n = refl
    has-rest (x ∷ xs) p n = ground arith

-- The current process stays apart from the queues when another one wakes.
pub Woken-IsSound :
    {k : Kernel} {sem : Addr} {x : Ptr} {xs : List Ptr} {i : Info} {n : Addr → Word} {g : Kernel}
    (s : IsSound k)
    → s.waiting sem ≡ x ∷ xs
    → Woken (record k { ints = n }) s.ready s.waiting s.pool sem x i g
    → IsSound g
Woken-IsSound {k} {sem} {x} {g = g} s wait o =
    let c = ap (λ m. Kernel.current_process m) o.rest in
    record {
      ready = s.ready ++ x ∷ [];
      waiting = dequeue s.waiting sem;
      pool = s.pool;
      kernel = o.kernel;
      current = rw c (elim s.current [
        | inl none ↦ inl none
        | inr a ↦ inr (record {
          cell = a.cell;
          not_ready = ground (
            arith,
            has-append k.current_process s.ready (x ∷ []),
            a.not_ready,
            rw wait at (a.idle sem),
          );
          idle = λ b. has-dequeue s.waiting sem b k.current_process (a.idle b);
          used = a.used;
        })
      ]);
      idle = rw (c, ap (λ m. Kernel.wait_flag m) o.rest) s.idle;
    }
