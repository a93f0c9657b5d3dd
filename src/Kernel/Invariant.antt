-- ===== src/Kernel/Invariant.antt =====
-- The invariant of the phase 2 kernel: where each process control block stands. It is in at most one
-- place: the ready queue, the queue of one semaphore, or the free pool.
pub mod Fields
pub mod Alloc
pub mod Free
pub mod Out
pub mod Leave
pub mod Dispatch
pub mod Steps
pub mod Wake
use kaya_project.Base.{◌≡◌, true, false, List, [], ◌∷◌, has}
use kaya_project.Machine.{Ptr, Addr, IsCell}
use kaya_project.Pcb.Queue.Links.{IsQueue}
use kaya_project.Asl.Map.{Waiting, IsAsl}
use kaya_project.Kernel.State.{Kernel}

-- `p` is in none of the queues.
pub record IsApart (ready : List Ptr) (w : Waiting) (pool : List Ptr) (p : Ptr) : Type 0 where
  pub cell : IsCell p
  pub not_ready : has p ready ≡ false
  pub idle : (s : Addr) → has p (w s) ≡ false
  pub used : has p pool ≡ false

-- The processes `ready` are ready, first come first, those of `w` wait, and `pool` is free.
pub record IsKernel (k : Kernel) (ready : List Ptr) (w : Waiting) (pool : List Ptr) : Type 0 where
  pub waits : IsAsl k.asl w
  pub queue : IsQueue k.asl.pcbs k.ready_que ready
  pub free : IsQueue k.asl.pcbs k.asl.pcbs.free pool
  pub ready_idle : (p : Ptr) → has p ready ≡ true → (s : Addr) → has p (w s) ≡ false
  pub ready_used : (p : Ptr) → has p ready ≡ true → has p pool ≡ false
  pub pool_idle : (p : Ptr) → has p pool ≡ true → (s : Addr) → has p (w s) ≡ false

-- Besides, the current process is in none of them.
pub record IsRunning (k : Kernel) (ready : List Ptr) (w : Waiting) (pool : List Ptr) : Type 0 where
  pub kernel : IsKernel k ready w pool
  pub current : IsApart ready w pool k.current_process
