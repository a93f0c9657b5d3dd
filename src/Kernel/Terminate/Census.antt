-- ===== src/Kernel/Terminate/Census.antt =====
-- The death of processes seen from the queues of the kernel: where the processes stand and what is
-- counted, and one step for each process that dies.
use mathlib.Core.List.{append-nil, append_assoc}
use kaya_project.Base.{
  ◌≡◌, sym, ◌∙◌, true, false, List, [], ◌∷◌, ◌++◌, if◌then◌else◌, has, update, erase, ◌<◌,
}
use kaya_project.Base.Words.{inc32, dec32}
use kaya_project.Machine.{Ptr, Addr, Word, max_int}
use kaya_project.Asl.Map.{Waiting}
use kaya_project.Asl.Map.Leave.{leave, is_second}
use kaya_project.Kernel.State.{Layout, Kernel}
use kaya_project.Kernel.Access.{dev_sem_count}
use kaya_project.Kernel.Terminate.{is_dev_sem}
use kaya_project.Kernel.Invariant.{IsKernel}
use kaya_project.Kernel.Invariant.Fields.{info_of}

-- The processes that are ready, those that wait, the free blocks, and the kernel's counts.
pub record Census : Type 0 where
  pub ready : List Ptr
  pub waits : Waiting
  pub pool : List Ptr
  pub processes : Word
  pub soft_blocks : Word
  pub ints : Addr → Word

-- The kernel stands for the census. A ready process bears no semaphore, and the current process is
-- not ready.
pub record Stands (k : Kernel) (c : Census) : Type 0 where
  pub kernel : IsKernel k c.ready c.waits c.pool
  pub processes : k.process_count ≡ c.processes
  pub soft_blocks : k.soft_block_count ≡ c.soft_blocks
  pub ints : k.ints ≡ c.ints
  pub at_rest : (p : Ptr) → has p c.ready ≡ true → (info_of k p).sem_add ≡ 0xffff_ffff
  pub alone : has k.current_process c.ready ≡ false

-- A block is free again, and one process less is counted.
abbrev pub bury : Ptr → Census → Census
bury p c = record c { pool = c.pool ++ p ∷ []; processes = dec32 c.processes }

-- A ready process dies.
abbrev pub drop_ready : Ptr → Census → Census
drop_ready p c = bury p (record c { ready = erase p c.ready })

-- The unit that a waiting process gives back.
abbrev pub give_back : Layout → Addr → Census → Census
give_back l s c =
    let device = is_dev_sem dev_sem_count l s in
    record c {
      soft_blocks = if device then dec32 c.soft_blocks else c.soft_blocks;
      ints = if device then c.ints else update c.ints s (inc32 (c.ints s));
    }

-- A process that waits for `s` dies.
abbrev pub drop_waiter : Layout → Addr → Ptr → Census → Census
drop_waiter l s p c = bury p (record (give_back l s c) { waits = leave c.waits s p })

-- The processes of a list die in its order, each of them ready, or waiting for a semaphore and not
-- the second one behind another.
pub data Burials (l : Layout) : Census → List Ptr → Census → Type 0 where
  nobody : {c : Census} → Burials l c [] c
  from_ready :
      {c d : Census} {p : Ptr} {ps : List Ptr}
      → has p c.ready ≡ true
      → Burials l (drop_ready p c) ps d
      → Burials l c (p ∷ ps) d
  from_semaphore :
      {c d : Census} {p : Ptr} {ps : List Ptr} (s : Addr) (x : Ptr) (xs : List Ptr)
      → 0 < s
      → s < max_int
      → c.waits s ≡ x ∷ xs
      → has p (x ∷ xs) ≡ true
      → is_second p (x ∷ xs) ≡ false
      → Burials l (drop_waiter l s p c) ps d
      → Burials l c (p ∷ ps) d

-- The census between two parts of the list.
pub Burials-split :
    {l : Layout} (ps qs : List Ptr) {c d : Census}
    → Burials l c (ps ++ qs) d
    → (e : Census) × Burials l c ps e × Burials l e qs d
Burials-split [] qs {c} b = (c, nobody, b)
Burials-split (p ∷ ps) qs (from_ready m b) =
    let (e, l, r) = Burials-split ps qs b in (e, from_ready m l, r)
Burials-split (p ∷ ps) qs (from_semaphore s x xs pos top wait i ne b) =
    let (e, l, r) = Burials-split ps qs b in (e, from_semaphore s x xs pos top wait i ne l, r)

-- The blocks of those that die are free afterwards, in the order of their death.
pub Burials-pool :
    {l : Layout} (ps : List Ptr) {c d : Census} → Burials l c ps d → d.pool ≡ c.pool ++ ps
Burials-pool [] {c} nobody = sym (append-nil c.pool)
Burials-pool (p ∷ ps) {c} (from_ready m b) = Burials-pool ps b ∙ append_assoc c.pool (p ∷ []) ps
Burials-pool (p ∷ ps) {c} (from_semaphore s x xs pos top wait i ne b) =
    Burials-pool ps b ∙ append_assoc c.pool (p ∷ []) ps
