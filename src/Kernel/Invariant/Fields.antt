-- ===== src/Kernel/Invariant/Fields.antt =====
-- Changes of single fields keep the kernel's invariant, and what the helpers of
-- phase2/exceptions.c write into the current process.
use kaya_project.Base.{
  inl, inr, Bool-cases, eq_of_==, ◌≡◌, refl, false, true, List, arith, ◌==◌, ok, has, has-apart,
  update,
}
use kaya_project.Base.Words.{add32, sub32}
use kaya_project.Machine.{Ptr, Addr, Word, Info, IsCell}
use kaya_project.Pcb.Queue.Links.{IsQueue-same, cell_not_null}
use kaya_project.Asl.Map.{Waiting}
use kaya_project.Asl.Map.Frame.{IsAsl-pcbs}
use kaya_project.Kernel.State.{Kernel}
use kaya_project.Kernel.Access.{get_pcb, set_pcb, charge_time, copy_state, state_copy_pcb}
use kaya_project.Kernel.Invariant.{IsKernel}

-- The fields of the block at `p` given anew.
abbrev pub with_info : Kernel → Ptr → Info → Kernel
with_info k p i = record k {
  asl = record (k.asl) { pcbs = record (k.asl.pcbs) { info = update k.asl.pcbs.info p i } };
}

abbrev pub info_of : Kernel → Ptr → Info
info_of k p = k.asl.pcbs.info p

IsKernel-write :
    {k : Kernel} {ready pool : List Ptr} {w : Waiting} (p : Ptr) (i : Info)
    → ((b : Ptr) (s : Addr)
        → has b (w s) ≡ true
        → (update k.asl.pcbs.info p i b).sem_add ≡ (info_of k b).sem_add)
    → IsKernel k ready w pool
    → IsKernel (with_info k p i) ready w pool
IsKernel-write {k} {ready} {pool} {w} p i same v = record {
  waits =
      IsAsl-pcbs (record (k.asl.pcbs) { info = update k.asl.pcbs.info p i }) v.waits (λ s b m. refl)
        (λ s b m. refl) (λ s b m. same b s m);
  queue = IsQueue-same v.queue (λ b m. refl) (λ b m. refl);
  free = IsQueue-same v.free (λ b m. refl) (λ b m. refl);
  ready_idle = v.ready_idle;
  ready_used = v.ready_used;
  pool_idle = v.pool_idle;
}

-- Any fields of a process that waits nowhere, and all but the semaphore of another one.
pub IsKernel-with_idle :
    {k : Kernel} {ready pool : List Ptr} {w : Waiting} (p : Ptr) (i : Info)
    → ((s : Addr) → has p (w s) ≡ false)
    → IsKernel k ready w pool
    → IsKernel (with_info k p i) ready w pool
IsKernel-with_idle {k} {ready} {pool} {w} p i idle v =
    IsKernel-write p i (λ b s m. ground (arith, has-apart b p (w s) m (idle s))) v

pub IsKernel-with_info :
    {k : Kernel} {ready pool : List Ptr} {w : Waiting} (p : Ptr) (i : Info)
    → i.sem_add ≡ (info_of k p).sem_add
    → IsKernel k ready w pool
    → IsKernel (with_info k p i) ready w pool
IsKernel-with_info {k} p i same v =
    IsKernel-write p i
      (λ b s m. elim (Bool-cases (b == p)) [
        | inl e ↦ rw (e, eq_of_== b p e) same
        | inr e ↦ rw e refl
      ])
      v

-- The queues do not depend on the kernel's other fields.
pub IsKernel-same :
    {k g : Kernel} {ready pool : List Ptr} {w : Waiting}
    → g.asl ≡ k.asl
    → g.ready_que ≡ k.ready_que
    → IsKernel k ready w pool
    → IsKernel g ready w pool
IsKernel-same {k} {g} {ready} {pool} {w} e f v = record {
  waits = rw e v.waits;
  queue = rw (e, f) v.queue;
  free = rw e v.free;
  ready_idle = v.ready_idle;
  ready_used = v.ready_used;
  pool_idle = v.pool_idle;
}

module _ (k : Kernel) (p : Ptr) (c : IsCell p) where
  pub charge_time-ok :
      (t : Word)
      → charge_time p t k
        ≡ ok tt (
            with_info k p
              (record (info_of k p) { time = add32 (info_of k p).time (sub32 t k.time) }))
  unfolding charge_time
  charge_time-ok t = rw (cell_not_null p c) (rw (cell_not_null p c))

  pub state_copy_pcb-ok :
      (from : Addr)
      → state_copy_pcb p from k
        ≡ ok tt (
            with_info k p
              (record (info_of k p) { p_s = copy_state (k.states from) (info_of k p).p_s }))
  unfolding state_copy_pcb
  state_copy_pcb-ok from = rw (cell_not_null p c) (rw (cell_not_null p c))

  pub get_pcb-ok : get_pcb p k ≡ ok (info_of k p) k
  unfolding get_pcb
  get_pcb-ok = rw (cell_not_null p c) refl

  pub set_pcb-ok : (i : Info) → set_pcb p i k ≡ ok tt (with_info k p i)
  unfolding set_pcb
  set_pcb-ok i = rw (cell_not_null p c) refl
