-- ===== src/Kernel/Invariant/Out.antt =====
-- A ready process leaves the ready queue of the kernel: `outProcQ(&readyQue, p)`.
use mathlib.Core.Path.{subst}
use kaya_project.Base.{
  ◌≡◌, refl, sym, ap, true, false, List, arith, has, erase, has_of-erase, has-erase_self, Returns,
  returns,
}
use kaya_project.Base.Monad
use kaya_project.Machine.{Ptr, Addr, Info}
use kaya_project.Pcb.Table.{Pcbs}
use kaya_project.Pcb.Queue.Links.{IsQueue, IsQueue-frame, SameBut, All-mem}
use kaya_project.Pcb.Queue.Fifo.{IsQueue-cells}
use kaya_project.Pcb.Queue.Out.{out_proc_q-erase, Removed}
use kaya_project.Asl.Map.{Waiting}
use kaya_project.Asl.Map.Frame.{IsAsl-pcbs}
use kaya_project.Kernel.State.{Kernel}
use kaya_project.Kernel.Invariant.{IsApart, IsKernel}
use kaya_project.Kernel.Terminate.{out_of_ready}

module _ {k : Kernel} {ready pool : List Ptr} {w : Waiting} (v : IsKernel k ready w pool) (p : Ptr)
    (m : has p ready ≡ true) where
  -- `p` is in no queue any more; only queue links of the ready processes change.
  pub record Leaves (r : Ptr) (g : Kernel) : Type 0 where
    pub found : r ≡ p
    pub kernel : IsKernel g (erase p ready) w pool
    pub apart : IsApart (erase p ready) w pool p
    pub frame : SameBut ready k.asl.pcbs g.asl.pcbs
    pub rest : g ≡ record k { asl = record (k.asl) { pcbs = g.asl.pcbs }; ready_que = g.ready_que }

  unqueued : Ptr → Pcbs → Kernel
  unqueued t g = record k { asl = record (k.asl) { pcbs = g }; ready_que = t }

  left :
      (r t : Ptr) (g : Pcbs)
      → Removed k.asl.pcbs k.ready_que p ready (r, t) g
      → Leaves r (unqueued t g)
  unfolding unqueued
  left r t g (e, q, s) = record {
    found = ground arith;
    kernel = record {
      waits =
          IsAsl-pcbs g v.waits (λ b a n. s.next a (other b a n)) (λ b a n. s.prev a (other b a n))
            λ b a n. ap (λ (i : Info). i.sem_add) (s.info a);
      queue = q;
      free =
          subst (λ t. IsQueue g t pool) (sym s.free)
            (IsQueue-frame v.free s λ a n. ground (arith, v.ready_used a));
      ready_idle = λ a n. v.ready_idle a (has_of-erase a p ready n);
      ready_used = λ a n. v.ready_used a (has_of-erase a p ready n);
      pool_idle = v.pool_idle;
    };
    apart = record {
      cell = All-mem ready p (IsQueue-cells k.asl.pcbs k.ready_que ready v.queue).0 m;
      not_ready = has-erase_self p ready (IsQueue-cells k.asl.pcbs k.ready_que ready v.queue).1;
      idle = v.ready_idle p m;
      used = v.ready_used p m;
    };
    frame = s;
    rest = refl;
  }
    where
      other : (b : Addr) (a : Ptr) → has a (w b) ≡ true → has a ready ≡ false
      other b a n = ground (arith, λ (n : has a ready ≡ true). v.ready_idle a n b)

  pub out_of_ready-Leaves : Returns Leaves (out_of_ready p k)
  unfolding out_of_ready unqueued
  out_of_ready-Leaves =
      Monad.bind {P = λ (r, t) g. Leaves r (record g { ready_que = t })}
        (Monad.lift (λ a. record k { asl = a })
          (Monad.lift {Q = λ (r, t) a. Leaves r (record k { asl = a; ready_que = t })}
            (λ h. record (k.asl) { pcbs = h })
            (out_proc_q-erase k.asl.pcbs k.ready_que p ready v.queue) λ (r, t) g n. left r t g n)
          λ (r, t) a n. n)
        λ (r, t) g n. returns n
