-- ===== src/Kernel/Invariant/Alloc.antt =====
-- `allocPcb` of phase1/pcb.c and the kernel around it: a free block is in no queue any more.
use mathlib.Core.Path.{subst}
use kaya_project.Base.{
  ◌≡◌, refl, sym, ap, ◌∙◌, true, false, All, Nodup, List, ◌∷◌, arith, has, ==-refl, Returns,
}
use kaya_project.Base.Monad
use kaya_project.Machine.{Ptr, Addr, Info, IsCell}
use kaya_project.Pcb.Table.{Pcbs}
use kaya_project.Pcb.Queue.Fifo.{IsQueue-cells}
use kaya_project.Pcb.Pool.{alloc_pcb}
use kaya_project.Pcb.Pool.Cycle.{
  IsPool, IsClean, Outside, IsQueue-Outside, Allocated, alloc_pcb-cons,
}
use kaya_project.Asl.Table.{on_pcbs}
use kaya_project.Asl.Map.{Waiting}
use kaya_project.Asl.Map.Frame.{IsAsl-pcbs}
use kaya_project.Kernel.State.{Kernel}
use kaya_project.Kernel.Access.{on_asl}
use kaya_project.Kernel.Invariant.{IsApart, IsKernel}

module _ {k : Kernel} {ready pool : List Ptr} {w : Waiting} (x : Ptr)
    (v : IsKernel k ready w (x ∷ pool)) where
  cells : All IsCell (x ∷ pool) × Nodup (x ∷ pool)
  cells = IsQueue-cells k.asl.pcbs k.asl.pcbs.free (x ∷ pool) v.free

  -- The block `x` has left the free list, with its fields nulled.
  pub record Allocates (r : Ptr) (g : Kernel) : Type 0 where
    pub found : r ≡ x
    pub kernel : IsKernel g ready w pool
    pub apart : IsApart ready w pool x
    pub clean : IsClean g.asl.pcbs x
    pub outside : Outside (x ∷ pool) k.asl.pcbs g.asl.pcbs
    pub rest : g ≡ record k { asl = g.asl }

  apart : IsApart ready w pool x
  apart = record {
    cell = cells.0.0;
    not_ready = ground (arith, λ (n : has x ready ≡ true). v.ready_used x n, ==-refl x);
    idle = λ s. v.pool_idle x (ground (arith, ==-refl x)) s;
    used = cells.1.0;
  }

  without :
      (g : Pcbs)
      → IsPool g pool
      → Outside (x ∷ pool) k.asl.pcbs g
      → IsKernel (record k { asl = record (k.asl) { pcbs = g } }) ready w pool
  without g q o = record {
    waits =
        IsAsl-pcbs g v.waits (λ s b m. o.next b (other b s m)) (λ s b m. o.prev b (other b s m))
          (λ s b m. ap (λ i. Info.sem_add i) (o.info b (other b s m)));
    queue =
        IsQueue-Outside v.queue o
          λ b m. ground (arith, λ (n : has b (x ∷ pool) ≡ true). (has_both b m n));
    free = q;
    ready_idle = v.ready_idle;
    ready_used = λ p m. ground (arith, v.ready_used p);
    pool_idle = λ p m. v.pool_idle p (ground arith);
  }
    where
      has_both : (b : Ptr) → has b ready ≡ true → has b (x ∷ pool) ≡ true → true ≡ false
      has_both b m n = sym n ∙ v.ready_used b m

      other : (b : Ptr) (s : Addr) → has b (w s) ≡ true → has b (x ∷ pool) ≡ false
      other b s m = ground (arith, λ (n : has b (x ∷ pool) ≡ true). v.pool_idle b n s)

  pub alloc_pcb-Allocates : Returns Allocates (on_asl (on_pcbs alloc_pcb) k)
  alloc_pcb-Allocates =
      Monad.lift (λ a. record k { asl = a })
        (Monad.lift
          {Q = λ p a. Allocated k.asl.pcbs x pool p a.pcbs × (a ≡ record (k.asl) { pcbs = a.pcbs })}
          (λ h. record (k.asl) { pcbs = h }) (alloc_pcb-cons k.asl.pcbs x pool v.free)
          λ p h m. (m, refl))
        λ p a (m, e). record {
          found = m.0;
          kernel =
              subst (λ b. IsKernel (record k { asl = b }) ready w pool) (sym e)
                (without a.pcbs m.1 m.3);
          apart = apart;
          clean = m.2;
          outside = m.3;
          rest = refl;
        }
