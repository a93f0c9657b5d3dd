-- ===== src/Kernel/Invariant/Free.antt =====
-- `freePcb` of phase1/pcb.c and the kernel around it.
use kaya_project.Base.{
  ◌≡◌, refl, true, false, List, [], ◌∷◌, ◌++◌, arith, ◌==◌, has, has-append, has-apart, Returns,
  returns,
}
use kaya_project.Base.Monad
use kaya_project.Machine.{Ptr, Addr}
use kaya_project.Pcb.Table.{Pcbs}
use kaya_project.Pcb.Queue.Links.{IsQueue, IsQueue-same, SameBut}
use kaya_project.Pcb.Queue.Insert.{insert_proc_q-append}
use kaya_project.Pcb.Pool.{free_pcb}
use kaya_project.Pcb.Pool.Cycle.{cleaned, clean_pcb-ok}
use kaya_project.Asl.Table.{on_pcbs}
use kaya_project.Asl.Map.{Waiting}
use kaya_project.Asl.Map.Frame.{IsAsl-pcbs}
use kaya_project.Kernel.State.{Kernel}
use kaya_project.Kernel.Access.{on_asl}
use kaya_project.Kernel.Invariant.{IsApart, IsKernel}

-- No tree link and no other field is written but those of `p`.
pub record Spared (p : Ptr) (h g : Pcbs) : Type 0 where
  pub prnt : (a : Ptr) → (a == p) ≡ false → g.prnt a ≡ h.prnt a
  pub child : (a : Ptr) → (a == p) ≡ false → g.child a ≡ h.child a
  pub sib : (a : Ptr) → (a == p) ≡ false → g.sib a ≡ h.sib a
  pub prevsib : (a : Ptr) → (a == p) ≡ false → g.prevsib a ≡ h.prevsib a
  pub info : (a : Ptr) → (a == p) ≡ false → g.info a ≡ h.info a

module _ {k : Kernel} {ready pool : List Ptr} {w : Waiting} (v : IsKernel k ready w pool) (p : Ptr)
    (o : IsApart ready w pool p) where
  abbrev with_pcbs : Pcbs → Kernel
  with_pcbs g = record k { asl = record (k.asl) { pcbs = g } }

  pub record Frees (g : Kernel) : Type 0 where
    pub kernel : IsKernel g ready w (pool ++ p ∷ [])
    pub spared : Spared p k.asl.pcbs g.asl.pcbs
    pub rest : g ≡ with_pcbs g.asl.pcbs

  abbrev clean : Pcbs
  clean = cleaned k.asl.pcbs p

  module _ (t : Ptr) (g : Pcbs) (q : IsQueue g t (pool ++ p ∷ []))
      (s : SameBut (p ∷ pool) clean g) where
    abbrev freed : Pcbs
    freed = record g { free = t }

    spared : Spared p k.asl.pcbs freed
    spared = record {
      prnt = λ a n. ground (arith, s.prnt a);
      child = λ a n. ground (arith, s.child a);
      sib = λ a n. ground (arith, s.sib a);
      prevsib = λ a n. ground (arith, s.prevsib a);
      info = λ a n. ground (arith, s.info a);
    }

    kept_next : (a : Ptr) → has a (p ∷ pool) ≡ false → g.next a ≡ k.asl.pcbs.next a
    kept_next a n = ground (arith, s.next a n)

    kept_prev : (a : Ptr) → has a (p ∷ pool) ≡ false → g.prev a ≡ k.asl.pcbs.prev a
    kept_prev a n = ground (arith, s.prev a n)

    waiter_apart : (b : Addr) (a : Ptr) → has a (w b) ≡ true → has a (p ∷ pool) ≡ false
    waiter_apart b a m =
        ground
          (arith, has-apart a p (w b) m (o.idle b), λ (n : has a pool ≡ true). v.pool_idle a n b)

    ready_apart : (a : Ptr) → has a ready ≡ true → has a (p ∷ pool) ≡ false
    ready_apart a m = ground (arith, has-apart a p ready m o.not_ready, v.ready_used a m)

    freed-IsKernel : IsKernel (with_pcbs freed) ready w (pool ++ p ∷ [])
    freed-IsKernel = record {
      waits =
          IsAsl-pcbs freed v.waits (λ b a m. kept_next a (waiter_apart b a m))
            (λ b a m. kept_prev a (waiter_apart b a m))
            λ b a m. ground (arith, s.info a, has-apart a p (w b) m (o.idle b));
      queue =
          IsQueue-same v.queue (λ a m. kept_next a (ready_apart a m))
            λ a m. kept_prev a (ready_apart a m);
      free = IsQueue-same q (λ a m. refl) (λ a m. refl);
      ready_idle = v.ready_idle;
      ready_used = λ a m.
          ground (
            arith,
            has-append a pool (p ∷ []),
            has-apart a p ready m o.not_ready,
            v.ready_used a m,
          );
      pool_idle = λ a m b. ground (
        arith,
        has-append a pool (p ∷ []),
        λ (n : has a pool ≡ true). v.pool_idle a n b,
        o.idle b,
      );
    }

  pub free_pcb-Frees : Returns (λ _ g. Frees g) (on_asl (on_pcbs (free_pcb p)) k)
  unfolding free_pcb
  free_pcb-Frees =
      Monad.lift (λ a. record k { asl = a })
        (Monad.lift {Q = λ _ a. Frees (record k { asl = a })} (λ h. record (k.asl) { pcbs = h })
          (rw (clean_pcb-ok k.asl.pcbs p o.cell) (
            Monad.bind
              (insert_proc_q-append clean k.asl.pcbs.free p pool
                (IsQueue-same v.free (λ a m. ground (arith, has-apart a p pool m o.used))
                  (λ a m. ground (arith, has-apart a p pool m o.used)))
                o.cell o.used)
              λ t g (q, s).
                returns (record {
                  kernel = freed-IsKernel t g q s;
                  spared = spared t g q s;
                  rest = refl;
                })))
          λ u a m. m)
        λ u a m. m
