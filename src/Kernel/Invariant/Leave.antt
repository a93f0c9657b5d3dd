-- ===== src/Kernel/Invariant/Leave.antt =====
-- `outBlocked` of phase1/asl.c and the kernel around it.
use mathlib.Core.Path.{subst}
use kaya_project.Base.{
  ◌<◌, ◌≡◌, refl, sym, true, false, List, ◌∷◌, arith, ◌==◌, has, has-erase_of, has-erase_self, inl,
  inr, Bool-cases, eq_of_==, Returns,
}
use kaya_project.Base.Monad
use kaya_project.Machine.{Ptr, Addr, max_int}
use kaya_project.Pcb.Queue.Links.{IsQueue, IsQueue-frame}
use kaya_project.Asl.Blocked.{out_blocked}
use kaya_project.Asl.Map.{Waiting, apart_queues}
use kaya_project.Asl.Map.Leave.{leave, is_second, out_blocked-Left}
use kaya_project.Asl.Map.Room.{IsCell-of_waiting, Nodup-waiting}
use kaya_project.Kernel.State.{Kernel}
use kaya_project.Kernel.Access.{on_asl}
use kaya_project.Kernel.Invariant.{IsApart, IsKernel}

pub has-leave :
    (w : Waiting) (sem : Addr) (p q : Ptr) (s : Addr)
    → has q (w s) ≡ false
    → has q (leave w sem p s) ≡ false
has-leave w sem p q s n = elim (Bool-cases (s == sem)) [
  | inl e ↦ rw e (has-erase_of q p (w s) n)
  | inr e ↦ rw e n
]

module _ {k : Kernel} {ready pool : List Ptr} {w : Waiting} (v : IsKernel k ready w pool) where
  -- `p` is in no queue any more; only queue links of the others that wait with it change.
  pub record Parts (sem : Addr) (p r : Ptr) (g : Kernel) : Type 0 where
    pub found : r ≡ p
    pub kernel : IsKernel g ready (leave w sem p) pool
    pub apart : IsApart ready (leave w sem p) pool p
    pub rest : g ≡ record k { asl = g.asl }
    pub info : (q : Ptr) → g.asl.pcbs.info q ≡ k.asl.pcbs.info q
    pub prnt : (q : Ptr) → g.asl.pcbs.prnt q ≡ k.asl.pcbs.prnt q
    pub child : (q : Ptr) → g.asl.pcbs.child q ≡ k.asl.pcbs.child q
    pub sib : (q : Ptr) → g.asl.pcbs.sib q ≡ k.asl.pcbs.sib q
    pub prevsib : (q : Ptr) → g.asl.pcbs.prevsib q ≡ k.asl.pcbs.prevsib q

  pub out_blocked-Parts :
      (sem : Addr) (p x : Ptr) (xs : List Ptr)
      → 0 < sem
      → sem < max_int
      → w sem ≡ x ∷ xs
      → has p (x ∷ xs) ≡ true
      → is_second p (x ∷ xs) ≡ false
      → Returns (Parts sem p) (on_asl (out_blocked p) k)
  out_blocked-Parts sem p x xs pos top wait i ne =
      Monad.lift (λ a. record k { asl = a }) (out_blocked-Left sem v.waits pos top p x xs wait i ne)
        λ r g (done, n, f). record {
          found = done;
          kernel = record {
            waits = n;
            queue = IsQueue-frame v.queue f λ q m. rw wait at (v.ready_idle q m sem);
            free =
                subst (λ t. IsQueue g.pcbs t pool) (sym f.free)
                  (IsQueue-frame v.free f λ q m. rw wait at (v.pool_idle q m sem));
            ready_idle = λ q m s. has-leave w sem p q s (v.ready_idle q m s);
            ready_used = v.ready_used;
            pool_idle = λ q m s. has-leave w sem p q s (v.pool_idle q m s);
          };
          apart = record {
            cell = IsCell-of_waiting v.waits sem p here;
            not_ready = ground (arith, λ (n : has p ready ≡ true). v.ready_idle p n sem, here);
            idle = λ s. gone s;
            used = ground (arith, λ (n : has p pool ≡ true). v.pool_idle p n sem, here);
          };
          rest = refl;
          info = f.info;
          prnt = f.prnt;
          child = f.child;
          sib = f.sib;
          prevsib = f.prevsib;
        }
    where
      here : has p (w sem) ≡ true
      here = rw wait i

      gone : (s : Addr) → has p (leave w sem p s) ≡ false
      gone s = elim (Bool-cases (s == sem)) [
        | inl e ↦ rw (e, eq_of_== s sem e) (has-erase_self p (w sem) (Nodup-waiting v.waits sem))
        | inr e ↦ rw e (apart_queues v.waits sem s p (ground (arith, e)) here)
      ]
