-- ===== src/Kernel/Invariant/Steps.antt =====
-- How the operations of phase 1 move a process from one place of the kernel to another.
use mathlib.Core.Path.{subst}
use kaya_project.Base.{
  ◌<◌, ◌≡◌, refl, sym, ap, true, false, List, [], ◌∷◌, ◌++◌, arith, ◌==◌, has, has-append,
  has-apart, ==-refl, eq_of_==, inl, inr, Bool-cases, Bool, Returns, returns,
}
use kaya_project.Base.Monad
use kaya_project.Machine.{Ptr, Addr, max_int, Info}
use kaya_project.Pcb.Queue.Links.{IsQueue, IsQueue-frame, IsQueue-same, SameBut}
use kaya_project.Pcb.Queue.Insert.{insert_proc_q-append}
use kaya_project.Asl.Blocked.{insert_blocked, remove_blocked}
use kaya_project.Asl.Blocked.Insert.{marked}
use kaya_project.Asl.Map.{Waiting, IsAsl, enqueue, dequeue, apart_queues}
use kaya_project.Asl.Map.Frame.{IsAsl-pcbs}
use kaya_project.Asl.Map.Room.{IsCell-of_waiting, Nodup-waiting}
use kaya_project.Asl.Map.Insert.{insert_blocked-IsAsl}
use kaya_project.Asl.Map.Remove.{remove_blocked-IsAsl}
use kaya_project.Kernel.State.{Kernel}
use kaya_project.Kernel.Access.{on_asl, make_ready}
use kaya_project.Kernel.Invariant.{IsApart, IsKernel}

module _ {k : Kernel} {ready pool : List Ptr} {w : Waiting} (v : IsKernel k ready w pool) where
  -- `insertBlocked` and the kernel around it.
  pub record Blocks (sem : Addr) (p : Ptr) (r : Bool) (g : Kernel) : Type 0 where
    pub done : r ≡ false
    pub kernel : IsKernel g ready (enqueue w sem p) pool
    pub rest : g ≡ record k { asl = g.asl }
    pub info : (q : Ptr) → g.asl.pcbs.info q ≡ (marked k.asl.pcbs p sem).info q

  pub insert_blocked-Blocks :
      (sem : Addr) (p : Ptr)
      → 0 < sem
      → sem < max_int
      → IsApart ready w pool p
      → Returns (Blocks sem p) (on_asl (insert_blocked sem p) k)
  insert_blocked-Blocks sem p pos top o =
      Monad.lift (λ a. record k { asl = a })
        (insert_blocked-IsAsl sem p v.waits pos top o.cell o.idle)
        λ r g (done, n, f). record {
          done = done;
          kernel = record {
            waits = n;
            queue =
                IsQueue-frame (IsQueue-same v.queue (λ b m. refl) (λ b m. refl)) f
                  λ q m. ground (arith, v.ready_idle q m sem, has-apart q p ready m o.not_ready);
            free =
                subst (λ t. IsQueue g.pcbs t pool) (sym f.free)
                  (IsQueue-frame (IsQueue-same v.free (λ b m. refl) (λ b m. refl)) f
                    λ q m. ground (arith, v.pool_idle q m sem, has-apart q p pool m o.used));
            ready_idle = λ q m s.
                enqueue_idle q s (v.ready_idle q m s) (has-apart q p ready m o.not_ready).0;
            ready_used = v.ready_used;
            pool_idle =
                λ q m s. enqueue_idle q s (v.pool_idle q m s) (has-apart q p pool m o.used).0;
          };
          rest = refl;
          info = f.info;
        }
    where
      enqueue_idle :
          (q : Ptr) (s : Addr)
          → has q (w s) ≡ false
          → (q == p) ≡ false
          → has q (enqueue w sem p s) ≡ false
      enqueue_idle q s n ne = ground (arith, has-append q (w s) (p ∷ []))

  -- `insertProcQ(&readyQue, p)`
  pub record Readies (p : Ptr) (g : Kernel) : Type 0 where
    pub kernel : IsKernel g (ready ++ p ∷ []) w pool
    pub rest : g ≡ record k { asl = g.asl; ready_que = g.ready_que }
    pub frame : SameBut (p ∷ ready) k.asl.pcbs g.asl.pcbs
    pub info : (q : Ptr) → g.asl.pcbs.info q ≡ k.asl.pcbs.info q

  -- Only the process control blocks have changed.
  abbrev InPcbs : Ptr → Ptr → Kernel → Type 0
  InPcbs p t g =
      IsQueue g.asl.pcbs t (ready ++ p ∷ [])
      × SameBut (p ∷ ready) k.asl.pcbs g.asl.pcbs
      × (g ≡ record k { asl = record (k.asl) { pcbs = g.asl.pcbs } })

  readied :
      (p t : Ptr) (g : Kernel)
      → IsApart ready w pool p
      → InPcbs p t g
      → Readies p (record g { ready_que = t })
  readied p t g o (q, f, e) = record {
    kernel = record {
      waits =
          subst (λ a. IsAsl a w) (sym (ap (λ n. Kernel.asl n) e))
            (IsAsl-pcbs g.asl.pcbs v.waits (λ s b m. f.next b (other s b m))
              (λ s b m. f.prev b (other s b m)) (λ s b m. ap (λ i. Info.sem_add i) (f.info b)));
      queue = q;
      free =
          subst (λ t. IsQueue g.asl.pcbs t pool) (sym f.free)
            (IsQueue-frame v.free f
              λ b m. ground (arith, has-apart b p pool m o.used, v.ready_used b));
      ready_idle = λ b m s. ground (
        arith,
        λ (n : has b ready ≡ true). v.ready_idle b n s,
        o.idle s,
        has-append b ready (p ∷ []),
      );
      ready_used = λ b m. ground (arith, v.ready_used b, o.used, has-append b ready (p ∷ []));
      pool_idle = v.pool_idle;
    };
    rest = rest_ready e;
    frame = f;
    info = f.info;
  }
    where
      rest_ready :
          g ≡ record k { asl = record (k.asl) { pcbs = g.asl.pcbs } }
          → record g { ready_que = t } ≡ record k { asl = g.asl; ready_que = t }
      rest_ready e = ground arith

      other : (s : Addr) (b : Ptr) → has b (w s) ≡ true → has b (p ∷ ready) ≡ false
      other s b m =
          ground (
            arith,
            has-apart b p (w s) m (o.idle s),
            λ (n : has b ready ≡ true). v.ready_idle b n s,
          )

  pub make_ready-Readies :
      (p : Ptr) → IsApart ready w pool p → Returns (λ _ g. Readies p g) (make_ready p k)
  unfolding make_ready
  make_ready-Readies p o =
      Monad.bind {P = InPcbs p}
        (Monad.lift (λ a. record k { asl = a })
          (Monad.lift {Q = λ t a. InPcbs p t (record k { asl = a })}
            (λ h. record (k.asl) { pcbs = h })
            (insert_proc_q-append k.asl.pcbs k.ready_que p ready v.queue o.cell o.not_ready)
            λ t h m. (m.0, m.1, refl))
          λ t a m. m)
        λ t g m. returns (readied p t g o m)

  -- `removeBlocked` and the kernel around it.
  pub record Wakes (sem : Addr) (x : Ptr) (r : Ptr) (g : Kernel) : Type 0 where
    pub found : r ≡ x
    pub kernel : IsKernel g ready (dequeue w sem) pool
    pub apart : IsApart ready (dequeue w sem) pool x
    pub rest : g ≡ record k { asl = g.asl }
    pub info : (q : Ptr) → g.asl.pcbs.info q ≡ k.asl.pcbs.info q

  pub remove_blocked-Wakes :
      (sem : Addr) (x : Ptr) (xs : List Ptr)
      → 0 < sem
      → sem < max_int
      → w sem ≡ x ∷ xs
      → Returns (Wakes sem x) (on_asl (remove_blocked sem) k)
  remove_blocked-Wakes sem x xs pos top wait =
      Monad.lift (λ a. record k { asl = a }) (remove_blocked-IsAsl sem v.waits pos top x xs wait)
        λ r g (done, n, f). record {
          found = done;
          kernel = record {
            waits = n;
            queue = IsQueue-frame v.queue f λ q m. rw wait at (v.ready_idle q m sem);
            free =
                subst (λ t. IsQueue g.pcbs t pool) (sym f.free)
                  (IsQueue-frame v.free f λ q m. rw wait at (v.pool_idle q m sem));
            ready_idle = λ q m s. dequeue_idle q s (v.ready_idle q m s);
            ready_used = v.ready_used;
            pool_idle = λ q m s. dequeue_idle q s (v.pool_idle q m s);
          };
          apart = record {
            cell = IsCell-of_waiting v.waits sem x here;
            not_ready = ground (arith, λ (n : has x ready ≡ true). v.ready_idle x n sem, here);
            idle = λ s. gone s;
            used = ground (arith, λ (n : has x pool ≡ true). v.pool_idle x n sem, here);
          };
          rest = refl;
          info = f.info;
        }
    where
      here : has x (w sem) ≡ true
      here = rw wait (ground (arith, ==-refl x))

      after : (q : Ptr) → has q (x ∷ xs) ≡ false → has q xs ≡ false
      after q n = ground arith

      dequeue_idle : (q : Ptr) (s : Addr) → has q (w s) ≡ false → has q (dequeue w sem s) ≡ false
      dequeue_idle q s n = elim (Bool-cases (s == sem)) [
        | inl e ↦ rw (e, eq_of_== s sem e, wait) (after q (rw (eq_of_== s sem e, wait) at n))
        | inr e ↦ rw e n
      ]

      gone : (s : Addr) → has x (dequeue w sem s) ≡ false
      gone s = elim (Bool-cases (s == sem)) [
        | inl e ↦ rw (e, eq_of_== s sem e, wait) (rw wait at (Nodup-waiting v.waits sem)).0
        | inr e ↦ rw e (apart_queues v.waits sem s x (ground (arith, e)) here)
      ]
