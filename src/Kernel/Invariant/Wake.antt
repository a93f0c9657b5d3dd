-- ===== src/Kernel/Invariant/Wake.antt =====
-- The first process that waits for a semaphore becomes ready: `removeBlocked`, an assignment to the
-- fields of the process, `insertProcQ(&readyQue, p)`.
use kaya_project.Base.{◌<◌, ◌≡◌, refl, ap, ◌∙◌, false, List, [], ◌∷◌, ◌++◌, ◌==◌, ==-refl, ok}
use kaya_project.Base.Monad
use kaya_project.Machine.{Ptr, Addr, Word, Info, max_int}
use kaya_project.Asl.Blocked.{remove_blocked}
use kaya_project.Asl.Map.{Waiting, dequeue}
use kaya_project.Kernel.State.{Kernel}
use kaya_project.Kernel.Access.{on_asl, make_ready}
use kaya_project.Kernel.Invariant.{IsApart, IsKernel}
use kaya_project.Kernel.Invariant.Steps.{make_ready-Readies, remove_blocked-Wakes}
use kaya_project.Kernel.Invariant.Fields.{with_info, info_of, IsKernel-with_idle, IsKernel-same}

-- The process `x` has left the queue of `sem` for the end of the ready queue, with the fields `i`.
pub record Woken (k : Kernel) (ready : List Ptr) (w : Waiting) (pool : List Ptr) (sem : Addr)
    (x : Ptr) (i : Info) (g : Kernel) : Type 0 where
  pub kernel : IsKernel g (ready ++ x ∷ []) (dequeue w sem) pool
  pub info : info_of g x ≡ i
  pub others : (q : Ptr) → (q == x) ≡ false → info_of g q ≡ info_of k q
  pub rest : g ≡ record k { asl = g.asl; ready_que = g.ready_que }

module _ {k : Kernel} {ready pool : List Ptr} {w : Waiting} (v : IsKernel k ready w pool) where
  -- The three steps of a wake, in the states in which the kernel runs them; `u` is what it does to
  -- the semaphores before the last one.
  pub record Wake (sem : Addr) (x : Ptr) (f : Info → Info) (u : (Addr → Word) → Addr → Word)
      : Type 0 where
    pub free : Kernel
    pub end : Kernel
    pub apart : IsApart ready (dequeue w sem) pool x
    pub removes : on_asl (remove_blocked sem) k ≡ ok x free
    pub old : info_of free x ≡ info_of k x
    pub same : free ≡ record k { asl = free.asl }
    pub readies :
        make_ready x (record (with_info free x (f (info_of free x))) { ints = u free.ints })
        ≡ ok tt end
    pub woken : Woken (record k { ints = u k.ints }) ready w pool sem x (f (info_of k x)) end

  pub wakes :
      (sem : Addr) (x : Ptr) (xs : List Ptr) (f : Info → Info) (u : (Addr → Word) → Addr → Word)
      → 0 < sem
      → sem < max_int
      → w sem ≡ x ∷ xs
      → Wake sem x f u
  wakes sem x xs f u pos top wait =
      let (r, g, e, a) = Monad.returned (remove_blocked-Wakes v sem x xs pos top wait) in
      let v' = IsKernel-with_idle x (f (info_of g x)) a.apart.idle a.kernel in
      let (t, h, e', b) = Monad.returned (make_ready-Readies (put v') x a.apart) in
      record {
        free = g;
        end = h;
        apart = a.apart;
        removes = e ∙ ap (λ n. ok n g) a.found;
        old = a.info x;
        same = a.rest;
        readies = e';
        woken = record {
          kernel = b.kernel;
          info = b.info x ∙ rw (==-refl x) (ap f (a.info x));
          others = λ q ne. b.info q ∙ rw ne (a.info q);
          rest =
              b.rest
              ∙ ap
                  (λ (n : Kernel). record n {
                    asl = h.asl;
                    ready_que = h.ready_que;
                    ints = u n.ints;
                  })
                  a.rest;
        };
      }
    where
      put :
          {g : Kernel}
          → IsKernel g ready (dequeue w sem) pool
          → IsKernel (record g { ints = u g.ints }) ready (dequeue w sem) pool
      put n = IsKernel-same refl refl n
