-- ===== src/Asl/Map/Linked.antt =====
-- The map after `insertBlocked` of phase1/asl.c has taken a new descriptor.
use kaya_project.Base.{
  ◌<◌, ◌≡◌, ap, ◌∙◌, true, false, List, [], ◌∷◌, arith, ◌==◌, ◌||◌, has, has-apart, length,
  length-append, inl, inr, Bool-cases, ==-refl, eq_of_==,
}
use kaya_project.Machine.{Ptr, Addr, max_int}
use kaya_project.Pcb.Queue.Links.{IsQueue}
use kaya_project.Asl.Table.{Asl}
use kaya_project.Asl.Blocked.Sorted.{IsActive, IsSemd}
use kaya_project.Asl.Blocked.Link.{linked, with_semd, has-with_semd, length-with_semd, Absent}
use kaya_project.Asl.Blocked.Insert.{Enqueued}
use kaya_project.Asl.Blocked.Start.{FreeChain}
use kaya_project.Asl.Map.{Waiting, IsAsl, enqueue, FreeChain-frame}
use kaya_project.Asl.Map.Kept.{kept-IsQueue, noted, busy_enqueue}

module _ {a : Asl} {w : Waiting} (sem : Addr) (p : Ptr) (v : IsAsl a w) where
  module _ (idle : (s : Addr) → has p (w s) ≡ false) where
    module _ (f : Ptr) (fs : List Ptr) (split : v.fs ≡ f ∷ fs) (no_semd : Absent a sem v.ds)
        (bounded : (sem == max_int) ≡ false) where
      new_out : has f (a.semd_h ∷ v.ds) ≡ false
      new_out = v.apart f (rw split (ground (arith, ==-refl f)))

      old_free : (a.semd_free ≡ f) × IsSemd f × FreeChain a (a.s_next f) fs
      old_free = rw split at v.free

      still_free :
          (d : Ptr) → has d fs ≡ true → ((d == f) ≡ false) × (has d (a.semd_h ∷ v.ds) ≡ false)
      still_free d m =
          ((has-apart d f fs m (rw split at v.distinct).0).0, v.apart d (rw split (ground arith)))

      module _ (b : Ptr) (b_mem : has b (a.semd_h ∷ v.ds) ≡ true) (g : Asl)
          (i : IsActive g (with_semd a f sem v.ds))
          (n : Enqueued (linked a f sem b) f sem p [] g) where
        mem_split : (e : Ptr) → has e (with_semd a f sem v.ds) ≡ ((e == f) || has e v.ds)
        mem_split e = has-with_semd a f sem e v.ds

        old_add : (e : Ptr) → has e v.ds ≡ true → g.s_sem_add e ≡ a.s_sem_add e
        old_add e m =
            ground (arith, ap (λ k. k e) n.same_add, has-apart e f (a.semd_h ∷ v.ds), new_out)

        new_add : g.s_sem_add f ≡ sem
        new_add = ground (arith, ap (λ k. k f) n.same_add)

        free_linked : FreeChain g g.semd_free fs
        free_linked = rw n.same_free (
            FreeChain-frame a g (a.s_next f) fs old_free.2 λ d m.
              let (d-ne, out) = still_free d m in
              ap (λ k. k d) n.same_next ∙ ground (arith, has-apart b d (a.semd_h ∷ v.ds) b_mem out))

        IsQueue-linked :
            (e : Ptr)
            → has e (with_semd a f sem v.ds) ≡ true
            → IsQueue g.pcbs (g.s_proc_q e) (enqueue w sem p (g.s_sem_add e))
        IsQueue-linked e m = elim (Bool-cases (e == f)) [
          | inl q ↦
              let q' = eq_of_== e f q in rw (q', new_add, ==-refl sem, v.absent sem no_semd) n.queue
          | inr q ↦
              let old : has e v.ds ≡ true = ground (arith, mem_split e) in
              let ne : (a.s_sem_add e == sem) ≡ false = no_semd e old in
              rw (old_add e old, ne, n.others e q, q)
                (kept-IsQueue sem p v idle g.pcbs (p ∷ []) (a.s_sem_add e) (a.s_proc_q e) n.frame
                  (v.queues e old)
                  (λ r k.
                    ground (arith, idle (a.s_sem_add e), has-apart r p (w (a.s_sem_add e)) k)))
        ]

        Absent-linked : (s : Addr) → Absent g s (with_semd a f sem v.ds) → enqueue w sem p s ≡ []
        Absent-linked s u =
            let ne : (s == sem) ≡ false = ground (arith, u f, mem_split f, new_add, ==-refl f) in
            rw ne (v.absent s λ e m. ground (arith, u e, mem_split e, old_add e m))

        busy_linked :
            (e : Ptr)
            → has e (with_semd a f sem v.ds) ≡ true
            → (g.s_sem_add e == max_int) ≡ false
            → 0 < length (enqueue w sem p (g.s_sem_add e))
        busy_linked e m u = elim (Bool-cases (e == f)) [
          | inl q ↦
              let q' = eq_of_== e f q in
              rw (q', new_add, ==-refl sem) (omega (arith, length-append {0} (w sem) (p ∷ [])))
          | inr q ↦
              let old : has e v.ds ≡ true = ground (arith, mem_split e) in
              rw (old_add e old)
                (busy_enqueue sem p v idle (a.s_sem_add e) (v.busy e old (rw (old_add e old) at u)))
        ]

        pub IsAsl-linked : IsAsl g (enqueue w sem p)
        IsAsl-linked = record {
          ds = with_semd a f sem v.ds;
          fs = fs;
          active = i;
          free = free_linked;
          distinct = (rw split at v.distinct).1;
          apart = λ d m. rw n.same_h (rw (mem_split d, (still_free d m).0) (still_free d m).1);
          count = omega (arith, length-with_semd a f sem v.ds, v.count, ap length split);
          queues = IsQueue-linked;
          absent = Absent-linked;
          busy = busy_linked;
          address = noted sem p v idle g.pcbs (p ∷ []) n.frame;
        }
