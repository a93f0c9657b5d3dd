-- ===== src/Asl/Map/Shorter.antt =====
-- The map after `removeBlocked` of phase1/asl.c, where others wait on.
use kaya_project.Base.{
  ◌<◌, ◌≡◌, ap, true, false, List, [], ◌∷◌, arith, ◌==◌, has, length, inl, inr, Bool-cases, ==-refl,
  eq_of_==,
}
use kaya_project.Machine.{Ptr, Addr}
use kaya_project.Pcb.Queue.Links.{IsQueue}
use kaya_project.Asl.Table.{Asl}
use kaya_project.Asl.Blocked.Link.{Absent}
use kaya_project.Asl.Blocked.Out.{Outed}
use kaya_project.Asl.Map.{Waiting, IsAsl, dequeue, IsActive-same, FreeChain-frame}
use kaya_project.Asl.Map.Other.{address_kept, other-IsQueue, other_add}

module _ {a : Asl} {w : Waiting} (sem : Addr) (v : IsAsl a w) where
  module _ (x : Ptr) (xs : List Ptr) (wait : w sem ≡ x ∷ xs) where
    module _ (d : Ptr) (member : has d v.ds ≡ true) (here : a.s_sem_add d ≡ sem) where
      pub IsAsl-rest :
          (y : Ptr) (ys : List Ptr)
          → xs ≡ y ∷ ys
          → (r : Ptr) (g : Asl) → Outed a x d (x ∷ xs) r g
          → IsAsl g (dequeue w sem)
      IsAsl-rest y ys more r g o = record {
        ds = v.ds;
        fs = v.fs;
        active = IsActive-same v.active o.same_next o.same_add o.same_h;
        free =
            rw o.same_free
              (FreeChain-frame a g a.semd_free v.fs v.free (λ e m. ap (λ f. f e) o.same_next));
        distinct = v.distinct;
        apart = rw o.same_h v.apart;
        count = v.count;
        queues = λ e m. rw o.same_add (queue_rest e m);
        absent = λ s u. absent_rest s (rw o.same_add at u);
        busy = λ e m u. rw o.same_add (busy_rest (a.s_sem_add e) (v.busy e m (rw o.same_add at u)));
        address = address_kept sem v x xs wait g.pcbs o.frame;
      }
        where
          queue_rest :
              (e : Ptr)
              → has e v.ds ≡ true
              → IsQueue g.pcbs (g.s_proc_q e) (dequeue w sem (a.s_sem_add e))
          queue_rest e m = elim (Bool-cases (e == d)) [
            | inl q ↦
                let q' = eq_of_== e d q in
                rw (q', here, ==-refl sem, wait) (rw (==-refl x) at o.queue)
            | inr q ↦
                let ne = other_add sem v x xs wait d member here e m q in
                rw (ne, o.others e q)
                  (other-IsQueue sem v x xs wait g.pcbs o.frame (a.s_sem_add e) (a.s_proc_q e) ne
                    (v.queues e m))
          ]

          absent_rest : (s : Addr) → Absent a s v.ds → dequeue w sem s ≡ []
          absent_rest s u =
              let ne : (s == sem) ≡ false = ground (arith, u d member) in rw ne (v.absent s u)

          busy_rest : (s : Addr) → 0 < length (w s) → 0 < length (dequeue w sem s)
          busy_rest s b = elim (Bool-cases (s == sem)) [
            | inl q ↦ let q' = eq_of_== s sem q in rw (q', ==-refl sem, wait, more) (omega arith)
            | inr q ↦ rw q b
          ]
