-- ===== src/Asl/Map/Alone.antt =====
-- The map after `removeBlocked` of phase1/asl.c, where the last one that waits is removed.
use mathlib.Core.Path.{subst}
use kaya_project.Base.{
  ◌<◌, ◌≡◌, sym, ◌∙◌, true, false, List, [], ◌∷◌, arith, ◌==◌, has, has-apart, inl, inr, Bool-cases,
  ==-refl, eq_of_==, erase, has-erase_of, has-erase_ne, has-erase_self,
}
use kaya_project.Machine.{Ptr, Addr, max_int}
use kaya_project.Asl.Table.{Asl}
use kaya_project.Asl.Blocked.Sorted.{place}
use kaya_project.Asl.Blocked.Link.{Absent, Rising-above, place-mem}
use kaya_project.Asl.Blocked.Out.{Dropped}
use kaya_project.Asl.Blocked.Start.{FreeChain}
use kaya_project.Asl.Map.{Waiting, IsAsl, dequeue, FreeChain-frame}
use kaya_project.Asl.Map.Skip.{Rising-IsSemd, Nodup-Rising, length-erase_mem, Rising-out}
use kaya_project.Asl.Map.Other.{address_kept, other-IsQueue, other_add}

module _ {a : Asl} {w : Waiting} (sem : Addr) (v : IsAsl a w) where
  module _ (x : Ptr) (xs : List Ptr) (wait : w sem ≡ x ∷ xs) where
    module _ (d : Ptr) (member : has d v.ds ≡ true) (here : a.s_sem_add d ≡ sem) where
      module _ (alone : xs ≡ []) (r : Ptr) (g : Asl) (top : sem < max_int)
          (o : Dropped a x (place a sem a.semd_h v.ds) d x [] r g) where
        parent_mem : has (place a sem a.semd_h v.ds) (a.semd_h ∷ v.ds) ≡ true
        parent_mem = place-mem a d sem a.semd_h v.ds

        head_ne : (a.semd_h == d) ≡ false
        head_ne = ground (arith, Rising-above a a.semd_h d v.ds v.active.rising)

        old : (e : Ptr) → has e (erase d v.ds) ≡ true → (has e v.ds ≡ true) × ((e == d) ≡ false)
        old e m = elim (Bool-cases (e == d)) [
          | inl q ↦
              let gone = has-erase_self d v.ds (Nodup-Rising a a.semd_h v.ds v.active.rising) in
              absurd (ground (arith, rw (eq_of_== e d q) at m, gone))
          | inr q ↦ (rw (has-erase_ne e d v.ds (λ f. ground (arith, ==-refl d))) at m, q)
        ]

        not_free :
            (e : Ptr) → has e v.fs ≡ true → ((e == d) ≡ false) × (has e (a.semd_h ∷ v.ds) ≡ false)
        not_free e m = (ground (arith, v.apart e m, member), v.apart e m)

        chain_alone : FreeChain g (g.s_next d) v.fs
        chain_alone = rw o.freed.1 (
            FreeChain-frame a g a.semd_free v.fs v.free λ e m.
              let (ne, out) = not_free e m in
              (o.others e
                (has-apart (place a sem a.semd_h v.ds) e (a.semd_h ∷ v.ds) parent_mem out).1 ne).0)

        gone : has d (a.semd_h ∷ erase d v.ds) ≡ false
        gone =
            let out = has-erase_self d v.ds (Nodup-Rising a a.semd_h v.ds v.active.rising) in
            rw out (ground (arith, head_ne))

        apart_alone : (e : Ptr) → has e (d ∷ v.fs) ≡ true → has e (a.semd_h ∷ erase d v.ds) ≡ false
        apart_alone e m = elim (Bool-cases (e == d)) [
          | inl q ↦ subst (λ k. has k (a.semd_h ∷ erase d v.ds) ≡ false) (sym (eq_of_== e d q)) gone
          | inr q ↦
              let (ne, out) = not_free e (ground arith) in
              let gone = has-erase_of e d v.ds (ground arith) in rw gone (ground arith)
        ]

        Absent-alone : (s : Addr) → Absent g s (erase d v.ds) → dequeue w sem s ≡ []
        Absent-alone s u = elim (Bool-cases (s == sem)) [
          | inl q ↦ let q' = eq_of_== s sem q in rw (q', ==-refl sem, wait) alone
          | inr q ↦ rw q (
              v.absent s λ e m. elim (Bool-cases (e == d)) [
                | inl f ↦ rw (eq_of_== e d f, here) (ground arith)
                | inr f ↦
                    rw (← (o.kept e f).1)
                      (u e (rw (has-erase_ne e d v.ds (λ k. ground (arith, ==-refl d))) m))
              ])
        ]

        pub IsAsl-alone : IsAsl g (dequeue w sem)
        IsAsl-alone = record {
          ds = erase d v.ds;
          fs = d ∷ v.fs;
          active = record {
            first = rw o.same_h v.active.first;
            low = rw o.same_h ((o.kept a.semd_h head_ne).1 ∙ v.active.low);
            rising = rw o.same_h (
                Rising-out a g d sem here a.semd_h v.ds v.active.rising member head_ne top
                  (o.skipped, (λ e n u. (o.others e n u).0), (λ e n. (o.kept e n).1)));
            count = omega (arith, v.active.count, length-erase_mem d v.ds member);
          };
          free = (o.freed.0, Rising-IsSemd a a.semd_h d v.ds v.active.rising member, chain_alone);
          distinct = (ground (arith, v.apart d, member), v.distinct);
          apart = λ e m. rw o.same_h (apart_alone e m);
          count = omega (arith, v.count, length-erase_mem d v.ds member);
          queues = λ e m.
              let (k, ne) = old e m in
              let far = other_add sem v x xs wait d member here e k ne in
              rw ((o.kept e ne).1, far, (o.kept e ne).0)
                (other-IsQueue sem v x xs wait g.pcbs (rw alone o.frame) (a.s_sem_add e)
                  (a.s_proc_q e) far (v.queues e k));
          absent = Absent-alone;
          busy = λ e m u.
              let (k, ne) = old e m in
              let far = other_add sem v x xs wait d member here e k ne in
              rw ((o.kept e ne).1, far) (v.busy e k (rw (o.kept e ne).1 at u));
          address = address_kept sem v x xs wait g.pcbs (rw alone o.frame);
        }
