-- ===== src/Asl/Map/Insert.antt =====
-- `insertBlocked` of phase1/asl.c adds to the map.
use mathlib.Core.Path.{subst}
use kaya_project.Base.{
  Bool, ◌<◌, ◌≡◌, refl, sym, ap, true, false, List, [], ◌∷◌, arith, ◌==◌, has, length, inl, inr,
  Bool-cases, ==-refl, eq_of_==, Returns,
}
use kaya_project.Base.Monad
use kaya_project.Machine.{Ptr, Addr, max_int, IsCell}
use kaya_project.Pcb.Queue.Links.{IsQueue, SameBut}
use kaya_project.Asl.Table.{Asl}
use kaya_project.Asl.Blocked.{insert_blocked}
use kaya_project.Asl.Blocked.Sorted.{IsSemd}
use kaya_project.Asl.Blocked.Link.{place-mem, Absent}
use kaya_project.Asl.Blocked.Insert.{
  Enqueued, marked, before, insert_blocked-Enqueued, insert_blocked-with_semd,
}
use kaya_project.Asl.Blocked.Start.{FreeChain}
use kaya_project.Asl.Map.{
  Waiting, IsAsl, enqueue, find_semd, Rising-injective, IsActive-same, FreeChain-frame,
}
use kaya_project.Asl.Map.Room.{free_semd_left}
use kaya_project.Asl.Map.Linked.{IsAsl-linked}
use kaya_project.Asl.Map.Kept.{kept-IsQueue, outside, noted, busy_enqueue}

module _ {a : Asl} {w : Waiting} (sem : Addr) (p : Ptr) (v : IsAsl a w) where
  module _ (idle : (s : Addr) → has p (w s) ≡ false) where
    module _ (d : Ptr) (member : has d v.ds ≡ true) (here : a.s_sem_add d ≡ sem) where
      IsQueue-active :
          (g : Asl)
          → Enqueued a d sem p (w sem) g
          → (e : Ptr) → has e v.ds ≡ true
          → IsQueue g.pcbs (g.s_proc_q e) (enqueue w sem p (a.s_sem_add e))
      IsQueue-active g n e m = elim (Bool-cases (e == d)) [
        | inl q ↦ let q' = eq_of_== e d q in rw (q', here, ==-refl sem) n.queue
        | inr q ↦
            let ne : (a.s_sem_add e == sem) ≡ false =
              ground (arith, Rising-injective a a.semd_h v.ds v.active.rising e d m member) in
            rw (ne, n.others e q)
              (kept-IsQueue sem p v idle g.pcbs (p ∷ w sem) (a.s_sem_add e) (a.s_proc_q e) n.frame
                (v.queues e m) (outside sem p v idle (a.s_sem_add e) ne))
      ]

      Absent-active : (s : Addr) → Absent a s v.ds → enqueue w sem p s ≡ []
      Absent-active s u =
          let ne : (s == sem) ≡ false = ground (arith, u d member) in rw ne (v.absent s u)

      IsAsl-active : (g : Asl) → Enqueued a d sem p (w sem) g → IsAsl g (enqueue w sem p)
      IsAsl-active g n = record {
        ds = v.ds;
        fs = v.fs;
        active = IsActive-same v.active n.same_next n.same_add n.same_h;
        free =
            rw n.same_free
              (FreeChain-frame a g a.semd_free v.fs v.free (λ e m. ap (λ f. f e) n.same_next));
        distinct = v.distinct;
        apart = rw n.same_h v.apart;
        count = v.count;
        queues = λ e m. rw n.same_add (IsQueue-active g n e m);
        absent = λ s u. Absent-active s (rw n.same_add at u);
        busy = λ e m u.
            rw n.same_add
              (busy_enqueue sem p v idle (a.s_sem_add e) (v.busy e m (rw n.same_add at u)));
        address = noted sem p v idle g.pcbs (p ∷ w sem) n.frame;
      }

  -- Which queue entry comes about, and what else changes in the process control blocks.
  abbrev pub Inserted : Bool → Asl → Type 0
  Inserted r g =
      (r ≡ false) × IsAsl g (enqueue w sem p) × SameBut (p ∷ w sem) (marked a.pcbs p sem) g.pcbs

  -- For a semaphore between the sentinels and a block that waits nowhere, `insertBlocked` succeeds
  -- and puts it behind all that wait for the semaphore; only the address in it and queue links of
  -- it and of these change.
  pub insert_blocked-IsAsl :
      0 < sem
      → sem < max_int
      → IsCell p
      → ((s : Addr) → has p (w s) ≡ false)
      → Returns Inserted (insert_blocked sem p a)
  insert_blocked-IsAsl pos top c idle = elim (find_semd a sem v.ds) [
    | inl (d, m, e) ↦
        Monad.mono
          (insert_blocked-Enqueued a v.ds sem p d (w sem) v.active m e pos (omega arith)
            (rw e at (v.queues d m)) c (idle sem))
          λ r g (o, n). (o, IsAsl-active idle d m e g n, n.frame)
    | inr u ↦
        let (f, fs, split) = first_free v.fs refl (free_semd_left v p c idle) in
        let chain : (a.semd_free ≡ f) × IsSemd f × FreeChain a (a.s_next f) fs =
          subst (λ l. FreeChain a a.semd_free l) split v.free in
        let b = before a v.ds sem p in
        Monad.mono
          (insert_blocked-with_semd a v.ds sem p f v.active u pos (omega arith) chain.0 chain.1
            (v.apart f (subst (λ l. has f l ≡ true) (sym split) (ground (arith, ==-refl f))))
            (omega (arith, v.count, ap length split)) c)
          λ r g (o, i, n). (
            o,
            IsAsl-linked sem p v idle f fs split u (ground arith) b
                (place-mem a f sem a.semd_h v.ds) g i n,
            rw (v.absent sem u) n.frame,
          )
  ]
    where
      first_free :
          (fs : List Ptr)
          → fs ≡ v.fs
          → 0 < length fs
          → (f : Ptr) × (gs : List Ptr) × (v.fs ≡ f ∷ gs)
      first_free [] e h = absurd (omega arith)
      first_free (f ∷ gs) e h = (f, gs, sym e)
