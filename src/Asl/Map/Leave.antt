-- ===== src/Asl/Map/Leave.antt =====
-- `outBlocked` of phase1/asl.c on the map: a process leaves the queue of its semaphore from anywhere
-- but the second place.
use kaya_project.Base.{
  ◌<◌, ◌≡◌, refl, sym, ap, ◌∙◌, true, false, Bool, List, [], ◌∷◌, arith, ◌==◌, has, length, erase,
  has_of-erase, if◌then◌else◌, inl, inr, Bool-cases, ==-refl, eq_of_==, Returns,
}
use kaya_project.Base.Monad
use kaya_project.Machine.{Ptr, Addr, max_int, Info}
use kaya_project.Pcb.Queue.Links.{IsQueue, IsQueue-frame, SameBut, All-mem}
use kaya_project.Pcb.Queue.Fifo.{IsQueue-cells}
use kaya_project.Asl.Table.{Asl}
use kaya_project.Asl.Blocked.{out_blocked}
use kaya_project.Asl.Blocked.Link.{Absent}
use kaya_project.Asl.Blocked.Out.{Outed}
use kaya_project.Asl.Blocked.Remove.{OnList, out_blocked-keeps}
use kaya_project.Asl.Map.{
  Waiting, IsAsl, dequeue, IsActive-same, FreeChain-frame, apart_queues, find_semd,
}
use kaya_project.Asl.Map.Other.{on_list, other_add}
use kaya_project.Asl.Map.Remove.{remove_blocked-IsAsl, remove_blocked-out_blocked}

-- `p` does not wait for `sem` any more.
abbrev pub leave : Waiting → Addr → Ptr → Waiting
leave w sem p s = if s == sem then erase p (w s) else w s

-- `p` stands second in the queue, where `outBlocked` takes it for the last one.
abbrev pub is_second : Ptr → List Ptr → Bool
is_second p [] = false
is_second p (x ∷ []) = false
is_second p (x ∷ y ∷ ys) = y == p

-- The map may be given by another function with the same queues.
IsAsl-ext : {a : Asl} {w u : Waiting} → ((s : Addr) → u s ≡ w s) → IsAsl a w → IsAsl a u
IsAsl-ext e v = record {
  ds = v.ds;
  fs = v.fs;
  active = v.active;
  free = v.free;
  distinct = v.distinct;
  apart = v.apart;
  count = v.count;
  queues = λ d m. rw (e _) (v.queues d m);
  absent = λ s n. e s ∙ v.absent s n;
  busy = λ d m n. rw (e _) (v.busy d m n);
  address = λ s p m. v.address s p (rw (e s) at m);
}

two_left : (p x y : Ptr) (ys : List Ptr) → 0 < length (erase p (x ∷ y ∷ ys))
two_left p x y ys = ground arith

module _ {a : Asl} {w : Waiting} (sem : Addr) (v : IsAsl a w) (p x : Ptr) (xs : List Ptr)
    (wait : w sem ≡ x ∷ xs) where
  module _ (d : Ptr) (member : has d v.ds ≡ true) (here : a.s_sem_add d ≡ sem) where
    -- Others wait on.
    IsAsl-leave :
        (y : Ptr) (ys : List Ptr)
        → xs ≡ y ∷ ys
        → (r : Ptr) (g : Asl) → Outed a p d (x ∷ xs) r g
        → IsAsl g (leave w sem p)
    IsAsl-leave y ys more r g o = record {
      ds = v.ds;
      fs = v.fs;
      active = IsActive-same v.active o.same_next o.same_add o.same_h;
      free =
          rw o.same_free
            (FreeChain-frame a g a.semd_free v.fs v.free (λ e m. ap (λ f. f e) o.same_next));
      distinct = v.distinct;
      apart = rw o.same_h v.apart;
      count = v.count;
      queues = λ e m. rw o.same_add (queue_left e m);
      absent = λ s u. absent_left s (rw o.same_add at u);
      busy = λ e m u. rw o.same_add (busy_left (a.s_sem_add e) (v.busy e m (rw o.same_add at u)));
      address =
          λ s q m. ap (λ i. Info.sem_add i) (o.frame.info q) ∙ v.address s q (leave-mem s q m);
    }
      where
        leave-mem : (s : Addr) (q : Ptr) → has q (leave w sem p s) ≡ true → has q (w s) ≡ true
        leave-mem s q m = elim (Bool-cases (s == sem)) [
          | inl e ↦ has_of-erase q p (w s) (rw e at m)
          | inr e ↦ rw e at m
        ]

        queue_left :
            (e : Ptr)
            → has e v.ds ≡ true
            → IsQueue g.pcbs (g.s_proc_q e) (leave w sem p (a.s_sem_add e))
        queue_left e m = elim (Bool-cases (e == d)) [
          | inl q ↦ let q' = eq_of_== e d q in rw (q', here, ==-refl sem, wait) o.queue
          | inr q ↦
              let ne = other_add sem v x xs wait d member here e m q in
              rw (ne, o.others e q)
                (IsQueue-frame (v.queues e m) o.frame
                  (λ b i. rw wait at (apart_queues v (a.s_sem_add e) sem b ne i)))
        ]

        absent_left : (s : Addr) → Absent a s v.ds → leave w sem p s ≡ []
        absent_left s u =
            let ne : (s == sem) ≡ false = ground (arith, u d member) in rw ne (v.absent s u)

        busy_left : (s : Addr) → 0 < length (w s) → 0 < length (leave w sem p s)
        busy_left s b = elim (Bool-cases (s == sem)) [
          | inl q ↦
              let q' = eq_of_== s sem q in rw (q', ==-refl sem, wait, more) (two_left p x y ys)
          | inr q ↦ rw q b
        ]

  -- `p` waits no longer; only queue links of those that waited for the semaphore change.
  abbrev pub Left : Ptr → Asl → Type 0
  Left r g = (r ≡ p) × IsAsl g (leave w sem p) × SameBut (x ∷ xs) a.pcbs g.pcbs

module _ {a : Asl} {w : Waiting} (sem : Addr) (v : IsAsl a w) (pos : 0 < sem) (top : sem < max_int)
    (p : Ptr) where
  leave-alone : (s : Addr) → w sem ≡ p ∷ [] → leave w sem p s ≡ dequeue w sem s
  leave-alone s wait = elim (Bool-cases (s == sem)) [
    | inl e ↦ rw (e, eq_of_== s sem e, wait, ==-refl p) refl
    | inr e ↦ rw e refl
  ]

  pub OnList-member :
      (x : Ptr) (xs : List Ptr) (wait : w sem ≡ x ∷ xs) (d : Ptr)
      → has d v.ds ≡ true
      → a.s_sem_add d ≡ sem
      → has p (x ∷ xs) ≡ true
      → OnList a v.ds p d x xs
  OnList-member x xs wait d m e i =
      let q = on_list sem v x xs wait d m e pos top in
      let noted : (a.pcbs.info p).sem_add ≡ sem = v.address sem p (rw wait i) in
      record {
        active = v.active;
        member = m;
        address = e ∙ sym noted;
        positive = omega (arith, noted);
        bounded = omega (arith, noted);
        queue = q.queue;
        cell = All-mem (x ∷ xs) p (IsQueue-cells a.pcbs (a.s_proc_q d) (x ∷ xs) q.queue).0 i;
      }

  -- `outBlocked` of a process that waits for a semaphore, and is not the second one behind another,
  -- returns it, and it waits no longer.
  pub out_blocked-Left :
      (x : Ptr) (xs : List Ptr) (wait : w sem ≡ x ∷ xs)
      → has p (x ∷ xs) ≡ true
      → is_second p (x ∷ xs) ≡ false
      → Returns (Left sem v p x xs wait) (out_blocked p a)
  out_blocked-Left x [] wait i ne =
      let q : p ≡ x = ground arith in
      rw (sym (remove_blocked-out_blocked sem v pos top p [] (rw q wait))) (
        Monad.mono (remove_blocked-IsAsl sem v pos top p [] (rw q wait))
          λ r g (e, n, f). (e, IsAsl-ext (λ s. leave-alone s (rw q wait)) n, rw (sym q) f))
  out_blocked-Left x (y ∷ ys) wait i ne = elim (find_semd a sem v.ds) [
    | inl (d, m, e) ↦
        Monad.mono
          (out_blocked-keeps a v.ds p d x (y ∷ ys) (OnList-member x (y ∷ ys) wait d m e i) ne)
          λ r g o. (
            ground (arith, o.result),
            IsAsl-leave sem v p x (y ∷ ys) wait d m e y ys refl r g o,
            o.frame,
          )
    | inr u ↦ absurd (cc (v.absent sem u))
  ]
