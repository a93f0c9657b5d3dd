-- ===== src/Asl/Map/Remove.antt =====
-- `removeBlocked` and `headBlocked` of phase1/asl.c on the map.
use mathlib.Core.Path.{subst}
use kaya_project.Base.{
  ◌<◌, ◌≡◌, refl, sym, ap, ◌∙◌, true, false, List, [], ◌∷◌, arith, ◌==◌, has, inl, inr, Bool-cases,
  ==-refl, eq_of_==, ok, Returns,
}
use kaya_project.Base.Monad
use kaya_project.Machine.{Ptr, Addr, null, max_int}
use kaya_project.Pcb.Queue.Links.{IsQueue, SameBut}
use kaya_project.Pcb.Queue.Fifo.{IsQueue-cells, front}
use kaya_project.Asl.Table.{Asl}
use kaya_project.Asl.Blocked.{remove_blocked, head_blocked, out_blocked}
use kaya_project.Asl.Blocked.Sorted.{waiting, place, search_semd-place}
use kaya_project.Asl.Blocked.Link.{Absent}
use kaya_project.Asl.Blocked.Out.{Dropped, semd_not_null}
use kaya_project.Asl.Blocked.Remove.{remove_blocked-out, out_blocked-keeps, out_blocked-drops}
use kaya_project.Asl.Blocked.Head.{head_blocked-front}
use kaya_project.Asl.Map.{Waiting, IsAsl, dequeue, find_semd}
use kaya_project.Asl.Map.Other.{on_list}
use kaya_project.Asl.Map.Shorter.{IsAsl-rest}
use kaya_project.Asl.Map.Alone.{IsAsl-alone}

module _ {a : Asl} {w : Waiting} (sem : Addr) (v : IsAsl a w) where
  module _ (pos : 0 < sem) (top : sem < max_int) where
    -- `x` waits no longer; only queue links of those that waited with it change.
    abbrev pub Taken : Ptr → List Ptr → Ptr → Asl → Type 0
    Taken x xs r g = (r ≡ x) × IsAsl g (dequeue w sem) × SameBut (x ∷ xs) a.pcbs g.pcbs

    module _ (x : Ptr) (d : Ptr) (m : has d v.ds ≡ true) (e : a.s_sem_add d ≡ sem) where
      noted : (xs : List Ptr) → w sem ≡ x ∷ xs → (a.pcbs.info x).sem_add ≡ sem
      noted xs wait = v.address sem x (rw wait (ground (arith, ==-refl x)))

      remove_out : (xs : List Ptr) → w sem ≡ x ∷ xs → remove_blocked sem a ≡ out_blocked x a
      remove_out xs wait =
          subst (λ s. remove_blocked s a ≡ out_blocked x a) (noted xs wait)
            (remove_blocked-out a v.ds d x xs (on_list sem v x xs wait d m e pos top))

      taken : (xs : List Ptr) → w sem ≡ x ∷ xs → Returns (Taken x xs) (remove_blocked sem a)
      taken [] wait = rw (remove_out [] wait) (
          Monad.mono
            (out_blocked-drops a v.ds x d x [] (on_list sem v x [] wait d m e pos top) refl)
            λ r g o.
              let o' =
                subst (λ s. Dropped a x (place a s a.semd_h v.ds) d x [] r g) (noted [] wait) o in
              (o.result, IsAsl-alone sem v x [] wait d m e refl r g top o', o.frame))
      taken (y ∷ ys) wait =
          let o = on_list sem v x (y ∷ ys) wait d m e pos top in
          rw (remove_out (y ∷ ys) wait) (
            Monad.mono (out_blocked-keeps a v.ds x d x (y ∷ ys) o (apart o.queue)) λ r g n. (
              rw (==-refl x) at n.result,
              IsAsl-rest sem v x (y ∷ ys) wait d m e y ys refl r g n,
              n.frame,
            ))
        where
          apart : IsQueue a.pcbs (a.s_proc_q d) (x ∷ y ∷ ys) → (y == x) ≡ false
          apart q = ground (arith, (IsQueue-cells a.pcbs (a.s_proc_q d) (x ∷ y ∷ ys) q).1)

    -- For the first process that waits, `outBlocked` is `removeBlocked` of its semaphore.
    pub remove_blocked-out_blocked :
        (x : Ptr) (xs : List Ptr) → w sem ≡ x ∷ xs → remove_blocked sem a ≡ out_blocked x a
    remove_blocked-out_blocked x xs wait = elim (find_semd a sem v.ds) [
      | inl (d, m, e) ↦ remove_out x d m e xs wait
      | inr u ↦ absurd (cc (v.absent sem u))
    ]

    -- With the semaphore at an address between 0 and MAXINT: `removeBlocked` returns the first process
    -- that waits for it, and it waits no longer;
    -- only queue links of those that waited with it change.
    pub remove_blocked-IsAsl :
        (x : Ptr) (xs : List Ptr) → w sem ≡ x ∷ xs → Returns (Taken x xs) (remove_blocked sem a)
    remove_blocked-IsAsl x xs wait = elim (find_semd a sem v.ds) [
      | inl (d, m, e) ↦ taken x d m e xs wait
      | inr u ↦ absurd (cc (v.absent sem u))
    ]

    -- If nobody waits it returns NULL and changes nothing.
    pub remove_blocked-nobody : w sem ≡ [] → remove_blocked sem a ≡ ok null a
    unfolding remove_blocked
    remove_blocked-nobody none =
        let (run, b) = search_semd-place a sem v.ds v.active pos (omega arith) in
        rw (run, semd_not_null _ b.cell, semd_not_null _ b.next_cell, other _ none b.member)
      where
        other : (d : Ptr) → w sem ≡ [] → has d v.ds ≡ true → (a.s_sem_add d == sem) ≡ false
        other d none m = elim (Bool-cases (a.s_sem_add d == sem)) [
          | inl e ↦
              let e' = eq_of_== (a.s_sem_add d) sem e in
              absurd (ground (arith, v.busy d m, rw (e', none) at (v.busy d m)))
          | inr e ↦ e
        ]

    waiting-map :
        (ds : List Ptr)
        → (Absent a sem ds → w sem ≡ [])
        → waiting a sem (λ d. w (a.s_sem_add d)) ds ≡ w sem
    waiting-map [] none = sym (none λ d m. cc)
    waiting-map (d ∷ ds) none = elim (Bool-cases (a.s_sem_add d == sem)) [
      | inl e ↦ rw (e, eq_of_== (a.s_sem_add d) sem e)
      | inr e ↦ rw e (
          waiting-map ds λ u. none λ c m. elim (Bool-cases (c == d)) [
            | inl f ↦ rw (eq_of_== c d f) e
            | inr f ↦ u c (ground arith)
          ])
    ]

    -- `headBlocked` returns the first one, or NULL, and changes nothing.
    pub head_blocked-IsAsl : head_blocked sem a ≡ ok (front (w sem)) a
    head_blocked-IsAsl =
        head_blocked-front a (λ d. w (a.s_sem_add d)) sem v.ds v.active v.queues pos (omega arith)
        ∙ ap (λ l. ok (front l) a) (waiting-map v.ds (v.absent sem))
