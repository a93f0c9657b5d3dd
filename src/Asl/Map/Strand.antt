-- ===== src/Asl/Map/Strand.antt =====
-- `outBlocked` of phase1/asl.c of the second process in a queue: the others are lost.
use mathlib.Core.Path.{subst}
use kaya_project.Base.{
  ◌<◌, ◌≡◌, refl, ◌∙◌, true, false, List, ◌∷◌, arith, ◌==◌, has, erase, has_of-erase,
  has-erase_self, inl, inr, Bool-cases, ==-refl, eq_of_==, ok, Returns,
}
use kaya_project.Base.Monad
use kaya_project.Machine.{Ptr, Addr, null, max_int, IsCell}
use kaya_project.Pcb.Queue.Links.{cell_not_null}
use kaya_project.Asl.Table.{Asl}
use kaya_project.Asl.Blocked.{out_blocked}
use kaya_project.Asl.Blocked.Link.{Absent, Rising-above}
use kaya_project.Asl.Blocked.Sorted.{IsActive, place, search_semd-place}
use kaya_project.Asl.Blocked.Out.{Dropped, semd_not_null}
use kaya_project.Asl.Blocked.Remove.{out_blocked-drops}
use kaya_project.Pcb.Table.{Pcbs}
use kaya_project.Pcb.Queue.Links.{SameBut}
use kaya_project.Asl.Map.{Waiting, IsAsl, IsActive-same, find_semd}
use kaya_project.Asl.Map.Skip.{Nodup-Rising, length-erase_mem, Rising-out}
use kaya_project.Asl.Map.Other.{other_add}
use kaya_project.Asl.Map.Room.{IsCell-of_waiting}
use kaya_project.Asl.Map.Leave.{OnList-member}

-- With no active descriptor at the address of a process, `outBlocked` returns NULL.
out_blocked-nobody :
    (a : Asl) (ds : List Ptr) (z : Ptr) (sem : Addr)
    → IsActive a ds
    → IsCell z
    → (a.pcbs.info z).sem_add ≡ sem
    → 0 < sem
    → sem < max_int
    → Absent a sem ds
    → out_blocked z a ≡ ok null a
unfolding out_blocked
out_blocked-nobody a ds z sem v c noted pos top none =
    let (run, b) = search_semd-place a sem ds v pos (omega arith) in
    rw
      (
        cell_not_null z c,
        noted,
        run,
        semd_not_null _ b.cell,
        semd_not_null _ b.next_cell,
        none _ b.member,
      )
      refl

module _ {a : Asl} {w : Waiting} (sem : Addr) (v : IsAsl a w) (pos : 0 < sem) (top : sem < max_int)
    (x y : Ptr) (ys : List Ptr) (wait : w sem ≡ x ∷ y ∷ ys) where
  module _ (d : Ptr) (member : has d v.ds ≡ true) (here : a.s_sem_add d ≡ sem) (r : Ptr) (g : Asl)
      (o : Dropped a y (place a sem a.semd_h v.ds) d x (y ∷ ys) r g) where
    head_ne : (a.semd_h == d) ≡ false
    head_ne = ground (arith, Rising-above a a.semd_h d v.ds v.active.rising)

    IsActive-dropped : IsActive g (erase d v.ds)
    IsActive-dropped = record {
      first = rw o.same_h v.active.first;
      low = rw o.same_h ((o.kept a.semd_h head_ne).1 ∙ v.active.low);
      rising = rw o.same_h (
          Rising-out a g d sem here a.semd_h v.ds v.active.rising member head_ne top
            (o.skipped, (λ e n u. (o.others e n u).0), (λ e n. (o.kept e n).1)));
      count = omega (arith, v.active.count, length-erase_mem d v.ds member);
    }

    Absent-dropped : Absent g sem (erase d v.ds)
    Absent-dropped e m = elim (Bool-cases (e == d)) [
      | inl q ↦
          let gone = has-erase_self d v.ds (Nodup-Rising a a.semd_h v.ds v.active.rising) in
          absurd (ground (arith, rw (eq_of_== e d q) at m, gone))
      | inr q ↦
          let i = has_of-erase e d v.ds m in
          rw (o.kept e q).1 (other_add sem v x (y ∷ ys) wait d member here e i q)
    ]

    stranded :
        (h : Pcbs) (z : Ptr)
        → has z (x ∷ y ∷ ys) ≡ true
        → (h.info z).sem_add ≡ sem
        → out_blocked z (record g { pcbs = h }) ≡ ok null (record g { pcbs = h })
    stranded h z i noted =
        out_blocked-nobody (record g { pcbs = h }) (erase d v.ds) z sem
          (IsActive-same IsActive-dropped refl refl refl) (IsCell-of_waiting v sem z (rw wait i))
          noted pos top Absent-dropped

  -- Whoever else waited for the semaphore is lost: `outBlocked` finds none of them, whatever becomes
  -- of the process control blocks as long as they bear its address.
  pub record Stranded (r : Ptr) (g : Asl) : Type 0 where
    pub found : r ≡ y
    pub lost :
        (h : Pcbs) (z : Ptr)
        → has z (x ∷ y ∷ ys) ≡ true
        → (h.info z).sem_add ≡ sem
        → out_blocked z (record g { pcbs = h }) ≡ ok null (record g { pcbs = h })
    pub frame : SameBut (x ∷ y ∷ ys) a.pcbs g.pcbs

  -- `outBlocked` of the second one in a queue returns it and strands the others.
  pub out_blocked-Stranded : Returns Stranded (out_blocked y a)
  out_blocked-Stranded = elim (find_semd a sem v.ds) [
    | inl (d, m, e) ↦
        let i : has y (x ∷ y ∷ ys) ≡ true = ground (arith, ==-refl y) in
        let noted : (a.pcbs.info y).sem_add ≡ sem = v.address sem y (rw wait i) in
        let l = OnList-member sem v pos top y x (y ∷ ys) wait d m e i in
        Monad.mono (out_blocked-drops a v.ds y d x (y ∷ ys) l refl) λ r g o. record {
          found = o.result;
          lost =
              stranded d m e r g
                (subst (λ s. Dropped a y (place a s a.semd_h v.ds) d x (y ∷ ys) r g) noted o);
          frame = o.frame;
        }
    | inr u ↦ absurd (cc (v.absent sem u))
  ]
