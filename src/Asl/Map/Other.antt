-- ===== src/Asl/Map/Other.antt =====
-- What `removeBlocked` of phase1/asl.c leaves as it was.
use kaya_project.Base.{
  ◌<◌, ◌≡◌, sym, ap, ◌∙◌, true, false, List, [], ◌∷◌, arith, ◌==◌, has, inl, inr, Bool-cases,
  ==-refl,
}
use kaya_project.Machine.{Ptr, Addr, max_int, Info}
use kaya_project.Pcb.Table.{Pcbs}
use kaya_project.Pcb.Queue.Links.{IsQueue, SameBut, IsQueue-frame}
use kaya_project.Pcb.Queue.Fifo.{IsQueue-cells}
use kaya_project.Asl.Table.{Asl}
use kaya_project.Asl.Blocked.Remove.{OnList}
use kaya_project.Asl.Map.{Waiting, IsAsl, apart_queues, dequeue, rest, Rising-injective}

module _ {a : Asl} {w : Waiting} (sem : Addr) (v : IsAsl a w) where
  pub dequeue-mem : (s : Addr) (q : Ptr) → has q (dequeue w sem s) ≡ true → has q (w s) ≡ true
  dequeue-mem s q m = elim (Bool-cases (s == sem)) [
    | inl e ↦ rest-mem (w s) (rw e at m)
    | inr e ↦ rw e at m
  ]
    where
      rest-mem : (xs : List Ptr) → has q (rest xs) ≡ true → has q xs ≡ true
      rest-mem [] m = m
      rest-mem (x ∷ xs) m = ground arith

  module _ (x : Ptr) (xs : List Ptr) (wait : w sem ≡ x ∷ xs) where
    pub address_kept :
        (h : Pcbs)
        → SameBut (x ∷ xs) a.pcbs h
        → (s : Addr) (q : Ptr) → has q (dequeue w sem s) ≡ true
        → (h.info q).sem_add ≡ s
    address_kept h f s q m = ap (λ i. Info.sem_add i) (f.info q) ∙ v.address s q (dequeue-mem s q m)

    pub other-IsQueue :
        (h : Pcbs)
        → SameBut (x ∷ xs) a.pcbs h
        → (s t : Addr) → (s == sem) ≡ false
        → IsQueue a.pcbs t (w s)
        → IsQueue h t (w s)
    other-IsQueue h f s t ne q = IsQueue-frame q f (λ b m. rw wait at (apart_queues v s sem b ne m))

    module _ (d : Ptr) (member : has d v.ds ≡ true) (here : a.s_sem_add d ≡ sem) where
      pub other_add :
          (e : Ptr) → has e v.ds ≡ true → (e == d) ≡ false → (a.s_sem_add e == sem) ≡ false
      other_add e m ne =
          ground (arith, Rising-injective a a.semd_h v.ds v.active.rising e d m member)

      pub on_list : 0 < sem → sem < max_int → OnList a v.ds x d x xs
      on_list pos top =
          let q : IsQueue a.pcbs (a.s_proc_q d) (x ∷ xs) =
            rw (← wait) (rw here at (v.queues d member)) in
          let e : (a.pcbs.info x).sem_add ≡ sem =
            v.address sem x (rw wait (ground (arith, ==-refl x))) in
          record {
            active = v.active;
            member = member;
            address = here ∙ sym e;
            positive = omega (arith, e);
            bounded = omega (arith, e);
            queue = q;
            cell = (IsQueue-cells a.pcbs (a.s_proc_q d) (x ∷ xs) q).0.0;
          }
