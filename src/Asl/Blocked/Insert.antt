-- ===== src/Asl/Blocked/Insert.antt =====
-- `insertBlocked` of phase1/asl.c puts a process behind those that wait for a semaphore.
use kaya_project.Base.{
  ◌≤◌, ◌<◌, ◌≡◌, refl, ap, true, false, List, [], ◌∷◌, ◌++◌, arith, ◌==◌, ok, has, has-apart,
  length, update, pure, and_then, ◌>>◌, Returns, returns, ==-refl,
}
use kaya_project.Base.Monad
use kaya_project.Machine.{Ptr, Addr, null, max_int, max_proc, IsCell}
use kaya_project.Pcb.Table.{Pcbs}
use kaya_project.Pcb.Queue.Links.{IsQueue, empty, IsQueue-same, cell_not_null, SameBut}
use kaya_project.Pcb.Queue.Insert.{Appended, insert_proc_q-append}
use kaya_project.Asl.Table.{Asl, set_s_proc_q, set_sem_add}
use kaya_project.Asl.List.{allocate_semd, clean_semd}
use kaya_project.Asl.Blocked.{insert_blocked, enqueue_on}
use kaya_project.Asl.Blocked.Sorted.{IsSemd, IsActive, search_semd-place, place}
use kaya_project.Asl.Blocked.Link.{
  linked, with_semd, Absent, place-mem, Rising-linked, Rising-frame, length-with_semd,
}
use kaya_project.Asl.Blocked.Remove.{place-finds}
use kaya_project.Asl.Blocked.Out.{semd_not_null}

-- The table with the semaphore's address noted in `p`.
abbrev pub marked : Pcbs → Ptr → Addr → Pcbs
marked h p sem = record h { info = update h.info p (record (h.info p) { sem_add = sem }) }

SameBut-marked :
    {h g : Pcbs} {zs : List Ptr} (p : Ptr) (sem : Addr)
    → SameBut zs h g
    → SameBut zs (marked h p sem) (marked g p sem)
SameBut-marked p sem s = record {
  next = s.next;
  prev = s.prev;
  prnt = s.prnt;
  child = s.child;
  sib = s.sib;
  prevsib = s.prevsib;
  info = λ a. ground (arith, s.info a, s.info p);
  free = s.free;
}

module _ (a : Asl) (semd : Ptr) (sem : Addr) (p : Ptr) where
  -- `p` waits behind `xs` for `sem`, and no descriptor has changed otherwise.
  pub record Enqueued (xs : List Ptr) (g : Asl) : Type 0 where
    pub queue : IsQueue g.pcbs (g.s_proc_q semd) (xs ++ p ∷ [])
    pub address : (g.pcbs.info p).sem_add ≡ sem
    pub others : (d : Ptr) → (d == semd) ≡ false → g.s_proc_q d ≡ a.s_proc_q d
    pub same_next : g.s_next ≡ a.s_next
    pub same_add : g.s_sem_add ≡ a.s_sem_add
    pub same_h : g.semd_h ≡ a.semd_h
    pub same_free : g.semd_free ≡ a.semd_free
    pub frame : SameBut (p ∷ xs) (marked a.pcbs p sem) g.pcbs

  abbrev InPcbs : List Ptr → Ptr → Asl → Type 0
  InPcbs xs t g = Appended a.pcbs (a.s_proc_q semd) p xs t g.pcbs × (g ≡ record a { pcbs = g.pcbs })

  after :
      (xs : List Ptr)
      → IsSemd semd
      → IsCell p
      → (t : Ptr) (g : Asl) → InPcbs xs t g
      → Returns (λ _ f. Enqueued xs f) ((do set_s_proc_q semd t; set_sem_add p sem) g)
  unfolding set_s_proc_q set_sem_add
  after xs c k t g (m, e) =
      rw (semd_not_null semd c, cell_not_null p k)
        (returns (record {
          queue = rw (==-refl semd) (IsQueue-same m.0 (λ b i. refl) (λ b i. refl));
          address = ground (arith, ==-refl p);
          others = λ d n. rw n (ap (λ b. Asl.s_proc_q b d) e);
          same_next = ap (λ b. Asl.s_next b) e;
          same_add = ap (λ b. Asl.s_sem_add b) e;
          same_h = ap (λ b. Asl.semd_h b) e;
          same_free = ap (λ b. Asl.semd_free b) e;
          frame = SameBut-marked p sem m.1;
        }))

  enqueue_on-append :
      (xs : List Ptr)
      → IsSemd semd
      → IsCell p
      → has p xs ≡ false
      → IsQueue a.pcbs (a.s_proc_q semd) xs
      → Returns (λ _ g. Enqueued xs g) (enqueue_on semd sem p a)
  unfolding enqueue_on
  enqueue_on-append xs c k out q = rw (semd_not_null semd c) (
      Monad.bind
        (Monad.lift (λ h. record a { pcbs = h })
          (insert_proc_q-append a.pcbs (a.s_proc_q semd) p xs q k out) λ r h m. (m, refl))
        (after xs c k))

module _ (a : Asl) (ds : List Ptr) (sem : Addr) (p : Ptr) where
  -- Where an active descriptor has the address, `insertBlocked` puts `p` behind those that wait
  -- there, notes the address in it and returns FALSE; the active list stays as it was.
  pub insert_blocked-Enqueued :
      (semd : Ptr) (xs : List Ptr)
      → IsActive a ds
      → has semd ds ≡ true
      → a.s_sem_add semd ≡ sem
      → 0 < sem
      → sem ≤ max_int
      → IsQueue a.pcbs (a.s_proc_q semd) xs
      → IsCell p
      → has p xs ≡ false
      → Returns (λ r g. (r ≡ false) × Enqueued a semd sem p xs g) (insert_blocked sem p a)
  unfolding insert_blocked
  insert_blocked-Enqueued semd xs i m e pos top q c out =
      let (run, b) = search_semd-place a sem ds i pos top in
      let found = place-finds a sem a.semd_h semd ds i.rising m e in
      let k : IsSemd semd = rw found at b.next_cell in
      rw (run, semd_not_null _ b.cell, found, semd_not_null semd k, e, ==-refl sem)
        (Monad.bind (enqueue_on-append a semd sem p xs k c out q) λ _ g n. returns (refl, n))

  -- With no descriptor left, `insertBlocked` for a semaphore that is not active returns TRUE and
  -- changes nothing.
  pub insert_blocked-full :
      IsActive a ds
      → Absent a sem ds
      → 0 < sem
      → sem ≤ max_int
      → a.semd_free ≡ null
      → insert_blocked sem p a ≡ ok true a
  unfolding insert_blocked allocate_semd
  insert_blocked-full i fresh pos top none =
      let (run, b) = search_semd-place a sem ds i pos top in
      rw (run, semd_not_null _ b.cell, semd_not_null _ b.next_cell, fresh _ b.member, none) refl

  allocate_semd-free :
      (f : Ptr)
      → a.semd_free ≡ f
      → IsSemd f
      → allocate_semd sem a
        ≡ ok f (record a {
          semd_free = a.s_next f;
          s_next = update a.s_next f null;
          s_sem_add = update a.s_sem_add f sem;
          s_proc_q = update a.s_proc_q f null;
        })
  unfolding allocate_semd clean_semd
  allocate_semd-free f e c = ground arith

  insert_blocked-linked :
      (f : Ptr)
      → IsActive a ds
      → Absent a sem ds
      → 0 < sem
      → sem ≤ max_int
      → a.semd_free ≡ f
      → IsSemd f
      → (place a sem a.semd_h ds == f) ≡ false
      → insert_blocked sem p a
        ≡ and_then (enqueue_on f sem p (linked a f sem (place a sem a.semd_h ds))) (λ _. pure false)
  unfolding insert_blocked
  insert_blocked-linked f i fresh pos top e c ne =
      let (run, b) = search_semd-place a sem ds i pos top in
      rw
        (
          run,
          semd_not_null _ b.cell,
          semd_not_null _ b.next_cell,
          fresh _ b.member,
          allocate_semd-free f e c,
          semd_not_null f c,
          semd_not_null _ b.cell,
          ne,
          semd_not_null f c,
          semd_not_null _ b.cell,
        )
        refl

  abbrev pub before : Ptr
  before = place a sem a.semd_h ds

  -- A step that leaves the list as it is after `linked` leaves it in order, with the new descriptor.
  IsActive-linked :
      (f : Ptr) (g : Asl)
      → IsActive a ds
      → Absent a sem ds
      → 0 < sem
      → sem ≤ max_int
      → IsSemd f
      → has f (a.semd_h ∷ ds) ≡ false
      → length ds ≤ max_proc
      → Enqueued (linked a f sem before) f sem p [] g
      → IsActive g (with_semd a f sem ds)
  IsActive-linked f g i fresh pos top c out short n =
      let b = linked a f sem before in
      let order =
        Rising-linked a f sem a.semd_h ds i.rising c (ground (arith, i.low)) top out fresh in
      record {
        first = rw n.same_h i.first;
        low = rw (n.same_h, n.same_add) (ground (arith, i.low));
        rising = rw n.same_h (
            Rising-frame b g a.semd_h (with_semd a f sem ds) order
              (λ d m. ap (λ u. u d) n.same_next) (λ d m. ap (λ u. u d) n.same_add));
        count = omega (arith, length-with_semd a f sem ds);
      }

  -- For a semaphore above 0 that is not active, with a free descriptor and at most `max_proc` behind
  -- the first one in the active list, `insertBlocked` returns FALSE; the first free descriptor is
  -- then in its place in the active list, which is still in order, with `p` alone in its queue.
  pub insert_blocked-with_semd :
      (f : Ptr)
      → IsActive a ds
      → Absent a sem ds
      → 0 < sem
      → sem ≤ max_int
      → a.semd_free ≡ f
      → IsSemd f
      → has f (a.semd_h ∷ ds) ≡ false
      → length ds ≤ max_proc
      → IsCell p
      → Returns
          (λ r g.
            (r ≡ false)
            × IsActive g (with_semd a f sem ds)
            × Enqueued (linked a f sem before) f sem p [] g)
          (insert_blocked sem p a)
  insert_blocked-with_semd f i fresh pos top e c out short k =
      let member = place-mem a f sem a.semd_h ds in
      rw
        (insert_blocked-linked f i fresh pos top e c
          (has-apart before f (a.semd_h ∷ ds) member out).0)
        (Monad.bind
          (enqueue_on-append (linked a f sem before) f sem p [] c k refl
            (empty (ground (arith, ==-refl f)) refl))
          λ _ g n. returns (refl, IsActive-linked f g i fresh pos top c out short n, n))
