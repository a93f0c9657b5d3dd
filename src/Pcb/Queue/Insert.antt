-- ===== src/Pcb/Queue/Insert.antt =====
-- `insertProcQ` of phase1/pcb.c appends to the queue.
use kaya_project.Base.{
  ◌≡◌, refl, false, List, [], ◌∷◌, ◌++◌, arith, ok, has, has-append, Nodup, All-append, update,
  Returns, returns,
}
use kaya_project.Machine.{Ptr, null, IsCell}
use kaya_project.Pcb.Table.{Pcbs}
use kaya_project.Pcb.Queue.{insert_proc_q}
use kaya_project.Pcb.Queue.Links.{
  Links, Ring, IsQueue, empty, ring, SameBut, Links-frame, Links-append, Nodup-snoc,
}

-- The table after the writes of the second branch.
abbrev appended : Pcbs → (t p : Ptr) → Pcbs
appended h t p = record h {
  next = update (update h.next p (h.next t)) t p;
  prev = update (update h.prev (h.next t) p) p t;
}

module _ (h : Pcbs) (t p : Ptr) where
  appended-Links :
      (ys : List Ptr)
      → Links h t ys t
      → Nodup (t ∷ ys)
      → has p (t ∷ ys) ≡ false
      → Links (appended h t p) p (ys ++ t ∷ []) p
  appended-Links [] l n out = ground arith
  appended-Links (y ∷ ys) l n out = (
    ground arith,
    ground arith,
    Links-append (appended h t p) y t p ys []
        (Links-frame h (appended h t p) y t ys l.2 (λ a m. ground arith) (λ a m. ground arith))
        (ground arith),
  )

  appended-Ring :
      (ys : List Ptr)
      → Ring h t ys
      → IsCell p
      → has p (t ∷ ys) ≡ false
      → Ring (appended h t p) p (ys ++ t ∷ [])
  appended-Ring ys r c out = record {
    links = appended-Links ys r.links r.distinct out;
    distinct = (ground (arith, has-append p ys (t ∷ [])), Nodup-snoc t ys r.distinct);
    cells = (c, All-append IsCell ys (t ∷ []) r.cells.1 (r.cells.0, tt));
  }

  SameBut-appended : (ys : List Ptr) → Ring h t ys → SameBut (p ∷ ys ++ t ∷ []) h (appended h t p)
  SameBut-appended [] r = record {
    next = λ a m. ground arith;
    prev = λ a m. ground (arith, r.links);
    prnt = λ a. refl;
    child = λ a. refl;
    sib = λ a. refl;
    prevsib = λ a. refl;
    info = λ a. refl;
    free = refl;
  }
  SameBut-appended (y ∷ ys) r = record {
    next = λ a m. ground (arith, has-append a ys (t ∷ []));
    prev = λ a m. ground (arith, r.links, has-append a ys (t ∷ []));
    prnt = λ a. refl;
    child = λ a. refl;
    sib = λ a. refl;
    prevsib = λ a. refl;
    info = λ a. refl;
    free = refl;
  }

  -- The new queue, behind a step that leaves everything else as it was.
  abbrev pub Appended : List Ptr → Ptr → Pcbs → Type 0
  Appended xs t' g = IsQueue g t' (xs ++ p ∷ []) × SameBut (p ∷ xs) h g

  head-IsCell : (ys : List Ptr) → Ring h t ys → IsCell (h.next t)
  head-IsCell [] r = ground (arith, r.links, r.cells)
  head-IsCell (y ∷ ys) r = ground (arith, r.links, r.cells)

  -- The first branch makes a ring of one.
  insert_proc_q-first :
      t ≡ null
      → IsCell p
      → insert_proc_q t p h ≡ ok p (record h { next = update h.next p p; prev = update h.prev p p })
  unfolding insert_proc_q
  insert_proc_q-first e c = ground arith

  -- The writes of the second branch do not fault.
  insert_proc_q-appended :
      (ys : List Ptr) → Ring h t ys → IsCell p → insert_proc_q t p h ≡ ok p (appended h t p)
  unfolding insert_proc_q
  insert_proc_q-appended ys r c = ground (arith, r.cells, head-IsCell ys r)

  -- `insertProcQ` of a block that is not in the queue puts it at the end; only the queue links of
  -- the block and of the queue's members change.
  pub insert_proc_q-append :
      (xs : List Ptr)
      → IsQueue h t xs
      → IsCell p
      → has p xs ≡ false
      → Returns (Appended xs) (insert_proc_q t p h)
  insert_proc_q-append xs (empty e f) c out =
      rw (insert_proc_q-first e c, f)
        (returns (
          ring [] refl (record { links = ground arith; distinct = (refl, tt); cells = (c, tt) }),
          record {
            next = λ a m. ground arith;
            prev = λ a m. ground arith;
            prnt = λ a. refl;
            child = λ a. refl;
            sib = λ a. refl;
            prevsib = λ a. refl;
            info = λ a. refl;
            free = refl;
          },
        ))
  insert_proc_q-append xs (ring ys e r) c out =
      rw (insert_proc_q-appended ys r c, e)
        (returns (
          ring (ys ++ t ∷ []) refl
              (appended-Ring ys r c (ground (arith, e, has-append p ys (t ∷ [])))),
          SameBut-appended ys r,
        ))
