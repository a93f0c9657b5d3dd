-- ===== src/Pcb/Queue/Unlink.antt =====
-- The two writes by which `outProcQ` of phase1/pcb.c takes a block out of its ring.
use kaya_project.Base.{
  ◌≡◌, true, false, List, [], ◌∷◌, ◌++◌, arith, ◌==◌, ok, has, has-append, Nodup, update,
}
use kaya_project.Machine.{Ptr, IsCell}
use kaya_project.Pcb.Table.{Pcbs}
use kaya_project.Pcb.Queue.{unlink}
use kaya_project.Pcb.Queue.Links.{Links, Links-frame, Links-split, Nodup-rotate}

abbrev pub unlinked : Pcbs → Ptr → Pcbs
unlinked h p = record h {
  next = update h.next (h.prev p) (h.next p);
  prev = update h.prev (h.next p) (h.prev p);
}

pub unlink-ok :
    (h : Pcbs) (p : Ptr)
    → IsCell p
    → IsCell (h.next p)
    → IsCell (h.prev p)
    → (h.next p == p) ≡ false
    → unlink p h ≡ ok tt (unlinked h p)
unfolding unlink
unlink-ok h p c n v ne = ground arith

module _ (h : Pcbs) where
  -- The predecessor of the end of a chain, and the successor of its start, are members.
  pub prev-mem : (a p : Ptr) (xs : List Ptr) → Links h a xs p → has (h.prev p) (a ∷ xs) ≡ true
  prev-mem a p [] l = ground arith
  prev-mem a p (x ∷ xs) l = ground (arith, prev-mem x p xs l.2)

  pub next-mem : (p q : Ptr) (xs : List Ptr) → Links h p xs q → has (h.next p) (q ∷ xs) ≡ true
  next-mem p q [] l = ground arith
  next-mem p q (x ∷ xs) l = ground arith

  -- A block inside a chain goes out.
  pub unlinked-Links :
      (a p q : Ptr) (xs ys : List Ptr)
      → Links h a xs p
      → Links h p ys q
      → Nodup (a ∷ xs ++ p ∷ ys)
      → has q (xs ++ p ∷ ys) ≡ false
      → Links (unlinked h p) a (xs ++ ys) q
  unlinked-Links a p q [] [] l r n out = ground arith
  unlinked-Links a p q [] (y ∷ ys) l r n out = (
    ground arith,
    ground arith,
    Links-frame h (unlinked h p) y q ys r.2 (λ b m. ground arith) (λ b m. ground arith),
  )
  unlinked-Links a p q (x ∷ xs) ys l r n out = (
    ground (arith, prev-mem x p xs l.2, has-append a xs (p ∷ ys)),
    ground (arith, next-mem p q ys r, has-append x xs (p ∷ ys)),
    unlinked-Links x p q xs ys l.2 r n.1 (ground arith),
  )

  -- The tail of a ring goes out, and the member before it is the new tail.
  pub unlinked-tail :
      (t l : Ptr) (ys : List Ptr)
      → Links h t (ys ++ l ∷ []) t
      → Nodup (t ∷ ys ++ l ∷ [])
      → Links (unlinked h t) l ys l
  unlinked-tail t l [] k n = ground arith
  unlinked-tail t l (y ∷ ys) k n =
      let (front, back) = Links-split h t l t (y ∷ ys) [] k in
      (
        ground (arith, front, back, has-append y ys (l ∷ []), n.1),
        ground (arith, front, back),
        Links-frame h (unlinked h t) y l ys front.2 (λ a m. ground (arith, back, n.1, distinct))
            (λ a m. ground (arith, front, n.1, distinct, has-append y ys (l ∷ []))),
      )
    where
      distinct : Nodup (l ∷ y ∷ ys)
      distinct = Nodup-rotate l (y ∷ ys) n.1
