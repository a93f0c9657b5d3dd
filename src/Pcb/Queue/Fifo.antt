-- ===== src/Pcb/Queue/Fifo.antt =====
-- The process queues of phase1/pcb.c as first-in first-out queues.
use kaya_project.Base.{
  ◌≡◌, List, [], ◌∷◌, arith, ◌==◌, ok, Nodup, All, Returns, erase, All-append, length, ==-refl,
}
use kaya_project.Base.Monad
use kaya_project.Machine.{Ptr, null, IsCell}
use kaya_project.Pcb.Table.{Pcbs, get_next-ok}
use kaya_project.Pcb.Queue.{empty_proc_q, head_proc_q, remove_proc_q}
use kaya_project.Pcb.Queue.Links.{cell_not_null, Nodup-snoc, IsQueue, empty, ring, SameBut}
use kaya_project.Pcb.Queue.Out.{Removed, out_proc_q-erase}

-- The head of a queue, or NULL.
abbrev pub front : List Ptr → Ptr
front [] = null
front (x ∷ _) = x

module _ (h : Pcbs) (t : Ptr) where
  pub IsQueue-cells : (xs : List Ptr) → IsQueue h t xs → All IsCell xs × Nodup xs
  IsQueue-cells xs (empty e f) = rw f (tt, tt)
  IsQueue-cells xs (ring ys e r) =
      rw e (All-append IsCell ys (t ∷ []) r.cells.1 (r.cells.0, tt), Nodup-snoc t ys r.distinct)

  pub IsQueue-nil : IsQueue h t [] → t ≡ null
  IsQueue-nil (empty e f) = e
  IsQueue-nil (ring [] e r) = cc
  IsQueue-nil (ring (y ∷ ys) e r) = cc

  pub head-eq_next : (x : Ptr) (xs : List Ptr) → IsQueue h t (x ∷ xs) → IsCell t × (h.next t ≡ x)
  head-eq_next x xs (empty e f) = cc
  head-eq_next x xs (ring [] e r) = ground (arith, r.cells, r.links)
  head-eq_next x xs (ring (y ∷ ys) e r) = ground (arith, r.cells, r.links)

  -- The tail pointer tells whether the queue is empty.
  empty_proc_q-length : (xs : List Ptr) → IsQueue h t xs → empty_proc_q t ≡ (length xs == 0)
  unfolding empty_proc_q
  empty_proc_q-length [] q = ground (arith, IsQueue-nil q)
  empty_proc_q-length (x ∷ xs) q = ground (arith, (head-eq_next x xs q).0)

  -- `headProcQ` is the first member, or NULL for an empty queue, and changes nothing.
  pub head_proc_q-front : (xs : List Ptr) → IsQueue h t xs → head_proc_q t h ≡ ok (front xs) h
  unfolding head_proc_q
  head_proc_q-front [] q = ground (arith, IsQueue-nil q)
  head_proc_q-front (x ∷ xs) q = let (c, e) = head-eq_next x xs q in ground arith

  abbrev pub Dequeued : Ptr → List Ptr → List Ptr → Ptr × Ptr → Pcbs → Type 0
  Dequeued x whole xs (found, t') g = (found ≡ x) × IsQueue g t' xs × SameBut whole h g

  -- `removeProcQ` on a queue that is not empty returns its first member and leaves the rest, in
  -- order; only queue links of its members change.
  pub remove_proc_q-cons :
      (x : Ptr) (xs : List Ptr)
      → IsQueue h t (x ∷ xs)
      → Returns (Dequeued x (x ∷ xs) xs) (remove_proc_q t h)
  unfolding remove_proc_q
  remove_proc_q-cons x xs q =
      let (c, e) = head-eq_next x xs q in
      rw (cell_not_null t c, get_next-ok t h c, e)
        (Monad.mono (out_proc_q-erase h t x (x ∷ xs) q) λ r g p. first_out r g p)
    where
      head_out : erase x (x ∷ xs) ≡ xs
      head_out = ground (arith, ==-refl x)

      first_out :
          (r : Ptr × Ptr) (g : Pcbs) → Removed h t x (x ∷ xs) r g → Dequeued x (x ∷ xs) xs r g
      first_out (found, t') g (f, q', s) = (ground (arith, ==-refl x), rw head_out at q', s)

  pub remove_proc_q-nil : IsQueue h t [] → remove_proc_q t h ≡ ok (null, t) h
  unfolding remove_proc_q
  remove_proc_q-nil q = ground (arith, IsQueue-nil q)
