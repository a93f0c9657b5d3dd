-- ===== src/Pcb/Queue/Out.antt =====
-- `outProcQ` and `removeProcQ` of phase1/pcb.c: a block leaves its queue.
use kaya_project.Base.{
  ℕ, zero, suc, ◌<◌, ◌≡◌, refl, ap, ◌∙◌, true, false, List, [], ◌∷◌, ◌++◌, arith, ◌==◌,
  if◌then◌else◌, ok, has, has-append, length, Nodup, All, Returns, returns, erase, erase_absent,
  erase-split, erase-append, All-erase, Nodup-erase, has-erase_of, Split, Split-at, Snoc, Snoc-view,
  length-le_of_Nodup, Bool-cases, eq_of_==, inl, inr,
}
use kaya_project.Machine.{Ptr, null, max_proc, IsCell, Exit}
use kaya_project.Pcb.Table.{Pcbs, get_next-ok, get_prev-ok}
use kaya_project.Pcb.Queue.{unlink, search_q, out_proc_q}
use kaya_project.Pcb.Queue.Links.{
  Links, Ring, IsQueue, empty, ring, SameBut, cell_not_null, All-mem, Links-split, Nodup-rotate,
  All-rotate,
}
use kaya_project.Pcb.Queue.Unlink.{
  unlinked, unlink-ok, unlinked-Links, unlinked-tail, prev-mem, next-mem,
}

module _ (h : Pcbs) (t p : Ptr) where
  -- The search from the successor of `b` finds `p` and takes it out, or comes to the tail.
  search_q-has :
      (k : ℕ) (b : Ptr) (zs : List Ptr)
      → Links h b zs t
      → All IsCell (t ∷ b ∷ zs)
      → Nodup zs
      → has t zs ≡ false
      → length zs < k
      → search_q k t p (h.next b) h ≡ (if has p zs then ok p (unlinked h p) else ok null h)
  unfolding search_q
  search_q-has zero b zs l c d out fuel = absurd (omega arith)
  search_q-has (suc k) b [] l c d out fuel = ground arith
  search_q-has (suc k) b (z ∷ zs) l c d out fuel =
      let ne : (z == t) ≡ false = ground arith in
      rw (l.0, ne)
        (elim (Bool-cases (z == p)) [
          | inl e ↦ rw (e, found) (ground arith)
          | inr e ↦
              rw
                (
                  e,
                  get_next-ok z h c.1.1.0,
                  search_q-has k z zs l.2 (c.0, c.1.1) d.1 (ground arith) (omega arith),
                )
                (ground arith)
        ])
    where
      close : IsCell (h.next z)
      close = All-mem (t ∷ zs) (h.next z) (c.0, c.1.1.1) (next-mem h z t zs l.2)

      found : unlink z h ≡ ok tt (unlinked h z)
      found =
          unlink-ok h z c.1.1.0 close (rw l.1 c.1.0) (ground (arith, next-mem h z t zs l.2, d.0))

  SameBut-unlinked :
      (xs : List Ptr)
      → has (h.next p) xs ≡ true
      → has (h.prev p) xs ≡ true
      → SameBut xs h (unlinked h p)
  SameBut-unlinked xs n v = record {
    next = λ a m. ground arith;
    prev = λ a m. ground arith;
    prnt = λ a. refl;
    child = λ a. refl;
    sib = λ a. refl;
    prevsib = λ a. refl;
    info = λ a. refl;
    free = refl;
  }

  SameBut-refl : (xs : List Ptr) → SameBut xs h h
  SameBut-refl xs = record {
    next = λ a m. refl;
    prev = λ a m. refl;
    prnt = λ a. refl;
    child = λ a. refl;
    sib = λ a. refl;
    prevsib = λ a. refl;
    info = λ a. refl;
    free = refl;
  }

  -- The member `p`, or NULL, comes out of `xs`, and nothing but the links of `xs` changes.
  abbrev pub Removed : List Ptr → Ptr × Ptr → Pcbs → Type 0
  Removed xs (found, t') g =
      (found ≡ (if has p xs then p else null)) × IsQueue g t' (erase p xs) × SameBut xs h g

  ends-mem :
      (ys : List Ptr)
      → Links h t ys t
      → (has (h.next t) (t ∷ ys) ≡ true) × (has (h.prev t) (t ∷ ys) ≡ true)
  ends-mem ys l = (next-mem h t t ys l, prev-mem h t t ys l)

  next-ne_self :
      (ys : List Ptr) (l : Ptr)
      → Links h t (ys ++ l ∷ []) t
      → has t (ys ++ l ∷ []) ≡ false
      → (h.next t == t) ≡ false
  next-ne_self [] l k n = ground arith
  next-ne_self (y ∷ ys) l k n = ground arith

  -- `p` is the tail of a ring of two or more.
  out_tail :
      (ys : List Ptr) (l : Ptr)
      → Ring h t (ys ++ l ∷ [])
      → out_proc_q t t h ≡ ok (t, l) (unlinked h t)
  unfolding out_proc_q
  out_tail ys l r = ground (
    arith,
    r.cells,
    back,
    not_alone,
    unlink-ok h t r.cells.0 in_table.0 in_table.1 not_alone,
    get_prev-ok t (unlinked h t) r.cells.0,
  )
    where
      zs : List Ptr
      zs = ys ++ l ∷ []

      ends : (has (h.next t) (t ∷ zs) ≡ true) × (has (h.prev t) (t ∷ zs) ≡ true)
      ends = ends-mem zs r.links

      back : Links h l [] t
      back = (Links-split h t l t ys [] r.links).1

      in_table : IsCell (h.next t) × IsCell (h.prev t)
      in_table =
          (All-mem (t ∷ zs) (h.next t) r.cells ends.0, All-mem (t ∷ zs) (h.prev t) r.cells ends.1)

      not_alone : (h.next t == t) ≡ false
      not_alone = next-ne_self ys l r.links r.distinct.0

  -- `p` is not the tail.
  out_inner :
      (ys : List Ptr)
      → Ring h t ys
      → (p == t) ≡ false
      → out_proc_q t p h ≡ (if has p ys then ok (p, t) (unlinked h p) else ok (null, t) h)
  unfolding out_proc_q
  out_inner ys r ne =
      rw (ne, cell_not_null t r.cells.0, get_next-ok t h r.cells.0, run) (ground arith)
    where
      fits : length (t ∷ ys) < 21
      fits = ground (arith, length-le_of_Nodup max_proc (t ∷ ys) r.distinct r.cells)

      run : search_q 20 t p (h.next t) h ≡ (if has p ys then ok p (unlinked h p) else ok null h)
      run =
          search_q-has 20 t ys r.links (r.cells.0, r.cells) r.distinct.1 r.distinct.0
            (omega (arith, fits))

  unlinked-Links_at :
      (ys before after : List Ptr)
      → Ring h t ys
      → ys ≡ before ++ p ∷ after
      → Links (unlinked h p) t (before ++ after) t
  unlinked-Links_at ys before after r e =
      let (front, back) = Links-split h t p t before after (rw e at r.links) in
      unlinked-Links h t p t before after front back (rw e at r.distinct) (rw e at r.distinct.0)

  Ring-unlinked :
      (ys : List Ptr) → Ring h t ys → has p ys ≡ true → Ring (unlinked h p) t (erase p ys)
  Ring-unlinked ys r m = record {
    links = rw kept (unlinked-Links_at ys s.before s.after r s.whole);
    distinct = (has-erase_of t p ys r.distinct.0, Nodup-erase p ys r.distinct.1);
    cells = (r.cells.0, All-erase IsCell p ys r.cells.1);
  }
    where
      s : Split p ys
      s = Split-at p ys m

      kept : erase p ys ≡ s.before ++ s.after
      kept = ap (erase p) s.whole ∙ erase-split p s.before s.after s.fresh

  -- The other members of the ring are those of the queue.
  ring-mem : (a : Ptr) (ys : List Ptr) → has a (t ∷ ys) ≡ true → has a (ys ++ t ∷ []) ≡ true
  ring-mem a ys m = ground (arith, has-append a ys (t ∷ []))

  neighbours :
      (ys before after : List Ptr)
      → Ring h t ys
      → ys ≡ before ++ p ∷ after
      → (has (h.next p) (ys ++ t ∷ []) ≡ true) × (has (h.prev p) (ys ++ t ∷ []) ≡ true)
  neighbours ys before after r e =
      let (front, back) = Links-split h t p t before after (rw e at r.links) in
      let n = next-mem h p t after back in
      let v = prev-mem h t p before front in
      (
        ring-mem (h.next p) ys (rw e (ground (arith, n, has-append (h.next p) before (p ∷ after)))),
        ring-mem (h.prev p) ys (rw e (ground (arith, v, has-append (h.prev p) before (p ∷ after)))),
      )

  found_Removed :
      (ys : List Ptr)
      → Ring h t ys
      → has p ys ≡ true
      → Returns {E = Exit} (Removed (ys ++ t ∷ [])) (ok (p, t) (unlinked h p))
  found_Removed ys r m =
      let s = Split-at p ys m in
      let near = neighbours ys s.before s.after r s.whole in
      returns (
        ground (arith, has-append p ys (t ∷ [])),
        ring (erase p ys) (erase-append p ys (t ∷ []) m) (Ring-unlinked ys r m),
        SameBut-unlinked (ys ++ t ∷ []) near.0 near.1,
      )

  lost_IsQueue :
      (ys : List Ptr)
      → Ring h t ys
      → (p == t) ≡ false
      → has p ys ≡ false
      → IsQueue h t (erase p (ys ++ t ∷ []))
  lost_IsQueue ys r ne m =
      ring ys (erase_absent p (ys ++ t ∷ []) (ground (arith, has-append p ys (t ∷ [])))) r

  inner-Removed :
      (ys : List Ptr)
      → Ring h t ys
      → (p == t) ≡ false
      → Returns (Removed (ys ++ t ∷ [])) (out_proc_q t p h)
  inner-Removed ys r ne = rw (out_inner ys r ne) (elim (Bool-cases (has p ys)) [
    | inl m ↦ rw m (found_Removed ys r m)
    | inr m ↦ rw m (
        returns (
          ground (arith, has-append p ys (t ∷ [])),
          lost_IsQueue ys r ne m,
          SameBut-refl (ys ++ t ∷ []),
        ))
  ])

  pub out_proc_q-empty : t ≡ null → out_proc_q t p h ≡ ok (null, t) h
  unfolding out_proc_q
  out_proc_q-empty e = ground arith

  out_alone : Ring h t [] → p ≡ t → out_proc_q t p h ≡ ok (p, null) h
  unfolding out_proc_q
  out_alone r e = ground (arith, r.cells, r.links)

  alone-Removed : Ring h t [] → p ≡ t → Returns (Removed (t ∷ [])) (out_proc_q t p h)
  alone-Removed r e =
      rw (out_alone r e) (returns (ground arith, empty refl (ground arith), SameBut-refl (t ∷ [])))

module _ (h : Pcbs) (t : Ptr) where
  erase_last : (zs : List Ptr) → has t zs ≡ false → erase t (zs ++ t ∷ []) ≡ zs
  erase_last [] out = ground arith
  erase_last (z ∷ zs) out = ground (arith, erase_last zs)

  tail-Removed :
      (ys : List Ptr) (l : Ptr)
      → Ring h t (ys ++ l ∷ [])
      → Returns (Removed h t t ((ys ++ l ∷ []) ++ t ∷ [])) (out_proc_q t t h)
  tail-Removed ys l r =
      let zs = ys ++ l ∷ [] in
      let near = ends-mem h t t zs r.links in
      rw (out_tail h t t ys l r) (
        returns (
          ground (arith, has-append t zs (t ∷ [])),
          ring ys (erase_last zs r.distinct.0) (record {
            links = unlinked-tail h t l ys r.links r.distinct;
            distinct = Nodup-rotate l ys r.distinct.1;
            cells = All-rotate l ys r.cells.1;
          }),
          SameBut-unlinked h t t (zs ++ t ∷ []) (ring-mem h t t (h.next t) zs near.0)
              (ring-mem h t t (h.prev t) zs near.1),
        ))

  tail-Ring :
      (p : Ptr) (zs : List Ptr)
      → Ring h t zs
      → p ≡ t
      → Snoc zs
      → Returns (Removed h t p (zs ++ t ∷ [])) (out_proc_q t p h)
  tail-Ring p zs r e s = rw (e, s.whole) (tail-Removed s.front s.last (rw s.whole at r))

  -- `outProcQ` returns `p` and takes it out of the queue, wherever it stands, if it is a member, and
  -- returns NULL and leaves the queue as it was otherwise; only queue links of the members change.
  pub out_proc_q-erase :
      (p : Ptr) (xs : List Ptr) → IsQueue h t xs → Returns (Removed h t p xs) (out_proc_q t p h)
  out_proc_q-erase p xs (empty e f) =
      rw (out_proc_q-empty h t p e, f) (returns (refl, empty e refl, SameBut-refl h t p []))
  out_proc_q-erase p xs (ring [] e r) = rw e (elim (Bool-cases (p == t)) [
    | inl q ↦ alone-Removed h t p r (eq_of_== p t q)
    | inr q ↦ inner-Removed h t p [] r q
  ])
  out_proc_q-erase p xs (ring (y ∷ ys) e r) = rw e (elim (Bool-cases (p == t)) [
    | inl q ↦ tail-Ring p (y ∷ ys) r (eq_of_== p t q) (Snoc-view y ys)
    | inr q ↦ inner-Removed h t p (y ∷ ys) r q
  ])
