-- ===== src/Pcb/Tree/Out.antt =====
-- `outChild` and `removeChild` of phase1/pcb.c: a block leaves the list of its parent's children.
use kaya_project.Base.{
  ◌≡◌, refl, true, false, List, [], ◌∷◌, arith, ◌==◌, if◌then◌else◌, ◌⊎◌, inl, inr, Bool-cases,
  eq_of_==, ==-refl, sym, ◌∙◌, ok, has, has-apart, Nodup, All, update, erase, All-erase,
  Nodup-erase, has-erase_self, has-erase_ne, Returns, returns,
}
use kaya_project.Base.Monad
use kaya_project.Machine.{Ptr, null, IsCell}
use kaya_project.Pcb.Table.{Pcbs}
use kaya_project.Pcb.Queue.Fifo.{front}
use kaya_project.Pcb.Queue.Links.{cell_not_null, All-mem}
use kaya_project.Pcb.Tree.{out_child, unlink_child, remove_child}
use kaya_project.Pcb.Tree.Family.{
  Chain, Chain-frame, IsFamily, KinBut, sib-mem, prevsib-mem, sib-ne_self,
}

abbrev cut : Pcbs → Ptr → Pcbs
cut h p = record h {
  child = if h.prevsib p == null then update h.child (h.prnt p) (h.sib p) else h.child;
  sib = if h.prevsib p == null then h.sib else update h.sib (h.prevsib p) (h.sib p);
  prevsib = if h.sib p == null then h.prevsib else update h.prevsib (h.sib p) (h.prevsib p);
  prnt = update h.prnt p null;
}

module _ (h : Pcbs) (p : Ptr) where
  -- The writes reach the siblings of `p` only.
  cut-sib_ne : (a : Ptr) → (a == h.prevsib p) ≡ false → (cut h p).sib a ≡ h.sib a
  cut-sib_ne a n = ground arith

  cut-prevsib_ne : (a : Ptr) → (a == h.sib p) ≡ false → (cut h p).prevsib a ≡ h.prevsib a
  cut-prevsib_ne a n = ground arith

  cut-sib_at : (a : Ptr) → IsCell a → h.prevsib p ≡ a → (cut h p).sib a ≡ h.sib p
  cut-sib_at a c e = ground arith

  cut-prevsib_at : (a : Ptr) → IsCell a → h.sib p ≡ a → (cut h p).prevsib a ≡ h.prevsib p
  cut-prevsib_at a c e = ground arith

  cut-Chain_head :
      (b : Ptr) (ys : List Ptr)
      → Chain h b (p ∷ ys)
      → Nodup (b ∷ p ∷ ys)
      → All IsCell (p ∷ ys)
      → Chain (cut h p) b ys
  cut-Chain_head b [] c n k = tt
  cut-Chain_head b (y ∷ ys) c n k = (
    cut-prevsib_at y k.1.0 c.1 ∙ c.0,
    cut-sib_ne y (rw c.0 (has-apart y b (p ∷ y ∷ ys) (ground arith) n.0).0) ∙ c.2.1,
    Chain-frame h (cut h p) y ys c.2.2
        (λ a i. cut-sib_ne a (rw c.0 (has-apart a b (p ∷ y ∷ ys) (ground arith) n.0).0))
        (λ a i. cut-prevsib_ne a (rw c.1 (has-apart a y ys i n.1.1.0).0)),
  )

  cut-Chain_tail :
      (b x : Ptr) (xs : List Ptr)
      → Chain h b (x ∷ xs)
      → Nodup (b ∷ x ∷ xs)
      → All IsCell (x ∷ xs)
      → (x == p) ≡ false
      → has p xs ≡ true
      → Chain (cut h p) x (erase p xs)
      → Chain (cut h p) b (x ∷ erase p xs)
  cut-Chain_tail b x [] c n k e m rest = cc
  cut-Chain_tail b x (y ∷ ys) c n k e m rest = (
    cut-prevsib_ne x
          (has-apart (h.sib p) x (null ∷ y ∷ ys) (sib-mem h x p (y ∷ ys) c.2 m)
            (ground (arith, n.1.0, k.0))).1
        ∙ c.0,
    elim (Bool-cases (y == p)) [
      | inl f ↦ let q = eq_of_== y p f in rw f (cut-sib_at x k.0 (rw q at c.2.0) ∙ (rw q at c.2.1))
      | inr f ↦ rw f (
          cut-sib_ne x
            (has-apart (h.prevsib p) x (y ∷ ys) (prevsib-mem h y p ys c.2.2 (ground arith)) n.1.0).1
          ∙ c.1)
    ],
    rest,
  )

  cut-Chain :
      (b : Ptr) (xs : List Ptr)
      → Chain h b xs
      → Nodup (b ∷ xs)
      → All IsCell xs
      → has p xs ≡ true
      → Chain (cut h p) b (erase p xs)
  cut-Chain b [] c n k m = cc
  cut-Chain b (x ∷ xs) c n k m = elim (Bool-cases (x == p)) [
    | inl e ↦
        let q = eq_of_== x p e in rw e (cut-Chain_head b xs (rw q at c) (rw q at n) (rw q at k))
    | inr e ↦
        rw e
          (cut-Chain_tail b x xs c n k e (ground arith) (cut-Chain x xs c.2 n.1 k.1 (ground arith)))
  ]

  -- The writes do not fault where the siblings are blocks of the table.
  out_child-cut :
      IsCell p
      → IsCell (h.prnt p)
      → (h.sib p ≡ null) ⊎ IsCell (h.sib p)
      → (h.prevsib p ≡ null) ⊎ IsCell (h.prevsib p)
      → (h.sib p == p) ≡ false
      → out_child p h ≡ ok p (cut h p)
  unfolding out_child unlink_child
  out_child-cut c k (inl s) (inl v) ne = rw (s, v) (ground arith)
  out_child-cut c k (inl s) (inr v) ne = rw s (ground arith)
  out_child-cut c k (inr s) (inl v) ne = rw v (ground arith)
  out_child-cut c k (inr s) (inr v) ne = ground arith

  null_or_IsCell :
      (a : Ptr) (xs : List Ptr) → All IsCell xs → has a (null ∷ xs) ≡ true → (a ≡ null) ⊎ IsCell a
  null_or_IsCell a xs c m = elim (Bool-cases (a == null)) [
    | inl e ↦ inl (eq_of_== a null e)
    | inr e ↦ inr (All-mem xs a c (ground arith))
  ]

  null_apart : (xs : List Ptr) → All IsCell xs → has null xs ≡ false
  null_apart [] c = refl
  null_apart (x ∷ xs) c = ground (arith, null_apart xs c.1)

  cut-child :
      (xs : List Ptr)
      → IsFamily h (h.prnt p) xs
      → has p xs ≡ true
      → (cut h p).child (h.prnt p) ≡ front (erase p xs)
  cut-child [] f m = cc
  cut-child (x ∷ xs) f m = elim (Bool-cases (x == p)) [
    | inl e ↦
        let q = eq_of_== x p e in
        rw (e, sym (rw q at f.chain.1)) (ground (arith, rw q at f.chain.0))
    | inr e ↦
        let v = prevsib-mem h x p xs f.chain.2 (ground arith) in
        let later = cell_not_null (h.prevsib p) (All-mem (x ∷ xs) (h.prevsib p) f.cells v) in
        rw (e, later) f.child
  ]

  cut-prnt :
      (xs : List Ptr) (parent a : Ptr)
      → ((b : Ptr) → has b xs ≡ true → h.prnt b ≡ parent)
      → Nodup xs
      → has a (erase p xs) ≡ true
      → (cut h p).prnt a ≡ parent
  cut-prnt xs parent a f n m = elim (Bool-cases (a == p)) [
    | inl e ↦ ground (arith, has-erase_self p xs n)
    | inr e ↦ ground (arith, has-erase_ne a p xs, f a)
  ]

  -- `p` leaves the children `xs` of `parent`.
  abbrev pub Left : Ptr → List Ptr → Ptr → Pcbs → Type 0
  Left parent xs r g =
      (r ≡ p) × (g.prnt p ≡ null) × IsFamily g parent (erase p xs) × KinBut parent xs h g

  IsFamily-cut :
      (xs : List Ptr)
      → IsFamily h (h.prnt p) xs
      → has p xs ≡ true
      → IsFamily (cut h p) (h.prnt p) (erase p xs)
  IsFamily-cut xs f m = record {
    child = cut-child xs f m;
    chain = cut-Chain null xs f.chain (null_apart xs f.cells, f.distinct) f.cells m;
    prnt = λ a i. cut-prnt xs (h.prnt p) a f.prnt f.distinct i;
    distinct = Nodup-erase p xs f.distinct;
    cells = All-erase IsCell p xs f.cells;
    cell = f.cell;
  }

  -- Only siblings of `p` and the parent's first child are written.
  KinBut-cut :
      (xs : List Ptr)
      → IsFamily h (h.prnt p) xs
      → has p xs ≡ true
      → KinBut (h.prnt p) xs h (cut h p)
  KinBut-cut xs f m = record {
    next = λ a. refl;
    prev = λ a. refl;
    info = λ a. refl;
    free = refl;
    child = λ a n. ground arith;
    prnt = λ a n. ground (arith, has-apart p a xs m n);
    sib = λ a n. ground (arith, prevsib-mem h null p xs f.chain m, has-apart (h.prevsib p) a xs);
    prevsib = λ a n. ground (arith, sib-mem h null p xs f.chain m, has-apart (h.sib p) a xs);
  }

  -- `outChild` of a child takes it out of its parent's list wherever it stands there, and returns
  -- it; nothing but the parent's first child and tree links of its children changes.
  pub out_child-erase :
      (parent : Ptr) (xs : List Ptr)
      → IsFamily h parent xs
      → has p xs ≡ true
      → Returns (Left parent xs) (out_child p h)
  out_child-erase parent xs f m =
      let q = f.prnt p m in
      let run =
        out_child-cut (All-mem xs p f.cells m) (rw q f.cell)
          (null_or_IsCell (h.sib p) xs f.cells (sib-mem h null p xs f.chain m))
          (null_or_IsCell (h.prevsib p) xs f.cells (prevsib-mem h null p xs f.chain m))
          (sib-ne_self h null p xs f.chain f.distinct f.cells m) in
      rw (run, sym q)
        (returns (
          refl,
          ground arith,
          IsFamily-cut xs (rw (sym q) at f) m,
          KinBut-cut xs (rw (sym q) at f) m,
        ))

  -- `outChild` of a block without a parent returns NULL and changes nothing.
  pub out_child-orphan : IsCell p → h.prnt p ≡ null → out_child p h ≡ ok null h
  unfolding out_child
  out_child-orphan c e = ground arith

module _ (h : Pcbs) (parent : Ptr) where
  no_child : IsCell parent → h.child parent ≡ null → remove_child parent h ≡ ok null h
  unfolding remove_child
  no_child c e = ground arith

  first_child :
      (x : Ptr)
      → IsCell parent
      → IsCell x
      → h.child parent ≡ x
      → remove_child parent h ≡ out_child x h
  unfolding remove_child
  first_child x c k e = ground arith

  KinBut-refl : KinBut parent [] h h
  KinBut-refl = record {
    next = λ a. refl;
    prev = λ a. refl;
    info = λ a. refl;
    free = refl;
    child = λ a n. refl;
    prnt = λ a n. refl;
    sib = λ a n. refl;
    prevsib = λ a n. refl;
  }

  -- `removeChild` takes out the first child, or returns NULL if there is none.
  pub remove_child-first :
      (xs : List Ptr)
      → IsFamily h parent xs
      → Returns
          (λ r g. (r ≡ front xs) × IsFamily g parent (erase (front xs) xs) × KinBut parent xs h g)
          (remove_child parent h)
  remove_child-first [] f = rw (no_child f.cell f.child) (returns (refl, f, KinBut-refl))
  remove_child-first (x ∷ xs) f = rw (first_child x f.cell f.cells.0 f.child) (
      Monad.mono (out_child-erase h x parent (x ∷ xs) f (ground (arith, ==-refl x)))
        λ r g left. (left.0, left.2, left.3))
