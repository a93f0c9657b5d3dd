-- ===== src/Pcb/Tree/Insert.antt =====
-- `insertChild` of phase1/pcb.c makes a block the first child.
use kaya_project.Base.{
  Bool-cases, inl, inr, ◌==◌, eq_of_==, ==-refl, ◌≡◌, refl, false, List, [], ◌∷◌, arith, ok, has,
  update, Returns, returns,
}
use kaya_project.Machine.{Ptr, null, IsCell}
use kaya_project.Pcb.Table.{Pcbs}
use kaya_project.Pcb.Tree.{insert_child}
use kaya_project.Pcb.Tree.Family.{Chain, Chain-frame, IsFamily, KinBut}

abbrev adopted : Pcbs → (parent p first : Ptr) → Pcbs
adopted h parent p first = record h {
  prevsib = update h.prevsib first p;
  sib = update h.sib p first;
  prnt = update h.prnt p parent;
  child = update h.child parent p;
}

module _ (h : Pcbs) (parent p : Ptr) where
  abbrev pub Adopted : List Ptr → Unit {0} → Pcbs → Type 0
  Adopted xs _ g = IsFamily g parent (p ∷ xs) × KinBut parent (p ∷ xs) h g

  insert_child-first :
      IsCell parent
      → IsCell p
      → h.child parent ≡ null
      → insert_child parent p h
        ≡ ok tt (record h { child = update h.child parent p; prnt = update h.prnt p parent })
  unfolding insert_child
  insert_child-first c k e = ground arith

  insert_child-adopted :
      (x : Ptr)
      → IsCell parent
      → IsCell p
      → IsCell x
      → h.child parent ≡ x
      → insert_child parent p h ≡ ok tt (adopted h parent p x)
  unfolding insert_child
  insert_child-adopted x c k d e = ground arith

  -- `insertChild` of a block without siblings, as `allocPcb` returns it, that is not yet a child
  -- puts it before the other children; only the parent's first child and tree links of the block
  -- and of the children change.
  pub insert_child-cons :
      (xs : List Ptr)
      → IsFamily h parent xs
      → IsCell p
      → has p xs ≡ false
      → h.sib p ≡ null
      → h.prevsib p ≡ null
      → Returns (Adopted xs) (insert_child parent p h)
  insert_child-cons [] f c out s v = rw (insert_child-first f.cell c f.child) (
      returns (
        record {
          child = ground arith;
          chain = (v, s, tt);
          prnt = λ a m. ground arith;
          distinct = (refl, tt);
          cells = (c, tt);
          cell = f.cell;
        },
        record {
          next = λ a. refl;
          prev = λ a. refl;
          info = λ a. refl;
          free = refl;
          child = λ a n. ground arith;
          prnt = λ a n. ground arith;
          sib = λ a n. refl;
          prevsib = λ a n. refl;
        },
      ))
  insert_child-cons (x ∷ xs) f c out s v = rw (insert_child-adopted x f.cell c f.cells.0 f.child) (
      returns (
        record {
          child = ground arith;
          chain = (ground arith, ground arith, linked);
          prnt = λ a m. ground (arith, f.prnt a);
          distinct = (out, f.distinct);
          cells = (c, f.cells);
          cell = f.cell;
        },
        record {
          next = λ a. refl;
          prev = λ a. refl;
          info = λ a. refl;
          free = refl;
          child = λ a n. ground arith;
          prnt = λ a n. ground arith;
          sib = λ a n. ground arith;
          prevsib = λ a n. ground arith;
        },
      ))
    where
      linked : Chain (adopted h parent p x) p (x ∷ xs)
      linked = (
        ground arith,
        ground (arith, f.chain),
        Chain-frame h (adopted h parent p x) x xs f.chain.2 (λ a m. ground arith)
            (λ a m. ground (arith, f.distinct)),
      )

  insert_child-before :
      IsCell parent
      → IsCell p
      → (h.child parent == null) ≡ false
      → insert_child parent p h ≡ ok tt (adopted h parent p (h.child parent))
  unfolding insert_child
  insert_child-before c k e = ground arith

  -- Whatever the tree, `insertChild` of a block returns, and changes tree links only.
  pub insert_child-links :
      IsCell parent
      → IsCell p
      → Returns
          (λ _ g.
            (g ≡ record h { prnt = g.prnt; child = g.child; sib = g.sib; prevsib = g.prevsib })
            × (g.prnt p ≡ parent))
          (insert_child parent p h)
  insert_child-links c k = elim (Bool-cases (h.child parent == null)) [
    | inl e ↦
        rw (insert_child-first c k (eq_of_== (h.child parent) null e))
          (returns (refl, rw (==-refl p) refl))
    | inr e ↦ rw (insert_child-before c k e) (returns (refl, rw (==-refl p) refl))
  ]
