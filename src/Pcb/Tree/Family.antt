-- ===== src/Pcb/Tree/Family.antt =====
-- What the children of a process stand for in phase1/pcb.c: a list from `p_child` along `p_sib`,
-- with NULL behind its last member and before its first one.
use kaya_project.Base.{◌≡◌, true, false, List, [], ◌∷◌, arith, ◌==◌, has, Nodup, All}
use kaya_project.Machine.{Ptr, null, IsCell}
use kaya_project.Pcb.Table.{Pcbs}
use kaya_project.Pcb.Queue.Fifo.{front}

-- The siblings `xs`, with `b` before the first one.
abbrev pub Chain : Pcbs → Ptr → List Ptr → Type 0
Chain h b [] = Unit
Chain h b (x ∷ xs) = (h.prevsib x ≡ b) × (h.sib x ≡ front xs) × Chain h x xs

-- The children of `parent` are `xs`, first child first.
pub record IsFamily (h : Pcbs) (parent : Ptr) (xs : List Ptr) : Type 0 where
  pub child : h.child parent ≡ front xs
  pub chain : Chain h null xs
  pub prnt : (a : Ptr) → has a xs ≡ true → h.prnt a ≡ parent
  pub distinct : Nodup xs
  pub cells : All IsCell xs
  pub cell : IsCell parent

-- `g` is `h` but for the first child of `parent` and the tree links of the blocks `zs`.
pub record KinBut (parent : Ptr) (zs : List Ptr) (h g : Pcbs) : Type 0 where
  pub next : (a : Ptr) → g.next a ≡ h.next a
  pub prev : (a : Ptr) → g.prev a ≡ h.prev a
  pub info : (a : Ptr) → g.info a ≡ h.info a
  pub free : g.free ≡ h.free
  pub child : (a : Ptr) → (a == parent) ≡ false → g.child a ≡ h.child a
  pub prnt : (a : Ptr) → has a zs ≡ false → g.prnt a ≡ h.prnt a
  pub sib : (a : Ptr) → has a zs ≡ false → g.sib a ≡ h.sib a
  pub prevsib : (a : Ptr) → has a zs ≡ false → g.prevsib a ≡ h.prevsib a

module _ (h : Pcbs) where
  pub Chain-frame :
      (g : Pcbs) (b : Ptr) (xs : List Ptr)
      → Chain h b xs
      → ((a : Ptr) → has a xs ≡ true → g.sib a ≡ h.sib a)
      → ((a : Ptr) → has a xs ≡ true → g.prevsib a ≡ h.prevsib a)
      → Chain g b xs
  Chain-frame g b [] c s v = tt
  Chain-frame g b (x ∷ xs) c s v = (
    ground (arith, v x),
    ground (arith, s x),
    Chain-frame g x xs c.2 (λ a m. s a (ground arith)) (λ a m. v a (ground arith)),
  )

  -- The siblings of a member are members, or NULL, or stand before the first member.
  pub sib-mem :
      (b p : Ptr) (xs : List Ptr)
      → Chain h b xs
      → has p xs ≡ true
      → has (h.sib p) (null ∷ xs) ≡ true
  sib-mem b p [] c m = cc
  sib-mem b p (x ∷ []) c m = ground arith
  sib-mem b p (x ∷ y ∷ ys) c m = ground (arith, sib-mem x p (y ∷ ys) c.2)

  pub prevsib-mem :
      (b p : Ptr) (xs : List Ptr)
      → Chain h b xs
      → has p xs ≡ true
      → has (h.prevsib p) (b ∷ xs) ≡ true
  prevsib-mem b p [] c m = cc
  prevsib-mem b p (x ∷ xs) c m = ground (arith, prevsib-mem x p xs c.2)

  -- No member is its own sibling.
  pub sib-ne_self :
      (b p : Ptr) (xs : List Ptr)
      → Chain h b xs
      → Nodup xs
      → All IsCell xs
      → has p xs ≡ true
      → (h.sib p == p) ≡ false
  sib-ne_self b p [] c n k m = cc
  sib-ne_self b p (x ∷ []) c n k m = ground (arith, sib-ne_self x p [] c.2 n.1 k.1)
  sib-ne_self b p (x ∷ y ∷ ys) c n k m = ground (arith, sib-ne_self x p (y ∷ ys) c.2 n.1 k.1)
