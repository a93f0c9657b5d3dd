-- ===== src/Pcb/Queue/Links.antt =====
-- What a process queue of phase1/pcb.c stands for: the chains of `p_next` and `p_prev`.
use kaya_project.Base.{
  ◌≡◌, refl, true, false, List, [], ◌∷◌, ◌++◌, arith, ◌==◌, has, has-append, Nodup, All,
}
use kaya_project.Machine.{Ptr, null, IsCell}
use kaya_project.Pcb.Table.{Pcbs}

-- From `p` the links lead through `xs` to `q`, and back.
abbrev pub Links : Pcbs → Ptr → List Ptr → Ptr → Type 0
Links h p [] q = (h.next p ≡ q) × (h.prev q ≡ p)
Links h p (x ∷ xs) q = (h.next p ≡ x) × (h.prev x ≡ p) × Links h x xs q

-- The tail `t` and, from the head on, the other members: distinct cells of the table in a ring.
pub record Ring (h : Pcbs) (t : Ptr) (ys : List Ptr) : Type 0 where
  pub links : Links h t ys t
  pub distinct : Nodup (t ∷ ys)
  pub cells : All IsCell (t ∷ ys)

-- The tail pointer `tp` stands for the queue `xs`, head first.
pub data IsQueue (h : Pcbs) (tp : Ptr) (xs : List Ptr) : Type 0 where
  empty : tp ≡ null → xs ≡ [] → IsQueue h tp xs
  ring : (ys : List Ptr) → xs ≡ ys ++ tp ∷ [] → Ring h tp ys → IsQueue h tp xs

-- `g` is `h` but for the queue links of the cells `zs`.
pub record SameBut (zs : List Ptr) (h g : Pcbs) : Type 0 where
  pub next : (a : Ptr) → has a zs ≡ false → g.next a ≡ h.next a
  pub prev : (a : Ptr) → has a zs ≡ false → g.prev a ≡ h.prev a
  pub prnt : (a : Ptr) → g.prnt a ≡ h.prnt a
  pub child : (a : Ptr) → g.child a ≡ h.child a
  pub sib : (a : Ptr) → g.sib a ≡ h.sib a
  pub prevsib : (a : Ptr) → g.prevsib a ≡ h.prevsib a
  pub info : (a : Ptr) → g.info a ≡ h.info a
  pub free : g.free ≡ h.free

pub cell_not_null : (a : Ptr) → IsCell a → (a == null) ≡ false
cell_not_null a c = ground arith

pub All-mem : (xs : List Ptr) (a : Ptr) → All IsCell xs → has a xs ≡ true → IsCell a
All-mem [] a c m = cc
All-mem (x ∷ xs) a c m = ground (arith, All-mem xs a c.1)

pub All-rotate : (t : Ptr) (ys : List Ptr) → All IsCell (ys ++ t ∷ []) → All IsCell (t ∷ ys)
All-rotate t [] c = c
All-rotate t (y ∷ ys) c = let rest = All-rotate t ys c.1 in (rest.0, (c.0, rest.1))

pub Links-frame :
    (h g : Pcbs) (p q : Ptr) (xs : List Ptr)
    → Links h p xs q
    → ((a : Ptr) → has a (p ∷ xs) ≡ true → g.next a ≡ h.next a)
    → ((a : Ptr) → has a (q ∷ xs) ≡ true → g.prev a ≡ h.prev a)
    → Links g p xs q
Links-frame h g p q [] l n v = (ground (arith, n p), ground (arith, v q))
Links-frame h g p q (x ∷ xs) l n v = (
  ground (arith, n p),
  ground (arith, v x),
  Links-frame h g x q xs l.2 (λ a m. n a (ground arith)) (λ a m. v a (ground arith)),
)

pub Links-append :
    (h : Pcbs) (p z q : Ptr) (xs ys : List Ptr)
    → Links h p xs z
    → Links h z ys q
    → Links h p (xs ++ z ∷ ys) q
Links-append h p z q [] ys l r = (l.0, l.1, r)
Links-append h p z q (x ∷ xs) ys l r = (l.0, l.1, Links-append h x z q xs ys l.2 r)

pub Links-split :
    (h : Pcbs) (p z q : Ptr) (xs ys : List Ptr)
    → Links h p (xs ++ z ∷ ys) q
    → Links h p xs z × Links h z ys q
Links-split h p z q [] ys l = ((l.0, l.1), l.2)
Links-split h p z q (x ∷ xs) ys l = let (a, b) = Links-split h x z q xs ys l.2 in ((l.0, l.1, a), b)

pub Nodup-snoc : (t : Ptr) (ys : List Ptr) → Nodup (t ∷ ys) → Nodup (ys ++ t ∷ [])
Nodup-snoc t [] n = (refl, tt)
Nodup-snoc t (y ∷ ys) n =
    (ground (arith, has-append y ys (t ∷ [])), Nodup-snoc t ys (ground arith, n.1.1))

pub Nodup-rotate : (t : Ptr) (ys : List Ptr) → Nodup (ys ++ t ∷ []) → Nodup (t ∷ ys)
Nodup-rotate t [] n = (refl, tt)
Nodup-rotate t (y ∷ ys) n =
    let rest = Nodup-rotate t ys n.1 in
    (ground (arith, has-append y ys (t ∷ [])), (ground (arith, has-append y ys (t ∷ [])), rest.1))

-- A change that spares the links of its members leaves a queue the same queue.
pub IsQueue-same :
    {h g : Pcbs} {tp : Ptr} {xs : List Ptr}
    → IsQueue h tp xs
    → ((a : Ptr) → has a xs ≡ true → g.next a ≡ h.next a)
    → ((a : Ptr) → has a xs ≡ true → g.prev a ≡ h.prev a)
    → IsQueue g tp xs
IsQueue-same (empty e f) n v = empty e f
IsQueue-same {h} {g} {tp} {xs} (ring ys e r) n v = ring ys e (record {
  links = Links-frame h g tp tp ys r.links (λ a m. n a (mem a m)) (λ a m. v a (mem a m));
  distinct = r.distinct;
  cells = r.cells;
})
  where
    mem : (a : Ptr) → has a (tp ∷ ys) ≡ true → has a xs ≡ true
    mem a m = rw e (ground (arith, has-append a ys (tp ∷ [])))

pub IsQueue-frame :
    {h g : Pcbs} {tp : Ptr} {xs zs : List Ptr}
    → IsQueue h tp xs
    → SameBut zs h g
    → ((a : Ptr) → has a xs ≡ true → has a zs ≡ false)
    → IsQueue g tp xs
IsQueue-frame q s apart = IsQueue-same q (λ a m. s.next a (apart a m)) (λ a m. s.prev a (apart a m))
