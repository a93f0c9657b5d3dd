-- ===== src/Kernel/Terminate/Forest.antt =====
-- The descendants of a process as a forest, and what the process tree's links say of it.
use kaya_project.Base.{
  Nodup, Nodup-parts, has-apart, ℕ, suc, ◌+◌, ◌≡◌, refl, ◌∙◌, true, false, List, [], ◌∷◌, ◌++◌,
  arith, has, has-append, length, length-append, ==-refl, ◌||◌,
}
use kaya_project.Machine.{Ptr}
use kaya_project.Pcb.Table.{Pcbs}
use kaya_project.Pcb.Tree.Family.{IsFamily, KinBut, Chain-frame}

-- Processes with their children, first child first, and the siblings behind them.
pub data Forest : Type 0 where
  none : Forest
  node : (p : Ptr) (children siblings : Forest) → Forest

abbrev pub roots : Forest → List Ptr
roots none = []
roots (node p c s) = p ∷ roots s

-- Children before their parent, siblings in order.
abbrev pub post_order : Forest → List Ptr
post_order none = []
post_order (node p c s) = post_order c ++ p ∷ post_order s

-- The members that are no roots.
abbrev pub inner : Forest → List Ptr
inner none = []
inner (node p c s) = post_order c ++ inner s

abbrev pub size : Forest → ℕ
size none = 0
size (node p c s) = suc (size c + size s)

-- The children of each member are those of the forest.
abbrev pub Below : Pcbs → Forest → Type 0
Below h none = Unit
Below h (node p c s) = IsFamily h p (roots c) × Below h c × Below h s

pub length-post_order : (f : Forest) → length (post_order f) ≡ size f
length-post_order none = refl
length-post_order (node p c s) = omega (
  arith,
  length-append (post_order c) (p ∷ post_order s),
  length-post_order c,
  length-post_order s,
)

pub has-post_order : (f : Forest) (a : Ptr) → has a (post_order f) ≡ false → has a (roots f) ≡ false
has-post_order none a n = refl
has-post_order (node p c s) a n =
    ground (arith, has-append a (post_order c) (p ∷ post_order s), has-post_order s a)

-- `g` is `h` but for the first children of the blocks `ks` and the other fields of the blocks `zs`.
pub record TreeBut (ks zs : List Ptr) (h g : Pcbs) : Type 0 where
  pub child : (a : Ptr) → has a ks ≡ false → g.child a ≡ h.child a
  pub prnt : (a : Ptr) → has a zs ≡ false → g.prnt a ≡ h.prnt a
  pub sib : (a : Ptr) → has a zs ≡ false → g.sib a ≡ h.sib a
  pub prevsib : (a : Ptr) → has a zs ≡ false → g.prevsib a ≡ h.prevsib a
  pub info : (a : Ptr) → has a zs ≡ false → g.info a ≡ h.info a

pub TreeBut-refl : {ks zs : List Ptr} {h : Pcbs} → TreeBut ks zs h h
TreeBut-refl = record {
  child = λ a n. refl;
  prnt = λ a n. refl;
  sib = λ a n. refl;
  prevsib = λ a n. refl;
  info = λ a n. refl;
}

pub TreeBut-trans :
    {ks zs : List Ptr} {h g f : Pcbs} → TreeBut ks zs h g → TreeBut ks zs g f → TreeBut ks zs h f
TreeBut-trans s t = record {
  child = λ a n. t.child a n ∙ s.child a n;
  prnt = λ a n. t.prnt a n ∙ s.prnt a n;
  sib = λ a n. t.sib a n ∙ s.sib a n;
  prevsib = λ a n. t.prevsib a n ∙ s.prevsib a n;
  info = λ a n. t.info a n ∙ s.info a n;
}

pub TreeBut-more :
    {ks zs js ys : List Ptr} {h g : Pcbs}
    → ((a : Ptr) → has a js ≡ false → has a ks ≡ false)
    → ((a : Ptr) → has a ys ≡ false → has a zs ≡ false)
    → TreeBut ks zs h g
    → TreeBut js ys h g
TreeBut-more j y s = record {
  child = λ a n. s.child a (j a n);
  prnt = λ a n. s.prnt a (y a n);
  sib = λ a n. s.sib a (y a n);
  prevsib = λ a n. s.prevsib a (y a n);
  info = λ a n. s.info a (y a n);
}

pub TreeBut-KinBut :
    {h g : Pcbs} {p : Ptr} {xs : List Ptr} → KinBut p xs h g → TreeBut (p ∷ []) xs h g
TreeBut-KinBut k = record {
  child = λ a n. k.child a (ground arith);
  prnt = k.prnt;
  sib = k.sib;
  prevsib = k.prevsib;
  info = λ a n. k.info a;
}

-- A family away from the changes stays the same.
pub IsFamily-TreeBut :
    {h g : Pcbs} {p : Ptr} {xs ks zs : List Ptr}
    → TreeBut ks zs h g
    → has p ks ≡ false
    → ((a : Ptr) → has a xs ≡ true → has a zs ≡ false)
    → IsFamily h p xs
    → IsFamily g p xs
IsFamily-TreeBut {h} {g} {p} {xs} t n apart f = record {
  child = t.child p n ∙ f.child;
  chain =
      Chain-frame h g _ xs f.chain (λ a m. t.sib a (apart a m)) (λ a m. t.prevsib a (apart a m));
  prnt = λ a m. t.prnt a (apart a m) ∙ f.prnt a m;
  distinct = f.distinct;
  cells = f.cells;
  cell = f.cell;
}

pub has_of-inner : (f : Forest) (a : Ptr) → has a (inner f) ≡ true → has a (post_order f) ≡ true
has_of-inner none a m = m
has_of-inner (node p c s) a m = ground (
  arith,
  has-append a (post_order c) (p ∷ post_order s),
  has-append a (post_order c) (inner s),
  has_of-inner s a,
)

pub has_of-roots : (f : Forest) (a : Ptr) → has a (roots f) ≡ true → has a (post_order f) ≡ true
has_of-roots f a m = ground (arith, has-post_order f a)

-- No root is an inner member.
pub has-inner :
    (f : Forest)
    → Nodup (post_order f)
    → (a : Ptr) → has a (inner f) ≡ true
    → has a (roots f) ≡ false
has-inner none n a m = refl
has-inner (node p c s) n a m =
    let (nc, ns, apart) = Nodup-parts (post_order c) (p ∷ post_order s) n in
    ground (
      arith,
      has-append a (post_order c) (inner s),
      has-post_order s a,
      has-inner s ns.1 a,
      has_of-inner s a,
      apart a,
      has-apart a p (post_order s),
      ns.0,
    )

-- The families of a forest away from the changes stay the same.
pub Below-TreeBut :
    {h g : Pcbs} {ks zs : List Ptr} (f : Forest)
    → TreeBut ks zs h g
    → ((a : Ptr) → has a (post_order f) ≡ true → has a ks ≡ false)
    → ((a : Ptr) → has a (inner f) ≡ true → has a zs ≡ false)
    → Below h f
    → Below g f
Below-TreeBut none t k z b = tt
Below-TreeBut (node p c s) t k z b = (
  IsFamily-TreeBut t (k p (ground (arith, in_order p, ==-refl p)))
      (λ a m. z a (ground (arith, in_inner a, has-post_order c a))) b.0,
  Below-TreeBut c t (λ a m. k a (ground (arith, in_order a)))
      (λ a m. z a (ground (arith, in_inner a, has_of-inner c a))) b.1,
  Below-TreeBut s t (λ a m. k a (ground (arith, in_order a)))
      (λ a m. z a (ground (arith, in_inner a))) b.2,
)
  where
    in_order :
        (a : Ptr)
        → has a (post_order c ++ p ∷ post_order s)
          ≡ (has a (post_order c) || has a (p ∷ post_order s))
    in_order a = has-append a (post_order c) (p ∷ post_order s)

    in_inner :
        (a : Ptr) → has a (post_order c ++ inner s) ≡ (has a (post_order c) || has a (inner s))
    in_inner a = has-append a (post_order c) (inner s)

-- The descendants of `p` are those of the forest.
abbrev pub IsAncestor : Pcbs → Ptr → Forest → Type 0
IsAncestor h p f = IsFamily h p (roots f) × Below h f

pub IsAncestor-TreeBut :
    {h g : Pcbs} {ks zs : List Ptr} (p : Ptr) (f : Forest)
    → TreeBut ks zs h g
    → has p ks ≡ false
    → ((a : Ptr) → has a (post_order f) ≡ true → has a ks ≡ false)
    → ((a : Ptr) → has a (post_order f) ≡ true → has a zs ≡ false)
    → IsAncestor h p f
    → IsAncestor g p f
IsAncestor-TreeBut p f t n k z b = (
  IsFamily-TreeBut t n (λ a m. z a (has_of-roots f a m)) b.0,
  Below-TreeBut f t k (λ a m. z a (has_of-inner f a m)) b.1,
)
