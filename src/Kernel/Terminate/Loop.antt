-- ===== src/Kernel/Terminate/Loop.antt =====
-- The recursion of `terminateRecursively` in phase2/exceptions.c over the process tree.
use kaya_project.Base.{
  Bool, if◌then◌else◌, pure, ℕ, zero, suc, ◌+◌, ◌*◌, ◌≤◌, ◌≡◌, refl, ap, ◌∙◌, true, false, List, [],
  ◌∷◌, ◌++◌, arith, ◌==◌, has, has-append, has-apart, ==-refl, ◌||◌, Nodup, Nodup-parts, and_then,
  ok, Returns, returns,
}
use kaya_project.Base.Monad
use kaya_project.Machine.{Ptr, Command}
use kaya_project.Pcb.Table.{Pcbs}
use kaya_project.Pcb.Tree.{remove_child}
use kaya_project.Pcb.Tree.Family.{IsFamily}
use kaya_project.Asl.Table.{on_pcbs}
use kaya_project.Kernel.State.{Kernel, Layout}
use kaya_project.Kernel.Access.{on_asl}
use kaya_project.Kernel.Terminate.{kill, kill_children, terminate_recursively}
use kaya_project.Kernel.Terminate.Forest.{
  Forest, none, node, roots, post_order, size, IsAncestor, IsAncestor-TreeBut, Below, Below-TreeBut,
  TreeBut, TreeBut-refl, inner, has-post_order, has_of-inner, has-inner,
}
use kaya_project.Kernel.Terminate.Census.{Census, Stands, Burials, nobody, Burials-split}
use kaya_project.Kernel.Terminate.Kill.{Kills}
use kaya_project.Kernel.Terminate.Step.{
  Kills-trans, Kills-more, same_layout, remove_child-Orphans, no_children, some_children,
  kill-Burials,
}

-- The descendants `f` of `p` are dead, and `p` has no child left.
pub record Alone (p : Ptr) (f : Forest) (d : Census) (k g : Kernel) : Type 0 where
  pub kills : Kills (p ∷ post_order f) (post_order f) d k g
  pub family : IsFamily g.asl.pcbs p []

-- What becomes of `p` and those behind it in a list of siblings.
abbrev next_child : ℕ → Ptr → Command Kernel (Unit {0})
next_child n p k =
    and_then (on_asl (on_pcbs (remove_child p)) k)
      λ c g. and_then (terminate_recursively n c g) λ u. kill_children n p

abbrev choose : ℕ → Ptr → Bool → Command Kernel (Unit {0})
choose n p none_left = if none_left then pure tt else next_child n p

kill_children-next :
    (n : ℕ) (p : Ptr) (k : Kernel) (x : Ptr) (xs : List Ptr)
    → IsFamily k.asl.pcbs p (x ∷ xs)
    → {c : Census} → Stands k c
    → kill_children (suc n) p k ≡ next_child n p k
unfolding kill_children
kill_children-next n p k x xs f v = ap (λ r. and_then r (choose n p)) (some_children v p x xs f)

kill_children-last :
    (n : ℕ) (p : Ptr) (k : Kernel)
    → IsFamily k.asl.pcbs p []
    → {c : Census} → Stands k c
    → kill_children (suc n) p k ≡ ok tt k
unfolding kill_children
kill_children-last n p k f v = ap (λ r. and_then r (choose n p)) (no_children v p f)

terminate-step :
    (n : ℕ) (x : Ptr) (k : Kernel)
    → terminate_recursively (suc n) x k ≡ and_then (kill_children n x k) λ u. kill x
unfolding terminate_recursively
terminate-step n x k = refl

-- Two parts of the members, as tests.
module _ (p x : Ptr) (cs ss : List Ptr) where
  abbrev all : List Ptr
  all = cs ++ x ∷ ss

  pub record Apart : Type 0 where
    pub parent_ne : (p == x) ≡ false
    pub parent_cs : has p cs ≡ false
    pub parent_ss : has p ss ≡ false
    pub child_cs : has x cs ≡ false
    pub child_ss : has x ss ≡ false
    pub distinct_cs : Nodup cs
    pub distinct_ss : Nodup ss
    pub apart : (a : Ptr) → has a cs ≡ true → has a ss ≡ false

  Apart-of : Nodup (p ∷ all) → Apart
  Apart-of (n, d) =
      let (dc, ds, e) = Nodup-parts cs (x ∷ ss) d in
      record {
        parent_ne = ground (arith, has-append p cs (x ∷ ss));
        parent_cs = ground (arith, has-append p cs (x ∷ ss));
        parent_ss = ground (arith, has-append p cs (x ∷ ss));
        child_cs = ground (arith, e x, ==-refl x);
        child_ss = ds.0;
        distinct_cs = dc;
        distinct_ss = ds.1;
        apart = λ a m. ground (arith, e a m);
      }

  in_all : (a : Ptr) → has a all ≡ (has a cs || has a (x ∷ ss))
  in_all a = has-append a cs (x ∷ ss)

-- A tree of processes is dead, and `qs` are to follow.
abbrev pub Dead : Layout → Ptr → List Ptr → List Ptr → Census → Kernel → Kernel → Type 0
Dead l x cs qs d k g = (e : Census) × Burials l e qs d × Kills (x ∷ cs) (x ∷ cs) e k g

tree-Dead :
    (l : Layout) (m : ℕ) (x : Ptr) (cs : Forest) (qs : List Ptr) {k : Kernel} {e d : Census}
    → k.layout ≡ l
    → Returns (λ _ g. Alone x cs e k g) (kill_children m x k)
    → Burials l e (x ∷ qs) d
    → Returns (λ _ g. Dead l x (post_order cs) qs d k g) (terminate_recursively (suc m) x k)
tree-Dead l m x cs qs {k} {e} {d} q run b = rw (terminate-step m x k) (
    Monad.bind run λ u g a.
      let (e', b', r) = kill-Burials a.kills.stands x qs (same_layout k g a.kills.rest ∙ q) b in
      Monad.mono r λ u' h n. (
        e',
        b',
        Kills-trans (Kills-more (λ c i. i) (λ c i. ground arith) a.kills)
            (Kills-more (λ c i. ground arith) (λ c i. ground arith) n),
      ))

-- The process `p`, its first child `x` with the descendants `cs`, and its other children `ss`.
module _ (p x : Ptr) (cs ss : Forest) (t : Apart p x (post_order cs) (post_order ss)) where
  child_away :
      (a : Ptr)
      → has a (post_order cs) ≡ true
      → (has a (p ∷ []) ≡ false) × (has a (x ∷ roots ss) ≡ false)
  child_away a m = (
    ground (arith, has-apart a p (post_order cs) m t.parent_cs),
    ground (arith, has-apart a x (post_order cs) m t.child_cs, t.apart a m, has-post_order ss a),
  )

  sibling_away : (a : Ptr) → has a (post_order ss) ≡ true → has a (x ∷ post_order cs) ≡ false
  sibling_away a m = ground (arith, has-apart a x (post_order ss) m t.child_ss, t.apart a)

  inner_away : (a : Ptr) → has a (inner ss) ≡ true → has a (x ∷ roots ss) ≡ false
  inner_away a m = ground (
    arith,
    has-inner ss t.distinct_ss a m,
    has-apart a x (post_order ss) (has_of-inner ss a m) t.child_ss,
  )

  -- The trees below `x` and `p` when `x` has left.
  Below-child :
      {h g : Pcbs} → TreeBut (p ∷ []) (x ∷ roots ss) h g → IsAncestor h x cs → IsAncestor g x cs
  Below-child n a =
      IsAncestor-TreeBut x cs n (ground (arith, t.parent_ne)) (λ a m. (child_away a m).0)
        (λ a m. (child_away a m).1) a

  Below-parent :
      {h g : Pcbs}
      → TreeBut (p ∷ []) (x ∷ roots ss) h g
      → IsFamily g p (roots ss)
      → Below h ss
      → IsAncestor g p ss
  Below-parent n f b = (
    f,
    Below-TreeBut ss n (λ a m. ground (arith, has-apart a p (post_order ss) m t.parent_ss))
        inner_away b,
  )

  -- The tree below `p` when those of `x` are dead.
  Below-dead :
      {h g : Pcbs}
      → TreeBut (x ∷ post_order cs) (x ∷ post_order cs) h g
      → IsAncestor h p ss
      → IsAncestor g p ss
  Below-dead n a =
      IsAncestor-TreeBut p ss n (ground (arith, t.parent_ne, t.parent_cs)) sibling_away sibling_away
        a

  whole :
      {c e d : Census} {k g h j : Kernel}
      → Kills (p ∷ []) (x ∷ roots ss) c k g
      → Kills (x ∷ post_order cs) (x ∷ post_order cs) e g h
      → Kills (p ∷ post_order ss) (post_order ss) d h j
      → Kills (p ∷ post_order (node x cs ss)) (post_order (node x cs ss)) d k j
  whole one two three =
      Kills-trans
        (Kills-more (λ a i. ground arith) (λ a i. ground (arith, part a, has-post_order ss a)) one)
        (Kills-trans
          (Kills-more (λ a i. ground (arith, part a)) (λ a i. ground (arith, part a)) two)
          (Kills-more (λ a i. ground (arith, part a)) (λ a i. ground (arith, part a)) three))
    where
      part :
          (a : Ptr)
          → has a (post_order cs ++ x ∷ post_order ss)
            ≡ (has a (post_order cs) || has a (x ∷ post_order ss))
      part = in_all p x (post_order cs) (post_order ss)

-- With two units of fuel for each descendant and one more, the loop returns with all of them dead,
-- one after the other as the burials say.
pub kill_children-Alone :
    (l : Layout) (f : Forest) (n : ℕ) (p : Ptr) (k : Kernel) {c d : Census}
    → k.layout ≡ l
    → Stands k c
    → IsAncestor k.asl.pcbs p f
    → Nodup (p ∷ post_order f)
    → Burials l c (post_order f) d
    → 2 * size f + 1 ≤ n
    → Returns (λ _ g. Alone p f d k g) (kill_children n p k)
kill_children-Alone l none zero p k q v a nd b le = absurd (omega arith)
kill_children-Alone l none (suc n) p k q v a nd nobody le = rw (kill_children-last n p k a.0 v) (
    returns
      (record { kills = record { stands = v; tree = TreeBut-refl; rest = refl }; family = a.0 }))
kill_children-Alone l (node x cs ss) zero p k q v a nd b le = absurd (omega arith)
kill_children-Alone l (node x cs ss) (suc zero) p k q v a nd b le = absurd (omega arith)
kill_children-Alone l (node x cs ss) (suc (suc m)) p k q v a nd b le =
    let t = Apart-of p x (post_order cs) (post_order ss) nd in
    let (e, b1, b2) = Burials-split (post_order cs) (x ∷ post_order ss) b in
    rw (kill_children-next (suc m) p k x (roots ss) a.0 v) (
      Monad.bind (remove_child-Orphans v p x (roots ss) a.0) λ r g o. rw o.found (
        Monad.bind
          (tree-Dead l m x cs (post_order ss) (same_layout k g o.kills.rest ∙ q)
            (kill_children-Alone l cs m x g (same_layout k g o.kills.rest ∙ q) o.kills.stands
              (Below-child p x cs ss t o.kills.tree (a.1.0, a.1.1)) (t.child_cs, t.distinct_cs) b1
              (omega arith))
            b2)
          λ u h (e', b', n).
            Monad.mono
              (kill_children-Alone l ss (suc m) p h
                (same_layout g h n.rest ∙ same_layout k g o.kills.rest ∙ q) n.stands
                (Below-dead p x cs ss t n.tree
                  (Below-parent p x cs ss t o.kills.tree o.family a.1.2))
                (t.parent_ss, t.distinct_ss) b' (omega arith))
              λ u' j z. record { kills = whole p x cs ss t o.kills n z.kills; family = z.family }))
