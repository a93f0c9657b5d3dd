-- ===== src/Kernel/Terminate/Step.antt =====
-- The steps of the loop in `terminateRecursively` of phase2/exceptions.c: a child is cut off from
-- its parent, and a process without children dies.
use mathlib.Core.Path.{subst}
use kaya_project.Base.{
  ◌≡◌, refl, sym, ap, ◌∙◌, true, false, List, [], ◌∷◌, has, ok, Returns, ==-refl,
}
use kaya_project.Base.Monad
use kaya_project.Machine.{Ptr, Info}
use kaya_project.Pcb.Table.{Pcbs}
use kaya_project.Pcb.Queue.Links.{IsQueue, IsQueue-same, cell_not_null}
use kaya_project.Pcb.Tree.{empty_child, remove_child}
use kaya_project.Pcb.Tree.Family.{IsFamily, KinBut}
use kaya_project.Pcb.Tree.Out.{remove_child-first}
use kaya_project.Asl.Table.{on_pcbs}
use kaya_project.Asl.Map.Frame.{IsAsl-pcbs}
use kaya_project.Kernel.State.{Kernel, Layout}
use kaya_project.Kernel.Access.{on_asl}
use kaya_project.Kernel.Terminate.{kill}
use kaya_project.Kernel.Terminate.Forest.{TreeBut-trans, TreeBut-more, TreeBut-KinBut}
use kaya_project.Kernel.Terminate.Census.{
  Census, Stands, Burials, from_ready, from_semaphore, drop_waiter,
}
use kaya_project.Kernel.Terminate.Kill.{Kills, aside, Aside, kill-ready, kill-waiter}

-- The census does not depend on the tree.
pub Stands-KinBut :
    {k : Kernel} {c : Census} {p : Ptr} {zs : List Ptr} (g : Pcbs)
    → KinBut p zs k.asl.pcbs g
    → Stands k c
    → Stands (record k { asl = record (k.asl) { pcbs = g } }) c
Stands-KinBut {k} {c} g e v = record {
  kernel = record {
    waits =
        IsAsl-pcbs g v.kernel.waits (λ s a m. e.next a) (λ s a m. e.prev a)
          λ s a m. ap (λ (i : Info). i.sem_add) (e.info a);
    queue = IsQueue-same v.kernel.queue (λ a m. e.next a) (λ a m. e.prev a);
    free =
        subst (λ t. IsQueue g t c.pool) (sym e.free)
          (IsQueue-same v.kernel.free (λ a m. e.next a) (λ a m. e.prev a));
    ready_idle = v.kernel.ready_idle;
    ready_used = v.kernel.ready_used;
    pool_idle = v.kernel.pool_idle;
  };
  processes = v.processes;
  soft_blocks = v.soft_blocks;
  ints = v.ints;
  at_rest = λ q m. ap (λ (i : Info). i.sem_add) (e.info q) ∙ v.at_rest q m;
  alone = v.alone;
}

-- Two parts of a run.
pub Kills-trans :
    {ks zs : List Ptr} {c d : Census} {k g f : Kernel}
    → Kills ks zs c k g
    → Kills ks zs d g f
    → Kills ks zs d k f
Kills-trans a b = record {
  stands = b.stands;
  tree = TreeBut-trans a.tree b.tree;
  rest = b.rest ∙ a.rest;
}

pub Kills-more :
    {ks zs js ys : List Ptr} {c : Census} {k g : Kernel}
    → ((a : Ptr) → has a js ≡ false → has a ks ≡ false)
    → ((a : Ptr) → has a ys ≡ false → has a zs ≡ false)
    → Kills ks zs c k g
    → Kills js ys c k g
Kills-more j y a = record { stands = a.stands; tree = TreeBut-more j y a.tree; rest = a.rest }

pub same_layout : (k g : Kernel) → aside g ≡ aside k → g.layout ≡ k.layout
same_layout k g e = ap (λ (r : Aside). r.layout) e

-- `removeChild` of the first child.
pub record Orphans (p x : Ptr) (xs : List Ptr) (c : Census) (k : Kernel) (r : Ptr) (g : Kernel)
    : Type 0 where
  pub found : r ≡ x
  pub kills : Kills (p ∷ []) (x ∷ xs) c k g
  pub family : IsFamily g.asl.pcbs p xs

module _ {k : Kernel} {c : Census} (v : Stands k c) (p : Ptr) where
  pub remove_child-Orphans :
      (x : Ptr) (xs : List Ptr)
      → IsFamily k.asl.pcbs p (x ∷ xs)
      → Returns (Orphans p x xs c k) (on_asl (on_pcbs (remove_child p)) k)
  remove_child-Orphans x xs f =
      Monad.lift (λ a. record k { asl = a })
        (Monad.lift {Q = λ r a. Orphans p x xs c k r (record k { asl = a })}
          (λ h. record (k.asl) { pcbs = h }) (remove_child-first k.asl.pcbs p (x ∷ xs) f)
          λ r g (e, f', n). record {
            found = e;
            kills = record { stands = Stands-KinBut g n v; tree = TreeBut-KinBut n; rest = refl };
            family = rw (==-refl x) at f';
          })
        λ r a m. m

  pub no_children : IsFamily k.asl.pcbs p [] → on_asl (on_pcbs (empty_child p)) k ≡ ok true k
  unfolding empty_child
  no_children f = rw (cell_not_null p f.cell) (rw f.child refl)

  pub some_children :
      (x : Ptr) (xs : List Ptr)
      → IsFamily k.asl.pcbs p (x ∷ xs)
      → on_asl (on_pcbs (empty_child p)) k ≡ ok false k
  unfolding empty_child
  some_children x xs f =
      rw (cell_not_null p f.cell) (rw f.child (rw (cell_not_null x f.cells.0) refl))

  -- The first one of the burials.
  pub kill-Burials :
      {l : Layout} {d : Census} (ps : List Ptr)
      → k.layout ≡ l
      → Burials l c (p ∷ ps) d
      → (e : Census) × Burials l e ps d × Returns (λ _ g. Kills (p ∷ []) (p ∷ []) e k g) (kill p k)
  kill-Burials ps q (from_ready m b) = (_, b, kill-ready v p m)
  kill-Burials ps q (from_semaphore s x xs pos top wait i ne b) = (
    _,
    b,
    subst (λ l. Returns (λ _ g. Kills (p ∷ []) (p ∷ []) (drop_waiter l s p c) k g) (kill p k)) q
        (kill-waiter v p s x xs pos top wait i ne),
  )
