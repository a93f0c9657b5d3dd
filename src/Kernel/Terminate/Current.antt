-- ===== src/Kernel/Terminate/Current.antt =====
-- SYS 2 of phase2/exceptions.c: the current process dies with all its descendants.
use kaya_project.Base.{
  ◌+◌, ◌*◌, ◌≤◌, ◌≡◌, refl, ap, ◌∙◌, true, false, List, [], ◌∷◌, arith, ◌==◌, ==-refl, has,
  has-append, has-apart, has-erase_self, has-erase_of, erase, Nodup, All, All-append, and_then,
  fault, length-le_of_Nodup, Returns,
}
use kaya_project.Base.Monad
use kaya_project.Base.Monad.{Run}
use kaya_project.Machine.{Ptr, Info, null, max_proc, IsCell}
use kaya_project.Pcb.Table.{Pcbs}
use kaya_project.Pcb.Pool.{free_pcb, clean_pcb}
use kaya_project.Pcb.Tree.{out_child}
use kaya_project.Pcb.Tree.Family.{IsFamily}
use kaya_project.Pcb.Tree.Out.{out_child-erase, out_child-orphan}
use kaya_project.Asl.Table.{on_pcbs}
use kaya_project.Kernel.State.{Kernel, Layout}
use kaya_project.Kernel.Access.{on_asl}
use kaya_project.Kernel.Scheduler.{scheduler}
use kaya_project.Kernel.Invariant.{IsApart}
use kaya_project.Kernel.Invariant.Leave.{has-leave}
use kaya_project.Kernel.Invariant.Fields.{info_of, get_pcb-ok}
use kaya_project.Kernel.Terminate.{
  kill, kill_children, terminate_recursively, terminate_process, tree_fuel,
}
use kaya_project.Kernel.Terminate.Forest.{
  Forest, none, node, roots, post_order, size, length-post_order, IsAncestor, Below,
  IsFamily-TreeBut, TreeBut-refl,
}
use kaya_project.Kernel.Terminate.Census.{
  Census, Stands, Burials, nobody, from_ready, from_semaphore, bury,
}
use kaya_project.Kernel.Terminate.Kill.{Aside, aside, free_and_count, free_and_count-Kills}
use kaya_project.Kernel.Terminate.Step.{Stands-KinBut}
use kaya_project.Kernel.Terminate.Loop.{Alone, kill_children-Alone}

Below-cells : (h : Pcbs) (f : Forest) → All IsCell (roots f) → Below h f → All IsCell (post_order f)
Below-cells h none c b = tt
Below-cells h (node p cs ss) c b =
    All-append IsCell (post_order cs) (p ∷ post_order ss) (Below-cells h cs b.0.cells b.1)
      (c.0, Below-cells h ss c.1 b.2)

-- A process that none of the burials names stays apart from the queues.
pub Burials-IsApart :
    {l : Layout} (p : Ptr) (ps : List Ptr) {c d : Census}
    → Burials l c ps d
    → has p ps ≡ false
    → IsApart c.ready c.waits c.pool p
    → IsApart d.ready d.waits d.pool p
Burials-IsApart p [] nobody n o = o
Burials-IsApart p (q ∷ qs) {c} (from_ready m b) n o =
    Burials-IsApart p qs b (ground arith) (record {
      cell = o.cell;
      not_ready = has-erase_of p q c.ready o.not_ready;
      idle = o.idle;
      used = ground (arith, has-append p c.pool (q ∷ []), o.used);
    })
Burials-IsApart p (q ∷ qs) {c} (from_semaphore s x xs pos top wait i ne b) n o =
    Burials-IsApart p qs b (ground arith) (record {
      cell = o.cell;
      not_ready = o.not_ready;
      idle = λ t. has-leave c.waits s q p t (o.idle t);
      used = ground (arith, has-append p c.pool (q ∷ []), o.used);
    })

-- The current process of `k`, and its descendants `f`: they can be buried one after the other, each
-- ready or waiting and not the second one behind another, which leads from the census `c` to `d`.
pub record Condemned (k : Kernel) (c d : Census) (f : Forest) : Type 0 where
  pub stands : Stands k c
  pub apart : IsApart c.ready c.waits c.pool k.current_process
  pub awake : (info_of k k.current_process).sem_add ≡ null
  pub tree : IsAncestor k.asl.pcbs k.current_process f
  pub distinct : Nodup (k.current_process ∷ post_order f)
  pub burials : Burials k.layout c (post_order f) d

module _ {k : Kernel} {c d : Census} {f : Forest} (v : Condemned k c d f) where
  abbrev me : Ptr
  me = k.current_process

  enough : 2 * size f + 1 ≤ 40
  enough = omega (
    arith,
    length-post_order f,
    length-le_of_Nodup max_proc (me ∷ post_order f) v.distinct
        (v.apart.cell, Below-cells k.asl.pcbs f v.tree.0.cells v.tree.1),
  )

  -- The descendants are dead.
  childless : Returns (λ _ g. Alone me f d k g) (kill_children 40 me k)
  childless =
      kill_children-Alone k.layout f 40 me k refl v.stands v.tree v.distinct v.burials enough

  -- The function behind its loop, for the current process without a semaphore.
  kill-current :
      (g : Kernel)
      → Alone me f d k g
      → kill me g ≡ and_then (on_asl (on_pcbs (out_child me)) g) free_and_count
  unfolding kill
  kill-current g a = rw (get_pcb-ok g me v.apart.cell) (
      rw (ap (λ (i : Info). i.sem_add) (a.kills.tree.info me v.distinct.0) ∙ v.awake)
        (rw (ap (λ (r : Aside). r.current_process) a.kills.rest) (rw (==-refl me) refl)))

  -- The parent's children, with the rest of the tree apart from the descendants of the current one.
  module _ (q : Ptr) (xs : List Ptr) (fam : IsFamily k.asl.pcbs q xs) (child : has me xs ≡ true)
      (strange : (a : Ptr) → has a (q ∷ xs) ≡ true → has a (post_order f) ≡ false)
      (parent_ne : (q == me) ≡ false) where
    -- The current process and its descendants are dead; the other children of its parent stay, and
    -- so does all of the kernel that has to do with none of them.
    pub record Terminated (g : Kernel) : Type 0 where
      pub stands : Stands g (bury me d)
      pub family : IsFamily g.asl.pcbs q (erase me xs)
      pub info : (a : Ptr) → has a (me ∷ post_order f) ≡ false → info_of g a ≡ info_of k a
      pub rest : aside g ≡ aside k

    parent_away : has q (me ∷ post_order f) ≡ false
    parent_away = ground (arith, strange q, ==-refl q)

    sibling_away : (a : Ptr) → has a xs ≡ true → has a (post_order f) ≡ false
    sibling_away a m = ground (arith, strange a)

    -- `outChild(p)`
    record Cut (g : Kernel) (r : Ptr) (h : Kernel) : Type 0 where
      found : r ≡ me
      stands : Stands h d
      family : IsFamily h.asl.pcbs q (erase me xs)
      info : (a : Ptr) → info_of h a ≡ info_of g a
      rest : aside h ≡ aside g

    out_child-Cut :
        (g : Kernel) → Alone me f d k g → Returns (Cut g) (on_asl (on_pcbs (out_child me)) g)
    out_child-Cut g a =
        Monad.lift (λ b. record g { asl = b })
          (Monad.lift {Q = λ r b. Cut g r (record g { asl = b })} (λ h. record (g.asl) { pcbs = h })
            (out_child-erase g.asl.pcbs me q xs
              (IsFamily-TreeBut a.kills.tree parent_away sibling_away fam) child)
            λ r h (e, _, f', n). record {
              found = e;
              stands = Stands-KinBut h n a.kills.stands;
              family = f';
              info = n.info;
              rest = refl;
            })
          λ r b m. m

    others : (a : Ptr) → has a (erase me xs) ≡ true → has a (me ∷ []) ≡ false
    others a m = ground (arith, has-apart a me (erase me xs) m (has-erase_self me xs fam.distinct))

    ended : (g : Kernel) → Alone me f d k g → Returns (λ _ h. Terminated h) (kill me g)
    ended g a = rw (kill-current g a) (
        Monad.bind (out_child-Cut g a) λ r h n. rw n.found (
          Monad.mono
            (free_and_count-Kills {k = h} me n.stands
              (Burials-IsApart me (post_order f) v.burials v.distinct.0 v.apart) refl TreeBut-refl)
            λ u j z. record {
              stands = z.stands;
              family = IsFamily-TreeBut z.tree (ground (arith, parent_ne)) others n.family;
              info = λ a' m.
                  z.tree.info a' (ground arith) ∙ n.info a' ∙ a.kills.tree.info a' (ground arith);
              rest = z.rest ∙ n.rest ∙ a.kills.rest;
            }))

    -- Where the descendants of the current process can be buried and its parent stands outside its
    -- subtree, `terminateRecursively` of it returns within its fuel: all of them are dead and free,
    -- and of the others no field but links has changed, and the current process is the same.
    pub terminate_recursively-Terminated :
        Returns (λ _ g. Terminated g) (terminate_recursively tree_fuel me k)
    unfolding terminate_recursively
    terminate_recursively-Terminated = Monad.bind childless λ u g a. ended g a

    -- SYS 2 goes on in the scheduler.
    pub terminate_process-Terminated :
        (g : Kernel) × (terminate_process k ≡ scheduler g) × Terminated g
    unfolding terminate_process
    terminate_process-Terminated =
        let (u, g, e, n) = Monad.returned terminate_recursively-Terminated in
        (g, ap (λ r. and_then r λ u. scheduler) e, n)

  -- A current process without a parent.
  module _ (root : k.asl.pcbs.prnt me ≡ null) where
    lost : (g : Kernel) → Alone me f d k g → kill me g ≡ fault
    unfolding free_pcb clean_pcb
    lost g a = rw (kill-current g a) (
        rw (out_child-orphan g.asl.pcbs me v.apart.cell (a.kills.tree.prnt me v.distinct.0 ∙ root))
          refl)

    -- If it has none, and its descendants can be buried, SYS 2 writes through NULL.
    pub terminate_process-root : terminate_process k ≡ fault
    unfolding terminate_process terminate_recursively
    terminate_process-root =
        let (u, g, e, n) = Monad.returned childless in
        ap (λ r. and_then (and_then r λ u. kill me) λ u. scheduler) e
        ∙ ap (λ r. and_then r λ u. scheduler) (lost g n)
