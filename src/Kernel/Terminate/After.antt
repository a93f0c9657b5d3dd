-- ===== src/Kernel/Terminate/After.antt =====
-- What the scheduler of phase2/scheduler.c makes of the kernel behind SYS 2.
use mathlib.Core.Path.{subst}
use kaya_project.Base.{
  ◌≡◌, refl, ap, ◌∙◌, true, false, List, [], ◌∷◌, ◌++◌, arith, ◌==◌, ==-refl, has, has-append, ◌||◌,
  stop, Stops,
}
use kaya_project.Base.Monad
use kaya_project.Base.Words.{dec32}
use kaya_project.Machine.{Ptr, Exit, Info, ldst, wait}
use kaya_project.Pcb.Tree.Family.{IsFamily}
use kaya_project.Kernel.State.{Kernel, set_status}
use kaya_project.Kernel.Scheduler.Outcomes.{scheduler-nil}
use kaya_project.Kernel.Invariant.{IsKernel, IsRunning}
use kaya_project.Kernel.Invariant.Fields.{info_of, IsKernel-same}
use kaya_project.Kernel.Invariant.Dispatch.{scheduler-Runs}
use kaya_project.Kernel.Terminate.{terminate_process}
use kaya_project.Kernel.Terminate.Forest.{Forest, post_order}
use kaya_project.Kernel.Terminate.Census.{Census, Burials-pool}
use kaya_project.Kernel.Terminate.Kill.{Aside}
use kaya_project.Kernel.Terminate.Current.{Condemned, terminate_process-Terminated}

module _ {k : Kernel} {c d : Census} {f : Forest} (v : Condemned k c d f) (q : Ptr) (xs : List Ptr)
    (fam : IsFamily k.asl.pcbs q xs) (child : has k.current_process xs ≡ true)
    (strange : (a : Ptr) → has a (q ∷ xs) ≡ true → has a (post_order f) ≡ false)
    (parent_ne : (q == k.current_process) ≡ false) where
  abbrev me : Ptr
  me = k.current_process

  -- Who is ready afterwards is not among the dead.
  survivor :
      {g : Kernel} (x : Ptr) (ys : List Ptr)
      → IsKernel g (x ∷ ys) d.waits (d.pool ++ me ∷ [])
      → has x (me ∷ post_order f) ≡ false
  survivor x ys n =
      let dead : has x d.pool ≡ (has x c.pool || has x (post_order f)) =
        rw (Burials-pool (post_order f) v.burials) (has-append x c.pool (post_order f)) in
      ground
        (arith, n.ready_used x (ground (arith, ==-refl x)), has-append x d.pool (me ∷ []), dead)

  -- The process `x` runs in a kernel with its invariant, in which the dead are free.
  pub record Succeeds (x : Ptr) (ys : List Ptr) (e : Exit) (g : Kernel) : Type 0 where
    pub loaded : e ≡ ldst (info_of k x).p_s
    pub current : g.current_process ≡ x
    pub running : IsRunning g ys d.waits (d.pool ++ me ∷ [])

  -- Where the descendants can be buried and the parent stands outside the subtree, SYS 2 gives the
  -- processor to the first process that is ready afterwards, and the kernel keeps its invariant.
  pub terminate_process-Succeeds :
      (x : Ptr) (ys : List Ptr) → d.ready ≡ x ∷ ys → Stops (Succeeds x ys) (terminate_process k)
  terminate_process-Succeeds x ys e =
      let (g, run, t) = terminate_process-Terminated v q xs fam child strange parent_ne in
      let n = subst (λ l. IsKernel g l d.waits (d.pool ++ me ∷ [])) e t.stands.kernel in
      rw run (
        Monad.mono-Stops (scheduler-Runs x n) λ e' h r. record {
          loaded = r.loaded ∙ ap (λ (i : Info). ldst i.p_s) (t.info x (survivor x ys n));
          current = r.current;
          running = r.kernel;
        })

  -- If nobody is ready afterwards, a process is left and one waits for a device, the machine waits
  -- with the queues well-formed and the dead process, whose block is free, still the current one.
  pub terminate_process-waits :
      d.ready ≡ []
      → (dec32 d.processes == 0) ≡ false
      → (d.soft_blocks == 0) ≡ false
      → (g : Kernel) × (terminate_process k ≡ stop wait g)
        × IsKernel g [] d.waits (d.pool ++ me ∷ [])
        × (g.current_process ≡ me)
  terminate_process-waits e q' m =
      let (g, run, t) = terminate_process-Terminated v q xs fam child strange parent_ne in
      let n = subst (λ l. IsKernel g l d.waits (d.pool ++ me ∷ [])) e t.stands.kernel in
      (
        record g { wait_flag = 1; calls = set_status 0xff01 ∷ g.calls },
        run ∙ scheduler-nil g n.queue ∙ rw (t.stands.processes, q', t.stands.soft_blocks, m) refl,
        IsKernel-same refl refl n,
        ap (λ (r : Aside). r.current_process) t.rest,
      )
