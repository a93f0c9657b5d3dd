-- ===== src/Kernel/Syscalls/Spawn.antt =====
-- SYS 1 of phase2/exceptions.c when a block is free.
use mathlib.Core.Path.{subst}
use kaya_project.Base.{
  true, false, has, Returns, ◌≡◌, refl, sym, ap, ◌∙◌, List, [], ◌∷◌, ◌++◌, arith, ◌==◌,
  if◌then◌else◌, has-append, ok, stop, update, and_then, ==-refl,
}
use kaya_project.Base.Monad
use kaya_project.Base.Monad.{Run, ◌>>◌, ◌>>=◌}
use kaya_project.Base.Words.{inc32}
use kaya_project.Machine.{Ptr, State, Info, Command, IsCell, null, ldst}
use kaya_project.Pcb.Queue.Links.{cell_not_null, IsQueue-same, SameBut}
use kaya_project.Pcb.Table.{Pcbs}
use kaya_project.Pcb.Tree.{insert_child}
use kaya_project.Pcb.Tree.Insert.{insert_child-links, insert_child-cons, Adopted}
use kaya_project.Pcb.Tree.Family.{IsFamily}
use kaya_project.Pcb.Pool.Cycle.{IsClean, Outside}
use kaya_project.Kernel.Terminate.Forest.{TreeBut, IsFamily-TreeBut}
use kaya_project.Pcb.Pool.{alloc_pcb}
use kaya_project.Asl.Table.{Asl, on_pcbs}
use kaya_project.Asl.Map.{Waiting}
use kaya_project.Asl.Map.Frame.{IsAsl-pcbs}
use kaya_project.Kernel.State.{Kernel}
use kaya_project.Kernel.Access.{
  on_asl, modify, get_current, make_ready, copy_state, state_copy_pcb, sys_call_old, a1, v0,
  set_reg,
}
use kaya_project.Kernel.Syscalls.{create_process, set_result, resume}
use kaya_project.Kernel.Invariant.{IsApart, IsKernel, IsRunning}
use kaya_project.Kernel.Invariant.Alloc.{alloc_pcb-Allocates}
use kaya_project.Kernel.Invariant.Steps.{make_ready-Readies}
use kaya_project.Kernel.Invariant.Fields.{
  with_info, info_of, IsKernel-same, IsKernel-with_info, state_copy_pcb-ok,
}

-- The tree links of the blocks given anew.
abbrev with_links : Kernel → Pcbs → Kernel
with_links k g = record k { asl = record (k.asl) { pcbs = g } }

-- Where the processes stand does not depend on the tree.
IsKernel-links :
    {k : Kernel} {ready pool : List Ptr} {w : Waiting} (g : Pcbs)
    → g ≡ record (k.asl.pcbs) { prnt = g.prnt; child = g.child; sib = g.sib; prevsib = g.prevsib }
    → IsKernel k ready w pool
    → IsKernel (with_links k g) ready w pool
IsKernel-links {k} {ready} {pool} {w} g e v = rw e (record {
  waits = IsAsl-pcbs _ v.waits (λ s b m. refl) (λ s b m. refl) (λ s b m. refl);
  queue = IsQueue-same v.queue (λ b m. refl) (λ b m. refl);
  free = IsQueue-same v.free (λ b m. refl) (λ b m. refl);
  ready_idle = v.ready_idle;
  ready_used = v.ready_used;
  pool_idle = v.pool_idle;
})

module _ {k : Kernel} {ready pool : List Ptr} {w : Waiting} (x : Ptr)
    (v : IsRunning k ready w (x ∷ pool)) where
  abbrev me : Ptr
  me = k.current_process

  abbrev old : State
  old = k.states sys_call_old

  -- The rest of the handler behind `allocPcb`.
  abbrev made : Ptr → Command Kernel (Unit {0})
  made p = if p == null then set_result 0xffff_ffff else do
    state_copy_pcb p (old.reg a1)
    modify λ g. record g { process_count = inc32 g.process_count }
    current ← get_current
    on_asl (on_pcbs (insert_child current p))
    make_ready p
    set_result 0
    resume

  create_process-made : create_process k ≡ and_then (on_asl (on_pcbs alloc_pcb) k) made
  unfolding create_process
  create_process-made = refl

  -- The process `x` is ready behind the others, with the registers at a1 and counted; the rest is
  -- in its place.
  pub record Created (g : Kernel) : Type 0 where
    pub kernel : IsKernel g (ready ++ x ∷ []) w pool
    pub current : IsApart (ready ++ x ∷ []) w pool g.current_process
    pub same : g.current_process ≡ k.current_process
    pub flag : g.wait_flag ≡ k.wait_flag
    pub saved : (s : State) × ((info_of g x).p_s ≡ copy_state (k.states (old.reg a1)) s)
    pub processes : g.process_count ≡ inc32 k.process_count

  -- The new process with its registers, counted.
  abbrev copied : Asl → Kernel
  copied b =
      let g = record k { asl = b } in
      let i = record (info_of g x) { p_s = copy_state (k.states (old.reg a1)) (info_of g x).p_s } in
      record (with_info g x i) { process_count = inc32 k.process_count }

  abbrev answered : Kernel → Kernel
  answered r = record r {
    states = update r.states sys_call_old (set_reg (r.states sys_call_old) v0 0);
  }

  made-answered :
      (b : Asl) (h : Pcbs) (r : Kernel)
      → IsCell x
      → insert_child me x (copied b).asl.pcbs ≡ ok tt h
      → make_ready x (with_links (copied b) h) ≡ ok tt r
      → made x (record k { asl = b })
        ≡ stop (ldst (set_reg (r.states sys_call_old) v0 0)) (answered r)
  unfolding set_result resume
  made-answered b h r c e e' =
      rw (cell_not_null x c) (rw (state_copy_pcb-ok (record k { asl = b }) x c) (rw e (rw e' refl)))

  -- In `g` the process `x` comes before the children that the caller had.
  abbrev Adopts : Kernel → Type 0
  Adopts g =
      (kids : List Ptr)
      → IsFamily k.asl.pcbs me kids
      → ((a : Ptr) → has a kids ≡ true → has a (x ∷ pool) ≡ false)
      → IsFamily g.asl.pcbs me (x ∷ kids)

  adopts :
      (b : Asl) (h g : Pcbs)
      → IsCell x
      → IsClean b.pcbs x
      → Outside (x ∷ pool) k.asl.pcbs b.pcbs
      → insert_child me x (copied b).asl.pcbs ≡ ok tt h
      → SameBut (x ∷ ready) h g
      → (kids : List Ptr) → IsFamily k.asl.pcbs me kids
      → ((a : Ptr) → has a kids ≡ true → has a (x ∷ pool) ≡ false)
      → IsFamily g me (x ∷ kids)
  adopts b h g c clean o e s kids f away =
      let kept : TreeBut (x ∷ pool) (x ∷ pool) k.asl.pcbs (copied b).asl.pcbs = record {
        child = o.child;
        prnt = o.prnt;
        sib = o.sib;
        prevsib = o.prevsib;
        info = λ a n. ground (arith, o.info a n);
      } in
      let family : IsFamily (copied b).asl.pcbs me kids =
        IsFamily-TreeBut kept v.current.used away f in
      let (adopted, kin) = Monad.result (
        subst (λ r. Returns (Adopted (copied b).asl.pcbs me x kids) r) e
          (insert_child-cons (copied b).asl.pcbs me x kids family c
            (ground (arith, λ (n : has x kids ≡ true). away x n, ==-refl x)) clean.sib
            clean.prevsib)) in
      IsFamily-TreeBut {ks = []} {zs = []}
        (record {
          child = λ a n. s.child a;
          prnt = λ a n. s.prnt a;
          sib = λ a n. s.sib a;
          prevsib = λ a n. s.prevsib a;
          info = λ a n. s.info a;
        })
        refl (λ a m. refl) adopted

  grown :
      (g : Kernel) × (create_process k ≡ stop (ldst (set_reg old v0 0)) g) × Created g × Adopts g
  grown =
      let (p, a, e, m) = Monad.returned (alloc_pcb-Allocates x v.kernel) in
      let b = a.asl in
      let v1 : IsKernel (record k { asl = b }) ready w pool =
        IsKernel-same refl (sym (ap (λ n. Kernel.ready_que n) m.rest)) m.kernel in
      let v2 : IsKernel (copied b) ready w pool =
        IsKernel-same refl refl (IsKernel-with_info x _ refl v1) in
      let (u, h, e', (q, kin)) =
        Monad.returned (insert_child-links (copied b).asl.pcbs me x v.current.cell m.apart.cell) in
      let (u', r, e'', n) = Monad.returned (make_ready-Readies (IsKernel-links h q v2) x m.apart) in
      (
        answered r,
        create_process-made
            ∙ ap (λ r. and_then r made) (e ∙ ap (λ q. ok q a) m.found ∙ ap (ok x) m.rest)
            ∙ made-answered b h r m.apart.cell e' e''
            ∙ ap (λ (z : Kernel). stop (ldst (set_reg (z.states sys_call_old) v0 0)) (answered r))
                n.rest,
        record {
          kernel = IsKernel-same refl refl n.kernel;
          current =
              subst (IsApart (ready ++ x ∷ []) w pool)
                (sym (ap (λ z. Kernel.current_process z) n.rest)) me_apart;
          same = ap (λ z. Kernel.current_process z) n.rest;
          flag = ap (λ z. Kernel.wait_flag z) n.rest;
          saved = (
            (info_of a x).p_s,
            ap (λ (j : Info). j.p_s) (n.info x) ∙ ap (λ g. (Pcbs.info g x).p_s) q ∙ written a.asl,
          );
          processes = ap (λ z. Kernel.process_count z) n.rest;
        },
        adopts b h r.asl.pcbs m.apart.cell m.clean m.outside e' n.frame,
      )
    where
      written :
          (b : Asl)
          → (info_of (copied b) x).p_s ≡ copy_state (k.states (old.reg a1)) (b.pcbs.info x).p_s
      written b = rw (==-refl x) refl

      me_apart : IsApart (ready ++ x ∷ []) w pool me
      me_apart = record {
        cell = v.current.cell;
        not_ready =
            ground (arith, has-append me ready (x ∷ []), v.current.not_ready, v.current.used);
        idle = v.current.idle;
        used = ground (arith, v.current.used);
      }

  -- SYS 1 with `x` the first free block: `x` becomes a ready process with a copy of the state at a1,
  -- one process more is counted, and the caller goes on with 0 in v0.
  pub create_process-Created :
      (g : Kernel) × (create_process k ≡ stop (ldst (set_reg old v0 0)) g) × Created g
  create_process-Created = let (g, run, o, f) = grown in (g, run, o)

  -- In a kernel with its invariant, where `x` is the first free block and the children of the current
  -- process are `kids`, none of them free: SYS 1 loads the caller's state with 0 in v0; `x` is ready
  -- behind the others, with the registers at a1 and counted, and is the first child of the caller,
  -- before `kids`; who waits, the rest of the pool, the current process and the wait flag are as
  -- before.
  pub create_process-Adopts :
      (kids : List Ptr)
      → IsFamily k.asl.pcbs me kids
      → ((a : Ptr) → has a kids ≡ true → has a (x ∷ pool) ≡ false)
      → (g : Kernel) × (create_process k ≡ stop (ldst (set_reg old v0 0)) g)
        × Created g
        × IsFamily g.asl.pcbs me (x ∷ kids)
  create_process-Adopts kids f away =
      let (g, run, o, family) = grown in (g, run, o, family kids f away)
