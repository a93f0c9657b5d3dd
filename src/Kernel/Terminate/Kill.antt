-- ===== src/Kernel/Terminate/Kill.antt =====
-- `terminateRecursively` of phase2/exceptions.c behind its loop, for a process other than the
-- current one: it is ready, or waits for a semaphore and is not the second one behind another.
use kaya_project.Base.{
  ℕ, ◌≡◌, refl, ap, ◌∙◌, true, false, List, [], ◌∷◌, arith, ◌==◌, ◌<◌, has, has-apart, erase,
  has_of-erase, has-erase_of, update, Bool-cases, inl, inr, if◌then◌else◌, ok, and_then, Returns,
  returns, ◌>>◌,
}
use kaya_project.Base.Monad
use kaya_project.Base.Words.{inc32, dec32}
use kaya_project.Machine.{Ptr, Addr, Word, State, null, max_int, Command, IsCell, Info}
use kaya_project.Pcb.Pool.{free_pcb}
use kaya_project.Pcb.Queue.Links.{All-mem}
use kaya_project.Pcb.Queue.Fifo.{IsQueue-cells}
use kaya_project.Asl.Table.{on_pcbs}
use kaya_project.Asl.Blocked.{out_blocked}
use kaya_project.Asl.Map.Leave.{leave, is_second}
use kaya_project.Asl.Map.Room.{IsCell-of_waiting}
use kaya_project.Kernel.State.{Kernel, Layout, Bus, Call}
use kaya_project.Kernel.Access.{on_asl, dev_sem_count}
use kaya_project.Kernel.Invariant.{IsApart, IsKernel}
use kaya_project.Kernel.Invariant.Fields.{info_of, get_pcb-ok, IsKernel-same}
use kaya_project.Kernel.Invariant.Free.{free_pcb-Frees}
use kaya_project.Kernel.Invariant.Out.{Leaves, out_of_ready-Leaves}
use kaya_project.Kernel.Invariant.Leave.{Parts, out_blocked-Parts}
use kaya_project.Kernel.Terminate.{kill, release, is_dev_sem, out_of_ready, one_process_less}
use kaya_project.Kernel.Terminate.Forest.{TreeBut}
use kaya_project.Kernel.Terminate.Census.{Census, Stands, bury, drop_ready, give_back, drop_waiter}

-- What termination leaves as it is.
pub record Aside : Type 0 where
  pub current_process : Ptr
  pub time : Word
  pub wait_flag : Word
  pub states : Addr → State
  pub bus : Bus
  pub reads : ℕ
  pub calls : List Call
  pub layout : Layout

abbrev pub aside : Kernel → Aside
aside k = record {
  current_process = k.current_process;
  time = k.time;
  wait_flag = k.wait_flag;
  states = k.states;
  bus = k.bus;
  reads = k.reads;
  calls = k.calls;
  layout = k.layout;
}

-- The kernel stands for `c` afterwards, and of the processes only `zs` are written, besides queue
-- links and the first child of `ks`.
pub record Kills (ks zs : List Ptr) (c : Census) (k g : Kernel) : Type 0 where
  pub stands : Stands g c
  pub tree : TreeBut ks zs k.asl.pcbs g.asl.pcbs
  pub rest : aside g ≡ aside k

-- The end of the function: `freePcb` of what a queue gave back, and one process less.
abbrev pub free_and_count : Ptr → Command Kernel (Unit {0})
free_and_count p = do on_asl (on_pcbs (free_pcb p)); one_process_less

pub free_and_count-Kills :
    {k g : Kernel} {c : Census} (p : Ptr)
    → Stands g c
    → IsApart c.ready c.waits c.pool p
    → aside g ≡ aside k
    → TreeBut (p ∷ []) (p ∷ []) k.asl.pcbs g.asl.pcbs
    → Returns (λ _ f. Kills (p ∷ []) (p ∷ []) (bury p c) k f) (free_and_count p g)
unfolding one_process_less
free_and_count-Kills {k} {g} {c} p v o e t = Monad.bind (free_pcb-Frees v.kernel p o) λ u f n.
    returns (record {
      stands = record {
        kernel = IsKernel-same refl refl n.kernel;
        processes = ap (λ z. dec32 (Kernel.process_count z)) n.rest ∙ ap dec32 v.processes;
        soft_blocks = ap (λ z. Kernel.soft_block_count z) n.rest ∙ v.soft_blocks;
        ints = ap (λ z. Kernel.ints z) n.rest ∙ v.ints;
        at_rest = λ q m.
            ap (λ (i : Info). i.sem_add) (n.spared.info q (has-apart q p c.ready m o.not_ready).0)
            ∙ v.at_rest q m;
        alone = rw (ap (λ z. Kernel.current_process z) n.rest) v.alone;
      };
      tree = record {
        child = λ a m. n.spared.child a (ground arith) ∙ t.child a m;
        prnt = λ a m. n.spared.prnt a (ground arith) ∙ t.prnt a m;
        sib = λ a m. n.spared.sib a (ground arith) ∙ t.sib a m;
        prevsib = λ a m. n.spared.prevsib a (ground arith) ∙ t.prevsib a m;
        info = λ a m. n.spared.info a (ground arith) ∙ t.info a m;
      };
      rest = ap aside n.rest ∙ e;
    })

-- The kernel after `release`.
abbrev pub released_at : Addr → Kernel → Kernel
released_at s k =
    let device = is_dev_sem dev_sem_count k.layout s in
    record k {
      soft_block_count = if device then dec32 k.soft_block_count else k.soft_block_count;
      ints = if device then k.ints else update k.ints s (inc32 (k.ints s));
    }

module _ (s : Addr) (top : s < max_int) (k : Kernel) where
  release-ok : release s k ≡ ok tt (released_at s k)
  unfolding release
  release-ok = elim (Bool-cases (is_dev_sem dev_sem_count k.layout s)) [
    | inl e ↦ rw e refl
    | inr e ↦ rw e refl
  ]

  -- The function for a process with a semaphore.
  pub kill-blocked_run :
      (p : Ptr)
      → IsCell p
      → (info_of k p).sem_add ≡ s
      → kill p k ≡ and_then (on_asl (out_blocked p) (released_at s k)) free_and_count
  unfolding kill
  kill-blocked_run p c noted =
      rw (get_pcb-ok k p c) (rw noted (rw (not_null top) (rw release-ok refl)))
    where
      not_null : s < max_int → (s == null) ≡ false
      not_null h = ground arith

module _ {k : Kernel} {c : Census} (v : Stands k c) (p : Ptr) where
  abbrev sem_of : Addr
  sem_of = (info_of k p).sem_add

  module _ (m : has p c.ready ≡ true) where
    kill-ready_run : IsCell p → kill p k ≡ and_then (out_of_ready p k) free_and_count
    unfolding kill
    kill-ready_run o =
        rw (get_pcb-ok k p o)
          (rw (v.at_rest p m) (rw (has-apart p k.current_process c.ready m v.alone).0 refl))

    unready :
        (r : Ptr) (g : Kernel)
        → Leaves v.kernel p m r g
        → Stands g (record c { ready = erase p c.ready })
    unready r g n = record {
      kernel = n.kernel;
      processes = ap (λ z. Kernel.process_count z) n.rest ∙ v.processes;
      soft_blocks = ap (λ z. Kernel.soft_block_count z) n.rest ∙ v.soft_blocks;
      ints = ap (λ z. Kernel.ints z) n.rest ∙ v.ints;
      at_rest = λ q i.
          ap (λ (i : Info). i.sem_add) (n.frame.info q) ∙ v.at_rest q (has_of-erase q p c.ready i);
      alone =
          rw (ap (λ z. Kernel.current_process z) n.rest)
            (has-erase_of k.current_process p c.ready v.alone);
    }

    -- A ready process leaves the ready queue and is freed.
    pub kill-ready : Returns (λ _ g. Kills (p ∷ []) (p ∷ []) (drop_ready p c) k g) (kill p k)
    kill-ready = rw (kill-ready_run ready_cell) (
        Monad.bind (out_of_ready-Leaves v.kernel p m) λ r g n. rw n.found (
          free_and_count-Kills p (unready r g n) n.apart (ap aside n.rest) (record {
            child = λ a i. n.frame.child a;
            prnt = λ a i. n.frame.prnt a;
            sib = λ a i. n.frame.sib a;
            prevsib = λ a i. n.frame.prevsib a;
            info = λ a i. n.frame.info a;
          })))
      where
        ready_cell : IsCell p
        ready_cell =
            All-mem c.ready p (IsQueue-cells k.asl.pcbs k.ready_que c.ready v.kernel.queue).0 m

  module _ (s : Addr) (x : Ptr) (xs : List Ptr) (pos : 0 < s) (top : s < max_int)
      (wait : c.waits s ≡ x ∷ xs) (i : has p (x ∷ xs) ≡ true) where
    waits_here : has p (c.waits s) ≡ true
    waits_here = rw wait i

    noted : sem_of ≡ s
    noted = v.kernel.waits.address s p waits_here

    abbrev released : Kernel
    released = released_at s k

    kill-waiter_run : kill p k ≡ and_then (on_asl (out_blocked p) released) free_and_count
    kill-waiter_run =
        kill-blocked_run s top k p (IsCell-of_waiting v.kernel.waits s p waits_here) noted

    abbrev unwaited : Census
    unwaited = record (give_back k.layout s c) { waits = leave c.waits s p }

    released-IsKernel : IsKernel released c.ready c.waits c.pool
    released-IsKernel = IsKernel-same refl refl v.kernel

    awake : (r : Ptr) (g : Kernel) → Parts released-IsKernel s p r g → Stands g unwaited
    awake r g n = record {
      kernel = n.kernel;
      processes = ap (λ z. Kernel.process_count z) n.rest ∙ v.processes;
      soft_blocks =
          ap (λ z. Kernel.soft_block_count z) n.rest
          ∙ ap (λ z. if is_dev_sem dev_sem_count k.layout s then dec32 z else z) v.soft_blocks;
      ints =
          ap (λ z. Kernel.ints z) n.rest
          ∙ ap (λ z. if is_dev_sem dev_sem_count k.layout s then z else update z s (inc32 (z s)))
              v.ints;
      at_rest = λ q i. ap (λ (i : Info). i.sem_add) (n.info q) ∙ v.at_rest q i;
      alone = rw (ap (λ z. Kernel.current_process z) n.rest) v.alone;
    }

    -- A process that waits for a semaphore, and is not the second one behind another, gives its unit
    -- back, leaves the queue and is freed.
    pub kill-waiter :
        is_second p (x ∷ xs) ≡ false
        → Returns (λ _ g. Kills (p ∷ []) (p ∷ []) (drop_waiter k.layout s p c) k g) (kill p k)
    kill-waiter ne = rw kill-waiter_run (
        Monad.bind (out_blocked-Parts released-IsKernel s p x xs pos top wait i ne) λ r g n.
          rw n.found (
            free_and_count-Kills p (awake r g n) n.apart (ap aside n.rest) (record {
              child = λ a i. n.child a;
              prnt = λ a i. n.prnt a;
              sib = λ a i. n.sib a;
              prevsib = λ a i. n.prevsib a;
              info = λ a i. n.info a;
            })))
