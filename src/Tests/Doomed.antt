-- ===== src/Tests/Doomed.antt =====
-- SYS 2 at a kernel in which process 3 runs: its children are 4, which is ready and has the child 2,
-- and 0; and 0, 1 and 2 wait for the pseudo clock. Process 6 is ready too.
use kaya_project.Base.{
  ◌+◌, ◌%◌, ◌≡◌, true, false, refl, ◌==◌, ltb, ◌||◌, if◌then◌else◌, [], ◌∷◌, arith, has, Returns,
  Stops, stop, fault,
}
use kaya_project.Base.Words.{dec32}
use kaya_project.Machine.{Ptr, null, wait}
use kaya_project.Pcb.Table.{Pcbs}
use kaya_project.Pcb.Tree.Family.{IsFamily}
use kaya_project.Pcb.Queue.Links.{empty, ring}
use kaya_project.Asl.Map.Frame.{IsAsl-pcbs}
use kaya_project.Kernel.State.{Kernel}
use kaya_project.Kernel.Access.{dev_sem}
use kaya_project.Kernel.Invariant.{IsKernel}
use kaya_project.Kernel.Terminate.{is_dev_sem, terminate_recursively, terminate_process, tree_fuel}
use kaya_project.Kernel.Terminate.Forest.{none, node}
use kaya_project.Kernel.Terminate.Census.{
  Census, Stands, nobody, from_ready, from_semaphore, drop_ready, drop_waiter,
}
use kaya_project.Kernel.Terminate.Current.{
  Condemned, Terminated, terminate_recursively-Terminated, terminate_process-root,
}
use kaya_project.Kernel.Terminate.After.{
  Succeeds, terminate_process-Succeeds, terminate_process-waits,
}
use kaya_project.Tests.Blank.{blank, blank_info}
use kaya_project.Tests.Crowd.{clock, waiting, crowd_asl, crowd-IsAsl}

-- Behind 1 the child `s` of 3 follows; the parent of 3 is `q`.
abbrev family_of : Ptr → Ptr → Pcbs
family_of s q = record (crowd_asl.pcbs) {
  next = λ a. if a == 4 then 6 else if a == 6 then 4 else (a + 1) % 3;
  prev = λ a. if a == 4 then 6 else if a == 6 then 4 else (a + 2) % 3;
  child = λ a. if a == 5 then 3 else if a == 3 then 4 else if a == 4 then 2 else null;
  sib = λ a. if a == 4 then 0 else if a == 0 then s else null;
  prevsib = λ a. if a == 0 then 4 else if a == 6 then 0 else null;
  prnt = λ a.
      if a == 3
      then q
      else if (a == 4) || (a == 0) || (a == 6)
      then 3
      else if a == 2
      then 4
      else null;
  info = λ a. record blank_info { sem_add = if ltb a 3 then clock else null };
}

abbrev doomed : Ptr → Ptr → Kernel
doomed s q = record blank {
  asl = record crowd_asl { pcbs = family_of s q };
  current_process = 3;
  ready_que = 6;
  ints = λ _. 0xffff_fffd;
}

abbrev alive : Census
alive = record {
  ready = 4 ∷ 6 ∷ [];
  waits = waiting;
  pool = [];
  processes = 7;
  soft_blocks = 7;
  ints = λ _. 0xffff_fffd;
}

doomed-Stands : (s q : Ptr) → Stands (doomed s q) alive
doomed-Stands s q = record {
  kernel = record {
    waits =
        IsAsl-pcbs (family_of s q) crowd-IsAsl (λ t p m. ground arith) (λ t p m. ground arith)
          (λ t p m. ground arith);
    queue = ring (4 ∷ []) refl (record {
      links = (refl, refl, (refl, refl));
      distinct = (refl, (refl, tt));
      cells = omega arith;
    });
    free = empty refl refl;
    ready_idle = λ p m t. ground arith;
    ready_used = λ p m. refl;
    pool_idle = λ p m t. absurd (cc m);
  };
  processes = refl;
  soft_blocks = refl;
  ints = refl;
  at_rest = λ p m. ground arith;
  alone = refl;
}

abbrev end : Census → Census
end c = let l = blank.layout in drop_waiter l clock 0 (drop_ready 4 (drop_waiter l clock 2 c))

-- The parent of 3 is 5, or there is none.
module _ (q : Ptr) where
  without_children :
      (s p : Ptr) → ((p == 0) || (p == 2) || (p == 6)) ≡ true → IsFamily (family_of s q) p []
  without_children s p m = record {
    child = ground arith;
    chain = tt;
    prnt = λ a i. cc;
    distinct = tt;
    cells = tt;
    cell = ground arith;
  }

  grandchild : (s : Ptr) → IsFamily (family_of s q) 4 (2 ∷ [])
  grandchild s = record {
    child = refl;
    chain = (refl, refl, tt);
    prnt = λ a i. ground arith;
    distinct = (refl, tt);
    cells = omega arith;
    cell = omega arith;
  }

  two_children :
      Condemned (doomed null q) alive (end alive) (node 4 (node 2 none none) (node 0 none none))
  two_children = record {
    stands = doomed-Stands null q;
    apart = record { cell = omega arith; not_ready = refl; idle = λ s. ground arith; used = refl };
    awake = refl;
    tree = (
      record {
        child = refl;
        chain = (refl, refl, (refl, refl, tt));
        prnt = λ a i. ground arith;
        distinct = (refl, (refl, tt));
        cells = omega arith;
        cell = omega arith;
      },
      (
        grandchild null,
        (without_children null 2 refl, tt, tt),
        (without_children null 0 refl, tt, tt),
      ),
    );
    distinct = (refl, (refl, (refl, (refl, tt))));
    burials = from_semaphore clock 0 (1 ∷ 2 ∷ []) (omega arith) (omega arith) refl refl refl (
        from_ready refl
          (from_semaphore clock 0 (1 ∷ []) (omega arith) (omega arith) refl refl refl nobody));
  }

  three_children :
      Condemned
        (doomed 6 q)
        alive
        (drop_ready 6 (end alive))
        (node 4 (node 2 none none) (node 0 none (node 6 none none)))
  three_children = record {
    stands = doomed-Stands 6 q;
    apart = two_children.apart;
    awake = refl;
    tree = (
      record {
        child = refl;
        chain = (refl, refl, (refl, refl, (refl, refl, tt)));
        prnt = λ a i. ground arith;
        distinct = (refl, (refl, (refl, tt)));
        cells = omega arith;
        cell = omega arith;
      },
      (
        grandchild 6,
        (without_children 6 2 refl, tt, tt),
        (without_children 6 0 refl, tt, (without_children 6 6 refl, tt, tt)),
      ),
    );
    distinct = (refl, (refl, (refl, (refl, (refl, tt)))));
    burials = from_semaphore clock 0 (1 ∷ 2 ∷ []) (omega arith) (omega arith) refl refl refl (
        from_ready refl (
          from_semaphore clock 0 (1 ∷ []) (omega arith) (omega arith) refl refl refl
            (from_ready refl nobody)));
  }

only_child : (s : Ptr) → IsFamily (family_of s 5) 5 (3 ∷ [])
only_child s = record {
  child = refl;
  chain = (refl, refl, tt);
  prnt = λ a i. ground arith;
  distinct = (refl, tt);
  cells = omega arith;
  cell = omega arith;
}

strangers : (a : Ptr) → has a (5 ∷ 3 ∷ []) ≡ true → has a (2 ∷ 4 ∷ 0 ∷ []) ≡ false
strangers a m = ground arith

terminate_recursively-Terminated_example :
    Returns
      (λ _ g. Terminated (two_children 5) 5 (3 ∷ []) (only_child null) refl strangers refl g)
      (terminate_recursively tree_fuel 3 (doomed null 5))
terminate_recursively-Terminated_example =
    terminate_recursively-Terminated (two_children 5) 5 (3 ∷ []) (only_child null) refl strangers
      refl

terminate_process-Succeeds_example :
    Stops
      (Succeeds (two_children 5) 5 (3 ∷ []) (only_child null) refl strangers refl 6 [])
      (terminate_process (doomed null 5))
terminate_process-Succeeds_example =
    terminate_process-Succeeds (two_children 5) 5 (3 ∷ []) (only_child null) refl strangers refl 6
      [] refl

terminate_process-waits_example :
    (g : Kernel) × (terminate_process (doomed 6 5) ≡ stop wait g)
    × IsKernel g [] (drop_ready 6 (end alive)).waits (2 ∷ 4 ∷ 0 ∷ 6 ∷ 3 ∷ [])
    × (g.current_process ≡ 3)
unfolding is_dev_sem dev_sem dec32
terminate_process-waits_example =
    terminate_process-waits (three_children 5) 5 (3 ∷ []) (only_child 6) refl (λ a m. ground arith)
      refl refl refl refl

terminate_process-root_example : terminate_process (doomed null null) ≡ fault
terminate_process-root_example = terminate_process-root (two_children null) refl
