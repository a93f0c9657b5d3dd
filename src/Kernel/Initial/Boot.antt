-- ===== src/Kernel/Initial/Boot.antt =====
-- `main` of phase2/initial.c from any memory: the machine starts with one process, which runs `test`.
use mathlib.Core.Path.{subst}
use kaya_project.Base.{
  ℕ, ◌-◌, ◌*◌, ◌%◌, ◌<◌, ◌≤◌, ◌≡◌, refl, sym, ap, ◌∙◌, [], ◌∷◌, arith, range, update, ok, and_then,
  Stops, stops,
}
use kaya_project.Base.Monad
use kaya_project.Base.Monad.{Run, ◌>>◌, ◌>>=◌}
use kaya_project.Base.Words.{add32, sub32, inc32, word_mod}
use kaya_project.Machine.{IsCell, Ptr, Addr, Word, State, Info, Exit, null, max_proc, ldst, Command}
use kaya_project.Pcb.Pool.{init_pcbs, alloc_pcb}
use kaya_project.Asl.Table.{Asl, on_pcbs}
use kaya_project.Asl.List.{init_asl}
use kaya_project.Asl.Map.Start.{nobody}
use kaya_project.Kernel.State.{Kernel}
use kaya_project.Kernel.Access.{
  sp, on_asl, dev_sem, dev_sem_count, make_ready, get_pcb, set_pcb, modify, ldit, sys_call_new,
  pgm_trap_new, tlb_mgmt_new, interrupt_new,
}
use kaya_project.Kernel.Scheduler.{scheduler}
use kaya_project.Kernel.Initial.{
  start_at, handler_status, first_status, init_area, clear_dev_sems, main,
}
use kaya_project.Kernel.Initial.Tables.{tables, clear_dev_sems-Cleared}
use kaya_project.Kernel.Invariant.{IsKernel, IsRunning}
use kaya_project.Kernel.Invariant.Alloc.{alloc_pcb-Allocates}
use kaya_project.Kernel.Invariant.Fields.{
  info_of, with_info, IsKernel-with_idle, IsKernel-same, get_pcb-ok, set_pcb-ok,
}
use kaya_project.Kernel.Invariant.Steps.{make_ready-Readies}
use kaya_project.Kernel.Invariant.Dispatch.{Runs, scheduler-Runs}

inc32-zero : inc32 0 ≡ 1
unfolding inc32
inc32-zero = refl

from_first : (i : ℕ) → dev_sem_count - dev_sem_count ≤ i
from_first i = omega arith

module _ (k : Kernel) where
  abbrev ram_top : Word
  ram_top = add32 k.bus.rambase k.bus.ramsize

  -- The kernel before `initPcbs`: the new areas point at the handlers.
  abbrev areas : Addr → State
  areas =
      let l = k.layout in
      let s =
        update k.states sys_call_new
          (start_at l.sys_call_handler ram_top handler_status (k.states sys_call_new)) in
      let s =
        update s pgm_trap_new
          (start_at l.pgm_trap_handler ram_top handler_status (s pgm_trap_new)) in
      let s =
        update s tlb_mgmt_new
          (start_at l.tlb_mgmt_handler ram_top handler_status (s tlb_mgmt_new)) in
      update s interrupt_new (start_at l.interrupt_handler ram_top handler_status (s interrupt_new))

  abbrev bare : Kernel
  bare = record k {
    states = areas;
    process_count = 0;
    soft_block_count = 0;
    current_process = null;
    ready_que = null;
  }

  abbrev first_info : Info → Info
  first_info i = record i { p_s = start_at k.layout.test (sub32 ram_top 4096) first_status i.p_s }

  abbrev started : Kernel → Kernel
  started g = record g {
    bus = record (g.bus) { interval_timer = (100000 * g.bus.timescale) % word_mod };
    time = 0;
  }

  abbrev launch : Ptr → Command Kernel (Unit {0})
  launch p = do
    i ← get_pcb p
    set_pcb p (first_info i)
    modify λ g. record g { process_count = inc32 g.process_count }
    make_ready p
    ldit 100000
    modify λ g. record g { time = 0 }
    scheduler

  main-lem :
      main k
      ≡ and_then (on_asl (on_pcbs init_pcbs) bare) λ _.
        on_asl init_asl
        >> (clear_dev_sems dev_sem_count k.layout >> (on_asl (on_pcbs alloc_pcb) >>= launch))
  unfolding main init_area
  main-lem = refl

  abbrev counted_as : Asl → Ptr → Kernel → Kernel
  counted_as a q x = record x { asl = a; ready_que = q; process_count = inc32 x.process_count }

  abbrev allocated : Command Kernel (Unit {0})
  allocated = on_asl (on_pcbs alloc_pcb) >>= launch

  abbrev cleared : Command Kernel (Unit {0})
  cleared = clear_dev_sems dev_sem_count k.layout >> allocated

  launch-lem :
      (a r : Kernel)
      → IsCell 0
      → make_ready 0 (record (with_info a 0 (first_info (info_of a 0))) {
        process_count = inc32 a.process_count;
      })
        ≡ ok tt r
      → launch 0 a ≡ scheduler (started r)
  unfolding ldit
  launch-lem a r cell e = rw (get_pcb-ok a 0 cell) (rw (set_pcb-ok a 0 cell) (rw e refl))

  -- The machine with its tables set up and its device semaphores at 0.
  record Prepared (h : Kernel) : Type 0 where
    pub runs : main k ≡ allocated h
    pub kernel : IsKernel h [] nobody (range 0 max_proc)
    pub zeros : (i : ℕ) → i < dev_sem_count → h.ints (dev_sem k.layout i) ≡ 0
    pub rest : h ≡ record bare { asl = h.asl; ints = h.ints }

  main-Prepared : (h : Kernel) × Prepared h
  main-Prepared =
      let t = tables bare refl in
      let (u, h, e, c) =
        Monad.returned (clear_dev_sems-Cleared k.layout dev_sem_count t.end (omega arith)) in
      (
        h,
        record {
          runs =
              main-lem
              ∙ ap (λ r. and_then r λ _. on_asl init_asl >> cleared) t.pcbs
              ∙ ap (λ r. and_then r λ _. cleared) t.asl
              ∙ ap (λ r. and_then r λ _. allocated) e;
          kernel =
              subst (λ n. IsKernel n [] nobody (range 0 max_proc)) (sym c.rest)
                (IsKernel-same refl refl t.kernel);
          zeros = λ i lt. c.zeros i (from_first i) lt;
          rest =
              c.rest
              ∙ ap (λ (x : Kernel). record x { ints = h.ints }) t.rest
              ∙ ap (λ (x : Kernel). record bare { asl = x.asl; ints = h.ints }) (sym c.rest);
        },
      )

  -- The machine about to schedule its first process.
  record Started (g : Kernel) : Type 0 where
    pub runs : main k ≡ scheduler g
    pub kernel : IsKernel g (0 ∷ []) nobody (range 1 (max_proc - 1))
    pub first : (i : Info) × (info_of g 0 ≡ first_info i)
    pub zeros : (i : ℕ) → i < dev_sem_count → g.ints (dev_sem k.layout i) ≡ 0
    pub states : g.states ≡ areas
    pub processes : g.process_count ≡ 1
    pub devices : g.soft_block_count ≡ 0

  main-Started : {h : Kernel} → Prepared h → (g : Kernel) × Started g
  main-Started {h} o =
      let (p, a, f, m) = Monad.returned (alloc_pcb-Allocates 0 o.kernel) in
      let i = first_info (info_of a 0) in
      let v : IsKernel (record (with_info a 0 i) { process_count = inc32 a.process_count }) []
          nobody (range 1 (max_proc - 1)) =
        IsKernel-same refl refl (IsKernel-with_idle 0 i m.apart.idle m.kernel) in
      let (u, r, f', n) = Monad.returned (make_ready-Readies v 0 m.apart) in
      let whole =
        n.rest
        ∙ ap (counted_as r.asl r.ready_que) m.rest
        ∙ ap (counted_as r.asl r.ready_que) o.rest in
      (
        started r,
        record {
          runs =
              o.runs
              ∙ ap (λ r. and_then r launch) (f ∙ ap (λ q. ok q a) m.found)
              ∙ launch-lem a r m.apart.cell f';
          kernel = IsKernel-same refl refl n.kernel;
          first = (info_of a 0, n.info 0);
          zeros = λ i lt. ap (λ x. Kernel.ints x (dev_sem k.layout i)) whole ∙ o.zeros i lt;
          states = ap (λ x. Kernel.states x) whole;
          processes = ap (λ x. Kernel.process_count x) whole ∙ inc32-zero;
          devices = ap (λ x. Kernel.soft_block_count x) whole;
        },
      )

-- The state of the machine when it loads the registers of its first process.
pub record Booted (k : Kernel) (e : Exit) (g : Kernel) : Type 0 where
  pub running : IsRunning g [] nobody (range 1 (max_proc - 1))
  pub current : g.current_process ≡ 0
  pub flag : g.wait_flag ≡ 0
  pub loaded :
      (s : State) × (e ≡ ldst s)
      × (s.pc ≡ k.layout.test)
      × (s.status ≡ first_status)
      × (s.reg sp ≡ sub32 (add32 k.bus.rambase k.bus.ramsize) 4096)
  pub processes : g.process_count ≡ 1
  pub devices : g.soft_block_count ≡ 0
  pub zeros : (i : ℕ) → i < dev_sem_count → g.ints (dev_sem k.layout i) ≡ 0
  pub handlers :
      ((g.states sys_call_new).pc ≡ k.layout.sys_call_handler)
      × ((g.states pgm_trap_new).pc ≡ k.layout.pgm_trap_handler)
      × ((g.states tlb_mgmt_new).pc ≡ k.layout.tlb_mgmt_handler)
      × ((g.states interrupt_new).pc ≡ k.layout.interrupt_handler)

-- From any memory `main` ends by loading the registers of process 0, at the start of `test`: it is
-- the only process and runs, the other 19 blocks are free, nobody waits, the device semaphores are 0
-- and the four new areas point at the handlers.
pub main-Booted : (k : Kernel) → Stops (Booted k) (main k)
main-Booted k =
    let (g, s) = main-Started k (main-Prepared k).1 in
    rw s.runs (booted s (scheduler-Runs 0 s.kernel))
  where
    booted :
        {g : Kernel} {r : Run Exit Kernel (Unit {0})}
        → Started k g
        → Stops (Runs g [] nobody (range 1 (max_proc - 1)) 0) r
        → Stops (Booted k) r
    booted {g} s (stops {s = h} d) = stops (record {
      running = d.kernel;
      current = d.current;
      flag = ap (λ n. Kernel.wait_flag n) d.rest;
      loaded = (
        _,
        d.loaded,
        first_reg (λ r. r.pc),
        first_reg (λ r. r.status),
        first_reg (λ r. r.reg sp),
      );
      processes = ap (λ n. Kernel.process_count n) d.rest ∙ s.processes;
      devices = ap (λ n. Kernel.soft_block_count n) d.rest ∙ s.devices;
      zeros = λ i lt. ap (λ n. Kernel.ints n (dev_sem k.layout i)) d.rest ∙ s.zeros i lt;
      handlers = (area sys_call_new, area pgm_trap_new, area tlb_mgmt_new, area interrupt_new);
    })
      where
        first_reg :
            {A : Type 0} (f : State → A) → f (info_of g 0).p_s ≡ f (first_info k s.first.0).p_s
        first_reg f = ap (λ (i : Info). f i.p_s) s.first.1

        area : (a : Addr) → (h.states a).pc ≡ (areas k a).pc
        area a =
            ap (λ n. (Kernel.states n a).pc) d.rest ∙ ap (λ (f : Addr → State). (f a).pc) s.states
