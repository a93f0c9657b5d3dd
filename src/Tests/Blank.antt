-- ===== src/Tests/Blank.antt =====
-- Concrete memories: a blank one, and a process queue.
use kaya_project.Base.{◌+◌, ◌%◌, refl, [], ◌∷◌, arith}
use kaya_project.Machine.{State, Info}
use kaya_project.Pcb.Table.{Pcbs}
use kaya_project.Pcb.Queue.Links.{IsQueue, ring}
use kaya_project.Asl.Table.{Asl}
use kaya_project.Kernel.State.{Kernel}

abbrev pub blank_state : State
blank_state = record { asid = 0; cause = 0; status = 0; pc = 0; reg = λ _. 0 }

abbrev pub blank_info : Info
blank_info = record {
  p_s = blank_state;
  old_sys = 0;
  new_sys = 0;
  old_pgm = 0;
  new_pgm = 0;
  old_tlb = 0;
  new_tlb = 0;
  time = 0;
  sem_add = 0;
}

abbrev pub blank_pcbs : Pcbs
blank_pcbs = record {
  next = λ _. 0;
  prev = λ _. 0;
  prnt = λ _. 0;
  child = λ _. 0;
  sib = λ _. 0;
  prevsib = λ _. 0;
  info = λ _. blank_info;
  free = 0;
}

abbrev pub blank_asl : Asl
blank_asl = record {
  pcbs = blank_pcbs;
  s_next = λ _. 0;
  s_sem_add = λ _. 0;
  s_proc_q = λ _. 0;
  semd_h = 0;
  semd_free = 0;
}

abbrev pub blank : Kernel
blank = record {
  asl = blank_asl;
  process_count = 7;
  soft_block_count = 7;
  current_process = 7;
  ready_que = 7;
  time = 7;
  wait_flag = 0;
  ints = λ _. 7;
  states = λ _. blank_state;
  bus = record {
    rambase = 0x2000_0000;
    ramsize = 0x4_0000;
    tod_lo = λ n. n;
    timescale = 1;
    interval_timer = 0;
    line_map = λ _. 0;
    devreg = λ _. record { status = 0; command = 0; data0 = 0; data1 = 0 };
  };
  reads = 0;
  calls = [];
  layout = record {
    dev_sem_table = 0x2000_8000;
    sys_call_handler = 0x100;
    pgm_trap_handler = 0x200;
    tlb_mgmt_handler = 0x300;
    interrupt_handler = 0x400;
    test = 0x500;
  };
}

-- Three blocks in a queue with its tail at 2.
abbrev pub three : Pcbs
three = record blank_pcbs { next = λ a. (a + 1) % 3; prev = λ a. (a + 2) % 3; free = 2 }

pub three-IsQueue : IsQueue three 2 (0 ∷ 1 ∷ 2 ∷ [])
three-IsQueue = ring (0 ∷ 1 ∷ []) refl (record {
  links = (refl, refl, (refl, refl, (refl, refl)));
  distinct = (refl, (refl, (refl, tt)));
  cells = omega arith;
})

abbrev pub with_pcbs : Pcbs → Kernel → Kernel
with_pcbs h k = record k { asl = record (k.asl) { pcbs = h } }
