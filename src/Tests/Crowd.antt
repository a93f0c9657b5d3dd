-- ===== src/Tests/Crowd.antt =====
-- A kernel in which process 3 runs and three others wait for the pseudo clock.
use kaya_project.Base.{
  ℕ, ◌-◌, Bool-cases, inl, inr, ◌≡◌, true, false, refl, ◌==◌, if◌then◌else◌, eq_of_==, [], ◌∷◌,
  arith, has,
}
use kaya_project.Machine.{Addr, Word, null, max_int}
use kaya_project.Pcb.Queue.Links.{IsQueue, empty, ring, IsQueue-same}
use kaya_project.Asl.Table.{Asl}
use kaya_project.Asl.Blocked.Start.{down_from}
use kaya_project.Asl.Map.Start.{nobody, has-down_from, Nodup-down_from}
use kaya_project.Asl.Map.{Waiting, IsAsl}
use kaya_project.Asl.Map.Frame.{IsAsl-pcbs}
use kaya_project.Kernel.State.{Kernel}
use kaya_project.Kernel.Invariant.{IsKernel, IsRunning}
use kaya_project.Tests.Blank.{blank_state, blank_info, blank_asl, blank, three, three-IsQueue}

-- The address of the clock's semaphore.
abbrev pub clock : Addr
clock = 0x2000_80c0

abbrev pub crowd_asl : Asl
crowd_asl = record blank_asl {
  pcbs = record three { info = λ _. record blank_info { sem_add = clock }; free = null };
  s_next = λ d.
      if d == 21
      then 19
      else if d == 19
      then 20
      else if d == 20
      then null
      else if d == 0
      then null
      else d - 1;
  s_sem_add = λ d. if d == 21 then 0 else if d == 19 then clock else max_int;
  s_proc_q = λ d. if d == 19 then 2 else null;
  semd_h = 21;
  semd_free = 18;
}

abbrev pub waiting : Waiting
waiting s = if s == clock then 0 ∷ 1 ∷ 2 ∷ [] else []

three_waits : IsQueue crowd_asl.pcbs 2 (0 ∷ 1 ∷ 2 ∷ [])
three_waits = IsQueue-same three-IsQueue (λ a m. refl) (λ a m. refl)

pub crowd-IsAsl : IsAsl crowd_asl waiting
crowd-IsAsl = record {
  ds = 19 ∷ 20 ∷ [];
  fs = down_from 19;
  active = record {
    first = omega arith;
    low = refl;
    rising = (refl, omega arith, omega arith, (refl, omega arith, omega arith, refl));
    count = omega arith;
  };
  free = omega arith;
  distinct = Nodup-down_from 19;
  apart = λ d m. ground (arith, has-down_from d 19 m);
  count = omega arith;
  queues = λ d m. elim (Bool-cases (d == 19)) [
    | inl e ↦ rw (eq_of_== d 19 e) three_waits
    | inr e ↦ rw (only d m e) (empty refl refl)
  ];
  absent = λ s n. elim (Bool-cases (s == clock)) [
    | inl e ↦ absurd (ground (arith, n 19 refl, eq_of_== s clock e))
    | inr e ↦ rw e refl
  ];
  busy = λ d m n. ground (arith);
  address = λ s p m. ground (arith, eq_of_== s clock);
}
  where
    only : (d : ℕ) → has d (19 ∷ 20 ∷ []) ≡ true → (d == 19) ≡ false → d ≡ 20
    only d m e = ground arith

-- The registers of the caller are `r`, and every semaphore has the value -3.
abbrev pub crowd : (ℕ → Word) → Kernel
crowd r = record blank {
  asl = crowd_asl;
  current_process = 3;
  ready_que = null;
  ints = λ _. 0xffff_fffd;
  states = λ _. record blank_state { reg = r };
}

pub crowd-IsRunning : (r : ℕ → Word) → IsRunning (crowd r) [] waiting []
crowd-IsRunning r = record {
  kernel = record {
    waits = crowd-IsAsl;
    queue = empty refl refl;
    free = empty refl refl;
    ready_idle = λ p m s. absurd (cc m);
    ready_used = λ p m. absurd (cc m);
    pool_idle = λ p m s. absurd (cc m);
  };
  current = record { cell = omega arith; not_ready = refl; idle = λ s. ground arith; used = refl };
}

-- The process 0 is ready.
abbrev pub ready_kernel : Kernel
ready_kernel = record blank {
  asl = record crowd_asl {
    pcbs = record (crowd_asl.pcbs) { next = λ _. 3; prev = λ _. 3 };
    s_next = λ d. if d == 21 then 20 else if d == 20 then null else if d == 0 then null else d - 1;
    s_sem_add = λ d. if d == 21 then 0 else max_int;
    s_proc_q = λ _. null;
    semd_free = 19;
  };
  ready_que = 3;
}

pub ready_kernel-IsKernel : IsKernel ready_kernel (3 ∷ []) nobody []
ready_kernel-IsKernel = record {
  waits = record {
    ds = 20 ∷ [];
    fs = down_from 20;
    active = record {
      first = omega arith;
      low = refl;
      rising = (refl, omega arith, omega arith, refl);
      count = omega arith;
    };
    free = omega arith;
    distinct = Nodup-down_from 20;
    apart = λ d m. ground (arith, has-down_from d 20 m);
    count = omega arith;
    queues = λ d m. empty refl refl;
    absent = λ s n. refl;
    busy = λ d m n. ground arith;
    address = λ s p m. absurd (cc m);
  };
  queue =
      ring [] refl (record { links = (refl, refl); distinct = (refl, tt); cells = omega arith });
  free = empty refl refl;
  ready_idle = λ p m s. refl;
  ready_used = λ p m. refl;
  pool_idle = λ p m s. refl;
}

-- Process 3 runs, and block 5 is free.
abbrev pub spare : Kernel
spare = record ready_kernel {
  asl = record (ready_kernel.asl) {
    pcbs = record (ready_kernel.asl.pcbs) {
      next = λ _. 5;
      prev = λ _. 5;
      child = λ _. null;
      free = 5;
    };
  };
  ready_que = null;
  current_process = 3;
}

pub spare-IsRunning : IsRunning spare [] nobody (5 ∷ [])
spare-IsRunning = record {
  kernel = record {
    waits =
        IsAsl-pcbs spare.asl.pcbs ready_kernel-IsKernel.waits (λ s p m. absurd (cc m))
          (λ s p m. absurd (cc m)) (λ s p m. absurd (cc m));
    queue = empty refl refl;
    free =
        ring [] refl (record { links = (refl, refl); distinct = (refl, tt); cells = omega arith });
    ready_idle = λ p m s. refl;
    ready_used = λ p m. absurd (cc m);
    pool_idle = λ p m s. refl;
  };
  current = record { cell = omega arith; not_ready = refl; idle = λ s. refl; used = refl };
}
