-- ===== src/Tests/Semaphores.antt =====
-- The theorems on the active semaphore list, at a semaphore that three processes wait for.
use kaya_project.Base.{
  ◌<◌, Bool-cases, inl, inr, ◌≡◌, false, refl, ◌==◌, if◌then◌else◌, [], ◌∷◌, List, arith, ok,
  Returns,
}
use kaya_project.Machine.{Ptr, null, max_int}
use kaya_project.Pcb.Queue.Links.{IsQueue, empty, IsQueue-same}
use kaya_project.Asl.Table.{Asl}
use kaya_project.Asl.List.{search_semd}
use kaya_project.Asl.Blocked.{insert_blocked, out_blocked}
use kaya_project.Asl.Blocked.Sorted.{IsActive, Brackets, search_semd-Brackets}
use kaya_project.Asl.Blocked.Out.{Dropped}
use kaya_project.Asl.Blocked.Link.{Absent}
use kaya_project.Asl.Blocked.Insert.{Enqueued, insert_blocked-Enqueued}
use kaya_project.Asl.Blocked.Remove.{OnList, out_blocked-drops}
use kaya_project.Tests.Blank.{blank_info, blank_asl, three, three-IsQueue}

-- The descriptors 0 and 2 are the sentinels; 1 is that of the semaphore at 0x100.
abbrev busy : Asl
busy = record blank_asl {
  pcbs = record three { info = λ _. record blank_info { sem_add = 0x100 } };
  s_next = λ d. if d == 0 then 1 else if d == 1 then 2 else null;
  s_sem_add = λ d. if d == 0 then 0 else if d == 1 then 0x100 else max_int;
  s_proc_q = λ d. if d == 1 then 2 else null;
  semd_h = 0;
  semd_free = 3;
}

busy-IsActive : IsActive busy (1 ∷ 2 ∷ [])
busy-IsActive = record {
  first = omega arith;
  low = refl;
  rising = (refl, omega arith, omega arith, (refl, omega arith, omega arith, refl));
  count = omega arith;
}

busy-IsQueue : IsQueue busy.pcbs 2 (0 ∷ 1 ∷ 2 ∷ [])
busy-IsQueue = IsQueue-same three-IsQueue (λ a m. refl) (λ a m. refl)

search_semd-Brackets_example :
    (parent : Ptr) × (search_semd 0x100 busy ≡ ok parent busy)
    × Brackets busy 0x100 (1 ∷ 2 ∷ []) parent
search_semd-Brackets_example =
    search_semd-Brackets busy 0x100 (1 ∷ 2 ∷ []) busy-IsActive (omega arith) (omega arith)

abbrev waiters : Ptr → List Ptr
waiters d = if d == 1 then 0 ∷ 1 ∷ 2 ∷ [] else []

busy-waiters : (d : Ptr) → IsQueue busy.pcbs (busy.s_proc_q d) (waiters d)
busy-waiters d = elim (Bool-cases (d == 1)) [
  | inl e ↦ rw e busy-IsQueue
  | inr e ↦ rw e (empty refl refl)
]

busy-OnList : (p : Ptr) → p < 20 → OnList busy (1 ∷ 2 ∷ []) p 1 0 (1 ∷ 2 ∷ [])
busy-OnList p c = record {
  active = busy-IsActive;
  member = refl;
  address = refl;
  positive = omega arith;
  bounded = omega arith;
  queue = busy-IsQueue;
  cell = c;
}

-- The processes 0 and 2 are left without a descriptor.
out_blocked-drops_example : Returns (Dropped busy 1 0 1 0 (1 ∷ 2 ∷ [])) (out_blocked 1 busy)
out_blocked-drops_example =
    out_blocked-drops busy (1 ∷ 2 ∷ []) 1 1 0 (1 ∷ 2 ∷ []) (busy-OnList 1 (omega arith)) refl

insert_blocked-Enqueued_example :
    Returns
      (λ r g. (r ≡ false) × Enqueued busy 1 0x100 7 (0 ∷ 1 ∷ 2 ∷ []) g)
      (insert_blocked 0x100 7 busy)
insert_blocked-Enqueued_example =
    insert_blocked-Enqueued busy (1 ∷ 2 ∷ []) 0x100 7 1 (0 ∷ 1 ∷ 2 ∷ []) busy-IsActive refl refl
      (omega arith) (omega arith) busy-IsQueue (omega arith) refl

busy-Absent : Absent busy 0x200 (1 ∷ 2 ∷ [])
busy-Absent d m = ground arith
