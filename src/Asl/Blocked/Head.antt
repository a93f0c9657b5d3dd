-- ===== src/Asl/Blocked/Head.antt =====
-- `headBlocked` of phase1/asl.c reads the queue of a semaphore.
use kaya_project.Base.{◌≤◌, ◌<◌, ◌≡◌, List, arith, ok, has, true}
use kaya_project.Machine.{Ptr, Addr, null, max_int}
use kaya_project.Pcb.Queue.{head_proc_q}
use kaya_project.Pcb.Queue.Links.{IsQueue}
use kaya_project.Pcb.Queue.Fifo.{front, head_proc_q-front}
use kaya_project.Asl.Table.{Asl}
use kaya_project.Asl.Blocked.{head_blocked}
use kaya_project.Asl.Blocked.Sorted.{IsActive, waiting, search_semd-place, place, waiting-place}

-- The queue of each active descriptor `d` is `qs d`.
abbrev pub Queues : Asl → List Ptr → (Ptr → List Ptr) → Type 0
Queues a ds qs = (d : Ptr) → has d ds ≡ true → IsQueue a.pcbs (a.s_proc_q d) (qs d)

module _ (a : Asl) (qs : Ptr → List Ptr) (sem : Addr) (ds : List Ptr) where
  empty_front : (t : Ptr) (xs : List Ptr) → IsQueue a.pcbs t xs → t ≡ null → front xs ≡ null
  unfolding head_proc_q
  empty_front t xs q e = ground (arith, head_proc_q-front a.pcbs t xs q)

  -- `headBlocked` returns the first process that waits for the semaphore, or NULL if none does, and
  -- changes nothing.
  pub head_blocked-front :
      IsActive a ds
      → Queues a ds qs
      → 0 < sem
      → sem ≤ max_int
      → head_blocked sem a ≡ ok (front (waiting a sem qs ds)) a
  unfolding head_blocked
  head_blocked-front i q pos top =
      let (run, b) = search_semd-place a sem ds i pos top in
      let semd = a.s_next (place a sem a.semd_h ds) in
      let here = q semd b.member in
      rw (run, waiting-place a sem qs a.semd_h ds i.rising (ground (arith, i.low)) top)
        (ground (
          arith,
          b.cell,
          b.next_cell,
          empty_front (a.s_proc_q semd) (qs semd) here,
          head_proc_q-front a.pcbs (a.s_proc_q semd) (qs semd) here,
        ))
