-- ===== src/Asl/Blocked/Remove.antt =====
-- `removeBlocked` of phase1/asl.c wakes the first process that waits for a semaphore.
use kaya_project.Base.{
  ◌≤◌, ◌<◌, ◌≡◌, refl, true, false, List, [], ◌∷◌, arith, ◌==◌, has, Returns, ==-refl,
}
use kaya_project.Base.Monad
use kaya_project.Machine.{Ptr, Addr, max_int, IsCell}
use kaya_project.Pcb.Queue.Links.{IsQueue}
use kaya_project.Pcb.Queue.Fifo.{IsQueue-cells, head_proc_q-front}
use kaya_project.Asl.Table.{Asl}
use kaya_project.Asl.Blocked.{remove_blocked, out_blocked}
use kaya_project.Asl.Blocked.Sorted.{IsActive, Rising, search_semd-place, place}
use kaya_project.Asl.Blocked.Link.{Rising-above}
use kaya_project.Asl.Blocked.Out.{
  Waits, Outed, Dropped, second, semd_not_null, out_blocked-Outed, out_blocked-Dropped,
}

module _ (a : Asl) where
  -- The search leads to the descriptor of the semaphore, if it is active.
  pub place-finds :
      (sem : Addr) (p d : Ptr) (ds : List Ptr)
      → Rising a p ds
      → has d ds ≡ true
      → a.s_sem_add d ≡ sem
      → a.s_next (place a sem p ds) ≡ d
  place-finds sem p d [] r m e = cc
  place-finds sem p d (f ∷ ds) r m e =
      ground (arith, place-finds sem f d ds r.3, Rising-above a f d ds r.3)

-- The process `p` has the address of the active descriptor `semd`, whose queue is `x ∷ xs`.
pub record OnList (a : Asl) (ds : List Ptr) (p semd x : Ptr) (xs : List Ptr) : Type 0 where
  pub active : IsActive a ds
  pub member : has semd ds ≡ true
  pub address : a.s_sem_add semd ≡ (a.pcbs.info p).sem_add
  pub positive : 0 < (a.pcbs.info p).sem_add
  pub bounded : (a.pcbs.info p).sem_add ≤ max_int
  pub queue : IsQueue a.pcbs (a.s_proc_q semd) (x ∷ xs)
  pub cell : IsCell p

module _ (a : Asl) (ds : List Ptr) (p semd x : Ptr) (xs : List Ptr) where
  pub OnList-Waits :
      OnList a ds p semd x xs → Waits a p (place a (a.pcbs.info p).sem_add a.semd_h ds) semd x xs
  OnList-Waits o =
      let sem = (a.pcbs.info p).sem_add in
      let (run, b) = search_semd-place a sem ds o.active o.positive o.bounded in
      let found = place-finds a sem a.semd_h semd ds o.active.rising o.member o.address in
      record {
        cell = o.cell;
        parent_cell = b.cell;
        semd_cell = rw found at b.next_cell;
        search = run;
        semd_next = found;
        address = o.address;
        queue = o.queue;
        apart = ground (arith, b.below, o.address);
      }

  -- Where the address of `p` is that of an active descriptor with a queue, and `p` is not the
  -- second member of it, `outBlocked` returns `p` and takes it out of the queue, or returns NULL if
  -- it is not a member, and leaves the active list and the tails of the other queues as they were;
  -- only queue links of members change.
  pub out_blocked-keeps :
      OnList a ds p semd x xs
      → (second x xs == p) ≡ false
      → Returns (Outed a p semd (x ∷ xs)) (out_blocked p a)
  out_blocked-keeps o ne = out_blocked-Outed a p _ semd x xs (OnList-Waits o) ne

  -- Where the address of `p` is that of an active descriptor with a queue, and `p` is the second
  -- member of it (the first, if it is alone), `outBlocked` returns `p`, and the descriptor leaves
  -- the active list for the free list with its queue emptied, whoever else is left in the queue.
  pub out_blocked-drops :
      OnList a ds p semd x xs
      → second x xs ≡ p
      → Returns
          (Dropped a p (place a (a.pcbs.info p).sem_add a.semd_h ds) semd x xs)
          (out_blocked p a)
  out_blocked-drops o e = out_blocked-Dropped a p _ semd x xs (OnList-Waits o) e

module _ (a : Asl) (ds : List Ptr) (semd x : Ptr) where
  -- The address is that of the first process in the queue.
  abbrev pub address_of : Addr
  address_of = (a.pcbs.info x).sem_add

  pub remove_blocked-out :
      (xs : List Ptr) → OnList a ds x semd x xs → remove_blocked address_of a ≡ out_blocked x a
  unfolding remove_blocked
  remove_blocked-out xs o =
      let w = OnList-Waits a ds x semd x xs o in
      rw
        (
          w.search,
          semd_not_null _ w.parent_cell,
          w.semd_next,
          semd_not_null semd w.semd_cell,
          w.address,
          ==-refl address_of,
          semd_not_null semd w.semd_cell,
          head_proc_q-front a.pcbs (a.s_proc_q semd) (x ∷ xs) w.queue,
        )
        refl

  -- The first process is awake: alone, it leaves no descriptor; otherwise the rest waits on.
  abbrev pub Woken : List Ptr → Ptr → Asl → Type 0
  Woken [] r g = Dropped a x (place a address_of a.semd_h ds) semd x [] r g
  Woken (y ∷ ys) r g = (r ≡ x) × IsQueue g.pcbs (g.s_proc_q semd) (y ∷ ys) × (g.s_next ≡ a.s_next)

  -- Where an active descriptor has the address and the queue `x ∷ xs`, `removeBlocked` returns `x`.
  -- If `x` waited alone, the descriptor leaves the active list for the free list; otherwise the
  -- others stay in the queue in order, and the active list as it was.
  pub remove_blocked-Woken :
      (xs : List Ptr) → OnList a ds x semd x xs → Returns (Woken xs) (remove_blocked address_of a)
  remove_blocked-Woken [] o =
      rw (remove_blocked-out [] o) (out_blocked-drops a ds x semd x [] o refl)
  remove_blocked-Woken (y ∷ ys) o = rw (remove_blocked-out (y ∷ ys) o) (
      Monad.mono (out_blocked-keeps a ds x semd x (y ∷ ys) o apart)
        λ r g m. (rw (==-refl x) at m.result, rw (==-refl x) at m.queue, m.same_next))
    where
      apart : (y == x) ≡ false
      apart = ground (arith, (IsQueue-cells a.pcbs (a.s_proc_q semd) (x ∷ y ∷ ys) o.queue).1)
