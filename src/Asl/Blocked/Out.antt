-- ===== src/Asl/Blocked/Out.antt =====
-- `outBlocked` of phase1/asl.c: a process leaves the queue of its semaphore, and the descriptor
-- goes with it where the second member of the queue is that process.
use kaya_project.Base.{
  Bool-cases, inl, inr, ◌≡◌, refl, true, false, List, [], ◌∷◌, arith, ◌==◌, if◌then◌else◌, ok, has,
  erase, pure, ap, ◌∙◌, update, ◌>>◌, ◌>>=◌, and_then, ==-refl, Returns, returns,
}
use kaya_project.Base.Monad
use kaya_project.Machine.{Ptr, null, IsCell, Command}
use kaya_project.Pcb.Table.{Pcbs}
use kaya_project.Pcb.Queue.{head_proc_q}
use kaya_project.Pcb.Queue.Links.{cell_not_null, IsQueue, empty, ring, SameBut}
use kaya_project.Pcb.Queue.Fifo.{head-eq_next}
use kaya_project.Pcb.Queue.Out.{Removed, out_proc_q-erase}
use kaya_project.Asl.Table.{Asl, set_s_proc_q, get_s_next, set_s_next}
use kaya_project.Asl.List.{search_semd, free_semd, clean_semd}
use kaya_project.Asl.Blocked.{out_of_queue, out_blocked}
use kaya_project.Asl.Blocked.Sorted.{IsSemd}

-- The member behind the first one, in a ring.
abbrev pub second : Ptr → List Ptr → Ptr
second x [] = x
second x (y ∷ _) = y

second-eq_next :
    (h : Pcbs) (t x : Ptr) (xs : List Ptr)
    → IsQueue h t (x ∷ xs)
    → IsCell x × (h.next x ≡ second x xs)
second-eq_next h t x xs (empty e f) = cc
second-eq_next h t x xs (ring [] e r) = ground (arith, r.cells, r.links)
second-eq_next h t x [] (ring (y ∷ []) e r) = cc
second-eq_next h t x (w ∷ ws) (ring (y ∷ []) e r) = ground (arith, r.cells, r.links)
second-eq_next h t x [] (ring (y ∷ z ∷ zs) e r) = cc
second-eq_next h t x (w ∷ ws) (ring (y ∷ z ∷ zs) e r) = ground (arith, r.cells, r.links)

pub semd_not_null : (d : Ptr) → IsSemd d → (d == null) ≡ false
semd_not_null d i = ground arith

module _ (a : Asl) (p semd : Ptr) where
  -- `p` is out of the queue of `semd`, and no descriptor has changed otherwise.
  pub record Outed (xs : List Ptr) (r : Ptr) (g : Asl) : Type 0 where
    pub result : r ≡ (if has p xs then p else null)
    pub queue : IsQueue g.pcbs (g.s_proc_q semd) (erase p xs)
    pub others : (d : Ptr) → (d == semd) ≡ false → g.s_proc_q d ≡ a.s_proc_q d
    pub same_next : g.s_next ≡ a.s_next
    pub same_add : g.s_sem_add ≡ a.s_sem_add
    pub same_h : g.semd_h ≡ a.semd_h
    pub same_free : g.semd_free ≡ a.semd_free
    pub frame : SameBut xs a.pcbs g.pcbs

  -- Only the process control blocks have changed.
  abbrev InPcbs : List Ptr → Ptr × Ptr → Asl → Type 0
  InPcbs xs r g = Removed a.pcbs (a.s_proc_q semd) p xs r g.pcbs × (g ≡ record a { pcbs = g.pcbs })

  after :
      (xs : List Ptr)
      → IsSemd semd
      → (r : Ptr × Ptr) (g : Asl) → InPcbs xs r g
      → Returns (Outed xs) ((do set_s_proc_q semd r.1; pure r.0) g)
  unfolding set_s_proc_q
  after xs c (found, t) g (m, e) = rw (semd_not_null semd c) (
      returns (record {
        result = m.0;
        queue = rw (==-refl semd) m.1;
        others = λ d n. rw n (ap (λ b. Asl.s_proc_q b d) e);
        same_next = ap (λ b. Asl.s_next b) e;
        same_add = ap (λ b. Asl.s_sem_add b) e;
        same_h = ap (λ b. Asl.semd_h b) e;
        same_free = ap (λ b. Asl.semd_free b) e;
        frame = m.2;
      }))

  out_of_queue-erase :
      (xs : List Ptr)
      → IsSemd semd
      → IsQueue a.pcbs (a.s_proc_q semd) xs
      → Returns (Outed xs) (out_of_queue semd p a)
  unfolding out_of_queue
  out_of_queue-erase xs c q = rw (semd_not_null semd c) (
      Monad.bind
        (Monad.lift (λ h. record a { pcbs = h }) (out_proc_q-erase a.pcbs (a.s_proc_q semd) p xs q)
          λ r h m. (m, refl))
        (after xs c))

-- The queue `x ∷ xs` on the active list that `outBlocked` works on for `p`, with its descriptor
-- and the one before it.
pub record Waits (a : Asl) (p parent semd x : Ptr) (xs : List Ptr) : Type 0 where
  pub cell : IsCell p
  pub parent_cell : IsSemd parent
  pub semd_cell : IsSemd semd
  pub search : search_semd (a.pcbs.info p).sem_add a ≡ ok parent a
  pub semd_next : a.s_next parent ≡ semd
  pub address : a.s_sem_add semd ≡ (a.pcbs.info p).sem_add
  pub queue : IsQueue a.pcbs (a.s_proc_q semd) (x ∷ xs)
  pub apart : (parent == semd) ≡ false

-- What `outBlocked` does to the list once the second member is the process.
abbrev drop : Ptr → Ptr → Command Asl Ptr
drop parent outed = do
  removed ← get_s_next parent
  next ← get_s_next removed
  set_s_next parent next
  free_semd removed
  pure outed

module _ (a : Asl) (p parent semd x : Ptr) (xs : List Ptr) where
  out_blocked-cases :
      Waits a p parent semd x xs
      → out_blocked p a ≡ (
          if second x xs == p
          then and_then (out_of_queue semd p a) (drop parent)
          else out_of_queue semd p a)
  unfolding out_blocked head_proc_q
  out_blocked-cases w =
      let (t, head) = head-eq_next a.pcbs (a.s_proc_q semd) x xs w.queue in
      let (c, next) = second-eq_next a.pcbs (a.s_proc_q semd) x xs w.queue in
      rw
        (
          cell_not_null p w.cell,
          w.search,
          semd_not_null parent w.parent_cell,
          w.semd_next,
          semd_not_null semd w.semd_cell,
          w.address,
          ==-refl (a.pcbs.info p).sem_add,
          semd_not_null semd w.semd_cell,
          cell_not_null (a.s_proc_q semd) t,
          head,
          cell_not_null x c,
          next,
          cell_not_null x c,
        )
        (elim (Bool-cases (second x xs == p)) [ inl e ↦ rw e refl | inr e ↦ rw e refl ])

  second-mem : has (second x xs) (x ∷ xs) ≡ true
  second-mem = go xs
    where
      go : (ys : List Ptr) → has (second x ys) (x ∷ ys) ≡ true
      go [] = ground (arith, ==-refl x)
      go (y ∷ ys) = ground (arith, ==-refl y)

  -- `outBlocked` of a process that is not the second member of its queue takes it out and leaves
  -- the active list as it was.
  pub out_blocked-Outed :
      Waits a p parent semd x xs
      → (second x xs == p) ≡ false
      → Returns (Outed a p semd (x ∷ xs)) (out_blocked p a)
  out_blocked-Outed w ne =
      rw (out_blocked-cases w, ne) (out_of_queue-erase a p semd (x ∷ xs) w.semd_cell w.queue)

  -- The descriptor `semd` is off the active list and heads the free list.
  pub record Dropped (r : Ptr) (g : Asl) : Type 0 where
    pub result : r ≡ p
    pub skipped : g.s_next parent ≡ a.s_next semd
    pub freed : (g.semd_free ≡ semd) × (g.s_next semd ≡ a.semd_free)
    pub emptied : g.s_proc_q semd ≡ null
    pub others :
        (d : Ptr)
        → (d == parent) ≡ false
        → (d == semd) ≡ false
        → (g.s_next d ≡ a.s_next d) × (g.s_proc_q d ≡ a.s_proc_q d)
    pub kept :
        (d : Ptr)
        → (d == semd) ≡ false
        → (g.s_proc_q d ≡ a.s_proc_q d) × (g.s_sem_add d ≡ a.s_sem_add d)
    pub same_h : g.semd_h ≡ a.semd_h
    pub frame : SameBut (x ∷ xs) a.pcbs g.pcbs

  abbrev dropped : Asl → Asl
  dropped g = record g {
    s_next = update (update (update g.s_next parent (g.s_next semd)) semd null) semd g.semd_free;
    s_sem_add = update g.s_sem_add semd null;
    s_proc_q = update g.s_proc_q semd null;
    semd_free = semd;
  }

  drop-dropped :
      (r : Ptr) (g : Asl)
      → IsSemd parent
      → IsSemd semd
      → g.s_next parent ≡ semd
      → drop parent r g ≡ ok r (dropped g)
  unfolding get_s_next set_s_next free_semd clean_semd
  drop-dropped r g c d e = ground arith

  drop-Dropped :
      (r : Ptr) (g : Asl)
      → Waits a p parent semd x xs
      → second x xs ≡ p
      → Outed a p semd (x ∷ xs) r g
      → Returns Dropped (drop parent r g)
  drop-Dropped r g w e o =
      let same : (d : Ptr) → g.s_next d ≡ a.s_next d = λ d. ap (λ f. f d) o.same_next in
      rw (drop-dropped r g w.parent_cell w.semd_cell (same parent ∙ w.semd_next)) (
        returns (record {
          result = ground (arith, o.result, second-mem);
          skipped = ground (arith, same semd, w.apart);
          freed = (refl, ground (arith, o.same_free));
          emptied = ground arith;
          others = λ d n m. (ground (arith, same d), ground (arith, o.others d m));
          kept = λ d n. (ground (arith, o.others d n), ground (arith, ap (λ f. f d) o.same_add));
          same_h = o.same_h;
          frame = o.frame;
        }))

  -- `outBlocked` of the second member of a queue takes the descriptor off the active list, however
  -- many processes are left in the queue.
  pub out_blocked-Dropped :
      Waits a p parent semd x xs → second x xs ≡ p → Returns Dropped (out_blocked p a)
  out_blocked-Dropped w e =
      rw (out_blocked-cases w, e, ==-refl p)
        (Monad.bind (out_of_queue-erase a p semd (x ∷ xs) w.semd_cell w.queue)
          λ r g o. drop-Dropped r g w e o)
