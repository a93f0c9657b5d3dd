-- ===== src/Pcb/Pool/Cycle.antt =====
-- The pool of free blocks of phase1/pcb.c: `freePcb` cleans and appends, `allocPcb` takes the first
-- block, cleaned, and `initPcbs` fills the pool with the whole table.
use kaya_project.Base.{
  ℕ, zero, suc, ◌-◌, ◌≤◌, ◌<◌, ◌≡◌, refl, ap, true, false, List, [], ◌∷◌, ◌++◌, arith, ok, has,
  update, range, Returns, returns, has-append, All, Nodup,
}
use mathlib.Core.Path.{subst, ◌∙◌}
use mathlib.Core.List.{append-nil, append_assoc}
use kaya_project.Base.Monad
use kaya_project.Machine.{Ptr, null, max_proc, IsCell}
use kaya_project.Pcb.Table.{Pcbs}
use kaya_project.Pcb.Queue.Links.{IsQueue, empty, SameBut, IsQueue-same, cell_not_null}
use kaya_project.Pcb.Queue.Insert.{insert_proc_q-append}
use kaya_project.Pcb.Queue.Fifo.{head-eq_next, remove_proc_q-cons, IsQueue-nil, IsQueue-cells}
use kaya_project.Pcb.Pool.{clean_info, clean_pcb, free_pcb, alloc_pcb, free_cells, init_pcbs}

-- The free list holds the blocks `xs`, in the order in which they will be allocated.
abbrev pub IsPool : Pcbs → List Ptr → Type 0
IsPool h xs = IsQueue h h.free xs

-- `p` carries no trace of its former use.
pub record IsClean (g : Pcbs) (p : Ptr) : Type 0 where
  pub prnt : g.prnt p ≡ null
  pub child : g.child p ≡ null
  pub sib : g.sib p ≡ null
  pub prevsib : g.prevsib p ≡ null
  pub info : clean_info (g.info p) ≡ g.info p

-- `g` is `h` but for the blocks `zs` and the tail pointer of the free list.
pub record Outside (zs : List Ptr) (h g : Pcbs) : Type 0 where
  pub next : (a : Ptr) → has a zs ≡ false → g.next a ≡ h.next a
  pub prev : (a : Ptr) → has a zs ≡ false → g.prev a ≡ h.prev a
  pub prnt : (a : Ptr) → has a zs ≡ false → g.prnt a ≡ h.prnt a
  pub child : (a : Ptr) → has a zs ≡ false → g.child a ≡ h.child a
  pub sib : (a : Ptr) → has a zs ≡ false → g.sib a ≡ h.sib a
  pub prevsib : (a : Ptr) → has a zs ≡ false → g.prevsib a ≡ h.prevsib a
  pub info : (a : Ptr) → has a zs ≡ false → g.info a ≡ h.info a

-- A queue that shares no block with `zs` stays the same queue.
pub IsQueue-Outside :
    {h g : Pcbs} {tp : Ptr} {xs zs : List Ptr}
    → IsQueue h tp xs
    → Outside zs h g
    → ((a : Ptr) → has a xs ≡ true → has a zs ≡ false)
    → IsQueue g tp xs
IsQueue-Outside q o apart =
    IsQueue-same q (λ a m. o.next a (apart a m)) (λ a m. o.prev a (apart a m))

abbrev pub cleaned : Pcbs → Ptr → Pcbs
cleaned h p = record h {
  next = update h.next p null;
  prev = update h.prev p null;
  prnt = update h.prnt p null;
  child = update h.child p null;
  sib = update h.sib p null;
  prevsib = update h.prevsib p null;
  info = update h.info p (clean_info (h.info p));
}

pub clean_pcb-ok : (h : Pcbs) (p : Ptr) → IsCell p → clean_pcb p h ≡ ok tt (cleaned h p)
unfolding clean_pcb
clean_pcb-ok h p c = ground arith

module _ (h g : Pcbs) (p t : Ptr) (xs : List Ptr) (s : SameBut (p ∷ xs) (cleaned h p) g) where
  IsClean-same : IsClean (record g { free = t }) p
  IsClean-same = ground (arith, s.prnt p, s.child p, s.sib p, s.prevsib p, s.info p)

  Outside-same : Outside (p ∷ xs) h (record g { free = t })
  Outside-same = record {
    next = λ a m. ground (arith, s.next a m);
    prev = λ a m. ground (arith, s.prev a m);
    prnt = λ a m. ground (arith, s.prnt a);
    child = λ a m. ground (arith, s.child a);
    sib = λ a m. ground (arith, s.sib a);
    prevsib = λ a m. ground (arith, s.prevsib a);
    info = λ a m. ground (arith, s.info a);
  }

IsClean-cleaned : (h : Pcbs) (p : Ptr) → IsClean (cleaned h p) p
IsClean-cleaned h p = ground arith

Outside-cleaned :
    {h g : Pcbs} {t : Ptr} (x : Ptr) (xs : List Ptr)
    → SameBut (x ∷ xs) h g
    → Outside (x ∷ xs) h (cleaned (record g { free = t }) x)
Outside-cleaned x xs s = record {
  next = λ a m. ground (arith, s.next a m);
  prev = λ a m. ground (arith, s.prev a m);
  prnt = λ a m. ground (arith, s.prnt a);
  child = λ a m. ground (arith, s.child a);
  sib = λ a m. ground (arith, s.sib a);
  prevsib = λ a m. ground (arith, s.prevsib a);
  info = λ a m. ground (arith, s.info a);
}

module _ (h : Pcbs) where
  abbrev pub Freed : Ptr → List Ptr → Unit {0} → Pcbs → Type 0
  Freed p xs _ g = IsPool g (xs ++ p ∷ []) × IsClean g p × Outside (p ∷ xs) h g

  pub free_pcb-append :
      (p : Ptr) (xs : List Ptr)
      → IsPool h xs
      → IsCell p
      → has p xs ≡ false
      → Returns (Freed p xs) (free_pcb p h)
  unfolding free_pcb
  free_pcb-append p xs q c out = rw (clean_pcb-ok h p c) (
      Monad.bind
        (insert_proc_q-append (cleaned h p) h.free p xs
          (IsQueue-same q (λ a m. ground arith) (λ a m. ground arith)) c out)
        λ t g (q', s). returns (
          IsQueue-same q' (λ a m. refl) (λ a m. refl),
          IsClean-same h g p t xs s,
          Outside-same h g p t xs s,
        ))

  -- The result of `allocPcb` is cleaned once more.
  abbrev pub Allocated : Ptr → List Ptr → Ptr → Pcbs → Type 0
  Allocated x xs p g = (p ≡ x) × IsPool g xs × IsClean g x × Outside (x ∷ xs) h g

  pub alloc_pcb-cons :
      (x : Ptr) (xs : List Ptr) → IsPool h (x ∷ xs) → Returns (Allocated x xs) (alloc_pcb h)
  unfolding alloc_pcb
  alloc_pcb-cons x xs q =
      let (c, e) = head-eq_next h h.free x xs q in
      rw (cell_not_null h.free c) (
        Monad.bind (remove_proc_q-cons h h.free x xs q) λ (p, t) g (e', q', s).
          rw (e', clean_pcb-ok (record g { free = t }) x cells.0.0)
            (returns (
              refl,
              IsQueue-same q' (λ a m. ground (arith, cells.1.0)) (λ a m. ground (arith, cells.1.0)),
              IsClean-cleaned (record g { free = t }) x,
              Outside-cleaned x xs s,
            )))
    where
      cells : All IsCell (x ∷ xs) × Nodup (x ∷ xs)
      cells = IsQueue-cells h h.free (x ∷ xs) q

  -- With no free block `allocPcb` returns NULL and changes nothing.
  pub alloc_pcb-nil : IsPool h [] → alloc_pcb h ≡ ok null h
  unfolding alloc_pcb
  alloc_pcb-nil q = ground (arith, IsQueue-nil h h.free q)

-- The members of the free list after `m` rounds of the loop, `n` rounds before its end.
free_cells-range :
    (n : ℕ) (h : Pcbs) (xs : List Ptr)
    → n ≤ max_proc
    → IsPool h xs
    → ((a : Ptr) → has a xs ≡ true → a < max_proc - n)
    → Returns (λ _ g. IsPool g (xs ++ range (max_proc - n) n)) (free_cells n h)
unfolding free_cells
free_cells-range zero h xs le q below = returns (rw append-nil q)
free_cells-range (suc n) h xs le q below =
    Monad.bind (free_pcb-append h k xs q (omega arith) (ground (arith, below k))) λ u g (q', c, o).
      Monad.mono
        (free_cells-range n g (xs ++ k ∷ []) (omega arith) q'
          (λ a m. ground (arith, has-append a xs (k ∷ []), below a)))
        λ u' g' r. subst (λ l. IsPool g' l) next_cell r
  where
    k : Ptr
    k = max_proc - suc n

    next_cell : (xs ++ k ∷ []) ++ range (max_proc - n) n ≡ xs ++ range k (suc n)
    next_cell =
        append_assoc xs (k ∷ []) (range (max_proc - n) n)
        ∙ ap (λ m. xs ++ (k ∷ range m n)) (omega arith)

-- `initPcbs` makes the free list of the whole table, whatever was in memory before.
pub init_pcbs-range : (h : Pcbs) → Returns (λ _ g. IsPool g (range 0 max_proc)) (init_pcbs h)
unfolding init_pcbs
init_pcbs-range h =
    free_cells-range max_proc (record h { free = null }) [] (omega arith) (empty refl refl)
      (λ a m. cc)
