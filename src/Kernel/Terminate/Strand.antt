-- ===== src/Kernel/Terminate/Strand.antt =====
-- `terminateRecursively` of phase2/exceptions.c, behind its loop, for the second one of the
-- processes that wait for a semaphore, and then for another one of them.
use mathlib.Core.Path.{subst}
use kaya_project.Base.{
  ◌<◌, ◌≡◌, refl, sym, ap, ◌∙◌, true, false, List, ◌∷◌, arith, ==-refl, has, has-apart, Nodup,
  and_then, ok, fault, Returns, returns,
}
use kaya_project.Base.Monad
use kaya_project.Machine.{Ptr, Addr, Info, null, max_int, IsCell}
use kaya_project.Pcb.Queue.Links.{IsQueue, IsQueue-frame, SameBut}
use kaya_project.Pcb.Pool.{free_pcb, clean_pcb}
use kaya_project.Pcb.Pool.Cycle.{IsPool, free_pcb-append}
use kaya_project.Asl.Table.{Asl}
use kaya_project.Asl.Blocked.{out_blocked}
use kaya_project.Asl.Map.{Waiting}
use kaya_project.Asl.Map.Room.{IsCell-of_waiting, Nodup-waiting}
use kaya_project.Asl.Map.Strand.{Stranded, out_blocked-Stranded}
use kaya_project.Kernel.State.{Kernel}
use kaya_project.Kernel.Invariant.{IsKernel}
use kaya_project.Kernel.Invariant.Fields.{info_of}
use kaya_project.Kernel.Terminate.{kill, one_process_less}
use kaya_project.Kernel.Terminate.Kill.{released_at, kill-blocked_run, free_and_count}

-- `freePcb(NULL)`
free_null : (g : Kernel) → free_and_count null g ≡ fault
unfolding free_pcb clean_pcb
free_null g = refl

module _ {k : Kernel} {ready pool : List Ptr} {w : Waiting} (v : IsKernel k ready w pool) (s : Addr)
    (x y : Ptr) (ys : List Ptr) (pos : 0 < s) (top : s < max_int) (wait : w s ≡ x ∷ y ∷ ys) where
  distinct : Nodup (x ∷ y ∷ ys)
  distinct = rw wait at (Nodup-waiting v.waits s)

  waiter :
      (z : Ptr)
      → has z (x ∷ y ∷ ys) ≡ true
      → IsCell z × ((k.asl.pcbs.info z).sem_add ≡ s) × (has z pool ≡ false)
  waiter z i =
      let i' : has z (w s) ≡ true = rw wait i in
      (
        IsCell-of_waiting v.waits s z i',
        v.waits.address s z i',
        ground (arith, λ (n : has z pool ≡ true). v.pool_idle z n s, i'),
      )

  -- The process `z` is lost in `f`.
  abbrev Lost : Ptr → Kernel → Type 0
  Lost z f = ((info_of f z).sem_add ≡ s) × (out_blocked z f.asl ≡ ok null f.asl)

  lost-fault : (z : Ptr) (f : Kernel) → IsCell z → Lost z f → kill z f ≡ fault
  lost-fault z f c (e, o) =
      kill-blocked_run s top f z c e
      ∙ ap
          (λ r.
            and_then (Monad.put_back (λ a. record (released_at s f) { asl = a }) r) free_and_count)
          o
      ∙ free_null (released_at s f)

  apart : (z : Ptr) → has z (x ∷ ys) ≡ true → has z (y ∷ pool) ≡ false
  apart z i =
      let others : has y (x ∷ ys) ≡ false = ground (arith, distinct) in
      let (c, e, n) = waiter z (ground (arith, i)) in
      ground (arith, n, has-apart z y (x ∷ ys) i others)

  pool_kept : (g : Asl) → SameBut (x ∷ y ∷ ys) k.asl.pcbs g.pcbs → IsPool g.pcbs pool
  pool_kept g f =
      subst (λ t. IsQueue g.pcbs t pool) (sym f.free)
        (IsQueue-frame v.free f λ q m. rw wait at (v.pool_idle q m s))

  freed :
      (g : Asl) (r : Ptr)
      → Stranded s v.waits pos top x y ys wait r g
      → Returns
          (λ _ f. (z : Ptr) → has z (x ∷ ys) ≡ true → Lost z f)
          (free_and_count y (record (released_at s k) { asl = g }))
  unfolding one_process_less
  freed g r o =
      let (c, e, n) = waiter y (ground (arith, ==-refl y)) in
      Monad.bind
        (Monad.lift {Q = λ _ f. (z : Ptr) → has z (x ∷ ys) ≡ true → Lost z f}
          (λ a. record (released_at s k) { asl = a })
          (Monad.lift
            {Q = λ _ a.
              (z : Ptr) → has z (x ∷ ys) ≡ true → Lost z (record (released_at s k) { asl = a })}
            (λ h. record g { pcbs = h }) (free_pcb-append g.pcbs y pool (pool_kept g o.frame) c n)
            λ u h (q, b, out) z i.
              let i' : has z (x ∷ y ∷ ys) ≡ true = ground (arith, i) in
              let (c', e', n') = waiter z i' in
              let same : (h.info z).sem_add ≡ s =
                ap (λ (i : Info). i.sem_add) (out.info z (apart z i) ∙ o.frame.info z) ∙ e' in
              (same, o.lost h z i' same))
          λ u a m. m)
        λ u f m. returns m

  -- In a kernel with its invariant, after the second one of two or more processes in the queue of a
  -- semaphore has died, which returns, the death of another one that waits there writes through NULL.
  pub kill-strands :
      Returns (λ _ f. (z : Ptr) → has z (x ∷ ys) ≡ true → kill z f ≡ fault) (kill y k)
  kill-strands =
      let i : has y (x ∷ y ∷ ys) ≡ true = ground (arith, ==-refl y) in
      let (c, e, n) = waiter y i in
      rw (kill-blocked_run s top k y c e) (
        Monad.bind
          (Monad.lift
            {Q = λ r g.
              Stranded s v.waits pos top x y ys wait r g.asl
              × (g ≡ record (released_at s k) { asl = g.asl })}
            (λ a. record (released_at s k) { asl = a })
            (out_blocked-Stranded s v.waits pos top x y ys wait) λ r a o. (o, refl))
          λ r g (o, same).
            let run =
              subst
                (λ p.
                  Returns (λ _ f. (z : Ptr) → has z (x ∷ ys) ≡ true → Lost z f)
                    (free_and_count p g))
                (sym o.found)
                (subst
                  (λ m.
                    Returns (λ _ f. (z : Ptr) → has z (x ∷ ys) ≡ true → Lost z f)
                      (free_and_count y m))
                  (sym same) (freed g.asl r o)) in
            Monad.mono run λ u f m z i.
              let (c', e', n') = waiter z (ground (arith, i)) in lost-fault z f c' (m z i))
