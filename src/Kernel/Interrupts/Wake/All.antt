-- ===== src/Kernel/Interrupts/Wake/All.antt =====
-- The loop of phase2/interrupts.c that wakes everybody who waits for the pseudo clock.
use mathlib.Core.List.{append-nil, append_assoc}
use mathlib.Core.Path.{subst}
use kaya_project.Base.{
  ℕ, zero, suc, ◌<◌, ◌≡◌, refl, sym, ap, inl, inr, Bool-cases, ◌∙◌, true, false, List, [], ◌∷◌,
  ◌++◌, arith, ◌==◌, if◌then◌else◌, ==-refl, eq_of_==, has, length, ok, Returns, returns, update,
  and_then, pure,
}
use kaya_project.Base.Monad
use kaya_project.Base.Monad.{Run, ◌>>◌, ◌>>=◌}
use kaya_project.Base.Words.{inc32, dec32}
use kaya_project.Machine.{Ptr, Addr, Word, Info, Exit, Command, null, max_int}
use kaya_project.Pcb.Queue.Links.{cell_not_null}
use kaya_project.Pcb.Queue.Fifo.{front}
use kaya_project.Asl.Blocked.{head_blocked, remove_blocked}
use kaya_project.Asl.Map.{Waiting, dequeue}
use kaya_project.Asl.Map.Room.{Nodup-waiting}
use kaya_project.Asl.Map.Remove.{head_blocked-IsAsl}
use kaya_project.Kernel.State.{Kernel}
use kaya_project.Kernel.Access.{on_asl, modify, make_ready, get_pcb, get_int, set_int, set_pcb}
use kaya_project.Kernel.Interrupts.{wake_all}
use kaya_project.Kernel.Invariant.{IsKernel}
use kaya_project.Kernel.Invariant.Wake.{Woken, wakes}
use kaya_project.Kernel.Invariant.Fields.{info_of, IsKernel-same, get_pcb-ok, set_pcb-ok}

-- `f` applied `n` times.
abbrev pub times : ℕ → (Word → Word) → Word → Word
times zero f v = v
times (suc n) f v = times n f (f v)

-- Nobody waits for `sem` any more.
abbrev pub emptied : Waiting → Addr → Waiting
emptied w sem s = if s == sem then [] else w s

-- The processes `xs` have left the queue of `clock` for the end of the ready queue, in order, the
-- semaphore is one larger and the processes that wait for devices one fewer for each, and no other
-- process or semaphore has changed.
pub record AllWoken (k : Kernel) (ready : List Ptr) (w : Waiting) (pool : List Ptr) (clock : Addr)
    (xs : List Ptr) (g : Kernel) : Type 0 where
  pub kernel : IsKernel g (ready ++ xs) (emptied w clock) pool
  pub semaphore : g.ints clock ≡ times (length xs) inc32 (k.ints clock)
  pub semaphores : (a : Addr) → (a == clock) ≡ false → g.ints a ≡ k.ints a
  pub devices : g.soft_block_count ≡ times (length xs) dec32 k.soft_block_count
  pub woken : (p : Ptr) → has p xs ≡ true → info_of g p ≡ record (info_of k p) { sem_add = null }
  pub others : (p : Ptr) → has p xs ≡ false → info_of g p ≡ info_of k p
  pub rest : g ≡ record k {
    asl = g.asl;
    ready_que = g.ready_que;
    ints = g.ints;
    soft_block_count = g.soft_block_count;
  }

IsKernel-waits :
    {k : Kernel} {ready pool : List Ptr} {w w' : Waiting}
    → ((s : Addr) → w s ≡ w' s)
    → IsKernel k ready w pool
    → IsKernel k ready w' pool
IsKernel-waits {k} {ready} {pool} e v = subst (λ u. IsKernel k ready u pool) (λ i s. e s i) v

module _ (clock : Addr) (pos : 0 < clock) (top : clock < max_int) where
  -- Nobody waits: nothing happens.
  pub AllWoken-nobody :
      {k : Kernel} {ready pool : List Ptr} {w : Waiting}
      → IsKernel k ready w pool
      → w clock ≡ []
      → AllWoken k ready w pool clock [] k
  AllWoken-nobody {k} {ready} {pool} {w} v none = record {
    kernel =
        subst (λ l. IsKernel k l (emptied w clock) pool) (sym (append-nil ready))
          (IsKernel-waits same v);
    semaphore = refl;
    semaphores = λ a ne. refl;
    devices = refl;
    woken = λ p m. absurd (cc m);
    others = λ p m. refl;
    rest = refl;
  }
    where
      same : (s : Addr) → w s ≡ emptied w clock s
      same s = elim (Bool-cases (s == clock)) [
        | inl e ↦ rw (e, eq_of_== s clock e) none
        | inr e ↦ rw e refl
      ]

  module _ {k : Kernel} {ready pool : List Ptr} {w : Waiting} (v : IsKernel k ready w pool) where
    pub head-front : on_asl (head_blocked clock) k ≡ ok (front (w clock)) k
    head-front = rw (head_blocked-IsAsl clock v.waits pos top) refl

    -- One round.
    abbrev counted : Kernel → Kernel
    counted g = record g { soft_block_count = dec32 g.soft_block_count }

    abbrev took : ℕ → Ptr → Command Kernel (Unit {0})
    took n temp = do
      i ← get_pcb temp
      set_pcb temp (record i { sem_add = null })
      c ← get_int clock
      set_int clock (inc32 c)
      make_ready temp
      modify counted
      wake_all n clock

    abbrev headed : ℕ → Run Exit Kernel Ptr → Run Exit Kernel (Unit {0})
    headed n r =
        and_then r
          λ head. if head == null then pure tt else (on_asl (remove_blocked clock) >>= took n)

    headed-lem : (n : ℕ) → wake_all (suc n) clock k ≡ headed n (on_asl (head_blocked clock) k)
    unfolding wake_all
    headed-lem n = refl

    round :
        (n : ℕ) (x : Ptr) (xs : List Ptr)
        → w clock ≡ x ∷ xs
        → (g : Kernel) × (wake_all (suc n) clock k ≡ wake_all n clock (counted g))
          × Woken
              (record k { ints = update k.ints clock (inc32 (k.ints clock)) })
              ready
              w
              pool
              clock
              x
              (record (info_of k x) { sem_add = null })
              g
    round n x xs wait =
        let s =
          wakes v clock x xs (λ i. record i { sem_add = null })
            (λ f. update f clock (inc32 (f clock))) pos top wait in
        (
          s.end,
          headed-lem n
              ∙ ap (headed n) (head-front ∙ ap (λ l. ok (front l) k) wait)
              ∙ rw (cell_not_null x s.apart.cell) (
                  ap (λ r. and_then r (took n)) s.removes
                  ∙ rw (get_pcb-ok s.free x s.apart.cell)
                      (rw (set_pcb-ok s.free x s.apart.cell) (rw s.readies refl))),
          s.woken,
        )

    -- The first process, and then the others.
    AllWoken-round :
        (x : Ptr) (xs : List Ptr) {g h : Kernel}
        → w clock ≡ x ∷ xs
        → Woken
            (record k { ints = update k.ints clock (inc32 (k.ints clock)) })
            ready
            w
            pool
            clock
            x
            (record (info_of k x) { sem_add = null })
            g
        → AllWoken
            (record g { soft_block_count = dec32 g.soft_block_count })
            (ready ++ x ∷ [])
            (dequeue w clock)
            pool
            clock
            xs
            h
        → AllWoken k ready w pool clock (x ∷ xs) h
    AllWoken-round x xs {g} {h} wait o m = record {
      kernel =
          subst (λ l. IsKernel h l (emptied w clock) pool) (append_assoc ready (x ∷ []) xs)
            (IsKernel-waits emptied_twice m.kernel);
      semaphore =
          m.semaphore
          ∙ ap (λ f. times (length xs) inc32 (f clock)) (ap (λ n. Kernel.ints n) o.rest)
          ∙ rw (==-refl clock) refl;
      semaphores = λ a ne. m.semaphores a ne ∙ ap (λ n. Kernel.ints n a) o.rest ∙ rw ne refl;
      devices =
          m.devices ∙ ap (λ n. times (length xs) dec32 (dec32 (Kernel.soft_block_count n))) o.rest;
      woken = λ p n. woken_or p n;
      others = λ p n. m.others p (ground arith) ∙ o.others p (ground arith);
      rest =
          m.rest
          ∙ ap
              (λ (n : Kernel). record n {
                asl = h.asl;
                ready_que = h.ready_que;
                ints = h.ints;
                soft_block_count = h.soft_block_count;
              })
              o.rest;
    }
      where
        distinct : has x xs ≡ false
        distinct = (rw wait at (Nodup-waiting v.waits clock)).0

        emptied_twice : (s : Addr) → emptied (dequeue w clock) clock s ≡ emptied w clock s
        emptied_twice s = elim (Bool-cases (s == clock)) [ inl e ↦ rw e refl | inr e ↦ rw e refl ]

        woken_or :
            (p : Ptr)
            → has p (x ∷ xs) ≡ true
            → info_of h p ≡ record (info_of k p) { sem_add = null }
        woken_or p n = elim (Bool-cases (p == x)) [
          | inl e ↦ rw (eq_of_== p x e) (m.others x distinct ∙ o.info)
          | inr e ↦
              m.woken p (ground (arith))
              ∙ ap (λ (i : Info). record i { sem_add = null }) (o.others p e)
        ]

  -- The loop with more rounds of fuel than processes wait returns, with all of them woken.
  pub wake_all-AllWoken :
      (n : ℕ) (xs : List Ptr) {k : Kernel} {ready pool : List Ptr} {w : Waiting}
      → IsKernel k ready w pool
      → w clock ≡ xs
      → length xs < n
      → Returns (λ _ g. AllWoken k ready w pool clock xs g) (wake_all n clock k)
  wake_all-AllWoken zero xs v wait fuel = absurd (omega arith)
  wake_all-AllWoken (suc n) [] {k} v wait fuel =
      rw (headed-lem v n ∙ ap (headed v n) (head-front v ∙ ap (λ l. ok (front l) k) wait))
        (returns (AllWoken-nobody v wait))
  wake_all-AllWoken (suc n) (x ∷ xs) {k} {ready} {pool} {w} v wait fuel =
      let (g, e, o) = round v n x xs wait in
      rw e (
        Monad.mono
          (wake_all-AllWoken n xs {k = record g { soft_block_count = dec32 g.soft_block_count }}
            (IsKernel-same refl refl o.kernel) (rw (==-refl clock, wait) refl) (omega arith))
          λ u h m. AllWoken-round v x xs wait o m)
