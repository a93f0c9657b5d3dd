-- ===== src/Asl/Map/Room.antt =====
-- Why `insertBlocked` of phase1/asl.c finds a free descriptor: each active one has a process of its
-- own, there are no more than 20 processes, and one of them does not wait yet.
use kaya_project.Base.{
  ◌+◌, ◌≤◌, ◌<◌, ◌≡◌, true, false, List, [], ◌∷◌, arith, ◌==◌, if◌then◌else◌, has, length, Nodup,
  All, Bool-cases, inl, inr, ==-refl, eq_of_==, length-le_of_Nodup,
}
use kaya_project.Machine.{Ptr, Addr, max_int, max_proc, IsCell}
use kaya_project.Pcb.Queue.Links.{All-mem}
use kaya_project.Pcb.Queue.Fifo.{front, IsQueue-cells}
use kaya_project.Asl.Table.{Asl}
use kaya_project.Asl.Blocked.Sorted.{Rising}
use kaya_project.Asl.Map.{Waiting, IsAsl, find_semd}

front-mem : (xs : List Ptr) → 0 < length xs → has (front xs) xs ≡ true
front-mem [] h = absurd (omega arith)
front-mem (x ∷ xs) h = ground (arith, ==-refl x)

module _ {a : Asl} {w : Waiting} (v : IsAsl a w) where
  -- The first process of each queue.
  abbrev heads : List Ptr → List Ptr
  heads [] = []
  heads (d ∷ ds) =
      if a.s_sem_add d == max_int then heads ds else front (w (a.s_sem_add d)) ∷ heads ds

  Rising-le_max : (p : Ptr) (ds : List Ptr) → Rising a p ds → a.s_sem_add p ≤ max_int
  Rising-le_max p [] r = omega arith
  Rising-le_max p (d ∷ ds) r = ground (arith, Rising-le_max d ds r.3)

  heads-nil : (p : Ptr) (ds : List Ptr) → Rising a p ds → a.s_sem_add p ≡ max_int → length ds ≡ 0
  heads-nil p [] r e = omega arith
  heads-nil p (d ∷ ds) r e = absurd (omega (arith, Rising-le_max d ds r.3, r.2))

  length-heads :
      (p : Ptr) (ds : List Ptr)
      → Rising a p ds
      → a.s_sem_add p < max_int
      → length ds ≡ length (heads ds) + 1
  length-heads p [] r b = absurd (omega arith)
  length-heads p (d ∷ []) r b = ground arith
  length-heads p (d ∷ e ∷ ds) r b =
      let le : a.s_sem_add e ≤ max_int = Rising-le_max e ds r.3.3 in
      let ne : (a.s_sem_add d == max_int) ≡ false = ground (arith, r.3.2) in
      rw ne (omega (arith, length-heads d (e ∷ ds) r.3 (omega (arith, r.3.2))))

  heads-mem :
      (p : Ptr) (ds : List Ptr)
      → Rising a p ds
      → ((d : Ptr) → has d ds ≡ true → has d v.ds ≡ true)
      → (q : Ptr) → has q (heads ds) ≡ true
      → (s : Addr) × (has q (w s) ≡ true) × (a.s_sem_add p < s)
  heads-mem p [] r sub q m = cc
  heads-mem p (d ∷ ds) r sub q m = elim (Bool-cases (a.s_sem_add d == max_int)) [
    | inl e ↦ later (heads-mem d ds r.3 below q) (rw e at m)
    | inr e ↦
        let here : has (front (w (a.s_sem_add d))) (w (a.s_sem_add d)) ≡ true =
          front-mem (w (a.s_sem_add d)) (v.busy d (sub d (ground (arith, ==-refl d))) e) in
        elim (Bool-cases (q == front (w (a.s_sem_add d)))) [
          | inl f ↦ (a.s_sem_add d, rw (eq_of_== _ _ f) here, r.2)
          | inr f ↦ later (heads-mem d ds r.3 below q) (rw (e, f) at m)
        ]
  ]
    where
      below : (c : Ptr) → has c ds ≡ true → has c v.ds ≡ true
      below c n = sub c (ground arith)

      later :
          (has q (heads ds) ≡ true → (s : Addr) × (has q (w s) ≡ true) × (a.s_sem_add d < s))
          → has q (heads ds) ≡ true
          → (s : Addr) × (has q (w s) ≡ true) × (a.s_sem_add p < s)
      later ih n = let (s, k, lt) = ih n in (s, k, omega (arith, r.2))

  pub IsCell-of_waiting : (s : Addr) (p : Ptr) → has p (w s) ≡ true → IsCell p
  IsCell-of_waiting s p m = elim (find_semd a s v.ds) [
    | inl (d, n, e) ↦
        All-mem (w s) p (IsQueue-cells a.pcbs (a.s_proc_q d) (w s) (rw e at (v.queues d n))).0 m
    | inr u ↦ absurd (ground (arith, v.absent s u))
  ]

  pub Nodup-waiting : (s : Addr) → Nodup (w s)
  Nodup-waiting s = elim (find_semd a s v.ds) [
    | inl (d, n, e) ↦ (IsQueue-cells a.pcbs (a.s_proc_q d) (w s) (rw e at (v.queues d n))).1
    | inr u ↦ rw (v.absent s u) tt
  ]

  Nodup-heads :
      (p : Ptr) (ds : List Ptr)
      → Rising a p ds
      → ((d : Ptr) → has d ds ≡ true → has d v.ds ≡ true)
      → Nodup (heads ds) × All IsCell (heads ds)
  Nodup-heads p [] r sub = (tt, tt)
  Nodup-heads p (d ∷ ds) r sub =
      let later : Nodup (heads ds) × All IsCell (heads ds) = Nodup-heads d ds r.3 below in
      elim (Bool-cases (a.s_sem_add d == max_int)) [
        | inl e ↦ rw e later
        | inr e ↦
            let here : has (front (w (a.s_sem_add d))) (w (a.s_sem_add d)) ≡ true =
              front-mem (w (a.s_sem_add d)) (v.busy d (sub d (ground (arith, ==-refl d))) e) in
            rw e ((fresh _ here, later.0), (IsCell-of_waiting _ _ here, later.1))
      ]
    where
      below : (c : Ptr) → has c ds ≡ true → has c v.ds ≡ true
      below c n = sub c (ground arith)

      fresh : (q : Ptr) → has q (w (a.s_sem_add d)) ≡ true → has q (heads ds) ≡ false
      fresh q m = elim (Bool-cases (has q (heads ds))) [
        | inl n ↦
            let (s, k, lt) = heads-mem d ds r.3 below q n in
            absurd (omega (arith, v.address s q k, v.address (a.s_sem_add d) q m))
        | inr n ↦ n
      ]

  -- While a process waits for nothing, a descriptor is free.
  pub free_semd_left : (p : Ptr) → IsCell p → ((s : Addr) → has p (w s) ≡ false) → 0 < length v.fs
  free_semd_left p c idle =
      let (d, k) = Nodup-heads a.semd_h v.ds v.active.rising (λ e m. m) in
      let n = length-heads a.semd_h v.ds v.active.rising (omega (arith, v.active.low)) in
      let few = length-le_of_Nodup max_proc (p ∷ heads v.ds) (fresh, d) (c, k) in
      omega (arith, v.count, n, few)
    where
      fresh : has p (heads v.ds) ≡ false
      fresh = elim (Bool-cases (has p (heads v.ds))) [
        | inl n ↦
            let (s, k, lt) = heads-mem a.semd_h v.ds v.active.rising (λ e m. m) p n in
            ground (arith, idle s)
        | inr n ↦ n
      ]
