-- ===== src/Asl/Map/Skip.antt =====
-- How a descriptor goes out of the active list of phase1/asl.c, which stays in order.
use kaya_project.Base.{
  ◌+◌, ◌<◌, ◌≡◌, ◌∙◌, true, false, List, [], ◌∷◌, arith, ◌==◌, ltb, has, has-apart, length, Nodup,
  inl, inr, Bool-cases, ==-refl, erase,
}
use kaya_project.Machine.{Ptr, Addr, max_int}
use kaya_project.Asl.Table.{Asl}
use kaya_project.Asl.Blocked.Sorted.{IsSemd, Rising, place}
use kaya_project.Asl.Blocked.Link.{Rising-frame, Rising-above, Rising-fresh, place-mem}

pub Rising-IsSemd :
    (a : Asl) (p d : Ptr) (ds : List Ptr) → Rising a p ds → has d ds ≡ true → IsSemd d
Rising-IsSemd a p d [] r m = cc
Rising-IsSemd a p d (e ∷ ds) r m = ground (arith, Rising-IsSemd a e d ds r.3)

pub Nodup-Rising : (a : Asl) (p : Ptr) (ds : List Ptr) → Rising a p ds → Nodup ds
Nodup-Rising a p [] r = tt
Nodup-Rising a p (d ∷ ds) r = (Rising-fresh a d ds r.3, Nodup-Rising a d ds r.3)

pub length-erase_mem :
    (d : Ptr) (ds : List Ptr) → has d ds ≡ true → length (erase d ds) + 1 ≡ length ds
length-erase_mem d [] m = cc
length-erase_mem d (e ∷ ds) m = ground (arith, length-erase_mem d ds)

-- A descriptor goes out of the list, which stays in order.
module _ (a g : Asl) (d : Ptr) (sem : Addr) (here : a.s_sem_add d ≡ sem) where
  abbrev Skips : Ptr → Type 0
  Skips q =
      (g.s_next q ≡ a.s_next d)
      × ((e : Ptr) → (e == q) ≡ false → (e == d) ≡ false → g.s_next e ≡ a.s_next e)
      × ((e : Ptr) → (e == d) ≡ false → g.s_sem_add e ≡ a.s_sem_add e)

  Rising-skip :
      (p : Ptr) (ds : List Ptr)
      → Rising a p (d ∷ ds)
      → (p == d) ≡ false
      → sem < max_int
      → Skips p
      → Rising g p ds
  Rising-skip p [] r n top k = absurd (omega (arith, r.3))
  Rising-skip p (e ∷ ds) r n top k =
      let out = Rising-fresh a d (e ∷ ds) r.3 in
      let out' = Rising-fresh a p (d ∷ e ∷ ds) r in
      let d-ne : (e == d) ≡ false = ground arith in
      (
        k.0 ∙ r.3.0,
        r.3.1,
        omega (arith, k.2 p n, k.2 e d-ne, r.2, r.3.2),
        Rising-frame a g e ds r.3.3
            (λ c m.
              k.1 c (ground (arith, has-apart c p (d ∷ e ∷ ds))) (has-apart c d (e ∷ ds) m out).0)
            (λ c m. k.2 c (has-apart c d (e ∷ ds) m out).0),
      )

  pub Rising-out :
      (p : Ptr) (ds : List Ptr)
      → Rising a p ds
      → has d ds ≡ true
      → (p == d) ≡ false
      → sem < max_int
      → Skips (place a sem p ds)
      → Rising g p (erase d ds)
  Rising-out p [] r m n top k = cc
  Rising-out p (e ∷ es) r m n top k = elim (Bool-cases (ltb (a.s_sem_add e) sem)) [
    | inl t ↦
        let d-ne : (e == d) ≡ false = ground arith in
        let k' : Skips (place a sem e es) = rw t at k in
        let apart =
          has-apart (place a sem e es) p (e ∷ es) (place-mem a d sem e es)
            (Rising-fresh a p (e ∷ es) r) in
        rw d-ne (
          k'.1 p apart.1 n ∙ r.0,
          r.1,
          omega (arith, k'.2 p n, k'.2 e d-ne, r.2),
          Rising-out e es r.3 (ground arith) d-ne top k',
        )
    | inr t ↦
        let same : e ≡ d = ground (arith, Rising-above a e d es r.3) in
        rw (same, ==-refl d) (Rising-skip p es (rw same at r) n top (rw t at k))
  ]
