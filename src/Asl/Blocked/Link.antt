-- ===== src/Asl/Blocked/Link.antt =====
-- How a new descriptor comes into the active list of phase1/asl.c.
use kaya_project.Base.{
  ◌+◌, ◌≤◌, ◌<◌, ◌≡◌, refl, true, false, List, [], ◌∷◌, arith, ◌==◌, ltb, if◌then◌else◌, has, ◌||◌,
  has-apart, ==-refl, Bool-cases, inl, inr, update, length,
}
use kaya_project.Machine.{Ptr, Addr, null, max_int}
use kaya_project.Asl.Table.{Asl}
use kaya_project.Asl.Blocked.Sorted.{IsSemd, Rising, place}

-- The descriptor `f` taken from the free list for `sem` and put behind `q`.
abbrev pub linked : Asl → Ptr → Addr → Ptr → Asl
linked a f sem q = record a {
  semd_free = a.s_next f;
  s_next = update (update (update a.s_next f null) f (a.s_next q)) q f;
  s_sem_add = update a.s_sem_add f sem;
  s_proc_q = update a.s_proc_q f null;
}

-- No descriptor of `ds` has the address.
abbrev pub Absent : Asl → Addr → List Ptr → Type 0
Absent a sem ds = (d : Ptr) → has d ds ≡ true → (a.s_sem_add d == sem) ≡ false

module _ (a : Asl) where
  pub Rising-frame :
      (g : Asl) (p : Ptr) (ds : List Ptr)
      → Rising a p ds
      → ((d : Ptr) → has d (p ∷ ds) ≡ true → g.s_next d ≡ a.s_next d)
      → ((d : Ptr) → has d (p ∷ ds) ≡ true → g.s_sem_add d ≡ a.s_sem_add d)
      → Rising g p ds
  Rising-frame g p [] r n k = ground (arith, k p)
  Rising-frame g p (d ∷ ds) r n k = (
    ground (arith, n p),
    r.1,
    ground (arith, k p, k d),
    Rising-frame g d ds r.3 (λ e m. n e (ground arith)) (λ e m. k e (ground arith)),
  )

  pub Rising-above :
      (p d : Ptr) (ds : List Ptr) → Rising a p ds → has d ds ≡ true → a.s_sem_add p < a.s_sem_add d
  Rising-above p d [] r m = cc
  Rising-above p d (e ∷ ds) r m = ground (arith, Rising-above e d ds r.3)

  pub Rising-fresh : (p : Ptr) (ds : List Ptr) → Rising a p ds → has p ds ≡ false
  Rising-fresh p ds r = ground (arith, Rising-above p p ds r)

  module _ (f : Ptr) (sem : Addr) where
    pub place-mem : (p : Ptr) (ds : List Ptr) → has (place a sem p ds) (p ∷ ds) ≡ true
    place-mem p [] = ground (arith, ==-refl p)
    place-mem p (d ∷ ds) = ground (arith, ==-refl p, place-mem d ds)

    -- `f` among the descriptors, where its address has its place.
    abbrev pub with_semd : List Ptr → List Ptr
    with_semd [] = f ∷ []
    with_semd (d ∷ ds) = if ltb (a.s_sem_add d) sem then d ∷ with_semd ds else f ∷ d ∷ ds

    linked-here :
        (p d : Ptr) (ds : List Ptr)
        → Rising a p (d ∷ ds)
        → IsSemd f
        → a.s_sem_add p < sem
        → sem < a.s_sem_add d
        → has f (p ∷ d ∷ ds) ≡ false
        → Rising (linked a f sem p) p (f ∷ d ∷ ds)
    linked-here p d ds r c b t out = (
      ground arith,
      c,
      ground arith,
      (
        ground arith,
        r.1,
        ground arith,
        Rising-frame (linked a f sem p) d ds r.3
            (λ e m. ground (
              arith,
              has-apart e p (d ∷ ds) m (Rising-fresh p (d ∷ ds) r),
              has-apart e f (d ∷ ds) m,
            ))
            (λ e m. ground (arith, has-apart e f (d ∷ ds) m)),
      ),
    )

    -- The list stays in order.
    pub Rising-linked :
        (p : Ptr) (ds : List Ptr)
        → Rising a p ds
        → IsSemd f
        → a.s_sem_add p < sem
        → sem ≤ max_int
        → has f (p ∷ ds) ≡ false
        → Absent a sem ds
        → Rising (linked a f sem (place a sem p ds)) p (with_semd ds)
    Rising-linked p [] r c b top out fresh = absurd (omega arith)
    Rising-linked p (d ∷ ds) r c b top out fresh = elim (Bool-cases (ltb (a.s_sem_add d) sem)) [
      | inl e ↦
          let apart =
            has-apart (place a sem d ds) p (d ∷ ds) (place-mem d ds) (Rising-fresh p (d ∷ ds) r) in
          rw e (
            ground (arith, apart.1),
            r.1,
            ground arith,
            Rising-linked d ds r.3 c (ground arith) top (ground arith)
                (λ g m. fresh g (ground arith)),
          )
      | inr e ↦ rw e (linked-here p d ds r c b (ground (arith, fresh d, ==-refl d)) out)
    ]

    pub length-with_semd : (ds : List Ptr) → length (with_semd ds) ≡ length ds + 1
    length-with_semd [] = refl
    length-with_semd (d ∷ ds) = ground (arith, length-with_semd ds)

    pub has-with_semd : (e : Ptr) (ds : List Ptr) → has e (with_semd ds) ≡ ((e == f) || has e ds)
    has-with_semd e [] = refl
    has-with_semd e (d ∷ ds) = ground (arith, has-with_semd e ds)
