-- ===== src/Asl/Blocked/Sorted.antt =====
-- `searchSemd` of phase1/asl.c on the active list: descriptors in the order of their semaphores'
-- addresses, between the sentinels 0 and MAXINT.
use kaya_project.Base.{
  ℕ, zero, suc, ◌+◌, ◌≤◌, ◌<◌, ◌≡◌, refl, true, List, [], ◌∷◌, arith, ltb, ◌==◌, if◌then◌else◌, ok,
  has, length,
}
use kaya_project.Machine.{Ptr, Addr, max_proc, max_int}
use kaya_project.Asl.Table.{Asl}
use kaya_project.Asl.List.{search_from, search_semd}

-- A pointer to a descriptor of `semdTable`.
abbrev pub IsSemd : Ptr → Type 0
IsSemd d = d < max_proc + 2

-- From `p` on `s_next` leads through `ds`, the addresses rise, and the last one is MAXINT.
abbrev pub Rising : Asl → Ptr → List Ptr → Type 0
Rising a p [] = a.s_sem_add p ≡ max_int
Rising a p (d ∷ ds) = (a.s_next p ≡ d) × IsSemd d × (a.s_sem_add p < a.s_sem_add d) × Rising a d ds

-- The active list is the sentinel 0 followed by `ds`.
pub record IsActive (a : Asl) (ds : List Ptr) : Type 0 where
  pub first : IsSemd (a.semd_h)
  pub low : a.s_sem_add a.semd_h ≡ 0
  pub rising : Rising a a.semd_h ds
  pub count : length ds ≤ max_proc + 1

-- `parent` is the last of the active descriptors below `sem`.
pub record Brackets (a : Asl) (sem : Addr) (ds : List Ptr) (parent : Ptr) : Type 0 where
  pub cell : IsSemd parent
  pub member : has (a.s_next parent) ds ≡ true
  pub next_cell : IsSemd (a.s_next parent)
  pub below : a.s_sem_add parent < sem
  pub above : sem ≤ a.s_sem_add (a.s_next parent)

module _ (a : Asl) (sem : Addr) where
  -- The last descriptor below `sem`, from `p` on.
  abbrev pub place : Ptr → List Ptr → Ptr
  place p [] = p
  place p (d ∷ ds) = if ltb (a.s_sem_add d) sem then place d ds else p

  search_from-place :
      (k : ℕ) (p : Ptr) (ds : List Ptr)
      → Rising a p ds
      → IsSemd p
      → a.s_sem_add p < sem
      → sem ≤ max_int
      → length ds ≤ k
      → search_from k sem p a ≡ ok (place p ds) a
  unfolding search_from
  search_from-place k p [] r c b top fuel = absurd (omega arith)
  search_from-place zero p (d ∷ ds) r c b top fuel = absurd (omega arith)
  search_from-place (suc k) p (d ∷ ds) r c b top fuel =
      ground (arith, search_from-place k d ds r.3 r.1)

  -- The search stops with the descriptors below `sem` behind it and those from `sem` on ahead.
  place-above :
      (p : Ptr) (ds : List Ptr)
      → Rising a p ds
      → IsSemd p
      → a.s_sem_add p < sem
      → sem ≤ max_int
      → IsSemd (place p ds)
        × (has (a.s_next (place p ds)) ds ≡ true)
        × IsSemd (a.s_next (place p ds))
        × (a.s_sem_add (place p ds) < sem)
        × (sem ≤ a.s_sem_add (a.s_next (place p ds)))
  place-above p [] r c b top = absurd (omega arith)
  place-above p (d ∷ ds) r c b top = ground (arith, place-above d ds r.3 r.1)

  pub search_semd-place :
      (ds : List Ptr)
      → IsActive a ds
      → 0 < sem
      → sem ≤ max_int
      → (search_semd sem a ≡ ok (place a.semd_h ds) a) × Brackets a sem ds (place a.semd_h ds)
  unfolding search_semd
  search_semd-place ds i pos top =
      let below : a.s_sem_add a.semd_h < sem = ground (arith, i.low) in
      let fuel : length ds ≤ 22 = omega (arith, i.count) in
      let b = place-above a.semd_h ds i.rising i.first below top in
      (
        search_from-place 22 a.semd_h ds i.rising i.first below top fuel,
        record { cell = b.0; member = b.1; next_cell = b.2; below = b.3; above = b.4 },
      )

  -- `searchSemd` returns, with the fuel given, the descriptor before the place of `sem` in the
  -- active list, whose own address is below `sem` while that of its successor is not, and changes
  -- nothing.
  pub search_semd-Brackets :
      (ds : List Ptr)
      → IsActive a ds
      → 0 < sem
      → sem ≤ max_int
      → (parent : Ptr) × (search_semd sem a ≡ ok parent a) × Brackets a sem ds parent
  search_semd-Brackets ds i pos top =
      let (run, b) = search_semd-place ds i pos top in (place a.semd_h ds, run, b)

  module _ (qs : Ptr → List Ptr) where
    -- The processes that wait for `sem`, where `qs` gives the queue of a descriptor.
    abbrev pub waiting : List Ptr → List Ptr
    waiting [] = []
    waiting (d ∷ ds) = if a.s_sem_add d == sem then qs d else waiting ds

    waiting_above :
        (p : Ptr) (ds : List Ptr) → Rising a p ds → sem ≤ a.s_sem_add p → waiting ds ≡ []
    waiting_above p [] r le = refl
    waiting_above p (d ∷ ds) r le = ground (arith, waiting_above d ds r.3)

    pub waiting-place :
        (p : Ptr) (ds : List Ptr)
        → Rising a p ds
        → a.s_sem_add p < sem
        → sem ≤ max_int
        → waiting ds
          ≡ (if a.s_sem_add (a.s_next (place p ds)) == sem then qs (a.s_next (place p ds)) else [])
    waiting-place p [] r b top = absurd (omega arith)
    waiting-place p (d ∷ ds) r b top =
        ground (arith, waiting-place d ds r.3, waiting_above d ds r.3)
