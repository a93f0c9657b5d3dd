-- ===== src/Asl/Map.antt =====
-- The active semaphore list of phase1/asl.c as a map from semaphores to the queues of the processes
-- that wait for them. The children refine the operations of the list to those of the map.
pub mod Frame
pub mod Start
pub mod Room
pub mod Kept
pub mod Linked
pub mod Insert
pub mod Skip
pub mod Other
pub mod Shorter
pub mod Alone
pub mod Leave
pub mod Strand
pub mod Remove
use kaya_project.Base.{
  ℕ, ◌+◌, ◌≤◌, ◌<◌, ◌≡◌, refl, ap, true, false, List, [], ◌∷◌, ◌++◌, arith, ◌==◌, if◌then◌else◌,
  has, has-apart, length, Nodup, ◌⊎◌, inl, inr, Bool-cases, eq_of_==, ==-refl, ==-false,
}
use kaya_project.Machine.{Ptr, Addr, null, max_int, IsCell}
use kaya_project.Pcb.Queue.Links.{IsQueue}
use kaya_project.Asl.Table.{Asl}
use kaya_project.Asl.Blocked.Sorted.{IsActive, Rising}
use kaya_project.Asl.Blocked.Link.{Absent, Rising-frame, Rising-above}
use kaya_project.Asl.Blocked.Start.{FreeChain}

-- Who waits for which semaphore, the first one first.
abbrev pub Waiting : Type 0
Waiting = Addr → List Ptr

-- `p` waits behind the others for `sem`.
abbrev pub enqueue : Waiting → Addr → Ptr → Waiting
enqueue w sem p s = if s == sem then w s ++ p ∷ [] else w s

abbrev pub rest : List Ptr → List Ptr
rest [] = []
rest (x ∷ xs) = xs

-- The first one waits no longer.
abbrev pub dequeue : Waiting → Addr → Waiting
dequeue w sem s = if s == sem then rest (w s) else w s

-- The list stands for the map `w`: `ds` are the active descriptors behind the first one and `fs`
-- the free ones. A descriptor is active exactly while somebody waits.
pub record IsAsl (a : Asl) (w : Waiting) : Type 0 where
  pub ds : List Ptr
  pub fs : List Ptr
  pub active : IsActive a ds
  pub free : FreeChain a a.semd_free fs
  pub distinct : Nodup fs
  pub apart : (d : Ptr) → has d fs ≡ true → has d (a.semd_h ∷ ds) ≡ false
  pub count : length ds + length fs ≡ 21
  pub queues : (d : Ptr) → has d ds ≡ true → IsQueue a.pcbs (a.s_proc_q d) (w (a.s_sem_add d))
  pub absent : (s : Addr) → Absent a s ds → w s ≡ []
  pub busy :
      (d : Ptr)
      → has d ds ≡ true
      → (a.s_sem_add d == max_int) ≡ false
      → 0 < length (w (a.s_sem_add d))
  pub address : (s : Addr) (p : Ptr) → has p (w s) ≡ true → (a.pcbs.info p).sem_add ≡ s

-- Nobody waits for two semaphores.
pub apart_queues :
    {a : Asl} {w : Waiting}
    → IsAsl a w
    → (s t : Addr) (p : Ptr) → (s == t) ≡ false
    → has p (w s) ≡ true
    → has p (w t) ≡ false
apart_queues v s t p ne m = ground (arith, v.address s p, v.address t p)

-- An address is that of an active descriptor, or of none.
pub find_semd :
    (a : Asl) (sem : Addr) (ds : List Ptr)
    → ((d : Ptr) × (has d ds ≡ true) × (a.s_sem_add d ≡ sem)) ⊎ Absent a sem ds
find_semd a sem [] = inr (λ d m. cc)
find_semd a sem (d ∷ ds) = elim (Bool-cases (a.s_sem_add d == sem)) [
  | inl e ↦ inl (d, ground (arith, ==-refl d), eq_of_== _ _ e)
  | inr e ↦ elim (find_semd a sem ds) [
    | inl (c, m, f) ↦ inl (c, ground arith, f)
    | inr n ↦ inr (λ c m. ground (arith, n c))
  ]
]

-- No two active descriptors have the same address.
pub Rising-injective :
    (a : Asl) (p : Ptr) (ds : List Ptr)
    → Rising a p ds
    → (d e : Ptr) → has d ds ≡ true
    → has e ds ≡ true
    → a.s_sem_add d ≡ a.s_sem_add e
    → d ≡ e
Rising-injective a p [] r d e m n q = cc
Rising-injective a p (f ∷ ds) r d e m n q =
    ground
      (arith, Rising-injective a f ds r.3 d e, Rising-above a f d ds r.3, Rising-above a f e ds r.3)

pub IsActive-same :
    {a g : Asl} {ds : List Ptr}
    → IsActive a ds
    → g.s_next ≡ a.s_next
    → g.s_sem_add ≡ a.s_sem_add
    → g.semd_h ≡ a.semd_h
    → IsActive g ds
IsActive-same {a} {g} {ds} i n k h = record {
  first = rw h i.first;
  low = rw (h, k) i.low;
  rising =
      rw h
        (Rising-frame a g a.semd_h ds i.rising (λ d m. ap (λ f. f d) n) (λ d m. ap (λ f. f d) k));
  count = i.count;
}

pub FreeChain-frame :
    (a g : Asl) (p : Ptr) (fs : List Ptr)
    → FreeChain a p fs
    → ((d : Ptr) → has d fs ≡ true → g.s_next d ≡ a.s_next d)
    → FreeChain g p fs
FreeChain-frame a g p [] c n = c
FreeChain-frame a g p (f ∷ fs) c n =
    let same : g.s_next f ≡ a.s_next f = n f (ground (arith, ==-refl f)) in
    (c.0, c.1, rw same (FreeChain-frame a g (a.s_next f) fs c.2 (λ d m. n d (ground arith))))
