-- ===== src/Asl/Map/Kept.antt =====
-- What `insertBlocked` of phase1/asl.c leaves as it was.
use kaya_project.Base.{
  ◌<◌, ◌≡◌, refl, true, false, List, [], ◌∷◌, arith, ◌==◌, has, has-append, length, length-append,
}
use kaya_project.Machine.{Ptr, Addr}
use kaya_project.Pcb.Table.{Pcbs}
use kaya_project.Pcb.Queue.Links.{IsQueue, SameBut, IsQueue-frame, IsQueue-same}
use kaya_project.Asl.Table.{Asl}
use kaya_project.Asl.Blocked.Insert.{marked}
use kaya_project.Asl.Map.{Waiting, IsAsl, enqueue}

module _ {a : Asl} {w : Waiting} (sem : Addr) (p : Ptr) (v : IsAsl a w) where
  module _ (idle : (s : Addr) → has p (w s) ≡ false) where
    -- The queues of other semaphores are as they were.
    pub kept-IsQueue :
        (h : Pcbs) (zs : List Ptr) (s : Addr) (t : Ptr)
        → SameBut zs (marked a.pcbs p sem) h
        → IsQueue a.pcbs t (w s)
        → ((q : Ptr) → has q (w s) ≡ true → has q zs ≡ false)
        → IsQueue h t (w s)
    kept-IsQueue h zs s t f q out = IsQueue-frame (IsQueue-same q (λ b m. refl) (λ b m. refl)) f out

    -- Who waits for another semaphore is not in this queue.
    pub outside :
        (s : Addr) → (s == sem) ≡ false → (q : Ptr) → has q (w s) ≡ true → has q (p ∷ w sem) ≡ false
    outside s ne q m = ground (arith, v.address s q, v.address sem q, idle s)

    pub noted :
        (h : Pcbs) (zs : List Ptr)
        → SameBut zs (marked a.pcbs p sem) h
        → (s : Addr) (q : Ptr) → has q (enqueue w sem p s) ≡ true
        → (h.info q).sem_add ≡ s
    noted h zs f s q m =
        ground (arith, f.info q, has-append q (w s) (p ∷ []), v.address s q, idle s)

    pub busy_enqueue : (s : Addr) → 0 < length (w s) → 0 < length (enqueue w sem p s)
    busy_enqueue s b = ground (arith, length-append (w s) (p ∷ []))
