-- ===== src/Asl/Map/Frame.antt =====
-- A change of the process control blocks that spares those that wait keeps the map.
use kaya_project.Base.{◌≡◌, ◌∙◌, refl, true, has}
use kaya_project.Machine.{Ptr, Addr}
use kaya_project.Pcb.Table.{Pcbs}
use kaya_project.Pcb.Queue.Links.{IsQueue-same}
use kaya_project.Asl.Table.{Asl}
use kaya_project.Asl.Map.{Waiting, IsAsl, IsActive-same}

pub IsAsl-pcbs :
    {a : Asl} {w : Waiting} (h : Pcbs)
    → IsAsl a w
    → ((s : Addr) (p : Ptr) → has p (w s) ≡ true → h.next p ≡ a.pcbs.next p)
    → ((s : Addr) (p : Ptr) → has p (w s) ≡ true → h.prev p ≡ a.pcbs.prev p)
    → ((s : Addr) (p : Ptr) → has p (w s) ≡ true → (h.info p).sem_add ≡ (a.pcbs.info p).sem_add)
    → IsAsl (record a { pcbs = h }) w
IsAsl-pcbs {a} h v n b i = record {
  ds = v.ds;
  fs = v.fs;
  active = IsActive-same v.active refl refl refl;
  free = v.free;
  distinct = v.distinct;
  apart = v.apart;
  count = v.count;
  queues = λ d m. IsQueue-same (v.queues d m) (n (a.s_sem_add d)) (b (a.s_sem_add d));
  absent = v.absent;
  busy = v.busy;
  address = λ s p m. i s p m ∙ v.address s p m;
}
