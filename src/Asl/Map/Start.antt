-- ===== src/Asl/Map/Start.antt =====
-- `initASL` of phase1/asl.c: nobody waits.
use kaya_project.Base.{
  ℕ, zero, suc, ◌<◌, ◌≡◌, refl, true, List, [], ◌∷◌, arith, has, Nodup, Returns, returns,
}
use kaya_project.Machine.{Ptr}
use kaya_project.Pcb.Queue.Links.{empty}
use kaya_project.Asl.Table.{Asl}
use kaya_project.Asl.List.{init_asl, free_semds, free_semd, clean_semd, allocate_semd}
use kaya_project.Asl.Blocked.Start.{down_from}
use kaya_project.Asl.Map.{IsAsl}

pub has-down_from : (d n : ℕ) → has d (down_from n) ≡ true → d < n
has-down_from d zero m = cc
has-down_from d (suc n) m = ground (arith, has-down_from d n)

pub Nodup-down_from : (n : ℕ) → Nodup (down_from n)
Nodup-down_from zero = tt
Nodup-down_from (suc n) = (ground (arith, has-down_from n n), Nodup-down_from n)

abbrev pub nobody : Ptr → List Ptr
nobody _ = []

-- From any memory `initASL` makes a list that stands for the map in which nobody waits, and leaves
-- the process control blocks alone.
pub init_asl-IsAsl : (a : Asl) → Returns (λ _ g. IsAsl g nobody × (g.pcbs ≡ a.pcbs)) (init_asl a)
unfolding init_asl free_semds free_semd clean_semd allocate_semd
init_asl-IsAsl a = returns (
  record {
    ds = 20 ∷ [];
    fs = down_from 20;
    active = record {
      first = omega arith;
      low = refl;
      rising = (refl, omega arith, omega arith, refl);
      count = omega arith;
    };
    free = omega arith;
    distinct = Nodup-down_from 20;
    apart = λ d m. ground (arith, has-down_from d 20 m);
    count = omega arith;
    queues = λ d m. rw (only d m) (empty refl refl);
    absent = λ s n. refl;
    busy = λ d m n. ground (arith, only d m);
    address = λ s p m. cc;
  },
  refl,
)
  where
    only : (d : ℕ) → has d (20 ∷ []) ≡ true → d ≡ 20
    only d m = ground arith
