-- ===== src/Asl/Blocked/Start.antt =====
-- `initASL` of phase1/asl.c.
use kaya_project.Base.{ℕ, zero, suc, ◌≡◌, refl, List, [], ◌∷◌, arith, Returns, returns}
use kaya_project.Machine.{Ptr, null}
use kaya_project.Asl.Table.{Asl}
use kaya_project.Asl.List.{clean_semd, free_semd, allocate_semd, free_semds, init_asl}
use kaya_project.Asl.Blocked.Sorted.{IsSemd, IsActive}

-- The free descriptors from `p` on.
abbrev pub FreeChain : Asl → Ptr → List Ptr → Type 0
FreeChain a p [] = p ≡ null
FreeChain a p (d ∷ ds) = (p ≡ d) × IsSemd d × FreeChain a (a.s_next d) ds

abbrev pub down_from : ℕ → List ℕ
down_from zero = []
down_from (suc n) = n ∷ down_from n

-- From any memory `initASL` makes the active list of the two sentinels 0 and MAXINT, and the free
-- list of the other 20 descriptors.
pub init_asl-IsActive :
    (a : Asl)
    → Returns (λ _ g. IsActive g (20 ∷ []) × FreeChain g g.semd_free (down_from 20)) (init_asl a)
unfolding init_asl free_semds free_semd clean_semd allocate_semd
init_asl-IsActive a = returns (
  record {
    first = omega arith;
    low = refl;
    rising = (refl, omega arith, omega arith, refl);
    count = omega arith;
  },
  omega arith,
)
