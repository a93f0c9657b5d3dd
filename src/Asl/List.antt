-- ===== src/Asl/List.antt =====
-- The local functions of phase1/asl.c: the free list of descriptors, the search and `initASL`.
use kaya_project.Base.{
  ℕ, zero, suc, ◌+◌, ◌-◌, ltb, ◌==◌, if◌then◌else◌, out_of_fuel, pure, ◌>>=◌, ◌>>◌,
}
use kaya_project.Machine.{Ptr, Addr, null, max_int, max_proc, Command}
use kaya_project.Asl.Table.{
  Asl, get_s_next, get_s_sem_add, set_s_next, set_s_sem_add, set_s_proc_q, get_semd_h, set_semd_h,
  get_semd_free, set_semd_free,
}

unfoldable pub clean_semd : Ptr → Command Asl (Unit {0})
unfolding set_s_next set_s_sem_add set_s_proc_q
clean_semd p = do set_s_next p null; set_s_sem_add p null; set_s_proc_q p null

unfoldable pub free_semd : Ptr → Command Asl (Unit {0})
unfolding set_s_next get_semd_free set_semd_free
free_semd p = do clean_semd p; first ← get_semd_free; set_s_next p first; set_semd_free p

unfoldable pub allocate_semd : Addr → Command Asl Ptr
unfolding get_s_next set_s_sem_add get_semd_free set_semd_free
allocate_semd sem_add = do
  first ← get_semd_free
  if first == null then pure null else do
    after ← get_s_next first
    if after == null
        then (do set_semd_free null; clean_semd first; set_s_sem_add first sem_add; pure first)
        else do set_semd_free after; clean_semd first; set_s_sem_add first sem_add; pure first

-- The `while` loop of `searchSemd`; the list has at most `max_proc + 2` descriptors.
unfoldable pub search_from : ℕ → Addr → Ptr → Command Asl Ptr
unfolding get_s_next get_s_sem_add
search_from zero semd p = λ _. out_of_fuel
search_from (suc k) semd p = do
  after ← get_s_next p
  add ← get_s_sem_add after
  if ltb add semd then search_from k semd after else pure p

unfoldable pub search_semd : Addr → Command Asl Ptr
unfolding get_semd_h
search_semd semd = do h ← get_semd_h; search_from (max_proc + 2) semd h

-- The loop of `initASL` with `n` rounds left, at the cell `max_proc + 2 - n`.
unfoldable pub free_semds : ℕ → Command Asl (Unit {0})
free_semds zero = pure tt
free_semds (suc n) = do free_semd (max_proc + 2 - suc n); free_semds n

unfoldable pub init_asl : Command Asl (Unit {0})
unfolding set_semd_h set_semd_free set_s_next get_s_next get_semd_h
init_asl = do
  set_semd_h null
  set_semd_free null
  free_semds (max_proc + 2)
  first ← allocate_semd 0
  set_semd_h first
  last ← allocate_semd max_int
  h ← get_semd_h
  set_s_next h last
  h' ← get_semd_h
  after ← get_s_next h'
  set_s_next after null
