-- ===== src/Asl/Table.antt =====
-- The static table `semdTable` of phase1/asl.c, one map for each field of `semd_t`, together with
-- the table of process control blocks on which the semaphore queues stand.
use kaya_project.Base.{ok, update, put_back}
use kaya_project.Machine.{Ptr, Addr, Command, guarded}
use kaya_project.Pcb.Table.{Pcbs, get_info, set_info}

-- `semd_h` heads the active list and `semd_free` the free list.
pub record Asl : Type 0 where
  pub pcbs : Pcbs
  pub s_next : Ptr → Ptr
  pub s_sem_add : Ptr → Addr
  pub s_proc_q : Ptr → Ptr
  pub semd_h : Ptr
  pub semd_free : Ptr

-- An operation of pcb.c.
abbrev pub on_pcbs : {A : Type 0} → Command Pcbs A → Command Asl A
on_pcbs m a = put_back (λ h. record a { pcbs = h }) (m a.pcbs)

unfoldable pub get_s_next : Ptr → Command Asl Ptr
get_s_next p a = guarded p (ok (a.s_next p) a)

unfoldable pub get_s_sem_add : Ptr → Command Asl Addr
get_s_sem_add p a = guarded p (ok (a.s_sem_add p) a)

unfoldable pub get_s_proc_q : Ptr → Command Asl Ptr
get_s_proc_q p a = guarded p (ok (a.s_proc_q p) a)

unfoldable pub set_s_next : Ptr → Ptr → Command Asl (Unit {0})
set_s_next p v a = guarded p (ok tt (record a { s_next = update a.s_next p v }))

unfoldable pub set_s_sem_add : Ptr → Addr → Command Asl (Unit {0})
set_s_sem_add p v a = guarded p (ok tt (record a { s_sem_add = update a.s_sem_add p v }))

unfoldable pub set_s_proc_q : Ptr → Ptr → Command Asl (Unit {0})
set_s_proc_q p v a = guarded p (ok tt (record a { s_proc_q = update a.s_proc_q p v }))

unfoldable pub get_semd_h : Command Asl Ptr
get_semd_h a = ok a.semd_h a

unfoldable pub set_semd_h : Ptr → Command Asl (Unit {0})
set_semd_h v a = ok tt (record a { semd_h = v })

unfoldable pub get_semd_free : Command Asl Ptr
get_semd_free a = ok a.semd_free a

unfoldable pub set_semd_free : Ptr → Command Asl (Unit {0})
set_semd_free v a = ok tt (record a { semd_free = v })

-- `p->p_semAdd`.
unfoldable pub get_sem_add : Ptr → Command Asl Addr
unfolding get_info
get_sem_add p a = guarded p (ok (a.pcbs.info p).sem_add a)

unfoldable pub set_sem_add : Ptr → Addr → Command Asl (Unit {0})
unfolding set_info
set_sem_add p v a = on_pcbs (set_info p (record (a.pcbs.info p) { sem_add = v })) a
