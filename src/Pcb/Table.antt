-- ===== src/Pcb/Table.antt =====
-- The static table `procTable` of phase1/pcb.c, one map for each field of `pcb_t`, and access to a
-- field through a pointer.
use kaya_project.Base.{◌≡◌, ok, update, arith}
use kaya_project.Machine.{Ptr, Info, Command, guarded, IsCell}

-- `free` is `pcbFree_h`, the tail pointer of the free list.
pub record Pcbs : Type 0 where
  pub next : Ptr → Ptr
  pub prev : Ptr → Ptr
  pub prnt : Ptr → Ptr
  pub child : Ptr → Ptr
  pub sib : Ptr → Ptr
  pub prevsib : Ptr → Ptr
  pub info : Ptr → Info
  pub free : Ptr

unfoldable pub get_next : Ptr → Command Pcbs Ptr
get_next p h = guarded p (ok (h.next p) h)

unfoldable pub get_prev : Ptr → Command Pcbs Ptr
get_prev p h = guarded p (ok (h.prev p) h)

unfoldable pub get_prnt : Ptr → Command Pcbs Ptr
get_prnt p h = guarded p (ok (h.prnt p) h)

unfoldable pub get_child : Ptr → Command Pcbs Ptr
get_child p h = guarded p (ok (h.child p) h)

unfoldable pub get_sib : Ptr → Command Pcbs Ptr
get_sib p h = guarded p (ok (h.sib p) h)

unfoldable pub get_prevsib : Ptr → Command Pcbs Ptr
get_prevsib p h = guarded p (ok (h.prevsib p) h)

unfoldable pub get_info : Ptr → Command Pcbs Info
get_info p h = guarded p (ok (h.info p) h)

unfoldable pub set_next : Ptr → Ptr → Command Pcbs (Unit {0})
set_next p v h = guarded p (ok tt (record h { next = update h.next p v }))

unfoldable pub set_prev : Ptr → Ptr → Command Pcbs (Unit {0})
set_prev p v h = guarded p (ok tt (record h { prev = update h.prev p v }))

unfoldable pub set_prnt : Ptr → Ptr → Command Pcbs (Unit {0})
set_prnt p v h = guarded p (ok tt (record h { prnt = update h.prnt p v }))

unfoldable pub set_child : Ptr → Ptr → Command Pcbs (Unit {0})
set_child p v h = guarded p (ok tt (record h { child = update h.child p v }))

unfoldable pub set_sib : Ptr → Ptr → Command Pcbs (Unit {0})
set_sib p v h = guarded p (ok tt (record h { sib = update h.sib p v }))

unfoldable pub set_prevsib : Ptr → Ptr → Command Pcbs (Unit {0})
set_prevsib p v h = guarded p (ok tt (record h { prevsib = update h.prevsib p v }))

unfoldable pub set_info : Ptr → Info → Command Pcbs (Unit {0})
set_info p v h = guarded p (ok tt (record h { info = update h.info p v }))

unfoldable pub get_free : Command Pcbs Ptr
get_free h = ok h.free h

unfoldable pub set_free : Ptr → Command Pcbs (Unit {0})
set_free v h = ok tt (record h { free = v })

-- Access to a block of the table does not fault.
pub get_next-ok : (p : Ptr) (h : Pcbs) → IsCell p → get_next p h ≡ ok (h.next p) h
unfolding get_next
get_next-ok p h c = ground arith

pub get_prev-ok : (p : Ptr) (h : Pcbs) → IsCell p → get_prev p h ≡ ok (h.prev p) h
unfolding get_prev
get_prev-ok p h c = ground arith
