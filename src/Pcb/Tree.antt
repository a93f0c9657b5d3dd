-- ===== src/Pcb/Tree.antt =====
-- The process trees of phase1/pcb.c: a block points to its parent and its first child, and the
-- children of one parent form a doubly linked list.
pub mod Family
pub mod Insert
pub mod Out
use kaya_project.Base.{Bool, ◌==◌, if◌then◌else◌, pure, ◌>>=◌, ◌>>◌, ◌&&◌}
use kaya_project.Machine.{Ptr, null, Command}
use kaya_project.Pcb.Table.{
  Pcbs, get_prnt, get_child, get_sib, get_prevsib, set_prnt, set_child, set_sib, set_prevsib,
}

unfoldable pub empty_child : Ptr → Command Pcbs Bool
unfolding get_child
empty_child p = do c ← get_child p; pure (c == null)

unfoldable pub insert_child : Ptr → Ptr → Command Pcbs (Unit {0})
unfolding empty_child get_child set_prnt set_child set_sib set_prevsib
insert_child prnt p = do
  none_yet ← empty_child prnt
  if none_yet then (do set_child prnt p; set_prnt p prnt) else do
    first ← get_child prnt
    set_prevsib first p
    first' ← get_child prnt
    set_sib p first'
    set_prnt p prnt
    set_child prnt p

unfoldable pub unlink_child : (p sib prevsib : Ptr) → Command Pcbs (Unit {0})
unfolding get_prnt get_sib get_prevsib set_child set_sib set_prevsib
unlink_child p sib prevsib =
    if sib == null && prevsib == null
    then (do parent ← get_prnt p; set_child parent null)
    else if sib == null
    then set_sib prevsib null
    else if prevsib == null
    then (do parent ← get_prnt p; set_child parent sib; s ← get_sib p; set_prevsib s null)
    else do set_prevsib sib prevsib; before ← get_prevsib p; after ← get_sib p; set_sib before after

unfoldable pub out_child : Ptr → Command Pcbs Ptr
unfolding get_prnt get_sib get_prevsib set_prnt
out_child p = do
  parent ← get_prnt p
  if parent == null then pure null else do
    sib ← get_sib p
    prevsib ← get_prevsib p
    unlink_child p sib prevsib
    set_prnt p null
    pure p

unfoldable pub remove_child : Ptr → Command Pcbs Ptr
unfolding empty_child get_child
remove_child p = do
  none_left ← empty_child p
  if none_left then pure null else do c ← get_child p; out_child c
