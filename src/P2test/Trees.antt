-- ===== src/P2test/Trees.antt =====
-- p4 and the tree of p8 of phase2/p2test.c.
use kaya_project.Base.{ℕ, zero, suc, ◌==◌, if◌then◌else◌, when, ◌>>=◌, ◌>>◌, pure, Cmd}
use kaya_project.Base.Words.{inc32, sub32}
use kaya_project.Kernel.Access.{sp, set_reg}
use kaya_project.P2test.{
  Host, Finish, v_sem, p_sem, create, die, panic, print, p4inc, synp4, blkp4, endp4, endcreate,
  endp8, blkp8, p4state, child1state, child2state, gchild1state, gchild2state, gchild3state,
  gchild4state,
}
use kaya_project.P2test.Start.{quarter_page}

module _ {S : Type 0} (host : Host S) where
  -- The switch on p4inc.
  unfoldable pub greet_p4 : Cmd Finish S (Unit {0})
  unfolding print inc32
  greet_p4 = do
    i ← host.get p4inc
    if i == 1
        then (do
          print host "first incarnation of p4 starts\n"
          j ← host.get p4inc
          host.set p4inc (inc32 j))
        else when (i == 2) (print host "second incarnation of p4 starts\n")

  unfoldable pub p4 : Cmd Finish S (Unit {0})
  unfolding print greet_p4 sub32
  p4 = do
    greet_p4
    v_sem host synp4
    p_sem host blkp4
    p_sem host synp4
    a ← host.get_area p4state
    host.set_area p4state (set_reg a sp (sub32 (a.reg sp) quarter_page))
    create host p4state
    p_sem host synp4
    print host "p4 is OK\n"
    v_sem host endp4
    die host
    print host "error: p4 didn't terminate\n"
    panic host

  -- A P operation on endcreate for each of `n` leaves.
  unfoldable pub await_leaves : ℕ → Cmd Finish S (Unit {0})
  await_leaves zero = pure tt
  await_leaves (suc n) = do p_sem host endcreate; await_leaves n

  -- NOLEAVES
  abbrev pub leaf_count : ℕ
  leaf_count = 4

  unfoldable pub p8root : Cmd Finish S (Unit {0})
  unfolding print await_leaves
  p8root = do
    print host "p8root starts\n"
    create host child1state
    create host child2state
    await_leaves leaf_count
    v_sem host endp8
    die host

  unfoldable pub child1 : Cmd Finish S (Unit {0})
  unfolding print
  child1 = do
    print host "child1 starts\n"
    create host gchild1state
    create host gchild2state
    p_sem host blkp8

  unfoldable pub child2 : Cmd Finish S (Unit {0})
  unfolding print
  child2 = do
    print host "child2 starts\n"
    create host gchild3state
    create host gchild4state
    p_sem host blkp8

  unfoldable pub p8leaf : Cmd Finish S (Unit {0})
  unfolding print
  p8leaf = do print host "leaf process starts\n"; v_sem host endcreate; p_sem host blkp8
