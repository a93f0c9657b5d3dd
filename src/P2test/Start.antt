-- ===== src/P2test/Start.antt =====
-- `test` of phase2/p2test.c, the first process.
use Prim.Native.Nat.{bit_or}
use kaya_project.Base.{ℕ, zero, suc, ◌*◌, ◌==◌, when, ◌>>=◌, ◌>>◌, pure, Cmd}
use kaya_project.Base.Words.{sub32, inc32}
use kaya_project.Machine.{Addr, Word}
use kaya_project.Kernel.Access.{sp, t9, set_reg}
use kaya_project.P2test.{
  Host, Finish, Area, Code, word, area, v_sem, p_sem, create, panic, print, testsem, startp2, endp2,
  endp3, endp5, blkp4, endp8, p1p2synch, p8inc, p5_stack, creation, p2state, p3state, p4state,
  p5state, p6state, p7state, p8rootstate, child1state, child2state, gchild1state, gchild2state,
  gchild3state, gchild4state, p2_code, p3_code, p4_code, p5_code, p6_code, p7_code, p8root_code,
  child1_code, child2_code, p8leaf_code,
}

-- QPAGE
abbrev pub quarter_page : Word
quarter_page = 1024

-- `IEPBITON | CAUSEINTMASK`
abbrev pub interrupts_on : Word
interrupts_on = 0xfc04

-- BADADDR
abbrev pub bad_address : Addr
bad_address = 0xffff_ffff

module _ {S : Type 0} (host : Host S) where
  -- The state `a` of a process that starts at `code`, with its stack `gap` below that of `above`.
  unfoldable pub set_up : Area → (above : Area) → (gap : Word) → Code → Cmd Finish S (Unit {0})
  unfolding sub32
  set_up a above gap code = do
    now ← host.store_state
    host.set_area a now
    b ← host.get_area above
    i ← host.get_area a
    start ← pure (host.address code)
    host.set_area a (record i {
      reg = (set_reg (set_reg i sp (sub32 (b.reg sp) gap)) t9 start).reg;
      pc = start;
      status = bit_or i.status interrupts_on;
    })

  unfoldable pub set_up_all : Cmd Finish S (Unit {0})
  unfolding set_up
  set_up_all = do
    set_up p2state p2state quarter_page p2_code
    set_up p3state p2state quarter_page p3_code
    set_up p4state p3state quarter_page p4_code
    set_up p5state p4state (2 * quarter_page) p5_code
    b ← host.get_area p5state
    host.set p5_stack (b.reg sp)
    set_up p6state p5state (2 * quarter_page) p6_code
    set_up p7state p6state quarter_page p7_code
    set_up p8rootstate p7state quarter_page p8root_code
    set_up child1state p8rootstate quarter_page child1_code
    set_up child2state child1state quarter_page child2_code
    set_up gchild1state child2state quarter_page p8leaf_code
    set_up gchild2state gchild1state quarter_page p8leaf_code
    set_up gchild3state gchild2state quarter_page p8leaf_code
    set_up gchild4state gchild3state quarter_page p8leaf_code

  -- The loop on p8inc, `n` rounds left.
  unfoldable pub create_p8 : ℕ → Cmd Finish S (Unit {0})
  unfolding inc32 print
  create_p8 zero = pure tt
  create_p8 (suc n) = do
    result ← host.serve 1 (area p8rootstate) (word 0) (word 0)
    host.set creation result
    code ← host.get creation
    when (code == 0xffff_ffff) (do print host "error in process termination\n"; panic host)
    p_sem host endp8
    i ← host.get p8inc
    host.set p8inc (inc32 i)
    create_p8 n

  unfoldable pub test : Cmd Finish S (Unit {0})
  unfolding print set_up_all create_p8
  test = do
    v_sem host testsem
    print host "p1 v(testsem)\n"
    set_up_all
    create host p2state
    print host "p2 was started\n"
    v_sem host startp2
    p_sem host endp2
    synch ← host.get p1p2synch
    when (synch == 0) (print host "error: p1/p2 synchronization bad\n")
    create host p3state
    print host "p3 is started\n"
    p_sem host endp3
    create host p4state
    create host p5state
    create host p6state
    create host p7state
    p_sem host endp5
    print host "p1 knows p5 ended\n"
    p_sem host blkp4
    host.set p8inc 0
    create_p8 4
    print host "p1 finishes OK -- TTFN\n"
    host.store bad_address 0
    print host "error: p1 still alive after progtrap & no trap vector\n"
    panic host
