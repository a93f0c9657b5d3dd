-- ===== src/P2test/Traps.antt =====
-- p5 of phase2/p2test.c with its trap handlers, p6 and p7.
use Prim.Native.Nat.{bit_and, bit_or}
use kaya_project.Base.{
  ℕ, ◌*◌, ◌/◌, ◌%◌, ◌^◌, ◌==◌, if◌then◌else◌, when, stop, ◌>>=◌, ◌>>◌, pure, Cmd,
}
use kaya_project.Base.Words.{word_mod, add32, sub32}
use kaya_project.Machine.{Word}
use kaya_project.Kernel.Access.{sp, t9, set_reg}
use kaya_project.P2test.{
  Host, Finish, loads, Area, Code, word, area, v_sem, p_sem, request, panic, print, endp4, blkp4,
  endp5, p5_stack, pstat_n, mstat_n, sstat_n, pstat_o, mstat_o, sstat_o, p5a_code, p5b_code,
  p5prog_code, p5mm_code, p5sys_code,
}
use kaya_project.P2test.Start.{quarter_page, bad_address}
use kaya_project.P2test.Clock.{wait_half}

-- `(exeCode & CAUSEMASK) >> 2`
abbrev pub exception_code : Word → Word
exception_code cause = bit_and cause 0xff / 4

-- `(p5status << 28) >> 31`
abbrev pub user_mode_bit : Word → Word
user_mode_bit status = (status * 2 ^ 28) % word_mod / 2 ^ 31

-- KUPBITOFF
abbrev pub kernel_mode_mask : Word
kernel_mode_mask = 0xffff_fff7

-- VMOFF
abbrev pub vm_off_mask : Word
vm_off_mask = 0xf8ff_ffff

-- KUPBITON
abbrev pub user_mode_on : Word
user_mode_on = 8

module _ {S : Type 0} (host : Host S) where
  -- `LDST(a)`
  abbrev pub load_area : Area → Cmd Finish S (Unit {0})
  load_area a = do i ← host.get_area a; λ h. stop (loads i) h

  -- `a.s_pc = a.s_t9 = code`
  abbrev pub go_to : Area → Code → Cmd Finish S (Unit {0})
  go_to a code = do
    i ← host.get_area a
    host.set_area a (record (set_reg i t9 (host.address code)) { pc = host.address code })

  -- `a.s_status = a.s_status & KUPBITOFF`
  abbrev pub kernel_mode : Area → Cmd Finish S (Unit {0})
  kernel_mode a = do
    i ← host.get_area a
    host.set_area a (record i { status = bit_and i.status kernel_mode_mask })

  unfoldable pub p5prog : Cmd Finish S (Unit {0})
  unfolding print
  p5prog = do
    i ← host.get_area pstat_o
    exe_code ← pure (exception_code i.cause)
    if exe_code == 6
        then (do print host "Access non-existent memory\n"; go_to pstat_o p5a_code)
        else if exe_code == 10
        then (do print host "privileged instruction\n"; kernel_mode pstat_o; go_to pstat_o p5b_code)
        else if exe_code == 4
        then (do
          print host "Address Error: KSegOS w/KU=1\n"
          kernel_mode pstat_o
          go_to pstat_o p5b_code)
        else print host "other program trap\n"
    load_area pstat_o

  unfoldable pub p5mm : Cmd Finish S (Unit {0})
  unfolding print sub32
  p5mm = do
    print host "memory management trap\n"
    i ← host.get_area mstat_o
    host.set_area mstat_o (record i { status = bit_or (bit_and i.status vm_off_mask) user_mode_on })
    go_to mstat_o p5b_code
    stack ← host.get p5_stack
    j ← host.get_area mstat_o
    host.set_area mstat_o (set_reg j sp (sub32 stack quarter_page))
    load_area mstat_o

  unfoldable pub p5sys : Cmd Finish S (Unit {0})
  unfolding print add32
  p5sys = do
    i ← host.get_area sstat_o
    p5_status ← pure (user_mode_bit i.status)
    if p5_status == 1
        then print host "High level SYS call from user mode process\n"
        else when (p5_status == 0) (print host "High level SYS call from kernel mode process\n")
    j ← host.get_area sstat_o
    host.set_area sstat_o (record j { pc = add32 j.pc 4 })
    load_area sstat_o

  -- `STST(&a); a.s_pc = a.s_t9 = code;`
  unfoldable pub set_handler : Area → Code → Cmd Finish S (Unit {0})
  set_handler a code = do now ← host.store_state; host.set_area a now; go_to a code

  -- `SYSCALL(SPECTRAPVEC, type, old, new)`
  unfoldable pub specify : Word → (old new : Area) → Cmd Finish S (Unit {0})
  specify type old new = do result ← host.serve 5 (word type) (area old) (area new); pure tt

  unfoldable pub p5 : Cmd Finish S (Unit {0})
  unfolding print set_handler specify add32
  p5 = do
    print host "p5 starts\n"
    set_handler pstat_n p5prog_code
    set_handler mstat_n p5mm_code
    set_handler sstat_n p5sys_code
    specify 1 pstat_o pstat_n
    specify 0 mstat_o mstat_n
    specify 2 sstat_o sstat_n
    value ← host.load 0
    host.store 0 (add32 value 1)

  unfoldable pub p5a : Cmd Finish S (Unit {0})
  p5a = do status ← host.get_status; host.set_status (bit_or status 0x300_0000)

  unfoldable pub p5b : (fuel : ℕ) → Cmd Finish S (Unit {0})
  unfolding print specify wait_half
  p5b fuel = do
    request host 9 (word 0)
    p_sem host endp4
    wait_half host fuel 0 0
    v_sem host blkp4
    v_sem host endp5
    specify 1 pstat_o pstat_n
    print host "error: p5 didn't terminate\n"
    panic host

  unfoldable pub p6 : Cmd Finish S (Unit {0})
  unfolding print
  p6 = do
    print host "p6 starts\n"
    request host 9 (word 0)
    print host "error: p6 alive after SYS9() with no trap vector\n"
    panic host

  unfoldable pub p7 : Cmd Finish S (Unit {0})
  unfolding print
  p7 = do
    print host "p7 starts\n"
    host.store bad_address 0
    print host "error: p7 alive after program trap with no trap vector\n"
    panic host
