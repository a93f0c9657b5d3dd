-- ===== src/User/Exchange.antt =====
-- phase3/pvTestA.c, the consumer, and phase3/pvTestB.c, the producer: a message goes from one to the
-- other character by character, through the segment that they share.
pub mod Turns
pub mod Record
pub mod Send
pub mod Receive
use Prim.Native.String.{String}
use kaya_project.Base.{ℕ, zero, suc, ◌==◌, if◌then◌else◌, out_of_fuel, stop, pure, ◌>>=◌, ◌>>◌}
use kaya_project.Base.Words.{add32}
use kaya_project.Machine.{Addr, Word}
use kaya_project.User.{
  Call, Os, User, literal, at, word, on_system, syscall, terminate, print, char_at, halted,
}
use kaya_project.User.Programs.{say}

-- The message of the producer.
abbrev pub message : String
message = "virtual synch OK\n"

-- The call on the semaphore at an address.
abbrev pub on_semaphore : Word → Addr → Call
on_semaphore n sem = record { number = n; first = word sem; second = 0; third = 0 }

module _ {S : Type 0} (os : Os S) where
  -- The addresses in the shared segment.
  abbrev pub hold : Addr
  hold = os.seg3

  abbrev pub empty : Addr
  empty = add32 os.seg3 4

  abbrev pub full : Addr
  full = add32 os.seg3 8

  abbrev pub charbuff : Addr
  charbuff = add32 os.seg3 12

  -- `SYSCALL(PSEMVIRT, sem, 0, 0)` and `SYSCALL(VSEMVIRT, sem, 0, 0)`
  unfoldable pub p_virtual : Addr → User S Word
  p_virtual sem = syscall os os.p_sem_virt (word sem) 0 0

  unfoldable pub v_virtual : Addr → User S Word
  v_virtual sem = syscall os os.v_sem_virt (word sem) 0 0

  -- The loop of the consumer, on fuel; `p` points into its buffer.
  unfoldable pub receive : (rounds : ℕ) → (p : Addr) → User S (Unit {0})
  unfolding p_virtual v_virtual
  receive zero p = λ _. out_of_fuel
  receive (suc n) p = do
    passed ← p_virtual full
    c ← on_system os (os.load_char charbuff)
    on_system os (os.store_char p c)
    say os "."
    released ← v_virtual empty
    c' ← on_system os (os.load_char p)
    if c' == 0 then pure tt else receive n (suc p)

  -- `msg` is the address of the local buffer.
  unfoldable pub pv_test_a : (rounds : ℕ) → (msg : Addr) → User S (Unit {0})
  unfolding receive p_virtual
  pv_test_a rounds msg = do
    say os "pvATest starts\n"
    on_system os (os.store hold 0)
    on_system os (os.store full 0)
    on_system os (os.store empty 1)
    passed ← p_virtual hold
    say os "pvATest is free\n"
    receive rounds msg
    say os "\n"
    print os os.write_terminal (at msg)
    say os "pvATest completed\n"
    terminate os
    say os "pvATest error: did not terminate\n"
    λ u. stop halted u

  -- The loop of the producer, on fuel, from the character `i` of the message on.
  unfoldable pub send : (rounds : ℕ) → String → ℕ → User S (Unit {0})
  unfolding p_virtual v_virtual char_at
  send zero msg i = λ _. out_of_fuel
  send (suc n) msg i = do
    passed ← p_virtual empty
    c ← char_at os (literal msg) i
    on_system os (os.store_char charbuff c)
    say os "."
    released ← v_virtual full
    if c == 0 then pure tt else send n msg (suc i)

  -- `mysem` is the address of the local variable.
  unfoldable pub pv_test_b : (rounds : ℕ) → (mysem : Addr) → User S (Unit {0})
  unfolding send p_virtual v_virtual
  pv_test_b rounds mysem = do
    say os "pvBTest starts\n"
    delayed ← syscall os os.delay (word 5) 0 0
    released ← v_virtual hold
    say os "pvBTest is free\n"
    send rounds message 0
    say os "\npvBTest finished sending\n"
    say os "pvBTest completed\n"
    on_system os (os.store mysem 0)
    passed ← p_virtual mysem
    say os "pvBTest error: private sem block did not terminate\n"
    terminate os
