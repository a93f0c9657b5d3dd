-- ===== src/Kernel/Access.antt =====
-- Access to the kernel's globals and to memory, the macros STCK and LDIT of h/const.h, and the two
-- copies of a `state_t` in phase2/exceptions.c.
pub mod Copy
use kaya_project.Base.{
  ℕ, zero, suc, ◌+◌, ◌*◌, ◌-◌, ◌%◌, ◌∷◌, ok, put_back, update, pure, ◌>>=◌, ◌>>◌,
}
use kaya_project.Base.Words.{word_mod, add32, sub32, inc32, dec32, div_signed}
use kaya_project.Machine.{Ptr, Addr, Word, State, Info, Command, guarded}
use kaya_project.Pcb.Table.{get_info, set_info}
use kaya_project.Pcb.Queue.{insert_proc_q}
use kaya_project.Asl.Table.{Asl, on_pcbs}
use kaya_project.Kernel.State.{Device, Bus, Layout, Call, Kernel}

-- An operation of asl.c.
abbrev pub on_asl : {A : Type 0} → Command Asl A → Command Kernel A
on_asl m k = put_back (λ a. record k { asl = a }) (m k.asl)

-- A global, an array or a register, read.
abbrev pub read : {A : Type 0} → (Kernel → A) → Command Kernel A
read field k = ok (field k) k

-- A change of the state that cannot fault.
abbrev pub modify : (Kernel → Kernel) → Command Kernel (Unit {0})
modify f k = ok tt (f k)

abbrev pub get_current : Command Kernel Ptr
get_current k = ok k.current_process k

abbrev pub set_current : Ptr → Command Kernel (Unit {0})
set_current p k = ok tt (record k { current_process = p })

abbrev pub set_ready : Ptr → Command Kernel (Unit {0})
set_ready p k = ok tt (record k { ready_que = p })

-- `insertProcQ(&readyQue, p)`
unfoldable pub make_ready : Ptr → Command Kernel (Unit {0})
make_ready p = do
  tp ← read λ k. k.ready_que
  tp' ← on_asl (on_pcbs (insert_proc_q tp p))
  set_ready tp'

-- `*a`, for an `int *`.
abbrev pub get_int : Addr → Command Kernel Word
get_int a k = ok (k.ints a) k

abbrev pub set_int : Addr → Word → Command Kernel (Unit {0})
set_int a v k = ok tt (record k { ints = update k.ints a v })

-- `&(devSemTable[i])`
unfoldable pub dev_sem : Layout → Word → Addr
dev_sem l i = (l.dev_sem_table + 4 * i) % word_mod

-- The index of the pseudo clock's semaphore, EIGHTDEVLINES * DEVSPERLINE + DEVSPERLINE.
abbrev pub clock_index : ℕ
clock_index = 48

-- The number of semaphores in `devSemTable`.
abbrev pub dev_sem_count : ℕ
dev_sem_count = 49

abbrev pub get_state : Addr → Command Kernel State
get_state a k = ok (k.states a) k

abbrev pub set_state : Addr → State → Command Kernel (Unit {0})
set_state a s k = ok tt (record k { states = update k.states a s })

abbrev pub set_reg : State → ℕ → Word → State
set_reg s i v = record s { reg = update s.reg i v }

-- The fields of the process control block at `p`.
unfoldable pub get_pcb : Ptr → Command Kernel Info
unfolding get_info
get_pcb p = on_asl (on_pcbs (get_info p))

unfoldable pub set_pcb : Ptr → Info → Command Kernel (Unit {0})
unfolding set_info
set_pcb p i = on_asl (on_pcbs (set_info p i))

-- The registers' numbers in `s_reg`.
abbrev pub v0 : ℕ
v0 = 1

abbrev pub a0 : ℕ
a0 = 3

abbrev pub a1 : ℕ
a1 = 4

abbrev pub a2 : ℕ
a2 = 5

abbrev pub a3 : ℕ
a3 = 6

abbrev pub t9 : ℕ
t9 = 24

abbrev pub sp : ℕ
sp = 26

-- The addresses of the old and new areas.
abbrev pub interrupt_old : Addr
interrupt_old = 0x2000_0000

abbrev pub interrupt_new : Addr
interrupt_new = 0x2000_008c

abbrev pub tlb_mgmt_old : Addr
tlb_mgmt_old = 0x2000_0118

abbrev pub tlb_mgmt_new : Addr
tlb_mgmt_new = 0x2000_01a4

abbrev pub pgm_trap_old : Addr
pgm_trap_old = 0x2000_0230

abbrev pub pgm_trap_new : Addr
pgm_trap_new = 0x2000_02bc

abbrev pub sys_call_old : Addr
sys_call_old = 0x2000_0348

abbrev pub sys_call_new : Addr
sys_call_new = 0x2000_03d4

-- `STCK(T)`: the value for `T`.
unfoldable pub stck : Command Kernel Word
unfolding div_signed
stck k = ok (div_signed (k.bus.tod_lo k.reads) k.bus.timescale) (record k { reads = suc k.reads })

-- `LDIT(T)`
unfoldable pub ldit : Word → Command Kernel (Unit {0})
ldit t k =
    ok tt (record k { bus = record (k.bus) { interval_timer = (t * k.bus.timescale) % word_mod } })

abbrev pub call : Call → Command Kernel (Unit {0})
call c k = ok tt (record k { calls = c ∷ k.calls })

-- The loop of the copies: `n` registers left, at number `31 - n`.
unfoldable pub copy_regs : ℕ → (from to : ℕ → Word) → ℕ → Word
copy_regs zero from to = to
copy_regs (suc n) from to = copy_regs n from (update to (31 - suc n) (from (31 - suc n)))

-- The copy of `from` over `to`, field by field.
unfoldable pub copy_state : State → State → State
copy_state from to = record {
  asid = from.asid;
  cause = from.cause;
  status = from.status;
  pc = from.pc;
  reg = copy_regs 31 from.reg to.reg;
}

-- `stateCopy(from, to)` between two addresses.
unfoldable pub state_copy : Addr → Addr → Command Kernel (Unit {0})
state_copy from to = do s ← get_state from; t ← get_state to; set_state to (copy_state s t)

-- `stateCopyPCB(p, from)`, and `stateCopy(from, &(p->p_s))`.
unfoldable pub state_copy_pcb : Ptr → Addr → Command Kernel (Unit {0})
unfolding get_pcb set_pcb
state_copy_pcb p from = do
  s ← get_state from
  i ← get_pcb p
  set_pcb p (record i { p_s = copy_state s i.p_s })

-- `p->p_time = p->p_time + (currTime - time)`
unfoldable pub charge_time : Ptr → Word → Command Kernel (Unit {0})
unfolding get_pcb set_pcb add32 sub32
charge_time p curr_time = do
  i ← get_pcb p
  start ← read λ k. k.time
  set_pcb p (record i { time = add32 i.time (sub32 curr_time start) })
