-- ===== src/Kernel/Devices.antt =====
-- The devices in phase2/interrupts.c: which line and device interrupts, and the acknowledgement of
-- a terminal. An `int` that C leaves at NULL is the word 0xFFFFFFFF.
pub mod Lines
use kaya_project.Base.{
  ℕ, zero, suc, ◌+◌, ◌-◌, ◌%◌, Bool, not, ◌&&◌, ltb, ◌==◌, if◌then◌else◌, ok, fault, update, pure,
  ◌>>=◌, ◌>>◌,
}
use kaya_project.Base.Words.{add32, sub32, mul32, check_bit}
use kaya_project.Machine.{Word, null, Command}
use kaya_project.Kernel.State.{Device, Bus, Kernel}

-- The lowest line with a pending interrupt; line `i` is bit `8 + i` of the cause.
unfoldable pub get_line_number : Word → Word
unfolding check_bit
get_line_number cause =
    if check_bit cause 8
    then 0
    else if check_bit cause 9
    then 1
    else if check_bit cause 10
    then 2
    else if check_bit cause 11
    then 3
    else if check_bit cause 12
    then 4
    else if check_bit cause 13
    then 5
    else if check_bit cause 14
    then 6
    else if check_bit cause 15
    then 7
    else null

-- The ladder of `getDeviceNumber`: the lowest bit of a line's bit map that is set.
unfoldable pub lowest_device : Word → Word
unfolding check_bit
lowest_device map =
    if check_bit map 0
    then 0
    else if check_bit map 1
    then 1
    else if check_bit map 2
    then 2
    else if check_bit map 3
    then 3
    else if check_bit map 4
    then 4
    else if check_bit map 5
    then 5
    else if check_bit map 6
    then 6
    else if check_bit map 7
    then 7
    else null

-- Outside the lines 3 to 7 the C function returns no value: a fault.
unfoldable pub get_device_number : Word → Command Kernel Word
get_device_number line_number k =
    if ltb 2 line_number && ltb line_number 8
    then ok (lowest_device (k.bus.line_map line_number)) k
    else fault

unfoldable pub get_dev_reg_index : (line_number device_number : Word) → Word
unfolding add32 sub32 mul32
get_dev_reg_index line_number device_number = add32 (mul32 (sub32 line_number 3) 8) device_number

abbrev pub ready : Word
ready = 1

abbrev pub ack : Word
ack = 1

abbrev pub get_device : Word → Command Kernel Device
get_device i k = ok (k.bus.devreg i) k

abbrev pub set_device : Word → Device → Command Kernel (Unit {0})
set_device i d k = ok tt (record k { bus = record (k.bus) { devreg = update k.bus.devreg i d } })

-- The status of the half of the terminal that was acknowledged, and the new value of `*devSemNum`.
unfoldable pub ack_terminal : Word → Command Kernel (Word × Word)
unfolding add32
ack_terminal dev_sem_num = do
  d ← get_device dev_sem_num
  let transm_status = d.data0
  if not (transm_status % 16 == ready)
      then (do set_device dev_sem_num (record d { data1 = ack }); pure (transm_status, dev_sem_num))
      else do
        set_device dev_sem_num (record d { command = ack })
        pure (d.status, add32 dev_sem_num 8)
