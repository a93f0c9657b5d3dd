-- ===== src/Kernel/Interrupts/Route.antt =====
-- Which semaphore an interrupt of phase2/interrupts.c signals, and what becomes of the interrupted
-- process when nobody waits.
use kaya_project.Base.{
  ◌+◌, ◌-◌, ◌*◌, ◌%◌, ◌≤◌, ◌<◌, ◌≡◌, ◌≢◌, true, false, arith, if◌then◌else◌, ok, ◌==◌, update, ◌&&◌,
  ltb, inl, inr, Bool-cases, ==-refl,
}
use kaya_project.Base.Words.{inc32, is_nonpositive}
use kaya_project.Machine.{Word, Addr}
use kaya_project.Kernel.State.{Kernel, Device, Layout}
use kaya_project.Kernel.Access.{dev_sem}
use kaya_project.Kernel.Syscalls.{get_sem_array_num}
use kaya_project.Kernel.Devices.{
  ready, ack, lowest_device, get_device_number, get_dev_reg_index, ack_terminal,
}
use kaya_project.Kernel.Devices.Lines.{get_sem_array_num-eq, get_dev_reg_index-eq}
use kaya_project.Kernel.Interrupts.{ack_device, wake_for_device, device_interrupt}

-- The kernel with one device register given anew.
abbrev pub with_device : Word → Device → Kernel → Kernel
with_device i d k = record k { bus = record (k.bus) { devreg = update k.bus.devreg i d } }

module _ (k : Kernel) (d : Word) (few : d < 8) where
  -- A disk, tape, network or printer interrupt is acknowledged, and signals the semaphore of its
  -- device with the device's status.
  pub device_interrupt-plain :
      (l : Word)
      → 3 ≤ l
      → l < 7
      → lowest_device (k.bus.line_map l) ≡ d
      → let i = (l - 3) * 8 + d in
        device_interrupt l k
        ≡ wake_for_device
            (dev_sem k.layout i)
            (k.bus.devreg i).status
            (with_device i (record (k.bus.devreg i) { command = ack }) k)
  unfolding device_interrupt ack_device get_device_number
  device_interrupt-plain l lo hi low =
      rw (in_range, low, not_terminal, get_dev_reg_index-eq l d lo (omega arith) few, same_index)
    where
      in_range : (ltb 2 l && ltb l 8) ≡ true
      in_range = ground arith

      not_terminal : (l == 7) ≡ false
      not_terminal = ground arith

      same_index : get_sem_array_num l d 0 ≡ (l - 3) * 8 + d
      same_index = omega (arith, get_sem_array_num-eq l d 0 lo (omega arith) few (omega arith))

  module _ (low : lowest_device (k.bus.line_map 7) ≡ d) where
    abbrev terminal : Device
    terminal = k.bus.devreg (32 + d)

    dev_reg_index : get_dev_reg_index 7 d ≡ 32 + d
    dev_reg_index = omega (arith, get_dev_reg_index-eq 7 d (omega arith) (omega arith) few)

    transmit_index : get_sem_array_num 7 d 0 ≡ 32 + d
    transmit_index =
        omega (arith, get_sem_array_num-eq 7 d 0 (omega arith) (omega arith) few (omega arith))

    receive_index : get_sem_array_num 7 d 8 ≡ 40 + d
    receive_index =
        omega (arith, get_sem_array_num-eq 7 d 8 (omega arith) (omega arith) few (omega arith))

    -- The interrupt of a terminal whose transmitter is not READY is taken for the transmitter's.
    pub device_interrupt-transmit :
        (terminal.data0 % 16 == ready) ≡ false
        → device_interrupt 7 k
          ≡ wake_for_device
              (dev_sem k.layout (32 + d))
              terminal.data0
              (with_device (32 + d) (record terminal { data1 = ack }) k)
    unfolding device_interrupt ack_device ack_terminal get_device_number
    device_interrupt-transmit busy = rw (low, dev_reg_index, busy) (rw (busy, transmit_index))

    -- Otherwise the receiver is acknowledged. The semaphore is the receiver's only if the receiver
    -- is READY too; with a character received it is the transmitter's.
    pub device_interrupt-receive :
        (terminal.data0 % 16 == ready) ≡ true
        → device_interrupt 7 k
          ≡ wake_for_device
              (dev_sem k.layout (if terminal.status % 16 == ready then 40 + d else 32 + d))
              terminal.status
              (with_device (32 + d) (record terminal { command = ack }) k)
    unfolding device_interrupt ack_device ack_terminal get_device_number
    device_interrupt-receive idle =
        rw (low, dev_reg_index, idle)
          (elim (Bool-cases (terminal.status % 16 == ready)) [
            | inl e ↦ rw (e, receive_index)
            | inr e ↦ rw (e, transmit_index)
          ])

-- The semaphores of a terminal's two halves are different words.
pub dev_sem-halves : (l : Layout) (d : Word) → d < 8 → dev_sem l (32 + d) ≢ dev_sem l (40 + d)
unfolding dev_sem
dev_sem-halves l d few e = absurd (omega arith)

-- A V operation that leaves the semaphore positive: nobody waits, and the handler returns to its
-- caller, with no state loaded and no process scheduled.
pub wake_for_device-returns :
    (k : Kernel) (sem : Addr) (status : Word)
    → is_nonpositive (inc32 (k.ints sem)) ≡ false
    → wake_for_device sem status k
      ≡ ok tt (record k { ints = update k.ints sem (inc32 (k.ints sem)) })
unfolding wake_for_device is_nonpositive
wake_for_device-returns k sem status p = rw (==-refl sem, p)
