-- ===== src/Kernel.antt =====
-- The phase 2 kernel: phase2/initial.c, scheduler.c, exceptions.c and interrupts.c over the
-- tables of phase 1.
pub mod State
pub mod Invariant
pub mod Safe
pub mod Access
pub mod Scheduler
pub mod Terminate
pub mod Syscalls
pub mod Exceptions
pub mod Devices
pub mod Interrupts
pub mod Initial
