-- ===== src/Selftest.antt =====
-- phase1/p1test.c: the test program of phase 1, which drives pcb.c and asl.c from the outside.
pub mod Program
pub mod Queues
pub mod Trees
pub mod Semaphores
pub mod Main
pub mod Passes
pub mod Terminal
mod Code
