-- ===== src/Pcb.antt =====
-- phase1/pcb.c: the table of process control blocks, process queues, process trees and the pool
-- of free blocks.
pub mod Table
pub mod Queue
pub mod Tree
pub mod Pool
