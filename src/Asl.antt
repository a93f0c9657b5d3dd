-- ===== src/Asl.antt =====
-- phase1/asl.c: the table of semaphore descriptors, the active semaphore list and its operations.
pub mod Table
pub mod List
pub mod Blocked
pub mod Map
