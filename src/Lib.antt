-- ===== src/Lib.antt =====
-- A model of the Kaya kernel, a teaching operating system for the uMPS2 machine, phases 1 and 2,
-- and of their test programs and those of phase 3.
--
-- Parts. phase1/pcb.c keeps a table of 20 process control blocks: queues of them (circular, doubly
-- linked, with a tail pointer), a free list and the trees of processes. phase1/asl.c keeps the
-- active semaphore list: descriptors sorted by the address of their semaphore, each with a queue of
-- the processes blocked on it. phase2 is the kernel above them: initial.c starts it, scheduler.c
-- chooses the next process, exceptions.c serves system calls and passes other exceptions up, and
-- interrupts.c serves the devices, the end of a quantum and the pseudo clock. phase3 has test programs
-- that run as user processes, above a support level that is not finished.
--
-- Files. Machine: the types of h/types.h and constants of h/const.h. Pcb/Table: the fields of pcb_t,
-- one map for each. Pcb/Queue: emptyProcQ, mkEmptyProcQ, headProcQ, insertProcQ, outProcQ and
-- removeProcQ. Pcb/Tree: emptyChild, insertChild, outChild, removeChild. Pcb/Pool: cleanPcb,
-- freePcb, allocPcb, initPcbs. Asl/Table: the fields of semd_t. Asl/List: cleanSemd, freeSemd,
-- allocateSemd, searchSemd, initASL. Asl/Blocked: insertBlocked, outBlocked, removeBlocked,
-- headBlocked. Asl/Map: the list as a map from semaphores to the processes that wait for them.
-- Kernel/State: the globals of phase2/initial.c, memory and device registers.
-- Kernel/Access: reads and writes of these, STCK, LDIT and the copies of states. Kernel/Scheduler:
-- scheduler. Kernel/Terminate: terminateRecursively and SYS 2;
-- its children follow the queues of the kernel through the death of a tree of processes. Kernel/Syscalls: the other system
-- calls. Kernel/Exceptions: passUpOrDie, the handlers and the dispatch (Calls: the
-- handler in kernel mode, down to what its call ends in). Kernel/Devices and
-- Kernel/Interrupts: interrupts.c. Kernel/Initial: main. Kernel/Invariant: where each process stands
-- (ready, waiting, free or current), and how the operations of phase 1 move it. Kernel/Safe: handlers
-- that keep this, and the kernels that main reaches through them; what kills processes is not among
-- these: SYS 2, a second SYS 5 for the same type and an exception without a handler. Selftest:
-- phase1/p1test.c. User: what a user process asks for, and phase3/print.c; User/Fib and User/Programs:
-- fibTest.c, printerTest.c, readTest.c, todTest.c and swapTest.c; User/Disk: diskTest.c;
-- User/Exchange: pvTestA.c and pvTestB.c. P2test: the globals of phase2/p2test.c and its print;
-- P2test/Start: test; P2test/Clock: p2 and p3; P2test/Trees: p4 and the tree of p8; P2test/Traps: p5
-- with its handlers, p6 and p7. The modules below these hold the proofs; Tests runs the model and instantiates the
-- theorems. The names are those of the C in snake case.
--
-- How. A function that changes state is a command (Base/Monad): from a state it returns a result
-- and a new state, leaves the kernel by LDST, HALT, PANIC or WAIT, which do not return, faults at a
-- NULL pointer, or runs out of fuel. A handler that returns has loaded no state. A pointer to a
-- block is the number of its cell, NULL is 0xFFFFFFFF, words are numbers below 2 ^ 32 with the
-- wrap-around written out. A pointer passed by address is an argument and a result. Memory is typed:
-- semaphores, states and blocks do not overlap. The two halves of the machine that the code calls
-- and that are not in the repository, libumps and the bus, are exits, a list of calls made, a
-- stream of clock readings and arrays of registers. A user process is a command over a system and a
-- machine that are a parameter (Os), with the numbers of phase3/h/tconst.h, which is not in the
-- repository either; the theorems name what they ask of it, or take a system that writes down what it
-- is asked for (User/Exchange/Record; P2test/Print for the processes of p2test.c). User/Exchange/Turns:
-- what pvTestA and pvTestB do to the semaphores and the buffer that they share, in any order of turns. The processes of p2test.c share their globals and run one between
-- the other, so they read and write them through a parameter too (Host).
--
-- Fuel. outProcQ searches max_proc rounds at most, and a queue has at most 20 members, since they
-- are distinct cells (Base/Erase). searchSemd has max_proc + 2 rounds, one for each descriptor.
-- terminateRecursively has two units for each process and one more
-- (Kernel/Terminate/Loop). The loop of the pseudo clock has
-- max_proc + 1 rounds, and at most 20 processes wait (Kernel/Interrupts/Wake/Tick). The busy waiting of
-- termprint has the rounds it is given, 1000 in main2. The loop of print has 100 rounds, and the strings of the
-- programs are shorter. fib has the levels that it is given, 7 in fibTest, the loop of diskTest one round
-- more than MILLION, and the loops of pvTestA and pvTestB and the waits of p3 and p5b what they are given.
--
-- Not modelled: what runs after LDST or WAIT, the machine itself, the unfinished support level of
-- phase3, which does not compile.
pub mod Base
pub mod Machine
pub mod Pcb
pub mod Asl
pub mod Kernel
pub mod Selftest
pub mod User
pub mod P2test
pub mod Tests
