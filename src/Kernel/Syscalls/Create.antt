-- ===== src/Kernel/Syscalls/Create.antt =====
-- SYS 1 of phase2/exceptions.c when the pool is empty, and SYS 3 and SYS 4 on a semaphore that
-- blocks and wakes nobody.
use kaya_project.Base.{◌≡◌, false, [], ok, stop, update, ==-refl}
use kaya_project.Base.Words.{inc32, dec32, is_negative, is_nonpositive}
use kaya_project.Machine.{Addr, ldst}
use kaya_project.Pcb.Pool.Cycle.{IsPool, alloc_pcb-nil}
use kaya_project.Kernel.State.{Kernel}
use kaya_project.Kernel.Access.{v0, a1, sys_call_old, set_reg}
use kaya_project.Kernel.Syscalls.{create_process, verhogen, passeren}

-- With no free block SYS 1 writes -1 into the caller's v0 and returns: no state is loaded, so the
-- caller is not resumed.
pub create_process-full :
    (k : Kernel)
    → IsPool k.asl.pcbs []
    → create_process k
      ≡ ok tt (record k {
        states = update k.states sys_call_old (set_reg (k.states sys_call_old) v0 0xffff_ffff);
      })
unfolding create_process
create_process-full k q = rw (alloc_pcb-nil k.asl.pcbs q)

module _ (k : Kernel) where
  -- The semaphore that the caller names.
  abbrev mutex : Addr
  mutex = (k.states sys_call_old).reg a1

  -- A V operation that leaves the semaphore positive adds one and resumes the caller.
  pub verhogen-positive :
      is_nonpositive (inc32 (k.ints mutex)) ≡ false
      → verhogen k
        ≡ stop
            (ldst (k.states sys_call_old))
            (record k { ints = update k.ints mutex (inc32 (k.ints mutex)) })
  unfolding verhogen is_nonpositive
  verhogen-positive p = rw (==-refl mutex, p)

  -- A P operation that does not take the semaphore below 0 takes one and resumes the caller.
  pub passeren-nonnegative :
      is_negative (dec32 (k.ints mutex)) ≡ false
      → passeren k
        ≡ stop
            (ldst (k.states sys_call_old))
            (record k { ints = update k.ints mutex (dec32 (k.ints mutex)) })
  unfolding passeren is_negative
  passeren-nonnegative p = rw (==-refl mutex, p)
