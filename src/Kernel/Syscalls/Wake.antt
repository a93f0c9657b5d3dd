-- ===== src/Kernel/Syscalls/Wake.antt =====
-- SYS 3 of phase2/exceptions.c when it wakes a process.
use kaya_project.Base.{
  put_back, ◌<◌, ◌≡◌, refl, ap, ◌∙◌, true, List, [], ◌∷◌, ◌==◌, not, ==-refl, stop, update,
  and_then, when,
}
use kaya_project.Base.Monad.{Run, ◌>>◌, ◌>>=◌}
use kaya_project.Base.Words.{inc32, is_nonpositive}
use kaya_project.Asl.Map.Remove.{remove_blocked-nobody}
use kaya_project.Machine.{Ptr, Addr, Exit, null, max_int, ldst}
use kaya_project.Pcb.Queue.Links.{cell_not_null}
use kaya_project.Asl.Blocked.{remove_blocked}
use kaya_project.Asl.Map.{Waiting}
use kaya_project.Kernel.State.{Kernel}
use kaya_project.Kernel.Access.{on_asl, make_ready, get_pcb, set_pcb, sys_call_old, a1}
use kaya_project.Kernel.Syscalls.{resume, verhogen}
use kaya_project.Kernel.Invariant.{IsKernel}
use kaya_project.Kernel.Invariant.Wake.{Woken, wakes}
use kaya_project.Kernel.Invariant.Fields.{info_of, IsKernel-same, get_pcb-ok, set_pcb-ok}

module _ {k : Kernel} {ready pool : List Ptr} {w : Waiting} (v : IsKernel k ready w pool) where
  abbrev mutex : Addr
  mutex = (k.states sys_call_old).reg a1

  -- The semaphore is given back.
  abbrev gave : Kernel
  gave = record k { ints = update k.ints mutex (inc32 (k.ints mutex)) }

  abbrev woke : Run Exit Kernel Ptr → Run Exit Kernel (Unit {0})
  woke r =
      and_then
        (and_then r λ temp.
          when (not (temp == null))
            (get_pcb temp >>= λ i. set_pcb temp (record i { sem_add = null }) >> make_ready temp))
        λ _. resume

  verhogen-woke :
      is_nonpositive (inc32 (k.ints mutex)) ≡ true
      → verhogen k ≡ woke (on_asl (remove_blocked mutex) gave)
  unfolding verhogen is_nonpositive
  verhogen-woke low = rw (==-refl mutex, low) refl

  pub verhogen-wakes :
      (x : Ptr) (xs : List Ptr)
      → 0 < mutex
      → mutex < max_int
      → is_nonpositive (inc32 (k.ints mutex)) ≡ true
      → w mutex ≡ x ∷ xs
      → (g : Kernel) × (verhogen k ≡ stop (ldst (k.states sys_call_old)) g)
        × Woken
            (record k { ints = update k.ints mutex (inc32 (k.ints mutex)) })
            ready
            w
            pool
            mutex
            x
            (record (info_of k x) { sem_add = null })
            g
  unfolding resume
  verhogen-wakes x xs pos top low wait =
      let s =
        wakes {k = gave} (IsKernel-same refl refl v) mutex x xs (λ i. record i { sem_add = null })
          (λ n. n) pos top wait in
      (
        s.end,
        verhogen-woke low
            ∙ ap woke s.removes
            ∙ rw (cell_not_null x s.apart.cell) (
                rw (get_pcb-ok s.free x s.apart.cell) (
                  rw (set_pcb-ok s.free x s.apart.cell) (
                    rw s.readies
                      (ap (λ n. stop (ldst (Kernel.states n sys_call_old)) s.end) s.woken.rest)))),
        s.woken,
      )

  -- SYS 3 when nobody waits for the semaphore, though it stays nonpositive: the caller goes on.
  pub verhogen-nobody :
      0 < mutex
      → mutex < max_int
      → is_nonpositive (inc32 (k.ints mutex)) ≡ true
      → w mutex ≡ []
      → verhogen k ≡ stop (ldst (k.states sys_call_old)) gave
  unfolding resume
  verhogen-nobody pos top low none =
      verhogen-woke low
      ∙ ap woke (
          ap (put_back (λ a. record gave { asl = a }))
            (remove_blocked-nobody mutex v.waits pos top none))
