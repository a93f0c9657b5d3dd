-- ===== src/Kernel/Interrupts/Early.antt =====
-- The V operation of a device's interrupt in phase2/interrupts.c, before anybody waits for it, and
-- SYS 8 of phase2/exceptions.c behind it.
use kaya_project.Base.{
  inl, inr, Bool-cases, eq_of_==, ◌<◌, ◌≡◌, refl, false, List, ◌==◌, ◌&&◌, if◌then◌else◌, arith,
  ==-refl, ok, update, Returns, returns,
}
use kaya_project.Base.Words.{inc32, dec32, is_negative, is_nonpositive}
use kaya_project.Machine.{Ptr, Addr, Word}
use kaya_project.Asl.Map.{Waiting}
use kaya_project.Kernel.State.{Kernel}
use kaya_project.Kernel.Access.{dev_sem, a1, a2, a3, sys_call_old, copy_state}
use kaya_project.Kernel.Syscalls.{get_sem_array_num, wait_for_io_device}
use kaya_project.Kernel.Syscalls.Sleep.Device.{wait_for_io_device-nonnegative}
use kaya_project.Kernel.Interrupts.{wake_for_device}
use kaya_project.Kernel.Interrupts.Route.{wake_for_device-returns}
use kaya_project.Kernel.Invariant.{IsRunning}
use kaya_project.Kernel.Invariant.Fields.{info_of, IsKernel-same, IsKernel-with_info}

positive : (a : Word) → a < 0x7fff_ffff → is_nonpositive (inc32 a) ≡ false
unfolding is_nonpositive is_negative inc32
positive a h = ground arith

undone : (a : Word) → a < 0x7fff_ffff → dec32 (inc32 a) ≡ a
unfolding inc32 dec32
undone a h = omega arith

nonnegative : (a : Word) → a < 0x7fff_ffff → is_negative (dec32 (inc32 a)) ≡ false
unfolding is_negative inc32 dec32
nonnegative a h = rw (undone a h) (ground arith)

-- A word written twice, the second time with what it had.
restored :
    (f : Addr → Word) (d : Addr)
    → f d < 0x7fff_ffff
    → (s : Addr) → update (update f d (inc32 (f d))) d (dec32 (update f d (inc32 (f d)) d)) s ≡ f s
restored f d h s = elim (Bool-cases (s == d)) [
  | inl e ↦ rw (e, ==-refl d, undone (f d) h, eq_of_== s d e) refl
  | inr e ↦ rw e refl
]

module _ {k : Kernel} {ready pool : List Ptr} {w : Waiting} (v : IsRunning k ready w pool)
    (status : Word) where
  -- The semaphore of the device that the arguments of the current process name.
  abbrev device : Addr
  device =
      let r = (k.states sys_call_old).reg in
      dev_sem k.layout (get_sem_array_num (r a1) (r a2) (if r a1 == 7 && r a3 == 1 then 8 else 0))

  -- The kernel that the interrupt leaves.
  abbrev pub early : Kernel
  early = record k { ints = update k.ints device (inc32 (k.ints device)) }

  early-IsRunning : IsRunning early ready w pool
  early-IsRunning = record { kernel = IsKernel-same refl refl v.kernel; current = v.current }

  -- The caller is still the current process and waits nowhere, and was not told the status.
  pub record Forgotten (g : Kernel) : Type 0 where
    pub running : IsRunning g ready w pool
    pub current : g.current_process ≡ k.current_process
    pub states : g.states ≡ k.states
    pub saved :
        (info_of g k.current_process).p_s
        ≡ copy_state (k.states sys_call_old) (info_of k k.current_process).p_s
    pub ints : (s : Addr) → g.ints s ≡ k.ints s
    pub soft_blocks : g.soft_block_count ≡ k.soft_block_count

  -- In a kernel with its invariant, where the semaphore of the device that the current process names
  -- in its registers is between 0 and 2 ^ 31 - 2: the V operation of that device's interrupt comes
  -- back with no state loaded, and behind it SYS 8 of the current process does too. Every semaphore
  -- is then as it was, and the process is still the current one, waits nowhere, and has the registers
  -- of its call, so without the status.
  pub wait_for_io_device-Forgotten :
      k.ints device < 0x7fff_ffff
      → (wake_for_device device status k ≡ ok tt early)
        × Returns (λ _. Forgotten) (wait_for_io_device early)
  wait_for_io_device-Forgotten few = (
    wake_for_device-returns k device status (positive _ few),
    rw (wait_for_io_device-nonnegative early-IsRunning (rw (==-refl device) (nonnegative _ few))) (
        returns (record {
          running = record {
            kernel =
                IsKernel-same refl refl
                  (IsKernel-with_info {k = early} k.current_process _ refl early-IsRunning.kernel);
            current = v.current;
          };
          current = refl;
          states = refl;
          saved = rw (==-refl k.current_process) refl;
          ints = restored k.ints device few;
          soft_blocks = refl;
        })),
  )
