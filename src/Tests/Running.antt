-- ===== src/Tests/Running.antt =====
-- A kernel that `main` reaches, and one after its process has prepared a system call.
use kaya_project.Base.{◌≡◌, refl, ◌==◌, if◌then◌else◌, arith, Run, stop, Stops, stops}
use kaya_project.Machine.{Exit, halt}
use kaya_project.Kernel.State.{Kernel}
use kaya_project.Kernel.Access.{a1}
use kaya_project.Kernel.Syscalls.{passeren}
use kaya_project.Kernel.Initial.{main}
use kaya_project.Kernel.Initial.Boot.{main-Booted}
use kaya_project.Kernel.Safe.{IsSound, Safe}
use kaya_project.Kernel.Safe.Reach.{
  Reaches, boots, works, calls_passeren, Reaches-IsSound, Reaches-Safe,
}
use kaya_project.Tests.Blank.{blank, blank_state}

abbrev exit_of : Run Exit Kernel (Unit {0}) → Exit
exit_of (stop e g) = e
exit_of _ = halt

abbrev kernel_of : Run Exit Kernel (Unit {0}) → Kernel
kernel_of (stop e g) = g
kernel_of _ = blank

stopped :
    {P : Exit → Kernel → Type 0} {r : Run Exit Kernel (Unit {0})}
    → Stops P r
    → (r ≡ stop (exit_of r) (kernel_of r)) × P (exit_of r) (kernel_of r)
stopped (stops p) = (refl, p)

abbrev booted : Kernel
booted = kernel_of (main blank)

booted-Reaches : Reaches booted
booted-Reaches = boots blank (exit_of (main blank)) (stopped (main-Booted blank)).0

-- The first process calls SYS 4 on the address 0x1000.
abbrev calling : Kernel
calling = record booted {
  ints = λ _. 0;
  states = λ _. record blank_state { reg = λ i. if i == a1 then 0x1000 else 0 };
  bus = blank.bus;
}

Reaches-IsSound_example : IsSound booted
Reaches-IsSound_example = Reaches-IsSound booted-Reaches

Reaches-Safe_example : Safe (passeren calling)
Reaches-Safe_example =
    Reaches-Safe
      (works (λ _. 0) (λ _. record blank_state { reg = λ i. if i == a1 then 0x1000 else 0 })
        blank.bus booted-Reaches)
      (calls_passeren (rw (stopped (main-Booted blank)).1.current refl) (omega arith, omega arith))
