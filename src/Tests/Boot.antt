-- ===== src/Tests/Boot.antt =====
-- `main` of phase2/initial.c, run from a blank memory.
use kaya_project.Base.{ℕ, ◌≡◌, refl, Run, ok, stop, fault, out_of_fuel, Option, some, none}
use kaya_project.Machine.{Exit, ldst}
use kaya_project.Kernel.State.{Kernel}
use kaya_project.Kernel.Access.{sp}
use kaya_project.Kernel.Initial.{main}
use kaya_project.Tests.Blank.{blank}
use kaya_project.Tests.Code.{all_code}

abbrev exit_of : {A : Type 0} → Run Exit Kernel A → Option (Exit × Kernel)
exit_of (ok a k) = none
exit_of (stop e k) = some (e, k)
exit_of fault = none
exit_of out_of_fuel = none

-- The first process starts at `test`, one page below the top of memory, and is the only one.
abbrev seen : Option (Exit × Kernel) → Option (ℕ × ℕ × ℕ × ℕ)
seen (some (ldst s, k)) = some (s.pc, s.reg sp, k.process_count, k.current_process)
seen _ = none

boots : seen (exit_of (main blank)) ≡ some (0x500, 0x2003_f000, 1, 0)
unfolding all_code
boots = refl
