-- ===== src/Tests/Handlers.antt =====
-- The theorems on the handlers, at small states of the kernel.
use kaya_project.Base.{ℕ, ◌≡◌, refl, arith, inr}
use kaya_project.Base.Words.{check_bit}
use kaya_project.Machine.{Word, null}
use kaya_project.Kernel.State.{Kernel}
use kaya_project.Kernel.Access.{a0, set_reg, dev_sem}
use kaya_project.Kernel.Devices.{lowest_device}
use kaya_project.Kernel.Devices.Lines.{get_sem_array_num-injective}
use kaya_project.Kernel.Interrupts.{device_interrupt, wake_for_device}
use kaya_project.Kernel.Interrupts.Route.{with_device, device_interrupt-receive}
use kaya_project.Tests.Blank.{blank_state, blank_info, blank_pcbs, blank, three, with_pcbs}

-- Three ready processes.
abbrev busy : Kernel
busy = record (with_pcbs three blank) { ready_que = 2 }

-- Nobody is ready, and processes wait for devices.
abbrev idle_kernel : Kernel
idle_kernel = record blank { ready_que = null }

-- Process 0 runs, with the handlers of `i`, after a call with number `n` and argument `a`.
abbrev vectors_set : Kernel
vectors_set =
    record (with_pcbs
      (record blank_pcbs { info = λ _. record blank_info { old_pgm = 0x1000; new_pgm = 0x2000 } })
      blank) { current_process = 0 }

abbrev no_vectors : Kernel
no_vectors =
    record (with_pcbs (record blank_pcbs { info = λ _. record blank_info { old_pgm = null } })
      blank) { current_process = 0 }

-- A system call in user mode.
abbrev user_call : Kernel
user_call = record blank { states = λ _. set_reg (record blank_state { status = 8 }) a0 3 }

get_sem_array_num-injective_example : (◌≡◌ {A = ℕ} 7 7) × (◌≡◌ {A = ℕ} 2 2) × (◌≡◌ {A = ℕ} 8 8)
get_sem_array_num-injective_example =
    get_sem_array_num-injective 7 2 8 7 2 8 (omega arith, omega arith, inr (refl, refl))
      (omega arith, omega arith, inr (refl, refl)) refl

-- Device 1 of every line interrupts, and the terminals' transmitters have the status `t`.
abbrev interrupted : Word → Kernel
interrupted t = record blank {
  bus = record (blank.bus) {
    line_map = λ _. 2;
    devreg = λ _. record { status = 5; command = 0; data0 = t; data1 = 0 };
  };
}

device_interrupt-receive_example :
    device_interrupt 7 (interrupted 1)
    ≡ wake_for_device
        (dev_sem (blank.layout) 33)
        5
        (with_device 33 (record { status = 5; command = 1; data0 = 1; data1 = 0 }) (interrupted 1))
device_interrupt-receive_example =
    device_interrupt-receive (interrupted 1) 1 (omega arith)
      (unfold lowest_device check_bit in refl) refl

abbrev full : Kernel
full = with_pcbs (record blank_pcbs { free = null }) blank
