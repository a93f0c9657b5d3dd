-- ===== src/Kernel/Exceptions/Privileged.antt =====
-- A system call of phase2/exceptions.c in user mode, by a process with a program trap handler.
use kaya_project.Base.{
  ℕ, ◌<◌, ◌≡◌, ◌/◌, ◌%◌, refl, ap, ◌∙◌, true, false, arith, ◌==◌, ==-refl, stop, ltb,
}
use kaya_project.Base.Words.{word_mod, is_nonpositive, is_negative, check_bit}
use kaya_project.Machine.{Word, Addr, State, null, Info, IsCell, ldst}
use kaya_project.Kernel.State.{Kernel}
use kaya_project.Kernel.Access.{a0, sys_call_old, pgm_trap_old, copy_state}
use kaya_project.Kernel.Access.Copy.{IsCopy, copy_state-IsCopy}
use kaya_project.Kernel.Exceptions.{pgm_trap_handler, reserved_cause, sys_call_handler}
use kaya_project.Kernel.Exceptions.Cause.{exc_code, reserved_cause-exc_code}
use kaya_project.Kernel.Exceptions.Pass.{
  privileged, passed, sys_call_handler-routes, pass_up_or_die-passes, is_kernel_call,
}

module _ (k : Kernel) (c : IsCell k.current_process) where
  abbrev vectors : Info
  vectors = k.asl.pcbs.info k.current_process

  abbrev saved : State
  saved = k.states sys_call_old

  -- The process's own old area holds the state of the call, but for a cause that tells of a reserved
  -- instruction, with the bits of the cause outside the exception code; besides, only the program
  -- trap's old area is written.
  pub record Trapped (g : Kernel) : Type 0 where
    pub code : exc_code (g.states vectors.old_pgm).cause ≡ 10
    pub low : (g.states vectors.old_pgm).cause % 4 ≡ saved.cause % 4
    pub high : (g.states vectors.old_pgm).cause / 128 ≡ saved.cause / 128
    pub pc : (g.states vectors.old_pgm).pc ≡ saved.pc
    pub status : (g.states vectors.old_pgm).status ≡ saved.status
    pub registers : (i : ℕ) → i < 31 → (g.states vectors.old_pgm).reg i ≡ saved.reg i
    pub others :
        (a : Addr)
        → (a == vectors.old_pgm) ≡ false
        → (a == pgm_trap_old) ≡ false
        → g.states a ≡ k.states a
    pub rest : g ≡ record k { states = g.states }

  abbrev end : Kernel
  end = passed (privileged k) 1 (omega arith) c

  in_range : (n : Word) → 0 < n → n < 9 → is_kernel_call n ≡ true
  unfolding is_nonpositive is_negative
  in_range n pos few = ground arith

  -- What is copied into the process's old area.
  abbrev trap : State
  trap =
      let s = copy_state saved (k.states pgm_trap_old) in
      record s { cause = reserved_cause s.cause }

  given : IsCopy trap ((privileged k).states vectors.old_pgm) (end.states vectors.old_pgm)
  given =
      rw (==-refl vectors.old_pgm) (copy_state-IsCopy trap ((privileged k).states vectors.old_pgm))

  copied : IsCopy saved (k.states pgm_trap_old) (copy_state saved (k.states pgm_trap_old))
  copied = copy_state-IsCopy saved (k.states pgm_trap_old)

  below : (i : ℕ) → i < 31 → ltb i 31 ≡ true
  below i h = ground arith

  trapped : saved.cause < word_mod → exc_code saved.cause ≡ 8 → Trapped end
  trapped h e =
      let cause : (end.states vectors.old_pgm).cause ≡ reserved_cause saved.cause =
        given.cause ∙ ap reserved_cause copied.cause in
      let (code, low, high) = reserved_cause-exc_code saved.cause h e in
      record {
        code = ap exc_code cause ∙ code;
        low = ap (λ c. c % 4) cause ∙ low;
        high = ap (λ c. c / 128) cause ∙ high;
        pc = given.pc ∙ copied.pc;
        status = given.status ∙ copied.status;
        registers = λ i few.
            given.registers i ∙ rw (below i few) (copied.registers i ∙ rw (below i few) refl);
        others = λ a n m. rw (n, m) refl;
        rest = refl;
      }

  -- A system call with a number from 1 to 8 and exception code 8 in the saved cause, made in user mode
  -- by a process of the table that has specified a program trap handler, loads that handler's new area as it then is. The process's old area for
  -- program traps holds the state of the call with the exception code 10, a reserved instruction,
  -- in place of 8; besides, only the program trap's old area is written.
  pub sys_call_handler-Trapped :
      0 < saved.reg a0
      → saved.reg a0 < 9
      → check_bit saved.status 3 ≡ true
      → saved.cause < word_mod
      → exc_code saved.cause ≡ 8
      → (vectors.old_pgm == null) ≡ false
      → (g : Kernel) × (sys_call_handler k ≡ stop (ldst (g.states vectors.new_pgm)) g) × Trapped g
  unfolding pgm_trap_handler
  sys_call_handler-Trapped pos few user h e some_handler = (
    end,
    sys_call_handler-routes k
        ∙ rw (in_range (saved.reg a0) pos few, user)
            (pass_up_or_die-passes (privileged k) 1 (omega arith) c some_handler),
    trapped h e,
  )
