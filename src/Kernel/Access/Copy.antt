-- ===== src/Kernel/Access/Copy.antt =====
-- The loops of `stateCopy` and `stateCopyPCB` copy the 31 registers.
use kaya_project.Base.{
  ℕ, zero, suc, ◌-◌, ◌≤◌, ◌≡◌, refl, arith, if◌then◌else◌, ltb, leb, ◌&&◌, update,
}
use kaya_project.Machine.{Word, State}
use kaya_project.Kernel.Access.{copy_regs, copy_state}

copy_regs-eq :
    (n : ℕ) (from to : ℕ → Word) (i : ℕ)
    → n ≤ 31
    → copy_regs n from to i ≡ (if leb (31 - n) i && ltb i 31 then from i else to i)
unfolding copy_regs
copy_regs-eq zero from to i le = ground arith
copy_regs-eq (suc n) from to i le =
    ground (arith, copy_regs-eq n from (update to (31 - suc n) (from (31 - suc n))) i)

-- The target agrees with the source on the four control words and on every register of `s_reg`,
-- and keeps what lies behind them.
pub record IsCopy (from to result : State) : Type 0 where
  pub asid : result.asid ≡ from.asid
  pub cause : result.cause ≡ from.cause
  pub status : result.status ≡ from.status
  pub pc : result.pc ≡ from.pc
  pub registers : (i : ℕ) → result.reg i ≡ (if ltb i 31 then from.reg i else to.reg i)

-- The copy of a state copies the four control words and all 31 registers, and nothing behind them.
pub copy_state-IsCopy : (from to : State) → IsCopy from to (copy_state from to)
unfolding copy_state
copy_state-IsCopy from to = record {
  asid = refl;
  cause = refl;
  status = refl;
  pc = refl;
  registers = λ i. ground (arith, copy_regs-eq 31 from.reg to.reg i);
}
