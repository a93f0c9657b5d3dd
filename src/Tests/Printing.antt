-- ===== src/Tests/Printing.antt =====
-- The theorems on the test program of phase 1, at concrete memories.
use kaya_project.Base.{
  ℕ, suc, ◌%◌, ◌≡◌, true, false, refl, inl, inr, Bool-cases, ◌==◌, if◌then◌else◌, [], ◌∷◌, arith,
  Returns,
}
use kaya_project.Selftest.Program.{Program}
use kaya_project.Selftest.Passes.{fast}
use kaya_project.Selftest.Terminal.{
  Answers, now, later, busy, transmitted, termprint, termprint-Printed,
}
use kaya_project.Tests.Blank.{blank_asl}

abbrev blank_program : Program
blank_program = record {
  asl = blank_asl;
  registers = fast;
  okbuf = [];
  errbuf = [];
  procp = λ _. 0;
  qa = 0;
  firstproc = 0;
  midproc = 0;
  lastproc = 0;
  q = 0;
}

-- A terminal that is busy at every second reading.
abbrev slow_status : ℕ → ℕ
slow_status n = if n % 2 == 0 then transmitted else busy

slow-Answers : (n : ℕ) → Answers slow_status n 2
slow-Answers n = elim (Bool-cases (n % 2 == 0)) [
  | inl e ↦ now (rw e refl)
  | inr e ↦ later (rw e refl) (now (rw (even n e) refl))
]
  where
    even : (n : ℕ) → (n % 2 == 0) ≡ false → (suc n % 2 == 0) ≡ true
    even n e = ground arith

-- The letters h and i.
termprint-Printed_example :
    Returns
      (λ b g. (b ≡ true) × (g.written ≡ (0x1000_025c, 0x6902) ∷ (0x1000_025c, 0x6802) ∷ []))
      (termprint 2
        (0x68 ∷ 0x69 ∷ [])
        0
        (record { status = λ a. slow_status; reads = 0; written = [] }))
termprint-Printed_example =
    termprint-Printed 2 0 (0x68 ∷ 0x69 ∷ [])
      (record { status = λ a. slow_status; reads = 0; written = [] }) (omega arith) refl
      slow-Answers
