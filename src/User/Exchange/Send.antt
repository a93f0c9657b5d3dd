-- ===== src/User/Exchange/Send.antt =====
-- The loop of the producer of phase3/pvTestB.c, on a system that writes down what it is asked for.
use Prim.Native.String.{String}
use kaya_project.Base.{
  ==-refl, Option, ◌>>=◌, get_elem?, some, none, ℕ, zero, suc, ◌<◌, ◌≡◌, sym, ap, ◌∙◌, true, false,
  ◌==◌, if◌then◌else◌, List, [], ◌∷◌, ◌++◌, length, length-append, arith, ok, and_then, pure,
}
use mathlib.Core.List.{append_assoc, append-nil}
use kaya_project.Machine.{Word}
use kaya_project.Selftest.Program.{codes}
use kaya_project.User.{Os, Process, char_at, syscall}
use kaya_project.User.Laws.{no_zero, get-append, get-end}
use kaya_project.User.Exchange.Turns.{produces, wait_empty, fill, dot, signal_full}
use kaya_project.User.Exchange.Record.{Tape, recorder, noted, says}
use kaya_project.User.Exchange.{send, charbuff, full, p_virtual, v_virtual}

-- `msg[i]`, which is NUL behind the last character.
abbrev value_of : Option Word → Word
value_of none = 0
value_of (some c) = c

module _ (o : Os (Unit {0})) where
  abbrev os : Os Tape
  os = recorder o

  -- One round of the loop.
  round :
      (n : ℕ) (msg : String) (i : ℕ) (c : Word) (u : Process Tape)
      → value_of (get_elem? (codes msg) i) ≡ c
      → send os (suc n) msg i u
        ≡ (if c == 0 then pure tt else send os n msg (suc i))
            (noted o (wait_empty ∷ fill c ∷ dot ∷ signal_full ∷ []) u)
  unfolding send p_virtual v_virtual syscall char_at
  round n msg i c u read =
      rw (read, ==-refl (charbuff os))
        (ap
          (λ r. and_then r λ x. v_virtual os (full os) >>= λ released.
            if c == 0 then pure tt else send os n msg (suc i))
          (says o (noted o (wait_empty ∷ fill c ∷ []) u)))

  -- The loop goes through the rounds for the rest of the message and its NUL.
  pub send-from :
      (msg : String) (n : ℕ) (front cs : List Word) (u : Process Tape)
      → codes msg ≡ front ++ cs
      → no_zero cs ≡ true
      → length cs < n
      → send os n msg (length front) u ≡ ok tt (noted o (produces (cs ++ 0 ∷ [])) u)
  send-from msg zero front cs u e z le = absurd (omega arith)
  send-from msg (suc n) front [] u e z le = round n msg (length front) 0 u (
      ap (λ l. value_of (get_elem? l (length front))) (e ∙ append-nil front)
      ∙ ap value_of (get-end front))
  send-from msg (suc n) front (c ∷ cs) u e z le =
      let nonzero : (c == 0) ≡ false = ground arith in
      let longer : length (front ++ c ∷ []) ≡ suc (length front) =
        omega (arith, length-append front (c ∷ [])) in
      round n msg (length front) c u
        (ap (λ l. value_of (get_elem? l (length front))) e ∙ ap value_of (get-append front cs c))
      ∙ rw (nonzero, sym longer)
          (send-from msg n (front ++ c ∷ []) cs
            (noted o (wait_empty ∷ fill c ∷ dot ∷ signal_full ∷ []) u)
            (e ∙ sym (append_assoc front (c ∷ []) cs)) (ground arith) (omega arith))
