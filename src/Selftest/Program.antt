-- ===== src/Selftest/Program.antt =====
-- The state of phase1/p1test.c and the steps of which it is made.
use Prim.Native.Char.{code}
use Prim.Native.String.{String}
use kaya_project.Selftest.Terminal.{Registers, termprint}
use kaya_project.Base.{
  ℕ, zero, suc, ◌+◌, ◌*◌, ◌%◌, Bool, List, [], ◌∷◌, stop, ok, put_back, when, pure, ◌>>=◌, ◌>>◌,
  update, Cmd,
}
use kaya_project.Base.Words.{word_mod}
use kaya_project.Machine.{Ptr, Addr, Exit, panic}
use kaya_project.Pcb.Table.{Pcbs}
use kaya_project.Asl.Table.{Asl, on_pcbs}

-- The globals of the program, the tables of phase 1 and the device registers. `okbuf` and `errbuf`
-- are the messages that `addokbuf` and `adderrbuf` copy there, the last one first.
pub record Program : Type 0 where
  pub asl : Asl
  pub registers : Registers
  pub okbuf : List String
  pub errbuf : List String
  pub procp : ℕ → Ptr
  pub qa : Ptr
  pub firstproc : Ptr
  pub midproc : Ptr
  pub lastproc : Ptr
  pub q : Ptr

-- Where the linker puts `sem` and `onesem`.
pub record Places : Type 0 where
  pub sem : Addr
  pub onesem : Addr

abbrev pub Test : Type 0 → Type 0
Test A = Cmd Exit Program A

-- An operation of asl.c or of pcb.c.
abbrev pub on_asl : {A : Type 0} → Cmd Exit Asl A → Test A
on_asl m s = put_back (λ a. record s { asl = a }) (m s.asl)

abbrev pub on_table : {A : Type 0} → Cmd Exit Pcbs A → Test A
on_table m = on_asl (on_pcbs m)

abbrev pub read : {A : Type 0} → (Program → A) → Test A
read field s = ok (field s) s

abbrev pub modify : (Program → Program) → Test (Unit {0})
modify f s = ok tt (f s)

-- The bytes of a string, up to its end.
abbrev pub codes : String → List ℕ
codes String.[] = []
codes (String.◌∷◌ c s) = code c ∷ codes s

-- The fuel of the busy waiting.
abbrev pub wait_rounds : ℕ
wait_rounds = 1000

-- `termprint(m, 0);`
unfoldable pub print : String → Test (Unit {0})
unfolding termprint
print m = do
  done ← λ s.
      put_back (λ r. record s { registers = r }) (termprint wait_rounds (codes m) 0 s.registers)
  pure tt

-- `addokbuf`
unfoldable pub addokbuf : String → Test (Unit {0})
unfolding print
addokbuf m = do modify λ s. record s { okbuf = m ∷ s.okbuf }; print m

-- `adderrbuf`, which ends in PANIC
unfoldable pub adderrbuf : String → Test (Unit {0})
unfolding print
adderrbuf m = do modify λ s. record s { errbuf = m ∷ s.errbuf }; print m; λ s. stop panic s

-- `if (c) adderrbuf(m);`
unfoldable pub fail_if : Bool → String → Test (Unit {0})
fail_if c m = when c (adderrbuf m)

abbrev pub set_procp : ℕ → Ptr → Test (Unit {0})
set_procp i p = modify λ s. record s { procp = update s.procp i p }

abbrev pub get_procp : ℕ → Test Ptr
get_procp i = read λ s. s.procp i

abbrev pub set_qa : Ptr → Test (Unit {0})
set_qa p = modify λ s. record s { qa = p }

abbrev pub set_q : Ptr → Test (Unit {0})
set_q p = modify λ s. record s { q = p }

-- `&sem[i]`
unfoldable pub sem_at : Places → ℕ → Addr
sem_at l i = (l.sem + 4 * i) % word_mod

-- `for (i = from; i < from + n; i++)`
abbrev pub for_each : (n from : ℕ) → (ℕ → Test (Unit {0})) → Test (Unit {0})
for_each zero i body = pure tt
for_each (suc n) i body = do body i; for_each n (suc i) body
