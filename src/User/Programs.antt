-- ===== src/User/Programs.antt =====
-- The `main` functions of phase3/fibTest.c, printerTest.c, readTest.c, todTest.c and swapTest.c.
use Prim.Native.String.{String}
use kaya_project.Base.{
  ℕ, zero, suc, ◌+◌, ◌*◌, ◌%◌, ◌==◌, if◌then◌else◌, Bool, true, false, not, some, none, out_of_fuel,
  when, pure, ◌>>=◌, ◌>>◌,
}
use kaya_project.Base.Words.{add32, sub32, ltb_signed, word_mod}
use kaya_project.Machine.{Addr}
use kaya_project.User.{Os, User, literal, at, word, text, on_system, syscall, terminate, print}
use kaya_project.User.Fib.{fib}

-- PAGESIZE of h/const.h
abbrev pub page_size : ℕ
page_size = 4096

-- The address in the segment ksegOS that `swapTest` reads.
abbrev pub os_segment : Addr
os_segment = 0x2000_0000

module _ {S : Type 0} (os : Os S) where
  -- `print(WRITETERMINAL, s);`
  abbrev pub say : String → User S (Unit {0})
  say s = print os os.write_terminal (literal s)

  unfoldable pub fib_test : User S (Unit {0})
  unfolding fib
  fib_test = do
    say "Recursive Fibanaci Test starts\n"
    i ← elim (fib 7 7) [ none ↦ λ _. out_of_fuel | some i ↦ pure i ]
    say "Recursion Concluded\n"
    if i == 13 then say "Recursion Concluded Successfully\n" else say "ERROR: Recursion problems\n"
    terminate os

  unfoldable pub printer_test : User S (Unit {0})
  printer_test = do
    say "printTest is ok\n"
    print os os.write_printer (literal "printTest is ok\n")
    terminate os

  -- `buf` is the address of the local array.
  unfoldable pub read_test : Addr → User S (Unit {0})
  unfolding add32
  read_test buf = do
    say "Terminal Read Test starts\n"
    say "Enter a string: "
    status ← syscall os os.read_terminal (text (at buf)) 0 0
    on_system os (os.store_char (add32 buf status) 0)
    say "\n"
    print os os.write_terminal (at buf)
    say "\n\nTerminal Read concluded\n"
    terminate os

  unfoldable pub tod_test : User S (Unit {0})
  unfolding sub32 ltb_signed
  tod_test = do
    first ← syscall os os.get_tod (word 0) 0 0
    say "todTest starts\n"
    now1 ← syscall os os.get_tod (word 0) 0 0
    now2 ← syscall os os.get_tod (word 0) 0 0
    if ltb_signed now2 now1
        then say "todTest error: time decreasing\n"
        else say "todTest ok: time increasing\n"
    delayed ← syscall os os.delay (word 1) 0 0
    now1' ← syscall os os.get_tod (word 0) 0 0
    if ltb_signed (sub32 now1' now2) os.second
        then say "todTest error: did not delay one second\n"
        else say "todTest ok: one second delay\n"
    say "todTest completed\n"
    last ← syscall os os.get_time (word 0) 0 0
    say "todTest error: SYS6 did not terminate\n"
    terminate os

  -- `SEG2 + i * PAGESIZE`
  abbrev pub page : ℕ → Addr
  page i = (os.seg2 + i * page_size) % word_mod

  -- The first loop, `n` pages from `i` on.
  unfoldable pub write_pages : (n i : ℕ) → User S (Unit {0})
  write_pages zero i = pure tt
  write_pages (suc n) i = do on_system os (os.store (page i) i); write_pages n (suc i)

  -- The second loop: is a page corrupt?
  unfoldable pub check_pages : (n i : ℕ) → User S Bool
  check_pages zero i = pure false
  check_pages (suc n) i = do
    v ← on_system os (os.load (page i))
    if not (v == i)
        then (do
          print os os.write_printer (literal "swapTest error: swapper corrupted data\n")
          pure true)
        else check_pages n (suc i)

  unfoldable pub swap_test : User S (Unit {0})
  swap_test = do
    say "swapTest starts\n"
    write_pages 10 20
    say "swapTest ok: wrote to pages of seg kUseg2\n"
    corrupt ← check_pages 10 20
    when (not corrupt) (say "swapTest ok: data survived swapper\n")
    i ← on_system os (os.load_char os_segment)
    say "swapTest error: could access segment ksegOS\n"
    terminate os
