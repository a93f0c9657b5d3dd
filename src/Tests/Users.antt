-- ===== src/Tests/Users.antt =====
-- The programs of phase3 on a small system: a memory that keeps what is stored, a disk of five
-- sectors, a terminal that takes everything; and the exchange of a message.
use kaya_project.Base.{
  ◌+◌, ◌≡◌, ◌%◌, refl, ◌==◌, ltb, if◌then◌else◌, [], ◌∷◌, some, arith, ok, stop, and_then, Run,
  Returns, returns, Stops, stops,
}
use kaya_project.Base.Words.{word_mod, is_negative}
use kaya_project.Machine.{Addr, Word}
use kaya_project.User.{Os, Process, Call, text, literal, Ending, ended, syscall, print}
use kaya_project.User.Exchange.Record.{Tape}
use kaya_project.User.Fib.{fib, fibonacci, fib-fibonacci}
use kaya_project.User.Programs.{fib_test, swap_test}
use kaya_project.User.Disk.{find_capacity, HasCapacity, find_capacity-least, get_sector, million}
use kaya_project.User.Laws.{Serves, writing, checked, print-literal}
use kaya_project.User.Runs.{fib_test-Ends, swap_test-Survives, Ends}

record Toy : Type 0 where
  memory : Addr → Word

abbrev write : Toy → Addr → Word → Toy
write s a v = record s { memory = λ b. if b == a then v else s.memory b }

abbrev toy_serve : Call → Toy → Run Ending Toy Word
toy_serve c s =
    if c.number == 18
    then stop ended s
    else if c.number == 15
    then ok (if ltb c.third 5 then 1 else 0) s
    else ok 0 s

abbrev toy : Os Toy
toy = record {
  serve = toy_serve;
  load = λ a s. ok (s.memory a) s;
  store = λ a v s. ok tt (write s a v);
  load_char = λ a s. ok (s.memory a) s;
  store_char = λ a v s. ok tt (write s a v);
  divide = λ a b s. stop ended s;
  load_state = λ a s. stop ended s;
  read_terminal = 9;
  write_terminal = 10;
  write_printer = 16;
  get_tod = 17;
  delay = 13;
  disk_put = 14;
  disk_get = 15;
  v_sem_virt = 11;
  p_sem_virt = 12;
  get_time = 6;
  terminate = 18;
  second = 1000000;
  seg1 = 0x4000_0000;
  seg2 = 0x8000_0000;
  seg3 = 0xc000_0000;
}

-- Besides, the system's segment is protected.
abbrev guarded : Os Toy
guarded = record toy {
  load_char = λ a s. if a == 0x2000_0000 then stop ended s else ok (s.memory a) s;
}

abbrev fresh : Process Toy
fresh = record { system = record { memory = λ _. 0 }; trace = [] }

guarded-Serves : Serves guarded (λ s. s.memory)
unfolding is_negative
guarded-Serves = record {
  writes = λ c s e. rw e (returns (refl, λ a. refl));
  ends = λ c s e. rw e (stops refl);
  load = λ a s. returns (refl, λ b. refl);
  store = λ a v s. returns (λ b. refl);
  guarded = λ s. stops refl;
}

fib-fibonacci_example : fib 7 7 ≡ some (fibonacci 7 % word_mod)
fib-fibonacci_example = fib-fibonacci 7 7 (omega arith) (omega arith) (omega arith)

print-literal_example :
    print toy 10 (literal "printTest is ok\n") fresh
    ≡ and_then (syscall toy 10 (text (literal "printTest is ok\n")) 16 0 fresh) (checked toy 10)
print-literal_example = print-literal toy 10 "printTest is ok\n" fresh refl

fib_test-Ends_example :
    Stops
      (Ends guarded-Serves (
        writing guarded 10 "Recursion Concluded Successfully\n"
        ∷ writing guarded 10 "Recursion Concluded\n"
        ∷ writing guarded 10 "Recursive Fibanaci Test starts\n"
        ∷ []))
      (fib_test guarded fresh)
fib_test-Ends_example = fib_test-Ends guarded-Serves fresh

swap_test-Survives_example :
    Stops
      (λ e t.
        (e ≡ ended)
        × (t.trace
            ≡ writing guarded 10 "swapTest ok: data survived swapper\n"
              ∷ writing guarded 10 "swapTest ok: wrote to pages of seg kUseg2\n"
              ∷ writing guarded 10 "swapTest starts\n"
              ∷ []))
      (swap_test guarded fresh)
swap_test-Survives_example = swap_test-Survives guarded-Serves fresh

five_sectors : HasCapacity toy 5
unfolding get_sector syscall
five_sectors = record { answers = λ i u. returns (ground arith) }

find_capacity-least_example : Returns (λ j _. j ≡ 5) (find_capacity toy (million + 1) 0 1 fresh)
find_capacity-least_example =
    find_capacity-least toy 5 (million + 1) 0 1 fresh five_sectors refl (omega arith) (omega arith)

-- The numbers and addresses of `toy`.
abbrev numbers : Os (Unit {0})
numbers = record {
  serve = λ c s. ok 0 s;
  load = λ a s. ok 0 s;
  store = λ a v s. ok tt s;
  load_char = λ a s. ok 0 s;
  store_char = λ a v s. ok tt s;
  divide = λ a b s. stop ended s;
  load_state = λ a s. stop ended s;
  read_terminal = toy.read_terminal;
  write_terminal = toy.write_terminal;
  write_printer = toy.write_printer;
  get_tod = toy.get_tod;
  delay = toy.delay;
  disk_put = toy.disk_put;
  disk_get = toy.disk_get;
  v_sem_virt = toy.v_sem_virt;
  p_sem_virt = toy.p_sem_virt;
  get_time = toy.get_time;
  terminate = toy.terminate;
  second = toy.second;
  seg1 = toy.seg1;
  seg2 = toy.seg2;
  seg3 = toy.seg3;
}

abbrev unwritten : Process Tape
unwritten = record { system = record { log = []; memory = λ _. 0; coming = [] }; trace = [] }
