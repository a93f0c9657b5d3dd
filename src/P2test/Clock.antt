-- ===== src/P2test/Clock.antt =====
-- p2 and p3 of phase2/p2test.c, and the wait of p5b.
use kaya_project.Base.{
  ℕ, zero, suc, ◌==◌, ltb, not, false, if◌then◌else◌, out_of_fuel, when, ◌>>=◌, ◌>>◌, pure, Cmd,
}
use kaya_project.Base.Words.{sub32, div_signed, ltb_signed}
use kaya_project.Machine.{Addr, Word}
use kaya_project.P2test.{
  Host, Finish, word, v_sem, p_sem, request, die, panic, print, sems, startp2, endp2, endp3,
  p1p2synch,
}

abbrev pub tod_lo_address : Addr
tod_lo_address = 0x1000_001c

abbrev pub timescale_address : Addr
timescale_address = 0x1000_0024

-- CLOCKINTERVAL >> 1
abbrev pub half_interval : Word
half_interval = 50000

-- The number of semaphores in `s`, MAXSEM + 1.
abbrev pub sem_count : ℕ
sem_count = 21

module _ {S : Type 0} (host : Host S) where
  -- `STCK(T)`
  unfoldable pub read_clock : Cmd Finish S Word
  unfolding div_signed
  read_clock = do
    tod ← host.load tod_lo_address
    scale ← host.load timescale_address
    pure (div_signed tod scale)

  -- `SYSCALL(GETCPUTIME, 0, 0, 0)`
  abbrev pub cpu_time : Cmd Finish S Word
  cpu_time = host.serve 6 (word 0) (word 0) (word 0)

  -- `SYSCALL(WAITCLOCK, 0, 0, 0)`
  abbrev pub wait_clock : Cmd Finish S (Unit {0})
  wait_clock = request host 7 (word 0)

  -- `s[i] = 0`, for `n` semaphores from `i` on.
  unfoldable pub clear_sems : (n i : ℕ) → Cmd Finish S (Unit {0})
  clear_sems zero i = pure tt
  clear_sems (suc n) i = do host.set (sems i) 0; clear_sems n (suc i)

  -- V, then P, of `n` semaphores from `i` on.
  unfoldable pub try_sems : (n i : ℕ) → Cmd Finish S (Unit {0})
  unfolding print
  try_sems zero i = pure tt
  try_sems (suc n) i = do
    v_sem host (sems i)
    p_sem host (sems i)
    value ← host.get (sems i)
    when (not (value == 0)) (print host "error: p2 bad v/p pairs\n")
    try_sems n (suc i)

  -- MINLOOPTIME and MINCLOCKLOOP in ticks.
  unfoldable pub in_ticks : Word → Cmd Finish S Word
  unfolding div_signed
  in_ticks time = do scale ← host.load timescale_address; pure (div_signed time scale)

  -- What p2 says of the times that it took. Each comparison with MINLOOPTIME reads the timescale.
  unfoldable pub judge : (real cpu : Word) → Cmd Finish S (Unit {0})
  unfolding print ltb_signed in_ticks
  judge real cpu = do
    passed ←
        (if ltb_signed real cpu
          then pure false
          else do least ← in_ticks 30000; pure (not (ltb_signed cpu least)))
    if passed then print host "p2 is OK\n" else do
      when (ltb_signed real cpu) (print host "error: more cpu time than real time\n")
      least ← in_ticks 30000
      when (ltb_signed cpu least) (print host "error: not enough cpu time went by\n")
      print host "p2 blew it!\n"

  -- The empty loop between the readings changes nothing but the time.
  unfoldable pub p2 : Cmd Finish S (Unit {0})
  unfolding print clear_sems try_sems read_clock in_ticks judge sub32
  p2 = do
    p_sem host startp2
    print host "p2 starts\n"
    clear_sems sem_count 0
    try_sems sem_count 0
    print host "p2 v's successfully\n"
    now1 ← read_clock
    cpu_t1 ← cpu_time
    cpu_t2 ← cpu_time
    now2 ← read_clock
    judge (sub32 now2 now1) (sub32 cpu_t2 cpu_t1)
    host.set p1p2synch 1
    v_sem host endp2
    die host
    print host "error: p2 didn't terminate\n"
    panic host

  -- The loop of p3 and of p5b, on fuel: wait until one wait takes half of the clock's interval.
  unfoldable pub wait_half : (fuel : ℕ) → (time1 time2 : Word) → Cmd Finish S (Unit {0})
  unfolding read_clock sub32
  wait_half zero time1 time2 = λ _. out_of_fuel
  wait_half (suc n) time1 time2 =
      if ltb (sub32 time2 time1) half_interval
      then (do time1' ← read_clock; wait_clock; time2' ← read_clock; wait_half n time1' time2')
      else pure tt

  -- The waits between the two readings of the time used, `n` left.
  unfoldable pub wait_clocks : ℕ → Cmd Finish S (Unit {0})
  wait_clocks zero = pure tt
  wait_clocks (suc n) = do wait_clock; wait_clocks n

  unfoldable pub p3 : (fuel : ℕ) → Cmd Finish S (Unit {0})
  unfolding print wait_half wait_clocks in_ticks ltb_signed sub32
  p3 fuel = do
    wait_half fuel 0 0
    print host "p3 - WAITCLOCK OK\n"
    cpu_t1 ← cpu_time
    wait_clocks 10
    cpu_t2 ← cpu_time
    least ← in_ticks 3000
    if ltb_signed (sub32 cpu_t2 cpu_t1) least
        then print host "error: p3 - CPU time incorrectly maintained\n"
        else print host "p3 - CPU time correctly maintained\n"
    v_sem host endp3
    die host
    print host "error: p3 didn't terminate\n"
    panic host
