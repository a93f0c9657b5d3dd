-- ===== src/User/Disk.antt =====
-- phase3/diskTest.c.
use kaya_project.Base.{
  ℕ, zero, suc, ◌+◌, ◌*◌, ◌%◌, ◌≤◌, ◌<◌, ◌≡◌, inl, inr, ◌==◌, ◌&&◌, ltb, not, Bool-cases,
  if◌then◌else◌, arith, out_of_fuel, pure, ◌>>=◌, ◌>>◌, Returns, returns,
}
use kaya_project.Base.Monad
use kaya_project.Base.Words.{word_mod}
use kaya_project.Machine.{Addr, Word}
use kaya_project.User.{Os, Process, User, word, on_system, syscall, terminate}
use kaya_project.User.Programs.{say, page_size}

abbrev pub million : ℕ
million = 1000000

-- READY of h/const.h
abbrev pub ready : Word
ready = 1

module _ {S : Type 0} (os : Os S) where
  -- `(int *)(SEG2 + (20 * PAGESIZE))`
  abbrev pub buffer : Addr
  buffer = (os.seg2 + 20 * page_size) % word_mod

  unfoldable pub get_sector : Word → User S Word
  get_sector i = syscall os os.disk_get (word buffer) 1 i

  unfoldable pub put_sector : Word → User S Word
  put_sector i = syscall os os.disk_put (word buffer) 1 i

  -- The loop, on fuel: the first sector that cannot be read, or MILLION.
  unfoldable pub find_capacity : (fuel : ℕ) → (i dstatus : Word) → User S Word
  unfolding get_sector
  find_capacity zero i dstatus = λ _. out_of_fuel
  find_capacity (suc n) i dstatus =
      if (dstatus == ready) && ltb i million
      then (do dstatus' ← get_sector (suc i); find_capacity n (suc i) dstatus')
      else pure i

  unfoldable pub disk_test : User S (Unit {0})
  unfolding find_capacity get_sector put_sector
  disk_test = do
    say os "diskTest starts\n"
    on_system os (os.store buffer 42)
    put ← put_sector 3
    if not (put == ready)
        then say os "diskTest error: disk i/o result\n"
        else say os "diskTest ok: disk i/o result\n"
    on_system os (os.store buffer 100)
    put' ← put_sector 23
    got ← get_sector 3
    first ← on_system os (os.load buffer)
    if not (first == 42)
        then say os "diskTest error: bad first disk sector readback\n"
        else say os "diskTest ok: first disk sector readback\n"
    got' ← get_sector 23
    second ← on_system os (os.load buffer)
    if not (second == 100)
        then say os "diskTest error: bad second disk sector readback\n"
        else say os "diskTest ok: second disk sector readback\n"
    dstatus ← get_sector 0
    i ← find_capacity (suc million) 0 dstatus
    if ltb i million
        then say os "diskTest ok: device capacity detection\n"
        else say os "diskTest error: device capacity undetected\n"
    say os "diskTest: completed\n"
    outside ← syscall os os.disk_get (word os.seg1) 1 3
    say os "diskTest error: just read into segment 1\n"
    quotient ← on_system os (os.divide i 0)
    say os "diskTest error: divide by 0 did not terminate\n"
    on_system os (os.load_state buffer)
    say os "diskTest error: priv. instruction did not terminate\n"
    created ← syscall os 1 (word buffer) 0 0
    say os "diskTest error: sys1 did not terminate\n"
    terminate os

  -- A disk with `capacity` sectors: a sector is READY exactly below it.
  pub record HasCapacity (capacity : ℕ) : Type 0 where
    pub answers :
        (i : Word) (u : Process S)
        → Returns (λ status _. (status == ready) ≡ ltb i capacity) (get_sector i u)

  abbrev least : ℕ → ℕ
  least c = if ltb c million then c else million

  -- With one round more than MILLION less the first sector, the loop returns the capacity of the
  -- disk, or MILLION if that is less.
  pub find_capacity-least :
      (capacity n : ℕ) (i dstatus : Word) (u : Process S)
      → HasCapacity capacity
      → (dstatus == ready) ≡ ltb i capacity
      → i ≤ least capacity
      → million < i + n
      → Returns (λ j _. j ≡ least capacity) (find_capacity n i dstatus u)
  unfolding find_capacity
  find_capacity-least c zero i d u h e low high = absurd (ground arith)
  find_capacity-least c (suc n) i d u h e low high =
      elim (Bool-cases ((d == ready) && ltb i million)) [
        | inl t ↦ rw t (
            Monad.bind (h.answers (suc i) u)
              λ d' u' e'. find_capacity-least c n (suc i) d' u' h e' (ground arith) (omega arith))
        | inr t ↦ rw t (returns (ground arith))
      ]
