-- ===== src/User/Runs.antt =====
-- The programs of phase3/fibTest.c, printerTest.c and swapTest.c on a system that serves them.
use Prim.Native.String.{String}
use kaya_project.Base.{
  ℕ, zero, suc, ◌+◌, ◌<◌, ◌≤◌, ◌≡◌, refl, sym, ◌∙◌, true, false, Bool-cases, inl, inr, ◌==◌,
  if◌then◌else◌, List, ◌∷◌, arith, Returns, returns, Stops, eq_of_==, ==-refl, pure,
}
use kaya_project.Base.Monad
use kaya_project.Machine.{Addr, Word}
use kaya_project.User.{Os, Process, Call, Ending, ended, syscall, terminate}
use kaya_project.User.Programs.{say, fib_test, swap_test, page, write_pages, check_pages}
use kaya_project.User.Fib.{fib}
use kaya_project.User.Laws.{Serves, is_plain, writing, ending, say-literal}

module _ {S : Type 0} {os : Os S} {get : S → Addr → Word} (v : Serves os get) where
  -- One more call, and memory as it was.
  pub record Calls (c : Call) (u t : Process S) : Type 0 where
    pub trace : t.trace ≡ c ∷ u.trace
    pub memory : (a : Addr) → get t.system a ≡ get u.system a

  abbrev said : String → Call
  said s = writing os os.write_terminal s

  say-Calls :
      (s : String) (u : Process S)
      → is_plain s ≡ true
      → Returns (λ _ t. Calls (said s) u t) (say os s u)
  say-Calls s u p =
      Monad.mono (say-literal os {Q = λ s t. (a : Addr) → get t a ≡ get s a} v.writes s u p)
        λ _ t m. record { trace = m.0; memory = m.1 }

  -- The end of a process.
  abbrev pub Ends : List Call → Ending → Process S → Type 0
  Ends cs e t = (e ≡ ended) × (t.trace ≡ ending os ∷ cs)

  terminate-Ends : (u : Process S) → Stops (Ends u.trace) (terminate os u)
  unfolding terminate syscall
  terminate-Ends u =
      Monad.Stops-first (λ r. pure tt)
        (Monad.lift-Stops (λ w. record { system = w; trace = ending os ∷ u.trace })
          (v.ends (ending os) u.system refl) λ e w q. (q, refl))

  -- `fibTest` says that the recursion is concluded, successfully.
  pub fib_test-Ends :
      (u : Process S)
      → Stops
          (Ends (
            said "Recursion Concluded Successfully\n"
            ∷ said "Recursion Concluded\n"
            ∷ said "Recursive Fibanaci Test starts\n"
            ∷ u.trace))
          (fib_test os u)
  unfolding fib_test fib
  fib_test-Ends u =
      Monad.bind-Stops (say-Calls "Recursive Fibanaci Test starts\n" u refl) λ _ u1 c1.
        Monad.bind-Stops (say-Calls "Recursion Concluded\n" u1 refl) λ _ u2 c2.
          Monad.bind-Stops (say-Calls "Recursion Concluded Successfully\n" u2 refl)
            λ _ u3 c3. rw (sym c1.trace, sym c2.trace, sym c3.trace) (terminate-Ends u3)

  -- The first word of the pages `i` to `i + n` is their number.
  abbrev HasPages : ℕ → ℕ → S → Type 0
  HasPages n i s = (j : ℕ) → i ≤ j → j < i + n → get s (page os j) ≡ j

  -- The pages do not overlap.
  page_apart : (i j : ℕ) → i < j → j < 30 → (page os i == page os j) ≡ false
  page_apart i j lt top = ground arith

  -- The loop keeps what stands in the pages below, and the trace.
  write_pages-HasPages :
      (n i : ℕ) (u : Process S)
      → i + n ≤ 30
      → Returns
          (λ _ t.
            HasPages n i t.system
            × (t.trace ≡ u.trace)
            × ((j : ℕ) → j < i → get t.system (page os j) ≡ get u.system (page os j)))
          (write_pages os n i u)
  unfolding write_pages
  write_pages-HasPages zero i u le = returns ((λ j a b. absurd (omega arith)), refl, λ j b. refl)
  write_pages-HasPages (suc n) i u le =
      Monad.bind
        (Monad.lift
          {Q = λ _ t.
            ((b : Addr) → get t.system b ≡ (if b == page os i then i else get u.system b))
            × (t.trace ≡ u.trace)}
          (λ w. record u { system = w }) (v.store (page os i) i u.system) λ _ w m. (m, refl))
        λ _ t (m, e).
          Monad.mono (write_pages-HasPages n (suc i) t (omega arith)) λ _ t' (has, e', kept). (
            (λ j a b. elim (Bool-cases (j == i)) [
              | inl q ↦
                  let same = eq_of_== j i q in
                  rw same (kept i (omega arith) ∙ m (page os i) ∙ own i (get u.system (page os i)))
              | inr q ↦ has j (ground arith) (omega arith)
            ]),
            e' ∙ e,
            (λ j b. kept j (omega arith) ∙ m (page os j) ∙ below j b),
          )
    where
      own : (i : ℕ) (w : Word) → (if page os i == page os i then i else w) ≡ i
      own i w = rw (==-refl (page os i)) refl

      below :
          (j : ℕ)
          → j < i
          → (if page os j == page os i then i else get u.system (page os j))
            ≡ get u.system (page os j)
      below j b = rw (page_apart j i b (omega arith)) refl

  check_pages-false :
      (n i : ℕ) (u : Process S)
      → HasPages n i u.system
      → Returns (λ corrupt t. (corrupt ≡ false) × (t.trace ≡ u.trace)) (check_pages os n i u)
  unfolding check_pages
  check_pages-false zero i u has = returns (refl, refl)
  check_pages-false (suc n) i u has =
      Monad.bind
        (Monad.lift {Q = λ w t. (w ≡ i) × HasPages n (suc i) t.system × (t.trace ≡ u.trace)}
          (λ w. record u { system = w }) (v.load (page os i) u.system)
          λ w t (e, m). (
            e ∙ has i (omega arith) (omega arith),
            (λ j a b. m (page os j) ∙ has j (omega arith) (omega arith)),
            refl,
          ))
        λ w t (e, has', q).
          rw (e, ==-refl i)
            (Monad.mono (check_pages-false n (suc i) t has') λ c t' (f, g). (f, g ∙ q))

  -- `swapTest` finds in its ten pages what it has written, says so, and ends when it reads in the
  -- system's segment.
  pub swap_test-Survives :
      (u : Process S)
      → Stops
          (λ e t.
            (e ≡ ended)
            × (t.trace
                ≡ said "swapTest ok: data survived swapper\n"
                  ∷ said "swapTest ok: wrote to pages of seg kUseg2\n"
                  ∷ said "swapTest starts\n"
                  ∷ u.trace))
          (swap_test os u)
  unfolding swap_test
  swap_test-Survives u = Monad.bind-Stops (say-Calls "swapTest starts\n" u refl) λ _ u1 c1.
      Monad.bind-Stops (write_pages-HasPages 10 20 u1 (omega arith)) λ _ u2 (has, e2, _).
        Monad.bind-Stops (say-Calls "swapTest ok: wrote to pages of seg kUseg2\n" u2 refl)
          λ _ u3 c3.
            Monad.bind-Stops
              (check_pages-false 10 20 u3 (λ j a b. c3.memory (page os j) ∙ has j a b))
              λ corrupt u4 (whole, e4). rw whole (
                Monad.bind-Stops (say-Calls "swapTest ok: data survived swapper\n" u4 refl)
                  λ _ u5 c5. Monad.Stops-first _ (
                    Monad.lift-Stops (λ w. record u5 { system = w }) (v.guarded u5.system)
                      λ e w q. (q, rw (sym c1.trace, sym e2, sym c3.trace, sym e4) c5.trace)))
