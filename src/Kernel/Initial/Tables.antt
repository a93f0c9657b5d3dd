-- ===== src/Kernel/Initial/Tables.antt =====
-- The tables and the device semaphores in `main` of phase2/initial.c.
use kaya_project.Base.{
  ℕ, zero, suc, ◌-◌, ◌<◌, ◌≤◌, ◌≡◌, refl, ap, ◌∙◌, [], arith, ◌==◌, range, ==-refl, eq_of_==, inl,
  inr, Bool-cases, update, ok, put_back, Returns, returns,
}
use kaya_project.Base.Monad
use kaya_project.Base.Monad.{Run, ◌>>◌, ◌>>=◌}
use kaya_project.Machine.{Addr, null, max_proc}
use kaya_project.Pcb.Queue.Links.{empty}
use kaya_project.Pcb.Pool.{init_pcbs}
use kaya_project.Pcb.Pool.Cycle.{IsPool, init_pcbs-range}
use kaya_project.Asl.Table.{on_pcbs}
use kaya_project.Asl.List.{init_asl}
use kaya_project.Asl.Map.Start.{nobody, init_asl-IsAsl}
use kaya_project.Kernel.State.{Kernel, Layout}
use kaya_project.Kernel.Access.{on_asl, dev_sem, dev_sem_count}
use kaya_project.Kernel.Initial.{clear_dev_sems}
use kaya_project.Kernel.Invariant.{IsKernel}

-- The two tables are set up: every block is free, nobody waits, nobody is ready.
pub record Tables (k : Kernel) : Type 0 where
  pub pooled : Kernel
  pub end : Kernel
  pub pcbs : on_asl (on_pcbs init_pcbs) k ≡ ok tt pooled
  pub asl : on_asl init_asl pooled ≡ ok tt end
  pub kernel : IsKernel end [] nobody (range 0 max_proc)
  pub rest : end ≡ record k { asl = end.asl }

pub tables : (k : Kernel) → k.ready_que ≡ null → Tables k
tables k none =
    let (u, g, e, (q, r)) = Monad.returned (
      Monad.lift {Q = λ _ g. IsPool g.asl.pcbs (range 0 max_proc) × (g ≡ record k { asl = g.asl })}
        (λ a. record k { asl = a })
        (Monad.lift {Q = λ _ a. IsPool a.pcbs (range 0 max_proc)} (λ h. record (k.asl) { pcbs = h })
          (init_pcbs-range k.asl.pcbs) λ u h q. q)
        λ u a q. (q, refl)) in
    let (u', a, e', (m, same)) = Monad.returned (init_asl-IsAsl g.asl) in
    record {
      pooled = g;
      end = record g { asl = a };
      pcbs = e;
      asl = ap (put_back (λ b. record g { asl = b })) e';
      kernel = record {
        waits = m;
        queue = empty (ap (λ n. Kernel.ready_que n) r ∙ none) refl;
        free = rw same q;
        ready_idle = λ p n s. refl;
        ready_used = λ p n. absurd (cc n);
        pool_idle = λ p n s. refl;
      };
      rest = ap (λ (n : Kernel). record n { asl = a }) r;
    }

-- `clear_dev_sems` sets the last `n` of the semaphores to 0, and changes nothing else.
pub record Cleared (l : Layout) (n : ℕ) (k g : Kernel) : Type 0 where
  pub kept : (a : Addr) → k.ints a ≡ 0 → g.ints a ≡ 0
  pub zeros : (i : ℕ) → dev_sem_count - n ≤ i → i < dev_sem_count → g.ints (dev_sem l i) ≡ 0
  pub rest : g ≡ record k { ints = g.ints }

pub clear_dev_sems-Cleared :
    (l : Layout) (n : ℕ) (k : Kernel)
    → n ≤ dev_sem_count
    → Returns (λ _ g. Cleared l n k g) (clear_dev_sems n l k)
unfolding clear_dev_sems
clear_dev_sems-Cleared l zero k le =
    returns (record { kept = λ a z. z; zeros = λ i low high. absurd (omega arith); rest = refl })
clear_dev_sems-Cleared l (suc n) k le =
    let a = dev_sem l (dev_sem_count - suc n) in
    Monad.mono (clear_dev_sems-Cleared l n (record k { ints = update k.ints a 0 }) (omega arith))
      λ u g c. record {
        kept = λ b z. c.kept b (ground arith);
        zeros = λ i low high. elim (Bool-cases (i == dev_sem_count - suc n)) [
          | inl e ↦ rw (eq_of_== i (dev_sem_count - suc n) e) (c.kept a (rw (==-refl a) refl))
          | inr e ↦ c.zeros i (ground arith) high
        ];
        rest = c.rest;
      }
