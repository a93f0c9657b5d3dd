-- ===== src/Selftest/Main.antt =====
-- `main2` of phase1/p1test.c.
use kaya_project.Base.{◌>>◌}
use kaya_project.Selftest.Program.{Places, Test}
use kaya_project.Selftest.Queues.{check_pool, check_queues, check_removal}
use kaya_project.Selftest.Trees.{check_trees}
use kaya_project.Selftest.Semaphores.{check_insertion, check_wakes, check_heads}

-- `main2`
unfoldable pub main2 : Places → Test (Unit {0})
main2 l = do
  check_pool
  check_queues
  check_removal
  check_trees
  check_insertion l
  check_wakes l
  check_heads l
