-- ===== src/Tests/Sync.antt =====
-- Runs of the system calls that block and release threads, on the small machine: a semaphore at 7
-- with the handle at 100, on which thread 3 waits.
use diplomski_rad.Base.{◌≡◌, refl, inl, none, some, [], ◌∷◌, arith, ◌==◌, if◌then◌else◌}
use diplomski_rad.Base.Int.{pos}
use diplomski_rad.Semaphores.{Sems, sys__sem_post, sys__sem_wait}
use diplomski_rad.Semaphores.Spec.{counting, wait}
use diplomski_rad.Semaphores.Refine.{Shows, IsHandle, Done, sys__sem_post-post, sys__sem_wait-wait}
use diplomski_rad.Tests.Machine.{
  fifo, fifo-IsLawful, machine, machine-IsSettled, machine-HasReady, machine-queue,
}

abbrev sems : Sems
sems = record {
  kernel = machine;
  sem_value = λ a. if a == 7 then some (pos 0) else none;
  ptr = λ u. if u == 100 then 7 else 0;
}

sems-Shows : Shows sems 7 (counting 0 (3 ∷ []))
sems-Shows = record { value = refl; queue = machine-queue; fair = inl refl }

sems-IsHandle : IsHandle fifo sems 100 7
sems-IsHandle = record { given = omega arith; leads = refl; there = omega arith; public = refl }

sys__sem_post-post_example :
    (s' : Sems) × (sys__sem_post fifo 100 sems ≡ some (pos 0, s'))
    × Done fifo 7 (counting 0 []) sems s'
sys__sem_post-post_example =
    sys__sem_post-post fifo fifo-IsLawful sems 100 7 sems-IsHandle machine-IsSettled
      (counting 0 (3 ∷ [])) sems-Shows

sys__sem_wait-wait_example :
    (s' : Sems) × (sys__sem_wait fifo 100 sems ≡ some (pos 0, s'))
    × Done fifo 7 (wait machine.active_thread (counting 0 (3 ∷ []))) sems s'
sys__sem_wait-wait_example =
    sys__sem_wait-wait fifo fifo-IsLawful sems 100 7 sems-IsHandle machine-IsSettled
      (counting 0 (3 ∷ [])) sems-Shows machine-HasReady
