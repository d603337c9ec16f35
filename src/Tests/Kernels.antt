-- ===== src/Tests/Kernels.antt =====
-- Runs of kernel/thread.c on the small machine.
use diplomski_rad.Base.{◌≡◌, inl, some, arith}
use diplomski_rad.Threads.{Kernel}
use diplomski_rad.Scheduler.{kthreads_schedule}
use diplomski_rad.Scheduler.Laws.{IsSettled, Undisturbed}
use diplomski_rad.Scheduler.Priority.{chosen, kthread_set_prio, kthread_set_prio-IsSettled}
use diplomski_rad.Scheduler.Schedule.{kthreads_schedule-IsSettled}
use diplomski_rad.Tests.Machine.{fifo, fifo-IsLawful, machine, machine-IsLinked, machine-IsSettled}

kthreads_schedule-IsSettled_example :
    (k' : Kernel) × (kthreads_schedule fifo machine ≡ some k')
    × IsSettled k'
    × Undisturbed fifo machine k'
kthreads_schedule-IsSettled_example =
    kthreads_schedule-IsSettled fifo fifo-IsLawful machine machine-IsLinked
      (inl machine-IsSettled.running)

kthread_set_prio-IsSettled_example :
    (k' : Kernel) × (kthread_set_prio fifo 2 6 machine
      ≡ some ((machine.threads (chosen 2 machine)).prio, k'))
    × IsSettled k'
    × Undisturbed fifo machine k'
kthread_set_prio-IsSettled_example =
    kthread_set_prio-IsSettled fifo fifo-IsLawful 2 6 machine (omega arith) machine-IsSettled
