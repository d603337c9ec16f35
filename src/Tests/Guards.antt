-- ===== src/Tests/Guards.antt =====
-- Runs of the monitor calls on the small machine: the monitor at 7 with the handle at 100 is owned
-- by thread 1, and thread 3 waits to enter it; the monitor queue at 8 has the handle at 101, and the
-- monitor at 9, with the handle at 102, is free.
use diplomski_rad.Base.{
  ℕ, ◌≡◌, ◌≢◌, refl, true, false, none, some, [], ◌∷◌, ◌++◌, arith, ◌==◌, if◌then◌else◌,
}
use diplomski_rad.Base.Int.{pos}
use diplomski_rad.Threads.{queue_of}
use diplomski_rad.Monitors.{
  Monitors, monitor_of, sys__monitor_lock, sys__monitor_unlock, sys__monitor_wait,
  sys__monitor_signal, sys__monitor_broadcast,
}
use diplomski_rad.Monitors.Spec.{entrance, enter, leave}
use diplomski_rad.Monitors.Refine.{
  Shows, IsHandle, Done, sys__monitor_lock-enter, sys__monitor_unlock-leave,
}
use diplomski_rad.Monitors.Conditions.{Waits, sys__monitor_wait-leave}
use diplomski_rad.Scheduler.Laws.{IsSettled}
use diplomski_rad.Monitors.Going.{Known}
use diplomski_rad.Monitors.Broadcast.{
  IsMonitor, sys__monitor_broadcast-empty, sys__monitor_signal-enter,
}
use diplomski_rad.Threads.{
  kthread_ready_list_init, kthread_move_to_ready, kthreadq_append, kthread_ready_list_set_not_empty,
}
use diplomski_rad.Scheduler.Select.{promoted}
use diplomski_rad.Tests.Machine.{
  fifo, fifo-IsLawful, machine, machine-IsSettled, machine-HasReady, machine-queue, machine-active,
}

abbrev guards : Monitors
guards = record {
  kernel = machine;
  kmonitor = λ a.
      if a == 7
      then some (monitor_of true 1)
      else if a == 9
      then some (monitor_of false 0)
      else none;
  kqueue = λ a. if a == 8 then some tt else none;
  ptr = λ u. if u == 100 then 7 else if u == 101 then 8 else if u == 102 then 9 else 0;
}

guards-Shows : Shows guards 7 (entrance 1 (3 ∷ []))
guards-Shows = record { kept = refl; queue = machine-queue; fair = λ z. absurd (omega (arith, z)) }

guards-IsHandle : IsHandle fifo guards 100 7
guards-IsHandle = record { given = omega arith; leads = refl; there = omega arith; public = refl }

condition-IsHandle : IsHandle fifo guards 101 8
condition-IsHandle = record {
  given = omega arith;
  leads = refl;
  there = omega arith;
  public = refl;
}

mine : 1 ≡ machine.active_thread
mine = rw machine-active refl

sys__monitor_lock-enter_example :
    (s' : Monitors) × (sys__monitor_lock fifo 100 guards ≡ some (pos 0, s'))
    × Done fifo 7 (enter machine.active_thread (entrance 1 (3 ∷ []))) guards s'
sys__monitor_lock-enter_example =
    sys__monitor_lock-enter fifo fifo-IsLawful guards 100 7 guards-IsHandle machine-IsSettled
      (entrance 1 (3 ∷ [])) guards-Shows machine-HasReady

sys__monitor_unlock-leave_example :
    (s' : Monitors) × (sys__monitor_unlock fifo 100 guards ≡ some (pos 0, s'))
    × Done fifo 7 (leave (entrance 1 (3 ∷ []))) guards s'
sys__monitor_unlock-leave_example =
    sys__monitor_unlock-leave fifo fifo-IsLawful guards 100 7 guards-IsHandle machine-IsSettled
      (entrance 1 (3 ∷ [])) guards-Shows mine

sys__monitor_wait-leave_example :
    (s' : Monitors) × (sys__monitor_wait fifo 100 101 guards ≡ some (pos 0, s'))
    × Waits fifo 7 8
        (leave (entrance 1 (3 ∷ [])))
        (machine.queues (queue_of 8) ++ machine.active_thread ∷ [])
        guards
        s'
sys__monitor_wait-leave_example =
    sys__monitor_wait-leave fifo fifo-IsLawful guards 100 101 7 8 guards-IsHandle condition-IsHandle
      (omega arith) machine-IsSettled (entrance 1 (3 ∷ [])) guards-Shows mine refl machine-HasReady

-- Here the queue of waiting threads is a monitor queue: thread 3 waits in it for the monitor at 9.
abbrev signals : Monitors
signals = record {
  kernel = machine;
  kmonitor = λ a. if a == 9 then some (monitor_of false 0) else none;
  kqueue = λ a. if a == 7 then some tt else none;
  ptr = λ u. if u == 100 then 7 else 0;
}

signals-IsHandle : IsHandle fifo signals 100 7
signals-IsHandle = record { given = omega arith; leads = refl; there = omega arith; public = refl }

qdata_nine : (t : ℕ) → (machine.threads t).qdata ≡ 9
unfolding kthread_ready_list_init kthread_move_to_ready kthreadq_append
    kthread_ready_list_set_not_empty promoted
qdata_nine t = ground arith

signals-Known : Known 7 signals
signals-Known t i = rw (qdata_nine t) (monitor_of false 0, refl, omega arith)

machine-objects : machine.queues (queue_of 9) ≡ []
unfolding kthread_ready_list_init kthread_move_to_ready kthreadq_append
    kthread_ready_list_set_not_empty promoted
machine-objects = refl

signals-Shows : Shows signals (machine.threads 3).qdata (entrance 0 [])
signals-Shows =
    rw (qdata_nine 3) (record { kept = refl; queue = machine-objects; fair = λ z. refl })

sys__monitor_broadcast-empty_example :
    (s' : Monitors) × (sys__monitor_broadcast fifo 100 signals ≡ some (pos 0, s'))
    × IsSettled s'.kernel
    × (s'.kernel.queues (queue_of 7) ≡ [])
    × ((c : ℕ) → c ≢ 7 → fifo.is_private c ≡ false → IsMonitor signals c → IsMonitor s' c)
sys__monitor_broadcast-empty_example =
    sys__monitor_broadcast-empty fifo fifo-IsLawful signals 100 7 signals-IsHandle refl
      machine-IsSettled signals-Known

sys__monitor_signal-enter_example :
    (s' : Monitors) × (sys__monitor_signal fifo 100 signals ≡ some (pos 0, s'))
    × IsSettled s'.kernel
    × (s'.kernel.queues (queue_of 7) ≡ [])
    × Shows s' (machine.threads 3).qdata (enter 3 (entrance 0 []))
sys__monitor_signal-enter_example =
    sys__monitor_signal-enter fifo fifo-IsLawful signals 100 7 signals-IsHandle refl
      machine-IsSettled signals-Known 3 [] (entrance 0 []) machine-queue signals-Shows refl
