-- ===== src/Tests/Deadlines.antt =====
-- Runs of EDF on the small machine: thread 3 waits in the queue at 7, which is one of EDF's, and its
-- deadline is at 5 s.
use diplomski_rad.Base.{
  ℕ, ◌≡◌, refl, ◌+◌, ◌||◌, inl, Bool, true, false, none, some, [], ◌==◌, arith,
}
use diplomski_rad.Base.Int.{pos}
use diplomski_rad.Base.Members.{has}
use diplomski_rad.Clock.{time, time_cmp}
use diplomski_rad.Threads.{null, queue_of}
use diplomski_rad.Scheduler.{Env}
use diplomski_rad.Scheduler.Laws.{IsSettled, IsLawful, Undisturbed}
use diplomski_rad.Alarms.{Actions}
use diplomski_rad.Edf.{Layout, Edf, kernel_of, k_edf_schedule, with_edf, schedule_edf}
use diplomski_rad.Edf.Schedule.{IsScheduled, k_edf_schedule-IsScheduled}
use diplomski_rad.Edf.Laws.{with_edf-IsLawful, schedule_edf-IsSettled}
use diplomski_rad.Edf.Calls.{edf_check_deadline, edf_period_timer}
use diplomski_rad.Edf.Timers.{IsLost, edf_period_timer-IsLost, edf_period_timer-IsSettled}
use diplomski_rad.Policies.{Tuning}
use diplomski_rad.Tests.Machine.{fifo, fifo-IsLawful, machine, machine-IsSettled, machine-queue}

abbrev deadlines : ℕ → Edf
deadlines now = record {
  alarms = record {
    kernel = machine;
    kalarms = [];
    alarms = λ a. none;
    now = time (pos now) (pos 0);
    threshold = time (pos 0) (pos 1000);
    timer = none;
    ids = λ a. null;
  };
  active = null;
  params = λ t. record {
    relative_deadline = time (pos 3) (pos 0);
    period = time (pos 4) (pos 0);
    next_run = time (pos 2) (pos 0);
    active_deadline = time (pos 5) (pos 0);
    flags = 0;
    edf_period_alarm = null;
    edf_deadline_alarm = null;
  };
}

-- The queue at 7 as `edf.ready`, and as `edf.wait`.
abbrev turns : Layout
turns = record {
  ready = 7;
  wait = 8;
  period_timer = 40;
  deadline_timer = 41;
  period_word = λ t. 50 + t;
  deadline_word = λ t. 60 + t;
}

abbrev pauses : Layout
pauses = record turns { ready = 8; wait = 7 }

-- The environment keeps EDF's queues for it.
abbrev private_fifo : Env
private_fifo = record fifo { is_private = λ a. (a == 7) || (a == 8) }

private_fifo-IsLawful : IsLawful private_fifo
private_fifo-IsLawful = record {
  msb = fifo-IsLawful.msb;
  activates = λ policy t k s. (k, refl, s, λ a o. refl);
  deactivates = λ policy t k s. (k, refl, s, λ a o. refl);
}

abbrev idle : Actions
idle = record { spawn = λ p a q k. k; call = λ a p s. some s }

three_waits : has 3 (machine.queues (queue_of 7)) ≡ true
unfolding has
three_waits = rw machine-queue refl

k_edf_schedule-IsScheduled_example :
    (b : Bool) × (s' : Edf) × (k_edf_schedule turns (deadlines 3) ≡ some (b, s'))
    × IsScheduled turns (deadlines 3) b s'
k_edf_schedule-IsScheduled_example =
    k_edf_schedule-IsScheduled turns (deadlines 3) machine-IsSettled.linked

with_edf-IsLawful_example : IsLawful (with_edf private_fifo turns (deadlines 3))
with_edf-IsLawful_example =
    with_edf-IsLawful private_fifo turns refl (deadlines 3) private_fifo-IsLawful

schedule_edf-IsSettled_example :
    (s' : Edf) × (schedule_edf private_fifo turns (deadlines 3) ≡ some s')
    × IsSettled (kernel_of s')
    × Undisturbed private_fifo machine (kernel_of s')
schedule_edf-IsSettled_example =
    schedule_edf-IsSettled private_fifo turns private_fifo-IsLawful refl (deadlines 3)
      machine-IsSettled.linked (inl machine-IsSettled.running)

late : edf_check_deadline 3 (deadlines 6) ≡ true
unfolding edf_check_deadline time_cmp
late = refl

intime : edf_check_deadline 3 (deadlines 3) ≡ false
unfolding edf_check_deadline time_cmp
intime = refl

edf_period_timer-IsLost_example :
    (s' : Edf) × (edf_period_timer private_fifo idle 9 pauses 3 (deadlines 6) ≡ some s')
    × IsLost 3 (kernel_of s')
edf_period_timer-IsLost_example =
    edf_period_timer-IsLost private_fifo idle 9 pauses 3 (deadlines 6) machine-IsSettled
      (omega arith) three_waits late

edf_period_timer-IsSettled_example :
    (s' : Edf) × (edf_period_timer private_fifo idle 9 pauses 3 (deadlines 3) ≡ some s')
    × IsSettled (kernel_of s')
edf_period_timer-IsSettled_example =
    edf_period_timer-IsSettled private_fifo idle 9 pauses 3 (deadlines 3) machine-IsSettled
      (omega arith) three_waits private_fifo-IsLawful refl intime

-- Thread 2 comes from plain FIFO to EDF, with a priority above that of the active thread.
abbrev table : Env
table = with_edf private_fifo turns (deadlines 3)

abbrev no_functions : Tuning ℕ
no_functions = record {
  set_thread = λ policy. none;
  get_thread = λ policy. none;
  set_all = λ policy. none;
}
