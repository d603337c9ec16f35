-- ===== src/Tests/Wakeup.antt =====
-- Runs of the calls on alarms, on the small machine: thread 3 waits for the alarm at 7, which is due
-- after 3 s and 600 ns, and the one at 8 after 5 s and 400 ns.
use diplomski_rad.Base.{
  ℕ, ◌<◌, ◌≡◌, refl, Bool-cases, inl, inr, true, ◌||◌, none, some, [], ◌∷◌, ◌==◌, if◌then◌else◌,
  arith,
}
use diplomski_rad.Base.Int.{pos, ◌+ℤ◌}
use diplomski_rad.Base.Members.{has}
use diplomski_rad.Threads.{null}
use diplomski_rad.Clock.{Time, time, time_add}
use diplomski_rad.Clock.Order.{IsNormal}
use diplomski_rad.Alarms.{Kalarm, Alarms, Actions, k_schedule_alarms, sort_add}
use diplomski_rad.Alarms.Sorted.{IsSorted, AreNormal, sort_add-IsSorted}
use diplomski_rad.Alarms.Due.{WentOff}
use diplomski_rad.Alarms.Loop.{IsReady, k_schedule_alarms-WentOff}
use diplomski_rad.RoundRobin.{Rr, start_slice}
use diplomski_rad.Tests.Machine.{machine, machine-IsLinked}

abbrev bell : Time → Kalarm
bell exp_time = record {
  alarm = record {
    exp_time = exp_time;
    action = null;
    param = null;
    flags = 1;
    period = time (pos 0) (pos 0);
  };
  active = true;
  thread = 3;
}

abbrev nothing : Actions
nothing = record { spawn = λ t action param k. k; call = λ action param s. none }

abbrev bells : Alarms
bells = record {
  kernel = machine;
  kalarms = 7 ∷ 8 ∷ [];
  alarms = λ a.
      if a == 7
      then some (bell (time (pos 3) (pos 600)))
      else if a == 8
      then some (bell (time (pos 5) (pos 400)))
      else none;
  now = time (pos 4) (pos 100);
  threshold = time (pos 0) (pos 50);
  timer = none;
  ids = λ u. null;
}

small-IsNormal : (sec nsec : ℕ) → nsec < 1_000 → IsNormal (time (pos sec) (pos nsec))
small-IsNormal sec nsec small = record {
  nonneg = omega (arith, small);
  below = omega (arith, small);
}

bells-AreNormal : AreNormal bells
bells-AreNormal a = elim (Bool-cases (a == 7)) [
  | inl e ↦ rw e (small-IsNormal 3 600 (omega arith))
  | inr e ↦ rw e (elim (Bool-cases (a == 8)) [
    | inl f ↦ rw f (small-IsNormal 5 400 (omega arith))
    | inr f ↦ rw f (small-IsNormal 0 0 (omega arith))
  ])
]

bells-IsReady : IsReady bells (time_add bells.now bells.threshold) (7 ∷ 8 ∷ [])
unfolding time_add ◌+ℤ◌
bells-IsReady = record {
  normal = bells-AreNormal;
  clock = small-IsNormal 4 150 (omega arith);
  plain = (
    record {
      given = omega arith;
      what = bell (time (pos 3) (pos 600));
      there = refl;
      once = refl;
      quiet = refl;
    },
    (
      record {
        given = omega arith;
        what = bell (time (pos 5) (pos 400));
        there = refl;
        once = refl;
        quiet = refl;
      },
      tt,
    ),
  );
  sorted = ((omega arith, tt), (tt, tt));
  linked = machine-IsLinked;
}

k_schedule_alarms-WentOff_example :
    (m : ℕ) × (s' : Alarms) × (k_schedule_alarms nothing 3 bells ≡ some (m, s'))
    × WentOff bells s' (time_add bells.now bells.threshold)
k_schedule_alarms-WentOff_example =
    k_schedule_alarms-WentOff nothing 3 bells bells-IsReady (omega arith)

sort_add-IsSorted_example :
    IsSorted bells (sort_add 9 bells).kalarms
    × ((b : ℕ) → has b (sort_add 9 bells).kalarms ≡ (has b bells.kalarms || (b == 9)))
sort_add-IsSorted_example = sort_add-IsSorted bells 9 bells-AreNormal bells-IsReady.sorted

-- Thread 1 starts a slice at 4 s and 100 ns, and stops 20 ms later.
abbrev slices : Rr
slices = record {
  alarms = bells;
  time_slice = time (pos 0) (pos 50_000_000);
  threshold = time (pos 0) (pos 10_000_000);
  alarm = (bell (time (pos 0) (pos 0))).alarm;
  rr_alarm = 7;
  remainder = λ t. time (pos 0) (pos 30_000_000);
  slice_start = λ t. time (pos 0) (pos 0);
  slice_end = λ t. time (pos 0) (pos 0);
}

abbrev stopped : Rr
stopped = record (start_slice 1 slices) {
  alarms = record bells { now = time (pos 4) (pos 20_000_100) };
}
