-- ===== src/RoundRobin.antt =====
-- kernel/sched_rr.c, over the alarms of kernel/time.c. The table of the secondary schedulers, which the
-- calls on alarms and on threads use again, stays an argument. `fresh` is the memory for the alarm.
pub mod Slices
use diplomski_rad.Base.{
  ℕ, ◌+◌, Bool, true, false, not, Option, none, some, ◌==◌, if◌then◌else◌, ◌>>=◌, update,
}
use diplomski_rad.Base.Int.{ℤ, pos, negsuc, leb_ℤ, ◌+ℤ◌}
use diplomski_rad.Clock.{Time, time, time_add, time_sub, time_cmp}
use diplomski_rad.Threads.{Kernel, kthread_is_ready, null, at_first, at_last, kthread_move_to_ready}
use diplomski_rad.Scheduler.{Env, kthreads_schedule}
use diplomski_rad.Alarms.{Alarm, Alarms, Actions}
use diplomski_rad.Alarms.Calls.{k_alarm_new, k_alarm_set}

-- The alarms, the parameters of the scheduler, and those of each thread.
pub record Rr : Type 0 where
  pub alarms : Alarms
  pub time_slice : Time
  pub threshold : Time
  pub alarm : Alarm
  pub rr_alarm : ℕ
  pub remainder : ℕ → Time
  pub slice_start : ℕ → Time
  pub slice_end : ℕ → Time

abbrev pub on_kernel : (Kernel → Kernel) → Rr → Rr
on_kernel f s = let a = s.alarms in record s { alarms = record a { kernel = f a.kernel } }

-- `timer` is the address of `rr_timer`, and `word` that of `params.rr.rr_alarm`.
unfoldable pub rr_init : Env → Actions → ℕ → ℕ → ℕ → ℕ → Rr → Option Rr
rr_init e acts fuel fresh timer word s =
    let empty : Alarm = record {
      exp_time = time (pos 0) (pos 0);
      action = timer;
      param = null;
      flags = 0;
      period = time (pos 0) (pos 0);
    } in
    do
      made ← k_alarm_new e acts fuel fresh word empty false s.alarms
      some (record s {
        alarms = made.1;
        time_slice = time (pos 0) (pos 50_000_000);
        threshold = time (pos 0) (pos 10_000_000);
        alarm = empty;
        rr_alarm = made.1.ids word;
      })

unfoldable pub rr_thread_add : ℕ → Rr → Rr
rr_thread_add t s = record s { remainder = update s.remainder t s.time_slice }

unfoldable pub rr_set_sched_parameters : Time → Rr → Rr
rr_set_sched_parameters time_slice s = record s { time_slice = time_slice }

unfoldable pub rr_set_thread_sched_parameters : ℕ → Time → Rr → Rr
rr_set_thread_sched_parameters t time_slice s = record s { time_slice = time_slice }

-- The remainder that a thread goes on with.
unfoldable pub replenished : ℕ → Rr → Time
replenished t s =
    if leb_ℤ (time_cmp (s.remainder t) s.threshold) (pos 0)
    then time_add (s.remainder t) s.time_slice
    else s.remainder t

-- The parameters of the thread and of the scheduler after the first part of `rr_thread_activate`.
unfoldable pub start_slice : ℕ → Rr → Rr
start_slice t s =
    let slice_end = time_add s.alarms.now (replenished t s) in
    record s {
      remainder = update s.remainder t (replenished t s);
      slice_start = update s.slice_start t s.alarms.now;
      slice_end = update s.slice_end t slice_end;
      alarm = record (s.alarm) { exp_time = slice_end; param = t };
    }

unfoldable pub rr_thread_activate : Env → Actions → ℕ → ℕ → Rr → Option Rr
rr_thread_activate e acts fuel t s =
    let s1 = start_slice t s in
    do
      done ← k_alarm_set e acts fuel s1.rr_alarm s1.alarm s1.alarms
      some (record s1 { alarms = done.1 })

-- The table of the schedulers is that of the state, in which the remainder is zero by then.
unfoldable pub rr_timer : (Rr → Env) → ℕ → Rr → Option Rr
rr_timer e t s = if not (s.alarms.kernel.active_thread == t) then some s else (do
  let s1 = record s { remainder = update s.remainder t (time (pos 0) (pos 0)) }
  k ← kthreads_schedule (e s1) (kthread_move_to_ready t at_last s1.alarms.kernel)
  some (on_kernel (λ old. k) s1))

abbrev pub is_null : ℤ → Bool
is_null (pos n) = n == 0
is_null (negsuc n) = false

-- The remainder is what is left of the slice. An active thread that has to stop is made ready here.
unfoldable pub rr_thread_deactivate : ℕ → Rr → Rr
rr_thread_deactivate t s =
    let left = time_sub (s.slice_end t) s.alarms.now in
    let side = if leb_ℤ (time_cmp left s.threshold) (pos 0) then at_last else at_first in
    if is_null ((s.remainder t).sec +ℤ (s.remainder t).nsec)
    then s
    else on_kernel (λ k. if kthread_is_ready t k then kthread_move_to_ready t side k else k)
        (record s { remainder = update s.remainder t left; slice_end = update s.slice_end t left })
