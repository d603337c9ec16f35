-- ===== src/Edf/Calls.antt =====
-- kernel/sched_edf.c: the parameters of a thread, and the functions that its two alarms call. A call
-- on an alarm may schedule threads; what EDF's own hooks change in its state meanwhile is left out. `cancel`
-- is `kthread_cancel`, and the value that a blocked thread gets is left to its context.
use Prim.Native.Nat.{bit_and}
use diplomski_rad.Base.{ℕ, Bool, false, not, ◌&&◌, Option, none, some, ◌==◌, if◌then◌else◌, ◌>>=◌}
use diplomski_rad.Base.Int.{ℤ, pos, neg, negsuc, ltb_ℤ}
use diplomski_rad.Clock.{Time, time, time_add, time_sub, time_cmp}
use diplomski_rad.Errors.{e_deadline}
use diplomski_rad.Threads.{
  queue_of, null, at_last, put_thread, kthreadq_remove, kthread_move_to_ready, kthread_enqueue,
}
use diplomski_rad.Scheduler.{Env}
use diplomski_rad.Alarms.{Alarm, Alarms, Actions}
use diplomski_rad.Alarms.Calls.{k_alarm_new, k_alarm_set, k_alarm_remove}
use diplomski_rad.Edf.{
  Layout, Edf, kernel_of, with_kernel, put_params, k_edf_schedule, with_edf, schedule_edf,
}

-- `params->edf`.
pub record SchedParams : Type 0 where
  pub deadline : Time
  pub period : Time
  pub flags : ℕ

abbrev pub has_flag : ℕ → ℕ → Bool
has_flag flag flags = not (bit_and flags flag == 0)

abbrev pub edf_set : ℕ
edf_set = 1

abbrev pub edf_wait : ℕ
edf_wait = 2

abbrev pub edf_exit : ℕ
edf_exit = 4

abbrev pub edf_terminate : ℕ
edf_terminate = 8

abbrev pub edf_continue : ℕ
edf_continue = 16

abbrev pub edf_skip : ℕ
edf_skip = 32

-- Whether the deadline of a thread is over.
unfoldable pub edf_check_deadline : ℕ → Edf → Bool
edf_check_deadline t s = ltb_ℤ (pos 0) (time_cmp s.alarms.now (s.params t).active_deadline)

abbrev pub with_alarms : Edf → Alarms → Edf
with_alarms s a = record s { alarms = a }

-- The thread is the active one of EDF no more.
abbrev pub drop_active : ℕ → Edf → Edf
drop_active t s = if s.active == t then record s { active = null } else s

-- The next period begins.
abbrev pub next_period : ℕ → Edf → Edf
next_period t s =
    let p = s.params t in
    let next_run = time_add p.next_run p.period in
    put_params t
      (record p { next_run = next_run; active_deadline = time_add next_run p.relative_deadline }) s

module _ (e : Env) (acts : Actions) (fuel : ℕ) (o : Layout) where
  abbrev pub deadline_alarm : ℕ → Time → Alarm
  deadline_alarm t exp_time = record {
    exp_time = exp_time;
    action = o.deadline_timer;
    param = t;
    flags = 0;
    period = time (pos 0) (pos 0);
  }

  abbrev pub period_alarm : ℕ → Edf → Alarm
  period_alarm t s = record {
    exp_time = (s.params t).next_run;
    action = o.period_timer;
    param = t;
    flags = 4;
    period = (s.params t).period;
  }

  unfoldable pub edf_arm_period : ℕ → ℕ → Edf → Option Edf
  edf_arm_period fresh t s = do
    made ←
        k_alarm_new (with_edf e o s) acts fuel fresh (o.period_word t) (period_alarm t s) false
          s.alarms
    some (
        put_params t (record (s.params t) { edf_period_alarm = made.1.ids (o.period_word t) })
          (with_alarms s made.1))

  unfoldable pub edf_arm_deadline : ℕ → ℕ → Edf → Option Edf
  edf_arm_deadline fresh t s = do
    made ←
        k_alarm_new (with_edf e o s) acts fuel fresh (o.deadline_word t)
          (deadline_alarm t (time (pos 0) (pos 0))) false s.alarms
    some (
        put_params t (record (s.params t) { edf_deadline_alarm = made.1.ids (o.deadline_word t) })
          (with_alarms s made.1))

  -- `k_alarm_set` on the alarm for the deadline, which goes off then.
  unfoldable pub set_deadline : ℕ → Edf → Option Edf
  set_deadline t s = do
    done ←
        k_alarm_set (with_edf e o s) acts fuel (s.params t).edf_deadline_alarm
          (deadline_alarm t (s.params t).active_deadline) s.alarms
    some (with_alarms s done.1)

  unfoldable pub set_period : ℕ → Edf → Option Edf
  set_period t s = do
    done ←
        k_alarm_set (with_edf e o s) acts fuel (s.params t).edf_period_alarm (period_alarm t s)
          s.alarms
    some (with_alarms s done.1)

  unfoldable pub remove_alarm : ℕ → Edf → Option Edf
  remove_alarm a s = do
    done ← k_alarm_remove (with_edf e o s) acts fuel a s.alarms
    some (with_alarms s done.1)

  -- `kthread_enqueue` and `kthreads_schedule`.
  unfoldable pub enqueue_and_schedule : ℕ → ℕ → Edf → Option Edf
  enqueue_and_schedule t a s = do
    k ← kthread_enqueue t (queue_of a) (kernel_of s)
    schedule_edf e o (with_kernel s k)

  -- `EDF_SET`: the parameters, and the two alarms.
  unfoldable pub set_edf : ℕ → ℕ → ℕ → SchedParams → Edf → Option (ℤ × Edf)
  set_edf fresh fresh' t params s =
      let now = s.alarms.now in
      let given = record (s.params t) {
        period = params.period;
        relative_deadline = params.deadline;
        flags = params.flags;
        next_run = time_add now params.period;
      } in
      do
        s1 ← edf_arm_deadline fresh t (put_params t given s)
        s2 ← edf_arm_period fresh' t s1
        some (
          pos 0,
          put_params t
              (record (s2.params t) {
                next_run = time_sub now params.period;
                active_deadline = time_add now params.deadline;
              })
              s2,
        )

  -- `EDF_WAIT`: the thread waits for its next period, or for its turn.
  unfoldable pub wait_edf : ℕ → Edf → Option (ℤ × Edf)
  wait_edf t s =
      let now = s.alarms.now in
      let over = ltb_ℤ (pos 0) (time_cmp now (s.params t).next_run) in
      if edf_check_deadline t s then some (negsuc 0, s) else (do
        s1 ← if over then set_deadline t (drop_active t (next_period t s)) else some s
        let later = ltb_ℤ (pos 0) (time_cmp (s1.params t).next_run now)
        s2 ← enqueue_and_schedule t (if later then o.wait else o.ready) s1
        some (pos 0, s2))

  -- A thread's policy is plain FIFO from now on.
  abbrev pub leave_edf : ℕ → Edf → Edf
  leave_edf t s =
      with_kernel s
        (put_thread t (record ((kernel_of s).threads t) { sched_policy = 0 }) (kernel_of s))

  -- `EDF_EXIT`: the thread leaves EDF.
  unfoldable pub exit_edf : ℕ → Edf → Option (ℤ × Edf)
  exit_edf t s = if edf_check_deadline t s then some (negsuc 0, drop_active t s) else (do
    let s1 = drop_active t s
    let a = (s1.params t).edf_period_alarm
    s2 ← if a == null then some s1 else remove_alarm a s1
    let b = (s2.params t).edf_deadline_alarm
    s3 ← if b == null then some s2 else remove_alarm b s2
    done ← k_edf_schedule o (leave_edf t s3)
    s4 ← if done.0 then schedule_edf e o done.1 else some done.1
    some (pos 0, s4))

  unfoldable pub edf_set_thread_sched_parameters : ℕ → ℕ → ℕ → SchedParams → Edf → Option (ℤ × Edf)
  edf_set_thread_sched_parameters fresh fresh' t params s =
      let s1 = drop_active t s in
      if has_flag edf_set params.flags
      then set_edf fresh fresh' t params s1
      else if has_flag edf_wait params.flags
      then wait_edf t s1
      else if has_flag edf_exit params.flags
      then exit_edf t s1
      else some (pos 0, s1)

  unfoldable pub edf_thread_remove : ℕ → Edf → Option Edf
  edf_thread_remove t s =
      let s1 = drop_active t s in
      let a = (s1.params t).edf_period_alarm in
      do
        s2 ← if a == null then some s1 else (do
          r ← remove_alarm a s1
          some (put_params t (record (r.params t) { edf_period_alarm = null }) r))
        done ← k_edf_schedule o (leave_edf t s2)
        some done.1

  -- The alarm of a period: a thread that waits for it goes to the ready ones of EDF.
  unfoldable pub edf_period_timer : ℕ → Edf → Option Edf
  edf_period_timer t s =
      let removed = kthreadq_remove (queue_of o.wait) t (kernel_of s) in
      let s1 = with_kernel s removed.1 in
      if t == null
      then none
      else if (removed.0 == t) && not (edf_check_deadline t s1)
      then (do
        k ← kthread_enqueue t (queue_of o.ready) removed.1
        done ← k_edf_schedule o (with_kernel s k)
        if done.0 then schedule_edf e o done.1 else some done.1)
      else some s1

  -- `EDF_TERMINATE`: both alarms go, and the thread.
  unfoldable pub terminate : (ℕ → ℤ → Edf → Option Edf) → ℕ → Edf → Option Edf
  terminate cancel t s = do
    s1 ← remove_alarm (s.params t).edf_period_alarm s
    s2 ← remove_alarm (s1.params t).edf_deadline_alarm s1
    cancel t (neg e_deadline) (put_params t (record (s2.params t) { edf_period_alarm = null }) s2)

  -- `EDF_SKIP`: the alarms are set for the next period.
  unfoldable pub skip : ℕ → Edf → Option Edf
  skip t s = do
    s1 ← set_deadline t (drop_active t (next_period t s))
    s2 ← set_period t s1
    enqueue_and_schedule t o.ready s2

  -- The alarm of a deadline.
  unfoldable pub edf_deadline_timer : (ℕ → ℤ → Edf → Option Edf) → ℕ → Edf → Option Edf
  edf_deadline_timer cancel t s =
      let removed = kthreadq_remove (queue_of o.wait) t (kernel_of s) in
      let s1 = with_kernel s removed.1 in
      let flags = (s.params t).flags in
      if t == null
      then none
      else if not (edf_check_deadline t s1)
      then some s1
      else if removed.0 == t
      then (do
        let s2 = with_kernel s1 (kthread_move_to_ready t at_last removed.1)
        s3 ← if has_flag edf_terminate flags then terminate cancel t s2 else some s2
        schedule_edf e o s3)
      else if has_flag edf_terminate flags
      then terminate cancel t s1
      else if has_flag edf_continue flags
      then some s1
      else if has_flag edf_skip flags
      then skip t s1
      else some s1
