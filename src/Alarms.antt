-- ===== src/Alarms.antt =====
-- kernel/time.c. An alarm is known by its address; `none` stands for memory that does not hold the magic
-- number of an alarm. The `list_t` of the active ones is the list of their addresses. `now` is what
-- `arch_get_time` answers, `timer` what `arch_timer_set` was given last, and `fresh` what `kmalloc`
-- returns; a user's address stands as `U2K_GET_ADR` has translated it. The loop over the alarms that are
-- due takes at most `fuel` rounds. A call is `none` where the kernel halts or the rounds are not enough.
pub mod Calls
pub mod Sorted
pub mod Due
pub mod Loop
use Prim.Native.Nat.{bit_and}
use diplomski_rad.Base.{
  ℕ, zero, suc, ◌+◌, ◌/◌, Bool, true, false, not, ◌&&◌, Option, none, some, List, [], ◌∷◌, ◌++◌,
  ◌==◌, if◌then◌else◌, ◌>>=◌, update,
}
use diplomski_rad.Base.Int.{ℤ, pos, negsuc, leb_ℤ, ltb_ℤ, ◌+ℤ◌}
use diplomski_rad.Base.Members.{first, rest, erase}
use diplomski_rad.Clock.{Time, time, time_add, time_sub, time_cmp}
use diplomski_rad.Errors.{success}
use diplomski_rad.Threads.{
  Kernel, queue_of, null, put_queue, set_errno, kthread_enqueue, kthreadq_release_all,
}
use diplomski_rad.Scheduler.{Env, kthreads_schedule}

-- `alarm_t`.
pub record Alarm : Type 0 where
  pub exp_time : Time
  pub action : ℕ
  pub param : ℕ
  pub flags : ℕ
  pub period : Time

-- `kalarm_t`, less its queue of threads and its magic number.
pub record Kalarm : Type 0 where
  pub alarm : Alarm
  pub active : Bool
  pub thread : ℕ

pub record Alarms : Type 0 where
  pub kernel : Kernel
  pub kalarms : List ℕ
  pub alarms : ℕ → Option Kalarm
  pub now : Time
  pub threshold : Time
  pub timer : Option Time
  pub ids : ℕ → ℕ

-- What an alarm does when it is due: a thread's makes a thread by `kthread_create`, on the owner, the
-- function and its parameter; the kernel's calls the function.
pub record Actions : Type 0 where
  pub spawn : ℕ → ℕ → ℕ → Kernel → Kernel
  pub call : ℕ → ℕ → Alarms → Option Alarms

abbrev pub put_alarm : ℕ → Kalarm → Alarms → Alarms
put_alarm a v s = record s { alarms = update s.alarms a (some v) }

abbrev pub exp_time_in : Option Kalarm → Time
exp_time_in none = time (pos 0) (pos 0)
exp_time_in (some v) = v.alarm.exp_time

abbrev pub exp_time_of : Alarms → ℕ → Time
exp_time_of s a = exp_time_in (s.alarms a)

unfoldable pub alarm_cmp : Alarms → ℕ → ℕ → ℤ
alarm_cmp s a b = time_cmp (exp_time_of s a) (exp_time_of s b)

-- The place that `list_sort_add` finds: before the first alarm that is later.
unfoldable pub insert_before : Alarms → ℕ → List ℕ → List ℕ
insert_before s a [] = a ∷ []
insert_before s a (b ∷ l) =
    let further = insert_before s a l in
    if leb_ℤ (pos 0) (alarm_cmp s a b) then b ∷ further else a ∷ b ∷ l

unfoldable pub last_alarm : List ℕ → ℕ
last_alarm [] = null
last_alarm (a ∷ []) = a
last_alarm (a ∷ b ∷ l) = last_alarm (b ∷ l)

-- `list_sort_add ( &kalarms, kalarm, &kalarm->list, alarm_cmp )`.
unfoldable pub sort_add : ℕ → Alarms → Alarms
sort_add a s =
    let last = last_alarm s.kalarms in
    record s {
      kalarms =
          if not (last == null) && leb_ℤ (pos 0) (alarm_cmp s a last)
          then s.kalarms ++ a ∷ []
          else insert_before s a s.kalarms;
    }

abbrev pub is_periodic : Alarm → Bool
is_periodic v = not (bit_and v.flags 4 == 0)

-- An alarm that is due, taken off the list.
unfoldable pub expire : ℕ → Kalarm → Alarms → Alarms
expire a v s =
    let s1 = record s { kalarms = rest s.kalarms } in
    if is_periodic v.alarm
    then sort_add a (
        put_alarm a
          (record v {
            alarm = record (v.alarm) { exp_time = time_add v.alarm.exp_time v.alarm.period };
          })
          s1)
    else put_alarm a (record v { active = false }) s1

-- Its action: the number of threads it made, and the state.
unfoldable pub act : Actions → Kalarm → Alarms → Option (ℕ × Alarms)
act acts v s =
    if v.alarm.action == null
    then some (0, s)
    else if v.thread == null
    then (do s1 ← acts.call v.alarm.action v.alarm.param s; some (0, s1))
    else some (1, record s { kernel = acts.spawn v.thread v.alarm.action v.alarm.param s.kernel })

-- The loop, with the number of threads made or released so far.
unfoldable pub expire_due : Actions → ℕ → Time → ℕ → Alarms → Option (ℕ × Alarms)
expire_due acts zero ref_time resched s = none
expire_due acts (suc fuel) ref_time resched s =
    let a = first s.kalarms in
    if a == null then some (resched, s) else do
      v ← s.alarms a
      if leb_ℤ (time_cmp v.alarm.exp_time ref_time) (pos 0)
          then (do
            acted ← act acts v (expire a v s)
            let released = kthreadq_release_all (queue_of a) acted.1.kernel
            expire_due acts fuel ref_time (resched + acted.0 + released.0)
                (record acted.1 { kernel = released.1 }))
          else some (resched, s)

-- The timer is set to the time that is left for the first alarm.
unfoldable pub set_timer : Time → Alarms → Alarms
set_timer now s =
    if first s.kalarms == null
    then s
    else record s { timer = some (time_sub (exp_time_of s (first s.kalarms)) now) }

unfoldable pub k_schedule_alarms : Actions → ℕ → Alarms → Option (ℕ × Alarms)
k_schedule_alarms acts fuel s = do
  done ← expire_due acts fuel (time_add s.now s.threshold) 0 s
  some (done.0, set_timer s.now done.1)
