-- ===== src/Alarms/Calls.antt =====
-- The calls on alarms of kernel/time.c.
use Prim.Native.Nat.{bit_and}
use diplomski_rad.Base.{
  ℕ, ◌+◌, Bool, true, false, not, ◌&&◌, ◌||◌, Option, none, some, is_some, [], ◌==◌, if◌then◌else◌,
  ◌>>=◌, update,
}
use diplomski_rad.Base.Int.{ℤ, pos, negsuc, neg, ltb_ℤ, ◌+ℤ◌}
use diplomski_rad.Base.Members.{erase}
use diplomski_rad.Clock.{Time, time, time_cmp}
use diplomski_rad.Errors.{success, e_invalid_handle, e_not_expired}
use diplomski_rad.Threads.{
  queue_of, null, put_queue, set_errno, kthread_enqueue, kthreadq_release_all,
}
use diplomski_rad.Scheduler.{Env, kthreads_schedule}
use diplomski_rad.Alarms.{Alarm, Alarms, Actions, put_alarm, sort_add, k_schedule_alarms}

-- `if ( n ) kthreads_schedule ();`
abbrev schedule_if : Env → Bool → Alarms → Option Alarms
schedule_if e b s = do
  k ← if b then kthreads_schedule e s.kernel else some s.kernel
  some (record s { kernel = k })

unfoldable pub k_timer_interrupt : Env → Actions → ℕ → Alarms → Option Alarms
k_timer_interrupt e acts fuel s = do
  done ← k_schedule_alarms acts fuel s
  schedule_if e (not (done.0 == 0)) done.1

abbrev waits : Alarm → Bool
waits v = not (bit_and v.flags 1 == 0)

unfoldable pub k_alarm_add : Env → Actions → ℕ → ℕ → Alarms → Option Alarms
k_alarm_add e acts fuel a s = do
  v ← s.alarms a
  let given = ltb_ℤ (pos 0) (v.alarm.exp_time.sec +ℤ v.alarm.exp_time.nsec)
  let s1 = put_alarm a (record v { active = given }) s
  done ← k_schedule_alarms acts fuel (if given then sort_add a s1 else s1)
  v1 ← done.1.alarms a
  let k = set_errno success done.1.kernel
  let blocks = not (v1.thread == null) && v1.active && waits v1.alarm
  k1 ← if blocks then kthread_enqueue v1.thread (queue_of a) k else some k
  schedule_if e (blocks || not (done.0 == 0)) (record done.1 { kernel = k1 })

-- `syscall` tells whether a thread makes the alarm; `id` is the address of the word for the handle.
unfoldable pub k_alarm_new : Env → Actions → ℕ → ℕ → ℕ → Alarm → Bool → Alarms → Option (ℤ × Alarms)
k_alarm_new e acts fuel fresh id alarm syscall s = if fresh == null then none else do
  s1 ← k_alarm_add e acts fuel fresh (record s {
    kernel = put_queue (queue_of fresh) [] s.kernel;
    alarms = update s.alarms fresh (
        some (record {
          alarm = alarm;
          active = false;
          thread = if syscall then s.kernel.active_thread else null;
        }));
    ids = update s.ids id fresh;
  })
  some (neg success, s1)

abbrev is_same : ℤ → Bool
is_same (pos n) = n == 0
is_same (negsuc n) = false

unfoldable pub k_alarm_set : Env → Actions → ℕ → ℕ → Alarm → Alarms → Option (ℤ × Alarms)
k_alarm_set e acts fuel a alarm s = do
  v ← s.alarms a
  let kept = record alarm { exp_time = v.alarm.exp_time }
  let s1 = record (put_alarm a (record v { alarm = kept }) s) {
    kernel = set_errno success s.kernel;
  }
  if is_same (time_cmp v.alarm.exp_time alarm.exp_time) then some (neg success, s1) else (do
    s2 ← k_alarm_add e acts fuel a (record (put_alarm a (record v { alarm = alarm }) s1) {
      kalarms = if v.active then erase a s.kalarms else s.kalarms;
    })
    some (neg success, s2))

unfoldable pub k_alarm_remove : Env → Actions → ℕ → ℕ → Alarms → Option (ℤ × Alarms)
k_alarm_remove e acts fuel a s = do
  v ← s.alarms a
  let released = kthreadq_release_all (queue_of a) (set_errno success s.kernel)
  done ← k_schedule_alarms acts fuel (record s {
    kernel = released.1;
    kalarms = if v.active then erase a s.kalarms else s.kalarms;
    alarms = update s.alarms a none;
  })
  s1 ← schedule_if e (not (released.0 + done.0 == 0)) done.1
  some (neg success, s1)

-- `with_errno` is `EXIT`.
abbrev with_errno : ℕ → Alarms → Option (ℤ × Alarms)
with_errno n s = some (neg n, record s { kernel = set_errno n s.kernel })

unfoldable pub sys__alarm_new :
    Env → Actions → ℕ → ℕ → ℕ → Option Alarm → Alarms → Option (ℤ × Alarms)
sys__alarm_new e acts fuel fresh id none s = with_errno e_invalid_handle s
sys__alarm_new e acts fuel fresh id (some alarm) s =
    if id == null
    then with_errno e_invalid_handle s
    else k_alarm_new e acts fuel fresh id alarm true s

unfoldable pub sys__alarm_set : Env → Actions → ℕ → ℕ → Option Alarm → Alarms → Option (ℤ × Alarms)
sys__alarm_set e acts fuel id none s = with_errno e_invalid_handle s
sys__alarm_set e acts fuel id (some alarm) s =
    if id == null then with_errno e_invalid_handle s else k_alarm_set e acts fuel id alarm s

unfoldable pub sys__alarm_remove : Env → Actions → ℕ → ℕ → Alarms → Option (ℤ × Alarms)
sys__alarm_remove e acts fuel id s =
    if id == null then with_errno e_invalid_handle s else k_alarm_remove e acts fuel id s

-- The value, what is written to the user's alarm, and the state.
unfoldable pub sys__alarm_get : ℕ → ℕ → Alarms → ℤ × Option Alarm × Alarms
sys__alarm_get id alarm s =
    let failed : ℤ × Option Alarm × Alarms =
      (neg e_invalid_handle, none, record s { kernel = set_errno e_invalid_handle s.kernel }) in
    if (id == null) || (alarm == null) then failed else elim (s.alarms id) [
      | none ↦ failed
      | some v ↦ (neg success, some v.alarm, record s { kernel = set_errno success s.kernel })
    ]

unfoldable pub sys__get_time : ℕ → Alarms → ℤ × Option Time × Alarms
sys__get_time time s =
    if time == null
    then (neg e_invalid_handle, none, record s { kernel = set_errno e_invalid_handle s.kernel })
    else (neg success, some s.now, record s { kernel = set_errno success s.kernel })

-- `ipc_wait` tells whether the flag `IPC_WAIT` is set.
unfoldable pub sys__wait_for_alarm : Env → ℕ → Bool → Alarms → Option (ℤ × Alarms)
sys__wait_for_alarm e id ipc_wait s =
    if (id == null) || not (is_some (s.alarms id)) then with_errno e_invalid_handle s else do
      v ← s.alarms id
      let k = set_errno success s.kernel
      if v.active
          then if ipc_wait
            then (do
              k1 ← kthread_enqueue null (queue_of id) k
              k2 ← kthreads_schedule e k1
              some (pos 0, record s { kernel = k2 }))
            else some (neg e_not_expired, record s { kernel = set_errno e_not_expired k })
          else some (pos 0, record s { kernel = k })
