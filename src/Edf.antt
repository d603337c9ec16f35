-- ===== src/Edf.antt =====
-- kernel/sched_edf.c, the Earliest-Deadline-First scheduler, over the alarms of kernel/time.c. The
-- threads that EDF holds back stand in its two queues; a call is `none` where the kernel halts.
pub mod Preempt
pub mod Swap
pub mod Earliest
pub mod Schedule
pub mod Laws
pub mod Calls
pub mod Timers
use diplomski_rad.Base.{
  ℕ, Bool, true, false, not, ◌&&◌, ◌||◌, Option, none, some, is_some, List, [], ◌∷◌, ◌==◌,
  if◌then◌else◌, ◌>>=◌, update,
}
use diplomski_rad.Base.Int.{pos, ltb_ℤ}
use diplomski_rad.Base.Members.{first, rest, is_empty}
use diplomski_rad.Clock.{Time, time_cmp}
use diplomski_rad.Threads.{
  Kernel, Thread, ThreadState, same_state, queue_of, null, at_last, put_thread, put_queue,
  kthread_is_active, kthread_is_ready, kthreadq_remove, kthread_move_to_ready,
  kthread_remove_from_ready, kthread_enqueue,
}
use diplomski_rad.Scheduler.{
  Env, Ksched, call_hook, select, kthread_ready_list_highest, is_running, is_above,
}
use diplomski_rad.Alarms.{Alarms}

-- `ksched_edf_thread_params_t`.
pub record Params : Type 0 where
  pub relative_deadline : Time
  pub period : Time
  pub next_run : Time
  pub active_deadline : Time
  pub flags : ℕ
  pub edf_period_alarm : ℕ
  pub edf_deadline_alarm : ℕ

-- The addresses of the two queues, of the two functions for alarms, and of the words in a thread's
-- parameters that take the handles of its alarms.
pub record Layout : Type 0 where
  pub ready : ℕ
  pub wait : ℕ
  pub period_timer : ℕ
  pub deadline_timer : ℕ
  pub period_word : ℕ → ℕ
  pub deadline_word : ℕ → ℕ

-- The alarms with the kernel, `params.edf.active`, and the parameters of each thread.
pub record Edf : Type 0 where
  pub alarms : Alarms
  pub active : ℕ
  pub params : ℕ → Params

abbrev pub kernel_of : Edf → Kernel
kernel_of s = s.alarms.kernel

abbrev pub with_kernel : Edf → Kernel → Edf
with_kernel s k = let a = s.alarms in record s { alarms = record a { kernel = k } }

abbrev pub put_params : ℕ → Params → Edf → Edf
put_params t p s = record s { params = update s.params t p }

abbrev pub sched_edf : ℕ
sched_edf = 2

unfoldable pub edf_init : Layout → Edf → Edf
edf_init o s =
    with_kernel (record s { active = null })
      (put_queue (queue_of o.wait) [] (put_queue (queue_of o.ready) [] (kernel_of s)))

unfoldable pub edf_thread_add : ℕ → Edf → Edf
edf_thread_add t s = put_params t (record (s.params t) { edf_period_alarm = null }) s

-- The loop of `k_edf_schedule`: the first of the threads whose deadline is the earliest.
unfoldable pub earliest : (ℕ → Time) → ℕ → List ℕ → ℕ
earliest deadline t [] = t
earliest deadline t (next ∷ l) =
    earliest deadline (if ltb_ℤ (pos 0) (time_cmp (deadline t) (deadline next)) then next else t) l

abbrev pub deadline_in : Edf → ℕ → Time
deadline_in s t = (s.params t).active_deadline

unfoldable pub choose : Layout → Edf → ℕ
choose o s =
    let l = (kernel_of s).queues (queue_of o.ready) in
    if s.active == null
    then earliest (deadline_in s) (first l) (rest l)
    else earliest (deadline_in s) s.active l

-- The old active thread of EDF goes to `edf.ready`, unless it is blocked.
unfoldable pub preempt : Layout → ℕ → Kernel → Option Kernel
preempt o t k =
    let k1 =
      if kthread_is_active t k
      then put_thread t (record (k.threads t) { activated = false }) k
      else (kthread_remove_from_ready t k).1 in
    if kthread_is_ready t k then kthread_enqueue t (queue_of o.ready) k1 else some k

-- Whether the active thread of EDF changed.
unfoldable pub k_edf_schedule : Layout → Edf → Option (Bool × Edf)
k_edf_schedule o s =
    let t = choose o s in
    let removed = kthreadq_remove (queue_of o.ready) t (kernel_of s) in
    if is_empty ((kernel_of s).queues (queue_of o.ready))
    then some (false, s)
    else if (t == null) || (t == s.active)
    then some (false, s)
    else (do
      k ← if s.active == null then some removed.1 else preempt o s.active removed.1
      some (true, with_kernel (record s { active = t }) (kthread_move_to_ready t at_last k)))

-- `edf_thread_deactivate` as the entry of the table `ksched`, with the rest of the state fixed.
unfoldable pub deactivate_hook : Layout → Edf → ℕ → Kernel → Option Kernel
deactivate_hook o s t k = do done ← k_edf_schedule o (with_kernel s k); some (kernel_of done.1)

-- `edf_thread_remove` works on the alarms, whose calls use the table again: it comes with `e`.
abbrev pub remove_entry : Option Ksched → Option (ℕ → Kernel → Option Kernel)
remove_entry none = none
remove_entry (some s) = s.thread_remove

-- The table with EDF's own entry: `edf_thread_activate` only returns 0, and `edf_thread_add` changes
-- the parameters of the thread alone.
unfoldable pub with_edf : Env → Layout → Edf → Env
with_edf e o s = record e {
  ksched = λ policy.
      if policy == sched_edf
      then some (record {
        thread_add = some (λ t k. some k);
        thread_remove = remove_entry (e.ksched sched_edf);
        thread_activate = some (λ t k. some k);
        thread_deactivate = some (deactivate_hook o s);
      })
      else e.ksched policy;
}

-- `kthreads_schedule` where the threads' policy may be EDF, whose state it changes.
unfoldable pub deactivate : Env → Layout → ℕ → Edf → Option Edf
deactivate e o t s =
    let th = (kernel_of s).threads t in
    if th.activated
    then (do
      s1 ← if th.sched_policy == sched_edf then (do done ← k_edf_schedule o s; some done.1) else (do
        k ← call_hook (λ r. r.thread_deactivate) (e.ksched th.sched_policy) t (kernel_of s)
        some (with_kernel s k))
      some (
          with_kernel s1 (
            put_thread t (record ((kernel_of s1).threads t) { activated = false }) (kernel_of s1))))
    else some s

unfoldable pub retire_edf : Env → Layout → Edf → Option Edf
retire_edf e o s =
    let t = (kernel_of s).active_thread in
    if t == null then some s else do
      s1 ← deactivate e o t s
      some (
          if kthread_is_active t (kernel_of s1)
          then with_kernel s1 (kthread_move_to_ready t at_last (kernel_of s1))
          else s1)

unfoldable pub select_edf : Env → Layout → Edf → Option Edf
select_edf e o s = do k ← select (with_edf e o s) (kernel_of s); some (with_kernel s k)

unfoldable pub schedule_edf : Env → Layout → Edf → Option Edf
schedule_edf e o s =
    let k = kernel_of s in
    let highest = kthread_ready_list_highest e k in
    if not (is_running k || is_some highest)
    then none
    else if not (is_running k) || is_above highest (k.threads k.active_thread).prio
    then retire_edf e o s >>= select_edf e o
    else some s
