-- ===== src/Lifetimes/Calls.antt =====
-- The system calls on threads of kernel/thread.c. A user's `thread_t` is the pair of its fields, `none`
-- for `NULL`.
use diplomski_rad.Base.{
  ℕ, Bool, true, not, ◌&&◌, ◌||◌, Option, none, some, ◌==◌, if◌then◌else◌, ◌>>=◌,
}
use diplomski_rad.Base.Int.{ℤ, pos, negsuc, neg, ◌+ℤ◌, ◌-ℤ◌}
use diplomski_rad.Errors.{success, e_invalid_handle, e_not_finished, e_retry}
use diplomski_rad.Threads.{
  Thread, ready, wait, passive, same_state, join_queue, null, put_thread, kthread_enqueue,
  set_errno,
}
use diplomski_rad.Scheduler.{Env, kthreads_schedule}
use diplomski_rad.Lifetimes.{
  Procs, with_kernel, is_zero, kthread_create, kthread_remove_descriptor, kthread_cancel,
}

-- `EXIT`.
abbrev pub exit_with : ℕ → Procs → Option (ℤ × Procs)
exit_with e s = some (neg e, with_kernel s (set_errno e s.kernel))

abbrev pub thread_at : Procs → ℕ → Thread
thread_at s t = s.kernel.threads t

-- The state after `kthread->ref_cnt += n`.
abbrev pub count_ref : ℤ → ℕ → Procs → Procs
count_ref n t s =
    let th = thread_at s t in
    with_kernel s (put_thread t (record th { ref_cnt = th.ref_cnt +ℤ n }) s.kernel)

-- The descriptor, and what is written to the user's `thread_t`.
unfoldable pub sys__create_thread : Env → ℕ → ℕ → ℕ → ℤ → Procs → Option (ℤ × (ℕ × ℕ) × Procs)
sys__create_thread e fresh stack policy prio s = do
  made ← kthread_create e fresh stack policy prio true (s.proc s.kernel.active_thread) s
  k ← kthreads_schedule e (set_errno success made.1.kernel)
  some (neg success, (made.0, (thread_at made.1 made.0).id), with_kernel made.1 k)

unfoldable pub sys__thread_exit : Env → ℤ → Procs → Option (ℤ × Procs)
sys__thread_exit e status s = do
  done ← kthread_cancel e s.kernel.active_thread status s
  some (pos 0, done.1)

-- The wait for a thread that has not finished.
unfoldable pub join : Env → ℕ → Procs → Option (ℤ × Procs)
join e t s = do
  let s1 = count_ref (pos 1) t s
  k ← kthread_enqueue null (join_queue t) (set_errno e_retry s1.kernel)
  k1 ← kthreads_schedule e k
  some (neg e_retry, with_kernel s1 k1)

-- The status of a thread that has finished.
unfoldable pub collect : ℕ → Procs → Option (ℤ × Procs)
collect t s = do
  let s1 = count_ref (negsuc 0) t (with_kernel s (set_errno success s.kernel))
  s2 ← if is_zero (thread_at s1 t).ref_cnt then kthread_remove_descriptor t s1 else some s1
  some ((thread_at s t).exit_status, s2)

unfoldable pub sys__wait_for_thread : Env → Option (ℕ × ℕ) → Bool → Procs → Option (ℤ × Procs)
sys__wait_for_thread e none ipc_wait s = exit_with e_invalid_handle s
sys__wait_for_thread e (some (t, thr_id)) ipc_wait s =
    let gone = not ((thread_at s t).id == thr_id) in
    let over = same_state (thread_at s t).state passive in
    if t == null
    then exit_with e_invalid_handle s
    else if gone
    then exit_with success s
    else if over
    then collect t s
    else if ipc_wait
    then join e t s
    else exit_with e_not_finished s

-- `EXIT ( kthread_cancel ( kthread, -1 ) )`: the macro takes its argument twice, for the error number and
-- for the value.
unfoldable pub exit_cancel : Env → ℕ → Procs → Option (ℤ × Procs)
exit_cancel e t s = do
  once ← kthread_cancel e t (negsuc 0) s
  let k = once.1.kernel
  let a = k.active_thread
  let s1 = with_kernel once.1 (put_thread a (record (k.threads a) { errno = pos 0 -ℤ once.0 }) k)
  twice ← kthread_cancel e t (negsuc 0) s1
  some (pos 0 -ℤ twice.0, twice.1)

unfoldable pub sys__cancel_thread : Env → Option (ℕ × ℕ) → Procs → Option (ℤ × Procs)
sys__cancel_thread e none s = exit_with e_invalid_handle s
sys__cancel_thread e (some (t, thr_id)) s =
    let state = (thread_at s t).state in
    if t == null
    then exit_with e_invalid_handle s
    else if not ((thread_at s t).id == thr_id) || same_state state passive
    then exit_with success s
    else if same_state state ready || same_state state wait
    then exit_cancel e t s
    else exit_with e_invalid_handle s

-- What is written to the user's `thread_t`; `there` tells whether that was given.
unfoldable pub sys__thread_self : Bool → Procs → Option (ℕ × ℕ) × Option (ℤ × Procs)
sys__thread_self there s =
    let a = s.kernel.active_thread in
    if there
    then (some (a, (thread_at s a).id), exit_with success s)
    else (none, exit_with e_invalid_handle s)

unfoldable pub sys__set_errno : ℤ → Procs → ℤ × Procs
sys__set_errno n s =
    let a = s.kernel.active_thread in
    (pos 0, with_kernel s (put_thread a (record (thread_at s a) { errno = n }) s.kernel))

unfoldable pub sys__get_errno : Procs → ℤ
sys__get_errno s = (thread_at s s.kernel.active_thread).errno

-- `NULL` stands for the active thread.
abbrev pub given_or_active : ℕ → Procs → ℕ
given_or_active t s = if t == null then s.kernel.active_thread else t

unfoldable pub kthread_get_prio : ℕ → Procs → ℕ
kthread_get_prio t s = (thread_at s (given_or_active t s)).prio

unfoldable pub kthread_get_id : ℕ → Procs → ℕ
kthread_get_id t s = (thread_at s (given_or_active t s)).id

unfoldable pub kthread_get_process : ℕ → Procs → ℕ
kthread_get_process t s = s.proc (given_or_active t s)

unfoldable pub kthread_get_descriptor : Option (ℕ × ℕ) → Procs → ℕ
kthread_get_descriptor none s = null
kthread_get_descriptor (some (t, thr_id)) s =
    let th = thread_at s t in
    if not (t == null) && (thr_id == th.id) && not (same_state th.state passive) then t else null
