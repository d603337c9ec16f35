-- ===== src/Lifetimes.antt =====
-- kernel/thread.c: the making, the end and the collecting of threads, with the calls of
-- kernel/sched.c for their policies. The memory for a stack and for a descriptor is an argument, as
-- `kmalloc` returns it; `freed` lists what was given back, the last first, and a descriptor keeps its fields when
-- it is freed. Messages, contexts and the address space of a process are not part of it. A call is
-- `none` where the kernel halts or follows `NULL`.
pub mod Calls
pub mod Released
pub mod Exit
pub mod Collect
pub mod Twice
pub mod Start
pub mod First
use diplomski_rad.Base.{
  ℕ, ◌-◌, Bool, true, false, not, ◌&&◌, ◌||◌, Option, none, some, List, [], ◌∷◌, ◌++◌, ltb, leb,
  ◌==◌, if◌then◌else◌, ◌>>=◌, update,
}
use diplomski_rad.Base.Int.{ℤ, pos, negsuc, neg, ◌+ℤ◌, ◌-ℤ◌, ltb_ℤ}
use diplomski_rad.Base.Members.{has, erase}
use diplomski_rad.Errors.{success, e_dont_exist, e_invalid_handle, e_not_finished, e_retry}
use diplomski_rad.Identifiers.{Ids, k_new_unique_id, k_free_unique_id}
use diplomski_rad.Threads.{
  Kernel, Thread, ThreadState, active, ready, wait, passive, same_state, ready_q, join_queue, null,
  prio_levels, at_last, put_thread, put_queue, kthreadq_remove, kthreadq_get, kthreadq_release_all,
  kthread_ready_list_set_empty, kthread_move_to_ready, kthread_enqueue, set_errno,
}
use diplomski_rad.Scheduler.{Env, call_hook, kthreads_schedule}

-- The kernel, `all_threads`, `procs`, the identifiers, the rest of each thread's descriptor, and of
-- each process.
pub record Procs : Type 0 where
  pub kernel : Kernel
  pub all_threads : List ℕ
  pub procs : List ℕ
  pub ids : Ids
  pub stack : ℕ → ℕ
  pub private_storage : ℕ → ℕ
  pub proc : ℕ → ℕ
  pub thr_count : ℕ → ℤ
  pub pi : ℕ → ℕ
  pub freed : List ℕ

abbrev pub with_kernel : Procs → Kernel → Procs
with_kernel s k = record s { kernel = k }

-- `SCHED_NUM`.
abbrev pub sched_num : ℕ
sched_num = 3

abbrev pub is_zero : ℤ → Bool
is_zero (pos n) = n == 0
is_zero (negsuc n) = false

-- `if ( p ) kfree ( p )`.
abbrev pub free_some : ℕ → Procs → Procs
free_some p s = record s { freed = if p == null then s.freed else p ∷ s.freed }

unfoldable pub ksched_thread_add : Env → ℕ → ℕ → Kernel → Option Kernel
ksched_thread_add e t policy k =
    if ltb policy sched_num
    then call_hook (λ s. s.thread_add) (e.ksched policy) t
        (put_thread t (record (k.threads t) { sched_policy = policy; activated = false }) k)
    else none

unfoldable pub ksched_thread_remove : Env → ℕ → Kernel → Option Kernel
ksched_thread_remove e t k =
    call_hook (λ s. s.thread_remove) (e.ksched (k.threads t).sched_policy) t k

-- The old policy, and the kernel.
unfoldable pub ksched_set_thread_policy : Env → ℕ → ℕ → Kernel → Option (ℕ × Kernel)
ksched_set_thread_policy e t policy k =
    let old = (k.threads t).sched_policy in
    if not (ltb old sched_num && ltb policy sched_num)
    then none
    else if old == policy
    then some (old, k)
    else (do
      k1 ← call_hook (λ s. s.thread_remove) (e.ksched old) t k
      k2 ←
          call_hook (λ s. s.thread_add) (e.ksched policy) t
            (put_thread t (record (k1.threads t) { sched_policy = policy }) k1)
      some (old, k2))

-- The priority is put between 0 and the highest one.
unfoldable pub clamp_prio : ℤ → ℕ
clamp_prio (pos n) = if leb prio_levels n then prio_levels - 1 else n
clamp_prio (negsuc n) = 0

-- A new descriptor at `fresh`.
unfoldable pub kthread_create : Env → ℕ → ℕ → ℕ → ℤ → Bool → ℕ → Procs → Option (ℕ × Procs)
kthread_create e fresh stack policy prio run proc s =
    if (stack == null) || (fresh == null) then none else (do
      given ← k_new_unique_id s.ids
      let made = put_queue (join_queue fresh) [] (
          put_thread fresh
            (record (s.kernel.threads fresh) {
              id = given.0;
              state = passive;
              prio = clamp_prio prio;
              queue = none;
              exit_status = pos 0;
              ref_cnt = if run then pos 1 else pos 0;
            })
            s.kernel)
      k ←
          ksched_thread_add e fresh policy
            (if run then kthread_move_to_ready fresh at_last made else made)
      some (
        fresh,
        record s {
          kernel = k;
          all_threads = s.all_threads ++ fresh ∷ [];
          ids = given.1;
          stack = update s.stack fresh stack;
          private_storage = update s.private_storage fresh null;
          proc = update s.proc fresh proc;
          thr_count = update s.thr_count proc (s.thr_count proc +ℤ pos 1);
        },
      ))

unfoldable pub kthread_remove_descriptor : ℕ → Procs → Option Procs
kthread_remove_descriptor t s = do
  rest ← k_free_unique_id (s.kernel.threads t).id s.ids
  if has t s.all_threads
      then some (record s {
        kernel = put_thread t (record (s.kernel.threads t) { id = 0 }) s.kernel;
        all_threads = erase t s.all_threads;
        ids = rest;
        freed = t ∷ s.freed;
      })
      else none

-- The first part of `kthread_cancel`, for a thread that is not passive: it leaves its queue.
unfoldable pub leave_queue : ThreadState → ℕ → Kernel → Option Kernel
leave_queue ready t k = do
  q ← (k.threads t).queue
  let p = (k.threads t).prio
  let k1 = (kthreadq_remove q t k).1
  some (if kthreadq_get (ready_q p) k1 == null then kthread_ready_list_set_empty p k1 else k1)
leave_queue wait t k = do q ← (k.threads t).queue; some (kthreadq_remove q t k).1
leave_queue active t k = some (put_thread t (record (k.threads t) { state = passive }) k)
leave_queue passive t k = some k

-- A process without threads is removed.
unfoldable pub end_process : ℕ → Procs → Option Procs
end_process p s =
    if is_zero (s.thr_count p) && not (s.pi p == null)
    then if has p s.procs
      then some (record s { procs = erase p s.procs; freed = p ∷ s.pi p ∷ s.freed })
      else none
    else some s

-- The descriptor goes, or those who wait for the thread are released.
unfoldable pub end_thread : ℕ → Procs → Option Procs
end_thread t s =
    if is_zero (s.kernel.threads t).ref_cnt
    then kthread_remove_descriptor t s
    else some (with_kernel s (kthreadq_release_all (join_queue t) s.kernel).1)

-- The rest of `kthread_cancel` but the scheduling.
unfoldable pub finish_cancel : Env → ℕ → ℤ → Procs → Option Procs
finish_cancel e t status s =
    let th = s.kernel.threads t in
    let p = s.proc t in
    do
      k ← ksched_thread_remove e t (
          put_thread t (record th { ref_cnt = th.ref_cnt -ℤ pos 1; exit_status = status }) s.kernel)
      let s1 = record s { kernel = k; thr_count = update s.thr_count p (s.thr_count p -ℤ pos 1) }
      s2 ← end_process p (free_some (s.private_storage t) (free_some (s.stack t) s1))
      end_thread t s2

unfoldable pub kthread_cancel : Env → ℕ → ℤ → Procs → Option (ℤ × Procs)
kthread_cancel e t status s =
    let state = (s.kernel.threads t).state in
    if same_state state passive
    then some (pos success, s)
    else if same_state state active && not (t == s.kernel.active_thread)
    then some (pos e_dont_exist, s)
    else (do
      k ← leave_queue state t s.kernel
      s1 ← finish_cancel e t status (with_kernel s k)
      k1 ← kthreads_schedule e s1.kernel
      some (pos success, with_kernel s1 k1))
