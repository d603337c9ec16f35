-- ===== src/Scheduler.antt =====
-- kernel/thread.c: `kthread_ready_list_highest` and `kthreads_schedule`, with the calls that
-- kernel/sched.c makes into a secondary scheduler. The schedulers of the table `ksched` come as an
-- argument, since the code calls them through pointers, and so does `msb_index`, an instruction of
-- the processor.
pub mod Highest
pub mod Laws
pub mod Retire
pub mod Select
pub mod Schedule
pub mod Blocking
pub mod Handing
pub mod Priority
use diplomski_rad.Base.{
  ℕ, zero, suc, ◌+◌, ◌*◌, Bool, true, false, not, ◌&&◌, ◌||◌, Option, none, some, List, ltb, ◌==◌,
  if◌then◌else◌, get_or, ◌>>=◌, is_some,
}
use diplomski_rad.Threads.{
  Kernel, Thread, active, same_state, ready_q, null, word_size, rdy_masks, at_last, put_thread,
  kthreadq_remove, kthreadq_get, kthread_ready_list_set_empty, kthread_move_to_ready,
}

-- `ksched_t`, less its parameters: `none` stands for `NULL`. A hook may halt the kernel.
pub record Ksched : Type 0 where
  pub thread_add : Option (ℕ → Kernel → Option Kernel)
  pub thread_remove : Option (ℕ → Kernel → Option Kernel)
  pub thread_activate : Option (ℕ → Kernel → Option Kernel)
  pub thread_deactivate : Option (ℕ → Kernel → Option Kernel)

-- What the scheduler is given: the instruction, the table of secondary schedulers, and which kernel
-- objects are theirs (alarms, and the queues of EDF): their hooks move threads in the queues of
-- those alone.
pub record Env : Type 0 where
  pub msb_index : ℕ → ℕ
  pub ksched : ℕ → Option Ksched
  pub is_private : ℕ → Bool

-- A call through an entry of the table, if it and its scheduler are there.
abbrev pub call_hook :
    (Ksched → Option (ℕ → Kernel → Option Kernel)) → Option Ksched → ℕ → Kernel → Option Kernel
call_hook field none t k = some k
call_hook field (some s) t k = elim (field s) [ none ↦ some k | some f ↦ f t k ]

unfoldable pub ksched_activate_thread : Env → ℕ → Kernel → Option Kernel
ksched_activate_thread e t k = if (k.threads t).activated then some k else do
  k' ← call_hook (λ s. s.thread_activate) (e.ksched (k.threads t).sched_policy) t k
  some (put_thread t (record (k'.threads t) { activated = true }) k')

unfoldable pub ksched_deactivate_thread : Env → ℕ → Kernel → Option Kernel
ksched_deactivate_thread e t k =
    if (k.threads t).activated
    then (do
      k' ← call_hook (λ s. s.thread_deactivate) (e.ksched (k.threads t).sched_policy) t k
      some (put_thread t (record (k'.threads t) { activated = false }) k'))
    else some k

-- The loop of `kthread_ready_list_highest` over the words below `n`, from the last one down.
-- `none` stands for -1.
unfoldable pub highest_below : Env → ℕ → List ℕ → Option ℕ
highest_below e zero masks = none
highest_below e (suc i) masks =
    let lower = highest_below e i masks in
    let word = get_or masks i 0 in
    if word == 0 then lower else some (i * word_size + e.msb_index word)

unfoldable pub kthread_ready_list_highest : Env → Kernel → Option ℕ
kthread_ready_list_highest e k = highest_below e rdy_masks k.rdy_mask

-- `highest_prio > prio`, where -1 is above nothing.
abbrev pub is_above : Option ℕ → ℕ → Bool
is_above none prio = false
is_above (some p) prio = ltb prio p

-- Whether `curr` may go on: it is there, and its state is active.
abbrev pub is_running : Kernel → Bool
is_running k = not (k.active_thread == null) && same_state (k.threads k.active_thread).state active

-- The last active thread goes back to the ready threads, unless its state has changed.
unfoldable pub retire : Env → Kernel → Option Kernel
retire e k = if k.active_thread == null then some k else do
  k' ← ksched_deactivate_thread e k.active_thread k
  some (
      if same_state (k'.threads k.active_thread).state active
      then kthread_move_to_ready k.active_thread at_last k'
      else k')

-- The first thread with the highest priority leaves the ready threads and becomes active.
unfoldable pub select : Env → Kernel → Option Kernel
select e k = elim (kthread_ready_list_highest e k) [
  | none ↦ none
  | some p ↦
      let (next, k') = kthreadq_remove (ready_q p) null k in
      if next == null
      then none
      else (let k'' =
            if kthreadq_get (ready_q p) k' == null then kthread_ready_list_set_empty p k' else k' in
          ksched_activate_thread e next (
            put_thread next (record (k''.threads next) { state = active; queue = none })
              (record k'' { active_thread = next })))
]

unfoldable pub kthreads_schedule : Env → Kernel → Option Kernel
kthreads_schedule e k =
    let highest = kthread_ready_list_highest e k in
    if not (is_running k || is_some highest)
    then none
    else if not (is_running k) || is_above highest (k.threads k.active_thread).prio
    then retire e k >>= select e
    else some k
