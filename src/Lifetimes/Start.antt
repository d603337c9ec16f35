-- ===== src/Lifetimes/Start.antt =====
-- `kthreads_init` of kernel/thread.c: the queues, the schedulers and the idle thread, which is the first
-- one. `inits` has the `init` functions of the table of schedulers; `kernel_proc` is the address of the
-- kernel's process.
use diplomski_rad.Base.{ℕ, true, Option, some, [], ◌>>=◌}
use diplomski_rad.Base.Int.{pos}
use diplomski_rad.Threads.{Kernel, null, kthread_ready_list_init}
use diplomski_rad.Scheduler.{Env, kthreads_schedule}
use diplomski_rad.Lifetimes.{Procs, with_kernel, kthread_create}
use diplomski_rad.Policies.{ksched_init}

unfoldable pub kthreads_init :
    Env → (ℕ → Option (Kernel → Option Kernel)) → ℕ → ℕ → ℕ → Procs → Option Procs
kthreads_init e inits kernel_proc fresh stack s = do
  k ← ksched_init inits (kthread_ready_list_init s.kernel)
  let s1 = record s { kernel = record k { active_thread = null }; all_threads = []; procs = [] }
  made ← kthread_create e fresh stack 0 (pos 0) true kernel_proc s1
  k1 ← kthreads_schedule e made.1.kernel
  some (with_kernel made.1 k1)
