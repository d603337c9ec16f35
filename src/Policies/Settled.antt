-- ===== src/Policies/Settled.antt =====
-- `sys__set_thread_sched_params` between the secondary schedulers and the scheduling of threads.
use diplomski_rad.Base.{ℕ, ◌≡◌, ◌⊎◌, some, ◌>>=◌}
use diplomski_rad.Threads.{Kernel, put_thread}
use diplomski_rad.Scheduler.{Env, call_hook}

-- The thread keeps its policy, or the functions for one that leaves the old policy and comes to the
-- new one leave the kernel alone, as those of RR and the one of EDF for a thread that comes.
abbrev pub IsQuiet : Env → ℕ → ℕ → ℕ → Type 0
IsQuiet e old policy t =
    (old ≡ policy)
    ⊎ ((k : Kernel)
        → (call_hook (λ s. s.thread_remove) (e.ksched old) t k ≡ some k)
          × (call_hook (λ s. s.thread_add) (e.ksched policy) t k ≡ some k))

with_policy : ℕ → ℕ → Kernel → Kernel
with_policy t policy k = put_thread t (record (k.threads t) { sched_policy = policy }) k
