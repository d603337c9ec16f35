-- ===== src/Policies.antt =====
-- kernel/sched.c: the system calls on scheduling parameters. A user's `thread_t` is the pair of its
-- fields, and the parameters have the type `P`; `none` stands for `NULL`. The functions of the
-- secondary schedulers for parameters come as an argument, by the policy.
pub mod Settled
use diplomski_rad.Base.{
  ℕ, zero, suc, ◌+◌, Bool, true, false, not, ◌&&◌, Option, none, some, ltb, leb, ◌==◌,
  if◌then◌else◌, ◌>>=◌,
}
use diplomski_rad.Base.Int.{ℤ, pos, negsuc, neg}
use diplomski_rad.Errors.{e_invalid_handle, exit}
use diplomski_rad.Threads.{Kernel, null, prio_levels}
use diplomski_rad.Scheduler.{Env, Ksched}
use diplomski_rad.Scheduler.Priority.{kthread_set_prio}
use diplomski_rad.Lifetimes.{sched_num, ksched_set_thread_policy}

-- `sched_policy > 0 && sched_policy < SCHED_NUM`.
abbrev pub is_policy : ℤ → Bool
is_policy (pos n) = ltb 0 n && ltb n sched_num
is_policy (negsuc n) = false

-- `prio >= 0 && prio < PRIO_LEVELS`.
abbrev pub is_prio : ℤ → Bool
is_prio (pos n) = ltb n prio_levels
is_prio (negsuc n) = false

abbrev pub nat : ℤ → ℕ
nat (pos n) = n
nat (negsuc n) = 0

-- Whether the user's `thread_t` stands for a thread.
abbrev pub is_thread : Option (ℕ × ℕ) → Kernel → Bool
is_thread none k = false
is_thread (some (t, thr_id)) k = not (t == null) && (thr_id == (k.threads t).id)

abbrev pub thread_of : Option (ℕ × ℕ) → ℕ
thread_of none = null
thread_of (some (t, thr_id)) = t

-- The functions of the table for parameters.
pub record Tuning (P : Type 0) : Type 0 where
  pub set_thread : ℕ → Option (ℕ → P → Kernel → Option (ℤ × Kernel))
  pub get_thread : ℕ → Option (ℕ → Kernel → P)
  pub set_all : ℕ → Option (P → Kernel → Option Kernel)

module _ {P : Type 0} (e : Env) (h : Tuning P) where
  -- The parameters are handed on, if they and a function for them are there.
  unfoldable pub hand_on : ℕ → ℕ → Option P → Kernel → Option (ℤ × Kernel)
  hand_on t policy none k = some (pos 0, k)
  hand_on t policy (some p) k = elim (h.set_thread policy) [
    | none ↦ some (pos 0, k)
    | some f ↦ f t p k
  ]

  unfoldable pub sys__set_thread_sched_params :
      Option (ℕ × ℕ) → ℤ → ℤ → Option P → Kernel → Option (ℤ × Kernel)
  sys__set_thread_sched_params thread sched_policy prio params k =
      let t = thread_of thread in
      if not (is_thread thread k && is_policy sched_policy && is_prio prio)
      then some (exit e_invalid_handle k)
      else (do
        old ← ksched_set_thread_policy e t (nat sched_policy) k
        k1 ←
            if ltb 0 (nat prio)
            then (do done ← kthread_set_prio e t (nat prio) old.1; some done.1)
            else some old.1
        hand_on t (nat sched_policy) params k1)

  -- The value, the policy, the priority and the parameters, where the user asks for them, and the kernel.
  unfoldable pub sys__get_thread_sched_params :
      Option (ℕ × ℕ) → Kernel → (ℤ × Kernel) × Option (ℕ × ℕ × Option P)
  sys__get_thread_sched_params thread k =
      let t = thread_of thread in
      let th = k.threads t in
      let got : Option P = elim (h.get_thread th.sched_policy) [
        | none ↦ none
        | some f ↦ some (f t k)
      ] in
      if is_thread thread k
      then ((pos 0, k), some (th.sched_policy, th.prio, got))
      else (exit e_invalid_handle k, none)

  unfoldable pub sys__set_sched_params : ℤ → Option P → Kernel → Option (ℤ × Kernel)
  sys__set_sched_params sched_policy none k =
      if is_policy sched_policy then some (pos 0, k) else some (exit e_invalid_handle k)
  sys__set_sched_params sched_policy (some p) k =
      if is_policy sched_policy
      then elim (h.set_all (nat sched_policy)) [
        | none ↦ some (pos 0, k)
        | some f ↦ f p k >>= (λ k1. some (pos 0, k1))
      ]
      else some (exit e_invalid_handle k)

  unfoldable pub sys__get_sched_params : Option P → Kernel → ℤ × Kernel
  sys__get_sched_params params k = (pos 0, k)

-- `none` outside is a failed `ASSERT`.
unfoldable pub ksched_get : Env → ℕ → Option (Option Ksched)
ksched_get e policy = if ltb policy sched_num then some (e.ksched policy) else none

-- The loop of `ksched_init` from the entry `i`; `inits` has the `init` functions of the table.
unfoldable pub init_from : (ℕ → Option (Kernel → Option Kernel)) → ℕ → ℕ → Kernel → Option Kernel
init_from inits i zero k = some k
init_from inits i (suc n) k = elim (inits i) [
  | none ↦ init_from inits (i + 1) n k
  | some f ↦ f k >>= init_from inits (i + 1) n
]

unfoldable pub ksched_init : (ℕ → Option (Kernel → Option Kernel)) → Kernel → Option Kernel
ksched_init inits k = init_from inits 0 sched_num k
