-- ===== src/Edf/Timers.antt =====
-- `edf_period_timer`: what becomes of a thread that waits for its next period.
use diplomski_rad.Base.{
  ℕ, ◌≡◌, refl, sym, ◌≢◌, subst, inl, inr, true, false, Bool, some, ◌==◌, if◌then◌else◌, Bool-cases,
  eq_of_test, arith, ◌>>=◌,
}
use diplomski_rad.Base.Members.{has, erase}
use diplomski_rad.Threads.{
  Kernel, ThreadState, Place, queue_of, null, put_queue, kthreadq_append, kthreadq_remove,
}
use diplomski_rad.Threads.Links.{IsLinked}
use diplomski_rad.Threads.Moves.{IsLinked-leave}
use diplomski_rad.Threads.Ready.{Leaves-erase}
use diplomski_rad.Threads.Waiting.{enqueued, enqueued-IsLinked}
use diplomski_rad.Scheduler.{Env}
use diplomski_rad.Scheduler.Laws.{IsSettled, IsLawful}
use diplomski_rad.Alarms.{Actions}
use diplomski_rad.Edf.{Layout, Edf, kernel_of, with_kernel, schedule_edf}
use diplomski_rad.Edf.Preempt.{enqueue_lem}
use diplomski_rad.Edf.Schedule.{IsScheduled, k_edf_schedule-IsScheduled}
use diplomski_rad.Edf.Laws.{ready-HasReady, schedule_edf-IsSettled}
use diplomski_rad.Edf.Calls.{edf_check_deadline, edf_period_timer}

-- The kernel where `t` has left the queue `a` of waiting threads.
abbrev pub without : ℕ → ℕ → Kernel → Kernel
without t a k = put_queue (queue_of a) (erase t (k.queues (queue_of a))) k

module _ (t a : ℕ) (k : Kernel) (h : IsLinked null k) (nt : t ≢ null)
    (there : has t (k.queues (queue_of a)) ≡ true) where
  pub without-IsLinked : IsLinked t (without t a k)
  without-IsLinked =
      IsLinked-leave t (queue_of a) (erase t (k.queues (queue_of a))) k.rdy_mask k h nt there
        (Leaves-erase t _ (h.once (queue_of a))) h.masks (λ p hp. h.marks p hp)

  pub waits : (k.threads t).state ≡ ThreadState.wait
  waits = ((h.linked (queue_of a) t nt nt).0 there).1

  without_lem : kthreadq_remove (queue_of a) t k ≡ (t, without t a k)
  unfolding kthreadq_remove
  without_lem = let n : (t == null) ≡ false = ground arith in rw (n, there)

-- The threads are scheduled if `k_edf_schedule` says so.
pub rescheduled :
    (e : Env) (o : Layout)
    → IsLawful e
    → e.is_private o.ready ≡ true
    → (s s' : Edf) (b : Bool) → IsSettled (kernel_of s)
    → IsScheduled o s b s'
    → (r : Edf) × ((if b then schedule_edf e o s' else some s') ≡ some r) × IsSettled (kernel_of r)
rescheduled e o law private s s' true h sch = elim sch.changed [
  | inl (unchanged, _) ↦ cc
  | inr (_, na, r) ↦
      let (q, eq, g, u) =
        schedule_edf-IsSettled e o law private s' sch.linked
          (inr (ready-HasReady s'.active (kernel_of s') sch.linked na r)) in
      (q, eq, g)
]
rescheduled e o law private s s' false h sch = elim sch.changed [
  | inl (_, same) ↦ (s', refl, subst (λ r. IsSettled (kernel_of r)) (sym same) h)
  | inr (moved, _, _) ↦ cc
]

-- The thread waits, and it is in no queue from which it could be released.
pub record IsLost (t : ℕ) (k : Kernel) : Type 0 where
  pub waits : (k.threads t).state ≡ ThreadState.wait
  pub nowhere : (q : Place) → has t (k.queues q) ≡ false

module _ (e : Env) (acts : Actions) (fuel : ℕ) (o : Layout) (t : ℕ) (s : Edf)
    (h : IsSettled (kernel_of s)) (nt : t ≢ null)
    (there : has t ((kernel_of s).queues (queue_of o.wait)) ≡ true) where
  abbrev k1 : Kernel
  k1 = without t o.wait (kernel_of s)

  -- A thread that waits for its next period in a settled kernel, and whose deadline is over when
  -- the alarm of the period goes off, is lost: edf_period_timer does not halt, and the thread
  -- waits in no queue.
  pub edf_period_timer-IsLost :
      edf_check_deadline t s ≡ true
      → (s' : Edf) × (edf_period_timer e acts fuel o t s ≡ some s') × IsLost t (kernel_of s')
  unfolding edf_period_timer edf_check_deadline
  edf_period_timer-IsLost late =
      let n : (t == null) ≡ false = ground arith in
      let same : (t == t) ≡ true = ground arith in
      (
        with_kernel s k1,
        rw (n, without_lem t o.wait (kernel_of s) h.linked nt there, same, late) refl,
        record {
          waits = waits t o.wait (kernel_of s) h.linked nt there;
          nowhere = (without-IsLinked t o.wait (kernel_of s) h.linked nt there).away;
        },
      )

  abbrev k2 : Kernel
  k2 = enqueued t (queue_of o.ready) k1

  active_other : ((kernel_of s).active_thread == t) ≡ false
  active_other = elim (Bool-cases ((kernel_of s).active_thread == t)) [
    | inl e ↦ absurd (
        cc (
          h.running.1,
          subst (λ b. ((kernel_of s).threads b).state ≡ ThreadState.wait) (sym (eq_of_test _ _ e))
              (waits t o.wait (kernel_of s) h.linked nt there),
        ))
    | inr e ↦ e
  ]

  k2-IsSettled : IsSettled k2
  unfolding kthreadq_append
  k2-IsSettled = record {
    linked =
        enqueued-IsLinked t (queue_of o.ready) k1 tt
          (without-IsLinked t o.wait (kernel_of s) h.linked nt there) nt;
    running = (h.running.0, rw active_other h.running.1);
    top = λ p hp l. h.top p hp (rw active_other at l);
  }

  -- A thread that waits for its next period in a settled kernel with lawful schedulers, and whose
  -- deadline is not over: edf_period_timer does not halt and leaves a settled kernel.
  pub edf_period_timer-IsSettled :
      IsLawful e
      → e.is_private o.ready ≡ true
      → edf_check_deadline t s ≡ false
      → (s' : Edf) × (edf_period_timer e acts fuel o t s ≡ some s') × IsSettled (kernel_of s')
  unfolding edf_period_timer edf_check_deadline
  edf_period_timer-IsSettled law private intime =
      let n : (t == null) ≡ false = ground arith in
      let same : (t == t) ≡ true = ground arith in
      let (b, s3, run, sch) = k_edf_schedule-IsScheduled o (with_kernel s k2) k2-IsSettled.linked in
      rw (n, without_lem t o.wait (kernel_of s) h.linked nt there, same, intime)
        (rw (enqueue_lem t (queue_of o.ready) k1 nt, ◌>>=◌, run)
          (rescheduled e o law private (with_kernel s k2) s3 b k2-IsSettled sch))
