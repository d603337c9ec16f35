-- ===== src/Lifetimes/Exit.antt =====
-- `sys__thread_exit`, and what a thread gets that waits for the one that has exited.
use diplomski_rad.Base.{
  ℕ, suc, ◌≡◌, refl, sym, ap, ◌∙◌, subst, inl, inr, true, false, not, ◌&&◌, none, some, [], ◌==◌,
  Bool-cases, eq_of_test, arith, ◌>>=◌, update,
}
use diplomski_rad.Base.Int.{ℤ, pos, ◌-ℤ◌, pos-dec}
use diplomski_rad.Base.Members.{has}
use diplomski_rad.Threads.{
  Kernel, Thread, Place, active, passive, same_state, ready_q, join_queue, queue_of, null,
  put_thread, kthreadq_release_all,
}
use diplomski_rad.Threads.Links.{IsLinked, IsLinked-in, IsLinked-put_thread, Sits}
use diplomski_rad.Threads.Waiting.{kthreadq_release_all-Emptied}
use diplomski_rad.Scheduler.{Env, kthreads_schedule}
use diplomski_rad.Scheduler.Laws.{IsSettled, IsLawful, HasReady}
use diplomski_rad.Scheduler.Retire.{running-out}
use diplomski_rad.Scheduler.Schedule.{kthreads_schedule-IsSettled}
use diplomski_rad.Lifetimes.{
  Procs, with_kernel, is_zero, free_some, ksched_thread_remove, leave_queue, end_process,
  end_thread, finish_cancel, kthread_cancel,
}
use diplomski_rad.Lifetimes.Calls.{thread_at, sys__thread_exit}
use diplomski_rad.Lifetimes.Released.{readied, kthreadq_release_all-threads}

no_seat : (th : Thread) → th.state ≡ passive → (q : Place) → ¬ Sits th q
no_seat th e (ready_q p) s = cc (s.0, e)
no_seat th e (join_queue d) s = cc (s, e)
no_seat th e (queue_of a) s = cc (s, e)

-- A process has other threads, or is the kernel's, or is on the list of the processes.
abbrev pub CanEnd : ℤ → ℕ → Procs → Type 0
CanEnd count p s = (is_zero count && not (s.pi p == null)) ≡ true → has p s.procs ≡ true

-- The end of a process leaves the kernel alone.
end_process-kernel :
    (p : ℕ) (s : Procs)
    → CanEnd (s.thr_count p) p s
    → (s' : Procs) × (end_process p s ≡ some s') × (s'.kernel ≡ s.kernel)
unfolding end_process
end_process-kernel p s can = elim (Bool-cases (is_zero (s.thr_count p) && not (s.pi p == null))) [
  | inl e ↦ rw (e, can e) (_, refl, refl)
  | inr e ↦ rw e (s, refl, refl)
]

-- The descriptor of a thread that has exited, with one reference less.
abbrev pub exited : ℤ → Thread → Thread
exited status th = record th {
  state = passive;
  ref_cnt = th.ref_cnt -ℤ pos 1;
  exit_status = status;
}

-- After the exit of `t`: its descriptor stays, and those who waited for it are ready.
pub record Exited (t : ℕ) (status : ℤ) (s s' : Procs) : Type 0 where
  pub kept : thread_at s' t ≡ exited status (thread_at s t)
  pub nobody : s'.kernel.queues (join_queue t) ≡ []
  pub released :
      (a : ℕ)
      → has a (s.kernel.queues (join_queue t)) ≡ true
      → thread_at s' a ≡ readied (thread_at s a)
  pub linked : IsLinked null s'.kernel

module _ (e : Env) (law : IsLawful e) (status : ℤ) (s : Procs) (h : IsSettled s.kernel)
    (plain : e.ksched (thread_at s s.kernel.active_thread).sched_policy ≡ none) (n : ℕ)
    (counted : (thread_at s s.kernel.active_thread).ref_cnt ≡ pos (suc (suc n)))
    (can : CanEnd
      (s.thr_count (s.proc s.kernel.active_thread) -ℤ pos 1)
      (s.proc s.kernel.active_thread)
      s)
    (other : HasReady s.kernel) where
  abbrev t : ℕ
  t = s.kernel.active_thread

  same_t : (t == t) ≡ true
  same_t = ground arith

  abbrev stopped : Kernel
  stopped = put_thread t (record (s.kernel.threads t) { state = passive }) s.kernel

  abbrev noted : Kernel
  noted =
      let th = stopped.threads t in
      put_thread t (record th { ref_cnt = th.ref_cnt -ℤ pos 1; exit_status = status }) stopped

  noted_t : noted.threads t ≡ exited status (s.kernel.threads t)
  noted_t = rw same_t refl

  noted-IsLinked : IsLinked null noted
  noted-IsLinked =
      let out1 =
        IsLinked-put_thread t _ s.kernel (running-out s.kernel h.linked h.running)
          (h.linked.levels t) in
      let out2 = IsLinked-put_thread t _ stopped out1 (out1.levels t) in
      let over : (noted.threads t).state ≡ passive = ap (λ th. th.state) noted_t in
      IsLinked-in t noted out2 (no_seat (noted.threads t) over) (λ a. cc)

  abbrev p : ℕ
  p = s.proc t

  noted_removed : ksched_thread_remove e t noted ≡ some noted
  unfolding ksched_thread_remove
  noted_removed =
      let policy : (noted.threads t).sched_policy ≡ (thread_at s t).sched_policy =
        ap (λ th. th.sched_policy) noted_t in
      rw (policy, plain) refl

  -- What `end_process` is given.
  abbrev counted_off : Procs
  counted_off = free_some (s.private_storage t) (
      free_some (s.stack t)
        (record s { kernel = noted; thr_count = update s.thr_count p (s.thr_count p -ℤ pos 1) }))

  counted_off-CanEnd : CanEnd (counted_off.thr_count p) p counted_off
  counted_off-CanEnd = let r : (p == p) ≡ true = ground arith in rw r can

  end_thread_lem :
      (s2 : Procs)
      → s2.kernel ≡ noted
      → end_thread t s2 ≡ some (with_kernel s2 (kthreadq_release_all (join_queue t) noted).1)
  unfolding end_thread
  end_thread_lem s2 eq =
      let ref : (s2.kernel.threads t).ref_cnt ≡ pos (suc n) =
        ap (λ k. (k.threads t).ref_cnt) eq
        ∙ ap (λ th. th.ref_cnt) noted_t
        ∙ ap (λ c. c -ℤ pos 1) counted
        ∙ pos-dec (suc n) in
      let more : is_zero (s2.kernel.threads t).ref_cnt ≡ false = ap is_zero ref ∙ ground arith in
      rw more (ap (λ k. some (with_kernel s2 (kthreadq_release_all (join_queue t) k).1)) eq)

  finish_lem :
      (s2 : Procs) × (finish_cancel e t status (with_kernel s stopped) ≡ some s2)
      × (s2.kernel ≡ (kthreadq_release_all (join_queue t) noted).1)
  unfolding finish_cancel
  finish_lem =
      let (s2, eq, same) = end_process-kernel p counted_off counted_off-CanEnd in
      (
        with_kernel s2 (kthreadq_release_all (join_queue t) noted).1,
        rw (noted_removed, ◌>>=◌, eq) (end_thread_lem s2 same),
        refl,
      )

  cancel_lem : kthread_cancel e t status s ≡ (do
    s1 ← finish_cancel e t status (with_kernel s stopped)
    k1 ← kthreads_schedule e s1.kernel
    some (pos 0, with_kernel s1 k1))
  unfolding kthread_cancel
  cancel_lem =
      let alive : same_state (s.kernel.threads t).state passive ≡ false =
        ap (λ st. same_state st passive) h.running.1 in
      let left : leave_queue (s.kernel.threads t).state t s.kernel ≡ some stopped =
        ap (λ st. leave_queue st t s.kernel) h.running.1 ∙ left_active in
      rw (alive, same_t, left)
        (elim (Bool-cases (same_state (s.kernel.threads t).state active)) [
          | inl e ↦ rw e refl
          | inr e ↦ rw e refl
        ])
    where
      left_active : leave_queue active t s.kernel ≡ some stopped
      left_active = unfold leave_queue in refl

  away : has t (noted.queues (join_queue t)) ≡ false
  away = (running-out s.kernel h.linked h.running).away (join_queue t)

  -- Those who wait are other threads.
  other_thread :
      (a : ℕ) → has a (s.kernel.queues (join_queue t)) ≡ true → noted.threads a ≡ s.kernel.threads a
  other_thread a i = elim (Bool-cases (a == t)) [
    | inl e ↦
        absurd (
          cc
            (away, subst (λ b. has b (s.kernel.queues (join_queue t)) ≡ true) (eq_of_test a t e) i))
    | inr e ↦ rw e refl
  ]

  -- In a settled kernel with another ready thread, an active thread of plain FIFO exits to which
  -- others hold references, and whose process goes on or is on the list: sys__thread_exit does
  -- not halt and returns 0. Before the threads are scheduled, every thread that waited for it is
  -- ready and none waits any more, its descriptor keeps the status with one reference less, and
  -- the invariant of the queues holds; afterwards the kernel is settled.
  pub sys__thread_exit-Exited :
      (s' : Procs) × (k : Kernel) × (sys__thread_exit e status s ≡ some (pos 0, with_kernel s' k))
      × (kthreads_schedule e s'.kernel ≡ some k)
      × Exited t status s s'
      × IsSettled k
  unfolding sys__thread_exit
  sys__thread_exit-Exited =
      let (s2, eq, same) = finish_lem in
      let jq = join_queue t in
      let k2 = (kthreadq_release_all jq noted).1 in
      let em = (kthreadq_release_all-Emptied jq noted tt noted-IsLinked).1 in
      let threads = kthreadq_release_all-threads jq noted tt noted-IsLinked in
      let (q, hq, full) = other in
      let (k, run, settled, u) =
        kthreads_schedule-IsSettled e law k2 em.linked (inr (q, hq, em.keeps q full)) in
      let go : kthreads_schedule e s2.kernel ≡ some k = ap (kthreads_schedule e) same ∙ run in
      (
        s2,
        k,
        rw (cancel_lem, eq, ◌>>=◌, go) refl,
        go,
        record {
          kept = ap (λ m. m.threads t) same ∙ threads t ∙ rw away noted_t;
          nobody = ap (λ m. m.queues jq) same ∙ em.empty;
          released =
              λ a i. ap (λ m. m.threads a) same ∙ threads a ∙ rw i (ap readied (other_thread a i));
          linked = subst (IsLinked null) (sym same) em.linked;
        },
        settled,
      )
