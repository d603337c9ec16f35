-- ===== src/Lifetimes/Twice.antt =====
-- `sys__cancel_thread` carries `kthread_cancel` out twice, since `EXIT` takes its argument twice.
use diplomski_rad.Base.{
  ℕ, suc, ◌<◌, ◌≡◌, refl, ap, ◌∙◌, ◌≢◌, inl, inr, true, false, not, ◌||◌, Option, none, some, List,
  [], ◌∷◌, ◌==◌, ltb, Bool-cases, arith, ◌>>=◌, update,
}
use diplomski_rad.Base.Int.{ℤ, pos, negsuc, ◌-ℤ◌, pos-dec}
use diplomski_rad.Base.Members.{has, erase}
use diplomski_rad.Bits.{MsbIndex}
use diplomski_rad.Identifiers.{Ids, k_free_unique_id}
use diplomski_rad.Threads.{
  Kernel, Thread, Place, active, passive, ready, wait, same_state, join_queue, queue_of, null,
  put_thread, prio_levels, rdy_masks, kthreadq_remove, kthreadq_release_all, kthreadq_release,
  release_loop,
}
use diplomski_rad.Threads.Masks.{marked, IsMask}
use diplomski_rad.Scheduler.{
  Env, kthread_ready_list_highest, highest_below, is_running, is_above, kthreads_schedule,
}
use diplomski_rad.Scheduler.Highest.{IsTop, highest_below_lem}
use diplomski_rad.Scheduler.Laws.{IsRunning, IsSettled}
use diplomski_rad.Lifetimes.{
  Procs, with_kernel, is_zero, ksched_thread_remove, leave_queue, end_process, end_thread,
  finish_cancel, kthread_remove_descriptor, kthread_cancel,
}
use diplomski_rad.Lifetimes.Calls.{thread_at, exit_cancel, sys__cancel_thread}

-- No ready thread has a higher priority than the one that runs: there is nothing to schedule.
pub record IsCalm (k : Kernel) : Type 0 where
  pub masks : IsMask k.rdy_mask
  pub running : IsRunning k
  pub top :
      (p : ℕ) → p < prio_levels → (k.threads k.active_thread).prio < p → marked k.rdy_mask p ≡ false

pub IsSettled-IsCalm : (k : Kernel) → IsSettled k → IsCalm k
IsSettled-IsCalm k h = record {
  masks = h.linked.masks;
  running = h.running;
  top = λ p hp l. h.linked.marks p hp ∙ ap not (h.top p hp l);
}

not_above :
    (k : Kernel) (r : Option ℕ)
    → IsCalm k
    → IsTop k.rdy_mask rdy_masks r
    → is_above r (k.threads k.active_thread).prio ≡ false
not_above k none h top = refl
not_above k (some p) h (hp, set_bit, above) =
    elim (Bool-cases (ltb (k.threads k.active_thread).prio p)) [
      | inl e ↦ cc (h.top p hp (ground arith), set_bit)
      | inr e ↦ e
    ]

stays : (e : Env) → MsbIndex e.msb_index → (k : Kernel) → IsCalm k → kthreads_schedule e k ≡ some k
unfolding kthreads_schedule kthread_ready_list_highest
stays e msb k h =
    let runs : is_running k ≡ true =
      let n : (k.active_thread == null) ≡ false = ground (arith, h.running.0) in
      rw n (ap (λ st. same_state st active) h.running.1) in
    rw (
      runs,
      not_above k (highest_below e rdy_masks k.rdy_mask) h
          (highest_below_lem e msb k.rdy_mask h.masks),
    )

-- The running thread and the masks are left alone.
IsCalm-frame :
    (k : Kernel) (threads : ℕ → Thread) (queues : Place → List ℕ)
    → (threads k.active_thread).state ≡ (k.threads k.active_thread).state
    → (threads k.active_thread).prio ≡ (k.threads k.active_thread).prio
    → IsCalm k
    → IsCalm (record k { threads = threads; queues = queues })
IsCalm-frame k threads queues st pr h = record {
  masks = h.masks;
  running = (h.running.0, st ∙ h.running.1);
  top = λ p hp l. h.top p hp (rw pr at l);
}

-- A thread that waits in the queue of the object `a`, under plain FIFO, with a stack; no thread waits
-- for it.
pub record IsBlocked (e : Env) (t a : ℕ) (s : Procs) : Type 0 where
  pub calm : IsCalm s.kernel
  pub there : t ≢ null
  pub other : (s.kernel.active_thread == t) ≡ false
  pub state : (thread_at s t).state ≡ wait
  pub queue : (thread_at s t).queue ≡ some (queue_of a)
  pub plain : e.ksched (thread_at s t).sched_policy ≡ none
  pub stack : (s.stack t == null) ≡ false
  pub storage : (s.private_storage t == null) ≡ true
  pub nobody : s.kernel.queues (join_queue t) ≡ []

-- The queues after the thread left its own.
removed_frame :
    (t a : ℕ) (k : Kernel)
    → t ≢ null
    → (g : Place → List ℕ) × ((kthreadq_remove (queue_of a) t k).1 ≡ record k { queues = g })
      × (g (join_queue t) ≡ k.queues (join_queue t))
unfolding kthreadq_remove
removed_frame t a k nt =
    let n : (t == null) ≡ false = ground arith in
    rw n (elim (Bool-cases (has t (k.queues (queue_of a)))) [
      | inl e ↦ rw e (_, refl, refl)
      | inr e ↦ rw e (k.queues, refl, refl)
    ])

release_nil : (q : Place) (k : Kernel) → k.queues q ≡ [] → kthreadq_release q k ≡ (false, k)
unfolding kthreadq_release kthreadq_remove
release_nil q k e = rw e

release_none : (q : Place) (k : Kernel) → k.queues q ≡ [] → (kthreadq_release_all q k).1 ≡ k
unfolding kthreadq_release_all release_loop
release_none q k e = rw (e, release_nil q k e)

module _ (e : Env) (msb : MsbIndex e.msb_index) (t a : ℕ) (status : ℤ) (s : Procs)
    (b : IsBlocked e t a s) where
  same_t : (t == t) ≡ true
  same_t = ground arith

  abbrev p : ℕ
  p = s.proc t

  -- What `end_thread` is given.
  abbrev detached : (Place → List ℕ) → Procs
  detached g =
      let th = s.kernel.threads t in
      record s {
        kernel =
            put_thread t (record th { ref_cnt = th.ref_cnt -ℤ pos 1; exit_status = status })
              (record s.kernel { queues = g });
        thr_count = update s.thr_count p (s.thr_count p -ℤ pos 1);
        freed = s.stack t ∷ s.freed;
      }

  -- The call up to `end_thread`, where the process has other threads.
  detached_lem :
      is_zero (s.thr_count p -ℤ pos 1) ≡ false
      → (g : Place → List ℕ) × (g (join_queue t) ≡ [])
        × (kthread_cancel e t status s ≡ (do
          s1 ← end_thread t (detached g)
          k1 ← kthreads_schedule e s1.kernel
          some (pos 0, with_kernel s1 k1)))
  unfolding kthread_cancel finish_cancel ksched_thread_remove end_process
  detached_lem more =
      let (g, eq, join) = removed_frame t a s.kernel b.there in
      let alive : same_state (thread_at s t).state passive ≡ false =
        ap (λ st. same_state st passive) b.state in
      let rests : same_state (thread_at s t).state active ≡ false =
        ap (λ st. same_state st active) b.state in
      let left : leave_queue (thread_at s t).state t s.kernel
          ≡ some (record s.kernel { queues = g }) =
        ap (λ st. leave_queue st t s.kernel) b.state ∙ left_wait g eq in
      let r : (p == p) ≡ true = ground arith in
      (
        g,
        join ∙ b.nobody,
        rw (alive, rests, left, ◌>>=◌, same_t, b.plain, b.stack, b.storage, r, more) refl,
      )
    where
      left_wait :
          (g : Place → List ℕ)
          → (kthreadq_remove (queue_of a) t s.kernel).1 ≡ record s.kernel { queues = g }
          → leave_queue wait t s.kernel ≡ some (record s.kernel { queues = g })
      left_wait g eq = unfold leave_queue in rw (b.queue, ◌>>=◌, eq) refl

  detached-IsCalm : (g : Place → List ℕ) → IsCalm (detached g).kernel
  detached-IsCalm g =
      IsCalm-frame s.kernel (detached g).kernel.threads g (rw b.other refl) (rw b.other refl) b.calm

  -- What the call leaves where the descriptor goes.
  abbrev removed : (Place → List ℕ) → Ids → Procs
  removed g ids' =
      let d = detached g in
      record d {
        kernel = put_thread t (record (d.kernel.threads t) { id = 0 }) d.kernel;
        all_threads = erase t s.all_threads;
        ids = ids';
        freed = t ∷ s.stack t ∷ s.freed;
      }

  removed-IsCalm : (g : Place → List ℕ) (ids' : Ids) → IsCalm (removed g ids').kernel
  removed-IsCalm g ids' =
      IsCalm-frame (detached g).kernel (removed g ids').kernel.threads g (rw b.other refl)
        (rw b.other refl) (detached-IsCalm g)

  ends_last :
      (g : Place → List ℕ) (ids' : Ids)
      → (thread_at s t).ref_cnt ≡ pos 1
      → has t s.all_threads ≡ true
      → k_free_unique_id (thread_at s t).id s.ids ≡ some ids'
      → end_thread t (detached g) ≡ some (removed g ids')
  unfolding end_thread kthread_remove_descriptor
  ends_last g ids' one listed taken =
      let none_left : is_zero ((detached g).kernel.threads t).ref_cnt ≡ true =
        rw same_t (ap (λ c. is_zero (c -ℤ pos 1)) one ∙ ap is_zero (pos-dec 0)) in
      let given : k_free_unique_id ((detached g).kernel.threads t).id s.ids ≡ some ids' =
        rw same_t taken in
      rw (none_left, given, listed, ◌>>=◌) refl

  -- The last reference goes, and with it the descriptor.
  pub cancel_last :
      (ids' : Ids)
      → is_zero (s.thr_count p -ℤ pos 1) ≡ false
      → (thread_at s t).ref_cnt ≡ pos 1
      → has t s.all_threads ≡ true
      → k_free_unique_id (thread_at s t).id s.ids ≡ some ids'
      → (g : Place → List ℕ) × (g (join_queue t) ≡ [])
        × (kthread_cancel e t status s ≡ some (pos 0, removed g ids'))
  cancel_last ids' more one listed taken =
      let (g, join, eq) = detached_lem more in
      (
        g,
        join,
        eq
            ∙ rw (
              ends_last g ids' one listed taken,
              ◌>>=◌,
              stays e msb (removed g ids').kernel (removed-IsCalm g ids'),
            ),
      )

  ends_again :
      (g : Place → List ℕ)
      → g (join_queue t) ≡ []
      → (thread_at s t).ref_cnt ≡ pos 0
      → end_thread t (detached g) ≡ some (detached g)
  unfolding end_thread
  ends_again g join none_left =
      let below : is_zero ((detached g).kernel.threads t).ref_cnt ≡ false =
        rw same_t (ap (λ c. is_zero (c -ℤ pos 1)) none_left ∙ (unfold ◌-ℤ◌ in refl)) in
      rw (below, release_none (join_queue t) (detached g).kernel join) refl

  -- A count that is zero before the call: nobody waits, and the descriptor stays.
  pub cancel_again :
      is_zero (s.thr_count p -ℤ pos 1) ≡ false
      → (thread_at s t).ref_cnt ≡ pos 0
      → (g : Place → List ℕ) × (kthread_cancel e t status s ≡ some (pos 0, detached g))
  cancel_again more none_left =
      let (g, join, eq) = detached_lem more in
      (
        g,
        eq
            ∙ rw (
              ends_again g join none_left,
              ◌>>=◌,
              stays e msb (detached g).kernel (detached-IsCalm g),
            ),
      )

module _ (e : Env) (msb : MsbIndex e.msb_index) (t a m : ℕ) (s : Procs) (ids' : Ids)
    (b : IsBlocked e t a s) (threads : s.thr_count (s.proc t) ≡ pos (suc (suc (suc m))))
    (one : (thread_at s t).ref_cnt ≡ pos 1) (listed : has t s.all_threads ≡ true)
    (taken : k_free_unique_id (thread_at s t).id s.ids ≡ some ids') where
  abbrev current : ℕ
  current = s.kernel.active_thread

  -- The state between the two calls: `SET_ERRNO` with the value of the first.
  abbrev between : (Place → List ℕ) → Procs
  between g =
      let r = removed e msb t a (negsuc 0) s b g ids' in
      let k = r.kernel in
      with_kernel r (put_thread current (record (k.threads current) { errno = pos 0 -ℤ pos 0 }) k)

  not_current : (t == current) ≡ false
  not_current = let o : (current == t) ≡ false = b.other in ground arith

  same : (t == t) ≡ true
  same = ground arith

  process : (s.proc t == s.proc t) ≡ true
  process = ground arith

  one_less : s.thr_count (s.proc t) -ℤ pos 1 ≡ pos (suc (suc m))
  one_less = ap (λ c. c -ℤ pos 1) threads ∙ pos-dec (suc (suc m))

  between-IsBlocked : (g : Place → List ℕ) → g (join_queue t) ≡ [] → IsBlocked e t a (between g)
  between-IsBlocked g join = record {
    calm =
        let r = removed e msb t a (negsuc 0) s b g ids' in
        let c : (current == current) ≡ true = ground arith in
        IsCalm-frame r.kernel (between g).kernel.threads g (rw c refl) (rw c refl)
          (removed-IsCalm e msb t a (negsuc 0) s b g ids');
    there = b.there;
    other = b.other;
    state = rw (not_current, same) b.state;
    queue = rw (not_current, same) b.queue;
    plain = rw (not_current, same) b.plain;
    stack = b.stack;
    storage = b.storage;
    nobody = join;
  }

  nothing : pos 0 -ℤ pos 0 ≡ pos 0
  nothing = unfold ◌-ℤ◌ in refl

  -- The two calls, one after the other.
  exit_cancel_lem :
      (g g' : Place → List ℕ) (join : g (join_queue t) ≡ [])
      → let d = detached e msb t a (negsuc 0) (between g) (between-IsBlocked g join) g' in
        kthread_cancel e t (negsuc 0) s ≡ some (pos 0, removed e msb t a (negsuc 0) s b g ids')
        → kthread_cancel e t (negsuc 0) (between g) ≡ some (pos 0, d)
        → exit_cancel e t s ≡ some (pos 0, d)
  unfolding exit_cancel
  exit_cancel_lem g g' join first second =
      let d = detached e msb t a (negsuc 0) (between g) (between-IsBlocked g join) g' in
      rw (first, ◌>>=◌)
        (ap (λ r. r >>= (λ twice. some (pos 0 -ℤ twice.0, twice.1))) second
          ∙ ap (λ v. some (v, d)) nothing)

  -- The tests of `sys__cancel_thread`.
  cancelled_lem : sys__cancel_thread e (some (t, (thread_at s t).id)) s ≡ exit_cancel e t s
  unfolding sys__cancel_thread
  cancelled_lem =
      let there : (t == null) ≡ false = let n = b.there in ground arith in
      let known : ((thread_at s t).id == (thread_at s t).id) ≡ true = ground arith in
      let alive : same_state (thread_at s t).state passive ≡ false =
        ap (λ st. same_state st passive) b.state in
      let queued : (same_state (thread_at s t).state ready || same_state (thread_at s t).state wait)
          ≡ true =
        ap (λ st. same_state st ready || same_state st wait) b.state in
      rw (there, known, alive, queued) refl

  -- A thread waits for an object; it is under plain FIFO, has a stack, no private storage and one
  -- reference, is on all_threads, has an identifier that can be freed, and no thread waits for
  -- it. Another thread runs, no ready thread has a higher priority than that one, msb_index finds
  -- the highest bit, and the process of the waiting thread has three threads or more. Then
  -- sys__cancel_thread with the thread and its identifier returns 0, frees the stack twice and
  -- the descriptor in between, and takes two from the process's count of threads.
  pub sys__cancel_thread-FreedTwice :
      (s' : Procs) × (sys__cancel_thread e (some (t, (thread_at s t).id)) s ≡ some (pos 0, s'))
      × (s'.freed ≡ s.stack t ∷ t ∷ s.stack t ∷ s.freed)
      × (s'.thr_count (s.proc t) ≡ pos (suc m))
  sys__cancel_thread-FreedTwice =
      let more : is_zero (s.thr_count (s.proc t) -ℤ pos 1) ≡ false =
        ap is_zero one_less ∙ ground arith in
      let (g, join, first) = cancel_last e msb t a (negsuc 0) s b ids' more one listed taken in
      let count : (between g).thr_count (s.proc t) ≡ pos (suc (suc m)) = rw process one_less in
      let more2 : is_zero ((between g).thr_count (s.proc t) -ℤ pos 1) ≡ false =
        ap (λ c. is_zero (c -ℤ pos 1)) count ∙ ap is_zero (pos-dec (suc m)) ∙ ground arith in
      let none_left : (thread_at (between g) t).ref_cnt ≡ pos 0 =
        rw (not_current, same) (ap (λ c. c -ℤ pos 1) one ∙ pos-dec 0) in
      let (g', second) =
        cancel_again e msb t a (negsuc 0) (between g) (between-IsBlocked g join) more2 none_left in
      (
        detached e msb t a (negsuc 0) (between g) (between-IsBlocked g join) g',
        cancelled_lem ∙ exit_cancel_lem g g' join first second,
        refl,
        rw process (ap (λ c. c -ℤ pos 1) one_less ∙ pos-dec (suc m)),
      )
