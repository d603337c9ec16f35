-- ===== src/Scheduler/Blocking.antt =====
-- How a call of the kernel switches threads: the active thread blocks on the queue of an object, or
-- one thread or all are released from one. Each leaves the kernel settled.
use diplomski_rad.Base.{
  ℕ, ◌≡◌, ◌≢◌, refl, ◌∙◌, inr, false, some, List, [], ◌∷◌, ◌++◌, ◌==◌, if◌then◌else◌, arith,
}
use diplomski_rad.Threads.{
  Kernel, queue_of, null, kthread_enqueue, kthreadq_release, set_errno, kthreadq_release_all,
}
use diplomski_rad.Threads.Fields.{set_errno-IsLinked}
use diplomski_rad.Threads.Waiting.{
  enqueued, enqueued-IsLinked, enqueued-queue, enqueued-object, enqueued-ready, released,
  released-queue, released-object, released-IsLinked, leave_waiting, kthreadq_release-cons,
  kthreadq_release_all-nil, kthreadq_release_all-cons,
}
use diplomski_rad.Scheduler.{Env, kthreads_schedule}
use diplomski_rad.Scheduler.Laws.{HasReady, IsSettled, IsLawful}
use diplomski_rad.Scheduler.Retire.{running-out, moved-HasReady}
use diplomski_rad.Scheduler.Schedule.{kthreads_schedule-IsSettled}

-- The queues of all objects but `a` are left alone.
abbrev pub UndisturbedBut : Env → ℕ → Kernel → Kernel → Type 0
UndisturbedBut e a k k' =
    (b : ℕ) → b ≢ a → e.is_private b ≡ false → k'.queues (queue_of b) ≡ k.queues (queue_of b)

-- `k'` is settled, the queue of `a` is `l` in it, and no other object's queue has changed.
pub record Switched (e : Env) (a : ℕ) (l : List ℕ) (k k' : Kernel) : Type 0 where
  pub settled : IsSettled k'
  pub queue : k'.queues (queue_of a) ≡ l
  pub others : UndisturbedBut e a k k'

-- `SET_ERRNO` leaves a settled kernel settled.
pub set_errno-IsSettled : (n : ℕ) (k : Kernel) → IsSettled k → IsSettled (set_errno n k)
unfolding set_errno
set_errno-IsSettled n k s = record {
  linked = unfold set_errno in set_errno-IsLinked n k s.linked;
  running = (s.running.0, ground (arith, s.running));
  top = λ p hp l. s.top p hp (ground arith);
}

module _ (e : Env) (law : IsLawful e) (a : ℕ) (public : e.is_private a ≡ false) where
  -- `kthread_enqueue (NULL, &a->queue); kthreads_schedule ();`
  pub block_active :
      (k : Kernel)
      → IsSettled k
      → HasReady k
      → (k1 k' : Kernel) × (kthread_enqueue null (queue_of a) k ≡ some k1)
        × (kthreads_schedule e k1 ≡ some k')
        × Switched e a (k.queues (queue_of a) ++ k.active_thread ∷ []) k k'
  unfolding kthread_enqueue
  block_active k s (p, hp, full) =
      let t = k.active_thread in
      let h =
        enqueued-IsLinked t (queue_of a) k tt (running-out k s.linked s.running) s.running.0 in
      let (k', eq, s', u) =
        kthreads_schedule-IsSettled e law (enqueued t (queue_of a) k) h
          (inr (p, hp, rw (enqueued-ready t a p k) full)) in
      let nt : (t == null) ≡ false = ground (arith, s.running.0) in
      (
        enqueued t (queue_of a) k,
        k',
        rw nt refl,
        eq,
        record {
          settled = s';
          queue = u a public ∙ enqueued-queue t a k;
          others = λ b ne o. u b o ∙ enqueued-object t a b k (ground arith);
        },
      )

  -- `if ( kthreadq_release (&a->queue) ) kthreads_schedule ();` where a thread waits.
  pub release_first :
      (k : Kernel) (t : ℕ) (l : List ℕ)
      → IsSettled k
      → k.queues (queue_of a) ≡ t ∷ l
      → (k' : Kernel) × (kthreads_schedule e (kthreadq_release (queue_of a) k).1 ≡ some k')
        × Switched e a l k k'
  release_first k t l s q =
      let out = leave_waiting t (queue_of a) k tt l s.linked q in
      let (k', eq, s', u) =
        kthreads_schedule-IsSettled e law (released t (queue_of a) l k)
          (released-IsLinked (queue_of a) k s.linked t l tt q)
          (inr (moved-HasReady t _ out.0 out.1)) in
      (
        k',
        rw (kthreadq_release-cons (queue_of a) k s.linked t l q) eq,
        record {
          settled = s';
          queue = u a public ∙ released-queue t (queue_of a) l k tt;
          others = λ b ne o. u b o ∙ released-object t a b l k (ground arith);
        },
      )

  -- `if ( kthreadq_release_all (&a->queue) ) kthreads_schedule ();`
  pub release_all :
      (k : Kernel)
      → IsSettled k
      → let (n, k1) = kthreadq_release_all (queue_of a) k in
        (k' : Kernel) × ((if n == 0 then some k1 else kthreads_schedule e k1) ≡ some k')
        × Switched e a [] k k'
  release_all k s = go (k.queues (queue_of a)) refl
    where
      go :
          (l : List ℕ)
          → k.queues (queue_of a) ≡ l
          → let (n, k1) = kthreadq_release_all (queue_of a) k in
            (k' : Kernel) × ((if n == 0 then some k1 else kthreads_schedule e k1) ≡ some k')
            × Switched e a [] k k'
      go [] q =
          rw (kthreadq_release_all-nil (queue_of a) k s.linked q)
            (k, refl, record { settled = s; queue = q; others = λ b ne o. refl })
      go (t ∷ l) q =
          let out = leave_waiting t (queue_of a) k tt l s.linked q in
          let (p, hp, full) = moved-HasReady t _ out.0 out.1 in
          let (some_left, em) = kthreadq_release_all-cons (queue_of a) k t l tt s.linked q in
          let (k', eq, s', u) =
            kthreads_schedule-IsSettled e law (kthreadq_release_all (queue_of a) k).1 em.linked
              (inr (p, hp, em.keeps p full)) in
          (
            k',
            rw some_left eq,
            record {
              settled = s';
              queue = u a public ∙ em.empty;
              others = λ b ne o.
                  u b o
                  ∙ em.others b (ground (arith, ne))
                  ∙ released-object t a b l k (ground (arith, ne));
            },
          )
