-- ===== src/Scheduler/Handing.antt =====
-- One more way to switch: the active thread blocks on one object and releases a thread from
-- another.
use diplomski_rad.Base.{
  ℕ, ◌≡◌, ◌≢◌, refl, ◌∙◌, inr, false, not, some, List, [], ◌∷◌, ◌++◌, ◌==◌, arith,
}
use diplomski_rad.Base.Members.{is_empty, rest}
use diplomski_rad.Threads.{Kernel, queue_of, null, kthread_enqueue, kthreadq_release}
use diplomski_rad.Threads.Links.{IsLinked}
use diplomski_rad.Threads.Waiting.{
  enqueued, enqueued-IsLinked, enqueued-queue, enqueued-object, enqueued-ready, released,
  released-queue, released-object, released-IsLinked, leave_waiting, kthreadq_release-cons,
  kthreadq_release-nil,
}
use diplomski_rad.Scheduler.{Env, kthreads_schedule}
use diplomski_rad.Scheduler.Laws.{HasReady, IsSettled, IsLawful}
use diplomski_rad.Scheduler.Retire.{running-out, moved-HasReady}
use diplomski_rad.Scheduler.Schedule.{kthreads_schedule-IsSettled}

-- The queues of all objects but `a` and `b` are left alone.
abbrev pub UndisturbedBut₂ : Env → ℕ → ℕ → Kernel → Kernel → Type 0
UndisturbedBut₂ e a b k k' =
    (c : ℕ)
    → c ≢ a
    → c ≢ b
    → e.is_private c ≡ false
    → k'.queues (queue_of c) ≡ k.queues (queue_of c)

-- The active thread has moved to the end of the queue of `b`, and the queue of `a` has lost its
-- first thread.
pub record HandedOver (e : Env) (a b : ℕ) (k k' : Kernel) : Type 0 where
  pub settled : IsSettled k'
  pub left : k'.queues (queue_of a) ≡ rest (k.queues (queue_of a))
  pub joined : k'.queues (queue_of b) ≡ k.queues (queue_of b) ++ k.active_thread ∷ []
  pub others : UndisturbedBut₂ e a b k k'

-- `kthread_enqueue (NULL, &b->queue); kthreadq_release (&a->queue); kthreads_schedule ();`
pub hand_over :
    (e : Env) (law : IsLawful e) (a b : ℕ)
    → e.is_private a ≡ false
    → e.is_private b ≡ false
    → a ≢ b
    → (k : Kernel) → IsSettled k
    → HasReady k
    → (k1 k' : Kernel) × (kthread_enqueue null (queue_of b) k ≡ some k1)
      × ((k1.queues (queue_of a) ≡ k.queues (queue_of a))
          × ((kthreadq_release (queue_of a) k1).0 ≡ not (is_empty (k.queues (queue_of a)))))
      × (kthreads_schedule e (kthreadq_release (queue_of a) k1).1 ≡ some k')
      × HandedOver e a b k k'
unfolding kthread_enqueue is_empty rest
hand_over e law a b pa pb ne k s (p, hp, full) =
    let t = k.active_thread in
    let h = enqueued-IsLinked t (queue_of b) k tt (running-out k s.linked s.running) s.running.0 in
    let nt : (t == null) ≡ false = ground (arith, s.running.0) in
    let same = enqueued-object t b a k (ground (arith, ne)) in
    let (k', run, out) = go (k.queues (queue_of a)) refl h same in
    (enqueued t (queue_of b) k, k', rw nt refl, (same, out.0), run, out.1)
  where
    go :
        (l : List ℕ)
        → k.queues (queue_of a) ≡ l
        → IsLinked null (enqueued k.active_thread (queue_of b) k)
        → (enqueued k.active_thread (queue_of b) k).queues (queue_of a) ≡ k.queues (queue_of a)
        → (k' : Kernel) × (kthreads_schedule e
              (kthreadq_release (queue_of a) (enqueued k.active_thread (queue_of b) k)).1
            ≡ some k')
          × (((kthreadq_release (queue_of a) (enqueued k.active_thread (queue_of b) k)).0
                ≡ not (is_empty (k.queues (queue_of a))))
              × HandedOver e a b k k')
    go [] q h same =
        let k1 = enqueued k.active_thread (queue_of b) k in
        let (k', eq, s', u) =
          kthreads_schedule-IsSettled e law k1 h
            (inr (p, hp, rw (enqueued-ready k.active_thread b p k) full)) in
        rw (kthreadq_release-nil (queue_of a) k1 h (same ∙ q)) (
          k',
          eq,
          (
            rw q refl,
            record {
              settled = s';
              left = u a pa ∙ same ∙ rw q refl;
              joined = u b pb ∙ enqueued-queue k.active_thread b k;
              others =
                  λ c na nb o. u c o ∙ enqueued-object k.active_thread b c k (ground (arith, nb));
            },
          ),
        )
    go (t ∷ l) q h same =
        let k1 = enqueued k.active_thread (queue_of b) k in
        let out = leave_waiting t (queue_of a) k1 tt l h (same ∙ q) in
        let (k', eq, s', u) =
          kthreads_schedule-IsSettled e law (released t (queue_of a) l k1)
            (released-IsLinked (queue_of a) k1 h t l tt (same ∙ q))
            (inr (moved-HasReady t _ out.0 out.1)) in
        rw (kthreadq_release-cons (queue_of a) k1 h t l (same ∙ q)) (
          k',
          eq,
          (
            rw q refl,
            record {
              settled = s';
              left = u a pa ∙ released-queue t (queue_of a) l k1 tt ∙ rw q refl;
              joined =
                  u b pb
                  ∙ released-object t a b l k1 (ground (arith, ne))
                  ∙ enqueued-queue k.active_thread b k;
              others = λ c na nb o.
                  u c o
                  ∙ released-object t a c l k1 (ground (arith, na))
                  ∙ enqueued-object k.active_thread b c k (ground (arith, nb));
            },
          ),
        )
