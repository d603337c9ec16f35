-- ===== src/Monitors/Going.antt =====
-- What the loop of `k_monitor_release` keeps, and what a release or a move does to the kernel.
use diplomski_rad.Base.{
  ℕ, ◌<◌, ◌≡◌, ◌≢◌, refl, subst, ◌∙◌, inl, inr, true, false, some, List, [], ◌∷◌, ◌++◌, ◌==◌, arith,
  Bool-cases, ne_of_test, eq_of_test,
}
use diplomski_rad.Base.Members.{has}
use diplomski_rad.Threads.{
  Kernel, active, queue_of, ready_q, null, kthreadq_append, put_queue, kthread_move_to_ready,
  kthread_ready_list_set_not_empty,
}
use diplomski_rad.Threads.Links.{IsLinked, head_ne_null}
use diplomski_rad.Threads.Waiting.{
  enqueued, enqueued-queue, enqueued-object, enqueued-ready, released,
}
use diplomski_rad.Scheduler.Laws.{HasReady, IsRunning, IsSettled}
use diplomski_rad.Monitors.{Monitors, Kmonitor}

-- A thread in the queue at `q` waits for a monitor that is there, and its entrance is another queue.
abbrev pub Known : ℕ → Monitors → Type 0
Known q s =
    (t : ℕ)
    → has t (s.kernel.queues (queue_of q)) ≡ true
    → (m : Kmonitor) × (s.kmonitor (s.kernel.threads t).qdata ≡ some m)
      × ((s.kernel.threads t).qdata ≢ q)

-- What every round keeps; `r` counts the threads that have become ready.
pub record IsGoing (q r : ℕ) (s : Monitors) : Type 0 where
  pub linked : IsLinked null s.kernel
  pub running : IsRunning s.kernel
  pub calm : (r == 0) ≡ true → IsSettled s.kernel
  pub ready_one : (r == 0) ≡ false → HasReady s.kernel
  pub known : Known q s

-- What neither a release nor a move does to a descriptor.
abbrev pub Keeps : ℕ → Kernel → Kernel → Type 0
Keeps t k k' =
    ((b : ℕ) → (k'.threads b).qdata ≡ (k.threads b).qdata)
    × ((b : ℕ) → (b == t) ≡ false → k'.threads b ≡ k.threads b)
    × (k'.active_thread ≡ k.active_thread)

module _ (q t : ℕ) (l : List ℕ) (k : Kernel) where
  pub released-Keeps : Keeps t k (released t (queue_of q) l k)
  unfolding kthread_move_to_ready kthreadq_append kthread_ready_list_set_not_empty
  released-Keeps = (
    λ b. elim (Bool-cases (b == t)) [ inl e ↦ rw (e, eq_of_test b t e) refl | inr e ↦ rw e refl ],
    λ b ne. rw ne refl,
    refl,
  )

  unfoldable pub moved : ℕ → Kernel
  moved a = enqueued t (queue_of a) (put_queue (queue_of q) l k)

  pub moved-Keeps : (a : ℕ) → Keeps t k (moved a)
  unfolding moved kthreadq_append
  moved-Keeps a = (
    λ b. elim (Bool-cases (b == t)) [ inl e ↦ rw (e, eq_of_test b t e) refl | inr e ↦ rw e refl ],
    λ b ne. rw ne refl,
    refl,
  )

  pub moved-queue : (a : ℕ) → a ≢ q → (moved a).queues (queue_of q) ≡ l
  unfolding moved
  moved-queue a ne =
      enqueued-object t a q (put_queue (queue_of q) l k) (ground (arith, ne)) ∙ ground arith

  pub moved-entrance :
      (a : ℕ) → a ≢ q → (moved a).queues (queue_of a) ≡ k.queues (queue_of a) ++ t ∷ []
  unfolding moved
  moved-entrance a ne =
      let other : (a == q) ≡ false = ground (arith, ne) in
      enqueued-queue t a (put_queue (queue_of q) l k) ∙ rw other refl

  pub moved-others :
      (a c : ℕ)
      → (c == a) ≡ false
      → (c == q) ≡ false
      → (moved a).queues (queue_of c) ≡ k.queues (queue_of c)
  unfolding moved
  moved-others a c ne other = enqueued-object t a c (put_queue (queue_of q) l k) ne ∙ rw other refl

  pub moved-ready : (a p : ℕ) → (moved a).queues (ready_q p) ≡ k.queues (ready_q p)
  unfolding moved
  moved-ready a p = enqueued-ready t a p (put_queue (queue_of q) l k)

  -- The running thread is not among those that wait.
  pub waits_apart :
      IsLinked null k → IsRunning k → k.queues (queue_of q) ≡ t ∷ l → (k.active_thread == t) ≡ false
  unfolding has
  waits_apart h run e = elim (Bool-cases (k.active_thread == t)) [
    | inl same ↦
        let nt = ne_of_test t null (head_ne_null (queue_of q) t l k h e) in
        let sits = ((h.linked (queue_of q) t nt nt).0 (rw e (ground arith))).1 in
        cc (
          sits,
          subst (λ b. (k.threads b).state ≡ active) (eq_of_test k.active_thread t same) (run.1),
        )
    | inr other ↦ other
  ]

  pub Keeps-IsRunning :
      (k' : Kernel) → (k.active_thread == t) ≡ false → IsRunning k → Keeps t k k' → IsRunning k'
  Keeps-IsRunning k' ne run keeps = rw (keeps.2, keeps.1 k.active_thread ne) run

  pub moved-IsSettled :
      (a : ℕ)
      → IsSettled k
      → IsLinked null (moved a)
      → (k.active_thread == t) ≡ false
      → IsSettled (moved a)
  moved-IsSettled a s h ne = record {
    linked = h;
    running = Keeps-IsRunning (moved a) ne s.running (moved-Keeps a);
    top = λ p hp lt.
        let low : (k.threads k.active_thread).prio < p =
          rw ((moved-Keeps a).2, (moved-Keeps a).1 k.active_thread ne) at lt in
        rw (moved-ready a p) (s.top p hp low);
  }
