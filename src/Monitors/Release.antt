-- ===== src/Monitors/Release.antt =====
-- One round of the loop of `k_monitor_release`: the first thread of a monitor queue becomes the
-- owner of its monitor, or moves to the entrance of it.
use diplomski_rad.Base.{
  ℕ, ◌+◌, ◌≡◌, ◌≢◌, refl, ◌∙◌, ap, inl, inr, Bool, true, false, some, List, [], ◌∷◌, ◌++◌, ◌==◌,
  arith, Bool-cases, ne_of_test, eq_of_test,
}
use diplomski_rad.Base.Members.{first, has}
use diplomski_rad.Threads.{
  Kernel, Place, queue_of, null, update, kthreadq_get, kthread_enqueue, kthreadq_remove, put_queue,
}
use diplomski_rad.Threads.Links.{head_ne_null}
use diplomski_rad.Threads.Waiting.{
  enqueued, enqueued-IsLinked, released, leave_waiting, released-IsLinked, released-queue,
  released-object, kthreadq_release-cons,
}
use diplomski_rad.Scheduler.Retire.{moved-HasReady}
use diplomski_rad.Monitors.{Monitors, Kmonitor, monitor_of, release_one}
use diplomski_rad.Monitors.Spec.{Entrance, enter}
use diplomski_rad.Monitors.Refine.{Shows}
use diplomski_rad.Monitors.Going.{
  Known, IsGoing, Keeps, released-Keeps, moved, moved-Keeps, moved-queue, moved-entrance,
  moved-others, moved-ready, waits_apart, Keeps-IsRunning, moved-IsSettled,
}

enqueue_known :
    (t : ℕ) (p : Place) (k : Kernel)
    → (t == null) ≡ false
    → kthread_enqueue t p k ≡ some (enqueued t p k)
unfolding kthread_enqueue
enqueue_known t p k n = rw (n, n) refl

-- After a round for the thread `t`: it has left the queue, which is `l` now, and has entered its
-- monitor at `a`.
pub record Round (q r t a : ℕ) (l : List ℕ) (s s' : Monitors) : Type 0 where
  pub going : IsGoing q r s'
  pub queue : s'.kernel.queues (queue_of q) ≡ l
  pub enters : (m : Entrance) → Shows s a m → Shows s' a (enter t m)
  pub same : (c : ℕ) → (c == a) ≡ false → s'.kmonitor c ≡ s.kmonitor c
  pub others :
      (c : ℕ)
      → (c == a) ≡ false
      → (c == q) ≡ false
      → s'.kernel.queues (queue_of c) ≡ s.kernel.queues (queue_of c)

module _ (q r : ℕ) (s : Monitors) (t : ℕ) (l : List ℕ) (g : IsGoing q r s)
    (e : s.kernel.queues (queue_of q) ≡ t ∷ l) (o : ℕ) (ne : (s.kernel.threads t).qdata ≢ q) where
  nt : (t == null) ≡ false
  nt = head_ne_null (queue_of q) t l s.kernel g.linked e

  head_is : kthreadq_get (queue_of q) s.kernel ≡ t
  unfolding kthreadq_get first
  head_is = rw e refl

  apart_active : (s.kernel.active_thread == t) ≡ false
  apart_active = waits_apart q t l s.kernel g.linked g.running e

  Keeps-Known :
      (s' : Monitors)
      → Keeps t s.kernel s'.kernel
      → s'.kernel.queues (queue_of q) ≡ l
      → ((b : ℕ) (m : Kmonitor)
          → s.kmonitor b ≡ some m
          → (m' : Kmonitor) × (s'.kmonitor b ≡ some m'))
      → Known q s'
  unfolding has
  Keeps-Known s' keeps now grows b i =
      let old : has b (s.kernel.queues (queue_of q)) ≡ true =
        rw e (let i' : has b l ≡ true = rw now at i in ground arith) in
      let (m, kept, other) = g.known b old in
      let (m', kept') = grows (s.kernel.threads b).qdata m kept in rw (keeps.0 b) (m', kept', other)

  -- The monitor is free.
  freed : Monitors
  freed = record s {
    kmonitor = update s.kmonitor (s.kernel.threads t).qdata (some (monitor_of true t));
    kernel = released t (queue_of q) l s.kernel;
  }

  freed-Round :
      s.kmonitor (s.kernel.threads t).qdata ≡ some (monitor_of false o)
      → (release_one q r s ≡ some (t, r + 1, freed))
        × Round q (r + 1) t (s.kernel.threads t).qdata l s freed
  unfolding release_one freed
  freed-Round kept =
      let a = (s.kernel.threads t).qdata in
      let h = released-IsLinked (queue_of q) s.kernel g.linked t l tt e in
      let out = leave_waiting t (queue_of q) s.kernel tt l g.linked e in
      let keeps = released-Keeps q t l s.kernel in
      let now = released-queue t (queue_of q) l s.kernel tt in
      (
        rw (head_is, nt, kept, kthreadq_release-cons (queue_of q) s.kernel g.linked t l e) refl,
        record {
          going = record {
            linked = h;
            running = Keeps-IsRunning q t l s.kernel freed.kernel apart_active g.running keeps;
            calm = λ z. absurd (omega (arith, eq_of_test (r + 1) 0 z));
            ready_one = λ z. moved-HasReady t (put_queue (queue_of q) l s.kernel) out.0 out.1;
            known = Keeps-Known freed keeps now (λ b m at_b. elim (Bool-cases (b == a)) [
              | inl z ↦ rw z (monitor_of true t, refl)
              | inr z ↦ rw z (m, at_b)
            ]);
          };
          queue = now;
          enters = λ m w.
              let free : (m.owner == null) ≡ true = elim (Bool-cases (m.owner == null)) [
                | inl z ↦ z
                | inr z ↦ cc (rw z at (w.kept), kept)
              ] in
              rw free (record {
                kept = rw nt (ground arith);
                queue = released-object t q a l s.kernel (ground (arith, ne)) ∙ w.queue;
                fair = λ z. absurd (ne_of_test t null nt z);
              });
          same = λ c na. rw na refl;
          others = λ c na nq. released-object t q c l s.kernel nq;
        },
      )

  -- The monitor is locked.
  requeued : Monitors
  requeued = record s { kernel = moved q t l s.kernel (s.kernel.threads t).qdata }

  requeued-Round :
      s.kmonitor (s.kernel.threads t).qdata ≡ some (monitor_of true o)
      → (release_one q r s ≡ some (t, r, requeued))
        × Round q r t (s.kernel.threads t).qdata l s requeued
  unfolding release_one requeued moved kthreadq_remove
  requeued-Round kept =
      let a = (s.kernel.threads t).qdata in
      let out = leave_waiting t (queue_of q) s.kernel tt l g.linked e in
      let h = enqueued-IsLinked t (queue_of a) (put_queue (queue_of q) l s.kernel) tt out.0 out.1 in
      let keeps = moved-Keeps q t l s.kernel a in
      let now = moved-queue q t l s.kernel a ne in
      let joined = enqueue_known t (queue_of a) (put_queue (queue_of q) l s.kernel) nt in
      (
        rw (head_is, nt, kept, e, joined) refl,
        record {
          going = record {
            linked = h;
            running = Keeps-IsRunning q t l s.kernel requeued.kernel apart_active g.running keeps;
            calm = λ z. moved-IsSettled q t l s.kernel a (g.calm z) h apart_active;
            ready_one = λ z.
                let (p, hp, full) = g.ready_one z in
                (p, hp, rw (moved-ready q t l s.kernel a p) full);
            known = Keeps-Known requeued keeps now (λ b m at_b. (m, at_b));
          };
          queue = now;
          enters = λ m w.
              let owned : (m.owner == null) ≡ false = elim (Bool-cases (m.owner == null)) [
                | inl z ↦ cc (rw z at (w.kept), kept)
                | inr z ↦ z
              ] in
              rw owned (record {
                kept = w.kept;
                queue = moved-entrance q t l s.kernel a ne ∙ ap (λ x. x ++ t ∷ []) w.queue;
                fair = λ z. absurd (ne_of_test m.owner null owned z);
              });
          same = λ c na. refl;
          others = λ c na nq. moved-others q t l s.kernel a c na nq;
        },
      )

-- A round with a thread in the queue is a `Round`, whether the monitor is locked or not.
pub release_one-Round :
    (q r : ℕ) (s : Monitors) (t : ℕ) (l : List ℕ)
    → IsGoing q r s
    → s.kernel.queues (queue_of q) ≡ t ∷ l
    → (r' : ℕ) × (s' : Monitors) × (release_one q r s ≡ some (t, r', s'))
      × Round q r' t (s.kernel.threads t).qdata l s s'
unfolding has
release_one-Round q r s t l g e =
    let (m, kept, ne) = g.known t (rw e (ground arith)) in go m.lock m.owner kept ne
  where
    go :
        (b : Bool) (o : ℕ)
        → s.kmonitor (s.kernel.threads t).qdata ≡ some (monitor_of b o)
        → (s.kernel.threads t).qdata ≢ q
        → (r' : ℕ) × (s' : Monitors) × (release_one q r s ≡ some (t, r', s'))
          × Round q r' t (s.kernel.threads t).qdata l s s'
    go true o kept ne =
        let w = requeued-Round q r s t l g e o ne kept in (r, requeued q r s t l g e o ne, w.0, w.1)
    go false o kept ne =
        let w = freed-Round q r s t l g e o ne kept in (r + 1, freed q r s t l g e o ne, w.0, w.1)
