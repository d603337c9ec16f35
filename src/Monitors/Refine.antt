-- ===== src/Monitors/Refine.antt =====
-- `sys__monitor_lock` and `sys__monitor_unlock` are the operations of `Spec`.
use diplomski_rad.Base.{
  ℕ, ◌≡◌, ◌≢◌, refl, ◌∙◌, ap, inl, inr, true, false, not, ◌||◌, some, List, [], ◌∷◌, ◌==◌, arith,
  Bool-cases, ne_of_test,
}
use diplomski_rad.Base.Int.{pos}
use diplomski_rad.Base.Members.{first, rest}
use diplomski_rad.Errors.{success}
use diplomski_rad.Threads.{queue_of, null, update, set_errno, kthreadq_get, kthreadq_release}
use diplomski_rad.Threads.Links.{head_ne_null}
use diplomski_rad.Threads.Fields.{set_errno-queues, set_errno-active}
use diplomski_rad.Threads.Waiting.{kthreadq_release-cons, kthreadq_release-nil}
use diplomski_rad.Scheduler.{Env}
use diplomski_rad.Scheduler.Laws.{HasReady, IsSettled, IsLawful}
use diplomski_rad.Scheduler.Blocking.{
  UndisturbedBut, set_errno-IsSettled, block_active, release_first,
}
use diplomski_rad.Monitors.{Monitors, monitor_of, sys__monitor_lock, sys__monitor_unlock}
use diplomski_rad.Monitors.Spec.{Entrance, entrance, IsFair, enter, leave}

-- What the kernel keeps of the monitor at `a`: it is locked exactly where it has an owner.
pub record Shows (s : Monitors) (a : ℕ) (m : Entrance) : Type 0 where
  pub kept : s.kmonitor a ≡ some (monitor_of (not (m.owner == null)) m.owner)
  pub queue : s.kernel.queues (queue_of a) ≡ m.waiting
  pub fair : IsFair m

-- The user's handle leads to the monitor, which is no object of the secondary schedulers.
pub record IsHandle (e : Env) (s : Monitors) (monitor a : ℕ) : Type 0 where
  pub given : monitor ≢ null
  pub leads : s.ptr monitor ≡ a
  pub there : a ≢ null
  pub public : e.is_private a ≡ false

-- Afterwards the kernel is settled, the monitor shows `m`, and all other objects and handles are as
-- they were.
pub record Done (e : Env) (a : ℕ) (m : Entrance) (s s' : Monitors) : Type 0 where
  pub settled : IsSettled s'.kernel
  pub shows : Shows s' a m
  pub others : UndisturbedBut e a s.kernel s'.kernel
  pub monitors : (b : ℕ) → b ≢ a → s'.kmonitor b ≡ s.kmonitor b
  pub handles : (u : ℕ) → s'.ptr u ≡ s.ptr u

module _ (e : Env) (law : IsLawful e) (s : Monitors) (monitor a : ℕ) (i : IsHandle e s monitor a)
    (settled : IsSettled s.kernel) where
  checked : ((monitor == null) || (s.ptr monitor == null)) ≡ false
  checked = ground (arith, i.given, i.leads, i.there)

  -- `sys__monitor_lock` does not halt, returns 0, and carries out the abstract entry: the caller
  -- owns the monitor if it was free, and otherwise waits behind the other threads; the kernel is
  -- settled afterwards, and other monitors are as they were. It needs lawful schedulers, a handle
  -- of a monitor that is there, a settled kernel, and a ready thread (the idle thread) to switch to.
  pub sys__monitor_lock-enter :
      (m : Entrance)
      → Shows s a m
      → HasReady s.kernel
      → (s' : Monitors) × (sys__monitor_lock e monitor s ≡ some (pos 0, s'))
        × Done e a (enter s.kernel.active_thread m) s s'
  unfolding sys__monitor_lock
  sys__monitor_lock-enter m w (p, hp, full) = elim (Bool-cases (m.owner == null)) [
    | inl free ↦
        let h = set_errno-IsSettled success s.kernel settled in
        let me : (s.kernel.active_thread == null) ≡ false = ground (arith, settled.running.0) in
        let k = set_errno success s.kernel in
        rw free (
          record s {
            kernel = k;
            kmonitor = update s.kmonitor a (some (monitor_of true k.active_thread));
          },
          rw (checked, i.leads, w.kept, free) refl,
          record {
            settled = h;
            shows = record {
              kept = rw (set_errno-active success s.kernel, me) (ground arith);
              queue = rw (set_errno-queues success s.kernel) w.queue;
              fair = λ z. absurd (settled.running.0 z);
            };
            others = λ b ne o. ap (λ f. f (queue_of b)) (set_errno-queues success s.kernel);
            monitors = λ b ne. ground arith;
            handles = λ u. refl;
          },
        )
    | inr owned ↦
        let h = set_errno-IsSettled success s.kernel settled in
        let (k1, k', enq, run, sw) =
          block_active e law a i.public (set_errno success s.kernel) h
            (p, hp, rw (set_errno-queues success s.kernel) full) in
        rw owned (
          record s { kernel = k' },
          rw (checked, i.leads, w.kept, owned, enq, run) refl,
          record {
            settled = sw.settled;
            shows = record {
              kept = w.kept;
              queue =
                  sw.queue
                  ∙ rw
                      (
                        set_errno-queues success s.kernel,
                        set_errno-active success s.kernel,
                        w.queue,
                      )
                      refl;
              fair = λ z. absurd (ne_of_test m.owner null owned z);
            };
            others = λ b ne o.
                sw.others b ne o ∙ ap (λ f. f (queue_of b)) (set_errno-queues success s.kernel);
            monitors = λ b ne. refl;
            handles = λ u. refl;
          },
        )
  ]

  unlock_from :
      (m : Entrance)
      → Shows s a m
      → m.owner ≡ s.kernel.active_thread
      → (q : List ℕ) → m.waiting ≡ q
      → (s' : Monitors) × (sys__monitor_unlock e monitor s ≡ some (pos 0, s'))
        × Done e a (leave (entrance m.owner q)) s s'
  unfolding sys__monitor_unlock kthreadq_get first rest
  unlock_from m w mine [] eq =
      let h = set_errno-IsSettled success s.kernel settled in
      let own : (m.owner == s.kernel.active_thread) ≡ true = ground (arith, mine) in
      let q : (set_errno success s.kernel).queues (queue_of a) ≡ [] =
        rw (set_errno-queues success s.kernel) (w.queue ∙ eq) in
      (
        record s {
          kernel = set_errno success s.kernel;
          kmonitor = update s.kmonitor a (some (monitor_of false null));
        },
        rw (checked, i.leads, w.kept, own, kthreadq_release-nil (queue_of a) _ h.linked q, q) refl,
        record {
          settled = h;
          shows = record { kept = ground arith; queue = q; fair = λ z. refl };
          others = λ b ne o. ap (λ f. f (queue_of b)) (set_errno-queues success s.kernel);
          monitors = λ b ne. ground arith;
          handles = λ u. refl;
        },
      )
  unlock_from m w mine (t ∷ q) eq =
      let h = set_errno-IsSettled success s.kernel settled in
      let own : (m.owner == s.kernel.active_thread) ≡ true = ground (arith, mine) in
      let locked : (m.owner == null) ≡ false = ground (arith, mine, settled.running.0) in
      let full : (set_errno success s.kernel).queues (queue_of a) ≡ t ∷ q =
        rw (set_errno-queues success s.kernel) (w.queue ∙ eq) in
      let next : (t == null) ≡ false = head_ne_null (queue_of a) t q _ h.linked full in
      let (k', run, sw) = release_first e law a i.public (set_errno success s.kernel) t q h full in
      let was : (kthreadq_release (queue_of a) (set_errno success s.kernel)).0 ≡ true =
        ap (λ r. r.0) (kthreadq_release-cons (queue_of a) _ h.linked t q full) in
      (
        record s { kernel = k'; kmonitor = update s.kmonitor a (some (monitor_of true t)) },
        rw (checked, i.leads, w.kept, own, was, run, full, locked) refl,
        record {
          settled = sw.settled;
          shows = record {
            kept = rw next (ground arith);
            queue = sw.queue;
            fair = λ z. absurd (ne_of_test t null next z);
          };
          others = λ b ne o.
              sw.others b ne o ∙ ap (λ f. f (queue_of b)) (set_errno-queues success s.kernel);
          monitors = λ b ne. ground arith;
          handles = λ u. refl;
        },
      )

  -- `sys__monitor_unlock` by the owner does not halt, returns 0, and carries out the abstract
  -- leave: the thread that has waited longest owns the monitor, or else it is free; the kernel is
  -- settled afterwards, and other monitors are as they were. It needs lawful schedulers, a handle
  -- of a monitor that is there, and a settled kernel.
  pub sys__monitor_unlock-leave :
      (m : Entrance)
      → Shows s a m
      → m.owner ≡ s.kernel.active_thread
      → (s' : Monitors) × (sys__monitor_unlock e monitor s ≡ some (pos 0, s'))
        × Done e a (leave m) s s'
  sys__monitor_unlock-leave m w mine = unlock_from m w mine m.waiting refl
