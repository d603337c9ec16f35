-- ===== src/Scheduler/Laws.antt =====
-- What the scheduler promises, and what it relies on: the contract of a secondary scheduler.
use diplomski_rad.Base.{
  ℕ, ◌<◌, ◌≡◌, refl, ◌≢◌, ◌⊎◌, inl, inr, Bool, true, false, Option, some, Bool-cases, arith, ◌∙◌,
}
use diplomski_rad.Base.Members.{is_empty}
use diplomski_rad.Bits.{MsbIndex}
use diplomski_rad.Threads.{Kernel, active, ready_q, queue_of, prio_levels, null, put_thread}
use diplomski_rad.Threads.Links.{IsLinked}
use diplomski_rad.Threads.Fields.{SameLinks, same_at, IsLinked-SameLinks}
use diplomski_rad.Scheduler.{Env, call_hook, ksched_activate_thread, ksched_deactivate_thread}

-- Some thread waits in a ready queue.
abbrev pub HasReady : Kernel → Type 0
HasReady k = (p : ℕ) × (p < prio_levels) × (is_empty (k.queues (ready_q p)) ≡ false)

abbrev pub IsRunning : Kernel → Type 0
IsRunning k = (k.active_thread ≢ null) × ((k.threads k.active_thread).state ≡ active)

-- There is a thread to return to.
abbrev pub IsRunnable : Kernel → Type 0
IsRunnable k = IsRunning k ⊎ HasReady k

-- The active thread runs, and no ready thread has a higher priority.
pub record IsSettled (k : Kernel) : Type 0 where
  pub linked : IsLinked null k
  pub running : IsRunning k
  pub top :
      (p : ℕ)
      → p < prio_levels
      → (k.threads k.active_thread).prio < p
      → is_empty (k.queues (ready_q p)) ≡ true

-- The queues of the objects that are not the secondary schedulers' are left alone.
abbrev pub Undisturbed : Env → Kernel → Kernel → Type 0
Undisturbed e k k' =
    (a : ℕ) → e.is_private a ≡ false → k'.queues (queue_of a) ≡ k.queues (queue_of a)

-- From a kernel with `P` a step leads to a kernel with `P`: it does not halt, and it leaves the
-- queues of other objects alone.
abbrev pub Leads : Env → (Kernel → Type 0) → Kernel → Option Kernel → Type 0
Leads e P k r = P k → (k' : Kernel) × (r ≡ some k') × P k' × Undisturbed e k k'

-- What a thread is deactivated with, and what holds afterwards: the invariant, the same active
-- thread, and a thread to return to.
pub record IsLeaving (t : ℕ) (k : Kernel) : Type 0 where
  pub linked : IsLinked null k
  pub current : k.active_thread ≡ t
  pub runnable : IsRunnable k

-- The contract: the hooks of every policy keep a settled kernel settled, and a kernel whose active
-- thread leaves, such a kernel.
pub record IsLawful (e : Env) : Type 0 where
  pub msb : MsbIndex e.msb_index
  pub activates :
      (policy t : ℕ) (k : Kernel)
      → Leads e IsSettled k (call_hook (λ s. s.thread_activate) (e.ksched policy) t k)
  pub deactivates :
      (policy t : ℕ) (k : Kernel)
      → Leads e (IsLeaving t) k (call_hook (λ s. s.thread_deactivate) (e.ksched policy) t k)

-- The flag `activated` matters to neither.
abbrev flagged : ℕ → Bool → Kernel → Kernel
flagged t b k = put_thread t (record (k.threads t) { activated = b }) k

flagged-SameLinks :
    (t : ℕ) (b : Bool) (k : Kernel) (a : ℕ) → SameLinks ((flagged t b k).threads a) (k.threads a)
flagged-SameLinks t b k a = same_at t _ k (record { state = refl; prio = refl; queue = refl }) a

flagged-IsLinked : (t : ℕ) (b : Bool) (k : Kernel) → IsLinked null k → IsLinked null (flagged t b k)
flagged-IsLinked t b k h =
    IsLinked-SameLinks t _ k (record { state = refl; prio = refl; queue = refl }) h

flagged-IsRunning : (t : ℕ) (b : Bool) (k : Kernel) → IsRunning k → IsRunning (flagged t b k)
flagged-IsRunning t b k r = (r.0, (flagged-SameLinks t b k k.active_thread).state ∙ r.1)

flagged-IsSettled : (t : ℕ) (b : Bool) (k : Kernel) → IsSettled k → IsSettled (flagged t b k)
flagged-IsSettled t b k s = record {
  linked = flagged-IsLinked t b k s.linked;
  running = flagged-IsRunning t b k s.running;
  top = λ p hp l. s.top p hp (omega (arith, (flagged-SameLinks t b k k.active_thread).prio));
}

flagged-IsLeaving :
    (t : ℕ) (b : Bool) (a : ℕ) (k : Kernel) → IsLeaving a k → IsLeaving a (flagged t b k)
flagged-IsLeaving t b a k s = record {
  linked = flagged-IsLinked t b k s.linked;
  current = s.current;
  runnable = elim s.runnable [ inl r ↦ inl (flagged-IsRunning t b k r) | inr r ↦ inr r ];
}

module _ (e : Env) (law : IsLawful e) where
  -- So do the calls of kernel/sched.c, which skip the hook by the flag and then set it.
  pub ksched_activate_thread-IsSettled :
      (t : ℕ) (k : Kernel) → Leads e IsSettled k (ksched_activate_thread e t k)
  unfolding ksched_activate_thread
  ksched_activate_thread-IsSettled t k s = elim (Bool-cases (k.threads t).activated) [
    | inl f ↦ rw f (k, refl, s, λ a o. refl)
    | inr f ↦
        let (k', eq, s', u) = law.activates (k.threads t).sched_policy t k s in
        rw (f, eq) (flagged t true k', refl, flagged-IsSettled t true k' s', u)
  ]

  pub ksched_deactivate_thread-IsLeaving :
      (t : ℕ) (k : Kernel) → Leads e (IsLeaving t) k (ksched_deactivate_thread e t k)
  unfolding ksched_deactivate_thread
  ksched_deactivate_thread-IsLeaving t k s = elim (Bool-cases (k.threads t).activated) [
    | inl f ↦
        let (k', eq, s', u) = law.deactivates (k.threads t).sched_policy t k s in
        rw (f, eq) (flagged t false k', refl, flagged-IsLeaving t false t k' s', u)
    | inr f ↦ rw f (k, refl, s, λ a o. refl)
  ]
