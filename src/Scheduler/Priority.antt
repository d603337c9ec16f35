-- ===== src/Scheduler/Priority.antt =====
-- kernel/thread.c, `kthread_set_prio`: a thread gets another priority.
use diplomski_rad.Base.{
  ℕ, ◌<◌, ◌≡◌, ◌≢◌, ◌↔◌, refl, sym, inl, inr, ◌∙◌, ap, subst, false, arith, Option, some, ◌==◌,
  if◌then◌else◌, ◌>>=◌, Bool-cases, eq_of_test, ne_of_test,
}
use diplomski_rad.Threads.{
  Kernel, Thread, Place, ready_q, join_queue, queue_of, ThreadState, active, ready, wait, passive,
  null, at_last, prio_levels, put_thread, kthread_move_to_ready, kthread_remove_from_ready,
}
use diplomski_rad.Threads.Links.{IsLinked, Sits, Sits-active, IsLinked-out, IsLinked-put_thread}
use diplomski_rad.Threads.Ready.{kthread_move_to_ready-IsLinked, moved-object}
use diplomski_rad.Threads.Unready.{unready, unready_lem, unready-same, seat, unready-IsLinked}
use diplomski_rad.Scheduler.{Env, kthreads_schedule}
use diplomski_rad.Scheduler.Laws.{IsSettled, IsLawful, Undisturbed}
use diplomski_rad.Scheduler.Retire.{moved-HasReady}
use diplomski_rad.Scheduler.Schedule.{kthreads_schedule-IsSettled}

abbrev pub with_prio : ℕ → ℕ → Kernel → Kernel
with_prio t prio k = put_thread t (record (k.threads t) { prio = prio }) k

-- The `switch` over the thread's state.
unfoldable pub set_prio_in : Env → ThreadState → ℕ → ℕ → Kernel → Option Kernel
set_prio_in e active kthr prio k =
    kthreads_schedule e (kthread_move_to_ready kthr at_last (with_prio kthr prio k))
set_prio_in e ready kthr prio k =
    let removed = kthread_remove_from_ready kthr k in
    kthreads_schedule e (kthread_move_to_ready kthr at_last (with_prio kthr prio removed.1))
set_prio_in e wait kthr prio k = some (with_prio kthr prio k)
set_prio_in e passive kthr prio k = some (with_prio kthr prio k)

-- The thread of a call; `NULL` stands for the active one.
abbrev pub chosen : ℕ → Kernel → ℕ
chosen t k = if t == null then k.active_thread else t

-- The old priority, and the new kernel.
unfoldable pub kthread_set_prio : Env → ℕ → ℕ → Kernel → Option (ℕ × Kernel)
kthread_set_prio e t prio k = do
  let kthr = chosen t k
  k' ← set_prio_in e (k.threads kthr).state kthr prio k
  some ((k.threads kthr).prio, k')

no_ready_seat :
    (th : Thread) (prio : ℕ) (q : Place)
    → th.state ≢ ready
    → Sits th q ↔ Sits (record th { prio = prio }) q
no_ready_seat th prio (ready_q p) n = (λ s. absurd (n s.0), λ s. absurd (n s.0))
no_ready_seat th prio (join_queue p) n = (λ s. s, λ s. s)
no_ready_seat th prio (queue_of p) n = (λ s. s, λ s. s)

-- The priority matters to the queues for ready threads alone.
with_prio-IsLinked :
    (t prio : ℕ) (k : Kernel)
    → IsLinked null k
    → prio < prio_levels
    → (k.threads t).state ≢ ready
    → IsLinked null (with_prio t prio k)
with_prio-IsLinked t prio k h hp n = record {
  away = h.away;
  no_null = h.no_null;
  linked = λ q a na ne. elim (Bool-cases (a == t)) [
    | inl e ↦
        let at_t =
          h.linked q t (subst (λ b. b ≢ null) (eq_of_test a t e) na)
            (subst (λ b. b ≢ null) (eq_of_test a t e) ne) in
        let seat = no_ready_seat (k.threads t) prio q n in
        rw (e, eq_of_test a t e)
          (λ i. let w = at_t.0 i in (w.0, seat.0 w.1), λ w. at_t.1 (w.0, seat.1 w.1))
    | inr e ↦ rw e (h.linked q a na ne)
  ];
  once = h.once;
  levels = λ a. ground (arith, h.levels a);
  masks = h.masks;
  marks = h.marks;
  sole = λ a na ne. elim (Bool-cases (a == t)) [
    | inl e ↦ rw (e, sym (eq_of_test a t e)) (h.sole a na ne)
    | inr e ↦ rw e (h.sole a na ne)
  ];
  seated = λ a na ne. elim (Bool-cases (a == t)) [
    | inl e ↦ rw e (λ s. absurd (n s))
    | inr e ↦ rw e (h.seated a na ne)
  ];
}

with_prio-IsSettled :
    (t prio : ℕ) (k : Kernel)
    → IsSettled k
    → prio < prio_levels
    → (k.threads t).state ≢ ready
    → (k.threads t).state ≢ active
    → IsSettled (with_prio t prio k)
with_prio-IsSettled t prio k s hp nr na =
    let e : (k.active_thread == t) ≡ false = elim (Bool-cases (k.active_thread == t)) [
      | inl f ↦
          absurd (na (subst (λ b. (k.threads b).state ≡ active) (eq_of_test _ t f) s.running.1))
      | inr f ↦ f
    ] in
    record {
      linked = with_prio-IsLinked t prio k s.linked hp nr;
      running = (s.running.0, rw e s.running.1);
      top = λ p lp. rw e (s.top p lp);
    }

module _ (e : Env) (law : IsLawful e) (t prio : ℕ) (k : Kernel) (hp : prio < prio_levels)
    (s : IsSettled k) (nt : t ≢ null) where
  -- What the `switch` leads to.
  abbrev Done : ThreadState → Type 0
  Done st =
      (k' : Kernel) × (set_prio_in e st t prio k ≡ some k') × IsSettled k' × Undisturbed e k k'

  -- The thread is in no queue of `k0`, gets its priority, and then the threads are scheduled.
  rescheduled :
      (k0 : Kernel)
      → IsLinked t k0
      → ((a : ℕ) → k0.queues (queue_of a) ≡ k.queues (queue_of a))
      → (k' : Kernel) × (kthreads_schedule e (kthread_move_to_ready t at_last (with_prio t prio k0))
          ≡ some k')
        × IsSettled k'
        × Undisturbed e k k'
  rescheduled k0 h same =
      let k1 = with_prio t prio k0 in
      let out = IsLinked-put_thread t _ k0 h hp in
      let (k', eq, s', u) =
        kthreads_schedule-IsSettled e law (kthread_move_to_ready t at_last k1)
          (kthread_move_to_ready-IsLinked t k1 out nt at_last) (inr (moved-HasReady t k1 out nt)) in
      (k', eq, s', λ a o. u a o ∙ moved-object t k1 a ∙ same a)

  set_prio_in-IsSettled : (st : ThreadState) → (k.threads t).state ≡ st → Done st
  unfolding set_prio_in
  set_prio_in-IsSettled active st =
      rescheduled k (IsLinked-out t k s.linked nt (λ q i. Sits-active (k.threads t) q i st))
        (λ a. refl)
  set_prio_in-IsSettled ready st =
      rw (unready_lem t k nt (seat t k s.linked nt st))
        (rescheduled (unready t k) (unready-IsLinked t k s.linked nt st) (unready-same t k).1)
  set_prio_in-IsSettled wait st = (
    with_prio t prio k,
    refl,
    with_prio-IsSettled t prio k s hp (λ e. cc (st, e)) (λ e. cc (st, e)),
    λ a o. refl,
  )
  set_prio_in-IsSettled passive st = (
    with_prio t prio k,
    refl,
    with_prio-IsSettled t prio k s hp (λ e. cc (st, e)) (λ e. cc (st, e)),
    λ a o. refl,
  )

chosen-thread : (t : ℕ) (k : Kernel) → k.active_thread ≢ null → chosen t k ≢ null
chosen-thread t k n = elim (Bool-cases (t == null)) [
  | inl e ↦ rw e n
  | inr e ↦ rw e (ne_of_test t null e)
]

-- For the active thread (NULL) or any other thread of a settled kernel, in whichever state it is,
-- kthread_set_prio with a priority below PRIO_LEVELS does not halt, returns the old priority, and
-- leaves a settled kernel: whichever thread runs then, no ready thread has a higher priority. It
-- needs lawful schedulers.
pub kthread_set_prio-IsSettled :
    (e : Env)
    → IsLawful e
    → (t prio : ℕ) (k : Kernel) → prio < prio_levels
    → IsSettled k
    → (k' : Kernel) × (kthread_set_prio e t prio k ≡ some ((k.threads (chosen t k)).prio, k'))
      × IsSettled k'
      × Undisturbed e k k'
unfolding kthread_set_prio
kthread_set_prio-IsSettled e law t prio k hp s =
    let kthr = chosen t k in
    let (k', eq, s', u) =
      set_prio_in-IsSettled e law kthr prio k hp s (chosen-thread t k s.running.0)
        (k.threads kthr).state refl in
    (k', ap (λ r. r >>= (λ k2. some ((k.threads kthr).prio, k2))) eq, s', u)
