-- ===== src/Edf/Preempt.antt =====
-- The old active thread of EDF goes back to `edf.ready`, while the new one is out of all queues: the
-- two steps may be taken in the other order.
use diplomski_rad.Base.{
  ℕ, ◌≡◌, refl, ap, ◌≢◌, inl, inr, true, false, ◌||◌, some, List, [], ◌∷◌, ◌++◌, ◌==◌, Bool-cases,
  arith,
}
use diplomski_rad.Base.Members.{has, erase}
use diplomski_rad.Threads.{
  Kernel, ThreadState, kthread_is_active, kthread_is_ready, same_state, Place, ready_q, queue_of,
  null, at_last, put_thread, put_queue, kthread_move_to_ready, kthread_enqueue,
}
use diplomski_rad.Threads.Links.{IsLinked, IsLinked-out, Sits-active}
use diplomski_rad.Threads.Fields.{IsLinked-SameLinks}
use diplomski_rad.Threads.Moves.{IsLinked-leave}
use diplomski_rad.Threads.Ready.{Leaves-erase, kthread_move_to_ready-IsLinked}
use diplomski_rad.Threads.Unready.{unready, unready_lem, unready-IsLinked}
use diplomski_rad.Threads.Waiting.{enqueued, enqueued-IsLinked}
use diplomski_rad.Edf.{Layout, preempt}

pub erase-snoc :
    (c a : ℕ) (l : List ℕ) → has c l ≡ true → erase c (l ++ a ∷ []) ≡ erase c l ++ a ∷ []
unfolding has erase
erase-snoc c a [] h = cc
erase-snoc c a (x ∷ l) h = elim (Bool-cases (x == c)) [
  | inl e ↦ rw e
  | inr e ↦ rw e (ap (λ r. x ∷ r) (erase-snoc c a l (ground arith)))
]

-- The chosen thread leaves `edf.ready` for the ready threads.
pub taken-IsLinked :
    (c a : ℕ) (k : Kernel)
    → IsLinked null k
    → c ≢ null
    → has c (k.queues (queue_of a)) ≡ true
    → IsLinked null (
        kthread_move_to_ready c at_last
          (put_queue (queue_of a) (erase c (k.queues (queue_of a))) k))
taken-IsLinked c a k h nc there =
    kthread_move_to_ready-IsLinked c _
      (IsLinked-leave c (queue_of a) (erase c (k.queues (queue_of a))) k.rdy_mask k h nc there
        (Leaves-erase c _ (h.once (queue_of a))) h.masks (λ p hp. h.marks p hp))
      nc at_last

-- What `preempt` makes of the old active thread: its state decides.
abbrev pub loosened : ThreadState → ℕ → Kernel → Kernel
loosened ThreadState.active t k = put_thread t (record (k.threads t) { activated = false }) k
loosened ThreadState.ready t k = unready t k
loosened ThreadState.wait t k = k
loosened ThreadState.passive t k = k

abbrev pub preempted : ThreadState → ℕ → ℕ → Kernel → Kernel
preempted ThreadState.active t a k = enqueued t (queue_of a) (loosened ThreadState.active t k)
preempted ThreadState.ready t a k = enqueued t (queue_of a) (loosened ThreadState.ready t k)
preempted ThreadState.wait t a k = k
preempted ThreadState.passive t a k = k

pub enqueue_lem :
    (t : ℕ) (q : Place) (k : Kernel) → t ≢ null → kthread_enqueue t q k ≡ some (enqueued t q k)
unfolding kthread_enqueue
enqueue_lem t q k nt = let n : (t == null) ≡ false = ground arith in rw (n, n) refl

pub preempt_lem :
    (o : Layout) (t : ℕ) (k : Kernel) (st : ThreadState)
    → t ≢ null
    → (k.threads t).state ≡ st
    → (st ≡ ThreadState.ready → has t (k.queues (ready_q (k.threads t).prio)) ≡ true)
    → preempt o t k ≡ some (preempted st t o.ready k)
unfolding preempt
preempt_lem o t k ThreadState.active nt e there =
    let on : kthread_is_active t k ≡ true = ap (λ s. same_state s ThreadState.active) e in
    rw on (enqueue_lem t (queue_of o.ready) _ nt)
preempt_lem o t k ThreadState.ready nt e there =
    let off : kthread_is_active t k ≡ false = ap (λ s. same_state s ThreadState.active) e in
    let on : same_state (k.threads t).state ThreadState.ready ≡ true =
      ap (λ s. same_state s ThreadState.ready) e in
    rw (off, on, unready_lem t k nt (there refl)) (enqueue_lem t (queue_of o.ready) _ nt)
preempt_lem o t k ThreadState.wait nt e there =
    let off : kthread_is_ready t k ≡ false =
      ap (λ s. same_state s ThreadState.active || same_state s ThreadState.ready) e in
    rw off
preempt_lem o t k ThreadState.passive nt e there =
    let off : kthread_is_ready t k ≡ false =
      ap (λ s. same_state s ThreadState.active || same_state s ThreadState.ready) e in
    rw off

pub preempted-IsLinked :
    (t a : ℕ) (k : Kernel) (st : ThreadState)
    → IsLinked null k
    → t ≢ null
    → (k.threads t).state ≡ st
    → IsLinked null (preempted st t a k)
preempted-IsLinked t a k ThreadState.active h nt e =
    let k1 = loosened ThreadState.active t k in
    enqueued-IsLinked t (queue_of a) k1 tt
      (IsLinked-out t k1
        (IsLinked-SameLinks t _ k (record { state = refl; prio = refl; queue = refl }) h) nt
        (λ q s. Sits-active (k1.threads t) q s (ground (arith, e))))
      nt
preempted-IsLinked t a k ThreadState.ready h nt e =
    enqueued-IsLinked t (queue_of a) (unready t k) tt (unready-IsLinked t k h nt e) nt
preempted-IsLinked t a k ThreadState.wait h nt e = h
preempted-IsLinked t a k ThreadState.passive h nt e = h
