-- ===== src/Threads/Waiting.antt =====
-- Queues of waiting threads: `kthread_enqueue`, `kthreadq_release` and `kthreadq_release_all`.
use diplomski_rad.Base.{
  ℕ, zero, suc, ◌+◌, ◌<◌, ◌≡◌, refl, ◌≢◌, inl, inr, ◌∙◌, true, false, not, some, List, [], ◌∷◌,
  ◌++◌, arith, ◌==◌, if◌then◌else◌, ne_of_test, length, Bool-cases,
}
use diplomski_rad.Base.Members.{has, is_empty, is_empty-append}
use diplomski_rad.Threads.{
  wait, Place, ready_q, join_queue, queue_of, same_place, Thread, Kernel, prio_levels, null,
  at_last, put_thread, put_queue, kthreadq_append, kthreadq_remove, kthread_move_to_ready,
  kthreadq_release, release_loop, kthreadq_release_all, kthread_ready_list_set_not_empty,
}
use diplomski_rad.Threads.Masks.{marked}
use diplomski_rad.Threads.Links.{IsLinked, Sits, head_ne_null, same_place_self}
use diplomski_rad.Threads.Moves.{IsLinked-join, IsLinked-leave}
use diplomski_rad.Threads.Ready.{Joins-append, Leaves-first, kthread_move_to_ready-IsLinked}

-- A queue that is not one of the ready queues.
abbrev pub IsWaiting : Place → Type 0
IsWaiting (ready_q p) = ⊥
IsWaiting (join_queue d) = Unit {0}
IsWaiting (queue_of a) = Unit {0}

abbrev pub waiter : ℕ → Place → Kernel → Thread
waiter t q k = record (k.threads t) { state = wait; queue = some q }

abbrev pub enqueued : ℕ → Place → Kernel → Kernel
enqueued t q k = kthreadq_append q t (put_thread t (waiter t q k) k)

waiter-Sits : (t : ℕ) (q : Place) (k : Kernel) → IsWaiting q → Sits (waiter t q k) q
waiter-Sits t (ready_q p) k w = absurd w
waiter-Sits t (join_queue d) k w = refl
waiter-Sits t (queue_of a) k w = refl

not_ready : (q : Place) (r : ℕ) → IsWaiting q → same_place (ready_q r) q ≡ false
not_ready (ready_q p) r w = absurd w
not_ready (join_queue d) r w = refl
not_ready (queue_of a) r w = refl

module _ (t : ℕ) (q : Place) (k : Kernel) (w : IsWaiting q) where
  -- The ready lists are as they were.
  same_marks :
      {out : ℕ} (l : List ℕ)
      → IsLinked out k
      → (r : ℕ) → r < prio_levels
      → marked k.rdy_mask r
        ≡ not (is_empty (if same_place (ready_q r) q then l else k.queues (ready_q r)))
  same_marks l h r hr = rw (not_ready q r w) (h.marks r hr)

  pub enqueued-IsLinked : IsLinked t k → t ≢ null → IsLinked null (enqueued t q k)
  unfolding kthreadq_append
  enqueued-IsLinked h nt =
      IsLinked-join t (waiter t q k) q _ k.rdy_mask k h nt refl (waiter-Sits t q k w) (h.levels t)
        (Joins-append t _ (h.away q) (h.once q)) h.masks (same_marks _ h)

  pub leave_waiting :
      (l : List ℕ)
      → IsLinked null k
      → k.queues q ≡ t ∷ l
      → IsLinked t (put_queue q l k) × (t ≢ null)
  unfolding has
  leave_waiting l h e =
      let nt : t ≢ null = ne_of_test t null (head_ne_null q t l k h e) in
      (
        IsLinked-leave t q l k.rdy_mask k h nt (rw e (ground arith))
            (rw e (Leaves-first t l (rw e at (h.once q)))) h.masks (same_marks l h),
        nt,
      )

-- A thread that is released leaves the head of its queue and becomes ready.
abbrev pub released : ℕ → Place → List ℕ → Kernel → Kernel
released t q l k = kthread_move_to_ready t at_last (put_queue q l k)

module _ (q : Place) (k : Kernel) (h : IsLinked null k) where
  pub kthreadq_release-nil : k.queues q ≡ [] → kthreadq_release q k ≡ (false, k)
  unfolding kthreadq_release kthreadq_remove
  kthreadq_release-nil e = rw e

  pub kthreadq_release-cons :
      (t : ℕ) (l : List ℕ) → k.queues q ≡ t ∷ l → kthreadq_release q k ≡ (true, released t q l k)
  unfolding kthreadq_release kthreadq_remove
  kthreadq_release-cons t l e = rw (e, head_ne_null q t l k h e)

  pub released-IsLinked :
      (t : ℕ) (l : List ℕ) → IsWaiting q → k.queues q ≡ t ∷ l → IsLinked null (released t q l k)
  released-IsLinked t l w e =
      let v = leave_waiting t q k w l h e in kthread_move_to_ready-IsLinked t _ v.0 v.1 at_last

  -- `kthreadq_release` says whether the queue had a thread; it makes the first one ready, and keeps
  -- the invariant.
  pub kthreadq_release-IsLinked :
      IsWaiting q
      → ((kthreadq_release q k).0 ≡ not (is_empty (k.queues q)))
        × IsLinked null (kthreadq_release q k).1
  unfolding is_empty
  kthreadq_release-IsLinked w = go (k.queues q) refl
    where
      go :
          (l : List ℕ)
          → k.queues q ≡ l
          → ((kthreadq_release q k).0 ≡ not (is_empty (k.queues q)))
            × IsLinked null (kthreadq_release q k).1
      go [] e = rw (kthreadq_release-nil e, e) (refl, h)
      go (t ∷ l) e = rw (kthreadq_release-cons t l e, e) (refl, released-IsLinked t l w e)

not_ready' : (q : Place) (r : ℕ) → IsWaiting q → same_place q (ready_q r) ≡ false
not_ready' (ready_q p) r w = absurd w
not_ready' (join_queue d) r w = refl
not_ready' (queue_of a) r w = refl

pub released-queue :
    (t : ℕ) (q : Place) (l : List ℕ) (k : Kernel) → IsWaiting q → (released t q l k).queues q ≡ l
unfolding kthread_move_to_ready kthreadq_append kthread_ready_list_set_not_empty
released-queue t q l k w = rw (not_ready' q (k.threads t).prio w, same_place_self q)

-- The queues of other objects are left alone, and so is a queue that is joined elsewhere.
pub released-object :
    (t a b : ℕ) (l : List ℕ) (k : Kernel)
    → (b == a) ≡ false
    → (released t (queue_of a) l k).queues (queue_of b) ≡ k.queues (queue_of b)
unfolding kthread_move_to_ready kthreadq_append kthread_ready_list_set_not_empty
released-object t a b l k ne = rw ne

pub enqueued-queue :
    (t a : ℕ) (k : Kernel)
    → (enqueued t (queue_of a) k).queues (queue_of a) ≡ k.queues (queue_of a) ++ t ∷ []
unfolding kthreadq_append
enqueued-queue t a k = rw (same_place_self (queue_of a))

pub enqueued-object :
    (t a b : ℕ) (k : Kernel)
    → (b == a) ≡ false
    → (enqueued t (queue_of a) k).queues (queue_of b) ≡ k.queues (queue_of b)
unfolding kthreadq_append
enqueued-object t a b k ne = rw ne

pub enqueued-ready :
    (t a p : ℕ) (k : Kernel) → (enqueued t (queue_of a) k).queues (ready_q p) ≡ k.queues (ready_q p)
unfolding kthreadq_append
enqueued-ready t a p k = refl

pub released-active :
    (t : ℕ) (q : Place) (l : List ℕ) (k : Kernel)
    → (released t q l k).active_thread ≡ k.active_thread
unfolding kthread_move_to_ready kthreadq_append kthread_ready_list_set_not_empty
released-active t q l k = refl

-- A release takes no thread from the ready queues, and none from the other objects.
released-keeps :
    (t : ℕ) (q : Place) (l : List ℕ) (k : Kernel)
    → IsWaiting q
    → (p : ℕ) → is_empty (k.queues (ready_q p)) ≡ false
    → is_empty ((released t q l k).queues (ready_q p)) ≡ false
unfolding kthread_move_to_ready kthreadq_append kthread_ready_list_set_not_empty
released-keeps t q l k w p h = elim (Bool-cases (p == (k.threads t).prio)) [
  | inl e ↦ rw e (is_empty-append t _)
  | inr e ↦ rw (e, not_ready q p w) h
]

released-others :
    (t : ℕ) (q : Place) (l : List ℕ) (k : Kernel) (b : ℕ)
    → same_place (queue_of b) q ≡ false
    → (released t q l k).queues (queue_of b) ≡ k.queues (queue_of b)
unfolding kthread_move_to_ready kthreadq_append kthread_ready_list_set_not_empty
released-others t q l k b ne = rw ne

-- What is left of a queue after all its threads are released.
pub record Emptied (q : Place) (k k' : Kernel) : Type 0 where
  pub linked : IsLinked null k'
  pub empty : k'.queues q ≡ []
  pub same_active : k'.active_thread ≡ k.active_thread
  pub others :
      (b : ℕ) → same_place (queue_of b) q ≡ false → k'.queues (queue_of b) ≡ k.queues (queue_of b)
  pub keeps :
      (p : ℕ) → is_empty (k.queues (ready_q p)) ≡ false → is_empty (k'.queues (ready_q p)) ≡ false

pub release_loop-Emptied :
    (fuel : ℕ) (q : Place) (cnt : ℕ) (k : Kernel) (l : List ℕ)
    → IsWaiting q
    → IsLinked null k
    → k.queues q ≡ l
    → length l < fuel
    → let (n, k') = release_loop fuel q cnt k in (n ≡ cnt + length l) × Emptied q k k'
unfolding release_loop
release_loop-Emptied zero q cnt k l w h e f = absurd (omega arith)
release_loop-Emptied (suc fuel) q cnt k [] w h e f = rw (kthreadq_release-nil q k h e) (
  omega arith,
  record { linked = h; empty = e; same_active = refl; others = λ b ne. refl; keeps = λ p i. i },
)
release_loop-Emptied (suc fuel) q cnt k (t ∷ l) w h e f =
    let again =
      release_loop-Emptied fuel q (cnt + 1) (released t q l k) l w (released-IsLinked q k h t l w e)
        (released-queue t q l k w) (omega arith) in
    rw (kthreadq_release-cons q k h t l e) (
      omega (arith, again.0),
      record {
        linked = again.1.linked;
        empty = again.1.empty;
        same_active = again.1.same_active ∙ released-active t q l k;
        others = λ b ne. again.1.others b ne ∙ released-others t q l k b ne;
        keeps = λ p i. again.1.keeps p (released-keeps t q l k w p i);
      },
    )

-- `kthreadq_release_all` on a queue of waiting threads ends, returns their number, and leaves the
-- queue empty with the invariant kept; the active thread and the queues of other objects are as
-- they were, and no ready queue becomes empty.
pub kthreadq_release_all-Emptied :
    (q : Place) (k : Kernel)
    → IsWaiting q
    → IsLinked null k
    → let (n, k') = kthreadq_release_all q k in (n ≡ length (k.queues q)) × Emptied q k k'
unfolding kthreadq_release_all
kthreadq_release_all-Emptied q k w h =
    let r =
      release_loop-Emptied (length (k.queues q) + 1) q 0 k (k.queues q) w h refl (omega arith) in
    (omega (arith, r.0), r.1)

-- It makes a thread ready if one waited, and changes nothing if none did.
pub kthreadq_release_all-cons :
    (q : Place) (k : Kernel) (t : ℕ) (l : List ℕ)
    → IsWaiting q
    → IsLinked null k
    → k.queues q ≡ t ∷ l
    → let (n, k') = kthreadq_release_all q k in ((n == 0) ≡ false) × Emptied q (released t q l k) k'
unfolding kthreadq_release_all release_loop
kthreadq_release_all-cons q k t l w h e =
    let again =
      release_loop-Emptied (length (t ∷ l)) q 1 (released t q l k) l w
        (released-IsLinked q k h t l w e) (released-queue t q l k w) (omega arith) in
    let fuel : length (t ∷ l) + 1 ≡ suc (length (t ∷ l)) = omega arith in
    rw (e, fuel, kthreadq_release-cons q k h t l e, release_loop) (ground (arith, again.0), again.1)

pub kthreadq_release_all-nil :
    (q : Place) (k : Kernel) → IsLinked null k → k.queues q ≡ [] → kthreadq_release_all q k ≡ (0, k)
unfolding kthreadq_release_all release_loop
kthreadq_release_all-nil q k h e = rw (e, kthreadq_release-nil q k h e)
