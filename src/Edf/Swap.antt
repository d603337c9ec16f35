-- ===== src/Edf/Swap.antt =====
-- A change of the list of `edf.ready` before the old active thread goes there, or afterwards.
use diplomski_rad.Base.{
  ℕ, ◌≡◌, ◌⊎◌, true, false, arith, refl, ap, ◌∙◌, inl, inr, fun_ext, some, List, [], ◌∷◌, ◌++◌,
  ◌==◌, if◌then◌else◌, Bool-cases,
}
use diplomski_rad.Base.Members.{first, erase, has, has-snoc}
use diplomski_rad.Threads.{
  Kernel, ThreadState, Place, ready_q, queue_of, same_place, null, put_thread, put_queue,
  kthreadq_append, kthreadq_get, kthread_ready_list_set_empty,
}
use diplomski_rad.Threads.Links.{same_place_self}
use diplomski_rad.Threads.Ready.{shortened}
use diplomski_rad.Threads.Waiting.{enqueued, enqueued-queue, enqueued-object}
use diplomski_rad.Threads.Unready.{unready, unready-same}
use diplomski_rad.Edf.Preempt.{erase-snoc, loosened, preempted}

-- Two kernels that differ in the queues alone are equal if these are.
same_queues :
    (k : Kernel) (f g : Place → List ℕ)
    → ((p : Place) → f p ≡ g p)
    → record k { queues = f } ≡ record k { queues = g }
same_queues k f g h = ap (λ (q : Place → List ℕ). record k { queues = q }) (fun_ext h)

enqueued_swap :
    (t a : ℕ) (m : List ℕ) (k : Kernel)
    → enqueued t (queue_of a) (put_queue (queue_of a) m k)
      ≡ put_queue (queue_of a) (m ++ t ∷ []) (enqueued t (queue_of a) k)
unfolding kthreadq_append
enqueued_swap t a m k = same_queues (enqueued t (queue_of a) k) _ _ (λ p.
    elim (Bool-cases (same_place p (queue_of a))) [
      | inl e ↦ rw (e, same_place_self (queue_of a)) refl
      | inr e ↦ rw e refl
    ])

shortened_swap :
    (p a : ℕ) (l m : List ℕ) (k : Kernel)
    → shortened p l (put_queue (queue_of a) m k) ≡ put_queue (queue_of a) m (shortened p l k)
unfolding kthreadq_get kthread_ready_list_set_empty
shortened_swap p a l m k = rw (same_place_self (ready_q p)) (elim (Bool-cases (first l == null)) [
  | inl e ↦ rw e (same_queues (kthread_ready_list_set_empty p k) _ _ swap)
  | inr e ↦ rw e (same_queues k _ _ swap)
])
  where
    swap :
        (q : Place)
        → (if same_place q (ready_q p)
            then l
            else if same_place q (queue_of a)
            then m
            else k.queues q)
          ≡ (if same_place q (queue_of a)
              then m
              else if same_place q (ready_q p)
              then l
              else k.queues q)
    swap (ready_q i) = refl
    swap (Place.join_queue i) = refl
    swap (queue_of i) = refl

-- What the list of `edf.ready` becomes.
abbrev pub joined : ThreadState → ℕ → List ℕ → List ℕ
joined ThreadState.active t m = m ++ t ∷ []
joined ThreadState.ready t m = m ++ t ∷ []
joined ThreadState.wait t m = m
joined ThreadState.passive t m = m

pub preempted_swap :
    (t a : ℕ) (m : List ℕ) (k : Kernel) (st : ThreadState)
    → preempted st t a (put_queue (queue_of a) m k)
      ≡ put_queue (queue_of a) (joined st t m) (preempted st t a k)
preempted_swap t a m k ThreadState.active = enqueued_swap t a m (loosened ThreadState.active t k)
preempted_swap t a m k ThreadState.ready =
    ap (enqueued t (queue_of a)) (
      shortened_swap (k.threads t).prio a (erase t (k.queues (ready_q (k.threads t).prio))) m
        (put_thread t (record (k.threads t) { queue = some (ready_q (k.threads t).prio) }) k))
    ∙ enqueued_swap t a m (unready t k)
preempted_swap t a m k ThreadState.wait = refl
preempted_swap t a m k ThreadState.passive = refl

-- What `preempt` does to the queues of kernel objects, and to the active thread.
pub record Returned (t a : ℕ) (st : ThreadState) (k k' : Kernel) : Type 0 where
  pub queue : k'.queues (queue_of a) ≡ joined st t (k.queues (queue_of a))
  pub active : k'.active_thread ≡ k.active_thread
  pub objects : (b : ℕ) → (b == a) ≡ false → k'.queues (queue_of b) ≡ k.queues (queue_of b)

pub preempted-Returned :
    (t a : ℕ) (k : Kernel) (st : ThreadState) → Returned t a st k (preempted st t a k)
unfolding kthreadq_append
preempted-Returned t a k ThreadState.active = record {
  queue = enqueued-queue t a (loosened ThreadState.active t k);
  active = refl;
  objects = λ b ne. enqueued-object t a b (loosened ThreadState.active t k) ne;
}
preempted-Returned t a k ThreadState.ready =
    let same = unready-same t k in
    record {
      queue = enqueued-queue t a (unready t k) ∙ ap (λ l. l ++ t ∷ []) (same.1 a);
      active = same.0;
      objects = λ b ne. enqueued-object t a b (unready t k) ne ∙ same.1 b;
    }
preempted-Returned t a k ThreadState.wait = record {
  queue = refl;
  active = refl;
  objects = λ b ne. refl;
}
preempted-Returned t a k ThreadState.passive = record {
  queue = refl;
  active = refl;
  objects = λ b ne. refl;
}

pub joined_members :
    (st : ThreadState) (a t : ℕ) (l : List ℕ)
    → has t (joined st a l) ≡ true
    → (t ≡ a) ⊎ (has t l ≡ true)
joined_members ThreadState.active a t l i = elim (Bool-cases (has t l)) [
  | inl e ↦ inr e
  | inr e ↦ inl (ground (arith, has-snoc t a l))
]
joined_members ThreadState.ready a t l i = elim (Bool-cases (has t l)) [
  | inl e ↦ inr e
  | inr e ↦ inl (ground (arith, has-snoc t a l))
]
joined_members ThreadState.wait a t l i = inr i
joined_members ThreadState.passive a t l i = inr i

pub has-joined :
    (st : ThreadState) (a c : ℕ) (l : List ℕ) → has c l ≡ true → has c (joined st a l) ≡ true
has-joined ThreadState.active a c l i = rw (has-snoc c a l, i)
has-joined ThreadState.ready a c l i = rw (has-snoc c a l, i)
has-joined ThreadState.wait a c l i = i
has-joined ThreadState.passive a c l i = i

pub erase-joined :
    (st : ThreadState) (a c : ℕ) (l : List ℕ)
    → has c l ≡ true
    → erase c (joined st a l) ≡ joined st a (erase c l)
erase-joined ThreadState.active a c l i = erase-snoc c a l i
erase-joined ThreadState.ready a c l i = erase-snoc c a l i
erase-joined ThreadState.wait a c l i = refl
erase-joined ThreadState.passive a c l i = refl
