-- ===== src/Threads/Ready.antt =====
-- The operations on the ready threads and on the queues of waiting threads keep the invariant.
use diplomski_rad.Base.{
  ℕ, ◌<◌, ◌≡◌, refl, ◌≢◌, inl, inr, true, false, not, some, List, [], ◌∷◌, ◌++◌, arith, ◌==◌,
  if◌then◌else◌, Bool-cases, eq_of_test,
}
use diplomski_rad.Base.Members.{
  has, is_empty, first, erase, IsOnce, is_empty_of_has, has-snoc, IsOnce-snoc, is_empty-append,
  has-erase_self, has-erase_ne, IsOnce-erase,
}
use diplomski_rad.Threads.{
  ready, ready_q, queue_of, Thread, Kernel, prio_levels, null, End, at_first, at_last, put_queue,
  kthreadq_append, kthreadq_prepend, kthreadq_get, kthread_ready_list_set_not_empty,
  kthread_ready_list_set_empty, kthread_move_to_ready,
}
use diplomski_rad.Threads.Masks.{
  marked, mark, unmark, IsMask, IsMask-mark, IsMask-unmark, marked-mark, marked-unmark,
}
use diplomski_rad.Threads.Links.{IsLinked, same_place_self}
use diplomski_rad.Threads.Moves.{Joins, Leaves, rearranged, relisted, IsLinked-join, IsLinked-leave}

pub Joins-append : (t : ℕ) (l : List ℕ) → has t l ≡ false → IsOnce l → Joins t l (l ++ t ∷ [])
Joins-append t l out o = record {
  joined = ground (arith, has-snoc t t l);
  others = λ a ne. ground (arith, has-snoc a t l);
  once = IsOnce-snoc t l o out;
}

pub Joins-cons : (t : ℕ) (l : List ℕ) → has t l ≡ false → IsOnce l → Joins t l (t ∷ l)
unfolding has
Joins-cons t l out o = record {
  joined = ground arith;
  others = λ a ne. ground arith;
  once = (out, o);
}

pub Leaves-first : (t : ℕ) (l : List ℕ) → IsOnce (t ∷ l) → Leaves t (t ∷ l) l
unfolding has
Leaves-first t l o = record { left = o.0; others = λ a ne. ground arith; once = o.1 }

pub Leaves-erase : (t : ℕ) (l : List ℕ) → IsOnce l → Leaves t l (erase t l)
Leaves-erase t l o = record {
  left = has-erase_self t l o;
  others = λ a ne. has-erase_ne a t l ne;
  once = IsOnce-erase t l o;
}

abbrev pub readied : ℕ → Kernel → Thread
readied t k = record (k.threads t) { state = ready; queue = some (ready_q (k.threads t).prio) }

module _ (t : ℕ) (k : Kernel) (h : IsLinked t k) (nt : t ≢ null) where
  join_ready :
      (l : List ℕ)
      → Joins t (k.queues (ready_q (k.threads t).prio)) l
      → is_empty l ≡ false
      → IsLinked null (
          rearranged t
            (readied t k)
            (ready_q (k.threads t).prio)
            l
            (mark k.rdy_mask (k.threads t).prio)
            k)
  join_ready l j full =
      let p = (k.threads t).prio in
      IsLinked-join t (readied t k) (ready_q p) l (mark k.rdy_mask p) k h nt refl (refl, refl)
        (h.levels t) j (IsMask-mark k.rdy_mask p h.masks (h.levels t))
        λ r hr.
          rw (marked-mark k.rdy_mask p h.masks (h.levels t) r, h.marks r hr)
            (elim (Bool-cases (r == p)) [ inl e ↦ rw (e, full) | inr e ↦ rw e ])

  -- `kthread_move_to_ready` puts a thread that is in no queue into the queue of its priority.
  pub kthread_move_to_ready-IsLinked : (side : End) → IsLinked null (kthread_move_to_ready t side k)
  unfolding kthread_move_to_ready kthread_ready_list_set_not_empty kthreadq_append kthreadq_prepend
      is_empty
  kthread_move_to_ready-IsLinked at_last =
      join_ready _ (Joins-append t _ (h.away _) (h.once _)) (is_empty-append t _)
  kthread_move_to_ready-IsLinked at_first = join_ready _ (Joins-cons t _ (h.away _) (h.once _)) refl

-- `NULL` is the first of the empty list alone.
first-null : (l : List ℕ) → has null l ≡ false → (first l == null) ≡ is_empty l
unfolding first is_empty has
first-null [] h = refl
first-null (x ∷ l) h = ground arith

-- What is done to the masks when the list of a priority becomes `l`.
abbrev pub unmarked : ℕ → List ℕ → List ℕ → List ℕ
unmarked p l masks = if is_empty l then unmark masks p else masks

module _ (t p : ℕ) (l : List ℕ) (k : Kernel) (h : IsLinked null k) (hp : p < prio_levels)
    (there : has t (k.queues (ready_q p)) ≡ true) where
  unmarked-IsMask : IsMask (unmarked p l k.rdy_mask)
  unmarked-IsMask = elim (Bool-cases (is_empty l)) [
    | inl e ↦ rw e (IsMask-unmark k.rdy_mask p h.masks hp)
    | inr e ↦ rw e h.masks
  ]

  unmarked_marks :
      (r : ℕ)
      → r < prio_levels
      → marked (unmarked p l k.rdy_mask) r
        ≡ not (is_empty (if r == p then l else k.queues (ready_q r)))
  unmarked_marks r hr = elim (Bool-cases (is_empty l)) [
    | inl e ↦
        rw (e, marked-unmark k.rdy_mask p h.masks hp r, h.marks r hr)
          (elim (Bool-cases (r == p)) [ inl f ↦ rw (f, e) | inr f ↦ rw f ])
    | inr e ↦
        rw (e, h.marks r hr)
          (elim (Bool-cases (r == p)) [
            | inl f ↦ rw (f, e, eq_of_test r p f, is_empty_of_has t _ there)
            | inr f ↦ rw f
          ])
  ]

  pub leave_ready :
      t ≢ null
      → Leaves t (k.queues (ready_q p)) l
      → IsLinked t (relisted (ready_q p) l (unmarked p l k.rdy_mask) k)
  leave_ready nt v =
      IsLinked-leave t (ready_q p) l (unmarked p l k.rdy_mask) k h nt there v unmarked-IsMask
        unmarked_marks

-- The ready list of a priority becomes `l`, as the code does it.
abbrev pub shortened : ℕ → List ℕ → Kernel → Kernel
shortened p l k =
    let k' = put_queue (ready_q p) l k in
    if kthreadq_get (ready_q p) k' == null then kthread_ready_list_set_empty p k' else k'

pub shortened-relisted :
    (p : ℕ) (l : List ℕ) (k : Kernel)
    → has null l ≡ false
    → shortened p l k ≡ relisted (ready_q p) l (unmarked p l k.rdy_mask) k
unfolding kthreadq_get kthread_ready_list_set_empty
shortened-relisted p l k h =
    rw (same_place_self (ready_q p), first-null l h)
      (elim (Bool-cases (is_empty l)) [ inl e ↦ rw e | inr e ↦ rw e ])

-- What `kthread_move_to_ready` does at its thread: to the queue of its priority, and its state.
module _ (t : ℕ) (k : Kernel) where
  pub moved-queue :
      (kthread_move_to_ready t at_last k).queues (ready_q (k.threads t).prio)
      ≡ k.queues (ready_q (k.threads t).prio) ++ t ∷ []
  unfolding kthread_move_to_ready kthread_ready_list_set_not_empty kthreadq_append
  moved-queue = rw (same_place_self (ready_q (k.threads t).prio))

  pub moved-state : ((kthread_move_to_ready t at_last k).threads t).state ≡ ready
  unfolding kthread_move_to_ready kthread_ready_list_set_not_empty kthreadq_append
  moved-state = ground arith

  pub moved-active : (kthread_move_to_ready t at_last k).active_thread ≡ k.active_thread
  unfolding kthread_move_to_ready kthread_ready_list_set_not_empty kthreadq_append
  moved-active = refl

  -- The queues of other objects are left alone.
  pub moved-object :
      (a : ℕ) → (kthread_move_to_ready t at_last k).queues (queue_of a) ≡ k.queues (queue_of a)
  unfolding kthread_move_to_ready kthread_ready_list_set_not_empty kthreadq_append
  moved-object a = refl
