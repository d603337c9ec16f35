-- ===== src/Threads/Links.antt =====
-- The invariant of the threads and their queues, and the three ways in which a thread leaves it
-- and comes back: it is taken out of its queue, changed, and put into a queue.
use diplomski_rad.Base.{
  ℕ, ◌<◌, ◌≡◌, refl, subst, ◌≢◌, ◌↔◌, inl, inr, ◌∙◌, true, false, not, some, List, ◌∷◌, arith, ◌==◌,
  Bool-cases, eq_of_test, ne_of_test,
}
use diplomski_rad.Base.Members.{has, is_empty, IsOnce}
use diplomski_rad.Threads.{
  active, ready, wait, Place, ready_q, join_queue, queue_of, same_place, Thread, Kernel,
  prio_levels, null, put_thread,
}
use diplomski_rad.Threads.Masks.{marked, IsMask}

-- A thread that waits in a queue has the state for it, and in `ready_q` the priority.
abbrev pub Sits : Thread → Place → Type 0
Sits th (ready_q p) = (th.state ≡ ready) × (th.prio ≡ p)
Sits th (join_queue d) = th.state ≡ wait
Sits th (queue_of a) = th.state ≡ wait

-- The thread `out` (`null` for none) is in no queue. Every other thread is in the queue that its
-- descriptor names, in that one alone and once, if its state is ready or wait, and in none
-- otherwise; the masks mark the priorities with a ready thread; only the active thread has the state
-- active; and a ready thread names the queue of its priority.
pub record IsLinked (out : ℕ) (k : Kernel) : Type 0 where
  pub away : (q : Place) → has out (k.queues q) ≡ false
  pub no_null : (q : Place) → has null (k.queues q) ≡ false
  pub linked :
      (q : Place) (t : ℕ)
      → t ≢ null
      → t ≢ out
      → (has t (k.queues q) ≡ true) ↔ (((k.threads t).queue ≡ some q) × Sits (k.threads t) q)
  pub once : (q : Place) → IsOnce (k.queues q)
  pub levels : (t : ℕ) → (k.threads t).prio < prio_levels
  pub masks : IsMask k.rdy_mask
  pub marks :
      (p : ℕ) → p < prio_levels → marked k.rdy_mask p ≡ not (is_empty (k.queues (ready_q p)))
  pub sole : (t : ℕ) → t ≢ null → t ≢ out → (k.threads t).state ≡ active → t ≡ k.active_thread
  pub seated :
      (t : ℕ)
      → t ≢ null
      → t ≢ out
      → (k.threads t).state ≡ ready
      → (k.threads t).queue ≡ some (ready_q (k.threads t).prio)

pub same_place-eq : (p q : Place) → same_place p q ≡ true → p ≡ q
same_place-eq (ready_q a) (ready_q b) h = ground arith
same_place-eq (ready_q a) (join_queue b) h = cc
same_place-eq (ready_q a) (queue_of b) h = cc
same_place-eq (join_queue a) (ready_q b) h = cc
same_place-eq (join_queue a) (join_queue b) h = ground arith
same_place-eq (join_queue a) (queue_of b) h = cc
same_place-eq (queue_of a) (ready_q b) h = cc
same_place-eq (queue_of a) (join_queue b) h = cc
same_place-eq (queue_of a) (queue_of b) h = ground arith

pub same_place_self : (p : Place) → same_place p p ≡ true
same_place_self (ready_q a) = ground arith
same_place_self (join_queue a) = ground arith
same_place_self (queue_of a) = ground arith

pub apart : (p q : Place) → same_place p q ≡ false → p ≢ q
apart p q f e = cc (subst (λ r. same_place p r ≡ true) e (same_place_self p))

pub Sits-active : (th : Thread) (q : Place) → Sits th q → th.state ≢ active
Sits-active th (ready_q p) s e = cc (s.0)
Sits-active th (join_queue p) s e = cc
Sits-active th (queue_of p) s e = cc

-- A ready thread that sits in a queue sits in the one of its priority.
pub Sits-ready :
    (th : Thread) (q : Place)
    → th.queue ≡ some q
    → Sits th q
    → th.state ≡ ready
    → th.queue ≡ some (ready_q th.prio)
Sits-ready th (ready_q p) e s r = cc (s.1)
Sits-ready th (join_queue p) e s r = cc
Sits-ready th (queue_of p) e s r = cc

-- The head of a queue is a thread.
pub head_ne_null :
    {out : ℕ} (q : Place) (t : ℕ) (l : List ℕ) (k : Kernel)
    → IsLinked out k
    → k.queues q ≡ t ∷ l
    → (t == null) ≡ false
unfolding has
head_ne_null q t l k h e = let n : has null (t ∷ l) ≡ false = rw e at (h.no_null q) in ground arith

-- The descriptor of the thread outside the queues may change at will.
pub IsLinked-put_thread :
    (t : ℕ) (th : Thread) (k : Kernel)
    → IsLinked t k
    → th.prio < prio_levels
    → IsLinked t (put_thread t th k)
IsLinked-put_thread t th k h hp = record {
  away = h.away;
  no_null = h.no_null;
  linked = λ q a na nt. let e : (a == t) ≡ false = ground arith in rw e (h.linked q a na nt);
  once = h.once;
  levels = λ a. ground (arith, h.levels a);
  masks = h.masks;
  marks = h.marks;
  sole = λ a na nt. let e : (a == t) ≡ false = ground arith in rw e (h.sole a na nt);
  seated = λ a na nt. let e : (a == t) ≡ false = ground arith in rw e (h.seated a na nt);
}

-- An active thread is in no queue.
pub IsLinked-out :
    (t : ℕ) (k : Kernel)
    → IsLinked null k
    → t ≢ null
    → ((q : Place) → ¬ Sits (k.threads t) q)
    → IsLinked t k
IsLinked-out t k h nt ns = record {
  away = λ q. elim (Bool-cases (has t (k.queues q))) [
    | inl e ↦ absurd (ns q ((h.linked q t nt nt).0 e).1)
    | inr e ↦ e
  ];
  no_null = h.no_null;
  linked = λ q a na _. h.linked q a na na;
  once = h.once;
  levels = h.levels;
  masks = h.masks;
  marks = h.marks;
  sole = λ a na _. h.sole a na na;
  seated = λ a na _. h.seated a na na;
}

-- A thread whose state belongs to no queue may stay outside.
pub IsLinked-in :
    (t : ℕ) (k : Kernel)
    → IsLinked t k
    → ((q : Place) → ¬ Sits (k.threads t) q)
    → ((k.threads t).state ≡ active → t ≡ k.active_thread)
    → IsLinked null k
IsLinked-in t k h ns act = record {
  away = h.no_null;
  no_null = h.no_null;
  linked = λ q a na _. elim (Bool-cases (a == t)) [
    | inl e ↦ (
      (λ i. absurd (cc (h.away q, eq_of_test a t e))),
      λ s. absurd (ns q (subst (λ b. Sits (k.threads b) q) (eq_of_test a t e) s.1)),
    )
    | inr e ↦ h.linked q a na (ne_of_test a t e)
  ];
  once = h.once;
  levels = h.levels;
  masks = h.masks;
  marks = h.marks;
  sole = λ a na _ s. elim (Bool-cases (a == t)) [
    | inl e ↦
        eq_of_test a t e ∙ act (subst (λ b. (k.threads b).state ≡ active) (eq_of_test a t e) s)
    | inr e ↦ h.sole a na (ne_of_test a t e) s
  ];
  seated = λ a na _ s. elim (Bool-cases (a == t)) [
    | inl e ↦ absurd (
        ns (ready_q (k.threads t).prio)
          (subst (λ b. (k.threads b).state ≡ ready) (eq_of_test a t e) s, refl))
    | inr e ↦ h.seated a na (ne_of_test a t e) s
  ];
}
