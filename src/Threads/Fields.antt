-- ===== src/Threads/Fields.antt =====
-- A write to a descriptor that leaves its state, its priority and its queue alone.
use diplomski_rad.Base.{
  ℕ, ◌≡◌, refl, sym, ◌∙◌, ap, some, inl, inr, arith, ◌==◌, if◌then◌else◌, Bool-cases, eq_of_test,
}
use diplomski_rad.Threads.{
  Place, ready_q, join_queue, queue_of, Thread, Kernel, put_thread, set_errno,
}
use diplomski_rad.Threads.Links.{IsLinked, Sits}

-- What the invariant sees of a descriptor.
pub record SameLinks (a b : Thread) : Type 0 where
  pub state : a.state ≡ b.state
  pub prio : a.prio ≡ b.prio
  pub queue : a.queue ≡ b.queue

Sits-SameLinks : (a b : Thread) (q : Place) → SameLinks a b → Sits a q → Sits b q
Sits-SameLinks a b (ready_q p) s h = (sym s.state ∙ h.0, sym s.prio ∙ h.1)
Sits-SameLinks a b (join_queue p) s h = sym s.state ∙ h
Sits-SameLinks a b (queue_of p) s h = sym s.state ∙ h

module _ (t : ℕ) (th : Thread) (k : Kernel) (s : SameLinks th (k.threads t)) where
  pub same_at : (a : ℕ) → SameLinks (if a == t then th else k.threads a) (k.threads a)
  same_at a = elim (Bool-cases (a == t)) [
    | inl e ↦ rw (e, eq_of_test a t e) s
    | inr e ↦ rw e (record { state = refl; prio = refl; queue = refl })
  ]

  back_at : (a : ℕ) → SameLinks (k.threads a) (if a == t then th else k.threads a)
  back_at a =
      let h = same_at a in record { state = sym h.state; prio = sym h.prio; queue = sym h.queue }

  pub IsLinked-SameLinks : {out : ℕ} → IsLinked out k → IsLinked out (put_thread t th k)
  IsLinked-SameLinks h = record {
    away = h.away;
    no_null = h.no_null;
    linked = λ q a na ne. (
      (λ i.
          let w = (h.linked q a na ne).0 i in
          ((same_at a).queue ∙ w.0, Sits-SameLinks _ _ q (back_at a) w.1)),
      λ w. (h.linked q a na ne).1 ((back_at a).queue ∙ w.0, Sits-SameLinks _ _ q (same_at a) w.1),
    );
    once = h.once;
    levels = λ a. ground (arith, h.levels a, same_at a);
    masks = h.masks;
    marks = h.marks;
    sole = λ a na ne e. h.sole a na ne ((back_at a).state ∙ e);
    seated = λ a na ne e.
        (same_at a).queue
        ∙ h.seated a na ne ((back_at a).state ∙ e)
        ∙ ap (λ p. some (ready_q p)) ((back_at a).prio);
  }

-- `SET_ERRNO` keeps the invariant.
pub set_errno-IsLinked :
    {out : ℕ} (e : ℕ) (k : Kernel) → IsLinked out k → IsLinked out (set_errno e k)
unfolding set_errno
set_errno-IsLinked e k h =
    IsLinked-SameLinks k.active_thread _ k (record { state = refl; prio = refl; queue = refl }) h

pub set_errno-queues : (e : ℕ) (k : Kernel) → (set_errno e k).queues ≡ k.queues
unfolding set_errno
set_errno-queues e k = refl

pub set_errno-active : (e : ℕ) (k : Kernel) → (set_errno e k).active_thread ≡ k.active_thread
unfolding set_errno
set_errno-active e k = refl
