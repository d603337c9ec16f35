-- ===== src/Threads/Moves.antt =====
-- A thread joins a queue or leaves one: the invariant with it outside and inside.
use diplomski_rad.Base.{
  ℕ, ◌<◌, ◌≡◌, sym, subst, ◌≢◌, ◌↔◌, inl, inr, ◌∙◌, true, false, not, some, List, arith, ◌==◌,
  if◌then◌else◌, Bool-cases, eq_of_test, ne_of_test,
}
use diplomski_rad.Base.Members.{has, is_empty, IsOnce}
use diplomski_rad.Threads.{
  Place, ready_q, same_place, Thread, Kernel, prio_levels, null, put_thread,
}
use diplomski_rad.Threads.Masks.{marked, IsMask}
use diplomski_rad.Threads.Links.{IsLinked, Sits, Sits-active, Sits-ready, same_place-eq, apart}

-- A new list `l` for the queue `q` and new masks; and a new descriptor of `t` beside them.
abbrev pub relisted : Place → List ℕ → List ℕ → Kernel → Kernel
relisted q l masks k = record k {
  queues = λ p. if same_place p q then l else k.queues p;
  rdy_mask = masks;
}

abbrev pub rearranged : ℕ → Thread → Place → List ℕ → List ℕ → Kernel → Kernel
rearranged t th q l masks k = put_thread t th (relisted q l masks k)

-- What a list has to be for `t` to join the queue `q` by it.
pub record Joins (t : ℕ) (l l' : List ℕ) : Type 0 where
  pub joined : has t l' ≡ true
  pub others : (a : ℕ) → a ≢ t → has a l' ≡ has a l
  pub once : IsOnce l'

module _ (t : ℕ) (th : Thread) (q : Place) (l masks : List ℕ) (k : Kernel) (h : IsLinked t k)
    (nt : t ≢ null) (named : th.queue ≡ some q) (sits : Sits th q) (level : th.prio < prio_levels)
    (joins : Joins t (k.queues q) l) where
  joined_linked :
      (p : Place) (a : ℕ)
      → a ≢ null
      → (has a (if same_place p q then l else k.queues p) ≡ true) ↔ (
          ((if a == t then th else k.threads a).queue ≡ some p)
          × Sits (if a == t then th else k.threads a) p)
  joined_linked p a na = elim (Bool-cases (a == t)) [
    | inl e ↦ rw e (elim (Bool-cases (same_place p q)) [
      | inl f ↦ rw f (
        (λ _.
            subst (λ r. (th.queue ≡ some r) × Sits th r) (sym (same_place-eq p q f)) (named, sits)),
        λ _. rw (eq_of_test a t e) joins.joined,
      )
      | inr f ↦ rw f (
        (λ i. absurd (cc (h.away p, eq_of_test a t e))),
        λ s. absurd (apart p q f (cc (s.0, named))),
      )
    ])
    | inr e ↦ rw e (elim (Bool-cases (same_place p q)) [
      | inl f ↦
          rw (f, joins.others a (ne_of_test a t e), same_place-eq p q f)
            (h.linked q a na (ne_of_test a t e))
      | inr f ↦ rw f (h.linked p a na (ne_of_test a t e))
    ])
  ]

  -- A thread outside the queues may join a queue, if the new masks agree with the new queues.
  pub IsLinked-join :
      IsMask masks
      → ((p : ℕ)
          → p < prio_levels
          → marked masks p
            ≡ not (is_empty (if same_place (ready_q p) q then l else k.queues (ready_q p))))
      → IsLinked null (rearranged t th q l masks k)
  IsLinked-join hm marks = record {
    away = null_away;
    no_null = null_away;
    linked = λ p a na _. joined_linked p a na;
    once = λ p. elim (Bool-cases (same_place p q)) [
      | inl f ↦ rw f joins.once
      | inr f ↦ rw f (h.once p)
    ];
    levels = λ a. ground (arith, h.levels a);
    masks = hm;
    marks = marks;
    sole = λ a na _ s. elim (Bool-cases (a == t)) [
      | inl e ↦ absurd (Sits-active th q sits (rw e at s))
      | inr e ↦ h.sole a na (ne_of_test a t e) (rw e at s)
    ];
    seated = λ a na _ s. elim (Bool-cases (a == t)) [
      | inl e ↦ rw e (Sits-ready th q named sits (rw e at s))
      | inr e ↦ rw e (h.seated a na (ne_of_test a t e) (rw e at s))
    ];
  }
    where
      null_away : (p : Place) → has null (if same_place p q then l else k.queues p) ≡ false
      null_away p = elim (Bool-cases (same_place p q)) [
        | inl f ↦ rw f (joins.others null (omega arith) ∙ h.no_null q)
        | inr f ↦ rw f (h.no_null p)
      ]

-- What a list has to be for `t` to leave the queue with the list `l`.
pub record Leaves (t : ℕ) (l l' : List ℕ) : Type 0 where
  pub left : has t l' ≡ false
  pub others : (a : ℕ) → a ≢ t → has a l' ≡ has a l
  pub once : IsOnce l'

-- A thread may leave the queue that it is in.
module _ (t : ℕ) (q : Place) (l masks : List ℕ) (k : Kernel) (h : IsLinked null k) (nt : t ≢ null)
    (there : has t (k.queues q) ≡ true) (leaves : Leaves t (k.queues q) l) where
  left_away : (p : Place) → has t (if same_place p q then l else k.queues p) ≡ false
  left_away p = elim (Bool-cases (same_place p q)) [
    | inl f ↦ rw f leaves.left
    | inr f ↦ rw f (elim (Bool-cases (has t (k.queues p))) [
      | inl i ↦
          absurd (apart p q f (cc (((h.linked p t nt nt).0 i).0, ((h.linked q t nt nt).0 there).0)))
      | inr o ↦ o
    ])
  ]

  left_others :
      (p : Place) (a : ℕ)
      → a ≢ t
      → has a (if same_place p q then l else k.queues p) ≡ has a (k.queues p)
  left_others p a ne = elim (Bool-cases (same_place p q)) [
    | inl f ↦ rw (f, same_place-eq p q f) (leaves.others a ne)
    | inr f ↦ rw f
  ]

  pub IsLinked-leave :
      IsMask masks
      → ((p : ℕ)
          → p < prio_levels
          → marked masks p
            ≡ not (is_empty (if same_place (ready_q p) q then l else k.queues (ready_q p))))
      → IsLinked t (relisted q l masks k)
  IsLinked-leave hm marks = record {
    away = left_away;
    no_null = λ p. left_others p null (omega arith) ∙ h.no_null p;
    linked = λ p a na ne. rw (left_others p a ne) (h.linked p a na na);
    once = λ p. elim (Bool-cases (same_place p q)) [
      | inl f ↦ rw f leaves.once
      | inr f ↦ rw f (h.once p)
    ];
    levels = h.levels;
    masks = hm;
    marks = marks;
    sole = λ a na ne s. h.sole a na na s;
    seated = λ a na ne s. h.seated a na na s;
  }
