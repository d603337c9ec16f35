-- ===== src/Edf/Schedule.antt =====
-- `k_edf_schedule`: the active thread of EDF has the earliest deadline, and the invariant is kept.
use diplomski_rad.Base.{
  ℕ, ◌≡◌, refl, sym, ap, subst, ◌∙◌, ◌≢◌, ◌⊎◌, inl, inr, true, false, Bool, Option, some, List, [],
  ◌∷◌, ◌==◌, if◌then◌else◌, Bool-cases, eq_of_test, ne_of_test, arith, ◌>>=◌,
}
use diplomski_rad.Base.Members.{has, erase, is_empty}
use diplomski_rad.Threads.{
  Kernel, ThreadState, queue_of, null, at_last, put_queue, kthreadq_remove, kthread_move_to_ready,
}
use diplomski_rad.Threads.Links.{IsLinked, same_place_self}
use diplomski_rad.Threads.Ready.{moved-object, moved-active, moved-state}
use diplomski_rad.Edf.{
  Layout, Edf, kernel_of, with_kernel, deadline_in, choose, preempt, k_edf_schedule,
}
use diplomski_rad.Edf.Preempt.{taken-IsLinked, preempt_lem, preempted, preempted-IsLinked}
use diplomski_rad.Threads.Unready.{seat}
use diplomski_rad.Edf.Swap.{
  joined_members, has-joined, erase-joined, preempted_swap, preempted-Returned,
}
use diplomski_rad.Edf.Earliest.{NotLater, earliest_lem, earliest_first}

-- What holds after a call that answers `b`: nothing has changed, or the new active thread is ready;
-- and no thread in `edf.ready` has an earlier deadline than the active one.
pub record IsScheduled (o : Layout) (s : Edf) (b : Bool) (s' : Edf) : Type 0 where
  pub linked : IsLinked null (kernel_of s')
  pub best :
      (t : ℕ)
      → has t ((kernel_of s').queues (queue_of o.ready)) ≡ true
      → NotLater (deadline_in s s'.active) (deadline_in s t)
  pub changed :
      ((b ≡ false) × (s' ≡ s))
      ⊎ ((b ≡ true)
          × (s'.active ≢ null)
          × (((kernel_of s').threads s'.active).state ≡ ThreadState.ready))
  pub params : s'.params ≡ s.params
  pub current : (kernel_of s').active_thread ≡ (kernel_of s).active_thread
  pub objects :
      (a : ℕ) → a ≢ o.ready → (kernel_of s').queues (queue_of a) ≡ (kernel_of s).queues (queue_of a)

has_of_erase : (a c : ℕ) (l : List ℕ) → has a (erase c l) ≡ true → has a l ≡ true
unfolding has erase
has_of_erase a c [] h = h
has_of_erase a c (x ∷ l) h = ground (arith, has_of_erase a c l)

module _ (o : Layout) (s : Edf) (h : IsLinked null (kernel_of s)) where
  abbrev listed : List ℕ
  listed = (kernel_of s).queues (queue_of o.ready)

  -- The thread that is chosen where `edf.ready` is not empty.
  record IsChosen (c : ℕ) : Type 0 where
    there : c ≢ null
    one : (c ≡ s.active) ⊎ (has c listed ≡ true)
    best : (t : ℕ) → has t listed ≡ true → NotLater (deadline_in s c) (deadline_in s t)
    active : s.active ≢ null → NotLater (deadline_in s c) (deadline_in s s.active)

  member_ne_null : (c : ℕ) → has c listed ≡ true → c ≢ null
  member_ne_null c i e = cc (rw e at i, h.no_null (queue_of o.ready))

  choose-IsChosen : is_empty listed ≡ false → IsChosen (choose o s)
  unfolding choose
  choose-IsChosen full = elim (Bool-cases (s.active == null)) [
    | inl n ↦ rw n (
        let r = earliest_first (deadline_in s) listed full in
        record {
          there = member_ne_null _ r.0;
          one = inr r.0;
          best = r.1;
          active = λ ne. absurd (ne (eq_of_test _ _ n));
        })
    | inr n ↦ rw n (
        let r = earliest_lem (deadline_in s) s.active listed in
        record {
          there = elim r.one [ inl e ↦ rw e (ne_of_test _ _ n) | inr i ↦ member_ne_null _ i ];
          one = r.one;
          best = r.others;
          active = λ ne. r.head;
        })
  ]

  -- The chosen thread `c` becomes ready, from a kernel `k` where it still waits in `edf.ready`.
  started :
      (c : ℕ) (k : Kernel)
      → IsLinked null k
      → c ≢ null
      → has c (k.queues (queue_of o.ready)) ≡ true
      → ((t : ℕ)
          → has t (k.queues (queue_of o.ready)) ≡ true
          → NotLater (deadline_in s c) (deadline_in s t))
      → k.active_thread ≡ (kernel_of s).active_thread
      → ((a : ℕ)
          → (a == o.ready) ≡ false
          → k.queues (queue_of a) ≡ (kernel_of s).queues (queue_of a))
      → IsScheduled o s true (
          with_kernel
            (record s { active = c })
            (kthread_move_to_ready c at_last
              (put_queue (queue_of o.ready) (erase c (k.queues (queue_of o.ready))) k)))
  started c k hk nc there best cur objs =
      let k1 = put_queue (queue_of o.ready) (erase c (k.queues (queue_of o.ready))) k in
      record {
        linked = taken-IsLinked c o.ready k hk nc there;
        best = λ t i. best t (
            has_of_erase t c (k.queues (queue_of o.ready))
              (rw (moved-object c k1 o.ready, same_place_self (queue_of o.ready)) at i));
        changed = inr (refl, nc, moved-state c k1);
        params = refl;
        current = moved-active c k1 ∙ cur;
        objects = λ a ne.
            let n : (a == o.ready) ≡ false = ground arith in moved-object c k1 a ∙ rw n (objs a n);
      }

  removed_lem :
      (c : ℕ)
      → c ≢ null
      → has c listed ≡ true
      → kthreadq_remove (queue_of o.ready) c (kernel_of s)
        ≡ (c, put_queue (queue_of o.ready) (erase c listed) (kernel_of s))
  unfolding kthreadq_remove
  removed_lem c nc i = let n : (c == null) ≡ false = ground arith in rw (n, i)

  -- The old active thread goes back first.
  swapped :
      (c : ℕ)
      → s.active ≢ null
      → has c listed ≡ true
      → let st = ((kernel_of s).threads s.active).state in
        let k = preempted st s.active o.ready (kernel_of s) in
        preempt o s.active (put_queue (queue_of o.ready) (erase c listed) (kernel_of s))
        ≡ some (put_queue (queue_of o.ready) (erase c (k.queues (queue_of o.ready))) k)
  swapped c na i =
      let a = s.active in
      let st = ((kernel_of s).threads a).state in
      let k = preempted st a o.ready (kernel_of s) in
      let q = queue_of o.ready in
      preempt_lem o a (put_queue q (erase c listed) (kernel_of s)) st na refl
        (λ e. seat a (kernel_of s) h na e)
      ∙ ap some (
          preempted_swap a o.ready (erase c listed) (kernel_of s) st
          ∙ ap (λ l. put_queue q l k)
              (sym (
                ap (erase c) (preempted-Returned a o.ready (kernel_of s) st).queue
                ∙ erase-joined st a c listed i)))

  kept :
      ((t : ℕ) → has t listed ≡ true → NotLater (deadline_in s s.active) (deadline_in s t))
      → IsScheduled o s false s
  kept best = record {
    linked = h;
    best = best;
    changed = inl (refl, refl);
    params = refl;
    current = refl;
    objects = λ a ne. refl;
  }

  nothing_listed : (t : ℕ) (l : List ℕ) → is_empty l ≡ true → has t l ≡ false
  unfolding is_empty has
  nothing_listed t [] e = refl
  nothing_listed t (x ∷ l) e = cc

  abbrev to_start : ℕ → Kernel → Option (Bool × Edf)
  to_start c k =
      some (true, with_kernel (record s { active = c }) (kthread_move_to_ready c at_last k))

  -- The call where another thread is chosen.
  change :
      (c : ℕ)
      → IsChosen c
      → c ≢ s.active
      → (s' : Edf) × (((if s.active == null
              then some (kthreadq_remove (queue_of o.ready) c (kernel_of s)).1
              else preempt o s.active (kthreadq_remove (queue_of o.ready) c (kernel_of s)).1)
            >>= to_start c)
          ≡ some (true, s'))
        × IsScheduled o s true s'
  change c ch other =
      let i : has c listed ≡ true = elim ch.one [ inl e ↦ absurd (other e) | inr i ↦ i ] in
      rw (removed_lem c ch.there i) (elim (Bool-cases (s.active == null)) [
        | inl n ↦ rw n (_, refl, started c (kernel_of s) h ch.there i ch.best refl (λ a ne. refl))
        | inr n ↦
            let na : s.active ≢ null = ne_of_test _ _ n in
            let st = ((kernel_of s).threads s.active).state in
            let k = preempted st s.active o.ready (kernel_of s) in
            let r = preempted-Returned s.active o.ready (kernel_of s) st in
            rw n (
              _,
              ap (λ m. m >>= to_start c) (swapped c na i),
              started c k (preempted-IsLinked s.active o.ready (kernel_of s) st h na refl) ch.there
                  (rw r.queue (has-joined st s.active c listed i))
                  (λ t it. elim (joined_members st s.active t listed (rw r.queue at it)) [
                    | inl e ↦ rw e (ch.active na)
                    | inr it' ↦ ch.best t it'
                  ])
                  r.active r.objects,
            )
      ])

  -- k_edf_schedule does not halt and keeps the invariant of the queues. Afterwards no thread in
  -- edf.ready has an earlier deadline than the active one of EDF; either nothing has changed and
  -- the call answers that, or the active thread of EDF is ready. The parameters, the running
  -- thread and the queues of other objects stay as they were.
  pub k_edf_schedule-IsScheduled :
      (b : Bool) × (s' : Edf) × (k_edf_schedule o s ≡ some (b, s')) × IsScheduled o s b s'
  unfolding k_edf_schedule
  k_edf_schedule-IsScheduled = elim (Bool-cases (is_empty listed)) [
    | inl e ↦ rw e (false, s, refl, kept (λ t i. cc (nothing_listed t listed e)))
    | inr e ↦ rw e (
        let ch = choose-IsChosen e in
        let n : (choose o s == null) ≡ false = ground (arith, ch.there) in
        elim (Bool-cases (choose o s == s.active)) [
          | inl same ↦
              rw (n, same)
                (
                  false,
                  s,
                  refl,
                  kept (λ t i.
                      subst (λ c. NotLater (deadline_in s c) (deadline_in s t))
                        (eq_of_test _ _ same) (ch.best t i)),
                )
          | inr other ↦
              let (s', eq, sch) = change (choose o s) ch (ne_of_test _ _ other) in
              rw (n, other) (true, s', eq, sch)
        ])
  ]
