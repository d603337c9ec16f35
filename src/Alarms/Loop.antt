-- ===== src/Alarms/Loop.antt =====
-- `k_schedule_alarms` ends, and no alarm is due afterwards, where alarms go off once and have no
-- action.
use diplomski_rad.Base.{
  ℕ, zero, suc, ◌+◌, ◌<◌, ◌≡◌, refl, sym, subst, ◌∙◌, ap, inl, inr, true, false, some, List, [],
  ◌∷◌, ◌==◌, arith, Bool-cases, length, eq_of_test,
}
use diplomski_rad.Base.Int.{ℤ, pos, leb_ℤ, ◌≤ℤ◌, ◌<ℤ◌}
use diplomski_rad.Base.Members.{has, first, rest}
use diplomski_rad.Threads.{Kernel, queue_of, null, kthreadq_release_all}
use diplomski_rad.Threads.Links.{IsLinked}
use diplomski_rad.Threads.Waiting.{Emptied, kthreadq_release_all-Emptied}
use diplomski_rad.Clock.{Time, time_cmp, time_add}
use diplomski_rad.Clock.Order.{value, IsNormal}
use diplomski_rad.Alarms.{
  Kalarm, Alarms, Actions, exp_time_of, exp_time_in, expire, act, expire_due, set_timer,
  k_schedule_alarms,
}
use diplomski_rad.Alarms.Sorted.{due, IsSorted, AreNormal}
use diplomski_rad.Alarms.Due.{
  IsPlain, ArePlain, IsInactive, WentOff, off, same_time, off-IsInactive, off-ArePlain,
  IsSorted-same, none_before, is_due, is_future,
}

first_of : (l : List ℕ) (a : ℕ) (r : List ℕ) → l ≡ a ∷ r → first l ≡ a
unfolding first
first_of l a r e = ap first e

rest_of : (l : List ℕ) (a : ℕ) (r : List ℕ) → l ≡ a ∷ r → rest l ≡ r
unfolding rest
rest_of l a r e = ap rest e

-- The round that takes one alarm off.
one_round :
    (acts : Actions) (fuel n a : ℕ) (now : Time) (s : Alarms) (l : List ℕ) (p : IsPlain s a)
    → s.kalarms ≡ a ∷ l
    → leb_ℤ (time_cmp p.what.alarm.exp_time now) (pos 0) ≡ true
    → let released = kthreadq_release_all (queue_of a) s.kernel in
      expire_due acts (suc fuel) now n s
      ≡ expire_due acts fuel now (n + 0 + released.0) (off a p.what released.1 s)
unfolding expire_due expire act
one_round acts fuel n a now s l p q e =
    let there : (a == null) ≡ false = ground (arith, p.given) in
    let quiet : (p.what.alarm.action == null) ≡ true = ground (arith, p.quiet) in
    rw (first_of s.kalarms a l q, there, p.there, e, p.once, quiet) refl

just_off : (s : Alarms) (a : ℕ) (v : Kalarm) (k : Kernel) → IsInactive (off a v k s) a
just_off s a v k = (record v { active = false }, ground arith, refl)

member_rest :
    (m : List ℕ) (a b : ℕ) (l : List ℕ)
    → m ≡ a ∷ l
    → (b == a) ≡ false
    → has b m ≡ true
    → has b (rest m) ≡ true
unfolding has rest
member_rest m a b l q other member = rw q (ground (arith, rw q at member))

not_both : (x y : ℤ) → x ≤ℤ y → y <ℤ x → ⊥
not_both x y le less = omega (arith, le, less)

-- What went off after the first alarm.
after_first :
    (s s' : Alarms) (a : ℕ) (k : Kernel) (now : Time) (l : List ℕ) (p : IsPlain s a)
    → s.kalarms ≡ a ∷ l
    → due s a ≤ℤ value now
    → Emptied (queue_of a) s.kernel k
    → WentOff (off a p.what k s) s' now
    → WentOff s s' now
unfolding has
after_first s s' a k now l p q past em w = record {
  none_due = λ b member. rw (← same_time s a p.what k b p.there) (w.none_due b member);
  went = λ b member late. elim (Bool-cases (b == a)) [
    | inl e ↦ subst (IsInactive s') (sym (eq_of_test b a e)) (w.inactive a (just_off s a p.what k))
    | inr e ↦
        w.went b (member_rest s.kalarms a b l q e member)
          (rw (same_time s a p.what k b p.there) late)
  ];
  stays = λ b member early. elim (Bool-cases (b == a)) [
    | inl e ↦ absurd (
        not_both (due s a) (value now) past
          (subst (λ c. value now <ℤ due s c) (eq_of_test b a e) early))
    | inr e ↦
        w.stays b (member_rest s.kalarms a b l q e member)
          (rw (same_time s a p.what k b p.there) early)
  ];
  inactive = λ b idle. w.inactive b (off-IsInactive s a p.what k b idle);
  linked = w.linked;
  woken = λ b member late. elim (Bool-cases (b == a)) [
    | inl e ↦
        subst (λ c. s'.kernel.queues (queue_of c) ≡ []) (sym (eq_of_test b a e))
          (w.empty a em.empty)
    | inr e ↦
        w.woken b (member_rest s.kalarms a b l q e member)
          (rw (same_time s a p.what k b p.there) late)
  ];
  empty = λ b none_waits. elim (Bool-cases (b == a)) [
    | inl e ↦
        subst (λ c. s'.kernel.queues (queue_of c) ≡ []) (sym (eq_of_test b a e))
          (w.empty a em.empty)
    | inr e ↦ w.empty b (em.others b e ∙ none_waits)
  ];
}

-- The times that are compared are normal, the alarms are plain and in the order of their times, and the
-- kernel keeps its invariant.
pub record IsReady (s : Alarms) (now : Time) (l : List ℕ) : Type 0 where
  pub normal : AreNormal s
  pub clock : IsNormal now
  pub plain : ArePlain s l
  pub sorted : IsSorted s l
  pub linked : IsLinked null s.kernel

off-IsReady :
    (s : Alarms) (a : ℕ) (k : Kernel) (now : Time) (l : List ℕ) (r : IsReady s now (a ∷ l))
    → IsLinked null k
    → IsReady (off a r.plain.0.what k s) now l
off-IsReady s a k now l r linked =
    let p = r.plain.0 in
    record {
      normal = λ b. subst IsNormal (sym (same_time s a p.what k b p.there)) (r.normal b);
      clock = r.clock;
      plain = off-ArePlain s a k p l r.plain.1;
      sorted =
          IsSorted-same s (off a p.what k s) l (λ b. same_time s a p.what k b p.there) r.sorted.1;
      linked = linked;
    }

empty_stop :
    (acts : Actions) (fuel n : ℕ) (now : Time) (s : Alarms)
    → s.kalarms ≡ []
    → expire_due acts (suc fuel) now n s ≡ some (n, s)
unfolding expire_due first
empty_stop acts fuel n now s q = rw q refl

no_round :
    (acts : Actions) (fuel n a : ℕ) (now : Time) (s : Alarms) (l : List ℕ) (p : IsPlain s a)
    → s.kalarms ≡ a ∷ l
    → leb_ℤ (time_cmp p.what.alarm.exp_time now) (pos 0) ≡ false
    → expire_due acts (suc fuel) now n s ≡ some (n, s)
unfolding expire_due
no_round acts fuel n a now s l p q e =
    let there : (a == null) ≡ false = ground (arith, p.given) in
    rw (first_of s.kalarms a l q, there, p.there, e) refl

out_of_nil : (b : ℕ) → has b [] ≡ true → ⊥
unfolding has
out_of_nil b member = cc member

-- With no alarm due the state is as it was.
nothing_left :
    (s : Alarms) (now : Time)
    → IsLinked null s.kernel
    → ((b : ℕ) → has b s.kalarms ≡ true → value now <ℤ due s b)
    → WentOff s s now
nothing_left s now linked ahead = record {
  none_due = ahead;
  went = λ b member late. absurd (not_both (due s b) (value now) late (ahead b member));
  stays = λ b member early. member;
  inactive = λ b idle. idle;
  linked = linked;
  woken = λ b member late. absurd (not_both (due s b) (value now) late (ahead b member));
  empty = λ b none_waits. none_waits;
}

past_due :
    (s : Alarms) (a : ℕ) (now : Time) (p : IsPlain s a)
    → IsNormal (exp_time_of s a)
    → IsNormal now
    → leb_ℤ (time_cmp p.what.alarm.exp_time now) (pos 0) ≡ true
    → due s a ≤ℤ value now
past_due s a now p normal clock e =
    is_due (exp_time_of s a) now normal clock (rw (ap exp_time_in p.there) e)

still_ahead :
    (s : Alarms) (a : ℕ) (now : Time) (p : IsPlain s a)
    → IsNormal (exp_time_of s a)
    → IsNormal now
    → leb_ℤ (time_cmp p.what.alarm.exp_time now) (pos 0) ≡ false
    → value now <ℤ due s a
still_ahead s a now p normal clock e =
    is_future (exp_time_of s a) now normal clock (rw (ap exp_time_in p.there) e)

expire_due-WentOff :
    (acts : Actions) (now : Time) (l : List ℕ) (fuel n : ℕ) (s : Alarms)
    → s.kalarms ≡ l
    → IsReady s now l
    → length l < fuel
    → (m : ℕ) × (s' : Alarms) × (expire_due acts fuel now n s ≡ some (m, s')) × WentOff s s' now
expire_due-WentOff acts now l zero n s q r enough = absurd (omega (arith, enough))
expire_due-WentOff acts now [] (suc fuel) n s q r enough = (
  n,
  s,
  empty_stop acts fuel n now s q,
  nothing_left s now r.linked
      (λ b member. absurd (out_of_nil b (subst (λ m. has b m ≡ true) q member))),
)
expire_due-WentOff acts now (a ∷ l) (suc fuel) n s q r enough =
    elim (Bool-cases (leb_ℤ (time_cmp r.plain.0.what.alarm.exp_time now) (pos 0))) [
      | inl e ↦
          let released = kthreadq_release_all (queue_of a) s.kernel in
          let em = (kthreadq_release_all-Emptied (queue_of a) s.kernel tt r.linked).1 in
          let p = r.plain.0 in
          let s1 = off a p.what released.1 s in
          let (m, s', run, w) =
            expire_due-WentOff acts now l fuel (n + 0 + released.0) s1 (rest_of s.kalarms a l q)
              (off-IsReady s a released.1 now l r em.linked) (omega (arith, enough)) in
          (
            m,
            s',
            one_round acts fuel n a now s l p q e ∙ run,
            after_first s s' a released.1 now l p q (past_due s a now p (r.normal a) r.clock e) em
                w,
          )
      | inr e ↦ (
        n,
        s,
        no_round acts fuel n a now s l r.plain.0 q e,
        nothing_left s now r.linked (λ b member.
            none_before s a now (a ∷ l) (still_ahead s a now r.plain.0 (r.normal a) r.clock e)
              (omega arith, r.sorted.0) b (subst (λ m. has b m ≡ true) q member)),
      )
    ]

with_timer : (now ref : Time) (s s' : Alarms) → WentOff s s' ref → WentOff s (set_timer now s') ref
unfolding set_timer
with_timer now ref s s' w = elim (Bool-cases (first s'.kalarms == null)) [
  | inl e ↦ rw e w
  | inr e ↦ rw e (record {
    none_due = w.none_due;
    went = w.went;
    stays = w.stays;
    inactive = w.inactive;
    linked = w.linked;
    woken = w.woken;
    empty = w.empty;
  })
]

-- k_schedule_alarms, for alarms that go off once and have no action, so that they only wake the
-- threads that wait for them, in the order of their normal times, with a normal time to compare
-- with, ends within one round more than there are alarms in the list: those due by the time and
-- the threshold together are inactive and off the list, no thread waits for them, none that is
-- left is due, and the others are still in the list. The kernel's queues have to keep their
-- invariant.
pub k_schedule_alarms-WentOff :
    (acts : Actions) (fuel : ℕ) (s : Alarms)
    → IsReady s (time_add s.now s.threshold) s.kalarms
    → length s.kalarms < fuel
    → (m : ℕ) × (s' : Alarms) × (k_schedule_alarms acts fuel s ≡ some (m, s'))
      × WentOff s s' (time_add s.now s.threshold)
unfolding k_schedule_alarms
k_schedule_alarms-WentOff acts fuel s r enough =
    let (m, s', run, w) =
      expire_due-WentOff acts (time_add s.now s.threshold) s.kalarms fuel 0 s refl r enough in
    (m, set_timer s.now s', rw run refl, with_timer s.now (time_add s.now s.threshold) s s' w)
