-- ===== src/Alarms/Due.antt =====
-- What `k_schedule_alarms` does to alarms that go off once and have no action.
use diplomski_rad.Base.{
  ℕ, ◌≡◌, ◌≢◌, refl, sym, subst, ◌∙◌, ap, inl, inr, true, false, some, List, [], ◌∷◌, ◌==◌, arith,
  Bool-cases, eq_of_test,
}
use diplomski_rad.Base.Int.{pos, negsuc, leb_ℤ, ◌≤ℤ◌, ◌<ℤ◌}
use diplomski_rad.Base.Members.{has, rest}
use diplomski_rad.Threads.{Kernel, queue_of, null}
use diplomski_rad.Threads.Links.{IsLinked}
use diplomski_rad.Clock.{Time, time_cmp}
use diplomski_rad.Clock.Order.{value, IsNormal, time_cmp-value}
use diplomski_rad.Alarms.{Kalarm, Alarms, put_alarm, exp_time_of, exp_time_in, is_periodic}
use diplomski_rad.Alarms.Sorted.{due, NotBefore, IsSorted}

-- An alarm that goes off once and only wakes the threads that wait for it.
pub record IsPlain (s : Alarms) (a : ℕ) : Type 0 where
  pub given : a ≢ null
  pub what : Kalarm
  pub there : s.alarms a ≡ some what
  pub once : is_periodic what.alarm ≡ false
  pub quiet : what.alarm.action ≡ null

abbrev pub ArePlain : Alarms → List ℕ → Type 0
ArePlain s [] = Unit {0}
ArePlain s (a ∷ l) = IsPlain s a × ArePlain s l

abbrev pub IsInactive : Alarms → ℕ → Type 0
IsInactive s a = (v : Kalarm) × (s.alarms a ≡ some v) × (v.active ≡ false)

-- `s'` is `s` after the alarms that are due by `now` have gone off: they are inactive and off the
-- list, no thread waits for them, and the others are still on it.
pub record WentOff (s s' : Alarms) (now : Time) : Type 0 where
  pub none_due : (a : ℕ) → has a s'.kalarms ≡ true → value now <ℤ due s a
  pub went : (a : ℕ) → has a s.kalarms ≡ true → due s a ≤ℤ value now → IsInactive s' a
  pub stays : (a : ℕ) → has a s.kalarms ≡ true → value now <ℤ due s a → has a s'.kalarms ≡ true
  pub inactive : (a : ℕ) → IsInactive s a → IsInactive s' a
  pub linked : IsLinked null s'.kernel
  pub woken :
      (a : ℕ) → has a s.kalarms ≡ true → due s a ≤ℤ value now → s'.kernel.queues (queue_of a) ≡ []
  pub empty : (a : ℕ) → s.kernel.queues (queue_of a) ≡ [] → s'.kernel.queues (queue_of a) ≡ []

positive : leb_ℤ (pos 1) (pos 0) ≡ true → ⊥
positive e = ground arith

negative : leb_ℤ (negsuc 0) (pos 0) ≡ false → ⊥
negative e = ground arith

zero_case : leb_ℤ (pos 0) (pos 0) ≡ false → ⊥
zero_case e = ground arith

-- One alarm taken off.
abbrev pub off : ℕ → Kalarm → Kernel → Alarms → Alarms
off a v k s = record (put_alarm a (record v { active = false }) s) {
  kernel = k;
  kalarms = rest s.kalarms;
}

pub same_time :
    (s : Alarms) (a : ℕ) (v : Kalarm) (k : Kernel) (b : ℕ)
    → s.alarms a ≡ some v
    → exp_time_of (off a v k s) b ≡ exp_time_of s b
same_time s a v k b there = elim (Bool-cases (b == a)) [
  | inl e ↦ rw e (sym (ap exp_time_in (ap s.alarms (eq_of_test b a e) ∙ there)))
  | inr e ↦ rw e refl
]

pub off-IsInactive :
    (s : Alarms) (a : ℕ) (v : Kalarm) (k : Kernel) (b : ℕ)
    → IsInactive s b
    → IsInactive (off a v k s) b
off-IsInactive s a v k b (w, there, idle) = elim (Bool-cases (b == a)) [
  | inl e ↦ rw e (record v { active = false }, refl, refl)
  | inr e ↦ rw e (w, there, idle)
]

off-IsPlain :
    (s : Alarms) (a : ℕ) (k : Kernel) (b : ℕ) (p : IsPlain s a)
    → IsPlain s b
    → IsPlain (off a p.what k s) b
off-IsPlain s a k b p q = elim (Bool-cases (b == a)) [
  | inl e ↦ record {
    given = q.given;
    what = record (p.what) { active = false };
    there = rw e refl;
    once = p.once;
    quiet = p.quiet;
  }
  | inr e ↦ record {
    given = q.given;
    what = q.what;
    there = rw e q.there;
    once = q.once;
    quiet = q.quiet;
  }
]

pub off-ArePlain :
    (s : Alarms) (a : ℕ) (k : Kernel) (p : IsPlain s a) (l : List ℕ)
    → ArePlain s l
    → ArePlain (off a p.what k s) l
off-ArePlain s a k p [] q = tt
off-ArePlain s a k p (b ∷ l) q = (off-IsPlain s a k b p q.0, off-ArePlain s a k p l q.1)

-- The order depends on the times alone.
NotBefore-same :
    (s s' : Alarms) (a : ℕ) (l : List ℕ)
    → ((b : ℕ) → exp_time_of s' b ≡ exp_time_of s b)
    → NotBefore s a l
    → NotBefore s' a l
NotBefore-same s s' a [] same all = tt
NotBefore-same s s' a (b ∷ l) same all =
    (rw (same a, same b) (all.0), NotBefore-same s s' a l same all.1)

pub IsSorted-same :
    (s s' : Alarms) (l : List ℕ)
    → ((b : ℕ) → exp_time_of s' b ≡ exp_time_of s b)
    → IsSorted s l
    → IsSorted s' l
IsSorted-same s s' [] same sorted = tt
IsSorted-same s s' (a ∷ l) same sorted =
    (NotBefore-same s s' a l same sorted.0, IsSorted-same s s' l same sorted.1)

-- Where the first alarm is not due, none is.
pub none_before :
    (s : Alarms) (a : ℕ) (now : Time) (l : List ℕ)
    → value now <ℤ due s a
    → NotBefore s a l
    → (b : ℕ) → has b l ≡ true
    → value now <ℤ due s b
unfolding has
none_before s a now [] future all b member = cc member
none_before s a now (c ∷ l) future all b member = elim (Bool-cases (b == c)) [
  | inl e ↦ rw (eq_of_test b c e) (omega (arith, future, all.0))
  | inr e ↦ none_before s a now l future all.1 b (rw e at member)
]

pub is_due :
    (x y : Time)
    → IsNormal x
    → IsNormal y
    → leb_ℤ (time_cmp x y) (pos 0) ≡ true
    → value x ≤ℤ value y
is_due x y hx hy e = elim (time_cmp-value x y hx hy) [
  | inl (c, less) ↦ omega (arith, less)
  | inr (inl (c, same)) ↦ subst (λ z. z ≤ℤ value y) (sym (ap value same)) (omega arith)
  | inr (inr (c, more)) ↦ absurd (positive (rw c at e))
]

pub is_future :
    (x y : Time)
    → IsNormal x
    → IsNormal y
    → leb_ℤ (time_cmp x y) (pos 0) ≡ false
    → value y <ℤ value x
is_future x y hx hy e = elim (time_cmp-value x y hx hy) [
  | inl (c, less) ↦ absurd (negative (rw c at e))
  | inr (inl (c, same)) ↦ absurd (zero_case (rw c at e))
  | inr (inr (c, more)) ↦ omega (arith, more)
]
