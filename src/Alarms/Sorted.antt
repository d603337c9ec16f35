-- ===== src/Alarms/Sorted.antt =====
-- The list of alarms is kept in the order of their times.
use diplomski_rad.Base.{
  ℕ, ◌≡◌, subst, sym, ap, inl, inr, Bool, true, false, not, ◌&&◌, ◌||◌, List, [], ◌∷◌, ◌++◌, ◌==◌,
  arith, if◌then◌else◌, Bool-cases,
}
use diplomski_rad.Base.Int.{ℤ, pos, negsuc, leb_ℤ, ◌≤ℤ◌}
use diplomski_rad.Base.Members.{has, has-snoc}
use diplomski_rad.Threads.{null}
use diplomski_rad.Clock.{Time, time_cmp}
use diplomski_rad.Clock.Order.{value, IsNormal, time_cmp-value}
use diplomski_rad.Alarms.{Alarms, exp_time_of, alarm_cmp, insert_before, last_alarm, sort_add}

-- The nanoseconds at which an alarm is due.
abbrev pub due : Alarms → ℕ → ℤ
due s a = value (exp_time_of s a)

-- No alarm of the list is due before the first.
abbrev pub NotBefore : Alarms → ℕ → List ℕ → Type 0
NotBefore s a [] = Unit {0}
NotBefore s a (b ∷ l) = (due s a ≤ℤ due s b) × NotBefore s a l

abbrev pub IsSorted : Alarms → List ℕ → Type 0
IsSorted s [] = Unit {0}
IsSorted s (a ∷ l) = NotBefore s a l × IsSorted s l

abbrev pub AreNormal : Alarms → Type 0
AreNormal s = (a : ℕ) → IsNormal (exp_time_of s a)

same_order : (x y : ℤ) → x ≡ y → y ≤ℤ x
same_order x y e = subst (λ z. z ≤ℤ x) e (omega arith)

negative : leb_ℤ (pos 0) (negsuc 0) ≡ true → ⊥
negative e = ground arith

positive : leb_ℤ (pos 0) (pos 1) ≡ false → ⊥
positive e = ground arith

later :
    (x y : Time)
    → IsNormal x
    → IsNormal y
    → leb_ℤ (pos 0) (time_cmp x y) ≡ true
    → value y ≤ℤ value x
later x y hx hy e = elim (time_cmp-value x y hx hy) [
  | inl (c, less) ↦ absurd (negative (rw c at e))
  | inr (inl (c, same)) ↦ same_order (value x) (value y) (ap value same)
  | inr (inr (c, more)) ↦ omega (arith, more)
]

sooner :
    (x y : Time)
    → IsNormal x
    → IsNormal y
    → leb_ℤ (pos 0) (time_cmp x y) ≡ false
    → value x ≤ℤ value y
sooner x y hx hy e = elim (time_cmp-value x y hx hy) [
  | inl (c, less) ↦ omega (arith, less)
  | inr (inl (c, same)) ↦ same_order (value y) (value x) (sym (ap value same))
  | inr (inr (c, more)) ↦ absurd (positive (rw c at e))
]

NotBefore-trans :
    (s : Alarms) (a b : ℕ) (l : List ℕ) → due s a ≤ℤ due s b → NotBefore s b l → NotBefore s a l
NotBefore-trans s a b [] le all = tt
NotBefore-trans s a b (c ∷ l) le all = (omega (arith, le, all.0), NotBefore-trans s a b l le all.1)

NotBefore-insert_before :
    (s : Alarms) (a b : ℕ) (l : List ℕ)
    → due s b ≤ℤ due s a
    → NotBefore s b l
    → NotBefore s b (insert_before s a l)
unfolding insert_before
NotBefore-insert_before s a b [] le all = (le, tt)
NotBefore-insert_before s a b (c ∷ l) le all = elim (Bool-cases (leb_ℤ (pos 0) (alarm_cmp s a c))) [
  | inl e ↦ rw e (all.0, NotBefore-insert_before s a b l le all.1)
  | inr e ↦ rw e (le, all)
]

insert_before-IsSorted :
    (s : Alarms) (a : ℕ) (l : List ℕ)
    → AreNormal s
    → IsSorted s l
    → IsSorted s (insert_before s a l)
unfolding insert_before alarm_cmp
insert_before-IsSorted s a [] normal sorted = (tt, tt)
insert_before-IsSorted s a (b ∷ l) normal sorted =
    elim (Bool-cases (leb_ℤ (pos 0) (alarm_cmp s a b))) [
      | inl e ↦ rw e (
        NotBefore-insert_before s a b l
            (later (exp_time_of s a) (exp_time_of s b) (normal a) (normal b) e) sorted.0,
        insert_before-IsSorted s a l normal sorted.1,
      )
      | inr e ↦
          let le = sooner (exp_time_of s a) (exp_time_of s b) (normal a) (normal b) e in
          rw e ((le, NotBefore-trans s a b l le sorted.0), sorted)
    ]

NotBefore-snoc :
    (s : Alarms) (a b : ℕ) (l : List ℕ)
    → NotBefore s b l
    → due s b ≤ℤ due s a
    → NotBefore s b (l ++ a ∷ [])
NotBefore-snoc s a b [] all le = (le, tt)
NotBefore-snoc s a b (c ∷ l) all le = (all.0, NotBefore-snoc s a b l all.1 le)

-- An alarm that is not before the last one of a sorted list may go behind it.
snoc-IsSorted :
    (s : Alarms) (a b : ℕ) (l : List ℕ)
    → IsSorted s (b ∷ l)
    → due s (last_alarm (b ∷ l)) ≤ℤ due s a
    → (due s b ≤ℤ due s a) × IsSorted s ((b ∷ l) ++ a ∷ [])
unfolding last_alarm
snoc-IsSorted s a b [] sorted le = (le, ((le, tt), (tt, tt)))
snoc-IsSorted s a b (c ∷ l) sorted le =
    let (next, behind) = snoc-IsSorted s a c l sorted.1 le in
    let reach : due s b ≤ℤ due s a = omega (arith, sorted.0.0, next) in
    (reach, (NotBefore-snoc s a b (c ∷ l) sorted.0 reach, behind))

tested : (x y : Bool) → (x && y) ≡ true → y ≡ true
tested x y e = ground arith

behind_last :
    (s : Alarms) (a : ℕ) (l : List ℕ)
    → IsSorted s l
    → due s (last_alarm l) ≤ℤ due s a
    → IsSorted s (l ++ a ∷ [])
behind_last s a [] sorted le = (tt, tt)
behind_last s a (b ∷ l) sorted le = (snoc-IsSorted s a b l sorted le).1

IsSorted-placed :
    (s : Alarms) (a : ℕ) (l : List ℕ)
    → AreNormal s
    → IsSorted s l
    → IsSorted s (
        if not (last_alarm l == null) && leb_ℤ (pos 0) (alarm_cmp s a (last_alarm l))
        then l ++ a ∷ []
        else insert_before s a l)
unfolding alarm_cmp
IsSorted-placed s a l normal sorted =
    elim (Bool-cases (not (last_alarm l == null) && leb_ℤ (pos 0) (alarm_cmp s a (last_alarm l)))) [
      | inr e ↦ rw e (insert_before-IsSorted s a l normal sorted)
      | inl e ↦ rw e (
          behind_last s a l sorted (
            later (exp_time_of s a) (exp_time_of s (last_alarm l)) (normal a)
              (normal (last_alarm l))
              (tested (not (last_alarm l == null)) (leb_ℤ (pos 0) (alarm_cmp s a (last_alarm l)))
                e)))
    ]

has-insert_before :
    (s : Alarms) (a b : ℕ) (l : List ℕ) → has b (insert_before s a l) ≡ (has b l || (b == a))
unfolding insert_before has
has-insert_before s a b [] = ground arith
has-insert_before s a b (c ∷ l) = elim (Bool-cases (leb_ℤ (pos 0) (alarm_cmp s a c))) [
  | inl e ↦ rw e (ground (arith, has-insert_before s a b l))
  | inr e ↦ rw e (ground arith)
]

has-placed :
    (s : Alarms) (a b : ℕ) (l : List ℕ) (test : Bool)
    → has b (if test then l ++ a ∷ [] else insert_before s a l) ≡ (has b l || (b == a))
has-placed s a b l true = has-snoc b a l
has-placed s a b l false = has-insert_before s a b l

-- The search of list_sort_add, wherever it starts, puts an alarm at a place of the list of alarms
-- that keeps the order of their times, which have to be normal, and leaves the alarms of the list
-- in it.
pub sort_add-IsSorted :
    (s : Alarms) (a : ℕ)
    → AreNormal s
    → IsSorted s s.kalarms
    → IsSorted s (sort_add a s).kalarms
      × ((b : ℕ) → has b (sort_add a s).kalarms ≡ (has b s.kalarms || (b == a)))
unfolding sort_add
sort_add-IsSorted s a normal sorted = (
  IsSorted-placed s a s.kalarms normal sorted,
  λ b.
      has-placed s a b s.kalarms (
        not (last_alarm s.kalarms == null) && leb_ℤ (pos 0) (alarm_cmp s a (last_alarm s.kalarms))),
)
