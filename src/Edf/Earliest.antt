-- ===== src/Edf/Earliest.antt =====
-- The choice of `k_edf_schedule`: a thread whose deadline is not later than any other.
use diplomski_rad.Base.{
  ℕ, ◌≡◌, refl, ◌⊎◌, inl, inr, true, false, List, [], ◌∷◌, ◌==◌, Bool-cases, eq_of_test, arith,
}
use diplomski_rad.Base.Int.{pos, ltb_ℤ, ◌≤ℤ◌, ◌<ℤ◌}
use diplomski_rad.Base.Members.{has, first, rest, is_empty}
use diplomski_rad.Clock.{Time, time_cmp}
use diplomski_rad.Edf.{earliest}

-- `a` is not later than `b`.
abbrev pub NotLater : Time → Time → Type 0
NotLater a b = ltb_ℤ (pos 0) (time_cmp a b) ≡ false

NotLater-refl : (a : Time) → NotLater a a
unfolding time_cmp
NotLater-refl a = ground arith

-- The order of the seconds, and of the nanoseconds within one second.
abbrev Before : Time → Time → Type 0
Before a b = (a.sec <ℤ b.sec) ⊎ ((a.sec ≤ℤ b.sec) × (a.nsec ≤ℤ b.nsec))

NotLater-Before : (a b : Time) → NotLater a b → Before a b
unfolding time_cmp
NotLater-Before a b h = elim (Bool-cases (ltb_ℤ a.sec b.sec)) [
  | inl e ↦ inl (ground arith)
  | inr e ↦ inr (ground arith, ground arith)
]

Before-NotLater : (a b : Time) → Before a b → NotLater a b
unfolding time_cmp
Before-NotLater a b (inl h) = ground arith
Before-NotLater a b (inr h) = ground arith

Before-trans : (a b c : Time) → Before a b → Before b c → Before a c
Before-trans a b c (inl h) (inl g) = inl (omega arith)
Before-trans a b c (inl h) (inr g) = inl (omega arith)
Before-trans a b c (inr h) (inl g) = inl (omega arith)
Before-trans a b c (inr h) (inr g) = inr (omega arith, omega arith)

NotLater-trans : (a b c : Time) → NotLater a b → NotLater b c → NotLater a c
NotLater-trans a b c h g =
    Before-NotLater a c (Before-trans a b c (NotLater-Before a b h) (NotLater-Before b c g))

NotLater-total : (a b : Time) → ltb_ℤ (pos 0) (time_cmp a b) ≡ true → NotLater b a
unfolding time_cmp
NotLater-total a b h = ground arith

module _ (deadline : ℕ → Time) where
  -- Of `t` and the threads of the list, `c` is one whose deadline is the earliest.
  pub record IsEarliest (c t : ℕ) (l : List ℕ) : Type 0 where
    pub one : (c ≡ t) ⊎ (has c l ≡ true)
    pub head : NotLater (deadline c) (deadline t)
    pub others : (a : ℕ) → has a l ≡ true → NotLater (deadline c) (deadline a)

  -- The next thread is the better one.
  later :
      {c : ℕ} (t x : ℕ) (l : List ℕ)
      → NotLater (deadline x) (deadline t)
      → IsEarliest c x l
      → IsEarliest c t (x ∷ l)
  unfolding has
  later {c} t x l h r = record {
    one = inr (elim r.one [ inl e ↦ ground (arith, e) | inr i ↦ ground (arith, i) ]);
    head = NotLater-trans (deadline c) (deadline x) (deadline t) r.head h;
    others = λ a i. elim (Bool-cases (a == x)) [
      | inl e ↦ rw (eq_of_test a x e) r.head
      | inr e ↦ r.others a (rw e at i)
    ];
  }

  sooner :
      {c : ℕ} (t x : ℕ) (l : List ℕ)
      → NotLater (deadline t) (deadline x)
      → IsEarliest c t l
      → IsEarliest c t (x ∷ l)
  unfolding has
  sooner {c} t x l h r = record {
    one = elim r.one [ inl e ↦ inl e | inr i ↦ inr (ground (arith, i)) ];
    head = r.head;
    others = λ a i. elim (Bool-cases (a == x)) [
      | inl e ↦
          rw (eq_of_test a x e) (NotLater-trans (deadline c) (deadline t) (deadline x) r.head h)
      | inr e ↦ r.others a (rw e at i)
    ];
  }

  pub earliest_lem : (t : ℕ) (l : List ℕ) → IsEarliest (earliest deadline t l) t l
  unfolding earliest has
  earliest_lem t [] = record {
    one = inl refl;
    head = NotLater-refl (deadline t);
    others = λ a i. cc;
  }
  earliest_lem t (x ∷ l) = elim (Bool-cases (ltb_ℤ (pos 0) (time_cmp (deadline t) (deadline x)))) [
    | inl e ↦ rw e (later t x l (NotLater-total (deadline t) (deadline x) e) (earliest_lem x l))
    | inr e ↦ rw e (sooner t x l e (earliest_lem t l))
  ]

  -- Of a list that is not empty.
  pub earliest_first :
      (l : List ℕ)
      → is_empty l ≡ false
      → let c = earliest deadline (first l) (rest l) in
        (has c l ≡ true) × ((t : ℕ) → has t l ≡ true → NotLater (deadline c) (deadline t))
  unfolding has first rest is_empty
  earliest_first [] full = cc
  earliest_first (x ∷ l) full =
      let r = earliest_lem x l in
      (
        elim r.one [ inl e ↦ ground (arith, e) | inr i ↦ ground (arith, i) ],
        λ a i. elim (Bool-cases (a == x)) [
          | inl e ↦ rw (eq_of_test a x e) r.head
          | inr e ↦ r.others a (rw e at i)
        ],
      )
