-- ===== src/Clock/Order.antt =====
-- What the operations on `time_t` mean for the number of nanoseconds that a time stands for.
use diplomski_rad.Base.{
  ℕ, ◌+◌, ◌*◌, ◌≡◌, ◌≢◌, ◌↔◌, ◌⊎◌, inl, inr, ap, arith, Bool-cases, leb→le, ltb→lt, leb-false,
  ltb-false,
}
use diplomski_rad.Base.Int.{
  ℤ, pos, negsuc, pos_part, neg_part, sub_ℕ, ◌+ℤ◌, ◌-ℤ◌, ◌≤ℤ◌, ◌<ℤ◌, int_laws, ltb_ℤ, leb_ℤ,
  eq_of_parts,
}
use diplomski_rad.Clock.{Time, nsec_per_sec, time_add, time_sub, time_cmp}

-- The nanoseconds of a time, as the two parts of their number.
abbrev pub gains : Time → ℕ
gains t = pos_part t.sec * nsec_per_sec + pos_part t.nsec

abbrev pub losses : Time → ℕ
losses t = neg_part t.sec * nsec_per_sec + neg_part t.nsec

abbrev pub value : Time → ℤ
value t = sub_ℕ (gains t) (losses t)

-- A normal time has from 0 to 999999999 nanoseconds beside its seconds.
pub record IsNormal (t : Time) : Type 0 where
  pub nonneg : pos 0 ≤ℤ t.nsec
  pub below : t.nsec <ℤ pos nsec_per_sec

value_parts : (t : Time) → pos_part (value t) + losses t ≡ neg_part (value t) + gains t
value_parts t = ground arith

time_add_parts :
    (a b : Time)
    → gains (time_add a b) + losses a + losses b ≡ losses (time_add a b) + gains a + gains b
unfolding time_add
time_add_parts a b = elim (Bool-cases (ltb_ℤ (pos nsec_per_sec) (a.nsec +ℤ b.nsec))) [
  | inl e ↦ rw e (omega int_laws)
  | inr e ↦ rw e (omega int_laws)
]

time_sub_parts :
    (a b : Time)
    → gains (time_sub a b) + losses a + gains b ≡ losses (time_sub a b) + gains a + losses b
unfolding time_sub
time_sub_parts a b = elim (Bool-cases (leb_ℤ b.nsec a.nsec)) [
  | inl e ↦ rw e (omega int_laws)
  | inr e ↦ rw e (omega int_laws)
]

-- `time_add` adds the numbers of nanoseconds that the two times stand for.
pub value-time_add : (a b : Time) → value (time_add a b) ≡ value a +ℤ value b
value-time_add a b =
    omega (int_laws, time_add_parts a b, value_parts a, value_parts b, value_parts (time_add a b))

-- `time_sub` subtracts the numbers of nanoseconds that the two times stand for.
pub value-time_sub : (a b : Time) → value (time_sub a b) ≡ value a -ℤ value b
value-time_sub a b =
    omega (int_laws, time_sub_parts a b, value_parts a, value_parts b, value_parts (time_sub a b))

-- The difference of two normal times is normal.
time_sub-IsNormal : (a b : Time) → IsNormal a → IsNormal b → IsNormal (time_sub a b)
unfolding time_sub
time_sub-IsNormal a b ha hb = elim (Bool-cases (leb_ℤ b.nsec a.nsec)) [
  | inl e ↦ rw e (omega (int_laws, leb→le _ _ e))
  | inr e ↦ rw e (omega (int_laws, leb-false _ _ e))
]

-- The sum of two normal times is normal but where the nanoseconds add up to exactly one second.
pub time_add-IsNormal :
    (a b : Time)
    → IsNormal a
    → IsNormal b
    → IsNormal (time_add a b) ↔ (a.nsec +ℤ b.nsec ≢ pos nsec_per_sec)
unfolding time_add
time_add-IsNormal a b ha hb = elim (Bool-cases (ltb_ℤ (pos nsec_per_sec) (a.nsec +ℤ b.nsec))) [
  | inl e ↦ rw e (
    (λ n q. omega (int_laws, ltb→lt _ _ e, ap pos_part q, ap neg_part q)),
    λ ne. omega (int_laws, ltb→lt _ _ e),
  )
  | inr e ↦ rw e (
    (λ n q. omega (int_laws, n.below, ap pos_part q, ap neg_part q)),
    λ ne. omega (
      int_laws,
      ltb-false _ _ e,
      λ (h : _). ne (eq_of_parts (a.nsec +ℤ b.nsec) (pos nsec_per_sec) h),
    ),
  )
]

-- Normal times are ordered by `time_cmp` as the numbers of nanoseconds are.
pub time_cmp-value :
    (a b : Time)
    → IsNormal a
    → IsNormal b
    → ((time_cmp a b ≡ negsuc 0) × (value a <ℤ value b))
      ⊎ ((time_cmp a b ≡ pos 0) × (a ≡ b))
      ⊎ ((time_cmp a b ≡ pos 1) × (value b <ℤ value a))
unfolding time_cmp
time_cmp-value a b ha hb =
    ground (arith, eq_of_parts a.sec b.sec, eq_of_parts a.nsec b.nsec, value_parts a, value_parts b)
