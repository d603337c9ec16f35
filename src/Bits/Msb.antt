-- ===== src/Bits/Msb.antt =====
-- The software versions of `msb_index` find the highest set bit.
use native.Mathlib.Nat.{pow-suc, mul-div-le, mul-le-mul_right, lt-mul-div-succ, div-lt_iff_lt-mul}
use diplomski_rad.Base.{
  ℕ, zero, suc, ◌+◌, ◌*◌, ◌/◌, ◌^◌, ◌≤◌, ◌<◌, ◌≡◌, refl, ap, inl, inr, arith, leb, Bool-cases,
  leb→le, leb-false, if◌then◌else◌, sym, ◌∙◌,
}
use diplomski_rad.Bits.{
  msb_step, msb_index_32, msb_index_64, msb_index_generic, msb_index_int_n, MsbIndex,
}

pow-add_zero : (m : ℕ) → m + 0 ≡ m
pow-add_zero m = omega arith

pub pow-add : (m k : ℕ) → 2 ^ (m + k) ≡ 2 ^ m * 2 ^ k
pow-add m zero = rw pow-add_zero (omega arith)
pow-add m (suc k) =
    let e : m + suc k ≡ suc (m + k) = omega arith in
    rw (e, pow-suc 2 (m + k), pow-suc 2 k) (omega (arith, ap (λ (t : ℕ). t * 2) (pow-add m k)))

pub pow_pos : (k : ℕ) → 0 < 2 ^ k
pow_pos zero = omega arith
pow_pos (suc k) = rw (pow-suc 2 k) (omega (arith, pow_pos k))

-- The pair of `msb` and `num` stands for `x`: it has the bits of `x` from `msb` up, fewer than
-- `bound` in value.
record Stands (x bound : ℕ) (s : ℕ × ℕ) : Type 0 where
  above : s.1 * 2 ^ s.0 ≤ x
  under : x < (s.1 + 1) * 2 ^ s.0
  some_left : 0 < s.1
  bounded : s.1 < bound

shifted_above : (a b n x : ℕ) → n * a ≤ x → n / b * (a * b) ≤ x
shifted_above a b n x h = omega (arith, mul-le-mul_right a (mul-div-le n b))

shifted_under : (a b n x : ℕ) → 0 < b → x < (n + 1) * a → x < (n / b + 1) * (a * b)
shifted_under a b n x p h =
    let q : n + 1 ≤ b * (n / b + 1) = omega (arith, lt-mul-div-succ n p) in
    omega (arith, mul-le-mul_right a q)

quotient_pos : (b q n : ℕ) → n < b * (q + 1) → b ≤ n → 0 < q
quotient_pos b zero n h p = absurd (omega arith)
quotient_pos b (suc q) n h p = omega arith

msb_step-Stands :
    (k x : ℕ) (s : ℕ × ℕ) → Stands x (2 ^ k * 2 ^ k) s → Stands x (2 ^ k) (msb_step k s)
unfolding msb_step
msb_step-Stands k x (m, n) h = elim (Bool-cases (leb (2 ^ k) n)) [
  | inl e ↦ rw e (record {
    above = rw (pow-add m k) (shifted_above (2 ^ m) (2 ^ k) n x h.above);
    under = rw (pow-add m k) (shifted_under (2 ^ m) (2 ^ k) n x (pow_pos k) h.under);
    some_left = quotient_pos (2 ^ k) (n / 2 ^ k) n (lt-mul-div-succ n (pow_pos k)) (leb→le _ _ e);
    bounded = (div-lt_iff_lt-mul (pow_pos k)).1 h.bounded;
  })
  | inr e ↦ rw e (record {
    above = h.above;
    under = h.under;
    some_left = h.some_left;
    bounded = leb-false _ _ e;
  })
]

Stands-start : (x bound : ℕ) → 0 < x → x < bound → Stands x bound (0, x)
Stands-start x bound p h = record {
  above = omega arith;
  under = omega arith;
  some_left = p;
  bounded = h;
}

last_step : (s : ℕ × ℕ) → (if leb (2 ^ 1) s.1 then s.0 + 1 else s.0) ≡ (msb_step 1 s).0
unfolding msb_step
last_step s = ground arith

-- One bit is left: `num` is 1.
one_left : (x : ℕ) (s : ℕ × ℕ) → Stands x 2 s → (2 ^ s.0 ≤ x) × (x < 2 ^ (s.0 + 1))
one_left x (m, n) h =
    let e : n ≡ 1 = omega (arith, h.some_left, h.bounded) in
    let a : n * 2 ^ m ≤ x = h.above in
    let u : x < (n + 1) * 2 ^ m = h.under in
    (omega (arith, rw e at a), rw (pow-add m 1) (omega (arith, rw e at u)))

five_steps : ℕ → ℕ × ℕ
five_steps n = msb_step 1 (msb_step 2 (msb_step 4 (msb_step 8 (msb_step 16 (0, n)))))

five_steps_highest :
    (n : ℕ) → 0 < n → n < 2 ^ 32 → (2 ^ (five_steps n).0 ≤ n) × (n < 2 ^ ((five_steps n).0 + 1))
unfolding five_steps
five_steps_highest n p h = one_left n _ (
    msb_step-Stands 1 n _ (
      msb_step-Stands 2 n _ (
        msb_step-Stands 4 n _
          (msb_step-Stands 8 n _ (msb_step-Stands 16 n _ (Stands-start n _ p h))))))

six_steps : ℕ → ℕ × ℕ
six_steps n = msb_step 1 (msb_step 2 (msb_step 4 (msb_step 8 (msb_step 16 (msb_step 32 (0, n))))))

six_steps_highest :
    (n : ℕ) → 0 < n → n < 2 ^ 64 → (2 ^ (six_steps n).0 ≤ n) × (n < 2 ^ ((six_steps n).0 + 1))
unfolding six_steps
six_steps_highest n p h = one_left n _ (
    msb_step-Stands 1 n _ (
      msb_step-Stands 2 n _ (
        msb_step-Stands 4 n _ (
          msb_step-Stands 8 n _
            (msb_step-Stands 16 n _ (msb_step-Stands 32 n _ (Stands-start n _ p h)))))))

msb_index_32-steps : (n : ℕ) → msb_index_32 n ≡ (five_steps n).0
unfolding msb_index_32 five_steps
msb_index_32-steps n = last_step _

msb_index_generic-steps : (n : ℕ) → msb_index_generic n ≡ (five_steps n).0
unfolding msb_index_generic five_steps
msb_index_generic-steps n = refl

msb_index_64-steps : (n : ℕ) → msb_index_64 n ≡ (six_steps n).0
unfolding msb_index_64 six_steps
msb_index_64-steps n = last_step _

msb_index_int_n-steps : (n : ℕ) → msb_index_int_n n ≡ (six_steps n).0
unfolding msb_index_int_n six_steps
msb_index_int_n-steps n = refl

-- `msb_index_32` finds the highest set bit of every 32-bit word that is not 0, and the loop of
-- `msb_index_generic` agrees with it on every number.
pub msb_index_32-MsbIndex : MsbIndex msb_index_32 × ((n : ℕ) → msb_index_generic n ≡ msb_index_32 n)
msb_index_32-MsbIndex = (
  record {
    low = λ n p h. rw (msb_index_32-steps n) (five_steps_highest n p h).0;
    high = λ n p h. rw (msb_index_32-steps n) (five_steps_highest n p h).1;
  },
  λ n. msb_index_generic-steps n ∙ sym (msb_index_32-steps n),
)

-- `msb_index_64` and the loop of `msb_index_int_n` find the highest set bit of every 64-bit word
-- that is not 0.
pub msb_index_64_highest :
    (n : ℕ)
    → 0 < n
    → n < 2 ^ 64
    → (2 ^ msb_index_64 n ≤ n)
      × (n < 2 ^ (msb_index_64 n + 1))
      × (msb_index_int_n n ≡ msb_index_64 n)
msb_index_64_highest n p h =
    rw (msb_index_int_n-steps n, msb_index_64-steps n)
      ((six_steps_highest n p h).0, (six_steps_highest n p h).1, refl)
