-- ===== src/Numerals/Digits.antt =====
-- The loop of `itoa` that writes the digits, and the number that digits stand for.
use diplomski_rad.Base.{
  ℕ, zero, suc, ◌+◌, ◌-◌, ◌*◌, ◌/◌, ◌%◌, ◌^◌, ◌≤◌, ◌<◌, ◌≡◌, refl, ◌∙◌, ◌⊎◌, inl, inr, true, false,
  some, ltb, ◌==◌, if◌then◌else◌, arith, Bool-cases, eq_of_test,
}
use native.Mathlib.Nat.{pow-zero, pow-suc}
use diplomski_rad.Strings.{Mem}
use diplomski_rad.Strings.Blocks.{in_block}
use diplomski_rad.Numerals.{Output, digit_char, put_digits, put_digit}

-- The number a digit stands for; `hex` is the letter of 10.
abbrev pub digit_value : ℕ → ℕ → ℕ
digit_value hex c = if ltb c 58 then c - 48 else c + 10 - hex

-- The number that `n` digits stand for, the lowest first or the highest first.
unfoldable pub low_first : ℕ → ℕ → Mem → ℕ → ℕ → ℕ
low_first divisor hex mem p zero = 0
low_first divisor hex mem p (suc n) =
    digit_value hex (mem p) + divisor * low_first divisor hex mem (p + 1) n

unfoldable pub high_first : ℕ → ℕ → Mem → ℕ → ℕ → ℕ
high_first divisor hex mem p zero = 0
high_first divisor hex mem p (suc n) =
    divisor * high_first divisor hex mem p n + digit_value hex (mem (p + n))

pub high_first-low_first :
    (divisor hex n p q : ℕ) (mem before : Mem)
    → ((i : ℕ) → i < n → mem (p + i) ≡ before (q + (n - 1 - i)))
    → high_first divisor hex mem p n ≡ low_first divisor hex before q n
unfolding high_first low_first
high_first-low_first divisor hex zero p q mem before mirror = refl
high_first-low_first divisor hex (suc n) p q mem before mirror = grind (
  arith,
  mirror n (omega arith),
  high_first-low_first divisor hex n p (q + 1) mem before
      (λ i small. grind (arith, mirror i (omega (arith, small)))),
)

abbrev pub IsRadix : ℕ → ℕ → Type 0
IsRadix divisor hex = ((divisor ≡ 10) ⊎ (divisor ≡ 16)) × ((hex ≡ 65) ⊎ (hex ≡ 97))

pub digit_value-digit_char :
    (hex r : ℕ) → r < 16 → (hex ≡ 65) ⊎ (hex ≡ 97) → digit_value hex (digit_char hex r) ≡ r
digit_value-digit_char hex r small letter = ground arith

digit_char_digit : (hex r : ℕ) → r < 16 → (hex ≡ 65) ⊎ (hex ≡ 97) → 48 ≤ digit_char hex r
digit_char_digit hex r small letter = ground arith

small_digit : (divisor hex ud : ℕ) → IsRadix divisor hex → ud % divisor < 16
small_digit divisor hex ud (inl ten, letter) = rw ten (omega arith)
small_digit divisor hex ud (inr sixteen, letter) = rw sixteen (omega arith)

div_mod : (divisor hex ud : ℕ) → IsRadix divisor hex → ud % divisor + divisor * (ud / divisor) ≡ ud
div_mod divisor hex ud (inl ten, letter) = rw ten (omega arith)
div_mod divisor hex ud (inr sixteen, letter) = rw sixteen (omega arith)

-- What the digits' loop leaves behind `out`: `n` digits that stand for the number.
pub record Written (divisor hex ud : ℕ) (start finish : Output) (n : ℕ) : Type 0 where
  pub place : finish.p ≡ start.p + n
  pub count : finish.digits ≡ start.digits + n
  pub some_digit : 1 ≤ n
  pub outside : (a : ℕ) → in_block start.p n a ≡ false → finish.mem a ≡ start.mem a
  pub digit : (a : ℕ) → in_block start.p n a ≡ true → 48 ≤ finish.mem a
  pub reads : low_first divisor hex finish.mem start.p n ≡ ud

put_digit_here :
    (divisor hex ud : ℕ) (out : Output)
    → (put_digit divisor hex ud out).mem out.p ≡ digit_char hex (ud % divisor)
put_digit_here divisor hex ud out = grind arith

at_start : (p a : ℕ) → in_block p 1 a ≡ true → a ≡ p
at_start p a within = ground arith

before_rest : (p n : ℕ) → in_block (p + 1) n p ≡ false
before_rest p n = ground arith

last_digit :
    (divisor hex ud : ℕ) (out : Output)
    → IsRadix divisor hex
    → ud / divisor ≡ 0
    → Written divisor hex ud out (put_digit divisor hex ud out) 1
unfolding low_first
last_digit divisor hex ud out radix last = record {
  place = refl;
  count = refl;
  some_digit = omega arith;
  outside = λ a beyond. ground arith;
  digit = λ a within.
      rw (at_start out.p a within, put_digit_here divisor hex ud out)
        (digit_char_digit hex (ud % divisor) (small_digit divisor hex ud radix) radix.1);
  reads =
      rw
        (
          put_digit_here divisor hex ud out,
          digit_value-digit_char hex (ud % divisor) (small_digit divisor hex ud radix) radix.1,
        )
        (rw last at (div_mod divisor hex ud radix));
}

more_digits :
    (divisor hex ud n : ℕ) (out done : Output)
    → IsRadix divisor hex
    → Written divisor hex (ud / divisor) (put_digit divisor hex ud out) done n
    → Written divisor hex ud out done (suc n)
unfolding low_first
more_digits divisor hex ud n out done radix w = record {
  place = omega (arith, w.place);
  count = omega (arith, w.count);
  some_digit = omega arith;
  outside = λ a beyond. grind (arith, w.outside a (ground arith));
  digit = λ a within. elim (Bool-cases (a == out.p)) [
    | inl first ↦
        rw
          (
            eq_of_test a out.p first,
            w.outside out.p (before_rest out.p n),
            put_digit_here divisor hex ud out,
          )
          (digit_char_digit hex (ud % divisor) (small_digit divisor hex ud radix) radix.1)
    | inr later ↦ w.digit a (ground arith)
  ];
  reads =
      rw
        (
          w.outside out.p (before_rest out.p n) ∙ put_digit_here divisor hex ud out,
          w.reads,
          digit_value-digit_char hex (ud % divisor) (small_digit divisor hex ud radix) radix.1,
        )
        (div_mod divisor hex ud radix);
}

pow_step :
    (divisor hex ud b : ℕ) → IsRadix divisor hex → ud < divisor ^ suc b → ud / divisor < divisor ^ b
pow_step divisor hex ud b (inl ten, letter) small =
    rw ten (omega (arith, (rw (ten, pow-suc 10 b) at small)))
pow_step divisor hex ud b (inr sixteen, letter) small =
    rw sixteen (omega (arith, (rw (sixteen, pow-suc 16 b) at small)))

some_left : (divisor ud b : ℕ) → ud / divisor < divisor ^ b → (ud / divisor == 0) ≡ false → 1 ≤ b
some_left divisor ud zero small more = ground (arith, rw (pow-zero divisor) at small)
some_left divisor ud (suc b) small more = omega arith

-- The loop ends within its rounds, with no more digits than the number needs.
pub put_digits-Written :
    (fuel divisor hex ud b : ℕ) (out : Output)
    → IsRadix divisor hex
    → ud < divisor ^ b
    → 1 ≤ b
    → b ≤ fuel
    → (done : Output) × (n : ℕ) × (put_digits fuel divisor hex ud out ≡ some done)
      × (n ≤ b)
      × Written divisor hex ud out done n
unfolding put_digits
put_digits-Written zero divisor hex ud b out radix small b_pos enough = absurd (omega arith)
put_digits-Written (suc fuel) divisor hex ud zero out radix small b_pos enough =
    absurd (omega arith)
put_digits-Written (suc fuel) divisor hex ud (suc b) out radix small b_pos enough =
    elim (Bool-cases (ud / divisor == 0)) [
      | inl last ↦ rw last (
        put_digit divisor hex ud out,
        1,
        refl,
        omega arith,
        last_digit divisor hex ud out radix (eq_of_test (ud / divisor) 0 last),
      )
      | inr more ↦
          let less = pow_step divisor hex ud b radix small in
          let (done, n, found, bound, w) =
            put_digits-Written fuel divisor hex (ud / divisor) b (put_digit divisor hex ud out)
              radix less (some_left divisor ud b less more) (omega arith) in
          rw more (
            done,
            suc n,
            found,
            omega (arith, bound),
            more_digits divisor hex ud n out done radix w,
          )
    ]
