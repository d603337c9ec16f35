-- ===== src/Identifiers/Words.antt =====
-- The bits of a word under the bitwise operations.
use Prim.Native.Nat.{bit_and, bit_or, digits, max, min, bit_and-bitwise, bit_or-bitwise}
use diplomski_rad.Base.{
  ℕ, zero, suc, ◌+◌, ◌-◌, ◌*◌, ◌/◌, ◌%◌, ◌^◌, ◌≤◌, ◌<◌, ◌≡◌, ◌≢◌, refl, sym, ◌∙◌, arith, ap, true,
  false, not, ◌==◌, if◌then◌else◌, Bool-cases, inl, inr, eq_of_test, ne_of_test,
}
use diplomski_rad.Base.Bytes.{table, table_at}
use native.Mathlib.Nat.{div-div-eq-div-mul, pow-succ', pow-zero}

-- The digit of `m` at the place `i`.
abbrev pub digit : ℕ → ℕ → ℕ
digit m i = m / 2 ^ i % 2

digit_suc : (m i : ℕ) → digit m (suc i) ≡ digit (m / 2) i
digit_suc m i = rw (pow-succ' 2 i, div-div-eq-div-mul m 2 (2 ^ i)) refl

digit_zero : (m : ℕ) → digit m 0 ≡ m % 2
digit_zero m = rw (pow-zero 2) (omega arith)

digit_of_zero : (i : ℕ) → digit 0 i ≡ 0
digit_of_zero zero = refl
digit_of_zero (suc i) = rw (digit_suc 0 i) (digit_of_zero i)

low : (x c : ℕ) → c < 2 → digit (x * 2 + c) 0 ≡ c
low x c small = digit_zero (x * 2 + c) ∙ omega (arith, small)

half : (x c : ℕ) → c < 2 → (x * 2 + c) / 2 ≡ x
half x c small = omega (arith, small)

high : (x c i : ℕ) → c < 2 → digit (x * 2 + c) (suc i) ≡ digit x i
high x c i small = digit_suc (x * 2 + c) i ∙ ap (λ y. digit y i) (half x c small)

module _ (z : ℕ → ℕ) (f : ℕ → ℕ → ℕ) (small : (x y : ℕ) → x < 2 → y < 2 → f x y < 2)
    (ending : (b i : ℕ) → digit (z b) i ≡ f 0 (digit b i)) where
  digits_at : (n a b i : ℕ) → a ≤ n → digit (digits z f n a b) i ≡ f (digit a i) (digit b i)
  digits_at zero zero b i le = ending b i ∙ ap (λ x. f x (digit b i)) (sym (digit_of_zero i))
  digits_at zero (suc a) b i le = absurd (omega (arith, le))
  digits_at (suc n) zero b i le = ending b i ∙ ap (λ x. f x (digit b i)) (sym (digit_of_zero i))
  digits_at (suc n) (suc a) b zero le =
      low (digits z f n (suc a / 2) (b / 2)) (f (suc a % 2) (b % 2))
        (small (suc a % 2) (b % 2) (omega arith) (omega arith))
      ∙ rw (digit_zero (suc a), digit_zero b) refl
  digits_at (suc n) (suc a) b (suc i) le =
      high (digits z f n (suc a / 2) (b / 2)) (f (suc a % 2) (b % 2)) i
        (small (suc a % 2) (b % 2) (omega arith) (omega arith))
      ∙ digits_at n (suc a / 2) (b / 2) i (omega (arith, le))
      ∙ rw (digit_suc (suc a) i, digit_suc b i) refl

max_small : (x y : ℕ) → x < 2 → y < 2 → max x y < 2
max_small x y hx hy = omega (arith, hx, hy)

min_small : (x y : ℕ) → x < 2 → y < 2 → min x y < 2
min_small x y hx hy = omega (arith, hx, hy)

pub bit_or-digit : (a b i : ℕ) → digit (bit_or a b) i ≡ max (digit a i) (digit b i)
bit_or-digit a b i =
    ap (λ x. digit x i) (bit_or-bitwise a b)
    ∙ digits_at (λ y. y) max max_small (λ y j. omega arith) a a b i (omega arith)

pub bit_and-digit : (a b i : ℕ) → digit (bit_and a b) i ≡ min (digit a i) (digit b i)
bit_and-digit a b i =
    ap (λ x. digit x i) (bit_and-bitwise a b)
    ∙ digits_at (λ y. zero) min min_small (λ y j. digit_of_zero j ∙ omega arith) a a b i
        (omega arith)

pub power_digit : (j i : ℕ) → digit (2 ^ j) i ≡ (if i == j then 1 else 0)
power_digit zero zero = refl
power_digit zero (suc i) = digit_suc 1 i ∙ digit_of_zero i ∙ ground arith
power_digit (suc j) zero = digit_zero (2 ^ suc j) ∙ rw (pow-succ' 2 j) (grind arith)
power_digit (suc j) (suc i) =
    digit_suc (2 ^ suc j) i
    ∙ ap (λ x. digit x i) (rw (pow-succ' 2 j) (omega arith))
    ∙ power_digit j i
    ∙ ground arith

complement_table :
    table 1 32 32 (λ x j i. digit (2 ^ 32 - 1 - 2 ^ j) i == (if i == j then 0 else 1)) ≡ true
unfolding table
complement_table = refl

pub complement_digit :
    (j i : ℕ) → j < 32 → i < 32 → digit (2 ^ 32 - 1 - 2 ^ j) i ≡ (if i == j then 0 else 1)
complement_digit j i hj hi = eq_of_test (digit (2 ^ 32 - 1 - 2 ^ j) i) (if i == j then 0 else 1) (
    table_at 1 32 32 (λ x y z. digit (2 ^ 32 - 1 - 2 ^ y) z == (if z == y then 0 else 1)) 0 j i
      complement_table (omega arith) hj hi)

no_digits : (n m : ℕ) → m ≤ n → ((i : ℕ) → digit m i ≡ 0) → m ≡ 0
no_digits zero m le clear = omega (arith, le)
no_digits (suc n) m le clear =
    let even = sym (digit_zero m) ∙ clear 0 in
    let rest = no_digits n (m / 2) (omega (arith, le)) (λ i. sym (digit_suc m i) ∙ clear (suc i)) in
    omega (arith, even, rest)

test_nonzero : (x : ℕ) → x ≢ 0 → not (x == 0) ≡ true
test_nonzero x h = ground arith

test_zero : (x : ℕ) → x ≡ 0 → not (x == 0) ≡ false
test_zero x h = ground arith

set_digit : (w j : ℕ) → digit w j ≡ 1 → bit_and w (2 ^ j) ≢ 0
set_digit w j one zero_word =
    let seen = bit_and-digit w (2 ^ j) j in
    let gone = ap (λ x. digit x j) zero_word ∙ digit_of_zero j in
    ground (arith, one, seen, gone, power_digit j j)

clear_digits : (w j : ℕ) → digit w j ≢ 1 → (i : ℕ) → digit (bit_and w (2 ^ j)) i ≡ 0
clear_digits w j other i =
    rw (bit_and-digit w (2 ^ j) i, power_digit j i)
      (elim (Bool-cases (i == j)) [
        | inl e ↦ rw (e, eq_of_test i j e) (ground arith)
        | inr e ↦ rw e (omega arith)
      ])

-- The test on one bit of a word.
pub bit_test : (w j : ℕ) → not (bit_and w (2 ^ j) == 0) ≡ (digit w j == 1)
bit_test w j = elim (Bool-cases (digit w j == 1)) [
  | inl e ↦ rw e (
      test_nonzero (bit_and w (2 ^ j))
        (λ zero_word. set_digit w j (eq_of_test (digit w j) 1 e) zero_word))
  | inr e ↦ rw e (
      test_zero (bit_and w (2 ^ j)) (
        no_digits (bit_and w (2 ^ j)) (bit_and w (2 ^ j)) (omega arith)
          (clear_digits w j (ne_of_test (digit w j) 1 e))))
]
