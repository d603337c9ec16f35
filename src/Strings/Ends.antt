-- ===== src/Strings/Ends.antt =====
-- The strings of lib/string.c and where they end: strlen and strchr.
use diplomski_rad.Base.{
  ℕ, zero, suc, ◌+◌, ◌%◌, ◌<◌, ◌≡◌, ◌≢◌, sym, ◌↔◌, inl, inr, Option, some, ◌==◌, arith, Bool-cases,
  eq_of_test, ne_of_test, true, false, subst,
}
use diplomski_rad.Strings.{Mem, strlen, strlen_from, strchr, strchr_from}

test_true : (a : ℕ) → a ≡ 0 → (a == 0) ≡ true
test_true a h = ground arith

test_false : (a : ℕ) → a ≢ 0 → (a == 0) ≡ false
test_false a h = ground arith

-- The string at `s` has `n` characters.
pub record IsString (mem : Mem) (s n : ℕ) : Type 0 where
  pub inside : (i : ℕ) → i < n → mem (s + i) ≢ 0
  pub ends : mem (s + n) ≡ 0

pub strlen_from_lem :
    (k fuel s i n : ℕ) (mem : Mem)
    → IsString mem s n
    → n ≡ i + k
    → k < fuel
    → strlen_from fuel s i mem ≡ some n
unfolding strlen_from
strlen_from_lem zero zero s i n mem string e enough = absurd (omega arith)
strlen_from_lem (suc k) zero s i n mem string e enough = absurd (omega arith)
strlen_from_lem zero (suc fuel) s i n mem string e enough = grind (arith, string.ends)
strlen_from_lem (suc k) (suc fuel) s i n mem string e enough = grind (
  arith,
  string.inside i (omega arith),
  strlen_from_lem k fuel s (i + 1) n mem string (omega arith) (omega arith),
)

pub strlen_lem :
    (fuel s n : ℕ) (mem : Mem) → IsString mem s n → n < fuel → strlen fuel s mem ≡ some n
unfolding strlen
strlen_lem fuel s n mem string enough = strlen_from_lem n fuel s 0 n mem string (omega arith) enough

-- A property of all smaller numbers and of this one holds of all numbers up to it.
pub up_to {ℓ} : {P : ℕ → Type ℓ} (i : ℕ) → ((j : ℕ) → j < i → P j) → P i → (j : ℕ) → j < i + 1 → P j
up_to {P = P} i before here j small = elim (Bool-cases (j == i)) [
  | inl same ↦ subst P (sym (eq_of_test j i same)) here
  | inr other ↦ before j (ground arith)
]

at_end : (i n : ℕ) → some i ≡ some n → i ≡ n
at_end i n e = ground arith

strlen_from-IsString :
    (fuel s i n : ℕ) (mem : Mem)
    → ((j : ℕ) → j < i → mem (s + j) ≢ 0)
    → strlen_from fuel s i mem ≡ some n
    → IsString mem s n × (n < i + fuel)
unfolding strlen_from
strlen_from-IsString zero s i n mem before e = ground arith
strlen_from-IsString (suc fuel) s i n mem before e = elim (Bool-cases (mem (s + i) == 0)) [
  | inl z ↦
      let here = at_end i n (grind arith) in
      (
        record { inside = λ j small. before j (omega (arith, here, small)); ends = grind arith },
        omega (arith, here),
      )
  | inr z ↦
      let (string, small) =
        strlen_from-IsString fuel s (i + 1) n mem (up_to i before (ground arith)) (grind arith) in
      (string, omega (arith, small))
]

-- `strlen` finds the end within its rounds, and what it finds is the end.
pub strlen-IsString :
    (fuel s n : ℕ) (mem : Mem) → (strlen fuel s mem ≡ some n) ↔ (IsString mem s n × (n < fuel))
unfolding strlen
strlen-IsString fuel s n mem = (
  λ e.
      let (string, small) =
        strlen_from-IsString fuel s 0 n mem (λ j small. absurd (omega (arith, small))) e in
      (string, omega (arith, small)),
  λ (string, enough). strlen_lem fuel s n mem string enough,
)

-- What `strchr` answers: the first place of the character, or the null pointer.
pub data Found (mem : Mem) (s c n : ℕ) : Option ℕ → Type 0 where
  at :
      (i : ℕ)
      → i < n
      → mem (s + i) ≡ c
      → ((j : ℕ) → j < i → mem (s + j) ≢ c)
      → Found mem s c n (some (s + i))
  nowhere : ((j : ℕ) → j < n → mem (s + j) ≢ c) → Found mem s c n (some 0)

strchr_from-Found :
    (k fuel s c i n : ℕ) (mem : Mem)
    → IsString mem s n
    → n ≡ i + k
    → k < fuel
    → ((j : ℕ) → j < i → mem (s + j) ≢ c % 256)
    → Found mem s (c % 256) n (strchr_from fuel s c i mem)
unfolding strchr_from
strchr_from-Found k zero s c i n mem string e enough before = absurd (omega arith)
strchr_from-Found zero (suc fuel) s c i n mem string e enough before =
    rw (test_true (mem (s + i)) (grind (arith, string.ends)))
      (nowhere (λ j small. before j (omega (arith, e, small))))
strchr_from-Found (suc k) (suc fuel) s c i n mem string e enough before =
    rw (test_false (mem (s + i)) (string.inside i (omega arith)))
      (elim (Bool-cases (mem (s + i) == c % 256)) [
        | inl here ↦ rw here (at i (omega arith) (eq_of_test (mem (s + i)) (c % 256) here) before)
        | inr other ↦ rw other (
            strchr_from-Found k fuel s c (i + 1) n mem string (omega arith) (omega arith)
              (up_to i before (ne_of_test (mem (s + i)) (c % 256) other)))
      ])

-- `strchr` answers the first place of the character among the string's, or the null pointer.
pub strchr-Found :
    (fuel s c n : ℕ) (mem : Mem)
    → IsString mem s n
    → n < fuel
    → Found mem s (c % 256) n (strchr fuel s c mem)
unfolding strchr
strchr-Found fuel s c n mem string enough =
    strchr_from-Found n fuel s c 0 n mem string (omega arith) enough
      (λ j small. absurd (omega (arith, small)))
