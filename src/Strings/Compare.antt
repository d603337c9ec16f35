-- ===== src/Strings/Compare.antt =====
-- The comparisons of lib/string.c: memcmp and strcmp.
use diplomski_rad.Base.{
  ℕ, zero, suc, ◌+◌, ◌-◌, ◌≤◌, ◌<◌, ◌≡◌, refl, inl, inr, true, false, some, ◌==◌, ltb, arith,
  Bool-cases, not, ◌||◌,
}
use diplomski_rad.Base.Int.{ℤ, pos, negsuc, ltb_ℤ, ◌<ℤ◌}
use diplomski_rad.Strings.{Mem, memcmp, schar, strcmp, strcmp_from}
use diplomski_rad.Strings.Ends.{IsString, up_to}

-- A memory of bytes.
abbrev pub IsBytes : Mem → Type 0
IsBytes mem = (a : ℕ) → mem a < 256

-- The outcomes of a comparison: equal up to the end, or a first difference, by its sign.
pub data Compared (less : ℕ → ℕ → Type 0) (mem : Mem) (a b n : ℕ) : ℤ → Type 0 where
  same : ((j : ℕ) → j < n → mem (a + j) ≡ mem (b + j)) → Compared less mem a b n (pos 0)
  before :
      (i : ℕ)
      → i < n
      → ((j : ℕ) → j < i → mem (a + j) ≡ mem (b + j))
      → less (mem (a + i)) (mem (b + i))
      → Compared less mem a b n (negsuc 0)
  after :
      (i : ℕ)
      → i < n
      → ((j : ℕ) → j < i → mem (a + j) ≡ mem (b + j))
      → less (mem (b + i)) (mem (a + i))
      → Compared less mem a b n (pos 1)

add_zero : (a : ℕ) → a + 0 ≡ a
add_zero a = omega arith

shift : (a i : ℕ) → a + i + 1 ≡ a + (i + 1)
shift a i = omega arith

agree_of_tests : (x y : ℕ) → ltb x y ≡ false → ltb y x ≡ false → x ≡ y
agree_of_tests x y noless nomore = ground arith

memcmp_from :
    (a b i n : ℕ) (mem : Mem) (k : ℕ)
    → n ≡ i + k
    → ((j : ℕ) → j < i → mem (a + j) ≡ mem (b + j))
    → Compared ◌<◌ mem a b n (memcmp (a + i) (b + i) k mem)
unfolding memcmp
memcmp_from a b i n mem zero e agree = same (λ j small. agree j (omega (arith, e, small)))
memcmp_from a b i n mem (suc k) e agree = elim (Bool-cases (ltb (mem (a + i)) (mem (b + i)))) [
  | inl less ↦ rw less (before i (omega arith) agree (ground arith))
  | inr noless ↦ rw noless (elim (Bool-cases (ltb (mem (b + i)) (mem (a + i)))) [
    | inl more ↦ rw more (after i (omega arith) agree (ground arith))
    | inr nomore ↦
        rw (nomore, shift a i, shift b i)
          (memcmp_from a b (i + 1) n mem k (omega arith)
            (up_to i agree (agree_of_tests (mem (a + i)) (mem (b + i)) noless nomore)))
  ])
]

-- `memcmp` tells whether two blocks agree, and where they do not, the order of the first two bytes
-- that differ.
pub memcmp-Compared : (a b n : ℕ) (mem : Mem) → Compared ◌<◌ mem a b n (memcmp a b n mem)
memcmp-Compared a b n mem =
    let whole =
      memcmp_from a b 0 n mem n (omega arith) (λ j small. absurd (omega (arith, small))) in
    rw (add_zero a, add_zero b) at whole

-- The order of two bytes as characters.
abbrev pub IsCharLess : ℕ → ℕ → Type 0
IsCharLess x y = schar x <ℤ schar y

agree_of_chars :
    (x y : ℕ)
    → x < 256
    → y < 256
    → ltb_ℤ (schar x) (schar y) ≡ false
    → ltb_ℤ (schar y) (schar x) ≡ false
    → x ≡ y
agree_of_chars x y hx hy noless nomore = ground arith

left_of_going :
    (a b i n k : ℕ) (mem : Mem)
    → mem (a + n) ≡ 0
    → n ≡ i + k
    → mem (a + i) ≡ mem (b + i)
    → (not (mem (a + i) == 0) || not (mem (b + i) == 0)) ≡ true
    → 1 ≤ k
left_of_going a b i n zero mem ends e here going = grind arith
left_of_going a b i n (suc k) mem ends e here going = omega arith

both_zero : (x y : ℕ) → (not (x == 0) || not (y == 0)) ≡ false → x ≡ y
both_zero x y ended = ground arith

last_of_ended :
    (a b i n : ℕ) (mem : Mem)
    → IsString mem a n
    → (not (mem (a + i) == 0) || not (mem (b + i) == 0)) ≡ false
    → n ≤ i
last_of_ended a b i n mem string ended = elim (Bool-cases (ltb i n)) [
  | inl e ↦ absurd (string.inside i (ground arith) (ground arith))
  | inr e ↦ ground arith
]

less_of_test : (x y : ℕ) → ltb_ℤ (schar x) (schar y) ≡ true → IsCharLess x y
less_of_test x y less = ground arith

strcmp_from-Compared :
    (a b i n : ℕ) (mem : Mem) (k fuel : ℕ)
    → IsBytes mem
    → IsString mem a n
    → n ≡ i + k
    → k < fuel
    → ((j : ℕ) → j < i → mem (a + j) ≡ mem (b + j))
    → (c : ℤ) × (strcmp_from fuel a b i mem ≡ some c) × Compared IsCharLess mem a b (suc n) c
unfolding strcmp_from
strcmp_from-Compared a b i n mem k zero bytes string e enough agree = absurd (omega arith)
strcmp_from-Compared a b i n mem k (suc fuel) bytes string e enough agree =
    elim (Bool-cases (not (mem (a + i) == 0) || not (mem (b + i) == 0))) [
      | inr ended ↦ rw ended (
        pos 0,
        refl,
        same (λ j small.
            up_to i agree (both_zero (mem (a + i)) (mem (b + i)) ended) j
              (omega (arith, small, last_of_ended a b i n mem string ended))),
      )
      | inl going ↦
          rw going (elim (Bool-cases (ltb_ℤ (schar (mem (a + i))) (schar (mem (b + i))))) [
            | inl less ↦ rw less (
              negsuc 0,
              refl,
              before i (omega arith) agree (less_of_test (mem (a + i)) (mem (b + i)) less),
            )
            | inr noless ↦
                rw noless (elim (Bool-cases (ltb_ℤ (schar (mem (b + i))) (schar (mem (a + i))))) [
                  | inl more ↦ rw more (
                    pos 1,
                    refl,
                    after i (omega arith) agree (less_of_test (mem (b + i)) (mem (a + i)) more),
                  )
                  | inr nomore ↦
                      let here =
                        agree_of_chars (mem (a + i)) (mem (b + i)) (bytes (a + i)) (bytes (b + i))
                          noless nomore in
                      let left = left_of_going a b i n k mem string.ends e here going in
                      rw nomore (
                        strcmp_from-Compared a b (i + 1) n mem (k - 1) fuel bytes string
                          (omega (arith, left)) (omega (arith, left)) (up_to i agree here))
                ])
          ])
    ]

-- strcmp on a string of bytes, within more rounds than its length, ends with 0 exactly where the
-- other string agrees with it, its end included, and otherwise with -1 or 1 by the order of the
-- first two characters that differ, as signed characters.
pub strcmp-Compared :
    (fuel a b n : ℕ) (mem : Mem)
    → IsBytes mem
    → IsString mem a n
    → n < fuel
    → (c : ℤ) × (strcmp fuel a b mem ≡ some c) × Compared IsCharLess mem a b (suc n) c
unfolding strcmp
strcmp-Compared fuel a b n mem bytes string enough =
    strcmp_from-Compared a b 0 n mem n fuel bytes string (omega arith) enough
      (λ j small. absurd (omega (arith, small)))
