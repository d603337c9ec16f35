-- ===== src/Identifiers/Marks.antt =====
-- The identifiers in use after one is taken or freed.
use Prim.Native.Nat.{bit_and, bit_or, max, min}
use diplomski_rad.Base.{
  ℕ, ◌-◌, ◌/◌, ◌%◌, ◌^◌, ◌<◌, ◌≡◌, ◌≢◌, refl, ◌∙◌, arith, Bool, true, false, ◌||◌, List, ◌==◌,
  if◌then◌else◌, get_or, set, length, get_or-set, Bool-cases, inl, inr, eq_of_test, ne_of_test,
}
use diplomski_rad.Identifiers.{Ids, wbits, mask_words, is_taken, take_id}
use diplomski_rad.Identifiers.Words.{
  digit, bit_test, bit_or-digit, bit_and-digit, power_digit, complement_digit,
}

-- The mask has its words.
abbrev pub IsMasked : Ids → Type 0
IsMasked s = length s.idmask ≡ mask_words

-- Another word in the place of that of `id`.
is_taken-set :
    (mask : List ℕ) (id other v : ℕ)
    → id / wbits < length mask
    → is_taken (set mask (id / wbits) v) other
      ≡ (if id / wbits == other / wbits then digit v (other % wbits) == 1 else is_taken mask other)
is_taken-set mask id other v inside =
    rw (get_or-set mask (id / wbits) (other / wbits) v 0 inside)
      (elim (Bool-cases (id / wbits == other / wbits)) [
        | inl e ↦ rw e (bit_test v (other % wbits))
        | inr e ↦ rw e refl
      ])

same_word : (id other : ℕ) → id / 32 ≡ other / 32 → (other % 32 == id % 32) ≡ (other == id)
same_word id other e = ground arith

other_word : (id other : ℕ) → id / 32 ≢ other / 32 → (other == id) ≡ false
other_word id other e = ground arith

or_bit : (d : ℕ) (b : Bool) → d < 2 → (max d (if b then 1 else 0) == 1) ≡ (b || (d == 1))
or_bit d true small = grind arith
or_bit d false small = grind arith

and_bit :
    (d : ℕ) (b : Bool) → d < 2 → (min d (if b then 0 else 1) == 1) ≡ (if b then false else (d == 1))
and_bit d true small = grind arith
and_bit d false small = grind arith

-- An identifier taken is taken, and the others are as they were.
pub is_taken-take_id :
    (mask : List ℕ) (id other : ℕ)
    → id / wbits < length mask
    → is_taken (take_id mask id) other ≡ ((other == id) || is_taken mask other)
is_taken-take_id mask id other inside =
    is_taken-set mask id other (bit_or (get_or mask (id / wbits) 0) (2 ^ (id % wbits))) inside
    ∙ elim (Bool-cases (id / wbits == other / wbits)) [
      | inl e ↦
          let word = eq_of_test (id / wbits) (other / wbits) e in
          rw
            (
              e,
              bit_test (get_or mask (other / wbits) 0) (other % wbits),
              ← same_word id other word,
              ← word,
              bit_or-digit (get_or mask (id / wbits) 0) (2 ^ (id % wbits)) (other % wbits),
              power_digit (id % wbits) (other % wbits),
            )
            (or_bit (digit (get_or mask (id / wbits) 0) (other % wbits))
              (other % wbits == id % wbits) (omega arith))
      | inr e ↦ rw (e, other_word id other (ne_of_test (id / wbits) (other / wbits) e)) refl
    ]

abbrev pub free_id : List ℕ → ℕ → List ℕ
free_id mask id =
    set mask (id / wbits) (bit_and (get_or mask (id / wbits) 0) (2 ^ 32 - 1 - 2 ^ (id % wbits)))

-- An identifier freed is free, and the others are as they were.
pub is_taken-free_id :
    (mask : List ℕ) (id other : ℕ)
    → id / wbits < length mask
    → is_taken (free_id mask id) other ≡ (if other == id then false else is_taken mask other)
is_taken-free_id mask id other inside =
    is_taken-set mask id other
      (bit_and (get_or mask (id / wbits) 0) (2 ^ 32 - 1 - 2 ^ (id % wbits))) inside
    ∙ elim (Bool-cases (id / wbits == other / wbits)) [
      | inl e ↦
          let word = eq_of_test (id / wbits) (other / wbits) e in
          rw
            (
              e,
              bit_test (get_or mask (other / wbits) 0) (other % wbits),
              ← same_word id other word,
              ← word,
              bit_and-digit (get_or mask (id / wbits) 0) (2 ^ 32 - 1 - 2 ^ (id % wbits))
                  (other % wbits),
              complement_digit (id % wbits) (other % wbits) (omega arith) (omega arith),
            )
            (and_bit (digit (get_or mask (id / wbits) 0) (other % wbits))
              (other % wbits == id % wbits) (omega arith))
      | inr e ↦ rw (e, other_word id other (ne_of_test (id / wbits) (other / wbits) e)) refl
    ]
