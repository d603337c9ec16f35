-- ===== src/Identifiers/Fresh.antt =====
-- What `k_new_unique_id` and `k_free_unique_id` do to the identifiers in use.
use Prim.Native.Nat.{bit_and, bit_or}
use diplomski_rad.Base.{
  ℕ, zero, suc, ◌+◌, ◌-◌, ◌*◌, ◌/◌, ◌%◌, ◌^◌, ◌≤◌, ◌<◌, ◌≡◌, refl, sym, ◌∙◌, arith, ap, true, false,
  ◌&&◌, Option, none, some, List, ltb, ◌==◌, get_or, length, length-set, Bool-cases, inl, inr,
  eq_of_test,
}
use diplomski_rad.Identifiers.{
  Ids, ids, wbits, mask_words, max_resources, has_word, is_taken, take_id, next_id, k_new_unique_id,
  k_free_unique_id,
}
use diplomski_rad.Identifiers.Marks.{IsMasked, free_id, is_taken-take_id, is_taken-free_id}

-- The identifiers after the last one given, up to `n`, are taken.
abbrev pub TakenTo : Ids → ℕ → Type 0
TakenTo s n = (i : ℕ) → s.last_id < i → i < n → is_taken s.idmask i ≡ true

-- The outcomes of a search: the first free identifier after the last one given, or the end of the
-- mask.
pub data Outcome (s : Ids) : Option (ℕ × Ids) → Type 0 where
  given :
      (id : ℕ)
      → s.last_id < id
      → id < mask_words * wbits
      → is_taken s.idmask id ≡ false
      → TakenTo s id
      → Outcome s (some (id, ids (take_id s.idmask id) id))
  beyond : TakenTo s (mask_words * wbits) → Outcome s none

next_mod : (last : ℕ) → last < mask_words * wbits → (last + 1) % max_resources ≡ last + 1
next_mod last small = omega (arith, small)

not_start : (last starting : ℕ) → starting < last + 1 → (last + 1 == starting) ≡ false
not_start last starting after = ground arith

at_bound :
    (s : Ids) (last i : ℕ)
    → IsMasked s
    → has_word s (last + 1) ≡ false
    → i < mask_words * wbits
    → i < last + 1
at_bound s last i masked out high = ground arith

within_bound :
    (s : Ids) (last : ℕ) → IsMasked s → has_word s (last + 1) ≡ true → last + 1 < mask_words * wbits
within_bound s last masked within = ground arith

taken_on :
    (s : Ids) (last i : ℕ)
    → is_taken s.idmask (last + 1) ≡ true
    → TakenTo s (last + 1)
    → s.last_id < i
    → i < last + 1 + 1
    → is_taken s.idmask i ≡ true
taken_on s last i busy taken low high = elim (Bool-cases (i == last + 1)) [
  | inl e ↦ rw (eq_of_test i (last + 1) e) busy
  | inr e ↦ taken i low (ground (arith, high))
]

-- A state further on in the search.
next_id-Outcome :
    (fuel k : ℕ) (s : Ids) (last : ℕ)
    → IsMasked s
    → last + k ≡ mask_words * wbits
    → 1 ≤ k
    → s.last_id < last + 1
    → k ≤ fuel
    → TakenTo s (last + 1)
    → Outcome s (next_id fuel s.last_id (ids s.idmask last))
unfolding next_id
next_id-Outcome zero k s last masked e some_left after enough taken = absurd (omega arith)
next_id-Outcome (suc fuel) k s last masked e some_left after enough taken =
    rw (next_mod last (omega (arith, e, some_left)), not_start last s.last_id after)
      (elim (Bool-cases (has_word s (last + 1))) [
        | inr out ↦ rw out (beyond (λ i low high. taken i low (at_bound s last i masked out high)))
        | inl within ↦
            let bound = within_bound s last masked within in
            rw within (elim (Bool-cases (is_taken s.idmask (last + 1))) [
              | inr free ↦ rw free (given (last + 1) after bound free taken)
              | inl busy ↦ rw busy (
                  next_id-Outcome fuel (k - 1) s (last + 1) masked (omega (arith, e, some_left))
                    (omega (arith, e, bound)) (omega (arith, after)) (omega (arith, enough))
                    (λ i low high. taken_on s last i busy taken low high))
            ])
      ])

-- With a mask of its 31 words and a last identifier below 992, k_new_unique_id gives the first
-- free identifier after the last one and marks it, or else finds all of them up to 991 taken, and
-- then reads the mask out of its bounds.
pub k_new_unique_id-Outcome :
    (s : Ids) → IsMasked s → s.last_id < mask_words * wbits → Outcome s (k_new_unique_id s)
unfolding k_new_unique_id
k_new_unique_id-Outcome s masked small =
    next_id-Outcome max_resources (mask_words * wbits - s.last_id) s s.last_id masked
      (omega (arith, small)) (omega (arith, small)) (omega arith) (omega arith)
      (λ i low high. absurd (omega (arith, low, high)))

-- `o` is an identifier and a state in which it can be given back, which leaves the identifiers in
-- use as they were in `s`.
abbrev pub ComesBack : Ids → Option (ℕ × Ids) → Type 0
ComesBack s o =
    (id : ℕ) × (s' s'' : Ids) × (o ≡ some (id, s'))
    × (k_free_unique_id id s' ≡ some s'')
    × IsMasked s''
    × ((other : ℕ) → is_taken s''.idmask other ≡ is_taken s.idmask other)

inside_mask :
    (mask : List ℕ) (id : ℕ)
    → length mask ≡ mask_words
    → id < mask_words * wbits
    → id / wbits < length mask
inside_mask mask id size small = omega (arith, size, small)

taken_mask-IsMasked :
    (mask : List ℕ) (id : ℕ) → length mask ≡ mask_words → length (take_id mask id) ≡ mask_words
taken_mask-IsMasked mask id size =
    length-set mask (id / wbits) (bit_or (get_or mask (id / wbits) 0) (2 ^ (id % wbits))) ∙ size

in_range :
    (mask : List ℕ) (id : ℕ)
    → 0 < id
    → id < mask_words * wbits
    → length mask ≡ mask_words
    → (ltb 0 id && ltb id max_resources && ltb (id / wbits) (length mask)) ≡ true
in_range mask id lo hi size = ground arith

restored :
    (mask : List ℕ) (id other : ℕ)
    → length mask ≡ mask_words
    → id < mask_words * wbits
    → is_taken mask id ≡ false
    → is_taken (free_id (take_id mask id) id) other ≡ is_taken mask other
restored mask id other size small free =
    is_taken-free_id (take_id mask id) id other
      (inside_mask (take_id mask id) id (taken_mask-IsMasked mask id size) small)
    ∙ elim (Bool-cases (other == id)) [
      | inl e ↦ rw e (sym (ap (is_taken mask) (eq_of_test other id e) ∙ free))
      | inr e ↦ rw e (is_taken-take_id mask id other (inside_mask mask id size small) ∙ rw e refl)
    ]

comes_back :
    (s : Ids) (f : ℕ)
    → IsMasked s
    → s.last_id < f
    → f < mask_words * wbits
    → is_taken s.idmask f ≡ false
    → (o : Option (ℕ × Ids)) → Outcome s o
    → ComesBack s o
unfolding k_free_unique_id
comes_back s f masked low high free o (given id after bound free' taken) =
    let size = taken_mask-IsMasked s.idmask id masked in
    let busy : is_taken (take_id s.idmask id) id ≡ true =
      is_taken-take_id s.idmask id id (inside_mask s.idmask id masked bound) ∙ ground arith in
    (
      id,
      ids (take_id s.idmask id) id,
      ids (free_id (take_id s.idmask id) id) id,
      refl,
      rw (in_range (take_id s.idmask id) id (omega (arith, after)) bound size, busy) refl,
      length-set (take_id s.idmask id) (id / wbits)
            (bit_and (get_or (take_id s.idmask id) (id / wbits) 0) (2 ^ 32 - 1 - 2 ^ (id % wbits)))
          ∙ size,
      λ other. restored s.idmask id other masked bound free',
    )
comes_back s f masked low high free o (beyond taken) = cc (taken f low high, free)

-- With a mask of its 31 words and a free identifier below 992 after the last one, k_new_unique_id
-- gives an identifier that k_free_unique_id takes back, which leaves the identifiers in use as
-- they were before the two.
pub k_free_unique_id-k_new_unique_id :
    (s : Ids) (f : ℕ)
    → IsMasked s
    → s.last_id < f
    → f < mask_words * wbits
    → is_taken s.idmask f ≡ false
    → ComesBack s (k_new_unique_id s)
k_free_unique_id-k_new_unique_id s f masked low high free =
    comes_back s f masked low high free (k_new_unique_id s)
      (k_new_unique_id-Outcome s masked (omega (arith, low, high)))
