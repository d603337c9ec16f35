-- ===== src/Threads/Masks.antt =====
-- The words of `rdy_mask`: what the two operations on a bit do to all the others.
use Prim.Native.Nat.{bit_and, bit_or}
use diplomski_rad.Base.{
  ℕ, ◌-◌, ◌/◌, ◌%◌, ◌^◌, ◌<◌, ◌≡◌, refl, inl, inr, Bool, true, false, not, ◌&&◌, ◌||◌, List, arith,
  ltb, ◌==◌, if◌then◌else◌, get_or, set, length, length-set, get_or-set, ltb→lt, Bool-cases,
  eq_of_test, ap, ◌∙◌,
}
use diplomski_rad.Base.Bytes.{table, table_at}
use diplomski_rad.Threads.{word_size, rdy_masks, prio_levels}

abbrev pub bit : ℕ → ℕ → Bool
bit m j = m / 2 ^ j % 2 == 1

-- Whether the bit of a priority is set.
abbrev pub marked : List ℕ → ℕ → Bool
marked masks p = bit (get_or masks (p / word_size) 0) (p % word_size)

-- The masks use the low four bits of each of their sixteen words.
pub record IsMask (masks : List ℕ) : Type 0 where
  pub size : length masks ≡ rdy_masks
  pub small : (i : ℕ) → get_or masks i 0 < 2 ^ word_size

abbrev pub mark : List ℕ → ℕ → List ℕ
mark masks p =
    set masks (p / word_size) (bit_or (get_or masks (p / word_size) 0) (2 ^ (p % word_size)))

abbrev pub unmark : List ℕ → ℕ → List ℕ
unmark masks p =
    set masks (p / word_size)
      (bit_and (get_or masks (p / word_size) 0) (2 ^ 32 - 1 - 2 ^ (p % word_size)))

abbrev same : Bool → Bool → Bool
same true b = b
same false b = not b

same-eq : (a b : Bool) → same a b ≡ true → a ≡ b
same-eq a b h = ground arith

or_table :
    table 16 4 4
      (λ m j i. same (bit (bit_or m (2 ^ j)) i) ((i == j) || bit m i) && ltb (bit_or m (2 ^ j)) 16)
    ≡ true
unfolding table
or_table = refl

and_table :
    table 16 4 4 (λ m j i.
      same (bit (bit_and m (2 ^ 32 - 1 - 2 ^ j)) i) (if i == j then false else bit m i)
      && ltb (bit_and m (2 ^ 32 - 1 - 2 ^ j)) 16)
    ≡ true
unfolding table
and_table = refl

both : (a b : Bool) → (a && b) ≡ true → (a ≡ true) × (b ≡ true)
both a b h = ground arith

bit_or-bit :
    (m j i : ℕ)
    → m < 16
    → j < 4
    → i < 4
    → (bit (bit_or m (2 ^ j)) i ≡ ((i == j) || bit m i)) × (bit_or m (2 ^ j) < 16)
bit_or-bit m j i hm hj hi =
    let h = both _ _ (table_at 16 4 4 _ m j i or_table hm hj hi) in
    (same-eq _ _ h.0, ltb→lt _ _ h.1)

bit_and-bit :
    (m j i : ℕ)
    → m < 16
    → j < 4
    → i < 4
    → (bit (bit_and m (2 ^ 32 - 1 - 2 ^ j)) i ≡ (if i == j then false else bit m i))
      × (bit_and m (2 ^ 32 - 1 - 2 ^ j) < 16)
bit_and-bit m j i hm hj hi =
    let h = both _ _ (table_at 16 4 4 _ m j i and_table hm hj hi) in
    (same-eq _ _ h.0, ltb→lt _ _ h.1)

IsMask-set :
    (masks : List ℕ) (i v : ℕ) → IsMask masks → i < rdy_masks → v < 16 → IsMask (set masks i v)
IsMask-set masks i v h hi hv = record {
  size = rw (length-set masks i v) h.size;
  small = λ j. rw (get_or-set masks i j v 0 (omega arith)) (ground (arith, h.small j));
}

-- A new value for the word of `p`, seen at the bit of `r`.
marked-set :
    (masks : List ℕ) (p r v : ℕ)
    → IsMask masks
    → p < prio_levels
    → marked (set masks (p / word_size) v) r
      ≡ (if p / word_size == r / word_size then bit v (r % word_size) else marked masks r)
marked-set masks p r v h hp =
    rw (get_or-set masks (p / word_size) (r / word_size) v 0 (omega arith))
      (elim (Bool-cases (p / word_size == r / word_size)) [ inl e ↦ rw e | inr e ↦ rw e ])

module _ (masks : List ℕ) (p : ℕ) (h : IsMask masks) (hp : p < prio_levels) where
  abbrev word : ℕ
  word = get_or masks (p / word_size) 0

  -- In the word of `p` the place of a bit decides its priority.
  same_level : (r : ℕ) → (p / word_size == r / word_size) ≡ true → (r % 4 == p % 4) ≡ (r == p)
  same_level r e = ground arith

  or_bit :
      (i : ℕ)
      → i < 4
      → (bit (bit_or word (2 ^ (p % 4))) i ≡ ((i == p % 4) || bit word i))
        × (bit_or word (2 ^ (p % 4)) < 16)
  or_bit i hi = bit_or-bit word (p % 4) i (h.small (p / 4)) (omega arith) hi

  and_bit :
      (i : ℕ)
      → i < 4
      → (bit (bit_and word (2 ^ 32 - 1 - 2 ^ (p % 4))) i
          ≡ (if i == p % 4 then false else bit word i))
        × (bit_and word (2 ^ 32 - 1 - 2 ^ (p % 4)) < 16)
  and_bit i hi = bit_and-bit word (p % 4) i (h.small (p / 4)) (omega arith) hi

  pub IsMask-mark : IsMask (mark masks p)
  IsMask-mark = IsMask-set masks (p / word_size) _ h (omega arith) (or_bit 0 (omega arith)).1

  pub IsMask-unmark : IsMask (unmark masks p)
  IsMask-unmark = IsMask-set masks (p / word_size) _ h (omega arith) (and_bit 0 (omega arith)).1

  -- Marking a priority sets its bit and no other.
  pub marked-mark : (r : ℕ) → marked (mark masks p) r ≡ ((r == p) || marked masks r)
  marked-mark r =
      let law =
        bit_or-bit (get_or masks (r / 4) 0) (p % 4) (r % 4) (h.small (r / 4)) (omega arith)
          (omega arith) in
      rw (marked-set masks p r _ h hp) (elim (Bool-cases (p / word_size == r / word_size)) [
        | inl e ↦ rw (e, eq_of_test _ _ e) (law.0 ∙ ap (λ b. b || marked masks r) (same_level r e))
        | inr e ↦ rw e (ground arith)
      ])

  pub marked-unmark :
      (r : ℕ) → marked (unmark masks p) r ≡ (if r == p then false else marked masks r)
  marked-unmark r =
      let law =
        bit_and-bit (get_or masks (r / 4) 0) (p % 4) (r % 4) (h.small (r / 4)) (omega arith)
          (omega arith) in
      rw (marked-set masks p r _ h hp) (elim (Bool-cases (p / word_size == r / word_size)) [
        | inl e ↦
            rw (e, eq_of_test _ _ e)
              (law.0 ∙ ap (λ b. if b then false else marked masks r) (same_level r e))
        | inr e ↦ rw e (ground arith)
      ])
