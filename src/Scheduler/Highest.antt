-- ===== src/Scheduler/Highest.antt =====
-- `kthread_ready_list_highest` finds the highest priority whose bit is set.
use native.Mathlib.Nat.{pow-suc}
use diplomski_rad.Base.{
  ℕ, zero, suc, ◌+◌, ◌*◌, ◌/◌, ◌%◌, ◌^◌, ◌≤◌, ◌<◌, ◌≡◌, ◌≢◌, refl, inl, inr, Bool, true, false, not,
  ◌&&◌, ◌||◌, Option, none, some, List, arith, ltb, leb, ◌==◌, get_or, Bool-cases, dec_lt,
  eq_of_test, ne_of_test,
}
use diplomski_rad.Base.Bytes.{table, table_at}
use diplomski_rad.Bits.{MsbIndex}
use diplomski_rad.Bits.Msb.{pow_pos}
use diplomski_rad.Threads.{word_size, rdy_masks}
use diplomski_rad.Threads.Masks.{bit, marked, IsMask}
use diplomski_rad.Scheduler.{Env, highest_below}

implies : Bool → Bool → Bool
implies a b = not a || b

top_table :
    table 16 4 4 (λ w m j.
      implies (leb (2 ^ m) w && ltb w (2 ^ (m + 1))) (bit w m && implies (ltb m j) (not (bit w j))))
    ≡ true
unfolding table implies
top_table = refl

zero_table : table 4 1 1 (λ j a b. not (bit 0 j)) ≡ true
unfolding table
zero_table = refl

bit-zero : (j : ℕ) → j < 4 → bit 0 j ≡ false
bit-zero j h = ground (arith, table_at 4 1 1 (λ j a b. not (bit 0 j)) j 0 0 zero_table h)

four_bits : (w m : ℕ) → w < 16 → 2 ^ m ≤ w → m < 4
four_bits w zero h p = omega arith
four_bits w (suc zero) h p = omega arith
four_bits w (suc (suc zero)) h p = omega arith
four_bits w (suc (suc (suc zero))) h p = omega arith
four_bits w (suc (suc (suc (suc m)))) h p = absurd (
    omega (
      arith,
      pow-suc 2 (suc (suc (suc m))),
      pow-suc 2 (suc (suc m)),
      pow-suc 2 (suc m),
      pow-suc 2 m,
      pow_pos m,
    ))

-- The highest bit of a word of the masks.
module _ (w m : ℕ) (small : w < 16) (low : 2 ^ m ≤ w) (high : w < 2 ^ (m + 1)) where
  at_top : (j : ℕ) → j < 4 → (bit w m ≡ true) × (m < j → bit w j ≡ false)
  unfolding implies
  at_top j h = ground (
    arith,
    table_at 16 4 4
        (λ w m j.
          implies (leb (2 ^ m) w && ltb w (2 ^ (m + 1)))
            (bit w m && implies (ltb m j) (not (bit w j))))
        w m j top_table small (four_bits w m small low) h,
  )

-- What the loop over the first `n` words has found: no bit at all, or the highest one.
abbrev pub IsTop : List ℕ → ℕ → Option ℕ → Type 0
IsTop masks n none = (p : ℕ) → p < n * word_size → marked masks p ≡ false
IsTop masks n (some t) =
    (t < n * word_size)
    × (marked masks t ≡ true)
    × ((p : ℕ) → t < p → p < n * word_size → marked masks p ≡ false)

module _ (e : Env) (msb : MsbIndex e.msb_index) (masks : List ℕ) (h : IsMask masks) where
  IsTop-empty :
      (n : ℕ) (r : Option ℕ) → get_or masks n 0 ≡ 0 → IsTop masks n r → IsTop masks (suc n) r
  IsTop-empty n none z top = λ p hp. elim (dec_lt p (n * word_size)) [
    | yes l ↦ top p l
    | no l ↦ let q : p / 4 ≡ n = omega arith in rw (q, z) (bit-zero (p % 4) (omega arith))
  ]
  IsTop-empty n (some t) z top = (
    omega arith,
    top.1,
    λ p l hp. elim (dec_lt p (n * word_size)) [
      | yes l' ↦ top.2 p l l'
      | no l' ↦ let q : p / 4 ≡ n = omega arith in rw (q, z) (bit-zero (p % 4) (omega arith))
    ],
  )

  IsTop-word :
      (n m : ℕ)
      → get_or masks n 0 ≢ 0
      → m ≡ e.msb_index (get_or masks n 0)
      → IsTop masks (suc n) (some (n * word_size + m))
  IsTop-word n m ne q =
      let w = get_or masks n 0 in
      let low : 2 ^ m ≤ w = rw q (msb.low w (omega arith) (omega (arith, h.small n))) in
      let high : w < 2 ^ (m + 1) = rw q (msb.high w (omega arith) (omega (arith, h.small n))) in
      let m4 : m < 4 = four_bits w m (h.small n) low in
      let i : (n * word_size + m) / 4 ≡ n = omega arith in
      let j : (n * word_size + m) % 4 ≡ m = omega arith in
      (
        omega arith,
        rw (i, j) (at_top w m (h.small n) low high 0 (omega arith)).0,
        λ p l hp.
            let k : p / 4 ≡ n = omega arith in
            rw k ((at_top w m (h.small n) low high (p % 4) (omega arith)).1 (omega arith)),
      )

  highest_below-IsTop : (n : ℕ) → IsTop masks n (highest_below e n masks)
  unfolding highest_below
  highest_below-IsTop zero = λ p hp. absurd (omega arith)
  highest_below-IsTop (suc n) = elim (Bool-cases (get_or masks n 0 == 0)) [
    | inl z ↦ rw z (IsTop-empty n _ (eq_of_test _ _ z) (highest_below-IsTop n))
    | inr z ↦ rw z (IsTop-word n _ (ne_of_test _ _ z) refl)
  ]

  -- `kthread_ready_list_highest` returns -1 where no bit is set, and otherwise the highest
  -- priority below `PRIO_LEVELS` whose bit is set.
  pub highest_below_lem : IsTop masks rdy_masks (highest_below e rdy_masks masks)
  highest_below_lem = highest_below-IsTop rdy_masks
