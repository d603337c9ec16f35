-- ===== src/Numerals/Reverse.antt =====
-- The reversal at the end of `itoa`.
use diplomski_rad.Base.{
  ℕ, zero, suc, ◌+◌, ◌-◌, ◌*◌, ◌≤◌, ◌<◌, ◌≡◌, refl, sym, ap, ◌∙◌, ne_of_test, ltb-false, ◌≢◌, inl,
  inr, true, false, ◌&&◌, some, ltb, leb, ◌==◌, if◌then◌else◌, update, arith, Bool-cases,
  eq_of_test, ltb→lt,
}
use diplomski_rad.Strings.{Mem}
use diplomski_rad.Numerals.{reverse}

-- The block from `p1` to `p2` turned round.
abbrev pub mirrored : ℕ → ℕ → Mem → Mem
mirrored p1 p2 mem a = if leb p1 a && leb a p2 then mem (p1 + p2 - a) else mem a

inside :
    (p1 p2 a : ℕ)
    → (leb p1 a && leb a p2) ≡ true
    → a ≢ p1
    → a ≢ p2
    → (leb (p1 + 1) a && leb a (p2 - 1)) ≡ true
inside p1 p2 a within notlow nothigh = ground arith

test_ne : (a b : ℕ) → a ≢ b → (a == b) ≡ false
test_ne a b h = ground arith

inner :
    (p1 p2 : ℕ) (mem : Mem) (a : ℕ)
    → p1 < p2
    → a ≢ p1
    → a ≢ p2
    → (leb p1 a && leb a p2) ≡ true
    → mirrored (p1 + 1) (p2 - 1) (update (update mem p1 (mem p2)) p2 (mem p1)) a
      ≡ mirrored p1 p2 mem a
inner p1 p2 mem a order notlow nothigh within =
    rw
      (
        within,
        inside p1 p2 a (ground arith) notlow nothigh,
        test_ne (p1 + 1 + (p2 - 1) - a) p2 (ground arith),
        test_ne (p1 + 1 + (p2 - 1) - a) p1 (ground arith),
      )
      (ap mem (ground arith))

outer :
    (p1 p2 : ℕ) (mem : Mem) (a : ℕ)
    → p1 < p2
    → a ≢ p1
    → a ≢ p2
    → (leb p1 a && leb a p2) ≡ false
    → mirrored (p1 + 1) (p2 - 1) (update (update mem p1 (mem p2)) p2 (mem p1)) a
      ≡ mirrored p1 p2 mem a
outer p1 p2 mem a order notlow nothigh beyond = ground arith

still : (p1 p2 : ℕ) (mem : Mem) (a : ℕ) → p1 ≤ p2 + 1 → p2 ≤ p1 → mirrored p1 p2 mem a ≡ mem a
still p1 p2 mem a order meet = grind arith

swap_ends :
    (p1 p2 : ℕ) (mem : Mem) (a : ℕ)
    → p1 < p2
    → mirrored (p1 + 1) (p2 - 1) (update (update mem p1 (mem p2)) p2 (mem p1)) a
      ≡ mirrored p1 p2 mem a
swap_ends p1 p2 mem a order = elim (Bool-cases (a == p1)) [
  | inl low ↦ grind (arith, eq_of_test a p1 low)
  | inr notlow ↦ elim (Bool-cases (a == p2)) [
    | inl high ↦ grind (arith, eq_of_test a p2 high)
    | inr nothigh ↦ elim (Bool-cases (leb p1 a && leb a p2)) [
      | inl within ↦
          inner p1 p2 mem a order (ne_of_test a p1 notlow) (ne_of_test a p2 nothigh) within
      | inr beyond ↦
          outer p1 p2 mem a order (ne_of_test a p1 notlow) (ne_of_test a p2 nothigh) beyond
    ]
  ]
]

-- The loop swaps the ends until they meet.
pub reverse_lem :
    (fuel p1 p2 : ℕ) (mem : Mem)
    → p1 ≤ p2 + 1
    → p2 + 1 - p1 < 2 * fuel
    → (after : Mem) × (reverse fuel p1 p2 mem ≡ some after)
      × ((a : ℕ) → after a ≡ mirrored p1 p2 mem a)
unfolding reverse
reverse_lem zero p1 p2 mem order small = absurd (omega arith)
reverse_lem (suc fuel) p1 p2 mem order small = elim (Bool-cases (ltb p1 p2)) [
  | inl e ↦
      let less = ltb→lt p1 p2 e in
      let (after, found, reads) =
        reverse_lem fuel (p1 + 1) (p2 - 1) (update (update mem p1 (mem p2)) p2 (mem p1))
          (omega (arith, less)) (omega (arith, less)) in
      rw e (after, found, λ a. reads a ∙ swap_ends p1 p2 mem a less)
  | inr e ↦ rw e (mem, refl, λ a. sym (still p1 p2 mem a order (ltb-false p1 p2 e)))
]
