-- ===== src/Base/Bytes.antt =====
-- Finite tables: a fact about all triples of small numbers, checked by evaluation.
use mathlib.Core.Path.{◌≡◌}
use mathlib.Core.Bool.{Bool, true, ◌&&◌}
use Prim.Native.Nat.{ℕ, zero, suc, ◌<◌}
use native.Mathlib.Omega.{arith}

-- Whether `test` passes at every number below `size`.
unfoldable pub passes : (test : ℕ → Bool) (size : ℕ) → Bool
passes test zero = true
passes test (suc last) = passes test last && test last

passes_at : (test : ℕ → Bool) (size i : ℕ) → i < size → passes test size ≡ true → test i ≡ true
unfolding passes
passes_at test zero i small ok = absurd (omega (arith, small))
passes_at test (suc last) i small ok = ground (arith, passes_at test last i)

unfoldable pub table : ℕ → ℕ → ℕ → (ℕ → ℕ → ℕ → Bool) → Bool
unfolding passes
table l m n entry = passes (λ a. passes (λ b. passes (entry a b) n) m) l

-- A table that passes holds at each of its entries.
pub table_at :
    (l m n : ℕ) (entry : ℕ → ℕ → ℕ → Bool) (a b c : ℕ)
    → table l m n entry ≡ true
    → a < l
    → b < m
    → c < n
    → entry a b c ≡ true
unfolding table
table_at l m n entry a b c ok la lb lc =
    let row = passes_at (λ x. passes (λ y. passes (entry x y) n) m) l a la ok in
    let column = passes_at (λ y. passes (entry a y) n) m b lb row in
    passes_at (entry a b) n c lc column
