-- ===== src/Base/Members.antt =====
-- Lists of addresses without repetition: membership, and removal of one address.
use Prim.Native.Nat.{ℕ}
use mathlib.Core.Path.{◌≡◌, refl}
use mathlib.Core.Logic.{◌≢◌, inl, inr}
use mathlib.Core.Bool.{Bool, true, false, ◌||◌, or_assoc}
use mathlib.Core.List.{List, [], ◌∷◌, ◌++◌}
use native.Mathlib.Omega.{arith}
use diplomski_rad.Base.Tests.{◌==◌, if◌then◌else◌, Bool-cases}

unfoldable pub has : ℕ → List ℕ → Bool
has a [] = false
has a (x ∷ xs) = (a == x) || has a xs

unfoldable pub erase : ℕ → List ℕ → List ℕ
erase a [] = []
erase a (x ∷ xs) = if x == a then xs else x ∷ erase a xs

-- The first address, or 0, the null pointer.
unfoldable pub first : List ℕ → ℕ
first [] = 0
first (x ∷ xs) = x

unfoldable pub is_empty : List ℕ → Bool
is_empty [] = true
is_empty (x ∷ xs) = false

unfoldable pub rest : List ℕ → List ℕ
rest [] = []
rest (x ∷ xs) = xs

abbrev pub IsOnce : List ℕ → Type 0
IsOnce [] = Unit {0}
IsOnce (x ∷ xs) = (has x xs ≡ false) × IsOnce xs

pub has-append : (a : ℕ) (xs ys : List ℕ) → has a (xs ++ ys) ≡ (has a xs || has a ys)
unfolding has
has-append a [] ys = refl
has-append a (x ∷ xs) ys = rw (has-append a xs ys, or_assoc)

pub has-snoc : (a b : ℕ) (xs : List ℕ) → has a (xs ++ b ∷ []) ≡ (has a xs || (a == b))
unfolding has
has-snoc a b [] = ground arith
has-snoc a b (x ∷ xs) = ground (arith, has-snoc a b xs)

pub IsOnce-snoc : (a : ℕ) (xs : List ℕ) → IsOnce xs → has a xs ≡ false → IsOnce (xs ++ a ∷ [])
unfolding has
IsOnce-snoc a [] h e = (refl, tt)
IsOnce-snoc a (x ∷ xs) h e = ground (arith, has-snoc x a xs, IsOnce-snoc a xs h.1)

pub has-erase_self : (a : ℕ) (xs : List ℕ) → IsOnce xs → has a (erase a xs) ≡ false
unfolding has erase
has-erase_self a [] h = refl
has-erase_self a (x ∷ xs) h = ground (arith, has-erase_self a xs h.1)

pub has-erase_ne : (a b : ℕ) (xs : List ℕ) → a ≢ b → has a (erase b xs) ≡ has a xs
unfolding has erase
has-erase_ne a b [] h = refl
has-erase_ne a b (x ∷ xs) h = ground (arith, has-erase_ne a b xs h)

pub IsOnce-erase : (a : ℕ) (xs : List ℕ) → IsOnce xs → IsOnce (erase a xs)
unfolding has erase
IsOnce-erase a [] h = tt
IsOnce-erase a (x ∷ xs) h = elim (Bool-cases (x == a)) [
  | inl e ↦ rw e h.1
  | inr e ↦ rw e (rw (has-erase_ne x a xs (ground arith)) h.0, IsOnce-erase a xs h.1)
]

pub is_empty-append : (a : ℕ) (xs : List ℕ) → is_empty (xs ++ a ∷ []) ≡ false
unfolding is_empty
is_empty-append a [] = refl
is_empty-append a (x ∷ xs) = refl

pub is_empty_of_has : (a : ℕ) (xs : List ℕ) → has a xs ≡ true → is_empty xs ≡ false
unfolding is_empty has
is_empty_of_has a [] h = cc
is_empty_of_has a (x ∷ xs) h = refl

pub has-first : (xs : List ℕ) → is_empty xs ≡ false → has (first xs) xs ≡ true
unfolding is_empty has first
has-first [] h = cc
has-first (x ∷ xs) h = ground arith

pub erase-first : (xs : List ℕ) → erase (first xs) xs ≡ rest xs
unfolding erase first rest
erase-first [] = refl
erase-first (x ∷ xs) = ground arith
