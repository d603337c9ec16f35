-- ===== src/Semaphores/Spec.antt =====
-- A counting semaphore with a first-in first-out queue of waiting threads.
use diplomski_rad.Base.{ℕ, zero, suc, List, [], ◌∷◌, ◌++◌, ◌≡◌, ◌⊎◌}

pub record Counting : Type 0 where
  pub value : ℕ
  pub waiting : List ℕ

abbrev pub counting : ℕ → List ℕ → Counting
counting n q = record { value = n; waiting = q }

-- No thread waits while the value is not 0.
abbrev pub IsFair : Counting → Type 0
IsFair c = (c.value ≡ 0) ⊎ (c.waiting ≡ [])

abbrev post_by : ℕ → List ℕ → Counting
post_by n [] = counting (suc n) []
post_by n (t ∷ q) = counting n q

-- A post serves the thread that has waited longest, or counts.
abbrev pub post : Counting → Counting
post c = post_by c.value c.waiting

abbrev wait_by : ℕ → ℕ → List ℕ → Counting
wait_by me zero q = counting zero (q ++ me ∷ [])
wait_by me (suc n) q = counting n q

-- A wait counts down, or the caller waits behind the others.
abbrev pub wait : ℕ → Counting → Counting
wait me c = wait_by me c.value c.waiting
