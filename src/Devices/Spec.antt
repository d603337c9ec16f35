-- ===== src/Devices/Spec.antt =====
-- A lock: whether it is taken, and the threads that wait for it, the first in front.
use diplomski_rad.Base.{ℕ, Bool, true, false, ◌≡◌, ◌⊎◌, List, [], ◌∷◌, ◌++◌}

pub record Lock : Type 0 where
  pub taken : Bool
  pub waiting : List ℕ

abbrev pub lock : Bool → List ℕ → Lock
lock taken waiting = record { taken = taken; waiting = waiting }

-- Threads wait only for a lock that is taken.
abbrev pub IsFair : Lock → Type 0
IsFair l = (l.taken ≡ true) ⊎ (l.waiting ≡ [])

abbrev acquire_by : ℕ → Bool → List ℕ → Lock
acquire_by me true q = lock true (q ++ me ∷ [])
acquire_by me false q = lock true q

-- A free lock is taken; for a taken one the caller waits behind the others.
abbrev pub acquire : ℕ → Lock → Lock
acquire me l = acquire_by me l.taken l.waiting

abbrev release_by : List ℕ → Lock
release_by [] = lock false []
release_by (t ∷ q) = lock true q

-- The lock goes to the thread that has waited longest, or becomes free.
abbrev pub release : Lock → Lock
release l = release_by l.waiting
