-- ===== src/Monitors/Spec.antt =====
-- A monitor that at most one thread owns, with a first-in first-out queue at its entrance.
use diplomski_rad.Base.{ℕ, List, [], ◌∷◌, ◌++◌, ◌≡◌, ◌==◌, if◌then◌else◌}
use diplomski_rad.Base.Members.{first, rest}

-- The owner is 0 where the monitor is free.
pub record Entrance : Type 0 where
  pub owner : ℕ
  pub waiting : List ℕ

abbrev pub entrance : ℕ → List ℕ → Entrance
entrance o q = record { owner = o; waiting = q }

-- No thread waits to enter a free monitor.
abbrev pub IsFair : Entrance → Type 0
IsFair m = m.owner ≡ 0 → m.waiting ≡ []

-- A thread becomes the owner of a free monitor, or waits behind the others.
abbrev pub enter : ℕ → Entrance → Entrance
enter me m = if m.owner == 0 then entrance me m.waiting else entrance m.owner (m.waiting ++ me ∷ [])

-- The thread that has waited longest becomes the owner, or else the monitor is free.
abbrev pub leave : Entrance → Entrance
leave m = entrance (first m.waiting) (rest m.waiting)
