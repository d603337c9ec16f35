-- ===== src/MemoryMap/Segments.antt =====
-- The translation between the addresses of a process and those of the kernel.
use diplomski_rad.Base.{
  ℕ, ◌+◌, ◌^◌, ◌<◌, ◌≤◌, ◌≡◌, ◌⊎◌, ◌&&◌, Bool, none, some, ltb, leb, if◌then◌else◌, ◌>>=◌, arith,
}
use diplomski_rad.MemoryMap.{Mseg, k_u2k_adr, k_k2u_adr}

-- The address `kadr` of the kernel lies in the segment.
abbrev pub in_segment : ℕ → Mseg → Bool
in_segment kadr m = leb m.start kadr && ltb kadr (m.start + m.size)

-- One segment ends before the other starts.
abbrev pub AreApart : Mseg → Mseg → Type 0
AreApart m m' = (m.start + m.size ≤ m'.start) ⊎ (m'.start + m'.size ≤ m.start)

module _ (m m' : Mseg) (fits : m.start + m.size < 2 ^ 32) (fits' : m'.start + m'.size < 2 ^ 32)
    (apart : AreApart m m') (uadr kadr : ℕ) where
  there_and_back :
      (k_u2k_adr uadr m >>= (λ a. k_k2u_adr a m)) ≡ (if ltb uadr m.size then some uadr else none)
  unfolding k_u2k_adr k_k2u_adr
  there_and_back = ground arith

  back_and_there :
      (k_k2u_adr kadr m >>= (λ a. k_u2k_adr a m)) ≡ (if in_segment kadr m then some kadr else none)
  unfolding k_u2k_adr k_k2u_adr
  back_and_there = ground arith

  -- An address of one process is none of the other.
  foreign : (k_u2k_adr uadr m >>= (λ a. k_k2u_adr a m')) ≡ none
  unfolding k_u2k_adr k_k2u_adr
  foreign = ground arith

  -- For two processes whose segments do not overlap and end below 2 ^ 32: k_u2k_adr followed by
  -- k_k2u_adr gives an address of a process back if it is less than the size of the segment, and
  -- none otherwise; k_k2u_adr followed by k_u2k_adr gives an address of the kernel back if it
  -- lies in the segment, and none otherwise; and k_k2u_adr of the one process gives none for what
  -- k_u2k_adr of the other gives.
  pub k_u2k_adr-k_k2u_adr :
      ((k_u2k_adr uadr m >>= (λ a. k_k2u_adr a m)) ≡ (if ltb uadr m.size then some uadr else none))
      × ((k_k2u_adr kadr m >>= (λ a. k_u2k_adr a m))
          ≡ (if in_segment kadr m then some kadr else none))
      × ((k_u2k_adr uadr m >>= (λ a. k_k2u_adr a m')) ≡ none)
  k_u2k_adr-k_k2u_adr = (there_and_back, back_and_there, foreign)
