-- ===== src/Clock.antt =====
-- lib/types.h: `time_t` and its three inline operations. Seconds and nanoseconds are `int`s; the
-- model takes them as integers, so it describes the code wherever no `int` overflows.
pub mod Order
use diplomski_rad.Base.{ℕ, if◌then◌else◌}
use diplomski_rad.Base.Int.{ℤ, pos, negsuc, ◌+ℤ◌, ◌-ℤ◌, ltb_ℤ, leb_ℤ}

-- `time_t`.
pub record Time : Type 0 where
  pub sec : ℤ
  pub nsec : ℤ

abbrev pub time : ℤ → ℤ → Time
time s n = record { sec = s; nsec = n }

abbrev pub nsec_per_sec : ℕ
nsec_per_sec = 1_000_000_000

unfoldable pub time_add : Time → Time → Time
time_add a b =
    let nsec = a.nsec +ℤ b.nsec in
    if ltb_ℤ (pos nsec_per_sec) nsec
    then time (a.sec +ℤ b.sec +ℤ pos 1) (nsec -ℤ pos nsec_per_sec)
    else time (a.sec +ℤ b.sec) nsec

unfoldable pub time_sub : Time → Time → Time
time_sub a b =
    if leb_ℤ b.nsec a.nsec
    then time (a.sec -ℤ b.sec) (a.nsec -ℤ b.nsec)
    else time (a.sec -ℤ (b.sec +ℤ pos 1)) (a.nsec +ℤ (pos nsec_per_sec -ℤ b.nsec))

unfoldable pub time_cmp : Time → Time → ℤ
time_cmp a b =
    if ltb_ℤ a.sec b.sec
    then negsuc 0
    else if ltb_ℤ b.sec a.sec
    then pos 1
    else if ltb_ℤ a.nsec b.nsec
    then negsuc 0
    else if ltb_ℤ b.nsec a.nsec
    then pos 1
    else pos 0
